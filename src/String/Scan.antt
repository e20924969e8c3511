-- ===== src/String/Scan.antt =====
-- `strlen`, `strchr`, `strcmp` and `memcmp` of libc/string.cpp on strings as lists of bytes.
use yet_another_project_i_ll.Base.{
  ℕ, zero, suc, ◌+◌, ◌%◌, ◌<◌, ◌≡◌, refl, sym, ap, ◌∙◌, ◌≢◌, ◌↔◌, Option, none, some, List, [], ◌∷◌,
  arith, ◌==◌, if◌then◌else◌, length, ℤ, pos, ◌-ℤ◌, ok, Returns,
}
use yet_another_project_i_ll.String.{Memory, schar, strlen_from, strlen, strcmp, memcmp, strchr}

-- From `p` on lie the non-zero bytes `xs`, and a terminator behind them.
abbrev pub IsStr : Memory → ℕ → List ℕ → Type 0
IsStr mem p [] = mem p ≡ 0
IsStr mem p (x ∷ xs) = (mem p ≡ x) × (x ≢ 0) × IsStr mem (p + 1) xs

strlen_from_lem :
    (xs : List ℕ) (fuel : ℕ) (mem : Memory) (str len : ℕ)
    → length xs < fuel
    → IsStr mem (str + len) xs
    → strlen_from fuel mem str len ≡ ok (len + length xs)
unfolding strlen_from
strlen_from_lem xs zero mem str len h s = absurd (omega arith)
strlen_from_lem [] (suc fuel) mem str len h s = ground arith
strlen_from_lem (x ∷ xs) (suc fuel) mem str len h s =
    let next : str + len + 1 ≡ str + (len + 1) = omega arith in
    ground (arith, strlen_from_lem xs fuel mem str (len + 1) (omega arith) (rw next at (s.2)))

-- With more fuel than characters `strlen` returns their number.
pub strlen_lem :
    (xs : List ℕ) (fuel : ℕ) (mem : Memory) (str : ℕ)
    → length xs < fuel
    → IsStr mem str xs
    → strlen fuel mem str ≡ ok (length xs)
unfolding strlen
strlen_lem xs fuel mem str h s =
    let p : str ≡ str + 0 = omega arith in
    strlen_from_lem xs fuel mem str 0 h (rw p at s) ∙ ap ok (omega arith)

-- Where `c` first occurs, the terminator counted in.
unfoldable pub index_of : List ℕ → ℕ → Option ℕ
index_of [] c = if 0 == c then some 0 else none
index_of (x ∷ xs) c =
    if x == c then some 0 else (elim (index_of xs c) [ none ↦ none | some i ↦ some (i + 1) ])

abbrev pub offset : ℕ → Option ℕ → Option ℕ
offset p none = none
offset p (some i) = some (p + i)

-- With more fuel than characters `strchr` returns the first occurrence of the low byte of `c`, and
-- the terminator for zero.
pub strchr_lem :
    (xs : List ℕ) (fuel : ℕ) (mem : Memory) (src c : ℕ)
    → length xs < fuel
    → IsStr mem src xs
    → strchr fuel mem src c ≡ ok (offset src (index_of xs (c % 256)))
unfolding strchr index_of
strchr_lem xs zero mem src c h s = absurd (omega arith)
strchr_lem [] (suc fuel) mem src c h s = ground arith
strchr_lem (x ∷ xs) (suc fuel) mem src c h s =
    ground (arith, strchr_lem xs fuel mem (src + 1) c (omega arith) (s.2))

-- The result of comparing two strings: the difference of the first characters that differ, as
-- signed numbers.
pub difference : List ℕ → List ℕ → ℤ
difference [] [] = schar 0 -ℤ schar 0
difference [] (y ∷ ys) = schar 0 -ℤ schar y
difference (x ∷ xs) [] = schar x -ℤ schar 0
difference (x ∷ xs) (y ∷ ys) = if x == y then difference xs ys else schar x -ℤ schar y

strcmp_lem :
    (xs ys : List ℕ) (fuel : ℕ) (mem : Memory) (s1 s2 : ℕ)
    → length xs < fuel
    → IsStr mem s1 xs
    → IsStr mem s2 ys
    → strcmp fuel mem s1 s2 ≡ ok (difference xs ys)
unfolding strcmp difference
strcmp_lem xs ys zero mem s1 s2 h a b = absurd (omega arith)
strcmp_lem [] [] (suc fuel) mem s1 s2 h a b = ground arith
strcmp_lem [] (y ∷ ys) (suc fuel) mem s1 s2 h a b = ground arith
strcmp_lem (x ∷ xs) [] (suc fuel) mem s1 s2 h a b = ground arith
strcmp_lem (x ∷ xs) (y ∷ ys) (suc fuel) mem s1 s2 h a b =
    ground (arith, strcmp_lem xs ys fuel mem (s1 + 1) (s2 + 1))

memcmp_same :
    (size : ℕ) (mem : Memory) (lhs rhs : ℕ)
    → mem lhs ≡ mem rhs
    → memcmp mem lhs rhs (suc size) ≡ memcmp mem (lhs + 1) (rhs + 1) size
unfolding memcmp
memcmp_same size mem lhs rhs e = ground arith

schar-injective : (x y : ℕ) → x < 256 → y < 256 → schar x -ℤ schar y ≡ pos 0 → x ≡ y
unfolding schar
schar-injective x y hx hy e = ground arith

schar_self : (x : ℕ) → schar x -ℤ schar x ≡ pos 0
unfolding schar
schar_self x = ground arith

-- The characters are bytes, none of them the terminator.
abbrev pub AreChars : List ℕ → Type 0
AreChars [] = Unit {0}
AreChars (x ∷ xs) = (x < 256) × (x ≢ 0) × AreChars xs

difference_self : (xs : List ℕ) → difference xs xs ≡ pos 0
unfolding difference
difference_self [] = schar_self 0
difference_self (x ∷ xs) = ground (arith, difference_self xs)

eq_of_difference : (xs ys : List ℕ) → AreChars xs → AreChars ys → difference xs ys ≡ pos 0 → xs ≡ ys
unfolding difference
eq_of_difference [] [] a b e = refl
eq_of_difference [] (y ∷ ys) a b e = absurd (b.1 (sym (schar-injective 0 y (omega arith) (b.0) e)))
eq_of_difference (x ∷ xs) [] a b e = absurd (a.1 (schar-injective x 0 (a.0) (omega arith) e))
eq_of_difference (x ∷ xs) (y ∷ ys) a b e =
    ground (arith, eq_of_difference xs ys (a.2) (b.2), schar-injective x y)

-- With more fuel than characters `strcmp` returns, and it returns zero exactly for equal strings.
pub strcmp_zero :
    (xs ys : List ℕ) (fuel : ℕ) (mem : Memory) (s1 s2 : ℕ)
    → length xs < fuel
    → AreChars xs
    → AreChars ys
    → IsStr mem s1 xs
    → IsStr mem s2 ys
    → Returns (λ r. (r ≡ pos 0) ↔ (xs ≡ ys)) (strcmp fuel mem s1 s2)
strcmp_zero xs ys fuel mem s1 s2 h a b s t =
    rw (strcmp_lem xs ys fuel mem s1 s2 h s t)
      (eq_of_difference xs ys a b, λ e. rw (← e) (difference_self xs))

-- `memcmp` on equal buffers returns the difference of the two bytes behind them, which need not be
-- zero.
pub memcmp_equal :
    (size : ℕ) (mem : Memory) (lhs rhs : ℕ)
    → ((i : ℕ) → i < size → mem (lhs + i) ≡ mem (rhs + i))
    → memcmp mem lhs rhs size ≡ pos (mem (lhs + size)) -ℤ pos (mem (rhs + size))
unfolding memcmp
memcmp_equal zero mem lhs rhs h =
    let l : lhs + 0 ≡ lhs = omega arith in let r : rhs + 0 ≡ rhs = omega arith in rw (l, r)
memcmp_equal (suc size) mem lhs rhs h =
    let l : lhs + suc size ≡ lhs + 1 + size = omega arith in
    let r : rhs + suc size ≡ rhs + 1 + size = omega arith in
    let same : mem lhs ≡ mem rhs =
      ap mem (omega_zero lhs) ∙ h 0 (omega arith) ∙ ap mem (sym (omega_zero rhs)) in
    rw (l, r)
      (memcmp_same size mem lhs rhs same
        ∙ memcmp_equal size mem (lhs + 1) (rhs + 1) (λ i hi.
          let l' : lhs + 1 + i ≡ lhs + suc i = omega arith in
          let r' : rhs + 1 + i ≡ rhs + suc i = omega arith in
          rw (l', r') (h (suc i) (omega arith))))
  where
    omega_zero : (p : ℕ) → p ≡ p + 0
    omega_zero p = omega arith
