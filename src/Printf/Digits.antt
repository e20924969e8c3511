-- ===== src/Printf/Digits.antt =====
-- The printers of numbers of libc/printf.cpp, against a reader of digits.
use yet_another_project_i_ll.Base.{
  ℕ, zero, suc, ◌+◌, ◌-◌, ◌*◌, ◌/◌, ◌%◌, ◌^◌, ◌≤◌, ◌<◌, ◌≡◌, refl, sym, ap, ap₂, ◌∙◌, ◌≢◌, inl, inr,
  List, [], ◌∷◌, ◌++◌, arith, ltb, ◌==◌, if◌then◌else◌, ==_ne, Bool-cases, ==_yes, length,
  length-append, append_assoc, append_nil, ℤ, pos, negsuc, Returns, Returns-mono, Returns-bind,
}
use yet_another_project_i_ll.Printf.{
  fill_digits, print_decimal_impl, print_decimal, minus_sign, int32_min_text, print_int,
  print_nibble, print_hex_8, print_hex_16, print_hex_32, print_hex_64,
}

-- The number that digits stand for, behind digits that stand for `acc`.
abbrev pub decimal_value : (acc : ℕ) → List ℕ → ℕ
decimal_value acc [] = acc
decimal_value acc (c ∷ cs) = decimal_value (acc * 10 + (c - 48)) cs

abbrev pub AreDigits : List ℕ → Type 0
AreDigits [] = Unit {0}
AreDigits (c ∷ cs) = ((48 ≤ c) × (c < 58)) × AreDigits cs

abbrev pub first : List ℕ → ℕ
first [] = 0
first (c ∷ cs) = c

-- Digits that stand for `val` in front of `chars`, without leading zeros.
pub record Prints (val room : ℕ) (chars out : List ℕ) : Type 0 where
  pub value : decimal_value 0 out ≡ decimal_value val chars
  pub digits : AreDigits chars → AreDigits out
  pub size : length out ≤ room + length chars
  pub leading : val ≢ 0 → first out ≢ 48
  pub longer : length chars < length out
  pub single : val ≡ 0 → length out ≡ suc (length chars)

abbrev pub power_of_10 : ℕ → ℕ
power_of_10 zero = 1
power_of_10 (suc n) = 10 * power_of_10 n

last_digit :
    (room val : ℕ) (chars : List ℕ)
    → val / 10 ≡ 0
    → Prints val (suc room) chars ((val % 10 + 48) ∷ chars)
last_digit room val chars small = record {
  value =
      let same : 0 * 10 + (val % 10 + 48 - 48) ≡ val = omega arith in
      ap (λ a. decimal_value a chars) same;
  digits = λ d. ((omega arith, omega arith), d);
  size = omega arith;
  leading = λ nz e. nz (omega arith);
  longer = omega arith;
  single = λ z. refl;
}

fill_digits-Prints :
    (room val : ℕ) (chars : List ℕ)
    → val < power_of_10 (suc room)
    → Returns (Prints val (suc room) chars) (fill_digits (suc room) val chars)
unfolding fill_digits
fill_digits-Prints zero val chars small =
    let z : val / 10 ≡ 0 = omega arith in
    rw (fill_digits, ==_yes (val / 10) 0 z) (last_digit 0 val chars z)
fill_digits-Prints (suc room) val chars small = elim (Bool-cases (val / 10 == 0)) [
  | inl e ↦
      let z : val / 10 ≡ 0 = ground arith in rw (fill_digits, e) (last_digit (suc room) val chars z)
  | inr ne ↦
      let nz : val / 10 ≢ 0 = λ z. absurd (cc (ne, ==_yes (val / 10) 0 z)) in
      let back : val / 10 * 10 + (val % 10 + 48 - 48) ≡ val = omega arith in
      rw (fill_digits, ne)
        (Returns-mono (Prints (val / 10) (suc room) ((val % 10 + 48) ∷ chars))
          (Prints val (suc (suc room)) chars) _
          (fill_digits-Prints room (val / 10) ((val % 10 + 48) ∷ chars) (omega arith))
          (λ out p. record {
            value = p.value ∙ ap (λ a. decimal_value a chars) back;
            digits = λ d. p.digits ((omega arith, omega arith), d);
            size = omega (arith, p.size);
            leading = λ v. p.leading nz;
            longer = omega (arith, p.longer);
            single = λ z. absurd (nz (omega arith));
          }))
]

-- `PrintDecimal` of a 32-bit number never writes in front of its buffer: it puts one to ten digits,
-- which stand for the number and have no leading zero.
pub print_decimal-Prints : (val : ℕ) → val < 2 ^ 32 → Returns (Prints val 10 []) (print_decimal val)
unfolding print_decimal print_decimal_impl
print_decimal-Prints val small = fill_digits-Prints 9 val [] (omega arith)

-- The number that a text stands for when it is an optional minus sign and digits
abbrev pub int_value : List ℕ → ℤ
int_value [] = pos 0
int_value (c ∷ cs) =
    if c == minus_sign then negsuc (decimal_value 0 cs - 1) else pos (decimal_value 0 (c ∷ cs))

-- The signed number that a 32-bit word stands for
abbrev pub int32 : ℕ → ℤ
int32 w = if ltb w (2 ^ 31) then pos w else negsuc (2 ^ 32 - w - 1)

first_digit : (out : List ℕ) → AreDigits out → int_value out ≡ pos (decimal_value 0 out)
first_digit [] d = refl
first_digit (c ∷ cs) ((lo, hi), d) = rw (==_ne c 45 (λ e. absurd (omega arith)))

-- One digit or more, of which the first is a zero only when it is the only one
abbrev pub IsNumeral : List ℕ → Type 0
IsNumeral [] = ⊥
IsNumeral (c ∷ []) = (48 ≤ c) × (c < 58)
IsNumeral (c ∷ d ∷ cs) = ((48 < c) × (c < 58)) × AreDigits (d ∷ cs)

-- A numeral, or a minus sign and a numeral of a number that is not zero
abbrev pub IsInteger : List ℕ → Type 0
IsInteger [] = ⊥
IsInteger (c ∷ cs) =
    if c == minus_sign then IsNumeral cs × (decimal_value 0 cs ≢ 0) else IsNumeral (c ∷ cs)

Prints-IsNumeral : (val : ℕ) (out : List ℕ) → Prints val 10 [] out → IsNumeral out
Prints-IsNumeral val [] p = absurd (omega (arith, p.longer))
Prints-IsNumeral val (c ∷ []) p = (p.digits tt).0
Prints-IsNumeral val (c ∷ d ∷ cs) p =
    let ((lo, hi), ds) = p.digits tt in
    let nz : val ≢ 0 =
      λ z. let one : suc (suc (length cs)) ≡ 1 = p.single z in absurd (omega arith) in
    let no_zero : c ≢ 48 = p.leading nz in ((omega arith, hi), ds)

IsNumeral-IsInteger : (out : List ℕ) → IsNumeral out → IsInteger out
IsNumeral-IsInteger [] n = n
IsNumeral-IsInteger (c ∷ []) (lo, hi) = rw (==_ne c 45 (λ e. absurd (omega arith))) (lo, hi)
IsNumeral-IsInteger (c ∷ d ∷ cs) ((lo, hi), ds) =
    rw (==_ne c 45 (λ e. absurd (omega arith))) ((lo, hi), ds)

min_numeral : IsInteger int32_min_text
min_numeral = (
  (
    (omega arith, omega arith),
    (
      (omega arith, omega arith),
      (
        (omega arith, omega arith),
        (
          (omega arith, omega arith),
          (
            (omega arith, omega arith),
            (
              (omega arith, omega arith),
              (
                (omega arith, omega arith),
                (
                  (omega arith, omega arith),
                  ((omega arith, omega arith), ((omega arith, omega arith), tt)),
                ),
              ),
            ),
          ),
        ),
      ),
    ),
  ),
  λ z. absurd (omega arith),
)

-- `PrintDecimal` of a signed number puts its usual decimal text: an optional minus sign and one
-- digit or more, without leading zeros and without a minus sign in front of zero, which stand for the
-- number. INT32_MIN is included.
pub print_int-value :
    (val : ℕ)
    → val < 2 ^ 32
    → Returns (λ out. IsInteger out × (int_value out ≡ int32 val)) (print_int val)
unfolding print_int
print_int-value val small = elim (Bool-cases (ltb val (2 ^ 31))) [
  | inl e ↦ rw e (
      Returns-mono (Prints val 10 []) (λ out. IsInteger out × (int_value out ≡ pos val)) _
        (print_decimal-Prints val small)
        (λ out p. (
          IsNumeral-IsInteger out (Prints-IsNumeral val out p),
          first_digit out (p.digits tt) ∙ ap pos p.value,
        )))
  | inr ne ↦ elim (Bool-cases (val == 2 ^ 31)) [
    | inl m ↦ let min : val ≡ 2 ^ 31 = ground arith in rw (ne, m, min) (min_numeral, refl)
    | inr o ↦
        rw (ne, o)
          (Returns-bind (Prints (2 ^ 32 - val) 10 [])
            (λ out. IsInteger out × (int_value out ≡ negsuc (2 ^ 32 - val - 1))) _ _
            (print_decimal-Prints (2 ^ 32 - val) (ground arith))
            (λ out p. (
              (Prints-IsNumeral (2 ^ 32 - val) out p, λ z. absurd (omega (arith, p.value))),
              ap (λ n. negsuc (n - 1)) p.value,
            )))
  ]
]

-- The same for hexadecimal digits
abbrev pub nibble_value : ℕ → ℕ
nibble_value c = if ltb c 58 then c - 48 else c - 87

abbrev pub hex_value : (acc : ℕ) → List ℕ → ℕ
hex_value acc [] = acc
hex_value acc (c ∷ cs) = hex_value (acc * 16 + nibble_value c) cs

-- A text of `n` digits that adds `val` behind any digits, which takes them times `shift`
pub record Adds (val n shift : ℕ) (out : List ℕ) : Type 0 where
  pub size : length out ≡ n
  pub value :
      (acc : ℕ) (rest : List ℕ) → hex_value acc (out ++ rest) ≡ hex_value (acc * shift + val) rest

print_nibble-Adds : (val : ℕ) → val < 16 → Adds val 1 16 (print_nibble val)
unfolding print_nibble
print_nibble-Adds val small = elim (Bool-cases (ltb val 10)) [
  | inl e ↦ rw e (record {
    size = refl;
    value = λ acc rest. let same : nibble_value (48 + val) ≡ val = ground arith in rw same refl;
  })
  | inr ne ↦ rw ne (record {
    size = refl;
    value =
        λ acc rest. let same : nibble_value (97 + val - 10) ≡ val = ground arith in rw same refl;
  })
]

join :
    (hi lo n m s t v u : ℕ) (x y : List ℕ)
    → ((acc : ℕ) → (acc * s + hi) * t + lo ≡ acc * u + v)
    → Adds hi n s x
    → Adds lo m t y
    → Adds v (n + m) u (x ++ y)
join hi lo n m s t v u x y sum a b = record {
  size = length-append x y ∙ ap₂ (λ (i j : ℕ). i + j) a.size b.size;
  value = λ acc rest.
      ap (hex_value acc) (append_assoc x y rest)
      ∙ a.value acc (y ++ rest)
      ∙ b.value (acc * s + hi) rest
      ∙ ap (λ w. hex_value w rest) (sum acc);
}

print_hex_8-Adds : (val : ℕ) → val < 2 ^ 8 → Adds val 2 (2 ^ 8) (print_hex_8 val)
unfolding print_hex_8
print_hex_8-Adds val small =
    join (val / 16) (val % 16) 1 1 16 16 val 256 _ _ (λ acc. omega arith)
      (print_nibble-Adds (val / 16) (omega arith)) (print_nibble-Adds (val % 16) (omega arith))

print_hex_16-Adds : (val : ℕ) → val < 2 ^ 16 → Adds val 4 (2 ^ 16) (print_hex_16 val)
unfolding print_hex_16
print_hex_16-Adds val small =
    join (val / 2 ^ 8 % 2 ^ 8) (val % 2 ^ 8) 2 2 (2 ^ 8) (2 ^ 8) val (2 ^ 16) _ _
      (λ acc. omega arith) (print_hex_8-Adds (val / 2 ^ 8 % 2 ^ 8) (omega arith))
      (print_hex_8-Adds (val % 2 ^ 8) (omega arith))

print_hex_32-Adds : (val : ℕ) → val < 2 ^ 32 → Adds val 8 (2 ^ 32) (print_hex_32 val)
unfolding print_hex_32
print_hex_32-Adds val small =
    join (val / 2 ^ 16 % 2 ^ 16) (val % 2 ^ 16) 4 4 (2 ^ 16) (2 ^ 16) val (2 ^ 32) _ _
      (λ acc. omega arith) (print_hex_16-Adds (val / 2 ^ 16 % 2 ^ 16) (omega arith))
      (print_hex_16-Adds (val % 2 ^ 16) (omega arith))

print_hex_64-Adds : (val : ℕ) → val < 2 ^ 64 → Adds val 16 (2 ^ 64) (print_hex_64 val)
unfolding print_hex_64
print_hex_64-Adds val small =
    join (val / 2 ^ 32 % 2 ^ 32) (val % 2 ^ 32) 8 8 (2 ^ 32) (2 ^ 32) val (2 ^ 64) _ _
      (λ acc. omega arith) (print_hex_32-Adds (val / 2 ^ 32 % 2 ^ 32) (omega arith))
      (print_hex_32-Adds (val % 2 ^ 32) (omega arith))

-- `PrintHex` of a 64-bit number puts sixteen digits, and of a 32-bit number eight, which stand for it.
pub print_hex-value :
    ((val : ℕ)
      → val < 2 ^ 32
      → (length (print_hex_32 val) ≡ 8) × (hex_value 0 (print_hex_32 val) ≡ val))
    × ((val : ℕ)
        → val < 2 ^ 64
        → (length (print_hex_64 val) ≡ 16) × (hex_value 0 (print_hex_64 val) ≡ val))
print_hex-value = (
  λ val small.
      let a : Adds val 8 (2 ^ 32) (print_hex_32 val) = print_hex_32-Adds val small in
      (a.size, sym (ap (hex_value 0) (append_nil (print_hex_32 val))) ∙ a.value 0 [] ∙ omega arith),
  λ val small.
      let a : Adds val 16 (2 ^ 64) (print_hex_64 val) = print_hex_64-Adds val small in
      (a.size, sym (ap (hex_value 0) (append_nil (print_hex_64 val))) ∙ a.value 0 [] ∙ omega arith),
)
