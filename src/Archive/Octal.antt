-- ===== src/Archive/Octal.antt =====
-- `oct2bin` of libc/ustar.cpp against the octal digits of a number.
use yet_another_project_i_ll.Base.{
  ℕ, zero, suc, ◌+◌, ◌-◌, ◌*◌, ◌/◌, ◌%◌, ◌^◌, ◌≤◌, ◌<◌, ◌≡◌, refl, ap, subst, ◌∙◌, Bool, true,
  false, List, [], ◌∷◌, arith, ltb, lt→ltb, le→leb, length, ok,
}
use yet_another_project_i_ll.String.Blocks.{Bytes}
use yet_another_project_i_ll.Archive.{digit_of, oct2bin_from, oct2bin}
use yet_another_project_i_ll.String.{Memory}

-- `count` octal digits of a number, the highest first, in front of others
abbrev pub octal : (count n : ℕ) → List ℕ → List ℕ
octal zero n digits = digits
octal (suc count) n digits = octal count (n / 8) ((n % 8 + 48) ∷ digits)

abbrev pub power_of_8 : ℕ → ℕ
power_of_8 zero = 1
power_of_8 (suc n) = 8 * power_of_8 n

abbrev octal_value : ℕ → List ℕ → ℕ
octal_value acc [] = acc
octal_value acc (c ∷ cs) = octal_value (acc * 8 + (c - 48)) cs

abbrev AreOctal : List ℕ → Type 0
AreOctal [] = Unit {0}
AreOctal (c ∷ cs) = ((48 ≤ c) × (c < 56)) × AreOctal cs

octal-AreOctal : (count n : ℕ) (digits : List ℕ) → AreOctal digits → AreOctal (octal count n digits)
octal-AreOctal zero n digits h = h
octal-AreOctal (suc count) n digits h =
    octal-AreOctal count (n / 8) ((n % 8 + 48) ∷ digits) ((omega arith, omega arith), h)

octal_value-octal :
    (count n : ℕ) (digits : List ℕ)
    → n < power_of_8 count
    → octal_value 0 (octal count n digits) ≡ octal_value n digits
octal_value-octal zero n digits h = let z : 0 ≡ n = omega arith in ap (λ k. octal_value k digits) z
octal_value-octal (suc count) n digits h =
    let back : n / 8 * 8 + (n % 8 + 48 - 48) ≡ n = omega arith in
    octal_value-octal count (n / 8) ((n % 8 + 48) ∷ digits) (omega arith)
    ∙ ap (λ k. octal_value k digits) back

length-octal :
    (count n : ℕ) (digits : List ℕ) → length (octal count n digits) ≡ count + length digits
length-octal zero n digits = omega arith
length-octal (suc count) n digits =
    omega (arith, length-octal count (n / 8) ((n % 8 + 48) ∷ digits))

next_digit :
    (c n : ℕ)
    → 48 ≤ c
    → c < 56
    → (n % 2 ^ 32 * 8 % 2 ^ 32 + digit_of c) % 2 ^ 32 ≡ (n * 8 + (c - 48)) % 2 ^ 32
unfolding digit_of
next_digit c n lo hi =
    let plain : ltb c 128 ≡ true = lt→ltb c 128 (omega arith) in rw plain (omega arith)

oct2bin-value :
    (debug : Bool) (mem : Memory) (str : ℕ) (digits : List ℕ) (n : ℕ)
    → AreOctal digits
    → Bytes mem str digits
    → oct2bin_from debug mem str (length digits) (n % 2 ^ 32) ≡ ok (octal_value n digits % 2 ^ 32)
unfolding oct2bin_from
oct2bin-value debug mem str [] n octals bytes = refl
oct2bin-value true mem str (c ∷ cs) n ((lo, hi), octals) (here, bytes) =
    rw (oct2bin_from, here, le→leb 48 c lo, lt→ltb c 128 (omega arith), next_digit c n lo hi)
      (oct2bin-value true mem (str + 1) cs (n * 8 + (c - 48)) octals bytes)
oct2bin-value false mem str (c ∷ cs) n ((lo, hi), octals) (here, bytes) =
    rw (oct2bin_from, here, next_digit c n lo hi)
      (oct2bin-value false mem (str + 1) cs (n * 8 + (c - 48)) octals bytes)

-- `oct2bin` of the octal digits of a number that they have room for gives the number, in 32 bits, in a
-- build with assertions and in one without.
pub oct2bin-octal :
    (debug : Bool) (mem : Memory) (str count n : ℕ)
    → n < power_of_8 count
    → Bytes mem str (octal count n [])
    → oct2bin debug mem str count ≡ ok (n % 2 ^ 32)
unfolding oct2bin
oct2bin-octal debug mem str count n h bytes =
    let size : length (octal count n []) ≡ count = omega (arith, length-octal count n []) in
    subst (λ k. oct2bin_from debug mem str k 0 ≡ ok (n % 2 ^ 32)) size
      (oct2bin-value debug mem str (octal count n []) 0 (octal-AreOctal count n [] tt) bytes
        ∙ ap (λ v. ok (v % 2 ^ 32)) (octal_value-octal count n [] h))
