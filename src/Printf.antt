-- ===== src/Printf.antt =====
-- libc/printf.cpp. What is put is the list of its characters. The arguments are 32-bit words (also
-- the pointers and `long`), 64-bit words, and strings; to take one that is not there, or of another
-- kind, is undefined in C and is `abort`. A signed number is given as its word.
pub mod Digits
pub mod Template
mod Tests
use yet_another_project_i_ll.Base.{
  ℕ, zero, suc, ◌+◌, ◌-◌, ◌/◌, ◌%◌, ◌^◌, true, false, ◌||◌, List, [], ◌∷◌, ◌++◌, ltb, ◌==◌,
  if◌then◌else◌, ℤ, pos, negsuc, Outcome, ok, abort, ◌>>=◌,
}

-- The loop of `PrintDecimalImpl`, with the room that is left before the characters in the buffer. A
-- character in front of the buffer is `abort`.
unfoldable pub fill_digits : (room val : ℕ) → List ℕ → Outcome (List ℕ)
fill_digits zero val chars = abort
fill_digits (suc room) val chars = elim (val / 10 == 0) [
  | true ↦ ok ((val % 10 + 48) ∷ chars)
  | false ↦ fill_digits room (val / 10) ((val % 10 + 48) ∷ chars)
]

unfoldable pub print_decimal_impl : (num_digits val : ℕ) → Outcome (List ℕ)
print_decimal_impl num_digits val = fill_digits num_digits val []

unfoldable pub print_decimal : ℕ → Outcome (List ℕ)
print_decimal val = print_decimal_impl 10 val

abbrev pub minus_sign : ℕ
minus_sign = 45

-- `-2147483648`
abbrev pub int32_min_text : List ℕ
int32_min_text = 45 ∷ 50 ∷ 49 ∷ 52 ∷ 55 ∷ 52 ∷ 56 ∷ 51 ∷ 54 ∷ 52 ∷ 56 ∷ []

unfoldable pub print_int : ℕ → Outcome (List ℕ)
print_int val =
    if ltb val (2 ^ 31)
    then print_decimal val
    else if val == 2 ^ 31
    then ok int32_min_text
    else (print_decimal (2 ^ 32 - val) >>= λ chars. ok (minus_sign ∷ chars))

unfoldable pub print_nibble : ℕ → List ℕ
print_nibble val = if ltb val 10 then (48 + val) ∷ [] else (97 + val - 10) ∷ []

unfoldable pub print_hex_8 : ℕ → List ℕ
print_hex_8 val = print_nibble (val / 2 ^ 4) ++ print_nibble (val % 16)

unfoldable pub print_hex_16 : ℕ → List ℕ
print_hex_16 val = print_hex_8 (val / 2 ^ 8 % 2 ^ 8) ++ print_hex_8 (val % 2 ^ 8)

unfoldable pub print_hex_32 : ℕ → List ℕ
print_hex_32 val = print_hex_16 (val / 2 ^ 16 % 2 ^ 16) ++ print_hex_16 (val % 2 ^ 16)

unfoldable pub print_hex_64 : ℕ → List ℕ
print_hex_64 val = print_hex_32 (val / 2 ^ 32 % 2 ^ 32) ++ print_hex_32 (val % 2 ^ 32)

pub data Arg : Type 0 where
  word : ℕ → Arg
  wide : ℕ → Arg
  text : List ℕ → Arg

-- The cases of the three `switch` statements, on the character behind `%`, `%l` and `%ll`
pub data Spec : Type 0 where
  spec_c spec_d spec_u spec_s spec_p spec_x spec_l unknown : Spec

unfoldable pub spec_of : ℕ → Spec
spec_of c =
    if c == 99
    then spec_c
    else if c == 100
    then spec_d
    else if c == 117
    then spec_u
    else if c == 115
    then spec_s
    else if c == 112
    then spec_p
    else if c == 120
    then spec_x
    else if c == 108
    then spec_l
    else unknown

pub data LongLong : Type 0 where
  llx not_handled ll_unknown : LongLong

unfoldable pub long_long_of : ℕ → LongLong
long_long_of c = if c == 120 then llx else if c == 105 || c == 100 then not_handled else ll_unknown

-- What is put before the rest of the format, and what is returned: 0, or -1 for a specification that
-- is not known.
abbrev pub Formatted : Type 0
Formatted = Outcome (List ℕ × ℤ)

abbrev pub emit : List ℕ → Formatted → Formatted
emit chars rest = rest >>= λ (after, result). ok (chars ++ after, result)

abbrev pub stop : ℤ → Formatted
stop result = ok ([], result)

abbrev pub take_word : List Arg → (ℕ → List Arg → Formatted) → Formatted
take_word (word w ∷ args) f = f w args
take_word args f = abort

abbrev pub take_wide : List Arg → (ℕ → List Arg → Formatted) → Formatted
take_wide (wide w ∷ args) f = f w args
take_wide args f = abort

abbrev pub take_text : List Arg → (List ℕ → List Arg → Formatted) → Formatted
take_text (text s ∷ args) f = f s args
take_text args f = abort

-- How much of a specification has been read: nothing, `%`, `%l` or `%ll`
pub data Mode : Type 0 where
  plain percent long long_long : Mode

-- `Format`, on the characters of the format that are left
unfoldable pub format : Mode → List ℕ → List Arg → Formatted
format plain [] args = stop (pos 0)
format plain (c ∷ fmt) args = elim (c == 37) [
  | true ↦ format percent fmt args
  | false ↦ emit (c ∷ []) (format plain fmt args)
]
format percent [] args = stop (negsuc 0)
format percent (c ∷ fmt) args = elim (spec_of c) [
  | spec_c ↦ take_word args (λ w args₁. emit (w % 256 ∷ []) (format plain fmt args₁))
  | spec_d ↦
      take_word args (λ w args₁. print_int w >>= λ chars. emit chars (format plain fmt args₁))
  | spec_u ↦
      take_word args (λ w args₁. print_decimal w >>= λ chars. emit chars (format plain fmt args₁))
  | spec_s ↦ take_text args (λ s args₁. emit s (format plain fmt args₁))
  | spec_p ↦ take_word args (λ w args₁. emit (48 ∷ 120 ∷ print_hex_32 w) (format plain fmt args₁))
  | spec_x ↦ take_word args (λ w args₁. emit (print_hex_32 w) (format plain fmt args₁))
  | spec_l ↦ format long fmt args
  | unknown ↦ stop (negsuc 0)
]
format long [] args =
    take_word args (λ w args₁. print_decimal w >>= λ chars. emit chars (stop (pos 0)))
format long (c ∷ fmt) args = elim (spec_of c) [
  | spec_l ↦ format long_long fmt args
  | spec_x ↦ take_word args (λ w args₁. emit (print_hex_32 w) (format plain fmt args₁))
  | _ ↦ stop (negsuc 0)
]
format long_long [] args = stop (negsuc 0)
format long_long (c ∷ fmt) args = elim (long_long_of c) [
  | llx ↦ take_wide args (λ w args₁. emit (print_hex_64 w) (format plain fmt args₁))
  | not_handled ↦ abort
  | ll_unknown ↦ stop (negsuc 0)
]

-- The characters that `printf` puts; it returns 0 whatever `Format` has returned.
unfoldable pub printf : List ℕ → List Arg → Outcome (List ℕ × ℤ)
printf s args = format plain s args >>= λ (chars, result). ok (chars, pos 0)
