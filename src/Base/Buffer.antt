-- ===== src/Base/Buffer.antt =====
-- `memcpy` between two buffers, each of them the list of its bytes, and what `malloc` returns. A copy
-- past the end of a buffer is `abort`.
use Prim.Native.Nat.{ℕ, zero, suc, ◌+◌, ◌-◌, ◌*◌, ◌/◌, ◌%◌, ◌^◌, ◌≤◌, ◌<◌}
use mathlib.Core.Path.{◌≡◌, refl, sym, ap, subst}
use mathlib.Core.Bool.{◌&&◌}
use mathlib.Core.Option.{Option, some}
use mathlib.Core.List.{List, [], ◌∷◌, ◌++◌}
use native.Mathlib.Omega.{arith}
use yet_another_project_i_ll.Base.Tests.{leb, le→leb, if◌then◌else◌}
use yet_another_project_i_ll.Base.Lists.{
  length, take, drop, length-append, length-take, length-drop, take-append,
}
use yet_another_project_i_ll.Base.Abort.{Outcome, ok, abort, Returns}

-- `memcpy(dst + at, src, n)` between two buffers
unfoldable pub copy_into : (dst : List ℕ) (at : ℕ) (src : List ℕ) (n : ℕ) → Outcome (List ℕ)
copy_into dst at src n =
    if leb (at + n) (length dst) && leb n (length src)
    then ok (take at dst ++ (take n src ++ drop (at + n) dst))
    else abort

take-append-append :
    (xs ys zs : List ℕ) → take (length xs + length ys) (xs ++ (ys ++ zs)) ≡ xs ++ ys
take-append-append [] ys zs =
    let z : 0 + length ys ≡ length ys = omega arith in rw z (take-append ys zs)
take-append-append (x ∷ xs) ys zs =
    let s : suc (length xs) + length ys ≡ suc (length xs + length ys) = omega arith in
    rw s (ap (λ l. x ∷ l) (take-append-append xs ys zs))

abbrev no_bytes : List ℕ
no_bytes = []

take_nil : (k : ℕ) → take k no_bytes ≡ no_bytes
take_nil zero = refl
take_nil (suc k) = refl

pub drop-take : (n m : ℕ) (xs : List ℕ) → n ≤ m → drop n (take m xs) ≡ take (m - n) (drop n xs)
drop-take zero m xs h = let z : m - 0 ≡ m = omega arith in rw z
drop-take (suc n) zero xs h = absurd (omega arith)
drop-take (suc n) (suc m) [] h = sym (take_nil (suc m - suc n))
drop-take (suc n) (suc m) (x ∷ xs) h =
    let s : suc m - suc n ≡ m - n = omega arith in rw s (drop-take n m xs (omega arith))

pub take-take : (n m : ℕ) (xs : List ℕ) → n ≤ m → take n (take m xs) ≡ take n xs
take-take zero m xs h = refl
take-take (suc n) zero xs h = absurd (omega arith)
take-take (suc n) (suc m) [] h = refl
take-take (suc n) (suc m) (x ∷ xs) h = ap (λ l. x ∷ l) (take-take n m xs (omega arith))

-- A copy into a buffer that is large enough
abbrev pub CopiedInto : List ℕ → ℕ → List ℕ → ℕ → List ℕ → Type 0
CopiedInto dst at src n q = (length q ≡ length dst) × (take (at + n) q ≡ take at dst ++ take n src)

pub copy_into-CopiedInto :
    (dst : List ℕ) (at : ℕ) (src : List ℕ) (n : ℕ)
    → at + n ≤ length dst
    → n ≤ length src
    → Returns (CopiedInto dst at src n) (copy_into dst at src n)
unfolding copy_into
copy_into-CopiedInto dst at src n fits long =
    let at_len : length (take at dst) ≡ at = omega (arith, length-take at dst) in
    let n_len : length (take n src) ≡ n = omega (arith, length-take n src) in
    let sum : length (take at dst) + length (take n src) ≡ at + n = omega arith in
    rw (le→leb (at + n) (length dst) fits, le→leb n (length src) long)
      (
        rw (length-append, length-append, length-drop, at_len, n_len) (omega arith),
        subst
            (λ k.
              take k (take at dst ++ (take n src ++ drop (at + n) dst)) ≡ take at dst ++ take n src)
            sum (take-append-append (take at dst) (take n src) (drop (at + n) dst)),
      )

-- A call of `malloc` for `n` bytes succeeds: it gives a buffer of that size.
abbrev pub Grants : (ℕ → Option (List ℕ)) → ℕ → Type 0
Grants malloc n = (buffer : List ℕ) × (malloc n ≡ some buffer) × (length buffer ≡ n)

-- A 32-bit word in memory: its four bytes, lowest first
unfoldable pub word_bytes : ℕ → List ℕ
word_bytes w = w % 256 ∷ w / 256 % 256 ∷ w / 65536 % 256 ∷ w / 16777216 % 256 ∷ []

unfoldable pub word_of : List ℕ → ℕ
word_of [] = 0
word_of (b ∷ bs) = b + 256 * word_of bs

pub word_of-word_bytes : (w : ℕ) → w < 2 ^ 32 → word_of (word_bytes w) ≡ w
unfolding word_of word_bytes
word_of-word_bytes w h = omega arith
