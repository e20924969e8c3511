-- ===== src/String/Strcpy.antt =====
-- `strncpy` and `strcpy` of libc/string.cpp.
use yet_another_project_i_ll.Base.{
  ℕ, zero, suc, ◌+◌, ◌-◌, ◌≤◌, ◌<◌, ◌≡◌, refl, sym, ◌∙◌, ◌≢◌, List, [], ◌∷◌, arith, ltb,
  if◌then◌else◌, length, get_or, Copied, Apart, Returns, Returns-mono,
}
use yet_another_project_i_ll.String.{Memory, memcpy, strncpy, strcpy}
use yet_another_project_i_ll.String.Move.{memcpy_copies, Filled, memset_lem}
use yet_another_project_i_ll.String.Scan.{IsStr, strlen_lem}
use native.Mathlib.Decide.{dec_lt}

-- A string read character by character, the terminator too.
IsStr-get_or :
    (xs : List ℕ) (mem : Memory) (p i : ℕ)
    → IsStr mem p xs
    → i ≤ length xs
    → mem (p + i) ≡ get_or xs i 0
IsStr-get_or [] mem p i s h = let z : p + i ≡ p = omega arith in rw z s
IsStr-get_or (x ∷ xs) mem p zero s h = let z : p + 0 ≡ p = omega arith in rw z (s.0)
IsStr-get_or (x ∷ xs) mem p (suc i) s h =
    let n : p + suc i ≡ p + 1 + i = omega arith in
    rw n (IsStr-get_or xs mem (p + 1) i (s.2) (omega arith))

get_or_past : (xs : List ℕ) (i : ℕ) → length xs ≤ i → get_or xs i 0 ≡ 0
get_or_past [] i h = refl
get_or_past (x ∷ xs) zero h = absurd (omega arith)
get_or_past (x ∷ xs) (suc i) h = get_or_past xs i (omega arith)

abbrev copied_of : List ℕ → ℕ → ℕ
copied_of xs num = if ltb (length xs) num then length xs else num

-- What `strncpy` leaves at `dst`, and the pointer that it returns.
pub record Copies (mem : Memory) (dst num : ℕ) (xs : List ℕ) (out : Memory × ℕ) : Type 0 where
  pub bytes : (i : ℕ) → i < num → out.0 (dst + i) ≡ get_or xs i 0
  pub others : (a : ℕ) → ((i : ℕ) → i < num → a ≢ dst + i) → out.0 a ≡ mem a
  pub pointer : out.1 ≡ dst + num

-- With more fuel than characters, and with no overlap, `strncpy` writes the first `num` characters,
-- padded by zeros up to `num`, and nothing else. What it returns is the end of what it has written,
-- not `dst`.
pub strncpy_lem :
    (xs : List ℕ) (fuel : ℕ) (mem : Memory) (dst src num : ℕ)
    → length xs < fuel
    → IsStr mem src xs
    → Apart dst src num
    → Returns (Copies mem dst num xs) (strncpy fuel mem dst src num)
unfolding strncpy
strncpy_lem xs fuel mem dst src num h s apart =
    let cpy : ℕ = copied_of xs num in
    let le : cpy ≤ num = ground arith in
    let le_len : cpy ≤ length xs = ground arith in
    let short : cpy < num → length xs ≤ cpy = ground arith in
    let first : Copied mem dst src cpy (memcpy mem dst src cpy) =
      memcpy_copies cpy mem dst src (part cpy le) in
    let all : (i : ℕ) → ¬ (i < cpy) → i < num → length xs ≤ i = λ i q hi. ground arith in
    let pad : Filled (memcpy mem dst src cpy) (dst + cpy) 0 (num - cpy) _ =
      memset_lem (num - cpy) (memcpy mem dst src cpy) (dst + cpy) 0 in
    rw (strlen_lem xs fuel mem src h s) (record {
      bytes = λ i hi. elim (dec_lt i cpy) [
        | yes q ↦
            pad.1 (dst + i) (λ j hj e. omega arith)
            ∙ first.0 i q
            ∙ IsStr-get_or xs mem src i s (omega arith)
        | no q ↦
            let at : dst + i ≡ dst + cpy + (i - cpy) = omega arith in
            rw at (pad.0 (i - cpy) (omega arith)) ∙ sym (get_or_past xs i (all i q hi))
      ];
      others = λ a out.
          pad.1 a (λ j hj e. out (cpy + j) (omega arith) (omega arith))
          ∙ first.1 a (λ j hj e. out j (omega arith) e);
      pointer = omega arith;
    })
  where
    part : (n : ℕ) → n ≤ num → Apart dst src n
    part n le = omega arith

-- `strcpy` writes the characters and no terminator: the byte behind them stays what it was, and the
-- pointer that it returns points there.
strcpy_unterminated :
    (xs : List ℕ) (fuel : ℕ) (mem : Memory) (dst src : ℕ)
    → length xs < fuel
    → IsStr mem src xs
    → Apart dst src (length xs)
    → Returns
        (λ out.
          (out.0 (dst + length xs) ≡ mem (dst + length xs))
          × (out.1 ≡ dst + length xs)
          × ((i : ℕ) → i < length xs → out.0 (dst + i) ≡ get_or xs i 0))
        (strcpy fuel mem dst src)
unfolding strcpy
strcpy_unterminated xs fuel mem dst src h s apart = rw (strlen_lem xs fuel mem src h s) (
    Returns-mono (Copies mem dst (length xs) xs)
      (λ out.
        (out.0 (dst + length xs) ≡ mem (dst + length xs))
        × (out.1 ≡ dst + length xs)
        × ((i : ℕ) → i < length xs → out.0 (dst + i) ≡ get_or xs i 0))
      _ (strncpy_lem xs fuel mem dst src (length xs) h s apart)
      (λ out c. (c.others (dst + length xs) (λ i hi e. omega arith), c.pointer, c.bytes)))
