-- ===== src/Base/Copy.antt =====
-- What a copy of bytes in a memory does, for the loops of libc/string.cpp and for the pages of
-- kernel/paging.cpp. A memory is a function from addresses to bytes.
use Prim.Native.Nat.{ℕ, zero, suc, ◌+◌, ◌≤◌, ◌<◌}
use mathlib.Core.Path.{◌≡◌, ◌∙◌}
use mathlib.Core.Logic.{◌≢◌, ◌⊎◌}
use mathlib.Core.Bool.{false}
use native.Mathlib.Omega.{arith}
use yet_another_project_i_ll.Base.Tests.{◌==◌, if◌then◌else◌, ==_ne, ==_refl}

-- `g` is the memory `h` with the `n` bytes at `src` copied to `dst`.
abbrev pub Copied : (ℕ → ℕ) → (dst src n : ℕ) → (ℕ → ℕ) → Type 0
Copied h dst src n g =
    ((i : ℕ) → i < n → g (dst + i) ≡ h (src + i))
    × ((a : ℕ) → ((i : ℕ) → i < n → a ≢ dst + i) → g a ≡ h a)

-- The `n` bytes at `a` and at `b` have no byte in common.
abbrev pub Apart : (a b n : ℕ) → Type 0
Apart a b n = (a + n ≤ b) ⊎ (b + n ≤ a)

pub Copied-step :
    (h g : ℕ → ℕ) (dst src n : ℕ)
    → Apart dst src (suc n)
    → Copied (λ i. if i == dst then h src else h i) (dst + 1) (src + 1) n g
    → Copied h dst src (suc n) g
Copied-step h g dst src n apart (inside, outside) = (bytes, others)
  where
    source : (i : ℕ) → i < n → ((src + 1 + i) == dst) ≡ false
    source i hi = ==_ne (src + 1 + i) dst (λ e. ground arith)

    bytes : (i : ℕ) → i < suc n → g (dst + i) ≡ h (src + i)
    bytes zero hi =
        let d : dst + 0 ≡ dst = omega arith in
        let s : src + 0 ≡ src = omega arith in
        rw (d, s) (outside dst (λ i hi e. omega arith) ∙ rw (==_refl dst))
    bytes (suc i) hi =
        let d : dst + suc i ≡ dst + 1 + i = omega arith in
        let s : src + suc i ≡ src + 1 + i = omega arith in
        let e : g (dst + 1 + i) ≡ h (src + 1 + i) =
          inside i (omega arith) ∙ rw (source i (omega arith)) in
        rw (d, s) e

    others : (a : ℕ) → ((i : ℕ) → i < suc n → a ≢ dst + i) → g a ≡ h a
    others a out =
        let ne : a ≢ dst = λ e. out 0 (omega arith) (omega arith) in
        let below : (i : ℕ) → i < n → a ≢ dst + 1 + i =
          λ i hi e. out (suc i) (omega arith) (omega arith) in
        outside a below ∙ rw (==_ne a dst ne)
