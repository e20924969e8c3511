-- ===== src/String/Blocks.antt =====
-- Bytes that stand in memory one after the other, and writes of such bytes.
use yet_another_project_i_ll.Base.{
  ℕ, suc, ◌+◌, ◌≤◌, ◌<◌, ◌≡◌, refl, ◌∙◌, ◌≢◌, ◌⊎◌, inl, inr, List, [], ◌∷◌, arith, ==_refl, ==_ne,
  length,
}
use yet_another_project_i_ll.String.{Memory, store, put_bytes}

-- The bytes of a list at an address
abbrev pub Bytes : Memory → ℕ → List ℕ → Type 0
Bytes mem at [] = Unit {0}
Bytes mem at (b ∷ bs) = (mem at ≡ b) × Bytes mem (at + 1) bs

-- Two memories that agree on `n` bytes, each from an address of its own
abbrev pub Agree : Memory → ℕ → Memory → ℕ → ℕ → Type 0
Agree m a m' b n = (i : ℕ) → i < n → m' (b + i) ≡ m (a + i)

Agree-tail : (m m' : Memory) (a b n : ℕ) → Agree m a m' b (suc n) → Agree m (a + 1) m' (b + 1) n
Agree-tail m m' a b n h i lt =
    let ea : a + 1 + i ≡ a + suc i = omega arith in
    let eb : b + 1 + i ≡ b + suc i = omega arith in rw (ea, eb) (h (suc i) (omega arith))

pub Bytes-Agree :
    (m m' : Memory) (a b : ℕ) (xs : List ℕ)
    → Agree m a m' b (length xs)
    → Bytes m a xs
    → Bytes m' b xs
Bytes-Agree m m' a b [] h bytes = tt
Bytes-Agree m m' a b (x ∷ xs) h (here, bytes) =
    let ea : a + 0 ≡ a = omega arith in
    let eb : b + 0 ≡ b = omega arith in
    let first : m' b ≡ m a = rw (ea, eb) at (h 0 (omega arith)) in
    (first ∙ here, Bytes-Agree m m' (a + 1) (b + 1) xs (Agree-tail m m' a b (length xs) h) bytes)

store_other : (mem : Memory) (p v a : ℕ) → a ≢ p → store mem p v a ≡ mem a
unfolding store
store_other mem p v a ne = rw (==_ne a p ne) refl

pub store_here : (mem : Memory) (p v : ℕ) → store mem p v p ≡ v
unfolding store
store_here mem p v = rw (==_refl p) refl

pub store_outside : (mem : Memory) (p v a : ℕ) → (a < p) ⊎ (p < a) → store mem p v a ≡ mem a
store_outside mem p v a out =
    store_other mem p v a
      (λ e. elim out [ inl l ↦ absurd (omega arith) | inr r ↦ absurd (omega arith) ])

pub put_bytes-outside :
    (xs : List ℕ) (mem : Memory) (at a : ℕ)
    → (a < at) ⊎ (at + length xs ≤ a)
    → put_bytes mem at xs a ≡ mem a
unfolding put_bytes
put_bytes-outside [] mem at a out = refl
put_bytes-outside (x ∷ xs) mem at a out =
    let rest : (a < at + 1) ⊎ (at + 1 + length xs ≤ a) = elim out [
      | inl l ↦ inl (omega arith)
      | inr r ↦ inr (omega arith)
    ] in
    let here : (a < at) ⊎ (at < a) = elim out [ inl l ↦ inl l | inr r ↦ inr (omega arith) ] in
    put_bytes-outside xs (store mem at x) (at + 1) a rest ∙ store_outside mem at x a here

pub put_bytes-Bytes : (xs : List ℕ) (mem : Memory) (at : ℕ) → Bytes (put_bytes mem at xs) at xs
unfolding put_bytes
put_bytes-Bytes [] mem at = tt
put_bytes-Bytes (x ∷ xs) mem at = (
  put_bytes-outside xs (store mem at x) (at + 1) at (inl (omega arith)) ∙ store_here mem at x,
  put_bytes-Bytes xs (store mem at x) (at + 1),
)
