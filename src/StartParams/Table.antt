-- ===== src/StartParams/Table.antt =====
-- What `PackParams` of libc/startparams.cpp leaves in memory.
use yet_another_project_i_ll.Base.{
  ℕ, ◌+◌, ◌-◌, ◌*◌, ◌≤◌, ◌<◌, ◌≡◌, refl, ◌∙◌, ◌⊎◌, inl, inr, List, [], ◌∷◌, arith, ltb, lt→ltb,
  length, Returns, Returns-mono, Returns-assert, word_bytes,
}
use yet_another_project_i_ll.String.Blocks.{
  Bytes, Bytes-Agree, store_here, store_outside, put_bytes-outside, put_bytes-Bytes,
}
use yet_another_project_i_ll.StartParams.{pack_entries, params_size}
use yet_another_project_i_ll.String.{Memory, store, put_bytes}

-- The slots hold the distances to the strings, which stand one behind the other.
abbrev pub Linked : Memory → (slot strs : ℕ) → List (List ℕ) → Type 0
Linked mem slot strs [] = Unit {0}
Linked mem slot strs (p ∷ ps) =
    Bytes mem slot (word_bytes (strs - slot))
    × Bytes mem strs p
    × (mem (strs + length p) ≡ 0)
    × Linked mem (slot + 4) (strs + length p + 1) ps

-- Neither in the slots nor among the strings
abbrev pub Outside : (slot strs : ℕ) → List (List ℕ) → ℕ → Type 0
Outside slot strs params a =
    ((a < slot) ⊎ (slot + 4 * length params ≤ a)) × ((a < strs) ⊎ (strs + params_size params ≤ a))

abbrev pub Packed : Memory → (slot strs : ℕ) → List (List ℕ) → Memory → Type 0
Packed mem slot strs params q =
    Linked q slot strs params × ((a : ℕ) → Outside slot strs params a → q a ≡ mem a)

length-word_bytes : (n : ℕ) → length (word_bytes n) ≡ 4
unfolding word_bytes
length-word_bytes n = refl

-- One entry, with nothing else changed
abbrev entry : Memory → (slot strs : ℕ) → List ℕ → Memory
entry mem slot strs p =
    put_bytes (store (put_bytes mem strs p) (strs + length p) 0) slot (word_bytes (strs - slot))

entry_outside :
    (mem : Memory) (slot strs : ℕ) (p : List ℕ) (a : ℕ)
    → (a < slot) ⊎ (slot + 4 ≤ a)
    → (a < strs) ⊎ (strs + length p + 1 ≤ a)
    → entry mem slot strs p a ≡ mem a
entry_outside mem slot strs p a x y =
    put_bytes-outside (word_bytes (strs - slot)) (store (put_bytes mem strs p) (strs + length p) 0)
      slot a
      (elim x [ inl l ↦ inl l | inr r ↦ inr (omega (arith, length-word_bytes (strs - slot))) ])
    ∙ store_outside (put_bytes mem strs p) (strs + length p) 0 a
        (elim y [ inl l ↦ inl (omega arith) | inr r ↦ inr (omega arith) ])
    ∙ put_bytes-outside p mem strs a (elim y [ inl l ↦ inl l | inr r ↦ inr (omega arith) ])

entry_string :
    (mem : Memory) (slot strs : ℕ) (p : List ℕ)
    → slot + 4 ≤ strs
    → Bytes (entry mem slot strs p) strs p × (entry mem slot strs p (strs + length p) ≡ 0)
entry_string mem slot strs p room =
    let four : length (word_bytes (strs - slot)) ≡ 4 = length-word_bytes (strs - slot) in
    let ended : Memory = store (put_bytes mem strs p) (strs + length p) 0 in
    (
      Bytes-Agree (put_bytes mem strs p) (entry mem slot strs p) strs strs p
          (λ i h.
            put_bytes-outside (word_bytes (strs - slot)) ended slot (strs + i) (inr (omega arith))
            ∙ store_outside (put_bytes mem strs p) (strs + length p) 0 (strs + i)
                (inl (omega arith)))
          (put_bytes-Bytes p mem strs),
      put_bytes-outside (word_bytes (strs - slot)) ended slot (strs + length p) (inr (omega arith))
          ∙ store_here (put_bytes mem strs p) (strs + length p) 0,
    )

pub pack_entries-Packed :
    (params : List (List ℕ)) (mem : Memory) (slot strs end : ℕ)
    → slot + 4 * length params ≤ strs
    → strs + params_size params < end
    → Returns (Packed mem slot strs params) (pack_entries mem slot strs end params)
unfolding pack_entries params_size
pack_entries-Packed [] mem slot strs end room fits = (tt, λ a out. refl)
pack_entries-Packed (p ∷ ps) mem slot strs end room fits =
    let four : length (word_bytes (strs - slot)) ≡ 4 = length-word_bytes (strs - slot) in
    let m₁ : Memory = entry mem slot strs p in
    let s : Bytes m₁ strs p × (m₁ (strs + length p) ≡ 0) =
      entry_string mem slot strs p (omega arith) in
    Returns-assert (Packed mem slot strs (p ∷ ps)) (ltb (strs + length p + 1) end) _
      (lt→ltb (strs + length p + 1) end (omega arith))
      (Returns-mono (Packed m₁ (slot + 4) (strs + length p + 1) ps) (Packed mem slot strs (p ∷ ps))
        _
        (pack_entries-Packed ps m₁ (slot + 4) (strs + length p + 1) end (omega arith) (omega arith))
        (λ q (linked, same). (
          (
            Bytes-Agree m₁ q slot slot (word_bytes (strs - slot))
                (λ i h. same (slot + i) (inl (omega arith), inl (omega arith)))
                (put_bytes-Bytes (word_bytes (strs - slot)) _ slot),
            Bytes-Agree m₁ q strs strs p
                (λ i h. same (strs + i) (inr (omega arith), inl (omega arith))) (s.0),
            same (strs + length p) (inr (omega arith), inl (omega arith)) ∙ s.1,
            linked,
          ),
          λ a (x, y).
              same a (
                elim x [ inl l ↦ inl (omega arith) | inr r ↦ inr (omega arith) ],
                elim y [ inl l ↦ inl (omega arith) | inr r ↦ inr (omega arith) ],
              )
              ∙ entry_outside mem slot strs p a
                  (elim x [ inl l ↦ inl l | inr r ↦ inr (omega arith) ])
                  (elim y [ inl l ↦ inl l | inr r ↦ inr (omega arith) ]),
        )))
