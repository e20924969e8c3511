-- ===== src/StartParams/Moved.antt =====
-- `UnpackParams` of libc/startparams.cpp at the address that the page has been moved to.
use yet_another_project_i_ll.Base.{
  ℕ, zero, suc, ◌+◌, ◌-◌, ◌*◌, ◌/◌, ◌%◌, ◌^◌, ◌≤◌, ◌<◌, ◌≡◌, refl, sym, subst, ◌∙◌, ◌⊎◌, inl, inr,
  List, [], ◌∷◌, arith, lt→ltb, length, ◌>>=◌, Returns, Returns-bind, word_bytes,
  word_of-word_bytes,
}
use yet_another_project_i_ll.StartParams.Table.{Linked, Packed, pack_entries-Packed}
use yet_another_project_i_ll.StartParams.{
  pack_params, params_size, pack_size, load_word, relocate, unpack_params,
}
use yet_another_project_i_ll.String.Blocks.{
  Bytes, Agree, Bytes-Agree, put_bytes-outside, put_bytes-Bytes,
}
use yet_another_project_i_ll.String.{Memory, put_bytes}

-- The slots hold the addresses of the strings, each with its terminator.
abbrev pub Points : Memory → (slot strs : ℕ) → List (List ℕ) → Type 0
Points mem slot strs [] = Unit {0}
Points mem slot strs (p ∷ ps) =
    (load_word mem slot ≡ strs)
    × Bytes mem strs p
    × (mem (strs + length p) ≡ 0)
    × Points mem (slot + 4) (strs + length p + 1) ps

load_word-Bytes :
    (mem : Memory) (a n : ℕ) → n < 2 ^ 32 → Bytes mem a (word_bytes n) → load_word mem a ≡ n
unfolding load_word word_bytes
load_word-Bytes mem a n small (b0, (b1, (b2, (b3, _)))) =
    let e2 : a + 1 + 1 ≡ a + 2 = omega arith in
    let e3 : a + 1 + 1 + 1 ≡ a + 3 = omega arith in
    let c2 : mem (a + 2) ≡ n / 65536 % 256 = rw e2 at b2 in
    let c3 : mem (a + 3) ≡ n / 16777216 % 256 = rw e3 at b3 in
    rw (b0, b1, c2, c3) (unfold word_bytes in word_of-word_bytes n small)

-- A table with its strings that is copied as a whole is the same table.
Linked-moved :
    (params : List (List ℕ)) (m m' : Memory) (slot slot' d : ℕ)
    → 4 * length params ≤ d
    → Agree m slot m' slot' (d + params_size params)
    → Linked m slot (slot + d) params
    → Linked m' slot' (slot' + d) params
unfolding params_size
Linked-moved [] m m' slot slot' d room agree linked = tt
Linked-moved (p ∷ ps) m m' slot slot' d room agree (w, s, z, rest) =
    let word : slot' + d - slot' ≡ slot + d - slot = omega arith in
    let four : length (word_bytes (slot + d - slot)) ≡ 4 = unfold word_bytes in refl in
    let next : slot + 4 + (d + length p + 1 - 4) ≡ slot + d + length p + 1 = omega arith in
    let next' : slot' + 4 + (d + length p + 1 - 4) ≡ slot' + d + length p + 1 = omega arith in
    (
      rw word (
          Bytes-Agree m m' slot slot' (word_bytes (slot + d - slot)) (λ i h. agree i (omega arith))
            w),
      Bytes-Agree m m' (slot + d) (slot' + d) p (λ i h. shifted d i (omega arith)) s,
      shifted d (length p) (omega arith) ∙ z,
      subst (λ k. Linked m' (slot' + 4) k ps) next'
          (Linked-moved ps m m' (slot + 4) (slot' + 4) (d + length p + 1 - 4) (omega arith)
            (λ i h. shifted 4 i (omega arith))
            (subst (λ k. Linked m (slot + 4) k ps) (sym next) rest)),
    )
  where
    shifted :
        (k i : ℕ)
        → k + i < d + (length p + 1 + params_size ps)
        → m' (slot' + k + i) ≡ m (slot + k + i)
    shifted k i h =
        let e : slot + k + i ≡ slot + (k + i) = omega arith in
        let e' : slot' + k + i ≡ slot' + (k + i) = omega arith in rw (e, e') (agree (k + i) h)

relocate-outside :
    (count : ℕ) (mem : Memory) (slot a : ℕ)
    → (a < slot) ⊎ (slot + 4 * count ≤ a)
    → relocate mem slot count a ≡ mem a
unfolding relocate
relocate-outside zero mem slot a out = refl
relocate-outside (suc count) mem slot a out =
    let new : ℕ = (load_word mem slot + slot) % 2 ^ 32 in
    let four : length (word_bytes new) ≡ 4 = unfold word_bytes in refl in
    relocate-outside count (put_bytes mem slot (word_bytes new)) (slot + 4) a
      (elim out [ inl l ↦ inl (omega arith) | inr r ↦ inr (omega arith) ])
    ∙ put_bytes-outside (word_bytes new) mem slot a
        (elim out [ inl l ↦ inl l | inr r ↦ inr (omega arith) ])

relocate-Points :
    (params : List (List ℕ)) (mem : Memory) (slot strs : ℕ)
    → slot + 4 * length params ≤ strs
    → strs + params_size params ≤ 2 ^ 32
    → Linked mem slot strs params
    → Points (relocate mem slot (length params)) slot strs params
unfolding relocate params_size
relocate-Points [] mem slot strs room small linked = tt
relocate-Points (p ∷ ps) mem slot strs room small (w, s, z, rest) =
    let distance : load_word mem slot ≡ strs - slot =
      load_word-Bytes mem slot (strs - slot) (omega arith) w in
    let whole : (load_word mem slot + slot) % 2 ^ 32 ≡ strs = omega (arith, distance) in
    let new : ℕ = (load_word mem slot + slot) % 2 ^ 32 in
    let four : length (word_bytes new) ≡ 4 = unfold word_bytes in refl in
    let m₁ : Memory = put_bytes mem slot (word_bytes new) in
    let q : Memory = relocate m₁ (slot + 4) (length ps) in
    let kept : (a : ℕ) → strs ≤ a → q a ≡ mem a = λ a h.
      relocate-outside (length ps) m₁ (slot + 4) a (inr (omega arith))
      ∙ put_bytes-outside (word_bytes new) mem slot a (inr (omega arith)) in
    let d : ℕ = strs + length p + 1 - (slot + 4) in
    let next : slot + 4 + d ≡ strs + length p + 1 = omega arith in
    let rest₁ : Linked m₁ (slot + 4) (strs + length p + 1) ps =
      subst (λ k. Linked m₁ (slot + 4) k ps) next
        (Linked-moved ps mem m₁ (slot + 4) (slot + 4) d (omega arith)
          (λ i h. put_bytes-outside (word_bytes new) mem slot (slot + 4 + i) (inr (omega arith)))
          (subst (λ k. Linked mem (slot + 4) k ps) (sym next) rest)) in
    (
      load_word-Bytes q slot strs (omega arith) (
          subst (λ k. Bytes q slot (word_bytes k)) whole
            (Bytes-Agree m₁ q slot slot (word_bytes new)
              (λ i h. relocate-outside (length ps) m₁ (slot + 4) (slot + i) (inl (omega arith)))
              (put_bytes-Bytes (word_bytes new) mem slot))),
      Bytes-Agree mem q strs strs p (λ i h. kept (strs + i) (omega arith)) s,
      kept (strs + length p) (omega arith) ∙ z,
      relocate-Points ps m₁ (slot + 4) (strs + length p + 1) (omega arith) (omega arith) rest₁,
    )

-- `argc`, and `argv` with the strings
abbrev pub Handed : (addr : ℕ) → List (List ℕ) → Memory × ℕ × ℕ → Type 0
Handed addr params (mem, argc, argv) =
    (argc ≡ length params)
    × (argv ≡ addr + 4)
    × Points mem (addr + 4) (addr + 4 + 4 * length params) params

module _ (params : List (List ℕ)) (load_addr addr page_size : ℕ) (aligned : load_addr % 4 ≡ 0)
    (aligned₁ : addr % 4 ≡ 0) (fits : pack_size params < page_size)
    (bottom : load_addr + page_size < 2 ^ 32) (top : addr + page_size ≤ 2 ^ 32)
    (moved : Memory → Memory)
    (copies : (m : Memory) → Agree m load_addr (moved m) addr page_size) where
  unpack_moved :
      (mem q : Memory)
      → Linked q (load_addr + 4) (load_addr + 4 + 4 * length params) params
      → Bytes q load_addr (word_bytes (length params))
      → Returns (Handed addr params) (unpack_params (moved q) addr)
  unfolding unpack_params pack_size
  unpack_moved mem q linked count =
      let four : length (word_bytes (length params)) ≡ 4 = unfold word_bytes in refl in
      let n : ℕ = length params in
      let argc : load_word (moved q) addr ≡ n = load_word-Bytes (moved q) addr n (omega arith) (
        Bytes-Agree q (moved q) load_addr addr (word_bytes n) (λ i h. copies q i (omega arith))
          count) in
      let behind : Agree q (load_addr + 4) (moved q) (addr + 4) (4 * n + params_size params) =
        λ i h.
          let e : load_addr + 4 + i ≡ load_addr + (4 + i) = omega arith in
          let e₁ : addr + 4 + i ≡ addr + (4 + i) = omega arith in
          rw (e, e₁) (copies q (4 + i) (omega arith)) in
      let next : (addr + 4) % 4 ≡ 0 = omega arith in
      rw (aligned₁, next, argc, lt→ltb n (2 ^ 31) (omega arith))
        (
          refl,
          refl,
          relocate-Points params (moved q) (addr + 4) (addr + 4 + 4 * n) (omega arith) (omega arith)
              (Linked-moved params q (moved q) (load_addr + 4) (addr + 4) (4 * n) (omega arith)
                behind linked),
        )

  -- What `PackParams` writes to an aligned page that the parameters fit in with a byte to spare, that
  -- ends below 4GB, and that is then mapped at another aligned address, `UnpackParams` reads there: `argc` is the number of parameters, and
  -- each slot of `argv` holds the address of a copy of its parameter with a terminator.
  pub unpack_params-pack_params :
      (mem : Memory)
      → Returns
          (Handed addr params)
          (pack_params mem load_addr page_size params >>= λ q. unpack_params (moved q) addr)
  unfolding pack_params pack_size
  unpack_params-pack_params mem =
      let n : ℕ = length params in
      let four : length (word_bytes n) ≡ 4 = unfold word_bytes in refl in
      let next : (load_addr + 4) % 4 ≡ 0 = omega arith in
      let counted : Memory = put_bytes mem load_addr (word_bytes n) in
      let whole : (load_addr + page_size) % 2 ^ 32 ≡ load_addr + page_size = omega arith in
      rw (aligned, next, whole)
        (Returns-bind (Packed counted (load_addr + 4) (load_addr + 4 + 4 * n) params)
          (Handed addr params) _ _
          (pack_entries-Packed params counted (load_addr + 4) (load_addr + 4 + 4 * n)
            (load_addr + page_size) (omega arith) (omega arith))
          (λ q (linked, same). unpack_moved mem q linked (
            Bytes-Agree counted q load_addr load_addr (word_bytes n)
              (λ i h. same (load_addr + i) (inl (omega arith), inl (omega arith)))
              (put_bytes-Bytes (word_bytes n) mem load_addr))))
