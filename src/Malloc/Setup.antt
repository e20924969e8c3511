-- ===== src/Malloc/Setup.antt =====
-- The first arena: `SetupNewAllocation` and `Initialize`.
use yet_another_project_i_ll.Base.{
  ℕ, zero, suc, ◌+◌, ◌-◌, ◌%◌, ◌^◌, ◌≤◌, ◌<◌, ◌≡◌, refl, ap, ◌∙◌, ◌≢◌, false, List, [], ◌∷◌, arith,
  lt→ltb, le→leb, ==_refl, ==_ne, ==_yes, ok, Returns,
}
use yet_another_project_i_ll.Malloc.{
  Words, Heap, store_word, size_max, last_alloc_from, get_last_alloc, get_size, is_used,
  header_word, set_used, set_size, is_valid, setup_new_allocation, initialize,
}
use yet_another_project_i_ll.Malloc.Headers.{
  get_size-header_word, is_used-header_word, Arena, Arenas, get_avail_memory_lem,
}

store_word_same : (mem : Words) (at w : ℕ) → store_word mem at w at ≡ w
unfolding store_word
store_word_same mem at w = rw (==_refl at)

store_word_other : (mem : Words) (at w k : ℕ) → k ≢ at → store_word mem at w k ≡ mem k
unfolding store_word
store_word_other mem at w k ne = rw (==_ne k at ne)

set_size_lem :
    (mem : Words) (header size : ℕ)
    → size < 2 ^ 31
    → size % 4 ≡ 0
    → size ≢ 0
    → set_size mem header size
      ≡ ok (store_word mem header (header_word (is_used (mem header)) size))
unfolding set_size
set_size_lem mem header size small quads ne =
    rw (le→leb size size_max (omega arith), ==_yes (size % 4) 0 quads, ==_ne size 0 ne)

module _ (words : Words) (start size : ℕ) (nz : start ≢ 0) (long : 12 < size)
    (aligned : start % 4 ≡ 0) (quads : size % 4 ≡ 0) (small : size - 4 - 8 < 2 ^ 31)
    (top : start + size < 2 ^ 32) where
  abbrev fresh : Words
  fresh = store_word (store_word words start 0) (start + 4) size

  abbrev sized : Words
  sized = store_word fresh (start + 8) (header_word (is_used (fresh (start + 8))) (size - 4 - 8))

  abbrev arena_words : Words
  arena_words = set_used sized (start + 8) false

  head_word : arena_words (start + 8) ≡ header_word false (size - 4 - 8)
  unfolding set_used
  head_word =
      store_word_same sized (start + 8) _
      ∙ ap (header_word false) (
          ap get_size (store_word_same fresh (start + 8) _)
          ∙ get_size-header_word _ (size - 4 - 8) small)

  below : (k : ℕ) → k ≢ start + 8 → arena_words k ≡ fresh k
  unfolding set_used
  below k ne = store_word_other sized (start + 8) _ k ne ∙ store_word_other fresh (start + 8) _ k ne

  next_word : arena_words start ≡ 0
  next_word =
      below start (λ e. absurd (omega arith))
      ∙ store_word_other (store_word words start 0) (start + 4) size start
          (λ e. absurd (omega arith))
      ∙ store_word_same words start 0

  size_word : arena_words (start + 4) ≡ size
  size_word =
      below (start + 4) (λ e. absurd (omega arith))
      ∙ store_word_same (store_word words start 0) (start + 4) size

  head_size_lem : get_size (arena_words (start + 8)) ≡ size - 4 - 8
  head_size_lem = ap get_size head_word ∙ get_size-header_word false (size - 4 - 8) small

  head_free : is_used (arena_words (start + 8)) ≡ false
  head_free = ap is_used head_word ∙ is_used-header_word false (size - 4 - 8) small

  abbrev whole : List Arena
  whole = record { start = start; size = size; blocks = (size - 4 - 8, false) ∷ [] } ∷ []

  whole-Arenas : Arenas arena_words start whole
  whole-Arenas = (
    refl,
    nz,
    size_word,
    top,
    (λ e. absurd (omega (arith, head_size_lem))),
    (head_size_lem, head_free, omega arith, omega arith),
    next_word,
  )

  setup_lem :
      (fuel : ℕ) (h : Heap)
      → h.words ≡ words
      → h.first_alloc ≡ 0
      → setup_new_allocation fuel h start size ≡ ok (record h { words = arena_words })
  unfolding setup_new_allocation get_last_alloc is_valid
  setup_lem fuel h same none_yet =
      let quads₁ : (start + 8) % 4 ≡ 0 = omega arith in
      let quads₂ : get_size (arena_words (start + 8)) % 4 ≡ 0 = omega (arith, head_size_lem) in
      rw (
        ==_ne start 0 nz,
        lt→ltb 8 size (omega arith),
        none_yet,
        same,
        set_size_lem fresh (start + 8) (size - 4 - 8) small (omega arith)
            (λ e. absurd (omega arith)),
        ==_yes _ 0 quads₁,
        ==_yes _ 0 quads₂,
      )

last_alloc_from_end :
    (fuel : ℕ) (mem : Words) (alloc : ℕ)
    → mem alloc ≡ 0
    → last_alloc_from (suc fuel) mem alloc ≡ ok alloc
unfolding last_alloc_from
last_alloc_from_end fuel mem alloc e = rw (last_alloc_from, ==_yes _ 0 e)

-- `Initialize` of a heap without an arena passes its assertions, and leaves one arena that holds one
-- free block of all but 12 of its bytes. The arena and its size are aligned to 4 bytes, it has more
-- than 12 bytes, ends below 4GB, and its block is below 2GB; the fuel is at least 3.
pub initialize-Arenas :
    (fuel : ℕ) (h : Heap) (start size : ℕ)
    → 3 ≤ fuel
    → h.first_alloc ≡ 0
    → start ≢ 0
    → 12 < size
    → start % 4 ≡ 0
    → size % 4 ≡ 0
    → size - 12 < 2 ^ 31
    → start + size < 2 ^ 32
    → Returns
        (λ q.
          (q.first_alloc ≡ start)
          × Arenas q.words start
              (record { start = start; size = size; blocks = (size - 4 - 8, false) ∷ [] } ∷ []))
        (initialize fuel h start size)
unfolding initialize get_last_alloc
initialize-Arenas zero h start size enough none_yet nz long aligned quads small top =
    absurd (omega arith)
initialize-Arenas (suc fuel) h start size enough none_yet nz long aligned quads small top =
    let short : size - 4 - 8 < 2 ^ 31 = omega arith in
    let arenas = whole-Arenas h.words start size nz long aligned quads short top in
    let words₁ : Words = arena_words h.words start size nz long aligned quads short top in
    let placed : Heap = record { first_alloc = start; words = words₁ } in
    let sum : size - 4 - 8 + 0 + 0 ≡ size - 4 - 8 = omega arith in
    let avail =
      get_avail_memory_lem
        (record { start = start; size = size; blocks = (size - 4 - 8, false) ∷ [] } ∷ []) (suc fuel)
        placed enough (omega arith) arenas in
    let last : last_alloc_from (suc fuel) words₁ start ≡ ok start =
      last_alloc_from_end fuel words₁ start
        (next_word h.words start size nz long aligned quads short top) in
    rw
      (
        setup_lem h.words start size nz long aligned quads short top (suc fuel) h refl none_yet,
        avail,
        sum,
        ==_refl (size - 4 - 8),
        ==_ne start 0 nz,
        last,
        ==_refl start,
      )
      (refl, arenas)
