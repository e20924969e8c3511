-- ===== src/Malloc/Headers.antt =====
-- The words of headers, an arena as a row of blocks, and the walk over it.
use yet_another_project_i_ll.Base.{
  ℕ, zero, suc, ◌+◌, ◌/◌, ◌%◌, ◌^◌, ◌≤◌, ◌<◌, ◌≡◌, subst, ◌∙◌, ◌≢◌, Bool, true, false, List, [],
  ◌∷◌, arith, ltb, leb, if◌then◌else◌, lt→ltb, le→leb, ==_ne, ==_yes, length, Outcome, ok,
}
use yet_another_project_i_ll.Malloc.{
  Words, Heap, get_alloc_size, get_size, is_used, header_word, next_header, iter_alloc, iter_allocs,
  iter_malloc_headers, merge_header, merge_malloc_headers, count_free, get_avail_memory,
}

pub get_size-header_word :
    (used : Bool) (size : ℕ) → size < 2 ^ 31 → get_size (header_word used size) ≡ size
unfolding get_size header_word
get_size-header_word true size h = omega arith
get_size-header_word false size h = omega arith

pub is_used-header_word :
    (used : Bool) (size : ℕ) → size < 2 ^ 31 → is_used (header_word used size) ≡ used
unfolding is_used header_word
is_used-header_word true size h = let e : (2 ^ 31 + size) / 2 ^ 31 % 2 ≡ 1 = omega arith in rw e
is_used-header_word false size h = let e : (0 + size) / 2 ^ 31 % 2 ≡ 0 = omega arith in rw e

-- The size of a block, and whether it is used
abbrev pub Block : Type 0
Block = ℕ × Bool

-- The headers from `start` to `end` are those of the blocks, one behind the other.
abbrev pub Tiles : Words → (start end : ℕ) → List Block → Type 0
Tiles mem start end [] = start ≡ end
Tiles mem start end (b ∷ bs) =
    (get_size (mem start) ≡ b.0)
    × (is_used (mem start) ≡ b.1)
    × (start + 4 + b.0 ≤ end)
    × Tiles mem (start + 4 + b.0) end bs

abbrev pub free_bytes : List Block → ℕ
free_bytes [] = 0
free_bytes (b ∷ bs) = (if b.1 then 0 else b.0) + free_bytes bs

module _ {S : Type 0}
    (callback : Words → S → (header alloc alloc_size : ℕ) → Outcome (Bool × Words × S)) where
  pub iter_alloc_done :
      (fuel : ℕ) (mem : Words) (st : S) (start end alloc alloc_size : ℕ)
      → end ≤ start
      → iter_alloc callback (suc fuel) mem st start end alloc alloc_size ≡ ok (true, mem, st)
  unfolding iter_alloc
  iter_alloc_done fuel mem st start end alloc alloc_size h =
      let e : ltb start end ≡ false = ground arith in rw (iter_alloc, e)

  pub iter_alloc_next :
      (fuel : ℕ) (mem mem₁ : Words) (st st₁ : S) (start end alloc alloc_size : ℕ)
      → start < end
      → callback mem st start alloc alloc_size ≡ ok (true, mem₁, st₁)
      → iter_alloc callback (suc fuel) mem st start end alloc alloc_size
        ≡ iter_alloc callback fuel mem₁ st₁ (next_header mem₁ start) end alloc alloc_size
  unfolding iter_alloc
  iter_alloc_next fuel mem mem₁ st st₁ start end alloc alloc_size h c =
      rw (iter_alloc, lt→ltb start end h, c)

  pub iter_alloc_stop :
      (fuel : ℕ) (mem mem₁ : Words) (st st₁ : S) (start end alloc alloc_size : ℕ)
      → start < end
      → callback mem st start alloc alloc_size ≡ ok (false, mem₁, st₁)
      → iter_alloc callback (suc fuel) mem st start end alloc alloc_size ≡ ok (false, mem₁, st₁)
  unfolding iter_alloc
  iter_alloc_stop fuel mem mem₁ st st₁ start end alloc alloc_size h c =
      rw (iter_alloc, lt→ltb start end h, c)

abbrev pub counted : Block → ℕ
counted b = if b.1 then 0 else b.0

count_free_lem :
    (b : Block) (mem : Words) (avail start alloc alloc_size : ℕ)
    → get_size (mem start) ≡ b.0
    → is_used (mem start) ≡ b.1
    → avail + counted b < 2 ^ 32
    → count_free mem avail start alloc alloc_size ≡ ok (true, mem, avail + counted b)
count_free_lem (size, true) mem avail start alloc alloc_size s u h =
    let z : avail + 0 ≡ avail = omega arith in rw (u, z)
count_free_lem (size, false) mem avail start alloc alloc_size s u h =
    let z : (avail + size) % 2 ^ 32 ≡ avail + size = omega arith in rw (u, s, z)

pub iter_alloc-count_free :
    (bs : List Block) (fuel : ℕ) (mem : Words) (avail start end alloc alloc_size : ℕ)
    → length bs < fuel
    → end < 2 ^ 32
    → avail + free_bytes bs < 2 ^ 32
    → Tiles mem start end bs
    → iter_alloc count_free fuel mem avail start end alloc alloc_size
      ≡ ok (true, mem, avail + free_bytes bs)
iter_alloc-count_free bs zero mem avail start end alloc alloc_size h top small tiles =
    absurd (omega arith)
iter_alloc-count_free [] (suc fuel) mem avail start end alloc alloc_size h top small tiles =
    let z : avail + 0 ≡ avail = omega arith in
    rw z (iter_alloc_done count_free fuel mem avail start end alloc alloc_size (omega arith))
iter_alloc-count_free (b ∷ bs) (suc fuel) mem avail start end alloc alloc_size h top small
      (size, mark, inside, tiles) =
    let next : next_header mem start ≡ start + 4 + b.0 = rw size (omega arith) in
    let sum : avail + counted b + free_bytes bs ≡ avail + (counted b + free_bytes bs) =
      omega arith in
    iter_alloc_next count_free fuel mem mem avail (avail + counted b) start end alloc alloc_size
      (omega arith) (count_free_lem b mem avail start alloc alloc_size size mark (omega arith))
    ∙ rw (next, ← sum)
        (iter_alloc-count_free bs fuel mem (avail + counted b) (start + 4 + b.0) end alloc
          alloc_size (omega arith) top (omega arith) tiles)

-- An arena: its place, its size, and its blocks
pub record Arena : Type 0 where
  pub start : ℕ
  pub size : ℕ
  pub blocks : List Block

abbrev pub head_size : List Block → ℕ
head_size [] = 0
head_size (b ∷ bs) = b.0

-- The arenas in memory, linked from the first one on
abbrev pub Arenas : Words → ℕ → List Arena → Type 0
Arenas mem alloc [] = alloc ≡ 0
Arenas mem alloc (a ∷ others) =
    (alloc ≡ a.start)
    × (alloc ≢ 0)
    × (get_alloc_size mem alloc ≡ a.size)
    × (a.start + a.size < 2 ^ 32)
    × (get_size (mem (alloc + 8)) ≢ 0)
    × Tiles mem (a.start + 8) (a.start + a.size) a.blocks
    × Arenas mem (mem alloc) others

abbrev pub free_in : List Arena → ℕ
free_in [] = 0
free_in (a ∷ others) = free_bytes a.blocks + free_in others

-- Enough fuel for the walk over some arenas
abbrev pub steps : List Arena → ℕ
steps [] = 1
steps (a ∷ others) = suc (length a.blocks + steps others)

steps_pos : (others : List Arena) → 0 < steps others
steps_pos [] = omega arith
steps_pos (a ∷ others) = omega arith

iter_allocs-count_free :
    (others : List Arena) (fuel : ℕ) (mem : Words) (avail alloc : ℕ)
    → steps others ≤ fuel
    → avail + free_in others < 2 ^ 32
    → Arenas mem alloc others
    → iter_allocs count_free fuel mem avail alloc ≡ ok (mem, avail + free_in others)
unfolding iter_allocs
iter_allocs-count_free others zero mem avail alloc h small arenas =
    absurd (omega (arith, steps_pos others))
iter_allocs-count_free [] (suc fuel) mem avail alloc h small arenas =
    let z : avail + 0 ≡ avail = omega arith in rw (iter_allocs, ==_yes alloc 0 arenas, z)
iter_allocs-count_free (a ∷ others) (suc fuel) mem avail alloc h small
      (here, nz, size, top, first, tiles, more) =
    let sum : avail + free_bytes a.blocks + free_in others
        ≡ avail + (free_bytes a.blocks + free_in others) =
      omega arith in
    let walk =
      iter_alloc-count_free a.blocks fuel mem avail (alloc + 8) (alloc + a.size) alloc a.size
        (omega (arith, steps_pos others)) (rw here top) (omega arith) (rw here tiles) in
    let whole : (alloc + a.size) % 2 ^ 32 ≡ alloc + a.size = omega arith in
    rw (iter_allocs, ==_ne alloc 0 nz, ==_ne _ 0 first, size, whole, walk, ← sum)
      (iter_allocs-count_free others fuel mem (avail + free_bytes a.blocks) (mem alloc)
        (omega arith) (omega arith) more)

-- `GetAvailMemory` is the number of bytes in free blocks over all arenas, with as much fuel as there
-- are arenas and blocks and one more, when the sum is a 32-bit number.
pub get_avail_memory_lem :
    (others : List Arena) (fuel : ℕ) (h : Heap)
    → steps others ≤ fuel
    → free_in others < 2 ^ 32
    → Arenas h.words h.first_alloc others
    → get_avail_memory fuel h ≡ ok (free_in others)
unfolding get_avail_memory iter_malloc_headers
get_avail_memory_lem others fuel h enough small arenas =
    let z : 0 + free_in others ≡ free_in others = omega arith in
    rw (iter_allocs-count_free others fuel h.words 0 h.first_alloc enough (omega arith) arenas, z)

-- When the first arena is one free block, `MergeMallocHeaders` ends there: the blocks of the arenas
-- behind it stay as they are, free neighbours among them.
pub merge_malloc_headers-stops :
    (fuel : ℕ) (h : Heap) (a : Arena) (n : ℕ) (others : List Arena)
    → 2 ≤ fuel
    → a.blocks ≡ (n, false) ∷ []
    → Arenas h.words h.first_alloc (a ∷ others)
    → merge_malloc_headers fuel h ≡ ok h
unfolding merge_malloc_headers iter_malloc_headers iter_allocs iter_alloc merge_header
merge_malloc_headers-stops zero h a n others enough one arenas = absurd (omega arith)
merge_malloc_headers-stops (suc zero) h a n others enough one arenas = absurd (omega arith)
merge_malloc_headers-stops (suc (suc fuel)) h a n others enough one
      (here, nz, size, top, first, tiles, more) =
    let alloc : ℕ = h.first_alloc in
    let (block, free, inside, ends) =
      subst (Tiles h.words (a.start + 8) (a.start + a.size)) one tiles in
    let start : a.start + 8 < a.start + a.size = omega arith in
    let behind : next_header h.words (alloc + 8) ≡ a.start + a.size =
      rw (here, block) (omega arith) in
    let mark : is_used (h.words (alloc + 8)) ≡ false = rw here free in
    let whole : (alloc + a.size) % 2 ^ 32 ≡ alloc + a.size = omega arith in
    let reach : leb (alloc + a.size) (next_header h.words (alloc + 8)) ≡ true =
      rw behind (le→leb _ _ (omega arith)) in
    let stop : merge_header (suc (suc fuel)) h.words tt (alloc + 8) alloc a.size
        ≡ ok (false, h.words, tt) =
      rw (mark, whole, reach) in
    let walk =
      iter_alloc_stop (merge_header (suc (suc fuel))) fuel h.words h.words tt tt (alloc + 8)
        (alloc + a.size) alloc a.size (rw here start) stop in
    rw (iter_allocs, ==_ne alloc 0 nz, ==_ne _ 0 first, size, whole, walk)
