-- ===== src/Malloc.antt =====
-- libc/malloc.cpp: the arenas and headers of the allocator. Memory is a function from the address
-- of a 32-bit word to the word. A header is such a word, its low 31 bits the size and bit 31
-- `used_`; an arena starts with the address of the next one and its own size. `gFirstAlloc` and the
-- memory are the record `Heap`. A loop over headers or arenas runs on fuel and is `abort` without.
pub mod Headers
pub mod Alloc
pub mod Setup
mod Tests
use yet_another_project_i_ll.Base.{
  ℕ, zero, suc, ◌+◌, ◌-◌, ◌/◌, ◌%◌, ◌^◌, Bool, true, false, not, ◌&&◌, ◌||◌, ltb, leb, ◌==◌,
  if◌then◌else◌, Outcome, ok, abort, ◌>>=◌, ◌>>◌, assert,
}

abbrev pub Words : Type 0
Words = ℕ → ℕ

pub record Heap : Type 0 where
  pub first_alloc : ℕ
  pub words : Words

unfoldable pub store_word : Words → ℕ → ℕ → Words
store_word mem at w = λ a. if a == at then w else mem a

abbrev pub alloc_offset : ℕ
alloc_offset = 8

abbrev pub min_size : ℕ
min_size = 4

abbrev pub size_max : ℕ
size_max = 2 ^ 31 - 1

abbrev pub get_alloc_size : Words → ℕ → ℕ
get_alloc_size mem alloc = mem (alloc + 4)

abbrev pub get_next_alloc : Words → ℕ → ℕ
get_next_alloc mem alloc = mem alloc

-- `GetLastAlloc`, from an arena on
unfoldable pub last_alloc_from : ℕ → Words → ℕ → Outcome ℕ
last_alloc_from zero mem alloc = abort
last_alloc_from (suc fuel) mem alloc = elim (get_next_alloc mem alloc == 0) [
  | true ↦ ok alloc
  | false ↦ last_alloc_from fuel mem (get_next_alloc mem alloc)
]

unfoldable pub get_last_alloc : ℕ → Heap → Outcome ℕ
get_last_alloc fuel h =
    if h.first_alloc == 0 then ok 0 else last_alloc_from fuel h.words h.first_alloc

-- The methods of `MallocHeader`, on the word
unfoldable pub get_size : ℕ → ℕ
get_size w = w % 2 ^ 31

unfoldable pub is_used : ℕ → Bool
is_used w = not (w / 2 ^ 31 % 2 == 0)

unfoldable pub header_word : Bool → ℕ → ℕ
header_word used size = (if used then 2 ^ 31 else 0) + size

unfoldable pub set_used : Words → (header : ℕ) → Bool → Words
set_used mem header used = store_word mem header (header_word used (get_size (mem header)))

unfoldable pub set_size : Words → (header size : ℕ) → Outcome Words
set_size mem header size = do
  assert (leb size size_max)
  assert (size % min_size == 0)
  assert (not (size == 0))
  ok (store_word mem header (header_word (is_used (mem header)) size))

unfoldable pub inc_size : Words → (header inc : ℕ) → Outcome Words
inc_size mem header inc = do
  let sum = (get_size (mem header) + inc) % 2 ^ 32
  assert (leb (get_size (mem header)) sum && leb sum size_max)
  assert (not (sum == 0))
  ok (store_word mem header (header_word (is_used (mem header)) sum))

unfoldable pub is_valid : Words → ℕ → Bool
is_valid mem header = header % 4 == 0 && get_size (mem header) % 4 == 0

-- The address behind a header and its bytes
abbrev pub next_header : Words → ℕ → ℕ
next_header mem header = (header + 4 + get_size (mem header)) % 2 ^ 32

module _ {S : Type 0}
    (callback : Words → S → (header alloc alloc_size : ℕ) → Outcome (Bool × Words × S)) where
  -- The headers of one arena from `start` on; `false` when the callback has stopped the iteration
  unfoldable pub iter_alloc :
      ℕ → Words → S → (start end alloc alloc_size : ℕ) → Outcome (Bool × Words × S)
  iter_alloc zero mem st start end alloc alloc_size = abort
  iter_alloc (suc fuel) mem st start end alloc alloc_size = elim (ltb start end) [
    | false ↦ ok (true, mem, st)
    | true ↦ callback mem st start alloc alloc_size >>= λ out. elim (out.0) [
      | false ↦ ok out
      | true ↦ iter_alloc fuel (out.1) (out.2) (next_header (out.1) start) end alloc alloc_size
    ]
  ]

  unfoldable pub iter_allocs : ℕ → Words → S → ℕ → Outcome (Words × S)
  iter_allocs zero mem st alloc = abort
  iter_allocs (suc fuel) mem st alloc = elim (alloc == 0) [
    | true ↦ ok (mem, st)
    | false ↦
        assert (not (get_size (mem (alloc + alloc_offset)) == 0))
        >> (iter_alloc fuel mem st (alloc + alloc_offset)
              ((alloc + get_alloc_size mem alloc) % 2 ^ 32) alloc (get_alloc_size mem alloc)
            >>= λ out. elim (out.0) [
              | true ↦ iter_allocs fuel (out.1) (out.2) (get_next_alloc (out.1) alloc)
              | false ↦ ok (out.1, out.2)
            ])
  ]

  unfoldable pub iter_malloc_headers : ℕ → Heap → S → Outcome (Heap × S)
  iter_malloc_headers fuel h st = do
    (words₁, st₁) ← iter_allocs fuel h.words st h.first_alloc
    ok (record h { words = words₁ }, st₁)

-- Free headers behind a free header are taken into it.
unfoldable pub merge_next : ℕ → Words → (header next end : ℕ) → Outcome (Bool × Words × Unit {0})
merge_next zero mem header next end = abort
merge_next (suc fuel) mem header next end =
    elim (get_size (mem next) == 0 || not (is_used (mem next))) [
      | false ↦ ok (true, mem, tt)
      | true ↦ inc_size mem header (4 + get_size (mem next)) >>= λ mem₁.
          elim (leb end (next_header mem₁ header)) [
            | true ↦ ok (false, mem₁, tt)
            | false ↦
                assert (is_valid mem₁ header)
                >> merge_next fuel mem₁ header (next_header mem₁ header) end
          ]
    ]

unfoldable pub merge_header :
    ℕ → Words → Unit {0} → (header alloc alloc_size : ℕ) → Outcome (Bool × Words × Unit {0})
merge_header fuel mem st header alloc alloc_size =
    if is_used (mem header)
    then ok (true, mem, tt)
    else if leb ((alloc + alloc_size) % 2 ^ 32) (next_header mem header)
    then ok (false, mem, tt)
    else merge_next fuel mem header (next_header mem header) ((alloc + alloc_size) % 2 ^ 32)

unfoldable pub merge_malloc_headers : ℕ → Heap → Outcome Heap
merge_malloc_headers fuel h = do
  (merged, _) ← iter_malloc_headers (merge_header fuel) fuel h tt
  ok merged

abbrev pub count_free : Words → ℕ → (header alloc alloc_size : ℕ) → Outcome (Bool × Words × ℕ)
count_free mem avail header alloc alloc_size =
    ok (true, mem, if is_used (mem header) then avail else (avail + get_size (mem header)) % 2 ^ 32)

unfoldable pub get_avail_memory : ℕ → Heap → Outcome ℕ
get_avail_memory fuel h = do (_, avail) ← iter_malloc_headers count_free fuel h 0; ok avail

unfoldable pub setup_new_allocation : ℕ → Heap → (alloc_start alloc_size : ℕ) → Outcome Heap
setup_new_allocation fuel h alloc_start alloc_size = do
  assert (not (alloc_start == 0))
  assert (ltb alloc_offset alloc_size)
  let fresh = store_word (store_word h.words alloc_start 0) (alloc_start + 4) alloc_size
  last ← get_last_alloc fuel (record h { words = fresh })
  let linked = if last == 0 then fresh else store_word fresh last alloc_start
  let head = alloc_start + alloc_offset
  sized ← set_size linked head (alloc_size - 4 - alloc_offset)
  let freed = set_used sized head false
  assert (is_valid freed head)
  ok (record h { words = freed })

unfoldable pub initialize : ℕ → Heap → (alloc_start alloc_size : ℕ) → Outcome Heap
initialize fuel h alloc_start alloc_size = do
  h₁ ← setup_new_allocation fuel h alloc_start alloc_size
  let h₂ : Heap = record h₁ { first_alloc = alloc_start }
  avail ← get_avail_memory fuel h₂
  assert (avail == alloc_size - 4 - alloc_offset)
  last ← get_last_alloc fuel h₂
  assert (last == h₂.first_alloc)
  ok h₂
