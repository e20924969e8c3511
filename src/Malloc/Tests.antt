-- ===== src/Malloc/Tests.antt =====
-- Runs of the allocator, and the theorems at concrete inputs.
use yet_another_project_i_ll.Base.{
  ℕ, ◌≡◌, refl, false, ◌||◌, none, [], ◌∷◌, arith, ◌==◌, if◌then◌else◌, Outcome, ok, ◌>>=◌,
}
use yet_another_project_i_ll.Malloc.{
  Words, Heap, store_word, last_alloc_from, get_last_alloc, get_size, is_used, header_word,
  set_used, set_size, inc_size, is_valid, iter_alloc, iter_allocs, iter_malloc_headers, merge_next,
  merge_header, merge_malloc_headers, get_avail_memory, setup_new_allocation, initialize,
}
use yet_another_project_i_ll.Malloc.Alloc.{
  lowest_bit, is_power_of_2, round_up, make_header, resize, partition_aligned, aligned_addr,
  partition, take_block, malloc_rounded, malloc_impl, check_header, validate_malloc, malloc_again,
  malloc, free,
}
use yet_another_project_i_ll.Malloc.Headers.{
  Arena, Arenas, get_avail_memory_lem, merge_malloc_headers-stops,
}

abbrev empty : Heap
empty = record { first_alloc = 0; words = λ a. 0 }

-- Two blocks are taken from an arena of 64 bytes, the second of them aligned to 16, and given back.
abbrev take_and_give : Outcome ℕ
take_and_give = do
  h ← initialize 20 empty 0x100 64
  (h₁, p) ← malloc 20 h none 5 1
  (h₂, q) ← malloc 20 h₁ none 8 16
  h₃ ← free 20 h₂ p
  h₄ ← free 20 h₃ q
  get_avail_memory 20 h₄

take_and_give_run : take_and_give ≡ ok 52
unfolding get_avail_memory iter_malloc_headers iter_allocs iter_alloc free malloc malloc_impl
    malloc_rounded malloc_again validate_malloc check_header take_block partition partition_aligned
    aligned_addr round_up lowest_bit is_power_of_2 make_header resize set_size set_used get_size
    is_used header_word inc_size is_valid merge_next merge_header merge_malloc_headers initialize
    setup_new_allocation get_last_alloc last_alloc_from store_word
take_and_give_run = refl

-- Two arenas of 32 bytes; the second of them holds two free blocks of 4 and 12 bytes.
abbrev words : Words
words a =
    if a == 0x100
    then 0x200
    else if a == 0x104 || a == 0x204
    then 32
    else if a == 0x108
    then 20
    else if a == 0x208
    then 4
    else if a == 0x210
    then 12
    else 0

abbrev two_arenas : Heap
two_arenas = record { first_alloc = 0x100; words = words }

abbrev first_arena : Arena
first_arena = record { start = 0x100; size = 32; blocks = (20, false) ∷ [] }

abbrev second_arena : Arena
second_arena = record { start = 0x200; size = 32; blocks = (4, false) ∷ (12, false) ∷ [] }

two-Arenas : Arenas words 0x100 (first_arena ∷ second_arena ∷ [])
unfolding get_size is_used
two-Arenas = (
  refl,
  (λ e. absurd (omega arith)),
  refl,
  omega arith,
  (λ e. absurd (omega arith)),
  (refl, refl, omega arith, refl),
  (
    refl,
    (λ e. absurd (omega arith)),
    refl,
    omega arith,
    (λ e. absurd (omega arith)),
    (refl, refl, omega arith, (refl, refl, omega arith, refl)),
    refl,
  ),
)

get_avail_memory_lem_example : get_avail_memory 9 two_arenas ≡ ok 36
get_avail_memory_lem_example =
    get_avail_memory_lem (first_arena ∷ second_arena ∷ []) 9 two_arenas (omega arith) (omega arith)
      two-Arenas

merge_malloc_headers-stops_example : merge_malloc_headers 9 two_arenas ≡ ok two_arenas
merge_malloc_headers-stops_example =
    merge_malloc_headers-stops 9 two_arenas first_arena 20 (second_arena ∷ []) (omega arith) refl
      two-Arenas
