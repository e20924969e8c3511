-- ===== src/Pmm/Tests.antt =====
-- Runs of kernel/pmm.cpp on concrete bitmaps, and the theorems at concrete inputs.
use yet_another_project_i_ll.Base.{
  ℕ, ◌-◌, ◌*◌, ◌/◌, ◌%◌, ◌^◌, ◌≤◌, ◌<◌, ◌≡◌, refl, ◌∙◌, true, false, none, some, List, ◌∷◌, arith,
  replicate, ok, abort, Returns,
}
use yet_another_project_i_ll.Pmm.{
  page_size_4m, num_page_dir_entries, Pmm, byte_at, page_is_used, count_ones, num_zero_bits,
  sum_zero_bits, get_num_free_4m_pages, get_num_used_4m_pages, round_up_4m, memset, initial_bitmap,
  initialize, first_zero, find_free, get_next_free_page,
}
use yet_another_project_i_ll.Pmm.Pages.{IsBitmap, used}
use yet_another_project_i_ll.Pmm.Search.{Found, get_next_free_page-Found, get_next_free_page_misses}
use yet_another_project_i_ll.Pmm.Boot.{
  fresh-IsBitmap, fresh-used, Fresh, initialize_lem, initialize_top,
}

abbrev zeroes : List ℕ
zeroes = replicate 128 0

-- the bitmap of a machine with `n` pages of memory, after boot
abbrev booted : ℕ → Pmm
booted n = record { num_4m_pages = n; bitmap = initial_bitmap zeroes n }

-- 20 pages, the first ten of them taken
abbrev busy : Pmm
busy = record { num_4m_pages = 20; bitmap = 0xff ∷ 0x03 ∷ 0xf0 ∷ replicate 125 0xff }

busy_run :
    (get_next_free_page busy ≡ ok (some 10))
    × (get_num_free_4m_pages busy ≡ ok 10)
    × (get_num_used_4m_pages busy ≡ ok 10)
unfolding get_next_free_page find_free byte_at first_zero get_num_used_4m_pages
    get_num_free_4m_pages sum_zero_bits num_zero_bits count_ones
busy_run = (refl, refl, refl)

past_the_end : page_is_used busy 1024 ≡ abort
unfolding page_is_used byte_at
past_the_end = refl

initialize_lem_example : Returns (Fresh 4) (initialize zeroes 0x3c00)
initialize_lem_example = initialize_lem zeroes 0x3c00 refl (omega arith) (omega arith)

initialize_top_example :
    (0x3ff_fff * 1024 < 2 ^ 32
      → 2 ^ 32 - 2 ^ 22 < 0x3ff_fff * 1024
      → (round_up_4m (0x3ff_fff * 1024 % 2 ^ 32) ≡ 0) × (initialize zeroes 0x3ff_fff ≡ abort))
    × (round_up_4m (0x3ff_fff * 1024 % 2 ^ 32) / page_size_4m < num_page_dir_entries)
initialize_top_example = initialize_top zeroes 0x3ff_fff

booted-IsBitmap : IsBitmap (booted 20)
booted-IsBitmap = fresh-IsBitmap zeroes refl 20 (omega arith)

page_9_free : used (booted 20) 9 ≡ false
page_9_free = fresh-used zeroes refl 20 (omega arith) 9 (omega arith)

page_21_used : used (booted 20) 21 ≡ true
page_21_used = fresh-used zeroes refl 20 (omega arith) 21 (omega arith)

get_next_free_page-Found_example : Returns (Found (booted 20) 0 16) (get_next_free_page (booted 20))
get_next_free_page-Found_example = get_next_free_page-Found booted-IsBitmap (omega arith)

first_is_zero : get_next_free_page (booted 20) ≡ ok (some 0)
unfolding get_next_free_page find_free byte_at first_zero initial_bitmap memset
first_is_zero = refl

-- 16MB of memory: four pages, all free, and none is found
get_next_free_page_misses_example : (get_next_free_page (booted 4) ≡ ok none) × (0 ≤ 3)
get_next_free_page_misses_example =
    get_next_free_page_misses (fresh-IsBitmap zeroes refl 4 (omega arith)) 3 (omega arith)
      (omega arith) (fresh-used zeroes refl 4 (omega arith) 3 (omega arith))
      (λ j h. absurd (omega arith))

beyond_is_used : (j : ℕ) → 20 ≤ j → j < 1024 → used (booted 20) j ≡ true
beyond_is_used j lo hi = fresh-used zeroes refl 20 (omega arith) j hi ∙ ground arith
