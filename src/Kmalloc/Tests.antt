-- ===== src/Kmalloc/Tests.antt =====
-- The kernel's allocator on a machine with 20 pages.
use yet_another_project_i_ll.Base.{
  ℕ, ◌+◌, ◌-◌, ◌*◌, ◌/◌, ◌^◌, ◌≡◌, refl, false, none, some, List, [], ◌∷◌, arith, replicate, ok,
  Returns,
}
use yet_another_project_i_ll.Kmalloc.{ask_for_more_kernel_space, initialize}
use yet_another_project_i_ll.Kmalloc.Pages.{
  Taken, ask_for_more_kernel_space-Taken, initialize-Taken,
}
use yet_another_project_i_ll.Paging.Map.{mapping}
use yet_another_project_i_ll.Paging.{clear, is_present}
use yet_another_project_i_ll.Pmm.Boot.{fresh-IsBitmap}
use yet_another_project_i_ll.Pmm.{Pmm, byte_at, memset, initial_bitmap, first_zero}
use yet_another_project_i_ll.Malloc.Headers.{Arenas}
use yet_another_project_i_ll.Malloc.{Heap}
use yet_another_project_i_ll.Paging.{
  get_next_free_page as next_free_vpage, find_free as find_free_vpage,
}
use yet_another_project_i_ll.Pmm.{
  get_next_free_page as next_free_ppage, find_free as find_free_ppage,
}

abbrev zeroes : List ℕ
zeroes = replicate 128 0

abbrev booted : Pmm
booted = record { num_4m_pages = 20; bitmap = initial_bitmap zeroes 20 }

abbrev no_heap : Heap
no_heap = record { first_alloc = 0; words = λ a. 0 }

finds_page_0 : next_free_ppage booted ≡ ok (some 0)
unfolding next_free_ppage find_free_ppage byte_at first_zero initial_bitmap memset
finds_page_0 = refl

finds_vpage_1 : next_free_vpage clear 1 ≡ some 1
unfolding next_free_vpage find_free_vpage is_present
finds_vpage_1 = refl

unmapped_769 : mapping clear ((0xc000_0000 + 2 ^ 22) / 2 ^ 22) ≡ none
unfolding mapping is_present
unmapped_769 = refl

ask_for_more_kernel_space-Taken_example :
    Returns
      (λ (pmm₁, pd₁, alloc, alloc_size).
        Taken booted clear 1 0 pmm₁ pd₁ × (alloc ≡ 1 * 2 ^ 22) × (alloc_size ≡ 2 ^ 22))
      (ask_for_more_kernel_space booted clear)
ask_for_more_kernel_space-Taken_example =
    ask_for_more_kernel_space-Taken (fresh-IsBitmap zeroes refl 20 (omega arith)) (omega arith)
      clear refl 0 finds_page_0 1 finds_vpage_1

initialize-Taken_example :
    Returns
      (λ (pmm₁, pd₁, heap₁).
        Taken booted clear ((0xc000_0000 + 2 ^ 22) / 2 ^ 22) 0 pmm₁ pd₁
        × Arenas heap₁.words (0xc000_0000 + 2 ^ 22) (
            record {
              start = 0xc000_0000 + 2 ^ 22;
              size = 2 ^ 22;
              blocks = (2 ^ 22 - 4 - 8, false) ∷ [];
            }
            ∷ []))
      (initialize 3 booted clear no_heap 0xc000_0000)
initialize-Taken_example =
    initialize-Taken (fresh-IsBitmap zeroes refl 20 (omega arith)) (omega arith) clear refl 0
      finds_page_0 3 0xc000_0000 no_heap (omega arith) refl (omega arith) (omega arith) unmapped_769
