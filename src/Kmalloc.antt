-- ===== src/Kmalloc.antt =====
-- kernel/kmalloc.cpp: the pages that the kernel's allocator stands on. The state is the bitmap of
-- physical pages, the kernel's page directory, which is the current one, and the heap. The address
-- that the kernel is linked at is an argument.
pub mod Pages
mod Tests
use yet_another_project_i_ll.Base.{ℕ, ◌+◌, ◌*◌, ◌%◌, ◌^◌, not, Outcome, ok, assert, ◌>>=◌, ◌>>◌}
use yet_another_project_i_ll.Paging.{PageDirectory4m, map_page, vaddr_is_mapped, assert_some}
use yet_another_project_i_ll.Pmm.{page_size_4m, Pmm, page_to_addr, page_is_used, set_page_used}
use yet_another_project_i_ll.Malloc.{Heap}
use yet_another_project_i_ll.Paging.{get_next_free_page as next_free_vpage}
use yet_another_project_i_ll.Pmm.{get_next_free_page as next_free_ppage}
use yet_another_project_i_ll.Malloc.{initialize as malloc_initialize}

-- The address and the size of the new page are returned too.
unfoldable pub ask_for_more_kernel_space :
    Pmm → PageDirectory4m → Outcome (Pmm × PageDirectory4m × ℕ × ℕ)
ask_for_more_kernel_space pmm pd = do
  free_vpage ← assert_some (next_free_vpage pd 1)
  found ← next_free_ppage pmm
  free_ppage ← assert_some found
  mapped ← map_page pd (page_to_addr free_vpage) (page_to_addr free_ppage) 0
  marked ← set_page_used pmm free_ppage
  ok (marked, mapped, page_to_addr free_vpage, page_size_4m)

unfoldable pub initialize :
    (fuel : ℕ)
    → Pmm
    → PageDirectory4m
    → Heap
    → (kernel_begin : ℕ) → Outcome (Pmm × PageDirectory4m × Heap)
initialize fuel pmm pd heap kernel_begin = do
  let kmalloc_vaddr = (kernel_begin + page_size_4m) % 2 ^ 32
  is_mapped ← vaddr_is_mapped pd kmalloc_vaddr
  assert (not is_mapped)
  found ← next_free_ppage pmm
  free_ppage ← assert_some found
  used ← page_is_used pmm free_ppage
  assert (not used)
  marked ← set_page_used pmm free_ppage
  mapped ← map_page pd kmalloc_vaddr (free_ppage * page_size_4m % 2 ^ 32) 0
  heap₁ ← malloc_initialize fuel heap kmalloc_vaddr page_size_4m
  ok (marked, mapped, heap₁)
