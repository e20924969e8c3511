-- ===== src/Paging.antt =====
-- kernel/paging.cpp and kernel/include/kernel/paging.h: page directories of 1024 entries for 4MB
-- pages. A `PageDirectory4M` is the list `pd_impl_` of its entries, 32-bit words, and a method that
-- changes one returns it anew. `getNextFreePage` returns `none` where the code returns -1.
-- Interrupts and the TLB (`DisableInterruptsRAII`, `invlpg`) have no counterpart here.
pub mod Entry
pub mod Map
pub mod Search
pub mod Machine
mod Tests
use yet_another_project_i_ll.Base.{
  ℕ, zero, suc, ◌+◌, ◌-◌, ◌/◌, ◌%◌, bit_and, bit_or, Bool, true, false, not, Option, none, some,
  List, [], ◌∷◌, ltb, leb, ◌==◌, if◌then◌else◌, length, get_or, set, replicate, Outcome, ok, abort,
  assert, ◌>>=◌, ◌>>◌,
}
use yet_another_project_i_ll.Pmm.{page_size_4m, num_page_dir_entries, page_address}

abbrev pub pg_present : ℕ
pg_present = 0x1

abbrev pub pg_write : ℕ
pg_write = 0x2

abbrev pub pg_user : ℕ
pg_user = 0x4

abbrev pub pg_4mb : ℕ
pg_4mb = 0x80

abbrev pub pg_global : ℕ
pg_global = 0x100

-- `~UINT32_C(0x3FFFFF)`
abbrev pub page_mask_4m : ℕ
page_mask_4m = 0xffc0_0000

abbrev pub PageDirectory4m : Type 0
PageDirectory4m = List ℕ

-- `memset(pd_impl_, 0, sizeof(pd_impl_))`
abbrev pub clear : PageDirectory4m
clear = replicate num_page_dir_entries 0

-- `pde & PG_PRESENT` as a condition
unfoldable pub is_present : ℕ → Bool
is_present pde = not (bit_and pde pg_present == 0)

-- The index that `getPDE` refers to. An index past the array is `abort`.
unfoldable pub get_pde : PageDirectory4m → ℕ → Outcome ℕ
get_pde pd vaddr = do
  assert (vaddr % page_size_4m == 0)
  assert (ltb (vaddr / page_size_4m) (length pd))
  ok (vaddr / page_size_4m)

-- `paddr | (PG_PRESENT | PG_4MB | PG_WRITE | flags)`
unfoldable pub make_pde : ℕ → ℕ → ℕ
make_pde paddr flags = bit_or paddr (bit_or (bit_or (bit_or pg_present pg_4mb) pg_write) flags)

unfoldable pub map_page : PageDirectory4m → (vaddr paddr flags : ℕ) → Outcome PageDirectory4m
map_page pd vaddr paddr flags = do
  assert (paddr % page_size_4m == 0)
  i ← get_pde pd vaddr
  assert (not (is_present (get_or pd i 0)))
  assert (bit_and (make_pde paddr flags) pg_global == 0)
  ok (set pd i (make_pde paddr flags))

unfoldable pub unmap_page : PageDirectory4m → ℕ → Outcome PageDirectory4m
unmap_page pd vaddr = do i ← get_pde pd vaddr; assert (is_present (get_or pd i 0)); ok (set pd i 0)

unfoldable pub vaddr_is_mapped : PageDirectory4m → ℕ → Outcome Bool
vaddr_is_mapped pd vaddr = do i ← get_pde pd vaddr; ok (is_present (get_or pd i 0))

-- The loops run over the entries: `n += !bool(pd_impl_[i] & PG_PRESENT)`.
unfoldable pub get_num_free_vpages : PageDirectory4m → ℕ
get_num_free_vpages [] = 0
get_num_free_vpages (pde ∷ pd) = (if is_present pde then 0 else 1) + get_num_free_vpages pd

-- `for (i = lower_bound; i < kNumPageDirEntries; ++i)`, with the rounds that are left
unfoldable pub find_free : PageDirectory4m → ℕ → ℕ → Option ℕ
find_free pd zero i = none
find_free pd (suc rounds) i = elim (is_present (get_or pd i 0)) [
  | true ↦ find_free pd rounds (i + 1)
  | false ↦ some i
]

unfoldable pub get_next_free_page : PageDirectory4m → ℕ → Option ℕ
get_next_free_page pd lower_bound = find_free pd (num_page_dir_entries - lower_bound) lower_bound

unfoldable pub get_physical_addr : PageDirectory4m → ℕ → Outcome ℕ
get_physical_addr pd vaddr = do
  i ← get_pde pd vaddr
  assert (is_present (get_or pd i 0))
  ok (bit_and (get_or pd i 0) page_mask_4m)

-- `assert(free >= 0)` on the page number
abbrev pub assert_some : Option ℕ → Outcome ℕ
assert_some none = abort
assert_some (some page) = ok page

-- `InspectPhysicalMem` up to the loop that prints: the directory with the page mapped. The code
-- hands `MapPage` the page number, not its address.
unfoldable pub inspect_physical_mem : PageDirectory4m → (start end : ℕ) → Outcome PageDirectory4m
inspect_physical_mem pd start end = do
  assert (leb start end)
  assert (page_address start == page_address end)
  free_vpage ← assert_some (get_next_free_page pd 0)
  mapped ← map_page pd free_vpage (page_address start) 0
  unmap_page mapped free_vpage
