-- ===== src/Paging/Machine.antt =====
-- `TempMap` and `Memcpy` of kernel/paging.cpp: copies between address spaces. The state is the page
-- directories, each at its own address, which of them is the current one (`gCurrentPageDir`), and
-- the bytes of physical memory. The memory management unit is no code of the repository: `translate`
-- stands for it, the physical address of a virtual one through a directory, or a page fault.
pub mod Copy
pub mod TempMap
pub mod Slots
pub mod Across
use yet_another_project_i_ll.Base.{
  ℕ, zero, suc, ◌+◌, ◌-◌, not, ◌&&◌, Option, ◌==◌, if◌then◌else◌, Outcome, ok, assert, or_abort,
  ◌>>=◌, ◌>>◌,
}
use yet_another_project_i_ll.Paging.{
  PageDirectory4m, map_page, unmap_page, vaddr_is_mapped, get_next_free_page, get_physical_addr,
  assert_some,
}
use yet_another_project_i_ll.Pmm.{page_to_addr, page_address}

pub record Machine : Type 0 where
  pub dirs : ℕ → PageDirectory4m
  pub current : ℕ
  pub memory : ℕ → ℕ

-- The current directory, and the machine with that directory changed.
abbrev pub current_pd : Machine → PageDirectory4m
current_pd m = m.dirs m.current

unfoldable pub with_dir : Machine → ℕ → PageDirectory4m → Machine
with_dir m at pd = record m { dirs = λ i. if i == at then pd else m.dirs i }

unfoldable pub with_byte : Machine → ℕ → ℕ → Machine
with_byte m at byte = record m { memory = λ i. if i == at then byte else m.memory i }

-- `SwitchPageDirectory`
unfoldable pub switch_page_directory : Machine → ℕ → Machine
switch_page_directory m pd = record m { current = pd }

unfoldable pub temp_map : Machine → (other_pd vaddr : ℕ) → Outcome (Machine × ℕ)
temp_map m other_pd vaddr = do
  assert (not (other_pd == m.current))
  is_mapped ← vaddr_is_mapped (m.dirs other_pd) (page_address vaddr)
  assert is_mapped
  paddr ← get_physical_addr (m.dirs other_pd) (page_address vaddr)
  free_vpage ← assert_some (get_next_free_page (current_pd m) 0)
  pd ← map_page (current_pd m) (page_to_addr free_vpage) paddr 0
  ok (with_dir m m.current pd, page_to_addr free_vpage + (vaddr - page_address vaddr))

-- `current_pd.UnmapPage`
unfoldable pub unmap_current : Machine → ℕ → Outcome Machine
unmap_current m vaddr = do pd ← unmap_page (current_pd m) vaddr; ok (with_dir m m.current pd)

-- An address of the current address space, or the temporary mapping of one of another.
unfoldable pub bring_in : Machine → (pd vaddr : ℕ) → Outcome (Machine × ℕ)
bring_in m pd vaddr = if pd == m.current then ok (m, vaddr) else temp_map m pd vaddr

unfoldable pub release : Machine → (pd vaddr : ℕ) → Outcome Machine
release m pd vaddr = if pd == m.current then ok m else unmap_current m (page_address vaddr)

module _ (translate : PageDirectory4m → ℕ → Option ℕ) where
  -- `memcpy` of libc/string.cpp, byte by byte in the current address space
  unfoldable pub memcpy : Machine → (dst src num : ℕ) → Outcome Machine
  memcpy m dst src zero = ok m
  memcpy m dst src (suc num) = do
    from ← or_abort (translate (current_pd m) src)
    to ← or_abort (translate (current_pd m) dst)
    memcpy (with_byte m to (m.memory from)) (dst + 1) (src + 1) num

  -- When one of the directories is not the current one, its page is mapped in for the copy.
  unfoldable pub memcpy_mapped : Machine → (src_pd dst_pd src dst size : ℕ) → Outcome Machine
  memcpy_mapped m src_pd dst_pd src dst size = do
    (m₁, this_pd_src) ← bring_in m src_pd src
    (m₂, this_pd_dst) ← bring_in m₁ dst_pd dst
    m₃ ← memcpy m₂ this_pd_dst this_pd_src size
    m₄ ← release m₃ src_pd this_pd_src
    release m₄ dst_pd this_pd_dst

  unfoldable pub memcpy_across : Machine → (src_pd dst_pd src dst size : ℕ) → Outcome Machine
  memcpy_across m src_pd dst_pd src dst size =
      if src_pd == dst_pd && m.current == src_pd
      then memcpy m dst src size
      else memcpy_mapped m src_pd dst_pd src dst size

  -- The two methods: from the current address space into `this`, and from another into `this`.
  unfoldable pub memcpy_into : Machine → (this dst src size : ℕ) → Outcome Machine
  memcpy_into m this dst src size = memcpy_across m m.current this src dst size

  unfoldable pub memcpy_from : Machine → (this other_pd dst src size : ℕ) → Outcome Machine
  memcpy_from m this other_pd dst src size = memcpy_across m other_pd this src dst size
