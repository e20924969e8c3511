-- ===== src/Paging/Map.antt =====
-- `MapPage`, `UnmapPage` and the look-ups of kernel/paging.cpp, against the abstract view of a page
-- directory: a partial map from virtual to physical pages.
use yet_another_project_i_ll.Base.{
  Bool-cases, Option, Returns, abort, arith, bit_and, false, get_or, get_or-set_ne, get_or-set_self,
  if◌then◌else◌, inl, inr, is_some, length, length-set, lt→ltb, none, ok, or_abort, set, some, true,
  ℕ, ◌%◌, ◌/◌, ◌<◌, ◌==◌, ◌^◌, ◌≡◌, ◌≢◌,
}
use yet_another_project_i_ll.Paging.{
  PageDirectory4m, is_present, get_pde, make_pde, map_page, unmap_page, vaddr_is_mapped,
  get_physical_addr, page_mask_4m,
}
use yet_another_project_i_ll.Paging.Entry.{
  is_present-make_pde, bit_and-make_pde, global-make_pde, is_present-zero,
}

-- The physical page that the virtual page number `i` is mapped to.
unfoldable pub mapping : PageDirectory4m → ℕ → Option ℕ
mapping pd i =
    if is_present (get_or pd i 0) then some (bit_and (get_or pd i 0) page_mask_4m) else none

-- A virtual or physical address that `MapPage` accepts.
abbrev pub IsPageAddr : ℕ → Type 0
IsPageAddr addr = (addr % 2 ^ 22 ≡ 0) × (addr < 2 ^ 32)

-- `q` is the directory `pd` with the mapping of virtual page `i` changed to `m`.
pub record Remaps (pd : PageDirectory4m) (i : ℕ) (m : Option ℕ) (q : PageDirectory4m) : Type 0 where
  pub size : length q ≡ length pd
  pub here : mapping q i ≡ m
  pub elsewhere : (j : ℕ) → i ≢ j → mapping q j ≡ mapping pd j

module _ (pd : PageDirectory4m) (size : length pd ≡ 1024) where
  pub get_pde_lem : (vaddr : ℕ) → IsPageAddr vaddr → get_pde pd vaddr ≡ ok (vaddr / 2 ^ 22)
  unfolding get_pde
  get_pde_lem vaddr v = rw (v.0, size, lt→ltb (vaddr / 2 ^ 22) 1024 (omega arith))

  set-Remaps :
      (i pde : ℕ) (m : Option ℕ)
      → i < 1024
      → (if is_present pde then some (bit_and pde page_mask_4m) else none) ≡ m
      → Remaps pd i m (set pd i pde)
  unfolding mapping
  set-Remaps i pde m h e = record {
    size = length-set pd i pde;
    here = rw (get_or-set_self pd i pde 0 (rw size h)) e;
    elsewhere = λ j ne. rw (get_or-set_ne pd i j pde 0 ne);
  }

  absent : (i : ℕ) → mapping pd i ≡ none → is_present (get_or pd i 0) ≡ false
  unfolding mapping
  absent i e = ground arith

  present :
      (i paddr : ℕ)
      → mapping pd i ≡ some paddr
      → (is_present (get_or pd i 0) ≡ true) × (bit_and (get_or pd i 0) page_mask_4m ≡ paddr)
  unfolding mapping
  present i paddr e = ground arith

  -- On an unmapped page `MapPage` passes its assertions, with any flags, and then the page is
  -- mapped to the given address and no other page is touched.
  pub map_page_lem :
      (vaddr paddr flags : ℕ)
      → IsPageAddr vaddr
      → IsPageAddr paddr
      → flags < 256
      → mapping pd (vaddr / 2 ^ 22) ≡ none
      → Returns (Remaps pd (vaddr / 2 ^ 22) (some paddr)) (map_page pd vaddr paddr flags)
  unfolding map_page
  map_page_lem vaddr paddr flags v p f free =
      rw (p.0, get_pde_lem vaddr v, absent (vaddr / 2 ^ 22) free, global-make_pde paddr flags p.0 f)
        (set-Remaps (vaddr / 2 ^ 22) (make_pde paddr flags) (some paddr) (omega arith)
          (rw (is_present-make_pde paddr flags p.0 f, bit_and-make_pde paddr flags p.0 f p.1)))

  -- A page that is mapped cannot be mapped again.
  pub map_page_mapped :
      (vaddr paddr other flags : ℕ)
      → IsPageAddr vaddr
      → mapping pd (vaddr / 2 ^ 22) ≡ some other
      → map_page pd vaddr paddr flags ≡ abort
  unfolding map_page
  map_page_mapped vaddr paddr other flags v taken = elim (Bool-cases (paddr % 2 ^ 22 == 0)) [
    | inl e ↦ rw (e, get_pde_lem vaddr v, (present (vaddr / 2 ^ 22) other taken).0)
    | inr e ↦ rw e
  ]

  -- A page that is not mapped cannot be unmapped.
  pub unmap_page_unmapped :
      (vaddr : ℕ)
      → IsPageAddr vaddr
      → mapping pd (vaddr / 2 ^ 22) ≡ none
      → unmap_page pd vaddr ≡ abort
  unfolding unmap_page
  unmap_page_unmapped vaddr v free = rw (get_pde_lem vaddr v, absent (vaddr / 2 ^ 22) free)

  -- `UnmapPage` on a mapped page removes that mapping and no other.
  pub unmap_page_lem :
      (vaddr paddr : ℕ)
      → IsPageAddr vaddr
      → mapping pd (vaddr / 2 ^ 22) ≡ some paddr
      → Returns (Remaps pd (vaddr / 2 ^ 22) none) (unmap_page pd vaddr)
  unfolding unmap_page
  unmap_page_lem vaddr paddr v taken =
      rw (get_pde_lem vaddr v, (present (vaddr / 2 ^ 22) paddr taken).0)
        (set-Remaps (vaddr / 2 ^ 22) 0 none (omega arith) (rw is_present-zero))

  -- `VaddrIsMapped` reports whether the page is mapped.
  pub vaddr_is_mapped_lem :
      (vaddr : ℕ)
      → IsPageAddr vaddr
      → vaddr_is_mapped pd vaddr ≡ ok (is_some (mapping pd (vaddr / 2 ^ 22)))
  unfolding vaddr_is_mapped mapping
  vaddr_is_mapped_lem vaddr v = rw (get_pde_lem vaddr v) (ground arith)

  -- `getPhysicalAddr` returns the address that the page is mapped to, and stops where there is none.
  pub get_physical_addr_lem :
      (vaddr : ℕ)
      → IsPageAddr vaddr
      → get_physical_addr pd vaddr ≡ or_abort (mapping pd (vaddr / 2 ^ 22))
  unfolding get_physical_addr mapping
  get_physical_addr_lem vaddr v = rw (get_pde_lem vaddr v) (ground arith)
