-- ===== src/Paging/Search.antt =====
-- `getNextFreePage`, `getNumFreeVPages` and `InspectPhysicalMem` of kernel/paging.cpp.
use yet_another_project_i_ll.Base.{
  ℕ, zero, suc, ◌+◌, ◌-◌, ◌/◌, ◌%◌, ◌^◌, ◌≤◌, ◌<◌, ◌≡◌, refl, sym, subst, ◌∙◌, ◌≢◌, inl, inr, true,
  false, Option, none, some, [], ◌∷◌, arith, ◌==◌, if◌then◌else◌, Bool-cases, length, get_or, set,
  abort, ◌>>=◌, Returns, Returns-mono, Returns-bind,
}
use yet_another_project_i_ll.Paging.{
  PageDirectory4m, is_present, get_pde, make_pde, map_page, unmap_page, get_num_free_vpages,
  find_free, get_next_free_page, assert_some, inspect_physical_mem,
}
use yet_another_project_i_ll.Paging.Entry.{is_present-make_pde, global-make_pde}
use yet_another_project_i_ll.Paging.Map.{
  mapping, IsPageAddr, Remaps, get_pde_lem, map_page_lem, unmap_page_lem,
}
use yet_another_project_i_ll.Pmm.{page_address}
use native.Mathlib.Decide.{ℕ_discrete}

-- The lowest unmapped page from `lo` to `hi`, or that there is none.
abbrev pub FirstFree : PageDirectory4m → ℕ → ℕ → Option ℕ → Type 0
FirstFree pd lo hi none = (i : ℕ) → lo ≤ i → i < hi → mapping pd i ≢ none
FirstFree pd lo hi (some page) =
    (lo ≤ page)
    × (page < hi)
    × (mapping pd page ≡ none)
    × ((i : ℕ) → lo ≤ i → i < page → mapping pd i ≢ none)

module _ (pd : PageDirectory4m) where
  FirstFree-extend :
      (lo hi : ℕ) (r : Option ℕ)
      → mapping pd lo ≢ none
      → FirstFree pd (lo + 1) hi r
      → FirstFree pd lo hi r
  FirstFree-extend lo hi none taken f = λ i a b. elim (ℕ_discrete lo i) [
    | yes e ↦ subst (λ k. mapping pd k ≢ none) e taken
    | no ne ↦ f i (omega arith) b
  ]
  FirstFree-extend lo hi (some page) taken f = (
    omega arith,
    f.1,
    f.2,
    λ i a b. elim (ℕ_discrete lo i) [
      | yes e ↦ subst (λ k. mapping pd k ≢ none) e taken
      | no ne ↦ f.3 i (omega arith) b
    ],
  )

  find_free_taken :
      (rounds lo : ℕ)
      → is_present (get_or pd lo 0) ≡ true
      → find_free pd (suc rounds) lo ≡ find_free pd rounds (lo + 1)
  unfolding find_free
  find_free_taken rounds lo e = ground arith

  find_free_open :
      (rounds lo : ℕ) → is_present (get_or pd lo 0) ≡ false → find_free pd (suc rounds) lo ≡ some lo
  unfolding find_free
  find_free_open rounds lo e = ground arith

  mapped : (lo : ℕ) → is_present (get_or pd lo 0) ≡ true → mapping pd lo ≢ none
  unfolding mapping
  mapped lo e = ground arith

  unmapped : (lo : ℕ) → is_present (get_or pd lo 0) ≡ false → mapping pd lo ≡ none
  unfolding mapping
  unmapped lo e = ground arith

  find_free_lem :
      (rounds lo hi : ℕ) → hi ≡ lo + rounds → FirstFree pd lo hi (find_free pd rounds lo)
  find_free_lem zero lo hi e = unfold find_free in λ i a b. absurd (omega arith)
  find_free_lem (suc rounds) lo hi e = elim (Bool-cases (is_present (get_or pd lo 0))) [
    | inl taken ↦ rw (find_free_taken rounds lo taken) (
        FirstFree-extend lo hi (find_free pd rounds (lo + 1)) (mapped lo taken)
          (find_free_lem rounds (lo + 1) hi (omega arith)))
    | inr free ↦
        rw (find_free_open rounds lo free)
          (omega arith, omega arith, unmapped lo free, λ i a b. absurd (omega arith))
  ]

  -- `getNextFreePage` finds the lowest page from the bound on that is not mapped; it fails only
  -- when all of them are.
  pub get_next_free_page-FirstFree :
      (lower_bound : ℕ)
      → lower_bound ≤ 1024
      → FirstFree pd lower_bound 1024 (get_next_free_page pd lower_bound)
  unfolding get_next_free_page
  get_next_free_page-FirstFree lower_bound h =
      find_free_lem (1024 - lower_bound) lower_bound 1024 (omega arith)

-- What is left unmapped, counted.
count_free-set :
    (pd : PageDirectory4m) (i pde : ℕ)
    → i < length pd
    → get_num_free_vpages (set pd i pde) + (if is_present (get_or pd i 0) then 0 else 1)
      ≡ get_num_free_vpages pd + (if is_present pde then 0 else 1)
unfolding get_num_free_vpages
count_free-set [] i pde h = absurd (omega arith)
count_free-set (x ∷ pd) zero pde h = omega arith
count_free-set (x ∷ pd) (suc i) pde h = omega (arith, count_free-set pd i pde (omega arith))

-- `MapPage` refuses a virtual address that is a page number above 0.
map_page_number :
    (pd : PageDirectory4m) (page paddr flags : ℕ)
    → 0 < page
    → page < 1024
    → map_page pd page paddr flags ≡ abort
unfolding map_page get_pde
map_page_number pd page paddr flags lo hi =
    let odd : (page % 2 ^ 22 == 0) ≡ false = ground arith in ground arith

module _ (pd : PageDirectory4m) (size : length pd ≡ 1024) where
  -- Mapping an unmapped page leaves one free page less, and `UnmapPage` gives it back.
  pub get_num_free_vpages-map_page :
      (vaddr paddr flags : ℕ)
      → IsPageAddr vaddr
      → IsPageAddr paddr
      → flags < 256
      → mapping pd (vaddr / 2 ^ 22) ≡ none
      → Returns
          (λ q. get_num_free_vpages q + 1 ≡ get_num_free_vpages pd)
          (map_page pd vaddr paddr flags)
  unfolding map_page mapping
  get_num_free_vpages-map_page vaddr paddr flags v p f free =
      let absent : is_present (get_or pd (vaddr / 2 ^ 22) 0) ≡ false = ground arith in
      let entry : is_present (make_pde paddr flags) ≡ true =
        is_present-make_pde paddr flags p.0 f in
      rw (p.0, get_pde_lem pd size vaddr v, absent, global-make_pde paddr flags p.0 f)
        (ground (
          arith,
          count_free-set pd (vaddr / 2 ^ 22) (make_pde paddr flags) (rw size (omega arith)),
        ))

  -- After `MapPage`, `UnmapPage` on the same page passes its assertions and leaves every page
  -- mapped as it was before.
  pub unmap_page-map_page :
      (vaddr paddr flags : ℕ)
      → IsPageAddr vaddr
      → IsPageAddr paddr
      → flags < 256
      → mapping pd (vaddr / 2 ^ 22) ≡ none
      → Returns
          (λ r. (j : ℕ) → mapping r j ≡ mapping pd j)
          (map_page pd vaddr paddr flags >>= λ q. unmap_page q vaddr)
  unmap_page-map_page vaddr paddr flags v p f free =
      let i : ℕ = vaddr / 2 ^ 22 in
      Returns-bind (Remaps pd i (some paddr)) (λ r. (j : ℕ) → mapping r j ≡ mapping pd j) _ _
        (map_page_lem pd size vaddr paddr flags v p f free)
        (λ q mapped_at.
          Returns-mono (Remaps q i none) (λ r. (j : ℕ) → mapping r j ≡ mapping pd j) _
            (unmap_page_lem q (mapped_at.size ∙ size) vaddr paddr v mapped_at.here)
            (λ r gone j. elim (ℕ_discrete i j) [
              | yes e ↦ rw (← e) (gone.here ∙ sym free)
              | no ne ↦ gone.elsewhere j ne ∙ mapped_at.elsewhere j ne
            ]))

inspect_at :
    (pd : PageDirectory4m) (paddr : ℕ) (r : Option ℕ)
    → mapping pd 0 ≢ none
    → FirstFree pd 0 1024 r
    → (assert_some r >>= λ page. map_page pd page paddr 0 >>= λ q. unmap_page q page) ≡ abort
inspect_at pd paddr none taken f = refl
inspect_at pd paddr (some zero) taken f = absurd (taken (f.2))
inspect_at pd paddr (some (suc page)) taken f =
    rw (map_page_number pd (suc page) paddr 0 (omega arith) (f.1))

-- Once virtual page 0 is mapped, `InspectPhysicalMem` always stops at an assertion: the page number
-- that it hands to `MapPage` for an address is not a multiple of 4MB.
pub inspect_physical_mem_aborts :
    (pd : PageDirectory4m) (start end : ℕ)
    → mapping pd 0 ≢ none
    → inspect_physical_mem pd start end ≡ abort
unfolding inspect_physical_mem
inspect_physical_mem_aborts pd start end taken = ground (
  arith,
  inspect_at pd (page_address start) (get_next_free_page pd 0) taken
      (get_next_free_page-FirstFree pd 0 (omega arith)),
)
