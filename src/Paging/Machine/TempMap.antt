-- ===== src/Paging/Machine/TempMap.antt =====
-- `TempMap` of kernel/paging.cpp, and the two ends of a copy between address spaces.
use yet_another_project_i_ll.Base.{
  ℕ, ◌+◌, ◌-◌, ◌*◌, ◌/◌, ◌%◌, ◌^◌, ◌≤◌, ◌<◌, ◌≡◌, refl, sym, ap, ◌∙◌, ◌≢◌, Option, none, some,
  arith, ◌==◌, if◌then◌else◌, ==_refl, ==_ne, length, Returns, Returns-bind,
}
use yet_another_project_i_ll.Paging.Machine.{Machine, current_pd, with_dir, temp_map}
use yet_another_project_i_ll.Paging.{PageDirectory4m, get_next_free_page}
use yet_another_project_i_ll.Paging.Map.{
  mapping, IsPageAddr, Remaps, map_page_lem, vaddr_is_mapped_lem, get_physical_addr_lem,
}
use yet_another_project_i_ll.Paging.Search.{FirstFree, get_next_free_page-FirstFree}
use yet_another_project_i_ll.Paging.Machine.Copy.{Linear}
use yet_another_project_i_ll.Pmm.{page_address}
use native.Mathlib.Decide.{ℕ_discrete}

-- The documented behaviour of the memory management unit with 4MB pages: through a present entry a
-- virtual address lies at its offset on the physical page. This is all that the proofs use.
abbrev pub Walks : (PageDirectory4m → ℕ → Option ℕ) → Type 0
Walks translate =
    (pd : PageDirectory4m) (vaddr page : ℕ)
    → mapping pd (vaddr / 2 ^ 22) ≡ some page
    → translate pd vaddr ≡ some (page + vaddr % 2 ^ 22)

-- The `n` bytes at `vaddr` are on one virtual page, which is mapped to `page`.
pub record OnPage (pd : PageDirectory4m) (vaddr n page : ℕ) : Type 0 where
  pub maps : mapping pd (vaddr / 2 ^ 22) ≡ some page
  pub fits : vaddr % 2 ^ 22 + n ≤ 2 ^ 22
  pub word : vaddr < 2 ^ 32

pub OnPage-Linear :
    (translate : PageDirectory4m → ℕ → Option ℕ) (pd : PageDirectory4m) (vaddr n page : ℕ)
    → Walks translate
    → OnPage pd vaddr n page
    → Linear translate pd vaddr (page + vaddr % 2 ^ 22) n
OnPage-Linear translate pd vaddr n page walks on i h =
    let number : (vaddr + i) / 2 ^ 22 ≡ vaddr / 2 ^ 22 = omega (arith, on.fits) in
    let offset : page + (vaddr + i) % 2 ^ 22 ≡ page + vaddr % 2 ^ 22 + i = omega (arith, on.fits) in
    walks pd (vaddr + i) page (rw number on.maps) ∙ ap some offset

-- The mappings `f` with one of them put in, or taken out, at a page that may be missing.
abbrev pub over : Option ℕ → ℕ → (ℕ → Option ℕ) → ℕ → Option ℕ
over none page f j = f j
over (some at) page f j = if j == at then some page else f j

abbrev pub under : Option ℕ → (ℕ → Option ℕ) → ℕ → Option ℕ
under none f j = f j
under (some at) f j = if j == at then none else f j

-- `q` differs from `m` at most in the current page directory, whose mappings are `f`.
pub record Shows (m q : Machine) (f : ℕ → Option ℕ) : Type 0 where
  pub size : length (current_pd q) ≡ 1024
  pub current : q.current ≡ m.current
  pub memory : q.memory ≡ m.memory
  pub others : (i : ℕ) → i ≢ m.current → q.dirs i ≡ m.dirs i
  pub maps : (j : ℕ) → mapping (current_pd q) j ≡ f j

pub with_dir-Shows :
    (m : Machine) (pd : PageDirectory4m) (f : ℕ → Option ℕ)
    → length pd ≡ 1024
    → ((j : ℕ) → mapping pd j ≡ f j)
    → Shows m (with_dir m m.current pd) f
unfolding with_dir
with_dir-Shows m pd f size maps = record {
  size = rw (==_refl m.current) size;
  current = refl;
  memory = refl;
  others = λ i ne. rw (==_ne i m.current ne);
  maps = λ j. rw (==_refl m.current) (maps j);
}

-- The page of an address, and what is left of it.
pub page_address_lem :
    (vaddr : ℕ)
    → vaddr < 2 ^ 32
    → (IsPageAddr (page_address vaddr))
      × (page_address vaddr / 2 ^ 22 ≡ vaddr / 2 ^ 22)
      × (vaddr - page_address vaddr ≡ vaddr % 2 ^ 22)
page_address_lem vaddr h = omega arith

-- A search over a directory with a free page succeeds.
some_free :
    (pd : PageDirectory4m) (free : ℕ)
    → free < 1024
    → mapping pd free ≡ none
    → (at : ℕ) × (get_next_free_page pd 0 ≡ some at) × (at < 1024) × (mapping pd at ≡ none)
some_free pd free range is_free =
    go (get_next_free_page pd 0) refl (get_next_free_page-FirstFree pd 0 (omega arith))
  where
    go :
        (r : Option ℕ)
        → get_next_free_page pd 0 ≡ r
        → FirstFree pd 0 1024 r
        → (at : ℕ) × (get_next_free_page pd 0 ≡ some at) × (at < 1024) × (mapping pd at ≡ none)
    go none e f = absurd (f free (omega arith) range is_free)
    go (some at) e f = (at, e, f.1, f.2)

module _ (m : Machine) (size : length (current_pd m) ≡ 1024) where
  -- What a temporary mapping is: a page `at` that was free, mapped to `page`, and the address on it.
  pub record Temp (page offset : ℕ) (q : Machine) (vaddr at : ℕ) : Type 0 where
    pub free : mapping (current_pd m) at ≡ none
    pub range : at < 1024
    pub shows : Shows m q (over (some at) page (mapping (current_pd m)))
    pub address : vaddr ≡ at * 2 ^ 22 + offset

  number : (at : ℕ) → at < 1024 → at * 2 ^ 22 % 2 ^ 32 / 2 ^ 22 ≡ at
  number at h = omega arith

  Temp-of :
      (at page offset : ℕ) (pd : PageDirectory4m)
      → mapping (current_pd m) at ≡ none
      → at < 1024
      → Remaps (current_pd m) at (some page) pd
      → Temp page offset (with_dir m m.current pd) (at * 2 ^ 22 % 2 ^ 32 + offset) at
  Temp-of at page offset pd open_at small maps = record {
    free = open_at;
    range = small;
    shows = with_dir-Shows m pd _ (maps.size ∙ size) (λ j. elim (ℕ_discrete j at) [
      | yes e ↦ rw (e, ==_refl at) maps.here
      | no ne ↦ rw (==_ne j at ne) (maps.elsewhere j (λ e. ne (sym e)))
    ]);
    address = omega arith;
  }

  -- Given a free virtual page, `TempMap` returns, and maps the page of another address space there.
  pub temp_map_lem :
      (other vaddr n page free : ℕ)
      → other ≢ m.current
      → length (m.dirs other) ≡ 1024
      → OnPage (m.dirs other) vaddr n page
      → IsPageAddr page
      → free < 1024
      → mapping (current_pd m) free ≡ none
      → Returns (λ (q, v). (at : ℕ) × Temp page (vaddr % 2 ^ 22) q v at) (temp_map m other vaddr)
  unfolding temp_map
  temp_map_lem other vaddr n page free ne osize on aligned range is_free =
      let pa : ℕ = page_address vaddr in
      let place : (IsPageAddr pa) × (pa / 2 ^ 22 ≡ vaddr / 2 ^ 22) × (vaddr - pa ≡ vaddr % 2 ^ 22) =
        page_address_lem vaddr (on.word) in
      let (at, found, small, open_at) = some_free (current_pd m) free range is_free in
      rw
        (
          ==_ne other m.current ne,
          vaddr_is_mapped_lem (m.dirs other) osize pa (place.0),
          get_physical_addr_lem (m.dirs other) osize pa (place.0),
          place.1,
          on.maps,
          found,
          place.2,
        )
        (Returns-bind (Remaps (current_pd m) (at * 2 ^ 22 % 2 ^ 32 / 2 ^ 22) (some page))
          (λ (q, v). (at : ℕ) × Temp page (vaddr % 2 ^ 22) q v at) _ _
          (map_page_lem (current_pd m) size (at * 2 ^ 22 % 2 ^ 32) page 0 (omega arith) aligned
            (omega arith) (rw (number at small) open_at))
          (λ pd maps.
            (at, Temp-of at page (vaddr % 2 ^ 22) pd open_at small (rw (number at small) at maps))))
