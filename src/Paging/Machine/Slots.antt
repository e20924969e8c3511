-- ===== src/Paging/Machine/Slots.antt =====
-- The two ends of a copy between address spaces in kernel/paging.cpp: what is brought into the
-- current page directory before the copy, and given back after it.
use yet_another_project_i_ll.Base.{
  ℕ, ◌-◌, ◌/◌, ◌%◌, ◌^◌, ◌<◌, ◌≡◌, refl, sym, ap, subst, ◌∙◌, ◌≢◌, ◌⊎◌, inl, inr, Option, none,
  some, arith, ◌==◌, if◌then◌else◌, ==_refl, ==_ne, ==_yes, length, Returns, Returns-mono,
  Returns-bind,
}
use yet_another_project_i_ll.Paging.Machine.{Machine, current_pd, unmap_current, bring_in, release}
use yet_another_project_i_ll.Paging.Map.{mapping, IsPageAddr, Remaps, unmap_page_lem}
use yet_another_project_i_ll.Paging.Machine.TempMap.{
  OnPage, over, under, Shows, with_dir-Shows, page_address_lem, Temp, temp_map_lem,
}
use yet_another_project_i_ll.Pmm.{page_address}
use native.Mathlib.Decide.{ℕ_discrete}

-- The page that a temporary mapping occupies, if there is one.
abbrev pub slot : Machine → (pd vaddr : ℕ) → Option ℕ
slot m pd vaddr = if pd == m.current then none else some (vaddr / 2 ^ 22)

abbrev pub IsFree : (ℕ → Option ℕ) → Option ℕ → Type 0
IsFree f none = Unit {0}
IsFree f (some at) = f at ≡ none

pub over_taken :
    (s : Option ℕ) (page other : ℕ) (f : ℕ → Option ℕ) (j : ℕ)
    → IsFree f s
    → f j ≡ some other
    → over s page f j ≡ some other
over_taken none page other f j free e = e
over_taken (some at) page other f j free e = elim (ℕ_discrete j at) [
  | yes same ↦ absurd (cc (ap f same))
  | no ne ↦ rw (==_ne j at ne) e
]

-- Of two free pages one is still free after a mapping.
pub still_free :
    (s : Option ℕ) (page a b : ℕ) (f : ℕ → Option ℕ)
    → a ≢ b
    → f a ≡ none
    → f b ≡ none
    → (over s page f a ≡ none) ⊎ (over s page f b ≡ none)
still_free none page a b f ne fa fb = inl fa
still_free (some at) page a b f ne fa fb = elim (ℕ_discrete a at) [
  | yes e ↦ inr (rw (==_ne b at (λ e'. ne (e ∙ sym e'))) fb)
  | no ne' ↦ inl (rw (==_ne a at ne') fa)
]

pub under_taken :
    (s : Option ℕ) (f : ℕ → Option ℕ) (j page : ℕ)
    → s ≢ some j
    → f j ≡ some page
    → under s f j ≡ some page
under_taken none f j page ne e = e
under_taken (some at) f j page ne e = rw (==_ne j at (λ e'. ne (ap some (sym e')))) e

-- Taking out what was put in, in the order of the source, leaves every mapping as it was.
pub under-over :
    (s t : Option ℕ) (p q : ℕ) (f : ℕ → Option ℕ) (j : ℕ)
    → IsFree f s
    → IsFree (over s p f) t
    → under t (under s (over t q (over s p f))) j ≡ f j
under-over none none p q f j fs ft = refl
under-over none (some b) p q f j fs ft = elim (ℕ_discrete j b) [
  | yes e ↦ ground (arith, ap f e)
  | no ne ↦ ground arith
]
under-over (some a) none p q f j fs ft = elim (ℕ_discrete j a) [
  | yes e ↦ ground (arith, ap f e)
  | no ne ↦ ground arith
]
under-over (some a) (some b) p q f j fs ft = elim (ℕ_discrete j b) [
  | yes e ↦ ground (arith, ap f e)
  | no ne ↦ elim (ℕ_discrete j a) [ yes e ↦ ground (arith, ap f e) | no ne' ↦ ground arith ]
]

-- The address `at` stands for `vaddr` of the directory `pd` in the current directory of `q`.
pub record Brought (m q : Machine) (pd vaddr n page at : ℕ) : Type 0 where
  pub shows : Shows m q (over (slot m pd at) page (mapping (current_pd m)))
  pub free : IsFree (mapping (current_pd m)) (slot m pd at)
  pub on : OnPage (current_pd q) at n page
  pub offset : at % 2 ^ 22 ≡ vaddr % 2 ^ 22
  pub kept : pd ≡ m.current → at ≡ vaddr

module _ (m : Machine) (size : length (current_pd m) ≡ 1024) where
  slot_here : (pd at : ℕ) → pd ≡ m.current → slot m pd at ≡ none
  slot_here pd at e = rw (==_yes pd m.current e)

  slot_there : (pd at : ℕ) → pd ≢ m.current → slot m pd at ≡ some (at / 2 ^ 22)
  slot_there pd at ne = rw (==_ne pd m.current ne)

  unchanged : (f : ℕ → Option ℕ) → ((j : ℕ) → mapping (current_pd m) j ≡ f j) → Shows m m f
  unchanged f e = record {
    size = size;
    current = refl;
    memory = refl;
    others = λ i ne. refl;
    maps = e;
  }

  here :
      (pd vaddr n page : ℕ)
      → OnPage (m.dirs pd) vaddr n page
      → pd ≡ m.current
      → Brought m m pd vaddr n page vaddr
  here pd vaddr n page on e = record {
    shows = unchanged _ (λ j. rw (slot_here pd vaddr e));
    free = rw (slot_here pd vaddr e) tt;
    on = subst (λ d. OnPage (m.dirs d) vaddr n page) e on;
    offset = refl;
    kept = λ _. refl;
  }

  there :
      (pd vaddr n page at a : ℕ) (q : Machine)
      → OnPage (m.dirs pd) vaddr n page
      → pd ≢ m.current
      → Temp m size page (vaddr % 2 ^ 22) q at a
      → Brought m q pd vaddr n page at
  there pd vaddr n page at a q on ne t =
      let number : at / 2 ^ 22 ≡ a = omega (arith, t.address) in
      let offset : at % 2 ^ 22 ≡ vaddr % 2 ^ 22 = omega (arith, t.address) in
      record {
        shows = rw (slot_there pd at ne, number) (t.shows);
        free = rw (slot_there pd at ne, number) (t.free);
        on = record {
          maps = rw number (t.shows.maps a ∙ rw (==_refl a));
          fits = rw offset (on.fits);
          word = omega (arith, t.address, t.range);
        };
        offset = offset;
        kept = λ e. absurd (ne e);
      }

  pub bring_in_lem :
      (pd vaddr n page free : ℕ)
      → length (m.dirs pd) ≡ 1024
      → OnPage (m.dirs pd) vaddr n page
      → IsPageAddr page
      → free < 1024
      → mapping (current_pd m) free ≡ none
      → Returns (λ (q, at). Brought m q pd vaddr n page at) (bring_in m pd vaddr)
  unfolding bring_in
  bring_in_lem pd vaddr n page free psize on aligned range is_free =
      elim (ℕ_discrete pd m.current) [
        | yes e ↦ rw (==_yes pd m.current e) (here pd vaddr n page on e)
        | no ne ↦ rw (==_ne pd m.current ne) (
            Returns-mono (λ (q, at). (a : ℕ) × Temp m size page (vaddr % 2 ^ 22) q at a)
              (λ (q, at). Brought m q pd vaddr n page at) _
              (temp_map_lem m size pd vaddr n page free ne psize on aligned range is_free)
              (λ (q, at) (a, t). there pd vaddr n page at a q on ne t))
      ]

  pub release_lem :
      (pd at page : ℕ)
      → at < 2 ^ 32
      → mapping (current_pd m) (at / 2 ^ 22) ≡ some page
      → Returns (λ q. Shows m q (under (slot m pd at) (mapping (current_pd m)))) (release m pd at)
  unfolding release unmap_current
  release_lem pd at page word taken = elim (ℕ_discrete pd m.current) [
    | yes e ↦ rw (==_yes pd m.current e) (unchanged _ (λ j. refl))
    | no ne ↦
        let pa : ℕ = page_address at in
        let place : (IsPageAddr pa) × (pa / 2 ^ 22 ≡ at / 2 ^ 22) × (at - pa ≡ at % 2 ^ 22) =
          page_address_lem at word in
        rw (==_ne pd m.current ne) (
          Returns-bind (Remaps (current_pd m) (pa / 2 ^ 22) none)
            (λ q. Shows m q (under (some (at / 2 ^ 22)) (mapping (current_pd m)))) _ _
            (unmap_page_lem (current_pd m) size pa page (place.0) (rw (place.1) taken))
            (λ r maps. with_dir-Shows m r _ (maps.size ∙ size) (λ j.
              elim (ℕ_discrete j (at / 2 ^ 22)) [
                | yes e ↦ rw (e, ==_refl (at / 2 ^ 22)) (rw (place.1) at maps.here)
                | no ne' ↦
                    rw (==_ne j (at / 2 ^ 22) ne') (maps.elsewhere j (λ e. ne' (sym e ∙ place.1)))
              ])))
  ]
