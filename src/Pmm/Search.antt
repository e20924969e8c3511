-- ===== src/Pmm/Search.antt =====
-- `GetNextFreePage` of kernel/pmm.cpp against the view of the bitmap as one mark for each page.
use yet_another_project_i_ll.Base.{
  ℕ, zero, suc, ◌+◌, ◌*◌, ◌/◌, ◌%◌, ◌≤◌, ◌<◌, ◌≡◌, refl, sym, ap, subst, ◌∙◌, ◌≢◌, inl, inr, true,
  false, Option, none, some, arith, get_or, ok, Returns, Outcome-cases, Returns-mono,
}
use native.Mathlib.Decide.{dec_lt, ℕ_discrete}
use yet_another_project_i_ll.Pmm.{Pmm, first_zero, find_free, get_next_free_page, set_page_used}
use yet_another_project_i_ll.Pmm.Byte.{first_zero_lem, first_zero_least, test_bit_full}
use yet_another_project_i_ll.Pmm.Pages.{IsBitmap, Marks, used, byte_at_lem, set_page_used_lem}

-- The outcome of a search of the pages from `lo` to `hi`: the lowest free one, or that none is.
abbrev pub Found : Pmm → ℕ → ℕ → Option ℕ → Type 0
Found p lo hi none = (j : ℕ) → lo ≤ j → j < hi → used p j ≡ true
Found p lo hi (some page) =
    (lo ≤ page)
    × (page < hi)
    × (used p page ≡ false)
    × ((j : ℕ) → lo ≤ j → j < page → used p j ≡ true)

module _ {p : Pmm} (v : IsBitmap p) where
  full_byte : (i j : ℕ) → get_or p.bitmap i 0 ≡ 255 → i * 8 ≤ j → j < i * 8 + 8 → used p j ≡ true
  unfolding used
  full_byte i j e lo hi =
      let at : j / 8 ≡ i = omega arith in rw (at, e) (test_bit_full (j % 8) (omega arith))

  partial_byte :
      (i : ℕ)
      → get_or p.bitmap i 0 ≢ 255
      → Found p (i * 8) (i * 8 + 8) (some (i * 8 + first_zero 8 (get_or p.bitmap i 0) 0))
  unfolding used
  partial_byte i ne =
      let x : ℕ = get_or p.bitmap i 0 in
      let k : ℕ = first_zero 8 x 0 in
      let small : x < 255 = omega (arith, v.bytes i) in
      let at : (i * 8 + k) / 8 ≡ i = omega (arith, first_zero_lem x small) in
      let bit : (i * 8 + k) % 8 ≡ k = omega (arith, first_zero_lem x small) in
      (
        omega arith,
        omega (arith, first_zero_lem x small),
        rw (at, bit) ((first_zero_lem x small).1),
        λ j lo hi.
            let at' : j / 8 ≡ i = omega (arith, first_zero_lem x small) in
            rw at' (first_zero_least x (j % 8) small (omega (arith, first_zero_lem x small))),
      )

  Found-extend :
      (lo mid hi : ℕ) (r : Option ℕ)
      → lo ≤ mid
      → ((j : ℕ) → lo ≤ j → j < mid → used p j ≡ true)
      → Found p mid hi r
      → Found p lo hi r
  Found-extend lo mid hi none le below found =
      λ j a b. elim (dec_lt j mid) [ yes q ↦ below j a q | no q ↦ found j (omega arith) b ]
  Found-extend lo mid hi (some page) le below found = (
    omega arith,
    found.1,
    found.2,
    λ j a b. elim (dec_lt j mid) [ yes q ↦ below j a q | no q ↦ found.3 j (omega arith) b ],
  )

  Found-widen :
      (lo mid hi page : ℕ) → mid ≤ hi → Found p lo mid (some page) → Found p lo hi (some page)
  Found-widen lo mid hi page le found = (found.0, omega arith, found.2, found.3)

  find_free_full :
      (rounds i : ℕ)
      → i < 128
      → get_or p.bitmap i 0 ≡ 255
      → find_free p (suc rounds) i ≡ find_free p rounds (i + 1)
  unfolding find_free
  find_free_full rounds i h e = rw (byte_at_lem v i h, e)

  find_free_part :
      (rounds i : ℕ)
      → i < 128
      → get_or p.bitmap i 0 ≢ 255
      → find_free p (suc rounds) i ≡ ok (some (i * 8 + first_zero 8 (get_or p.bitmap i 0) 0))
  unfolding find_free
  find_free_part rounds i h ne = ground (arith, byte_at_lem v i h)

  find_free_lem :
      (rounds i lo hi : ℕ)
      → i + rounds ≤ 128
      → lo ≡ i * 8
      → hi ≡ (i + rounds) * 8
      → Returns (Found p lo hi) (find_free p rounds i)
  unfolding find_free
  find_free_lem zero i lo hi h l e = λ j a b. absurd (omega arith)
  find_free_lem (suc rounds) i lo hi h l e = elim (ℕ_discrete (get_or p.bitmap i 0) 255) [
    | yes full ↦ rw (find_free_full rounds i (omega arith) full) (
        Returns-mono (Found p (lo + 8) hi) (Found p lo hi) (find_free p rounds (i + 1))
          (find_free_lem rounds (i + 1) (lo + 8) hi (omega arith) (omega arith) (omega arith))
          (λ r.
            Found-extend lo (lo + 8) hi r (omega arith)
              (λ j a b. full_byte i j full (omega arith) (omega arith))))
    | no part ↦
        rw (find_free_part rounds i (omega arith) part, l)
          (Found-widen (i * 8) (i * 8 + 8) hi _ (omega arith) (partial_byte i part))
  ]

  -- `GetNextFreePage` returns, and what it returns is the lowest free page of those it looks at:
  -- the pages in whole bytes of the bitmap.
  pub get_next_free_page-Found :
      p.num_4m_pages ≤ 1024 → Returns (Found p 0 (p.num_4m_pages / 8 * 8)) (get_next_free_page p)
  unfolding get_next_free_page
  get_next_free_page-Found h =
      find_free_lem (p.num_4m_pages / 8) 0 0 _ (omega arith) (omega arith) (omega arith)

  Found-none :
      (hi : ℕ) (r : Option ℕ) → ((j : ℕ) → j < hi → used p j ≡ true) → Found p 0 hi r → r ≡ none
  Found-none hi none h found = refl
  Found-none hi (some page) h found = cc (sym (h page found.1), found.2)

  -- When the pages of the whole bytes are used, `GetNextFreePage` reports that no page is free,
  -- although there may be a free page in the last, partly used byte of the bitmap.
  pub get_next_free_page_misses :
      (free : ℕ)
      → p.num_4m_pages ≤ 1024
      → free < p.num_4m_pages
      → used p free ≡ false
      → ((j : ℕ) → j < p.num_4m_pages / 8 * 8 → used p j ≡ true)
      → (get_next_free_page p ≡ ok none) × (p.num_4m_pages / 8 * 8 ≤ free)
  get_next_free_page_misses free small inside is_free h =
      elim (Outcome-cases (get_next_free_page p)) [
        | inl stops ↦ absurd (subst (Returns (Found p 0 _)) stops (get_next_free_page-Found small))
        | inr (r, e) ↦ (
          e
              ∙ ap ok (
                  Found-none _ r h
                    (subst (Returns (Found p 0 _)) e (get_next_free_page-Found small))),
          elim (dec_lt free (p.num_4m_pages / 8 * 8)) [
            | yes q ↦ absurd (cc (h free q))
            | no q ↦ omega arith
          ],
        )
      ]

-- The page that `GetNextFreePage` returns can be taken: `SetPageUsed` on it passes its assertions
-- and marks that page and no other.
pub set_page_used-get_next_free_page :
    {p : Pmm} (v : IsBitmap p) (page : ℕ)
    → p.num_4m_pages ≤ 1024
    → get_next_free_page p ≡ ok (some page)
    → (page < p.num_4m_pages) × Returns (Marks p page true) (set_page_used p page)
set_page_used-get_next_free_page {p} v page small e =
    let found : Found p 0 (p.num_4m_pages / 8 * 8) (some page) =
      subst (Returns (Found p 0 _)) e (get_next_free_page-Found v small) in
    (omega arith, set_page_used_lem v page (omega arith) (found.2))
