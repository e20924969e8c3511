-- ===== src/Task/Pages.antt =====
-- The pages that a task owns, and their marks in the bitmap of physical pages.
use yet_another_project_i_ll.Base.{
  ℕ, ◌<◌, ◌≡◌, refl, sym, subst, ◌∙◌, ◌≢◌, ◌⊎◌, inl, inr, Bool, true, false, not, ◌&&◌, List, [],
  ◌∷◌, arith, ◌==◌, if◌then◌else◌, ==_refl, ==_ne, Bool-cases, ==_yes, ok, ◌>>=◌, Returns,
  Outcome-cases, Returns-mono, Returns-bind,
}
use yet_another_project_i_ll.Pmm.{Pmm, set_page_used, set_page_free}
use yet_another_project_i_ll.Pmm.Pages.{
  IsBitmap, used, Marks, page_is_used_lem, set_page_used_lem, set_page_free_lem,
  set_page_free-set_page_used,
}
use yet_another_project_i_ll.Task.{
  contains, page_is_recorded, replace_first, record_owned_page, remove_owned_page, free_owned_pages,
}
use native.Mathlib.Decide.{ℕ_discrete}

contains_replaced :
    (xs : List ℕ) (from to : ℕ)
    → contains xs from ≡ true
    → Returns (λ ys. contains ys to ≡ true) (replace_first xs from to)
unfolding contains replace_first
contains_replaced [] from to h = absurd (ground arith)
contains_replaced (x ∷ xs) from to h = elim (Bool-cases (x == from)) [
  | inl e ↦ rw (e, ==_refl to)
  | inr ne ↦ rw ne (
      Returns-bind (λ ys. contains ys to ≡ true) (λ ys. contains ys to ≡ true) _ _
        (contains_replaced xs from to (rw ne at h)) (λ ys p. ground arith))
]

-- Writing the old entry back undoes the write.
replaced_back :
    (xs : List ℕ) (from to : ℕ)
    → contains xs from ≡ true
    → contains xs to ≡ false
    → (replace_first xs from to >>= λ ys. replace_first ys to from) ≡ ok xs
unfolding contains replace_first
replaced_back [] from to h n = absurd (ground arith)
replaced_back (x ∷ xs) from to h n =
    let ne_to : (x == to) ≡ false = ground arith in
    let n_rest : contains xs to ≡ false = ground arith in
    elim (Bool-cases (x == from)) [
      | inl e ↦ let same : x ≡ from = ground arith in rw (e, ==_refl to, same)
      | inr ne ↦
          let h_rest : contains xs from ≡ true = ground arith in
          let again : (replace_first xs from to >>= λ ys. replace_first ys to from) ≡ ok xs =
            replaced_back xs from to h_rest n_rest in
          elim (Outcome-cases (replace_first xs from to)) [
            | inl stops ↦ absurd (
                subst (Returns (λ ys. contains ys to ≡ true)) stops
                  (contains_replaced xs from to h_rest))
            | inr (ys, e) ↦ rw (ne, e, ne_to, (rw e at again))
          ]
    ]

-- What `RecordOwnedPage` leaves: the page is marked as used and recorded, and no other mark is
-- changed.
pub record Recorded (pmm : Pmm) (ppage : ℕ) (out : Pmm × List ℕ) : Type 0 where
  pub marks : Marks pmm ppage true (out.0)
  pub recorded : page_is_recorded (out.1) ppage ≡ true

module _ {pmm : Pmm} (v : IsBitmap pmm) (pages : List ℕ) (ppage : ℕ) (inside : ppage < 1024)
    (free : used pmm ppage ≡ false) (room : contains pages 0 ≡ true)
    (fresh : page_is_recorded pages ppage ≡ false) where
  -- With room in the table `RecordOwnedPage` passes its assertions for a free page that is not
  -- recorded, marks the page as used, and records it.
  pub record_owned_page-Recorded : Returns (Recorded pmm ppage) (record_owned_page pmm pages ppage)
  unfolding record_owned_page page_is_recorded
  record_owned_page-Recorded = rw fresh (
      Returns-bind (λ ys. contains ys ppage ≡ true) (Recorded pmm ppage) _ _
        (contains_replaced pages 0 ppage room)
        (λ ys has.
          Returns-bind (Marks pmm ppage true) (Recorded pmm ppage) _ _
            (set_page_used_lem v ppage inside free) (λ q m. record { marks = m; recorded = has })))

  -- `RemoveOwnedPage` after `RecordOwnedPage` gives back the very same table and bitmap.
  pub remove_owned_page-record_owned_page :
      (record_owned_page pmm pages ppage >>= λ out. remove_owned_page (out.0) (out.1) ppage)
      ≡ ok (pmm, pages)
  unfolding record_owned_page remove_owned_page page_is_recorded
  remove_owned_page-record_owned_page = elim (Outcome-cases (replace_first pages 0 ppage)) [
    | inl stops ↦ absurd (
        subst (Returns (λ ys. contains ys ppage ≡ true)) stops
          (contains_replaced pages 0 ppage room))
    | inr (ys, e) ↦
        let has : contains ys ppage ≡ true =
          subst (Returns (λ ys. contains ys ppage ≡ true)) e
            (contains_replaced pages 0 ppage room) in
        let back : replace_first ys ppage 0 ≡ ok pages =
          rw e at (replaced_back pages 0 ppage room fresh) in
        elim (Outcome-cases (set_page_used pmm ppage)) [
          | inl stops ↦
              absurd (
                subst (Returns (Marks pmm ppage true)) stops
                  (set_page_used_lem v ppage inside free))
          | inr (q, m) ↦
              let undone : set_page_free q ppage ≡ ok pmm =
                rw m at (set_page_free-set_page_used v ppage inside free) in
              rw (fresh, e, m, has, back, undone)
        ]
  ]

-- The pages that a task owns: each of them marked, and recorded once.
unfoldable pub IsOwned : Pmm → List ℕ → Type 0
IsOwned pmm [] = Unit {0}
IsOwned pmm (page ∷ rest) =
    ((page ≡ 0)
      ⊎ ((page ≢ 0) × (page < 1024) × (used pmm page ≡ true) × (contains rest page ≡ false)))
    × IsOwned pmm rest

-- The marks that are left when the pages of a list are given back
pub record Freed (pmm : Pmm) (pages : List ℕ) (q : Pmm) : Type 0 where
  pub valid : IsBitmap q
  pub marks : (j : ℕ) → j ≢ 0 → used q j ≡ (used pmm j && not (contains pages j))
  pub zeroth : used q 0 ≡ used pmm 0

IsOwned-Marks :
    (pmm q : Pmm) (page : ℕ) (pages : List ℕ)
    → Marks pmm page false q
    → contains pages page ≡ false
    → IsOwned pmm pages
    → IsOwned q pages
unfolding contains IsOwned
IsOwned-Marks pmm q page [] m n h = tt
IsOwned-Marks pmm q page (x ∷ xs) m n (inl e, h) =
    (inl e, IsOwned-Marks pmm q page xs m (ground arith) h)
IsOwned-Marks pmm q page (x ∷ xs) m n (inr (nz, lt, taken, once), h) =
    let ne : (x == page) ≡ false = ground arith in
    (inr (nz, lt, m.marks x ∙ rw (ne, taken), once), IsOwned-Marks pmm q page xs m (ground arith) h)

other_marks :
    (j x : ℕ) (a b : Bool)
    → ((if j == x then false else a) && not b) ≡ (a && not (if x == j then true else b))
other_marks j x a b = elim (ℕ_discrete j x) [
  | yes e ↦ rw (e, ==_refl x) (ground arith)
  | no ne ↦ rw (==_ne j x ne, ==_ne x j (λ e. ne (sym e)))
]

-- The destructor of a task gives back exactly the pages that the task owns. Page 0 stays as it is,
-- since 0 stands for an empty entry.
pub free_owned_pages-Freed :
    (pages : List ℕ) {pmm : Pmm}
    → IsBitmap pmm
    → IsOwned pmm pages
    → Returns (Freed pmm pages) (free_owned_pages pmm pages)
unfolding free_owned_pages contains IsOwned
free_owned_pages-Freed [] v h = record { valid = v; marks = λ j ne. ground arith; zeroth = refl }
free_owned_pages-Freed (x ∷ xs) {pmm} v (inl e, h) = rw (==_yes x 0 e) (
    Returns-mono (Freed pmm xs) (Freed pmm (x ∷ xs)) _ (free_owned_pages-Freed xs v h) (λ q f.
      record {
        valid = f.valid;
        marks = λ j ne. let other : (x == j) ≡ false = ground arith in rw other (f.marks j ne);
        zeroth = f.zeroth;
      }))
free_owned_pages-Freed (x ∷ xs) {pmm} v (inr (nz, lt, taken, once), h) =
    elim (Bool-cases (x == 0)) [
      | inl e ↦ absurd (nz (ground arith))
      | inr ne ↦
          rw (ne, page_is_used_lem v x lt, taken)
            (Returns-bind (Marks pmm x false) (Freed pmm (x ∷ xs)) _ _
              (set_page_free_lem v x lt taken)
              (λ q m.
                Returns-mono (Freed q xs) (Freed pmm (x ∷ xs)) _
                  (free_owned_pages-Freed xs (m.valid) (IsOwned-Marks pmm q x xs m once h))
                  (λ r f. record {
                    valid = f.valid;
                    marks = λ j other.
                        f.marks j other
                        ∙ (rw (m.marks j) (other_marks j x (used pmm j) (contains xs j)));
                    zeroth = f.zeroth ∙ m.marks 0 ∙ rw (==_ne 0 x (λ e. nz (sym e)));
                  })))
    ]
