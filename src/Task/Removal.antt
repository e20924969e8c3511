-- ===== src/Task/Removal.antt =====
-- `RemoveOwnedPage` of kernel/scheduler.cpp on the table of a task.
use yet_another_project_i_ll.Base.{
  ℕ, ◌<◌, ◌≡◌, sym, subst, ◌∙◌, ◌≢◌, ◌⊎◌, inl, inr, true, false, List, [], ◌∷◌, arith, ◌==◌, ==_ne,
  Bool-cases, Returns, Returns-bind,
}
use yet_another_project_i_ll.Pmm.Pages.{IsBitmap, used, Marks, set_page_free_lem}
use yet_another_project_i_ll.Task.{contains, page_is_recorded, replace_first, remove_owned_page}
use yet_another_project_i_ll.Pmm.{Pmm}

-- No entry but the empty one stands twice.
abbrev pub IsTable : List ℕ → Type 0
IsTable [] = Unit {0}
IsTable (x ∷ xs) = ((x ≡ 0) ⊎ (contains xs x ≡ false)) × IsTable xs

contains_erased :
    (xs : List ℕ) (page : ℕ)
    → page ≢ 0
    → contains xs page ≡ true
    → IsTable xs
    → Returns (λ ys. contains ys page ≡ false) (replace_first xs page 0)
unfolding contains replace_first
contains_erased [] page nz has table = absurd (ground arith)
contains_erased (x ∷ xs) page nz has (first, table) = elim (Bool-cases (x == page)) [
  | inl e ↦
      let same : x ≡ page = ground arith in
      let gone : contains xs page ≡ false = elim first [
        | inl z ↦ absurd (nz (sym same ∙ z))
        | inr once ↦ subst (λ i. contains xs i ≡ false) same once
      ] in
      rw (e, ==_ne 0 page (λ z. nz (sym z))) gone
  | inr ne ↦ rw ne (
      Returns-bind (λ ys. contains ys page ≡ false) (λ ys. contains ys page ≡ false) _ _
        (contains_erased xs page nz (rw ne at has) table) (λ ys q. ground arith))
]

-- The page is not recorded any more, and its mark is cleared.
pub record Removed (pmm : Pmm) (ppage : ℕ) (out : Pmm × List ℕ) : Type 0 where
  pub marks : Marks pmm ppage false (out.0)
  pub gone : page_is_recorded (out.1) ppage ≡ false

pub remove_owned_page-Removed :
    {pmm : Pmm} (v : IsBitmap pmm) (pages : List ℕ) (ppage : ℕ)
    → ppage < 1024
    → ppage ≢ 0
    → used pmm ppage ≡ true
    → page_is_recorded pages ppage ≡ true
    → IsTable pages
    → Returns (Removed pmm ppage) (remove_owned_page pmm pages ppage)
unfolding remove_owned_page page_is_recorded
remove_owned_page-Removed {pmm} v pages ppage inside nz taken has table = rw has (
    Returns-bind (λ ys. contains ys ppage ≡ false) (Removed pmm ppage) _ _
      (contains_erased pages ppage nz has table)
      (λ ys gone.
        Returns-bind (Marks pmm ppage false) (Removed pmm ppage) _ _
          (set_page_free_lem v ppage inside taken) (λ q m. record { marks = m; gone = gone })))
