-- ===== src/Kmalloc/Pages.antt =====
-- What the functions of kernel/kmalloc.cpp take and hand over.
use yet_another_project_i_ll.Base.{
  ℕ, ◌+◌, ◌-◌, ◌*◌, ◌/◌, ◌%◌, ◌^◌, ◌≤◌, ◌<◌, ◌≡◌, refl, subst, ◌∙◌, true, false, none, some, [],
  ◌∷◌, arith, length, ok, Returns, Returns-bind,
}
use yet_another_project_i_ll.Kmalloc.{ask_for_more_kernel_space, initialize}
use yet_another_project_i_ll.Paging.Map.{
  mapping, IsPageAddr, Remaps, map_page_lem, vaddr_is_mapped_lem,
}
use yet_another_project_i_ll.Paging.Search.{FirstFree, get_next_free_page-FirstFree}
use yet_another_project_i_ll.Paging.{PageDirectory4m, map_page, vaddr_is_mapped}
use yet_another_project_i_ll.Pmm.Pages.{IsBitmap, used, Marks, page_is_used_lem, set_page_used_lem}
use yet_another_project_i_ll.Pmm.Search.{Found, get_next_free_page-Found}
use yet_another_project_i_ll.Pmm.{page_size_4m, Pmm, page_to_addr, set_page_used}
use yet_another_project_i_ll.Malloc.Headers.{Arenas}
use yet_another_project_i_ll.Malloc.Setup.{initialize-Arenas}
use yet_another_project_i_ll.Malloc.{Heap}
use yet_another_project_i_ll.Paging.{get_next_free_page as next_free_vpage}
use yet_another_project_i_ll.Pmm.{get_next_free_page as next_free_ppage}

-- A free page marked as used and mapped at a virtual page, with no other mark or mapping changed.
pub record Taken (pmm : Pmm) (pd : PageDirectory4m) (vpage ppage : ℕ) (pmm₁ : Pmm)
    (pd₁ : PageDirectory4m) : Type 0 where
  pub was_free : used pmm ppage ≡ false
  pub marks : Marks pmm ppage true pmm₁
  pub maps : Remaps pd vpage (some (ppage * 2 ^ 22)) pd₁

module _ {pmm : Pmm} (v : IsBitmap pmm) (few : pmm.num_4m_pages ≤ 1024) (pd : PageDirectory4m)
    (size : length pd ≡ 1024) (ppage : ℕ) (found : next_free_ppage pmm ≡ ok (some ppage)) where
  lowest : Found pmm 0 (pmm.num_4m_pages / 8 * 8) (some ppage)
  lowest =
      subst (Returns (Found pmm 0 (pmm.num_4m_pages / 8 * 8))) found
        (get_next_free_page-Found v few)

  inside : ppage < 1024
  inside = omega (arith, lowest.1, few)

  marked : Returns (Marks pmm ppage true) (set_page_used pmm ppage)
  marked = set_page_used_lem v ppage inside (lowest.2)

  mapped :
      (vaddr : ℕ)
      → IsPageAddr vaddr
      → mapping pd (vaddr / 2 ^ 22) ≡ none
      → Returns
          (Remaps pd (vaddr / 2 ^ 22) (some (ppage * 2 ^ 22)))
          (map_page pd vaddr (ppage * 2 ^ 22) 0)
  mapped vaddr a free =
      map_page_lem pd size vaddr (ppage * 2 ^ 22) 0 a (omega arith, omega (arith, inside))
        (omega arith) free

  -- `AskForMoreKernelSpace` with a free physical page and a free virtual one hands over the lowest
  -- unmapped page behind the first one, backed by that physical page.
  pub ask_for_more_kernel_space-Taken :
      (vpage : ℕ)
      → next_free_vpage pd 1 ≡ some vpage
      → Returns
          (λ (pmm₁, pd₁, alloc, alloc_size).
            Taken pmm pd vpage ppage pmm₁ pd₁ × (alloc ≡ vpage * 2 ^ 22) × (alloc_size ≡ 2 ^ 22))
          (ask_for_more_kernel_space pmm pd)
  unfolding ask_for_more_kernel_space
  ask_for_more_kernel_space-Taken vpage e =
      let first : FirstFree pd 1 1024 (some vpage) =
        subst (FirstFree pd 1 1024) e (get_next_free_page-FirstFree pd 1 (omega arith)) in
      let there : page_to_addr vpage ≡ vpage * 2 ^ 22 = omega (arith, first.1) in
      let here : page_to_addr ppage ≡ ppage * 2 ^ 22 = omega (arith, inside) in
      let back : vpage * 2 ^ 22 / 2 ^ 22 ≡ vpage = omega arith in
      let Result : Pmm × PageDirectory4m × ℕ × ℕ → Type 0 = λ (pmm₁, pd₁, alloc, alloc_size).
        Taken pmm pd vpage ppage pmm₁ pd₁ × (alloc ≡ vpage * 2 ^ 22) × (alloc_size ≡ 2 ^ 22) in
      rw (e, found, there, here)
        (Returns-bind (Remaps pd (vpage * 2 ^ 22 / 2 ^ 22) (some (ppage * 2 ^ 22))) Result _ _
          (mapped (vpage * 2 ^ 22) (omega arith, omega (arith, first.1)) (rw back (first.2)))
          (λ q r. Returns-bind (Marks pmm ppage true) Result _ _ marked (λ p m. (
            record {
              was_free = lowest.2;
              marks = m;
              maps = subst (λ i. Remaps pd i (some (ppage * 2 ^ 22)) q) back r;
            },
            refl,
            refl,
          ))))

  -- `Initialize` with a free physical page, and the page behind the kernel unmapped and not the last
  -- one below 4GB, maps it there and leaves a heap of one arena on it, with one free block of all
  -- but 12 of its bytes; the fuel is at least 3.
  pub initialize-Taken :
      (fuel kernel_begin : ℕ) (heap : Heap)
      → 3 ≤ fuel
      → heap.first_alloc ≡ 0
      → kernel_begin % 2 ^ 22 ≡ 0
      → kernel_begin + 2 ^ 23 < 2 ^ 32
      → mapping pd ((kernel_begin + 2 ^ 22) / 2 ^ 22) ≡ none
      → Returns
          (λ (pmm₁, pd₁, heap₁).
            Taken pmm pd ((kernel_begin + 2 ^ 22) / 2 ^ 22) ppage pmm₁ pd₁
            × Arenas heap₁.words (kernel_begin + 2 ^ 22) (
                record {
                  start = kernel_begin + 2 ^ 22;
                  size = 2 ^ 22;
                  blocks = (2 ^ 22 - 4 - 8, false) ∷ [];
                }
                ∷ []))
          (initialize fuel pmm pd heap kernel_begin)
  unfolding initialize
  initialize-Taken fuel kernel_begin heap enough none_yet aligned top free =
      let vaddr : ℕ = kernel_begin + 2 ^ 22 in
      let whole : (kernel_begin + page_size_4m) % 2 ^ 32 ≡ vaddr = omega arith in
      let a : IsPageAddr vaddr = (omega arith, omega arith) in
      let small : ppage * page_size_4m % 2 ^ 32 ≡ ppage * 2 ^ 22 = omega (arith, inside) in
      let not_mapped : vaddr_is_mapped pd vaddr ≡ ok false =
        vaddr_is_mapped_lem pd size vaddr a ∙ rw free refl in
      let Result : Pmm × PageDirectory4m × Heap → Type 0 = λ (pmm₁, pd₁, heap₁).
        Taken pmm pd (vaddr / 2 ^ 22) ppage pmm₁ pd₁
        × Arenas heap₁.words vaddr
            (record { start = vaddr; size = 2 ^ 22; blocks = (2 ^ 22 - 4 - 8, false) ∷ [] } ∷ []) in
      let Ready : Heap → Type 0 = λ h.
        (h.first_alloc ≡ vaddr)
        × Arenas h.words vaddr
            (record { start = vaddr; size = 2 ^ 22; blocks = (2 ^ 22 - 4 - 8, false) ∷ [] } ∷ []) in
      rw (whole, not_mapped, found, page_is_used_lem v ppage inside, lowest.2, small)
        (Returns-bind (Marks pmm ppage true) Result _ _ marked (λ p m.
          Returns-bind (Remaps pd (vaddr / 2 ^ 22) (some (ppage * 2 ^ 22))) Result _ _
            (mapped vaddr a free)
            (λ q r.
              Returns-bind Ready Result _ _
                (initialize-Arenas fuel heap vaddr (2 ^ 22) enough none_yet
                  (λ z. absurd (omega arith)) (omega arith) (omega arith) (omega arith)
                  (omega arith) (omega arith))
                (λ h (s, arenas). (record { was_free = lowest.2; marks = m; maps = r }, arenas)))))
