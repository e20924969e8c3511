-- ===== src/Syscalls/Alloc.antt =====
-- `SYS_AllocPage` of kernel/syscalls.cpp.
use yet_another_project_i_ll.Base.{
  ℕ, ◌*◌, ◌/◌, ◌^◌, ◌≤◌, ◌<◌, ◌≡◌, refl, subst, ◌∙◌, ◌≢◌, inl, inr, true, false, none, some, List,
  arith, ==_refl, ==_ne, Bool-cases, Option-cases, length, ok, Returns, Returns-mono, Returns-bind,
  Returns-assert,
}
use yet_another_project_i_ll.Syscalls.{
  Kernel, k_ok, k_oom_phys, k_oom_virt, k_vpage_mapped, has_flag, alloc_anon, with_eax,
  with_eax_ebx, alloc_vaddr, alloc_at, alloc_for, alloc_task, sys_alloc_page,
}
use yet_another_project_i_ll.Paging.Map.{
  mapping, IsPageAddr, Remaps, map_page_lem, vaddr_is_mapped_lem, get_physical_addr_lem,
}
use yet_another_project_i_ll.Paging.Search.{FirstFree, get_next_free_page-FirstFree}
use yet_another_project_i_ll.Paging.Machine.{with_dir}
use yet_another_project_i_ll.Paging.{PageDirectory4m, map_page}
use yet_another_project_i_ll.Task.Pages.{Recorded, record_owned_page-Recorded}
use yet_another_project_i_ll.Pmm.Pages.{IsBitmap, used, Marks}
use yet_another_project_i_ll.Pmm.Search.{Found, get_next_free_page-Found}
use yet_another_project_i_ll.Task.{
  Registers, Task, task_at, with_task, contains, page_is_recorded, record_owned_page,
}
use yet_another_project_i_ll.Pmm.{Pmm, page_to_addr}
use yet_another_project_i_ll.Paging.{get_next_free_page as next_free_vpage}
use yet_another_project_i_ll.Pmm.{get_next_free_page as next_free_ppage}

-- The task is a user's and live, its page directory is one, the bitmap covers at most 4GB, and no
-- free page is recorded for the task, whose table has room.
pub record CanAlloc (k : Kernel) (task : ℕ) (t : Task) : Type 0 where
  pub live : k.sched.tasks task ≡ some t
  pub user : t.is_user ≡ true
  pub dir : length (k.machine.dirs t.page_dir) ≡ 1024
  pub bitmap : IsBitmap k.sched.pmm
  pub small : k.sched.pmm.num_4m_pages ≤ 1024
  pub room : contains t.owned_phys_pages 0 ≡ true
  pub owned : (j : ℕ) → used k.sched.pmm j ≡ false → contains t.owned_phys_pages j ≡ false

-- The page is mapped at the address, marked as used and recorded as the task's; no other mapping,
-- mark or task is changed, and the registers hold the results.
pub record Allocated (k : Kernel) (regs : Registers) (task : ℕ) (t : Task) (vaddr ppage : ℕ)
    (out : Kernel × Registers) : Type 0 where
  pub results : out.1 ≡ with_eax_ebx regs k_ok vaddr
  pub maps :
      Remaps
        (k.machine.dirs t.page_dir)
        (vaddr / 2 ^ 22)
        (some (ppage * 2 ^ 22))
        ((out.0).machine.dirs t.page_dir)
  pub others : (i : ℕ) → i ≢ t.page_dir → (out.0).machine.dirs i ≡ k.machine.dirs i
  pub marks : Marks k.sched.pmm ppage true ((out.0).sched.pmm)
  pub pages : List ℕ
  pub records : contains pages ppage ≡ true
  pub tasks :
      (out.0).sched.tasks
      ≡ with_task k.sched.tasks task (some (record t { owned_phys_pages = pages }))

module _ {k : Kernel} {task : ℕ} {t : Task} (can : CanAlloc k task t) (regs : Registers) where
  alloc_at-Allocated :
      (ppage vaddr : ℕ)
      → ppage < 1024
      → used k.sched.pmm ppage ≡ false
      → IsPageAddr vaddr
      → mapping (k.machine.dirs t.page_dir) (vaddr / 2 ^ 22) ≡ none
      → Returns (Allocated k regs task t vaddr ppage) (alloc_at k regs task ppage vaddr)
  unfolding alloc_at task_at with_dir page_is_recorded
  alloc_at-Allocated ppage vaddr inside free v unmapped =
      let pd : PageDirectory4m = k.machine.dirs t.page_dir in
      let addr : page_to_addr ppage ≡ ppage * 2 ^ 22 = omega arith in
      let back : ppage * 2 ^ 22 / 0x400000 ≡ ppage = omega arith in
      let mapped : Returns (Remaps pd (vaddr / 2 ^ 22) (some (ppage * 2 ^ 22)))
          (map_page pd vaddr (ppage * 2 ^ 22) 4) =
        map_page_lem pd can.dir vaddr (ppage * 2 ^ 22) 4 v (omega arith, omega arith) (omega arith)
          unmapped in
      let recorded : Returns (Recorded k.sched.pmm ppage)
          (record_owned_page k.sched.pmm t.owned_phys_pages ppage) =
        record_owned_page-Recorded can.bitmap t.owned_phys_pages ppage inside free can.room
          (can.owned ppage free) in
      rw (can.live, addr)
        (Returns-bind (Remaps pd (vaddr / 2 ^ 22) (some (ppage * 2 ^ 22)))
          (Allocated k regs task t vaddr ppage) _ _ mapped
          (λ q r. Returns-assert (Allocated k regs task t vaddr ppage) t.is_user _ can.user (
            rw (get_physical_addr_lem q (r.size ∙ can.dir) vaddr v, r.here, back)
              (Returns-bind (Recorded k.sched.pmm ppage) (Allocated k regs task t vaddr ppage) _ _
                recorded
                (λ out o. record {
                  results = refl;
                  maps = rw (==_refl t.page_dir) r;
                  others = λ i ne. rw (==_ne i t.page_dir ne);
                  marks = o.marks;
                  pages = out.1;
                  records = o.recorded;
                  tasks = refl;
                })))))

-- What `SYS_AllocPage` leaves: an error status and nothing else changed, or a page allocated.
pub data AllocResult (k : Kernel) (regs : Registers) (task : ℕ) (t : Task)
    : Kernel × Registers → Type 0 where
  no_ppage :
      ((j : ℕ) → j < k.sched.pmm.num_4m_pages / 8 * 8 → used k.sched.pmm j ≡ true)
      → AllocResult k regs task t (k, with_eax regs k_oom_phys)
  no_vpage :
      has_flag regs.edx alloc_anon ≡ true
      → ((i : ℕ) → 1 ≤ i → i < 1024 → mapping (k.machine.dirs t.page_dir) i ≢ none)
      → AllocResult k regs task t (k, with_eax regs k_oom_virt)
  taken :
      has_flag regs.edx alloc_anon ≡ false
      → mapping (k.machine.dirs t.page_dir) (regs.ebx / 2 ^ 22) ≢ none
      → AllocResult k regs task t (k, with_eax regs k_vpage_mapped)
  anywhere :
      (out : Kernel × Registers) (vpage ppage : ℕ)
      → has_flag regs.edx alloc_anon ≡ true
      → FirstFree (k.machine.dirs t.page_dir) 1 1024 (some vpage)
      → Allocated k regs task t (vpage * 2 ^ 22) ppage out
      → AllocResult k regs task t out
  at_address :
      (out : Kernel × Registers) (ppage : ℕ)
      → has_flag regs.edx alloc_anon ≡ false
      → Allocated k regs task t regs.ebx ppage out
      → AllocResult k regs task t out

module _ {k : Kernel} {task : ℕ} {t : Task} (can : CanAlloc k task t) (regs : Registers) where
  alloc_anon_lem :
      (ppage : ℕ)
      → ppage < 1024
      → used k.sched.pmm ppage ≡ false
      → has_flag regs.edx alloc_anon ≡ true
      → Returns (AllocResult k regs task t) (alloc_for k regs task ppage)
  unfolding alloc_for alloc_vaddr task_at
  alloc_anon_lem ppage inside free anon =
      let pd : PageDirectory4m = k.machine.dirs t.page_dir in
      elim (Option-cases (next_free_vpage pd 1)) [
        | inl e ↦
            let all : FirstFree pd 1 1024 none =
              subst (FirstFree pd 1 1024) e (get_next_free_page-FirstFree pd 1 (omega arith)) in
            rw (can.live, anon, e) (no_vpage anon all)
        | inr (vpage, e) ↦
            let first : FirstFree pd 1 1024 (some vpage) =
              subst (FirstFree pd 1 1024) e (get_next_free_page-FirstFree pd 1 (omega arith)) in
            let addr : page_to_addr vpage ≡ vpage * 2 ^ 22 = omega (arith, first.1) in
            let at : vpage * 2 ^ 22 / 2 ^ 22 ≡ vpage = omega arith in
            rw (can.live, anon, e, addr)
              (Returns-mono (Allocated k regs task t (vpage * 2 ^ 22) ppage)
                (AllocResult k regs task t) _
                (alloc_at-Allocated can regs ppage (vpage * 2 ^ 22) inside free
                  (omega arith, omega (arith, first.1)) (rw at (first.2)))
                (λ out a. anywhere out vpage ppage anon first a))
      ]

  alloc_fixed_lem :
      (ppage : ℕ)
      → ppage < 1024
      → used k.sched.pmm ppage ≡ false
      → has_flag regs.edx alloc_anon ≡ false
      → IsPageAddr regs.ebx
      → Returns (AllocResult k regs task t) (alloc_for k regs task ppage)
  unfolding alloc_for alloc_vaddr task_at
  alloc_fixed_lem ppage inside free fixed v =
      let pd : PageDirectory4m = k.machine.dirs t.page_dir in
      elim (Option-cases (mapping pd (regs.ebx / 2 ^ 22))) [
        | inl e ↦
            rw (can.live, fixed, vaddr_is_mapped_lem pd can.dir regs.ebx v, e)
              (Returns-mono (Allocated k regs task t regs.ebx ppage) (AllocResult k regs task t) _
                (alloc_at-Allocated can regs ppage regs.ebx inside free v e)
                (λ out a. at_address out ppage fixed a))
        | inr (p, e) ↦
            rw (can.live, fixed, vaddr_is_mapped_lem pd can.dir regs.ebx v, e)
              (taken fixed (λ n. absurd (cc (e, n))))
      ]

  -- `SYS_AllocPage` for a task that can allocate and, unless any address will do, an aligned address,
  -- passes its assertions. Either it reports that there is no physical page, no virtual page or that
  -- the address is mapped, and changes nothing, or it allocates a page there or at the lowest
  -- unmapped address above the first page.
  pub sys_alloc_page_lem :
      alloc_task k regs ≡ ok task
      → (has_flag regs.edx alloc_anon ≡ false → IsPageAddr regs.ebx)
      → Returns (AllocResult k regs task t) (sys_alloc_page k regs)
  unfolding sys_alloc_page
  sys_alloc_page_lem who aligned =
      let pmm : Pmm = k.sched.pmm in
      let found : Returns (Found pmm 0 (pmm.num_4m_pages / 8 * 8)) (next_free_ppage pmm) =
        get_next_free_page-Found can.bitmap can.small in
      Returns-bind (Found pmm 0 (pmm.num_4m_pages / 8 * 8)) (AllocResult k regs task t) _ _ found
        (λ free f. elim (Option-cases free) [
          | inl e ↦
              let all : Found pmm 0 (pmm.num_4m_pages / 8 * 8) none =
                subst (Found pmm 0 (pmm.num_4m_pages / 8 * 8)) e f in
              rw e (no_ppage (λ j h. all j (omega arith) h))
          | inr (ppage, e) ↦
              let lowest : Found pmm 0 (pmm.num_4m_pages / 8 * 8) (some ppage) =
                subst (Found pmm 0 (pmm.num_4m_pages / 8 * 8)) e f in
              let inside : ppage < 1024 = omega (arith, lowest.1, can.small) in
              rw (e, who)
                (elim (Bool-cases (has_flag regs.edx alloc_anon)) [
                  | inl anon ↦ alloc_anon_lem ppage inside (lowest.2) anon
                  | inr fixed ↦ alloc_fixed_lem ppage inside (lowest.2) fixed (aligned fixed)
                ])
        ])
