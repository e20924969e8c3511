-- ===== src/Syscalls/Unmap.antt =====
-- `SYS_UnmapPage` of kernel/syscalls.cpp, alone and after `SYS_AllocPage`.
-- What `SYS_UnmapPage` leaves: the mapping is gone and no other is changed, and the bitmap and the
-- task's table are the given ones.
use yet_another_project_i_ll.Base.{
  ℕ, ◌*◌, ◌/◌, ◌^◌, ◌<◌, ◌≡◌, refl, sym, ap, subst, ◌∙◌, ◌≢◌, true, false, Option, none, some, List,
  arith, if◌then◌else◌, ==_refl, ==_ne, length, ok, ◌>>=◌, assert, Returns, Returns-mono,
  Returns-bind, Returns-value,
}
use yet_another_project_i_ll.Syscalls.{
  Kernel, k_ok, has_flag, alloc_anon, alloc_current, with_eax_ebx, get_current_task, put_dir,
  put_owned, alloc_vaddr, alloc_at, alloc_for, alloc_task, sys_alloc_page, sys_unmap_page,
}
use yet_another_project_i_ll.Syscalls.Alloc.{CanAlloc}
use yet_another_project_i_ll.Paging.Map.{
  mapping, IsPageAddr, Remaps, map_page_lem, unmap_page_lem, vaddr_is_mapped_lem,
  get_physical_addr_lem,
}
use yet_another_project_i_ll.Paging.Machine.{with_dir}
use yet_another_project_i_ll.Paging.{pg_user, PageDirectory4m, map_page}
use yet_another_project_i_ll.Task.Pages.{
  Recorded, record_owned_page-Recorded, remove_owned_page-record_owned_page,
}
use yet_another_project_i_ll.Pmm.Pages.{used}
use yet_another_project_i_ll.Task.{
  Registers, Task, Tasks, task_at, with_task, contains, page_is_recorded, record_owned_page,
  remove_owned_page,
}
use yet_another_project_i_ll.Pmm.{Pmm, page_to_addr}
use native.Mathlib.Decide.{ℕ_discrete}
use yet_another_project_i_ll.Pmm.{get_next_free_page as next_free_ppage}

pub record Unmapped (k : Kernel) (regs : Registers) (task : ℕ) (t : Task) (owned : Pmm × List ℕ)
    (out : Kernel × Registers) : Type 0 where
  pub results : out.1 ≡ regs
  pub maps :
      Remaps (k.machine.dirs t.page_dir) (regs.ebx / 2 ^ 22) none ((out.0).machine.dirs t.page_dir)
  pub others : (i : ℕ) → i ≢ t.page_dir → (out.0).machine.dirs i ≡ k.machine.dirs i
  pub pmm : (out.0).sched.pmm ≡ owned.0
  pub tasks :
      (out.0).sched.tasks
      ≡ with_task k.sched.tasks task (some (record t { owned_phys_pages = owned.1 }))

module _ (k : Kernel) (task : ℕ) (t : Task) (regs : Registers) (ppage : ℕ) (inside : ppage < 1024)
    (live : k.sched.tasks task ≡ some t) (current : get_current_task k ≡ ok task)
    (v : IsPageAddr regs.ebx) (dir : length (k.machine.dirs t.page_dir) ≡ 1024)
    (mapped : mapping (k.machine.dirs t.page_dir) (regs.ebx / 2 ^ 22) ≡ some (ppage * 2 ^ 22)) where
  unmap_with :
      (owned : Pmm × List ℕ)
      → (if page_is_recorded t.owned_phys_pages ppage
          then remove_owned_page k.sched.pmm t.owned_phys_pages ppage
          else ok (k.sched.pmm, t.owned_phys_pages))
        ≡ ok owned
      → Returns (Unmapped k regs task t owned) (sys_unmap_page k regs)
  unfolding sys_unmap_page task_at with_dir
  unmap_with owned e =
      let back : ppage * 2 ^ 22 / 0x400000 ≡ ppage = omega arith in
      rw
        (
          current,
          live,
          get_physical_addr_lem (k.machine.dirs t.page_dir) dir regs.ebx v,
          mapped,
          back,
          e,
        )
        (Returns-bind (Remaps (k.machine.dirs t.page_dir) (regs.ebx / 2 ^ 22) none)
          (Unmapped k regs task t owned) _ _
          (unmap_page_lem (k.machine.dirs t.page_dir) dir regs.ebx (ppage * 2 ^ 22) v mapped)
          (λ q r. record {
            results = refl;
            maps = rw (==_refl t.page_dir) r;
            others = λ i ne. rw (==_ne i t.page_dir ne);
            pmm = refl;
            tasks = refl;
          }))

  -- `SYS_UnmapPage` of a page that the task owns removes the mapping, and with it the record of the
  -- page and its mark.
  pub sys_unmap_page-owned :
      (owned : Pmm × List ℕ)
      → page_is_recorded t.owned_phys_pages ppage ≡ true
      → remove_owned_page k.sched.pmm t.owned_phys_pages ppage ≡ ok owned
      → Returns (Unmapped k regs task t owned) (sys_unmap_page k regs)
  sys_unmap_page-owned owned has e = unmap_with owned (rw has e)

  -- `SYS_UnmapPage` of a page that another task owns only removes the mapping.
  pub sys_unmap_page-shared :
      page_is_recorded t.owned_phys_pages ppage ≡ false
      → Returns (Unmapped k regs task t (k.sched.pmm, t.owned_phys_pages)) (sys_unmap_page k regs)
  sys_unmap_page-shared n = unmap_with (k.sched.pmm, t.owned_phys_pages) (rw n)

-- The bitmap, the task and what its directory maps are as before.
pub record GivenBack (k : Kernel) (task : ℕ) (t : Task) (out : Kernel × Registers) : Type 0 where
  pub pmm : (out.0).sched.pmm ≡ k.sched.pmm
  pub tasks : (out.0).sched.tasks task ≡ some t
  pub maps :
      (j : ℕ) → mapping ((out.0).machine.dirs t.page_dir) j ≡ mapping (k.machine.dirs t.page_dir) j

undone_maps :
    (p q r : PageDirectory4m) (i : ℕ) (m : Option ℕ)
    → mapping p i ≡ none
    → Remaps p i m q
    → Remaps q i none r
    → (j : ℕ) → mapping r j ≡ mapping p j
undone_maps p q r i m free a b j = elim (ℕ_discrete i j) [
  | yes e ↦ subst (λ x. mapping r x ≡ mapping p x) e (b.here ∙ sym free)
  | no ne ↦ b.elsewhere j ne ∙ a.elsewhere j ne
]

module _ {k : Kernel} {task : ℕ} {t : Task} (can : CanAlloc k task t) (regs : Registers)
    (current : get_current_task k ≡ ok task) (v : IsPageAddr regs.ebx) (ppage : ℕ)
    (inside : ppage < 1024) (free : used k.sched.pmm ppage ≡ false)
    (unmapped : mapping (k.machine.dirs t.page_dir) (regs.ebx / 2 ^ 22) ≡ none) where
  undo_with :
      (q : PageDirectory4m) (out : Pmm × List ℕ)
      → Remaps (k.machine.dirs t.page_dir) (regs.ebx / 2 ^ 22) (some (ppage * 2 ^ 22)) q
      → Recorded k.sched.pmm ppage out
      → record_owned_page k.sched.pmm t.owned_phys_pages ppage ≡ ok out
      → Returns (GivenBack k task t) (
          sys_unmap_page
            (put_owned (put_dir k t.page_dir q) task t out)
            (with_eax_ebx regs k_ok regs.ebx))
  unfolding with_dir with_task
  undo_with q out r o e =
      let k₁ : Kernel = put_owned (put_dir k t.page_dir q) task t out in
      let t₁ : Task = record t { owned_phys_pages = out.1 } in
      let fresh : page_is_recorded t.owned_phys_pages ppage ≡ false =
        unfold page_is_recorded in can.owned ppage free in
      let removed : remove_owned_page (out.0) (out.1) ppage ≡ ok (k.sched.pmm, t.owned_phys_pages) =
        rw e at (
          remove_owned_page-record_owned_page can.bitmap t.owned_phys_pages ppage inside free
            can.room fresh) in
      let dir : k₁.machine.dirs t.page_dir ≡ q = rw (==_refl t.page_dir) refl in
      Returns-mono
        (Unmapped k₁ (with_eax_ebx regs k_ok regs.ebx) task t₁ (k.sched.pmm, t.owned_phys_pages))
        (GivenBack k task t) _
        (sys_unmap_page-owned k₁ task t₁ (with_eax_ebx regs k_ok regs.ebx) ppage inside
          (rw (==_refl task) refl) current v (ap length dir ∙ r.size ∙ can.dir)
          (ap (λ d. mapping d (regs.ebx / 2 ^ 22)) dir ∙ r.here) (k.sched.pmm, t.owned_phys_pages)
          o.recorded removed)
        (λ out₂ u. record {
          pmm = u.pmm;
          tasks = ap (λ (f : Tasks). f task) u.tasks ∙ (rw (==_refl task) refl);
          maps =
              undone_maps (k.machine.dirs t.page_dir) q ((out₂.0).machine.dirs t.page_dir)
                (regs.ebx / 2 ^ 22) (some (ppage * 2 ^ 22)) unmapped r
                (subst (λ d. Remaps d (regs.ebx / 2 ^ 22) none ((out₂.0).machine.dirs t.page_dir))
                  dir u.maps);
        })

  undo_steps :
      (q : PageDirectory4m) (out : Pmm × List ℕ)
      → map_page (k.machine.dirs t.page_dir) regs.ebx (ppage * 2 ^ 22) pg_user ≡ ok q
      → Remaps (k.machine.dirs t.page_dir) (regs.ebx / 2 ^ 22) (some (ppage * 2 ^ 22)) q
      → record_owned_page k.sched.pmm t.owned_phys_pages ppage ≡ ok out
      → Recorded k.sched.pmm ppage out
      → Returns
          (GivenBack k task t)
          (alloc_at k regs task ppage regs.ebx >>= λ o. sys_unmap_page (o.0) (o.1))
  unfolding alloc_at task_at
  undo_steps q out mapped r recorded o =
      let addr : page_to_addr ppage ≡ ppage * 2 ^ 22 = omega arith in
      let back : ppage * 2 ^ 22 / 0x400000 ≡ ppage = omega arith in
      let user : assert t.is_user ≡ ok tt = ap assert can.user in
      rw
        (
          can.live,
          addr,
          mapped,
          user,
          get_physical_addr_lem q (r.size ∙ can.dir) regs.ebx v,
          r.here,
          back,
          recorded,
        )
        (undo_with q out r o recorded)

  -- `SYS_AllocPage` at an unmapped address of the current process, with a free page at hand, followed
  -- by `SYS_UnmapPage` of the address it returns: both pass their assertions, the bitmap of physical
  -- pages and the process are the very same as before, and the page directory maps the same.
  pub sys_unmap_page-sys_alloc_page :
      next_free_ppage k.sched.pmm ≡ ok (some ppage)
      → has_flag regs.edx alloc_current ≡ true
      → has_flag regs.edx alloc_anon ≡ false
      → Returns (GivenBack k task t) (sys_alloc_page k regs >>= λ o. sys_unmap_page (o.0) (o.1))
  unfolding sys_alloc_page alloc_task alloc_for alloc_vaddr task_at page_is_recorded contains
  sys_unmap_page-sys_alloc_page found mine fixed =
      let pd : PageDirectory4m = k.machine.dirs t.page_dir in
      let (q, mapped, r) =
        Returns-value (Remaps pd (regs.ebx / 2 ^ 22) (some (ppage * 2 ^ 22)))
          (map_page pd regs.ebx (ppage * 2 ^ 22) 4)
          (map_page_lem pd can.dir regs.ebx (ppage * 2 ^ 22) 4 v (omega arith, omega arith)
            (omega arith) unmapped) in
      let (out, recorded, o) =
        Returns-value (Recorded k.sched.pmm ppage)
          (record_owned_page k.sched.pmm t.owned_phys_pages ppage)
          (record_owned_page-Recorded can.bitmap t.owned_phys_pages ppage inside free can.room
            (can.owned ppage free)) in
      rw
        (found, mine, current, can.live, fixed, vaddr_is_mapped_lem pd can.dir regs.ebx v, unmapped)
        (undo_steps q out mapped r recorded o)
