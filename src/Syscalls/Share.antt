-- ===== src/Syscalls/Share.antt =====
-- `SYS_MapPage` of kernel/syscalls.cpp, for two processes and an address in each.
use yet_another_project_i_ll.Base.{
  ℕ, ◌/◌, ◌%◌, ◌^◌, ◌<◌, ◌≡◌, refl, sym, ap, ◌∙◌, ◌≢◌, ◌⊎◌, inl, inr, true, false, Option, none,
  some, List, arith, ==_refl, ==_ne, Option-cases, ==_yes, length, ok, ◌>>=◌, Returns, Returns-bind,
}
use yet_another_project_i_ll.Task.Removal.{IsTable, Removed, remove_owned_page-Removed}
use yet_another_project_i_ll.Syscalls.{
  Kernel, k_ok, k_oom_virt, k_vpage_mapped, k_unaligned_page_addr, with_eax, with_eax_ebx,
  get_current_task, Sharing, share, move_page, map_shared, map_vaddr, map_at, map_between,
  sys_map_page,
}
use yet_another_project_i_ll.Paging.Map.{
  mapping, IsPageAddr, Remaps, vaddr_is_mapped_lem, get_physical_addr_lem,
}
use yet_another_project_i_ll.Paging.Machine.{Machine}
use yet_another_project_i_ll.Paging.{PageDirectory4m}
use yet_another_project_i_ll.Task.Pages.{Recorded, record_owned_page-Recorded}
use yet_another_project_i_ll.Pmm.Pages.{IsBitmap, used, Marks}
use yet_another_project_i_ll.Scheduler.{Scheduler}
use yet_another_project_i_ll.Task.{Registers, Task, task_at, with_task, contains, page_is_recorded}
use yet_another_project_i_ll.Pmm.{Pmm}
use native.Mathlib.Decide.{ℕ_discrete}

-- What is to be shared, from what each address is mapped to: there must be exactly one page.
abbrev pub sharing : (task1 task2 vaddr1 vaddr2 : ℕ) → Option ℕ → Option ℕ → Option Sharing
sharing task1 task2 vaddr1 vaddr2 (some paddr) none =
    some (record { paddr = paddr; vaddr_to_map = vaddr2; current_owner = task1; new_owner = task2 })
sharing task1 task2 vaddr1 vaddr2 none (some paddr) =
    some (record { paddr = paddr; vaddr_to_map = vaddr1; current_owner = task2; new_owner = task1 })
sharing task1 task2 vaddr1 vaddr2 none none = none
sharing task1 task2 vaddr1 vaddr2 (some p) (some q) = none

share_lem :
    (pd1 pd2 : PageDirectory4m) (task1 task2 vaddr1 vaddr2 : ℕ)
    → length pd1 ≡ 1024
    → length pd2 ≡ 1024
    → IsPageAddr vaddr1
    → IsPageAddr vaddr2
    → share pd1 pd2 task1 task2 vaddr1 vaddr2
      ≡ ok (
          sharing task1 task2 vaddr1 vaddr2
            (mapping pd1 (vaddr1 / 2 ^ 22))
            (mapping pd2 (vaddr2 / 2 ^ 22)))
unfolding share
share_lem pd1 pd2 task1 task2 vaddr1 vaddr2 l1 l2 v1 v2 =
    elim (Option-cases (mapping pd1 (vaddr1 / 2 ^ 22))) [
      | inl e1 ↦ elim (Option-cases (mapping pd2 (vaddr2 / 2 ^ 22))) [
        | inl e2 ↦
            rw (vaddr_is_mapped_lem pd1 l1 vaddr1 v1, vaddr_is_mapped_lem pd2 l2 vaddr2 v2, e1, e2)
        | inr (p, e2) ↦ rw (
          vaddr_is_mapped_lem pd1 l1 vaddr1 v1,
          vaddr_is_mapped_lem pd2 l2 vaddr2 v2,
          get_physical_addr_lem pd2 l2 vaddr2 v2,
          e1,
          e2,
        )
      ]
      | inr (q, e1) ↦ elim (Option-cases (mapping pd2 (vaddr2 / 2 ^ 22))) [
        | inl e2 ↦ rw (
          vaddr_is_mapped_lem pd1 l1 vaddr1 v1,
          vaddr_is_mapped_lem pd2 l2 vaddr2 v2,
          get_physical_addr_lem pd1 l1 vaddr1 v1,
          e1,
          e2,
        )
        | inr (p, e2) ↦
            rw (vaddr_is_mapped_lem pd1 l1 vaddr1 v1, vaddr_is_mapped_lem pd2 l2 vaddr2 v2, e1, e2)
      ]
    ]

-- Two live tasks with page directories of their own, the first of which is the current one.
pub record Peers (k : Kernel) (task1 task2 : ℕ) (t₁ t₂ : Task) : Type 0 where
  pub current : get_current_task k ≡ ok task1
  pub other : task1 ≢ task2
  pub live1 : k.sched.tasks task1 ≡ some t₁
  pub live2 : k.sched.tasks task2 ≡ some t₂
  pub apart : t₁.page_dir ≢ t₂.page_dir
  pub dir1 : length (k.machine.dirs t₁.page_dir) ≡ 1024
  pub dir2 : length (k.machine.dirs t₂.page_dir) ≡ 1024

module _ {k : Kernel} {task1 task2 : ℕ} {t₁ t₂ : Task} (p : Peers k task1 task2 t₁ t₂)
    (regs : Registers) (handle : regs.ecx ≡ task2) where
  -- `SYS_MapPage` in the same process: see below for two processes.
  to_map_between : sys_map_page k regs ≡ map_between k regs task1 task2
  unfolding sys_map_page
  to_map_between = rw (p.current, handle, ==_ne task1 task2 p.other)

  -- When any address will do and the other process has none, `SYS_MapPage` says so and does nothing.
  pub sys_map_page-no_vpage :
      map_vaddr (k.machine.dirs t₂.page_dir) regs.edx regs.esi ≡ none
      → sys_map_page k regs ≡ ok (k, with_eax regs k_oom_virt)
  unfolding map_between task_at
  sys_map_page-no_vpage e =
      rw (to_map_between, p.live1, p.live2, ==_ne t₁.page_dir t₂.page_dir p.apart, e)

  module _ (vaddr2 : ℕ)
      (chosen : map_vaddr (k.machine.dirs t₂.page_dir) regs.edx regs.esi ≡ some vaddr2) where
    to_map_at : sys_map_page k regs ≡ map_at k regs task1 task2 vaddr2
    unfolding map_between task_at
    to_map_at = rw (to_map_between, p.live1, p.live2, ==_ne t₁.page_dir t₂.page_dir p.apart, chosen)

    -- An address that is not aligned to a page is refused.
    pub sys_map_page-unaligned :
        (regs.ebx % 2 ^ 22 ≢ 0) ⊎ (vaddr2 % 2 ^ 22 ≢ 0)
        → sys_map_page k regs ≡ ok (k, with_eax regs k_unaligned_page_addr)
    unfolding map_at
    sys_map_page-unaligned (inl h) = rw (to_map_at, ==_ne (regs.ebx % 0x400000) 0 h)
    sys_map_page-unaligned (inr h) = rw (to_map_at) (ground (arith, ==_ne (vaddr2 % 0x400000) 0 h))

    module _ (v1 : IsPageAddr regs.ebx) (v2 : IsPageAddr vaddr2) where
      pub to_sharing :
          sys_map_page k regs
          ≡ (elim (sharing task1 task2 regs.ebx vaddr2
              (mapping (k.machine.dirs t₁.page_dir) (regs.ebx / 2 ^ 22))
              (mapping (k.machine.dirs t₂.page_dir) (vaddr2 / 2 ^ 22))) [
                | none ↦ ok (k, with_eax regs k_vpage_mapped)
                | some s ↦
                    (map_shared k s regs.esi >>= λ k₁. ok (k₁, with_eax_ebx regs k_ok vaddr2))
              ])
      unfolding map_at task_at
      to_sharing = rw (
        to_map_at,
        v1.0,
        v2.0,
        p.live1,
        p.live2,
        share_lem (k.machine.dirs t₁.page_dir) (k.machine.dirs t₂.page_dir) task1 task2 regs.ebx
            vaddr2 p.dir1 p.dir2 v1 v2,
      )

      -- When both addresses are mapped, or none of them is, nothing is done.
      pub sys_map_page-not_one :
          sharing task1 task2 regs.ebx vaddr2
              (mapping (k.machine.dirs t₁.page_dir) (regs.ebx / 2 ^ 22))
              (mapping (k.machine.dirs t₂.page_dir) (vaddr2 / 2 ^ 22))
            ≡ none
          → sys_map_page k regs ≡ ok (k, with_eax regs k_vpage_mapped)
      sys_map_page-not_one e = to_sharing ∙ rw e refl

-- The page is mapped at the new address and no other mapping is changed.
pub record Shared (k : Kernel) (s : Sharing) (t : Task) (m : Machine) : Type 0 where
  pub maps :
      Remaps
        (k.machine.dirs t.page_dir)
        (s.vaddr_to_map / 2 ^ 22)
        (some s.paddr)
        (m.dirs t.page_dir)
  pub others : (i : ℕ) → i ≢ t.page_dir → m.dirs i ≡ k.machine.dirs i
  pub memory : m.memory ≡ k.machine.memory

-- The new owner has the page in its table, the old one has not, and every mark is as before.
pub record Moved (σ : Scheduler) (old new : ℕ) (t₁ t₂ : Task) (ppage : ℕ) (τ : Scheduler)
    : Type 0 where
  pub marks : (j : ℕ) → used τ.pmm j ≡ used σ.pmm j
  pub valid : IsBitmap τ.pmm
  pub left : List ℕ
  pub loses : τ.tasks old ≡ some (record t₁ { owned_phys_pages = left })
  pub lost : contains left ppage ≡ false
  pub held : List ℕ
  pub gains : τ.tasks new ≡ some (record t₂ { owned_phys_pages = held })
  pub gained : contains held ppage ≡ true

-- What a change of owner needs: the page is marked and in the table of the old owner only, and the
-- new one has room.
pub record CanMove (σ : Scheduler) (old new : ℕ) (t₁ t₂ : Task) (ppage : ℕ) : Type 0 where
  pub other : old ≢ new
  pub live1 : σ.tasks old ≡ some t₁
  pub live2 : σ.tasks new ≡ some t₂
  pub bitmap : IsBitmap σ.pmm
  pub inside : ppage < 1024
  pub nonzero : ppage ≢ 0
  pub taken : used σ.pmm ppage ≡ true
  pub has : page_is_recorded t₁.owned_phys_pages ppage ≡ true
  pub table : IsTable t₁.owned_phys_pages
  pub fresh : page_is_recorded t₂.owned_phys_pages ppage ≡ false
  pub room : contains t₂.owned_phys_pages 0 ≡ true

marked_again :
    (p q r : Pmm) (page : ℕ)
    → used p page ≡ true
    → Marks p page false q
    → Marks q page true r
    → (j : ℕ) → used r j ≡ used p j
marked_again p q r page taken a b j = elim (ℕ_discrete j page) [
  | yes e ↦ b.marks j ∙ rw (==_yes j page e) (sym (ap (used p) e ∙ taken))
  | no ne ↦ b.marks j ∙ rw (==_ne j page ne) (a.marks j ∙ rw (==_ne j page ne) refl)
]

module _ (k : Kernel) {old new : ℕ} {t₁ t₂ : Task} {ppage : ℕ}
    (c : CanMove k.sched old new t₁ t₂ ppage) where
  pub move_page-Moved :
      Returns
        (λ k₁. Moved k.sched old new t₁ t₂ ppage k₁.sched × (k₁.machine ≡ k.machine))
        (move_page k old new ppage)
  unfolding move_page task_at with_task page_is_recorded
  move_page-Moved = rw (c.live1) (
      Returns-bind (Removed k.sched.pmm ppage)
        (λ k₁. Moved k.sched old new t₁ t₂ ppage k₁.sched × (k₁.machine ≡ k.machine)) _ _
        (remove_owned_page-Removed c.bitmap t₁.owned_phys_pages ppage c.inside c.nonzero c.taken
          c.has c.table)
        (λ out r.
          let free : used (out.0) ppage ≡ false = r.marks.marks ppage ∙ rw (==_refl ppage) refl in
          rw (==_ne new old (λ e. c.other (sym e)), c.live2)
            (Returns-bind (Recorded (out.0) ppage)
              (λ k₁. Moved k.sched old new t₁ t₂ ppage k₁.sched × (k₁.machine ≡ k.machine)) _ _
              (record_owned_page-Recorded r.marks.valid t₂.owned_phys_pages ppage c.inside free
                c.room c.fresh)
              (λ out₂ o. (
                record {
                  marks = marked_again k.sched.pmm (out.0) (out₂.0) ppage c.taken r.marks o.marks;
                  valid = o.marks.valid;
                  left = out.1;
                  loses = rw (==_ne old new c.other, ==_refl old) refl;
                  lost = r.gone;
                  held = out₂.1;
                  gains = rw (==_refl new) refl;
                  gained = o.recorded;
                },
                refl,
              )))))
