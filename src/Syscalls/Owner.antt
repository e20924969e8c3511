-- ===== src/Syscalls/Owner.antt =====
-- `SYS_MapPage` of kernel/syscalls.cpp when exactly one of the addresses is mapped.
use yet_another_project_i_ll.Base.{
  ℕ, ◌*◌, ◌/◌, ◌^◌, ◌<◌, ◌≡◌, refl, sym, subst, ◌∙◌, true, false, none, some, arith, ==_refl, ==_ne,
  length, ok, ◌>>=◌, Returns, Returns-mono, Returns-bind,
}
use yet_another_project_i_ll.Syscalls.Share.{
  Peers, to_sharing, Shared, Moved, CanMove, move_page-Moved,
}
use yet_another_project_i_ll.Syscalls.{
  Kernel, k_ok, has_flag, with_eax_ebx, put_dir, swap_owner, Sharing, map_shared, map_vaddr,
  sys_map_page,
}
use yet_another_project_i_ll.Paging.Map.{mapping, IsPageAddr, Remaps, map_page_lem}
use yet_another_project_i_ll.Paging.Machine.{with_dir}
use yet_another_project_i_ll.Paging.{pg_user, PageDirectory4m, map_page}
use yet_another_project_i_ll.Task.{Registers, Task, task_at}

-- The new mapping is there. The scheduler's state is as before, or the page has changed its owner.
pub record Mapped (k : Kernel) (regs : Registers) (vaddr2 : ℕ) (s : Sharing) (t : Task)
    (out : Kernel × Registers) : Type 0 where
  pub results : out.1 ≡ with_eax_ebx regs k_ok vaddr2
  pub maps : Shared k s t ((out.0).machine)

module _ (k : Kernel) (s : Sharing) {t : Task} (live : k.sched.tasks s.new_owner ≡ some t)
    (dir : length (k.machine.dirs t.page_dir) ≡ 1024) (v : IsPageAddr s.vaddr_to_map) (ppage : ℕ)
    (inside : ppage < 1024) (at : s.paddr ≡ ppage * 2 ^ 22)
    (unmapped : mapping (k.machine.dirs t.page_dir) (s.vaddr_to_map / 2 ^ 22) ≡ none) where
  put-Shared :
      (q : PageDirectory4m)
      → Remaps (k.machine.dirs t.page_dir) (s.vaddr_to_map / 2 ^ 22) (some s.paddr) q
      → Shared k s t ((put_dir k t.page_dir q).machine)
  unfolding with_dir
  put-Shared q r = record {
    maps = rw (==_refl t.page_dir) r;
    others = λ i ne. rw (==_ne i t.page_dir ne);
    memory = refl;
  }

  map_new :
      Returns
        (Remaps (k.machine.dirs t.page_dir) (s.vaddr_to_map / 2 ^ 22) (some s.paddr))
        (map_page (k.machine.dirs t.page_dir) s.vaddr_to_map s.paddr pg_user)
  map_new =
      map_page_lem (k.machine.dirs t.page_dir) dir s.vaddr_to_map s.paddr 4 v
        (omega arith, omega arith) (omega arith) unmapped

  pub map_shared-Shared :
      (flags : ℕ)
      → has_flag flags swap_owner ≡ false
      → Returns (λ k₁. Shared k s t k₁.machine × (k₁.sched ≡ k.sched)) (map_shared k s flags)
  unfolding map_shared task_at
  map_shared-Shared flags keep =
      rw (live, keep)
        (Returns-bind (Remaps (k.machine.dirs t.page_dir) (s.vaddr_to_map / 2 ^ 22) (some s.paddr))
          (λ k₁. Shared k s t k₁.machine × (k₁.sched ≡ k.sched)) _ _ map_new
          (λ q r. (put-Shared q r, refl)))

  pub map_shared-Moved :
      (flags : ℕ) {t₁ : Task}
      → has_flag flags swap_owner ≡ true
      → CanMove k.sched s.current_owner s.new_owner t₁ t ppage
      → Returns
          (λ k₁.
            Shared k s t k₁.machine × Moved k.sched s.current_owner s.new_owner t₁ t ppage k₁.sched)
          (map_shared k s flags)
  unfolding map_shared task_at
  map_shared-Moved flags {t₁} swap c =
      let number : s.paddr / 0x400000 ≡ ppage = omega arith in
      rw (live, swap, number)
        (Returns-bind (Remaps (k.machine.dirs t.page_dir) (s.vaddr_to_map / 2 ^ 22) (some s.paddr))
          (λ k₁.
            Shared k s t k₁.machine × Moved k.sched s.current_owner s.new_owner t₁ t ppage k₁.sched)
          _ _ map_new
          (λ q r.
            Returns-mono
              (λ k₁.
                Moved k.sched s.current_owner s.new_owner t₁ t ppage k₁.sched
                × (k₁.machine ≡ with_dir k.machine t.page_dir q))
              (λ k₁.
                Shared k s t k₁.machine
                × Moved k.sched s.current_owner s.new_owner t₁ t ppage k₁.sched)
              _ (move_page-Moved (put_dir k t.page_dir q) c)
              (λ k₁ m. (subst (Shared k s t) (sym (m.1)) (put-Shared q r), m.0))))

-- What the address that the current process shares is mapped to, and that the other one is free.
pub record Gives (k : Kernel) (regs : Registers) (task1 task2 : ℕ) (t₁ t₂ : Task) (vaddr2 ppage : ℕ)
    : Type 0 where
  pub peers : Peers k task1 task2 t₁ t₂
  pub handle : regs.ecx ≡ task2
  pub chosen : map_vaddr (k.machine.dirs t₂.page_dir) regs.edx regs.esi ≡ some vaddr2
  pub v1 : IsPageAddr regs.ebx
  pub v2 : IsPageAddr vaddr2
  pub inside : ppage < 1024
  pub mapped : mapping (k.machine.dirs t₁.page_dir) (regs.ebx / 2 ^ 22) ≡ some (ppage * 2 ^ 22)
  pub unmapped : mapping (k.machine.dirs t₂.page_dir) (vaddr2 / 2 ^ 22) ≡ none

abbrev pub given : (task1 task2 vaddr2 ppage : ℕ) → Sharing
given task1 task2 vaddr2 ppage = record {
  paddr = ppage * 2 ^ 22;
  vaddr_to_map = vaddr2;
  current_owner = task1;
  new_owner = task2;
}

module _ {k : Kernel} {regs : Registers} {task1 task2 : ℕ} {t₁ t₂ : Task} {vaddr2 ppage : ℕ}
    (g : Gives k regs task1 task2 t₁ t₂ vaddr2 ppage) where
  to_map_shared : sys_map_page k regs ≡ (
      map_shared k (given task1 task2 vaddr2 ppage) regs.esi >>= λ k₁.
      ok (k₁, with_eax_ebx regs k_ok vaddr2))
  to_map_shared =
      to_sharing g.peers regs g.handle vaddr2 g.chosen g.v1 g.v2 ∙ rw (g.mapped, g.unmapped) refl

  -- A page of the current process that the other one is given to share: `SYS_MapPage` maps it at the
  -- free address there, and the scheduler's state, with the owner of the page, stays as it is.
  pub sys_map_page-shares :
      has_flag regs.esi swap_owner ≡ false
      → Returns
          (λ out.
            Mapped k regs vaddr2 (given task1 task2 vaddr2 ppage) t₂ out
            × ((out.0).sched ≡ k.sched))
          (sys_map_page k regs)
  sys_map_page-shares keep = rw to_map_shared (
      Returns-bind
        (λ k₁. Shared k (given task1 task2 vaddr2 ppage) t₂ k₁.machine × (k₁.sched ≡ k.sched))
        (λ out.
          Mapped k regs vaddr2 (given task1 task2 vaddr2 ppage) t₂ out × ((out.0).sched ≡ k.sched))
        _ _
        (map_shared-Shared k (given task1 task2 vaddr2 ppage) g.peers.live2 g.peers.dir2 g.v2 ppage
          g.inside refl g.unmapped regs.esi keep)
        (λ k₁ h. (record { results = refl; maps = h.0 }, h.1)))

  -- With the flag that swaps the owner the page also moves from the table of the current process to
  -- that of the other one, and every mark in the bitmap is as before.
  pub sys_map_page-moves :
      has_flag regs.esi swap_owner ≡ true
      → CanMove k.sched task1 task2 t₁ t₂ ppage
      → Returns
          (λ out.
            Mapped k regs vaddr2 (given task1 task2 vaddr2 ppage) t₂ out
            × Moved k.sched task1 task2 t₁ t₂ ppage ((out.0).sched))
          (sys_map_page k regs)
  sys_map_page-moves swap c = rw to_map_shared (
      Returns-bind
        (λ k₁.
          Shared k (given task1 task2 vaddr2 ppage) t₂ k₁.machine
          × Moved k.sched task1 task2 t₁ t₂ ppage k₁.sched)
        (λ out.
          Mapped k regs vaddr2 (given task1 task2 vaddr2 ppage) t₂ out
          × Moved k.sched task1 task2 t₁ t₂ ppage ((out.0).sched))
        _ _
        (map_shared-Moved k (given task1 task2 vaddr2 ppage) g.peers.live2 g.peers.dir2 g.v2 ppage
          g.inside refl g.unmapped regs.esi swap c)
        (λ k₁ h. (record { results = refl; maps = h.0 }, h.1)))
