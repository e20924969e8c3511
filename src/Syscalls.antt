-- ===== src/Syscalls.antt =====
-- kernel/syscalls.cpp: the system calls on pages and processes. The state is the scheduler with its
-- tasks and the bitmap of physical pages, and the machine with the page directories and memory. A
-- handler takes the registers of the interrupted task and returns them with its results. A handle
-- is the address of a task, which the code never checks. Not here: the calls on channels, and those
-- that print or read from the serial port.
pub mod Alloc
pub mod Unmap
pub mod Share
pub mod Owner
pub mod Process
pub mod Start
mod Tests
use yet_another_project_i_ll.Base.{
  ℕ, ◌%◌, bit_and, ◌⊎◌, inl, inr, Bool, true, not, ◌||◌, Option, none, some, List, ◌==◌,
  if◌then◌else◌, Outcome, ok, ◌>>=◌, assert, ◌>>◌,
}
use yet_another_project_i_ll.Paging.Machine.{Machine, with_dir}
use yet_another_project_i_ll.Paging.{
  pg_user, PageDirectory4m, map_page, unmap_page, vaddr_is_mapped, get_physical_addr,
}
use yet_another_project_i_ll.Scheduler.{Scheduler, front}
use yet_another_project_i_ll.Task.{
  Registers, Task, task_at, with_task, page_is_recorded, record_owned_page, remove_owned_page,
  new_task,
}
use yet_another_project_i_ll.Pmm.{page_size_4m, Pmm, addr_to_page, page_to_addr}
use yet_another_project_i_ll.Paging.{get_next_free_page as next_free_vpage}
use yet_another_project_i_ll.Pmm.{get_next_free_page as next_free_ppage}

pub record Kernel : Type 0 where
  pub sched : Scheduler
  pub machine : Machine

abbrev pub k_ok : ℕ
k_ok = 0

abbrev pub k_oom_phys : ℕ
k_oom_phys = 1

abbrev pub k_oom_virt : ℕ
k_oom_virt = 2

abbrev pub k_vpage_mapped : ℕ
k_vpage_mapped = 3

abbrev pub k_buffer_too_small : ℕ
k_buffer_too_small = 4

abbrev pub k_invalid_handle : ℕ
k_invalid_handle = 5

abbrev pub k_unaligned_page_addr : ℕ
k_unaligned_page_addr = 6

abbrev pub k_invalid_arg : ℕ
k_invalid_arg = 8

abbrev pub free_page_lower_bound : ℕ
free_page_lower_bound = 1

-- `flags & flag` as a condition
unfoldable pub has_flag : (flags flag : ℕ) → Bool
has_flag flags flag = not (bit_and flags flag == 0)

abbrev pub alloc_anon : ℕ
alloc_anon = 0x1

abbrev pub alloc_current : ℕ
alloc_current = 0x2

abbrev pub with_eax : Registers → ℕ → Registers
with_eax regs status = record regs { eax = status }

abbrev pub with_eax_ebx : Registers → (status value : ℕ) → Registers
with_eax_ebx regs status value = record regs { eax = status; ebx = value }

-- `scheduler::GetCurrentTask`
abbrev pub get_current_task : Kernel → Outcome ℕ
get_current_task k = front k.sched.queue

-- The kernel with other contents of a page directory, and with a task and the bitmap changed.
abbrev pub put_dir : Kernel → ℕ → PageDirectory4m → Kernel
put_dir k at pd = record k { machine = with_dir k.machine at pd }

abbrev pub put_owned : Kernel → ℕ → Task → Pmm × List ℕ → Kernel
put_owned k task t (pmm, owned) = record k {
  sched = record (k.sched) {
    tasks = with_task k.sched.tasks task (some (record t { owned_phys_pages = owned }));
    pmm = pmm;
  };
}

-- The address to map to, or the status of a call that fails.
unfoldable pub alloc_vaddr : PageDirectory4m → Registers → Outcome (ℕ ⊎ ℕ)
alloc_vaddr pd regs =
    if has_flag regs.edx alloc_anon
    then (elim (next_free_vpage pd free_page_lower_bound) [
      | none ↦ ok (inl k_oom_virt)
      | some free_vpage ↦ ok (inr (page_to_addr free_vpage))
    ])
    else (vaddr_is_mapped pd regs.ebx >>= λ mapped.
        ok (if mapped then inl k_vpage_mapped else inr regs.ebx))

-- `SYS_AllocPage` from the call of `MapPage` on
unfoldable pub alloc_at :
    Kernel → Registers → (task free_ppage page_vaddr : ℕ) → Outcome (Kernel × Registers)
alloc_at k regs task free_ppage page_vaddr = do
  t ← task_at k.sched.tasks task
  pd ← map_page (k.machine.dirs t.page_dir) page_vaddr (page_to_addr free_ppage) pg_user
  assert t.is_user
  paddr ← get_physical_addr pd page_vaddr
  recorded ← record_owned_page k.sched.pmm t.owned_phys_pages (addr_to_page paddr)
  ok (put_owned (put_dir k t.page_dir pd) task t recorded, with_eax_ebx regs k_ok page_vaddr)

unfoldable pub alloc_for : Kernel → Registers → (task free_ppage : ℕ) → Outcome (Kernel × Registers)
alloc_for k regs task free_ppage = do
  t ← task_at k.sched.tasks task
  chosen ← alloc_vaddr (k.machine.dirs t.page_dir) regs
  elim chosen [
    | inl status ↦ ok (k, with_eax regs status)
    | inr page_vaddr ↦ alloc_at k regs task free_ppage page_vaddr
  ]

-- The task whose address space is meant
unfoldable pub alloc_task : Kernel → Registers → Outcome ℕ
alloc_task k regs = if has_flag regs.edx alloc_current then get_current_task k else ok regs.ecx

unfoldable pub sys_alloc_page : Kernel → Registers → Outcome (Kernel × Registers)
sys_alloc_page k regs = do
  free_ppage ← next_free_ppage k.sched.pmm
  elim free_ppage [
    | none ↦ ok (k, with_eax regs k_oom_phys)
    | some ppage ↦ do task ← alloc_task k regs; alloc_for k regs task ppage
  ]

unfoldable pub sys_page_size : Kernel → Registers → Outcome (Kernel × Registers)
sys_page_size k regs = ok (k, with_eax regs page_size_4m)

-- `new` and `kmalloc` return the addresses of the directory, of the task and of its stack.
unfoldable pub sys_process_create :
    Kernel → Registers → (user_pd new stack : ℕ) → Outcome (Kernel × Registers)
sys_process_create k regs user_pd new stack = do
  assert (not (user_pd == 0))
  current ← get_current_task k
  let copied = put_dir k user_pd (k.machine.dirs k.sched.kernel_page_dir)
  let tasks₁ = with_task k.sched.tasks new (some (new_task true user_pd (some current) stack))
  ok (record copied { sched = record (k.sched) { tasks = tasks₁ } }, with_eax_ebx regs k_ok new)

abbrev pub swap_owner : ℕ
swap_owner = 0x1

abbrev pub map_anon : ℕ
map_anon = 0x2

-- What `SYS_MapPage` maps: an address of one task to the physical page that the other has.
pub record Sharing : Type 0 where
  pub paddr : ℕ
  pub vaddr_to_map : ℕ
  pub current_owner : ℕ
  pub new_owner : ℕ

-- Exactly one of the addresses must be mapped. The second directory is asked only where `&&` does.
unfoldable pub share :
    (pd1 pd2 : PageDirectory4m) → (task1 task2 vaddr1 vaddr2 : ℕ) → Outcome (Option Sharing)
share pd1 pd2 task1 task2 vaddr1 vaddr2 = do
  mapped1 ← vaddr_is_mapped pd1 vaddr1
  mapped2 ← vaddr_is_mapped pd2 vaddr2
  if mapped1
      then (if mapped2
          then ok none
          else (get_physical_addr pd1 vaddr1 >>= λ paddr. ok (
              some (record {
                paddr = paddr;
                vaddr_to_map = vaddr2;
                current_owner = task1;
                new_owner = task2;
              }))))
      else (if mapped2
          then (get_physical_addr pd2 vaddr2 >>= λ paddr. ok (
              some (record {
                paddr = paddr;
                vaddr_to_map = vaddr1;
                current_owner = task2;
                new_owner = task1;
              })))
          else ok none)

-- `current_owner->RemoveOwnedPage(ppage)` and `new_owner->RecordOwnedPage(ppage)`
unfoldable pub move_page : Kernel → (current_owner new_owner ppage : ℕ) → Outcome Kernel
move_page k current_owner new_owner ppage = do
  t₁ ← task_at k.sched.tasks current_owner
  removed ← remove_owned_page k.sched.pmm t₁.owned_phys_pages ppage
  let k₁ = put_owned k current_owner t₁ removed
  t₂ ← task_at k₁.sched.tasks new_owner
  recorded ← record_owned_page k₁.sched.pmm t₂.owned_phys_pages ppage
  ok (put_owned k₁ new_owner t₂ recorded)

unfoldable pub map_shared : Kernel → Sharing → (flags : ℕ) → Outcome Kernel
map_shared k s flags = do
  t ← task_at k.sched.tasks s.new_owner
  pd ← map_page (k.machine.dirs t.page_dir) s.vaddr_to_map s.paddr pg_user
  if has_flag flags swap_owner
      then move_page (put_dir k t.page_dir pd) s.current_owner s.new_owner (addr_to_page s.paddr)
      else ok (put_dir k t.page_dir pd)

-- The address in the other process, if there is one.
unfoldable pub map_vaddr : PageDirectory4m → (vaddr2 flags : ℕ) → Option ℕ
map_vaddr pd2 vaddr2 flags =
    if has_flag flags map_anon
    then (elim (next_free_vpage pd2 free_page_lower_bound) [
      | none ↦ none
      | some free_vpage ↦ some (page_to_addr free_vpage)
    ])
    else some vaddr2

-- `SYS_MapPage` from the test of the alignment on
unfoldable pub map_at : Kernel → Registers → (task1 task2 vaddr2 : ℕ) → Outcome (Kernel × Registers)
map_at k regs task1 task2 vaddr2 =
    if not (regs.ebx % page_size_4m == 0) || not (vaddr2 % page_size_4m == 0)
    then ok (k, with_eax regs k_unaligned_page_addr)
    else do
      t₁ ← task_at k.sched.tasks task1
      t₂ ← task_at k.sched.tasks task2
      sharing ←
          share (k.machine.dirs t₁.page_dir) (k.machine.dirs t₂.page_dir) task1 task2 regs.ebx
            vaddr2
      elim sharing [
        | none ↦ ok (k, with_eax regs k_vpage_mapped)
        | some s ↦ (map_shared k s regs.esi >>= λ k₁. ok (k₁, with_eax_ebx regs k_ok vaddr2))
      ]

unfoldable pub map_between : Kernel → Registers → (task1 task2 : ℕ) → Outcome (Kernel × Registers)
map_between k regs task1 task2 = do
  t₁ ← task_at k.sched.tasks task1
  t₂ ← task_at k.sched.tasks task2
  assert (not (t₁.page_dir == t₂.page_dir))
  elim (map_vaddr (k.machine.dirs t₂.page_dir) regs.edx regs.esi) [
    | none ↦ ok (k, with_eax regs k_oom_virt)
    | some vaddr2 ↦ map_at k regs task1 task2 vaddr2
  ]

unfoldable pub sys_map_page : Kernel → Registers → Outcome (Kernel × Registers)
sys_map_page k regs = do
  task1 ← get_current_task k
  if task1 == regs.ecx
      then ok (k, with_eax_ebx regs k_ok regs.edx)
      else map_between k regs task1 regs.ecx

unfoldable pub sys_unmap_page : Kernel → Registers → Outcome (Kernel × Registers)
sys_unmap_page k regs = do
  task ← get_current_task k
  t ← task_at k.sched.tasks task
  paddr ← get_physical_addr (k.machine.dirs t.page_dir) regs.ebx
  owned ←
      if page_is_recorded t.owned_phys_pages (addr_to_page paddr)
      then remove_owned_page k.sched.pmm t.owned_phys_pages (addr_to_page paddr)
      else ok (k.sched.pmm, t.owned_phys_pages)
  pd ← unmap_page (k.machine.dirs t.page_dir) regs.ebx
  ok (put_dir (put_owned k task t owned) t.page_dir pd, regs)
