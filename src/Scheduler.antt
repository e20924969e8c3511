-- ===== src/Scheduler.antt =====
-- kernel/scheduler.cpp and kernel/include/kernel/linkedlist.h: the queue of tasks and the switch to
-- the next one. `gTaskQueue` is the list of its tasks, from the front; `gdt::SetKernelStack` and
-- `paging::SwitchPageDirectory` set a field. What a deleted task gives up outside of the scheduler
-- is listed in `closed` (the owners handed to `channel::CloseEndpointsOwnedByTask`), `kfreed` and
-- `deleted_dirs`.
pub mod Queue
pub mod Switch
pub mod Interrupt
pub mod Deletion
mod Tests
use yet_another_project_i_ll.Base.{
  ℕ, zero, suc, ◌+◌, ◌%◌, ◌^◌, bit_and, bit_or, Bool, true, false, not, ◌&&◌, ◌||◌, Option, none,
  some, List, [], ◌∷◌, ◌++◌, leb, ◌==◌, if◌then◌else◌, Outcome, ok, abort, ◌>>=◌, ◌>>◌, assert,
}
use yet_another_project_i_ll.Pmm.{Pmm}
use yet_another_project_i_ll.Task.{
  Registers, Task, Tasks, k_ready, k_running, k_terminated, task_at, with_task, get_received_signal,
  can_run_task, contains, send_signal, remove_signal, free_owned_pages,
}

pub record Scheduler : Type 0 where
  pub tasks : Tasks
  pub queue : List ℕ
  pub kernel_task : ℕ
  pub kernel_page_dir : ℕ
  pub pmm : Pmm
  pub kernel_stack : ℕ
  pub current_page_dir : ℕ
  pub closed : List ℕ
  pub kfreed : List ℕ
  pub deleted_dirs : List ℕ

unfoldable pub segment_register_value_is_valid : ℕ → Bool
segment_register_value_is_valid reg =
    leb reg 0x23
    && (bit_and reg 0xfc == 0x08
        || bit_and reg 0xfc == 0x10
        || bit_and reg 0xfc == 0x18
        || bit_and reg 0xfc == 0x20)

unfoldable pub validate_regs : Bool → Registers → Outcome (Unit {0})
validate_regs is_user r = do
  assert (segment_register_value_is_valid r.cs)
  assert (segment_register_value_is_valid r.ds)
  assert (segment_register_value_is_valid r.gs)
  assert (segment_register_value_is_valid r.fs)
  assert (segment_register_value_is_valid r.es)
  assert (segment_register_value_is_valid r.ds)
  if is_user then assert (r.ss % 2 ^ 16 == 0x23) else ok tt

-- `Cycle`: the front of the list moves to its end
unfoldable pub cycle : List ℕ → List ℕ
cycle [] = []
cycle (x ∷ xs) = xs ++ (x ∷ [])

-- `while (gTaskQueue != next_node) gTaskQueue = gTaskQueue->Cycle();` for the node at position `k`
unfoldable pub cycle_to : ℕ → List ℕ → List ℕ
cycle_to zero queue = queue
cycle_to (suc k) queue = cycle_to k (cycle queue)

unfoldable pub append : List ℕ → ℕ → List ℕ
append queue task = queue ++ (task ∷ [])

abbrev pub one_more : Option ℕ → Option ℕ
one_more none = none
one_more (some k) = some (suc k)

-- The position of the first task that is not waiting for signals
unfoldable pub first_runnable : Tasks → List ℕ → Outcome (Option ℕ)
first_runnable tasks [] = ok none
first_runnable tasks (t ∷ rest) =
    let after = first_runnable tasks rest in
    task_at tasks t >>= λ task.
    if can_run_task task then ok (some 0) else (after >>= λ k. ok (one_more k))

-- In a kernel task the interrupt has left its frame at the task's own stack pointer; `stack` holds
-- the words there.
unfoldable pub check_stack : Bool → Registers → (ℕ → ℕ) → Outcome (Unit {0})
check_stack is_user r stack = if is_user then ok tt else do
  assert (r.esp % 4 == 0)
  assert (stack r.esp == r.int_no)
  assert (stack (r.esp + 4) == r.err_code)
  assert (stack (r.esp + 8) == r.eip)
  assert (stack (r.esp + 12) == r.cs)
  assert (stack (r.esp + 16) == r.eflags)

unfoldable pub get_kernel_stack_base : Task → Outcome ℕ
get_kernel_stack_base t = do
  assert (not (t.kernel_stack_allocation == 0))
  assert ((t.kernel_stack_allocation + 0x2000) % 2 ^ 32 % 4 == 0)
  ok ((t.kernel_stack_allocation + 0x2000) % 2 ^ 32)

-- `~Task`, and the task's memory given back
unfoldable pub destroy_task : Scheduler → ℕ → Outcome Scheduler
destroy_task s task = do
  t ← task_at s.tasks task
  pmm₁ ← free_owned_pages s.pmm t.owned_phys_pages
  ok (record s {
    tasks = with_task s.tasks task none;
    pmm = pmm₁;
    closed = task ∷ s.closed;
    kfreed = t.kernel_stack_allocation ∷ s.kfreed;
    deleted_dirs =
        if t.page_dir == s.kernel_page_dir then s.deleted_dirs else t.page_dir ∷ s.deleted_dirs;
  })

-- The current task is put back in the queue, with its registers saved.
unfoldable pub save_current : Scheduler → (current k : ℕ) → Registers → Outcome Scheduler
save_current s current k r = do
  t ← task_at s.tasks current
  ok (record s {
    queue = cycle_to (suc k) s.queue;
    tasks = with_task s.tasks current (some (record t { regs = r }));
  })

-- The current task, which has been taken off the queue, is deleted.
unfoldable pub delete_current :
    Scheduler → (current k : ℕ) → (rest : List ℕ) → (retval : ℕ) → Outcome Scheduler
delete_current s current k rest retval = do
  tasks₁ ← send_signal s.tasks current k_terminated retval
  destroy_task (record s { tasks = tasks₁; queue = cycle_to k rest }) current

-- A task that was woken by a signal finds it in EBX and its value in ECX.
unfoldable pub take_signal : Task → Outcome Task
take_signal t = elim (get_received_signal t.waiting_on_signals) [
  | none ↦ ok t
  | some r ↦ do
    if t.is_user then assert (t.regs.eax == 0) else ok tt
    waiting ← remove_signal t.waiting_on_signals r.task
    ok (record t {
      regs = record (t.regs) { ebx = r.received_signal; ecx = r.value };
      waiting_on_signals = waiting;
    })
]

-- The registers are those that `switch_task` loads.
unfoldable pub enter : Scheduler → ℕ → Outcome (Scheduler × Option Registers)
enter s new_task = do
  t ← task_at s.tasks new_task
  t₁ ← take_signal t
  validate_regs t₁.is_user t₁.regs
  base ← get_kernel_stack_base t₁
  tasks₁ ← send_signal (with_task s.tasks new_task (some t₁)) new_task k_running 0
  ok (
    record s { tasks = tasks₁; kernel_stack = base; current_page_dir = t₁.page_dir },
    some (record (t₁.regs) { eflags = bit_or t₁.regs.eflags 0x200 }),
  )

abbrev pub leave :
    Scheduler → (current k : ℕ) → List ℕ → Option Registers → ℕ → (ℕ → ℕ) → Bool → Outcome Scheduler
leave s current k rest none retval stack is_user = delete_current s current k rest retval
leave s current k rest (some r) retval stack is_user =
    check_stack is_user r stack >> save_current s current k r

abbrev pub validate_current : Bool → Option Registers → Outcome (Unit {0})
validate_current is_user none = ok tt
validate_current is_user (some r) = validate_regs is_user r

abbrev pub front : List ℕ → Outcome ℕ
front [] = abort
front (t ∷ rest) = ok t

-- `Schedule` with the current task at the front of the queue and `rest` behind it. Without a task
-- to switch to it returns to its caller, and no registers are loaded.
unfoldable pub schedule_from :
    Scheduler
    → ℕ
    → List ℕ
    → (stack : ℕ → ℕ) → Option Registers
    → ℕ
    → Outcome (Scheduler × Option Registers)
schedule_from s current [] stack regs retval = do
  t ← task_at s.tasks current
  validate_current t.is_user regs
  assert (current == s.kernel_task)
  ok (s, none)
schedule_from s current (second ∷ others) stack regs retval = do
  t ← task_at s.tasks current
  validate_current t.is_user regs
  next ← first_runnable s.tasks (second ∷ others)
  elim next [
    | none ↦ assert (current == s.kernel_task) >> ok (s, none)
    | some k ↦ do
      s₁ ← leave s current k (second ∷ others) regs retval stack t.is_user
      new_task ← front s₁.queue
      enter s₁ new_task
  ]

unfoldable pub schedule :
    Scheduler → (stack : ℕ → ℕ) → Option Registers → ℕ → Outcome (Scheduler × Option Registers)
schedule s stack regs retval = elim s.queue [
  | [] ↦ abort
  | current ∷ rest ↦ schedule_from s current rest stack regs retval
]

-- `assert(gTaskQueue)`
abbrev pub is_set : List ℕ → Bool
is_set [] = false
is_set (t ∷ rest) = true

abbrev pub is_child : Option ℕ → ℕ → Bool
is_child none parent = false
is_child (some p) parent = p == parent

unfoldable pub register_task : Scheduler → ℕ → Outcome Scheduler
register_task s task = do
  assert (is_set s.queue)
  tasks₁ ← send_signal s.tasks task k_ready 0
  ok (record s { queue = append s.queue task; tasks = tasks₁ })

unfoldable pub is_running_task : Scheduler → ℕ → Bool
is_running_task s task = contains s.queue task

unfoldable pub children_in : Tasks → List ℕ → ℕ → Outcome (List ℕ)
children_in tasks [] parent = ok []
children_in tasks (t ∷ rest) parent = do
  task ← task_at tasks t
  children ← children_in tasks rest parent
  ok (if is_child task.parent parent then t ∷ children else children)

unfoldable pub get_children : Scheduler → ℕ → Outcome (List ℕ)
get_children s self = children_in s.tasks s.queue self
