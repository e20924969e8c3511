-- ===== src/Scheduler/Tests.antt =====
-- A run of `Schedule` on three tasks, and the theorems at concrete inputs.
use yet_another_project_i_ll.Base.{
  ℕ, ◌≡◌, refl, ◌⊎◌, inl, inr, Bool, true, false, Option, none, some, List, [], ◌∷◌, arith, ◌==◌,
  if◌then◌else◌, abort, Returns,
}
use yet_another_project_i_ll.Task.{
  Registers, Signals, Task, is_waiting_on_signal, get_received_signal, can_run_task, contains,
  send_signal, free_owned_pages, new_task,
}
use yet_another_project_i_ll.Task.Waiting.{Holds, AreLive}
use yet_another_project_i_ll.Scheduler.{
  Scheduler, segment_register_value_is_valid, validate_regs, check_stack, get_kernel_stack_base,
  destroy_task, schedule,
}
use yet_another_project_i_ll.Scheduler.Switch.{IsSound, new_task-IsSound}
use yet_another_project_i_ll.Scheduler.Interrupt.{Switches, Stays, schedule_lem}
use yet_another_project_i_ll.Scheduler.Deletion.{destroy_task-dangling}

abbrev regs_with : (seg cs : ℕ) → Registers
regs_with seg cs = record {
  gs = seg;
  fs = seg;
  es = seg;
  ds = seg;
  edi = 0;
  esi = 0;
  ebp = 0;
  esp = 0x100;
  ebx = 0;
  edx = 0;
  ecx = 0;
  eax = 0;
  int_no = 0;
  err_code = 0;
  eip = 0;
  cs = cs;
  eflags = 0;
  useresp = 0;
  ss = seg;
}

abbrev a_task : Bool → List Signals → Task
a_task is_user waiting = record {
  is_user = is_user;
  regs = if is_user then regs_with 0x23 0x1b else regs_with 0x10 0x08;
  kernel_stack_allocation = 0x1000;
  page_dir = 7;
  parent = none;
  owned_phys_pages = [];
  waiting_on_signals = waiting;
  listening_for_signals = [];
}

abbrev waits_for_2 : List Signals
waits_for_2 = record { task = 2; expecting_signals = 4; value = 0; received_signal = 0 } ∷ []

-- the kernel's task 0, task 1 which waits, and task 2
abbrev tasks : ℕ → Option Task
tasks i =
    if i == 0
    then some (a_task false [])
    else if i == 1
    then some (a_task true waits_for_2)
    else if i == 2
    then some (a_task true [])
    else none

-- task 2 runs
abbrev three : Scheduler
three = record {
  tasks = tasks;
  queue = 2 ∷ 1 ∷ 0 ∷ [];
  kernel_task = 0;
  kernel_page_dir = 0;
  pmm = record { num_4m_pages = 0; bitmap = [] };
  kernel_stack = 0;
  current_page_dir = 7;
  closed = [];
  kfreed = [];
  deleted_dirs = [];
}

abbrev stack : ℕ → ℕ
stack a = 0

a_task-IsSound : (is_user : Bool) (waiting : List Signals) → IsSound tasks (a_task is_user waiting)
unfolding validate_regs segment_register_value_is_valid get_kernel_stack_base contains
a_task-IsSound true waiting = record {
  regs = refl;
  stack = refl;
  live = λ k h. absurd (ground arith);
  status = λ woken e. refl;
}
a_task-IsSound false waiting = record {
  regs = refl;
  stack = refl;
  live = λ k h. absurd (ground arith);
  status = λ woken e. refl;
}

behind_2 : (k : ℕ) → contains (1 ∷ 0 ∷ []) k ≡ true → (k ≡ 1) ⊎ (k ≡ 0)
unfolding contains
behind_2 k h = ground arith

live : AreLive tasks (1 ∷ 0 ∷ [])
live k h = elim (behind_2 k h) [ inl e ↦ rw e | inr e ↦ rw e ]

sound : (k : ℕ) → contains (1 ∷ 0 ∷ []) k ≡ true → Holds (IsSound tasks) (tasks k)
sound k h = elim (behind_2 k h) [
  | inl e ↦ rw e (a_task-IsSound true waits_for_2)
  | inr e ↦ rw e (a_task-IsSound false [])
]

schedule_lem_example :
    Returns
      (λ out. Stays three out ⊎ ((k : ℕ) × Switches three (regs_with 0x23 0x1b) out k))
      (schedule three stack (some (regs_with 0x23 0x1b)) 0)
schedule_lem_example =
    schedule_lem three 2 1 (0 ∷ []) stack (regs_with 0x23 0x1b) 0 (a_task true []) refl refl
      (unfold validate_regs segment_register_value_is_valid in refl) (unfold check_stack in refl)
      (unfold contains in refl) live sound
      (λ ne. (1, omega arith, unfold can_run_task is_waiting_on_signal get_received_signal in refl))

new_task-IsSound_example :
    IsSound tasks (new_task true 7 none 0x1000)
    × (can_run_task (new_task true 7 none 0x1000) ≡ true)
    × ((new_task true 7 none 0x1000).regs.eax ≡ 0)
new_task-IsSound_example =
    new_task-IsSound tasks true 7 none 0x1000 (omega arith) (omega arith) (omega arith)

-- The task 0 has the listener 2.
abbrev heard_by_2 : Task
heard_by_2 = record (a_task false []) { listening_for_signals = 2 ∷ [] }

abbrev with_listener : Scheduler
with_listener = record three { tasks = λ k. if k == 0 then some heard_by_2 else tasks k }

destroy_task-dangling_example :
    Returns
      (λ s. (s.tasks 0 ≡ some heard_by_2) × (send_signal s.tasks 0 4 7 ≡ abort))
      (destroy_task with_listener 2)
destroy_task-dangling_example =
    destroy_task-dangling with_listener 0 2 4 7 heard_by_2 (a_task true []) three.pmm
      (λ e. absurd (omega arith)) (λ e. absurd (omega arith)) refl refl
      (unfold free_owned_pages in refl) (unfold contains in refl)
