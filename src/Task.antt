-- ===== src/Task.antt =====
-- The class `Task` of kernel/include/kernel/scheduler.h and kernel/scheduler.cpp. A pointer to a
-- task is a number, and the tasks of the kernel are a function from these numbers, with `none` for
-- a task that has been deleted: an access through such a pointer is `abort`, since in C++ it is
-- undefined. `owned_phys_pages_` is a list of 256 entries.
pub mod Pages
pub mod Entries
pub mod Waiting
pub mod Removal
mod Tests
use yet_another_project_i_ll.Base.{
  ℕ, bit_and, bit_or, Bool, true, false, not, ◌||◌, Option, none, some, List, [], ◌∷◌, ◌++◌, ◌==◌,
  if◌then◌else◌, replicate, Outcome, ok, abort, ◌>>=◌, assert, or_abort, is_some, ◌>>◌,
}
use yet_another_project_i_ll.Pmm.{Pmm, page_is_used, set_page_used, set_page_free}

pub record Registers : Type 0 where
  pub gs : ℕ
  pub fs : ℕ
  pub es : ℕ
  pub ds : ℕ
  pub edi : ℕ
  pub esi : ℕ
  pub ebp : ℕ
  pub esp : ℕ
  pub ebx : ℕ
  pub edx : ℕ
  pub ecx : ℕ
  pub eax : ℕ
  pub int_no : ℕ
  pub err_code : ℕ
  pub eip : ℕ
  pub cs : ℕ
  pub eflags : ℕ
  pub useresp : ℕ
  pub ss : ℕ

pub record Signals : Type 0 where
  pub task : ℕ
  pub expecting_signals : ℕ
  pub value : ℕ
  pub received_signal : ℕ

pub record Task : Type 0 where
  pub is_user : Bool
  pub regs : Registers
  pub kernel_stack_allocation : ℕ
  pub page_dir : ℕ
  pub parent : Option ℕ
  pub owned_phys_pages : List ℕ
  pub waiting_on_signals : List Signals
  pub listening_for_signals : List ℕ

abbrev pub Tasks : Type 0
Tasks = ℕ → Option Task

abbrev pub k_ready : ℕ
k_ready = 1

abbrev pub k_running : ℕ
k_running = 2

abbrev pub k_terminated : ℕ
k_terminated = 4

-- What the task at an address holds, and the tasks with another value there.
unfoldable pub task_at : Tasks → ℕ → Outcome Task
task_at tasks t = or_abort (tasks t)

unfoldable pub with_task : Tasks → ℕ → Option Task → Tasks
with_task tasks t task = λ i. if i == t then task else tasks i

unfoldable pub is_waiting_on_signal : List Signals → Bool
is_waiting_on_signal [] = false
is_waiting_on_signal (s ∷ ss) = true

-- The first entry with a signal that was received; the code returns its fields.
unfoldable pub get_received_signal : List Signals → Option Signals
get_received_signal [] = none
get_received_signal (s ∷ ss) = if s.received_signal == 0 then get_received_signal ss else some s

unfoldable pub can_run_task : Task → Bool
can_run_task t =
    not (is_waiting_on_signal t.waiting_on_signals)
    || is_some (get_received_signal t.waiting_on_signals)

unfoldable pub get_signal : List Signals → ℕ → Option Signals
get_signal [] other = none
get_signal (s ∷ ss) other = if s.task == other then some s else get_signal ss other

-- A write through the pointer that `GetSignal` returns.
unfoldable pub set_signal : List Signals → ℕ → (Signals → Signals) → List Signals
set_signal [] other f = []
set_signal (s ∷ ss) other f = if s.task == other then f s ∷ ss else s ∷ set_signal ss other f

-- `GetOrCreateSignal`: the entries with one for `other`
unfoldable pub create_signal : List Signals → ℕ → List Signals
create_signal ss other = elim (get_signal ss other) [
  | some s ↦ ss
  | none ↦
      ss ++ (record { task = other; expecting_signals = 0; value = 0; received_signal = 0 } ∷ [])
]

unfoldable pub contains : List ℕ → ℕ → Bool
contains [] t = false
contains (x ∷ xs) t = if x == t then true else contains xs t

unfoldable pub add_listener : List ℕ → ℕ → List ℕ
add_listener listeners waiting_task =
    if contains listeners waiting_task then listeners else listeners ++ (waiting_task ∷ [])

abbrev pub expect : ℕ → Signals → Signals
expect signals s = record s { expecting_signals = bit_or s.expecting_signals signals }

-- The signal is stored when it is one of those expected.
abbrev pub receive : ℕ → ℕ → Signals → Signals
receive signals value s =
    if bit_and s.expecting_signals signals == 0
    then s
    else record s { received_signal = signals; value = value }

unfoldable pub wait_on : Tasks → (self other_task signals : ℕ) → Outcome Tasks
wait_on tasks self other_task signals = do
  assert (not (signals == 0))
  t ← task_at tasks self
  let waiting =
      set_signal (create_signal t.waiting_on_signals other_task) other_task (expect signals)
  let tasks₁ = with_task tasks self (some (record t { waiting_on_signals = waiting }))
  other ← task_at tasks₁ other_task
  ok (
      with_task tasks₁ other_task (
        some
          (record other { listening_for_signals = add_listener other.listening_for_signals self })))

-- The loop of `SendSignal` over the listeners
unfoldable pub signal_all : Tasks → List ℕ → (self signals value : ℕ) → Outcome Tasks
signal_all tasks [] self signals value = ok tasks
signal_all tasks (listener ∷ rest) self signals value = do
  t ← task_at tasks listener
  let waiting = set_signal t.waiting_on_signals self (receive signals value)
  signal_all (with_task tasks listener (some (record t { waiting_on_signals = waiting }))) rest self
      signals value

unfoldable pub send_signal : Tasks → (self signals value : ℕ) → Outcome Tasks
send_signal tasks self signals value = do
  assert (not (signals == 0))
  t ← task_at tasks self
  signal_all tasks t.listening_for_signals self signals value

-- The code traps when there is no entry for the task.
unfoldable pub remove_signal : List Signals → ℕ → Outcome (List Signals)
remove_signal [] task = abort
remove_signal (s ∷ ss) task =
    let rest = remove_signal ss task in if s.task == task then ok ss else (rest >>= λ r. ok (s ∷ r))

unfoldable pub page_is_recorded : List ℕ → ℕ → Bool
page_is_recorded = contains

-- The first entry that is `from` becomes `to`; without one the code aborts.
unfoldable pub replace_first : List ℕ → (from to : ℕ) → Outcome (List ℕ)
replace_first [] from to = abort
replace_first (x ∷ xs) from to =
    let rest = replace_first xs from to in
    if x == from then ok (to ∷ xs) else (rest >>= λ r. ok (x ∷ r))

unfoldable pub record_owned_page : Pmm → List ℕ → ℕ → Outcome (Pmm × List ℕ)
record_owned_page pmm pages ppage = do
  assert (not (page_is_recorded pages ppage))
  recorded ← replace_first pages 0 ppage
  pmm ← set_page_used pmm ppage
  ok (pmm, recorded)

unfoldable pub remove_owned_page : Pmm → List ℕ → ℕ → Outcome (Pmm × List ℕ)
remove_owned_page pmm pages ppage = do
  assert (page_is_recorded pages ppage)
  removed ← replace_first pages ppage 0
  pmm ← set_page_free pmm ppage
  ok (pmm, removed)

-- The loop of the destructor over the pages
unfoldable pub free_owned_pages : Pmm → List ℕ → Outcome Pmm
free_owned_pages pmm [] = ok pmm
free_owned_pages pmm (ppage ∷ rest) = if ppage == 0 then free_owned_pages pmm rest else do
  is_used ← page_is_used pmm ppage
  assert is_used
  freed ← set_page_free pmm ppage
  free_owned_pages freed rest

abbrev pub segments : (cs other : ℕ) → Registers
segments cs other = record {
  gs = other;
  fs = other;
  es = other;
  ds = other;
  edi = 0;
  esi = 0;
  ebp = 0;
  esp = 0;
  ebx = 0;
  edx = 0;
  ecx = 0;
  eax = 0;
  int_no = 0;
  err_code = 0;
  eip = 0;
  cs = cs;
  eflags = 0;
  useresp = 0;
  ss = other;
}

-- The constructor, with the stack that `kmalloc` returns: a user task has the segments of ring 3
unfoldable pub new_task : Bool → (pd : ℕ) → (parent : Option ℕ) → (stack : ℕ) → Task
new_task user pd parent stack = record {
  is_user = user;
  regs = if user then segments (bit_or 0x18 3) (bit_or 0x20 3) else segments 0x08 0x10;
  kernel_stack_allocation = stack;
  page_dir = pd;
  parent = parent;
  owned_phys_pages = replicate 256 0;
  waiting_on_signals = [];
  listening_for_signals = [];
}
