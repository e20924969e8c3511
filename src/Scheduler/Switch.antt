-- ===== src/Scheduler/Switch.antt =====
-- The switch to a task: the signal that woke it is taken off, and the signal that it runs is sent.
use yet_another_project_i_ll.Base.{
  ℕ, suc, ◌+◌, ◌%◌, ◌^◌, ◌<◌, bit_or, ◌≡◌, refl, sym, ap, subst, ◌∙◌, ◌≢◌, inl, inr, Bool, true,
  false, Option, none, some, List, [], ◌∷◌, arith, ◌==◌, if◌then◌else◌, ==_refl, ==_ne, Bool-cases,
  Option-cases, ==_yes, length, ok, assert, Returns, Outcome-cases, Returns-mono, Returns-bind,
}
use yet_another_project_i_ll.Task.{
  Registers, Signals, Task, Tasks, k_running, task_at, with_task, is_waiting_on_signal,
  get_received_signal, can_run_task, contains, signal_all, send_signal, remove_signal, segments,
  new_task,
}
use yet_another_project_i_ll.Task.Waiting.{AreLive, AreLive-with_task, signal_all_step, signalled}
use yet_another_project_i_ll.Scheduler.{
  Scheduler, segment_register_value_is_valid, validate_regs, get_kernel_stack_base, take_signal,
  enter,
}
use native.Mathlib.Decide.{ℕ_discrete}

-- A task as it is but for the signals that it waits for.
abbrev pub without_waiting : Option Task → Option Task
without_waiting none = none
without_waiting (some t) = some (record t { waiting_on_signals = [] })

abbrev pub Keeps : Tasks → Tasks → Type 0
Keeps tasks q = (k : ℕ) → without_waiting (q k) ≡ without_waiting (tasks k)

signalled-Keeps :
    (tasks : Tasks) (x : ℕ) (t : Task) (waiting : List Signals)
    → tasks x ≡ some t
    → Keeps tasks (with_task tasks x (some (record t { waiting_on_signals = waiting })))
unfolding with_task
signalled-Keeps tasks x t waiting e k = elim (ℕ_discrete k x) [
  | yes same ↦ rw (==_yes k x same, same, e)
  | no other ↦ rw (==_ne k x other)
]

signal_all-Keeps :
    (xs : List ℕ) (tasks : Tasks) (self signals value : ℕ)
    → AreLive tasks xs
    → Returns (Keeps tasks) (signal_all tasks xs self signals value)
unfolding signal_all
signal_all-Keeps [] tasks self signals value live = λ k. refl
signal_all-Keeps (x ∷ xs) tasks self signals value live =
    let (t, e, step) = signal_all_step x xs tasks self signals value live in
    let next : Tasks = signalled tasks x t self signals value in
    rw step (
      Returns-mono (Keeps next) (Keeps tasks) (signal_all next xs self signals value)
        (signal_all-Keeps xs next self signals value (AreLive-with_task tasks xs x x _ live))
        (λ q h k. h k ∙ signalled-Keeps tasks x t _ e k))

-- `SendSignal` to listeners that are all there returns, and changes nothing but what tasks wait for.
pub send_signal-Keeps :
    (tasks : Tasks) (self signals value : ℕ) (t : Task)
    → signals ≢ 0
    → tasks self ≡ some t
    → AreLive tasks t.listening_for_signals
    → Returns (Keeps tasks) (send_signal tasks self signals value)
unfolding send_signal task_at
send_signal-Keeps tasks self signals value t ne e live =
    rw (==_ne signals 0 ne, e)
      (signal_all-Keeps t.listening_for_signals tasks self signals value live)

abbrev entry_task : Option Signals → ℕ
entry_task none = 0
entry_task (some s) = s.task

remove_signal-Returns :
    (ss : List Signals) (r : Signals)
    → get_received_signal ss ≡ some r
    → Returns (λ ys. suc (length ys) ≡ length ss) (remove_signal ss r.task)
unfolding get_received_signal remove_signal
remove_signal-Returns [] r e = absurd (ground arith)
remove_signal-Returns (x ∷ xs) r e = elim (Bool-cases (x.task == r.task)) [
  | inl here ↦ rw here
  | inr there ↦ elim (Bool-cases (x.received_signal == 0)) [
    | inl z ↦ rw there (
        Returns-bind (λ ys. suc (length ys) ≡ length xs) _ _ _
          (remove_signal-Returns xs r (rw z at e)) (λ ys h. ap suc h))
    | inr nz ↦
        let same : some x ≡ some r = rw nz at e in
        let t : x.task ≡ r.task = ap entry_task same in absurd (ground arith)
  ]
]

-- What `Schedule` relies on of a task that it switches to
pub record IsSound (tasks : Tasks) (t : Task) : Type 0 where
  pub regs : validate_regs t.is_user t.regs ≡ ok tt
  pub stack : get_kernel_stack_base t ≡ ok ((t.kernel_stack_allocation + 0x2000) % 2 ^ 32)
  pub live : AreLive tasks t.listening_for_signals
  pub status : get_received_signal t.waiting_on_signals ≢ none → t.is_user ≡ true → t.regs.eax ≡ 0

-- The registers that a task goes on with: the signal that woke it, if one did, is in EBX and its value
-- in ECX, and interrupts are enabled.
abbrev pub woken_by : Option Signals → Registers → Registers
woken_by none r = r
woken_by (some signal) r = record r { ebx = signal.received_signal; ecx = signal.value }

abbrev pub enabled : Registers → Registers
enabled r = record r { eflags = bit_or r.eflags 0x200 }

abbrev pub resumed : Task → Registers
resumed t = enabled (woken_by (get_received_signal t.waiting_on_signals) t.regs)

abbrev SameTask : Task → Task → Type 0
SameTask t u =
    (u.is_user ≡ t.is_user)
    × (u.page_dir ≡ t.page_dir)
    × (u.kernel_stack_allocation ≡ t.kernel_stack_allocation)
    × (u.listening_for_signals ≡ t.listening_for_signals)
    × (u.parent ≡ t.parent)

-- The signal that a task was woken by is taken off.
pub record Taken (t u : Task) : Type 0 where
  pub same : SameTask t u
  pub valid : validate_regs u.is_user u.regs ≡ validate_regs t.is_user t.regs
  pub base : get_kernel_stack_base u ≡ get_kernel_stack_base t
  pub regs : u.regs ≡ woken_by (get_received_signal t.waiting_on_signals) t.regs

user_status :
    (t : Task)
    → (t.is_user ≡ true → t.regs.eax ≡ 0)
    → (if t.is_user then assert (t.regs.eax == 0) else ok (tt {0})) ≡ ok tt
user_status t status = elim (Bool-cases t.is_user) [
  | inl user ↦ rw (user, ==_yes t.regs.eax 0 (status user))
  | inr kernel ↦ rw kernel
]

take_signal-Taken :
    (t : Task)
    → (get_received_signal t.waiting_on_signals ≢ none → t.is_user ≡ true → t.regs.eax ≡ 0)
    → Returns (Taken t) (take_signal t)
unfolding take_signal validate_regs get_kernel_stack_base
take_signal-Taken t status = elim (Option-cases (get_received_signal t.waiting_on_signals)) [
  | inl e ↦
      rw (take_signal, e)
        (record { same = (refl, refl, refl, refl, refl); valid = refl; base = refl; regs = rw e })
  | inr (r, e) ↦
      rw (take_signal, e, user_status t (status (λ z. absurd (cc (e, z)))))
        (Returns-bind (λ ys. suc (length ys) ≡ length t.waiting_on_signals) (Taken t) _ _
          (remove_signal-Returns t.waiting_on_signals r e)
          (λ ys h. record {
            same = (refl, refl, refl, refl, refl);
            valid = refl;
            base = refl;
            regs = rw e;
          }))
]

-- The new task runs: its page directory and its kernel stack are the current ones, and the other
-- tasks are what they were, but for what they wait for.
pub record Entered (s : Scheduler) (new_task : ℕ) (t : Task) (out : Scheduler × Option Registers)
    : Type 0 where
  pub queue : (out.0).queue ≡ s.queue
  pub page_dir : (out.0).current_page_dir ≡ t.page_dir
  pub kernel_stack : (out.0).kernel_stack ≡ (t.kernel_stack_allocation + 0x2000) % 2 ^ 32
  pub loads : out.1 ≡ some (resumed t)
  pub others :
      (k : ℕ) → k ≢ new_task → without_waiting ((out.0).tasks k) ≡ without_waiting (s.tasks k)

pub AreLive-replace :
    (tasks : Tasks) (x : ℕ) (u : Task) (xs : List ℕ)
    → AreLive tasks xs
    → AreLive (with_task tasks x (some u)) xs
unfolding with_task
AreLive-replace tasks x u xs live k h = elim (ℕ_discrete k x) [
  | yes same ↦ rw (==_yes k x same)
  | no other ↦ rw (==_ne k x other) (live k h)
]

pub enter-Entered :
    (s : Scheduler) (new_task : ℕ) (t : Task)
    → s.tasks new_task ≡ some t
    → IsSound s.tasks t
    → Returns (Entered s new_task t) (enter s new_task)
unfolding enter task_at
enter-Entered s new_task t e sound = rw e (
    Returns-bind (Taken t) (Entered s new_task t) _ _ (take_signal-Taken t (sound.status))
      (λ u taken.
        let (_, dir, alloc, listeners, _) = taken.same in
        let placed : Tasks = with_task s.tasks new_task (some u) in
        let here : placed new_task ≡ some u = unfold with_task in rw (==_refl new_task) in
        let sent : Returns (Keeps placed) (send_signal placed new_task k_running 0) =
          send_signal-Keeps placed new_task k_running 0 u (λ z. absurd (omega arith)) here
            (AreLive-replace s.tasks new_task u u.listening_for_signals
              (subst (AreLive s.tasks) (sym listeners) (sound.live))) in
        elim (Outcome-cases (send_signal placed new_task k_running 0)) [
          | inl stops ↦ absurd (subst (Returns (Keeps placed)) stops sent)
          | inr (q, done) ↦
              rw (taken.valid ∙ sound.regs, taken.base ∙ sound.stack, done)
                (record {
                  queue = refl;
                  page_dir = dir;
                  kernel_stack = refl;
                  loads = ap (λ r. some (enabled r)) taken.regs;
                  others = λ k ne.
                      subst (Returns (Keeps placed)) done sent k
                      ∙ (unfold with_task in rw (==_ne k new_task ne));
                })
        ]))

abbrev new_regs : Bool → Registers
new_regs user = if user then segments (bit_or 0x18 3) (bit_or 0x20 3) else segments 0x08 0x10

validate_regs-new_regs : (user : Bool) → validate_regs user (new_regs user) ≡ ok tt
unfolding validate_regs segment_register_value_is_valid
validate_regs-new_regs true = refl
validate_regs-new_regs false = refl

new_status : (user : Bool) → (new_regs user).eax ≡ 0
new_status true = refl
new_status false = refl

no_listener : (k : ℕ) → contains [] k ≢ true
unfolding contains
no_listener k h = absurd (ground arith)

-- A task that was just constructed, on a kernel stack that is aligned and inside the address space,
-- can be switched to: its registers and its stack pass the checks, EAX is zero, and it can run.
pub new_task-IsSound :
    (tasks : Tasks) (user : Bool) (pd : ℕ) (parent : Option ℕ) (alloc : ℕ)
    → 0 < alloc
    → alloc % 4 ≡ 0
    → alloc + 0x2000 < 2 ^ 32
    → IsSound tasks (new_task user pd parent alloc)
      × (can_run_task (new_task user pd parent alloc) ≡ true)
      × ((new_task user pd parent alloc).regs.eax ≡ 0)
unfolding new_task can_run_task is_waiting_on_signal get_kernel_stack_base
new_task-IsSound tasks user pd parent alloc there aligned inside =
    let quads : (alloc + 0x2000) % 2 ^ 32 % 4 ≡ 0 = omega arith in
    (
      record {
        regs = validate_regs-new_regs user;
        stack = rw (==_ne alloc 0 (λ e. absurd (omega arith)), ==_yes _ 0 quads);
        live = λ k h. absurd (no_listener k h);
        status = λ woken e. new_status user;
      },
      refl,
      new_status user,
    )
