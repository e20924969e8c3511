-- ===== src/Scheduler/Interrupt.antt =====
-- `Schedule` from an interrupt: the current task goes to the end of the queue, and the first task
-- that can run is switched to.
use yet_another_project_i_ll.Base.{
  ℕ, zero, suc, ◌-◌, ◌<◌, ◌≡◌, refl, sym, ap, subst, ◌∙◌, ◌≢◌, ◌⊎◌, inl, inr, true, false, Option,
  none, some, List, [], ◌∷◌, ◌++◌, arith, ◌==◌, ==_refl, ==_ne, Option-cases, ==_yes, length,
  get_or, take, drop, ok, abort, ◌>>◌, assert, Returns, Outcome-cases, Returns-mono, ◌>>=◌,
}
use yet_another_project_i_ll.Task.{
  Registers, Task, Tasks, task_at, with_task, can_run_task, contains, new_task,
}
use yet_another_project_i_ll.Task.Waiting.{Holds, AreLive}
use yet_another_project_i_ll.Scheduler.{
  Scheduler, validate_regs, cycle_to, first_runnable, check_stack, save_current, enter, leave,
  front, schedule_from, schedule,
}
use yet_another_project_i_ll.Scheduler.Queue.{
  cycle_to_lem, Blocked, Runnable, FirstRunnable, first_runnable-FirstRunnable,
}
use yet_another_project_i_ll.Scheduler.Switch.{
  without_waiting, IsSound, resumed, Entered, AreLive-replace, enter-Entered,
}
use native.Mathlib.Decide.{ℕ_discrete}

-- With interrupts `Schedule` either switches, or leaves everything as it is because no other task
-- can run.
pub record Switches (s : Scheduler) (r : Registers) (out : Scheduler × Option Registers) (k : ℕ)
    : Type 0 where
  pub inside : (0 < k) × (k < length s.queue)
  pub queue : (out.0).queue ≡ drop k s.queue ++ take k s.queue
  pub skipped : (i : ℕ) → 0 < i → i < k → Blocked s.tasks (get_or s.queue i 0)
  pub runnable : Runnable s.tasks (get_or s.queue k 0)
  pub page_dir : Holds (λ t. (out.0).current_page_dir ≡ t.page_dir) (s.tasks (get_or s.queue k 0))
  pub saved : Holds (λ t. t.regs ≡ r) ((out.0).tasks (get_or s.queue 0 0))
  pub loads : Holds (λ t. out.1 ≡ some (resumed t)) (s.tasks (get_or s.queue k 0))

abbrev pub Stays : Scheduler → Scheduler × Option Registers → Type 0
Stays s out =
    (out ≡ (s, none))
    × (get_or s.queue 0 0 ≡ s.kernel_task)
    × ((i : ℕ) → 0 < i → i < length s.queue → Blocked s.tasks (get_or s.queue i 0))

abbrev regs_of : Registers → Option Task → Registers
regs_of r none = r
regs_of r (some t) = t.regs

Holds-both :
    (o : Option Task)
    → Holds (λ t. can_run_task t ≡ false) o
    → Holds (λ t. can_run_task t ≡ true) o
    → ⊥
Holds-both none a b = a
Holds-both (some t) a b = absurd (ground arith)

contains-get_or : (xs : List ℕ) (k : ℕ) → k < length xs → contains xs (get_or xs k 0) ≡ true
unfolding contains
contains-get_or [] k h = absurd (omega arith)
contains-get_or (x ∷ xs) zero h = rw (==_refl x)
contains-get_or (x ∷ xs) (suc k) h = let rest = contains-get_or xs k (omega arith) in ground arith

front-drop : (xs ys : List ℕ) (k : ℕ) → k < length xs → front (drop k xs ++ ys) ≡ ok (get_or xs k 0)
front-drop [] ys k h = absurd (omega arith)
front-drop (x ∷ xs) ys zero h = refl
front-drop (x ∷ xs) ys (suc k) h = front-drop xs ys k (omega arith)

Holds-regs :
    (o : Option Task) (u : Task) → without_waiting o ≡ some u → Holds (λ t. t.regs ≡ u.regs) o
Holds-regs none u e = absurd (ground arith)
Holds-regs (some t) u e = ap (regs_of t.regs) e

IsSound-replace :
    (tasks : Tasks) (x : ℕ) (v t : Task) → IsSound tasks t → IsSound (with_task tasks x (some v)) t
IsSound-replace tasks x v t h = record {
  regs = h.regs;
  stack = h.stack;
  live = AreLive-replace tasks x v t.listening_for_signals (h.live);
  status = h.status;
}

module _ (s : Scheduler) (current second : ℕ) (others : List ℕ) (stack : ℕ → ℕ) (r : Registers)
    (retval : ℕ) (t : Task) (queue : s.queue ≡ current ∷ second ∷ others)
    (here : s.tasks current ≡ some t) (valid : validate_regs t.is_user r ≡ ok tt)
    (frame : check_stack t.is_user r stack ≡ ok tt)
    (once : contains (second ∷ others) current ≡ false) (live : AreLive s.tasks (second ∷ others))
    (sound : (k : ℕ) → contains (second ∷ others) k ≡ true → Holds (IsSound s.tasks) (s.tasks k))
    (kernel : current ≢ s.kernel_task
      → (i : ℕ) × (i < length (second ∷ others))
        × Runnable s.tasks (get_or (second ∷ others) i 0)) where
  abbrev rest : List ℕ
  rest = second ∷ others

  behind : (i : ℕ) → 0 < i → get_or s.queue i 0 ≡ get_or rest (i - 1) 0
  behind zero lt = absurd (omega arith)
  behind (suc i) lt = let same : suc i - 1 ≡ i = omega arith in rw (queue, same)

  -- The scheduler with the current task put back in the queue
  abbrev turn : ℕ → Scheduler
  turn k = record s {
    queue = drop (suc k) s.queue ++ take (suc k) s.queue;
    tasks = with_task s.tasks current (some (record t { regs = r }));
  }

  turned :
      (k : ℕ)
      → k < length rest
      → cycle_to (suc k) s.queue ≡ drop (suc k) s.queue ++ take (suc k) s.queue
  turned k h = cycle_to_lem (suc k) s.queue (rw queue (omega arith))

  front_of :
      (k : ℕ)
      → k < length rest
      → front (drop (suc k) s.queue ++ take (suc k) s.queue) ≡ ok (get_or rest k 0)
  front_of k h = rw queue (front-drop rest (current ∷ take k rest) k h)

  switch_to :
      (o : Option ℕ)
      → FirstRunnable s.tasks rest o
      → Returns
          (λ out. Stays s out ⊎ ((k : ℕ) × Switches s r out k))
          (elim o [
            | none ↦ assert (current == s.kernel_task) >> ok (s, none)
            | some k ↦ do
              s₁ ← leave s current k (second ∷ others) (some r) retval stack t.is_user
              new_task ← front s₁.queue
              enter s₁ new_task
          ])
  unfolding save_current task_at with_task
  switch_to none none_runs = elim (ℕ_discrete current s.kernel_task) [
    | yes same ↦ rw (==_yes current s.kernel_task same) (
        inl (
          refl,
          rw queue same,
          λ i lt inside.
              let short : i < suc (length rest) = rw queue at inside in
              rw (behind i lt) (none_runs (i - 1) (omega arith)),
        ))
    | no ne ↦
        let (i, lt, runs) = kernel ne in
        absurd (Holds-both (s.tasks (get_or rest i 0)) (none_runs i lt) runs)
  ]
  switch_to (some k) first = elim (Option-cases (s.tasks (get_or rest k 0))) [
    | inl e ↦ absurd (subst (Holds (λ t. can_run_task t ≡ true)) e (first.1))
    | inr (u, e) ↦
        let new_task : ℕ = get_or rest k 0 in
        let inside : contains rest new_task ≡ true = contains-get_or rest k (first.0) in
        let apart : new_task ≢ current = λ z.
          let both : true ≡ false = sym inside ∙ ap (contains rest) z ∙ once in
          absurd (ground arith) in
        rw (frame, here, turned k (first.0), front_of k (first.0))
          (Returns-mono (Entered (turn k) new_task u) _ (enter (turn k) new_task)
            (enter-Entered (turn k) new_task u (rw (==_ne new_task current apart) e) (
              IsSound-replace s.tasks current (record t { regs = r }) u
                (subst (Holds (IsSound s.tasks)) e (sound new_task inside))))
            (λ out entered. inr (
              suc k,
              record {
                inside = (omega arith, rw queue (omega (arith, first.0)));
                queue = entered.queue;
                skipped = λ i lt below. rw (behind i lt) ((first.2) (i - 1) (omega arith));
                runnable = rw queue (first.1);
                page_dir = rw (queue, e) (entered.page_dir);
                saved = rw queue (
                    Holds-regs ((out.0).tasks current)
                      (record t { regs = r; waiting_on_signals = [] })
                      (entered.others current (λ z. apart (sym z)) ∙ rw (==_refl current)));
                loads = rw (queue, e) (entered.loads);
              },
            )))
  ]

  by_queue : schedule s stack (some r) retval ≡ schedule_from s current rest stack (some r) retval
  unfolding schedule
  by_queue =
      ap
        (λ q. elim q [
          | [] ↦ abort
          | current ∷ rest ↦ schedule_from s current rest stack (some r) retval
        ])
        queue

  -- An interrupt in a queue of two tasks or more: `Schedule` passes its assertions and switches to
  -- the first task behind the current one that can run, with the queue turned so that it starts
  -- there, the registers of the current task saved, and the new task's page directory current. The
  -- registers that it loads are those of the new task, with interrupts enabled and, when a signal
  -- woke the task, the signal in EBX and its value in ECX. When no other task can run it returns and
  -- changes nothing, which happens in the kernel task only. It asks for valid registers and, in a
  -- kernel task, for the interrupt's frame at the stack pointer, for a queue that holds the current
  -- task once, and for a runnable task behind any task but the kernel's; the tasks behind the current
  -- one are there, with valid segment registers, an aligned kernel stack and listeners that are
  -- there, and EAX is zero in a user's task that a signal has woken.
  pub schedule_lem :
      Returns
        (λ out. Stays s out ⊎ ((k : ℕ) × Switches s r out k))
        (schedule s stack (some r) retval)
  unfolding schedule schedule_from task_at
  schedule_lem =
      let search : Returns (FirstRunnable s.tasks rest) (first_runnable s.tasks rest) =
        first_runnable-FirstRunnable s.tasks rest live in
      elim (Outcome-cases (first_runnable s.tasks rest)) [
        | inl stops ↦ absurd (subst (Returns (FirstRunnable s.tasks rest)) stops search)
        | inr (o, found) ↦
            rw (by_queue, here, valid, found)
              (switch_to o (subst (Returns (FirstRunnable s.tasks rest)) found search))
      ]
