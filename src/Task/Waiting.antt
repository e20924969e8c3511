-- ===== src/Task/Waiting.antt =====
-- Waiting for the signals of another task, and sending them.
-- A value that is there and has a property
use yet_another_project_i_ll.Base.{
  ℕ, bit_and, ◌≡◌, sym, ap, subst, ◌∙◌, ◌≢◌, inl, inr, true, false, Option, none, some, List, [],
  ◌∷◌, arith, ◌==◌, ==_refl, ==_ne, Bool-cases, Option-cases, ==_yes, abort, ◌>>=◌, Returns,
  Returns-mono, Returns-bind, is_some, bit_and-zero,
}
use yet_another_project_i_ll.Task.{
  Task, Tasks, task_at, with_task, can_run_task, set_signal, create_signal, contains, add_listener,
  expect, receive, wait_on, signal_all, send_signal,
}
use yet_another_project_i_ll.Task.Entries.{
  Expects, has_received, has_received-wakes, has_received-kept, waits-Expects, waits-cannot_run,
  contains-add_listener, contains-add_listener_other,
}
use native.Mathlib.Decide.{ℕ_discrete}

abbrev pub Holds : (Task → Type 0) → Option Task → Type 0
Holds P none = ⊥
Holds P (some t) = P t

-- Every listener is a task that is there.
abbrev pub AreLive : Tasks → List ℕ → Type 0
AreLive tasks xs = (l : ℕ) → contains xs l ≡ true → is_some (tasks l) ≡ true

abbrev pub Awake : Tasks → ℕ → Type 0
Awake tasks l = Holds (λ t. has_received t.waiting_on_signals ≡ true) (tasks l)

pub AreLive-with_task :
    (tasks : Tasks) (xs : List ℕ) (l x : ℕ) (t : Task)
    → AreLive tasks (x ∷ xs)
    → AreLive (with_task tasks l (some t)) xs
unfolding with_task contains
AreLive-with_task tasks xs l x t live k h = elim (ℕ_discrete k l) [
  | yes e ↦ rw (==_yes k l e)
  | no ne ↦ rw (==_ne k l ne) (live k (ground arith))
]

-- The first listener is there, and so are the others when its entry has been written.
pub signal_all_step :
    (x : ℕ) (xs : List ℕ) (tasks : Tasks) (self signals value : ℕ)
    → AreLive tasks (x ∷ xs)
    → (t : Task) × (tasks x ≡ some t)
      × (signal_all tasks (x ∷ xs) self signals value
          ≡ signal_all
              (with_task tasks x (
                some (record t {
                  waiting_on_signals = set_signal t.waiting_on_signals self (receive signals value);
                })))
              xs
              self
              signals
              value)
unfolding signal_all task_at contains
signal_all_step x xs tasks self signals value live = elim (Option-cases (tasks x)) [
  | inl e ↦ let there : is_some (tasks x) ≡ true = live x (rw (==_refl x)) in absurd (ground arith)
  | inr (t, e) ↦ (t, e, rw e)
]

Holds-some : (P : Task → Type 0) (o : Option Task) (t : Task) → o ≡ some t → Holds P o → P t
Holds-some P o t e h = subst (Holds P) e h

-- The tasks with the entry of `x` written
abbrev pub signalled : Tasks → ℕ → Task → (self signals value : ℕ) → Tasks
signalled tasks x t self signals value = with_task tasks x (
    some (record t {
      waiting_on_signals = set_signal t.waiting_on_signals self (receive signals value);
    }))

signalled-Awake :
    (tasks : Tasks) (x l : ℕ) (t : Task) (self signals value : ℕ)
    → signals ≢ 0
    → tasks x ≡ some t
    → Awake tasks l
    → Awake (signalled tasks x t self signals value) l
unfolding with_task
signalled-Awake tasks x l t self signals value ne e h = elim (ℕ_discrete l x) [
  | yes same ↦ rw (==_yes l x same) (
      has_received-kept t.waiting_on_signals self signals value ne (
        Holds-some (λ t. has_received t.waiting_on_signals ≡ true) (tasks l) t (ap tasks same ∙ e)
          h))
  | no other ↦ rw (==_ne l x other) h
]

abbrev pub Expecting : Tasks → (l self signals : ℕ) → Type 0
Expecting tasks l self signals = Holds (λ t. Expects t.waiting_on_signals self signals) (tasks l)

signalled-wakes :
    (tasks : Tasks) (x : ℕ) (t : Task) (self signals value : ℕ)
    → signals ≢ 0
    → tasks x ≡ some t
    → Expecting tasks x self signals
    → Awake (signalled tasks x t self signals value) x
unfolding with_task
signalled-wakes tasks x t self signals value ne e h = rw (==_refl x) (
    has_received-wakes t.waiting_on_signals self signals value ne
      (Holds-some (λ t. Expects t.waiting_on_signals self signals) (tasks x) t e h))

signal_all-Awake :
    (xs : List ℕ) (tasks : Tasks) (self signals value l : ℕ)
    → signals ≢ 0
    → AreLive tasks xs
    → Awake tasks l
    → Returns (λ q. Awake q l) (signal_all tasks xs self signals value)
unfolding signal_all
signal_all-Awake [] tasks self signals value l ne live h = h
signal_all-Awake (x ∷ xs) tasks self signals value l ne live h =
    let (t, e, step) = signal_all_step x xs tasks self signals value live in
    rw step (
      signal_all-Awake xs (signalled tasks x t self signals value) self signals value l ne
        (AreLive-with_task tasks xs x x _ live)
        (signalled-Awake tasks x l t self signals value ne e h))

signal_all-wakes :
    (xs : List ℕ) (tasks : Tasks) (self signals value l : ℕ)
    → signals ≢ 0
    → AreLive tasks xs
    → contains xs l ≡ true
    → Expecting tasks l self signals
    → Returns (λ q. Awake q l) (signal_all tasks xs self signals value)
unfolding contains with_task
signal_all-wakes [] tasks self signals value l ne live here h = absurd (ground arith)
signal_all-wakes (x ∷ xs) tasks self signals value l ne live here h =
    let (t, e, step) = signal_all_step x xs tasks self signals value live in
    let live_rest = AreLive-with_task tasks xs x x _ live in
    elim (ℕ_discrete l x) [
      | yes same ↦
          rw (step, same)
            (signal_all-Awake xs (signalled tasks x t self signals value) self signals value x ne
              live_rest (signalled-wakes tasks x t self signals value ne e (rw same at h)))
      | no other ↦ rw step (
          signal_all-wakes xs (signalled tasks x t self signals value) self signals value l ne
            live_rest (ground arith) (rw (==_ne l x other) h))
    ]

Awake-can_run_task :
    (o : Option Task)
    → Holds (λ t. has_received t.waiting_on_signals ≡ true) o
    → Holds (λ t. can_run_task t ≡ true) o
unfolding can_run_task
Awake-can_run_task none h = h
Awake-can_run_task (some t) h = rw h (ground arith)

signal_all-dangling :
    (xs : List ℕ) (tasks : Tasks) (self signals value l : ℕ)
    → contains xs l ≡ true
    → tasks l ≡ none
    → signal_all tasks xs self signals value ≡ abort
unfolding contains signal_all task_at with_task
signal_all-dangling [] tasks self signals value l h gone = absurd (ground arith)
signal_all-dangling (x ∷ xs) tasks self signals value l h gone = elim (Option-cases (tasks x)) [
  | inl e ↦ rw e
  | inr (t, e) ↦ elim (ℕ_discrete l x) [
    | yes same ↦ let both : none ≡ some t = sym gone ∙ ap tasks same ∙ e in absurd (ground arith)
    | no other ↦ rw e (
        signal_all-dangling xs (signalled tasks x t self signals value) self signals value l
          (ground arith) (rw (==_ne l x other) gone))
  ]
]

-- A task that expects one of the signals from the sender, and is among its listeners, can run once
-- `SendSignal` has been called; the call returns when every listener is a task that is there.
pub send_signal-wakes :
    (tasks : Tasks) (self signals value l : ℕ) (sender : Task)
    → signals ≢ 0
    → tasks self ≡ some sender
    → AreLive tasks sender.listening_for_signals
    → contains sender.listening_for_signals l ≡ true
    → Expecting tasks l self signals
    → Returns (λ q. Holds (λ t. can_run_task t ≡ true) (q l)) (send_signal tasks self signals value)
unfolding send_signal task_at
send_signal-wakes tasks self signals value l sender ne e live listens expecting =
    rw (==_ne signals 0 ne, e)
      (Returns-mono (λ q. Awake q l) (λ q. Holds (λ t. can_run_task t ≡ true) (q l))
        (signal_all tasks sender.listening_for_signals self signals value)
        (signal_all-wakes sender.listening_for_signals tasks self signals value l ne live listens
          expecting)
        (λ q awake. Awake-can_run_task (q l) awake))

-- With a listener that has been deleted `SendSignal` goes through a dangling pointer.
pub send_signal-dangling :
    (tasks : Tasks) (self signals value l : ℕ) (sender : Task)
    → tasks self ≡ some sender
    → contains sender.listening_for_signals l ≡ true
    → tasks l ≡ none
    → send_signal tasks self signals value ≡ abort
unfolding send_signal task_at
send_signal-dangling tasks self signals value l sender e listens gone =
    elim (Bool-cases (signals == 0)) [
      | inl z ↦ rw z
      | inr nz ↦
          rw (nz, e)
            (signal_all-dangling sender.listening_for_signals tasks self signals value l listens
              gone)
    ]

-- What `WaitOn` leaves: both tasks are as they were, but for the entries of the one and the
-- listeners of the other.
record Waits (tasks : Tasks) (self other_task : ℕ) (t other : Task) (signals : ℕ) (q : Tasks)
    : Type 0 where
  waiting :
      q self
      ≡ some (record t {
        waiting_on_signals =
            set_signal (create_signal t.waiting_on_signals other_task) other_task (expect signals);
      })
  listening :
      q other_task
      ≡ some
          (record other { listening_for_signals = add_listener other.listening_for_signals self })
  others : (k : ℕ) → k ≢ self → k ≢ other_task → q k ≡ tasks k

module _ (tasks : Tasks) (self other_task signals : ℕ) (t other : Task) (ne : signals ≢ 0)
    (apart : self ≢ other_task) (e : tasks self ≡ some t) (eo : tasks other_task ≡ some other) where
  wait_on-Waits :
      Returns (Waits tasks self other_task t other signals) (wait_on tasks self other_task signals)
  unfolding wait_on task_at with_task
  wait_on-Waits =
      let diff : other_task ≢ self = λ z. apart (sym z) in
      rw (==_ne signals 0 ne, e, ==_ne other_task self diff, eo)
        (record {
          waiting = rw (==_ne self other_task apart, ==_refl self);
          listening = rw (==_refl other_task);
          others = λ k ns no. rw (==_ne k other_task no, ==_ne k self ns);
        })

  -- After `WaitOn` a task that has received nothing yet cannot run, and it is among the listeners of
  -- the other task.
  pub wait_on-blocks :
      has_received t.waiting_on_signals ≡ false
      → Returns
          (λ q.
            Holds (λ t. can_run_task t ≡ false) (q self)
            × Holds (λ o. contains o.listening_for_signals self ≡ true) (q other_task))
          (wait_on tasks self other_task signals)
  wait_on-blocks h =
      Returns-mono (Waits tasks self other_task t other signals) _ _ wait_on-Waits (λ q w.
        rw (w.waiting, w.listening)
          (
            waits-cannot_run t other_task signals h,
            contains-add_listener other.listening_for_signals self,
          ))

  -- A task that has called `WaitOn` can run once the other task has sent one of the signals that
  -- were waited for; both calls return when the other task's listeners are all there.
  pub send_signal-wait_on :
      (sent value : ℕ)
      → bit_and signals sent ≢ 0
      → AreLive tasks other.listening_for_signals
      → Returns
          (λ q. Holds (λ t. can_run_task t ≡ true) (q self))
          (wait_on tasks self other_task signals >>= λ q. send_signal q other_task sent value)
  send_signal-wait_on sent value meets live =
      Returns-bind (Waits tasks self other_task t other signals) _ _ _ wait_on-Waits (λ q w.
        send_signal-wakes q other_task sent value self _ (sent_some sent meets) (w.listening)
          (AreLive-add_listener q w live) (contains-add_listener other.listening_for_signals self)
          (rw (w.waiting) (waits-Expects t.waiting_on_signals other_task signals sent meets)))
    where
      sent_some : (sent : ℕ) → bit_and signals sent ≢ 0 → sent ≢ 0
      sent_some sent meets z = meets (ap (bit_and signals) z ∙ bit_and-zero signals)

      AreLive-add_listener :
          (q : Tasks)
          → Waits tasks self other_task t other signals q
          → AreLive tasks other.listening_for_signals
          → AreLive q (add_listener other.listening_for_signals self)
      AreLive-add_listener q w live k h = elim (ℕ_discrete k self) [
        | yes same ↦ rw (same, w.waiting)
        | no ns ↦ elim (ℕ_discrete k other_task) [
          | yes same ↦ rw (same, w.listening)
          | no no_other ↦
              rw (w.others k ns no_other)
                (live k (contains-add_listener_other other.listening_for_signals self k ns h))
        ]
      ]
