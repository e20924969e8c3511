-- ===== src/Task/Entries.antt =====
-- The entries of a task that waits: `GetSignal`, `GetOrCreateSignal`, and the writes through the
-- entry that they return.
use yet_another_project_i_ll.Base.{
  ℕ, bit_and, ◌≡◌, refl, ◌≢◌, ◌⊎◌, inl, inr, Bool, true, false, none, some, List, [], ◌∷◌, ◌++◌,
  arith, ◌==◌, ==_refl, ==_ne, Bool-cases, Option-cases, ==_yes, is_some, bit_and-bit_or_right,
}
use yet_another_project_i_ll.Task.{
  Signals, Task, is_waiting_on_signal, get_received_signal, can_run_task, get_signal, set_signal,
  create_signal, contains, add_listener, expect, receive,
}
use native.Mathlib.Decide.{ℕ_discrete}

-- The first entry for `task` expects one of `signals`.
abbrev pub Expects : List Signals → (task signals : ℕ) → Type 0
Expects [] task signals = ⊥
Expects (s ∷ ss) task signals =
    (((s.task == task) ≡ true) × (bit_and s.expecting_signals signals ≢ 0))
    ⊎ (((s.task == task) ≡ false) × Expects ss task signals)

abbrev pub has_received : List Signals → Bool
has_received ss = is_some (get_received_signal ss)

receive_received :
    (s : Signals) (signals value : ℕ)
    → signals ≢ 0
    → bit_and s.expecting_signals signals ≢ 0
    → (receive signals value s).received_signal ≡ signals
receive_received s signals value ne h = rw (==_ne _ 0 h)

has_received-cons :
    (x : Signals) (xs : List Signals)
    → (x.received_signal ≢ 0) ⊎ (has_received xs ≡ true)
    → has_received (x ∷ xs) ≡ true
unfolding get_received_signal
has_received-cons x xs (inl ne) = rw (==_ne _ 0 ne)
has_received-cons x xs (inr h) = ground arith

pub has_received-wakes :
    (ss : List Signals) (task signals value : ℕ)
    → signals ≢ 0
    → Expects ss task signals
    → has_received (set_signal ss task (receive signals value)) ≡ true
unfolding set_signal
has_received-wakes [] task signals value ne h = absurd h
has_received-wakes (x ∷ xs) task signals value ne (inl (here, h)) =
    rw here (has_received-cons _ xs (inl (rw (receive_received x signals value ne h) ne)))
has_received-wakes (x ∷ xs) task signals value ne (inr (there, h)) =
    rw there (has_received-cons x _ (inr (has_received-wakes xs task signals value ne h)))

receive_kept :
    (s : Signals) (signals value : ℕ)
    → signals ≢ 0
    → s.received_signal ≢ 0
    → (receive signals value s).received_signal ≢ 0
receive_kept s signals value ne h = ground arith

pub has_received-kept :
    (ss : List Signals) (task signals value : ℕ)
    → signals ≢ 0
    → has_received ss ≡ true
    → has_received (set_signal ss task (receive signals value)) ≡ true
unfolding set_signal get_received_signal
has_received-kept [] task signals value ne h = h
has_received-kept (x ∷ xs) task signals value ne h = elim (ℕ_discrete x.received_signal 0) [
  | yes z ↦
      let later : has_received xs ≡ true = rw (==_yes _ 0 z) at h in
      elim (Bool-cases (x.task == task)) [
        | inl here ↦ rw here (has_received-cons _ xs (inr later))
        | inr there ↦ rw there (
            has_received-cons x (set_signal xs task (receive signals value))
              (inr (has_received-kept xs task signals value ne later)))
      ]
  | no nz ↦ elim (Bool-cases (x.task == task)) [
    | inl here ↦ rw here (has_received-cons _ xs (inl (receive_kept x signals value ne nz)))
    | inr there ↦
        rw there (has_received-cons x (set_signal xs task (receive signals value)) (inl nz))
  ]
]

Expects-found :
    (ss : List Signals) (s : Signals) (task signals sent : ℕ)
    → bit_and signals sent ≢ 0
    → get_signal ss task ≡ some s
    → Expects (set_signal ss task (expect signals)) task sent
unfolding set_signal get_signal
Expects-found [] s task signals sent ne e = absurd (ground arith)
Expects-found (x ∷ xs) s task signals sent ne e = elim (Bool-cases (x.task == task)) [
  | inl here ↦ rw here (inl (here, bit_and-bit_or_right x.expecting_signals signals sent ne))
  | inr there ↦ rw there (inr (there, Expects-found xs s task signals sent ne (rw there at e)))
]

abbrev fresh : ℕ → Signals
fresh task = record { task = task; expecting_signals = 0; value = 0; received_signal = 0 }

Expects-added :
    (ss : List Signals) (task signals sent : ℕ)
    → bit_and signals sent ≢ 0
    → get_signal ss task ≡ none
    → Expects (set_signal (ss ++ (fresh task ∷ [])) task (expect signals)) task sent
unfolding set_signal get_signal
Expects-added [] task signals sent ne e =
    rw (==_refl task) (inl (==_refl task, bit_and-bit_or_right 0 signals sent ne))
Expects-added (x ∷ xs) task signals sent ne e = elim (Bool-cases (x.task == task)) [
  | inl here ↦ absurd (ground arith)
  | inr there ↦ rw there (inr (there, Expects-added xs task signals sent ne (rw there at e)))
]

create_signal_old :
    (ss : List Signals) (s : Signals) (task : ℕ)
    → get_signal ss task ≡ some s
    → create_signal ss task ≡ ss
unfolding create_signal
create_signal_old ss s task e = rw (create_signal, e)

create_signal_new :
    (ss : List Signals) (task : ℕ)
    → get_signal ss task ≡ none
    → create_signal ss task ≡ ss ++ (fresh task ∷ [])
unfolding create_signal
create_signal_new ss task e = rw (create_signal, e)

-- The entries that `WaitOn` writes
pub waits-Expects :
    (ss : List Signals) (task signals sent : ℕ)
    → bit_and signals sent ≢ 0
    → Expects (set_signal (create_signal ss task) task (expect signals)) task sent
waits-Expects ss task signals sent ne = elim (Option-cases (get_signal ss task)) [
  | inl e ↦ rw (create_signal_new ss task e) (Expects-added ss task signals sent ne e)
  | inr (s, e) ↦ rw (create_signal_old ss s task e) (Expects-found ss s task signals sent ne e)
]

set_signal-blocked :
    (ss : List Signals) (task signals : ℕ)
    → has_received ss ≡ false
    → has_received (set_signal ss task (expect signals)) ≡ false
unfolding set_signal get_received_signal
set_signal-blocked [] task signals h = refl
set_signal-blocked (x ∷ xs) task signals h =
    let none_here : (x.received_signal == 0) ≡ true = ground arith in
    let later : has_received xs ≡ false = ground arith in
    elim (Bool-cases (x.task == task)) [
      | inl here ↦ rw (here, none_here) later
      | inr there ↦ rw (there, none_here) (set_signal-blocked xs task signals later)
    ]

added-blocked :
    (ss : List Signals) (task : ℕ)
    → has_received ss ≡ false
    → has_received (ss ++ (fresh task ∷ [])) ≡ false
unfolding get_received_signal
added-blocked [] task h = refl
added-blocked (x ∷ xs) task h =
    let none_here : (x.received_signal == 0) ≡ true = ground arith in
    rw none_here (added-blocked xs task (ground arith))

-- Nothing was received yet through the entries that `WaitOn` writes when nothing was before.
waits-blocked :
    (ss : List Signals) (task signals : ℕ)
    → has_received ss ≡ false
    → has_received (set_signal (create_signal ss task) task (expect signals)) ≡ false
waits-blocked ss task signals h = elim (Option-cases (get_signal ss task)) [
  | inl e ↦
      rw (create_signal_new ss task e)
        (set_signal-blocked (ss ++ (fresh task ∷ [])) task signals (added-blocked ss task h))
  | inr (s, e) ↦ rw (create_signal_old ss s task e) (set_signal-blocked ss task signals h)
]

added-waiting :
    (ss : List Signals) (task : ℕ) → is_waiting_on_signal (ss ++ (fresh task ∷ [])) ≡ true
unfolding is_waiting_on_signal
added-waiting [] task = refl
added-waiting (x ∷ xs) task = refl

found-waiting :
    (ss : List Signals) (s : Signals) (task : ℕ)
    → get_signal ss task ≡ some s
    → is_waiting_on_signal ss ≡ true
unfolding is_waiting_on_signal get_signal
found-waiting [] s task e = absurd (ground arith)
found-waiting (x ∷ xs) s task e = refl

set_signal-waiting :
    (ss : List Signals) (task signals : ℕ)
    → is_waiting_on_signal ss ≡ true
    → is_waiting_on_signal (set_signal ss task (expect signals)) ≡ true
unfolding set_signal is_waiting_on_signal
set_signal-waiting [] task signals h = h
set_signal-waiting (x ∷ xs) task signals h = ground arith

waits-waiting :
    (ss : List Signals) (task signals : ℕ)
    → is_waiting_on_signal (set_signal (create_signal ss task) task (expect signals)) ≡ true
waits-waiting ss task signals = elim (Option-cases (get_signal ss task)) [
  | inl e ↦
      rw (create_signal_new ss task e)
        (set_signal-waiting (ss ++ (fresh task ∷ [])) task signals (added-waiting ss task))
  | inr (s, e) ↦
      rw (create_signal_old ss s task e)
        (set_signal-waiting ss task signals (found-waiting ss s task e))
]

pub waits-cannot_run :
    (t : Task) (task signals : ℕ)
    → has_received t.waiting_on_signals ≡ false
    → can_run_task (record t {
      waiting_on_signals =
          set_signal (create_signal t.waiting_on_signals task) task (expect signals);
    })
      ≡ false
unfolding can_run_task
waits-cannot_run t task signals h = rw (
  waits-waiting t.waiting_on_signals task signals,
  waits-blocked t.waiting_on_signals task signals h,
)

contains-last : (xs : List ℕ) (x : ℕ) → contains (xs ++ (x ∷ [])) x ≡ true
unfolding contains
contains-last [] x = rw (==_refl x)
contains-last (y ∷ ys) x = let rest = contains-last ys x in ground arith

pub contains-add_listener : (xs : List ℕ) (x : ℕ) → contains (add_listener xs x) x ≡ true
unfolding add_listener
contains-add_listener xs x = elim (Bool-cases (contains xs x)) [
  | inl e ↦ rw (e, e)
  | inr ne ↦ rw ne (contains-last xs x)
]

contains-last_other :
    (xs : List ℕ) (x k : ℕ) → k ≢ x → contains (xs ++ (x ∷ [])) k ≡ true → contains xs k ≡ true
unfolding contains
contains-last_other [] x k ne h = absurd (ground arith)
contains-last_other (y ∷ ys) x k ne h = ground (arith, contains-last_other ys x k ne)

-- A listener other than the one that is added was one before.
pub contains-add_listener_other :
    (xs : List ℕ) (x k : ℕ) → k ≢ x → contains (add_listener xs x) k ≡ true → contains xs k ≡ true
unfolding add_listener
contains-add_listener_other xs x k ne h = elim (Bool-cases (contains xs x)) [
  | inl e ↦ rw e at h
  | inr absent ↦ contains-last_other xs x k ne (rw absent at h)
]
