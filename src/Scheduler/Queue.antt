-- ===== src/Scheduler/Queue.antt =====
-- The order of the queue, and the first task in it that can run.
use yet_another_project_i_ll.Base.{
  ℕ, zero, suc, ◌≤◌, ◌<◌, ◌≡◌, refl, sym, ap, ◌∙◌, inl, inr, true, false, Option, none, some, List,
  [], ◌∷◌, ◌++◌, arith, ==_refl, Bool-cases, Option-cases, length, get_or, take, drop,
  length-append, Returns, Returns-bind, is_some,
}
use yet_another_project_i_ll.Task.{Tasks, task_at, can_run_task, contains}
use yet_another_project_i_ll.Task.Waiting.{Holds, AreLive}
use yet_another_project_i_ll.Scheduler.{cycle, cycle_to, one_more, first_runnable}

drop-last :
    (k : ℕ) (xs : List ℕ) (x : ℕ) → k ≤ length xs → drop k (xs ++ (x ∷ [])) ≡ drop k xs ++ (x ∷ [])
drop-last zero xs x h = refl
drop-last (suc k) [] x h = absurd (omega arith)
drop-last (suc k) (y ∷ ys) x h = drop-last k ys x (omega arith)

take-last : (k : ℕ) (xs : List ℕ) (x : ℕ) → k ≤ length xs → take k (xs ++ (x ∷ [])) ≡ take k xs
take-last zero xs x h = refl
take-last (suc k) [] x h = absurd (omega arith)
take-last (suc k) (y ∷ ys) x h = ap (λ l. y ∷ l) (take-last k ys x (omega arith))

append_assoc : (xs ys : List ℕ) (x : ℕ) → (xs ++ (x ∷ [])) ++ ys ≡ xs ++ (x ∷ ys)
append_assoc [] ys x = refl
append_assoc (y ∷ xs) ys x = ap (λ l. y ∷ l) (append_assoc xs ys x)

append_nil : (xs : List ℕ) → xs ++ [] ≡ xs
append_nil [] = refl
append_nil (x ∷ xs) = ap (λ l. x ∷ l) (append_nil xs)

-- `Cycle` called `k` times takes the first `k` tasks of the queue behind the others, in their order.
pub cycle_to_lem :
    (k : ℕ) (queue : List ℕ) → k ≤ length queue → cycle_to k queue ≡ drop k queue ++ take k queue
unfolding cycle_to cycle
cycle_to_lem zero queue h = sym (append_nil queue)
cycle_to_lem (suc k) [] h = absurd (omega arith)
cycle_to_lem (suc k) (x ∷ xs) h =
    cycle_to_lem k (xs ++ (x ∷ [])) (rw length-append (omega arith))
    ∙ rw (drop-last k xs x (omega arith), take-last k xs x (omega arith))
        (append_assoc (drop k xs) (take k xs) x)

abbrev pub Blocked : Tasks → ℕ → Type 0
Blocked tasks t = Holds (λ t. can_run_task t ≡ false) (tasks t)

abbrev pub Runnable : Tasks → ℕ → Type 0
Runnable tasks t = Holds (λ t. can_run_task t ≡ true) (tasks t)

-- The first runnable task of a list is at the position given, or none is runnable.
abbrev pub FirstRunnable : Tasks → List ℕ → Option ℕ → Type 0
FirstRunnable tasks queue none = (i : ℕ) → i < length queue → Blocked tasks (get_or queue i 0)
FirstRunnable tasks queue (some k) =
    (k < length queue)
    × Runnable tasks (get_or queue k 0)
    × ((i : ℕ) → i < k → Blocked tasks (get_or queue i 0))

FirstRunnable-later :
    (tasks : Tasks) (t : ℕ) (rest : List ℕ) (o : Option ℕ)
    → Blocked tasks t
    → FirstRunnable tasks rest o
    → FirstRunnable tasks (t ∷ rest) (one_more o)
FirstRunnable-later tasks t rest none blocked h = go
  where
    go : (i : ℕ) → i < suc (length rest) → Blocked tasks (get_or (t ∷ rest) i 0)
    go zero lt = blocked
    go (suc i) lt = h i (omega arith)
FirstRunnable-later tasks t rest (some k) blocked (lt, runs, before) = (omega arith, runs, go)
  where
    go : (i : ℕ) → i < suc k → Blocked tasks (get_or (t ∷ rest) i 0)
    go zero lt = blocked
    go (suc i) lt = before i (omega arith)

-- The search of `Schedule` returns when the tasks of the queue are all there, with the first one that
-- can run.
pub first_runnable-FirstRunnable :
    (tasks : Tasks) (queue : List ℕ)
    → AreLive tasks queue
    → Returns (FirstRunnable tasks queue) (first_runnable tasks queue)
unfolding first_runnable task_at contains
first_runnable-FirstRunnable tasks [] live = λ i h. absurd (omega arith)
first_runnable-FirstRunnable tasks (t ∷ rest) live = elim (Option-cases (tasks t)) [
  | inl e ↦ let there : is_some (tasks t) ≡ true = live t (rw (==_refl t)) in absurd (ground arith)
  | inr (task, e) ↦ elim (Bool-cases (can_run_task task)) [
    | inl runs ↦ rw (e, runs) (omega arith, rw e runs, λ i h. absurd (omega arith))
    | inr blocked ↦
        rw (e, blocked)
          (Returns-bind (FirstRunnable tasks rest) (FirstRunnable tasks (t ∷ rest)) _ _
            (first_runnable-FirstRunnable tasks rest (λ k h. live k (ground arith)))
            (λ o h. FirstRunnable-later tasks t rest o (rw e blocked) h))
  ]
]
