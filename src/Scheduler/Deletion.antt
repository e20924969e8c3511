-- ===== src/Scheduler/Deletion.antt =====
-- A task that is deleted while others still have it among their listeners.
use yet_another_project_i_ll.Base.{
  ℕ, ◌≡◌, refl, ◌≢◌, true, none, some, ==_refl, ==_ne, ok, abort, Returns,
}
use yet_another_project_i_ll.Pmm.{Pmm}
use yet_another_project_i_ll.Task.{
  Task, task_at, with_task, contains, send_signal, free_owned_pages,
}
use yet_another_project_i_ll.Task.Waiting.{send_signal-dangling}
use yet_another_project_i_ll.Scheduler.{Scheduler, destroy_task}

-- `~Task` leaves the deleted task among the listeners of another one, and the next signal that this one
-- sends goes through the dangling pointer. The signal is not zero, and the deleted task's pages are
-- marked in the bitmap, so that the destructor returns.
pub destroy_task-dangling :
    (s : Scheduler) (self deleted signals value : ℕ) (sender t : Task) (freed : Pmm)
    → self ≢ deleted
    → signals ≢ 0
    → s.tasks self ≡ some sender
    → s.tasks deleted ≡ some t
    → free_owned_pages s.pmm t.owned_phys_pages ≡ ok freed
    → contains sender.listening_for_signals deleted ≡ true
    → Returns
        (λ s₁. (s₁.tasks self ≡ some sender) × (send_signal s₁.tasks self signals value ≡ abort))
        (destroy_task s deleted)
unfolding destroy_task task_at
destroy_task-dangling s self deleted signals value sender t freed other some_signal e d pages
      listens =
    let gone : with_task s.tasks deleted none deleted ≡ none =
      unfold with_task in rw (==_refl deleted) in
    let kept : with_task s.tasks deleted none self ≡ some sender =
      unfold with_task in rw (==_ne self deleted other, e) refl in
    rw (d, pages)
      (
        kept,
        send_signal-dangling (with_task s.tasks deleted none) self signals value deleted sender kept
            listens gone,
      )
