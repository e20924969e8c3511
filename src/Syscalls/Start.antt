-- ===== src/Syscalls/Start.antt =====
-- `SYS_ProcessCreate` and `SYS_ProcessStart` of kernel/syscalls.cpp, one after the other.
use yet_another_project_i_ll.Base.{
  ℕ, ◌≡◌, refl, ◌≢◌, true, some, List, [], ◌∷◌, ◌++◌, ==_refl, ==_ne, ok, ◌>>=◌, assert, Returns,
}
use yet_another_project_i_ll.Syscalls.{Kernel, get_current_task, sys_process_create}
use yet_another_project_i_ll.Syscalls.Process.{sys_process_start}
use yet_another_project_i_ll.Paging.Machine.{with_dir}
use yet_another_project_i_ll.Scheduler.{append, front, is_set, register_task}
use yet_another_project_i_ll.Task.{Registers, task_at, with_task, signal_all, send_signal, new_task}

-- The process waits for its turn at the end of the queue, with its entry point and its argument in
-- its registers and a page directory that maps what the kernel's does. The other tasks are as before.
pub record Started (k : Kernel) (parent user_pd new stack entry arg : ℕ) (out : Kernel × Registers)
    : Type 0 where
  pub queue : (out.0).sched.queue ≡ k.sched.queue ++ (new ∷ [])
  pub here :
      (out.0).sched.tasks new
      ≡ some (
          let t = new_task true user_pd (some parent) stack in
          record t { regs = record (t.regs) { eip = entry; eax = arg } })
  pub others : (i : ℕ) → i ≢ new → (out.0).sched.tasks i ≡ k.sched.tasks i
  pub maps : (out.0).machine.dirs user_pd ≡ k.machine.dirs k.sched.kernel_page_dir
  pub pmm : (out.0).sched.pmm ≡ k.sched.pmm

set_queue : (queue : List ℕ) (t : ℕ) → front queue ≡ ok t → assert (is_set queue) ≡ ok tt
set_queue [] t e = absurd (cc e)
set_queue (x ∷ xs) t e = refl

-- `SYS_ProcessStart` of the handle that `SYS_ProcessCreate` has returned puts the process at the end
-- of the queue, when the memory for its page directory could be had.
pub sys_process_start-sys_process_create :
    (k : Kernel) (regs : Registers) (parent user_pd new stack entry arg : ℕ)
    → get_current_task k ≡ ok parent
    → user_pd ≢ 0
    → Returns (Started k parent user_pd new stack entry arg) (
        sys_process_create k regs user_pd new stack >>= λ (k₁, regs₁).
        sys_process_start k₁ (record regs₁ { ecx = entry; edx = arg }))
unfolding sys_process_create sys_process_start task_at with_task with_dir register_task send_signal
    signal_all new_task append
sys_process_start-sys_process_create k regs parent user_pd new stack entry arg current ne =
    rw (==_ne user_pd 0 ne, current, ==_refl new, set_queue k.sched.queue parent current)
      (record {
        queue = refl;
        here = rw (==_refl new) refl;
        others = λ i other. rw (==_ne i new other) refl;
        maps = rw (==_refl user_pd) refl;
        pmm = refl;
      })
