-- ===== src/Syscalls/Process.antt =====
-- kernel/syscalls.cpp: starting a process, waiting for one, ending the current one, and the
-- information about them. A handle written to a buffer is its four bytes, lowest first. `local` is
-- the address of the variable on the kernel's stack, or of the vector's elements, that `TryCopy`
-- copies from, and `before` is `GetPageDirBeforeException`.
use yet_another_project_i_ll.Base.{
  ℕ, ◌+◌, not, Option, none, some, List, [], ◌∷◌, ◌++◌, ltb, ◌==◌, if◌then◌else◌, length, Outcome,
  ok, abort, ◌>>=◌, or_abort, word_bytes,
}
use yet_another_project_i_ll.Syscalls.{
  Kernel, k_ok, k_buffer_too_small, k_invalid_handle, k_invalid_arg, with_eax, with_eax_ebx,
  get_current_task,
}
use yet_another_project_i_ll.Paging.Machine.{
  Machine, current_pd, with_byte, switch_page_directory, memcpy_into,
}
use yet_another_project_i_ll.Paging.{PageDirectory4m}
use yet_another_project_i_ll.Scheduler.{
  Scheduler, schedule, register_task, is_running_task, get_children,
}
use yet_another_project_i_ll.Task.{Registers, task_at, with_task, wait_on}

unfoldable pub sys_process_start : Kernel → Registers → Outcome (Kernel × Registers)
sys_process_start k regs = do
  t ← task_at k.sched.tasks regs.ebx
  let started = record t { regs = record (t.regs) { eip = regs.ecx; eax = regs.edx } }
  let s = record (k.sched) { tasks = with_task k.sched.tasks regs.ebx (some started) }
  s₁ ← register_task s regs.ebx
  ok (record k { sched = s₁ }, regs)

-- What follows a call of `Schedule`, which comes back only when there is no task to switch to.
unfoldable pub switched : Kernel → Scheduler × Option Registers → Outcome (Kernel × Registers)
switched k (s, none) = abort
switched k (s, some loaded) =
    ok (record { sched = s; machine = switch_page_directory k.machine s.current_page_dir }, loaded)

-- `stack` holds the words at the stack pointer of a kernel task.
unfoldable pub sys_process_kill :
    Kernel → Registers → (stack : ℕ → ℕ) → Outcome (Kernel × Registers)
sys_process_kill k regs stack = schedule k.sched stack none regs.ebx >>= switched k

unfoldable pub sys_process_wait :
    Kernel → Registers → (stack : ℕ → ℕ) → Outcome (Kernel × Registers)
sys_process_wait k regs stack =
    if regs.ecx == 0
    then ok (k, with_eax regs k_ok)
    else if not (is_running_task k.sched regs.ebx)
    then ok (k, with_eax regs k_invalid_handle)
    else do
      current ← get_current_task k
      tasks₁ ← wait_on k.sched.tasks current regs.ebx regs.ecx
      let s = record (k.sched) { tasks = tasks₁ }
      left ← schedule s stack (some (with_eax regs k_ok)) 0
      switched (record k { sched = s }) left

-- The bytes of an array of handles
unfoldable pub array_bytes : List ℕ → List ℕ
array_bytes [] = []
array_bytes (h ∷ hs) = word_bytes h ++ array_bytes hs

abbrev pub proc_current : ℕ
proc_current = 0

abbrev pub proc_parent : ℕ
proc_parent = 1

abbrev pub proc_children : ℕ
proc_children = 2

-- A null pointer is the handle 0.
abbrev pub parent_handle : Option ℕ → ℕ
parent_handle none = 0
parent_handle (some p) = p

-- What a call reports: a status, or the bytes to copy out
unfoldable pub info : Kernel → (task flags : ℕ) → Outcome (Option (List ℕ))
info k task flags =
    if flags == proc_current
    then ok (some (word_bytes task))
    else if flags == proc_parent
    then (task_at k.sched.tasks task >>= λ t. ok (some (word_bytes (parent_handle t.parent))))
    else if flags == proc_children
    then (get_children k.sched task >>= λ children. ok (some (array_bytes children)))
    else ok none

module _ (translate : PageDirectory4m → ℕ → Option ℕ) (before local : ℕ) where
  -- The object that is copied, byte by byte in the current address space
  unfoldable pub store_local : Machine → (at : ℕ) → List ℕ → Outcome Machine
  store_local m at [] = ok m
  store_local m at (byte ∷ bytes) = do
    to ← or_abort (translate (current_pd m) at)
    store_local (with_byte m to byte) (at + 1) bytes

  unfoldable pub try_copy : Machine → (src_size buff buff_size : ℕ) → Outcome (Machine × ℕ)
  try_copy m src_size buff buff_size =
      if ltb buff_size src_size
      then ok (m, k_buffer_too_small)
      else (memcpy_into translate m before buff local src_size >>= λ m₁. ok (m₁, k_ok))

  unfoldable pub report : Kernel → Registers → List ℕ → Outcome (Kernel × Registers)
  report k regs bytes = do
    m ← store_local k.machine local bytes
    (m₁, status) ← try_copy m (length bytes) regs.edx regs.esi
    ok (record k { machine = m₁ }, with_eax_ebx regs status (length bytes))

  unfoldable pub info_about : Kernel → Registers → (task : ℕ) → Outcome (Kernel × Registers)
  info_about k regs task = do
    found ← info k task regs.ecx
    elim found [ none ↦ ok (k, with_eax regs k_invalid_arg) | some bytes ↦ report k regs bytes ]

  unfoldable pub sys_process_info : Kernel → Registers → Outcome (Kernel × Registers)
  sys_process_info k regs =
      if regs.ecx == proc_current
      then (get_current_task k >>= λ task. info_about k regs task)
      else if is_running_task k.sched regs.ebx
      then info_about k regs regs.ebx
      else ok (k, with_eax regs k_invalid_handle)
