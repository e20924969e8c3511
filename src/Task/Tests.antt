-- ===== src/Task/Tests.antt =====
-- Runs of the class `Task` on concrete tasks, and the theorems at concrete inputs.
use yet_another_project_i_ll.Base.{
  ℕ, ◌≡◌, refl, inl, inr, true, false, Option, none, some, List, [], ◌∷◌, arith, ◌==◌,
  if◌then◌else◌, replicate, ok, ◌>>=◌, Returns,
}
use yet_another_project_i_ll.Pmm.{Pmm, initial_bitmap}
use yet_another_project_i_ll.Pmm.Boot.{fresh-IsBitmap, fresh-used}
use yet_another_project_i_ll.Pmm.Pages.{IsBitmap, used}
use yet_another_project_i_ll.Task.{
  Registers, Task, get_received_signal, can_run_task, contains, wait_on, send_signal,
  page_is_recorded, record_owned_page, remove_owned_page, free_owned_pages,
}
use yet_another_project_i_ll.Task.Pages.{
  remove_owned_page-record_owned_page, IsOwned, Freed, free_owned_pages-Freed,
}
use yet_another_project_i_ll.Task.Waiting.{Holds, AreLive, wait_on-blocks, send_signal-wait_on}

abbrev zeroes : List ℕ
zeroes = replicate 128 0

-- the bitmap of a machine with 20 pages, after boot
abbrev booted : Pmm
booted = record { num_4m_pages = 20; bitmap = initial_bitmap zeroes 20 }

booted-IsBitmap : IsBitmap booted
booted-IsBitmap = fresh-IsBitmap zeroes refl 20 (omega arith)

page_9_free : used booted 9 ≡ false
page_9_free = fresh-used zeroes refl 20 (omega arith) 9 (omega arith)

page_30_used : used booted 30 ≡ true
page_30_used = fresh-used zeroes refl 20 (omega arith) 30 (omega arith)

page_40_used : used booted 40 ≡ true
page_40_used = fresh-used zeroes refl 20 (omega arith) 40 (omega arith)

-- a table of three entries, the second of them empty
abbrev pages : List ℕ
pages = 30 ∷ 0 ∷ 40 ∷ []

remove_owned_page-record_owned_page_example :
    (record_owned_page booted pages 9 >>= λ out. remove_owned_page (out.0) (out.1) 9)
    ≡ ok (booted, pages)
remove_owned_page-record_owned_page_example =
    remove_owned_page-record_owned_page booted-IsBitmap pages 9 (omega arith) page_9_free
      (unfold contains in refl) (unfold page_is_recorded contains in refl)

free_owned_pages-Freed_example : Returns (Freed booted pages) (free_owned_pages booted pages)
free_owned_pages-Freed_example = free_owned_pages-Freed pages booted-IsBitmap (
    unfold IsOwned contains in
    (
      inr ((λ e. absurd (omega arith)), omega arith, page_30_used, refl),
      (inl refl, (inr ((λ e. absurd (omega arith)), omega arith, page_40_used, refl), tt)),
    ))

abbrev no_regs : Registers
no_regs = record {
  gs = 0;
  fs = 0;
  es = 0;
  ds = 0;
  edi = 0;
  esi = 0;
  ebp = 0;
  esp = 0;
  ebx = 0;
  edx = 0;
  ecx = 0;
  eax = 0;
  int_no = 0;
  err_code = 0;
  eip = 0;
  cs = 0;
  eflags = 0;
  useresp = 0;
  ss = 0;
}

abbrev a_task : List ℕ → Task
a_task listeners = record {
  is_user = true;
  regs = no_regs;
  kernel_stack_allocation = 0x1000;
  page_dir = 1;
  parent = none;
  owned_phys_pages = [];
  waiting_on_signals = [];
  listening_for_signals = listeners;
}

-- two tasks, and one that was deleted
abbrev tasks : ℕ → Option Task
tasks i =
    if i == 1
    then some (a_task [])
    else if i == 2
    then some (a_task (2 ∷ []))
    else if i == 3
    then some (a_task (9 ∷ []))
    else none

live_2 : AreLive tasks (2 ∷ [])
unfolding contains
live_2 k h = let e : k ≡ 2 = ground arith in rw e

wait_on-blocks_example :
    Returns
      (λ q.
        Holds (λ t. can_run_task t ≡ false) (q 1)
        × Holds (λ o. contains o.listening_for_signals 1 ≡ true) (q 2))
      (wait_on tasks 1 2 4)
wait_on-blocks_example =
    wait_on-blocks tasks 1 2 4 (a_task []) (a_task (2 ∷ [])) (λ e. absurd (omega arith))
      (λ e. absurd (omega arith)) refl refl (unfold get_received_signal in refl)

send_signal-wait_on_example :
    Returns
      (λ q. Holds (λ t. can_run_task t ≡ true) (q 1))
      (wait_on tasks 1 2 6 >>= λ q. send_signal q 2 4 7)
send_signal-wait_on_example =
    send_signal-wait_on tasks 1 2 6 (a_task []) (a_task (2 ∷ [])) (λ e. absurd (omega arith))
      (λ e. absurd (omega arith)) refl refl 4 7 (λ e. absurd (omega arith)) live_2
