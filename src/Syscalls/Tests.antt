-- ===== src/Syscalls/Tests.antt =====
-- Runs of the system calls on two processes, and the theorems at concrete inputs.
use yet_another_project_i_ll.Base.{
  ℕ, ◌*◌, ◌^◌, ◌≡◌, refl, sym, subst, ◌∙◌, inl, inr, true, false, Option, none, some, List, [], ◌∷◌,
  arith, ◌==◌, if◌then◌else◌, ==_ne, set, replicate, ok, ◌>>=◌, Returns,
}
use yet_another_project_i_ll.Syscalls.Start.{Started, sys_process_start-sys_process_create}
use yet_another_project_i_ll.Syscalls.Share.{Moved, CanMove}
use yet_another_project_i_ll.Syscalls.Owner.{
  Mapped, Gives, given, sys_map_page-shares, sys_map_page-moves,
}
use yet_another_project_i_ll.Syscalls.Alloc.{CanAlloc, AllocResult, sys_alloc_page_lem}
use yet_another_project_i_ll.Syscalls.Unmap.{GivenBack, sys_unmap_page-sys_alloc_page}
use yet_another_project_i_ll.Syscalls.Process.{sys_process_start}
use yet_another_project_i_ll.Syscalls.{
  Kernel, has_flag, alloc_anon, alloc_current, alloc_task, sys_alloc_page, sys_process_create,
  map_anon, map_vaddr, sys_map_page, sys_unmap_page,
}
use yet_another_project_i_ll.Paging.Map.{mapping}
use yet_another_project_i_ll.Paging.{PageDirectory4m, clear, is_present}
use yet_another_project_i_ll.Pmm.Boot.{fresh-IsBitmap, fresh-used}
use yet_another_project_i_ll.Pmm.Pages.{used, Marks, set_page_used_lem}
use yet_another_project_i_ll.Task.{Registers, Task, contains, page_is_recorded, segments}
use yet_another_project_i_ll.Pmm.{
  Pmm, test_bit, set_bit, byte_at, page_is_used, set_page_used, memset, initial_bitmap, first_zero,
}
use native.Mathlib.Decide.{ℕ_discrete}
use yet_another_project_i_ll.Pmm.{
  get_next_free_page as next_free_ppage, find_free as find_free_ppage,
}

abbrev zeroes : List ℕ
zeroes = replicate 128 0

-- a machine with 20 pages, of which the first holds the kernel
abbrev booted : Pmm
booted = record { num_4m_pages = 20; bitmap = initial_bitmap zeroes 20 }

abbrev marked : Pmm
marked = record { num_4m_pages = 20; bitmap = set (initial_bitmap zeroes 20) 0 1 }

marks_kernel : set_page_used booted 0 ≡ ok marked
unfolding set_page_used page_is_used byte_at test_bit set_bit initial_bitmap memset
marks_kernel = refl

marked-Marks : Marks booted 0 true marked
marked-Marks = subst (Returns (Marks booted 0 true)) marks_kernel (
    set_page_used_lem (fresh-IsBitmap zeroes refl 20 (omega arith)) 0 (omega arith)
      (fresh-used zeroes refl 20 (omega arith) 0 (omega arith)))

page_0_used : used marked 0 ≡ true
page_0_used = marked-Marks.marks 0

page_1_free : used marked 1 ≡ false
page_1_free = marked-Marks.marks 1 ∙ fresh-used zeroes refl 20 (omega arith) 1 (omega arith)

page_30_used : used marked 30 ≡ true
page_30_used = marked-Marks.marks 30 ∙ fresh-used zeroes refl 20 (omega arith) 30 (omega arith)

abbrev process : (page_dir : ℕ) → List ℕ → Task
process page_dir owned = record {
  is_user = true;
  regs = segments 0x1b 0x23;
  kernel_stack_allocation = 0x1000;
  page_dir = page_dir;
  parent = none;
  owned_phys_pages = owned;
  waiting_on_signals = [];
  listening_for_signals = [];
}

-- task 5 runs, and owns page 30, at its virtual page 3
abbrev first : Task
first = process 7 (0 ∷ 30 ∷ 0 ∷ [])

abbrev second : Task
second = process 8 (0 ∷ 0 ∷ [])

abbrev first_pd : PageDirectory4m
first_pd = set clear 3 0x780_0087

abbrev tasks : ℕ → Option Task
tasks i = if i == 5 then some first else if i == 6 then some second else none

abbrev kernel : Kernel
kernel = record {
  sched = record {
    tasks = tasks;
    queue = 5 ∷ 6 ∷ [];
    kernel_task = 0;
    kernel_page_dir = 9;
    pmm = marked;
    kernel_stack = 0;
    current_page_dir = 9;
    closed = [];
    kfreed = [];
    deleted_dirs = [];
  };
  machine = record { dirs = λ i. if i == 7 then first_pd else clear; current = 9; memory = λ a. 0 };
}

abbrev call : (ebx ecx edx esi : ℕ) → Registers
call ebx ecx edx esi = record (segments 0x1b 0x23) { ebx = ebx; ecx = ecx; edx = edx; esi = esi }

not_owned : (j : ℕ) → used marked j ≡ false → contains (0 ∷ 30 ∷ 0 ∷ []) j ≡ false
unfolding contains
not_owned j free = elim (ℕ_discrete 0 j) [
  | yes e ↦ absurd (cc (subst (λ i. used marked i ≡ false) (sym e) free, page_0_used))
  | no n ↦ elim (ℕ_discrete 30 j) [
    | yes e ↦ absurd (cc (subst (λ i. used marked i ≡ false) (sym e) free, page_30_used))
    | no m ↦ rw (==_ne 0 j n, ==_ne 30 j m) refl
  ]
]

first-CanAlloc : CanAlloc kernel 5 first
first-CanAlloc = record {
  live = refl;
  user = refl;
  dir = refl;
  bitmap = marked-Marks.valid;
  small = omega arith;
  room = unfold contains in refl;
  owned = not_owned;
}

-- at 16MB, in the current process
abbrev at_16m : Registers
at_16m = call 0x100_0000 0 2 0

flag_2 : (has_flag 2 alloc_current ≡ true) × (has_flag 2 alloc_anon ≡ false)
unfolding has_flag
flag_2 = (refl, refl)

sys_alloc_page_lem_example :
    Returns (AllocResult kernel at_16m 5 first) (sys_alloc_page kernel at_16m)
sys_alloc_page_lem_example =
    sys_alloc_page_lem first-CanAlloc at_16m (unfold alloc_task has_flag in refl) (λ e. omega arith)

page_4_unmapped : mapping first_pd 4 ≡ none
unfolding mapping is_present
page_4_unmapped = refl

finds_page_1 : next_free_ppage marked ≡ ok (some 1)
unfolding next_free_ppage find_free_ppage byte_at first_zero initial_bitmap memset
finds_page_1 = refl

sys_unmap_page-sys_alloc_page_example :
    Returns
      (GivenBack kernel 5 first)
      (sys_alloc_page kernel at_16m >>= λ o. sys_unmap_page (o.0) (o.1))
sys_unmap_page-sys_alloc_page_example =
    sys_unmap_page-sys_alloc_page first-CanAlloc at_16m refl (omega arith) 1 (omega arith)
      page_1_free page_4_unmapped finds_page_1 (flag_2.0) (flag_2.1)

-- the page at 12MB is given to task 6, at 20MB
abbrev give : (flags : ℕ) → Registers
give flags = call 0xc0_0000 6 0x140_0000 flags

first_maps : mapping first_pd 3 ≡ some (30 * 2 ^ 22)
unfolding mapping is_present
first_maps = refl

second_unmapped : mapping clear 5 ≡ none
unfolding mapping is_present
second_unmapped = refl

gives :
    (flags : ℕ)
    → has_flag flags map_anon ≡ false
    → Gives kernel (give flags) 5 6 first second 0x140_0000 30
unfolding map_vaddr
gives flags fixed = record {
  peers = record {
    current = refl;
    other = λ e. omega arith;
    live1 = refl;
    live2 = refl;
    apart = λ e. omega arith;
    dir1 = refl;
    dir2 = refl;
  };
  handle = refl;
  chosen = rw fixed refl;
  v1 = omega arith;
  v2 = omega arith;
  inside = omega arith;
  mapped = first_maps;
  unmapped = second_unmapped;
}

sys_map_page-shares_example :
    Returns
      (λ out.
        Mapped kernel (give 0) 0x140_0000 (given 5 6 0x140_0000 30) second out
        × ((out.0).sched ≡ kernel.sched))
      (sys_map_page kernel (give 0))
sys_map_page-shares_example =
    sys_map_page-shares (gives 0 (unfold has_flag in refl)) (unfold has_flag in refl)

first-CanMove : CanMove kernel.sched 5 6 first second 30
unfolding page_is_recorded contains
first-CanMove = record {
  other = λ e. omega arith;
  live1 = refl;
  live2 = refl;
  bitmap = marked-Marks.valid;
  inside = omega arith;
  nonzero = λ e. omega arith;
  taken = page_30_used;
  has = refl;
  table = (inl refl, (inr refl, (inl refl, tt)));
  fresh = refl;
  room = refl;
}

sys_map_page-moves_example :
    Returns
      (λ out.
        Mapped kernel (give 1) 0x140_0000 (given 5 6 0x140_0000 30) second out
        × Moved kernel.sched 5 6 first second 30 ((out.0).sched))
      (sys_map_page kernel (give 1))
sys_map_page-moves_example =
    sys_map_page-moves (gives 1 (unfold has_flag in refl)) (unfold has_flag in refl) first-CanMove

sys_process_start-sys_process_create_example :
    Returns (Started kernel 5 0x9000 0x7000 0x5000 0x100_0000 0x180_0000) (
      sys_process_create kernel at_16m 0x9000 0x7000 0x5000 >>= λ (k₁, regs₁).
      sys_process_start k₁ (record regs₁ { ecx = 0x100_0000; edx = 0x180_0000 }))
sys_process_start-sys_process_create_example =
    sys_process_start-sys_process_create kernel at_16m 5 0x9000 0x7000 0x5000 0x100_0000 0x180_0000
      refl (λ e. omega arith)
