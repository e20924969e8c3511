-- ===== src/Paging/Tests.antt =====
-- Runs of kernel/paging.cpp on concrete page directories, and the theorems at concrete inputs.
use yet_another_project_i_ll.Base.{
  ℕ, ◌+◌, ◌/◌, ◌%◌, ◌^◌, ◌≡◌, refl, inl, inr, false, Option, none, some, arith, ◌==◌, if◌then◌else◌,
  Bool-cases, length, set, ok, abort, Returns,
}
use yet_another_project_i_ll.Paging.{
  PageDirectory4m, clear, is_present, get_pde, map_page, vaddr_is_mapped, get_num_free_vpages,
  find_free, get_next_free_page, get_physical_addr, inspect_physical_mem,
}
use yet_another_project_i_ll.Paging.Map.{mapping}
use yet_another_project_i_ll.Paging.Search.{inspect_physical_mem_aborts}
use yet_another_project_i_ll.Paging.Machine.{Machine, memcpy_across}
use yet_another_project_i_ll.Paging.Machine.TempMap.{Walks, OnPage}
use yet_another_project_i_ll.Paging.Machine.Across.{Transfers, memcpy_across_lem}

-- virtual page 0 mapped to the second physical page, with user access
abbrev kernel_pd : PageDirectory4m
kernel_pd = set clear 0 0x40_0087

abbrev user_pd : PageDirectory4m
user_pd = set clear 1 0x80_0087

lookups :
    (get_physical_addr kernel_pd 0 ≡ ok 0x40_0000)
    × (vaddr_is_mapped kernel_pd 0x40_0000 ≡ ok false)
    × (get_physical_addr kernel_pd 0x40_0000 ≡ abort)
    × (get_next_free_page kernel_pd 0 ≡ some 1)
    × (get_num_free_vpages kernel_pd ≡ 1023)
unfolding get_physical_addr vaddr_is_mapped get_pde is_present get_next_free_page find_free
    get_num_free_vpages
lookups = (refl, refl, refl, refl, refl)

inspecting_fails : inspect_physical_mem kernel_pd 0 16 ≡ abort
unfolding inspect_physical_mem get_next_free_page find_free is_present map_page get_pde
inspecting_fails = refl

free_3 : mapping kernel_pd 3 ≡ none
unfolding mapping is_present
free_3 = refl

mapped_0 : mapping kernel_pd 0 ≡ some 0x40_0000
unfolding mapping is_present
mapped_0 = refl

inspect_physical_mem_aborts_example : inspect_physical_mem kernel_pd 0x1000 0x2000 ≡ abort
inspect_physical_mem_aborts_example =
    inspect_physical_mem_aborts kernel_pd 0x1000 0x2000 (λ e. cc mapped_0)

-- Address spaces 1, the current one, and 2.
abbrev machine : Machine
machine = record {
  dirs = λ i. if i == 1 then kernel_pd else user_pd;
  current = 1;
  memory = λ a. a % 256;
}

abbrev walk : PageDirectory4m → ℕ → Option ℕ
walk pd vaddr = elim (mapping pd (vaddr / 2 ^ 22)) [
  | none ↦ none
  | some page ↦ some (page + vaddr % 2 ^ 22)
]

walk-Walks : Walks walk
walk-Walks pd vaddr page e = ground arith

sizes : (i : ℕ) → length (machine.dirs i) ≡ 1024
sizes i = elim (Bool-cases (i == 1)) [ inl e ↦ rw e | inr e ↦ rw e ]

user_on : OnPage (machine.dirs 2) 0x40_0010 4 0x80_0000
unfolding mapping is_present
user_on = record { maps = refl; fits = omega arith; word = omega arith }

kernel_on : OnPage (machine.dirs 1) 0x100 4 0x40_0000
kernel_on = record { maps = mapped_0; fits = omega arith; word = omega arith }

free_4 : mapping kernel_pd 4 ≡ none
unfolding mapping is_present
free_4 = refl

-- four bytes from the user's page to the kernel's
memcpy_across_lem_example :
    Returns
      (Transfers machine 0x40_0100 0x80_0010 4)
      (memcpy_across walk machine 2 1 0x40_0010 0x100 4)
memcpy_across_lem_example =
    memcpy_across_lem walk machine 2 1 0x40_0010 0x100 4 0x80_0000 0x40_0000 3 4 walk-Walks sizes
      user_on kernel_on (omega arith) (omega arith) (inl (omega arith)) (omega arith) (omega arith)
      (omega arith) free_3 free_4
