-- ===== src/String/Tests.antt =====
-- Runs of libc/string.cpp on a small memory, and the theorems at concrete inputs.
use yet_another_project_i_ll.Base.{
  ℕ, zero, suc, ◌+◌, ◌-◌, ◌<◌, ◌≡◌, refl, ◌≢◌, inr, Bool, false, none, some, List, [], ◌∷◌, arith,
  leb, ◌==◌, if◌then◌else◌, pos, negsuc, ◌-ℤ◌, ok, Returns,
}
use yet_another_project_i_ll.String.{
  Memory, store, schar, Allocator, memmove, strncpy, strncmp_loop, strncmp, strcmp, memcmp,
  match_from, strstr_loop, strstr, strchr,
}
use yet_another_project_i_ll.String.Move.{Serves, memmove_lem}
use yet_another_project_i_ll.String.Scan.{memcmp_equal}
use yet_another_project_i_ll.String.Strcpy.{Copies, strncpy_lem}

-- "ab" at 10, "ac" at 20, and sevens everywhere else
abbrev memory : Memory
memory a =
    if a == 10
    then b'a'
    else if a == 11
    then b'b'
    else if a == 12
    then 0
    else if a == 20
    then b'a'
    else if a == 21
    then b'c'
    else if a == 22
    then 0
    else 7

searches :
    (strstr 5 memory 10 11 ≡ ok (some 11))
    × (strstr 5 memory 10 20 ≡ ok none)
    × (strchr 5 memory 10 0 ≡ ok (some 12))
    × (strncmp 5 memory 10 20 1 ≡ ok (pos 0))
    × (strncmp 5 memory 10 20 2 ≡ ok (negsuc 0))
    × (strcmp 5 memory 10 20 ≡ ok (negsuc 0))
unfolding strstr strstr_loop match_from strchr strncmp strncmp_loop strcmp schar
searches = (refl, refl, refl, refl, refl, refl)

-- one equal byte, and the bytes behind it differ
memcmp_reads_on : memcmp memory 10 20 1 ≡ negsuc 0
unfolding memcmp
memcmp_reads_on = refl

memcmp_equal_example : memcmp memory 10 20 1 ≡ pos (memory 11) -ℤ pos (memory 21)
memcmp_equal_example = memcmp_equal 1 memory 10 20 one
  where
    one : (i : ℕ) → i < 1 → memory (10 + i) ≡ memory (20 + i)
    one zero h = refl
    one (suc i) h = absurd (omega arith)

abbrev word_ab : List ℕ
word_ab = b'a' ∷ b'b' ∷ []

abbrev word_ac : List ℕ
word_ac = b'a' ∷ b'c' ∷ []

-- The source and the destination overlap.
-- An allocator with a header of a byte in front of its block
abbrev a_heap : Allocator
a_heap = record { malloc = λ m n. (store m 99 n, 100); free = λ m a. store m (a - 1) 0 }

abbrev from_99 : ℕ → Bool
from_99 a = leb 99 a

a_heap-Serves : Serves a_heap memory 3 from_99
a_heap-Serves = record {
  block = λ i h. ground arith;
  malloc_keeps = λ a other. unfold store in ground arith;
  free_keeps = λ m a other. unfold store in ground arith;
}

memmove_lem_example :
    ((i : ℕ) → i < 3 → memmove a_heap memory 11 10 3 (11 + i) ≡ memory (10 + i))
    × ((a : ℕ)
        → ((i : ℕ) → i < 3 → a ≢ 11 + i)
        → from_99 a ≡ false
        → memmove a_heap memory 11 10 3 a ≡ memory a)
memmove_lem_example =
    memmove_lem a_heap memory 11 10 3 from_99 a_heap-Serves (λ i h. ground arith)
      (λ i h. ground arith)

strncpy_lem_example : Returns (Copies memory 30 4 word_ab) (strncpy 5 memory 30 10 4)
strncpy_lem_example =
    strncpy_lem word_ab 5 memory 30 10 4 (omega arith) (omega arith) (inr (omega arith))
