-- ===== src/Pmm/Byte.antt =====
-- One byte of the bitmap: what the bit operations of kernel/pmm.cpp do to its eight bits.
-- A byte has 256 values, so each fact is checked at every one of them.
use yet_another_project_i_ll.Base.{
  ℕ, zero, suc, ◌+◌, ◌-◌, ◌^◌, ◌<◌, ◌≡◌, refl, Bool, true, false, not, ◌&&◌, ◌||◌, arith, ltb, ◌==◌,
  if◌then◌else◌, ==_iff, all_below, all_below_lem, zero-bit_and,
}
use yet_another_project_i_ll.Pmm.{
  test_bit, set_bit, clear_bit, num_zero_bits, count_ones, first_zero,
}

-- Two truth values agree.
abbrev same : Bool → Bool → Bool
same true b = b
same false b = not b

same_eq : (a b : Bool) → same a b ≡ true → a ≡ b
same_eq true true h = refl
same_eq true false h = absurd (ground arith)
same_eq false true h = absurd (ground arith)
same_eq false false h = refl

both_below :
    (n m : ℕ) (p : ℕ → ℕ → Bool)
    → all_below n (λ x. all_below m (p x)) ≡ true
    → (x k : ℕ) → x < n
    → k < m
    → p x k ≡ true
both_below n m p h x k hx hk =
    all_below_lem m (p x) k (all_below_lem n (λ x. all_below m (p x)) x h hx) hk

three_below :
    (n m : ℕ) (p : ℕ → ℕ → ℕ → Bool)
    → all_below n (λ x. all_below m (λ k. all_below m (p x k))) ≡ true
    → (x k j : ℕ) → x < n
    → k < m
    → j < m
    → p x k j ≡ true
three_below n m p h x k j hx hk hj =
    all_below_lem m (p x k) j (both_below n m (λ x k. all_below m (p x k)) h x k hx hk) hj

set_table :
    all_below 256 (λ x. all_below 8 (λ k.
      all_below 8 (λ j. same (test_bit (set_bit x k) j) (if j == k then true else test_bit x j))))
    ≡ true
unfolding all_below test_bit set_bit
set_table = refl

pub test_bit-set_bit :
    (x k j : ℕ)
    → x < 256
    → k < 8
    → j < 8
    → test_bit (set_bit x k) j ≡ (if j == k then true else test_bit x j)
test_bit-set_bit x k j hx hk hj = same_eq _ _ (three_below 256 8 _ set_table x k j hx hk hj)

clear_table :
    all_below 256 (λ x. all_below 8 (λ k.
      all_below 8
        (λ j. same (test_bit (clear_bit x k) j) (if j == k then false else test_bit x j))))
    ≡ true
unfolding all_below test_bit clear_bit
clear_table = refl

pub test_bit-clear_bit :
    (x k j : ℕ)
    → x < 256
    → k < 8
    → j < 8
    → test_bit (clear_bit x k) j ≡ (if j == k then false else test_bit x j)
test_bit-clear_bit x k j hx hk hj = same_eq _ _ (three_below 256 8 _ clear_table x k j hx hk hj)

range_table :
    all_below 256 (λ x. all_below 8 (λ k. ltb (set_bit x k) 256 && ltb (clear_bit x k) 256)) ≡ true
unfolding all_below set_bit clear_bit
range_table = refl

pub set_bit-lt : (x k : ℕ) → x < 256 → k < 8 → set_bit x k < 256
set_bit-lt x k hx hk = ground (arith, both_below 256 8 _ range_table x k hx hk)

pub clear_bit-lt : (x k : ℕ) → x < 256 → k < 8 → clear_bit x k < 256
clear_bit-lt x k hx hk = ground (arith, both_below 256 8 _ range_table x k hx hk)

undo_table :
    all_below 256 (λ x. all_below 8 (λ k. test_bit x k || clear_bit (set_bit x k) k == x)) ≡ true
unfolding all_below set_bit clear_bit test_bit
undo_table = refl

pub clear_bit-set_bit :
    (x k : ℕ) → x < 256 → k < 8 → test_bit x k ≡ false → clear_bit (set_bit x k) k ≡ x
clear_bit-set_bit x k hx hk h = ground (arith, both_below 256 8 _ undo_table x k hx hk)

-- How many of the `n` lowest bits are zero.
unfoldable pub zeros_below : ℕ → ℕ → ℕ
zeros_below x zero = 0
zeros_below x (suc n) = zeros_below x n + (if test_bit x n then 0 else 1)

zeros_table : all_below 256 (λ x. num_zero_bits x == zeros_below x 8) ≡ true
unfolding all_below num_zero_bits count_ones zeros_below test_bit
zeros_table = refl

pub num_zero_bits_lem : (x : ℕ) → x < 256 → num_zero_bits x ≡ zeros_below x 8
num_zero_bits_lem x h = (==_iff _ _).0 (all_below_lem 256 _ x zeros_table h)

first_table :
    all_below 255 (λ x.
      ltb (first_zero 8 x 0) 8
      && not (test_bit x (first_zero 8 x 0))
      && all_below 8 (λ j. if ltb j (first_zero 8 x 0) then test_bit x j else true))
    ≡ true
unfolding all_below first_zero test_bit
first_table = refl

pub first_zero_lem :
    (x : ℕ) → x < 255 → (first_zero 8 x 0 < 8) × (test_bit x (first_zero 8 x 0) ≡ false)
first_zero_lem x h = ground (arith, all_below_lem 255 _ x first_table h)

pub first_zero_least : (x j : ℕ) → x < 255 → j < first_zero 8 x 0 → test_bit x j ≡ true
first_zero_least x j h hj = ground (
  arith,
  all_below_lem 255 _ x first_table h,
  all_below_lem 8 (λ j. if ltb j (first_zero 8 x 0) then test_bit x j else true) j,
)

full_table : all_below 8 (λ j. test_bit 255 j) ≡ true
unfolding all_below test_bit
full_table = refl

pub test_bit_full : (j : ℕ) → j < 8 → test_bit 255 j ≡ true
test_bit_full j h = all_below_lem 8 _ j full_table h

edge_table :
    all_below 8 (λ k. all_below 8 (λ j. same (test_bit (256 - 2 ^ k) j) (not (ltb j k)))) ≡ true
unfolding all_below test_bit
edge_table = refl

-- The bits of `~((1 << k) - 1)`.
pub test_bit_edge : (k j : ℕ) → k < 8 → j < 8 → test_bit (256 - 2 ^ k) j ≡ not (ltb j k)
test_bit_edge k j hk hj = same_eq _ _ (both_below 8 8 _ edge_table k j hk hj)

pub test_bit-zero : (j : ℕ) → test_bit 0 j ≡ false
unfolding test_bit
test_bit-zero j = rw (zero-bit_and (2 ^ j))
