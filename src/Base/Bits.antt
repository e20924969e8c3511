-- ===== src/Base/Bits.antt =====
-- Facts about `&` and `|` at variables, from the digit recursion that the native operations mean.
use Prim.Native.Nat.{
  ℕ, zero, suc, ◌+◌, ◌-◌, ◌*◌, ◌/◌, ◌%◌, ◌^◌, ◌≤◌, ◌<◌, min, max, bit_and, bit_or, digits,
  bit_and-bitwise, bit_or-bitwise,
}
use mathlib.Core.Path.{◌≡◌, refl, sym, ap, ◌∙◌}
use mathlib.Core.Logic.{◌≢◌}
use mathlib.Core.Bool.{Bool, true, ◌&&◌}
use native.Mathlib.Omega.{arith}
use native.Mathlib.Nat.{pow-suc, mul_comm, div-div-eq-div-mul, div-add-mod}

-- A count of digits past the number itself changes nothing.
module _ (past : ℕ → ℕ) (op : ℕ → ℕ → ℕ) where
  one_more : (n a b : ℕ) → a ≤ n → digits past op (suc n) a b ≡ digits past op n a b
  one_more zero zero b h = refl
  one_more zero (suc a) b h = absurd (omega arith)
  one_more (suc n) zero b h = refl
  one_more (suc n) (suc a) b h =
      ap (λ d. d * 2 + op (suc a % 2) (b % 2)) (one_more n (suc a / 2) (b / 2) (omega arith))

  many_more : (k n a b : ℕ) → a ≤ n → digits past op (k + n) a b ≡ digits past op n a b
  many_more zero n a b h = ap (λ m. digits past op m a b) (omega arith)
  many_more (suc k) n a b h =
      let shift : suc k + n ≡ suc (k + n) = omega arith in
      rw shift (one_more (k + n) a b (omega arith) ∙ many_more k n a b h)

  exact : (n a b : ℕ) → a ≤ n → digits past op n a b ≡ digits past op a a b
  exact n a b h =
      let split : n ≡ (n - a) + a = omega arith in rw split (many_more (n - a) a a b (omega arith))

-- The lowest digit apart.
pub bit_and_low : (a b : ℕ) → bit_and a b ≡ bit_and (a / 2) (b / 2) * 2 + min (a % 2) (b % 2)
bit_and_low zero b = simp bit_and-bitwise (omega arith)
bit_and_low (suc a) b = simp bit_and-bitwise (
    ap (λ d. d * 2 + min (suc a % 2) (b % 2))
      (exact (λ _. 0) min a (suc a / 2) (b / 2) (omega arith)))

pub bit_or_low : (a b : ℕ) → bit_or a b ≡ bit_or (a / 2) (b / 2) * 2 + max (a % 2) (b % 2)
bit_or_low zero b = simp bit_or-bitwise (omega arith)
bit_or_low (suc a) b = simp bit_or-bitwise (
    ap (λ d. d * 2 + max (suc a % 2) (b % 2))
      (exact (λ x. x) max a (suc a / 2) (b / 2) (omega arith)))

and_zero_up_to : (n a : ℕ) → a ≤ n → bit_and a 0 ≡ 0
and_zero_up_to n zero h = refl
and_zero_up_to zero (suc a) h = absurd (omega arith)
and_zero_up_to (suc n) (suc a) h =
    omega (arith, bit_and_low (suc a) 0, and_zero_up_to n (suc a / 2) (omega arith))

pub bit_and-zero : (a : ℕ) → bit_and a 0 ≡ 0
bit_and-zero a = and_zero_up_to a a (omega arith)

or_zero_up_to : (n a : ℕ) → a ≤ n → bit_or a 0 ≡ a
or_zero_up_to n zero h = refl
or_zero_up_to zero (suc a) h = absurd (omega arith)
or_zero_up_to (suc n) (suc a) h =
    omega (arith, bit_or_low (suc a) 0, or_zero_up_to n (suc a / 2) (omega arith))

or_zero : (a : ℕ) → bit_or a 0 ≡ a
or_zero a = or_zero_up_to a a (omega arith)

-- `x & 1`
pub bit_and_one : (a : ℕ) → bit_and a 1 ≡ a % 2
bit_and_one a = omega (arith, bit_and_low a 1, bit_and-zero (a / 2))

-- `x & ~(2^k - 1)` forgets the low `k` bits.
pub bit_and_high : (k a m : ℕ) → bit_and a (m * 2 ^ k) ≡ bit_and (a / 2 ^ k) m * 2 ^ k
bit_and_high zero a m =
    let left : m * 1 ≡ m = omega arith in
    let right : a / 1 ≡ a = omega arith in rw (left, right) (omega arith)
bit_and_high (suc k) a m =
    let half : m * (2 ^ k * 2) / 2 ≡ m * 2 ^ k = omega arith in
    let low : min (a % 2) (m * (2 ^ k * 2) % 2) ≡ 0 = omega arith in
    let deep : a / (2 ^ k * 2) ≡ a / 2 / 2 ^ k =
      ap (λ d. a / d) (mul_comm (2 ^ k) 2) ∙ sym (div-div-eq-div-mul a 2 (2 ^ k)) in
    rw (pow-suc 2 k, deep, bit_and_low a (m * (2 ^ k * 2)), half, low, bit_and_high k (a / 2) m)
      (omega arith)

mod_twice : (p a : ℕ) → a % (2 * p) ≡ a % 2 + 2 * (a / 2 % p)
mod_twice p a =
    let deep : a / (2 * p) ≡ a / 2 / p = sym (div-div-eq-div-mul a 2 p) in
    let whole : 2 * p * (a / 2 / p) + a % (2 * p) ≡ a = rw (← deep) (div-add-mod a (2 * p)) in
    omega (arith, div-add-mod (a / 2) p)

-- `x & (2^k - 1)` is the low `k` bits.
pub bit_and_mask : (k a m : ℕ) → m + 1 ≡ 2 ^ k → bit_and a m ≡ a % 2 ^ k
bit_and_mask zero a m e =
    let none_left : m ≡ 0 = omega arith in rw none_left (bit_and-zero a ∙ omega arith)
bit_and_mask (suc k) a m e =
    let split : a % (2 * 2 ^ k) ≡ a % 2 + 2 * (a / 2 % 2 ^ k) = mod_twice (2 ^ k) a in
    let e' : m + 1 ≡ 2 * 2 ^ k = e ∙ pow-suc 2 k ∙ mul_comm (2 ^ k) 2 in
    rw (pow-suc 2 k, mul_comm (2 ^ k) 2, split, bit_and_low a m)
      (omega (arith, bit_and_mask k (a / 2) (m / 2) (omega arith)))

-- `|` of bits that do not overlap is a sum.
pub bit_or_add : (k a b : ℕ) → b < 2 ^ k → bit_or (a * 2 ^ k) b ≡ a * 2 ^ k + b
bit_or_add zero a b h =
    let none_left : b ≡ 0 = omega arith in rw none_left (or_zero (a * 1) ∙ omega arith)
bit_or_add (suc k) a b h =
    let half : a * (2 ^ k * 2) / 2 ≡ a * 2 ^ k = omega arith in
    let low : max (a * (2 ^ k * 2) % 2) (b % 2) ≡ b % 2 = omega arith in
    let h' : b < 2 ^ k * 2 = rw (pow-suc 2 k) at h in
    rw (pow-suc 2 k, bit_or_low (a * (2 ^ k * 2)) b, half, low)
      (omega (arith, bit_or_add k a (b / 2) (omega arith)))

-- Over a small range, every value is checked by evaluation.
unfoldable pub all_below : ℕ → (ℕ → Bool) → Bool
all_below zero p = true
all_below (suc n) p = p n && all_below n p

pub all_below_lem : (n : ℕ) (p : ℕ → Bool) (x : ℕ) → all_below n p ≡ true → x < n → p x ≡ true
unfolding all_below
all_below_lem zero p x h lt = absurd (omega arith)
all_below_lem (suc n) p x h lt = ground (arith, all_below_lem n p x)

pub zero-bit_and : (b : ℕ) → bit_and 0 b ≡ 0
zero-bit_and b = bit_and-bitwise 0 b

-- The mask of the high ten of 32 bits.
pub bit_and_page : (y : ℕ) → y < 2 ^ 32 → bit_and y 0xffc0_0000 ≡ y / 2 ^ 22 * 2 ^ 22
bit_and_page y h =
    bit_and_high 22 y 1023
    ∙ ap (λ (d : ℕ). d * 2 ^ 22) (bit_and_mask 10 (y / 2 ^ 22) 1023 refl ∙ omega arith)

pub pow_pos : (k : ℕ) → 0 < 2 ^ k
pow_pos zero = omega arith
pow_pos (suc k) = omega (arith, pow-suc 2 k, pow_pos k)

bit_and-bit_or_up_to : (n a b c : ℕ) → a ≤ n → b ≤ n → bit_and (bit_or a b) c ≡ 0 → bit_and b c ≡ 0
bit_and-bit_or_up_to zero a b c ha hb e = let z : b ≡ 0 = omega arith in rw z (zero-bit_and c)
bit_and-bit_or_up_to (suc n) a b c ha hb e =
    let half : bit_or a b / 2 ≡ bit_or (a / 2) (b / 2) = omega (arith, bit_or_low a b) in
    let low : bit_or a b % 2 ≡ max (a % 2) (b % 2) = omega (arith, bit_or_low a b) in
    let split : bit_and (bit_or a b / 2) (c / 2) * 2 + min (bit_or a b % 2) (c % 2) ≡ 0 =
      sym (bit_and_low (bit_or a b) c) ∙ e in
    let high : bit_and (bit_or a b / 2) (c / 2) ≡ 0 = omega arith in
    let rest : bit_and (b / 2) (c / 2) ≡ 0 =
      bit_and-bit_or_up_to n (a / 2) (b / 2) (c / 2) (omega arith) (omega arith)
        (rw half at high) in
    omega (arith, bit_and_low b c)

-- What meets one part of a disjunction meets the disjunction.
pub bit_and-bit_or_right : (a b c : ℕ) → bit_and b c ≢ 0 → bit_and (bit_or a b) c ≢ 0
bit_and-bit_or_right a b c ne e =
    ne (bit_and-bit_or_up_to (a + b) a b c (omega arith) (omega arith) e)
