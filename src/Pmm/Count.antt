-- ===== src/Pmm/Count.antt =====
-- `GetNumFree4MPages` and `GetNumUsed4MPages` of kernel/pmm.cpp count marks.
use yet_another_project_i_ll.Base.{
  Bool-cases, Returns, ap, arith, false, get_or, if◌then◌else◌, inl, inr, le→leb, ok, refl, suc,
  true, zero, ℕ, ◌%◌, ◌*◌, ◌+◌, ◌-◌, ◌/◌, ◌<◌, ◌==◌, ◌≡◌, ◌≢◌, ◌≤◌,
}
use yet_another_project_i_ll.Pmm.{
  Pmm, num_zero_bits, sum_zero_bits, get_num_free_4m_pages, get_num_used_4m_pages, test_bit,
}
use yet_another_project_i_ll.Pmm.Byte.{num_zero_bits_lem, zeros_below}
use yet_another_project_i_ll.Pmm.Pages.{IsBitmap, used, byte_at_lem}

-- How many of the pages below `n` are free.
unfoldable pub free_below : Pmm → ℕ → ℕ
free_below p zero = 0
free_below p (suc n) = free_below p n + (if used p n then 0 else 1)

free_below-le : (p : Pmm) (n : ℕ) → free_below p n ≤ n
unfolding free_below
free_below-le p zero = omega arith
free_below-le p (suc n) = ground (arith, free_below-le p n)

free_below-suc :
    (p : Pmm) (n : ℕ) → free_below p (suc n) ≡ free_below p n + (if used p n then 0 else 1)
unfolding free_below
free_below-suc p n = refl

used_byte : (p : Pmm) (i k : ℕ) → k < 8 → used p (i * 8 + k) ≡ test_bit (get_or p.bitmap i 0) k
unfolding used
used_byte p i k h =
    let at : (i * 8 + k) / 8 ≡ i = omega arith in
    let bit : (i * 8 + k) % 8 ≡ k = omega arith in rw (at, bit)

free_below-byte :
    (p : Pmm) (i k : ℕ)
    → k ≤ 8
    → free_below p (i * 8 + k) ≡ free_below p (i * 8) + zeros_below (get_or p.bitmap i 0) k
unfolding zeros_below
free_below-byte p i zero h = let e : i * 8 + 0 ≡ i * 8 = omega arith in rw e (omega arith)
free_below-byte p i (suc k) h =
    let next : i * 8 + suc k ≡ suc (i * 8 + k) = omega arith in
    rw (next, free_below-suc, used_byte p i k (omega arith))
      (ground (arith, free_below-byte p i k (omega arith)))

-- Pages from `lo` on, all used, add nothing.
free_below-used :
    (p : Pmm) (lo n : ℕ)
    → ((j : ℕ) → lo ≤ j → j < lo + n → used p j ≡ true)
    → free_below p (lo + n) ≡ free_below p lo
free_below-used p lo zero h = let e : lo + 0 ≡ lo = omega arith in rw e
free_below-used p lo (suc n) h =
    let next : lo + suc n ≡ suc (lo + n) = omega arith in
    rw (next, free_below-suc, h (lo + n) (omega arith) (omega arith))
      (omega (arith, free_below-used p lo n (λ j a b. h j a (omega arith))))

pub free_below-all : (p : Pmm) (n : ℕ) → ((j : ℕ) → j < n → used p j ≡ false) → free_below p n ≡ n
free_below-all p zero h = unfold free_below in refl
free_below-all p (suc n) h =
    rw (free_below-suc, h n (omega arith))
      (omega (arith, free_below-all p n (λ j a. h j (omega arith))))

module _ {p : Pmm} (v : IsBitmap p) where
  sum_zero_bits_lem :
      (rounds i num : ℕ)
      → i + rounds ≤ 128
      → num ≡ free_below p (i * 8)
      → sum_zero_bits p rounds i num ≡ ok (free_below p ((i + rounds) * 8))
  unfolding sum_zero_bits
  sum_zero_bits_lem zero i num h e = let n : (i + 0) * 8 ≡ i * 8 = omega arith in rw (n, e)
  sum_zero_bits_lem (suc rounds) i num h e =
      let shift : (i + suc rounds) * 8 ≡ (i + 1 + rounds) * 8 = omega arith in
      let step : (i + 1) * 8 ≡ i * 8 + 8 = omega arith in
      rw (byte_at_lem v i (omega arith), shift)
        (sum_zero_bits_lem rounds (i + 1) _ (omega arith) (
          rw step
            (omega (arith, free_below-byte p i 8 (omega arith), num_zero_bits_lem _ (v.bytes i)))))

module _ {p : Pmm} (v : IsBitmap p) (h : p.num_4m_pages ≤ 1024)
    (rest : (j : ℕ) → p.num_4m_pages ≤ j → j < 1024 → used p j ≡ true) where
  -- The last byte counts as far as there are pages.
  last_byte :
      p.num_4m_pages % 8 ≢ 0
      → free_below p ((0 + p.num_4m_pages / 8) * 8)
          + num_zero_bits (get_or p.bitmap (p.num_4m_pages / 8) 0)
        ≡ free_below p p.num_4m_pages
  last_byte ne =
      let n : ℕ = p.num_4m_pages in
      let m : (0 + n / 8) * 8 ≡ n / 8 * 8 = omega arith in
      let past : n + (8 - n % 8) ≡ n / 8 * 8 + 8 = omega arith in
      let tail : free_below p (n / 8 * 8 + 8) ≡ free_below p n =
        rw past at (free_below-used p n (8 - n % 8) (λ j a b. rest j a (omega arith))) in
      rw m (
        omega (
          arith,
          tail,
          free_below-byte p (n / 8) 8 (omega arith),
          num_zero_bits_lem _ (v.bytes (n / 8)),
        ))

  -- With every page that is not there marked as used, `GetNumFree4MPages` is the number of free
  -- pages.
  pub get_num_free_4m_pages_lem : get_num_free_4m_pages p ≡ ok (free_below p p.num_4m_pages)
  unfolding get_num_free_4m_pages free_below
  get_num_free_4m_pages_lem =
      let n : ℕ = p.num_4m_pages in
      rw (sum_zero_bits_lem v (n / 8) 0 0 (omega arith) refl) (elim (Bool-cases (n % 8 == 0)) [
        | inl whole ↦
            rw whole (let e : (0 + n / 8) * 8 ≡ n = ground arith in ap (λ k. ok (free_below p k)) e)
        | inr part ↦
            rw (part, byte_at_lem v (n / 8) (ground arith)) (ap ok (last_byte (ground arith)))
      ])

  -- `GetNumUsed4MPages` passes its assertion and makes up the rest.
  pub get_num_used_4m_pages_lem :
      Returns (λ n. n + free_below p p.num_4m_pages ≡ p.num_4m_pages) (get_num_used_4m_pages p)
  unfolding get_num_used_4m_pages
  get_num_used_4m_pages_lem =
      rw (get_num_free_4m_pages_lem, le→leb _ _ (free_below-le p p.num_4m_pages))
        (omega (arith, free_below-le p p.num_4m_pages))
