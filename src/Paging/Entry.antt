-- ===== src/Paging/Entry.antt =====
-- Page directory entries of kernel/paging.cpp: the address and the flags of one word.
use yet_another_project_i_ll.Base.{
  all_below, all_below_lem, ap, arith, bit_and, bit_and_high, bit_and_one, bit_and_page, bit_or,
  bit_or_add, false, ltb, refl, true, ℕ, ◌%◌, ◌&&◌, ◌*◌, ◌+◌, ◌/◌, ◌<◌, ◌==◌, ◌^◌, ◌∙◌, ◌≡◌,
}
use yet_another_project_i_ll.Paging.{is_present, make_pde, pg_global, page_mask_4m}

flags_table : all_below 256 (λ f. ltb (bit_or 0x83 f) 256 && bit_or 0x83 f % 2 == 1) ≡ true
unfolding all_below
flags_table = refl

flags_fit : (f : ℕ) → f < 256 → (bit_or 0x83 f < 256) × (bit_or 0x83 f % 2 ≡ 1)
flags_fit f h = ground (arith, all_below_lem 256 _ f flags_table h)

-- The entry of an aligned page is the sum of its address and its flags.
make_pde_lem :
    (paddr f : ℕ) → paddr % 2 ^ 22 ≡ 0 → f < 256 → make_pde paddr f ≡ paddr + bit_or 0x83 f
unfolding make_pde
make_pde_lem paddr f aligned h =
    let at : paddr ≡ paddr / 2 ^ 22 * 2 ^ 22 = omega arith in
    ap (λ (p : ℕ). bit_or p (bit_or 0x83 f)) at
    ∙ bit_or_add 22 (paddr / 2 ^ 22) (bit_or 0x83 f) (omega (arith, flags_fit f h))
    ∙ omega arith

pub is_present_lem : (pde : ℕ) → is_present pde ≡ (pde % 2 == 1)
unfolding is_present
is_present_lem pde = rw (bit_and_one pde) (ground arith)

pub is_present-zero : is_present 0 ≡ false
unfolding is_present
is_present-zero = refl

module _ (paddr f : ℕ) (aligned : paddr % 2 ^ 22 ≡ 0) (h : f < 256) where
  -- The entry is present, its address part is `paddr`, and its global bit is clear.
  pub is_present-make_pde : is_present (make_pde paddr f) ≡ true
  is_present-make_pde =
      rw (is_present_lem, make_pde_lem paddr f aligned h) (ground (arith, flags_fit f h))

  pub bit_and-make_pde : paddr < 2 ^ 32 → bit_and (make_pde paddr f) page_mask_4m ≡ paddr
  bit_and-make_pde fits = rw (make_pde_lem paddr f aligned h) (
      bit_and_page (paddr + bit_or 0x83 f) (omega (arith, flags_fit f h))
      ∙ omega (arith, flags_fit f h))

  pub global-make_pde : bit_and (make_pde paddr f) pg_global ≡ 0
  global-make_pde = rw (make_pde_lem paddr f aligned h) (
      bit_and_high 8 (paddr + bit_or 0x83 f) 1
      ∙ omega (arith, bit_and_one ((paddr + bit_or 0x83 f) / 2 ^ 8), flags_fit f h))
