-- ===== src/Pmm/Pages.antt =====
-- The abstract view of the bitmap of kernel/pmm.cpp, a truth value for each page, and what
-- `PageIsUsed`, `SetPageUsed` and `SetPageFree` do to it.
use yet_another_project_i_ll.Base.{
  Bool, List, Returns, abort, ap, arith, false, get_or, get_or-set_ne, get_or-set_self,
  if◌then◌else◌, length, length-set, le→leb, lt→ltb, ok, refl, set, set-get_or, set-set, sym, true,
  ℕ, ◌%◌, ◌/◌, ◌<◌, ◌==◌, ◌>>=◌, ◌∙◌, ◌≡◌, ◌≢◌,
}
use native.Mathlib.Decide.{ℕ_discrete}
use yet_another_project_i_ll.Pmm.{
  Pmm, char_bit, test_bit, set_bit, clear_bit, byte_at, page_is_used, set_page_used, set_page_free,
}
use yet_another_project_i_ll.Pmm.Byte.{
  test_bit-set_bit, test_bit-clear_bit, set_bit-lt, clear_bit-lt, clear_bit-set_bit,
}

-- The bitmap is the array of 128 bytes that the source declares.
pub record IsBitmap (p : Pmm) : Type 0 where
  pub size : length p.bitmap ≡ 128
  pub bytes : (i : ℕ) → get_or p.bitmap i 0 < 256

-- Page `page` is marked in the bitmap.
unfoldable pub used : Pmm → ℕ → Bool
used p page = test_bit (get_or p.bitmap (page / char_bit) 0) (page % char_bit)

-- `q` is `p` with the mark of one page changed.
pub record Marks (p : Pmm) (page : ℕ) (mark : Bool) (q : Pmm) : Type 0 where
  pub valid : IsBitmap q
  pub pages : q.num_4m_pages ≡ p.num_4m_pages
  pub marks : (j : ℕ) → used q j ≡ (if j == page then mark else used p j)

abbrev with_byte : Pmm → ℕ → ℕ → Pmm
with_byte p i v = record p { bitmap = set p.bitmap i v }

module _ {p : Pmm} (v : IsBitmap p) where
  pub byte_at_lem : (i : ℕ) → i < 128 → byte_at p i ≡ ok (get_or p.bitmap i 0)
  unfolding byte_at
  byte_at_lem i h = rw (v.size, lt→ltb i 128 h)

  pub page_is_used_lem : (page : ℕ) → page < 1024 → page_is_used p page ≡ ok (used p page)
  unfolding page_is_used used
  page_is_used_lem page h =
      rw (le→leb page 1024 (omega arith), byte_at_lem (page / 8) (omega arith))

  set-byte : (i x j : ℕ) → i < 128 → x < 256 → get_or (set p.bitmap i x) j 0 < 256
  set-byte i x j hi hx = elim (ℕ_discrete i j) [
    | yes e ↦ rw (← e, get_or-set_self p.bitmap i x 0 (rw v.size hi)) hx
    | no ne ↦ rw (get_or-set_ne p.bitmap i j x 0 ne) (v.bytes j)
  ]

  with_byte-IsBitmap : (i x : ℕ) → i < 128 → x < 256 → IsBitmap (with_byte p i x)
  with_byte-IsBitmap i x hi hx = record {
    size = length-set p.bitmap i x ∙ v.size;
    bytes = λ j. set-byte i x j hi hx;
  }

  used-with_byte_same :
      (i x j : ℕ) → i < 128 → j / 8 ≡ i → used (with_byte p i x) j ≡ test_bit x (j % 8)
  unfolding used
  used-with_byte_same i x j h e = rw (e, get_or-set_self p.bitmap i x 0 (rw v.size h))

  used-with_byte_ne : (i x j : ℕ) → i ≢ j / 8 → used (with_byte p i x) j ≡ used p j
  unfolding used
  used-with_byte_ne i x j e = rw (get_or-set_ne p.bitmap i (j / 8) x 0 e)

  -- Changing one bit of the right byte changes one mark.
  with_byte-Marks :
      (page x : ℕ) (mark : Bool)
      → page < 1024
      → x < 256
      → ((k : ℕ)
          → k < 8
          → test_bit x k
            ≡ (if k == page % 8 then mark else test_bit (get_or p.bitmap (page / 8) 0) k))
      → Marks p page mark (with_byte p (page / 8) x)
  unfolding used
  with_byte-Marks page x mark h hx bits = record {
    valid = with_byte-IsBitmap (page / 8) x (omega arith) hx;
    pages = refl;
    marks = λ j. elim (ℕ_discrete (page / 8) (j / 8)) [
      | yes e ↦
          used-with_byte_same (page / 8) x j (omega arith) (sym e)
          ∙ bits (j % 8) (omega arith)
          ∙ ground arith
      | no ne ↦ used-with_byte_ne (page / 8) x j ne ∙ ground arith
    ];
  }

  -- On a free page below 1024 `SetPageUsed` passes its assertions, marks that page and changes no
  -- other mark.
  pub set_page_used_lem :
      (page : ℕ)
      → page < 1024
      → used p page ≡ false
      → Returns (Marks p page true) (set_page_used p page)
  unfolding set_page_used used
  set_page_used_lem page h free =
      rw (page_is_used_lem page h, free, byte_at_lem (page / 8) (omega arith))
        (with_byte-Marks page _ true h (set_bit-lt _ (page % 8) (v.bytes _) (omega arith))
          (λ k hk. test_bit-set_bit _ (page % 8) k (v.bytes _) (omega arith) hk))

  -- On a used page below 1024 `SetPageFree` passes its assertions, clears that mark and no other.
  pub set_page_free_lem :
      (page : ℕ)
      → page < 1024
      → used p page ≡ true
      → Returns (Marks p page false) (set_page_free p page)
  unfolding set_page_free used
  set_page_free_lem page h taken =
      rw (page_is_used_lem page h, taken, byte_at_lem (page / 8) (omega arith))
        (with_byte-Marks page _ false h (clear_bit-lt _ (page % 8) (v.bytes _) (omega arith))
          (λ k hk. test_bit-clear_bit _ (page % 8) k (v.bytes _) (omega arith) hk))

  -- Marking a page twice, or freeing a free one, stops the kernel.
  pub set_page_used_twice :
      (page : ℕ) → page < 1024 → used p page ≡ true → set_page_used p page ≡ abort
  unfolding set_page_used
  set_page_used_twice page h taken = rw (page_is_used_lem page h, taken)

  pub set_page_free_twice :
      (page : ℕ) → page < 1024 → used p page ≡ false → set_page_free p page ≡ abort
  unfolding set_page_free
  set_page_free_twice page h free = rw (page_is_used_lem page h, free)

-- `SetPageFree` after `SetPageUsed` gives back the very same bitmap.
pub set_page_free-set_page_used :
    {p : Pmm} (v : IsBitmap p) (page : ℕ)
    → page < 1024
    → used p page ≡ false
    → (set_page_used p page >>= λ q. set_page_free q page) ≡ ok p
unfolding set_page_used set_page_free used
set_page_free-set_page_used {p} v page h free =
    let i : ℕ = page / 8 in
    let x : ℕ = get_or p.bitmap i 0 in
    let y : ℕ = set_bit x (page % 8) in
    let hi : i < 128 = omega arith in
    let hy : y < 256 = set_bit-lt x (page % 8) (v.bytes i) (omega arith) in
    let w : IsBitmap (with_byte p i y) = with_byte-IsBitmap v i y hi hy in
    let stored : get_or (set p.bitmap i y) i 0 ≡ y =
      get_or-set_self p.bitmap i y 0 (rw v.size hi) in
    let taken : test_bit y (page % 8) ≡ true =
      test_bit-set_bit x (page % 8) (page % 8) (v.bytes i) (omega arith) (omega arith)
      ∙ ground arith in
    let undone : set (set p.bitmap i y) i (clear_bit y (page % 8)) ≡ p.bitmap =
      rw (set-set, clear_bit-set_bit x (page % 8) (v.bytes i) (omega arith) free)
        (set-get_or p.bitmap i 0 (rw v.size hi)) in
    rw
      (
        page_is_used_lem v page h,
        free,
        byte_at_lem v i hi,
        page_is_used_lem w page h,
        stored,
        taken,
        byte_at_lem w i hi,
        stored,
      )
      (ap (λ (b : List ℕ). ok (record p { bitmap = b })) undone)
