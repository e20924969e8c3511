-- ===== src/Pmm/Boot.antt =====
-- `pmm::Initialize` of kernel/pmm.cpp: what the bitmap is at boot, and for which amounts of memory
-- the kernel gets past its assertions.
use yet_another_project_i_ll.Base.{
  ℕ, zero, suc, ◌+◌, ◌-◌, ◌*◌, ◌/◌, ◌%◌, ◌^◌, ◌≤◌, ◌<◌, ◌≡◌, refl, sym, ap, ◌∙◌, not, List, [], ◌∷◌,
  arith, ltb, ◌==◌, if◌then◌else◌, le→leb, ==_refl, ==_ne, length, get_or, set, length-set,
  get_or-set_self, get_or-set_ne, ok, abort, Returns, bit_and_page, pow_pos,
}
use native.Mathlib.Decide.{dec_lt, ℕ_discrete}
use yet_another_project_i_ll.Pmm.{
  page_size_4m, num_page_dir_entries, Pmm, memset, initial_bitmap, round_up_4m, initialize,
  get_num_free_4m_pages,
}
use yet_another_project_i_ll.Pmm.Byte.{test_bit_full, test_bit_edge, test_bit-zero}
use yet_another_project_i_ll.Pmm.Pages.{IsBitmap, used}
use yet_another_project_i_ll.Pmm.Count.{free_below-all, get_num_free_4m_pages_lem}

length-memset : (xs : List ℕ) (v n : ℕ) → length (memset xs v n) ≡ length xs
unfolding memset
length-memset xs v zero = refl
length-memset [] v (suc n) = refl
length-memset (x ∷ xs) v (suc n) = ap suc (length-memset xs v n)

get_or-memset :
    (xs : List ℕ) (v n i : ℕ)
    → n ≤ length xs
    → get_or (memset xs v n) i 0 ≡ (if ltb i n then v else get_or xs i 0)
unfolding memset
get_or-memset xs v zero i h = ground arith
get_or-memset [] v (suc n) i h = absurd (omega arith)
get_or-memset (x ∷ xs) v (suc n) zero h = ground arith
get_or-memset (x ∷ xs) v (suc n) (suc i) h = get_or-memset xs v n i (omega arith) ∙ ground arith

get_or_past : (xs : List ℕ) (i : ℕ) → length xs ≤ i → get_or xs i 0 ≡ 0
get_or_past [] i h = refl
get_or_past (x ∷ xs) zero h = absurd (omega arith)
get_or_past (x ∷ xs) (suc i) h = get_or_past xs i (omega arith)

-- `RoundUp<kPageSize4M>` is the next multiple of 4MB, where that fits in 32 bits.
pub round_up_4m_lem :
    (x : ℕ) → x ≤ 2 ^ 32 - 2 ^ 22 → round_up_4m x / 2 ^ 22 ≡ (x + (2 ^ 22 - 1)) / 2 ^ 22
unfolding round_up_4m
round_up_4m_lem x h = rw (bit_and_page ((x + (2 ^ 22 - 1)) % 2 ^ 32) (omega arith)) (omega arith)

-- Near the top of the 32-bit range it is zero.
pub round_up_4m_wraps : (x : ℕ) → x < 2 ^ 32 → 2 ^ 32 - 2 ^ 22 < x → round_up_4m x ≡ 0
unfolding round_up_4m
round_up_4m_wraps x h top = bit_and_page ((x + (2 ^ 22 - 1)) % 2 ^ 32) (omega arith) ∙ omega arith

module _ (old : List ℕ) (size : length old ≡ 128) (n : ℕ) (small : n < 1024) where
  abbrev pub fresh : Pmm
  fresh = record { num_4m_pages = n; bitmap = initial_bitmap old n }

  initial_bitmap-length : length (initial_bitmap old n) ≡ 128
  unfolding initial_bitmap
  initial_bitmap-length =
      rw (==_ne n 1024 (omega arith), length-set, length-memset, length-memset) size

  byte_of : ℕ → ℕ
  byte_of i = if i == n / 8 then 256 - 2 ^ (n % 8) else if ltb i (n / 8) then 0 else 255

  byte_of-lt : (i : ℕ) → byte_of i < 256
  unfolding byte_of
  byte_of-lt i = ground (arith, pow_pos (n % 8))

  initial_byte : (i : ℕ) → i < 128 → get_or (initial_bitmap old n) i 0 ≡ byte_of i
  unfolding initial_bitmap byte_of
  initial_byte i h =
      let cleared : List ℕ = memset (memset old 255 128) 0 (n / 8 + 1) in
      let filled : List ℕ = memset old 255 128 in
      let at_edge : get_or (set cleared (n / 8) (256 - 2 ^ (n % 8))) (n / 8) 0 ≡ 256 - 2 ^ (n % 8) =
        get_or-set_self cleared (n / 8) _ 0
          (rw (length-memset, length-memset, size) (omega arith)) in
      rw (==_ne n 1024 (omega arith)) (elim (ℕ_discrete i (n / 8)) [
        | yes e ↦ rw (e, ==_refl, at_edge)
        | no ne ↦
            rw
              (
                get_or-set_ne cleared (n / 8) i (256 - 2 ^ (n % 8)) 0 (λ e. ne (sym e)),
                ==_ne i (n / 8) ne,
                get_or-memset filled 0 (n / 8 + 1) i (rw (length-memset, size) (omega arith)),
                get_or-memset old 255 128 i (rw size (omega arith)),
              )
              (ground arith)
      ])

  pub fresh-IsBitmap : IsBitmap fresh
  fresh-IsBitmap = record {
    size = initial_bitmap-length;
    bytes = λ i. elim (dec_lt i 128) [
      | yes h ↦ rw (initial_byte i h) (byte_of-lt i)
      | no h ↦
          rw (get_or_past (initial_bitmap old n) i (rw initial_bitmap-length (omega arith)))
            (omega arith)
    ];
  }

  -- Exactly the pages below `n` are free.
  pub fresh-used : (j : ℕ) → j < 1024 → used fresh j ≡ not (ltb j n)
  unfolding used byte_of
  fresh-used j h = rw (initial_byte (j / 8) (omega arith)) (
      ground (
        arith,
        test_bit_edge (n % 8) (j % 8) (omega arith) (omega arith),
        test_bit-zero (j % 8),
        test_bit_full (j % 8) (omega arith),
      ))

  fresh-free : get_num_free_4m_pages fresh ≡ ok n
  fresh-free =
      get_num_free_4m_pages_lem fresh-IsBitmap (omega arith)
        (λ j lo hi. fresh-used j hi ∙ ground arith)
      ∙ ap ok (free_below-all fresh n (λ j h. fresh-used j (omega arith) ∙ ground arith))

-- A bitmap on which exactly the pages below `n` are free.
pub record Fresh (n : ℕ) (p : Pmm) : Type 0 where
  pub valid : IsBitmap p
  pub pages : p.num_4m_pages ≡ n
  pub marks : (j : ℕ) → j < 1024 → used p j ≡ not (ltb j n)

-- Given at least one kilobyte of memory and at most 4GB - 4MB, `Initialize` passes its assertions,
-- whatever the bitmap held before, and leaves free exactly the pages that the memory reaches into.
pub initialize_lem :
    (old : List ℕ) (mem_upper : ℕ)
    → length old ≡ 128
    → 0 < mem_upper
    → mem_upper * 1024 ≤ 2 ^ 32 - 2 ^ 22
    → Returns (Fresh ((mem_upper * 1024 + (2 ^ 22 - 1)) / 2 ^ 22)) (initialize old mem_upper)
unfolding initialize
initialize_lem old mem_upper size some_memory below_top =
    let x : mem_upper * 1024 % 2 ^ 32 ≡ mem_upper * 1024 = omega arith in
    let n : ℕ = (mem_upper * 1024 + (2 ^ 22 - 1)) / 2 ^ 22 in
    let small : n < 1024 = omega arith in
    rw
      (
        x,
        round_up_4m_lem (mem_upper * 1024) below_top,
        ==_ne n 0 (omega arith),
        le→leb n 1024 (omega arith),
        fresh-free old size n small,
        ==_refl n,
      )
      (record {
        valid = fresh-IsBitmap old size n small;
        pages = refl;
        marks = fresh-used old size n small;
      })

-- With memory into the last 4MB of the 32-bit range the number of bytes rounded up wraps to zero, and
-- the kernel stops at the assertion. For no size of memory does `Initialize` count 1024 pages, so
-- its branch for that number is never taken.
pub initialize_top :
    (old : List ℕ) (mem_upper : ℕ)
    → (mem_upper * 1024 < 2 ^ 32
        → 2 ^ 32 - 2 ^ 22 < mem_upper * 1024
        → (round_up_4m (mem_upper * 1024 % 2 ^ 32) ≡ 0) × (initialize old mem_upper ≡ abort))
      × (round_up_4m (mem_upper * 1024 % 2 ^ 32) / page_size_4m < num_page_dir_entries)
unfolding initialize
initialize_top old mem_upper = (
  λ fits top.
      let x : mem_upper * 1024 % 2 ^ 32 ≡ mem_upper * 1024 = omega arith in
      rw (x, round_up_4m_wraps (mem_upper * 1024) fits top) (refl, refl),
  elim (dec_lt (2 ^ 32 - 2 ^ 22) (mem_upper * 1024 % 2 ^ 32)) [
    | yes top ↦
        let wraps : round_up_4m (mem_upper * 1024 % 2 ^ 32) ≡ 0 =
          round_up_4m_wraps (mem_upper * 1024 % 2 ^ 32) (omega arith) top in
        rw wraps (omega arith)
    | no below ↦
        let rounded : round_up_4m (mem_upper * 1024 % 2 ^ 32) / 2 ^ 22
            ≡ (mem_upper * 1024 % 2 ^ 32 + (2 ^ 22 - 1)) / 2 ^ 22 =
          round_up_4m_lem (mem_upper * 1024 % 2 ^ 32) (omega arith) in
        omega arith
  ],
)
