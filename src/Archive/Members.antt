-- ===== src/Archive/Members.antt =====
-- `IterateUSTAR` of libc/ustar.cpp on an archive of directories and files.
use yet_another_project_i_ll.Base.{
  ℕ, zero, suc, ◌+◌, ◌-◌, ◌*◌, ◌/◌, ◌%◌, ◌^◌, ◌<◌, ◌≡◌, refl, ap, subst, ◌∙◌, ◌≢◌, inl, inr, Bool,
  true, false, not, List, [], ◌∷◌, arith, ◌==◌, ==_refl, ==_ne, Bool-cases, length, pos, ok,
}
use yet_another_project_i_ll.String.Blocks.{Bytes}
use yet_another_project_i_ll.Archive.{
  tar_block_size, size_offset, type_offset, ustar_offset, prefix_offset, k_directory, Entry,
  directory, file, oct2bin, zero_from, is_zero_page, num_chunks, is_zero_int, debug_assert, iterate,
  iterate_ustar,
}
use yet_another_project_i_ll.Archive.Octal.{octal, oct2bin-octal}
use yet_another_project_i_ll.String.{Memory, memcmp}

-- A directory, or a file with its size
pub data Member : Type 0 where
  folder : Member
  content : ℕ → Member

abbrev pub size_of : Member → ℕ
size_of folder = 0
size_of (content n) = n

-- The blocks of a member, its header included: those of a file hold its bytes.
abbrev pub blocks : Member → ℕ
blocks folder = 1
blocks (content n) = 1 + (n + 511) / 512

abbrev pub entry_at : ℕ → Member → Entry
entry_at tar folder = directory (tar + prefix_offset) tar
entry_at tar (content n) = file (tar + prefix_offset) tar n (tar + tar_block_size)

abbrev pub entries_at : ℕ → List Member → List Entry
entries_at tar [] = []
entries_at tar (m ∷ ms) = entry_at tar m ∷ entries_at (tar + 512 * blocks m) ms

abbrev pub blocks_of : List Member → ℕ
blocks_of [] = 0
blocks_of (m ∷ ms) = blocks m + blocks_of ms

-- `ustar`, without the terminator
abbrev pub magic : List ℕ
magic = 117 ∷ 115 ∷ 116 ∷ 97 ∷ 114 ∷ []

-- A directory, or a file, which is not empty in a build with assertions
abbrev pub HasType : (debug : Bool) → Memory → ℕ → Member → Type 0
HasType debug mem tar folder = mem (tar + type_offset) ≡ k_directory
HasType debug mem tar (content n) =
    (mem (tar + type_offset) ≢ k_directory) × (debug ≡ true → n ≢ 0) × (n < 2 ^ 32)

-- The header of a member: the magic string, which in a build with assertions has its terminator, the
-- size in eleven octal digits, and the type
pub record HasHeader (debug : Bool) (mem : Memory) (tar : ℕ) (m : Member) : Type 0 where
  pub magic_bytes : Bytes mem (tar + ustar_offset) magic
  pub terminator : debug ≡ true → mem (tar + ustar_offset + 5) ≡ 0
  pub size : Bytes mem (tar + size_offset) (octal 11 (size_of m) [])
  pub kind : HasType debug mem tar m

-- The members one behind the other, and two blocks of zeros behind them
abbrev pub Sits : (debug : Bool) → Memory → ℕ → List Member → Type 0
Sits debug mem tar [] =
    (is_zero_page mem tar ≡ true) × (is_zero_page mem (tar + tar_block_size) ≡ true)
Sits debug mem tar (m ∷ ms) = HasHeader debug mem tar m × Sits debug mem (tar + 512 * blocks m) ms

memcmp_same :
    (mem : Memory) (xs : List ℕ) (p q : ℕ)
    → Bytes mem p xs
    → Bytes mem q xs
    → mem (p + length xs) ≡ 0
    → mem (q + length xs) ≡ 0
    → memcmp mem p q (length xs) ≡ pos 0
unfolding memcmp
memcmp_same mem [] p q a b e f =
    let zp : p + 0 ≡ p = omega arith in
    let zq : q + 0 ≡ q = omega arith in rw (rw zp at e, rw zq at f) refl
memcmp_same mem (x ∷ xs) p q (a, ar) (b, br) e f =
    let np : p + suc (length xs) ≡ p + 1 + length xs = omega arith in
    let nq : q + suc (length xs) ≡ q + 1 + length xs = omega arith in
    rw (memcmp, a, b, ==_refl x)
      (memcmp_same mem xs (p + 1) (q + 1) ar br (rw np at e) (rw nq at f))

zero_from-byte :
    (mem : Memory) (count page i : ℕ)
    → i < count
    → mem (page + i) ≢ 0
    → zero_from mem page count ≡ false
unfolding zero_from
zero_from-byte mem zero page i h ne = absurd (omega arith)
zero_from-byte mem (suc count) page zero h ne =
    let z : page + 0 ≡ page = omega arith in rw (==_ne (mem page) 0 (rw z at ne)) refl
zero_from-byte mem (suc count) page (suc i) h ne = elim (Bool-cases (mem page == 0)) [
  | inl e ↦
      let n : page + suc i ≡ page + 1 + i = omega arith in
      rw e (zero_from-byte mem count (page + 1) i (omega arith) (rw n at ne))
  | inr e ↦ rw e refl
]

not_zero_page :
    (debug : Bool) (mem : Memory) (tar : ℕ) (m : Member)
    → HasHeader debug mem tar m
    → is_zero_page mem tar ≡ false
unfolding is_zero_page
not_zero_page debug mem tar m h =
    zero_from-byte mem 512 tar 257 (omega arith) (λ z. absurd (omega (arith, h.magic_bytes.0)))

module _ (debug : Bool) (ustar : ℕ) (mem : Memory) (literal : Bytes mem ustar magic)
    (ends : mem (ustar + 5) ≡ 0) where
  passes : (b : Bool) → (debug ≡ true → b ≡ true) → debug_assert debug ustar mem b ≡ ok tt
  passes b e = elim (Bool-cases debug) [ inl d ↦ rw (d, e d) refl | inr n ↦ rw n refl ]

  header :
      (tar : ℕ) (m : Member)
      → HasHeader debug mem tar m
      → debug ≡ true
      → is_zero_int (memcmp mem (tar + ustar_offset) ustar 5) ≡ true
  header tar m h asserts =
      rw
        (memcmp_same mem magic (tar + ustar_offset) ustar h.magic_bytes literal
          (h.terminator asserts) ends)
        refl

  small : (m : Member) (tar : ℕ) → HasType debug mem tar m → size_of m < 2 ^ 32
  small folder tar k = omega arith
  small (content n) tar (kind, full, fits) = fits

  size_lem :
      (tar : ℕ) (m : Member)
      → HasHeader debug mem tar m
      → oct2bin debug mem (tar + size_offset) 11 ≡ ok (size_of m)
  size_lem tar m h =
      let whole : size_of m % 2 ^ 32 ≡ size_of m = omega (arith, small m tar h.kind) in
      oct2bin-octal debug mem (tar + size_offset) 11 (size_of m) (omega (arith, small m tar h.kind))
        h.size
      ∙ ap ok whole

  chunks_lem : (n : ℕ) → num_chunks n ≡ (n + 511) / 512
  unfolding num_chunks
  chunks_lem n = ground arith

  iterate-Sits :
      (ms : List Member) (tar fuel : ℕ)
      → Sits debug mem tar ms
      → length ms < fuel
      → iterate debug ustar mem fuel tar ≡ ok (entries_at tar ms, tar + 512 * blocks_of ms)
  unfolding iterate
  iterate-Sits ms tar zero sits enough = absurd (omega arith)
  iterate-Sits [] tar (suc fuel) sits enough =
      let z : tar ≡ tar + 512 * 0 = omega arith in
      rw (iterate, sits.0, sits.1) (ap (λ k. ok ([], k)) z)
  iterate-Sits (folder ∷ ms) tar (suc fuel) (h, sits) enough =
      let next : tar + 512 * 1 ≡ tar + 512 = omega arith in
      let rest : iterate debug ustar mem fuel (tar + 512)
          ≡ ok (entries_at (tar + 512 * 1) ms, tar + 512 * 1 + 512 * blocks_of ms) =
        subst
          (λ k.
            iterate debug ustar mem fuel k
            ≡ ok (entries_at (tar + 512 * 1) ms, tar + 512 * 1 + 512 * blocks_of ms))
          next (iterate-Sits ms (tar + 512 * 1) fuel sits (omega arith)) in
      let total : tar + 512 * 1 + 512 * blocks_of ms ≡ tar + 512 * (1 + blocks_of ms) =
        omega arith in
      rw
        (
          iterate,
          not_zero_page debug mem tar folder h,
          passes _ (header tar folder h),
          size_lem tar folder h,
          h.kind,
          passes true (λ asserts. refl),
          rest,
          total,
        )
        refl
  iterate-Sits (content n ∷ ms) tar (suc fuel) (h, sits) enough =
      let next : tar + 512 * (1 + (n + 511) / 512) ≡ tar + 512 + num_chunks n * 512 =
        omega (arith, chunks_lem n) in
      let after : ℕ = tar + 512 * (1 + (n + 511) / 512) in
      let rest : iterate debug ustar mem fuel (tar + 512 + num_chunks n * 512)
          ≡ ok (entries_at after ms, after + 512 * blocks_of ms) =
        subst
          (λ k.
            iterate debug ustar mem fuel k ≡ ok (entries_at after ms, after + 512 * blocks_of ms))
          next (iterate-Sits ms after fuel sits (omega arith)) in
      let total : after + 512 * blocks_of ms ≡ tar + 512 * (1 + (n + 511) / 512 + blocks_of ms) =
        omega arith in
      rw
        (
          iterate,
          not_zero_page debug mem tar (content n) h,
          passes _ (header tar (content n) h),
          size_lem tar (content n) h,
          ==_ne (mem (tar + 156)) 53 (h.kind.0),
          passes (not (n == 0)) (λ asserts. rw (==_ne n 0 ((h.kind.1) asserts)) refl),
          rest,
          total,
        )
        refl

  -- `IterateUSTAR` of an archive whose members lie one behind the other, with two blocks of zeros
  -- behind them, visits each of them once, in order, with its name, prefix, size and data, and
  -- returns the number of bytes of the archive; one round more than there are members is fuel enough.
  -- In a build with assertions they hold, for an archive without empty files and with a zero behind
  -- `ustar` in each header; a build without them needs neither.
  pub iterate_ustar-Sits :
      (ms : List Member) (archive fuel : ℕ)
      → Sits debug mem archive ms
      → length ms < fuel
      → iterate_ustar debug ustar mem fuel archive
        ≡ ok (entries_at archive ms, 512 * (blocks_of ms + 2))
  unfolding iterate_ustar
  iterate_ustar-Sits ms archive fuel sits enough =
      let total : archive + 512 * blocks_of ms - archive + 512 * 2 ≡ 512 * (blocks_of ms + 2) =
        omega arith in
      rw (iterate-Sits ms archive fuel sits enough) (ap (λ k. ok (entries_at archive ms, k)) total)
