-- ===== src/Archive.antt =====
-- libc/ustar.cpp and libc/include/libc/ustar.h: the walk over the headers of an archive in memory.
-- The callbacks are the list of what they are called with, in order. `debug` says whether the file
-- is built with its assertions, and `ustar` is the address of the string literal.
pub mod Octal
pub mod Members
mod Tests
use yet_another_project_i_ll.Base.{
  ℕ, zero, suc, ◌+◌, ◌-◌, ◌*◌, ◌/◌, ◌%◌, ◌^◌, Bool, true, false, not, ◌&&◌, List, [], ◌∷◌, ltb, leb,
  ◌==◌, if◌then◌else◌, ℤ, pos, negsuc, Outcome, ok, abort, ◌>>=◌, ◌>>◌, assert,
}
use yet_another_project_i_ll.String.{Memory, memcmp}

abbrev pub tar_block_size : ℕ
tar_block_size = 512

-- The offsets of the fields of `TarBlock`
abbrev pub size_offset : ℕ
size_offset = 124

abbrev pub type_offset : ℕ
type_offset = 156

abbrev pub ustar_offset : ℕ
ustar_offset = 257

abbrev pub prefix_offset : ℕ
prefix_offset = 345

abbrev pub k_directory : ℕ
k_directory = 53

-- `DirInfo` and `FileInfo`
pub data Entry : Type 0 where
  directory : (prefix name : ℕ) → Entry
  file : (prefix name size data₀ : ℕ) → Entry

-- `static_cast<size_t>(*c - '0')` of a signed `char`
unfoldable pub digit_of : ℕ → ℕ
digit_of c = (c + 2 ^ 32 - 48 - (if ltb c 128 then 0 else 256)) % 2 ^ 32

-- `debug` says whether the file is built with assertions. A `char` from 128 on is below zero.
unfoldable pub oct2bin_from : (debug : Bool) → Memory → (c size n : ℕ) → Outcome ℕ
oct2bin_from debug mem c zero n = ok n
oct2bin_from debug mem c (suc size) n =
    let rest = oct2bin_from debug mem (c + 1) size ((n * 8 % 2 ^ 32 + digit_of (mem c)) % 2 ^ 32) in
    if debug then (assert (leb 48 (mem c) && ltb (mem c) 128) >> rest) else rest

unfoldable pub oct2bin : (debug : Bool) → Memory → (str size : ℕ) → Outcome ℕ
oct2bin debug mem str size = oct2bin_from debug mem str size 0

unfoldable pub zero_from : Memory → (tar_page count : ℕ) → Bool
zero_from mem tar_page zero = true
zero_from mem tar_page (suc count) =
    if mem tar_page == 0 then zero_from mem (tar_page + 1) count else false

unfoldable pub is_zero_page : Memory → ℕ → Bool
is_zero_page mem tar_page = zero_from mem tar_page tar_block_size

unfoldable pub num_chunks : ℕ → ℕ
num_chunks filesize =
    if filesize % tar_block_size == 0
    then filesize / tar_block_size
    else filesize / tar_block_size + 1

abbrev pub is_zero_int : ℤ → Bool
is_zero_int (pos n) = n == 0
is_zero_int (negsuc n) = false

abbrev pub with_entry : Entry → Outcome (List Entry × ℕ) → Outcome (List Entry × ℕ)
with_entry entry rest = rest >>= λ (entries, tar). ok (entry ∷ entries, tar)

module _ (debug : Bool) (ustar : ℕ) (mem : Memory) where
  abbrev pub debug_assert : Bool → Outcome (Unit {0})
  debug_assert x = if debug then assert x else ok tt

  -- The rounds of the loop, and the block that it ends at
  unfoldable pub iterate : (fuel tar : ℕ) → Outcome (List Entry × ℕ)
  iterate zero tar = abort
  iterate (suc fuel) tar = elim (is_zero_page mem tar && is_zero_page mem (tar + tar_block_size)) [
    | true ↦ ok ([], tar)
    | false ↦ do
      debug_assert (is_zero_int (memcmp mem (tar + ustar_offset) ustar 5))
      filesize ← oct2bin debug mem (tar + size_offset) 11
      elim (mem (tar + type_offset) == k_directory) [
        | true ↦
            debug_assert (filesize == 0)
            >> with_entry (directory (tar + prefix_offset) tar)
                (iterate fuel (tar + tar_block_size))
        | false ↦
            debug_assert (not (filesize == 0))
            >> with_entry (file (tar + prefix_offset) tar filesize (tar + tar_block_size))
                (iterate fuel (tar + tar_block_size + num_chunks filesize * tar_block_size))
      ]
  ]

  unfoldable pub iterate_ustar : (fuel archive : ℕ) → Outcome (List Entry × ℕ)
  iterate_ustar fuel archive = do
    (entries, tar) ← iterate fuel archive
    ok (entries, tar - archive + tar_block_size * 2)

  unfoldable pub get_tarsize : (fuel archive : ℕ) → Outcome ℕ
  get_tarsize fuel archive = do (entries, size) ← iterate_ustar fuel archive; ok size
