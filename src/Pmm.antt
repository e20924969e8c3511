-- ===== src/Pmm.antt =====
-- kernel/pmm.cpp and kernel/include/kernel/pmm.h: the bitmap of 4MB physical pages.
-- `gNum4MPages` and `gPhysicalBitmap` are the record `Pmm`, which a function that changes them
-- returns anew. The bitmap is 128 bytes; an access past its end is `abort`, since in C it is
-- undefined. `GetNextFreePage` returns `none` where the code returns -1.
pub mod Byte
pub mod Pages
pub mod Search
pub mod Count
pub mod Boot
mod Tests
use yet_another_project_i_ll.Base.{
  ℕ, zero, suc, ◌+◌, ◌-◌, ◌*◌, ◌/◌, ◌%◌, ◌^◌, bit_and, bit_or, Bool, true, false, not, ◌&&◌, List,
  [], ◌∷◌, Option, none, some, Outcome, ok, abort, ◌>>=◌, ◌>>◌, assert, ltb, leb, ◌==◌,
  if◌then◌else◌, length, get_or, set,
}

abbrev pub page_size_4m : ℕ
page_size_4m = 0x400000

abbrev pub num_page_dir_entries : ℕ
num_page_dir_entries = 1024

abbrev pub char_bit : ℕ
char_bit = 8

pub record Pmm : Type 0 where
  pub num_4m_pages : ℕ
  pub bitmap : List ℕ

-- `addr / kPageSize4M`, and back, in 32 bits
abbrev pub addr_to_page : ℕ → ℕ
addr_to_page addr = addr / page_size_4m

abbrev pub page_to_addr : ℕ → ℕ
page_to_addr page = page * page_size_4m % 2 ^ 32

abbrev pub page_address : ℕ → ℕ
page_address addr = page_to_addr (addr_to_page addr)

-- `x & (1 << k)` as a condition, `x | (1 << k)` and `x & ~(1 << k)` on a byte
unfoldable pub test_bit : ℕ → ℕ → Bool
test_bit x k = not (bit_and x (2 ^ k) == 0)

unfoldable pub set_bit : ℕ → ℕ → ℕ
set_bit x k = bit_or x (2 ^ k)

unfoldable pub clear_bit : ℕ → ℕ → ℕ
clear_bit x k = bit_and x (255 - 2 ^ k)

-- `gPhysicalBitmap[i]`
unfoldable pub byte_at : Pmm → ℕ → Outcome ℕ
byte_at p i = if ltb i (length p.bitmap) then ok (get_or p.bitmap i 0) else abort

unfoldable pub page_is_used : Pmm → ℕ → Outcome Bool
page_is_used p page = do
  assert (leb page num_page_dir_entries)
  x ← byte_at p (page / char_bit)
  ok (test_bit x (page % char_bit))

unfoldable pub set_page_used : Pmm → ℕ → Outcome Pmm
set_page_used p page = do
  used ← page_is_used p page
  assert (not used)
  x ← byte_at p (page / char_bit)
  ok (record p { bitmap = set p.bitmap (page / char_bit) (set_bit x (page % char_bit)) })

unfoldable pub set_page_free : Pmm → ℕ → Outcome Pmm
set_page_free p page = do
  used ← page_is_used p page
  assert used
  x ← byte_at p (page / char_bit)
  ok (record p { bitmap = set p.bitmap (page / char_bit) (clear_bit x (page % char_bit)) })

-- `while (x) { n += (x & 1); x >>= 1; }`. A byte is zero after eight rounds.
unfoldable pub count_ones : ℕ → ℕ → ℕ → ℕ
count_ones zero x n = n
count_ones (suc rounds) x n = elim (x == 0) [
  | true ↦ n
  | false ↦ count_ones rounds (x / 2) (n + bit_and x 1)
]

-- `~x` on a `uint8_t` first
unfoldable pub num_zero_bits : ℕ → ℕ
num_zero_bits x = count_ones 8 (255 - x) 0

-- the bytes `i`, `i + 1`, … of which `rounds` are left
unfoldable pub sum_zero_bits : Pmm → ℕ → ℕ → ℕ → Outcome ℕ
sum_zero_bits p zero i num = ok num
sum_zero_bits p (suc rounds) i num =
    byte_at p i >>= λ x. sum_zero_bits p rounds (i + 1) (num + num_zero_bits x)

unfoldable pub get_num_free_4m_pages : Pmm → Outcome ℕ
get_num_free_4m_pages p = do
  num ← sum_zero_bits p (p.num_4m_pages / char_bit) 0 0
  if p.num_4m_pages % char_bit == 0
      then ok num
      else byte_at p (p.num_4m_pages / char_bit) >>= λ x. ok (num + num_zero_bits x)

unfoldable pub get_num_used_4m_pages : Pmm → Outcome ℕ
get_num_used_4m_pages p = do
  available ← get_num_free_4m_pages p
  assert (leb available p.num_4m_pages)
  ok (p.num_4m_pages - available)

-- `RoundUp<kPageSize4M>` of kernel/kernel.h, in 32 bits: `& ~(Align - 1)` keeps the high ten bits
unfoldable pub round_up_4m : ℕ → ℕ
round_up_4m x = bit_and ((x + (page_size_4m - 1)) % 2 ^ 32) (1023 * 2 ^ 22)

-- `memset` on the first `n` bytes of an array
unfoldable pub memset : List ℕ → ℕ → ℕ → List ℕ
memset xs value zero = xs
memset [] value (suc n) = []
memset (x ∷ xs) value (suc n) = value ∷ memset xs value n

-- `static_cast<uint8_t>(~((UINT8_C(1) << k) - 1))` is 256 - 2^k.
unfoldable pub initial_bitmap : List ℕ → ℕ → List ℕ
initial_bitmap old n =
    if n == num_page_dir_entries
    then memset old 0 128
    else set (memset (memset old 255 128) 0 (n / char_bit + 1)) (n / char_bit)
        (256 - 2 ^ (n % char_bit))

-- `old` is what the bitmap holds before.
unfoldable pub initialize : List ℕ → ℕ → Outcome Pmm
initialize old mem_upper =
    let n = round_up_4m (mem_upper * 1024 % 2 ^ 32) / page_size_4m in
    let p : Pmm = record { num_4m_pages = n; bitmap = initial_bitmap old n } in
    do
      assert (not (n == 0) && leb n num_page_dir_entries)
      free ← get_num_free_4m_pages p
      assert (free == n)
      ok p

-- `while (x & 1) { ++idx; x >>= 1; }`. A byte below 255 has a zero among its eight bits.
unfoldable pub first_zero : ℕ → ℕ → ℕ → ℕ
first_zero zero x idx = idx
first_zero (suc rounds) x idx = elim (bit_and x 1 == 0) [
  | true ↦ idx
  | false ↦ first_zero rounds (x / 2) (idx + 1)
]

unfoldable pub find_free : Pmm → ℕ → ℕ → Outcome (Option ℕ)
find_free p zero i = ok none
find_free p (suc rounds) i = byte_at p i >>= λ x. elim (x == 255) [
  | true ↦ find_free p rounds (i + 1)
  | false ↦ ok (some (i * char_bit + first_zero 8 x 0))
]

unfoldable pub get_next_free_page : Pmm → Outcome (Option ℕ)
get_next_free_page p = find_free p (p.num_4m_pages / char_bit) 0
