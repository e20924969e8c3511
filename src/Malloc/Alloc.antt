-- ===== src/Malloc/Alloc.antt =====
-- `Partition`, `malloc` and `free` of libc/malloc.cpp. A null pointer is 0; what `gAskFunc` would
-- return is an argument, `none` for a null function.
use yet_another_project_i_ll.Base.{
  ℕ, zero, suc, ◌+◌, ◌-◌, ◌*◌, ◌/◌, ◌%◌, ◌^◌, max, bit_and, Bool, true, false, not, ◌&&◌, ◌||◌,
  Option, none, some, ltb, leb, ◌==◌, if◌then◌else◌, Outcome, ok, abort, ◌>>=◌, ◌>>◌, assert,
  or_abort,
}
use yet_another_project_i_ll.Malloc.{
  Words, Heap, min_size, size_max, get_size, is_used, set_used, set_size, is_valid,
  iter_malloc_headers, merge_malloc_headers, get_avail_memory, setup_new_allocation,
}

-- `UINT32_C(1) << __builtin_ctz(addr)` for a word other than zero
unfoldable pub lowest_bit : ℕ → ℕ → ℕ
lowest_bit zero a = 1
lowest_bit (suc bits) a = let rest = lowest_bit bits (a / 2) in if a % 2 == 1 then 1 else 2 * rest

unfoldable pub is_power_of_2 : ℕ → Bool
is_power_of_2 x = not (x == 0) && bit_and x (x - 1) == 0

-- `& ~(align - 1)` on 32 bits
unfoldable pub round_up : ℕ → ℕ → ℕ
round_up x align = bit_and ((x + (align - 1)) % 2 ^ 32) (2 ^ 32 - align)

-- A header of `size` free bytes, with the assertion on it
unfoldable pub make_header : Words → (header size : ℕ) → Outcome Words
make_header mem header size = do
  sized ← set_size mem header size
  let freed = set_used sized header false
  assert (is_valid freed header)
  ok freed

unfoldable pub resize : Words → (header size : ℕ) → Outcome Words
resize mem header size = do
  sized ← set_size mem header size
  assert (is_valid sized header)
  ok sized

-- The second header lies behind the bytes that are wanted.
unfoldable pub partition_aligned : Words → (header desired_size : ℕ) → Outcome (Option ℕ × Words)
partition_aligned mem header desired_size =
    if get_size (mem header) - desired_size == 4 then ok (some header, mem) else do
      let new_header = header + 4 + desired_size
      made ← make_header mem new_header (get_size (mem header) - desired_size - 4)
      assert (new_header + get_size (made new_header) + 4 == header + 4 + get_size (mem header))
      resized ← resize made header desired_size
      assert (header + 4 + get_size (resized header) == new_header)
      ok (some header, resized)

-- The address of the aligned block inside a free one: one that leaves room for two headers
unfoldable pub aligned_addr : (addr desired_align : ℕ) → ℕ
aligned_addr addr desired_align =
    if round_up addr desired_align - addr == 4
    then (round_up addr desired_align + desired_align) % 2 ^ 32
    else round_up addr desired_align

-- `Partition`, which calls itself at most once, on the aligned half
unfoldable pub partition :
    ℕ → Words → (header desired_size desired_align : ℕ) → Outcome (Option ℕ × Words)
partition zero mem header desired_size desired_align = abort
partition (suc fuel) mem header desired_size desired_align =
    let addr : ℕ = (header + 4) % 2 ^ 32 in
    let end : ℕ = (addr + get_size (mem header)) % 2 ^ 32 in
    let new_addr : ℕ = aligned_addr addr desired_align in
    assert (not (is_used (mem header)))
    >> (assert (is_valid mem header)
        >> (assert (not (addr == 0)) >> (elim (get_size (mem header) == desired_size) [
          | true ↦ ok ((if leb desired_align (lowest_bit 32 addr) then some header else none), mem)
          | false ↦ elim (ltb (get_size (mem header)) desired_size) [
            | true ↦ ok (none, mem)
            | false ↦
                assert (leb 4 (get_size (mem header) - desired_size))
                >> (elim (leb desired_align (lowest_bit 32 addr)) [
                  | true ↦ partition_aligned mem header desired_size
                  | false ↦
                      assert (leb 4 (round_up addr desired_align - addr))
                      >> (assert (round_up addr desired_align % desired_align == 0)
                          >> (elim (ltb end ((new_addr + desired_size) % 2 ^ 32)) [
                            | true ↦ ok (none, mem)
                            | false ↦
                                elim (ltb size_max ((end + 2 ^ 32 - new_addr) % 2 ^ 32)
                                  || end == new_addr) [
                                    | true ↦ ok (none, mem)
                                    | false ↦
                                        make_header mem (new_addr - 4)
                                          ((end + 2 ^ 32 - new_addr) % 2 ^ 32)
                                        >>= λ made.
                                            resize made header (new_addr - addr - 4) >>= λ resized.
                                            partition fuel resized (new_addr - 4) desired_size
                                              desired_align
                                            >>= λ out. or_abort (out.0) >>= λ found.
                                                assert (
                                                  not (is_used ((out.1) found))
                                                  && is_valid (out.1) found)
                                                >> ok out
                                  ]
                          ]))
                ])
          ]
        ])))

-- The search of `MallocImpl` takes the first free block that can be partitioned.
unfoldable pub take_block :
    (desired_size desired_align : ℕ)
    → Words
    → ℕ
    → (header alloc alloc_size : ℕ) → Outcome (Bool × Words × ℕ)
take_block desired_size desired_align mem st header alloc alloc_size =
    if is_used (mem header) then ok (true, mem, st) else do
      (found, split) ← partition 2 mem header desired_size desired_align
      elim found [
        | none ↦ ok (true, split, st)
        | some free_header ↦
            assert (not (is_used (split free_header)))
            >> ok (false, set_used split free_header true, free_header)
      ]

-- `MallocImpl` with the size and the alignment that it works with
unfoldable pub malloc_rounded : ℕ → Heap → (size align : ℕ) → Outcome (Heap × ℕ)
malloc_rounded fuel h size align = do
  avail ← get_avail_memory fuel h
  if ltb avail size then ok (h, 0) else do
    (taken, header) ← iter_malloc_headers (take_block size align) fuel h 0
    merged ← merge_malloc_headers fuel taken
    if header == 0 then ok (merged, 0) else do
      assert (leb size (get_size (merged.words header)))
      assert ((header + 4) % align == 0)
      assert (is_used (merged.words header))
      ok (merged, header + 4)

unfoldable pub malloc_impl : ℕ → Heap → (size align : ℕ) → Outcome (Heap × ℕ)
malloc_impl fuel h size align =
    let rounded = round_up (max size min_size) 4 in
    if size == 0 || not (is_power_of_2 align)
    then ok (h, 0)
    else if ltb size_max rounded
    then ok (h, 0)
    else malloc_rounded fuel h rounded (max align 4)

-- The check that no header has size zero
unfoldable pub check_header :
    Words → Unit {0} → (header alloc alloc_size : ℕ) → Outcome (Bool × Words × Unit {0})
check_header mem st header alloc alloc_size =
    assert (not (get_size (mem header) == 0)) >> ok (true, mem, tt)

unfoldable pub validate_malloc : ℕ → Heap → Outcome Heap
validate_malloc fuel h = do (checked, _) ← iter_malloc_headers check_header fuel h tt; ok checked

-- A second try after a new arena was set up
unfoldable pub malloc_again : ℕ → Heap → Option (ℕ × ℕ) → (size align : ℕ) → Outcome (Heap × ℕ)
malloc_again fuel h none size align = ok (h, 0)
malloc_again fuel h (some (newalloc, newsize)) size align = do
  larger ← setup_new_allocation fuel h newalloc newsize
  malloc_impl fuel larger size align

unfoldable pub malloc : ℕ → Heap → Option (ℕ × ℕ) → (size align : ℕ) → Outcome (Heap × ℕ)
malloc fuel h ask size align = do
  (h₁, res) ← malloc_impl fuel h size align
  h₂ ← validate_malloc fuel h₁
  if not (res == 0) || (size == 0 || ltb size_max size)
      then ok (h₂, res)
      else malloc_again fuel h₂ ask size align

abbrev pub release_block :
    ℕ → Words → Bool → (header alloc alloc_size : ℕ) → Outcome (Bool × Words × Bool)
release_block ptr mem found header alloc alloc_size =
    if (header + 4) % 2 ^ 32 == ptr
    then (assert (is_used (mem header)) >> ok (false, set_used mem header false, true))
    else ok (true, mem, found)

unfoldable pub free : ℕ → Heap → ℕ → Outcome Heap
free fuel h ptr = if ptr == 0 then ok h else do
  assert (ptr % 4 == 0)
  (released, found) ← iter_malloc_headers (release_block ptr) fuel h false
  assert found
  assert (not (is_used (released.words (ptr - 4))))
  merged ← merge_malloc_headers fuel released
  validate_malloc fuel merged
