-- ===== src/StartParams.antt =====
-- libc/startparams.cpp: the page that holds `argc`, `argv` and the strings of a new process. The
-- strings of `params` are lists of characters; a page has `page_size` bytes.
pub mod Table
pub mod Moved
mod Tests
use yet_another_project_i_ll.Base.{
  ℕ, zero, suc, ◌+◌, ◌-◌, ◌*◌, ◌%◌, ◌^◌, List, [], ◌∷◌, ltb, ◌==◌, if◌then◌else◌, length, Outcome,
  ok, assert, word_bytes, word_of, ◌>>=◌, ◌>>◌,
}
use yet_another_project_i_ll.String.{Memory, store, put_bytes}

-- The rounds of the loop of `PackParams`, with the slot of the table
unfoldable pub pack_entries : Memory → (slot strs_dst end : ℕ) → List (List ℕ) → Outcome Memory
pack_entries mem slot strs_dst end [] = ok mem
pack_entries mem slot strs_dst end (param ∷ params) = do
  assert (ltb (strs_dst + length param + 1) end)
  let copied = store (put_bytes mem strs_dst param) (strs_dst + length param) 0
  let linked = put_bytes copied slot (word_bytes (strs_dst - slot))
  pack_entries linked (slot + 4) (strs_dst + length param + 1) end params

unfoldable pub pack_params : Memory → (load_addr page_size : ℕ) → List (List ℕ) → Outcome Memory
pack_params mem load_addr page_size params = do
  assert (load_addr % 4 == 0)
  let counted = put_bytes mem load_addr (word_bytes (length params))
  assert ((load_addr + 4) % 4 == 0)
  pack_entries counted (load_addr + 4) (load_addr + 4 + 4 * length params)
      ((load_addr + page_size) % 2 ^ 32) params

unfoldable pub params_size : List (List ℕ) → ℕ
params_size [] = 0
params_size (param ∷ params) = length param + 1 + params_size params

unfoldable pub pack_size : List (List ℕ) → ℕ
pack_size params = 4 + 4 * length params + params_size params

-- A word at an address
unfoldable pub load_word : Memory → ℕ → ℕ
load_word mem a = word_of (mem a ∷ mem (a + 1) ∷ mem (a + 2) ∷ mem (a + 3) ∷ [])

unfoldable pub relocate : Memory → (slot count : ℕ) → Memory
relocate mem slot zero = mem
relocate mem slot (suc count) =
    relocate (put_bytes mem slot (word_bytes ((load_word mem slot + slot) % 2 ^ 32))) (slot + 4)
      count

-- The memory with `argc` and `argv`; a negative `argc` has no rounds.
unfoldable pub unpack_params : Memory → (params_addr : ℕ) → Outcome (Memory × ℕ × ℕ)
unpack_params mem params_addr = do
  assert (params_addr % 4 == 0)
  assert ((params_addr + 4) % 4 == 0)
  let argc = load_word mem params_addr
  let rounds = if ltb argc (2 ^ 31) then argc else 0
  ok (relocate mem (params_addr + 4) rounds, argc, params_addr + 4)
