-- ===== src/Environment/Table.antt =====
-- `ApplyRelative` and `getPlainEnvp` of libc/include/libc/startup/globalstate.h: the table that
-- `environ` points to.
use yet_another_project_i_ll.Base.{
  ℕ, ◌+◌, ◌*◌, ◌≤◌, ◌<◌, ◌≡◌, ◌⊎◌, Bool, false, List, [], ◌∷◌, ◌++◌, length, word_bytes,
}
use yet_another_project_i_ll.Environment.{
  EnvpPair, Envp, equals_sign, strings_size, plain_size, Process,
}
use yet_another_project_i_ll.String.Blocks.{Bytes}
use yet_another_project_i_ll.String.{Memory, store, put_bytes, Allocator}

-- `KEY=VAL` and the terminator
abbrev pub entry_text : EnvpPair → List ℕ
entry_text p = p.key ++ (equals_sign ∷ (p.val ++ (0 ∷ [])))

abbrev pub entry_size : EnvpPair → ℕ
entry_size p = length p.key + 1 + length p.val + 1

-- The slots hold the addresses of the strings, one behind the other, and a null pointer ends them.
abbrev pub Lists : Memory → (slot strs : ℕ) → Envp → Type 0
Lists mem slot strs [] = Bytes mem slot (word_bytes 0)
Lists mem slot strs (p ∷ ps) =
    Bytes mem slot (word_bytes strs)
    × Bytes mem strs (entry_text p)
    × Lists mem (slot + 4) (strs + length p.key + 1 + length p.val + 1) ps

abbrev Outside : (slot strs : ℕ) → Envp → ℕ → Type 0
Outside slot strs envp a =
    ((a < slot) ⊎ (slot + 4 * (length envp + 1) ≤ a))
    × ((a < strs) ⊎ (strs + strings_size envp ≤ a))

module _ (mem : Memory) (dst : ℕ) (p : EnvpPair) where
  abbrev with_key : Memory
  with_key = store (put_bytes mem dst p.key) (dst + length p.key) equals_sign

  abbrev with_val : Memory
  with_val = put_bytes with_key (dst + length p.key + 1) p.val

  abbrev whole : Memory
  whole = store with_val (dst + length p.key + 1 + length p.val) 0

-- What `new` and `delete` do for the table: they change the memory at the addresses in `heap_uses` only,
-- and none of these is in the block that `new` gives. The old table is among them, the new one is not.
pub record Replaces (heap : Allocator) (p : Process) (heap_uses : ℕ → Bool) : Type 0 where
  pub block :
      (a : ℕ)
      → (heap.malloc p.memory (plain_size p.envp)).1 ≤ a
      → a < (heap.malloc p.memory (plain_size p.envp)).1 + plain_size p.envp
      → heap_uses a ≡ false
  pub new_keeps :
      (a : ℕ) → heap_uses a ≡ false → (heap.malloc p.memory (plain_size p.envp)).0 a ≡ p.memory a
  pub delete_keeps : (m : Memory) (a : ℕ) → heap_uses a ≡ false → heap.free m p.plain_env a ≡ m a
