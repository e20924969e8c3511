-- ===== src/Channel.antt =====
-- `Endpoint` of kernel/channel.cpp and kernel/include/kernel/channel.h: the buffer of bytes that
-- the other end has written. `data_` is the list of the `capacity_` bytes it points to; the
-- memory that `malloc` returns is given as a function from the size to its bytes. A read or write
-- past a buffer is `abort`. `malloc(0)` and a failed `malloc` return no buffer, and the code's
-- assertion stops there.
pub mod Fifo
mod Tests
use yet_another_project_i_ll.Base.{
  ℕ, ◌+◌, ◌-◌, ◌%◌, ◌^◌, ◌⊎◌, inl, inr, ◌&&◌, Option, List, [], ltb, leb, ◌==◌, if◌then◌else◌,
  length, take, drop, Outcome, ok, or_abort, copy_into, ◌>>=◌, ◌>>◌,
}

-- `size_`, and `data_` with `capacity_`
pub record Endpoint : Type 0 where
  pub size : ℕ
  pub content : List ℕ

abbrev pub capacity : Endpoint → ℕ
capacity e = length e.content

abbrev pub default_capacity : ℕ
default_capacity = 8

module _ (malloc : ℕ → Option (List ℕ)) where
  -- The constructor with size 0
  unfoldable pub new_endpoint : Outcome Endpoint
  new_endpoint = do
    data₀ ← or_abort (malloc default_capacity)
    ok (record { size = 0; content = data₀ })

  -- The buffer is replaced by one of `amt` bytes that holds the same.
  unfoldable pub reallocate : Endpoint → ℕ → Outcome Endpoint
  reallocate e amt = do
    newdata ← or_abort (malloc amt)
    copied ← copy_into newdata 0 e.content e.size
    ok (record e { content = copied })

  unfoldable pub reserve_if_needed : Endpoint → ℕ → Outcome Endpoint
  reserve_if_needed e amt = if ltb (capacity e) amt then reallocate e amt else ok e

  unfoldable pub shrink_capacity : Endpoint → ℕ → Outcome Endpoint
  shrink_capacity e amt =
      if leb e.size amt && ltb amt (capacity e)
      then (if amt == 0 then ok (record e { content = [] }) else reallocate e amt)
      else ok e

  unfoldable pub write_self : Endpoint → (src : List ℕ) → (size : ℕ) → Outcome Endpoint
  write_self e src size = do
    e₁ ← reserve_if_needed e ((e.size + size) % 2 ^ 32)
    written ← copy_into e₁.content e₁.size src size
    ok (record { size = (e₁.size + size) % 2 ^ 32; content = written })

  -- The bytes are those stored at `dst`; without enough bytes the code reports how many there are.
  unfoldable pub read_self : Endpoint → (size : ℕ) → Outcome (Endpoint × (List ℕ ⊎ ℕ))
  read_self e size =
      if size == 0 then ok (e, inl []) else if ltb e.size size then ok (e, inr e.size) else do
        moved ← copy_into e.content 0 (drop size e.content) (e.size - size)
        e₁ ← shrink_capacity (record { size = e.size - size; content = moved }) (e.size - size)
        ok (e₁, inl (take size e.content))
