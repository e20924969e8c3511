-- ===== src/ResizableBuffer.antt =====
-- `ResizableBuffer` of libc/include/libc/resizable_buffer.h. `data_` is the list of the
-- `capacity_` bytes it points to; a call of `malloc` is given as a function from the size to the
-- bytes that it returns, or to none for a null pointer, and each call in a row has its own function. A copy from or to a null pointer, or past a buffer, is `abort`.
pub mod Stream
use yet_another_project_i_ll.Base.{
  ℕ, ◌+◌, ◌-◌, ◌%◌, ◌^◌, max, Bool, Option, List, ltb, leb, ◌==◌, if◌then◌else◌, length, take, drop,
  Outcome, ok, assert, or_abort, copy_into, word_bytes, word_of, ◌>>=◌, ◌>>◌,
}

pub record ResizableBuffer : Type 0 where
  pub size : ℕ
  pub content : List ℕ

abbrev pub capacity : ResizableBuffer → ℕ
capacity b = length b.content

abbrev pub default_cap : ℕ
default_cap = 8

abbrev pub empty : ResizableBuffer → Bool
empty b = b.size == 0

module _ (malloc : ℕ → Option (List ℕ)) where
  unfoldable pub new_buffer : (size : ℕ) → Outcome ResizableBuffer
  new_buffer size = do
    data₀ ← or_abort (malloc (max size default_cap))
    ok (record { size = size; content = data₀ })

  unfoldable pub reserve_if_needed : ResizableBuffer → (newsize : ℕ) → Outcome ResizableBuffer
  reserve_if_needed b newsize =
      if ltb (capacity b) newsize
      then (do
        newalloc ← or_abort (malloc newsize)
        copied ← copy_into newalloc 0 b.content b.size
        ok (record b { content = copied }))
      else ok b

  unfoldable pub write : ResizableBuffer → (src : List ℕ) → (size : ℕ) → Outcome ResizableBuffer
  write b src size = do
    b₁ ← reserve_if_needed b ((size + b.size) % 2 ^ 32)
    written ← copy_into b₁.content b₁.size src size
    ok (record { size = (b₁.size + size) % 2 ^ 32; content = written })

  unfoldable pub write_front :
      ResizableBuffer → (src : List ℕ) → (size : ℕ) → Outcome ResizableBuffer
  write_front b src size = do
    b₁ ← reserve_if_needed b ((size + b.size) % 2 ^ 32)
    moved ← copy_into b₁.content size (take b₁.size b₁.content) b₁.size
    written ← copy_into moved 0 src size
    ok (record { size = (b₁.size + size) % 2 ^ 32; content = written })

  unfoldable pub resize : ResizableBuffer → (size : ℕ) → Outcome ResizableBuffer
  resize b size = do
    b₁ ← if ltb b.size size then reserve_if_needed b size else ok b
    ok (record b₁ { size = size })

-- The two calls of `Write` have their own calls of `malloc`.
unfoldable pub write_len_and_data :
    (malloc malloc₁ : ℕ → Option (List ℕ))
    → ResizableBuffer
    → (src : List ℕ) → (size : ℕ) → Outcome ResizableBuffer
write_len_and_data malloc malloc₁ b src size = do
  b₁ ← write malloc b (word_bytes size) 4
  write malloc₁ b₁ src size

-- The bytes are those that `dst` gets.
unfoldable pub read : ResizableBuffer → (size : ℕ) → Outcome (ResizableBuffer × List ℕ)
read b size = do
  assert (leb size b.size)
  moved ← copy_into b.content 0 (drop size b.content) (b.size - size)
  ok (record { size = b.size - size; content = moved }, take size b.content)

unfoldable pub read_len : ResizableBuffer → Outcome (ResizableBuffer × ℕ)
read_len b = do (b₁, bytes) ← read b 4; ok (b₁, word_of bytes)

unfoldable pub skip : ResizableBuffer → (size : ℕ) → Outcome ResizableBuffer
skip b size = do (b₁, bytes) ← read b size; ok b₁

abbrev pub clear : ResizableBuffer → ResizableBuffer
clear b = record b { size = 0 }
