-- ===== src/ResizableBuffer/Stream.antt =====
-- A buffer of libc/include/libc/resizable_buffer.h as a stream: what is written is appended to what
-- it holds, and what is read is taken from the front.
use yet_another_project_i_ll.Base.{
  ℕ, ◌+◌, ◌-◌, ◌%◌, ◌^◌, ◌≤◌, ◌<◌, ◌≡◌, refl, sym, ap, ap₂, subst, ◌∙◌, inl, inr, Option, List,
  ◌++◌, arith, ltb, le→leb, Bool-cases, length, take, drop, length-append, length-take, length-drop,
  take-append, drop-append, take_all, Returns, Returns-bind, drop-take, take-take, CopiedInto,
  copy_into-CopiedInto, Grants, word_bytes, word_of, word_of-word_bytes,
}
use yet_another_project_i_ll.ResizableBuffer.{
  ResizableBuffer, capacity, reserve_if_needed, write, write_len_and_data, read, read_len, skip,
}

-- The bytes that the buffer holds
abbrev pub pending : ResizableBuffer → List ℕ
pending b = take b.size b.content

abbrev pub Fits : ResizableBuffer → Type 0
Fits b = b.size ≤ capacity b

-- A buffer with the given bytes
pub record HasBytes (bytes : List ℕ) (b : ResizableBuffer) : Type 0 where
  pub fits : Fits b
  pub holds : pending b ≡ bytes

pub HasBytes-size :
    {bytes : List ℕ} {b : ResizableBuffer} → HasBytes bytes b → b.size ≡ length bytes
HasBytes-size {bytes} {b} h = omega (arith, h.fits, ap length h.holds, length-take b.size b.content)

module _ (malloc : ℕ → Option (List ℕ)) where
  reserved :
      (bytes : List ℕ) (b : ResizableBuffer) (newsize : ℕ)
      → HasBytes bytes b
      → b.size ≤ newsize
      → Grants malloc newsize
      → Returns
          (λ q. HasBytes bytes q × (newsize ≤ capacity q) × (q.size ≡ b.size))
          (reserve_if_needed malloc b newsize)
  unfolding reserve_if_needed
  reserved bytes b newsize h room (buffer, got, size) =
      elim (Bool-cases (ltb (capacity b) newsize)) [
        | inl more ↦
            rw (more, got)
              (Returns-bind (CopiedInto buffer 0 b.content b.size)
                (λ q. HasBytes bytes q × (newsize ≤ capacity q) × (q.size ≡ b.size)) _ _
                (copy_into-CopiedInto buffer 0 b.content b.size (omega arith) h.fits)
                (λ c m.
                  let z : 0 + b.size ≡ b.size = omega arith in
                  (
                    record {
                      fits = omega (arith, m.0, size, room);
                      holds = subst (λ k. take k c ≡ take b.size b.content) z (m.1) ∙ h.holds;
                    },
                    omega (arith, m.0, size),
                    refl,
                  )))
        | inr enough ↦ rw enough (h, ground arith, refl)
      ]

  -- `Write` appends its bytes, as long as the sizes add up to a 32-bit number and `malloc` gives a
  -- buffer for all of them.
  pub write-append :
      (bytes src : List ℕ) (b : ResizableBuffer)
      → HasBytes bytes b
      → length bytes + length src < 2 ^ 32
      → Grants malloc (length src + length bytes)
      → Returns (HasBytes (bytes ++ src)) (write malloc b src (length src))
  unfolding write
  write-append bytes src b h small served =
      let size : b.size ≡ length bytes = HasBytes-size h in
      let whole : (length src + b.size) % 2 ^ 32 ≡ length src + b.size = omega arith in
      rw whole (
        Returns-bind
          (λ q. HasBytes bytes q × (length src + b.size ≤ capacity q) × (q.size ≡ b.size))
          (HasBytes (bytes ++ src)) _ _
          (reserved bytes b (length src + b.size) h (omega arith)
            (subst (λ n. Grants malloc (length src + n)) (sym size) served))
          (λ q r.
            let sum : (q.size + length src) % 2 ^ 32 ≡ q.size + length src = omega (arith, r.2) in
            Returns-bind (CopiedInto q.content q.size src (length src)) (HasBytes (bytes ++ src)) _
              _
              (copy_into-CopiedInto q.content q.size src (length src) (omega (arith, r.1, r.2))
                (omega arith))
              (λ c m. rw sum (record {
                fits = omega (arith, m.0, r.1, r.2);
                holds = m.1 ∙ ap₂ (λ (x y : List ℕ). x ++ y) ((r.0).holds) (take_all src);
              }))))

-- `WriteLenAndData` appends the size, in four bytes, and the data, when its calls of `malloc` give
-- buffers for what there is up to then.
pub write_len_and_data-append :
    (malloc malloc₁ : ℕ → Option (List ℕ)) (bytes src : List ℕ) (b : ResizableBuffer)
    → HasBytes bytes b
    → length bytes + 4 + length src < 2 ^ 32
    → Grants malloc (4 + length bytes)
    → Grants malloc₁ (length src + (length bytes + 4))
    → Returns
        (HasBytes ((bytes ++ word_bytes (length src)) ++ src))
        (write_len_and_data malloc malloc₁ b src (length src))
unfolding write_len_and_data word_bytes
write_len_and_data-append malloc malloc₁ bytes src b h small first second =
    let grown : length (bytes ++ word_bytes (length src)) ≡ length bytes + 4 =
      length-append bytes (word_bytes (length src)) in
    Returns-bind (HasBytes (bytes ++ word_bytes (length src)))
      (HasBytes ((bytes ++ word_bytes (length src)) ++ src)) _ _
      (write-append malloc bytes (word_bytes (length src)) b h (omega arith) first)
      (λ q r.
        write-append malloc₁ (bytes ++ word_bytes (length src)) src q r (omega (arith, grown))
          (subst (λ n. Grants malloc₁ (length src + n)) (sym grown) second))

-- `Read` of the bytes at the front returns them and leaves what is behind them.
pub read-front :
    (front rest : List ℕ) (b : ResizableBuffer)
    → HasBytes (front ++ rest) b
    → Returns (λ out. HasBytes rest (out.0) × (out.1 ≡ front)) (read b (length front))
unfolding read
read-front front rest b h =
    let n : ℕ = length front in
    let size : b.size ≡ n + length rest =
      omega (arith, HasBytes-size h, length-append front rest) in
    let left : b.size - n ≡ length rest = omega arith in
    let within : n + (b.size - n) ≡ b.size = omega arith in
    let dropped : length (drop n b.content) ≡ length b.content - n = length-drop n b.content in
    let at_front : take n b.content ≡ front =
      sym (take-take n b.size b.content (omega arith))
      ∙ ap (take n) h.holds
      ∙ take-append front rest in
    let behind : take (b.size - n) (drop n b.content) ≡ rest =
      sym (drop-take n b.size b.content (omega arith))
      ∙ ap (drop n) h.holds
      ∙ drop-append front rest in
    rw (le→leb n b.size (omega arith)) (
      Returns-bind (CopiedInto b.content 0 (drop n b.content) (b.size - n))
        (λ out. HasBytes rest (out.0) × (out.1 ≡ front)) _ _
        (copy_into-CopiedInto b.content 0 (drop n b.content) (b.size - n) (omega (arith, h.fits))
          (omega (arith, h.fits)))
        (λ c m.
          let z : 0 + (b.size - n) ≡ b.size - n = omega arith in
          (
            record {
              fits = omega (arith, m.0, h.fits);
              holds = subst (λ k. take k c ≡ take (b.size - n) (drop n b.content)) z (m.1) ∙ behind;
            },
            at_front,
          )))

pub skip-front :
    (front rest : List ℕ) (b : ResizableBuffer)
    → HasBytes (front ++ rest) b
    → Returns (HasBytes rest) (skip b (length front))
unfolding skip
skip-front front rest b h =
    Returns-bind (λ out. HasBytes rest (out.0) × (out.1 ≡ front)) (HasBytes rest) _ _
      (read-front front rest b h) (λ out r. r.0)

-- A length that was written is read back.
pub read_len-front :
    (n : ℕ) (rest : List ℕ) (b : ResizableBuffer)
    → n < 2 ^ 32
    → HasBytes (word_bytes n ++ rest) b
    → Returns (λ out. HasBytes rest (out.0) × (out.1 ≡ n)) (read_len b)
unfolding read_len
read_len-front n rest b small h =
    let four : length (word_bytes n) ≡ 4 = unfold word_bytes in refl in
    Returns-bind (λ out. HasBytes rest (out.0) × (out.1 ≡ word_bytes n))
      (λ out. HasBytes rest (out.0) × (out.1 ≡ n)) _ _
      (subst (λ k. Returns (λ out. HasBytes rest (out.0) × (out.1 ≡ word_bytes n)) (read b k)) four
        (read-front (word_bytes n) rest b h))
      (λ out r. (r.0, ap word_of (r.1) ∙ word_of-word_bytes n small))
