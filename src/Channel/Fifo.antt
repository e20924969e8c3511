-- ===== src/Channel/Fifo.antt =====
-- An endpoint is a queue of bytes: the parts of the buffer that are copied, and what waits in it.
use yet_another_project_i_ll.Base.{
  ℕ, zero, suc, ◌+◌, ◌-◌, ◌%◌, ◌^◌, ◌≤◌, ◌<◌, ◌≡◌, refl, sym, ap, subst, ◌∙◌, ◌⊎◌, inl, inr, false,
  Option, none, List, ◌++◌, arith, ltb, ◌==◌, lt→ltb, le→leb, ==_ne, Bool-cases, length, take, drop,
  length-drop, ok, abort, Returns, Outcome-cases, Returns-mono, Returns-bind, copy_into, drop-take,
  take-take, CopiedInto, copy_into-CopiedInto, Grants,
}
use yet_another_project_i_ll.Channel.{
  Endpoint, capacity, reallocate, reserve_if_needed, shrink_capacity, write_self, read_self,
}

-- The bytes that are waiting to be read
abbrev pub pending : Endpoint → List ℕ
pending e = take e.size e.content

abbrev pub Fits : Endpoint → Type 0
Fits e = e.size ≤ capacity e

-- The same bytes in a buffer of `n`
abbrev Moved : Endpoint → ℕ → Endpoint → Type 0
Moved e n q = (q.size ≡ e.size) × (capacity q ≡ n) × (pending q ≡ pending e)

module _ (malloc : ℕ → Option (List ℕ)) where
  reallocate-Moved :
      (e : Endpoint) (amt : ℕ)
      → Fits e
      → e.size ≤ amt
      → Grants malloc amt
      → Returns (Moved e amt) (reallocate malloc e amt)
  unfolding reallocate
  reallocate-Moved e amt fits room (buffer, got, size) = rw got (
      Returns-bind (CopiedInto buffer 0 e.content e.size) (Moved e amt) _ _
        (copy_into-CopiedInto buffer 0 e.content e.size (omega arith) fits)
        (λ q c.
          let z : 0 + e.size ≡ e.size = omega arith in
          (refl, c.0 ∙ size, subst (λ k. take k q ≡ take e.size e.content) z (c.1))))

  room : (e : Endpoint) (amt : ℕ) (q : Endpoint) → Moved e amt q → e.size ≤ amt → Fits q
  room e amt q m h = omega (arith, m.0, m.1)

  reserve_if_needed-Moved :
      (e : Endpoint) (amt : ℕ)
      → Fits e
      → (amt ≤ capacity e) ⊎ Grants malloc amt
      → Returns
          (λ q. (amt ≤ capacity q) × (q.size ≡ e.size) × Fits q × (pending q ≡ pending e))
          (reserve_if_needed malloc e amt)
  unfolding reserve_if_needed
  reserve_if_needed-Moved e amt fits (inl enough) = elim (Bool-cases (ltb (capacity e) amt)) [
    | inl more ↦ absurd (ground arith)
    | inr full ↦ rw full (enough, refl, fits, refl)
  ]
  reserve_if_needed-Moved e amt fits (inr grants) = elim (Bool-cases (ltb (capacity e) amt)) [
    | inl more ↦ rw more (
        Returns-mono (Moved e amt) _ _ (reallocate-Moved e amt fits (ground arith) grants)
          (λ q m. (omega (arith, m.1), m.0, room e amt q m (ground arith), m.2)))
    | inr enough ↦ rw enough (ground arith, refl, fits, refl)
  ]

  shrink_capacity-Moved :
      (e : Endpoint)
      → Fits e
      → (e.size ≡ 0) ⊎ Grants malloc e.size
      → Returns
          (λ q. (q.size ≡ e.size) × Fits q × (pending q ≡ pending e))
          (shrink_capacity malloc e e.size)
  unfolding shrink_capacity
  shrink_capacity-Moved e fits served = elim (Bool-cases (ltb e.size (capacity e))) [
    | inl less ↦ elim (Bool-cases (e.size == 0)) [
      | inl z ↦
          let empty : e.size ≡ 0 = ground arith in
          rw (le→leb e.size e.size (omega arith), less, z) (refl, omega arith, rw empty)
      | inr nz ↦
          rw (le→leb e.size e.size (omega arith), less, nz)
            (Returns-mono (Moved e e.size) _ _
              (reallocate-Moved e e.size fits (omega arith)
                (elim served [ inl z ↦ absurd (ground arith) | inr grants ↦ grants ]))
              (λ q m. (m.0, room e e.size q m (omega arith), m.2)))
    ]
    | inr full ↦ rw (le→leb e.size e.size (omega arith), full) (refl, fits, refl)
  ]

  write_some :
      (e : Endpoint) (src : List ℕ) (n : ℕ)
      → Fits e
      → n ≤ length src
      → e.size + n < 2 ^ 32
      → (e.size + n ≤ capacity e) ⊎ Grants malloc (e.size + n)
      → Returns (λ q. Fits q × (pending q ≡ pending e ++ take n src)) (write_self malloc e src n)
  unfolding write_self
  write_some e src n fits long small served =
      let whole : (e.size + n) % 2 ^ 32 ≡ e.size + n = omega arith in
      let reserved = reserve_if_needed-Moved e (e.size + n) fits served in
      elim (Outcome-cases (reserve_if_needed malloc e (e.size + n))) [
        | inl stops ↦ absurd (subst (Returns _) stops reserved)
        | inr (q, got) ↦
            let (enough, same, fits_q, kept) = subst (Returns _) got reserved in
            let whole_q : (q.size + n) % 2 ^ 32 ≡ q.size + n = rw same whole in
            rw (whole, got)
              (Returns-bind (CopiedInto q.content q.size src n) _ _ _
                (copy_into-CopiedInto q.content q.size src n (rw same enough) long)
                (λ b c. rw whole_q (omega (arith, c.0, same), c.1 ∙ rw kept)))
      ]

  left_over :
      (m size : ℕ)
      → (suc m ≡ 0) ⊎ (suc m ≡ size) ⊎ Grants malloc (size - suc m)
      → (size - suc m ≡ 0) ⊎ Grants malloc (size - suc m)
  left_over m size (inl z) = absurd (omega arith)
  left_over m size (inr (inl all)) = inl (omega arith)
  left_over m size (inr (inr grants)) = inr grants

  -- `WriteSelf` of bytes whose number fits in 32 bits with those that wait appends them when there is
  -- room in the buffer, or when `malloc` gives one of the size that it asks for; when there is no room
  -- and `malloc` returns null, it stops at its assertion.
  pub write_self-append :
      (e : Endpoint) (src : List ℕ) (n : ℕ)
      → Fits e
      → n ≤ length src
      → e.size + n < 2 ^ 32
      → ((e.size + n ≤ capacity e) ⊎ Grants malloc (e.size + n)
          → Returns
              (λ q. Fits q × (pending q ≡ pending e ++ take n src))
              (write_self malloc e src n))
        × (capacity e < e.size + n → malloc (e.size + n) ≡ none → write_self malloc e src n ≡ abort)
  unfolding write_self reserve_if_needed reallocate
  write_self-append e src n fits long small =
      let whole : (e.size + n) % 2 ^ 32 ≡ e.size + n = omega arith in
      (
        write_some e src n fits long small,
        λ full failed. rw (whole, lt→ltb (capacity e) (e.size + n) full, failed) refl,
      )

  read_some :
      (e : Endpoint) (n : ℕ)
      → Fits e
      → n ≤ e.size
      → (n ≡ 0) ⊎ (n ≡ e.size) ⊎ Grants malloc (e.size - n)
      → Returns
          (λ out.
            Fits (out.0)
            × (out.1 ≡ inl (take n (pending e)))
            × (pending (out.0) ≡ drop n (pending e)))
          (read_self malloc e n)
  unfolding read_self
  read_some e zero fits h served = (fits, refl, refl)
  read_some e (suc m) fits h served =
      let n : ℕ = suc m in
      let nz : (n == 0) ≡ false = ==_ne n 0 (λ z. absurd (omega arith)) in
      let less : ltb e.size n ≡ false = ground arith in
      let dropped : length (drop n e.content) ≡ length e.content - n = length-drop n e.content in
      let copied : Returns (CopiedInto e.content 0 (drop n e.content) (e.size - n))
          (copy_into e.content 0 (drop n e.content) (e.size - n)) =
        copy_into-CopiedInto e.content 0 (drop n e.content) (e.size - n) (omega arith)
          (omega arith) in
      elim (Outcome-cases (copy_into e.content 0 (drop n e.content) (e.size - n))) [
        | inl stops ↦ absurd (subst (Returns _) stops copied)
        | inr (b, got) ↦
            let c : CopiedInto e.content 0 (drop n e.content) (e.size - n) b =
              subst (Returns (CopiedInto e.content 0 (drop n e.content) (e.size - n))) got copied in
            let e₂ : Endpoint = record { size = e.size - n; content = b } in
            let z : 0 + (e.size - n) ≡ e.size - n = omega arith in
            let rest : take (e.size - n) b ≡ take (e.size - n) (drop n e.content) =
              subst (λ k. take k b ≡ take (e.size - n) (drop n e.content)) z (c.1) in
            rw (nz, less, got)
              (Returns-bind (λ q. (q.size ≡ e₂.size) × Fits q × (pending q ≡ pending e₂)) _ _ _
                (shrink_capacity-Moved e₂ (omega (arith, c.0)) (left_over m e.size served))
                (λ q kept. (
                  kept.1,
                  ap inl (sym (take-take n e.size e.content h)),
                  kept.2 ∙ rest ∙ sym (drop-take n e.size e.content h),
                )))
      ]

  read_fails :
      (e : Endpoint) (n : ℕ)
      → Fits e
      → 0 < n
      → n < e.size
      → malloc (e.size - n) ≡ none
      → read_self malloc e n ≡ abort
  unfolding read_self shrink_capacity reallocate
  read_fails e n fits positive h failed =
      let dropped : length (drop n e.content) ≡ length e.content - n = length-drop n e.content in
      let copied : Returns (CopiedInto e.content 0 (drop n e.content) (e.size - n))
          (copy_into e.content 0 (drop n e.content) (e.size - n)) =
        copy_into-CopiedInto e.content 0 (drop n e.content) (e.size - n) (omega arith)
          (omega arith) in
      let less : ltb e.size n ≡ false = ground arith in
      elim (Outcome-cases (copy_into e.content 0 (drop n e.content) (e.size - n))) [
        | inl stops ↦ absurd (subst (Returns _) stops copied)
        | inr (b, got) ↦
            let c : CopiedInto e.content 0 (drop n e.content) (e.size - n) b =
              subst (Returns (CopiedInto e.content 0 (drop n e.content) (e.size - n))) got copied in
            rw
              (
                ==_ne n 0 (λ z. absurd (omega arith)),
                less,
                got,
                le→leb (e.size - n) (e.size - n) (omega arith),
                lt→ltb (e.size - n) (length b) (omega (arith, c.0)),
                ==_ne (e.size - n) 0 (λ z. absurd (omega arith)),
                failed,
              )
              refl
      ]

  pub read_self-drop :
      (e : Endpoint) (n : ℕ)
      → Fits e
      → (n ≤ e.size
          → (n ≡ 0) ⊎ (n ≡ e.size) ⊎ Grants malloc (e.size - n)
          → Returns
              (λ out.
                Fits (out.0)
                × (out.1 ≡ inl (take n (pending e)))
                × (pending (out.0) ≡ drop n (pending e)))
              (read_self malloc e n))
        × (0 < n → n < e.size → malloc (e.size - n) ≡ none → read_self malloc e n ≡ abort)
        × (e.size < n → read_self malloc e n ≡ ok (e, inr e.size))
  unfolding read_self
  read_self-drop e n fits = (
    read_some e n fits,
    read_fails e n fits,
    λ more. rw (==_ne n 0 (λ z. absurd (omega arith)), lt→ltb e.size n more),
  )
