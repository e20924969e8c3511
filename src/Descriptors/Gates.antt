-- ===== src/Descriptors/Gates.antt =====
-- The interrupt gates that kernel/idt.cpp, kernel/isr.cpp and kernel/irq.cpp set up.
use yet_another_project_i_ll.Base.{
  ℕ, zero, suc, ◌+◌, ◌*◌, ◌/◌, ◌%◌, ◌^◌, ◌≤◌, ◌<◌, bit_and, bit_or, ◌≡◌, refl, sym, subst, ◌∙◌, ◌≢◌,
  ◌⊎◌, inl, inr, arith, ==_refl, ==_ne, bit_and_mask,
}
use yet_another_project_i_ll.Descriptors.{
  IdtEntry, Idt, idt_set_gate, no_gate, initialize_idt, set_gates, initialize_isrs, initialize_irqs,
  initialize_gates,
}

-- A present gate for the kernel's code segment, which the given privilege level may use
abbrev pub Opens : (routine level : ℕ) → IdtEntry → Type 0
Opens routine level e =
    (e.base_lo + e.base_hi * 2 ^ 16 ≡ routine)
    × (e.sel ≡ 0x08)
    × (e.always0 ≡ 0)
    × (e.flags ≡ 0x8e + level * 32)

set_gate_here :
    (t : Idt) (num base level : ℕ) (flags : ℕ)
    → base < 2 ^ 32
    → flags ≡ 0x8e + level * 32
    → Opens base level (idt_set_gate t num base 0x08 flags num)
unfolding idt_set_gate
set_gate_here t num base level flags small f =
    let low : bit_and base 0xffff ≡ base % 2 ^ 16 = bit_and_mask 16 base 0xffff refl in
    let high : bit_and (base / 2 ^ 16) 0xffff ≡ base / 2 ^ 16 % 2 ^ 16 =
      bit_and_mask 16 (base / 2 ^ 16) 0xffff refl in
    rw (==_refl num, low, high) (omega arith, refl, refl, f)

set_gate_other :
    (t : Idt) (num base sel flags v : ℕ) → v ≢ num → idt_set_gate t num base sel flags v ≡ t v
unfolding idt_set_gate
set_gate_other t num base sel flags v ne = rw (==_ne v num ne) refl

set_gates_other :
    (count num index v : ℕ) (t : Idt) (routine : ℕ → ℕ)
    → (v < num) ⊎ (num + count ≤ v)
    → set_gates t routine count num index v ≡ t v
unfolding set_gates
set_gates_other zero num index v t routine out = refl
set_gates_other (suc count) num index v t routine out =
    let ne : v ≢ num =
      λ e. elim out [ inl lo ↦ absurd (omega arith) | inr hi ↦ absurd (omega arith) ] in
    let rest : (v < num + 1) ⊎ (num + 1 + count ≤ v) = elim out [
      | inl lo ↦ inl (omega arith)
      | inr hi ↦ inr (omega arith)
    ] in
    set_gates_other count (num + 1) (index + 1) v (idt_set_gate t num (routine index) 0x08 0x8e)
      routine rest
    ∙ set_gate_other t num (routine index) 0x08 0x8e v ne

set_gates_here :
    (count num index i : ℕ) (t : Idt) (routine : ℕ → ℕ)
    → i < count
    → routine (index + i) < 2 ^ 32
    → Opens (routine (index + i)) 0 (set_gates t routine count num index (num + i))
unfolding set_gates
set_gates_here zero num index i t routine inside small = absurd (omega arith)
set_gates_here (suc count) num index zero t routine inside small =
    let n : num + 0 ≡ num = omega arith in
    let m : index + 0 ≡ index = omega arith in
    let same : set_gates t routine (suc count) num index num
        ≡ idt_set_gate t num (routine index) 0x08 0x8e num =
      set_gates_other count (num + 1) (index + 1) num (idt_set_gate t num (routine index) 0x08 0x8e)
        routine (inl (omega arith)) in
    rw (n, m)
      (subst (Opens (routine index) 0) (sym same)
        (set_gate_here t num (routine index) 0 0x8e (subst (λ k. routine k < 2 ^ 32) m small) refl))
set_gates_here (suc count) num index (suc i) t routine inside small =
    let n : num + suc i ≡ num + 1 + i = omega arith in
    let m : index + suc i ≡ index + 1 + i = omega arith in
    rw (n, m)
      (set_gates_here count (num + 1) (index + 1) i (idt_set_gate t num (routine index) 0x08 0x8e)
        routine (omega arith) (subst (λ k. routine k < 2 ^ 32) m small))

first_gates :
    (count num i : ℕ) (t : Idt) (routine : ℕ → ℕ)
    → i < count
    → routine i < 2 ^ 32
    → Opens (routine i) 0 (set_gates t routine count num 0 (num + i))
first_gates count num i t routine inside small =
    let z : 0 + i ≡ i = omega arith in
    subst (λ k. Opens (routine k) 0 (set_gates t routine count num 0 (num + i))) z
      (set_gates_here count num 0 i t routine inside
        (subst (λ k. routine k < 2 ^ 32) (sym z) small))

module _ (isr irq : ℕ → ℕ) (isr_small : (n : ℕ) → isr n < 2 ^ 32)
    (irq_small : (n : ℕ) → irq n < 2 ^ 32) where
  -- Behind the interrupt controllers' gates the others are those of the exceptions.
  not_irq :
      (v : ℕ)
      → (v < 32) ⊎ (48 ≤ v)
      → initialize_gates isr irq v ≡ initialize_isrs initialize_idt isr v
  unfolding initialize_gates initialize_irqs
  not_irq v out = set_gates_other 16 32 0 v (initialize_isrs initialize_idt isr) irq out

  exceptions :
      (v : ℕ)
      → v ≢ 128
      → v ≢ 31
      → v ≢ 39
      → initialize_isrs initialize_idt isr v ≡ set_gates initialize_idt isr 30 0 0 v
  unfolding initialize_isrs
  exceptions v a b c =
      set_gate_other _ 128 (isr 128) 0x08 (bit_or 0x8e 0x60) v a
      ∙ set_gate_other _ 31 (isr 31) 0x08 0x8e v b
      ∙ set_gate_other _ 39 (isr 30) 0x08 0x8e v c

  gate_31 : Opens (isr 31) 0 (initialize_isrs initialize_idt isr 31)
  unfolding initialize_isrs
  gate_31 =
      subst (Opens (isr 31) 0)
        (sym
          (set_gate_other _ 128 (isr 128) 0x08 (bit_or 0x8e 0x60) 31 (λ e. absurd (omega arith))))
        (set_gate_here _ 31 (isr 31) 0 0x8e (isr_small 31) refl)

  gate_128 : Opens (isr 128) 3 (initialize_isrs initialize_idt isr 128)
  unfolding initialize_isrs
  gate_128 = set_gate_here _ 128 (isr 128) 3 (bit_or 0x8e 0x60) (isr_small 128) refl

  -- After the kernel has set up its gates, for routines whose addresses have 32 bits: the
  -- exceptions 0 to 29 and 31 and the sixteen interrupts from 32 on open their own routines for the
  -- kernel, 128 opens the system call for user code, and every other vector has no gate. One of those
  -- without a gate is the exception 30.
  pub initialize_gates_lem :
      ((v : ℕ) → v < 30 → Opens (isr v) 0 (initialize_gates isr irq v))
      × Opens (isr 31) 0 (initialize_gates isr irq 31)
      × ((i : ℕ) → i < 16 → Opens (irq i) 0 (initialize_gates isr irq (32 + i)))
      × Opens (isr 128) 3 (initialize_gates isr irq 128)
      × ((v : ℕ) → (v ≡ 30) ⊎ ((48 ≤ v) × (v ≢ 128)) → initialize_gates isr irq v ≡ no_gate)
  unfolding initialize_gates initialize_irqs
  initialize_gates_lem = (
    λ v h.
        subst (Opens (isr v) 0)
          (sym (
            not_irq v (inl (omega arith))
            ∙ exceptions v (λ e. absurd (omega arith)) (λ e. absurd (omega arith))
                (λ e. absurd (omega arith))))
          (let z : 0 + v ≡ v = omega arith in
            subst (λ k. Opens (isr v) 0 (set_gates initialize_idt isr 30 0 0 k)) z
              (first_gates 30 0 v initialize_idt isr h (isr_small v))),
    subst (Opens (isr 31) 0) (sym (not_irq 31 (inl (omega arith)))) gate_31,
    λ i h. first_gates 16 32 i (initialize_isrs initialize_idt isr) irq h (irq_small i),
    subst (Opens (isr 128) 3) (sym (not_irq 128 (inr (omega arith)))) gate_128,
    λ v h. elim h [
      | inl e ↦
          not_irq v (inl (omega arith))
          ∙ exceptions v (λ x. absurd (omega arith)) (λ x. absurd (omega arith))
              (λ x. absurd (omega arith))
          ∙ set_gates_other 30 0 0 v initialize_idt isr (inr (omega arith))
      | inr (hi, ne) ↦
          not_irq v (inr hi)
          ∙ exceptions v ne (λ x. absurd (omega arith)) (λ x. absurd (omega arith))
          ∙ set_gates_other 30 0 0 v initialize_idt isr (inr (omega arith))
    ],
  )
