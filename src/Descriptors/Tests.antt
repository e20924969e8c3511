-- ===== src/Descriptors/Tests.antt =====
-- The tables at concrete inputs.
use yet_another_project_i_ll.Base.{ℕ, ◌+◌, ◌*◌, ◌/◌, ◌%◌, ◌^◌, ◌≤◌, ◌<◌, ◌≡◌, ◌≢◌, ◌⊎◌, arith}
use yet_another_project_i_ll.Descriptors.{gdt_entry, no_gate, initialize_gates}
use yet_another_project_i_ll.Descriptors.Segments.{
  entry_base, entry_limit, entry_flags, gdt_entry-decode,
}
use yet_another_project_i_ll.Descriptors.Gates.{Opens, initialize_gates_lem}

gdt_entry-decode_example :
    (entry_base (gdt_entry 0x1234_5678 0xffff_ffff 0x9a 0xcf) ≡ 0x1234_5678)
    × (entry_limit (gdt_entry 0x1234_5678 0xffff_ffff 0x9a 0xcf) ≡ 0xffff_ffff % 2 ^ 20)
    × (entry_flags (gdt_entry 0x1234_5678 0xffff_ffff 0x9a 0xcf) ≡ 0xcf / 16)
    × ((gdt_entry 0x1234_5678 0xffff_ffff 0x9a 0xcf).access ≡ 0x9a)
gdt_entry-decode_example =
    gdt_entry-decode 0x1234_5678 0xffff_ffff 0x9a 0xcf (omega arith) (omega arith)

abbrev isr_at : ℕ → ℕ
isr_at n = 0x10_0000 + n % 256 * 16

abbrev irq_at : ℕ → ℕ
irq_at n = 0x20_0000 + n % 256 * 16

initialize_gates_lem_example :
    ((v : ℕ) → v < 30 → Opens (isr_at v) 0 (initialize_gates isr_at irq_at v))
    × Opens (isr_at 31) 0 (initialize_gates isr_at irq_at 31)
    × ((i : ℕ) → i < 16 → Opens (irq_at i) 0 (initialize_gates isr_at irq_at (32 + i)))
    × Opens (isr_at 128) 3 (initialize_gates isr_at irq_at 128)
    × ((v : ℕ) → (v ≡ 30) ⊎ ((48 ≤ v) × (v ≢ 128)) → initialize_gates isr_at irq_at v ≡ no_gate)
initialize_gates_lem_example =
    initialize_gates_lem isr_at irq_at (λ n. omega arith) (λ n. omega arith)
