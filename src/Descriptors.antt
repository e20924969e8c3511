-- ===== src/Descriptors.antt =====
-- The tables that the processor reads: kernel/gdt.cpp with the segments and the task state, and
-- kernel/idt.cpp, kernel/isr.cpp and kernel/irq.cpp with the interrupt gates. A table of gates is a
-- function from the numbers of the vectors, and the address of a routine in assembly is a parameter.
-- Not here: loading the tables into the processor, and the ports of the interrupt controllers.
pub mod Segments
pub mod Gates
mod Tests
use yet_another_project_i_ll.Base.{
  ℕ, zero, suc, ◌+◌, ◌/◌, ◌^◌, bit_and, bit_or, List, ◌==◌, if◌then◌else◌, set, replicate,
}

pub record GdtEntry : Type 0 where
  pub limit_low : ℕ
  pub base_low : ℕ
  pub base_middle : ℕ
  pub access : ℕ
  pub granularity : ℕ
  pub base_high : ℕ

abbrev pub num_gdt_entries : ℕ
num_gdt_entries = 6

-- The fields of the task state that are not zero
pub record TssEntry : Type 0 where
  pub esp0 : ℕ
  pub ss0 : ℕ
  pub es : ℕ
  pub cs : ℕ
  pub ss : ℕ
  pub ds : ℕ
  pub fs : ℕ
  pub gs : ℕ
  pub iomap_base : ℕ

abbrev pub tss_size : ℕ
tss_size = 104

abbrev pub null_entry : GdtEntry
null_entry = record {
  limit_low = 0;
  base_low = 0;
  base_middle = 0;
  access = 0;
  granularity = 0;
  base_high = 0;
}

unfoldable pub gdt_entry : (base limit access gran : ℕ) → GdtEntry
gdt_entry base limit access gran = record {
  limit_low = bit_and limit 0xffff;
  base_low = bit_and base 0xffff;
  base_middle = bit_and (base / 2 ^ 16) 0xff;
  access = access;
  granularity = bit_or (bit_and (limit / 2 ^ 16) 0x0f) (bit_and gran 0xf0);
  base_high = bit_and (base / 2 ^ 24) 0xff;
}

unfoldable pub gdt_set_gate : List GdtEntry → (num base limit access gran : ℕ) → List GdtEntry
gdt_set_gate entries num base limit access gran = set entries num (gdt_entry base limit access gran)

abbrev pub Gdt : Type 0
Gdt = List GdtEntry × TssEntry

-- `tss_addr` is the address of `tss_entry`.
unfoldable pub write_tss : List GdtEntry → (tss_addr num ss0 esp0 : ℕ) → Gdt
write_tss entries tss_addr num ss0 esp0 = (
  gdt_set_gate entries num tss_addr tss_size 0xe9 0x00,
  record {
    esp0 = esp0;
    ss0 = ss0;
    es = 0x13;
    cs = 0x0b;
    ss = 0x13;
    ds = 0x13;
    fs = 0x13;
    gs = 0x13;
    iomap_base = tss_size;
  },
)

unfoldable pub initialize_gdt : (tss_addr : ℕ) → Gdt
initialize_gdt tss_addr =
    let entries₀ = gdt_set_gate (replicate num_gdt_entries null_entry) 0 0 0 0 0 in
    let entries₁ = gdt_set_gate entries₀ 1 0 0xffff_ffff 0x9a 0xcf in
    let entries₂ = gdt_set_gate entries₁ 2 0 0xffff_ffff 0x92 0xcf in
    let entries₃ = gdt_set_gate entries₂ 3 0 0xffff_ffff 0xfa 0xcf in
    let entries₄ = gdt_set_gate entries₃ 4 0 0xffff_ffff 0xf2 0xcf in
    write_tss entries₄ tss_addr 5 0x10 0

abbrev pub set_kernel_stack : TssEntry → ℕ → TssEntry
set_kernel_stack tss stack = record tss { esp0 = stack }

pub record IdtEntry : Type 0 where
  pub base_lo : ℕ
  pub sel : ℕ
  pub always0 : ℕ
  pub flags : ℕ
  pub base_hi : ℕ

abbrev pub Idt : Type 0
Idt = ℕ → IdtEntry

unfoldable pub idt_set_gate : Idt → (num base sel flags : ℕ) → Idt
idt_set_gate entries num base sel flags = λ i.
    if i == num
    then (record {
      base_lo = bit_and base 0xffff;
      sel = sel;
      always0 = 0;
      flags = flags;
      base_hi = bit_and (base / 2 ^ 16) 0xffff;
    })
    else entries i

-- `memset(&idt_entries, 0, …)`
abbrev pub no_gate : IdtEntry
no_gate = record { base_lo = 0; sel = 0; always0 = 0; flags = 0; base_hi = 0 }

abbrev pub initialize_idt : Idt
initialize_idt = λ i. no_gate

-- The calls of `IDTSetGate` for consecutive vectors, from `num` on, whose routines are consecutive
unfoldable pub set_gates : Idt → (routine : ℕ → ℕ) → (count num index : ℕ) → Idt
set_gates entries routine zero num index = entries
set_gates entries routine (suc count) num index =
    set_gates (idt_set_gate entries num (routine index) 0x08 0x8e) routine count (num + 1)
      (index + 1)

abbrev pub syscall_handler : ℕ
syscall_handler = 128

abbrev pub dpl_user : ℕ
dpl_user = 0x60

-- `isr n` is the address of the routine `isrN`: vectors 0 to 29, then routine 30 at 39, then 31
unfoldable pub initialize_isrs : Idt → (isr : ℕ → ℕ) → Idt
initialize_isrs entries isr =
    let exceptions = set_gates entries isr 30 0 0 in
    let wrong = idt_set_gate exceptions 39 (isr 30) 0x08 0x8e in
    let last = idt_set_gate wrong 31 (isr 31) 0x08 0x8e in
    idt_set_gate last syscall_handler (isr 128) 0x08 (bit_or 0x8e dpl_user)

unfoldable pub initialize_irqs : Idt → (irq : ℕ → ℕ) → Idt
initialize_irqs entries irq = set_gates entries irq 16 32 0

-- The calls in the order of `kernelMain`
unfoldable pub initialize_gates : (isr irq : ℕ → ℕ) → Idt
initialize_gates isr irq = initialize_irqs (initialize_isrs initialize_idt isr) irq
