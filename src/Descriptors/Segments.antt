-- ===== src/Descriptors/Segments.antt =====
-- The segment descriptors of kernel/gdt.cpp as the processor reads them.
use yet_another_project_i_ll.Base.{
  ℕ, ◌+◌, ◌*◌, ◌/◌, ◌%◌, ◌^◌, ◌<◌, bit_and, bit_or, ◌≡◌, refl, ap, ◌∙◌, Bool, List, arith, ◌==◌,
  if◌then◌else◌, ==_iff, get_or, bit_and_high, bit_and_mask, all_below, all_below_lem,
}
use yet_another_project_i_ll.Descriptors.{GdtEntry, null_entry, gdt_entry}

-- The base address, the limit, the privilege level, and whether the segment holds code
abbrev pub entry_base : GdtEntry → ℕ
entry_base e = e.base_low + e.base_middle * 2 ^ 16 + e.base_high * 2 ^ 24

abbrev pub entry_limit : GdtEntry → ℕ
entry_limit e = e.limit_low + e.granularity % 16 * 2 ^ 16

abbrev pub entry_flags : GdtEntry → ℕ
entry_flags e = e.granularity / 16

abbrev pub privilege : GdtEntry → ℕ
privilege e = e.access / 32 % 4

abbrev pub is_code : GdtEntry → Bool
is_code e = e.access / 8 % 2 == 1

join_nibbles : (lo hi : ℕ) → lo < 16 → hi < 16 → bit_or lo (hi * 16) ≡ hi * 16 + lo
join_nibbles lo hi l h = (==_iff (bit_or lo (hi * 16)) (hi * 16 + lo)).0 (
    all_below_lem 16 (λ y. bit_or lo (y * 16) == (y * 16 + lo)) hi
      (all_below_lem 16 (λ x. all_below 16 (λ y. bit_or x (y * 16) == (y * 16 + x))) lo
        (unfold all_below in refl) l)
      h)

granularity_lem :
    (limit gran : ℕ)
    → bit_or (bit_and (limit / 2 ^ 16) 0x0f) (bit_and gran 0xf0)
      ≡ gran / 16 % 16 * 16 + limit / 2 ^ 16 % 16
granularity_lem limit gran =
    let low : bit_and (limit / 2 ^ 16) 0x0f ≡ limit / 2 ^ 16 % 16 =
      bit_and_mask 4 (limit / 2 ^ 16) 15 refl in
    let high : bit_and gran 0xf0 ≡ gran / 16 % 16 * 16 =
      bit_and_high 4 gran 15 ∙ ap (λ x. x * 16) (bit_and_mask 4 (gran / 16) 15 refl) in
    rw (low, high) (join_nibbles (limit / 2 ^ 16 % 16) (gran / 16 % 16) (omega arith) (omega arith))

-- The descriptor that `GDTSetGate` stores has the base address, the low twenty bits of the limit, the
-- access byte and the high four bits of the granularity that it was given.
pub gdt_entry-decode :
    (base limit access gran : ℕ)
    → base < 2 ^ 32
    → gran < 256
    → (entry_base (gdt_entry base limit access gran) ≡ base)
      × (entry_limit (gdt_entry base limit access gran) ≡ limit % 2 ^ 20)
      × (entry_flags (gdt_entry base limit access gran) ≡ gran / 16)
      × ((gdt_entry base limit access gran).access ≡ access)
unfolding gdt_entry
gdt_entry-decode base limit access gran b g =
    let low : bit_and base 0xffff ≡ base % 2 ^ 16 = bit_and_mask 16 base 0xffff refl in
    let middle : bit_and (base / 2 ^ 16) 0xff ≡ base / 2 ^ 16 % 2 ^ 8 =
      bit_and_mask 8 (base / 2 ^ 16) 0xff refl in
    let high : bit_and (base / 2 ^ 24) 0xff ≡ base / 2 ^ 24 % 2 ^ 8 =
      bit_and_mask 8 (base / 2 ^ 24) 0xff refl in
    let limit_low : bit_and limit 0xffff ≡ limit % 2 ^ 16 = bit_and_mask 16 limit 0xffff refl in
    rw (low, middle, high, limit_low, granularity_lem limit gran)
      (omega arith, omega arith, omega arith, refl)

-- The bytes that a segment spans: bit 3 of the flags counts the limit in pages.
abbrev pub segment_bytes : GdtEntry → ℕ
segment_bytes e = (entry_limit e + 1) * (if entry_flags e / 8 % 2 == 1 then 4096 else 1)

-- The entry is present, of a code or data segment, readable or writable, and of 32-bit operands.
abbrev pub IsUsable : GdtEntry → Type 0
IsUsable e =
    (e.access / 128 % 2 ≡ 1)
    × (e.access / 16 % 2 ≡ 1)
    × (e.access / 2 % 2 ≡ 1)
    × (entry_flags e / 4 % 2 ≡ 1)

-- A selector names an entry of the table with the privilege that it asks for, and the entry spans
-- all 4GB.
abbrev pub Selects : List GdtEntry → (selector level : ℕ) → (code : Bool) → Type 0
Selects entries selector level code =
    (selector % 8 ≡ level)
    × (privilege (get_or entries (selector / 8) null_entry) ≡ level)
    × (is_code (get_or entries (selector / 8) null_entry) ≡ code)
    × (entry_base (get_or entries (selector / 8) null_entry) ≡ 0)
    × (segment_bytes (get_or entries (selector / 8) null_entry) ≡ 2 ^ 32)
    × IsUsable (get_or entries (selector / 8) null_entry)

abbrev pub level_of : Bool → ℕ
level_of user = if user then 3 else 0
