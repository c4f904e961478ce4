-- ===== src/Cpu/Gdt.antt =====
-- The segment descriptors of src/cpu/gdt.c and src/cpu/gdt.h. The pointer is what `gdt_flush` loads.
pub mod Segments
use osver.Prelude.{ℕ, ◌-◌, ◌*◌, ◌^◌, ◌==◌, if◌then◌else◌, bit_and, bit_or}
use osver.Bits.{shr, shl}

-- `gdt_entry_t`
pub record GdtEntry : Type 0 where
  pub limit_low : ℕ
  pub base_low : ℕ
  pub base_mid : ℕ
  pub access : ℕ
  pub granularity : ℕ
  pub base_high : ℕ

abbrev pub sizeof_gdt_entry : ℕ
sizeof_gdt_entry = 8

-- `gdt_ptr_t`
pub record GdtPtr : Type 0 where
  pub limit : ℕ
  pub base : ℕ

abbrev pub gdt_entries : ℕ
gdt_entries = 6

abbrev pub gdt_kcode_sel : ℕ
gdt_kcode_sel = 0x08

abbrev pub gdt_kdata_sel : ℕ
gdt_kdata_sel = 0x10

abbrev pub gdt_ucode_sel : ℕ
gdt_ucode_sel = bit_or 0x18 3

abbrev pub gdt_udata_sel : ℕ
gdt_udata_sel = bit_or 0x20 3

abbrev pub gdt_tss_sel : ℕ
gdt_tss_sel = 0x28

-- `gdt` and `gdt_ptr`
pub record Gdt : Type 0 where
  pub gdt : ℕ → GdtEntry
  pub gdt_ptr : GdtPtr

-- the fields of an entry
unfoldable pub fields : ℕ → ℕ → ℕ → ℕ → GdtEntry
fields base limit access gran = record {
  limit_low = bit_and limit 0xFFFF;
  base_low = bit_and base 0xFFFF;
  base_mid = bit_and (shr base 16) 0xFF;
  access = access;
  granularity = bit_or (bit_and (shr limit 16) 0x0F) (bit_and gran 0xF0);
  base_high = bit_and (shr base 24) 0xFF;
}

unfoldable pub set_entry : ℕ → ℕ → ℕ → ℕ → ℕ → Gdt → Gdt
set_entry i base limit access gran s = record s {
  gdt = λ j. if j == i then fields base limit access gran else s.gdt j;
}

unfoldable pub gdt_set_tss : ℕ → ℕ → Gdt → Gdt
gdt_set_tss base limit s = set_entry 5 base limit 0x89 0x00 s

-- `address` is the one of `gdt`.
unfoldable pub gdt_init : ℕ → Gdt → Gdt
gdt_init address s =
    let s0 = record s {
      gdt_ptr = record { limit = gdt_entries * sizeof_gdt_entry - 1; base = address };
    } in
    let s1 = set_entry 0 0 0 0x00 0x00 s0 in
    let s2 = set_entry 1 0 0xFFFFFFFF 0x9A 0xCF s1 in
    let s3 = set_entry 2 0 0xFFFFFFFF 0x92 0xCF s2 in
    let s4 = set_entry 3 0 0xFFFFFFFF 0xFA 0xCF s3 in set_entry 4 0 0xFFFFFFFF 0xF2 0xCF s4
