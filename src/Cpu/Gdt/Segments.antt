-- ===== src/Cpu/Gdt/Segments.antt =====
-- What the processor reads from a descriptor, and the segments that the selectors of the kernel name.
use osver.Prelude.{ℕ, ◌+◌, ◌*◌, ◌/◌, ◌%◌, ◌^◌, ◌<◌, ◌≡◌, refl, ◌∙◌, bit_and, bit_or, arith}
use osver.Bits.{bit_and_low, bit_or_disjoint, bit_and_clear_low}
use osver.Bits.Single.{bit_or_comm}
use osver.Cpu.Gdt.{
  GdtEntry, Gdt, fields, set_entry, gdt_set_tss, gdt_init, gdt_kcode_sel, gdt_kdata_sel,
  gdt_ucode_sel, gdt_udata_sel,
}
use osver.Cpu.Tss.{Tss, tss_init, kernel_segment}

-- the base, the limit, the flags and the access byte that the fields stand for
pub base_of : GdtEntry → ℕ
base_of e = e.base_low + 2 ^ 16 * e.base_mid + 2 ^ 24 * e.base_high

pub limit_of : GdtEntry → ℕ
limit_of e = e.limit_low + 2 ^ 16 * (e.granularity % 2 ^ 4)

pub flags_of : GdtEntry → ℕ
flags_of e = e.granularity / 2 ^ 4

-- A selector is the index of an entry, shifted, with the privilege level in its two low bits.
pub entry_of : ℕ → Gdt → GdtEntry
entry_of sel s = s.gdt (sel / 8)

fields-base :
    (base limit access gran : ℕ) → base < 2 ^ 32 → base_of (fields base limit access gran) ≡ base
unfolding base_of fields
fields-base base limit access gran lt =
    ground
      (arith, bit_and_low 16 base, bit_and_low 8 (base / 2 ^ 16), bit_and_low 8 (base / 2 ^ 24))

gran_sum :
    (limit gran : ℕ)
    → bit_or (bit_and (limit / 2 ^ 16) 0x0F) (bit_and gran 0xF0)
      ≡ gran / 2 ^ 4 % 2 ^ 4 * 2 ^ 4 + limit / 2 ^ 16 % 2 ^ 4
gran_sum limit gran =
    let low = bit_and_low 4 (limit / 2 ^ 16) in
    let high = bit_and_clear_low 4 4 gran in
    rw (low, high)
      (bit_or_comm 8 (limit / 2 ^ 16 % 2 ^ 4) (gran / 2 ^ 4 % 2 ^ 4 * 2 ^ 4) (omega arith)
          (omega arith)
        ∙ bit_or_disjoint 4 (gran / 2 ^ 4 % 2 ^ 4) (limit / 2 ^ 16 % 2 ^ 4) (omega arith))

fields-limit :
    (base limit access gran : ℕ) → limit_of (fields base limit access gran) ≡ limit % 2 ^ 20
unfolding limit_of fields
fields-limit base limit access gran = ground (arith, bit_and_low 16 limit, gran_sum limit gran)

fields-flags :
    (base limit access gran : ℕ) → flags_of (fields base limit access gran) ≡ gran / 2 ^ 4 % 2 ^ 4
unfolding flags_of fields
fields-flags base limit access gran = ground (arith, gran_sum limit gran)

fields-access : (base limit access gran : ℕ) → (fields base limit access gran).access ≡ access
unfolding fields
fields-access base limit access gran = refl

-- What the processor takes from an entry: the base, the limit in its units, the access byte and the flags.
pub IsSegment : ℕ → ℕ → ℕ → ℕ → GdtEntry → Type 0
IsSegment base limit access flags e =
    (base_of e ≡ base) × (limit_of e ≡ limit) × (e.access ≡ access) × (flags_of e ≡ flags)

fields-IsSegment :
    (base limit access gran : ℕ)
    → base < 2 ^ 32
    → IsSegment base (limit % 2 ^ 20) access (gran / 2 ^ 4 % 2 ^ 4) (fields base limit access gran)
unfolding IsSegment
fields-IsSegment base limit access gran lt = (
  fields-base base limit access gran lt,
  fields-limit base limit access gran,
  fields-access base limit access gran,
  fields-flags base limit access gran,
)

-- After `gdt_init` and `tss_init`, each in any earlier state, the selectors of the kernel's and the users' code
-- and data name entries for all 4 GiB, in pages, with the privilege level of the selector; the null entry
-- is empty; the task register names the entry of the task state segment, at its address with its size, which
-- has the kernel's data segment as its stack and no stack pointer yet.
pub tss_init-segments :
    (table segment : ℕ) (g : Gdt) (s : Tss)
    → segment < 2 ^ 32
    → let s' = tss_init segment (record s { gdt = gdt_init table g }) in
      IsSegment 0 0 0 0 (entry_of 0 s'.gdt)
      × IsSegment 0 0xFFFFF 0x9A 0xC (entry_of gdt_kcode_sel s'.gdt)
      × IsSegment 0 0xFFFFF 0x92 0xC (entry_of gdt_kdata_sel s'.gdt)
      × IsSegment 0 0xFFFFF (0x9A + gdt_ucode_sel % 4 * 0x20) 0xC (entry_of gdt_ucode_sel s'.gdt)
      × IsSegment 0 0xFFFFF (0x92 + gdt_udata_sel % 4 * 0x20) 0xC (entry_of gdt_udata_sel s'.gdt)
      × IsSegment segment 103 0x89 0 (entry_of s'.task_register s'.gdt)
      × (s'.kernel_tss.ss0 ≡ gdt_kdata_sel)
      × (s'.kernel_tss.esp0 ≡ 0)
unfolding tss_init gdt_init set_entry gdt_set_tss entry_of kernel_segment
tss_init-segments table segment g s lt = (
  fields-IsSegment 0 0 0 0 (omega arith),
  fields-IsSegment 0 0xFFFFFFFF 0x9A 0xCF (omega arith),
  fields-IsSegment 0 0xFFFFFFFF 0x92 0xCF (omega arith),
  fields-IsSegment 0 0xFFFFFFFF 0xFA 0xCF (omega arith),
  fields-IsSegment 0 0xFFFFFFFF 0xF2 0xCF (omega arith),
  fields-IsSegment segment 103 0x89 0 lt,
  refl,
  refl,
)
