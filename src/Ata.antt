-- ===== src/Ata.antt =====
-- The disk as src/drivers/ata.c shows it to its callers: sectors of 512 bytes on two drives, read
-- and written by LBA28 address. The port protocol with the controller is not modelled; whether the
-- controller reports an error at a sector is a property of the hardware.
use osver.Prelude.{
  ℕ, zero, suc, ◌+◌, ◌/◌, ◌%◌, Bool, true, false, ◌&&◌, ◌||◌, Option, some, none, bit_and, ◌==◌,
  if◌then◌else◌, not,
}

-- a buffer, from an offset to the byte there
abbrev pub Bytes : Type 0
Bytes = ℕ → ℕ

pub record Disk : Type 0 where
  pub sector : ℕ → ℕ → Bytes
  pub failing : ℕ → ℕ → Bool

-- do any of `count` sectors from `lba` on fail?
unfoldable pub any_failing : ℕ → ℕ → ℕ → Disk → Bool
any_failing drive lba zero d = false
any_failing drive lba (suc count) d =
    d.failing (bit_and drive 1) lba || any_failing drive (lba + 1) count d

-- `none` is -1. The sectors of a read follow one another in the buffer.
unfoldable pub ata_read : ℕ → ℕ → ℕ → Disk → Option Bytes
unfolding any_failing
ata_read drive lba count d =
    if count == 0
    then some (λ i. 0)
    else if not (bit_and lba 0xF0000000 == 0)
    then none
    else if any_failing drive lba count d
    then none
    else some (λ i. d.sector (bit_and drive 1) (lba + i / 512) (i % 512))

-- one sector of a write
unfoldable pub put_sector : ℕ → ℕ → Bytes → Disk → Disk
put_sector drive lba b d = record d {
  sector = λ v l. if (v == bit_and drive 1) && (l == lba) then b else d.sector v l;
}

-- Sectors before a failing one are written.
unfoldable pub write_sectors : ℕ → ℕ → ℕ → Bytes → Disk → Bool × Disk
unfolding put_sector
write_sectors drive lba zero b d = (true, d)
write_sectors drive lba (suc count) b d =
    let rest = write_sectors drive (lba + 1) count (λ i. b (512 + i)) (put_sector drive lba b d) in
    if d.failing (bit_and drive 1) lba then (false, d) else rest

-- `true` is 0, `false` is -1.
unfoldable pub ata_write : ℕ → ℕ → ℕ → Bytes → Disk → Bool × Disk
unfolding write_sectors
ata_write drive lba count b d =
    if count == 0
    then (true, d)
    else if not (bit_and lba 0xF0000000 == 0)
    then (false, d)
    else write_sectors drive lba count b d
