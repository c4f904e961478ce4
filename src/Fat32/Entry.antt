-- ===== src/Fat32/Entry.antt =====
-- One entry of the allocation table in one sector: what `set_fat_entry` writes is what is read back.
use osver.Prelude.{
  ℕ, ◌+◌, ◌*◌, ◌/◌, ◌%◌, ◌^◌, ◌≤◌, ◌<◌, ◌≡◌, ◌≢◌, refl, ap, sym, ◌∙◌, Bool, true, false, Option,
  none, some, if◌then◌else◌, ◌==◌, eq_==, ne_==, ap₂, bit_and, bit_or, arith, ◌⊎◌, inl, inr,
  Bool-cases, ◌||◌, not,
}
use osver.Bits.{bit_and_low, bit_or_disjoint, bit_and_clear_low}
use osver.Ata.{Bytes, Disk, any_failing, ata_read, ata_write, put_sector, write_sectors}
use osver.Fat32.State.{Fat32, get32, put32}
use osver.Fat32.Table.{fat_lba, next_cluster, fat_offset, entry_in, patch_entry}

get32-put32 : (b : Bytes) (o v : ℕ) → get32 (put32 b o v) o ≡ v % 2 ^ 32
get32-put32 b o v = ground arith

merged :
    (old v : ℕ)
    → bit_and (bit_or (bit_and old 0xF0000000) (bit_and v 0x0FFFFFFF) % 2 ^ 32) 0x0FFFFFFF
      ≡ v % 2 ^ 28
merged old v =
    let e : bit_and old 0xF0000000 ≡ old / 2 ^ 28 % 2 ^ 4 * 2 ^ 28 = bit_and_clear_low 28 4 old in
    let m : bit_and v 0x0FFFFFFF ≡ v % 2 ^ 28 = bit_and_low 28 v in
    let j : bit_or (old / 2 ^ 28 % 2 ^ 4 * 2 ^ 28) (v % 2 ^ 28)
        ≡ old / 2 ^ 28 % 2 ^ 4 * 2 ^ 28 + v % 2 ^ 28 =
      bit_or_disjoint 28 (old / 2 ^ 28 % 2 ^ 4) (v % 2 ^ 28) (omega arith) in
    rw (e, m, j)
      (bit_and_low 28 ((old / 2 ^ 28 % 2 ^ 4 * 2 ^ 28 + v % 2 ^ 28) % 2 ^ 32) ∙ omega arith)

-- An entry that is patched reads as the low 28 bits of the new value.
pub entry_in-patch_entry : (c v : ℕ) (b : Bytes) → entry_in (patch_entry c v b) c ≡ v % 2 ^ 28
unfolding patch_entry
entry_in-patch_entry c v b =
    ap (λ n. bit_and n 0x0FFFFFFF)
      (get32-put32 b (fat_offset c)
        (bit_or (bit_and (get32 b (fat_offset c)) 0xF0000000) (bit_and v 0x0FFFFFFF)))
    ∙ merged (get32 b (fat_offset c)) v

apart : (b : Bytes) (o p v : ℕ) → p + 4 ≤ o ⊎ o + 4 ≤ p → get32 (put32 b o v) p ≡ get32 b p
apart b o p v (inl h) = ground arith
apart b o p v (inr h) = ground arith

offset_apart :
    (c d : ℕ)
    → fat_offset c ≢ fat_offset d
    → (fat_offset d + 4 ≤ fat_offset c) ⊎ (fat_offset c + 4 ≤ fat_offset d)
unfolding fat_offset
offset_apart c d h = ground arith

-- The other entries of the sector stay as they are.
pub entry_in-patch_entry_other :
    (c d v : ℕ) (b : Bytes)
    → fat_offset c ≢ fat_offset d
    → entry_in (patch_entry c v b) d ≡ entry_in b d
unfolding patch_entry
entry_in-patch_entry_other c d v b h =
    ap (λ n. bit_and n 0x0FFFFFFF)
      (apart b (fat_offset c) (fat_offset d)
        (bit_or (bit_and (get32 b (fat_offset c)) 0xF0000000) (bit_and v 0x0FFFFFFF))
        (offset_apart c d h))

entry_of : ℕ → Option Bytes → Option ℕ
entry_of c none = none
entry_of c (some b) = some (entry_in b c)

-- the entry of a cluster in the sector `lba`, if that can be read
pub entry_at : ℕ → ℕ → ℕ → Disk → Option ℕ
entry_at lba c drive d = entry_of c (ata_read drive lba 1 d)

offset_below : (n : ℕ) → fat_offset n + 3 < 512
unfolding fat_offset
offset_below n = omega arith

entry_in_cong :
    (a b : Bytes) (c : ℕ) → ((i : ℕ) → i < 512 → a i ≡ b i) → entry_in a c ≡ entry_in b c
entry_in_cong a b c h =
    let o = fat_offset c in
    let bound : o + 3 < 512 = offset_below c in
    rw
      (h o (omega arith), h (o + 1) (omega arith), h (o + 2) (omega arith), h (o + 3) (omega arith))
      refl

-- A read of one sector, as a function of the disk.
pub read_one :
    (drive lba : ℕ) (d : Disk)
    → ata_read drive lba 1 d ≡ (
        if not (bit_and lba 0xF0000000 == 0) || d.failing (bit_and drive 1) lba
        then none
        else some (λ i. d.sector (bit_and drive 1) (lba + i / 512) (i % 512)))
unfolding ata_read any_failing
read_one drive lba d = ground arith

-- a sector that an access refuses, or at which the controller fails
abbrev pub bad : ℕ → ℕ → Disk → Bool
bad drive lba d = not (bit_and lba 0xF0000000 == 0) || d.failing (bit_and drive 1) lba

entry_at-sector :
    (lba c drive : ℕ) (d : Disk)
    → entry_at lba c drive d
      ≡ (if bad drive lba d then none else some (entry_in (d.sector (bit_and drive 1) lba) c))
unfolding entry_at entry_of
entry_at-sector lba c drive d =
    let same : entry_in (λ i. d.sector (bit_and drive 1) (lba + i / 512) (i % 512)) c
        ≡ entry_in (d.sector (bit_and drive 1) lba) c =
      entry_in_cong _ _ c (λ i lt.
        let p : lba + i / 512 ≡ lba = omega arith in
        let q : i % 512 ≡ i = omega arith in ap₂ (d.sector (bit_and drive 1)) p q) in
    ap (entry_of c) (read_one drive lba d)
    ∙ (elim (Bool-cases (bad drive lba d)) [ inl t ↦ rw (t) refl | inr f ↦ rw (f, same) refl ])

pub entry_at-put_sector :
    (drive lba c : ℕ) (d : Disk) (x : Bytes)
    → bad drive lba d ≡ false
    → entry_at lba c drive (put_sector drive lba x d) ≡ some (entry_in x c)
unfolding put_sector
entry_at-put_sector drive lba c d x h =
    entry_at-sector lba c drive (put_sector drive lba x d)
    ∙ rw (h, eq_== (bit_and drive 1) (bit_and drive 1) refl, eq_== lba lba refl) refl

pub entry_at-put_sector_other :
    (drive lba l c : ℕ) (d : Disk) (x : Bytes)
    → lba ≢ l
    → entry_at l c drive (put_sector drive lba x d) ≡ entry_at l c drive d
unfolding put_sector
entry_at-put_sector_other drive lba l c d x h =
    entry_at-sector l c drive (put_sector drive lba x d)
    ∙ rw (eq_== (bit_and drive 1) (bit_and drive 1) refl, ne_== l lba (λ e. h (sym e)))
        (sym (entry_at-sector l c drive d))

pub read-bad :
    (drive lba : ℕ) (d : Disk) (b : Bytes)
    → ata_read drive lba 1 d ≡ some b
    → bad drive lba d ≡ false
read-bad drive lba d b h = let e = read_one drive lba d in ground arith

pub write_one :
    (drive lba : ℕ) (d : Disk) (b : Bytes)
    → bad drive lba d ≡ false
    → ata_write drive lba 1 b d ≡ (true, put_sector drive lba b d)
unfolding ata_write write_sectors
write_one drive lba d b h = ground arith

-- What `next_cluster` returns where the cached sector is not the cluster's.
pub next_cluster-entry_at :
    (c n : ℕ) (fs : Fat32)
    → (fat_lba 0 c fs == fs.fat_sector_cached_lba) ≡ false
    → entry_at (fat_lba 0 c fs) c fs.drive fs.disk ≡ some n
    → (next_cluster c fs).0 ≡ n
unfolding next_cluster entry_at entry_of
next_cluster-entry_at c n fs fresh h = ground arith
