-- ===== src/Fat32/State.antt =====
-- The state of src/fs/fat32.c: the mounted volume, the cache of one FAT sector, and the disk. A
-- function of the file takes the state and returns its result with the new state; a walk of a
-- cluster chain carries fuel.
use osver.Prelude.{
  ℕ, ◌+◌, ◌*◌, ◌/◌, ◌%◌, ◌^◌, Bool, true, false, Option, bit_and, ◌==◌, if◌then◌else◌,
}
use osver.Ata.{Bytes, Disk, ata_read, ata_write}

-- the static variable `fs`, `fat_sector_buf` with its address, and the disk
pub record Fat32 : Type 0 where
  pub drive : ℕ
  pub sectors_per_cluster : ℕ
  pub num_fats : ℕ
  pub bytes_per_sector : ℕ
  pub fat_start_lba : ℕ
  pub data_start_lba : ℕ
  pub fat_size : ℕ
  pub total_clusters : ℕ
  pub root_cluster : ℕ
  pub cwd_cluster : ℕ
  pub alloc_hint : ℕ
  pub mounted : Bool
  pub fat_sector_buf : Bytes
  pub fat_sector_cached_lba : ℕ
  pub disk : Disk

pub data Run (A : Type 0) : Type 0 where
  ok : A → Fat32 → Run A
  out_of_fuel : Run A

abbrev pub M : Type 0 → Type 0
M A = Fat32 → Run A

abbrev pub pure : {A : Type 0} → A → M A
pure a fs = ok a fs

abbrev pub and_then : {A B : Type 0} → Run A → (A → M B) → Run B
and_then (ok a fs) k = k a fs
and_then out_of_fuel k = out_of_fuel

infixl 5 ◌>>=◌ ◌>>◌
abbrev pub ◌>>=◌ : {A B : Type 0} → M A → (A → M B) → M B
m >>= k = λ fs. and_then (m fs) k

abbrev pub ◌>>◌ : {A B : Type 0} → M A → M B → M B
m >> n = m >>= λ _. n

abbrev pub get : M Fat32
get fs = ok fs fs

-- a step that cannot fail to return
abbrev pub lift : {A : Type 0} → (Fat32 → A × Fat32) → M A
lift f fs = let (a, fs') = f fs in ok a fs'

abbrev pub read : ℕ → ℕ → M (Option Bytes)
read lba count fs = ok (ata_read fs.drive lba count fs.disk) fs

abbrev pub write : ℕ → ℕ → Bytes → M Bool
write lba count b fs =
    let (done, d) = ata_write fs.drive lba count b fs.disk in ok done (record fs { disk = d })

-- little-endian fields of a buffer
abbrev pub get16 : Bytes → ℕ → ℕ
get16 b o = b o + 256 * b (o + 1)

abbrev pub get32 : Bytes → ℕ → ℕ
get32 b o = b o + 256 * (b (o + 1) + 256 * (b (o + 2) + 256 * b (o + 3)))

abbrev pub put8 : Bytes → ℕ → ℕ → Bytes
put8 b o v i = if i == o then v % 256 else b i

abbrev pub put16 : Bytes → ℕ → ℕ → Bytes
put16 b o v = put8 (put8 b o v) (o + 1) (v / 256)

abbrev pub put32 : Bytes → ℕ → ℕ → Bytes
put32 b o v = put16 (put16 b o v) (o + 2) (v / 65536)

-- `fat32_dirent_t`, 32 bytes
abbrev pub Dirent : Type 0
Dirent = Bytes

abbrev pub attr : Dirent → ℕ
attr e = e 11

abbrev pub cluster_hi : Dirent → ℕ
cluster_hi e = get16 e 20

abbrev pub cluster_lo : Dirent → ℕ
cluster_lo e = get16 e 26

abbrev pub size : Dirent → ℕ
size e = get32 e 28

-- ((uint32_t)cluster_hi << 16) | cluster_lo, where the low part has 16 bits
abbrev pub start_cluster : Dirent → ℕ
start_cluster e = cluster_hi e * 2 ^ 16 + cluster_lo e

abbrev pub fat_attr_directory : ℕ
fat_attr_directory = 0x10

abbrev pub fat_attr_volume_id : ℕ
fat_attr_volume_id = 0x08

abbrev pub fat_attr_lfn : ℕ
fat_attr_lfn = 0x0F

abbrev pub is_directory : Dirent → Bool
is_directory e = if bit_and (attr e) fat_attr_directory == 0 then false else true
