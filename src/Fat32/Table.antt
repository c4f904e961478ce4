-- ===== src/Fat32/Table.antt =====
-- The volume and its allocation table: mounting, cluster addresses, reading and writing table
-- entries, allocating a cluster and freeing a chain.
use osver.Prelude.{
  ℕ, zero, suc, ◌+◌, ◌-◌, ◌*◌, ◌/◌, ◌%◌, ◌^◌, Bool, true, false, ◌&&◌, not, Option, some, none,
  bit_and, bit_or, ltb, leb, ◌==◌, if◌then◌else◌,
}
use osver.Ata.{Bytes, ata_read}
use osver.Fat32.State.{
  Fat32, ok, out_of_fuel, M, pure, get, ◌>>=◌, ◌>>◌, read, write, get16, get32, put32,
}

-- FAT32_CLUSTER_BUF_MAX, and the value by which `fat_sector_cached_lba` says that nothing is cached
abbrev pub cluster_buf_max : ℕ
cluster_buf_max = 128 * 512

abbrev pub no_lba : ℕ
no_lba = 0xFFFFFFFF

-- `bpb32_t`, the fields that the code reads at their offsets in the boot sector
pub record Bpb : Type 0 where
  pub bytes_per_sector : ℕ
  pub sectors_per_cluster : ℕ
  pub reserved_sectors : ℕ
  pub num_fats : ℕ
  pub total_sectors_16 : ℕ
  pub total_sectors_32 : ℕ
  pub fat_size_32 : ℕ
  pub root_cluster : ℕ

unfoldable pub read_bpb : Bytes → Bpb
read_bpb b = record {
  bytes_per_sector = get16 b 11;
  sectors_per_cluster = b 13;
  reserved_sectors = get16 b 14;
  num_fats = b 16;
  total_sectors_16 = get16 b 19;
  total_sectors_32 = get32 b 32;
  fat_size_32 = get32 b 36;
  root_cluster = get32 b 44;
}

-- The guards of `fat32_mount` on the boot sector.
unfoldable pub is_fat32 : Bpb → Bool
is_fat32 p =
    (p.bytes_per_sector == 512)
    && not (p.sectors_per_cluster == 0)
    && not (p.fat_size_32 == 0)
    && leb (p.sectors_per_cluster * 512) cluster_buf_max

unfoldable pub volume : ℕ → Bpb → Fat32 → Fat32
volume drive p fs =
    let data_start = (p.reserved_sectors + p.num_fats * p.fat_size_32) % 2 ^ 32 in
    let total_sec = if p.total_sectors_32 == 0 then p.total_sectors_16 else p.total_sectors_32 in
    record fs {
      drive = drive;
      bytes_per_sector = p.bytes_per_sector;
      sectors_per_cluster = p.sectors_per_cluster;
      num_fats = p.num_fats;
      fat_start_lba = p.reserved_sectors;
      fat_size = p.fat_size_32;
      data_start_lba = data_start;
      root_cluster = p.root_cluster;
      cwd_cluster = p.root_cluster;
      mounted = true;
      alloc_hint = 2;
      fat_sector_cached_lba = no_lba;
      total_clusters = (total_sec + 2 ^ 32 - data_start) % 2 ^ 32 / p.sectors_per_cluster;
    }

-- `true` is 0, `false` is -1, here and below.
pub fat32_mount : ℕ → Fat32 → Bool × Fat32
fat32_mount drive fs = elim (ata_read drive 0 1 fs.disk) [
  | none ↦ (false, fs)
  | some boot ↦
      let p = read_bpb boot in if is_fat32 p then (true, volume drive p fs) else (false, fs)
]

unfoldable pub cluster_to_lba : ℕ → Fat32 → ℕ
cluster_to_lba cluster fs =
    (fs.data_start_lba + (cluster + 2 ^ 32 - 2) % 2 ^ 32 * fs.sectors_per_cluster) % 2 ^ 32

unfoldable pub is_eoc : ℕ → Bool
is_eoc cluster = leb 0x0FFFFFF8 (bit_and cluster 0x0FFFFFFF)

-- the sector of the first FAT that holds the entry of a cluster, and the entry's offset there
unfoldable pub fat_lba : ℕ → ℕ → Fat32 → ℕ
fat_lba fat cluster fs =
    (fs.fat_start_lba + fat * fs.fat_size + cluster * 4 % 2 ^ 32 / 512) % 2 ^ 32

unfoldable pub fat_offset : ℕ → ℕ
fat_offset cluster = cluster * 4 % 2 ^ 32 % 512

abbrev pub entry_in : Bytes → ℕ → ℕ
entry_in b cluster = bit_and (get32 b (fat_offset cluster)) 0x0FFFFFFF

unfoldable pub next_cluster : ℕ → Fat32 → ℕ × Fat32
next_cluster cluster fs =
    let lba = fat_lba 0 cluster fs in
    if lba == fs.fat_sector_cached_lba
    then (entry_in fs.fat_sector_buf cluster, fs)
    else elim (ata_read fs.drive lba 1 fs.disk) [
      | none ↦ (0x0FFFFFFF, fs)
      | some b ↦ (entry_in b cluster, record fs { fat_sector_buf = b; fat_sector_cached_lba = lba })
    ]

-- the cluster's bytes, as they come into `cluster_buf`
unfoldable pub read_cluster : ℕ → Fat32 → Option Bytes
read_cluster cluster fs =
    ata_read fs.drive (cluster_to_lba cluster fs) fs.sectors_per_cluster fs.disk

-- A new entry value keeps the four reserved bits of the old one.
unfoldable pub patch_entry : ℕ → ℕ → Bytes → Bytes
patch_entry cluster value b =
    let o = fat_offset cluster in
    put32 b o (bit_or (bit_and (get32 b o) 0xF0000000) (bit_and value 0x0FFFFFFF))

-- the loop of `set_fat_entry` over the copies of the table from `f` on
unfoldable pub set_copies : ℕ → ℕ → ℕ → ℕ → M Bool
set_copies zero f cluster value = pure true
set_copies (suc left) f cluster value = do
  fs ← get
  sector ← read (fat_lba f cluster fs) 1
  elim sector [
    | none ↦ pure false
    | some b ↦ do
      written ← write (fat_lba f cluster fs) 1 (patch_entry cluster value b)
      elim written [ true ↦ set_copies left (f + 1) cluster value | false ↦ pure false ]
  ]

-- The cached sector is dropped at the end, and not where a copy fails.
unfoldable pub set_fat_entry : ℕ → ℕ → M Bool
set_fat_entry cluster value = do
  fs ← get
  done ← set_copies fs.num_fats 0 cluster value
  if done then (λ fs'. ok true (record fs' { fat_sector_cached_lba = no_lba })) else pure false

-- the loop of `alloc_cluster` from round `i` on; 0 says that no cluster was found
unfoldable pub alloc_loop : ℕ → ℕ → M ℕ
alloc_loop zero i = pure 0
alloc_loop (suc left) i = do
  fs ← get
  let total = (fs.total_clusters + 2) % 2 ^ 32
  let c0 = (fs.alloc_hint + i) % 2 ^ 32
  let c = if leb total c0 then 2 + (c0 - total) else c0
  n ← (λ s. let (v, s') = next_cluster c s in ok v s')
  if n == 0
      then (do
        done ← set_fat_entry c 0x0FFFFFFF
        if done then (λ s. ok c (record s { alloc_hint = (c + 1) % 2 ^ 32 })) else pure 0)
      else alloc_loop left (i + 1)

unfoldable pub alloc_cluster : M ℕ
alloc_cluster fs =
    if fs.total_clusters == 0
    then ok 0 fs
    else alloc_loop fs.total_clusters 0
        (if ltb fs.alloc_hint 2 then record fs { alloc_hint = 2 } else fs)

-- Cluster numbers have 28 bits, so no chain without a cycle is longer.
pub walk_fuel : ℕ
walk_fuel = 2 ^ 28

unfoldable pub free_loop : ℕ → ℕ → M (Unit {0})
free_loop zero c = λ _. out_of_fuel
free_loop (suc fuel) c =
    if leb 2 c && not (is_eoc c)
    then (do
      n ← (λ s. let (v, s') = next_cluster c s in ok v s')
      set_fat_entry c 0
      free_loop fuel n)
    else pure tt

unfoldable pub free_chain : ℕ → M (Unit {0})
free_chain start = free_loop walk_fuel start
