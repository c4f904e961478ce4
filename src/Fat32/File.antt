-- ===== src/Fat32/File.antt =====
-- Files: reading, creating, removing and writing one.
use osver.Prelude.{
  ℕ, zero, suc, ◌-◌, ◌*◌, ◌/◌, ◌^◌, Bool, true, false, ◌&&◌, not, Option, some, none, List, [], ◌∷◌,
  ◌++◌, ltb, leb, ◌==◌, if◌then◌else◌, take, drop, length,
}
use osver.Ata.{Bytes}
use osver.Fat32.State.{
  ok, out_of_fuel, M, pure, get, ◌>>=◌, ◌>>◌, read, write, put16, put32, put8, Dirent, size,
  start_cluster, is_directory,
}
use osver.Fat32.Name.{to_short_name}
use osver.Fat32.Table.{
  read_cluster, cluster_to_lba, walk_fuel, set_fat_entry, alloc_cluster, free_chain,
}
use osver.Fat32.Dir.{in_chain, step, DirLookup, search_dir, find_free_dirent_in, write_dirent}

-- the first `n` bytes of a buffer
unfoldable pub bytes_of : ℕ → Bytes → List ℕ
bytes_of zero b = []
bytes_of (suc n) b = b 0 ∷ bytes_of n (λ i. b (suc i))

-- The loop of `fat32_read_file` with `left` bytes to go and those before them; `none` is -1.
unfoldable pub read_loop : ℕ → ℕ → ℕ → List ℕ → M (Option (List ℕ))
unfolding bytes_of
read_loop zero cluster left before = λ _. out_of_fuel
read_loop (suc fuel) cluster left before =
    if in_chain cluster && not (left == 0)
    then (do
      fs ← get
      elim (read_cluster cluster fs) [
        | none ↦ pure none
        | some b ↦ (do
          let chunk = fs.sectors_per_cluster * 512
          let copy = if ltb left chunk then left else chunk
          n ← step cluster
          read_loop fuel n (left - copy) (before ++ bytes_of copy b))
      ])
    else pure (some before)

-- What the code puts into `buf`; its result is the number of these bytes.
unfoldable pub fat32_read_file : Dirent → ℕ → M (Option (List ℕ))
fat32_read_file e max fs =
    if fs.mounted
    then read_loop walk_fuel (start_cluster e) (if ltb max (size e) then max else size e) [] fs
    else ok none fs

-- bytes 0 … of an entry with this name and attribute, no cluster and no size
unfoldable pub new_entry : List ℕ → ℕ → Dirent
new_entry [] a i = if i == 0 then a else 0
new_entry (c ∷ cs) a zero = c
new_entry (c ∷ cs) a (suc i) = new_entry cs a i

-- `cluster_lo`, `cluster_hi` and `size` are set
unfoldable pub with_start : ℕ → ℕ → Dirent → Dirent
with_start cluster n e = put32 (put16 (put16 e 26 cluster) 20 (cluster / 2 ^ 16)) 28 n

unfoldable pub fat_attr_archive : ℕ
fat_attr_archive = 0x20

unfoldable pub fat32_create : List ℕ → M Bool
unfolding fat_attr_archive
fat32_create name fs =
    if fs.mounted
    then (do
      let target = to_short_name name
      there ← search_dir fs.cwd_cluster target
      elim there [
        | some _ ↦ pure false
        | none ↦ (do
          slot ← find_free_dirent_in fs.cwd_cluster
          elim slot [
            | none ↦ pure false
            | some look ↦ write_dirent look.lba look.offset (new_entry target fat_attr_archive)
          ])
      ])
        fs
    else ok false fs

-- the deletion mark, the tail of `fat32_remove` and `fat32_rmdir`
unfoldable pub mark_deleted : DirLookup → M Bool
mark_deleted look = do
  sector ← read look.lba 1
  elim sector [ none ↦ pure false | some b ↦ write look.lba 1 (put8 b look.offset 0xE5) ]

-- if (start >= 2) free_chain(start)
abbrev pub free_if : ℕ → M (Unit {0})
free_if start = if leb 2 start then free_chain start else pure tt

unfoldable pub fat32_remove : List ℕ → M Bool
unfolding mark_deleted
fat32_remove name fs =
    if fs.mounted
    then (do
      there ← search_dir fs.cwd_cluster (to_short_name name)
      elim there [
        | none ↦ pure false
        | some look ↦
            if is_directory look.entry
            then pure false
            else (do free_if (start_cluster look.entry); mark_deleted look)
      ])
        fs
    else ok false fs

-- the bytes `cbuf` of one cluster: data, then zeros
unfoldable pub cluster_data : List ℕ → Bytes
cluster_data [] i = 0
cluster_data (c ∷ cs) zero = c
cluster_data (c ∷ cs) (suc i) = cluster_data cs i

-- free_chain(first); return -1
unfoldable pub give_up : ℕ → M (Option ℕ)
give_up first = if first == 0 then pure none else (do free_chain first; pure none)

-- `prev` is linked to `c`, where there is one
unfoldable pub link_to : ℕ → ℕ → M Bool
link_to prev c = if prev == 0 then pure true else set_fat_entry prev c

-- The loop that allocates and writes: `first` and `prev` are 0 at its start, and the data still to
-- write is `data`. The result is `first`. Each round takes `cluster_size` bytes off the data, and a
-- volume that is mounted has clusters of at least 512 bytes, so fuel above the length is enough.
unfoldable pub write_loop : ℕ → ℕ → ℕ → List ℕ → M (Option ℕ)
unfolding cluster_data give_up link_to
write_loop zero first prev data' = λ _. out_of_fuel
write_loop (suc fuel) first prev [] = pure (some first)
write_loop (suc fuel) first prev (byte ∷ bytes) = do
  fs ← get
  c ← alloc_cluster
  let first' = if first == 0 then c else first
  let n = fs.sectors_per_cluster * 512
  if c == 0 then give_up first else (do
    linked ← link_to prev c
    if linked
        then (do
          here ← get
          written ←
              write (cluster_to_lba c here) fs.sectors_per_cluster
                (cluster_data (take n (byte ∷ bytes)))
          if written then write_loop fuel first' c (drop n (byte ∷ bytes)) else give_up first')
        else give_up first')

-- where the entry goes and what it is, for `fat32_write_file`
unfoldable pub writable_entry : List ℕ → M (Option DirLookup)
unfolding fat_attr_archive
writable_entry target = do
  fs ← get
  there ← search_dir fs.cwd_cluster target
  elim there [
    | some look ↦ if is_directory look.entry then pure none else (do
      free_if (start_cluster look.entry)
      pure (some (record look { entry = with_start 0 0 look.entry })))
    | none ↦ (do
      slot ← find_free_dirent_in fs.cwd_cluster
      elim slot [
        | none ↦ pure none
        | some look ↦ pure (some (record look { entry = new_entry target fat_attr_archive }))
      ])
  ]

unfoldable pub fat32_write_file : List ℕ → List ℕ → M Bool
fat32_write_file name data' fs =
    if fs.mounted
    then (do
      entry ← writable_entry (to_short_name name)
      elim entry [
        | none ↦ pure false
        | some look ↦ (do
          written ← write_loop (suc (length data')) 0 0 data'
          elim written [
            | none ↦ pure false
            | some first ↦
                write_dirent look.lba look.offset (with_start first (length data') look.entry)
          ])
      ])
        fs
    else ok false fs
