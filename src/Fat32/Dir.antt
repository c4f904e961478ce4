-- ===== src/Fat32/Dir.antt =====
-- Directories: listing, searching, and writing an entry.
use osver.Prelude.{
  ℕ, zero, suc, ◌+◌, ◌-◌, ◌*◌, ◌/◌, ◌%◌, ◌^◌, Bool, true, false, ◌&&◌, ◌||◌, not, Option, some,
  none, List, bit_and, ltb, ◌==◌, if◌then◌else◌,
}
use osver.Ata.{Bytes}
use osver.Fat32.State.{
  ok, out_of_fuel, M, pure, get, ◌>>=◌, read, write, Dirent, attr, fat_attr_lfn, fat_attr_volume_id,
}
use osver.Fat32.Name.{format_short_name, str_eq_ci, sname_eq}
use osver.Fat32.Table.{is_eoc, next_cluster, read_cluster, cluster_to_lba, walk_fuel}

-- the 32 bytes at an offset of a buffer
abbrev pub dirent_at : Bytes → ℕ → Dirent
dirent_at b o i = b (o + i)

-- deleted, part of a long name, or a volume label
unfoldable pub is_skipped : Dirent → Bool
is_skipped e =
    (e 0 == 0xE5) || (attr e == fat_attr_lfn) || not (bit_and (attr e) fat_attr_volume_id == 0)

abbrev pub step : ℕ → M ℕ
step c fs = let (n, fs') = next_cluster c fs in ok n fs'

abbrev pub in_chain : ℕ → Bool
in_chain cluster = not (is_eoc cluster) && not (ltb cluster 2)

-- The visitor of `fat32_listdir` with its context is a step on a value.
module _ {S : Type 0} (visit : Dirent → S → S) where
  -- the entries of one cluster from `i` on, and whether the end of the directory was met
  unfoldable pub list_entries : ℕ → ℕ → Bytes → S → S × Bool
  list_entries zero i b ctx = (ctx, false)
  list_entries (suc left) i b ctx =
      let e = dirent_at b (i * 32) in
      let rest = list_entries left (i + 1) b (if is_skipped e then ctx else visit e ctx) in
      if e 0 == 0 then (ctx, true) else rest

  unfoldable pub list_loop : ℕ → ℕ → S → M S
  list_loop zero cluster ctx = λ _. out_of_fuel
  list_loop (suc fuel) cluster ctx =
      if in_chain cluster
      then (do
        fs ← get
        elim (read_cluster cluster fs) [
          | none ↦ pure ctx
          | some b ↦ (do
            let r = list_entries (fs.sectors_per_cluster * 512 / 32) 0 b ctx
            if r.1 then pure r.0 else (do n ← step cluster; list_loop fuel n r.0))
        ])
      else pure ctx

  unfoldable pub fat32_listdir : ℕ → S → M S
  fat32_listdir start ctx fs = if fs.mounted then list_loop walk_fuel start ctx fs else ok ctx fs

-- `find_visitor`: the first entry whose printed name is the target, case ignored
unfoldable pub find_visitor : List ℕ → Dirent → Option Dirent → Option Dirent
find_visitor target e (some found) = some found
find_visitor target e none = if str_eq_ci (format_short_name e) target then some e else none

unfoldable pub fat32_find : List ℕ → M (Option Dirent)
fat32_find name fs =
    if fs.mounted then fat32_listdir (find_visitor name) fs.cwd_cluster none fs else ok none fs

unfoldable pub fat32_find_in_root : List ℕ → M (Option Dirent)
fat32_find_in_root name fs =
    if fs.mounted then fat32_listdir (find_visitor name) fs.root_cluster none fs else ok none fs

-- `dir_lookup_t`
pub record DirLookup : Type 0 where
  pub entry : Dirent
  pub lba : ℕ
  pub offset : ℕ

-- What the loops of `search_dir`, `find_free_dirent_in` and `dir_is_empty` make of an entry: it ends
-- the directory, is passed over, or is the one that is looked for.
pub data Verdict : Type 0 where
  ends passed wanted : Verdict

-- How such a walk ends: with a read error, at the end mark, at an entry, or with the chain.
pub data Walk : Type 0 where
  failed : Walk
  ended : Walk
  hit : DirLookup → Walk
  exhausted : Walk

module _ (judge : Dirent → Verdict) where
  -- the 16 entries of a sector; `exhausted` here and below: nothing yet
  unfoldable pub scan_entries : ℕ → ℕ → ℕ → Bytes → Walk
  scan_entries zero i lba b = exhausted
  scan_entries (suc left) i lba b =
      let rest = scan_entries left (i + 1) lba b in
      elim (judge (dirent_at b (i * 32))) [
        | ends ↦ ended
        | passed ↦ rest
        | wanted ↦ hit (record { entry = dirent_at b (i * 32); lba = lba; offset = i * 32 })
      ]

  -- the sectors of a cluster from `s` on
  unfoldable pub scan_sectors : ℕ → ℕ → ℕ → M Walk
  scan_sectors zero s base = pure exhausted
  scan_sectors (suc left) s base = do
    sector ← read ((base + s) % 2 ^ 32) 1
    elim sector [
      | none ↦ pure failed
      | some b ↦ elim (scan_entries 16 0 ((base + s) % 2 ^ 32) b) [
        | exhausted ↦ scan_sectors left (s + 1) base
        | failed ↦ pure failed
        | ended ↦ pure ended
        | hit l ↦ pure (hit l)
      ]
    ]

  unfoldable pub scan_loop : ℕ → ℕ → M Walk
  scan_loop zero cluster = λ _. out_of_fuel
  scan_loop (suc fuel) cluster =
      if in_chain cluster
      then (do
        fs ← get
        w ← scan_sectors fs.sectors_per_cluster 0 (cluster_to_lba cluster fs)
        elim w [
          | exhausted ↦ (do n ← step cluster; scan_loop fuel n)
          | failed ↦ pure failed
          | ended ↦ pure ended
          | hit l ↦ pure (hit l)
        ])
      else pure exhausted

abbrev pub found : Walk → Option DirLookup
found failed = none
found ended = none
found (hit l) = some l
found exhausted = none

unfoldable pub is_target : List ℕ → Dirent → Verdict
is_target target e =
    if e 0 == 0
    then ends
    else if is_skipped e
    then passed
    else if sname_eq e 0 target
    then wanted
    else passed

unfoldable pub search_dir : ℕ → List ℕ → M (Option DirLookup)
search_dir start target = do w ← scan_loop (is_target target) walk_fuel start; pure (found w)

unfoldable pub is_free_slot : Dirent → Verdict
is_free_slot e = if (e 0 == 0) || (e 0 == 0xE5) then wanted else passed

unfoldable pub find_free_dirent_in : ℕ → M (Option DirLookup)
find_free_dirent_in start = do w ← scan_loop is_free_slot walk_fuel start; pure (found w)

unfoldable pub is_other_entry : Dirent → Verdict
is_other_entry e =
    if e 0 == 0
    then ends
    else if is_skipped e
    then passed
    else if (e 0 == b'.') && ((e 1 == b' ') || (e 1 == b'.'))
    then passed
    else wanted

abbrev pub empty_by : Walk → Bool
empty_by failed = false
empty_by ended = true
empty_by (hit _) = false
empty_by exhausted = true

unfoldable pub dir_is_empty : ℕ → M Bool
dir_is_empty start = do w ← scan_loop is_other_entry walk_fuel start; pure (empty_by w)

-- `n` bytes of a buffer are replaced by those of another from an offset on
unfoldable pub overlay : Bytes → ℕ → ℕ → Bytes → Bytes
overlay b o n e i = if not (ltb i o) && ltb i (o + n) then e (i - o) else b i

unfoldable pub write_dirent : ℕ → ℕ → Dirent → M Bool
write_dirent lba offset e = do
  sector ← read lba 1
  elim sector [ none ↦ pure false | some b ↦ write lba 1 (overlay b offset 32 e) ]
