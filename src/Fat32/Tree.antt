-- ===== src/Fat32/Tree.antt =====
-- The tree of directories: making and removing one, and the current one.
use osver.Prelude.{
  ℕ, ◌-◌, Bool, true, false, ◌&&◌, ◌||◌, not, some, none, List, [], ◌∷◌, ◌++◌, ltb, ◌==◌,
  if◌then◌else◌, replicate,
}
use osver.Ata.{Bytes}
use osver.Fat32.State.{
  Fat32, ok, M, pure, get, ◌>>=◌, ◌>>◌, write, Dirent, start_cluster, is_directory,
  fat_attr_directory,
}
use osver.Fat32.Name.{to_short_name}
use osver.Fat32.Table.{cluster_to_lba, alloc_cluster, free_chain}
use osver.Fat32.Dir.{
  DirLookup, search_dir, find_free_dirent_in, write_dirent, dir_is_empty, overlay,
}
use osver.Fat32.File.{new_entry, with_start, mark_deleted}

-- the names of the first two entries, in 11 bytes
unfoldable pub dot_name : List ℕ
dot_name = b'.' ∷ replicate 10 b' '

unfoldable pub dotdot_name : List ℕ
dotdot_name = b'.' ∷ b'.' ∷ replicate 9 b' '

-- an entry for a directory that starts at a cluster
unfoldable pub dir_entry : List ℕ → ℕ → Dirent
dir_entry name cluster = with_start cluster 0 (new_entry name fat_attr_directory)

-- the `cbuf` of a new directory
unfoldable pub fresh_directory : ℕ → ℕ → Bytes
unfolding dot_name dotdot_name dir_entry
fresh_directory new_cluster parent =
    overlay (overlay (λ i. 0) 0 32 (dir_entry dot_name new_cluster)) 32 32
      (dir_entry dotdot_name parent)

-- free_chain(cluster); return -1
abbrev pub undo : ℕ → M Bool
undo cluster = do free_chain cluster; pure false

-- the part of `fat32_mkdir` behind the allocation
unfoldable pub fill_directory : List ℕ → DirLookup → ℕ → M Bool
unfolding fresh_directory dir_entry
fill_directory target look cluster = do
  fs ← get
  let parent = if fs.cwd_cluster == fs.root_cluster then 0 else fs.cwd_cluster
  filled ← write (cluster_to_lba cluster fs) fs.sectors_per_cluster (fresh_directory cluster parent)
  if filled
      then (do
        entered ← write_dirent look.lba look.offset (dir_entry target cluster)
        if entered then pure true else undo cluster)
      else undo cluster

unfoldable pub fat32_mkdir : List ℕ → M Bool
fat32_mkdir name fs =
    if fs.mounted
    then (do
      let target = to_short_name name
      there ← search_dir fs.cwd_cluster target
      elim there [
        | some _ ↦ pure false
        | none ↦ (do
          slot ← find_free_dirent_in fs.cwd_cluster
          elim slot [
            | none ↦ pure false
            | some look ↦ (do
              cluster ← alloc_cluster
              if cluster == 0 then pure false else fill_directory target look cluster)
          ])
      ])
        fs
    else ok false fs

-- "." and ".."
abbrev pub is_dot : List ℕ → Bool
is_dot (c ∷ []) = c == b'.'
is_dot (_ ∷ _ ∷ _) = false
is_dot [] = false

abbrev pub is_dotdot : List ℕ → Bool
is_dotdot (c ∷ d ∷ []) = (c == b'.') && (d == b'.')
is_dotdot (_ ∷ _ ∷ _ ∷ _) = false
is_dotdot (_ ∷ []) = false
is_dotdot [] = false

abbrev pub is_slash : List ℕ → Bool
is_slash (c ∷ []) = c == b'/'
is_slash (_ ∷ _ ∷ _) = false
is_slash [] = false

unfoldable pub fat32_rmdir : List ℕ → M Bool
fat32_rmdir name fs =
    if fs.mounted && not (is_dot name || is_dotdot name)
    then (do
      there ← search_dir fs.cwd_cluster (to_short_name name)
      elim there [
        | none ↦ pure false
        | some look ↦ (do
          let cluster = start_cluster look.entry
          if not (is_directory look.entry) || ltb cluster 2 then pure false else (do
            empty ← dir_is_empty cluster
            if empty then (do free_chain cluster; mark_deleted look) else pure false))
      ])
        fs
    else ok false fs

abbrev pub enter : ℕ → M Bool
enter cluster fs = ok true (record fs { cwd_cluster = cluster })

-- a cluster of 0 stands for the root
abbrev pub enter_entry : Dirent → M Bool
enter_entry e fs = enter (if start_cluster e == 0 then fs.root_cluster else start_cluster e) fs

unfoldable pub chdir_up : M Bool
unfolding dotdot_name
chdir_up fs =
    if fs.cwd_cluster == fs.root_cluster
    then ok true fs
    else (do
      there ← search_dir fs.cwd_cluster dotdot_name
      elim there [ none ↦ pure false | some look ↦ enter_entry look.entry ])
        fs

unfoldable pub chdir_down : List ℕ → M Bool
chdir_down name fs =
    (do
      there ← search_dir fs.cwd_cluster (to_short_name name)
      elim there [
        | none ↦ pure false
        | some look ↦ if is_directory look.entry then enter_entry look.entry else pure false
      ])
      fs

unfoldable pub fat32_chdir : List ℕ → M Bool
unfolding chdir_up chdir_down
fat32_chdir name fs =
    if not fs.mounted
    then ok false fs
    else if is_slash name
    then enter fs.root_cluster fs
    else if is_dot name
    then ok true fs
    else if is_dotdot name
    then chdir_up fs
    else chdir_down name fs

-- Ends a token: an empty one is skipped.
unfoldable pub chdir_token : List ℕ → M Bool
chdir_token [] = pure true
chdir_token (c ∷ cs) = fat32_chdir (c ∷ cs)

-- The loop of `fat32_chdir_path` on the rest of the path with the token so far, of which `room`
-- characters more are kept.
unfoldable pub path_loop : List ℕ → List ℕ → ℕ → M Bool
unfolding chdir_token
path_loop [] tok room = chdir_token tok
path_loop (c ∷ cs) tok room =
    if c == b'/'
    then (do entered ← chdir_token tok; if entered then path_loop cs [] 15 else pure false)
    else if room == 0
    then path_loop cs tok room
    else path_loop cs (tok ++ (c ∷ [])) (room - 1)

-- The leading slash, where there is one, has been passed.
abbrev pub from_start : List ℕ → M Bool
from_start [] = pure true
from_start (c ∷ cs) =
    if c == b'/'
    then (λ fs. path_loop cs [] 15 (record fs { cwd_cluster = fs.root_cluster }))
    else path_loop (c ∷ cs) [] 15

unfoldable pub fat32_chdir_path : List ℕ → M Bool
unfolding path_loop
fat32_chdir_path path fs = if fs.mounted then from_start path fs else ok false fs

unfoldable pub fat32_cwd_cluster : Fat32 → ℕ
fat32_cwd_cluster fs = fs.cwd_cluster

unfoldable pub fat32_set_cwd_cluster : ℕ → Fat32 → Fat32
fat32_set_cwd_cluster cluster fs =
    if fs.mounted
    then record fs { cwd_cluster = if ltb cluster 2 then fs.root_cluster else cluster }
    else fs
