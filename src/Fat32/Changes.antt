-- ===== src/Fat32/Changes.antt =====
-- Making and removing files and directories leaves the place alone.
use osver.Prelude.{
  ℕ, refl, Bool, false, not, ◌&&◌, ◌||◌, leb, ltb, inl, inr, Bool-cases, Option-cases, ◌==◌,
  if◌then◌else◌, Option, none, some, List,
}
use osver.Fat32.State
use osver.Fat32.State.{
  Fat32, Run, ok, out_of_fuel, M, pure, Dirent, start_cluster, is_directory, put8, size,
}
use osver.Ata.{Bytes, ata_read, ata_write}
use osver.Fat32.Name.{to_short_name}
use osver.Fat32.Table.{cluster_to_lba, free_chain, alloc_cluster}
use osver.Fat32.Keeps.{Kept, Keeps, SamePlace, same_place, Kept-option, Kept-bind, Kept-disk}
use osver.Fat32.Stays.{Keeps-free_chain, Keeps-alloc_cluster}
use osver.Fat32.Walks.{Keeps-search_dir, Keeps-find_free_dirent_in, Keeps-dir_is_empty}
use osver.Fat32.Dir.{
  search_dir, find_free_dirent_in, dir_is_empty, DirLookup, write_dirent, overlay,
}
use osver.Fat32.File.{
  fat32_create, fat32_remove, mark_deleted, free_if, new_entry, fat_attr_archive,
}
use osver.Fat32.Tree.{
  fat32_mkdir, fat32_rmdir, fill_directory, undo, dir_entry, fresh_directory, is_dot, is_dotdot,
}

-- a call that needs a volume
pub Kept-mounted :
    {A : Type 0} (fs : Fat32) (a : A) (r : Run A)
    → Kept fs r
    → Kept fs (if fs.mounted then r else ok a fs)
Kept-mounted fs a r h = elim (Bool-cases fs.mounted) [
  | inl e ↦ simp e h
  | inr e ↦ simp e (same_place fs)
]

-- the last write of an operation
wrote :
    (lba count : ℕ) (b : Bytes) (fs : Fat32)
    → SamePlace fs (record fs { disk = (ata_write fs.drive lba count b fs.disk).1 })
wrote lba count b fs = record { mounted = refl; root = refl; cwd = refl }

pub Keeps-write_dirent : (lba offset : ℕ) (e : Dirent) → Keeps (write_dirent lba offset e)
unfolding write_dirent Keeps
Keeps-write_dirent lba offset e fs =
    Kept-option fs (ata_read fs.drive lba 1 fs.disk) _ _ (same_place fs)
      (λ b. wrote lba 1 (overlay b offset 32 e) fs)

Keeps-mark_deleted : (look : DirLookup) → Keeps (mark_deleted look)
unfolding mark_deleted Keeps
Keeps-mark_deleted look fs =
    Kept-option fs (ata_read fs.drive look.lba 1 fs.disk) _ _ (same_place fs)
      (λ b. wrote look.lba 1 (put8 b look.offset 0xE5) fs)

pub Keeps-free_if : (start : ℕ) → Keeps (free_if start)
unfolding Keeps
Keeps-free_if start fs = elim (Bool-cases (leb 2 start)) [
  | inl e ↦ rw e (Keeps-free_chain start fs)
  | inr e ↦ rw e (same_place fs)
]

-- behind a search for a name
pub Kept-search :
    {A : Type 0} (start : ℕ) (target : List ℕ) (k : Option DirLookup → M A)
    → ((o : Option DirLookup) → Keeps (k o))
    → (fs : Fat32) → Kept fs (State.and_then (search_dir start target fs) k)
unfolding Keeps
Kept-search start target k hk fs =
    Kept-bind fs (search_dir start target fs) k (Keeps-search_dir start target fs) hk

-- behind a search for a free slot: there is one, or the result is the failure
Kept-slot :
    {A : Type 0} (start : ℕ) (a : A) (k : DirLookup → M A)
    → ((look : DirLookup) → Keeps (k look))
    → (fs : Fat32)
    → Kept fs (
        State.and_then
          (find_free_dirent_in start fs)
          (λ slot. elim slot as (λ _. M A) [ none ↦ pure a | some look ↦ k look ]))
unfolding Keeps
Kept-slot start a k hk fs =
    Kept-bind fs (find_free_dirent_in start fs) _ (Keeps-find_free_dirent_in start fs)
      (λ slot s. Kept-option s slot (pure a) k (same_place s) (λ look. hk look s))

pub Keeps-fat32_create : (name : List ℕ) → Keeps (fat32_create name)
unfolding fat32_create Keeps
Keeps-fat32_create name fs = Kept-mounted fs false _ (
    Kept-search fs.cwd_cluster (to_short_name name) _
      (λ there s. elim (Option-cases there) [
        | inr (l, e) ↦ rw e (same_place s)
        | inl e ↦ rw e (
            Kept-slot fs.cwd_cluster false
              (λ look.
                write_dirent look.lba look.offset (new_entry (to_short_name name) fat_attr_archive))
              (λ look.
                Keeps-write_dirent look.lba look.offset
                  (new_entry (to_short_name name) fat_attr_archive))
              s)
      ])
      fs)

pub Keeps-fat32_remove : (name : List ℕ) → Keeps (fat32_remove name)
unfolding fat32_remove Keeps
Keeps-fat32_remove name fs = Kept-mounted fs false _ (
    Kept-search fs.cwd_cluster (to_short_name name) _
      (λ there s. Kept-option s there _ _ (same_place s) (λ look.
        elim (Bool-cases (is_directory look.entry)) [
          | inl e ↦ rw e (same_place s)
          | inr e ↦ rw e (
              Kept-bind s (free_if (start_cluster look.entry) s) _
                (Keeps-free_if (start_cluster look.entry) s) (λ u s'. Keeps-mark_deleted look s'))
        ]))
      fs)

pub Keeps-fat32_rmdir : (name : List ℕ) → Keeps (fat32_rmdir name)
unfolding fat32_rmdir Keeps
Keeps-fat32_rmdir name fs = elim (Bool-cases (fs.mounted && not (is_dot name || is_dotdot name))) [
  | inr e ↦ simp e (same_place fs)
  | inl e ↦ simp e (Kept-search fs.cwd_cluster (to_short_name name) _ found_dir fs)
]
  where
    found_dir :
        (o : Option DirLookup)
        → Keeps (elim o as (λ _. M Bool) [
          | none ↦ pure false
          | some look ↦
              let cluster = start_cluster look.entry in
              if not (is_directory look.entry) || ltb cluster 2 then pure false else (λ s.
                State.and_then (dir_is_empty cluster s) (λ empty.
                  if empty
                  then (λ s1. State.and_then (free_chain cluster s1) (λ _. mark_deleted look))
                  else pure false))
        ])
    found_dir none s = same_place s
    found_dir (some look) s =
        elim (Bool-cases (not (is_directory look.entry) || ltb (start_cluster look.entry) 2)) [
          | inl e ↦ rw e (same_place s)
          | inr e ↦
              let cluster = start_cluster look.entry in
              rw e (
                Kept-bind s (dir_is_empty cluster s) _ (Keeps-dir_is_empty cluster s) (λ empty s1.
                  elim (Bool-cases empty) [
                    | inl t ↦ rw t (
                        Kept-bind s1 (free_chain cluster s1) _ (Keeps-free_chain cluster s1)
                          (λ u s2. Keeps-mark_deleted look s2))
                    | inr t ↦ rw t (same_place s1)
                  ]))
        ]

Keeps-undo : (cluster : ℕ) → Keeps (undo cluster)
unfolding Keeps
Keeps-undo cluster fs =
    Kept-bind fs (free_chain cluster fs) _ (Keeps-free_chain cluster fs) (λ u s. same_place s)

Keeps-fill_directory :
    (target : List ℕ) (look : DirLookup) (cluster : ℕ) → Keeps (fill_directory target look cluster)
unfolding fill_directory Keeps
Keeps-fill_directory target look cluster fs =
    let parent = if fs.cwd_cluster == fs.root_cluster then 0 else fs.cwd_cluster in
    let w =
      ata_write fs.drive (cluster_to_lba cluster fs) fs.sectors_per_cluster
        (fresh_directory cluster parent) fs.disk in
    let s = record fs { disk = w.1 } in
    let e = dir_entry target cluster in
    Kept-disk fs w.1 _ (elim (Bool-cases w.0) [
      | inr t ↦ rw t (Keeps-undo cluster s)
      | inl t ↦ rw t (
          Kept-bind s (write_dirent look.lba look.offset e s) _
            (Keeps-write_dirent look.lba look.offset e s)
            (λ entered s1. elim (Bool-cases entered) [
              | inl t ↦ rw t (same_place s1)
              | inr t ↦ rw t (Keeps-undo cluster s1)
            ]))
    ])

pub Keeps-fat32_mkdir : (name : List ℕ) → Keeps (fat32_mkdir name)
unfolding fat32_mkdir Keeps
Keeps-fat32_mkdir name fs = Kept-mounted fs false _ (
    Kept-search fs.cwd_cluster (to_short_name name) _
      (λ there s. elim (Option-cases there) [
        | inr (l, e) ↦ rw e (same_place s)
        | inl e ↦ rw e (
            Kept-slot fs.cwd_cluster false (in_slot (to_short_name name))
              (λ look s1. filled (to_short_name name) look s1) s)
      ])
      fs)
  where
    in_slot : List ℕ → DirLookup → M Bool
    in_slot target look s =
        State.and_then (alloc_cluster s)
          (λ cluster. if cluster == 0 then pure false else fill_directory target look cluster)

    filled : (target : List ℕ) (look : DirLookup) → Keeps (in_slot target look)
    filled target look s = Kept-bind s (alloc_cluster s) _ (Keeps-alloc_cluster s) (λ cluster s1.
        elim (Bool-cases (cluster == 0)) [
          | inl e ↦ rw e (same_place s1)
          | inr e ↦ rw e (Keeps-fill_directory target look cluster s1)
        ])
