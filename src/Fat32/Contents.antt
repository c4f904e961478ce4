-- ===== src/Fat32/Contents.antt =====
-- Writing, listing and reading leave the place alone.
use osver.Prelude.{
  ℕ, zero, suc, ◌-◌, ◌*◌, ◌/◌, false, not, ◌&&◌, ltb, inl, inr, Bool-cases, Option-cases, ◌==◌,
  if◌then◌else◌, none, List, [], ◌∷◌, ◌++◌, take, drop, length,
}
use osver.Fat32.State.{Dirent, start_cluster, is_directory, size}
use osver.Ata.{ata_write}
use osver.Fat32.Name.{to_short_name}
use osver.Fat32.Table.{
  cluster_to_lba, walk_fuel, read_cluster, next_cluster, free_chain, alloc_cluster,
}
use osver.Fat32.Keeps.{Keeps, same_place, Kept-option, Kept-bind, Kept-disk}
use osver.Fat32.Stays.{Kept-step, Keeps-free_chain, Keeps-alloc_cluster, Keeps-set_fat_entry}
use osver.Fat32.Walks.{Keeps-find_free_dirent_in}
use osver.Fat32.Dir.{
  find_free_dirent_in, in_chain, list_entries, list_loop, fat32_listdir, fat32_find, find_visitor,
}
use osver.Fat32.File.{
  fat32_write_file, free_if, write_loop, writable_entry, give_up, link_to, read_loop,
  fat32_read_file, bytes_of, cluster_data, with_start,
}
use osver.Fat32.Changes.{Kept-mounted, Kept-search, Keeps-free_if, Keeps-write_dirent}

Keeps-give_up : (first : ℕ) → Keeps (give_up first)
unfolding give_up Keeps
Keeps-give_up first fs = elim (Bool-cases (first == 0)) [
  | inl e ↦ rw e (same_place fs)
  | inr e ↦
      rw e (Kept-bind fs (free_chain first fs) _ (Keeps-free_chain first fs) (λ u s. same_place s))
]

Keeps-link_to : (prev c : ℕ) → Keeps (link_to prev c)
unfolding link_to Keeps
Keeps-link_to prev c fs = elim (Bool-cases (prev == 0)) [
  | inl e ↦ rw e (same_place fs)
  | inr e ↦ rw e (Keeps-set_fat_entry prev c fs)
]

Keeps-write_loop : (fuel first prev : ℕ) (data' : List ℕ) → Keeps (write_loop fuel first prev data')
unfolding write_loop Keeps
Keeps-write_loop zero first prev data' fs = tt
Keeps-write_loop (suc fuel) first prev [] fs = same_place fs
Keeps-write_loop (suc fuel) first prev (byte ∷ bytes) fs =
    let n = fs.sectors_per_cluster * 512 in
    Kept-bind fs (alloc_cluster fs) _ (Keeps-alloc_cluster fs) (λ c s. elim (Bool-cases (c == 0)) [
      | inl e ↦ rw e (Keeps-give_up first s)
      | inr e ↦
          let first' = if first == 0 then c else first in
          rw e (
            Kept-bind s (link_to prev c s) _ (Keeps-link_to prev c s) (λ linked s1.
              elim (Bool-cases linked) [
                | inr t ↦ rw t (Keeps-give_up first' s1)
                | inl t ↦
                    let w =
                      ata_write s1.drive (cluster_to_lba c s1) fs.sectors_per_cluster
                        (cluster_data (take n (byte ∷ bytes))) s1.disk in
                    rw t (
                      Kept-disk s1 w.1 _ (elim (Bool-cases w.0) [
                        | inl d ↦ rw d (
                            Keeps-write_loop fuel first' c (drop n (byte ∷ bytes))
                              (record s1 { disk = w.1 }))
                        | inr d ↦ rw d (Keeps-give_up first' (record s1 { disk = w.1 }))
                      ]))
              ]))
    ])

Keeps-writable_entry : (target : List ℕ) → Keeps (writable_entry target)
unfolding writable_entry Keeps
Keeps-writable_entry target fs =
    Kept-search fs.cwd_cluster target _
      (λ there s. elim (Option-cases there) [
        | inr (look, e) ↦ rw e (elim (Bool-cases (is_directory look.entry)) [
          | inl d ↦ rw d (same_place s)
          | inr d ↦ rw d (
              Kept-bind s (free_if (start_cluster look.entry) s) _
                (Keeps-free_if (start_cluster look.entry) s) (λ u s1. same_place s1))
        ])
        | inl e ↦ rw e (
            Kept-bind s (find_free_dirent_in fs.cwd_cluster s) _
              (Keeps-find_free_dirent_in fs.cwd_cluster s)
              (λ slot s1. Kept-option s1 slot _ _ (same_place s1) (λ look. same_place s1)))
      ])
      fs

pub Keeps-fat32_write_file : (name data' : List ℕ) → Keeps (fat32_write_file name data')
unfolding fat32_write_file Keeps
Keeps-fat32_write_file name data' fs = Kept-mounted fs false _ (
    Kept-bind fs (writable_entry (to_short_name name) fs) _
      (Keeps-writable_entry (to_short_name name) fs)
      (λ entry s. elim (Option-cases entry) [
        | inl e ↦ rw e (same_place s)
        | inr (look, e) ↦ rw e (
            Kept-bind s (write_loop (suc (length data')) 0 0 data' s) _
              (Keeps-write_loop (suc (length data')) 0 0 data' s)
              (λ written s1. elim (Option-cases written) [
                | inl n ↦ rw n (same_place s1)
                | inr (first, n) ↦ rw n (
                    Keeps-write_dirent look.lba look.offset
                      (with_start first (length data') look.entry) s1)
              ]))
      ]))

module _ {S : Type 0} (visit : Dirent → S → S) where
  Keeps-list_loop : (fuel cluster : ℕ) (ctx : S) → Keeps (list_loop visit fuel cluster ctx)
  unfolding list_loop Keeps
  Keeps-list_loop zero cluster ctx fs = tt
  Keeps-list_loop (suc fuel) cluster ctx fs = elim (Bool-cases (in_chain cluster)) [
    | inr e ↦ rw e (same_place fs)
    | inl e ↦ rw e (
        Kept-option fs (read_cluster cluster fs) _ _ (same_place fs) (λ b.
          let r = list_entries visit (fs.sectors_per_cluster * 512 / 32) 0 b ctx in
          elim (Bool-cases r.1) [
            | inl t ↦ rw t (same_place fs)
            | inr t ↦ rw t (
                Kept-step cluster fs _ (
                  Keeps-list_loop fuel (next_cluster cluster fs).0 r.0 (next_cluster cluster fs).1))
          ]))
  ]

  pub Keeps-fat32_listdir : (start : ℕ) (ctx : S) → Keeps (fat32_listdir visit start ctx)
  unfolding fat32_listdir Keeps
  Keeps-fat32_listdir start ctx fs = Kept-mounted fs ctx _ (Keeps-list_loop walk_fuel start ctx fs)

pub Keeps-fat32_find : (name : List ℕ) → Keeps (fat32_find name)
unfolding fat32_find Keeps
Keeps-fat32_find name fs =
    Kept-mounted fs none _ (Keeps-fat32_listdir (find_visitor name) fs.cwd_cluster none fs)

Keeps-read_loop :
    (fuel left cluster : ℕ) (before : List ℕ) → Keeps (read_loop fuel left cluster before)
unfolding read_loop Keeps
Keeps-read_loop zero cluster left before fs = tt
Keeps-read_loop (suc fuel) cluster left before fs =
    elim (Bool-cases (in_chain cluster && not (left == 0))) [
      | inr e ↦ rw e (same_place fs)
      | inl e ↦ rw e (
          Kept-option fs (read_cluster cluster fs) _ _ (same_place fs) (λ b.
            let chunk = fs.sectors_per_cluster * 512 in
            let copy = if ltb left chunk then left else chunk in
            Kept-step cluster fs _ (
              Keeps-read_loop fuel (next_cluster cluster fs).0 (left - copy)
                (before ++ bytes_of copy b) (next_cluster cluster fs).1)))
    ]

pub Keeps-fat32_read_file : (e : Dirent) (max : ℕ) → Keeps (fat32_read_file e max)
unfolding fat32_read_file Keeps
Keeps-fat32_read_file e max fs =
    Kept-mounted fs none _
      (Keeps-read_loop walk_fuel (start_cluster e) (if ltb max (size e) then max else size e) [] fs)
