-- ===== src/Fat32/Walks.antt =====
-- The walks through directories leave the place alone; a change of directory moves it inside its volume.
use osver.Prelude.{ℕ, zero, suc, ◌+◌, ◌%◌, ◌^◌, inl, inr, Bool-cases, List}
use osver.Fat32.State.{Fat32, ok, M, Dirent}
use osver.Ata.{ata_read}
use osver.Fat32.Table.{cluster_to_lba, walk_fuel, next_cluster}
use osver.Fat32.Keeps.{Kept, Keeps, same_place, Kept-option, Kept-bind}
use osver.Fat32.Stays.{Kept-step}
use osver.Fat32.Dir.{
  scan_sectors, scan_loop, scan_entries, Walk, exhausted, failed, ended, hit, Verdict, search_dir,
  find_free_dirent_in, dir_is_empty, in_chain, is_target, is_free_slot, is_other_entry,
}

module _ (judge : Dirent → Verdict) where
  Keeps-scan_sectors : (left i base : ℕ) → Keeps (scan_sectors judge left i base)
  unfolding scan_sectors Keeps
  Keeps-scan_sectors zero i base fs = same_place fs
  Keeps-scan_sectors (suc left) i base fs =
      let lba = (base + i) % 2 ^ 32 in
      Kept-option fs (ata_read fs.drive lba 1 fs.disk) _ _ (same_place fs)
        (λ b. on_walk (Keeps-scan_sectors left (i + 1) base fs) (scan_entries judge 16 0 lba b))
    where
      on_walk :
          Kept fs (scan_sectors judge left (i + 1) base fs)
          → (w : Walk)
          → Kept fs (
              (elim w as (λ _. M Walk) [
                | exhausted ↦ scan_sectors judge left (i + 1) base
                | failed ↦ (λ s. ok failed s)
                | ended ↦ (λ s. ok ended s)
                | hit l ↦ (λ s. ok (hit l) s)
              ])
                fs)
      on_walk h exhausted = h
      on_walk h failed = same_place fs
      on_walk h ended = same_place fs
      on_walk h (hit l) = same_place fs

  Keeps-scan_loop : (fuel cluster : ℕ) → Keeps (scan_loop judge fuel cluster)
  unfolding scan_loop Keeps
  Keeps-scan_loop zero cluster fs = tt
  Keeps-scan_loop (suc fuel) cluster fs = elim (Bool-cases (in_chain cluster)) [
    | inr e ↦ rw e (same_place fs)
    | inl e ↦ rw e (
        Kept-bind fs (scan_sectors judge fs.sectors_per_cluster 0 (cluster_to_lba cluster fs) fs) _
          (Keeps-scan_sectors fs.sectors_per_cluster 0 (cluster_to_lba cluster fs) fs)
          (λ w s. after (λ n s1. Keeps-scan_loop fuel n s1) w s))
  ]
    where
      after :
          ((n : ℕ) (s1 : Fat32) → Kept s1 (scan_loop judge fuel n s1))
          → (w : Walk) (s : Fat32)
          → Kept s (
              (elim w as (λ _. M Walk) [
                | exhausted ↦ (λ s1.
                    scan_loop judge fuel (next_cluster cluster s1).0 (next_cluster cluster s1).1)
                | failed ↦ (λ s1. ok failed s1)
                | ended ↦ (λ s1. ok ended s1)
                | hit l ↦ (λ s1. ok (hit l) s1)
              ])
                s)
      after h exhausted s =
          Kept-step cluster s _ (h (next_cluster cluster s).0 (next_cluster cluster s).1)
      after h failed s = same_place s
      after h ended s = same_place s
      after h (hit l) s = same_place s

pub Keeps-search_dir : (start : ℕ) (target : List ℕ) → Keeps (search_dir start target)
unfolding search_dir Keeps
Keeps-search_dir start target fs =
    Kept-bind fs (scan_loop (is_target target) walk_fuel start fs) _
      (Keeps-scan_loop (is_target target) walk_fuel start fs) (λ w s. same_place s)

pub Keeps-find_free_dirent_in : (start : ℕ) → Keeps (find_free_dirent_in start)
unfolding find_free_dirent_in Keeps
Keeps-find_free_dirent_in start fs =
    Kept-bind fs (scan_loop is_free_slot walk_fuel start fs) _
      (Keeps-scan_loop is_free_slot walk_fuel start fs) (λ w s. same_place s)

pub Keeps-dir_is_empty : (start : ℕ) → Keeps (dir_is_empty start)
unfolding dir_is_empty Keeps
Keeps-dir_is_empty start fs =
    Kept-bind fs (scan_loop is_other_entry walk_fuel start fs) _
      (Keeps-scan_loop is_other_entry walk_fuel start fs) (λ w s. same_place s)
