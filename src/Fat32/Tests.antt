-- ===== src/Fat32/Tests.antt =====
-- Runs of the file system's theorems on a small volume and on names.
use osver.Prelude.{ℕ, ◌≡◌, refl, List, [], ◌∷◌, true, false, some, Bool, arith}
use osver.Ata.{Disk, ata_read, ata_write, any_failing, put_sector, write_sectors}
use osver.Fat32.State.{Fat32, Run, ok, out_of_fuel}
use osver.Fat32.Name.{to_upper, str_eq_ci, to_short_name}
use osver.Fat32.Table.{
  set_copies, set_fat_entry, next_cluster, fat_lba, fat_offset, patch_entry, no_lba,
}
use osver.Fat32.ShortName.{to_short_name-str_eq_ci}
use osver.Fat32.Entry.{entry_at}
use osver.Fat32.Copies.{HasEntry, set_fat_entry-next_cluster}

abbrev blank_disk : Disk
blank_disk = record { sector = λ drive lba i. 0; failing = λ drive lba. false }

-- two copies of a table of eight sectors from sector 32 on
abbrev small_volume : Bool → Fat32
small_volume mounted = record {
  drive = 0;
  sectors_per_cluster = 1;
  num_fats = 2;
  bytes_per_sector = 512;
  fat_start_lba = 32;
  data_start_lba = 48;
  fat_size = 8;
  total_clusters = 1000;
  root_cluster = 2;
  cwd_cluster = 2;
  alloc_hint = 2;
  mounted = mounted;
  fat_sector_buf = λ i. 0;
  fat_sector_cached_lba = no_lba;
  disk = blank_disk;
}

-- readme.txt and README.Txt
abbrev readme : List ℕ
readme = b'r' ∷ b'e' ∷ b'a' ∷ b'd' ∷ b'm' ∷ b'e' ∷ b'.' ∷ b't' ∷ b'x' ∷ b't' ∷ []

abbrev readme_mixed : List ℕ
readme_mixed = b'R' ∷ b'E' ∷ b'A' ∷ b'D' ∷ b'M' ∷ b'E' ∷ b'.' ∷ b'T' ∷ b'x' ∷ b't' ∷ []

to_short_name-str_eq_ci_example : to_short_name readme ≡ to_short_name readme_mixed
unfolding str_eq_ci to_upper
to_short_name-str_eq_ci_example = to_short_name-str_eq_ci readme readme_mixed refl

abbrev state_of : Run Bool → Fat32
state_of (ok b fs) = fs
state_of out_of_fuel = small_volume true

-- the entry of cluster 130, which is the third of its sector, is written
abbrev written : Fat32
unfolding set_fat_entry set_copies ata_read ata_write any_failing write_sectors put_sector
    patch_entry fat_lba fat_offset
written = state_of (set_fat_entry 130 77 (small_volume true))

set_fat_entry-next_cluster_example :
    (entry_at (fat_lba 1 130 (small_volume true)) 130 0 written.disk ≡ some 77)
    × ((next_cluster 130 written).0 ≡ 77)
unfolding set_fat_entry set_copies ata_read ata_write any_failing write_sectors put_sector
    patch_entry fat_lba fat_offset HasEntry
set_fat_entry-next_cluster_example =
    set_fat_entry-next_cluster 130 77 1 (small_volume true) written
      (omega arith, omega arith, omega arith) (omega arith) refl
