-- ===== src/Shell/Tests.antt =====
-- Runs of the theorems of the shell: a mounted volume whose disk is blank.
use osver.Prelude.{ℕ, some, ◌≡◌, refl, true, false, arith, List, [], ◌∷◌}
use osver.Fat32.State.{Fat32}
use osver.Fat32.Tree.{fat32_chdir, chdir_up}
use osver.Task.{ready}
use osver.Task.Tests.{ring_of}
use osver.Screen.{Screen, kprint, kprint_dec, kprint_hex}
use osver.Shell.State.{System, ok}
use osver.Shell.Text.{codes, parse_uint, parse, args_max}
use osver.Shell.Argv.{IsArgv, parse-IsArgv}
use osver.Shell.Path.{path_pop}
use osver.Shell.Stack.{AreNames, path_of, rest_of, no_slash}
use osver.Shell.Follow.{HasPlace}
use osver.Shell.Room.{gone_through, cd_to-gone_through}
use osver.Shell.Track.{Shown}
use osver.Shell.Cd.{cd_from, cd_to, follow}
use osver.Shell.Files.{cmd_touch, cmd_rm, cmd_mkdir, cmd_rmdir, cmd_write, cmd_cat}
use osver.Shell.Exec.{cmd_exec}
use osver.Shell.Runs.{Stays}
use osver.Shell.Stays.{file_commands-Stays}
use osver.Shell.Digits.{dec_text, hex_text, parse_uint-printed}

abbrev pub fat_volume : Fat32
fat_volume = record {
  drive = 0;
  sectors_per_cluster = 1;
  num_fats = 2;
  bytes_per_sector = 512;
  fat_start_lba = 32;
  data_start_lba = 64;
  fat_size = 16;
  total_clusters = 2000;
  root_cluster = 2;
  cwd_cluster = 2;
  alloc_hint = 2;
  mounted = true;
  fat_sector_buf = λ i. 0;
  fat_sector_cached_lba = 0xFFFFFFFF;
  disk = record { sector = λ d l i. 0; failing = λ d l. false };
}

abbrev pub screen : Screen
screen = record { vga = λ i. 0; cur_col = 0; cur_row = 0; putc_calls = [] }

abbrev system : System
system = record {
  screen = screen;
  fs = fat_volume;
  sched = ring_of ready;
  cwd_path = codes "/A/B";
  ticks = 0;
}

here : HasPlace system.fs
here = record { mounted = refl; cluster = refl }

names : List (List ℕ)
names = codes "B" ∷ codes "A" ∷ []

are_names : AreNames names
unfolding AreNames names no_slash
are_names = (omega arith, refl, (omega arith, refl, tt))

shown : system.cwd_path ≡ path_of names
unfolding path_of names rest_of
shown = refl

walk : cd_from (codes "..") system ≡ ok true (record system { cwd_path = codes "/A" })
unfolding cd_from fat32_chdir chdir_up follow path_pop
walk = refl

cd_to-gone_through_example :
    (s2 : System) × (cd_to (codes "..") system ≡ ok tt s2)
    × Shown (gone_through (codes "..") names) system true s2
unfolding path_of names rest_of
cd_to-gone_through_example =
    cd_to-gone_through (codes "..") names system (record system { cwd_path = codes "/A" }) true here
      are_names shown (omega arith) walk

abbrev touch_line : List (List ℕ)
touch_line = codes "touch" ∷ codes "D/NOTES.TXT" ∷ []

file_commands-Stays_example :
    Stays system.fs system.cwd_path (cmd_touch touch_line system)
    × Stays system.fs system.cwd_path (cmd_rm touch_line system)
    × Stays system.fs system.cwd_path (cmd_mkdir touch_line system)
    × Stays system.fs system.cwd_path (cmd_rmdir touch_line system)
    × Stays system.fs system.cwd_path (cmd_write touch_line system)
    × Stays system.fs system.cwd_path (cmd_cat touch_line system)
    × Stays system.fs system.cwd_path (cmd_exec 0x100100 0x100200 touch_line system)
file_commands-Stays_example = file_commands-Stays 0x100100 0x100200 touch_line system here

parse_uint-printed_example :
    (kprint_dec 4096 screen ≡ kprint (dec_text 4096) screen)
    × (parse_uint (dec_text 4096) ≡ 4096)
    × (kprint_hex 4096 screen ≡ kprint (b'0' ∷ b'x' ∷ hex_text 4096) screen)
    × (parse_uint (b'0' ∷ b'x' ∷ hex_text 4096) ≡ 4096)
parse_uint-printed_example = parse_uint-printed 4096 screen (omega arith)

parse-IsArgv_example :
    (words : List (List ℕ)) × (parse (codes "page free 0x1000") ≡ some words)
    × IsArgv args_max words
parse-IsArgv_example = parse-IsArgv (codes "page free 0x1000")

-- an escape in a literal is one byte
line_feed : codes "a\n" ≡ b'a' ∷ 10 ∷ []
line_feed = refl
