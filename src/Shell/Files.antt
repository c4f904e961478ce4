-- ===== src/Shell/Files.antt =====
-- The commands on files and directories of src/shell/shell.c. A command gets its argument vector as a list
-- of which the first is its name.
use osver.Prelude.{
  ℕ, zero, suc, ◌+◌, ◌-◌, Bool, true, false, some, none, List, [], ◌∷◌, ◌++◌, ◌==◌, if◌then◌else◌,
  length, take,
}
use osver.Ata.{Bytes}
use osver.Kheap.{kmalloc, kfree}
use osver.Fat32.State
use osver.Fat32.State.{Dirent, size, is_directory}
use osver.Fat32.Dir.{fat32_find, fat32_listdir}
use osver.Fat32.File.{fat32_read_file, fat32_create, fat32_remove, fat32_write_file}
use osver.Fat32.Tree.{fat32_mkdir, fat32_rmdir, fat32_chdir_path, fat32_cwd_cluster}
use osver.Shell.Descend.{in_parent, restore}
use osver.Screen.{kprint, kputchar, kprint_dec, kprint_color, vga_black, Screen}
use osver.Shell.Text.{codes}
use osver.Shell.State.{
  M, get, ◌>>=◌, ◌>>◌, on_fat, on_heap, on_screen, print, print_in, print_dec, light_red,
  light_cyan,
}

-- "FOO     TXT" as FOO.TXT
unfoldable pub upto_blank : ℕ → ℕ → Bytes → List ℕ
upto_blank zero i raw = []
upto_blank (suc left) i raw =
    let rest = upto_blank left (i + 1) raw in if raw i == b' ' then [] else raw i ∷ rest

unfoldable pub short_name_to_str : Bytes → List ℕ
unfolding upto_blank
short_name_to_str raw =
    if raw 8 == b' ' then upto_blank 8 0 raw else upto_blank 8 0 raw ++ (b'.' ∷ upto_blank 3 8 raw)

unfoldable pub put_blanks : ℕ → Screen → Screen
put_blanks zero s = s
put_blanks (suc n) s = put_blanks n (kputchar b' ' s)

unfoldable pub ls_visitor : Dirent → Screen → Screen
unfolding put_blanks short_name_to_str
ls_visitor e s =
    let name = short_name_to_str e in
    if is_directory e
    then kprint (codes "\n") (kprint name (kprint_color (codes "  <DIR>  ") light_cyan vga_black s))
    else kprint (codes " bytes\n") (
        kprint_dec (size e)
          (put_blanks (14 - length name) (kprint name (kprint (codes "         ") s))))

-- the line that a command prints on an error
abbrev pub complain : List ℕ → M (Unit {0})
complain text = print_in light_red text

abbrev pub not_mounted : M (Unit {0})
not_mounted = complain (codes "FAT32 not mounted.\n")

-- a command's text around its argument
abbrev pub report : List ℕ → List ℕ → M (Unit {0})
report text arg = do print text; print arg; print (codes "\n")

-- the listing of the current directory
abbrev pub list_here : M (Unit {0})
list_here = do
  s ← get
  screen ← on_fat (fat32_listdir ls_visitor (fat32_cwd_cluster s.fs) s.screen)
  on_screen (λ _. screen)

unfoldable pub ls_at : ℕ → List (List ℕ) → M (Unit {0})
unfolding ls_visitor
ls_at saved (name ∷ path ∷ args) = do
  entered ← on_fat (fat32_chdir_path path)
  if entered then (do list_here; on_fat (restore saved)) else (do
    on_fat (restore saved)
    complain (codes "ls: not a directory or not found: ")
    report [] path)
ls_at saved argv = do list_here; on_fat (restore saved)

unfoldable pub cmd_ls : List (List ℕ) → M (Unit {0})
unfolding ls_at
cmd_ls argv s = if s.fs.mounted then ls_at (fat32_cwd_cluster s.fs) argv s else not_mounted s

abbrev pub cat_buf_size : ℕ
cat_buf_size = 16384

-- the bytes of a file without carriage returns
unfoldable pub put_text : List ℕ → Screen → Screen
put_text [] s = s
put_text (c ∷ cs) s = put_text cs (if c == 13 then s else kputchar c s)

-- a line feed behind bytes that do not end with one
unfoldable pub end_line : List ℕ → Screen → Screen
end_line [] s = s
end_line (c ∷ []) s = if c == 10 then s else kputchar 10 s
end_line (c ∷ d ∷ cs) s = end_line (d ∷ cs) s

-- the part of `cmd_cat` behind the search
unfoldable pub print_file : Dirent → M (Unit {0})
unfolding put_text end_line
print_file e = do
  buf ← on_heap (kmalloc cat_buf_size)
  if buf == 0 then complain (codes "cat: out of heap\n") else (do
    bytes ← on_fat (fat32_read_file e cat_buf_size)
    elim bytes [
      | none ↦ (do on_heap (kfree buf); complain (codes "read error\n"))
      | some cs ↦ (do on_screen (put_text cs); on_screen (end_line cs); on_heap (kfree buf))
    ])

unfoldable pub cmd_cat : List (List ℕ) → M (Unit {0})
unfolding print_file in_parent
cmd_cat (name ∷ path ∷ args) s =
    if s.fs.mounted
    then (do
      there ← on_fat (in_parent path fat32_find)
      elim there [
        | none ↦ complain (codes "cat: invalid path\n")
        | some none ↦ (do complain (codes "not found: "); report [] path)
        | some (some e) ↦
            if is_directory e then complain (codes "is a directory\n") else print_file e
      ])
        s
    else not_mounted s
cmd_cat argv s = print (codes "usage: cat <path>\n") s

-- the commands with a path whose work is one call: the texts for no path, a bad path, a failure and
-- a success, and the call
unfoldable pub on_path :
    List ℕ → List ℕ → List ℕ → List ℕ → (List ℕ → State.M Bool) → List (List ℕ) → M (Unit {0})
unfolding in_parent
on_path usage invalid failed success f (name ∷ path ∷ args) s =
    if s.fs.mounted
    then (do
      there ← on_fat (in_parent path f)
      elim there [
        | none ↦ complain invalid
        | some false ↦ complain failed
        | some true ↦ report success path
      ])
        s
    else not_mounted s
on_path usage invalid failed success f argv s = print usage s

unfoldable pub cmd_touch : List (List ℕ) → M (Unit {0})
unfolding on_path
cmd_touch =
    on_path (codes "usage: touch <path>\n") (codes "touch: invalid path\n")
      (codes "touch failed (exists or directory full)\n") (codes "created: ") fat32_create

unfoldable pub cmd_rm : List (List ℕ) → M (Unit {0})
unfolding on_path
cmd_rm =
    on_path (codes "usage: rm <path>\n") (codes "rm: invalid path\n")
      (codes "rm failed (not found, or it's a directory?)\n") (codes "removed: ") fat32_remove

unfoldable pub cmd_mkdir : List (List ℕ) → M (Unit {0})
unfolding on_path
cmd_mkdir =
    on_path (codes "usage: mkdir <path>\n") (codes "mkdir: invalid path\n")
      (codes "mkdir failed (exists, full, or out of space)\n") (codes "created dir: ") fat32_mkdir

unfoldable pub cmd_rmdir : List (List ℕ) → M (Unit {0})
unfolding on_path
cmd_rmdir =
    on_path (codes "usage: rmdir <path>\n") (codes "rmdir: invalid path\n")
      (codes "rmdir failed (not a dir, or not empty)\n") (codes "removed dir: ") fat32_rmdir

abbrev pub write_buf_size : ℕ
write_buf_size = 8192

-- the words with blanks between them, as far as they fit in the buffer behind what it holds
unfoldable pub join_words : List (List ℕ) → List ℕ
join_words [] = []
join_words (w ∷ []) = w
join_words (w ∷ v ∷ ws) = w ++ (b' ' ∷ join_words (v ∷ ws))

-- what `cmd_write` puts into its buffer
unfoldable pub write_text : List (List ℕ) → List ℕ
unfolding join_words
write_text words = take write_buf_size (join_words words ++ (10 ∷ []))

unfoldable pub cmd_write : List (List ℕ) → M (Unit {0})
unfolding write_text in_parent
cmd_write (name ∷ path ∷ word ∷ words) s =
    if s.fs.mounted
    then (do
      buf ← on_heap (kmalloc write_buf_size)
      if buf == 0 then complain (codes "write: out of heap\n") else (do
        let text = write_text (word ∷ words)
        there ← on_fat (in_parent path (λ base. fat32_write_file base text))
        on_heap (kfree buf)
        elim there [
          | none ↦ complain (codes "write: invalid path\n")
          | some false ↦ complain (codes "write failed (disk or directory full?)\n")
          | some true ↦ (do
            print (codes "wrote ")
            print_dec (length text)
            report (codes " bytes to ") path)
        ]))
        s
    else not_mounted s
cmd_write argv s = print (codes "usage: write <path> <text...>\n") s
