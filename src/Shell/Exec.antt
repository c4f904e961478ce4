-- ===== src/Shell/Exec.antt =====
-- The command exec of src/shell/shell.c: a file is read, loaded as a program, and run as a task.
use osver.Prelude.{ℕ, not, some, none, List, [], ◌∷◌, ◌==◌, if◌then◌else◌, length, get_or}
use osver.Kheap.{kmalloc, kfree}
use osver.Elf.{Loaded, image_at, error, elf_load, elf_unload}
use osver.Task.Create.{task_create_user_image}
use osver.Fat32.State.{Dirent, is_directory, size}
use osver.Fat32.Dir.{fat32_find}
use osver.Fat32.File.{fat32_read_file}
use osver.Shell.Text.{codes}
use osver.Shell.Descend.{in_parent}
use osver.Shell.Files.{complain, report, not_mounted}
use osver.Shell.Tasks.{not_active}
use osver.Shell.State.{
  M, get, ◌>>=◌, ◌>>◌, on_fat, on_heap, on_loader, on_sched, print, print_dec, print_hex,
}

-- the address of the code `user_iret_trampoline`
module _ (task_start user_iret : ℕ) where
  -- the task for an image
  unfoldable pub start_image : List ℕ → ℕ → M (Unit {0})
  start_image path img = do
    s ← get
    t ← on_sched (
        task_create_user_image task_start user_iret (λ p. (s.sched.loader.images p).entry) path img)
    if t == 0
        then (do on_loader (elf_unload img); complain (codes "exec: failed to spawn task\n"))
        else (do
          s1 ← get
          print (codes "exec: pid=")
          print_dec (s1.sched.tasks t).id
          print (codes " entry=")
          print_hex (s1.sched.loader.images img).entry
          print (codes " segs=")
          print_dec (length (s1.sched.loader.images img).segs)
          print (codes "\n"))

  -- the result of `elf_load`
  unfoldable pub start_loaded : List ℕ → Loaded → M (Unit {0})
  unfolding start_image
  start_loaded path (error code) = do
    complain (codes "exec: not a valid i386 ELF (rc=")
    print_dec code
    print (codes ")\n")
  start_loaded path (image_at img) = start_image path img

  -- the file in the buffer at `buf` is loaded
  unfoldable pub load_file : List ℕ → List ℕ → ℕ → ℕ → M (Unit {0})
  unfolding start_loaded
  load_file path bytes n buf = do
    loaded ← on_loader (elf_load (λ i. get_or bytes i 0) n)
    on_heap (kfree buf)
    start_loaded path loaded

  -- the part of `cmd_exec` behind the search
  unfoldable pub run_file : List ℕ → Dirent → M (Unit {0})
  unfolding load_file
  run_file path e =
      if is_directory e
      then complain (codes "exec: is a directory\n")
      else if size e == 0
      then complain (codes "exec: empty file\n")
      else (do
        buf ← on_heap (kmalloc (size e))
        if buf == 0 then complain (codes "exec: out of heap\n") else (do
          read ← on_fat (fat32_read_file e (size e))
          elim read [
            | none ↦ (do on_heap (kfree buf); complain (codes "exec: read error\n"))
            | some bytes ↦
                if length bytes == size e
                then load_file path bytes (size e) buf
                else (do on_heap (kfree buf); complain (codes "exec: read error\n"))
          ]))

  unfoldable pub cmd_exec : List (List ℕ) → M (Unit {0})
  unfolding run_file in_parent
  cmd_exec (name ∷ path ∷ args) s =
      if not s.fs.mounted
      then not_mounted s
      else if not s.sched.active
      then not_active s
      else (do
        there ← on_fat (in_parent path fat32_find)
        elim there [
          | none ↦ complain (codes "exec: invalid path\n")
          | some none ↦ (do complain (codes "exec: not found: "); report [] path)
          | some (some e) ↦ run_file path e
        ])
          s
  cmd_exec argv s = print (codes "usage: exec <path>\n") s
