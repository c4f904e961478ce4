-- ===== src/Shell/Launch.antt =====
-- The command exec of src/shell/shell.c, and the place the shell is at.
use osver.Prelude.{
  ℕ, ◌≡◌, refl, length, get_or, List, [], ◌∷◌, ◌==◌, inl, inr, Bool-cases, Option-cases,
}
use osver.Fat32.State.{Dirent, is_directory, size}
use osver.Fat32.Keeps.{same_place, Keeps}
use osver.Fat32.Contents.{Keeps-fat32_find, Keeps-fat32_read_file}
use osver.Fat32.Dir.{fat32_find}
use osver.Fat32.File.{fat32_read_file}
use osver.Kheap.{kmalloc, kfree}
use osver.Shell.Descend.{in_parent}
use osver.Shell.Follow.{HasPlace, Kept-in_parent}
use osver.Shell.Text.{codes}
use osver.Shell.Files.{complain}
use osver.Shell.Runs.{Stays, Stays-on_fat, Stays-on_heap, Stays-on_sched, Stays-on_loader}
use osver.Shell.Exec.{start_image, start_loaded, load_file, run_file, cmd_exec}
use osver.Elf.{Loaded, image_at, error, elf_load, elf_unload}
use osver.Task.Create.{task_create_user_image}
use osver.Shell.State.{System, with_heap, with_loader, ◌>>◌, on_heap}

module _ (start iret : ℕ) where
  start_image-Stays :
      (name : List ℕ) (img : ℕ) (s : System) (path : List ℕ)
      → s.cwd_path ≡ path
      → Stays s.fs path (start_image start iret name img s)
  unfolding start_image
  start_image-Stays name img s path shown =
      Stays-on_sched s path
        (task_create_user_image start iret (λ p. (s.sched.loader.images p).entry) name img) _
        (λ t sched. elim (Bool-cases (t == 0)) [
          | inl z ↦ rw z (
              Stays-on_loader (record s { sched = sched }) path (elf_unload img) _
                (λ u l. (same_place s.fs, shown)))
          | inr nz ↦ rw nz (same_place s.fs, shown)
        ])

  start_loaded-Stays :
      (name : List ℕ) (loaded : Loaded) (s : System) (path : List ℕ)
      → s.cwd_path ≡ path
      → Stays s.fs path (start_loaded start iret name loaded s)
  unfolding start_loaded
  start_loaded-Stays name (error code) s path shown = (same_place s.fs, shown)
  start_loaded-Stays name (image_at img) s path shown = start_image-Stays name img s path shown

  load_file-Stays :
      (name bytes : List ℕ) (n buf : ℕ) (s : System) (path : List ℕ)
      → s.cwd_path ≡ path
      → Stays s.fs path (load_file start iret name bytes n buf s)
  unfolding load_file
  load_file-Stays name bytes n buf s path shown =
      Stays-on_loader s path (elf_load (λ i. get_or bytes i 0) n) _ (λ loaded l.
        Stays-on_heap (with_loader l s) path (kfree buf) _
          (λ u h. start_loaded-Stays name loaded (with_heap h (with_loader l s)) path shown))

  read_error :
      (buf : ℕ) (s : System) (path : List ℕ)
      → s.cwd_path ≡ path
      → Stays s.fs path ((on_heap (kfree buf) >> complain (codes "exec: read error\n")) s)
  read_error buf s path shown = Stays-on_heap s path (kfree buf) _ (λ u h. (same_place s.fs, shown))

  run_file-Stays :
      (name : List ℕ) (e : Dirent) (s : System) (path : List ℕ)
      → s.cwd_path ≡ path
      → Stays s.fs path (run_file start iret name e s)
  unfolding run_file Keeps
  run_file-Stays name e s path shown = elim (Bool-cases (is_directory e)) [
    | inl d ↦ rw d (same_place s.fs, shown)
    | inr f ↦ rw f (elim (Bool-cases (size e == 0)) [
      | inl z ↦ rw z (same_place s.fs, shown)
      | inr nz ↦ rw nz (
          Stays-on_heap s path (kmalloc (size e)) _ (λ buf h. elim (Bool-cases (buf == 0)) [
            | inl z ↦ rw z (same_place s.fs, shown)
            | inr nb ↦ rw nb (
                Stays-on_fat (with_heap h s) path (fat32_read_file e (size e)) _
                  (Keeps-fat32_read_file e (size e) s.fs) shown
                  (λ read s2 p. elim (Option-cases read) [
                    | inl n ↦ rw n (read_error buf s2 path p)
                    | inr (bytes, n) ↦ rw n (elim (Bool-cases (length bytes == size e)) [
                      | inl t ↦ rw t (load_file-Stays name bytes (size e) buf s2 path p)
                      | inr t ↦ rw t (read_error buf s2 path p)
                    ])
                  ]))
          ]))
    ])
  ]

  pub cmd_exec-Stays :
      (argv : List (List ℕ)) (s : System)
      → HasPlace s.fs
      → Stays s.fs s.cwd_path (cmd_exec start iret argv s)
  unfolding cmd_exec
  cmd_exec-Stays [] s place = (same_place s.fs, refl)
  cmd_exec-Stays (name ∷ []) s place = (same_place s.fs, refl)
  cmd_exec-Stays (name ∷ path ∷ args) s place =
      simp place.mounted (elim (Bool-cases s.sched.active) [
        | inr off ↦ simp off (same_place s.fs, refl)
        | inl on ↦ simp on (
            Stays-on_fat s s.cwd_path (in_parent path fat32_find) _
              (Kept-in_parent path fat32_find Keeps-fat32_find s.fs place) refl
              (λ there s' e. elim (Option-cases there) [
                | inl n ↦ rw n (same_place s'.fs, e)
                | inr (o, n) ↦ elim (Option-cases o) [
                  | inl m ↦ rw (n, m) (same_place s'.fs, e)
                  | inr (entry, m) ↦ rw (n, m) (run_file-Stays path entry s' s.cwd_path e)
                ]
              ]))
      ])
