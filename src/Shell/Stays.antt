-- ===== src/Shell/Stays.antt =====
-- The commands on files leave the current directory and the shell's path as they are.
use osver.Prelude.{ℕ, ◌≡◌, refl, Bool, List, [], ◌∷◌, ◌==◌, inl, inr, Bool-cases, Option-cases}
use osver.Fat32.State
use osver.Fat32.State.{Fat32, Dirent, is_directory, size}
use osver.Fat32.Keeps.{same_place, Keeps}
use osver.Fat32.Changes.{
  Keeps-fat32_create, Keeps-fat32_remove, Keeps-fat32_mkdir, Keeps-fat32_rmdir,
}
use osver.Fat32.Contents.{Keeps-fat32_write_file, Keeps-fat32_find, Keeps-fat32_read_file}
use osver.Fat32.Dir.{fat32_find}
use osver.Fat32.File.{fat32_read_file, fat32_create, fat32_remove, fat32_write_file}
use osver.Fat32.Tree.{fat32_mkdir, fat32_rmdir}
use osver.Kheap.{kmalloc, kfree}
use osver.Shell.Descend.{in_parent}
use osver.Shell.Follow.{HasPlace, Kept-in_parent}
use osver.Shell.Files.{
  on_path, cmd_touch, cmd_rm, cmd_mkdir, cmd_rmdir, cmd_write, cmd_cat, print_file, write_text,
  cat_buf_size, write_buf_size,
}
use osver.Shell.Runs.{Stays, Stays-on_fat, Stays-on_heap, Stays-last}
use osver.Shell.Exec.{cmd_exec}
use osver.Shell.State.{System, with_heap}
use osver.Shell.Launch.{cmd_exec-Stays}

on_path-Stays :
    (usage invalid failed success : List ℕ) (f : List ℕ → State.M Bool)
    → ((base : List ℕ) → Keeps (f base))
    → (argv : List (List ℕ)) (s : System) → HasPlace s.fs
    → Stays s.fs s.cwd_path (on_path usage invalid failed success f argv s)
unfolding on_path
on_path-Stays usage invalid failed success f keeps [] s place = (same_place s.fs, refl)
on_path-Stays usage invalid failed success f keeps (name ∷ []) s place = (same_place s.fs, refl)
on_path-Stays usage invalid failed success f keeps (name ∷ path ∷ args) s place =
    simp place.mounted (
      Stays-on_fat s s.cwd_path (in_parent path f) _ (Kept-in_parent path f keeps s.fs place) refl
        (λ there s' e. elim (Option-cases there) [
          | inl n ↦ rw n (same_place s'.fs, e)
          | inr (b, n) ↦ elim (Bool-cases b) [
            | inl t ↦ rw (n, t) (same_place s'.fs, e)
            | inr t ↦ rw (n, t) (same_place s'.fs, e)
          ]
        ]))

cmd_write-Stays :
    (argv : List (List ℕ)) (s : System) → HasPlace s.fs → Stays s.fs s.cwd_path (cmd_write argv s)
unfolding cmd_write
cmd_write-Stays [] s place = (same_place s.fs, refl)
cmd_write-Stays (name ∷ []) s place = (same_place s.fs, refl)
cmd_write-Stays (name ∷ path ∷ []) s place = (same_place s.fs, refl)
cmd_write-Stays (name ∷ path ∷ word ∷ words) s place =
    let text = write_text (word ∷ words) in
    let put : List ℕ → State.M Bool = λ base. fat32_write_file base text in
    simp place.mounted (
      Stays-on_heap s s.cwd_path (kmalloc write_buf_size) _ (λ buf h.
        let s1 = with_heap h s in
        elim (Bool-cases (buf == 0)) [
          | inl z ↦ rw z (same_place s.fs, refl)
          | inr z ↦ rw z (
              Stays-on_fat s1 s.cwd_path (in_parent path put) _
                (Kept-in_parent path put (λ base. Keeps-fat32_write_file base text) s.fs place) refl
                (λ there s2 e. Stays-on_heap s2 s.cwd_path (kfree buf) _ (λ u h2.
                  elim (Option-cases there) [
                    | inl n ↦ rw n (same_place s2.fs, e)
                    | inr (b, n) ↦ elim (Bool-cases b) [
                      | inl t ↦ rw (n, t) (same_place s2.fs, e)
                      | inr t ↦ rw (n, t) (same_place s2.fs, e)
                    ]
                  ])))
        ]))

print_file-Stays :
    (e : Dirent) (s : System) (path : List ℕ) → s.cwd_path ≡ path → Stays s.fs path (print_file e s)
unfolding print_file Keeps
print_file-Stays e s path shown = Stays-on_heap s path (kmalloc cat_buf_size) _ (λ buf h.
    let s1 = with_heap h s in
    elim (Bool-cases (buf == 0)) [
      | inl z ↦ rw z (same_place s.fs, shown)
      | inr z ↦ rw z (
          Stays-on_fat s1 path (fat32_read_file e cat_buf_size) _
            (Keeps-fat32_read_file e cat_buf_size s.fs) shown
            (λ bytes s2 p. elim (Option-cases bytes) [
              | inl n ↦ rw n (Stays-on_heap s2 path (kfree buf) _ (λ u h2. (same_place s2.fs, p)))
              | inr (cs, n) ↦ rw n (Stays-last _ path (kfree buf) p)
            ]))
    ])

cmd_cat-Stays :
    (argv : List (List ℕ)) (s : System) → HasPlace s.fs → Stays s.fs s.cwd_path (cmd_cat argv s)
unfolding cmd_cat
cmd_cat-Stays [] s place = (same_place s.fs, refl)
cmd_cat-Stays (name ∷ []) s place = (same_place s.fs, refl)
cmd_cat-Stays (name ∷ path ∷ args) s place = simp place.mounted (
    Stays-on_fat s s.cwd_path (in_parent path fat32_find) _
      (Kept-in_parent path fat32_find Keeps-fat32_find s.fs place) refl
      (λ there s' e. elim (Option-cases there) [
        | inl n ↦ rw n (same_place s'.fs, e)
        | inr (o, n) ↦ elim (Option-cases o) [
          | inl m ↦ rw (n, m) (same_place s'.fs, e)
          | inr (entry, m) ↦
              rw (n, m)
                (elim (Bool-cases (is_directory entry)) [
                  | inl d ↦ rw d (same_place s'.fs, e)
                  | inr d ↦ rw d (print_file-Stays entry s' s.cwd_path e)
                ])
        ]
      ]))

-- Where a volume is mounted and the current directory has a cluster number: each of the commands touch,
-- rm, mkdir, rmdir, write, cat and exec, whatever its arguments, if it returns, leaves the volume mounted with
-- its root, and the current directory and the shell's path as they were. It may lead through other directories,
-- and may fail on the way.
pub file_commands-Stays :
    (task_start user_iret : ℕ) (argv : List (List ℕ)) (s : System)
    → HasPlace s.fs
    → Stays s.fs s.cwd_path (cmd_touch argv s)
      × Stays s.fs s.cwd_path (cmd_rm argv s)
      × Stays s.fs s.cwd_path (cmd_mkdir argv s)
      × Stays s.fs s.cwd_path (cmd_rmdir argv s)
      × Stays s.fs s.cwd_path (cmd_write argv s)
      × Stays s.fs s.cwd_path (cmd_cat argv s)
      × Stays s.fs s.cwd_path (cmd_exec task_start user_iret argv s)
unfolding cmd_touch cmd_rm cmd_mkdir cmd_rmdir
file_commands-Stays task_start user_iret argv s place = (
  on_path-Stays _ _ _ _ fat32_create Keeps-fat32_create argv s place,
  on_path-Stays _ _ _ _ fat32_remove Keeps-fat32_remove argv s place,
  on_path-Stays _ _ _ _ fat32_mkdir Keeps-fat32_mkdir argv s place,
  on_path-Stays _ _ _ _ fat32_rmdir Keeps-fat32_rmdir argv s place,
  cmd_write-Stays argv s place,
  cmd_cat-Stays argv s place,
  cmd_exec-Stays task_start user_iret argv s place,
)
