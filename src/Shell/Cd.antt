-- ===== src/Shell/Cd.antt =====
-- The commands cd and pwd of src/shell/shell.c.
use osver.Prelude.{ℕ, ◌-◌, Bool, true, false, List, [], ◌∷◌, ◌++◌, ◌==◌, if◌then◌else◌}
use osver.Fat32.Tree.{fat32_chdir, fat32_cwd_cluster, is_dot, is_dotdot}
use osver.Shell.Text.{codes}
use osver.Shell.Path.{path_push, path_pop}
use osver.Shell.Descend.{restore}
use osver.Shell.Files.{complain, not_mounted, report}
use osver.Shell.State.{M, pure, ◌>>=◌, ◌>>◌, on_fat, print}

-- how `cwd_path` follows a token
unfoldable pub follow : List ℕ → List ℕ → List ℕ
follow tok cwd =
    if is_dot tok then cwd else if is_dotdot tok then path_pop cwd else path_push tok cwd

abbrev pub set_path : List ℕ → M (Unit {0})
set_path path s = pure tt (record s { cwd_path = path })

-- a token that has ended: an empty one is skipped
unfoldable pub cd_token : List ℕ → M Bool
unfolding follow
cd_token [] = pure true
cd_token (c ∷ cs) = do
  entered ← on_fat (fat32_chdir (c ∷ cs))
  if entered
      then (λ s. pure true (record s { cwd_path = follow (c ∷ cs) s.cwd_path }))
      else pure false

-- The loop on the rest of the path, with the token so far, of which `room` characters more are kept;
-- `false`: a token has failed.
unfoldable pub cd_loop : List ℕ → List ℕ → ℕ → M Bool
unfolding cd_token
cd_loop [] tok room = cd_token tok
cd_loop (c ∷ cs) tok room =
    if c == b'/'
    then (do entered ← cd_token tok; if entered then cd_loop cs [] 15 else pure false)
    else if room == 0
    then cd_loop cs tok room
    else cd_loop cs (tok ++ (c ∷ [])) (room - 1)

unfoldable pub cd_from : List ℕ → M Bool
unfolding cd_loop
cd_from [] = cd_loop [] [] 15
cd_from (c ∷ cs) =
    if c == b'/'
    then (do on_fat (fat32_chdir (b'/' ∷ [])); set_path (b'/' ∷ []); cd_loop cs [] 15)
    else cd_loop (c ∷ cs) [] 15

-- a failure sets the directory and the path back
unfoldable pub cd_to : List ℕ → M (Unit {0})
unfolding cd_from
cd_to target s =
    (do
      entered ← cd_from target
      if entered then pure tt else (do
        on_fat (restore (fat32_cwd_cluster s.fs))
        set_path s.cwd_path
        complain (codes "cd failed: ")
        report [] target))
      s

unfoldable pub cmd_cd : List (List ℕ) → M (Unit {0})
unfolding cd_to
cmd_cd (name ∷ target ∷ args) s = if s.fs.mounted then cd_to target s else not_mounted s
cmd_cd argv s = if s.fs.mounted then cd_to (b'/' ∷ []) s else not_mounted s

unfoldable pub cmd_pwd : List (List ℕ) → M (Unit {0})
cmd_pwd argv s = (do print s.cwd_path; print (codes "\n")) s
