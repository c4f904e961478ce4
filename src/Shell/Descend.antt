-- ===== src/Shell/Descend.antt =====
-- Deep paths in src/shell/shell.c: the current directory goes down to the parent of what a path names.
use osver.Prelude.{ℕ, ◌-◌, Bool, true, Option, some, none, List, [], ◌∷◌, ◌++◌, ◌==◌, if◌then◌else◌}
use osver.Fat32.State.{M, pure, ok, get, ◌>>=◌, ◌>>◌}
use osver.Fat32.Tree.{fat32_chdir, fat32_cwd_cluster, fat32_set_cwd_cluster}

-- The loop of `path_descend` on the rest of the path, with `prev`, where it is set, and `cur`, in which
-- there is room for `room` more characters. `none` is -1, and the other result is the basename.
unfoldable pub enter_prev : Option (List ℕ) → M Bool
enter_prev none = pure true
enter_prev (some prev) = fat32_chdir prev

abbrev pub or_empty : Option (List ℕ) → List ℕ
or_empty none = []
or_empty (some prev) = prev

unfoldable pub descend_loop : List ℕ → Option (List ℕ) → List ℕ → ℕ → M (Option (List ℕ))
unfolding enter_prev
descend_loop [] prev [] room = pure (some (or_empty prev))
descend_loop [] prev (d ∷ ds) room = do
  entered ← enter_prev prev
  pure (if entered then some (d ∷ ds) else none)
descend_loop (c ∷ cs) prev cur room =
    if c == b'/'
    then elim cur [
      | [] ↦ descend_loop cs prev [] 15
      | d ∷ ds ↦ (do
        entered ← enter_prev prev
        if entered then descend_loop cs (some (d ∷ ds)) [] 15 else pure none)
    ]
    else if room == 0
    then descend_loop cs prev cur room
    else descend_loop cs prev (cur ++ (c ∷ [])) (room - 1)

unfoldable pub path_descend : List ℕ → M (Option (List ℕ))
unfolding descend_loop
path_descend [] = descend_loop [] none [] 15
path_descend (c ∷ cs) =
    if c == b'/'
    then (do fat32_chdir (b'/' ∷ []); descend_loop cs none [] 15)
    else descend_loop (c ∷ cs) none [] 15

abbrev pub restore : ℕ → M (Unit {0})
restore saved fs = ok tt (fat32_set_cwd_cluster saved fs)

abbrev pub back_to : ℕ → M (Option (ℕ × List ℕ))
back_to saved = do restore saved; pure none

-- what `path_to_parent_and_base` does with the basename
abbrev pub accept : ℕ → Option (List ℕ) → M (Option (ℕ × List ℕ))
accept saved none = back_to saved
accept saved (some []) = back_to saved
accept saved (some (c ∷ cs)) = pure (some (saved, c ∷ cs))

-- the cluster to go back to, and the basename; `none` is -1
unfoldable pub path_to_parent_and_base : List ℕ → M (Option (ℕ × List ℕ))
unfolding path_descend
path_to_parent_and_base path = do
  fs ← get
  base ← path_descend path
  accept (fat32_cwd_cluster fs) base

abbrev pub work_on : {A : Type 0} → (List ℕ → M A) → Option (ℕ × List ℕ) → M (Option A)
work_on f none = pure none
work_on f (some (saved, base)) = do r ← f base; restore saved; pure (some r)

-- The basename is worked on in its directory, and the current directory is set back. `none`: the path
-- is invalid.
unfoldable pub in_parent : {A : Type 0} → List ℕ → (List ℕ → M A) → M (Option A)
unfolding path_to_parent_and_base
in_parent path f = do there ← path_to_parent_and_base path; work_on f there
