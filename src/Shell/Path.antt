-- ===== src/Shell/Path.antt =====
-- The shell's current path.
use osver.Prelude.{
  ℕ, zero, suc, ◌+◌, ◌-◌, Bool, false, ◌&&◌, Option, some, none, List, [], ◌∷◌, ◌++◌, leb, ◌==◌,
  if◌then◌else◌, length,
}

-- CWD_PATH_MAX
abbrev pub cwd_path_max : ℕ
cwd_path_max = 128

unfoldable pub upper : ℕ → ℕ
upper c = if leb b'a' c && leb c b'z' then c - b'a' + b'A' else c

-- at most 12 characters, in upper case
unfoldable pub short_to_display : ℕ → List ℕ → List ℕ
unfolding upper
short_to_display zero src = []
short_to_display (suc room) [] = []
short_to_display (suc room) (c ∷ cs) = upper c ∷ short_to_display room cs

-- whether `cwd_path` is "/"
unfoldable pub at_root : List ℕ → Bool
at_root (c ∷ []) = c == b'/'
at_root (c ∷ d ∷ cs) = false
at_root [] = false

unfoldable pub path_push : List ℕ → List ℕ → List ℕ
unfolding short_to_display at_root
path_push name cwd =
    let up = short_to_display 12 name in
    if leb cwd_path_max (length cwd + 1 + length up + 1)
    then cwd
    else if at_root cwd
    then cwd ++ up
    else cwd ++ (b'/' ∷ up)

-- the loop that cuts back to a slash: what stands before the last one; `none` without one
unfoldable pub before_slash : List ℕ → Option (List ℕ)
before_slash [] = none
before_slash (c ∷ cs) = elim (before_slash cs) [
  | some front ↦ some (c ∷ front)
  | none ↦ if c == b'/' then some [] else none
]

-- The loop ends at the latest behind the first character, which is kept.
unfoldable pub path_pop : List ℕ → List ℕ
unfolding before_slash
path_pop [] = b'/' ∷ []
path_pop (c ∷ []) = b'/' ∷ []
path_pop (c ∷ d ∷ cs) = elim (before_slash (d ∷ cs)) [ none ↦ c ∷ [] | some front ↦ c ∷ front ]
