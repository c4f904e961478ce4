-- ===== src/Shell/Room.antt =====
-- cd of src/shell/shell.c on a target that is short enough for the path's buffer.
use osver.Prelude.{
  ℕ, zero, suc, ◌+◌, ◌-◌, ◌<◌, ◌≤◌, ◌≡◌, refl, subst, Bool, false, List, [], ◌∷◌, ◌++◌, ◌==◌,
  if◌then◌else◌, inl, inr, arith, Bool-cases, length, length-append,
}
use osver.Fat32.Tree.{is_dot, is_dotdot}
use osver.Shell.Path.{short_to_display, cwd_path_max}
use osver.Shell.Stack.{AreNames, path_of, rest_of, parent, too_long}
use osver.Shell.Names.{move, moves, end_token}
use osver.Shell.Follow.{HasPlace}
use osver.Shell.Cd.{cd_from, cd_to}
use osver.Shell.Track.{Shown, lead, cd_to-Shown}
use osver.Shell.State.{System, ok}

-- A token is entered: "." stays, ".." goes to the parent, and any other name goes below.
pub enter : List ℕ → List (List ℕ) → List (List ℕ)
enter tok names =
    if is_dot tok
    then names
    else if is_dotdot tok
    then parent names
    else short_to_display 12 tok ∷ names

-- the token that ends here, if it is not empty
abbrev pub enter_token : List ℕ → List (List ℕ) → List (List ℕ)
enter_token [] names = names
enter_token (d ∷ ds) names = enter (d ∷ ds) names

-- the tokens of a path one after the other, each cut to 15 characters
pub enter_all : List ℕ → List ℕ → ℕ → List (List ℕ) → List (List ℕ)
enter_all [] tok room names = enter_token tok names
enter_all (c ∷ cs) tok room names =
    if c == b'/'
    then enter_all cs [] 15 (enter_token tok names)
    else if room == 0
    then enter_all cs tok room names
    else enter_all cs (tok ++ (c ∷ [])) (room - 1) names

-- the names gone through: from the root where the target begins with a slash, otherwise from `names`
pub gone_through : List ℕ → List (List ℕ) → List (List ℕ)
gone_through [] names = names
gone_through (c ∷ cs) names =
    if c == b'/' then enter_all cs [] 15 [] else enter_all (c ∷ cs) [] 15 names

length-display : (n : ℕ) (tok : List ℕ) → length (short_to_display n tok) ≤ length tok
unfolding short_to_display
length-display zero tok = omega arith
length-display (suc n) [] = omega arith
length-display (suc n) (c ∷ cs) = omega (arith, length-display n cs)

length-below :
    (n : List ℕ) (ns : List (List ℕ))
    → length (rest_of (n ∷ ns)) ≤ length (rest_of ns) + 1 + length n
unfolding rest_of
length-below n [] = omega arith
length-below n (m ∷ ns) = omega (arith, length-append (rest_of (m ∷ ns)) (b'/' ∷ n))

length-parent : (ns : List (List ℕ)) → length (rest_of (parent ns)) ≤ length (rest_of ns)
unfolding rest_of parent
length-parent [] = omega arith
length-parent (n ∷ []) = omega arith
length-parent (n ∷ m ∷ ns) = omega (arith, length-append (rest_of (m ∷ ns)) (b'/' ∷ n))

-- after a token the path is longer by at most a slash and the token
length-enter_token :
    (tok : List ℕ) (names : List (List ℕ))
    → length (path_of (enter_token tok names)) ≤ length (path_of names) + 1 + length tok
unfolding path_of enter
length-enter_token [] names = omega arith
length-enter_token (d ∷ ds) names = elim (Bool-cases (is_dot (d ∷ ds))) [
  | inl e ↦ rw e (omega arith)
  | inr e ↦ rw e (elim (Bool-cases (is_dotdot (d ∷ ds))) [
    | inl up ↦ rw up (omega (arith, length-parent names))
    | inr down ↦ rw down (
        omega
          (arith, length-below (short_to_display 12 (d ∷ ds)) names, length-display 12 (d ∷ ds)))
  ])
]

-- where there is room for the token, none is left out
end_token-enter :
    (tok : List ℕ) (names : List (List ℕ))
    → length (path_of names) + length tok + 2 < cwd_path_max
    → end_token tok names ≡ enter_token tok names
unfolding move enter too_long
end_token-enter [] names room = refl
end_token-enter (d ∷ ds) names room =
    let fits : too_long (d ∷ ds) names ≡ false = ground (arith, length-display 12 (d ∷ ds)) in
    rw fits refl

moves-enter_all :
    (path tok : List ℕ) (left : ℕ) (names : List (List ℕ))
    → length (path_of names) + length tok + length path + 2 < cwd_path_max
    → moves path tok left names ≡ enter_all path tok left names
unfolding moves enter_all
moves-enter_all [] [] left names room = refl
moves-enter_all [] (d ∷ ds) left names room = end_token-enter (d ∷ ds) names (omega arith)
moves-enter_all (c ∷ cs) tok left names room = elim (Bool-cases (c == b'/')) [
  | inl e ↦
      rw (e, end_token-enter tok names (omega arith))
        (moves-enter_all cs [] 15 (enter_token tok names)
          (omega (arith, length-enter_token tok names)))
  | inr e ↦ rw e (elim (Bool-cases (left == 0)) [
    | inl z ↦ rw z (moves-enter_all cs tok left names (omega arith))
    | inr z ↦ rw z (
        moves-enter_all cs (tok ++ (c ∷ [])) (left - 1) names
          (omega (arith, length-append tok (c ∷ []))))
  ])
]

lead-gone_through :
    (target : List ℕ) (names : List (List ℕ))
    → length (path_of names) + length target + 2 < cwd_path_max
    → lead target names ≡ gone_through target names
unfolding lead gone_through path_of rest_of
lead-gone_through [] names room = refl
lead-gone_through (c ∷ cs) names room = elim (Bool-cases (c == b'/')) [
  | inl e ↦ rw e (moves-enter_all cs [] 15 [] (omega arith))
  | inr e ↦ rw e (moves-enter_all (c ∷ cs) [] 15 names (omega arith))
]

-- Where a volume is mounted, the current directory has a cluster number, the path shows names
-- without slashes, and the path and the target together with two more characters are shorter than the path's buffer of
-- 128 bytes, take a walk of `cd` along the target that returns. Then the command returns. If all
-- tokens were entered, the path shows the stack of the names gone through: "." stays, ".." is the
-- parent, any other token is put on top in its shown form, and an absolute target begins at the root. If a token was not
-- entered, the path and the current directory are as before. The volume and its root stay the same.
pub cd_to-gone_through :
    (target : List ℕ) (names : List (List ℕ)) (s s1 : System) (entered : Bool)
    → HasPlace s.fs
    → AreNames names
    → s.cwd_path ≡ path_of names
    → length (path_of names) + length target + 2 < cwd_path_max
    → cd_from target s ≡ ok entered s1
    → (s2 : System) × (cd_to target s ≡ ok tt s2) × Shown (gone_through target names) s entered s2
cd_to-gone_through target names s s1 entered place h shown room e =
    let r = cd_to-Shown target names s s1 entered place h shown e in
    (r.0, r.1, subst (λ ns. Shown ns s entered r.0) (lead-gone_through target names room) r.2)
