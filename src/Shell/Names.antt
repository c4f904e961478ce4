-- ===== src/Shell/Names.antt =====
-- The names to which the tokens of a path lead.
use osver.Prelude.{
  ℕ, zero, suc, ◌-◌, ◌≡◌, refl, ◌∙◌, true, false, List, [], ◌∷◌, ◌++◌, ◌==◌, if◌then◌else◌, inl,
  inr, arith, Bool-cases,
}
use osver.Fat32.Tree.{is_dot, is_dotdot}
use osver.Shell.Path.{short_to_display, upper}
use osver.Shell.Stack.{
  AreNames, no_slash, path_of, parent, too_long, path_push-path_of, path_pop-path_of,
}
use osver.Shell.Cd.{follow}

-- one move in the stack of names
unfoldable pub move : List ℕ → List (List ℕ) → List (List ℕ)
move tok names =
    if is_dot tok
    then names
    else if is_dotdot tok
    then parent names
    else if too_long tok names
    then names
    else short_to_display 12 tok ∷ names

-- the names after a token, which may be empty
abbrev pub end_token : List ℕ → List (List ℕ) → List (List ℕ)
end_token [] names = names
end_token (d ∷ ds) names = move (d ∷ ds) names

-- the moves of the tokens of a path
unfoldable pub moves : List ℕ → List ℕ → ℕ → List (List ℕ) → List (List ℕ)
moves [] [] room names = names
moves [] (d ∷ ds) room names = move (d ∷ ds) names
moves (c ∷ cs) tok room names =
    if c == b'/'
    then moves cs [] 15 (end_token tok names)
    else if room == 0
    then moves cs tok room names
    else moves cs (tok ++ (c ∷ [])) (room - 1) names

upper-slash : (c : ℕ) → (upper c == b'/') ≡ (c == b'/')
unfolding upper
upper-slash c = ground arith

display-no_slash :
    (n : ℕ) (tok : List ℕ) → no_slash tok ≡ true → no_slash (short_to_display n tok) ≡ true
unfolding short_to_display no_slash
display-no_slash zero tok h = refl
display-no_slash (suc n) [] h = refl
display-no_slash (suc n) (c ∷ cs) h =
    rw (upper-slash c, display-no_slash n cs (ground arith)) (ground arith)

pub follow-move :
    (tok : List ℕ) (names : List (List ℕ))
    → AreNames names
    → follow tok (path_of names) ≡ path_of (move tok names)
unfolding follow move
follow-move tok names h = elim (Bool-cases (is_dot tok)) [
  | inl e ↦ rw e refl
  | inr dot ↦ rw dot (elim (Bool-cases (is_dotdot tok)) [
    | inl e ↦ rw e (path_pop-path_of names h)
    | inr e ↦ rw e (
        path_push-path_of tok names h ∙ elim (Bool-cases (too_long tok names)) [
          | inl long ↦ rw long refl
          | inr long ↦ rw long refl
        ])
  ])
]

parent-AreNames : (names : List (List ℕ)) → AreNames names → AreNames (parent names)
unfolding parent AreNames
parent-AreNames [] h = h
parent-AreNames (n ∷ ns) h = h.2

pub move-AreNames :
    (c : ℕ) (cs : List ℕ) (names : List (List ℕ))
    → no_slash (c ∷ cs) ≡ true
    → AreNames names
    → AreNames (move (c ∷ cs) names)
unfolding move AreNames short_to_display
move-AreNames c cs names slash h = elim (Bool-cases (is_dot (c ∷ cs))) [
  | inl e ↦ rw e h
  | inr dot ↦ rw dot (elim (Bool-cases (is_dotdot (c ∷ cs))) [
    | inl e ↦ rw e (parent-AreNames names h)
    | inr e ↦ rw e (elim (Bool-cases (too_long (c ∷ cs) names)) [
      | inl long ↦ rw long h
      | inr long ↦ rw long (omega arith, display-no_slash 12 (c ∷ cs) slash, h)
    ])
  ])
]

pub no_slash-snoc :
    (tok : List ℕ) (c : ℕ)
    → no_slash tok ≡ true
    → (c == b'/') ≡ false
    → no_slash (tok ++ (c ∷ [])) ≡ true
unfolding no_slash
no_slash-snoc [] c h e = rw e refl
no_slash-snoc (d ∷ ds) c h e = rw (no_slash-snoc ds c (ground arith) e) (ground arith)
