-- ===== src/Shell/Stack.antt =====
-- The current path as a stack of names, the innermost first.
use osver.Prelude.{
  ℕ, ◌+◌, ◌<◌, ◌≡◌, refl, ◌∙◌, Bool, true, false, ◌&&◌, not, some, none, List, [], ◌∷◌, ◌++◌, leb,
  ◌==◌, if◌then◌else◌, length, length-append, inl, inr, arith, Bool-cases,
}
use osver.Shell.Path.{short_to_display, at_root, path_push, before_slash, path_pop, cwd_path_max}

unfoldable pub no_slash : List ℕ → Bool
no_slash [] = true
no_slash (c ∷ cs) = not (c == b'/') && no_slash cs

-- names with a character, and without a slash
unfoldable pub AreNames : List (List ℕ) → Type 0
AreNames [] = Unit {0}
AreNames (n ∷ ns) = (0 < length n) × (no_slash n ≡ true) × AreNames ns

-- the path without its first slash
unfoldable pub rest_of : List (List ℕ) → List ℕ
rest_of [] = []
rest_of (n ∷ []) = n
rest_of (n ∷ m ∷ ns) = rest_of (m ∷ ns) ++ (b'/' ∷ n)

unfoldable pub path_of : List (List ℕ) → List ℕ
path_of names = b'/' ∷ rest_of names

unfoldable pub parent : List (List ℕ) → List (List ℕ)
parent [] = []
parent (n ∷ ns) = ns

no_cut : (n : List ℕ) → no_slash n ≡ true → before_slash n ≡ none
unfolding before_slash no_slash
no_cut [] h = refl
no_cut (c ∷ cs) h =
    rw (no_cut cs (ground arith)) (let e : (c == b'/') ≡ false = ground arith in rw e refl)

cut : (r n : List ℕ) → no_slash n ≡ true → before_slash (r ++ (b'/' ∷ n)) ≡ some r
unfolding before_slash
cut [] n h = rw (no_cut n h) refl
cut (c ∷ cs) n h = rw (cut cs n h) refl

-- what `path_pop` leaves behind the first slash
popped :
    (r : List ℕ)
    → path_pop (b'/' ∷ r) ≡ elim (before_slash r) [ none ↦ b'/' ∷ [] | some f ↦ b'/' ∷ f ]
unfolding path_pop before_slash
popped [] = refl
popped (d ∷ cs) = refl

pub path_pop-path_of :
    (names : List (List ℕ)) → AreNames names → path_pop (path_of names) ≡ path_of (parent names)
unfolding path_of rest_of parent AreNames before_slash
path_pop-path_of [] h = popped []
path_pop-path_of (n ∷ []) h = popped n ∙ rw (no_cut n h.1) refl
path_pop-path_of (n ∷ m ∷ ns) h =
    popped (rest_of (m ∷ ns) ++ (b'/' ∷ n)) ∙ rw (cut (rest_of (m ∷ ns)) n h.1) refl

some_rest : (m : List ℕ) (ns : List (List ℕ)) → AreNames (m ∷ ns) → 0 < length (rest_of (m ∷ ns))
unfolding rest_of AreNames
some_rest m [] h = h.0
some_rest m (k ∷ ns) h = omega (arith, length-append (rest_of (k ∷ ns)) (b'/' ∷ m))

long_is_below : (r : List ℕ) → 0 < length r → at_root (b'/' ∷ r) ≡ false
unfolding at_root
long_is_below [] h = absurd (omega arith)
long_is_below (c ∷ cs) h = refl

-- whether a name does not fit behind a path
unfoldable pub too_long : List ℕ → List (List ℕ) → Bool
too_long name names =
    leb cwd_path_max (length (path_of names) + 1 + length (short_to_display 12 name) + 1)

pub path_push-path_of :
    (name : List ℕ) (names : List (List ℕ))
    → AreNames names
    → path_push name (path_of names)
      ≡ (if too_long name names then path_of names else path_of (short_to_display 12 name ∷ names))
unfolding path_push too_long path_of rest_of
path_push-path_of name names h = elim (Bool-cases (too_long name names)) [
  | inl full ↦ rw full refl
  | inr fits ↦ rw fits (below names h)
]
  where
    below :
        (ms : List (List ℕ))
        → AreNames ms
        → (if at_root (path_of ms)
            then path_of ms ++ short_to_display 12 name
            else path_of ms ++ (b'/' ∷ short_to_display 12 name))
          ≡ path_of (short_to_display 12 name ∷ ms)
    below [] e = refl
    below (m ∷ ns) e = rw (long_is_below (rest_of (m ∷ ns)) (some_rest m ns e)) refl
