-- ===== src/Shell/Track.antt =====
-- cd: the path and the directory.
use osver.Prelude.{
  ℕ, ◌-◌, ◌≡◌, refl, subst, ap, ◌∙◌, Bool, true, false, List, [], ◌∷◌, ◌++◌, ◌==◌, if◌then◌else◌,
  inl, inr, Bool-cases,
}
use osver.Fat32.State
use osver.Fat32.Tree.{fat32_chdir, fat32_cwd_cluster}
use osver.Shell.Follow.{HasPlace}
use osver.Fat32.Keeps.{SamePlace}
use osver.Fat32.Moves.{SameVolume, same_volume, Moved, Moves, Moves-fat32_chdir, set_back}
use osver.Shell.Stack.{AreNames, no_slash, path_of, rest_of}
use osver.Shell.Cd.{follow, cd_token, cd_loop, cd_from, cd_to}
use osver.Shell.State.{System, Run, ok, halted, out_of_fuel, M, and_then}
use osver.Shell.Names.{move, moves, end_token, follow-move, move-AreNames, no_slash-snoc}

-- what a part of `cd` returns: after a success the path shows the names, and in any case the volume
-- is the same
abbrev pub Tracked : List (List ℕ) → System → Run Bool → Type 0
Tracked names s (ok true s') = (s'.cwd_path ≡ path_of names) × SameVolume s.fs s'.fs
Tracked names s (ok false s') = SameVolume s.fs s'.fs
Tracked names s halted = Unit {0}
Tracked names s out_of_fuel = Unit {0}

cd_token-Tracked :
    (tok : List ℕ) (names : List (List ℕ)) (s : System)
    → AreNames names
    → s.cwd_path ≡ path_of names
    → Tracked (end_token tok names) s (cd_token tok s)
unfolding cd_token Moves
cd_token-Tracked [] names s h shown = (shown, same_volume s.fs)
cd_token-Tracked (d ∷ ds) names s h shown =
    behind (fat32_chdir (d ∷ ds) s.fs) (Moves-fat32_chdir (d ∷ ds) s.fs)
  where
    behind :
        (r : State.Run Bool)
        → Moved s.fs r
        → Tracked (move (d ∷ ds) names) s (
            and_then
              (elim r as (λ _. Run Bool) [
                | State.ok a fs ↦ ok a (record s { fs = fs })
                | State.out_of_fuel ↦ out_of_fuel
              ])
              (λ entered.
                if entered
                then (λ s'. ok true (record s' { cwd_path = follow (d ∷ ds) s'.cwd_path }))
                else (λ s'. ok false s')))
    behind (State.ok true fs) m = (ap (follow (d ∷ ds)) shown ∙ follow-move (d ∷ ds) names h, m)
    behind (State.ok false fs) m = m
    behind State.out_of_fuel m = tt

end_token-AreNames :
    (tok : List ℕ) (names : List (List ℕ))
    → no_slash tok ≡ true
    → AreNames names
    → AreNames (end_token tok names)
end_token-AreNames [] names t h = h
end_token-AreNames (d ∷ ds) names t h = move-AreNames d ds names t h

-- the parts one after the other
Tracked-then :
    (names : List (List ℕ)) (s s' : System) (r : Run Bool)
    → SameVolume s.fs s'.fs
    → Tracked names s' r
    → Tracked names s r
Tracked-then names s s' (ok true s'') v h =
    (h.0, record { mounted = h.1.mounted ∙ v.mounted; root = h.1.root ∙ v.root })
Tracked-then names s s' (ok false s'') v h = record {
  mounted = h.mounted ∙ v.mounted;
  root = h.root ∙ v.root;
}
Tracked-then names s s' halted v h = tt
Tracked-then names s s' out_of_fuel v h = tt

Tracked-bind :
    (first names : List (List ℕ)) (s : System) (r : Run Bool) (k : M Bool)
    → Tracked first s r
    → ((s' : System) → s'.cwd_path ≡ path_of first → Tracked names s' (k s'))
    → Tracked names s (and_then r (λ entered. if entered then k else (λ s'. ok false s')))
Tracked-bind first names s (ok true s') k h hk = Tracked-then names s s' (k s') h.1 (hk s' h.0)
Tracked-bind first names s (ok false s') k h hk = h
Tracked-bind first names s halted k h hk = tt
Tracked-bind first names s out_of_fuel k h hk = tt

cd_loop-Tracked :
    (path tok : List ℕ) (room : ℕ) (names : List (List ℕ)) (s : System)
    → no_slash tok ≡ true
    → AreNames names
    → s.cwd_path ≡ path_of names
    → Tracked (moves path tok room names) s (cd_loop path tok room s)
unfolding cd_loop moves no_slash
cd_loop-Tracked [] [] room names s t h shown = cd_token-Tracked [] names s h shown
cd_loop-Tracked [] (d ∷ ds) room names s t h shown = cd_token-Tracked (d ∷ ds) names s h shown
cd_loop-Tracked (c ∷ cs) tok room names s t h shown = elim (Bool-cases (c == b'/')) [
  | inl e ↦ simp e (
      Tracked-bind (end_token tok names) _ s (cd_token tok s) (cd_loop cs [] 15)
        (cd_token-Tracked tok names s h shown)
        (λ s' shown'.
          cd_loop-Tracked cs [] 15 (end_token tok names) s' refl (end_token-AreNames tok names t h)
            shown'))
  | inr e ↦ simp e (elim (Bool-cases (room == 0)) [
    | inl z ↦ simp z (cd_loop-Tracked cs tok room names s t h shown)
    | inr z ↦
        simp z (
          cd_loop-Tracked cs (tok ++ (c ∷ [])) (room - 1) names s (no_slash-snoc tok c t e) h shown)
  ])
]

-- the names that a target leads to
unfoldable pub lead : List ℕ → List (List ℕ) → List (List ℕ)
lead [] names = names
lead (c ∷ cs) names = if c == b'/' then moves cs [] 15 [] else moves (c ∷ cs) [] 15 names

cd_from-Tracked :
    (target : List ℕ) (names : List (List ℕ)) (s : System)
    → AreNames names
    → s.cwd_path ≡ path_of names
    → Tracked (lead target names) s (cd_from target s)
unfolding cd_from lead AreNames Moves no_slash path_of rest_of moves
cd_from-Tracked [] names s h shown = cd_loop-Tracked [] [] 15 names s refl h shown
cd_from-Tracked (c ∷ cs) names s h shown = elim (Bool-cases (c == b'/')) [
  | inr e ↦ simp e (cd_loop-Tracked cs (c ∷ []) 14 names s (no_slash-snoc [] c refl e) h shown)
  | inl e ↦ simp e (behind (fat32_chdir (b'/' ∷ []) s.fs) (Moves-fat32_chdir (b'/' ∷ []) s.fs))
]
  where
    behind :
        (r : State.Run Bool)
        → Moved s.fs r
        → Tracked (moves cs [] 15 []) s (
            and_then
              (elim r as (λ _. Run Bool) [
                | State.ok a fs ↦ ok a (record s { fs = fs })
                | State.out_of_fuel ↦ out_of_fuel
              ])
              (λ _ s'. cd_loop cs [] 15 (record s' { cwd_path = b'/' ∷ [] })))
    behind (State.ok a fs) m =
        let s' = record s { fs = fs; cwd_path = b'/' ∷ [] } in
        Tracked-then (moves cs [] 15 []) s s' _ m (cd_loop-Tracked cs [] 15 [] s' refl tt refl)
    behind State.out_of_fuel m = tt

-- what cd shows: the way that was gone, or nothing
abbrev pub Shown : List (List ℕ) → System → Bool → System → Type 0
Shown names s true s' = (s'.cwd_path ≡ path_of names) × SameVolume s.fs s'.fs
Shown names s false s' = (s'.cwd_path ≡ s.cwd_path) × SamePlace s.fs s'.fs

-- `cd` along a target, with the names that its moves leave
pub cd_to-Shown :
    (target : List ℕ) (names : List (List ℕ)) (s s1 : System) (entered : Bool)
    → HasPlace s.fs
    → AreNames names
    → s.cwd_path ≡ path_of names
    → cd_from target s ≡ ok entered s1
    → (s2 : System) × (cd_to target s ≡ ok tt s2) × Shown (lead target names) s entered s2
unfolding cd_to fat32_cwd_cluster
cd_to-Shown target names s s1 true place h shown e = (
  s1,
  rw e refl,
  subst (Tracked (lead target names) s) e (cd_from-Tracked target names s h shown),
)
cd_to-Shown target names s s1 false place h shown e =
    let back =
      set_back s.fs s1.fs
        (subst (Tracked (lead target names) s) e (cd_from-Tracked target names s h shown))
        place.mounted place.cluster in
    rw e (_, refl, (refl, back))
