-- ===== src/Shell/Follow.antt =====
-- What a command does to the current directory and to the shell's path.
use osver.Prelude.{
  ℕ, ◌-◌, ◌≡◌, refl, ◌∙◌, true, false, Option, some, none, List, [], ◌∷◌, ◌++◌, ltb, ◌==◌, inl, inr,
  Bool-cases,
}
use osver.Fat32.State
use osver.Fat32.State.{Fat32}
use osver.Fat32.Tree.{fat32_chdir, fat32_cwd_cluster, fat32_set_cwd_cluster}
use osver.Fat32.Keeps.{SamePlace, Kept, Keeps}
use osver.Fat32.Moves.{
  SameVolume, same_volume, Moved, Moves, Moved-bind, Moves-fat32_chdir, set_back,
}
use osver.Shell.Descend.{
  enter_prev, descend_loop, path_descend, path_to_parent_and_base, in_parent, accept, work_on,
}

Moves-enter_prev : (prev : Option (List ℕ)) → Moves (enter_prev prev)
unfolding enter_prev Moves
Moves-enter_prev none fs = same_volume fs
Moves-enter_prev (some prev) fs = Moves-fat32_chdir prev fs

Moves-descend_loop :
    (path : List ℕ) (prev : Option (List ℕ)) (cur : List ℕ) (room : ℕ)
    → Moves (descend_loop path prev cur room)
unfolding descend_loop Moves
Moves-descend_loop [] prev [] room fs = same_volume fs
Moves-descend_loop [] prev (d ∷ ds) room fs =
    Moved-bind fs (enter_prev prev fs) _ (Moves-enter_prev prev fs) (λ entered s. same_volume s)
Moves-descend_loop (c ∷ cs) prev [] room fs = elim (Bool-cases (c == b'/')) [
  | inl e ↦ rw e (Moves-descend_loop cs prev [] 15 fs)
  | inr e ↦ rw e (elim (Bool-cases (room == 0)) [
    | inl z ↦ rw z (Moves-descend_loop cs prev [] room fs)
    | inr z ↦ rw z (Moves-descend_loop cs prev (c ∷ []) (room - 1) fs)
  ])
]
Moves-descend_loop (c ∷ cs) prev (d ∷ ds) room fs = elim (Bool-cases (c == b'/')) [
  | inl e ↦ rw e (
      Moved-bind fs (enter_prev prev fs) _ (Moves-enter_prev prev fs) (λ entered s.
        elim (Bool-cases entered) [
          | inl t ↦ rw t (Moves-descend_loop cs (some (d ∷ ds)) [] 15 s)
          | inr t ↦ rw t (same_volume s)
        ]))
  | inr e ↦ rw e (elim (Bool-cases (room == 0)) [
    | inl z ↦ rw z (Moves-descend_loop cs prev (d ∷ ds) room fs)
    | inr z ↦ rw z (Moves-descend_loop cs prev (d ∷ ds ++ (c ∷ [])) (room - 1) fs)
  ])
]

Moves-path_descend : (path : List ℕ) → Moves (path_descend path)
unfolding path_descend Moves
Moves-path_descend [] fs = Moves-descend_loop [] none [] 15 fs
Moves-path_descend (c ∷ cs) fs = elim (Bool-cases (c == b'/')) [
  | inl e ↦ rw e (
      Moved-bind fs (fat32_chdir (b'/' ∷ []) fs) _ (Moves-fat32_chdir (b'/' ∷ []) fs)
        (λ u s. Moves-descend_loop cs none [] 15 s))
  | inr e ↦ rw e (Moves-descend_loop cs none (c ∷ []) 14 fs)
]

-- a volume is mounted, and the current directory has a cluster number
pub record HasPlace (fs : Fat32) : Type 0 where
  pub mounted : fs.mounted ≡ true
  pub cluster : ltb fs.cwd_cluster 2 ≡ false

-- what `path_to_parent_and_base` returns, and where it leaves the current directory
Parented : Fat32 → State.Run (Option (ℕ × List ℕ)) → Type 0
Parented fs (State.ok none s) = SamePlace fs s
Parented fs (State.ok (some (saved, base)) s) = (saved ≡ fs.cwd_cluster) × SameVolume fs s
Parented fs State.out_of_fuel = Unit {0}

path_to_parent_and_base-Parented :
    (path : List ℕ) (fs : Fat32) → HasPlace fs → Parented fs (path_to_parent_and_base path fs)
unfolding path_to_parent_and_base fat32_cwd_cluster Parented Moves
path_to_parent_and_base-Parented path fs place =
    behind (path_descend path fs) (Moves-path_descend path fs)
  where
    behind :
        (r : State.Run (Option (List ℕ)))
        → Moved fs r
        → Parented fs (State.and_then r (accept fs.cwd_cluster))
    behind State.out_of_fuel h = tt
    behind (State.ok none s) h = set_back fs s h place.mounted place.cluster
    behind (State.ok (some []) s) h = set_back fs s h place.mounted place.cluster
    behind (State.ok (some (c ∷ cs)) s) h = (refl, h)

-- the current directory set back behind a call that kept the place
restored :
    {A : Type 0} (fs s : Fat32)
    → HasPlace fs
    → SameVolume fs s
    → (r : State.Run A) → Kept s r
    → Kept fs
        (State.and_then r (λ a s'. State.ok (some a) (fat32_set_cwd_cluster fs.cwd_cluster s')))
restored fs s place same State.out_of_fuel h = tt
restored fs s place same (State.ok a s') h =
    set_back fs s' (record { mounted = h.mounted ∙ same.mounted; root = h.root ∙ same.root })
      place.mounted place.cluster

-- Work on a basename that keeps the place keeps it as a part of `in_parent`.
pub Kept-in_parent :
    {A : Type 0} (path : List ℕ) (f : List ℕ → State.M A)
    → ((base : List ℕ) → Keeps (f base))
    → (fs : Fat32) → HasPlace fs
    → Kept fs (in_parent path f fs)
unfolding in_parent Parented Keeps
Kept-in_parent path f keeps fs place =
    behind (path_to_parent_and_base path fs) (path_to_parent_and_base-Parented path fs place)
  where
    behind :
        (r : State.Run (Option (ℕ × List ℕ)))
        → Parented fs r
        → Kept fs (State.and_then r (work_on f))
    behind State.out_of_fuel h = tt
    behind (State.ok none s) h = h
    behind (State.ok (some (saved, base)) s) h =
        rw h.0 (restored fs s place h.1 (f base s) (keeps base s))
