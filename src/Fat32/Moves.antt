-- ===== src/Fat32/Moves.antt =====
-- A change of directory keeps the volume: whether one is mounted, and its root.
use osver.Prelude.{
  ℕ, ◌≡◌, refl, sym, ◌∙◌, Bool, true, false, inl, inr, Bool-cases, ◌==◌, if◌then◌else◌, Option,
  none, some, List, ltb,
}
use osver.Fat32.State.{Fat32, Run, ok, out_of_fuel, M, and_then, is_directory}
use osver.Fat32.Name.{to_short_name}
use osver.Fat32.Keeps.{Kept, SamePlace}
use osver.Fat32.Walks.{Keeps-search_dir}
use osver.Fat32.Dir.{search_dir, DirLookup}
use osver.Fat32.Keeps.{Keeps}
use osver.Fat32.Tree.{
  fat32_chdir, chdir_up, chdir_down, enter_entry, enter, is_slash, is_dot, is_dotdot, dotdot_name,
  fat32_set_cwd_cluster,
}

pub record SameVolume (fs fs' : Fat32) : Type 0 where
  pub mounted : fs'.mounted ≡ fs.mounted
  pub root : fs'.root_cluster ≡ fs.root_cluster

pub same_volume : (fs : Fat32) → SameVolume fs fs
same_volume fs = record { mounted = refl; root = refl }

abbrev pub Moved : {A : Type 0} → Fat32 → Run A → Type 0
Moved fs (ok a fs') = SameVolume fs fs'
Moved fs out_of_fuel = Unit {0}

unfoldable pub Moves : {A : Type 0} → M A → Type 0
Moves m = (fs : Fat32) → Moved fs (m fs)

pub Moved-from :
    {B : Type 0} (fs fs' : Fat32) (r : Run B) → SameVolume fs fs' → Moved fs' r → Moved fs r
Moved-from fs fs' (ok b fs'') p q = record {
  mounted = q.mounted ∙ p.mounted;
  root = q.root ∙ p.root;
}
Moved-from fs fs' out_of_fuel p q = tt

pub Moved-bind :
    {A B : Type 0} (fs : Fat32) (r : Run A) (k : A → M B)
    → Moved fs r
    → ((a : A) → Moves (k a))
    → Moved fs (and_then r k)
unfolding Moves
Moved-bind fs (ok a fs') k p hk = Moved-from fs fs' (k a fs') p (hk a fs')
Moved-bind fs out_of_fuel k p hk = tt

pub Kept-Moved : {A : Type 0} (fs : Fat32) (r : Run A) → Kept fs r → Moved fs r
Kept-Moved fs (ok a fs') h = record { mounted = h.mounted; root = h.root }
Kept-Moved fs out_of_fuel h = tt

to_entry : (cluster : ℕ) → Moves (enter cluster)
unfolding Moves
to_entry cluster fs = record { mounted = refl; root = refl }

searched :
    (start : ℕ) (target : List ℕ) (k : Option DirLookup → M Bool)
    → ((o : Option DirLookup) → Moves (k o))
    → (fs : Fat32) → Moved fs (and_then (search_dir start target fs) k)
unfolding Keeps
searched start target k hk fs =
    Moved-bind fs (search_dir start target fs) k
      (Kept-Moved fs (search_dir start target fs) (Keeps-search_dir start target fs)) hk

Moves-chdir_up : Moves chdir_up
unfolding chdir_up Moves
Moves-chdir_up fs = elim (Bool-cases (fs.cwd_cluster == fs.root_cluster)) [
  | inl e ↦ rw e (same_volume fs)
  | inr e ↦ rw e (searched fs.cwd_cluster dotdot_name _ after fs)
]
  where
    after :
        (o : Option DirLookup)
        → Moves (elim o as (λ _. M Bool) [
          | none ↦ (λ s. ok false s)
          | some look ↦ enter_entry look.entry
        ])
    after none s = same_volume s
    after (some look) s = record { mounted = refl; root = refl }

Moves-chdir_down : (name : List ℕ) → Moves (chdir_down name)
unfolding chdir_down Moves
Moves-chdir_down name fs = searched fs.cwd_cluster (to_short_name name) _ after fs
  where
    after :
        (o : Option DirLookup)
        → Moves (elim o as (λ _. M Bool) [
          | none ↦ (λ s. ok false s)
          | some look ↦
              if is_directory look.entry then enter_entry look.entry else (λ s. ok false s)
        ])
    after none s = same_volume s
    after (some look) s = elim (Bool-cases (is_directory look.entry)) [
      | inl e ↦ rw e (record { mounted = refl; root = refl })
      | inr e ↦ rw e (same_volume s)
    ]

pub Moves-fat32_chdir : (name : List ℕ) → Moves (fat32_chdir name)
unfolding fat32_chdir Moves
Moves-fat32_chdir name fs = elim (Bool-cases fs.mounted) [
  | inr e ↦ simp e (same_volume fs)
  | inl m ↦ simp m (elim (Bool-cases (is_slash name)) [
    | inl e ↦ rw e (record { mounted = sym m; root = refl })
    | inr slash ↦ rw slash (elim (Bool-cases (is_dot name)) [
      | inl e ↦ rw e (same_volume fs)
      | inr dot ↦ rw dot (elim (Bool-cases (is_dotdot name)) [
        | inl e ↦ rw e (Moves-chdir_up fs)
        | inr e ↦ rw e (Moves-chdir_down name fs)
      ])
    ])
  ])
]

-- setting the current directory back in the same volume
pub set_back :
    (fs fs' : Fat32)
    → SameVolume fs fs'
    → fs.mounted ≡ true
    → ltb fs.cwd_cluster 2 ≡ false
    → SamePlace fs (fat32_set_cwd_cluster fs.cwd_cluster fs')
unfolding fat32_set_cwd_cluster
set_back fs fs' same m valid =
    let there : fs'.mounted ≡ true = same.mounted ∙ m in
    simp (there, valid) (record { mounted = sym m; root = same.root; cwd = refl })
