-- ===== src/Fat32/Keeps.antt =====
-- What the operations leave alone: whether a volume is mounted, its root, and the current directory.
use osver.Prelude.{◌≡◌, refl, ◌∙◌, Bool, true, false, if◌then◌else◌, Option, none, some}
use osver.Fat32.State.{Fat32, Run, ok, out_of_fuel, M, and_then}
use osver.Ata.{Disk}

pub record SamePlace (fs fs' : Fat32) : Type 0 where
  pub mounted : fs'.mounted ≡ fs.mounted
  pub root : fs'.root_cluster ≡ fs.root_cluster
  pub cwd : fs'.cwd_cluster ≡ fs.cwd_cluster

pub same_place : (fs : Fat32) → SamePlace fs fs
same_place fs = record { mounted = refl; root = refl; cwd = refl }

pub then_same : (fs fs' fs'' : Fat32) → SamePlace fs fs' → SamePlace fs' fs'' → SamePlace fs fs''
then_same fs fs' fs'' p q = record {
  mounted = q.mounted ∙ p.mounted;
  root = q.root ∙ p.root;
  cwd = q.cwd ∙ p.cwd;
}

-- a call that returns has the place of its start
abbrev pub Kept : {A : Type 0} → Fat32 → Run A → Type 0
Kept fs (ok a fs') = SamePlace fs fs'
Kept fs out_of_fuel = Unit {0}

unfoldable pub Keeps : {A : Type 0} → M A → Type 0
Keeps m = (fs : Fat32) → Kept fs (m fs)

pub Kept-if :
    {A : Type 0} (fs : Fat32) (b : Bool) (m n : M A)
    → Kept fs (m fs)
    → Kept fs (n fs)
    → Kept fs ((if b then m else n) fs)
Kept-if fs true m n h k = h
Kept-if fs false m n h k = k

pub Kept-option :
    {A B : Type 0} (fs : Fat32) (o : Option A) (n : M B) (f : A → M B)
    → Kept fs (n fs)
    → ((a : A) → Kept fs (f a fs))
    → Kept fs ((elim o as (λ _. M B) [ none ↦ n | some a ↦ f a ]) fs)
Kept-option fs none n f h k = h
Kept-option fs (some a) n f h k = k a

pub Kept-from :
    {B : Type 0} (fs fs' : Fat32) (r : Run B) → SamePlace fs fs' → Kept fs' r → Kept fs r
Kept-from fs fs' (ok b fs'') p q = then_same fs fs' fs'' p q
Kept-from fs fs' out_of_fuel p q = tt

pub Kept-bind :
    {A B : Type 0} (fs : Fat32) (r : Run A) (k : A → M B)
    → Kept fs r
    → ((a : A) → Keeps (k a))
    → Kept fs (and_then r k)
unfolding Keeps
Kept-bind fs (ok a fs') k p hk = Kept-from fs fs' (k a fs') p (hk a fs')
Kept-bind fs out_of_fuel k p hk = tt

-- a write to the disk before the rest of an operation
pub Kept-disk :
    {B : Type 0} (fs : Fat32) (d : Disk) (r : Run B) → Kept (record fs { disk = d }) r → Kept fs r
Kept-disk fs d r h =
    Kept-from fs (record fs { disk = d }) r (record { mounted = refl; root = refl; cwd = refl }) h
