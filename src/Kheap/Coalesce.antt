-- ===== src/Kheap/Coalesce.antt =====
-- No two neighbours are free: `kmalloc` and `kfree` both keep a layout coalesced, and so a block
-- that is allocated and released leaves the layout as it was.
use osver.Prelude.{
  ℕ, ◌+◌, ◌-◌, ◌≤◌, ◌≡◌, ◌≢◌, ◌⊎◌, inl, inr, refl, ap, true, false, List, [], ◌∷◌, ◌++◌, arith,
  Bool-cases,
}
use osver.Kheap.{hdr_size}
use osver.Kheap.Layout.{
  Seg, seg, after, address, fits, carve, alloc, place, joined_size, joined_rest, join_prev, release,
}

-- `s` may stand in front of `xs`
abbrev pub Apart : Seg → List Seg → Type 0
Apart s [] = Unit {0}
Apart s (t ∷ _) = (s.used ≡ true) ⊎ (t.used ≡ true)

abbrev pub Coalesced : List Seg → Type 0
Coalesced [] = Unit {0}
Coalesced (s ∷ xs) = Apart s xs × Coalesced xs

Apart-used : (s : Seg) (xs : List Seg) → s.used ≡ true → Apart s xs
Apart-used s [] u = tt
Apart-used s (t ∷ xs) u = inl u

-- `Apart` reads the use of its first block only
Apart-same : (s s' : Seg) (xs : List Seg) → s.used ≡ s'.used → Apart s xs → Apart s' xs
Apart-same s s' [] e a = tt
Apart-same s s' (t ∷ xs) e (inl u) = inl (ground arith)
Apart-same s s' (t ∷ xs) e (inr u) = inr u

Apart-alloc : (n : ℕ) (s : Seg) (xs : List Seg) → Apart s xs → Apart s (alloc n xs)
Apart-alloc n s [] a = tt
Apart-alloc n s (t ∷ xs) a = ground arith

carve-Coalesced :
    (n : ℕ) (s : Seg) (xs : List Seg)
    → s.used ≡ false
    → Coalesced (s ∷ xs)
    → Coalesced (carve n s ++ xs)
carve-Coalesced n s xs free c = ground (
  arith,
  Apart-used (seg s.size true) xs refl,
  Apart-same s (seg (s.size - n - hdr_size) false) xs free c.0,
)

-- `alloc` keeps a layout coalesced.
pub alloc-Coalesced : (n : ℕ) (xs : List Seg) → Coalesced xs → Coalesced (alloc n xs)
alloc-Coalesced n [] c = tt
alloc-Coalesced n (s ∷ xs) c =
    ground (arith, carve-Coalesced n s xs, Apart-alloc n s xs c.0, alloc-Coalesced n xs c.1)

joined-Coalesced :
    (n : ℕ) (zs : List Seg)
    → Coalesced zs
    → Apart (seg n false) (joined_rest zs) × Coalesced (joined_rest zs)
joined-Coalesced n [] c = (tt, tt)
joined-Coalesced n (t ∷ zs) c = elim (Bool-cases t.used) [
  | inl busy ↦ ground arith
  | inr free ↦ ground (arith, Apart-same t (seg n false) zs free c.0)
]

Apart-join_prev :
    (x y : Seg) (ys : List Seg) (n : ℕ) (zs : List Seg)
    → Apart x (y ∷ ys)
    → Apart x (join_prev (y ∷ ys) n zs)
Apart-join_prev x y [] n zs a = ground arith
Apart-join_prev x y (y' ∷ ys) n zs a = a

join_prev-Coalesced :
    (ys : List Seg) (n : ℕ) (zs : List Seg)
    → Coalesced ys
    → Apart (seg n false) zs
    → Coalesced zs
    → Coalesced (join_prev ys n zs)
join_prev-Coalesced [] n zs cy a c = (a, c)
join_prev-Coalesced (y ∷ []) n zs cy a c =
    ground (arith, Apart-same (seg n false) (seg (y.size + (hdr_size + n)) false) zs refl a)
join_prev-Coalesced (y ∷ y' ∷ ys) n zs cy a c =
    (Apart-join_prev y y' ys n zs cy.0, join_prev-Coalesced (y' ∷ ys) n zs cy.1 a c)

Coalesced-prefix : (ys : List Seg) (zs : List Seg) → Coalesced (ys ++ zs) → Coalesced ys
Coalesced-prefix [] zs c = tt
Coalesced-prefix (y ∷ []) zs c = (tt, tt)
Coalesced-prefix (y ∷ y' ∷ ys) zs c = (c.0, Coalesced-prefix (y' ∷ ys) zs c.1)

pub Coalesced-suffix : (ys : List Seg) (zs : List Seg) → Coalesced (ys ++ zs) → Coalesced zs
Coalesced-suffix [] zs c = c
Coalesced-suffix (y ∷ ys) zs c = Coalesced-suffix ys zs c.1

-- So does `release`: both joins are made wherever they are due.
pub release-Coalesced :
    (ys : List Seg) (s : Seg) (n : ℕ) (zs : List Seg)
    → Coalesced (ys ++ s ∷ zs)
    → Coalesced (release ys n zs)
release-Coalesced ys s n zs c =
    let j = joined-Coalesced (joined_size n zs) zs (Coalesced-suffix ys (s ∷ zs) c).1 in
    join_prev-Coalesced ys (joined_size n zs) (joined_rest zs) (Coalesced-prefix ys (s ∷ zs) c) j.0
      j.1

-- Where `alloc` finds a block, it is the first that fits, and only that block changes.
pub record Found (n p : ℕ) (xs : List Seg) : Type 0 where
  pub front : List Seg
  pub block : Seg
  pub back : List Seg
  pub split_at : xs ≡ front ++ block ∷ back
  pub was_free : block.used ≡ false
  pub enough : n ≤ block.size
  pub placed : place n p xs ≡ address p front + hdr_size
  pub carved : alloc n xs ≡ front ++ (carve n block ++ back)

Found-cons :
    (n p : ℕ) (s : Seg) (xs : List Seg)
    → fits n s ≡ false
    → Found n (after p s) xs
    → Found n p (s ∷ xs)
Found-cons n p s xs miss f = record {
  front = s ∷ f.front;
  block = f.block;
  back = f.back;
  split_at = ap (λ l. s ∷ l) f.split_at;
  was_free = f.was_free;
  enough = f.enough;
  placed = rw miss f.placed;
  carved = rw miss (ap (λ l. s ∷ l) f.carved);
}

pub place-Found : (n p : ℕ) (xs : List Seg) → place n p xs ≢ 0 → Found n p xs
place-Found n p [] ne = absurd (ne refl)
place-Found n p (s ∷ xs) ne = elim (Bool-cases (fits n s)) [
  | inl fit ↦ record {
    front = [];
    block = s;
    back = xs;
    split_at = refl;
    was_free = ground arith;
    enough = ground arith;
    placed = rw fit;
    carved = rw fit;
  }
  | inr miss ↦ Found-cons n p s xs miss (place-Found n (after p s) xs (ground arith))
]

-- The first part of a carved block, released, gives the block back.
pub join_prev-back :
    (ys : List Seg) (s : Seg) (zs : List Seg)
    → s.used ≡ false
    → Coalesced (ys ++ s ∷ zs)
    → join_prev ys s.size zs ≡ ys ++ s ∷ zs
join_prev-back [] s zs free c = ground arith
join_prev-back (y ∷ []) s zs free c = ground arith
join_prev-back (y ∷ y' ∷ ys) s zs free c = ap (λ l. y ∷ l) (join_prev-back (y' ∷ ys) s zs free c.1)

pub joined_none :
    (s : Seg) (zs : List Seg)
    → s.used ≡ false
    → Apart s zs
    → (joined_size s.size zs ≡ s.size) × (joined_rest zs ≡ zs)
joined_none s [] free a = (refl, refl)
joined_none s (t ∷ zs) free a = ground arith
