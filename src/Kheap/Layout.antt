-- ===== src/Kheap/Layout.antt =====
-- What the heap stands for: the payload sizes and the use of its blocks, in address order. First
-- fit, and the release of a block with its coalescing, as functions on that list.
use osver.Prelude.{
  ℕ, ◌+◌, ◌-◌, Bool, true, false, not, ◌&&◌, List, [], ◌∷◌, ◌++◌, leb, if◌then◌else◌,
}
use osver.Kheap.{hdr_size, kheap_align}

pub record Seg : Type 0 where
  pub size : ℕ
  pub used : Bool

abbrev pub seg : ℕ → Bool → Seg
seg n u = record { size = n; used = u }

-- the address behind a block at `p`
abbrev pub after : ℕ → Seg → ℕ
after p s = p + hdr_size + s.size

-- the address of the block that follows `ys`
abbrev pub address : ℕ → List Seg → ℕ
address p [] = p
address p (y ∷ ys) = address (after p y) ys

abbrev pub fits : ℕ → Seg → Bool
fits size s = not s.used && leb size s.size

abbrev pub carve : ℕ → Seg → List Seg
carve size s =
    if leb (hdr_size + kheap_align) (s.size - size)
    then seg size true ∷ seg (s.size - size - hdr_size) false ∷ []
    else seg s.size true ∷ []

-- the first free block of at least `size` bytes is taken, and split if the rest is worth it
abbrev pub alloc : ℕ → List Seg → List Seg
alloc size [] = []
alloc size (s ∷ xs) = if fits size s then carve size s ++ xs else s ∷ alloc size xs

-- the payload address of that block, 0 if there is none
abbrev pub place : ℕ → ℕ → List Seg → ℕ
place size p [] = 0
place size p (s ∷ xs) = if fits size s then p + hdr_size else place size (after p s) xs

-- a block of `n` bytes that becomes free swallows the block behind it, if that is free
abbrev pub joined_size : ℕ → List Seg → ℕ
joined_size n [] = n
joined_size n (t ∷ zs) = if t.used then n else n + (hdr_size + t.size)

abbrev pub joined_rest : List Seg → List Seg
joined_rest [] = []
joined_rest (t ∷ zs) = if t.used then t ∷ zs else zs

abbrev pub join_next : ℕ → List Seg → List Seg
join_next n zs = seg (joined_size n zs) false ∷ joined_rest zs

-- a free block of `n` bytes behind `ys` is joined with the last of `ys`, if that is free
abbrev pub join_prev : List Seg → ℕ → List Seg → List Seg
join_prev [] n zs = seg n false ∷ zs
join_prev (y ∷ []) n zs =
    if y.used then y ∷ seg n false ∷ zs else seg (y.size + (hdr_size + n)) false ∷ zs
join_prev (y ∷ y' ∷ ys) n zs = y ∷ join_prev (y' ∷ ys) n zs

-- a block of `n` bytes between `ys` and `zs` becomes free
abbrev pub release : List Seg → ℕ → List Seg → List Seg
release ys n zs = join_prev ys (joined_size n zs) (joined_rest zs)
