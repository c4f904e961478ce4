-- ===== src/Kheap/Chain.antt =====
-- The headers in the store are the doubly linked list of a layout.
use osver.Prelude.{
  ℕ, ◌+◌, ◌*◌, ◌≤◌, ◌<◌, ◌≡◌, ◌≢◌, refl, ◌∙◌, ap, Bool, true, false, List, [], ◌∷◌, ◌++◌, arith,
  length, ◌⊎◌, inl, inr,
}
use osver.Kheap.{Block, kheap_magic, hdr_size, Memory}
use osver.Kheap.Layout.{Seg, after, address}

abbrev pub to_word : Bool → ℕ
to_word true = 1
to_word false = 0

-- a pointer to the first block of `xs`, if that lies at `q`
abbrev pub link : ℕ → List Seg → ℕ
link q [] = 0
link q (_ ∷ _) = q

pub link-cases : (q : ℕ) (xs : List Seg) → (link q xs ≡ 0) ⊎ (link q xs ≡ q)
link-cases q [] = inl refl
link-cases q (x ∷ xs) = inr refl

abbrev pub header : Seg → ℕ → ℕ → Block
header s prev next = record {
  magic = kheap_magic;
  size = s.size;
  used = to_word s.used;
  prev = prev;
  next = next;
}

-- From `p` to `limit` the store holds the blocks `xs`; the first has `prev` for its predecessor.
abbrev pub Chain : Memory → ℕ → ℕ → ℕ → List Seg → Type 0
Chain m limit prev p [] = p ≡ limit
Chain m limit prev p (s ∷ xs) =
    (m p ≡ header s prev (link (after p s) xs)) × Chain m limit p (after p s) xs

-- the address of the last block of `ys`, or `prev`
abbrev pub last_address : ℕ → ℕ → List Seg → ℕ
last_address prev p [] = prev
last_address prev p (y ∷ ys) = last_address p (after p y) ys

pub le-address : (p : ℕ) (ys : List Seg) → p ≤ address p ys
le-address p [] = omega arith
le-address p (y ∷ ys) = omega (arith, le-address (after p y) ys)

link-append :
    (q : ℕ) (ys : List Seg) (z z' : Seg) (zs zs' : List Seg)
    → link q (ys ++ z ∷ zs) ≡ link q (ys ++ z' ∷ zs')
link-append q [] z z' zs zs' = refl
link-append q (y ∷ ys) z z' zs zs' = refl

set_prev-header :
    (b : Block) (s : Seg) (prev prev' next : ℕ)
    → b ≡ header s prev next
    → record b { prev = prev' } ≡ header s prev' next
set_prev-header b s prev prev' next e =
    ap {A = Block} {B = Block} (λ b. record b { prev = prev' }) e

module _ (limit : ℕ) (m : Memory) where
  pub Chain-bound :
      (prev p : ℕ) (xs : List Seg) → Chain m limit prev p xs → p + hdr_size * length xs ≤ limit
  Chain-bound prev p [] c = omega arith
  Chain-bound prev p (s ∷ xs) c = omega (arith, Chain-bound p (after p s) xs c.1)

  -- A chain survives a change of the store before it.
  pub Chain-frame :
      (m' : Memory) (prev p : ℕ) (xs : List Seg)
      → ((a : ℕ) → p ≤ a → m' a ≡ m a)
      → Chain m limit prev p xs
      → Chain m' limit prev p xs
  Chain-frame m' prev p [] same c = c
  Chain-frame m' prev p (s ∷ xs) same c = (
    same p (omega arith) ∙ c.0,
    Chain-frame m' p (after p s) xs (λ a h. same a (omega arith)) c.1,
  )

  -- The first block of a chain is given another predecessor.
  pub Chain-relink :
      (m' : Memory) (prev prev' p : ℕ) (xs : List Seg)
      → ((a : ℕ) → p < a → m' a ≡ m a)
      → (link p xs ≢ 0 → m' p ≡ record (m p) { prev = prev' })
      → p ≢ 0
      → Chain m limit prev p xs
      → Chain m' limit prev' p xs
  Chain-relink m' prev prev' p [] same first pos c = c
  Chain-relink m' prev prev' p (s ∷ xs) same first pos c = (
    first pos ∙ set_prev-header (m p) s prev prev' _ c.0,
    Chain-frame m' p (after p s) xs (λ a h. same a (omega arith)) c.1,
  )

  -- the part of a chain behind `ys`
  pub Chain-drop :
      (prev p : ℕ) (ys zs : List Seg)
      → Chain m limit prev p (ys ++ zs)
      → Chain m limit (last_address prev p ys) (address p ys) zs
  Chain-drop prev p [] zs c = c
  Chain-drop prev p (y ∷ ys) zs c = Chain-drop p (after p y) ys zs c.1

  -- The part behind `ys` is exchanged, under a store that agrees before it.
  pub Chain-replace :
      (m' : Memory) (prev p : ℕ) (ys : List Seg) (z z' : Seg) (zs zs' : List Seg)
      → ((a : ℕ) → a < address p ys → m' a ≡ m a)
      → Chain m' limit (last_address prev p ys) (address p ys) (z' ∷ zs')
      → Chain m limit prev p (ys ++ z ∷ zs)
      → Chain m' limit prev p (ys ++ z' ∷ zs')
  Chain-replace m' prev p [] z z' zs zs' same new c = new
  Chain-replace m' prev p (y ∷ ys) z z' zs zs' same new c = (
    same p (omega (arith, le-address (after p y) ys))
        ∙ c.0
        ∙ ap (header y prev) (link-append (after p y) ys z z' zs zs'),
    Chain-replace m' p (after p y) ys z z' zs zs' same new c.1,
  )
