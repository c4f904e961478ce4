-- ===== src/Kheap/Split.antt =====
-- What `kmalloc` does to the block that it takes: split it if the rest is worth a header, and mark
-- it as used.
use osver.Prelude.{
  ℕ, ◌+◌, ◌-◌, ◌≤◌, ◌<◌, ◌≡◌, ◌≢◌, refl, sym, ◌∙◌, true, false, List, ◌∷◌, arith, leb, Bool-cases,
  inl, inr, subst, ◌⊎◌,
}
use osver.Kheap.{kheap_magic, hdr_size, kheap_align, Kheap, Run, ok, set_used, split, take_block}
use osver.Kheap.Layout.{Seg, seg, after, fits, alloc, place}
use osver.Kheap.Chain.{link, Chain, link-cases, link-cases, Chain-frame, Chain-relink}

split-at :
    (p size : ℕ) (h : Kheap)
    → (h.mem p).next ≢ p
    → (split p size h).mem p ≡ record (h.mem p) { size = size; next = p + hdr_size + size }
unfolding split
split-at p size h ne = ground arith

split-new :
    (p size : ℕ) (h : Kheap)
    → (h.mem p).next ≢ p + hdr_size + size
    → (split p size h).mem (p + hdr_size + size) ≡ record {
      magic = kheap_magic;
      size = (h.mem p).size - size - hdr_size;
      used = 0;
      prev = p;
      next = (h.mem p).next;
    }
unfolding split
split-new p size h ne = ground arith

split-next :
    (p size : ℕ) (h : Kheap)
    → p + hdr_size + size < (h.mem p).next
    → (split p size h).mem (h.mem p).next
      ≡ record (h.mem (h.mem p).next) { prev = p + hdr_size + size }
unfolding split
split-next p size h lt = ground arith

split-other :
    (p size : ℕ) (h : Kheap) (a : ℕ)
    → a ≢ p
    → a ≢ p + hdr_size + size
    → ((h.mem p).next ≡ 0) ⊎ (a ≢ (h.mem p).next)
    → (split p size h).mem a ≡ h.mem a
unfolding split
split-other p size h a ne ne_new out = ground arith

split-head : (p size : ℕ) (h : Kheap) → (split p size h).head ≡ h.head
unfolding split
split-head p size h = ground arith

split-bytes : (p size : ℕ) (h : Kheap) → (split p size h).bytes ≡ h.bytes
unfolding split
split-bytes p size h = ground arith

pub set_used-head : (p v : ℕ) (h : Kheap) → (set_used p v h).head ≡ h.head
unfolding set_used
set_used-head p v h = refl

pub set_used-bytes : (p v : ℕ) (h : Kheap) → (set_used p v h).bytes ≡ h.bytes
unfolding set_used
set_used-bytes p v h = refl

pub set_used-other : (p v : ℕ) (h : Kheap) (a : ℕ) → a ≢ p → (set_used p v h).mem a ≡ h.mem a
unfolding set_used
set_used-other p v h a ne = ground arith

module _ (limit size : ℕ) where
  take-whole :
      (prev p : ℕ) (s : Seg) (xs : List Seg) (h : Kheap)
      → s.used ≡ false
      → Chain h.mem limit prev p (s ∷ xs)
      → Chain (set_used p 1 h).mem limit prev p (seg s.size true ∷ xs)
  unfolding set_used
  take-whole prev p s xs h free c =
      (ground (arith, c.0), Chain-frame limit h.mem _ p (after p s) xs (λ a le. ground arith) c.1)

  take-split :
      (prev p : ℕ) (s : Seg) (xs : List Seg) (h : Kheap)
      → s.used ≡ false
      → hdr_size + size ≤ s.size
      → p ≢ 0
      → Chain h.mem limit prev p (s ∷ xs)
      → Chain
          (split p size h).mem
          limit
          prev
          p
          (seg size false ∷ seg (s.size - size - hdr_size) false ∷ xs)
  take-split prev p s xs h free room pos c =
      let n = p + hdr_size + size in
      let next : (h.mem p).next ≡ link (after p s) xs = ground (arith, c.0) in
      let at_end : after n (seg (s.size - size - hdr_size) false) ≡ after p s = omega arith in
      (
        ground (arith, c.0, split-at p size h (omega (arith, next, link-cases (after p s) xs))),
        (
          ground (
            arith,
            c.0,
            at_end,
            split-new p size h (omega (arith, next, link-cases (after p s) xs)),
          ),
          subst (λ q. Chain (split p size h).mem limit n q xs) (sym at_end)
              (Chain-relink limit h.mem _ p n (after p s) xs
                (λ a lt.
                  split-other p size h a (omega arith) (omega arith)
                    (ground (arith, next, link-cases (after p s) xs)))
                (λ ne.
                  let e : (h.mem p).next ≡ after p s =
                    ground (arith, next, link-cases (after p s) xs) in
                  rw e at (split-next p size h (omega (arith, e))))
                (omega arith) c.1),
        ),
      )

  -- What a run that allocates among `xs`, the blocks from `p` on, has done.
  pub record Allocated (prev p : ℕ) (xs : List Seg) (h : Kheap) (r : Run ℕ) : Type 0 where
    pub out : Kheap
    pub returns : r ≡ ok (place size p xs) out
    pub chain : Chain out.mem limit prev p (alloc size xs)
    pub same_head : out.head ≡ h.head
    pub same_bytes : out.bytes ≡ h.bytes
    pub same_before : (a : ℕ) → a < p → out.mem a ≡ h.mem a

  module _ (prev p : ℕ) (s : Seg) (xs : List Seg) (h : Kheap) (fit : fits size s ≡ true)
      (c : Chain h.mem limit prev p (s ∷ xs)) where
    take_block-whole :
        leb (hdr_size + kheap_align) (s.size - size) ≡ false
        → Allocated prev p (s ∷ xs) h (take_block p size h)
    unfolding take_block
    take_block-whole small = record {
      out = set_used p 1 h;
      returns = ground (arith, c.0);
      chain = rw (fit, small) (take-whole prev p s xs h (ground arith) c);
      same_head = set_used-head p 1 h;
      same_bytes = set_used-bytes p 1 h;
      same_before = λ a lt. set_used-other p 1 h a (omega arith);
    }

    take_block-split :
        leb (hdr_size + kheap_align) (s.size - size) ≡ true
        → p ≢ 0
        → Allocated prev p (s ∷ xs) h (take_block p size h)
    unfolding take_block
    take_block-split large pos = record {
      out = set_used p 1 (split p size h);
      returns = ground (arith, c.0);
      chain =
          rw (fit, large)
            (take-whole prev p (seg size false) (seg (s.size - size - hdr_size) false ∷ xs)
              (split p size h) refl (take-split prev p s xs h (ground arith) (ground arith) pos c));
      same_head = set_used-head p 1 (split p size h) ∙ split-head p size h;
      same_bytes = set_used-bytes p 1 (split p size h) ∙ split-bytes p size h;
      same_before = λ a lt.
          set_used-other p 1 (split p size h) a (omega arith)
          ∙ split-other p size h a (omega arith) (omega arith)
              (ground (arith, c.0, link-cases (after p s) xs));
    }

    pub take_block-Allocated : p ≢ 0 → Allocated prev p (s ∷ xs) h (take_block p size h)
    take_block-Allocated pos = elim (Bool-cases (leb (hdr_size + kheap_align) (s.size - size))) [
      | inl large ↦ take_block-split large pos
      | inr small ↦ take_block-whole small
    ]
