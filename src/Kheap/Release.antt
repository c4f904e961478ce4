-- ===== src/Kheap/Release.antt =====
-- The steps of `kfree` on a chain: mark a block free, join it with the block behind it, and join it
-- with the block before it.
use osver.Prelude.{
  ℕ, ◌+◌, ◌%◌, ◌^◌, ◌<◌, ◌≡◌, ◌≢◌, ◌⊎◌, inl, inr, refl, ◌∙◌, ap, sym, subst, true, false, List, [],
  ◌∷◌, ◌++◌, arith, Bool-cases,
}
use osver.Kheap.{hdr_size, Kheap, set_used, merge_next, merge_prev}
use osver.Kheap.Layout.{Seg, seg, after, address, join_next, join_prev}
use osver.Kheap.Chain.{link, link-cases, header, Chain, Chain-frame, Chain-relink, Chain-bound}

-- the store after `merge_next` has joined the block at `n` to the one at `b`
module _ (b : ℕ) (h : Kheap) (n : ℕ) (e : (h.mem b).next ≡ n) (lt : b < n)
    (free : (h.mem n).used ≡ 0) where
  merge_next-at :
      n ≢ 0
      → (h.mem n).next ≢ b
      → (merge_next b h).mem b ≡ record (h.mem b) {
        size = ((h.mem b).size + (hdr_size + (h.mem n).size)) % 2 ^ 32;
        next = (h.mem n).next;
      }
  unfolding merge_next
  merge_next-at pos out = ground arith

  merge_next-behind :
      n ≢ 0
      → n < (h.mem n).next
      → (merge_next b h).mem (h.mem n).next ≡ record (h.mem (h.mem n).next) { prev = b }
  unfolding merge_next
  merge_next-behind pos out = ground arith

  merge_next-other :
      (a : ℕ)
      → a ≢ b
      → a ≢ n
      → ((h.mem n).next ≡ 0) ⊎ (a ≢ (h.mem n).next)
      → (merge_next b h).mem a ≡ h.mem a
  unfolding merge_next
  merge_next-other a n1 n2 out = ground arith

merge_next-none :
    (b : ℕ) (h : Kheap)
    → ((h.mem b).next ≡ 0) ⊎ ((h.mem (h.mem b).next).used ≢ 0)
    → merge_next b h ≡ h
unfolding merge_next
merge_next-none b h c = ground arith

pub merge_prev-none :
    (b : ℕ) (h : Kheap)
    → ((h.mem b).prev ≡ 0) ⊎ ((h.mem (h.mem b).prev).used ≢ 0)
    → merge_prev b h ≡ h
unfolding merge_prev
merge_prev-none b h c = ground arith

module _ (b : ℕ) (h : Kheap) (p : ℕ) (e : (h.mem b).prev ≡ p) (lt : p < b) (pos : p ≢ 0)
    (free : (h.mem p).used ≡ 0) where
  merge_prev-at :
      (h.mem b).next ≢ p
      → (merge_prev b h).mem p ≡ record (h.mem p) {
        size = ((h.mem p).size + (hdr_size + (h.mem b).size)) % 2 ^ 32;
        next = (h.mem b).next;
      }
  unfolding merge_prev
  merge_prev-at out = ground arith

  merge_prev-behind :
      b < (h.mem b).next
      → (merge_prev b h).mem (h.mem b).next ≡ record (h.mem (h.mem b).next) { prev = p }
  unfolding merge_prev
  merge_prev-behind out = ground arith

  merge_prev-other :
      (a : ℕ)
      → a ≢ p
      → a ≢ b
      → ((h.mem b).next ≡ 0) ⊎ (a ≢ (h.mem b).next)
      → (merge_prev b h).mem a ≡ h.mem a
  unfolding merge_prev
  merge_prev-other a n1 n2 out = ground arith

-- Only headers change.
pub merge_next-head : (b : ℕ) (h : Kheap) → (merge_next b h).head ≡ h.head
unfolding merge_next
merge_next-head b h = ground arith

pub merge_next-bytes : (b : ℕ) (h : Kheap) → (merge_next b h).bytes ≡ h.bytes
unfolding merge_next
merge_next-bytes b h = ground arith

pub merge_prev-head : (b : ℕ) (h : Kheap) → (merge_prev b h).head ≡ h.head
unfolding merge_prev
merge_prev-head b h = ground arith

pub merge_prev-bytes : (b : ℕ) (h : Kheap) → (merge_prev b h).bytes ≡ h.bytes
unfolding merge_prev
merge_prev-bytes b h = ground arith

pub link-join_prev :
    (q : ℕ) (y : Seg) (ys : List Seg) (n : ℕ) (zs : List Seg) → link q (join_prev (y ∷ ys) n zs) ≡ q
link-join_prev q y [] n zs = ground arith
link-join_prev q y (y' ∷ ys) n zs = refl

join_next-busy :
    (n : ℕ) (t : Seg) (zs : List Seg) → t.used ≡ true → join_next n (t ∷ zs) ≡ seg n false ∷ t ∷ zs
join_next-busy n t zs busy = ground arith

join_next-free :
    (n : ℕ) (t : Seg) (zs : List Seg)
    → t.used ≡ false
    → join_next n (t ∷ zs) ≡ seg (n + (hdr_size + t.size)) false ∷ zs
join_next-free n t zs free = ground arith

join_prev-busy :
    (y : Seg) (n : ℕ) (zs : List Seg)
    → y.used ≡ true
    → join_prev (y ∷ []) n zs ≡ y ∷ seg n false ∷ zs
join_prev-busy y n zs busy = ground arith

join_prev-free :
    (y : Seg) (n : ℕ) (zs : List Seg)
    → y.used ≡ false
    → join_prev (y ∷ []) n zs ≡ seg (y.size + (hdr_size + n)) false ∷ zs
join_prev-free y n zs free = ground arith

module _ (limit : ℕ) (small : limit < 2 ^ 32) where
  pub mark_free :
      (prev b : ℕ) (s : Seg) (zs : List Seg) (h : Kheap)
      → Chain h.mem limit prev b (s ∷ zs)
      → Chain (set_used b 0 h).mem limit prev b (seg s.size false ∷ zs)
  unfolding set_used
  mark_free prev b s zs h c =
      (ground (arith, c.0), Chain-frame limit h.mem _ b (after b s) zs (λ a le. ground arith) c.1)

  -- nothing is joined
  unchanged :
      (prev p : ℕ) {h h' : Kheap} {xs ys : List Seg}
      → h' ≡ h
      → xs ≡ ys
      → Chain h.mem limit prev p ys
      → Chain h'.mem limit prev p xs × ((a : ℕ) → a < p → h'.mem a ≡ h.mem a)
  unchanged prev p {h} {xs} e e' c =
      subst (λ g. Chain g.mem limit prev p xs × ((a : ℕ) → a < p → g.mem a ≡ h.mem a)) (sym e)
        (subst (λ l. Chain h.mem limit prev p l) (sym e') c, λ a lt. refl)

  -- the block behind `b` is free
  merge_next-join :
      (prev b n : ℕ) (t : Seg) (zs : List Seg) (h : Kheap)
      → t.used ≡ false
      → b ≢ 0
      → Chain h.mem limit prev b (seg n false ∷ t ∷ zs)
      → Chain (merge_next b h).mem limit prev b (seg (n + (hdr_size + t.size)) false ∷ zs)
        × ((a : ℕ) → a < b → (merge_next b h).mem a ≡ h.mem a)
  merge_next-join prev b n t zs h free pos c =
      let q = after b (seg n false) in
      let r = after q t in
      let bound = Chain-bound limit h.mem q r zs c.1.1 in
      let e : (h.mem b).next ≡ q = ground (arith, c.0) in
      let unused : (h.mem q).used ≡ 0 = ground (arith, c.1.0) in
      let next : (h.mem q).next ≡ link r zs = ground (arith, c.1.0) in
      let at_end : after b (seg (n + (hdr_size + t.size)) false) ≡ r = omega arith in
      (
        (
          ground (
            arith,
            c.0,
            c.1.0,
            at_end,
            merge_next-at b h q e (omega arith) unused (omega arith)
                (omega (arith, next, link-cases r zs)),
          ),
          subst (λ a. Chain (merge_next b h).mem limit b a zs) (sym at_end)
              (Chain-relink limit h.mem _ q b r zs
                (λ a lt.
                  merge_next-other b h q e (omega arith) unused a (omega arith) (omega arith)
                    (ground (arith, next, link-cases r zs)))
                (λ ne.
                  let e' : (h.mem q).next ≡ r = ground (arith, next, link-cases r zs) in
                  rw e' at (
                    merge_next-behind b h q e (omega arith) unused (omega arith)
                      (omega (arith, e'))))
                (omega arith) c.1.1),
        ),
        λ a lt.
            merge_next-other b h q e (omega arith) unused a (omega arith) (omega arith)
              (ground (arith, next, link-cases r zs)),
      )

  pub merge_next-Chain :
      (prev b n : ℕ) (zs : List Seg) (h : Kheap)
      → b ≢ 0
      → Chain h.mem limit prev b (seg n false ∷ zs)
      → Chain (merge_next b h).mem limit prev b (join_next n zs)
        × ((a : ℕ) → a < b → (merge_next b h).mem a ≡ h.mem a)
  merge_next-Chain prev b n [] h pos c =
      rw (merge_next-none b h (ground (arith, c.0))) (c, λ a lt. refl)
  merge_next-Chain prev b n (t ∷ zs) h pos c = elim (Bool-cases t.used) [
    | inl busy ↦
        unchanged prev b (merge_next-none b h (ground (arith, c.0, c.1.0)))
          (join_next-busy n t zs busy) c
    | inr free ↦
        subst
          (λ l.
            Chain (merge_next b h).mem limit prev b l
            × ((a : ℕ) → a < b → (merge_next b h).mem a ≡ h.mem a))
          (sym (join_next-free n t zs free)) (merge_next-join prev b n t zs h free pos c)
  ]

  -- the block at `p`, before the one at `b`, is free
  merge_prev-join :
      (prev p n : ℕ) (y : Seg) (zs : List Seg) (h : Kheap)
      → y.used ≡ false
      → p ≢ 0
      → Chain h.mem limit prev p (y ∷ seg n false ∷ zs)
      → Chain (merge_prev (after p y) h).mem limit prev p (seg (y.size + (hdr_size + n)) false ∷ zs)
        × ((a : ℕ) → a < p → (merge_prev (after p y) h).mem a ≡ h.mem a)
  merge_prev-join prev p n y zs h free pos c =
      let b = after p y in
      let r = after b (seg n false) in
      let bound = Chain-bound limit h.mem b r zs c.1.1 in
      let e : (h.mem b).prev ≡ p = ground (arith, c.1.0) in
      let unused : (h.mem p).used ≡ 0 = ground (arith, c.0) in
      let next : (h.mem b).next ≡ link r zs = ground (arith, c.1.0) in
      let at_end : after p (seg (y.size + (hdr_size + n)) false) ≡ r = omega arith in
      (
        (
          ground (
            arith,
            c.0,
            c.1.0,
            at_end,
            merge_prev-at b h p e (omega arith) pos unused (omega (arith, next, link-cases r zs)),
          ),
          subst (λ a. Chain (merge_prev b h).mem limit p a zs) (sym at_end)
              (Chain-relink limit h.mem _ b p r zs
                (λ a lt.
                  merge_prev-other b h p e (omega arith) pos unused a (omega arith) (omega arith)
                    (ground (arith, next, link-cases r zs)))
                (λ ne.
                  let e' : (h.mem b).next ≡ r = ground (arith, next, link-cases r zs) in
                  rw e' at (merge_prev-behind b h p e (omega arith) pos unused (omega (arith, e'))))
                (omega arith) c.1.1),
        ),
        λ a lt.
            merge_prev-other b h p e (omega arith) pos unused a (omega arith) (omega arith)
              (ground (arith, next, link-cases r zs)),
      )

  pub merge_prev-Chain :
      (prev p n : ℕ) (y : Seg) (ys zs : List Seg) (h : Kheap)
      → p ≢ 0
      → Chain h.mem limit prev p (y ∷ ys ++ seg n false ∷ zs)
      → Chain (merge_prev (address p (y ∷ ys)) h).mem limit prev p (join_prev (y ∷ ys) n zs)
        × ((a : ℕ) → a < p → (merge_prev (address p (y ∷ ys)) h).mem a ≡ h.mem a)
  merge_prev-Chain prev p n y [] zs h pos c = elim (Bool-cases y.used) [
    | inl busy ↦
        unchanged prev p (merge_prev-none (after p y) h (ground (arith, c.0, c.1.0)))
          (join_prev-busy y n zs busy) c
    | inr free ↦ rw (join_prev-free y n zs free) (merge_prev-join prev p n y zs h free pos c)
  ]
  merge_prev-Chain prev p n y (y' ∷ ys) zs h pos c =
      let rest = merge_prev-Chain p (after p y) n y' ys zs h (omega arith) c.1 in
      (
        (
          rest.1 p (omega arith)
              ∙ c.0
              ∙ ap (header y prev) (sym (link-join_prev (after p y) y' ys n zs)),
          rest.0,
        ),
        λ a lt. rest.1 a (omega arith),
      )
