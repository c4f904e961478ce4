-- ===== src/Kheap/Reach.antt =====
-- The heap over its life: what `kheap_init`, `kmalloc` and `kfree` of live payloads can reach.
use osver.Prelude.{
  ℕ, ◌+◌, ◌-◌, ◌^◌, ◌<◌, ◌≡◌, ◌≢◌, refl, ◌∙◌, sym, ap₂, true, false, List, [], ◌∷◌, ◌++◌, arith,
  subst, ◌==◌, Bool-cases, inl, inr, ==_eq,
}
use osver.Kheap.{Kheap, ok, hdr_size, storage_size, align_up, kheap_init, kmalloc, kfree, Memory}
use osver.Kheap.Layout.{Seg, seg, after, address, alloc, place, release}
use osver.Kheap.Chain.{link, Chain, to_word}
use osver.Kheap.Inv.{IsHeap, kheap_init-IsHeap, kmalloc-alloc}
use osver.Kheap.Free.{kfree-release}
use osver.Kheap.Coalesce.{Coalesced, alloc-Coalesced, release-Coalesced}

seg_eq : (s t : Seg) → s.size ≡ t.size → to_word s.used ≡ to_word t.used → s ≡ t
seg_eq s t e f = ground arith

module _ (limit : ℕ) (m : Memory) where
  -- A chain determines its layout.
  Chain-unique :
      (prev p : ℕ) (xs ys : List Seg)
      → p ≢ 0
      → link p xs ≡ link p ys
      → Chain m limit prev p xs
      → Chain m limit prev p ys
      → xs ≡ ys
  Chain-unique prev p [] [] pos e c d = refl
  Chain-unique prev p [] (y ∷ ys) pos e c d = absurd (omega arith)
  Chain-unique prev p (x ∷ xs) [] pos e c d = absurd (omega arith)
  Chain-unique prev p (x ∷ xs) (y ∷ ys) pos e c d =
      let same : x ≡ y = seg_eq x y (ground (arith, c.0, d.0)) (ground (arith, c.0, d.0)) in
      let d' : Chain m limit p (after p x) ys =
        subst (λ t. Chain m limit p (after p t) ys) (sym same) d.1 in
      ap₂ ◌∷◌ same
        (Chain-unique p (after p x) xs ys (omega arith) (ground (arith, c.0, d.0, same)) c.1 d')

IsHeap-unique :
    {base : ℕ} (xs ys : List Seg) {h : Kheap}
    → base ≢ 0
    → IsHeap base xs h
    → IsHeap base ys h
    → xs ≡ ys
IsHeap-unique {base} xs ys {h} pos i j =
    Chain-unique (base + storage_size) h.mem 0 base xs ys pos (sym i.first ∙ j.first) i.chain
      j.chain

-- Some coalesced layout tiles the slab.
pub record IsSound (base : ℕ) (h : Kheap) : Type 0 where
  pub layout : List Seg
  pub heap : IsHeap base layout h
  pub coalesced : Coalesced layout

module _ (base : ℕ) where
  -- A call of `kmalloc` that returns, and one of `kfree` on the payload of a used block.
  pub data Step : Kheap → Kheap → Type 0 where
    malloc : (size p : ℕ) {h h' : Kheap} → kmalloc size h ≡ ok p h' → Step h h'
    free :
        (ys : List Seg) (s : Seg) (zs : List Seg) {h h' : Kheap}
        → IsHeap base (ys ++ s ∷ zs) h
        → s.used ≡ true
        → kfree (address base ys + hdr_size) h ≡ ok tt h'
        → Step h h'

  pub data Reach : Kheap → Type 0 where
    init : (h : Kheap) → Reach (kheap_init base h)
    next : {h h' : Kheap} → Reach h → Step h h' → Reach h'

module _ (base : ℕ) (pos : base ≢ 0) (small : base + storage_size < 2 ^ 32) where
  kmalloc-zero : (h : Kheap) → kmalloc 0 h ≡ ok 0 h
  unfolding kmalloc
  kmalloc-zero h = refl

  -- On a sound heap `kmalloc` of any size returns, never halts, and leaves the heap sound.
  pub kmalloc-returns :
      (size : ℕ) (h : Kheap)
      → IsSound base h
      → (p : ℕ) × (out : Kheap) × (kmalloc size h ≡ ok p out) × IsSound base out
  kmalloc-returns size h s = elim (Bool-cases (size == 0)) [
    | inl z ↦ (0, h, rw (==_eq size 0 z) (kmalloc-zero h), s)
    | inr nz ↦
        let r = kmalloc-alloc base size s.layout h pos (ground arith) s.heap in
        let n = align_up size 8 in
        (
          place n base s.layout,
          r.0,
          r.1,
          record {
            layout = alloc n s.layout;
            heap = r.2;
            coalesced = alloc-Coalesced n s.layout s.coalesced;
          },
        )
  ]

  kmalloc-IsSound :
      (size p : ℕ) {h h' : Kheap} → kmalloc size h ≡ ok p h' → IsSound base h → IsSound base h'
  kmalloc-IsSound size p {h} {h'} e s =
      let r = kmalloc-returns size h s in
      let same : r.1 ≡ h' = ground (arith, r.2) in subst (λ g. IsSound base g) same r.3

  kfree-IsSound :
      (ys : List Seg) (t : Seg) (zs : List Seg) {h h' : Kheap}
      → IsHeap base (ys ++ t ∷ zs) h
      → t.used ≡ true
      → kfree (address base ys + hdr_size) h ≡ ok tt h'
      → IsSound base h
      → IsSound base h'
  kfree-IsSound ys t zs {h} {h'} i u e s =
      let r = kfree-release base ys t zs h pos small u i in
      let same : r.0 ≡ h' = ground (arith, r.1) in
      record {
        layout = release ys t.size zs;
        heap = subst (λ g. IsHeap base (release ys t.size zs) g) same r.2;
        coalesced =
            release-Coalesced ys t t.size zs
              (subst Coalesced (IsHeap-unique s.layout (ys ++ t ∷ zs) pos s.heap i) s.coalesced);
      }

  Step-IsSound : {h h' : Kheap} → Step base h h' → IsSound base h → IsSound base h'
  Step-IsSound (malloc size p e) s = kmalloc-IsSound size p e s
  Step-IsSound (free ys t zs i u e) s = kfree-IsSound ys t zs i u e s

  -- Every heap that is reached from `kheap_init` is tiled by blocks of which no two neighbours are
  -- free.
  pub Reach-IsSound : {h : Kheap} → Reach base h → IsSound base h
  Reach-IsSound (init h) = record {
    layout = seg (storage_size - hdr_size) false ∷ [];
    heap = kheap_init-IsHeap base h;
    coalesced = (tt, tt);
  }
  Reach-IsSound (next r st) = Step-IsSound st (Reach-IsSound r)
