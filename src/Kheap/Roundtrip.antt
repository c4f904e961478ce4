-- ===== src/Kheap/Roundtrip.antt =====
-- `kmalloc` and `kfree` together.
use osver.Prelude.{
  ℕ, ◌+◌, ◌-◌, ◌^◌, ◌≤◌, ◌<◌, ◌≡◌, ◌≢◌, refl, ◌∙◌, sym, ap, true, false, List, ◌∷◌, ◌++◌, arith,
  Bool, ◌==◌, if◌then◌else◌, Bool-cases, inl, inr, leb, subst,
}
use osver.Kheap.{
  Kheap, ok, halted, out_of_fuel, hdr_size, kheap_align, storage_size, align_up, kmalloc, kfree,
  merge_next, merge_prev, set_used, set_size, set_next, set_prev, set_magic, Run,
}
use osver.Kheap.Layout.{Seg, seg, address, carve, place, release, join_prev}
use osver.Kheap.Inv.{IsHeap, kmalloc-alloc}
use osver.Kheap.Free.{kfree-release}
use osver.Kheap.Coalesce.{Coalesced, place-Found, join_prev-back, joined_none, Coalesced-suffix}

-- The block that `carve` marks as used, and what it puts behind it.
module _ (base : ℕ) (pos : base ≢ 0) (small : base + storage_size < 2 ^ 32) (n : ℕ) (ys : List Seg)
    (s : Seg) (zs : List Seg) (enough : n ≤ s.size) (free : s.used ≡ false)
    (c : Coalesced (ys ++ s ∷ zs)) (mid : Kheap)
    (i : IsHeap base (ys ++ (carve n s ++ zs)) mid) where
  Restored : Type 0
  Restored =
      (out : Kheap) × (kfree (address base ys + hdr_size) mid ≡ ok tt out)
      × IsHeap base (ys ++ s ∷ zs) out

  restore-split : leb (hdr_size + kheap_align) (s.size - n) ≡ true → Restored
  unfolding Restored
  restore-split large =
      let rest = seg (s.size - n - hdr_size) false in
      let e : carve n s ++ zs ≡ seg n true ∷ rest ∷ zs = ground arith in
      let same : n + (hdr_size + (s.size - n - hdr_size)) ≡ s.size = ground arith in
      let r =
        kfree-release base ys (seg n true) (rest ∷ zs) mid pos small refl
          (subst (λ l. IsHeap base (ys ++ l) mid) e i) in
      (
        r.0,
        r.1,
        subst (λ l. IsHeap base l r.0)
            (ap (λ k. join_prev ys k zs) same ∙ join_prev-back ys s zs free c) r.2,
      )

  restore-whole : leb (hdr_size + kheap_align) (s.size - n) ≡ false → Restored
  unfolding Restored
  restore-whole tight =
      let e : carve n s ++ zs ≡ seg s.size true ∷ zs = ground arith in
      let same : release ys s.size zs ≡ join_prev ys s.size zs =
        ground (arith, joined_none s zs free (Coalesced-suffix ys (s ∷ zs) c).0) in
      let r =
        kfree-release base ys (seg s.size true) zs mid pos small refl
          (subst (λ l. IsHeap base (ys ++ l) mid) e i) in
      (r.0, r.1, subst (λ l. IsHeap base l r.0) (same ∙ join_prev-back ys s zs free c) r.2)

  restore : Restored
  restore = elim (Bool-cases (leb (hdr_size + kheap_align) (s.size - n))) [
    | inl large ↦ restore-split large
    | inr tight ↦ restore-whole tight
  ]

-- Over a coalesced layout: where a free block is large enough for the rounded size, `kmalloc`
-- returns its payload, and `kfree` of that pointer returns and restores the very same layout.
pub kfree-kmalloc :
    (base size : ℕ) (xs : List Seg) (h : Kheap)
    → base ≢ 0
    → base + storage_size < 2 ^ 32
    → size ≢ 0
    → IsHeap base xs h
    → Coalesced xs
    → place (align_up size 8) base xs ≢ 0
    → (mid out : Kheap) × (kmalloc size h ≡ ok (place (align_up size 8) base xs) mid)
      × (kfree (place (align_up size 8) base xs) mid ≡ ok tt out)
      × IsHeap base xs out
unfolding Restored
kfree-kmalloc base size xs h pos small ne i c found =
    let n = align_up size 8 in
    let f = place-Found n base xs found in
    let m = kmalloc-alloc base size xs h pos ne i in
    let r =
      restore base pos small n f.front f.block f.back f.enough f.was_free
        (subst Coalesced f.split_at c) m.0 (subst (λ l. IsHeap base l m.0) f.carved m.2) in
    (
      m.0,
      r.0,
      m.1,
      ap (λ p. kfree p m.0) f.placed ∙ r.1,
      subst (λ l. IsHeap base l r.0) (sym f.split_at) r.2,
    )

used-set_size : (b i v : ℕ) (h : Kheap) → ((set_size i v h).mem b).used ≡ (h.mem b).used
unfolding set_size
used-set_size b i v h = ground arith

used-set_next : (b i v : ℕ) (h : Kheap) → ((set_next i v h).mem b).used ≡ (h.mem b).used
unfolding set_next
used-set_next b i v h = ground arith

used-set_prev : (b i v : ℕ) (h : Kheap) → ((set_prev i v h).mem b).used ≡ (h.mem b).used
unfolding set_prev
used-set_prev b i v h = ground arith

used-set_magic : (b i v : ℕ) (h : Kheap) → ((set_magic i v h).mem b).used ≡ (h.mem b).used
unfolding set_magic
used-set_magic b i v h = ground arith

used-if :
    (b : ℕ) (t : Bool) (x y : Kheap) (u : ℕ)
    → (x.mem b).used ≡ u
    → (y.mem b).used ≡ u
    → ((if t then x else y).mem b).used ≡ u
used-if b true x y u p q = p
used-if b false x y u p q = q

-- the part of a merge that joins two blocks
used-join :
    (b x z v w t : ℕ) (h h2 : Kheap)
    → set_next x w (set_size x v h) ≡ h2
    → ((set_magic z 0 (if t == 0 then h2 else set_prev t x h2)).mem b).used ≡ (h.mem b).used
used-join b x z v w t h h2 e =
    let two =
      ap (λ k. (k.mem b).used) (sym e)
      ∙ used-set_next b x w (set_size x v h)
      ∙ used-set_size b x v h in
    used-set_magic b z 0 (if t == 0 then h2 else set_prev t x h2)
    ∙ used-if b (t == 0) h2 (set_prev t x h2) (h.mem b).used two (used-set_prev b t x h2 ∙ two)

used-merge_next : (b c : ℕ) (h : Kheap) → ((merge_next c h).mem b).used ≡ (h.mem b).used
unfolding merge_next
used-merge_next b c h = used-if b ((h.mem c).next == 0) h _ (h.mem b).used refl (
    used-if b ((h.mem (h.mem c).next).used == 0) _ h (h.mem b).used
      (used-join b c (h.mem c).next _ _ _ h _ refl) refl)

used-merge_prev : (b c : ℕ) (h : Kheap) → ((merge_prev c h).mem b).used ≡ (h.mem b).used
unfolding merge_prev
used-merge_prev b c h = used-if b ((h.mem c).prev == 0) h _ (h.mem b).used refl (
    used-if b ((h.mem (h.mem c).prev).used == 0) _ h (h.mem b).used
      (used-join b (h.mem c).prev c _ _ _ h _ refl) refl)

used-set_used : (b : ℕ) (h : Kheap) → ((set_used b 0 h).mem b).used ≡ 0
unfolding set_used
used-set_used b h = ground arith

heap_of : Kheap → Run (Unit {0}) → Kheap
heap_of other (ok u h) = h
heap_of other halted = other
heap_of other out_of_fuel = other

kfree-freed :
    (ptr : ℕ) (h out : Kheap)
    → ptr ≢ 0
    → kfree ptr h ≡ ok tt out
    → merge_prev (ptr - hdr_size) (merge_next (ptr - hdr_size) (set_used (ptr - hdr_size) 0 h))
      ≡ out
unfolding kfree heap_of
kfree-freed ptr h out ne e =
    let b = ptr - hdr_size in
    let r : ok tt (merge_prev b (merge_next b (set_used b 0 h))) ≡ ok tt out = ground arith in
    ap (heap_of h) r

kfree-unused :
    (ptr : ℕ) (h : Kheap) → ptr ≢ 0 → (h.mem (ptr - hdr_size)).used ≡ 0 → kfree ptr h ≡ halted
unfolding kfree
kfree-unused ptr h ne e = ground arith

freed_twice : (ptr : ℕ) (h out : Kheap) → ptr ≢ 0 → kfree ptr h ≡ ok tt out → kfree ptr out ≡ halted
freed_twice ptr h out ne e =
    let b = ptr - hdr_size in
    let freed = set_used b 0 h in
    kfree-unused ptr out ne (
      ap (λ k. (k.mem b).used) (sym (kfree-freed ptr h out ne e))
      ∙ used-merge_prev b b (merge_next b freed)
      ∙ used-merge_next b b freed
      ∙ used-set_used b h)

-- In a heap that satisfies the invariant, `kfree` of the payload of a used block returns, and leaves a
-- heap with the invariant again; `kfree` of the same pointer there halts, whatever was merged.
pub kfree-kfree-halts :
    (base : ℕ) (ys : List Seg) (s : Seg) (zs : List Seg) (h : Kheap)
    → base ≢ 0
    → base + storage_size < 2 ^ 32
    → s.used ≡ true
    → IsHeap base (ys ++ s ∷ zs) h
    → (out : Kheap) × (kfree (address base ys + hdr_size) h ≡ ok tt out)
      × IsHeap base (release ys s.size zs) out
      × (kfree (address base ys + hdr_size) out ≡ halted)
kfree-kfree-halts base ys s zs h pos small used i =
    let r = kfree-release base ys s zs h pos small used i in
    (r.0, r.1, r.2, freed_twice (address base ys + hdr_size) h r.0 (omega arith) r.1)
