-- ===== src/Kheap/Free.antt =====
-- `kfree` releases a block of the layout.
use osver.Prelude.{
  ℕ, ◌+◌, ◌-◌, ◌^◌, ◌<◌, ◌≡◌, ◌≢◌, refl, ◌∙◌, sym, true, false, List, [], ◌∷◌, ◌++◌, arith, subst,
}
use osver.Kheap.{
  Kheap, ok, hdr_size, storage_size, kheap_magic, set_used, merge_next, merge_prev, kfree,
}
use osver.Kheap.Layout.{Seg, seg, address, join_next, joined_size, joined_rest, release}
use osver.Kheap.Chain.{link, Chain, last_address, le-address, Chain-drop, Chain-replace}
use osver.Kheap.Inv.{IsHeap}
use osver.Kheap.Split.{set_used-head, set_used-bytes, set_used-other}
use osver.Kheap.Release.{
  merge_next-head, merge_next-bytes, merge_prev-head, merge_prev-bytes, merge_prev-none,
  link-join_prev, mark_free, merge_next-Chain, merge_prev-Chain,
}

freed : ℕ → Kheap → Kheap
freed b h = merge_prev b (merge_next b (set_used b 0 h))

kfree-freed :
    (b : ℕ) (h : Kheap)
    → (h.mem b).magic ≡ kheap_magic
    → (h.mem b).used ≡ 1
    → kfree (b + hdr_size) h ≡ ok tt (freed b h)
unfolding kfree freed
kfree-freed b h good used = let e : b + hdr_size - hdr_size ≡ b = omega arith in rw e (ground arith)

link-cons : (q : ℕ) (ys : List Seg) (s : Seg) (zs : List Seg) → link q (ys ++ s ∷ zs) ≡ q
link-cons q [] s zs = refl
link-cons q (y ∷ ys) s zs = refl

module _ (limit : ℕ) (small : limit < 2 ^ 32) where
  -- after the mark and the first join
  joined-Chain :
      (prev p : ℕ) (ys : List Seg) (s : Seg) (zs : List Seg) (h : Kheap)
      → address p ys ≢ 0
      → Chain h.mem limit prev p (ys ++ s ∷ zs)
      → Chain
          (merge_next (address p ys) (set_used (address p ys) 0 h)).mem
          limit
          prev
          p
          (ys ++ join_next s.size zs)
  joined-Chain prev p ys s zs h pos c =
      let b = address p ys in
      let c1 =
        mark_free limit small (last_address prev p ys) b s zs h
          (Chain-drop limit h.mem prev p ys (s ∷ zs) c) in
      let c2 =
        merge_next-Chain limit small (last_address prev p ys) b s.size zs (set_used b 0 h) pos c1 in
      Chain-replace limit h.mem _ prev p ys s (seg (joined_size s.size zs) false) zs
        (joined_rest zs) (λ a lt. c2.1 a lt ∙ set_used-other b 0 h a (omega arith)) c2.0 c

  freed-Chain :
      (p : ℕ) (ys : List Seg) (s : Seg) (zs : List Seg) (h : Kheap)
      → p ≢ 0
      → Chain h.mem limit 0 p (ys ++ s ∷ zs)
      → Chain (freed (address p ys) h).mem limit 0 p (release ys s.size zs)
  unfolding freed
  freed-Chain p [] s zs h pos c =
      let c1 = joined-Chain 0 p [] s zs h pos c in
      subst (λ g. Chain g.mem limit 0 p (release [] s.size zs))
        (sym (merge_prev-none p (merge_next p (set_used p 0 h)) (ground (arith, c1.0)))) c1
  freed-Chain p (y ∷ ys) s zs h pos c =
      let c1 = joined-Chain 0 p (y ∷ ys) s zs h (omega (arith, le-address p (y ∷ ys))) c in
      (merge_prev-Chain limit small 0 p (joined_size s.size zs) y ys (joined_rest zs)
        (merge_next (address p (y ∷ ys)) (set_used (address p (y ∷ ys)) 0 h)) pos c1).0

freed-head : (b : ℕ) (h : Kheap) → (freed b h).head ≡ h.head
unfolding freed
freed-head b h = merge_prev-head b _ ∙ merge_next-head b _ ∙ set_used-head b 0 h

freed-bytes : (b : ℕ) (h : Kheap) → (freed b h).bytes ≡ h.bytes
unfolding freed
freed-bytes b h = merge_prev-bytes b _ ∙ merge_next-bytes b _ ∙ set_used-bytes b 0 h

link-release : (q : ℕ) (ys : List Seg) (n : ℕ) (zs : List Seg) → link q (release ys n zs) ≡ q
link-release q [] n zs = refl
link-release q (y ∷ ys) n zs = link-join_prev q y ys (joined_size n zs) (joined_rest zs)

-- `kfree` of the payload of a used block returns, and releases that block: it is joined with the
-- block behind it and with the block before it, if these are free. No payload byte changes.
pub kfree-release :
    (base : ℕ) (ys : List Seg) (s : Seg) (zs : List Seg) (h : Kheap)
    → base ≢ 0
    → base + storage_size < 2 ^ 32
    → s.used ≡ true
    → IsHeap base (ys ++ s ∷ zs) h
    → (out : Kheap) × (kfree (address base ys + hdr_size) h ≡ ok tt out)
      × IsHeap base (release ys s.size zs) out
      × (out.bytes ≡ h.bytes)
kfree-release base ys s zs h pos small used i =
    let b = address base ys in
    let at = (Chain-drop (base + storage_size) h.mem 0 base ys (s ∷ zs) i.chain).0 in
    (
      freed b h,
      kfree-freed b h (ground (arith, at)) (ground (arith, at)),
      record {
        chain = freed-Chain (base + storage_size) small base ys s zs h pos i.chain;
        first =
            freed-head b h
            ∙ i.first
            ∙ link-cons base ys s zs
            ∙ sym (link-release base ys s.size zs);
      },
      freed-bytes b h,
    )
