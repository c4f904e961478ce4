-- ===== src/Kheap/Payload.antt =====
-- The payloads that `kmalloc` hands out: large enough, unless the rounding of the size wraps, and
-- not at a multiple of 8.
use osver.Prelude.{
  ℕ, ◌+◌, ◌-◌, ◌*◌, ◌%◌, ◌^◌, ◌≤◌, ◌<◌, ◌≡◌, ◌≢◌, refl, ◌∙◌, ap, true, false, List, [], ◌∷◌, ◌++◌,
  arith, subst, Bool-cases, inl, inr, leb,
}
use osver.Kheap.{Kheap, ok, hdr_size, kheap_align, storage_size, align_up, kheap_init, kmalloc}
use osver.Kheap.Layout.{Seg, seg, address, carve, alloc, place}
use osver.Kheap.Inv.{IsHeap, kheap_init-IsHeap, kmalloc-alloc, align_up-wraps}
use osver.Kheap.Coalesce.{place-Found}

-- `carve` marks its first part as used, and that has at least `n` bytes.
carve-large :
    (n : ℕ) (s : Seg) (zs : List Seg)
    → n ≤ s.size
    → (t : Seg) × (rest : List Seg) × (carve n s ++ zs ≡ t ∷ rest) × (t.used ≡ true) × (n ≤ t.size)
carve-large n s zs le = elim (Bool-cases (leb (hdr_size + kheap_align) (s.size - n))) [
  | inl large ↦
      (seg n true, seg (s.size - n - hdr_size) false ∷ zs, ground arith, refl, omega arith)
  | inr tight ↦ (seg s.size true, zs, ground arith, refl, le)
]

-- A pointer from `kmalloc` other than NULL is the payload of a used block of the new layout with at
-- least `size` bytes, if the rounding of `size` does not wrap.
pub kmalloc-large_enough :
    (base size : ℕ) (xs : List Seg) (h : Kheap)
    → base ≢ 0
    → size ≢ 0
    → size ≤ 2 ^ 32 - 8
    → IsHeap base xs h
    → place (align_up size 8) base xs ≢ 0
    → (ys : List Seg) × (t : Seg) × (zs : List Seg) × (out : Kheap) × (kmalloc size h
        ≡ ok (address base ys + hdr_size) out)
      × IsHeap base (ys ++ t ∷ zs) out
      × (t.used ≡ true)
      × (size ≤ t.size)
kmalloc-large_enough base size xs h pos ne le i found =
    let n = align_up size 8 in
    let f = place-Found n base xs found in
    let m = kmalloc-alloc base size xs h pos ne i in
    let t = carve-large n f.block f.back f.enough in
    (
      f.front,
      t.0,
      t.1,
      m.0,
      m.1 ∙ ap (λ p. ok p m.0) f.placed,
      subst (λ l. IsHeap base l m.0) (f.carved ∙ ap (λ l. f.front ++ l) t.2) m.2,
      t.3,
      omega (arith, t.4, align_up-wraps size),
    )

module _ (base size : ℕ) (h : Kheap) (pos : base ≢ 0) (ne : size ≢ 0) where
  -- The first pointer that `kmalloc` returns after `kheap_init` lies 4 bytes off a multiple of 8,
  -- the slab being aligned to 8: the header has 20 bytes.
  pub kmalloc-misaligned :
      base % 8 ≡ 0
      → size ≤ storage_size - 24
      → (p : ℕ) × (out : Kheap) × (kmalloc size (kheap_init base h) ≡ ok p out) × (p % 8 ≡ 4)
  kmalloc-misaligned aligned le =
      let n = align_up size 8 in
      let m =
        kmalloc-alloc base size (seg (storage_size - hdr_size) false ∷ []) (kheap_init base h) pos
          ne (kheap_init-IsHeap base h) in
      (
        place n base (seg (storage_size - hdr_size) false ∷ []),
        m.0,
        m.1,
        ground (arith, align_up-wraps size),
      )

  -- A size within 7 bytes of `2 ^ 32` is rounded to 0: after `kheap_init` the call succeeds, with a
  -- block of no bytes.
  pub kmalloc-wraps :
      2 ^ 32 - 8 < size
      → size < 2 ^ 32
      → (out : Kheap) × (kmalloc size (kheap_init base h) ≡ ok (base + hdr_size) out)
        × IsHeap base (seg 0 true ∷ seg (storage_size - 2 * hdr_size) false ∷ []) out
  kmalloc-wraps huge fits =
      let m =
        kmalloc-alloc base size (seg (storage_size - hdr_size) false ∷ []) (kheap_init base h) pos
          ne (kheap_init-IsHeap base h) in
      let zero_size : align_up size 8 ≡ 0 = omega (arith, align_up-wraps size) in
      (
        m.0,
        m.1 ∙ ap (λ n. ok (place n base (seg (storage_size - hdr_size) false ∷ [])) m.0) zero_size,
        subst (λ n. IsHeap base (alloc n (seg (storage_size - hdr_size) false ∷ [])) m.0) zero_size
            m.2,
      )
