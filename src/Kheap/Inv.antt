-- ===== src/Kheap/Inv.antt =====
-- The invariant of the slab: from `base`, the address of `heap_storage`, to its end the headers are
-- the doubly linked list of a layout, and `head` points at the first of them.
use osver.Prelude.{
  ℕ, ◌+◌, ◌*◌, ◌/◌, ◌%◌, ◌^◌, ◌<◌, ◌≡◌, ◌≢◌, refl, List, [], ◌∷◌, false, arith, length, ◌-◌, ◌∙◌,
  sym, ne_==, ap,
}
use osver.Bits.{bit_and_clear_low}
use osver.Kheap.{
  Kheap, storage_size, hdr_size, walk_fuel, align_up, kheap_init, ok, kmalloc, kmalloc_loop,
}
use osver.Kheap.Layout.{Seg, seg, alloc, place}
use osver.Kheap.Chain.{Chain, Chain-bound, link}
use osver.Kheap.Malloc.{link-alloc, kmalloc_loop-Allocated}

pub record IsHeap (base : ℕ) (xs : List Seg) (h : Kheap) : Type 0 where
  pub chain : Chain h.mem (base + storage_size) 0 base xs
  pub first : h.head ≡ link base xs

pub length-lt-walk_fuel :
    (base : ℕ) (xs : List Seg) {h : Kheap} → IsHeap base xs h → length xs < walk_fuel
unfolding walk_fuel
length-lt-walk_fuel base xs {h} i =
    omega (arith, Chain-bound (base + storage_size) h.mem 0 base xs i.chain)

-- `align_up` rounds up to a multiple of 8; just below `2 ^ 32` the sum wraps.
pub align_up-wraps : (v : ℕ) → align_up v 8 ≡ (v + 7) % 2 ^ 32 / 8 * 8
unfolding align_up
align_up-wraps v = omega (arith, bit_and_clear_low 3 29 ((v + 8 + 2 ^ 32 - 1) % 2 ^ 32))

pub kheap_init-IsHeap :
    (base : ℕ) (h : Kheap)
    → IsHeap base (seg (storage_size - hdr_size) false ∷ []) (kheap_init base h)
unfolding kheap_init
kheap_init-IsHeap base h = record { chain = (ground arith, omega arith); first = refl }

kmalloc-positive :
    (size : ℕ) (h : Kheap)
    → size ≢ 0
    → kmalloc size h ≡ kmalloc_loop walk_fuel (align_up size 8) h.head h
unfolding kmalloc
kmalloc-positive size h ne = rw (ne_== size 0 ne)

-- `kmalloc` of a positive size takes the first free block that is large enough for the size rounded
-- up to 8, and splits it; it returns the address of its payload, or NULL and the layout as it was.
pub kmalloc-alloc :
    (base size : ℕ) (xs : List Seg) (h : Kheap)
    → base ≢ 0
    → size ≢ 0
    → IsHeap base xs h
    → let n = align_up size 8 in
      (out : Kheap) × (kmalloc size h ≡ ok (place n base xs) out)
      × IsHeap base (alloc n xs) out
      × (out.bytes ≡ h.bytes)
kmalloc-alloc base size xs h pos ne i =
    let r =
      kmalloc_loop-Allocated (base + storage_size) (align_up size 8) walk_fuel 0 base xs h
        (length-lt-walk_fuel base xs i) pos i.chain in
    (
      r.out,
      kmalloc-positive size h ne
          ∙ ap (λ b. kmalloc_loop walk_fuel (align_up size 8) b h) i.first
          ∙ r.returns,
      record {
        chain = r.chain;
        first = r.same_head ∙ i.first ∙ sym (link-alloc (align_up size 8) base xs);
      },
      r.same_bytes,
    )
