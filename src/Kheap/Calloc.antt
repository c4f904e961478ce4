-- ===== src/Kheap/Calloc.antt =====
-- What `kcalloc` of src/mem/kheap.c clears, and that it stays in the payload.
use osver.Prelude.{
  ℕ, zero, suc, ◌+◌, ◌-◌, ◌*◌, ◌%◌, ◌^◌, ◌≤◌, ◌≡◌, ◌≢◌, refl, ap, sym, ◌∙◌, arith, ltb, leb, ◌==◌,
  if◌then◌else◌, ◌&&◌, ◌⊎◌, inl, inr, true, false, List, [], ◌∷◌, ◌++◌,
}
use osver.Kheap.{
  Kheap, Run, ok, halted, out_of_fuel, Memory, hdr_size, storage_size, align_up, zero_fill,
  zero_byte, kcalloc,
}
use osver.Kheap.Layout.{Seg, after, address, place}
use osver.Kheap.Chain.{Chain, Chain-frame, le-address}
use osver.Kheap.Inv.{IsHeap, kmalloc-alloc}
use osver.Kheap.Payload.{kmalloc-large_enough}

-- The bytes of a header at `b` lie before `p`, or from `p + n` on.
Beside : ℕ → ℕ → ℕ → Type 0
Beside p n b = b + hdr_size ≤ p ⊎ (p + n ≤ b)

zero_fill-mem :
    (left p i b : ℕ) (h : Kheap) → Beside (p + i) left b → (zero_fill left p i h).mem b ≡ h.mem b
unfolding zero_fill zero_byte Beside
zero_fill-mem zero p i b h apart = refl
zero_fill-mem (suc left) p i b h (inl before) =
    zero_fill-mem left p (i + 1) b (zero_byte (p + i) h) (inl (omega arith))
    ∙ (let t : ltb (p + i) (b + hdr_size) ≡ false = ground arith in ground arith)
zero_fill-mem (suc left) p i b h (inr behind) =
    zero_fill-mem left p (i + 1) b (zero_byte (p + i) h) (inr (omega arith))
    ∙ (let t : leb b (p + i) ≡ false = ground arith in rw t refl)

zero_fill-head : (left p i : ℕ) (h : Kheap) → (zero_fill left p i h).head ≡ h.head
unfolding zero_fill zero_byte
zero_fill-head zero p i h = refl
zero_fill-head (suc left) p i h = zero_fill-head left p (i + 1) (zero_byte (p + i) h)

zero_fill-bytes :
    (left p i : ℕ) (h : Kheap) (a : ℕ)
    → (zero_fill left p i h).bytes a
      ≡ (if leb (p + i) a && ltb a (p + i + left) then 0 else h.bytes a)
unfolding zero_fill zero_byte
zero_fill-bytes zero p i h a = ground arith
zero_fill-bytes (suc left) p i h a =
    ground (arith, zero_fill-bytes left p (i + 1) (zero_byte (p + i) h) a)

-- A chain survives a change of the store in the payload of one block.
Chain-payload :
    (limit : ℕ) (m m' : Memory) (prev p : ℕ) (ys : List Seg) (t : Seg) (zs : List Seg)
    → ((b : ℕ) → b ≤ address p ys ⊎ (after (address p ys) t ≤ b) → m' b ≡ m b)
    → Chain m limit prev p (ys ++ t ∷ zs)
    → Chain m' limit prev p (ys ++ t ∷ zs)
Chain-payload limit m m' prev p [] t zs same c = (
  same p (inl (omega arith)) ∙ c.0,
  Chain-frame limit m m' p (after p t) zs (λ a h. same a (inr h)) c.1,
)
Chain-payload limit m m' prev p (y ∷ ys) t zs same c = (
  same p (inl (omega (arith, le-address (after p y) ys))) ∙ c.0,
  Chain-payload limit m m' p (after p y) ys t zs same c.1,
)

zero_fill-IsHeap :
    (base n : ℕ) (ys : List Seg) (t : Seg) (zs : List Seg) (h : Kheap)
    → n ≤ t.size
    → IsHeap base (ys ++ t ∷ zs) h
    → IsHeap base (ys ++ t ∷ zs) (zero_fill n (address base ys + hdr_size) 0 h)
unfolding Beside
zero_fill-IsHeap base n ys t zs h le i =
    let p = address base ys + hdr_size in
    record {
      chain =
          Chain-payload (base + storage_size) h.mem (zero_fill n p 0 h).mem 0 base ys t zs
            (λ b apart.
              zero_fill-mem n p 0 b h
                (elim apart [ inl lo ↦ inl (omega arith) | inr hi ↦ inr (omega arith) ]))
            i.chain;
      first = zero_fill-head n p 0 h ∙ i.first;
    }

heap_of : Kheap → Run ℕ → Kheap
heap_of other (ok p h) = h
heap_of other halted = other
heap_of other out_of_fuel = other

-- In a heap that satisfies the invariant, where the product of `n` and `size` modulo 2^32 is positive and at
-- most 2^32 - 8 and first fit finds a block for it: `kcalloc` returns the payload of a used block that is at
-- least as large as that product, exactly the product's bytes there are 0 and all others as before, and
-- the heap satisfies the invariant again, so that no header has been written over.
pub kcalloc-zeroed :
    (base n size : ℕ) (xs : List Seg) (h : Kheap)
    → base ≢ 0
    → n * size % 2 ^ 32 ≢ 0
    → n * size % 2 ^ 32 ≤ 2 ^ 32 - 8
    → IsHeap base xs h
    → place (align_up (n * size % 2 ^ 32) 8) base xs ≢ 0
    → (ys : List Seg) × (t : Seg) × (zs : List Seg) × (out : Kheap) × (kcalloc n size h
        ≡ ok (address base ys + hdr_size) out)
      × IsHeap base (ys ++ t ∷ zs) out
      × (t.used ≡ true)
      × (n * size % 2 ^ 32 ≤ t.size)
      × ((a : ℕ)
          → out.bytes a ≡ (
              if leb (address base ys + hdr_size) a
                && ltb a (address base ys + hdr_size + n * size % 2 ^ 32)
              then 0
              else h.bytes a))
unfolding kcalloc heap_of
kcalloc-zeroed base n size xs h pos ne le i found =
    let total = n * size % 2 ^ 32 in
    let (ys, t, zs, mid, run, heap, used, large) =
      kmalloc-large_enough base total xs h pos ne le i found in
    let m = kmalloc-alloc base total xs h pos ne i in
    let same : mid ≡ m.0 = ap (heap_of h) (sym run ∙ m.1) in
    let p = address base ys + hdr_size in
    let clear : (p == 0) ≡ false = ground arith in
    (
      ys,
      t,
      zs,
      zero_fill total p 0 mid,
      rw (run, clear) refl,
      zero_fill-IsHeap base total ys t zs mid large heap,
      used,
      large,
      λ a. zero_fill-bytes total p 0 mid a ∙ ground (arith, ap (λ k. k.bytes) same ∙ m.3),
    )
