-- ===== src/Kheap/Malloc.antt =====
-- `kmalloc` is first fit on the layout.
use osver.Prelude.{
  ℕ, zero, suc, ◌<◌, ◌≡◌, ◌≢◌, refl, sym, ◌∙◌, ap, true, false, List, [], ◌∷◌, arith, length,
  Bool-cases, inl, inr,
}
use osver.Kheap.{Kheap, Run, ok, take_block, kmalloc_loop}
use osver.Kheap.Layout.{Seg, after, fits, alloc}
use osver.Kheap.Chain.{link, header, Chain}
use osver.Kheap.Split.{Allocated, take_block-Allocated}

pub link-alloc : (size q : ℕ) (xs : List Seg) → link q (alloc size xs) ≡ link q xs
link-alloc size q [] = refl
link-alloc size q (x ∷ xs) = ground arith

module _ (limit size : ℕ) where
  -- a block that is passed over stays in front of what the rest of the walk does
  Allocated-skip :
      (prev p : ℕ) (s : Seg) (xs : List Seg) (h : Kheap) {r : Run ℕ}
      → fits size s ≡ false
      → Chain h.mem limit prev p (s ∷ xs)
      → Allocated limit size p (after p s) xs h r
      → Allocated limit size prev p (s ∷ xs) h r
  Allocated-skip prev p s xs h miss c rest = record {
    out = rest.out;
    returns = rw miss rest.returns;
    chain = rw miss (
      rest.same_before p (omega arith)
          ∙ c.0
          ∙ ap (header s prev) (sym (link-alloc size (after p s) xs)),
      rest.chain,
    );
    same_head = rest.same_head;
    same_bytes = rest.same_bytes;
    same_before = λ a lt. rest.same_before a (omega arith);
  }

  -- One round of the loop: at the end of the list, at a block that fits, and at one that does not.
  kmalloc_loop-nil : (k q : ℕ) (h : Kheap) → kmalloc_loop (suc k) size (link q []) h ≡ ok 0 h
  unfolding kmalloc_loop
  kmalloc_loop-nil k q h = refl

  kmalloc_loop-fit :
      (k prev p : ℕ) (s : Seg) (xs : List Seg) (h : Kheap)
      → fits size s ≡ true
      → p ≢ 0
      → Chain h.mem limit prev p (s ∷ xs)
      → kmalloc_loop (suc k) size p h ≡ take_block p size h
  unfolding kmalloc_loop
  kmalloc_loop-fit k prev p s xs h fit pos c = ground (arith, c.0)

  kmalloc_loop-skip :
      (k prev p : ℕ) (s : Seg) (xs : List Seg) (h : Kheap)
      → fits size s ≡ false
      → p ≢ 0
      → Chain h.mem limit prev p (s ∷ xs)
      → kmalloc_loop (suc k) size p h ≡ kmalloc_loop k size (link (after p s) xs) h
  unfolding kmalloc_loop
  kmalloc_loop-skip k prev p s xs h miss pos c = ground (arith, c.0)

  pub kmalloc_loop-Allocated :
      (k prev p : ℕ) (xs : List Seg) (h : Kheap)
      → length xs < k
      → p ≢ 0
      → Chain h.mem limit prev p xs
      → Allocated limit size prev p xs h (kmalloc_loop k size (link p xs) h)
  kmalloc_loop-Allocated zero prev p xs h fuel pos c = absurd (omega arith)
  kmalloc_loop-Allocated (suc k) prev p [] h fuel pos c = record {
    out = h;
    returns = kmalloc_loop-nil k p h;
    chain = c;
    same_head = refl;
    same_bytes = refl;
    same_before = λ a lt. refl;
  }
  kmalloc_loop-Allocated (suc k) prev p (s ∷ xs) h fuel pos c = elim (Bool-cases (fits size s)) [
    | inl fit ↦
        rw (kmalloc_loop-fit k prev p s xs h fit pos c)
          (take_block-Allocated limit size prev p s xs h fit c pos)
    | inr miss ↦ rw (kmalloc_loop-skip k prev p s xs h miss pos c) (
        Allocated-skip prev p s xs h miss c
          (kmalloc_loop-Allocated k p (after p s) xs h (omega arith) (omega arith) c.1))
  ]
