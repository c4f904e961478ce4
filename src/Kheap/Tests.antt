-- ===== src/Kheap/Tests.antt =====
-- Runs of the heap on a slab at 0x10000, and the theorems at concrete heaps.
use osver.Prelude.{
  ℕ, ◌+◌, ◌-◌, ◌*◌, ◌≤◌, ◌≡◌, refl, true, false, Option, some, none, inl, List, [], ◌∷◌, ◌++◌,
  arith, ◌==◌, if◌then◌else◌, leb, ltb, ◌&&◌,
}
use osver.Kheap.{
  Kheap, Run, out_of_fuel, ok, halted, hdr_size, storage_size, align_up, kheap_init, kmalloc, kfree,
  kcalloc, kheap_get_stats, no_stats, kmalloc_loop, walk_fuel, take_block, split, set_used,
}
use osver.Kheap.Layout.{Seg, seg, address, alloc, place}
use osver.Kheap.Chain.{header}
use osver.Kheap.Inv.{IsHeap, kheap_init-IsHeap, kmalloc-alloc}
use osver.Kheap.Free.{kfree-release}
use osver.Kheap.Roundtrip.{kfree-kmalloc, kfree-kfree-halts}
use osver.Kheap.Payload.{kmalloc-large_enough}
use osver.Kheap.Reach.{IsSound, init, Reach-IsSound, kmalloc-returns}
use osver.Kheap.Calloc.{kcalloc-zeroed}
use osver.Kheap.Stats.{summary, kheap_get_stats-summary}

abbrev base : ℕ
base = 0x10000

abbrev blank : Kheap
blank = record { head = 0; mem = λ a. header (seg 0 false) 0 0; bytes = λ a. 7 }

abbrev one_free : List Seg
one_free = seg (storage_size - hdr_size) false ∷ []

-- 16 bytes in use, the rest free
abbrev two_blocks : Kheap
two_blocks = record {
  head = base;
  mem = λ a.
      if a == base then header (seg 16 true) 0 (base + 36) else header (seg 262088 false) base 0;
  bytes = λ a. 7;
}

two_blocks-IsHeap : IsHeap base (seg 16 true ∷ seg 262088 false ∷ []) two_blocks
two_blocks-IsHeap = record { chain = (refl, (refl, refl)); first = refl }

two_blocks-IsSound : IsSound base two_blocks
two_blocks-IsSound = record {
  layout = seg 16 true ∷ seg 262088 false ∷ [];
  heap = two_blocks-IsHeap;
  coalesced = (inl refl, (tt, tt));
}

-- what a run leaves at the slab's start
abbrev seen : Run ℕ → Option (ℕ × ℕ × ℕ)
seen (ok p h) = some (p, (h.mem base).size, (h.mem base).used)
seen halted = none
seen out_of_fuel = none

-- 10 bytes are rounded up to 16, and the payload starts behind the header.
first_kmalloc : seen (kmalloc 10 (kheap_init base blank)) ≡ some (base + 20, 16, 1)
unfolding kmalloc kheap_init kmalloc_loop walk_fuel take_block split set_used align_up
first_kmalloc = refl

kfree-kfree-halts_example :
    (out : Kheap) × (kfree (base + 20) two_blocks ≡ ok tt out)
    × IsHeap base one_free out
    × (kfree (base + 20) out ≡ halted)
kfree-kfree-halts_example =
    kfree-kfree-halts base [] (seg 16 true) (seg 262088 false ∷ []) two_blocks (omega arith)
      (omega arith) refl two_blocks-IsHeap

kcalloc-zeroed_example :
    (ys : List Seg) × (t : Seg) × (zs : List Seg) × (out : Kheap) × (kcalloc 5 2
        (kheap_init base blank)
      ≡ ok (address base ys + hdr_size) out)
    × IsHeap base (ys ++ t ∷ zs) out
    × (t.used ≡ true)
    × (10 ≤ t.size)
    × ((a : ℕ)
        → out.bytes a ≡ (
            if leb (address base ys + hdr_size) a && ltb a (address base ys + hdr_size + 10)
            then 0
            else 7))
unfolding align_up kheap_init
kcalloc-zeroed_example =
    kcalloc-zeroed base 5 2 one_free (kheap_init base blank) (omega arith) (omega arith)
      (omega arith) (kheap_init-IsHeap base blank) (omega arith)

kmalloc-alloc_example :
    (out : Kheap) × (kmalloc 10 (kheap_init base blank)
      ≡ ok (place (align_up 10 8) base one_free) out)
    × IsHeap base (alloc (align_up 10 8) one_free) out
    × (out.bytes ≡ (kheap_init base blank).bytes)
kmalloc-alloc_example =
    kmalloc-alloc base 10 one_free (kheap_init base blank) (omega arith) (omega arith)
      (kheap_init-IsHeap base blank)

kfree-release_example :
    (out : Kheap) × (kfree (base + 20) two_blocks ≡ ok tt out)
    × IsHeap base one_free out
    × (out.bytes ≡ two_blocks.bytes)
kfree-release_example =
    kfree-release base [] (seg 16 true) (seg 262088 false ∷ []) two_blocks (omega arith)
      (omega arith) refl two_blocks-IsHeap

kfree-kmalloc_example :
    (mid out : Kheap) × (kmalloc 10 (kheap_init base blank)
      ≡ ok (place (align_up 10 8) base one_free) mid)
    × (kfree (place (align_up 10 8) base one_free) mid ≡ ok tt out)
    × IsHeap base one_free out
unfolding align_up
kfree-kmalloc_example =
    kfree-kmalloc base 10 one_free (kheap_init base blank) (omega arith) (omega arith) (omega arith)
      (kheap_init-IsHeap base blank) (tt, tt) (omega arith)

kmalloc-large_enough_example :
    (ys : List Seg) × (t : Seg) × (zs : List Seg) × (out : Kheap) × (kmalloc 10 two_blocks
      ≡ ok (address base ys + hdr_size) out)
    × IsHeap base (ys ++ t ∷ zs) out
    × (t.used ≡ true)
    × (10 ≤ t.size)
unfolding align_up
kmalloc-large_enough_example =
    kmalloc-large_enough base 10 (seg 16 true ∷ seg 262088 false ∷ []) two_blocks (omega arith)
      (omega arith) (omega arith) two_blocks-IsHeap (omega arith)

Reach-IsSound_example : IsSound base (kheap_init base blank)
Reach-IsSound_example = Reach-IsSound base (omega arith) (omega arith) (init blank)

kmalloc-returns_example :
    (p : ℕ) × (out : Kheap) × (kmalloc 300000 two_blocks ≡ ok p out) × IsSound base out
kmalloc-returns_example =
    kmalloc-returns base (omega arith) (omega arith) 300000 two_blocks two_blocks-IsSound

kheap_get_stats-summary_example :
    (kheap_get_stats two_blocks
      ≡ ok (summary no_stats (seg 16 true ∷ seg 262088 false ∷ [])) two_blocks)
    × (16 + 262088 + hdr_size * 2 ≡ storage_size)
kheap_get_stats-summary_example =
    kheap_get_stats-summary base (seg 16 true ∷ seg 262088 false ∷ []) two_blocks (omega arith)
      (omega arith) two_blocks-IsHeap
