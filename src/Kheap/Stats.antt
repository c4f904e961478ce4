-- ===== src/Kheap/Stats.antt =====
-- `kheap_get_stats` against the layout.
use osver.Prelude.{
  ℕ, zero, suc, ◌+◌, ◌*◌, ◌^◌, ◌≤◌, ◌<◌, ◌≡◌, ◌≢◌, ◌∙◌, ap, Bool, true, false, List, [], ◌∷◌, arith,
  length, if◌then◌else◌, ltb,
}
use osver.Kheap.{
  Kheap, ok, KheapStats, no_stats, count_block, stats_loop, kheap_get_stats, hdr_size, storage_size,
  walk_fuel,
}
use osver.Kheap.Layout.{Seg, after}
use osver.Kheap.Chain.{link, header, Chain, Chain-bound}
use osver.Kheap.Inv.{IsHeap, length-lt-walk_fuel}

-- the figures of a layout, without machine words
abbrev pub bytes_in : Bool → List Seg → ℕ
bytes_in u [] = 0
bytes_in true (s ∷ xs) = (if s.used then s.size else 0) + bytes_in true xs
bytes_in false (s ∷ xs) = (if s.used then 0 else s.size) + bytes_in false xs

abbrev pub blocks_in : Bool → List Seg → ℕ
blocks_in u [] = 0
blocks_in true (s ∷ xs) = (if s.used then 1 else 0) + blocks_in true xs
blocks_in false (s ∷ xs) = (if s.used then 0 else 1) + blocks_in false xs

abbrev pub largest_from : ℕ → List Seg → ℕ
largest_from m [] = m
largest_from m (s ∷ xs) = largest_from (if s.used then m else if ltb m s.size then s.size else m) xs

abbrev pub summary : KheapStats → List Seg → KheapStats
summary s xs = record {
  total_bytes = s.total_bytes;
  used_bytes = s.used_bytes + bytes_in true xs;
  free_bytes = s.free_bytes + bytes_in false xs;
  blocks_total = s.blocks_total + length xs;
  blocks_used = s.blocks_used + blocks_in true xs;
  blocks_free = s.blocks_free + blocks_in false xs;
  largest_free = largest_from s.largest_free xs;
}

-- Bytes and headers make up the slab.
pub bytes_in-total :
    (limit : ℕ) (h : Kheap) (prev p : ℕ) (xs : List Seg)
    → Chain h.mem limit prev p xs
    → p + bytes_in true xs + bytes_in false xs + hdr_size * length xs ≡ limit
bytes_in-total limit h prev p [] c = omega arith
bytes_in-total limit h prev p (s ∷ xs) c =
    ground (arith, bytes_in-total limit h p (after p s) xs c.1)

-- the counters are below the address that the walk has come to
record Below (p : ℕ) (s : KheapStats) : Type 0 where
  used : s.used_bytes ≤ p
  free : s.free_bytes ≤ p
  total : s.blocks_total ≤ p
  used_blocks : s.blocks_used ≤ p
  free_blocks : s.blocks_free ≤ p

module _ (limit : ℕ) (small : limit < 2 ^ 32) where
  count_block-summary :
      (p prev next : ℕ) (t : Seg) (xs : List Seg) (s : KheapStats)
      → after p t ≤ limit
      → Below p s
      → (summary (count_block (header t prev next) s) xs ≡ summary s (t ∷ xs))
        × Below (after p t) (count_block (header t prev next) s)
  unfolding count_block
  count_block-summary p prev next t xs s le b = ground arith

  stats_loop-suc :
      (k prev p : ℕ) (t : Seg) (xs : List Seg) (s : KheapStats) (h : Kheap)
      → p ≢ 0
      → Chain h.mem limit prev p (t ∷ xs)
      → stats_loop (suc k) p s h
        ≡ stats_loop k (link (after p t) xs) (count_block (header t prev (link (after p t) xs)) s) h
  unfolding stats_loop
  stats_loop-suc k prev p t xs s h pos c = ground (arith, c.0)

  stats_loop-summary :
      (k prev p : ℕ) (xs : List Seg) (s : KheapStats) (h : Kheap)
      → length xs < k
      → p ≢ 0
      → Below p s
      → Chain h.mem limit prev p xs
      → stats_loop k (link p xs) s h ≡ ok (summary s xs) h
  unfolding stats_loop
  stats_loop-summary zero prev p xs s h fuel pos b c = absurd (omega arith)
  stats_loop-summary (suc k) prev p [] s h fuel pos b c = ground arith
  stats_loop-summary (suc k) prev p (t ∷ xs) s h fuel pos b c =
      let bound = Chain-bound limit h.mem p (after p t) xs c.1 in
      let step = count_block-summary p prev (link (after p t) xs) t xs s (omega arith) b in
      stats_loop-suc k prev p t xs s h pos c
      ∙ stats_loop-summary k p (after p t) xs (count_block (header t prev (link (after p t) xs)) s)
          h (omega arith) (omega arith) step.1 c.1
      ∙ ap (λ r. ok r h) step.0

-- On a sound heap `kheap_get_stats` returns the figures of the layout, none of them wrapped, and
-- the payload bytes, used and free, with 20 for each block make up the slab.
pub kheap_get_stats-summary :
    (base : ℕ) (xs : List Seg) (h : Kheap)
    → base ≢ 0
    → base + storage_size < 2 ^ 32
    → IsHeap base xs h
    → (kheap_get_stats h ≡ ok (summary no_stats xs) h)
      × (bytes_in true xs + bytes_in false xs + hdr_size * length xs ≡ storage_size)
unfolding kheap_get_stats
kheap_get_stats-summary base xs h pos small i = (
  ap (λ b. stats_loop walk_fuel b no_stats h) i.first
      ∙ stats_loop-summary (base + storage_size) small walk_fuel 0 base xs no_stats h
          (length-lt-walk_fuel base xs i) pos (omega arith) i.chain,
  omega (arith, bytes_in-total (base + storage_size) h 0 base xs i.chain),
)
