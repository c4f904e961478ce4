-- ===== src/Kheap.antt =====
-- The kernel heap of src/mem/kheap.c: one slab, tiled by blocks whose headers form a doubly linked
-- list in address order. The store gives for each address the header that lies there; a pointer is
-- an address, and 0 is NULL. Pointer arithmetic stays in the slab, so only the `uint32_t` sums that
-- the code makes are written with their wrap-around.
pub mod Chain
pub mod Coalesce
pub mod Free
pub mod Inv
pub mod Layout
pub mod Malloc
pub mod Release
pub mod Roundtrip
pub mod Split
pub mod Stats
mod Tests
pub mod Payload
pub mod Reach
pub mod Calloc
use osver.Prelude.{
  ℕ, zero, suc, ◌+◌, ◌-◌, ◌*◌, ◌/◌, ◌%◌, ◌^◌, bit_and, ltb, leb, ◌==◌, ◌&&◌, if◌then◌else◌,
}
use osver.Bits.{bit_not}

-- `kheap_block_t`
pub record Block : Type 0 where
  pub magic : ℕ
  pub size : ℕ
  pub used : ℕ
  pub prev : ℕ
  pub next : ℕ

-- KHEAP_SIZE_KB * 1024, KHEAP_MAGIC, KHEAP_ALIGN and HDR_SIZE (five 32-bit fields)
abbrev pub storage_size : ℕ
storage_size = 262144

abbrev pub kheap_magic : ℕ
kheap_magic = 0xC0FFEE42

abbrev pub kheap_align : ℕ
kheap_align = 8

abbrev pub hdr_size : ℕ
hdr_size = 20

abbrev pub Memory : Type 0
Memory = ℕ → Block

-- the static variable `head`, the headers in the slab, and the bytes of the payloads
pub record Kheap : Type 0 where
  pub head : ℕ
  pub mem : Memory
  pub bytes : ℕ → ℕ

-- `halted` is `kheap_panic`, which never returns. A walk of the list carries fuel.
pub data Run (A : Type 0) : Type 0 where
  ok : A → Kheap → Run A
  halted : Run A
  out_of_fuel : Run A

unfoldable pub store : ℕ → Block → Kheap → Kheap
store p b h = record h { mem = λ a. if a == p then b else h.mem a }

unfoldable pub set_magic : ℕ → ℕ → Kheap → Kheap
unfolding store
set_magic p v h = store p (record (h.mem p) { magic = v }) h

unfoldable pub set_size : ℕ → ℕ → Kheap → Kheap
unfolding store
set_size p v h = store p (record (h.mem p) { size = v }) h

unfoldable pub set_used : ℕ → ℕ → Kheap → Kheap
unfolding store
set_used p v h = store p (record (h.mem p) { used = v }) h

unfoldable pub set_prev : ℕ → ℕ → Kheap → Kheap
unfolding store
set_prev p v h = store p (record (h.mem p) { prev = v }) h

unfoldable pub set_next : ℕ → ℕ → Kheap → Kheap
unfolding store
set_next p v h = store p (record (h.mem p) { next = v }) h

-- `uint32_t` arithmetic
unfoldable pub align_up : ℕ → ℕ → ℕ
align_up v a = bit_and ((v + a + 2 ^ 32 - 1) % 2 ^ 32) (bit_not (a - 1))

-- `base` is the address of `heap_storage`, which the linker chooses.
pub kheap_init : ℕ → Kheap → Kheap
unfolding store
kheap_init base h =
    store base
      (record { magic = kheap_magic; size = storage_size - hdr_size; used = 0; prev = 0; next = 0 })
      (record h { head = base })

-- the `if (leftover >= …)` body of `kmalloc`: block `b` keeps `size` bytes, a new one the rest
unfoldable pub split : ℕ → ℕ → Kheap → Kheap
unfolding store set_prev set_next set_size
split b size h =
    let n = b + hdr_size + size in
    let h1 =
      store n
        (record {
          magic = kheap_magic;
          size = (h.mem b).size - size - hdr_size;
          used = 0;
          prev = b;
          next = (h.mem b).next;
        })
        h in
    let h2 = if (h1.mem b).next == 0 then h1 else set_prev (h1.mem b).next n h1 in
    set_size b size (set_next b n h2)

-- what `kmalloc` does at the block that it chooses; `leftover` does not wrap, since the block is
-- large enough
unfoldable pub take_block : ℕ → ℕ → Kheap → Run ℕ
take_block b size h =
    let leftover = (h.mem b).size - size in
    let h1 = if leb (hdr_size + kheap_align) leftover then split b size h else h in
    ok (b + hdr_size) (set_used b 1 h1)

unfoldable pub kmalloc_loop : ℕ → ℕ → ℕ → Kheap → Run ℕ
kmalloc_loop zero size b h = out_of_fuel
kmalloc_loop (suc fuel) size b h =
    let rest = kmalloc_loop fuel size (h.mem b).next h in
    if b == 0
    then ok 0 h
    else if (h.mem b).magic == kheap_magic
    then if (h.mem b).used == 0
      then if ltb (h.mem b).size size then rest else take_block b size h
      else rest
    else halted

-- More rounds than the slab has room for headers.
pub walk_fuel : ℕ
walk_fuel = 13109

pub kmalloc : ℕ → Kheap → Run ℕ
kmalloc size h =
    if size == 0 then ok 0 h else kmalloc_loop walk_fuel (align_up size kheap_align) h.head h

-- a word with its byte `j` cleared
unfoldable pub clear_byte : ℕ → ℕ → ℕ
clear_byte j x = x - x / 2 ^ (8 * j) % 2 ^ 8 * 2 ^ (8 * j)

-- a header with its byte `o` cleared
unfoldable pub clear_in_header : ℕ → Block → Block
unfolding clear_byte
clear_in_header o b =
    if o / 4 == 0
    then record b { magic = clear_byte (o % 4) b.magic }
    else if o / 4 == 1
    then record b { size = clear_byte (o % 4) b.size }
    else if o / 4 == 2
    then record b { used = clear_byte (o % 4) b.used }
    else if o / 4 == 3
    then record b { prev = clear_byte (o % 4) b.prev }
    else record b { next = clear_byte (o % 4) b.next }

-- A 0 is written to the byte at `a`, be it in a payload or in a header.
unfoldable pub zero_byte : ℕ → Kheap → Kheap
unfolding clear_in_header
zero_byte a h = record h {
  mem = λ b. if leb b a && ltb a (b + hdr_size) then clear_in_header (a - b) (h.mem b) else h.mem b;
  bytes = λ c. if c == a then 0 else h.bytes c;
}

-- the loop of `kcalloc` from index `i` on, `left` rounds before `total`
unfoldable pub zero_fill : ℕ → ℕ → ℕ → Kheap → Kheap
unfolding zero_byte
zero_fill zero p i h = h
zero_fill (suc left) p i h = zero_fill left p (i + 1) (zero_byte (p + i) h)

abbrev pub and_then : {A B : Type 0} → Run A → (A → Kheap → Run B) → Run B
and_then (ok a h) k = k a h
and_then halted k = halted
and_then out_of_fuel k = out_of_fuel

pub kcalloc : ℕ → ℕ → Kheap → Run ℕ
kcalloc n size h =
    let total = n * size % 2 ^ 32 in
    and_then (kmalloc total h) λ p h'. if p == 0 then ok p h' else ok p (zero_fill total p 0 h')

-- `kfree`, first coalescing step: the block behind `b`
unfoldable pub merge_next : ℕ → Kheap → Kheap
unfolding set_magic set_size set_prev set_next
merge_next b h =
    let n = (h.mem b).next in
    if n == 0
    then h
    else if (h.mem n).used == 0
    then (let h1 = set_size b (((h.mem b).size + (hdr_size + (h.mem n).size)) % 2 ^ 32) h in
        let h2 = set_next b (h1.mem n).next h1 in
        let h3 = if (h2.mem n).next == 0 then h2 else set_prev (h2.mem n).next b h2 in
        set_magic n 0 h3)
    else h

-- second coalescing step: the block before `b`
unfoldable pub merge_prev : ℕ → Kheap → Kheap
unfolding set_magic set_size set_prev set_next
merge_prev b h =
    let p = (h.mem b).prev in
    if p == 0
    then h
    else if (h.mem p).used == 0
    then (let h1 = set_size p (((h.mem p).size + (hdr_size + (h.mem b).size)) % 2 ^ 32) h in
        let h2 = set_next p (h1.mem b).next h1 in
        let h3 = if (h2.mem b).next == 0 then h2 else set_prev (h2.mem b).next p h2 in
        set_magic b 0 h3)
    else h

pub kfree : ℕ → Kheap → Run (Unit {0})
kfree ptr h =
    let b = ptr - hdr_size in
    if ptr == 0
    then ok tt h
    else if (h.mem b).magic == kheap_magic
    then if (h.mem b).used == 0
      then halted
      else ok tt (merge_prev b (merge_next b (set_used b 0 h)))
    else halted

-- `kheap_stats_t`
pub record KheapStats : Type 0 where
  pub total_bytes : ℕ
  pub used_bytes : ℕ
  pub free_bytes : ℕ
  pub blocks_total : ℕ
  pub blocks_used : ℕ
  pub blocks_free : ℕ
  pub largest_free : ℕ

-- one round of the loop of `kheap_get_stats`
unfoldable pub count_block : Block → KheapStats → KheapStats
count_block b s =
    let s1 = record s { blocks_total = (s.blocks_total + 1) % 2 ^ 32 } in
    if b.used == 0
    then record s1 {
      free_bytes = (s.free_bytes + b.size) % 2 ^ 32;
      blocks_free = (s.blocks_free + 1) % 2 ^ 32;
      largest_free = if ltb s.largest_free b.size then b.size else s.largest_free;
    }
    else record s1 {
      used_bytes = (s.used_bytes + b.size) % 2 ^ 32;
      blocks_used = (s.blocks_used + 1) % 2 ^ 32;
    }

unfoldable pub stats_loop : ℕ → ℕ → KheapStats → Kheap → Run KheapStats
stats_loop zero b s h = out_of_fuel
stats_loop (suc fuel) b s h =
    let rest = stats_loop fuel (h.mem b).next (count_block (h.mem b) s) h in
    if b == 0 then ok s h else if (h.mem b).magic == kheap_magic then rest else halted

abbrev pub no_stats : KheapStats
no_stats = record {
  total_bytes = storage_size;
  used_bytes = 0;
  free_bytes = 0;
  blocks_total = 0;
  blocks_used = 0;
  blocks_free = 0;
  largest_free = 0;
}

pub kheap_get_stats : Kheap → Run KheapStats
kheap_get_stats h = stats_loop walk_fuel h.head no_stats h
