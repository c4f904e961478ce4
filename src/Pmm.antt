-- ===== src/Pmm.antt =====
-- The physical memory manager of src/mem/pmm.c: a bitmap of pages, one bit each, set where the page
-- is in use. Addresses are 32-bit words, the e820 fields 64-bit words. The bitmap array is a
-- function of the word's index.
pub mod Alloc
pub mod Count
pub mod Init
pub mod Page
pub mod Roundtrip
pub mod Sound
pub mod Takes
mod Tests
use osver.Prelude.{
  ℕ, zero, suc, ◌+◌, ◌-◌, ◌*◌, ◌/◌, ◌%◌, ◌^◌, Bool, true, false, not, Option, none, some, List, [],
  ◌∷◌, bit_and, bit_or, ltb, leb, ◌==◌, if◌then◌else◌,
}
use osver.Bits.{bit_not, shl, shr}

abbrev pub page_size : ℕ
page_size = 4096

-- TOTAL_PAGES, BITMAP_WORDS and E820_USABLE
abbrev pub total_pages : ℕ
total_pages = 1048576

abbrev pub bitmap_words : ℕ
bitmap_words = 32768

abbrev pub e820_usable : ℕ
e820_usable = 1

-- `e820_entry_t`
pub record E820Entry : Type 0 where
  pub base : ℕ
  pub length : ℕ
  pub type : ℕ

-- the static variables
pub record Pmm : Type 0 where
  pub bitmap : ℕ → ℕ
  pub free_count : ℕ
  pub total_count : ℕ

unfoldable pub set_word : ℕ → ℕ → Pmm → Pmm
set_word w v m = record m { bitmap = λ i. if i == w then v else m.bitmap i }

unfoldable pub page_set_used : ℕ → Pmm → Pmm
unfolding set_word
page_set_used p m = set_word (shr p 5) (bit_or (m.bitmap (shr p 5)) (shl 1 (bit_and p 31))) m

unfoldable pub page_set_free : ℕ → Pmm → Pmm
unfolding set_word
page_set_free p m =
    set_word (shr p 5) (bit_and (m.bitmap (shr p 5)) (bit_not (shl 1 (bit_and p 31)))) m

unfoldable pub page_is_free : ℕ → Pmm → Bool
page_is_free p m = bit_and (m.bitmap (shr p 5)) (shl 1 (bit_and p 31)) == 0

-- `free_count--` and the increments of the two counters, on `uint32_t`
unfoldable pub take_page : ℕ → Pmm → Pmm
take_page p m =
    let m1 = page_set_used p m in record m1 { free_count = (m1.free_count + 2 ^ 32 - 1) % 2 ^ 32 }

unfoldable pub give_page : ℕ → Pmm → Pmm
give_page p m =
    let m1 = page_set_free p m in record m1 { free_count = (m1.free_count + 1) % 2 ^ 32 }

unfoldable pub count_total : Pmm → Pmm
count_total m = record m { total_count = (m.total_count + 1) % 2 ^ 32 }

-- one round of `region_free`
unfoldable pub free_step : ℕ → Pmm → Pmm
free_step p m = if not (page_is_free p m) then count_total (give_page p m) else m

-- the loop of `region_free` from page `p` on, `left` pages before `last`
unfoldable pub region_free_loop : ℕ → ℕ → Pmm → Pmm
region_free_loop zero p m = m
region_free_loop (suc left) p m = region_free_loop left (p + 1) (free_step p m)

abbrev pub clip : ℕ → ℕ
clip last = if ltb total_pages last then total_pages else last

unfoldable pub region_free : ℕ → ℕ → Pmm → Pmm
region_free base len m =
    let first = base / page_size % 2 ^ 32 in
    let last = clip ((base + len) % 2 ^ 64 / page_size % 2 ^ 32) in
    region_free_loop (last - first) first m

-- one round of `region_reserve`, and its loop
unfoldable pub reserve_step : ℕ → Pmm → Pmm
reserve_step p m = if page_is_free p m then take_page p m else m

unfoldable pub region_reserve_loop : ℕ → ℕ → Pmm → Pmm
region_reserve_loop zero p m = m
region_reserve_loop (suc left) p m = region_reserve_loop left (p + 1) (reserve_step p m)

unfoldable pub region_reserve : ℕ → ℕ → Pmm → Pmm
region_reserve base len m =
    let first = base / page_size % 2 ^ 32 in
    let last = clip ((base + len + page_size - 1) % 2 ^ 64 / page_size % 2 ^ 32) in
    region_reserve_loop (last - first) first m

unfoldable pub free_usable : List E820Entry → Pmm → Pmm
free_usable [] m = m
free_usable (e ∷ es) m =
    free_usable es (if e.type == e820_usable then region_free e.base e.length m else m)

-- The table is what the boot loader stored at 0x502, with the count at 0x500.
abbrev pub all_used : Pmm
all_used = record { bitmap = λ i. 0xFFFFFFFF; free_count = 0; total_count = 0 }

pub pmm_init : List E820Entry → Pmm
pmm_init table = region_reserve 0 0x100000 (free_usable table all_used)

-- the inner loop of `pmm_alloc`: a free page among `left` pages from bit `b` of word `w` on
unfoldable pub scan_bits : ℕ → ℕ → ℕ → Pmm → Option ℕ
scan_bits zero b w m = none
scan_bits (suc left) b w m =
    let rest = scan_bits left (b + 1) w m in
    let p = w * 32 + b in if page_is_free p m then some p else rest

-- the outer loop, over `left` words from `w` on
unfoldable pub scan_words : ℕ → ℕ → Pmm → Option ℕ
scan_words zero w m = none
scan_words (suc left) w m =
    let rest = scan_words left (w + 1) m in
    if m.bitmap w == 0xFFFFFFFF
    then rest
    else elim (scan_bits 32 0 w m) [ some p ↦ some p | none ↦ rest ]

unfoldable pub pmm_alloc : Pmm → ℕ × Pmm
pmm_alloc m = elim (scan_words bitmap_words 0 m) [
  | some p ↦ (p * page_size % 2 ^ 32, take_page p m)
  | none ↦ (0, m)
]

unfoldable pub pmm_free : ℕ → Pmm → Pmm
pmm_free addr m =
    let p = addr / page_size in
    if leb total_pages p then m else if page_is_free p m then m else give_page p m

pub pmm_free_pages : Pmm → ℕ
pmm_free_pages m = m.free_count

pub pmm_total_pages : Pmm → ℕ
pmm_total_pages m = m.total_count
