-- ===== src/Pmm/Init.antt =====
-- What `pmm_init` leaves free.
use osver.Prelude.{
  ℕ, zero, suc, ◌+◌, ◌-◌, ◌*◌, ◌/◌, ◌%◌, ◌^◌, ◌≡◌, refl, ◌∙◌, Bool, true, false, not, ◌&&◌, ◌||◌,
  arith, ◌==◌, if◌then◌else◌, Bool-cases, inl, inr, leb, ltb, List, [], ◌∷◌,
}
use osver.Pmm.{
  Pmm, E820Entry, e820_usable, page_size, clip, count_total, free_step, reserve_step, page_is_free,
  give_page, region_free_loop, region_free, region_reserve_loop, region_reserve, free_usable,
  pmm_init, all_used,
}
use osver.Pmm.Page.{page_is_free-take, page_is_free-give, full_word}

abbrev pub within : ℕ → ℕ → ℕ → Bool
within lo hi q = leb lo q && ltb q hi

count_total-page : (q : ℕ) (m : Pmm) → page_is_free q (count_total m) ≡ page_is_free q m
unfolding count_total page_is_free
count_total-page q m = refl

free_step-page :
    (p q : ℕ) (m : Pmm)
    → page_is_free q (free_step p m) ≡ (if p == q then true else page_is_free q m)
unfolding free_step
free_step-page p q m = elim (Bool-cases (page_is_free p m)) [
  | inl free ↦ rw free (ground arith)
  | inr busy ↦ rw busy (count_total-page q (give_page p m) ∙ page_is_free-give p q m)
]

reserve_step-page :
    (p q : ℕ) (m : Pmm)
    → page_is_free q (reserve_step p m) ≡ (if p == q then false else page_is_free q m)
unfolding reserve_step
reserve_step-page p q m = elim (Bool-cases (page_is_free p m)) [
  | inl free ↦ rw free (page_is_free-take p q m)
  | inr busy ↦ rw busy (ground arith)
]

region_free_loop-page :
    (left p q : ℕ) (m : Pmm)
    → page_is_free q (region_free_loop left p m)
      ≡ (if within p (p + left) q then true else page_is_free q m)
unfolding region_free_loop
region_free_loop-page zero p q m = ground arith
region_free_loop-page (suc left) p q m =
    ground (arith, region_free_loop-page left (p + 1) q (free_step p m), free_step-page p q m)

region_reserve_loop-page :
    (left p q : ℕ) (m : Pmm)
    → page_is_free q (region_reserve_loop left p m)
      ≡ (if within p (p + left) q then false else page_is_free q m)
unfolding region_reserve_loop
region_reserve_loop-page zero p q m = ground arith
region_reserve_loop-page (suc left) p q m =
    ground
      (arith, region_reserve_loop-page left (p + 1) q (reserve_step p m), reserve_step-page p q m)

-- the pages that a usable entry of the table covers, as `region_free` rounds them
abbrev pub first_page : ℕ → ℕ
first_page base = base / page_size % 2 ^ 32

abbrev pub last_page : ℕ → ℕ → ℕ
last_page base len = clip ((base + len) % 2 ^ 64 / page_size % 2 ^ 32)

abbrev pub covered : ℕ → List E820Entry → Bool
covered q [] = false
covered q (e ∷ es) =
    (e.type == e820_usable && within (first_page e.base) (last_page e.base e.length) q)
    || covered q es

region_free-page :
    (base len q : ℕ) (m : Pmm)
    → page_is_free q (region_free base len m)
      ≡ (if within (first_page base) (last_page base len) q then true else page_is_free q m)
unfolding region_free
region_free-page base len q m =
    ground
      (arith, region_free_loop-page (last_page base len - first_page base) (first_page base) q m)

free_usable-page :
    (q : ℕ) (es : List E820Entry) (m : Pmm)
    → page_is_free q (free_usable es m) ≡ (covered q es || page_is_free q m)
unfolding free_usable
free_usable-page q [] m = refl
free_usable-page q (e ∷ es) m = elim (Bool-cases (e.type == e820_usable)) [
  | inl usable ↦ rw usable (
      free_usable-page q es (region_free e.base e.length m)
      ∙ ground (arith, region_free-page e.base e.length q m))
  | inr other ↦ rw other (free_usable-page q es m)
]

pub all_used-page : (q : ℕ) → page_is_free q all_used ≡ false
all_used-page q =
    let at : q ≡ q / 32 * 32 + q % 32 = omega arith in
    rw at (full_word (q / 32) (q % 32) all_used (omega arith) refl)

region_reserve-page :
    (q : ℕ) (m : Pmm)
    → page_is_free q (region_reserve 0 0x100000 m) ≡ (if ltb q 256 then false else page_is_free q m)
unfolding region_reserve
region_reserve-page q m = ground (arith, region_reserve_loop-page 256 0 q m)

-- After `pmm_init` a page is free exactly where it lies above the first megabyte and some usable
-- entry of the e820 table covers it, both ends of the entry rounded down to a page; the numbers of
-- these two pages are taken modulo 2^32, as the code does, which matters from 2^44 on.
pub pmm_init-page :
    (table : List E820Entry) (q : ℕ)
    → page_is_free q (pmm_init table) ≡ (not (ltb q 256) && covered q table)
unfolding pmm_init
pmm_init-page table q = ground (
  arith,
  region_reserve-page q (free_usable table all_used),
  free_usable-page q table all_used,
  all_used-page q,
)
