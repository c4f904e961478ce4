-- ===== src/Pmm/Sound.antt =====
-- `pmm_init` starts with a counter that agrees with the bitmap.
use osver.Prelude.{
  ℕ, zero, suc, ◌+◌, ◌-◌, ◌/◌, ◌%◌, ◌^◌, if◌then◌else◌, ◌≤◌, ◌<◌, sym, Bool, true, false, arith,
  ◌==◌, Bool-cases, inl, inr, List, [], ◌∷◌,
}
use osver.Pmm.{
  Pmm, E820Entry, e820_usable, total_pages, page_size, clip, page_is_free, count_total, give_page,
  free_step, reserve_step, region_free_loop, region_free, region_reserve_loop, region_reserve,
  free_usable, all_used, pmm_init,
}
use osver.Pmm.Count.{count-none, IsCounted, take_page-IsCounted, give_page-IsCounted}
use osver.Pmm.Init.{all_used-page}

count_total-IsCounted : (m : Pmm) → IsCounted m → IsCounted (count_total m)
unfolding count_total page_is_free
count_total-IsCounted m c = c

free_step-IsCounted : (p : ℕ) (m : Pmm) → p < total_pages → IsCounted m → IsCounted (free_step p m)
unfolding free_step
free_step-IsCounted p m lt c = elim (Bool-cases (page_is_free p m)) [
  | inl free ↦ rw free c
  | inr busy ↦ rw busy (count_total-IsCounted (give_page p m) (give_page-IsCounted p m lt busy c))
]

reserve_step-IsCounted :
    (p : ℕ) (m : Pmm) → p < total_pages → IsCounted m → IsCounted (reserve_step p m)
unfolding reserve_step
reserve_step-IsCounted p m lt c = elim (Bool-cases (page_is_free p m)) [
  | inl free ↦ rw free (take_page-IsCounted p m lt free c)
  | inr busy ↦ rw busy c
]

region_free_loop-IsCounted :
    (left p : ℕ) (m : Pmm)
    → left ≤ total_pages - p
    → IsCounted m
    → IsCounted (region_free_loop left p m)
unfolding region_free_loop
region_free_loop-IsCounted zero p m le c = c
region_free_loop-IsCounted (suc left) p m le c =
    region_free_loop-IsCounted left (p + 1) (free_step p m) (omega arith)
      (free_step-IsCounted p m (omega arith) c)

region_reserve_loop-IsCounted :
    (left p : ℕ) (m : Pmm)
    → left ≤ total_pages - p
    → IsCounted m
    → IsCounted (region_reserve_loop left p m)
unfolding region_reserve_loop
region_reserve_loop-IsCounted zero p m le c = c
region_reserve_loop-IsCounted (suc left) p m le c =
    region_reserve_loop-IsCounted left (p + 1) (reserve_step p m) (omega arith)
      (reserve_step-IsCounted p m (omega arith) c)

-- `last` is clipped to the bitmap, so that no index of the loop leaves it.
region_free-IsCounted : (base len : ℕ) (m : Pmm) → IsCounted m → IsCounted (region_free base len m)
unfolding region_free
region_free-IsCounted base len m c =
    let first = base / page_size % 2 ^ 32 in
    let last = clip ((base + len) % 2 ^ 64 / page_size % 2 ^ 32) in
    region_free_loop-IsCounted (last - first) first m (ground arith) c

either-IsCounted :
    (b : Bool) (x y : Pmm) → IsCounted x → IsCounted y → IsCounted (if b then x else y)
either-IsCounted true x y c d = c
either-IsCounted false x y c d = d

free_usable-IsCounted : (es : List E820Entry) (m : Pmm) → IsCounted m → IsCounted (free_usable es m)
unfolding free_usable
free_usable-IsCounted [] m c = c
free_usable-IsCounted (e ∷ es) m c =
    free_usable-IsCounted es (if e.type == e820_usable then region_free e.base e.length m else m) (
      either-IsCounted (e.type == e820_usable) (region_free e.base e.length m) m
        (region_free-IsCounted e.base e.length m c) c)

region_reserve-IsCounted : (m : Pmm) → IsCounted m → IsCounted (region_reserve 0 0x100000 m)
unfolding region_reserve
region_reserve-IsCounted m c = region_reserve_loop-IsCounted 256 0 m (omega arith) c

-- After `pmm_init` the counter is the number of free pages, whatever the e820 table says.
pub pmm_init-IsCounted : (table : List E820Entry) → IsCounted (pmm_init table)
unfolding pmm_init
pmm_init-IsCounted table = region_reserve-IsCounted (free_usable table all_used) (
    free_usable-IsCounted table all_used
      (sym (count-none total_pages (λ q. page_is_free q all_used) all_used-page)))
