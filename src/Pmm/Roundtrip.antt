-- ===== src/Pmm/Roundtrip.antt =====
-- `pmm_alloc` and `pmm_free` together.
use osver.Prelude.{
  ℕ, ◌*◌, ◌/◌, ◌^◌, ◌<◌, ◌≡◌, ◌≢◌, refl, true, false, arith, ◌==◌, Bool-cases, inl, inr,
}
use osver.Pmm.{Pmm, page_size, total_pages, page_is_free, take_page, give_page, pmm_alloc, pmm_free}
use osver.Pmm.Page.{page_is_free-take, page_is_free-give}
use osver.Pmm.Alloc.{Allocated, pmm_alloc-Allocated, page, exhausted}
use osver.Pmm.Count.{free_count-take, free_count-give}

pmm_free-used :
    (p : ℕ) (m : Pmm)
    → p < total_pages
    → page_is_free p m ≡ false
    → pmm_free (p * page_size) m ≡ give_page p m
unfolding pmm_free
pmm_free-used p m lt busy =
    let e : p * page_size / page_size ≡ p = omega arith in rw e (ground arith)

-- Every page reads as before, and the counter is restored.
abbrev SameFree : Pmm → Pmm → Type 0
SameFree m m' = ((q : ℕ) → page_is_free q m' ≡ page_is_free q m) × (m'.free_count ≡ m.free_count)

given_back :
    {m : Pmm} {r : ℕ × Pmm}
    → m.free_count < 2 ^ 32
    → Allocated m r
    → r.0 ≢ 0
    → SameFree m (pmm_free r.0 r.1)
given_back {m} small (page p lt free before) ne =
    let e = pmm_free-used p (take_page p m) lt (ground (arith, page_is_free-take p p m)) in
    rw e (
      λ q. ground (arith, page_is_free-give p q (take_page p m), page_is_free-take p q m),
      omega (arith, free_count-give p (take_page p m), free_count-take p m),
    )
given_back small (exhausted none_free) ne = absurd (ne refl)

-- `pmm_free` of the address that `pmm_alloc` returned, if that is not 0, makes every page free that
-- was free before, and no other, and restores the counter.
pub pmm_free-pmm_alloc :
    (m : Pmm)
    → m.free_count < 2 ^ 32
    → (pmm_alloc m).0 ≢ 0
    → ((q : ℕ) → page_is_free q (pmm_free (pmm_alloc m).0 (pmm_alloc m).1) ≡ page_is_free q m)
      × ((pmm_free (pmm_alloc m).0 (pmm_alloc m).1).free_count ≡ m.free_count)
pmm_free-pmm_alloc m small ne = given_back small (pmm_alloc-Allocated m) ne

first_is_zero :
    {m : Pmm} {r : ℕ × Pmm}
    → page_is_free 0 m ≡ true
    → Allocated m r
    → (r.0 ≡ 0) × (r.1 ≡ take_page 0 m)
first_is_zero free (page p lt free_p before) = elim (Bool-cases (p == 0)) [
  | inl e ↦ ground arith
  | inr ne ↦ absurd (ground (arith, before 0 (omega arith) (ground arith)))
]
first_is_zero free (exhausted none_free) =
    absurd (ground (arith, none_free 0 (omega arith) (omega arith)))

-- `pmm_free` accepts the reserved page 0. The next `pmm_alloc` then takes that page and returns its
-- address, 0, which means failure to the caller.
pub pmm_alloc-pmm_free_zero :
    (m : Pmm)
    → page_is_free 0 m ≡ false
    → ((pmm_alloc (pmm_free 0 m)).0 ≡ 0)
      × ((pmm_alloc (pmm_free 0 m)).1 ≡ take_page 0 (give_page 0 m))
pmm_alloc-pmm_free_zero m used =
    let e : pmm_free 0 m ≡ give_page 0 m = pmm_free-used 0 m (omega arith) used in
    rw e (
      first_is_zero (ground (arith, page_is_free-give 0 0 m)) (pmm_alloc-Allocated (give_page 0 m)))
