-- ===== src/Pmm/Count.antt =====
-- The counter of free pages agrees with the bitmap.
use osver.Prelude.{
  ℕ, zero, suc, ◌+◌, ◌-◌, ◌/◌, ◌%◌, ◌^◌, ◌≤◌, ◌<◌, ◌≡◌, ◌≢◌, refl, Bool, true, false, arith, ◌==◌,
  if◌then◌else◌, Bool-cases, inl, inr, ==_eq, leb,
}
use osver.Pmm.{
  Pmm, page_size, total_pages, page_is_free, take_page, give_page, page_set_used, page_set_free,
  pmm_alloc, pmm_free,
}
use osver.Pmm.Page.{page_is_free-take, page_is_free-give}
use osver.Pmm.Alloc.{Allocated, pmm_alloc-Allocated, page, exhausted}

-- how many numbers below `n` pass the test
pub count : ℕ → (ℕ → Bool) → ℕ
count zero f = 0
count (suc n) f = (if f n then 1 else 0) + count n f

pub count-le : (n : ℕ) (f : ℕ → Bool) → count n f ≤ n
unfolding count
count-le zero f = omega arith
count-le (suc n) f = ground (arith, count-le n f)

count-same : (n : ℕ) (f g : ℕ → Bool) → ((q : ℕ) → q < n → g q ≡ f q) → count n g ≡ count n f
unfolding count
count-same zero f g same = refl
count-same (suc n) f g same =
    ground (arith, same n (omega arith), count-same n f g (λ q lt. same q (omega arith)))

-- one number more passes
pub count-add :
    (n p : ℕ) (f g : ℕ → Bool)
    → p < n
    → f p ≡ false
    → g p ≡ true
    → ((q : ℕ) → q ≢ p → g q ≡ f q)
    → count n g ≡ count n f + 1
unfolding count
count-add zero p f g lt no_f yes_g same = absurd (omega arith)
count-add (suc n) p f g lt no_f yes_g same = elim (Bool-cases (p == n)) [
  | inl e ↦
      let at : p ≡ n = ==_eq p n e in
      ground (arith, at, no_f, yes_g, count-same n f g (λ q below. same q (omega arith)))
  | inr ne ↦
      let other : n ≢ p = ground arith in
      ground (arith, same n other, count-add n p f g (ground arith) no_f yes_g same)
]

-- The counter is the number of free pages.
abbrev pub IsCounted : Pmm → Type 0
IsCounted m = m.free_count ≡ count total_pages (λ q. page_is_free q m)

pub free_count-take :
    (p : ℕ) (m : Pmm) → (take_page p m).free_count ≡ (m.free_count + 2 ^ 32 - 1) % 2 ^ 32
unfolding take_page page_set_used
free_count-take p m = refl

pub free_count-give : (p : ℕ) (m : Pmm) → (give_page p m).free_count ≡ (m.free_count + 1) % 2 ^ 32
unfolding give_page page_set_free
free_count-give p m = refl

pub take_page-IsCounted :
    (p : ℕ) (m : Pmm)
    → p < total_pages
    → page_is_free p m ≡ true
    → IsCounted m
    → IsCounted (take_page p m)
take_page-IsCounted p m lt free c =
    let n = total_pages in
    omega (
      arith,
      free_count-take p m,
      count-le total_pages (λ q. page_is_free q m),
      count-add total_pages p (λ q. page_is_free q (take_page p m)) (λ q. page_is_free q m) lt
          (ground (arith, page_is_free-take p p m)) free
          (λ q ne. ground (arith, page_is_free-take p q m)),
    )

pub give_page-IsCounted :
    (p : ℕ) (m : Pmm)
    → p < total_pages
    → page_is_free p m ≡ false
    → IsCounted m
    → IsCounted (give_page p m)
give_page-IsCounted p m lt busy c = omega (
  arith,
  free_count-give p m,
  count-le total_pages (λ q. page_is_free q m),
  count-le total_pages (λ q. page_is_free q (give_page p m)),
  count-add total_pages p (λ q. page_is_free q m) (λ q. page_is_free q (give_page p m)) lt busy
      (ground (arith, page_is_free-give p p m)) (λ q ne. ground (arith, page_is_free-give p q m)),
)

pub count-none : (n : ℕ) (f : ℕ → Bool) → ((q : ℕ) → f q ≡ false) → count n f ≡ 0
unfolding count
count-none zero f none_pass = refl
count-none (suc n) f none_pass = ground (arith, none_pass n, count-none n f none_pass)

Allocated-IsCounted : {m : Pmm} {r : ℕ × Pmm} → Allocated m r → IsCounted m → IsCounted r.1
Allocated-IsCounted {m} (page p lt free before) c = take_page-IsCounted p m lt free c
Allocated-IsCounted (exhausted none_free) c = c

-- `pmm_alloc` and `pmm_free`, of any address, keep the counter equal to the number of free pages.
pub IsCounted-kept :
    (m : Pmm) (addr : ℕ) → IsCounted m → IsCounted (pmm_alloc m).1 × IsCounted (pmm_free addr m)
unfolding pmm_free
IsCounted-kept m addr c = (
  Allocated-IsCounted (pmm_alloc-Allocated m) c,
  elim (Bool-cases (leb total_pages (addr / page_size))) [
    | inl out ↦ rw out c
    | inr within ↦ rw within (elim (Bool-cases (page_is_free (addr / page_size) m)) [
      | inl free ↦ rw free c
      | inr busy ↦ rw busy (give_page-IsCounted (addr / page_size) m (ground arith) busy c)
    ])
  ],
)
