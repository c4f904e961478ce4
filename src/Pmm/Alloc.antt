-- ===== src/Pmm/Alloc.antt =====
-- `pmm_alloc` finds the first free page.
use osver.Prelude.{
  ℕ, zero, suc, ◌+◌, ◌-◌, subst, ltb, ltb→lt, ◌*◌, ◌%◌, ◌^◌, ◌≤◌, ◌<◌, ◌≡◌, true, false, Option,
  some, none, ◌==◌, arith, Bool-cases, inl, inr, ==_eq,
}
use osver.Pmm.{
  Pmm, page_size, total_pages, bitmap_words, page_is_free, scan_bits, scan_words, take_page,
  pmm_alloc,
}
use osver.Pmm.Page.{full_word}

abbrev pub NoneFree : Pmm → ℕ → ℕ → Type 0
NoneFree m lo hi = (q : ℕ) → lo ≤ q → q < hi → page_is_free q m ≡ false

-- `r` is the first free page of [lo, hi), if there is one
pub data First (m : Pmm) (lo hi : ℕ) : Option ℕ → Type 0 where
  found :
      (p : ℕ) → lo ≤ p → p < hi → page_is_free p m ≡ true → NoneFree m lo p → First m lo hi (some p)
  full : NoneFree m lo hi → First m lo hi none

module _ (m : Pmm) where
  NoneFree-cons :
      (lo hi : ℕ) → page_is_free lo m ≡ false → NoneFree m (lo + 1) hi → NoneFree m lo hi
  NoneFree-cons lo hi busy rest q ge lt = elim (Bool-cases (q == lo)) [
    | inl e ↦ rw (==_eq q lo e) busy
    | inr ne ↦ rest q (ground arith) lt
  ]

  NoneFree-append : (lo mid hi : ℕ) → NoneFree m lo mid → NoneFree m mid hi → NoneFree m lo hi
  NoneFree-append lo mid hi low high q ge lt = elim (Bool-cases (ltb q mid)) [
    | inl e ↦ low q ge (ltb→lt q mid e)
    | inr ne ↦ high q (ground arith) lt
  ]

  -- used pages in front change nothing
  First-append :
      (lo mid hi : ℕ) {r : Option ℕ}
      → lo ≤ mid
      → NoneFree m lo mid
      → First m mid hi r
      → First m lo hi r
  First-append lo mid hi le low (found p ge lt free before) =
      found p (omega arith) lt free (NoneFree-append lo mid p low before)
  First-append lo mid hi le low (full rest) = full (NoneFree-append lo mid hi low rest)

  scan_bits-First :
      (left b w lo hi : ℕ) → lo ≡ w * 32 + b → hi ≡ lo + left → First m lo hi (scan_bits left b w m)
  unfolding scan_bits
  scan_bits-First zero b w lo hi e f = full (λ q ge lt. absurd (omega arith))
  scan_bits-First (suc left) b w lo hi e f = elim (Bool-cases (page_is_free lo m)) [
    | inl free ↦
        rw (← e, free) (found lo (omega arith) (omega arith) free (λ q ge lt. absurd (omega arith)))
    | inr busy ↦
        rw (← e, busy)
          (First-append lo (lo + 1) hi (omega arith)
            (NoneFree-cons lo (lo + 1) busy (λ q ge lt. absurd (omega arith)))
            (scan_bits-First left (b + 1) w (lo + 1) hi (omega arith) (omega arith)))
  ]

  full_word-NoneFree : (w : ℕ) → m.bitmap w ≡ 0xFFFFFFFF → NoneFree m (w * 32) (w * 32 + 32)
  full_word-NoneFree w e q ge lt =
      let at : q ≡ w * 32 + (q - w * 32) = omega arith in
      rw at (full_word w (q - w * 32) m (omega arith) e)

  -- what one word of the scan gives: its first free page, or that of the words behind it
  First-word :
      (lo mid hi : ℕ) {r r' : Option ℕ}
      → lo ≤ mid
      → mid ≤ hi
      → First m lo mid r
      → First m mid hi r'
      → First m lo hi (elim r [ some p ↦ some p | none ↦ r' ])
  First-word lo mid hi le le' (found p ge lt free before) rest =
      found p ge (omega arith) free before
  First-word lo mid hi le le' (full low) rest = First-append lo mid hi le low rest

  scan_words-First :
      (left w lo hi : ℕ) → lo ≡ w * 32 → hi ≡ lo + left * 32 → First m lo hi (scan_words left w m)
  unfolding scan_words
  scan_words-First zero w lo hi e f = full (λ q ge lt. absurd (omega arith))
  scan_words-First (suc left) w lo hi e f =
      let rest = scan_words-First left (w + 1) (lo + 32) hi (omega arith) (omega arith) in
      elim (Bool-cases (m.bitmap w == 0xFFFFFFFF)) [
        | inl ones ↦ rw ones (
            First-append lo (lo + 32) hi (omega arith)
              (rw e (full_word-NoneFree w (==_eq (m.bitmap w) 0xFFFFFFFF ones))) rest)
        | inr some_clear ↦ rw some_clear (
            First-word lo (lo + 32) hi (omega arith) (omega arith)
              (scan_bits-First 32 0 w lo (lo + 32) (omega arith) (omega arith)) rest)
      ]

-- a first free page and the state of `take_page`, or no free page
pub data Allocated (m : Pmm) : ℕ × Pmm → Type 0 where
  page :
      (p : ℕ)
      → p < total_pages
      → page_is_free p m ≡ true
      → NoneFree m 0 p
      → Allocated m (p * page_size, take_page p m)
  exhausted : NoneFree m 0 total_pages → Allocated m (0, m)

pub pmm_alloc-Allocated : (m : Pmm) → Allocated m (pmm_alloc m)
unfolding pmm_alloc
pmm_alloc-Allocated m =
    go (scan_words bitmap_words 0 m)
      (scan_words-First m bitmap_words 0 0 total_pages (omega arith) (omega arith))
  where
    go :
        (r : Option ℕ)
        → First m 0 total_pages r
        → Allocated m (elim r [ some p ↦ (p * page_size % 2 ^ 32, take_page p m) | none ↦ (0, m) ])
    go r (found p ge lt free before) =
        subst (λ a. Allocated m (a, take_page p m)) (omega arith) (page p lt free before)
    go r (full rest) = exhausted rest
