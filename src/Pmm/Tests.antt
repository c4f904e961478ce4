-- ===== src/Pmm/Tests.antt =====
-- Runs of the page allocator, and the theorems at concrete bitmaps.
use osver.Prelude.{ℕ, ◌≡◌, refl, false, not, ◌&&◌, List, [], ◌∷◌, arith, ltb, ◌==◌, if◌then◌else◌}
use osver.Pmm.{
  Pmm, E820Entry, page_is_free, take_page, scan_words, scan_bits, pmm_init, pmm_alloc, pmm_free,
  page_set_used,
}
use osver.Pmm.Takes.{Taken, pmm_alloc-Taken}
use osver.Pmm.Count.{IsCounted, IsCounted-kept}
use osver.Pmm.Init.{covered, pmm_init-page}
use osver.Pmm.Sound.{pmm_init-IsCounted}
use osver.Pmm.Roundtrip.{pmm_free-pmm_alloc}

-- 640 KB of low memory, and four pages from 1 MB on
abbrev table : List E820Entry
table =
    record { base = 0; length = 0xA0000; type = 1 }
    ∷ record { base = 0x100000; length = 0x4000; type = 1 }
    ∷ []

-- only page 256 is free
abbrev one_page : Pmm
one_page = record {
  bitmap = λ i. if i == 8 then 0xFFFFFFFE else 0xFFFFFFFF;
  free_count = 1;
  total_count = 1;
}

alloc_one_page : (pmm_alloc one_page).0 ≡ 0x100000
unfolding pmm_alloc scan_words scan_bits page_is_free
alloc_one_page = refl

alloc_twice : (pmm_alloc (pmm_alloc one_page).1).0 ≡ 0
unfolding pmm_alloc scan_words scan_bits page_is_free take_page page_set_used
alloc_twice = refl

page_zero_used : page_is_free 0 one_page ≡ false
unfolding page_is_free
page_zero_used = refl

pmm_alloc-Taken_example : Taken one_page (pmm_alloc one_page)
pmm_alloc-Taken_example = pmm_alloc-Taken one_page

IsCounted-kept_example :
    IsCounted (pmm_alloc (pmm_init table)).1 × IsCounted (pmm_free 0x101000 (pmm_init table))
IsCounted-kept_example = IsCounted-kept (pmm_init table) 0x101000 (pmm_init-IsCounted table)

pmm_init-page_example : page_is_free 257 (pmm_init table) ≡ (not (ltb 257 256) && covered 257 table)
pmm_init-page_example = pmm_init-page table 257

pmm_init-IsCounted_example : IsCounted (pmm_init table)
pmm_init-IsCounted_example = pmm_init-IsCounted table

pmm_free-pmm_alloc_example :
    ((q : ℕ)
      → page_is_free q (pmm_free (pmm_alloc one_page).0 (pmm_alloc one_page).1)
        ≡ page_is_free q one_page)
    × ((pmm_free (pmm_alloc one_page).0 (pmm_alloc one_page).1).free_count ≡ 1)
pmm_free-pmm_alloc_example =
    pmm_free-pmm_alloc one_page (omega arith) (rw alloc_one_page (omega arith))
