-- ===== src/Pmm/Takes.antt =====
-- What `pmm_alloc` of src/mem/pmm.c leaves in the bitmap and the counters.
use osver.Prelude.{ℕ, ◌+◌, ◌-◌, ◌*◌, ◌%◌, ◌^◌, ◌<◌, ◌≡◌, refl, true, not, ◌&&◌, ◌==◌, arith}
use osver.Pmm.{Pmm, page_size, total_pages, page_is_free, take_page, page_set_used, pmm_alloc}
use osver.Pmm.Page.{page_is_free-take}
use osver.Pmm.Alloc.{NoneFree, Allocated, page, exhausted, pmm_alloc-Allocated}

-- The result of `pmm_alloc`, with the state after it.
pub data Taken (m : Pmm) : ℕ × Pmm → Type 0 where
  taken :
      (p : ℕ) (m' : Pmm)
      → p < total_pages
      → page_is_free p m ≡ true
      → NoneFree m 0 p
      → ((q : ℕ) → page_is_free q m' ≡ (not (p == q) && page_is_free q m))
      → m'.free_count ≡ (m.free_count + 2 ^ 32 - 1) % 2 ^ 32
      → m'.total_count ≡ m.total_count
      → Taken m (p * page_size, m')
  no_page : NoneFree m 0 total_pages → Taken m (0, m)

Allocated-Taken : (m : Pmm) (r : ℕ × Pmm) → Allocated m r → Taken m r
unfolding take_page page_set_used
Allocated-Taken m r (page p lt free before) =
    taken p (take_page p m) lt free before (λ q. ground (arith, page_is_free-take p q m)) refl refl
Allocated-Taken m r (exhausted full) = no_page full

-- `pmm_alloc` on every branch. Where some page is free, it returns the address of the first free page;
-- afterwards that page is not free, every other page is free as before, the counter of free pages is one
-- less modulo 2^32, and that of all pages is the same. Where no page is free, it returns 0 and
-- changes nothing.
pub pmm_alloc-Taken : (m : Pmm) → Taken m (pmm_alloc m)
pmm_alloc-Taken m = Allocated-Taken m (pmm_alloc m) (pmm_alloc-Allocated m)
