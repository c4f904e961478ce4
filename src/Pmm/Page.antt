-- ===== src/Pmm/Page.antt =====
-- The bitmap as a set of free pages: what one write does to the reading of every page.
use osver.Prelude.{
  ℕ, ◌+◌, ◌*◌, ◌/◌, ◌%◌, ◌^◌, ◌<◌, ◌≡◌, true, false, bit_and, ◌==◌, if◌then◌else◌, arith, ◌∙◌, ap,
}
use osver.Bits.{bit_and_low, shl}
use osver.Bits.Single.{bit_at, bit_and_single-zero, bit_at-ones, bit_at-set, bit_at-clear}
use osver.Pmm.{Pmm, page_set_used, page_set_free, page_is_free, take_page, give_page}

-- The mask of a page's bit.
page_mask : (p : ℕ) → shl 1 (bit_and p 31) ≡ 2 ^ (p % 32)
page_mask p = omega (arith, ap (λ (i : ℕ). 1 * 2 ^ i) (bit_and_low 5 p))

page_is_free-bit : (p : ℕ) (m : Pmm) → page_is_free p m ≡ (bit_at (p % 32) (m.bitmap (p / 32)) == 0)
unfolding page_is_free
page_is_free-bit p m = rw (page_mask p) (bit_and_single-zero (p % 32) (m.bitmap (p / 32)))

pub page_is_free-set_used :
    (p q : ℕ) (m : Pmm)
    → page_is_free q (page_set_used p m) ≡ (if p == q then false else page_is_free q m)
unfolding page_set_used
page_is_free-set_used p q m = ground (
  arith,
  page_mask p,
  page_is_free-bit q (page_set_used p m),
  page_is_free-bit q m,
  bit_at-set (p % 32) (q % 32) (m.bitmap (p / 32)),
)

pub page_is_free-set_free :
    (p q : ℕ) (m : Pmm)
    → page_is_free q (page_set_free p m) ≡ (if p == q then true else page_is_free q m)
unfolding page_set_free
page_is_free-set_free p q m = ground (
  arith,
  page_mask p,
  page_is_free-bit q (page_set_free p m),
  page_is_free-bit q m,
  bit_at-clear (p % 32) (q % 32) (m.bitmap (p / 32)) (omega arith) (omega arith),
)

pub page_is_free-take :
    (p q : ℕ) (m : Pmm)
    → page_is_free q (take_page p m) ≡ (if p == q then false else page_is_free q m)
unfolding take_page page_is_free
page_is_free-take p q m = page_is_free-set_used p q m

pub page_is_free-give :
    (p q : ℕ) (m : Pmm)
    → page_is_free q (give_page p m) ≡ (if p == q then true else page_is_free q m)
unfolding give_page page_is_free
page_is_free-give p q m = page_is_free-set_free p q m

-- A word of ones holds no free page.
pub full_word :
    (w b : ℕ) (m : Pmm) → b < 32 → m.bitmap w ≡ 0xFFFFFFFF → page_is_free (w * 32 + b) m ≡ false
full_word w b m h e =
    let at : (w * 32 + b) / 32 ≡ w = omega arith in
    let bit : (w * 32 + b) % 32 ≡ b = omega arith in
    page_is_free-bit (w * 32 + b) m ∙ rw (at, bit, e) (ground (arith, bit_at-ones 32 b h))
