-- ===== src/Paging/Entry.antt =====
-- The fields of entries as arithmetic.
use osver.Prelude.{ℕ, ◌+◌, ◌*◌, ◌%◌, ◌/◌, ◌^◌, ◌<◌, ◌≡◌, ap, ◌∙◌, not, ◌==◌, bit_and, bit_or, arith}
use osver.Bits.{bit_and_low, bit_and_clear_low, bit_or_disjoint, bit_or_low, bit_or-one}
use osver.Paging.{
  page_dir_index, page_tbl_index, page_offset, is_present, frame_of, page_present, page_rw,
  page_user,
}

pub page_dir_index-eq : (v : ℕ) → page_dir_index v ≡ v / 2 ^ 22 % 2 ^ 10
unfolding page_dir_index
page_dir_index-eq v = bit_and_low 10 (v / 2 ^ 22)

pub page_tbl_index-eq : (v : ℕ) → page_tbl_index v ≡ v / 2 ^ 12 % 2 ^ 10
unfolding page_tbl_index
page_tbl_index-eq v = bit_and_low 10 (v / 2 ^ 12)

pub page_offset-eq : (v : ℕ) → page_offset v ≡ v % 2 ^ 12
unfolding page_offset
page_offset-eq v = bit_and_low 12 v

pub is_present-eq : (e : ℕ) → is_present e ≡ not (e % 2 == 0)
unfolding is_present
is_present-eq e = ap (λ n. not (n == 0)) (bit_and_low 1 e)

pub frame_of-eq : (e : ℕ) → frame_of e ≡ e / 2 ^ 12 % 2 ^ 20 * 2 ^ 12
unfolding frame_of
frame_of-eq e = bit_and_clear_low 12 20 e

-- a frame with flags in its low bits
flagged :
    (frame flags : ℕ) → frame % 2 ^ 12 ≡ 0 → flags < 2 ^ 12 → bit_or frame flags ≡ frame + flags
flagged frame flags aligned small =
    let e : frame ≡ frame / 2 ^ 12 * 2 ^ 12 = omega arith in
    rw e (bit_or_disjoint 12 (frame / 2 ^ 12) flags small)

-- The entry of a new table in the directory.
pub dir_entry-eq :
    (pt : ℕ) → pt % 2 ^ 12 ≡ 0 → bit_or (bit_or (bit_or pt page_present) page_rw) page_user ≡ pt + 7
dir_entry-eq pt aligned =
    let q = pt / 2 ^ 12 in
    let e : pt ≡ q * 2 ^ 12 = omega arith in
    ap (λ n. bit_or (bit_or n page_rw) page_user) (flagged pt 1 aligned (omega arith) ∙ omega arith)
    ∙ ap (λ n. bit_or n page_user) (bit_or_low 12 q 1 2 (omega arith) (omega arith))
    ∙ bit_or_low 12 q 3 4 (omega arith) (omega arith)
    ∙ omega arith

-- The entries of `paging_init`, whose flags come in another order.
pub init_entry-eq :
    (pt : ℕ) → pt % 2 ^ 12 ≡ 0 → bit_or (bit_or (bit_or pt page_rw) page_user) page_present ≡ pt + 7
init_entry-eq pt aligned =
    let q = pt / 2 ^ 12 in
    let e : pt ≡ q * 2 ^ 12 = omega arith in
    ap (λ n. bit_or (bit_or n page_user) page_present)
      (flagged pt 2 aligned (omega arith) ∙ omega arith)
    ∙ ap (λ n. bit_or n page_present) (bit_or_low 12 q 2 4 (omega arith) (omega arith))
    ∙ bit_or_low 12 q 6 1 (omega arith) (omega arith)
    ∙ omega arith

-- The entry that `vmm_map` writes.
pub map_entry-eq :
    (phys flags : ℕ)
    → phys < 2 ^ 32
    → phys % 2 ^ 12 ≡ 0
    → bit_or (bit_or (frame_of phys) (bit_and flags 0xFFF)) page_present
      ≡ phys + (flags % 2 ^ 12 / 2 * 2 + 1)
map_entry-eq phys flags small aligned =
    let q = phys / 2 ^ 12 in
    let f = flags % 2 ^ 12 in
    let e : phys / 2 ^ 12 % 2 ^ 20 * 2 ^ 12 ≡ q * 2 ^ 12 = omega arith in
    let low : f < 2 ^ 12 = omega arith in
    rw (frame_of-eq phys, e, bit_and_low 12 flags, bit_or_disjoint 12 q f low)
      (bit_or_low 12 q f 1 low (omega arith) ∙ omega (arith, bit_or-one f))
