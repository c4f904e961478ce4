-- ===== src/Fat32/Copies.antt =====
-- `set_fat_entry` on all copies of the allocation table.
use osver.Prelude.{
  ℕ, zero, suc, ◌+◌, ◌*◌, ◌/◌, ◌%◌, ◌^◌, ◌≤◌, ◌<◌, ◌≡◌, ◌≢◌, refl, ap, sym, ◌∙◌, subst, Bool, true,
  false, some, ◌==◌, ==_eq, ne_==, arith, ◌⊎◌, inl, inr, Option-cases, Bool-cases,
}
use osver.Ata.{Bytes, ata_read, put_sector}
use osver.Fat32.State.{Fat32, Run, ok, out_of_fuel}
use osver.Fat32.Table.{fat_lba, patch_entry, set_copies, set_fat_entry, no_lba, next_cluster}
use osver.Fat32.Entry.{
  entry_at, entry_at-put_sector, entry_at-put_sector_other, read-bad, write_one,
  entry_in-patch_entry, next_cluster-entry_at,
}

-- the state behind the write of copy `f`
after : ℕ → ℕ → ℕ → Bytes → Fat32 → Fat32
after f c v b fs = record fs {
  disk = put_sector fs.drive (fat_lba f c fs) (patch_entry c v b) fs.disk;
}

copy_step :
    (left f c v : ℕ) (fs fs' : Fat32)
    → set_copies (suc left) f c v fs ≡ ok true fs'
    → (b : Bytes) × (ata_read fs.drive (fat_lba f c fs) 1 fs.disk ≡ some b)
      × (set_copies left (f + 1) c v (after f c v b fs) ≡ ok true fs')
unfolding set_copies after
copy_step left f c v fs fs' h = elim (Option-cases (ata_read fs.drive (fat_lba f c fs) 1 fs.disk)) [
  | inl e ↦ absurd (ground arith)
  | inr (b, e) ↦
      let w =
        write_one fs.drive (fat_lba f c fs) fs.disk (patch_entry c v b)
          (read-bad fs.drive (fat_lba f c fs) fs.disk b e) in
      (b, e, ground arith)
]

state_of : Fat32 → Run Bool → Fat32
state_of other (ok b fs) = fs
state_of other out_of_fuel = other

-- only the disk changes
same_volume :
    (left f c v : ℕ) (fs fs' : Fat32)
    → set_copies left f c v fs ≡ ok true fs'
    → fs' ≡ record fs { disk = fs'.disk }
unfolding set_copies state_of after
same_volume zero f c v fs fs' h =
    subst (λ s. s ≡ record fs { disk = s.disk }) (ap (state_of fs) h) refl
same_volume (suc left) f c v fs fs' h =
    let (b, e, rest) = copy_step left f c v fs fs' h in
    same_volume left (f + 1) c v (after f c v b fs) fs' rest

-- sectors other than the copies' keep their entries
frame :
    (left f c v l d : ℕ) (fs fs' : Fat32)
    → set_copies left f c v fs ≡ ok true fs'
    → ((g : ℕ) → f ≤ g → g < f + left → fat_lba g c fs ≢ l)
    → entry_at l d fs.drive fs'.disk ≡ entry_at l d fs.drive fs.disk
unfolding set_copies state_of after fat_lba
frame zero f c v l d fs fs' h other =
    ap (λ s. entry_at l d fs.drive s.disk) (sym (ap (state_of fs) h))
frame (suc left) f c v l d fs fs' h other =
    let (b, e, rest) = copy_step left f c v fs fs' h in
    frame left (f + 1) c v l d (after f c v b fs) fs' rest
      (λ g lo hi. other g (omega arith) (omega arith))
    ∙ entry_at-put_sector_other fs.drive (fat_lba f c fs) l d fs.disk (patch_entry c v b)
        (other f (omega arith) (omega arith))

-- The tables lie within the addresses of the disk, and the cluster has an entry in them.
unfoldable pub HasEntry : ℕ → Fat32 → Type 0
HasEntry c fs =
    (fs.fat_start_lba + fs.num_fats * fs.fat_size ≤ 2 ^ 28) × (c < 2 ^ 28) × (c / 128 < fs.fat_size)

gap : (f g s : ℕ) → f < g → f * s + s ≤ g * s
gap f g zero lt = omega arith
gap f g (suc s) lt = let r = gap f g s lt in omega arith

-- without wrap-around
lba_of :
    (g c : ℕ) (fs : Fat32)
    → HasEntry c fs
    → g < fs.num_fats
    → (fat_lba g c fs ≡ fs.fat_start_lba + g * fs.fat_size + c / 128) × (fat_lba g c fs < 2 ^ 28)
unfolding HasEntry fat_lba
lba_of g c fs h below =
    let r = gap g fs.num_fats fs.fat_size below in
    let e : c * 4 % 2 ^ 32 / 512 ≡ c / 128 = omega (arith, h.1) in
    let s : fs.fat_start_lba + g * fs.fat_size + c / 128 < 2 ^ 28 = omega (arith, h.0, h.1, r) in
    (rw (e) (omega arith), rw (e) (omega arith))

distinct :
    (f g c : ℕ) (fs : Fat32)
    → HasEntry c fs
    → f < g
    → g < fs.num_fats
    → fat_lba f c fs ≢ fat_lba g c fs
unfolding HasEntry
distinct f g c fs h lt below eq =
    let r = gap f g fs.fat_size lt in
    let p = lba_of f c fs h (omega arith) in
    let q = lba_of g c fs h below in let size : c / 128 < fs.fat_size = h.2 in omega arith

copies_hold :
    (left f c v g : ℕ) (fs fs' : Fat32)
    → HasEntry c fs
    → f + left ≡ fs.num_fats
    → set_copies left f c v fs ≡ ok true fs'
    → f ≤ g
    → g < fs.num_fats
    → entry_at (fat_lba g c fs) c fs.drive fs'.disk ≡ some (v % 2 ^ 28)
unfolding after fat_lba HasEntry
copies_hold zero f c v g fs fs' has n h lo hi = absurd (omega arith)
copies_hold (suc left) f c v g fs fs' has n h lo hi =
    let (b, e, rest) = copy_step left f c v fs fs' h in
    elim (Bool-cases (f == g)) [
      | inl t ↦
          subst (λ k. entry_at (fat_lba k c fs) c fs.drive fs'.disk ≡ some (v % 2 ^ 28))
            (==_eq f g t)
            (frame left (f + 1) c v (fat_lba f c fs) c (after f c v b fs) fs' rest
                (λ k klo khi eq. distinct f k c fs has (omega arith) (omega arith) (sym eq))
              ∙ entry_at-put_sector fs.drive (fat_lba f c fs) c fs.disk (patch_entry c v b)
                  (read-bad fs.drive (fat_lba f c fs) fs.disk b e)
              ∙ ap some (entry_in-patch_entry c v b))
      | inr ne ↦
          copies_hold left (f + 1) c v g (after f c v b fs) fs' has (omega arith) rest
            (ground arith) hi
    ]

Run-cases :
    (r : Run Bool)
    → ((s : Fat32) × (r ≡ ok true s)) ⊎ (((s : Fat32) × (r ≡ ok false s)) ⊎ (r ≡ out_of_fuel))
Run-cases (ok true s) = inl (s, refl)
Run-cases (ok false s) = inr (inl (s, refl))
Run-cases out_of_fuel = inr (inr refl)

set_parts :
    (c v : ℕ) (fs fs' : Fat32)
    → set_fat_entry c v fs ≡ ok true fs'
    → (s : Fat32) × (set_copies fs.num_fats 0 c v fs ≡ ok true s)
      × (record s { fat_sector_cached_lba = no_lba } ≡ fs')
unfolding set_fat_entry state_of
set_parts c v fs fs' h = elim (Run-cases (set_copies fs.num_fats 0 c v fs)) [
  | inl (s, e) ↦
      let r : ok true (record s { fat_sector_cached_lba = no_lba }) ≡ ok true fs' = ground arith in
      (s, e, ap (state_of fs) r)
  | inr (inl (s, e)) ↦ absurd (ground arith)
  | inr (inr e) ↦ absurd (ground arith)
]

-- Once `set_fat_entry` has returned success, each copy `g` of the table holds the low 28 bits of the
-- value in the cluster's entry, and `next_cluster` returns them. The tables must lie below sector
-- 2^28 and have an entry for the cluster.
pub set_fat_entry-next_cluster :
    (c v g : ℕ) (fs fs' : Fat32)
    → HasEntry c fs
    → g < fs.num_fats
    → set_fat_entry c v fs ≡ ok true fs'
    → (entry_at (fat_lba g c fs) c fs.drive fs'.disk ≡ some (v % 2 ^ 28))
      × ((next_cluster c fs').0 ≡ v % 2 ^ 28)
unfolding fat_lba
set_fat_entry-next_cluster c v g fs fs' has below h =
    let (s, e, last) = set_parts c v fs fs' h in
    let same = same_volume fs.num_fats 0 c v fs s e in
    let first : 0 < fs.num_fats = omega arith in
    let here = copies_hold fs.num_fats 0 c v g fs s has (omega arith) e (omega arith) below in
    let at_first = copies_hold fs.num_fats 0 c v 0 fs s has (omega arith) e (omega arith) first in
    let small = lba_of 0 c fs has first in
    let s' = record fs { disk = s.disk; fat_sector_cached_lba = no_lba } in
    let now : s' ≡ fs' = subst (λ x. record x { fat_sector_cached_lba = no_lba } ≡ fs') same last in
    subst
      (λ x.
        (entry_at (fat_lba g c fs) c fs.drive x.disk ≡ some (v % 2 ^ 28))
        × ((next_cluster c x).0 ≡ v % 2 ^ 28))
      now
      (
        here,
        next_cluster-entry_at c (v % 2 ^ 28) s' (ne_== (fat_lba 0 c fs) no_lba (λ eq. omega arith))
            at_first,
      )
