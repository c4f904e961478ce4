-- ===== src/Fat32/Stays.antt =====
-- Every operation but a change of directory leaves the place alone.
use osver.Prelude.{
  ℕ, zero, suc, ◌+◌, ◌-◌, ◌%◌, ◌^◌, ◌≡◌, refl, not, ◌&&◌, leb, ltb, inl, inr, Bool-cases,
  Option-cases, ◌==◌, if◌then◌else◌,
}
use osver.Fat32.State.{Fat32, Run, ok}
use osver.Ata.{ata_read, ata_write}
use osver.Fat32.Table.{
  next_cluster, set_copies, set_fat_entry, alloc_loop, alloc_cluster, free_loop, free_chain, is_eoc,
  walk_fuel, fat_lba, patch_entry,
}
use osver.Fat32.Keeps.{
  Kept, Keeps, SamePlace, same_place, Kept-option, Kept-bind, Kept-from, Kept-disk,
}

-- a step that changes neither
abbrev same :
    (fs fs' : Fat32)
    → fs'.mounted ≡ fs.mounted
    → fs'.root_cluster ≡ fs.root_cluster
    → fs'.cwd_cluster ≡ fs.cwd_cluster
    → SamePlace fs fs'
same fs fs' m r c = record { mounted = m; root = r; cwd = c }

Keeps-next_cluster : (c : ℕ) → Keeps (λ s. let (v, s') = next_cluster c s in ok v s')
unfolding Keeps next_cluster
Keeps-next_cluster c fs = elim (Bool-cases (fat_lba 0 c fs == fs.fat_sector_cached_lba)) [
  | inl hit ↦ rw hit (same_place fs)
  | inr miss ↦ rw miss (elim (Option-cases (ata_read fs.drive (fat_lba 0 c fs) 1 fs.disk)) [
    | inl e ↦ rw e (same_place fs)
    | inr (b, e) ↦ rw e (same fs _ refl refl refl)
  ])
]

Keeps-set_copies : (left f c v : ℕ) → Keeps (set_copies left f c v)
unfolding set_copies Keeps
Keeps-set_copies zero f c v fs = same_place fs
Keeps-set_copies (suc left) f c v fs =
    let lba = fat_lba f c fs in
    Kept-option fs (ata_read fs.drive lba 1 fs.disk) _ _ (same_place fs) (λ b.
      let w = ata_write fs.drive lba 1 (patch_entry c v b) fs.disk in
      Kept-disk fs w.1 _ (elim (Bool-cases w.0) [
        | inl e ↦ rw e (Keeps-set_copies left (f + 1) c v (record fs { disk = w.1 }))
        | inr e ↦ rw e (same_place (record fs { disk = w.1 }))
      ]))

pub Keeps-set_fat_entry : (c v : ℕ) → Keeps (set_fat_entry c v)
unfolding set_fat_entry Keeps
Keeps-set_fat_entry c v fs =
    Kept-bind fs (set_copies fs.num_fats 0 c v fs) _ (Keeps-set_copies fs.num_fats 0 c v fs)
      (λ done fs'. elim (Bool-cases done) [
        | inl e ↦ rw e (same fs' _ refl refl refl)
        | inr e ↦ rw e (same_place fs')
      ])

-- a step to the next cluster before the rest of an operation
pub Kept-step :
    {B : Type 0} (c : ℕ) (fs : Fat32) (r : Run B) → Kept (next_cluster c fs).1 r → Kept fs r
unfolding Keeps
Kept-step c fs r h = Kept-from fs (next_cluster c fs).1 r (Keeps-next_cluster c fs) h

Keeps-alloc_loop : (left i : ℕ) → Keeps (alloc_loop left i)
unfolding alloc_loop Keeps
Keeps-alloc_loop zero i fs = same_place fs
Keeps-alloc_loop (suc left) i fs =
    let total = (fs.total_clusters + 2) % 2 ^ 32 in
    let c0 = (fs.alloc_hint + i) % 2 ^ 32 in
    let c = if leb total c0 then 2 + (c0 - total) else c0 in
    let s = (next_cluster c fs).1 in
    Kept-step c fs _ (elim (Bool-cases ((next_cluster c fs).0 == 0)) [
      | inr e ↦ rw e (Keeps-alloc_loop left (i + 1) s)
      | inl e ↦ rw e (
          Kept-bind s (set_fat_entry c 0x0FFFFFFF s) _ (Keeps-set_fat_entry c 0x0FFFFFFF s)
            (λ done s'. elim (Bool-cases done) [
              | inl d ↦ rw d (same s' _ refl refl refl)
              | inr d ↦ rw d (same_place s')
            ]))
    ])

pub Keeps-alloc_cluster : Keeps alloc_cluster
unfolding alloc_cluster Keeps
Keeps-alloc_cluster fs = elim (Bool-cases (fs.total_clusters == 0)) [
  | inl e ↦ rw e (same_place fs)
  | inr e ↦ rw e (elim (Bool-cases (ltb fs.alloc_hint 2)) [
    | inl h ↦ rw h (
        Kept-from fs (record fs { alloc_hint = 2 }) _ (same fs _ refl refl refl)
          (Keeps-alloc_loop fs.total_clusters 0 (record fs { alloc_hint = 2 })))
    | inr h ↦ rw h (Keeps-alloc_loop fs.total_clusters 0 fs)
  ])
]

Keeps-free_loop : (fuel c : ℕ) → Keeps (free_loop fuel c)
unfolding free_loop Keeps
Keeps-free_loop zero c fs = tt
Keeps-free_loop (suc fuel) c fs = elim (Bool-cases (leb 2 c && not (is_eoc c))) [
  | inr e ↦ rw e (same_place fs)
  | inl e ↦
      let s = (next_cluster c fs).1 in
      rw e (
        Kept-step c fs _ (
          Kept-bind s (set_fat_entry c 0 s) _ (Keeps-set_fat_entry c 0 s)
            (λ done s'. Keeps-free_loop fuel (next_cluster c fs).0 s')))
]

pub Keeps-free_chain : (c : ℕ) → Keeps (free_chain c)
unfolding free_chain
Keeps-free_chain c = Keeps-free_loop walk_fuel c
