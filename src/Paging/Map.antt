-- ===== src/Paging/Map.antt =====
-- `vmm_map` and `vmm_unmap` on the translation of every address.
use osver.Prelude.{
  ℕ, ◌+◌, ◌*◌, ◌%◌, ◌/◌, ◌^◌, ◌<◌, ◌≡◌, refl, ap, sym, ◌∙◌, subst, Bool, true, false, not, ◌==◌,
  ==_eq, ne_==, if◌then◌else◌, bit_and, bit_or, arith, Bool-cases, inl, inr, ◌&&◌,
}
use osver.Bits.{bit_and_low, bit_or_disjoint, bit_or-IsClear, IsClear}
use osver.Pmm.{Pmm, page_is_free}
use osver.Paging.{
  Paging, page_dir_index, page_tbl_index, is_present, frame_of, set_entry, make_pt, get_pt,
  vmm_get_phys, vmm_map, vmm_unmap, unmapped, page_present,
}
use osver.Paging.Entry.{page_dir_index-eq, frame_of-eq, map_entry-eq, is_present-eq, page_offset-eq}
use osver.Paging.Slot.{
  IsPaged, through, dir_of, vmm_get_phys-same, index_bounds, page_of, written, written-hit,
  written-miss,
}
use osver.Paging.Table.{
  made, Made, refused, table, make_pt-Made, made-IsPaged, made-phys, old_used, at_d, new_present,
}

-- every address keeps its translation
unfoldable pub Same : Paging → Paging → Type 0
Same s s' = (w : ℕ) → w < 2 ^ 32 → vmm_get_phys w s' ≡ vmm_get_phys w s

-- no page in use is given back
unfoldable pub KeepsPages : Paging → Paging → Type 0
KeepsPages s s' = (q : ℕ) → page_is_free q s.pmm ≡ false → page_is_free q s'.pmm ≡ false

-- What `get_pt` returns: NULL, or the table of the address, in a state that translates as before.
pub data Ready (v : ℕ) (s : Paging) : ℕ × Paging → Type 0 where
  nothing : (s1 : Paging) → IsPaged s1 → Same s s1 → KeepsPages s s1 → Ready v s (0, s1)
  ready :
      (s1 : Paging)
      → IsPaged s1
      → Same s s1
      → KeepsPages s s1
      → is_present (dir_of v s1) ≡ true
      → Ready v s (frame_of (dir_of v s1), s1)

-- another bitmap in which the pages in use still are
pub more_used :
    (s : Paging) (m : Pmm)
    → IsPaged s
    → ((q : ℕ) → page_is_free q s.pmm ≡ false → page_is_free q m ≡ false)
    → IsPaged (record s { pmm = m })
more_used s m paged keep = record {
  used = λ d dd h. keep (frame_of (s.page_directory d) / 4096) (paged.used d dd h);
  distinct = paged.distinct;
  not_null = paged.not_null;
}

pub more-Same : (s : Paging) (m : Pmm) → IsPaged s → Same s (record s { pmm = m })
unfolding Same dir_of
more-Same s m paged w small =
    vmm_get_phys-same w s (record s { pmm = m }) refl (λ h. refl)
      (paged.not_null (page_dir_index w) (index_bounds w).0)

Made-Ready :
    (v : ℕ) (s : Paging) (r : ℕ × Paging)
    → IsPaged s
    → is_present (dir_of v s) ≡ false
    → Made (page_dir_index v) s r
    → Ready v s r
unfolding Same dir_of KeepsPages
Made-Ready v s r paged absent (refused m keep) =
    nothing (record s { pmm = m }) (more_used s m paged keep) (more-Same s m paged) keep
Made-Ready v s r paged absent (table p pp pos free first) =
    let d = page_dir_index v in
    let b = (index_bounds v).0 in
    let at = at_d d p s paged b pp pos free absent in
    let shown : is_present ((made d p s).page_directory d) ≡ true =
      ap is_present at ∙ new_present d p s paged b pp pos free absent in
    subst (λ f. Ready v s (f, made d p s))
      (ap frame_of at ∙ frame_of-eq (p * 4096 + 7) ∙ omega arith)
      (ready (made d p s) (made-IsPaged d p s paged b pp pos free absent)
        (made-phys d p s paged b pp pos free absent) (old_used d p s paged b pp pos free absent)
        shown)

pub get_pt-Ready : (v : ℕ) (create : Bool) (s : Paging) → IsPaged s → Ready v s (get_pt v create s)
unfolding get_pt dir_of Same KeepsPages
get_pt-Ready v create s paged =
    elim (Bool-cases (is_present (s.page_directory (page_dir_index v)))) [
      | inl h ↦ rw h (ready s paged (λ w small. refl) (λ q u. u) h)
      | inr h ↦ rw h (made_or_not create h)
    ]
  where
    made_or_not :
        (b : Bool)
        → is_present (s.page_directory (page_dir_index v)) ≡ false
        → Ready v s (if not b then (0, s) else make_pt v s)
    made_or_not true h = Made-Ready v s (make_pt v s) paged h (make_pt-Made v s)
    made_or_not false h = nothing s paged (λ w small. refl) (λ q u. u)

-- writing an entry keeps the invariant
set_entry-IsPaged : (pt i val : ℕ) (s : Paging) → IsPaged s → IsPaged (set_entry pt i val s)
unfolding set_entry
set_entry-IsPaged pt i val s paged = record {
  used = paged.used;
  distinct = paged.distinct;
  not_null = paged.not_null;
}

-- the end of `vmm_map` and `vmm_unmap` on what `get_pt` returned
unfoldable pub put_at : ℕ → ℕ → ℕ × Paging → Paging
put_at v val r = if r.0 == 0 then r.1 else set_entry r.0 (page_tbl_index v) val r.1

-- with a table, the pages of the address get the new entry; without one, nothing is translated anew
Put : (v val : ℕ) (s : Paging) → ℕ × Paging → Type 0
Put v val s r =
    IsPaged (put_at v val r)
    × KeepsPages s (put_at v val r)
    × ((w : ℕ)
        → w < 2 ^ 32
        → vmm_get_phys w (put_at v val r)
          ≡ (if not (r.0 == 0) && (w / 4096 == v / 4096) then through val w else vmm_get_phys w s))

Ready-Put : (v val : ℕ) (s : Paging) (r : ℕ × Paging) → v < 2 ^ 32 → Ready v s r → Put v val s r
unfolding Put put_at Same dir_of written KeepsPages set_entry
Ready-Put v val s r vv (nothing s1 paged same keep) = (paged, keep, same)
Ready-Put v val s r vv (ready s1 paged same keep h) =
    let b = index_bounds v in
    let nz = ne_== (frame_of (dir_of v s1)) 0 (paged.not_null (page_dir_index v) b.0 h) in
    let at = page_of v vv in
    rw nz (
      set_entry-IsPaged (frame_of (dir_of v s1)) (page_tbl_index v) val s1 paged,
      keep,
      λ w ww. elim (Bool-cases (w / 4096 == v / 4096)) [
        | inl t ↦ rw t (
            written-hit s1 paged (page_dir_index v) (page_tbl_index v) val b.0 b.1 h w ww
              (==_eq (w / 4096) (v / 4096) t ∙ at))
        | inr f ↦ rw f (
            written-miss s1 paged (page_dir_index v) (page_tbl_index v) val b.0 b.1 h w ww
              (λ e. ground arith)
            ∙ same w ww)
      ],
    )

Put-after :
    (v val : ℕ) (create : Bool) (s : Paging)
    → v < 2 ^ 32
    → IsPaged s
    → Put v val s (get_pt v create s)
Put-after v val create s vv paged =
    Ready-Put v val s (get_pt v create s) vv (get_pt-Ready v create s paged)

-- the entry that `vmm_map` writes, and what an address gets through it
unfoldable pub mapped : ℕ → ℕ → ℕ
mapped phys flags = bit_or (bit_or (frame_of phys) (bit_and flags 0xFFF)) page_present

through-mapped :
    (phys flags w : ℕ)
    → phys < 2 ^ 32
    → phys % 4096 ≡ 0
    → through (mapped phys flags) w ≡ phys + w % 4096
unfolding through mapped
through-mapped phys flags w small aligned =
    let f = flags % 2 ^ 12 / 2 * 2 + 1 in
    let q = phys / 2 ^ 12 in
    let e = map_entry-eq phys flags small aligned in
    let shown : is_present (phys + f) ≡ true = is_present-eq (phys + f) ∙ ground arith in
    let frame : frame_of (phys + f) ≡ q * 2 ^ 12 = frame_of-eq (phys + f) ∙ omega arith in
    let sum = bit_or_disjoint 12 q (w % 2 ^ 12) (omega arith) in
    rw (e, shown, frame, page_offset-eq w) (sum ∙ omega arith)

-- both addresses are aligned, or the call is refused
aligned_both : (virt phys : ℕ) → (bit_and (bit_or virt phys) 0xFFF == 0) ≡ true → phys % 4096 ≡ 0
unfolding IsClear
aligned_both virt phys h =
    let low =
      sym (bit_and_low 12 (bit_or virt phys)) ∙ ==_eq (bit_and (bit_or virt phys) 0xFFF) 0 h in
    let c = bit_or-IsClear 12 virt phys (omega arith) in let p = c.1 in omega arith

-- the end of `vmm_map` on what `get_pt` returned
map_end : ℕ → ℕ → ℕ × Paging → Bool × Paging
map_end virt val r =
    if r.0 == 0 then (false, r.1) else (true, set_entry r.0 (page_tbl_index virt) val r.1)

map_end-Put :
    (virt phys flags w : ℕ) (s : Paging)
    → phys < 2 ^ 32
    → w < 2 ^ 32
    → phys % 4096 ≡ 0
    → (r : ℕ × Paging) → Put virt (mapped phys flags) s r
    → IsPaged (map_end virt (mapped phys flags) r).1
      × (vmm_get_phys w (map_end virt (mapped phys flags) r).1 ≡ (
          if (map_end virt (mapped phys flags) r).0 && (w / 4096 == virt / 4096)
          then phys + w % 4096
          else vmm_get_phys w s))
unfolding Put put_at map_end
map_end-Put virt phys flags w s pp ww aligned r put = elim (Bool-cases (r.0 == 0)) [
  | inl z ↦ rw z (rw z at put.0, rw z at (put.2 w ww))
  | inr nz ↦
      let here = through-mapped phys flags w pp aligned in
      rw nz (rw nz at put.0, rw (nz, here) at (put.2 w ww))
]

map_end-KeepsPages :
    (virt val : ℕ) (s : Paging) (r : ℕ × Paging)
    → Put virt val s r
    → KeepsPages s (map_end virt val r).1
unfolding Put put_at map_end
map_end-KeepsPages virt val s r put = elim (Bool-cases (r.0 == 0)) [
  | inl z ↦ rw z (rw z at put.1)
  | inr nz ↦ rw nz (rw nz at put.1)
]

pub vmm_map-KeepsPages :
    (virt phys flags : ℕ) (s : Paging)
    → IsPaged s
    → virt < 2 ^ 32
    → KeepsPages s (vmm_map virt phys flags s).1
unfolding vmm_map map_end mapped KeepsPages
vmm_map-KeepsPages virt phys flags s paged vv =
    elim (Bool-cases (bit_and (bit_or virt phys) 0xFFF == 0)) [
      | inr odd ↦ rw odd (λ q u. u)
      | inl even ↦ rw even (
          map_end-KeepsPages virt (mapped phys flags) s (get_pt virt true s)
            (Put-after virt (mapped phys flags) true s vv paged))
    ]

-- the translation after `vmm_map`, and the invariant
pub vmm_get_phys-vmm_map :
    (virt phys flags w : ℕ) (s : Paging)
    → IsPaged s
    → virt < 2 ^ 32
    → phys < 2 ^ 32
    → w < 2 ^ 32
    → IsPaged (vmm_map virt phys flags s).1
      × (vmm_get_phys w (vmm_map virt phys flags s).1 ≡ (
          if (vmm_map virt phys flags s).0 && (w / 4096 == virt / 4096)
          then phys + w % 4096
          else vmm_get_phys w s))
unfolding vmm_map map_end mapped
vmm_get_phys-vmm_map virt phys flags w s paged vv pp ww =
    elim (Bool-cases (bit_and (bit_or virt phys) 0xFFF == 0)) [
      | inr odd ↦ rw odd (paged, refl)
      | inl even ↦ rw even (
          map_end-Put virt phys flags w s pp ww (aligned_both virt phys even) (get_pt virt true s)
            (Put-after virt (mapped phys flags) true s vv paged))
    ]

same_pt :
    (v w : ℕ) (s : Paging)
    → page_dir_index w ≡ page_dir_index v
    → get_pt w false s ≡ get_pt v false s
unfolding get_pt
same_pt v w s e =
    ap (λ d. if is_present (s.page_directory d) then (frame_of (s.page_directory d), s) else (0, s))
      e

-- an address on a page with no table
no_table :
    (virt w : ℕ) (s : Paging)
    → w / 4096 ≡ virt / 4096
    → ((get_pt virt false s).0 == 0) ≡ true
    → vmm_get_phys w s ≡ unmapped
unfolding vmm_get_phys
no_table virt w s e h =
    let d : page_dir_index w ≡ page_dir_index virt =
      page_dir_index-eq w ∙ omega arith ∙ sym (page_dir_index-eq virt) in
    rw (ap (λ r. r.0 == 0) (same_pt virt w s d) ∙ h) refl

-- the end of `vmm_unmap`, likewise
put_at-cleared :
    (virt w : ℕ) (s : Paging)
    → w < 2 ^ 32
    → virt < 2 ^ 32
    → (r : ℕ × Paging) → get_pt virt false s ≡ r
    → Put virt 0 s r
    → IsPaged (put_at virt 0 r)
      × (vmm_get_phys w (put_at virt 0 r)
          ≡ (if w / 4096 == virt / 4096 then unmapped else vmm_get_phys w s))
unfolding Put through is_present
put_at-cleared virt w s ww vv r e put = elim (Bool-cases (r.0 == 0)) [
  | inl z ↦ (
    put.0,
    rw z at (put.2 w ww) ∙ elim (Bool-cases (w / 4096 == virt / 4096)) [
      | inl t ↦
          rw t (no_table virt w s (==_eq (w / 4096) (virt / 4096) t) (ap (λ x. x.0 == 0) e ∙ z))
      | inr f ↦ rw f refl
    ],
  )
  | inr nz ↦ (put.0, rw nz at (put.2 w ww))
]

-- the translation after `vmm_unmap`, and the invariant
pub vmm_get_phys-vmm_unmap :
    (virt w : ℕ) (s : Paging)
    → IsPaged s
    → virt < 2 ^ 32
    → w < 2 ^ 32
    → IsPaged (vmm_unmap virt s)
      × (vmm_get_phys w (vmm_unmap virt s)
          ≡ (if w / 4096 == virt / 4096 then unmapped else vmm_get_phys w s))
unfolding vmm_unmap put_at
vmm_get_phys-vmm_unmap virt w s paged vv ww =
    put_at-cleared virt w s ww vv (get_pt virt false s) refl (Put-after virt 0 false s vv paged)
