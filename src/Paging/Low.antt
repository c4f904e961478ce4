-- ===== src/Paging/Low.antt =====
-- `vmm_map` and `vmm_unmap` of src/mem/paging.c while the identity mapping of the first 4 MB
-- reaches the tables.
use osver.Prelude.{
  ℕ, ◌+◌, ◌*◌, ◌%◌, ◌/◌, ◌^◌, ◌<◌, ◌≤◌, ◌≡◌, ◌≢◌, refl, ap, sym, ◌∙◌, subst, true, false, ◌==◌, ltb,
  ne_==, eq_==, if◌then◌else◌, bit_and, bit_or, arith, Bool-cases, inl, inr, ◌&&◌,
}
use osver.Pmm.{Pmm, page_is_free, take_page}
use osver.Pmm.Alloc.{NoneFree}
use osver.Paging.{
  Paging, page_dir_index, page_tbl_index, is_present, frame_of, entry_address, translate, misses,
  set_dir, clear_table, set_entry, paging_init, make_pt, get_pt, vmm_get_phys, vmm_map, vmm_unmap,
  unmapped,
}
use osver.Paging.Entry.{frame_of-eq}
use osver.Paging.Slot.{
  IsPaged, through, dir_of, slot_of, vmm_get_phys-none, vmm_get_phys-through, index_bounds, page_of,
  written, written-miss,
}
use osver.Paging.Table.{
  made, still_used, Made, refused, table, make_pt-Made, made-phys, Entry, entry, new_frame,
}
use osver.Paging.Init.{only_first, first_frame, vmm_get_phys-paging_init}
use osver.Paging.Map.{
  Ready, nothing, ready, get_pt-Ready, put_at, mapped, more_used, more-Same, Same,
  vmm_get_phys-vmm_map, vmm_get_phys-vmm_unmap,
}

abbrev pub low_end : ℕ
low_end = 0x400000

-- The first 4 MB are mapped to themselves, and the tables lie in them.
pub record IsLow (s : Paging) : Type 0 where
  pub identity : (a : ℕ) → a < low_end → vmm_get_phys a s ≡ a
  pub tables :
      (d : ℕ)
      → d < 1024
      → is_present (s.page_directory d) ≡ true
      → frame_of (s.page_directory d) < low_end

-- So it is after `paging_init` with a first table there.
pub paging_init-IsLow :
    (pt : ℕ) (s : Paging)
    → pt % 4096 ≡ 0
    → pt < low_end
    → pt ≢ 0
    → page_is_free (pt / 4096) s.pmm ≡ false
    → IsLow (paging_init pt s)
paging_init-IsLow pt s aligned below pos busy =
    let small : pt < 2 ^ 32 = omega arith in
    record {
      identity = λ a lt.
          let e = (vmm_get_phys-paging_init pt s aligned small pos busy a (omega arith)).1 in
          ground arith;
      tables = λ d dd h.
          let z = only_first pt s aligned small pos busy d dd h in
          let f = first_frame pt s aligned small pos busy in
          let g : frame_of ((paging_init pt s).page_directory d) ≡ pt =
            ap (λ k. frame_of ((paging_init pt s).page_directory k)) z ∙ f in
          omega arith;
    }

-- `vmm_get_phys` says what the processor does.
pub translate-vmm_get_phys : (v : ℕ) (s : Paging) → IsPaged s → translate v s ≡ vmm_get_phys v s
unfolding translate through dir_of slot_of
translate-vmm_get_phys v s paged =
    elim (Bool-cases (is_present (s.page_directory (page_dir_index v)))) [
      | inl h ↦ rw h (
          sym (vmm_get_phys-through v s h (paged.not_null (page_dir_index v) (index_bounds v).0 h)))
      | inr h ↦ rw h (sym (vmm_get_phys-none v s h))
    ]

-- an access below 4 MB finds what it should
pub misses-low : (a : ℕ) (s : Paging) → IsPaged s → IsLow s → a < low_end → misses a s ≡ s.faulted
unfolding misses
misses-low a s paged low lt =
    let at : translate a s ≡ a = translate-vmm_get_phys a s paged ∙ low.identity a lt in
    let hit : (translate a s == a) ≡ true = eq_== (translate a s) a at in rw hit (ground arith)

-- what holds after a call of `get_pt`, of `vmm_map` or of `vmm_unmap`
pub record StaysLow (s s' : Paging) : Type 0 where
  pub low : IsLow s'
  pub no_fault : s'.faulted ≡ s.faulted

-- other pages in use
pub pmm-IsLow : (s : Paging) (m : Pmm) → IsPaged s → IsLow s → IsLow (record s { pmm = m })
unfolding Same
pmm-IsLow s m paged low = record {
  identity = λ a lt. more-Same s m paged a (omega arith) ∙ low.identity a lt;
  tables = low.tables;
}

made-StaysLow :
    (d p : ℕ) (s : Paging)
    → IsPaged s
    → IsLow s
    → d < 1024
    → p < 1024
    → p ≢ 0
    → page_is_free p s.pmm ≡ true
    → is_present (s.page_directory d) ≡ false
    → StaysLow s (made d p s)
unfolding Entry made set_dir clear_table
made-StaysLow d p s paged low dd pp pos free absent = record {
  low = record {
    identity = λ a lt.
        made-phys d p s paged dd (omega arith) pos free absent a (omega arith) ∙ low.identity a lt;
    tables = λ e ee h. elim (entry d p s paged dd (omega arith) pos free absent e) [
      | inl (same, at) ↦
          let f = ap frame_of at ∙ new_frame d p s paged dd (omega arith) pos free absent in
          omega arith
      | inr (ne, at) ↦
          let f = ap frame_of at in
          let old = low.tables e ee (subst (λ x. is_present x ≡ true) at h) in omega arith
    ];
  };
  no_fault =
      let m = take_page p s.pmm in
      misses-low (p * 4096) (record s { pmm = m })
        (more_used s m paged (λ q u. still_used p q s.pmm u)) (pmm-IsLow s m paged low)
        (omega arith);
}

-- the first free page is no later than any free page
pub first_is_low :
    (p q : ℕ) (m : Pmm) → NoneFree m 0 p → page_is_free q m ≡ true → q < 1024 → p < 1024
first_is_low p q m before free lt = elim (Bool-cases (page_is_free q m)) [
  | inl e ↦ elim (Bool-cases (ltb q p)) [
    | inl early ↦ absurd (let busy = before q (omega arith) (ground arith) in ground arith)
    | inr late ↦ ground arith
  ]
  | inr e ↦ absurd (ground arith)
]

unchanged : (s : Paging) → IsLow s → StaysLow s s
unchanged s low = record { low = low; no_fault = refl }

Made-StaysLow :
    (d q : ℕ) (s : Paging) (r : ℕ × Paging)
    → IsPaged s
    → IsLow s
    → d < 1024
    → is_present (s.page_directory d) ≡ false
    → q < 1024
    → page_is_free q s.pmm ≡ true
    → Made d s r
    → StaysLow s r.1
Made-StaysLow d q s r paged low dd absent qq free (refused m keep) = record {
  low = pmm-IsLow s m paged low;
  no_fault = refl;
}
Made-StaysLow d q s r paged low dd absent qq free (table p pp pos was_free first) =
    made-StaysLow d p s paged low dd (first_is_low p q s.pmm first free qq) pos was_free absent

get_pt-StaysLow :
    (v q : ℕ) (s : Paging)
    → IsPaged s
    → IsLow s
    → q < 1024
    → page_is_free q s.pmm ≡ true
    → StaysLow s (get_pt v true s).1
unfolding get_pt
get_pt-StaysLow v q s paged low qq free =
    elim (Bool-cases (is_present (s.page_directory (page_dir_index v)))) [
      | inl h ↦ rw h (unchanged s low)
      | inr h ↦ rw h (
          Made-StaysLow (page_dir_index v) q s (make_pt v s) paged low (index_bounds v).0 h qq free
            (make_pt-Made v s))
    ]

find_pt-StaysLow : (v : ℕ) (s : Paging) → IsLow s → StaysLow s (get_pt v false s).1
unfolding get_pt
find_pt-StaysLow v s low = elim (Bool-cases (is_present (s.page_directory (page_dir_index v)))) [
  | inl h ↦ rw h (unchanged s low)
  | inr h ↦ rw h (unchanged s low)
]

-- an entry for an address from 4 MB on is written
put_at-StaysLow :
    (v val : ℕ) (s : Paging) (r : ℕ × Paging)
    → v < 2 ^ 32
    → low_end ≤ v
    → Ready v s r
    → StaysLow s r.1
    → StaysLow s (put_at v val r)
unfolding put_at dir_of set_entry written entry_address
put_at-StaysLow v val s r vv high (nothing s1 paged same keep) stays = stays
put_at-StaysLow v val s r vv high (ready s1 paged same keep h) stays =
    let b = index_bounds v in
    let d = page_dir_index v in
    let i = page_tbl_index v in
    let pt = frame_of (dir_of v s1) in
    let nz = ne_== pt 0 (paged.not_null d b.0 h) in
    let below : pt < low_end = stays.low.tables d b.0 h in
    let at : entry_address pt i < low_end =
      let f = frame_of-eq (dir_of v s1) in omega (arith, b.1) in
    rw nz record {
      low = record {
        identity = λ a lt.
            written-miss s1 paged d i val b.0 b.1 h a (omega arith)
              (λ e. let p = page_of v vv in omega arith)
            ∙ stays.low.identity a lt;
        tables = stays.low.tables;
      };
      no_fault = misses-low (entry_address pt i) s1 paged stays.low at ∙ stays.no_fault;
    }

-- `vmm_map` writes what `put_at` does, or nothing.
vmm_map-put_at :
    (virt phys flags : ℕ) (s : Paging)
    → (bit_and (bit_or virt phys) 0xFFF == 0) ≡ true
    → (vmm_map virt phys flags s).1 ≡ put_at virt (mapped phys flags) (get_pt virt true s)
unfolding vmm_map put_at mapped
vmm_map-put_at virt phys flags s even =
    rw even
      (elim (Bool-cases ((get_pt virt true s).0 == 0)) [ inl z ↦ rw z refl | inr nz ↦ rw nz refl ])

pub vmm_map-StaysLow :
    (virt phys flags q : ℕ) (s : Paging)
    → IsPaged s
    → IsLow s
    → virt < 2 ^ 32
    → low_end ≤ virt
    → q < 1024
    → page_is_free q s.pmm ≡ true
    → StaysLow s (vmm_map virt phys flags s).1
unfolding vmm_map
vmm_map-StaysLow virt phys flags q s paged low vv high qq free =
    elim (Bool-cases (bit_and (bit_or virt phys) 0xFFF == 0)) [
      | inr odd ↦ rw odd (unchanged s low)
      | inl even ↦ subst (StaysLow s) (sym (vmm_map-put_at virt phys flags s even)) (
          put_at-StaysLow virt (mapped phys flags) s (get_pt virt true s) vv high
            (get_pt-Ready virt true s paged) (get_pt-StaysLow virt q s paged low qq free))
    ]

-- `vmm_map` of a virtual address from 4 MB on, where the first 4 MB are mapped to themselves, the tables
-- lie in them, and one of their pages is free. The processor is not sent to a wrong address by any access of
-- the call; the tables stay apart, in use and in the first 4 MB, which stay mapped to
-- themselves. If the call returns 0, the addresses of the virtual page are translated into the physical
-- page; all other addresses, and all addresses if it returns -1, keep their translation.
pub vmm_map-mapping :
    (virt phys flags w q : ℕ) (s : Paging)
    → IsPaged s
    → IsLow s
    → virt < 2 ^ 32
    → low_end ≤ virt
    → phys < 2 ^ 32
    → w < 2 ^ 32
    → q < 1024
    → page_is_free q s.pmm ≡ true
    → IsPaged (vmm_map virt phys flags s).1
      × StaysLow s (vmm_map virt phys flags s).1
      × (vmm_get_phys w (vmm_map virt phys flags s).1 ≡ (
          if (vmm_map virt phys flags s).0 && (w / 4096 == virt / 4096)
          then phys + w % 4096
          else vmm_get_phys w s))
vmm_map-mapping virt phys flags w q s paged low vv high pp ww qq free =
    let r = vmm_get_phys-vmm_map virt phys flags w s paged vv pp ww in
    (r.0, vmm_map-StaysLow virt phys flags q s paged low vv high qq free, r.1)

-- `vmm_unmap` of an address from 4 MB on, where the first 4 MB are mapped to themselves and the tables lie
-- in them. No access of the call goes to a wrong address, and all this holds afterwards. The
-- addresses of the page have no translation then, the others keep theirs, and the tables are
-- apart and in use as before.
pub vmm_unmap-mapping :
    (virt w : ℕ) (s : Paging)
    → IsPaged s
    → IsLow s
    → virt < 2 ^ 32
    → low_end ≤ virt
    → w < 2 ^ 32
    → IsPaged (vmm_unmap virt s)
      × StaysLow s (vmm_unmap virt s)
      × (vmm_get_phys w (vmm_unmap virt s)
          ≡ (if w / 4096 == virt / 4096 then unmapped else vmm_get_phys w s))
unfolding vmm_unmap put_at
vmm_unmap-mapping virt w s paged low vv high ww =
    let r = vmm_get_phys-vmm_unmap virt w s paged vv ww in
    (
      r.0,
      put_at-StaysLow virt 0 s (get_pt virt false s) vv high (get_pt-Ready virt false s paged)
          (find_pt-StaysLow virt s low),
      r.1,
    )
