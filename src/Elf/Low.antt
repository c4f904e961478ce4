-- ===== src/Elf/Low.antt =====
-- `load_segment` of src/proc/elf.c while the identity mapping of the first 4 MB reaches the pages that
-- it writes.
use osver.Prelude.{
  ℕ, zero, suc, ◌+◌, ◌-◌, ◌*◌, ◌%◌, ◌/◌, ◌^◌, ◌++◌, [], ◌∷◌, ◌<◌, ◌≤◌, ◌≡◌, refl, ◌∙◌, true, false,
  not, ◌||◌, ◌==◌, eq_==, leb, arith, Bool-cases, inl, inr, length,
}
use osver.Ata.{Bytes}
use osver.Pmm.{Pmm, page_is_free, take_page, page_size, pmm_alloc}
use osver.Pmm.Alloc.{Allocated, page, exhausted, pmm_alloc-Allocated}
use osver.Paging.{Paging, translate, vmm_map}
use osver.Paging.Slot.{IsPaged}
use osver.Paging.Map.{KeepsPages, more_used, vmm_map-KeepsPages, vmm_get_phys-vmm_map}
use osver.Paging.Low.{
  IsLow, StaysLow, low_end, first_is_low, pmm-IsLow, vmm_map-StaysLow, translate-vmm_get_phys,
}
use osver.Elf.Header.{Phdr}
use osver.Elf.Load.{IsPlain, map_page, load_page-map_page, used_after}
use osver.Elf.Segment.{
  SegmentIn, seg_start, seg_end, load_page-PageIn, load_pages-SegmentIn, load_segment-SegmentIn,
  page_down-start, page_up-eq,
}
use osver.Elf.{Loader, load_page, load_pages, load_segment, set_image, max_user_segments, fill_page}

-- The tables stay in the first 4 MB, and no write went to a wrong address.
pub record LoadsLow (s s' : Loader) : Type 0 where
  pub stays : StaysLow s.paging s'.paging
  pub no_fault : s'.faulted ≡ s.faulted

LoadsLow-refl : (s : Loader) → IsLow s.paging → LoadsLow s s
LoadsLow-refl s low = record { stays = record { low = low; no_fault = refl }; no_fault = refl }

LoadsLow-trans : (s s1 s2 : Loader) → LoadsLow s s1 → LoadsLow s1 s2 → LoadsLow s s2
LoadsLow-trans s s1 s2 one two = record {
  stays = record { low = two.stays.low; no_fault = two.stays.no_fault ∙ one.stays.no_fault };
  no_fault = two.no_fault ∙ one.no_fault;
}

-- a page that is free afterwards was free before
was_free :
    (q : ℕ) (m m' : Pmm)
    → (page_is_free q m ≡ false → page_is_free q m' ≡ false)
    → page_is_free q m' ≡ true
    → page_is_free q m ≡ true
was_free q m m' keep free = elim (Bool-cases (page_is_free q m)) [
  | inl e ↦ e
  | inr e ↦ absurd (let busy = keep e in ground arith)
]

module _ (file : Bytes) (ph : Phdr) (v q : ℕ) (s : Loader) (room : v + 4096 < 2 ^ 32)
    (high : low_end ≤ v) (paged : IsPaged s.paging) (low : IsLow s.paging) (qq : q < 1024) where
  -- the page `p` has been taken, and is mapped and filled
  mapped-LoadsLow :
      (p : ℕ) (paging : Paging)
      → p < 1024
      → IsPaged paging
      → StaysLow s.paging paging
      → LoadsLow s (record s {
        paging = paging;
        bytes = fill_page file ph v (p * 4096) s.bytes;
        faulted = s.faulted || not (translate (p * 4096) paging == p * 4096);
      })
  mapped-LoadsLow p paging pp ok stays =
      let at : translate (p * 4096) paging ≡ p * 4096 =
        translate-vmm_get_phys (p * 4096) paging ok ∙ stays.low.identity (p * 4096) (omega arith) in
      let hit : (translate (p * 4096) paging == p * 4096) ≡ true = eq_== _ _ at in
      record { stays = stays; no_fault = rw hit (ground arith) }

  map_page-LoadsLow :
      (r : ℕ × Pmm)
      → Allocated s.paging.pmm r
      → (map_page file ph v s r).0 ≡ true
      → page_is_free q (map_page file ph v s r).1.paging.pmm ≡ true
      → LoadsLow s (map_page file ph v s r).1
  unfolding map_page KeepsPages
  map_page-LoadsLow r (exhausted full) h free = absurd (ground arith)
  map_page-LoadsLow r (page p lt p_free first) h free = elim (Bool-cases (p * page_size == 0)) [
    | inl z ↦ absurd (let e = rw z at h in ground arith)
    | inr nz ↦
        let m = take_page p s.paging.pmm in
        let taken : Paging = record s.paging { pmm = m } in
        let taken_paged : IsPaged taken =
          more_used s.paging m paged (λ k u. used_after p k s.paging.pmm u) in
        let taken_low : IsLow taken = pmm-IsLow s.paging m paged low in
        elim (Bool-cases (vmm_map v (p * page_size) 6 taken).0) [
          | inr bad ↦ absurd (let e = rw (nz, bad) at h in ground arith)
          | inl ok ↦
              let q_free : page_is_free q (vmm_map v (p * page_size) 6 taken).1.pmm ≡ true =
                rw (nz, ok) at free in
              let q_taken : page_is_free q m ≡ true =
                was_free q m (vmm_map v (p * page_size) 6 taken).1.pmm
                  (vmm_map-KeepsPages v (p * page_size) 6 taken taken_paged (omega arith) q)
                  q_free in
              let q_before : page_is_free q s.paging.pmm ≡ true =
                was_free q s.paging.pmm m (used_after p q s.paging.pmm) q_taken in
              let stays =
                vmm_map-StaysLow v (p * page_size) 6 q taken taken_paged taken_low (omega arith)
                  high qq q_taken in
              rw (nz, ok)
                (mapped-LoadsLow p (vmm_map v (p * page_size) 6 taken).1
                  (first_is_low p q s.paging.pmm first q_before qq)
                  (vmm_get_phys-vmm_map v (p * page_size) 6 0 taken taken_paged (omega arith)
                    (omega arith) (omega arith)).0
                  (record { low = stays.low; no_fault = stays.no_fault }))
        ]
  ]

  load_page-LoadsLow :
      (load_page file ph v s).0 ≡ true
      → page_is_free q (load_page file ph v s).1.paging.pmm ≡ true
      → LoadsLow s (load_page file ph v s).1
  load_page-LoadsLow h free = rw (load_page-map_page file ph v s) (
      map_page-LoadsLow (pmm_alloc s.paging.pmm) (pmm_alloc-Allocated s.paging.pmm)
        (rw (load_page-map_page file ph v s) at h) (rw (load_page-map_page file ph v s) at free))

load_pages-LoadsLow :
    (file : Bytes) (ph : Phdr) (left i vstart q : ℕ) (s : Loader)
    → IsPlain ph
    → vstart % 4096 ≡ 0
    → low_end ≤ vstart
    → vstart + (i + left) * 4096 < 2 ^ 32
    → IsPaged s.paging
    → IsLow s.paging
    → q < 1024
    → (load_pages file ph left i vstart s).0 ≡ true
    → page_is_free q (load_pages file ph left i vstart s).2.paging.pmm ≡ true
    → LoadsLow s (load_pages file ph left i vstart s).2
unfolding load_pages
load_pages-LoadsLow file ph zero i vstart q s plain aligned high room paged low qq h free =
    LoadsLow-refl s low
load_pages-LoadsLow file ph (suc left) i vstart q s plain aligned high room paged low qq h free =
    let v = vstart + i * 4096 in
    let wrap : (vstart + i * 4096) % 2 ^ 32 ≡ v = omega arith in
    let s1 = (load_page file ph v s).1 in
    elim (Bool-cases (load_page file ph v s).0) [
      | inr bad ↦ absurd (let e = rw (wrap, bad) at h in ground arith)
      | inl ok ↦
          let one = load_page-PageIn file ph v s plain (omega arith) paged ok in
          let h1 : (load_pages file ph left (i + 1) vstart s1).0 ≡ true = rw (wrap, ok) at h in
          let free1 : page_is_free q (load_pages file ph left (i + 1) vstart s1).2.paging.pmm
              ≡ true =
            rw (wrap, ok) at free in
          let rest =
            load_pages-SegmentIn file ph left (i + 1) vstart s1 plain aligned (omega arith)
              one.1.paged h1 in
          let q_free = was_free q s1.paging.pmm _ (rest.keeps q) free1 in
          let first =
            load_page-LoadsLow file ph v q s (omega arith) (omega arith) paged low qq ok q_free in
          rw (wrap, ok)
            (LoadsLow-trans s s1 _ first (
              load_pages-LoadsLow file ph left (i + 1) vstart q s1 plain aligned high (omega arith)
                one.1.paged first.stays.low qq h1 free1))
    ]

set_image-LoadsLow :
    (img : ℕ) (s s' : Loader) (i : _) → LoadsLow s s' → LoadsLow s (set_image img i s')
unfolding set_image
set_image-LoadsLow img s s' i h = record { stays = h.stays; no_fault = h.no_fault }

load_segment-LoadsLow :
    (file : Bytes) (ph : Phdr) (img q : ℕ) (s : Loader)
    → IsPlain ph
    → ph.p_vaddr + ph.p_memsz + 4095 < 2 ^ 32
    → low_end ≤ seg_start ph
    → IsPaged s.paging
    → IsLow s.paging
    → (load_segment file ph img s).0 ≡ true
    → q < 1024
    → page_is_free q (load_segment file ph img s).1.paging.pmm ≡ true
    → LoadsLow s (load_segment file ph img s).1
unfolding load_segment set_image seg_start seg_end
load_segment-LoadsLow file ph img q s plain room high paged low h qq free =
    let down = page_down-start ph (omega arith) in
    let up = page_up-eq ph room in
    let n = (seg_end ph - seg_start ph) / 4096 in
    elim (Bool-cases (leb max_user_segments (length (s.images img).segs))) [
      | inl full ↦ absurd (let e = rw full at h in ground arith)
      | inr fits ↦ elim (Bool-cases (leb (seg_end ph) (seg_start ph))) [
        | inl empty ↦ absurd (let e = rw (fits, down, up, empty) at h in ground arith)
        | inr some_pages ↦
            rw (fits, down, up, some_pages)
              (set_image-LoadsLow img s _ _ (
                load_pages-LoadsLow file ph n 0 (seg_start ph) q s plain (omega arith) high
                  (ground arith) paged low qq (rw (fits, down, up, some_pages) at h)
                  (rw (fits, down, up, some_pages) at free)))
      ]
    ]

-- `load_segment` that returns 0, on a segment that does not wrap around and lies from 4 MB on, where the
-- first 4 MB are mapped to themselves, the tables lie in them, and one of their pages is still free at the
-- end. Then no write went to an address that the processor translates elsewhere, and the first 4 MB
-- and the tables are as assumed. Every address of the segment's pages is mapped and shows the bytes of the
-- file, and zeros before and behind them; every other address keeps its translation; the pages that were in
-- use keep their bytes and stay in use, and the tables are apart as before; and the image has one more segment,
-- with all the pages.
pub load_segment-loaded :
    (file : Bytes) (ph : Phdr) (img q : ℕ) (s : Loader)
    → IsPlain ph
    → ph.p_vaddr + ph.p_memsz + 4095 < 2 ^ 32
    → low_end ≤ seg_start ph
    → IsPaged s.paging
    → IsLow s.paging
    → (load_segment file ph img s).0 ≡ true
    → q < 1024
    → page_is_free q (load_segment file ph img s).1.paging.pmm ≡ true
    → LoadsLow s (load_segment file ph img s).1
      × SegmentIn file ph (seg_start ph) (seg_end ph) s (load_segment file ph img s).1
      × (((load_segment file ph img s).1.images img).segs
          ≡ (s.images img).segs
            ++ (record { vaddr = seg_start ph; pages = (seg_end ph - seg_start ph) / 4096 } ∷ []))
load_segment-loaded file ph img q s plain room high paged low h qq free =
    let r = load_segment-SegmentIn file ph img s plain room paged h in
    (load_segment-LoadsLow file ph img q s plain room high paged low h qq free, r.0, r.1)
