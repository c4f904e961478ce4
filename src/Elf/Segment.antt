-- ===== src/Elf/Segment.antt =====
-- The loop of `load_segment` over the pages of a segment, and the whole of `load_segment`.
use osver.Prelude.{
  ℕ, zero, suc, ◌+◌, ◌-◌, ◌*◌, ◌%◌, ◌/◌, ◌^◌, ◌++◌, [], ◌∷◌, ◌<◌, ◌≤◌, ◌≡◌, refl, ap, ◌∙◌, Bool,
  true, false, ◌&&◌, ◌==◌, eq_==, ltb, leb, arith, Bool-cases, inl, inr, length,
}
use osver.Ata.{Bytes}
use osver.Pmm.{page_is_free}
use osver.Pmm.Alloc.{pmm_alloc-Allocated}
use osver.Paging.{vmm_get_phys, frame_of}
use osver.Paging.Entry.{frame_of-eq}
use osver.Paging.Slot.{IsPaged}
use osver.Paging.Map.{KeepsPages}
use osver.Elf.Header.{Phdr}
use osver.Elf.Load.{content, IsPlain, PageIn, load_page-map_page, map_page-PageIn}
use osver.Elf.{
  Loader, load_page, load_pages, load_segment, set_image, UserImage, page_up, page_down,
  max_user_segments,
}

-- the addresses from `from` up to `to`
pub within : ℕ → ℕ → ℕ → Bool
within from to va = leb from va && ltb va to

-- The pages from `from` up to `to` have been loaded: their addresses show the segment, the other
-- addresses keep their translation, and the pages that were in use keep their bytes.
pub record SegmentIn (file : Bytes) (ph : Phdr) (from to : ℕ) (s s' : Loader) : Type 0 where
  pub paged : IsPaged s'.paging
  pub keeps : (q : ℕ) → page_is_free q s.paging.pmm ≡ false → page_is_free q s'.paging.pmm ≡ false
  pub shown :
      (va : ℕ)
      → within from to va ≡ true
      → s'.bytes (vmm_get_phys va s'.paging) ≡ content file ph va
  pub others :
      (va : ℕ)
      → va < 2 ^ 32
      → within from to va ≡ false
      → vmm_get_phys va s'.paging ≡ vmm_get_phys va s.paging
  pub old_bytes : (a : ℕ) → page_is_free (a / 4096) s.paging.pmm ≡ false → s'.bytes a ≡ s.bytes a

pub load_page-PageIn :
    (file : Bytes) (ph : Phdr) (v : ℕ) (s : Loader)
    → IsPlain ph
    → v + 4096 < 2 ^ 32
    → IsPaged s.paging
    → (load_page file ph v s).0 ≡ true
    → (p : ℕ) × PageIn file ph v s (load_page file ph v s).1 p
load_page-PageIn file ph v s plain room paged h = rw (load_page-map_page file ph v s) (
    map_page-PageIn file ph v s _ plain room paged (pmm_alloc-Allocated s.paging.pmm)
      (rw (load_page-map_page file ph v s) at h))

-- one more page before the pages from `v + 4096` on
one_more :
    (file : Bytes) (ph : Phdr) (v to p : ℕ) (s s1 s' : Loader)
    → v % 4096 ≡ 0
    → v + 4096 ≤ to
    → to < 2 ^ 32
    → PageIn file ph v s s1 p
    → SegmentIn file ph (v + 4096) to s1 s'
    → SegmentIn file ph v to s s'
unfolding within KeepsPages
one_more file ph v to p s s1 s' aligned le small one rest = record {
  paged = rest.paged;
  keeps = λ q u. rest.keeps q (one.keeps q u);
  shown = λ va h. elim (Bool-cases (within (v + 4096) to va)) [
    | inl later ↦ rest.shown va later
    | inr here ↦
        let w : va < 2 ^ 32 = ground arith in
        let same : (va / 4096 == v / 4096) ≡ true = ground arith in
        let at : vmm_get_phys va s'.paging ≡ p * 4096 + va % 4096 =
          rest.others va w here ∙ one.seen va w ∙ rw same refl in
        let used : page_is_free ((p * 4096 + va % 4096) / 4096) s1.paging.pmm ≡ false =
          ap (λ q. page_is_free q s1.paging.pmm) (omega arith) ∙ one.is_used in
        let addr : v + va % 4096 ≡ va = ground arith in
        rw at (
          rest.old_bytes (p * 4096 + va % 4096) used
          ∙ one.filled (va % 4096) (omega arith)
          ∙ ap (content file ph) addr)
  ];
  others = λ va w h.
      let out : within (v + 4096) to va ≡ false = ground arith in
      let away : (va / 4096 == v / 4096) ≡ false = ground arith in
      rest.others va w out ∙ one.seen va w ∙ rw away refl;
  old_bytes = λ a u. rest.old_bytes a (one.keeps (a / 4096) u) ∙ one.others a (λ e. ground arith);
}

-- the loop over no page
no_page :
    (file : Bytes) (ph : Phdr) (v to : ℕ) (s : Loader)
    → to ≤ v
    → IsPaged s.paging
    → SegmentIn file ph v to s s
unfolding within
no_page file ph v to s le paged = record {
  paged = paged;
  keeps = λ q u. u;
  shown = λ va h. absurd (ground arith);
  others = λ va w h. refl;
  old_bytes = λ a u. refl;
}

pub load_pages-SegmentIn :
    (file : Bytes) (ph : Phdr) (left i vstart : ℕ) (s : Loader)
    → IsPlain ph
    → vstart % 4096 ≡ 0
    → vstart + (i + left) * 4096 < 2 ^ 32
    → IsPaged s.paging
    → (load_pages file ph left i vstart s).0 ≡ true
    → SegmentIn file ph
        (vstart + i * 4096)
        (vstart + (i + left) * 4096)
        s
        (load_pages file ph left i vstart s).2
unfolding load_pages
load_pages-SegmentIn file ph zero i vstart s plain aligned room paged h =
    no_page file ph (vstart + i * 4096) (vstart + (i + 0) * 4096) s (omega arith) paged
load_pages-SegmentIn file ph (suc left) i vstart s plain aligned room paged h =
    let v = vstart + i * 4096 in
    let wrap : (vstart + i * 4096) % 2 ^ 32 ≡ v = omega arith in
    let next : vstart + (i + 1) * 4096 ≡ v + 4096 = omega arith in
    let top : vstart + (i + 1 + left) * 4096 ≡ vstart + (i + suc left) * 4096 = omega arith in
    elim (Bool-cases (load_page file ph v s).0) [
      | inl ok ↦
          let one = load_page-PageIn file ph v s plain (omega arith) paged ok in
          let rest =
            load_pages-SegmentIn file ph left (i + 1) vstart (load_page file ph v s).1 plain aligned
              (omega arith) one.1.paged (rw (wrap, ok) at h) in
          rw (wrap, ok)
            (one_more file ph v (vstart + (i + suc left) * 4096) one.0 s _ _ (omega arith)
              (omega arith) room one.1 (rw (next, top) at rest))
      | inr bad ↦ absurd (let q = rw (wrap, bad) at h in ground arith)
    ]

-- a loop that ends with 0 has counted every page
load_pages-count :
    (file : Bytes) (ph : Phdr) (left i vstart : ℕ) (s : Loader)
    → (load_pages file ph left i vstart s).0 ≡ true
    → (load_pages file ph left i vstart s).1 ≡ i + left
unfolding load_pages
load_pages-count file ph zero i vstart s h = omega arith
load_pages-count file ph (suc left) i vstart s h =
    elim (Bool-cases (load_page file ph ((vstart + i * 4096) % 2 ^ 32) s).0) [
      | inl ok ↦ rw ok (load_pages-count file ph left (i + 1) vstart _ (rw ok at h) ∙ omega arith)
      | inr bad ↦ absurd (let q = rw bad at h in ground arith)
    ]

page_down-eq : (x : ℕ) → x < 2 ^ 32 → page_down x ≡ x / 4096 * 4096
unfolding frame_of
page_down-eq x small = frame_of-eq x ∙ omega arith

-- where the pages of a segment end
unfoldable pub seg_end : Phdr → ℕ
seg_end ph = (ph.p_vaddr + ph.p_memsz + 4095) / 4096 * 4096

pub page_up-eq :
    (ph : Phdr)
    → ph.p_vaddr + ph.p_memsz + 4095 < 2 ^ 32
    → page_up ((ph.p_vaddr + ph.p_memsz) % 2 ^ 32) ≡ seg_end ph
unfolding seg_end
page_up-eq ph small =
    page_down-eq (((ph.p_vaddr + ph.p_memsz) % 2 ^ 32 + 0xFFF) % 2 ^ 32) (omega arith) ∙ omega arith

-- the images are no part of what is mapped
set_image-SegmentIn :
    (file : Bytes) (ph : Phdr) (from to img : ℕ) (image : UserImage) (s s' : Loader)
    → SegmentIn file ph from to s s'
    → SegmentIn file ph from to s (set_image img image s')
unfolding set_image
set_image-SegmentIn file ph from to img image s s' h = record {
  paged = h.paged;
  keeps = h.keeps;
  shown = h.shown;
  others = h.others;
  old_bytes = h.old_bytes;
}

-- the page on which a segment begins
unfoldable pub seg_start : Phdr → ℕ
seg_start ph = ph.p_vaddr / 4096 * 4096

pub page_down-start : (ph : Phdr) → ph.p_vaddr < 2 ^ 32 → page_down ph.p_vaddr ≡ seg_start ph
unfolding seg_start
page_down-start ph small = page_down-eq ph.p_vaddr small

-- the pages of a segment that `load_segment` has checked
loop_of :
    (file : Bytes) (ph : Phdr) (s : Loader)
    → IsPlain ph
    → ph.p_vaddr + ph.p_memsz + 4095 < 2 ^ 32
    → seg_start ph < seg_end ph
    → IsPaged s.paging
    → (load_pages file ph ((seg_end ph - seg_start ph) / 4096) 0 (seg_start ph) s).0 ≡ true
    → SegmentIn file ph
        (seg_start ph)
        (seg_end ph)
        s
        (load_pages file ph ((seg_end ph - seg_start ph) / 4096) 0 (seg_start ph) s).2
unfolding seg_start seg_end
loop_of file ph s plain room lt paged h =
    let n = (seg_end ph - seg_start ph) / 4096 in
    let top : seg_start ph + (0 + n) * 4096 ≡ seg_end ph = omega arith in
    let from : seg_start ph + 0 * 4096 ≡ seg_start ph = omega arith in
    rw (from, top) at
      (load_pages-SegmentIn file ph n 0 (seg_start ph) s plain (omega arith) (omega arith) paged h)

-- `load_segment` that returns 0, on a segment that does not wrap around
pub load_segment-SegmentIn :
    (file : Bytes) (ph : Phdr) (img : ℕ) (s : Loader)
    → IsPlain ph
    → ph.p_vaddr + ph.p_memsz + 4095 < 2 ^ 32
    → IsPaged s.paging
    → (load_segment file ph img s).0 ≡ true
    → SegmentIn file ph (seg_start ph) (seg_end ph) s (load_segment file ph img s).1
      × (((load_segment file ph img s).1.images img).segs
          ≡ (s.images img).segs
            ++ (record { vaddr = seg_start ph; pages = (seg_end ph - seg_start ph) / 4096 } ∷ []))
unfolding load_segment set_image
load_segment-SegmentIn file ph img s plain room paged h =
    let down = page_down-start ph (omega arith) in
    let up = page_up-eq ph room in
    let n = (seg_end ph - seg_start ph) / 4096 in
    let loop = load_pages file ph n 0 (seg_start ph) s in
    elim (Bool-cases (leb max_user_segments (length (s.images img).segs))) [
      | inl full ↦ absurd (let q = rw full at h in ground arith)
      | inr fits ↦ elim (Bool-cases (leb (seg_end ph) (seg_start ph))) [
        | inl empty ↦ absurd (let q = rw (fits, down, up, empty) at h in ground arith)
        | inr some_pages ↦
            let ok : loop.0 ≡ true = rw (fits, down, up, some_pages) at h in
            rw (fits, down, up, some_pages)
              (
                set_image-SegmentIn file ph (seg_start ph) (seg_end ph) img _ s loop.2
                    (loop_of file ph s plain room (ground arith) paged ok),
                rw (eq_== img img refl) (
                    ap
                      (λ k.
                        (s.images img).segs ++ (record { vaddr = seg_start ph; pages = k } ∷ []))
                      (load_pages-count file ph n 0 (seg_start ph) s ok ∙ omega arith)),
              )
      ]
    ]
