-- ===== src/Elf/Load.antt =====
-- What the loop that loads a segment leaves in memory.
use osver.Prelude.{
  ℕ, ◌+◌, ◌-◌, ◌*◌, ◌%◌, ◌/◌, ◌^◌, ◌<◌, ◌≤◌, ◌≡◌, ◌≢◌, refl, ap, ◌∙◌, Bool, true, false, not, ◌&&◌,
  ◌||◌, ◌==◌, if◌then◌else◌, ltb, leb, arith, Bool-cases, ◌⊎◌, inl, inr,
}
use osver.Ata.{Bytes}
use osver.Pmm.{Pmm, page_is_free, pmm_alloc, pmm_free, take_page, total_pages, page_size}
use osver.Pmm.Page.{page_is_free-take}
use osver.Pmm.Alloc.{Allocated, page, exhausted}
use osver.Paging.{Paging, translate, vmm_map, vmm_get_phys}
use osver.Paging.Slot.{IsPaged}
use osver.Paging.Map.{
  KeepsPages, Same, more_used, more-Same, vmm_get_phys-vmm_map, vmm_map-KeepsPages,
}
use osver.Elf.Header.{Phdr}
use osver.Elf.{Loader, larger, smaller, uimemset, uimemcpy, fill_page, load_page}

-- what the program sees at an address of the segment: the file's byte, or zero behind them
pub content : Bytes → Phdr → ℕ → ℕ
content file ph va =
    if leb ph.p_vaddr va && ltb va (ph.p_vaddr + ph.p_filesz)
    then file (ph.p_offset + (va - ph.p_vaddr))
    else 0

-- The file's part does not wrap around, in the file or in memory.
pub record IsPlain (ph : Phdr) : Type 0 where
  pub in_memory : ph.p_vaddr + ph.p_filesz < 2 ^ 32
  pub in_file : ph.p_offset + ph.p_filesz < 2 ^ 32

-- a page with the bytes from `lo` up to `hi` copied into it
copied :
    (file b : Bytes) (phy v off lo hi from : ℕ)
    → v ≤ lo
    → hi ≤ v + 4096
    → off < 4096
    → (if ltb lo hi
          then uimemcpy (phy + (lo - v)) file from (hi - lo) (uimemset phy 0 0x1000 b)
          else uimemset phy 0 0x1000 b)
        (phy + off)
      ≡ (if leb lo (v + off) && ltb (v + off) hi then file (from + (v + off - lo)) else 0)
unfolding uimemset uimemcpy
copied file b phy v off lo hi from low high lt = elim (Bool-cases (ltb lo hi)) [
  | inl some_bytes ↦ rw some_bytes (elim (Bool-cases (leb lo (v + off) && ltb (v + off) hi)) [
    | inl inside ↦
        let at : phy + off - (phy + (lo - v)) ≡ v + off - lo = ground arith in ground arith
    | inr outside ↦ ground arith
  ])
  | inr none_there ↦ ground arith
]

-- the part of the page that is copied holds the file's bytes
part_of :
    (file : Bytes) (ph : Phdr) (v off : ℕ)
    → IsPlain ph
    → v + 4096 < 2 ^ 32
    → off < 4096
    → let lo = larger v ph.p_vaddr in
      let hi = smaller (v + 0x1000) (ph.p_vaddr + ph.p_filesz) in
      ◌≡◌ {A = ℕ}
        (if leb lo (v + off) && ltb (v + off) hi
          then file ((ph.p_offset + (lo - ph.p_vaddr)) % 2 ^ 32 + (v + off - lo))
          else 0)
        (content file ph (v + off))
unfolding content
part_of file ph v off plain room lt =
    let lo = larger v ph.p_vaddr in
    let hi = smaller (v + 0x1000) (ph.p_vaddr + ph.p_filesz) in
    let test : (leb lo (v + off) && ltb (v + off) hi)
        ≡ (leb ph.p_vaddr (v + off) && ltb (v + off) (ph.p_vaddr + ph.p_filesz)) =
      ground arith in
    elim (Bool-cases (leb ph.p_vaddr (v + off) && ltb (v + off) (ph.p_vaddr + ph.p_filesz))) [
      | inl t ↦
          let at : (ph.p_offset + (lo - ph.p_vaddr)) % 2 ^ 32 + (v + off - lo)
              ≡ ph.p_offset + (v + off - ph.p_vaddr) =
            ground arith in
          rw (test, t) (ap file at)
      | inr f ↦ rw (test, f) refl
    ]

fill_page-inside :
    (file : Bytes) (ph : Phdr) (v phy off : ℕ) (b : Bytes)
    → IsPlain ph
    → v + 4096 < 2 ^ 32
    → off < 4096
    → fill_page file ph v phy b (phy + off) ≡ content file ph (v + off)
unfolding fill_page content
fill_page-inside file ph v phy off b plain room lt =
    let end : (ph.p_vaddr + ph.p_filesz) % 2 ^ 32 ≡ ph.p_vaddr + ph.p_filesz = omega arith in
    let top : (v + 0x1000) % 2 ^ 32 ≡ v + 0x1000 = omega arith in
    let lo = larger v ph.p_vaddr in
    let hi = smaller (v + 0x1000) (ph.p_vaddr + ph.p_filesz) in
    rw (end, top)
      (copied file b phy v off lo hi ((ph.p_offset + (lo - ph.p_vaddr)) % 2 ^ 32) (ground arith)
          (ground arith) lt
        ∙ part_of file ph v off plain room lt)

fill_page-outside :
    (file : Bytes) (ph : Phdr) (v phy a : ℕ) (b : Bytes)
    → v + 4096 < 2 ^ 32
    → a < phy ⊎ (phy + 4096 ≤ a)
    → fill_page file ph v phy b a ≡ b a
unfolding fill_page uimemset uimemcpy
fill_page-outside file ph v phy a b room (inl h) = ground arith
fill_page-outside file ph v phy a b room (inr h) = ground arith

-- A page has been loaded at `v`: its frame `p` was free and is now in use.
pub record PageIn (file : Bytes) (ph : Phdr) (v : ℕ) (s s' : Loader) (p : ℕ) : Type 0 where
  pub paged : IsPaged s'.paging
  pub keeps : KeepsPages s.paging s'.paging
  pub was_free : page_is_free p s.paging.pmm ≡ true
  pub is_used : page_is_free p s'.paging.pmm ≡ false
  pub seen :
      (w : ℕ)
      → w < 2 ^ 32
      → vmm_get_phys w s'.paging
        ≡ (if w / 4096 == v / 4096 then p * 4096 + w % 4096 else vmm_get_phys w s.paging)
  pub filled : (off : ℕ) → off < 4096 → s'.bytes (p * 4096 + off) ≡ content file ph (v + off)
  pub others : (a : ℕ) → a / 4096 ≢ p → s'.bytes a ≡ s.bytes a

-- the rest of `load_page`, given what `pmm_alloc` and `vmm_map` returned
unfoldable pub map_page : Bytes → Phdr → ℕ → Loader → ℕ × Pmm → Bool × Loader
map_page file ph v s r =
    let s1 = record s { paging = record s.paging { pmm = r.1 } } in
    let mp = vmm_map v r.0 6 s1.paging in
    if r.0 == 0
    then (false, s1)
    else if mp.0
    then (
      true,
      record s1 {
        paging = mp.1;
        bytes = fill_page file ph v r.0 s1.bytes;
        faulted = s1.faulted || not (translate r.0 mp.1 == r.0);
      },
    )
    else (false, record s1 { paging = record mp.1 { pmm = pmm_free r.0 mp.1.pmm } })

pub load_page-map_page :
    (file : Bytes) (ph : Phdr) (v : ℕ) (s : Loader)
    → load_page file ph v s ≡ map_page file ph v s (pmm_alloc s.paging.pmm)
unfolding load_page map_page
load_page-map_page file ph v s = refl

pub used_after :
    (p q : ℕ) (m : Pmm) → page_is_free q m ≡ false → page_is_free q (take_page p m) ≡ false
used_after p q m h = let e = page_is_free-take p q m in ground arith

used_now : (p : ℕ) (m : Pmm) → page_is_free p (take_page p m) ≡ false
used_now p m = let e = page_is_free-take p p m in ground arith

module _ (file : Bytes) (ph : Phdr) (v : ℕ) (s : Loader) (p : ℕ) (plain : IsPlain ph)
    (room : v + 4096 < 2 ^ 32) (paged : IsPaged s.paging) (lt : p < total_pages)
    (free : page_is_free p s.paging.pmm ≡ true) where
  taken : Paging
  taken = record s.paging { pmm = take_page p s.paging.pmm }

  result : Bool × Paging
  result = vmm_map v (p * 4096) 6 taken

  taken-IsPaged : IsPaged taken
  unfolding taken
  taken-IsPaged =
      more_used s.paging (take_page p s.paging.pmm) paged (λ q h. used_after p q s.paging.pmm h)

  taken-kept : KeepsPages taken result.1
  unfolding result
  taken-kept = vmm_map-KeepsPages v (p * 4096) 6 taken taken-IsPaged (omega arith)

  seen_after :
      result.0 ≡ true
      → (w : ℕ) → w < 2 ^ 32
      → vmm_get_phys w result.1
        ≡ (if w / 4096 == v / 4096 then p * 4096 + w % 4096 else vmm_get_phys w s.paging)
  unfolding result Same taken
  seen_after ok w ww =
      let m =
        vmm_get_phys-vmm_map v (p * 4096) 6 w taken taken-IsPaged (omega arith) (omega arith) ww in
      let old = more-Same s.paging (take_page p s.paging.pmm) paged w ww in
      m.1 ∙ rw ok (ap (λ x. if w / 4096 == v / 4096 then p * 4096 + w % 4096 else x) old)

  mapped_page :
      result.0 ≡ true
      → PageIn file ph v s
          (record s {
            paging = result.1;
            bytes = fill_page file ph v (p * 4096) s.bytes;
            faulted = s.faulted || not (translate (p * 4096) result.1 == p * 4096);
          })
          p
  unfolding KeepsPages taken result
  mapped_page ok = record {
    paged =
        (vmm_get_phys-vmm_map v (p * 4096) 6 0 taken taken-IsPaged (omega arith) (omega arith)
          (omega arith)).0;
    keeps = λ q u. taken-kept q (used_after p q s.paging.pmm u);
    was_free = free;
    is_used = taken-kept p (used_now p s.paging.pmm);
    seen = seen_after ok;
    filled = λ off small. fill_page-inside file ph v (p * 4096) off s.bytes plain room small;
    others = λ a ne. fill_page-outside file ph v (p * 4096) a s.bytes room (ground arith);
  }

pub map_page-PageIn :
    (file : Bytes) (ph : Phdr) (v : ℕ) (s : Loader) (r : ℕ × Pmm)
    → IsPlain ph
    → v + 4096 < 2 ^ 32
    → IsPaged s.paging
    → Allocated s.paging.pmm r
    → (map_page file ph v s r).0 ≡ true
    → (p : ℕ) × PageIn file ph v s (map_page file ph v s r).1 p
unfolding map_page result taken
map_page-PageIn file ph v s r plain room paged (exhausted full) h = absurd (ground arith)
map_page-PageIn file ph v s r plain room paged (page p lt free first) h =
    elim (Bool-cases (p * page_size == 0)) [
      | inl z ↦ absurd (let q = rw z at h in ground arith)
      | inr nz ↦ elim (Bool-cases (result file ph v s p plain room paged lt free).0) [
        | inl ok ↦ (p, rw (nz, ok) (mapped_page file ph v s p plain room paged lt free ok))
        | inr bad ↦ absurd (let q = rw (nz, bad) at h in ground arith)
      ]
    ]
