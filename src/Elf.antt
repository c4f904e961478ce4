-- ===== src/Elf.antt =====
-- The ELF loader of src/proc/elf.c and src/proc/elf.h: the check of the header, the loading of a
-- segment page by page, and the release of an image. The file is a buffer with a size. The code writes a
-- page that it has allocated through the virtual address that is its physical one. Where the
-- processor does not translate that address to itself, the state is marked as `faulted`.
pub mod Header
pub mod Load
pub mod Low
pub mod Segment
pub mod Tests
use osver.Prelude.{
  ℕ, zero, suc, ◌+◌, ◌-◌, ◌*◌, ◌%◌, ◌/◌, ◌^◌, Bool, true, false, not, ◌&&◌, ◌||◌, ◌==◌,
  if◌then◌else◌, ltb, leb, List, [], ◌∷◌, ◌++◌, length, bit_and, Option, some, none,
}
use osver.Ata.{Bytes}
use osver.Kheap.{Kheap, kmalloc, kfree}
use osver.Kheap
use osver.Pmm.{pmm_alloc, pmm_free}
use osver.Paging.{Paging, translate, vmm_map, vmm_unmap, vmm_get_phys, unmapped, page_rw, page_user}
use osver.Elf.Header.{Ehdr, Phdr, read_ehdr, read_phdr, validate_ehdr}

-- MAX_USER_SEGMENTS, and the size of `user_image_t`
abbrev pub max_user_segments : ℕ
max_user_segments = 8

abbrev pub sizeof_user_image : ℕ
sizeof_user_image = 72

-- `user_seg_t`
pub record UserSeg : Type 0 where
  pub vaddr : ℕ
  pub pages : ℕ

-- `user_image_t`, whose `seg_count` is the length of the list
pub record UserImage : Type 0 where
  pub segs : List UserSeg
  pub entry : ℕ

-- the heap, the mapped memory, the bytes of the pages, and the images by their addresses
pub record Loader : Type 0 where
  pub heap : Kheap
  pub paging : Paging
  pub bytes : Bytes
  pub images : ℕ → UserImage
  pub faulted : Bool

unfoldable pub uimemset : ℕ → ℕ → ℕ → Bytes → Bytes
uimemset dst v n b a = if leb dst a && ltb a (dst + n) then v % 256 else b a

-- from offset `from` of the file
unfoldable pub uimemcpy : ℕ → Bytes → ℕ → ℕ → Bytes → Bytes
uimemcpy dst file from n b a = if leb dst a && ltb a (dst + n) then file (from + (a - dst)) else b a

-- (x + 0xFFF) & ~0xFFF and x & ~0xFFF on 32 bits
abbrev pub page_up : ℕ → ℕ
page_up x = bit_and ((x + 0xFFF) % 2 ^ 32) 0xFFFFF000

abbrev pub page_down : ℕ → ℕ
page_down x = bit_and x 0xFFFFF000

-- the part of a page that the file fills, `lo` up to `hi`
abbrev pub larger : ℕ → ℕ → ℕ
larger a b = if ltb b a then a else b

abbrev pub smaller : ℕ → ℕ → ℕ
smaller a b = if ltb a b then a else b

-- one page at `v` with the frame `phy`: zeros, then what the file has of it. `load_page` marks the state
-- where the frame is not reached through its own address.
unfoldable pub fill_page : Bytes → Phdr → ℕ → ℕ → Bytes → Bytes
unfolding uimemset uimemcpy
fill_page file ph v phy b =
    let lo = larger v ph.p_vaddr in
    let hi = smaller ((v + 0x1000) % 2 ^ 32) ((ph.p_vaddr + ph.p_filesz) % 2 ^ 32) in
    let zeros = uimemset phy 0 0x1000 b in
    if ltb lo hi
    then uimemcpy (phy + (lo - v)) file ((ph.p_offset + (lo - ph.p_vaddr)) % 2 ^ 32) (hi - lo) zeros
    else zeros

-- a page is allocated, mapped at `v` and filled; `false`: the loop returns -1 in this state
unfoldable pub load_page : Bytes → Phdr → ℕ → Loader → Bool × Loader
unfolding fill_page
load_page file ph v s =
    let (phy, m) = pmm_alloc s.paging.pmm in
    let s1 = record s { paging = record s.paging { pmm = m } } in
    let (mapped, p) = vmm_map v phy 6 s1.paging in
    if phy == 0
    then (false, s1)
    else if mapped
    then (
      true,
      record s1 {
        paging = p;
        bytes = fill_page file ph v phy s1.bytes;
        faulted = s1.faulted || not (translate phy p == phy);
      },
    )
    else (false, record s1 { paging = record p { pmm = pmm_free phy p.pmm } })

-- The loop over the pages from `i` on. The result also has the value of `seg->pages`.
unfoldable pub load_pages : Bytes → Phdr → ℕ → ℕ → ℕ → Loader → Bool × ℕ × Loader
unfolding load_page
load_pages file ph zero i vstart s = (true, i, s)
load_pages file ph (suc left) i vstart s =
    let r = load_page file ph ((vstart + i * 0x1000) % 2 ^ 32) s in
    let rest = load_pages file ph left (i + 1) vstart r.1 in if r.0 then rest else (false, i, r.1)

unfoldable pub set_image : ℕ → UserImage → Loader → Loader
set_image p image s = record s { images = λ q. if q == p then image else s.images q }

-- on the image at an address; `true` is 0, `false` is -1
unfoldable pub load_segment : Bytes → Phdr → ℕ → Loader → Bool × Loader
unfolding load_pages set_image
load_segment file ph img s =
    let image = s.images img in
    let vstart = page_down ph.p_vaddr in
    let vend = page_up ((ph.p_vaddr + ph.p_memsz) % 2 ^ 32) in
    let r = load_pages file ph ((vend - vstart) / 0x1000) 0 vstart s in
    let seg : UserSeg = record { vaddr = vstart; pages = r.1 } in
    if leb max_user_segments (length image.segs)
    then (false, s)
    else if leb vend vstart
    then (false, s)
    else (r.0, set_image img (record image { segs = image.segs ++ (seg ∷ []) }) r.2)

-- the pages of a segment from `p` on
unfoldable pub unload_pages : ℕ → ℕ → ℕ → Paging → Paging
unload_pages zero p v s = s
unload_pages (suc left) p v s =
    let va = (v + p * 0x1000) % 2 ^ 32 in
    let pa = vmm_get_phys va s in
    let s1 = vmm_unmap va s in
    unload_pages left (p + 1) v
      (if pa == unmapped then s1 else record s1 { pmm = pmm_free (bit_and pa 0xFFFFF000) s1.pmm })

unfoldable pub unload_segs : List UserSeg → Paging → Paging
unfolding unload_pages
unload_segs [] s = s
unload_segs (seg ∷ segs) s = unload_segs segs (unload_pages seg.pages 0 seg.vaddr s)

-- How a call ends that uses the heap.
pub data Outcome (A : Type 0) : Type 0 where
  done : A → Loader → Outcome A
  halted : Outcome A
  out_of_fuel : Outcome A

abbrev pub on_heap : {A : Type 0} → (Kheap → Kheap.Run A) → Loader → Outcome A
on_heap f s = elim (f s.heap) [
  | Kheap.ok a h ↦ done a (record s { heap = h })
  | Kheap.halted ↦ halted
  | Kheap.out_of_fuel ↦ out_of_fuel
]

unfoldable pub elf_unload : ℕ → Loader → Outcome (Unit {0})
unfolding unload_segs
elf_unload image s =
    if image == 0
    then done tt s
    else on_heap (kfree image) (record s { paging = unload_segs (s.images image).segs s.paging })

-- the results of `elf_load`: an image, or a negative number
pub data Loaded : Type 0 where
  image_at : ℕ → Loaded
  error : ℕ → Loaded

-- elf_unload(img); return -code
abbrev pub fail_with : ℕ → ℕ → Loader → Outcome Loaded
fail_with code img s = elim (elf_unload img s) [
  | done u s1 ↦ done (error code) s1
  | halted ↦ halted
  | out_of_fuel ↦ out_of_fuel
]

-- the loop over the program headers from `i` on
unfoldable pub load_headers : Bytes → ℕ → ℕ → ℕ → ℕ → ℕ → Loader → Outcome Loaded
unfolding load_segment
load_headers file size phoff zero i img s = done (image_at img) s
load_headers file size phoff (suc left) i img s =
    let ph = read_phdr file (phoff + i * 32) in
    let r = load_segment file ph img s in
    let skip = load_headers file size phoff left (i + 1) img s in
    let rest = load_headers file size phoff left (i + 1) img r.1 in
    if not (ph.p_type == 1)
    then skip
    else if ph.p_memsz == 0
    then skip
    else if ltb size ((ph.p_offset + ph.p_filesz) % 2 ^ 32)
    then fail_with 4 img s
    else if r.0
    then rest
    else fail_with 5 img r.1

unfoldable pub elf_load : Bytes → ℕ → Loader → Outcome Loaded
unfolding load_headers set_image
elf_load file size s =
    let eh = read_ehdr file in
    if not (validate_ehdr eh size)
    then done (error 2) s
    else elim (on_heap (kmalloc sizeof_user_image) s) [
      | halted ↦ halted
      | out_of_fuel ↦ out_of_fuel
      | done img s1 ↦
          if img == 0
          then done (error 3) s1
          else load_headers file size eh.e_phoff eh.e_phnum 0 img
              (set_image img (record { segs = []; entry = eh.e_entry }) s1)
    ]
