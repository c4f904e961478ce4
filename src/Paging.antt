-- ===== src/Paging.antt =====
-- Paging of src/mem/paging.c and src/mem/paging.h: the page directory, the page tables, which are
-- pages of the memory manager, and the translation of addresses. Memory is a function from the
-- physical address of a 32-bit word to the word. The code reaches a table through the virtual address
-- that is its physical one. The processor translates it: where a write of an entry does not go to the same
-- address, the state is marked as `faulted` from there on.
-- The control registers and the flush of one address are outside; the handler of page faults is in
-- Interrupt.Handlers.
pub mod Entry
pub mod Init
pub mod Low
pub mod Map
pub mod Slot
pub mod Table
pub mod Tests
use osver.Prelude.{
  ℕ, ◌+◌, ◌-◌, ◌*◌, ◌%◌, ◌/◌, ◌^◌, Bool, true, false, not, ◌&&◌, ◌||◌, ◌==◌, if◌then◌else◌, ltb,
  leb, bit_and, bit_or,
}
use osver.Bits.{shr}
use osver.Pmm.{Pmm, pmm_alloc}

abbrev pub page_present : ℕ
page_present = 0x001

abbrev pub page_rw : ℕ
page_rw = 0x002

abbrev pub page_user : ℕ
page_user = 0x004

unfoldable pub page_dir_index : ℕ → ℕ
page_dir_index v = bit_and (shr v 22) 0x3FF

unfoldable pub page_tbl_index : ℕ → ℕ
page_tbl_index v = bit_and (shr v 12) 0x3FF

unfoldable pub page_offset : ℕ → ℕ
page_offset v = bit_and v 0xFFF

-- what `vmm_get_phys` returns for an address that is not mapped
abbrev pub unmapped : ℕ
unmapped = 0xFFFFFFFF

pub record Paging : Type 0 where
  pub page_directory : ℕ → ℕ
  pub word : ℕ → ℕ
  pub pmm : Pmm
  pub faulted : Bool

-- the word at an index of the table at `pt`
unfoldable pub entry_address : ℕ → ℕ → ℕ
entry_address pt i = pt + 4 * i

unfoldable pub is_present : ℕ → Bool
is_present entry = not (bit_and entry page_present == 0)

-- the address in an entry of the directory or of a table
unfoldable pub frame_of : ℕ → ℕ
frame_of entry = bit_and entry 0xFFFFF000

-- what the processor makes of an address
unfoldable pub translate : ℕ → Paging → ℕ
unfolding entry_address
translate v s =
    let pde = s.page_directory (page_dir_index v) in
    let pte = s.word (entry_address (frame_of pde) (page_tbl_index v)) in
    if not (is_present pde)
    then unmapped
    else if is_present pte
    then bit_or (frame_of pte) (page_offset v)
    else unmapped

-- `faulted` after a write to the physical address `a` through the same virtual address
unfoldable pub misses : ℕ → Paging → Bool
unfolding translate
misses a s = s.faulted || not (translate a s == a)

-- an entry of the table is written, through the address that is its physical one
unfoldable pub set_entry : ℕ → ℕ → ℕ → Paging → Paging
unfolding entry_address misses
set_entry pt i v s = record s {
  word = λ a. if a == entry_address pt i then v else s.word a;
  faulted = misses (entry_address pt i) s;
}

-- The 1024 entries of a new table, which is a page, so that one translation is that of all.
unfoldable pub clear_table : ℕ → Paging → Paging
unfolding misses
clear_table pt s = record s {
  word = λ a. if leb pt a && ltb a (pt + 4096) then 0 else s.word a;
  faulted = misses pt s;
}

unfoldable pub set_dir : ℕ → ℕ → Paging → Paging
set_dir i v s = record s { page_directory = λ d. if d == i then v else s.page_directory d }

-- `get_pt` where the directory has no table for the address and one is to be made; 0 is NULL
unfoldable pub make_pt : ℕ → Paging → ℕ × Paging
unfolding clear_table set_dir
make_pt virt s =
    let (pt, m) = pmm_alloc s.pmm in
    let s1 = record s { pmm = m } in
    if pt == 0 then (0, s1) else (
      pt,
      set_dir (page_dir_index virt) (bit_or (bit_or (bit_or pt page_present) page_rw) page_user)
          (clear_table pt s1),
    )

-- The result is the physical address of the table; the callers use it as a virtual one.
unfoldable pub get_pt : ℕ → Bool → Paging → ℕ × Paging
get_pt virt create s =
    let pde = s.page_directory (page_dir_index virt) in
    if is_present pde then (frame_of pde, s) else if not create then (0, s) else make_pt virt s

-- `true` is 0, `false` is -1.
unfoldable pub vmm_map : ℕ → ℕ → ℕ → Paging → Bool × Paging
vmm_map virt phys flags s =
    let (pt, s1) = get_pt virt true s in
    if not (bit_and (bit_or virt phys) 0xFFF == 0)
    then (false, s)
    else if pt == 0
    then (false, s1)
    else (
      true,
      set_entry pt (page_tbl_index virt)
          (bit_or (bit_or (frame_of phys) (bit_and flags 0xFFF)) page_present) s1,
    )

unfoldable pub vmm_unmap : ℕ → Paging → Paging
vmm_unmap virt s =
    let (pt, s1) = get_pt virt false s in
    if pt == 0 then s1 else set_entry pt (page_tbl_index virt) 0 s1

-- The entry is read at its physical address, which is what the code reads where the table is in reach
-- (`misses`); elsewhere the code faults.
unfoldable pub vmm_get_phys : ℕ → Paging → ℕ
vmm_get_phys virt s =
    let (pt, s1) = get_pt virt false s in
    let pte = s1.word (entry_address pt (page_tbl_index virt)) in
    if pt == 0
    then unmapped
    else if is_present pte
    then bit_or (frame_of pte) (page_offset virt)
    else unmapped

-- `paging_init`, where the linker has put the first table at an address
unfoldable pub paging_init : ℕ → Paging → Paging
paging_init first_page_table s = record s {
  page_directory = λ d.
      if d == 0
      then bit_or (bit_or (bit_or first_page_table page_rw) page_user) page_present
      else if ltb d 1024
      then 0
      else s.page_directory d;
  word = λ a.
      if leb first_page_table a && ltb a (first_page_table + 4096)
      then bit_or (bit_or (bit_or ((a - first_page_table) / 4 * 0x1000) page_rw) page_user)
          page_present
      else s.word a;
}
