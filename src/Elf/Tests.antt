-- ===== src/Elf/Tests.antt =====
-- A run of the loader on a segment of two pages: 16 bytes of a file at 0x40000100, then zeros.
use osver.Prelude.{◌≡◌, ◌-◌, ◌/◌, ◌%◌, refl, true, false, arith, [], ◌∷◌, ◌++◌}
use osver.Ata.{Bytes}
use osver.Paging.Tests.{booted, booted-IsPaged, booted-IsLow}
use osver.Elf.Header.{Phdr}
use osver.Elf.{Loader, load_segment, load_pages, load_page, fill_page}
use osver.Elf.Load.{IsPlain}
use osver.Elf.Low.{LoadsLow, load_segment-loaded}
use osver.Elf.Segment.{SegmentIn, seg_start, seg_end}
use osver.Pmm.{pmm_alloc, scan_words, scan_bits, page_is_free, take_page, page_set_used}
use osver.Paging.{
  vmm_map, get_pt, paging_init, is_present, page_dir_index, make_pt, set_entry, frame_of,
}

abbrev file : Bytes
file = λ i. i % 256

abbrev header : Phdr
header = record {
  p_type = 1;
  p_offset = 128;
  p_vaddr = 0x40000100;
  p_filesz = 16;
  p_memsz = 0x1800;
}

abbrev pub start : Loader
start = record {
  heap = record {
    head = 0;
    mem = λ a. record { magic = 0; size = 0; used = 0; prev = 0; next = 0 };
    bytes = λ a. 7;
  };
  paging = booted;
  bytes = λ a. 7;
  images = λ a. record { segs = []; entry = 0 };
  faulted = false;
}

plain : IsPlain header
plain = record { in_memory = omega arith; in_file = omega arith }

loaded : (load_segment file header 0x8010 start).0 ≡ true
unfolding load_segment load_pages load_page fill_page pmm_alloc vmm_map get_pt scan_words
    paging_init scan_bits page_is_free is_present page_dir_index make_pt take_page page_set_used
    set_entry frame_of
loaded = refl

-- page 31, behind the table and the two pages
still_free : page_is_free 31 (load_segment file header 0x8010 start).1.paging.pmm ≡ true
unfolding load_segment load_pages load_page fill_page pmm_alloc vmm_map get_pt scan_words
    paging_init scan_bits page_is_free is_present page_dir_index make_pt take_page page_set_used
    set_entry frame_of
still_free = refl

load_segment-loaded_example :
    LoadsLow start (load_segment file header 0x8010 start).1
    × SegmentIn file header
        (seg_start header)
        (seg_end header)
        start
        (load_segment file header 0x8010 start).1
    × (((load_segment file header 0x8010 start).1.images 0x8010).segs
        ≡ (start.images 0x8010).segs
          ++ (record {
            vaddr = seg_start header;
            pages = (seg_end header - seg_start header) / 4096;
          }
              ∷ []))
unfolding seg_start
load_segment-loaded_example =
    load_segment-loaded file header 0x8010 31 start plain (omega arith) (omega arith) booted-IsPaged
      booted-IsLow loaded (omega arith) still_free
