-- ===== src/Paging/Tests.antt =====
-- Runs of the theorems of paging: a table of the kernel's at 0x9000, in a memory
-- with free pages below 4 MB.
use osver.Prelude.{◌≡◌, ◌/◌, ◌%◌, ◌+◌, ◌==◌, ◌&&◌, ltb, if◌then◌else◌, refl, true, false, arith}
use osver.Pmm.{Pmm, page_is_free}
use osver.Paging.{Paging, vmm_get_phys, vmm_map, vmm_unmap, paging_init, unmapped}
use osver.Paging.Slot.{IsPaged}
use osver.Paging.Low.{IsLow, StaysLow, paging_init-IsLow, vmm_map-mapping, vmm_unmap-mapping}
use osver.Paging.Init.{vmm_get_phys-paging_init}

-- of the first 1024 pages, 16 to 31 are free
abbrev pub memory : Pmm
memory = record {
  bitmap = λ w. if w == 0 then 0xFFFF else if ltb w 32 then 0xFFFFFFFF else 0;
  free_count = 1047568;
  total_count = 1048576;
}

abbrev pub blank : Paging
blank = record { page_directory = λ d. 0; word = λ a. 0; pmm = memory; faulted = false }

abbrev pub booted : Paging
booted = paging_init 0x9000 blank

abbrev table_busy : page_is_free (0x9000 / 4096) memory ≡ false
unfolding page_is_free
table_busy = refl

vmm_get_phys-paging_init_example :
    IsPaged booted
    × (vmm_get_phys 0x1234 booted ≡ (if ltb 0x1234 (0x400000) then 0x1234 else unmapped))
vmm_get_phys-paging_init_example =
    vmm_get_phys-paging_init 0x9000 blank (omega arith) (omega arith) (omega arith) table_busy
      0x1234 (omega arith)

pub booted-IsPaged : IsPaged booted
booted-IsPaged =
    (vmm_get_phys-paging_init 0x9000 blank (omega arith) (omega arith) (omega arith) table_busy 0
      (omega arith)).0

pub booted-IsLow : IsLow booted
booted-IsLow = paging_init-IsLow 0x9000 blank (omega arith) (omega arith) (omega arith) table_busy

page_16_free : page_is_free 16 memory ≡ true
unfolding page_is_free
page_16_free = refl

vmm_map-mapping_example :
    IsPaged (vmm_map 0x40000000 0x500000 2 booted).1
    × StaysLow booted (vmm_map 0x40000000 0x500000 2 booted).1
    × (vmm_get_phys 0x40000ABC (vmm_map 0x40000000 0x500000 2 booted).1 ≡ (
        if (vmm_map 0x40000000 0x500000 2 booted).0 && (0x40000ABC / 4096 == 0x40000000 / 4096)
        then 0x500000 + 0x40000ABC % 4096
        else vmm_get_phys 0x40000ABC booted))
unfolding paging_init
vmm_map-mapping_example =
    vmm_map-mapping 0x40000000 0x500000 2 0x40000ABC 16 booted booted-IsPaged booted-IsLow
      (omega arith) (omega arith) (omega arith) (omega arith) (omega arith) page_16_free

-- the table is there, the page is taken out again
abbrev mapped_once : Paging
mapped_once = (vmm_map 0x40000000 0x500000 2 booted).1

vmm_unmap-mapping_example :
    IsPaged (vmm_unmap 0x40000000 mapped_once)
    × StaysLow mapped_once (vmm_unmap 0x40000000 mapped_once)
    × (vmm_get_phys 0x40000ABC (vmm_unmap 0x40000000 mapped_once) ≡ (
        if 0x40000ABC / 4096 == 0x40000000 / 4096
        then unmapped
        else vmm_get_phys 0x40000ABC mapped_once))
vmm_unmap-mapping_example =
    vmm_unmap-mapping 0x40000000 0x40000ABC mapped_once vmm_map-mapping_example.0
      vmm_map-mapping_example.1.low (omega arith) (omega arith) (omega arith)
