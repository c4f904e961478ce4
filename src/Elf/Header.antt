-- ===== src/Elf/Header.antt =====
-- The headers of an ELF file, read at their offsets, and the check of the first.
use osver.Prelude.{ℕ, ◌+◌, ◌*◌, ◌%◌, ◌^◌, Bool, not, ◌&&◌, ◌==◌, ltb}
use osver.Ata.{Bytes}
use osver.Fat32.State.{get16, get32}

-- `elf32_ehdr_t`, 52 bytes: the fields that the code reads
pub record Ehdr : Type 0 where
  pub e_ident : ℕ → ℕ
  pub e_type : ℕ
  pub e_machine : ℕ
  pub e_entry : ℕ
  pub e_phoff : ℕ
  pub e_phentsize : ℕ
  pub e_phnum : ℕ

-- `elf32_phdr_t`, 32 bytes
pub record Phdr : Type 0 where
  pub p_type : ℕ
  pub p_offset : ℕ
  pub p_vaddr : ℕ
  pub p_filesz : ℕ
  pub p_memsz : ℕ

unfoldable pub read_ehdr : Bytes → Ehdr
read_ehdr b = record {
  e_ident = b;
  e_type = get16 b 16;
  e_machine = get16 b 18;
  e_entry = get32 b 24;
  e_phoff = get32 b 28;
  e_phentsize = get16 b 42;
  e_phnum = get16 b 44;
}

unfoldable pub read_phdr : Bytes → ℕ → Phdr
read_phdr b at = record {
  p_type = get32 b at;
  p_offset = get32 b (at + 4);
  p_vaddr = get32 b (at + 8);
  p_filesz = get32 b (at + 16);
  p_memsz = get32 b (at + 20);
}

unfoldable pub validate_ehdr : Ehdr → ℕ → Bool
validate_ehdr eh file_size =
    not (ltb file_size 52)
    && (eh.e_ident 0 == 0x7F)
    && (eh.e_ident 1 == b'E')
    && (eh.e_ident 2 == b'L')
    && (eh.e_ident 3 == b'F')
    && (eh.e_ident 4 == 1)
    && (eh.e_ident 5 == 1)
    && (eh.e_machine == 3)
    && (eh.e_type == 2)
    && (eh.e_phentsize == 32)
    && not (ltb file_size ((eh.e_phoff + eh.e_phnum * 32) % 2 ^ 32))
