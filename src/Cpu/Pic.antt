-- ===== src/Cpu/Pic.antt =====
-- The interrupt controllers of src/cpu/pic.c. A port answers a read with what was written to it last, as the
-- mask registers at the data ports do once the controllers are initialised.
pub mod Masks
use osver.Prelude.{
  ℕ, zero, ◌+◌, ◌-◌, ◌%◌, ◌^◌, Bool, List, [], ◌∷◌, ◌++◌, ltb, leb, ◌==◌, if◌then◌else◌, bit_and,
  bit_or,
}
use osver.Bits.{bit_not, shl}

abbrev pub pic1_cmd : ℕ
pic1_cmd = 0x20

abbrev pub pic1_data : ℕ
pic1_data = 0x21

abbrev pub pic2_cmd : ℕ
pic2_cmd = 0xA0

abbrev pub pic2_data : ℕ
pic2_data = 0xA1

abbrev pub pic_eoi : ℕ
pic_eoi = 0x20

-- what a read of a port gives, and all writes, each with its port
pub record Ports : Type 0 where
  pub last : ℕ → ℕ
  pub writes : List (ℕ × ℕ)

unfoldable pub outb : ℕ → ℕ → Ports → Ports
outb port v s = record {
  last = λ p. if p == port then v else s.last p;
  writes = s.writes ++ ((port, v) ∷ []);
}

unfoldable pub inb : ℕ → Ports → ℕ
inb port s = s.last port

unfoldable pub io_wait : Ports → Ports
unfolding outb
io_wait s = outb 0x80 0 s

-- a write and the delay behind it
unfoldable pub out_wait : ℕ → ℕ → Ports → Ports
unfolding outb io_wait
out_wait port v s = io_wait (outb port v s)

unfoldable pub pic_init : Ports → Ports
unfolding out_wait outb
pic_init s =
    let s1 = out_wait pic2_cmd 0x11 (out_wait pic1_cmd 0x11 s) in
    let s2 = out_wait pic2_data 0x28 (out_wait pic1_data 0x20 s1) in
    let s3 = out_wait pic2_data 0x02 (out_wait pic1_data 0x04 s2) in
    let s4 = out_wait pic2_data 0x01 (out_wait pic1_data 0x01 s3) in
    outb pic2_data 0x00 (outb pic1_data 0x00 s4)

unfoldable pub pic_send_eoi : ℕ → Ports → Ports
unfolding outb
pic_send_eoi irq s =
    let s1 = if leb 8 irq then outb pic2_cmd pic_eoi s else s in outb pic1_cmd pic_eoi s1

-- the mask register of an interrupt, and its bit there
unfoldable pub mask_port : ℕ → ℕ
mask_port irq = if ltb irq 8 then pic1_data else pic2_data

unfoldable pub mask_bit : ℕ → ℕ
mask_bit irq = if ltb irq 8 then irq else (irq + 2 ^ 8 - 8) % 2 ^ 8

unfoldable pub pic_mask_irq : ℕ → Ports → Ports
unfolding outb inb
pic_mask_irq irq s =
    let port = mask_port irq in outb port (bit_or (inb port s) (shl 1 (mask_bit irq)) % 2 ^ 8) s

unfoldable pub pic_unmask_irq : ℕ → Ports → Ports
unfolding outb inb
pic_unmask_irq irq s =
    let port = mask_port irq in
    outb port (bit_and (inb port s) (bit_not (shl 1 (mask_bit irq))) % 2 ^ 8) s
