-- ===== src/Serial.antt =====
-- The serial console of src/drivers/serial.c: COM1 with polled output. What the device answers to the
-- successive reads of its line status is a parameter, `status`.
pub mod Lines
pub mod Tests
use osver.Prelude.{
  ℕ, zero, suc, ◌+◌, ◌%◌, ◌^◌, Bool, true, false, not, Option, some, none, List, [], ◌∷◌, ◌++◌,
  ◌==◌, if◌then◌else◌, bit_and,
}

abbrev pub com1_base : ℕ
com1_base = 0x3F8

abbrev pub com1_data : ℕ
com1_data = com1_base + 0

abbrev pub com1_ier : ℕ
com1_ier = com1_base + 1

abbrev pub com1_dll : ℕ
com1_dll = com1_base + 0

abbrev pub com1_dlm : ℕ
com1_dlm = com1_base + 1

abbrev pub com1_fcr : ℕ
com1_fcr = com1_base + 2

abbrev pub com1_lcr : ℕ
com1_lcr = com1_base + 3

abbrev pub com1_mcr : ℕ
com1_mcr = com1_base + 4

abbrev pub lsr_thr_empty : ℕ
lsr_thr_empty = 0x20

-- `g_initialized`, how many status reads there were, and all writes, each with its port
pub record Serial : Type 0 where
  pub initialized : Bool
  pub reads : ℕ
  pub writes : List (ℕ × ℕ)

unfoldable pub outb : ℕ → ℕ → Serial → Serial
outb port v s = record s { writes = s.writes ++ ((port, v % 2 ^ 8) ∷ []) }

unfoldable pub serial_init : Serial → Serial
unfolding outb
serial_init s =
    let s1 = outb com1_ier 0x00 s in
    let s2 = outb com1_lcr 0x80 s1 in
    let s3 = outb com1_dlm 0x00 (outb com1_dll 0x01 s2) in
    let s4 = outb com1_lcr 0x03 s3 in
    let s5 = outb com1_fcr 0xC7 s4 in record (outb com1_mcr 0x0B s5) { initialized = true }

unfoldable pub serial_is_ready : Serial → Bool
serial_is_ready s = s.initialized

-- The loops run on fuel; `none` is a loop that has not ended.
module _ (status : ℕ → ℕ) where
  unfoldable pub wait_tx_empty : ℕ → Serial → Option Serial
  wait_tx_empty zero s = none
  wait_tx_empty (suc fuel) s =
      let s1 = record s { reads = s.reads + 1 } in
      let rest = wait_tx_empty fuel s1 in
      if bit_and (status s.reads) lsr_thr_empty == 0 then rest else some s1

  -- one byte, when the transmitter is empty
  unfoldable pub send : ℕ → ℕ → Serial → Option Serial
  unfolding outb
  send fuel c s = elim (wait_tx_empty fuel s) [ none ↦ none | some s1 ↦ some (outb com1_data c s1) ]

  unfoldable pub serial_putc : ℕ → ℕ → Serial → Option Serial
  unfolding send
  serial_putc fuel c s =
      if not s.initialized
      then some s
      else if c == 10
      then elim (send fuel 13 s) [ none ↦ none | some s1 ↦ send fuel c s1 ]
      else send fuel c s

  unfoldable pub serial_puts : ℕ → List ℕ → Serial → Option Serial
  unfolding serial_putc
  serial_puts fuel [] s = some s
  serial_puts fuel (c ∷ cs) s = elim (serial_putc fuel c s) [
    | none ↦ none
    | some s1 ↦ serial_puts fuel cs s1
  ]
