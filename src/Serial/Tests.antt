-- ===== src/Serial/Tests.antt =====
-- A run of the theorem of the serial console: three bytes, to a device that is ready at every fourth read.
use osver.Prelude.{ℕ, ◌+◌, ◌-◌, ◌%◌, ◌≡◌, refl, true, [], ◌∷◌, ◌==◌, if◌then◌else◌, arith}
use osver.Serial.{Serial, serial_puts}
use osver.Serial.Lines.{Answers, Sent, crlf, serial_puts-Sent}

abbrev pub status : ℕ → ℕ
status n = if n % 4 == 3 then 0x60 else 0

abbrev pub console : Serial
console = record { initialized = true; reads = 0; writes = [] }

pub answers : Answers status 4
unfolding Answers
answers n =
    let e : ((n + (3 - n % 4)) % 4 == 3) ≡ true = ground arith in
    (3 - n % 4, omega arith, rw e refl)

serial_puts-Sent_example :
    Sent
      (crlf (b'o' ∷ b'k' ∷ 10 ∷ []))
      console
      (serial_puts status 4 (b'o' ∷ b'k' ∷ 10 ∷ []) console)
serial_puts-Sent_example = serial_puts-Sent status 4 (b'o' ∷ b'k' ∷ 10 ∷ []) console answers
