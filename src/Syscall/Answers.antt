-- ===== src/Syscall/Answers.antt =====
-- What the calls that come back answer, and what they hand to the serial console.
use osver.Prelude.{
  ℕ, zero, suc, ◌+◌, ◌%◌, ◌^◌, ◌≡◌, Bool, not, ◌&&◌, ◌||◌, List, [], ◌∷◌, ◌++◌, ◌==◌, if◌then◌else◌,
}
use osver.Screen.{Screen}
use osver.Serial.{Serial}
use osver.Syscall.{Kernel, Registers, Answer, back}

-- the bytes of memory from an address on
pub bytes_at : ℕ → ℕ → (ℕ → ℕ) → List ℕ
bytes_at zero buf memory = []
bytes_at (suc n) buf memory = memory buf ∷ bytes_at n ((buf + 1) % 2 ^ 32) memory

-- whether a call is a write to an output of the task, with a buffer
pub is_output : Registers → Bool
is_output regs = (regs.eax == 1) && ((regs.ebx == 1) || (regs.ebx == 2)) && not (regs.ecx == 0)

-- A call that comes back: what it hands to `serial_putc`, and that a write answers its length.
pub Back : Bool → List ℕ → ℕ → Kernel → Answer → Type 0
Back out bytes n k r =
    (ret : ℕ) × (k' : Kernel) × (r ≡ back ret k')
    × (k'.screen.putc_calls ≡ (if out then k.screen.putc_calls ++ bytes else k.screen.putc_calls))
    × ((if out then ret else n) ≡ n)

-- the characters that a call hands to `serial_putc`, one call for each
pub handed : Registers → Kernel → List ℕ
handed regs k = if is_output regs then bytes_at regs.edx regs.ecx k.memory else []
