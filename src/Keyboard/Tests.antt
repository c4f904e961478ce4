-- ===== src/Keyboard/Tests.antt =====
-- Runs of the driver's theorems on a keyboard with two characters that wait, and two keys to come.
use osver.Prelude.{◌≡◌, refl, [], ◌∷◌, false, some, arith, ◌==◌, if◌then◌else◌}
use osver.Keyboard.{Keyboard, kb_irq_handler, keyboard_getchar}
use osver.Keyboard.Queue.{
  pending, window, IsValid, Typed, kb_irq_handler-Typed, keyboard_getchar-pending,
}

-- the positions have passed the end of the buffer
abbrev busy : Keyboard
busy = record {
  buf = λ i. if◌then◌else◌ (i == 255) b'h' b'i';
  head = 1;
  tail = 255;
  shift = false;
  caps = false;
}

kb_irq_handler-Typed_example :
    Typed busy (kb_irq_handler 0x1E busy) × IsValid (kb_irq_handler 0x1E busy)
unfolding IsValid
kb_irq_handler-Typed_example = kb_irq_handler-Typed 0x1E busy (omega arith, omega arith)

keyboard_getchar-pending_example :
    (k' : Keyboard) × (keyboard_getchar (0x1E ∷ []) busy ≡ some (b'h', k'))
    × (pending k' ≡ b'i' ∷ [])
    × IsValid k'
unfolding IsValid pending window
keyboard_getchar-pending_example =
    keyboard_getchar-pending (0x1E ∷ []) busy b'h' (b'i' ∷ []) (omega arith, omega arith) refl
