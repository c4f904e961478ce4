-- ===== src/Screen/Tests.antt =====
-- Runs of the screen's theorems: at the bottom right cell, and on a number.
use osver.Prelude.{[], arith}
use osver.Screen.{Screen, kputchar_color}
use osver.Screen.Print.{IsOnScreen, kputchar_color-IsOnScreen}

abbrev corner : Screen
corner = record { vga = λ i. 0; cur_col = 79; cur_row = 24; putc_calls = [] }

kputchar_color-IsOnScreen_example : IsOnScreen (kputchar_color b'x' 7 0 corner)
unfolding IsOnScreen
kputchar_color-IsOnScreen_example =
    kputchar_color-IsOnScreen b'x' 7 0 corner (omega arith, omega arith)
