-- ===== src/Screen/Print.antt =====
-- What printing does to the cursor, and what the printed numbers say.
use osver.Prelude.{
  ℕ, zero, suc, ◌+◌, ◌-◌, ◌*◌, ◌%◌, ◌/◌, ◌^◌, ◌<◌, ◌≤◌, ◌≡◌, refl, ap, ◌∙◌, Bool, true, false, List,
  [], ◌∷◌, ◌++◌, ◌==◌, if◌then◌else◌, bit_and, arith, ==_eq, Bool-cases, inl, inr,
}
use osver.Bits.{bit_and_clear_low}
use osver.Screen.{
  Screen, vga_color, wrap, scroll_up, backspace, put_char, kputchar_color, dec_digits,
}

-- The cursor is on the screen.
unfoldable pub IsOnScreen : Screen → Type 0
IsOnScreen s = (s.cur_col < 80) × (s.cur_row < 25)

wrap-IsOnScreen :
    (s : Screen)
    → s.cur_col ≤ 80
    → s.cur_row ≤ 25
    → (s.cur_row ≡ 25 → s.cur_col < 80)
    → IsOnScreen (wrap s)
unfolding IsOnScreen wrap scroll_up
wrap-IsOnScreen s col row last = (ground arith, ground arith)

backspace-IsOnScreen : (attr : ℕ) (s : Screen) → IsOnScreen s → IsOnScreen (backspace attr s)
unfolding IsOnScreen backspace
backspace-IsOnScreen attr s on = (ground arith, ground arith)

either : (x y : Screen) (b : Bool) → IsOnScreen x → IsOnScreen y → IsOnScreen (if b then x else y)
either x y true p q = p
either x y false p q = q

wrap_low : (s : Screen) → s.cur_col ≤ 80 → s.cur_row < 25 → IsOnScreen (wrap s)
wrap_low s col row = wrap-IsOnScreen s col (omega arith) (λ e. absurd (omega arith))

tab_stop : (col : ℕ) → col < 80 → bit_and (col + 8) 0xFFFFFFF8 ≤ 80
tab_stop col lt =
    let e : bit_and (col + 8) 0xFFFFFFF8 ≡ (col + 8) / 2 ^ 3 % 2 ^ 29 * 2 ^ 3 =
      bit_and_clear_low 3 29 (col + 8) in
    omega arith

-- Every character, in every colour, leaves the cursor on the screen: the new line at the bottom, the
-- tab at the right edge and the backspace at the first cell included.
pub kputchar_color-IsOnScreen :
    (c fg bg : ℕ) (s : Screen) → IsOnScreen s → IsOnScreen (kputchar_color c fg bg s)
unfolding kputchar_color IsOnScreen put_char
kputchar_color-IsOnScreen c fg bg s on =
    let tab = tab_stop s.cur_col on.0 in
    let sent = record s { putc_calls = s.putc_calls ++ (c ∷ []) } in
    let line = record sent { cur_col = 0; cur_row = s.cur_row + 1 } in
    let start = record sent { cur_col = 0 } in
    let shown = put_char c (vga_color fg bg) sent in
    either _ _ (c == 10) (wrap-IsOnScreen line (omega arith) (omega arith) (λ e. omega arith)) (
      either _ _ (c == 13) (wrap_low start (omega arith) on.1) (
        either _ _ (c == 9) (wrap_low _ tab on.1) (
          either _ _ (c == 8) (backspace-IsOnScreen (vga_color fg bg) sent on)
            (wrap_low shown (omega arith) on.1))))

-- the number that decimal digits stand for, behind `n`
unfoldable pub from_dec : ℕ → List ℕ → ℕ
from_dec n [] = n
from_dec n (c ∷ cs) = from_dec (n * 10 + (c - b'0')) cs

dec_digits-behind :
    (room n : ℕ) (buf : List ℕ)
    → n < 10 ^ room
    → from_dec 0 (dec_digits room n buf) ≡ from_dec n buf
unfolding dec_digits from_dec
dec_digits-behind zero n buf lt = let e : n ≡ 0 = omega arith in rw (e) refl
dec_digits-behind (suc room) n buf lt = elim (Bool-cases (n == 0)) [
  | inl t ↦ let e = ==_eq n 0 t in rw (t, e) refl
  | inr f ↦
      let r = dec_digits-behind room (n / 10) ((b'0' + n % 10) ∷ buf) (omega arith) in
      let e : n / 10 * 10 + (b'0' + n % 10 - b'0') ≡ n = omega arith in
      rw (f) (r ∙ ap (λ m. from_dec m buf) e)
]

-- The digits that `kprint_dec` prints of a 32-bit number stand for that number; the buffer's ten
-- places are enough.
pub from_dec-dec_digits : (n : ℕ) → n < 2 ^ 32 → from_dec 0 (dec_digits 10 n []) ≡ n
unfolding from_dec
from_dec-dec_digits n lt = dec_digits-behind 10 n [] (omega arith)
