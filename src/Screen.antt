-- ===== src/Screen.antt =====
-- The text screen of src/drivers/screen.c: 25 rows of 80 cells, each a character and its attribute at
-- consecutive addresses, and the cursor. The arguments of the calls of `serial_putc` are kept
-- as a list; what that function then does with them is in Serial.
pub mod Print
mod Tests
use osver.Prelude.{
  ℕ, zero, suc, ◌+◌, ◌-◌, ◌*◌, ◌%◌, ◌/◌, ◌^◌, Bool, true, false, not, ◌&&◌, ◌||◌, List, [], ◌∷◌,
  ◌++◌, ◌==◌, ltb, leb, if◌then◌else◌, bit_and, bit_or,
}

abbrev pub cols : ℕ
cols = 80

abbrev pub rows : ℕ
rows = 25

pub record Screen : Type 0 where
  pub vga : ℕ → ℕ
  pub cur_col : ℕ
  pub cur_row : ℕ
  pub putc_calls : List ℕ

-- colours of src/drivers/screen.h: fg | (bg << 4) in a byte
unfoldable pub vga_color : ℕ → ℕ → ℕ
vga_color fg bg = bit_or fg (bg * 2 ^ 4) % 2 ^ 8

abbrev pub vga_black : ℕ
vga_black = 0

abbrev pub vga_light_grey : ℕ
vga_light_grey = 7

-- a character and its attribute at a cell
unfoldable pub put_cell : ℕ → ℕ → ℕ → (ℕ → ℕ) → ℕ → ℕ
put_cell pos c attr vga i = if i == pos * 2 then c else if i == pos * 2 + 1 then attr else vga i

-- Every row takes the one below it, row by row from the top; the last is blank.
unfoldable pub scroll_up : Screen → Screen
unfolding vga_color
scroll_up s =
    let blank = vga_color vga_light_grey vga_black in
    record s {
      vga = λ i.
          if ltb i ((rows - 1) * cols * 2)
          then s.vga (i + cols * 2)
          else if ltb i (rows * cols * 2)
          then (if i % 2 == 0 then b' ' else blank)
          else s.vga i;
      cur_row = rows - 1;
    }

unfoldable pub clear_screen : Screen → Screen
unfolding vga_color
clear_screen s =
    let attr = vga_color vga_light_grey vga_black in
    record s {
      vga = λ i. if ltb i (rows * cols * 2) then (if i % 2 == 0 then b' ' else attr) else s.vga i;
      cur_col = 0;
      cur_row = 0;
    }

-- the two tests at the end of `kputchar_color`
unfoldable pub wrap : Screen → Screen
wrap s =
    let s1 = if leb cols s.cur_col then record s { cur_col = 0; cur_row = s.cur_row + 1 } else s in
    if leb rows s1.cur_row then scroll_up s1 else s1

-- the branch of '\b', which returns
unfoldable pub backspace : ℕ → Screen → Screen
unfolding put_cell
backspace attr s =
    let s1 =
      if ltb 0 s.cur_col
      then record s { cur_col = s.cur_col - 1 }
      else if ltb 0 s.cur_row
      then record s { cur_row = s.cur_row - 1; cur_col = cols - 1 }
      else s in
    record s1 { vga = put_cell (s1.cur_row * cols + s1.cur_col) b' ' attr s1.vga }

-- the branch of a character that shows
unfoldable pub put_char : ℕ → ℕ → Screen → Screen
unfolding put_cell
put_char c attr s = record s {
  vga = put_cell (s.cur_row * cols + s.cur_col) c attr s.vga;
  cur_col = s.cur_col + 1;
}

unfoldable pub kputchar_color : ℕ → ℕ → ℕ → Screen → Screen
unfolding put_char wrap backspace
kputchar_color c fg bg s0 =
    let attr = vga_color fg bg in
    let s = record s0 { putc_calls = s0.putc_calls ++ (c ∷ []) } in
    if c == 10
    then wrap (record s { cur_col = 0; cur_row = s.cur_row + 1 })
    else if c == 13
    then wrap (record s { cur_col = 0 })
    else if c == 9
    then wrap (record s { cur_col = bit_and (s.cur_col + 8) 0xFFFFFFF8 })
    else if c == 8
    then backspace attr s
    else wrap (put_char c attr s)

unfoldable pub kputchar : ℕ → Screen → Screen
kputchar c s = kputchar_color c vga_light_grey vga_black s

unfoldable pub kprint : List ℕ → Screen → Screen
kprint [] s = s
kprint (c ∷ cs) s = kprint cs (kputchar c s)

unfoldable pub kprint_color : List ℕ → ℕ → ℕ → Screen → Screen
kprint_color [] fg bg s = s
kprint_color (c ∷ cs) fg bg s = kprint_color cs fg bg (kputchar_color c fg bg s)

-- hex[n & 0xF]
unfoldable pub hex_digit : ℕ → ℕ
hex_digit d = if ltb d 10 then b'0' + d else b'A' + (d - 10)

-- the digits of `buf`, the last `count` of them
unfoldable pub hex_digits : ℕ → ℕ → List ℕ
unfolding hex_digit
hex_digits zero n = []
hex_digits (suc count) n = hex_digits count (n / 2 ^ 4) ++ (hex_digit (bit_and n 0xF) ∷ [])

-- leading zeros, at most `left`, are skipped
unfoldable pub skip_zeros : ℕ → List ℕ → List ℕ
skip_zeros zero ds = ds
skip_zeros (suc left) [] = []
skip_zeros (suc left) (d ∷ ds) = let rest = skip_zeros left ds in if d == b'0' then rest else d ∷ ds

unfoldable pub kprint_hex : ℕ → Screen → Screen
unfolding hex_digits skip_zeros
kprint_hex n s = kprint (skip_zeros 7 (hex_digits 8 n)) (kprint (b'0' ∷ b'x' ∷ []) s)

-- The loop over the digits puts the last one first; a 32-bit number has at most ten.
unfoldable pub dec_digits : ℕ → ℕ → List ℕ → List ℕ
dec_digits zero n buf = buf
dec_digits (suc room) n buf =
    let rest = dec_digits room (n / 10) ((b'0' + n % 10) ∷ buf) in if n == 0 then buf else rest

unfoldable pub kprint_dec : ℕ → Screen → Screen
unfolding dec_digits
kprint_dec n s = if n == 0 then kputchar b'0' s else kprint (dec_digits 10 n []) s

unfoldable pub kget_cursor : Screen → ℕ × ℕ
kget_cursor s = (s.cur_col, s.cur_row)
