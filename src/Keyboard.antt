-- ===== src/Keyboard.antt =====
-- The keyboard driver of src/drivers/keyboard.c: the key buffer, the scancode tables, the modifier
-- state and the handler of interrupt 1. The handler takes the scancode that it reads from the
-- controller's port, and a wait for a key takes the scancodes that arrive meanwhile.
pub mod Letters
pub mod Queue
mod Tests
use osver.Prelude.{
  ℕ, ◌+◌, ◌-◌, ◌*◌, ◌%◌, ◌<◌, Bool, true, false, not, ◌&&◌, ◌||◌, Option, some, none, List, [], ◌∷◌,
  ◌++◌, ltb, leb, ◌==◌, if◌then◌else◌, get_or, bit_and,
}

-- BUF_SIZE
abbrev pub buf_size : ℕ
buf_size = 256

pub record Keyboard : Type 0 where
  pub buf : ℕ → ℕ
  pub head : ℕ
  pub tail : ℕ
  pub shift : Bool
  pub caps : Bool

-- A full buffer drops the character.
unfoldable pub buf_push : ℕ → Keyboard → Keyboard
buf_push c k =
    let next = (k.head + 1) % buf_size in
    if not (next == k.tail)
    then record k { buf = λ i. if i == k.head then c else k.buf i; head = next }
    else k

abbrev pub sc_normal : List ℕ
sc_normal =
    0 ∷ 27 ∷ b'1' ∷ b'2' ∷ b'3' ∷ b'4' ∷ b'5' ∷ b'6' ∷ b'7' ∷ b'8' ∷ b'9' ∷ b'0' ∷ b'-' ∷ b'=' ∷ 8
    ∷ 9 ∷ b'q' ∷ b'w' ∷ b'e' ∷ b'r' ∷ b't' ∷ b'y' ∷ b'u' ∷ b'i' ∷ b'o' ∷ b'p' ∷ b'[' ∷ b']' ∷ 10 ∷ 0
    ∷ b'a' ∷ b's' ∷ b'd' ∷ b'f' ∷ b'g' ∷ b'h' ∷ b'j' ∷ b'k' ∷ b'l' ∷ b';' ∷ 39 ∷ b'`' ∷ 0 ∷ 92
    ∷ b'z' ∷ b'x' ∷ b'c' ∷ b'v' ∷ b'b' ∷ b'n' ∷ b'm' ∷ b',' ∷ b'.' ∷ b'/' ∷ 0 ∷ b'*' ∷ 0 ∷ b' ' ∷ []

abbrev pub sc_shifted : List ℕ
sc_shifted =
    0 ∷ 27 ∷ b'!' ∷ b'@' ∷ b'#' ∷ b'$' ∷ b'%' ∷ b'^' ∷ b'&' ∷ b'*' ∷ b'(' ∷ b')' ∷ b'_' ∷ b'+' ∷ 8
    ∷ 9 ∷ b'Q' ∷ b'W' ∷ b'E' ∷ b'R' ∷ b'T' ∷ b'Y' ∷ b'U' ∷ b'I' ∷ b'O' ∷ b'P' ∷ b'{' ∷ b'}' ∷ 10 ∷ 0
    ∷ b'A' ∷ b'S' ∷ b'D' ∷ b'F' ∷ b'G' ∷ b'H' ∷ b'J' ∷ b'K' ∷ b'L' ∷ b':' ∷ b'"' ∷ b'~' ∷ 0 ∷ b'|'
    ∷ b'Z' ∷ b'X' ∷ b'C' ∷ b'V' ∷ b'B' ∷ b'N' ∷ b'M' ∷ b'<' ∷ b'>' ∷ b'?' ∷ 0 ∷ b'*' ∷ 0 ∷ b' ' ∷ []

-- the character of a key, 0 where the key has none
unfoldable pub key_char : ℕ → Bool → Bool → ℕ
key_char sc shift caps =
    let base = get_or sc_normal sc 0 in
    let use_shift = if caps && leb b'a' base && leb base b'z' then not shift else shift in
    if use_shift then get_or sc_shifted sc 0 else base

-- the left and the right shift key
abbrev pub is_shift : ℕ → Bool
is_shift sc = (sc == 0x2A) || (sc == 0x36)

unfoldable pub kb_irq_handler : ℕ → Keyboard → Keyboard
unfolding key_char
kb_irq_handler sc k =
    if not (bit_and sc 0x80 == 0)
    then (if is_shift (bit_and sc 0x7F) then record k { shift = false } else k)
    else if is_shift sc
    then record k { shift = true }
    else if sc == 0x3A
    then record k { caps = not k.caps }
    else if (sc == 0x1D) || (sc == 0x38)
    then k
    else if leb 58 sc
    then k
    else if key_char sc k.shift k.caps == 0
    then k
    else buf_push (key_char sc k.shift k.caps) k

unfoldable pub keyboard_haschar : Keyboard → Bool
keyboard_haschar k = not (k.head == k.tail)

-- the end of `keyboard_getchar`
unfoldable pub take_char : Keyboard → ℕ × Keyboard
take_char k = (k.buf k.tail, record k { tail = (k.tail + 1) % buf_size })

-- `keyboard_getchar` while these scancodes arrive; `none`: it still waits
unfoldable pub keyboard_getchar : List ℕ → Keyboard → Option (ℕ × Keyboard)
keyboard_getchar [] k = if keyboard_haschar k then some (take_char k) else none
keyboard_getchar (sc ∷ scs) k =
    let rest = keyboard_getchar scs (kb_irq_handler sc k) in
    if keyboard_haschar k then some (take_char k) else rest
