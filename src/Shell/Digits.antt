-- ===== src/Shell/Digits.antt =====
-- `parse_uint` reads back what `kprint_dec` and `kprint_hex` of the screen print.
use osver.Prelude.{
  ℕ, zero, suc, ◌+◌, ◌-◌, ◌*◌, ◌/◌, ◌%◌, ◌^◌, ◌<◌, ◌≡◌, refl, ap, sym, ◌∙◌, Bool, true, false, ◌&&◌,
  ◌||◌, some, none, List, [], ◌∷◌, ◌++◌, leb, ◌==◌, if◌then◌else◌, bit_and, bit_or, inl, inr, arith,
  Bool-cases,
}
use mathlib.Core.List.{append_assoc, append-nil}
use native.Mathlib.Numerals.{unary_clauses}
use osver.Bits.{bit_and_low, bit_or_disjoint}
use osver.Screen.{
  Screen, dec_digits, hex_digits, hex_digit, skip_zeros, kprint, kprint_dec, kprint_hex,
}
use osver.Shell.Text.{dec_loop, hex_loop, hex_value, parse_uint}

dec_loop-dec_digits :
    (room n : ℕ) (buf : List ℕ)
    → n < 10 ^ room
    → n < 2 ^ 32
    → dec_loop (dec_digits room n buf) 0 ≡ dec_loop buf n
unfolding dec_loop dec_digits
dec_loop-dec_digits zero n buf h small = let z : n ≡ 0 = omega arith in rw z refl
dec_loop-dec_digits (suc room) n buf h small = elim (Bool-cases (n == 0)) [
  | inl z ↦ let e : n ≡ 0 = ground arith in rw e refl
  | inr nz ↦
      let is_digit : (leb b'0' (b'0' + n % 10) && leb (b'0' + n % 10) b'9') ≡ true = ground arith in
      let v : (n / 10 * 10 + (b'0' + n % 10 - b'0')) % 2 ^ 32 ≡ n = omega arith in
      rw nz (
        dec_loop-dec_digits room (n / 10) ((b'0' + n % 10) ∷ buf)
          (let k = simp unary_clauses at h in omega arith) (omega arith)
        ∙ rw (is_digit, v) refl)
]

all_digits : List ℕ → Bool
all_digits [] = true
all_digits (c ∷ cs) = leb b'0' c && leb c b'9' && all_digits cs

dec_digits-digits :
    (room n : ℕ) (buf : List ℕ) → all_digits buf ≡ true → all_digits (dec_digits room n buf) ≡ true
unfolding dec_digits all_digits
dec_digits-digits zero n buf h = h
dec_digits-digits (suc room) n buf h = elim (Bool-cases (n == 0)) [
  | inl z ↦ rw z h
  | inr nz ↦ rw nz (dec_digits-digits room (n / 10) ((b'0' + n % 10) ∷ buf) (ground arith))
]

parse_uint-digits : (cs : List ℕ) → all_digits cs ≡ true → parse_uint cs ≡ dec_loop cs 0
unfolding parse_uint all_digits
parse_uint-digits [] h = refl
parse_uint-digits (c ∷ []) h = refl
parse_uint-digits (c ∷ d ∷ cs) h =
    let no_x : ((c == b'0') && ((d == b'x') || (d == b'X'))) ≡ false = ground arith in rw no_x refl

-- the characters that `kprint_dec` prints
pub dec_text : ℕ → List ℕ
dec_text n = if n == 0 then b'0' ∷ [] else dec_digits 10 n []

hex_value-hex_digit : (d : ℕ) → d < 16 → hex_value (hex_digit d) ≡ some d
unfolding hex_value hex_digit
hex_value-hex_digit d h = ground arith

hex_loop-hex_digit :
    (d v : ℕ) (rest : List ℕ)
    → d < 16
    → hex_loop (hex_digit d ∷ rest) v ≡ hex_loop rest (bit_or (v * 2 ^ 4 % 2 ^ 32) d)
unfolding hex_loop
hex_loop-hex_digit d v rest h =
    ap
      (λ o. elim o as (λ _. ℕ) [
        | none ↦ v * 2 ^ 4 % 2 ^ 32
        | some x ↦ hex_loop rest (bit_or (v * 2 ^ 4 % 2 ^ 32) x)
      ])
      (hex_value-hex_digit d h)

hex_loop-hex_digits :
    (count n : ℕ) (rest : List ℕ)
    → n < 16 ^ count
    → n < 2 ^ 32
    → hex_loop (hex_digits count n ++ rest) 0 ≡ hex_loop rest n
unfolding hex_loop hex_digits
hex_loop-hex_digits zero n rest h small = let z : n ≡ 0 = omega arith in rw z refl
hex_loop-hex_digits (suc count) n rest h small =
    let d : bit_and n 0xF ≡ n % 16 = bit_and_low 4 n in
    let shifted : n / 2 ^ 4 * 2 ^ 4 % 2 ^ 32 ≡ n / 2 ^ 4 * 2 ^ 4 = omega arith in
    let v : bit_or (n / 2 ^ 4 * 2 ^ 4) (n % 16) ≡ n =
      bit_or_disjoint 4 (n / 2 ^ 4) (n % 16) (omega arith) ∙ omega arith in
    let k = simp unary_clauses at h in
    ap (λ ds. hex_loop ds 0) (append_assoc (hex_digits count (n / 2 ^ 4)) _ rest)
    ∙ hex_loop-hex_digits count (n / 2 ^ 4) (hex_digit (bit_and n 0xF) ∷ rest) (omega arith)
        (omega arith)
    ∙ ap (λ x. hex_loop (hex_digit x ∷ rest) (n / 2 ^ 4)) d
    ∙ hex_loop-hex_digit (n % 16) (n / 2 ^ 4) rest (omega arith)
    ∙ ap (hex_loop rest) (rw shifted v)

skip_zeros-value : (left : ℕ) (ds : List ℕ) → hex_loop (skip_zeros left ds) 0 ≡ hex_loop ds 0
unfolding skip_zeros hex_loop hex_value
skip_zeros-value zero ds = refl
skip_zeros-value (suc left) [] = refl
skip_zeros-value (suc left) (d ∷ ds) = elim (Bool-cases (d == b'0')) [
  | inr e ↦ rw e refl
  | inl e ↦ let eq : d ≡ b'0' = ground arith in rw eq (skip_zeros-value left ds)
]

parse_uint-dec_digits : (n : ℕ) → n < 2 ^ 32 → parse_uint (dec_digits 10 n []) ≡ n
unfolding dec_loop all_digits
parse_uint-dec_digits n small =
    parse_uint-digits (dec_digits 10 n []) (dec_digits-digits 10 n [] refl)
    ∙ dec_loop-dec_digits 10 n [] (omega arith) small

parse_zero : parse_uint (b'0' ∷ []) ≡ 0
unfolding parse_uint dec_loop
parse_zero = refl

parse_uint-dec_text : (n : ℕ) → n < 2 ^ 32 → parse_uint (dec_text n) ≡ n
unfolding dec_text
parse_uint-dec_text n small = elim (Bool-cases (n == 0)) [
  | inl z ↦ let e : n ≡ 0 = ground arith in rw z parse_zero ∙ sym e
  | inr nz ↦ rw nz (parse_uint-dec_digits n small)
]

-- the characters that `kprint_hex` prints behind "0x"
pub hex_text : ℕ → List ℕ
hex_text n = skip_zeros 7 (hex_digits 8 n)

append_nothing : (count n : ℕ) → n < 16 ^ count → n < 2 ^ 32 → hex_loop (hex_digits count n) 0 ≡ n
unfolding hex_loop
append_nothing count n h small =
    ap (λ ds. hex_loop ds 0) (sym (append-nil (hex_digits count n)))
    ∙ hex_loop-hex_digits count n [] h small

-- For a 32-bit number, `kprint_dec` and `kprint_hex` each print a text from which `parse_uint` gets the number
-- back.
pub parse_uint-printed :
    (n : ℕ) (s : Screen)
    → n < 2 ^ 32
    → (kprint_dec n s ≡ kprint (dec_text n) s)
      × (parse_uint (dec_text n) ≡ n)
      × (kprint_hex n s ≡ kprint (b'0' ∷ b'x' ∷ hex_text n) s)
      × (parse_uint (b'0' ∷ b'x' ∷ hex_text n) ≡ n)
unfolding kprint_dec dec_text kprint_hex hex_text kprint parse_uint
parse_uint-printed n s small = (
  elim (Bool-cases (n == 0)) [ inl z ↦ rw z refl | inr nz ↦ rw nz refl ],
  parse_uint-dec_text n small,
  refl,
  skip_zeros-value 7 (hex_digits 8 n) ∙ append_nothing 8 n (omega arith) small,
)
