-- ===== src/Shell/Text.antt =====
-- The helpers on strings of src/shell/shell.c. A string is the list of its characters, which are not 0.
use osver.Prelude.{
  ℕ, zero, suc, ◌+◌, ◌-◌, ◌*◌, ◌%◌, ◌^◌, Bool, true, false, ◌&&◌, ◌||◌, Option, some, none, List,
  [], ◌∷◌, leb, ◌==◌, if◌then◌else◌, bit_or, length,
}
use Prim.Native.Char.{code}
use Prim.Native.String.{String}

-- LINE_MAX, ARGS_MAX
abbrev pub line_max : ℕ
line_max = 256

abbrev pub args_max : ℕ
args_max = 16

-- the bytes of a literal of the source, which is ASCII
abbrev pub codes : String → List ℕ
codes String.[] = []
codes (String.◌∷◌ c s) = code c ∷ codes s

unfoldable pub str_eq : List ℕ → List ℕ → Bool
str_eq [] [] = true
str_eq [] (b ∷ t) = false
str_eq (a ∷ s) [] = false
str_eq (a ∷ s) (b ∷ t) = let rest = str_eq s t in if a == b then rest else false

-- the value of a hexadecimal digit
unfoldable pub hex_value : ℕ → Option ℕ
hex_value c =
    if leb b'0' c && leb c b'9'
    then some (c - b'0')
    else if leb b'a' c && leb c b'f'
    then some (c - b'a' + 10)
    else if leb b'A' c && leb c b'F'
    then some (c - b'A' + 10)
    else none

-- The loop on hexadecimal digits: `v` has been shifted when it meets a character that is none.
unfoldable pub hex_loop : List ℕ → ℕ → ℕ
unfolding hex_value
hex_loop [] v = v
hex_loop (c ∷ cs) v =
    let shifted = v * 2 ^ 4 % 2 ^ 32 in
    elim (hex_value c) [ none ↦ shifted | some d ↦ hex_loop cs (bit_or shifted d) ]

unfoldable pub dec_loop : List ℕ → ℕ → ℕ
dec_loop [] v = v
dec_loop (c ∷ cs) v =
    let rest = dec_loop cs ((v * 10 + (c - b'0')) % 2 ^ 32) in
    if leb b'0' c && leb c b'9' then rest else v

unfoldable pub parse_uint : List ℕ → ℕ
unfolding hex_loop dec_loop
parse_uint [] = 0
parse_uint (c ∷ []) = dec_loop (c ∷ []) 0
parse_uint (c ∷ d ∷ cs) =
    if (c == b'0') && ((d == b'x') || (d == b'X')) then hex_loop cs 0 else dec_loop (c ∷ d ∷ cs) 0

-- The inner loops of `parse`. `word_of` and `behind_word` split a line at its first blank, which the code
-- overwrites with the end of the word.
unfoldable pub skip_blanks : List ℕ → List ℕ
skip_blanks [] = []
skip_blanks (c ∷ cs) = let rest = skip_blanks cs in if c == b' ' then rest else c ∷ cs

unfoldable pub word_of : List ℕ → List ℕ
word_of [] = []
word_of (c ∷ cs) = let rest = word_of cs in if c == b' ' then [] else c ∷ rest

unfoldable pub behind_word : List ℕ → List ℕ
behind_word [] = []
behind_word (c ∷ cs) = let rest = behind_word cs in if c == b' ' then cs else rest

-- The body of the loop of `parse` with room for `room` more arguments, on what is left behind the
-- blanks; `again` is the rest of the loop. The last argument there is room for is not ended by a blank.
unfoldable pub parse_rest : (List ℕ → Option (List (List ℕ))) → ℕ → List ℕ → Option (List (List ℕ))
unfolding word_of behind_word
parse_rest again room [] = some []
parse_rest again room (c ∷ cs) =
    if room == 1 then some ((c ∷ cs) ∷ []) else elim (again (behind_word (c ∷ cs))) [
      | none ↦ none
      | some words ↦ some (word_of (c ∷ cs) ∷ words)
    ]

-- Each round passes a character, so fuel above the length is enough.
unfoldable pub parse_loop : ℕ → ℕ → List ℕ → Option (List (List ℕ))
unfolding skip_blanks parse_rest
parse_loop zero room line = none
parse_loop (suc fuel) room line = parse_rest (parse_loop fuel (room - 1)) room (skip_blanks line)

unfoldable pub parse : List ℕ → Option (List (List ℕ))
unfolding parse_loop
parse line = parse_loop (suc (length line)) args_max line
