-- ===== src/Shell/Argv.antt =====
-- What `parse` makes of a line.
use osver.Prelude.{
  ℕ, zero, suc, ◌-◌, ◌<◌, ◌≤◌, ◌≡◌, refl, Bool, true, false, not, ◌&&◌, Option, some, List, [], ◌∷◌,
  ◌==◌, if◌then◌else◌, length, arith, inl, inr, Bool-cases,
}
use osver.Shell.Text.{parse, parse_loop, parse_rest, skip_blanks, word_of, behind_word, args_max}

pub no_blank : List ℕ → Bool
no_blank [] = true
no_blank (c ∷ cs) = not (c == b' ') && no_blank cs

-- At most `room` arguments, none of them empty, and without blanks except for the last that fits.
pub IsArgv : ℕ → List (List ℕ) → Type 0
IsArgv room [] = Unit {0}
IsArgv room (w ∷ ws) =
    (0 < room)
    × (0 < length w)
    × ((if room == 1 then true else no_blank w) ≡ true)
    × IsArgv (room - 1) ws

word_of-no_blank : (cs : List ℕ) → no_blank (word_of cs) ≡ true
unfolding no_blank word_of
word_of-no_blank [] = refl
word_of-no_blank (c ∷ cs) = elim (Bool-cases (c == b' ')) [
  | inl e ↦ rw e refl
  | inr e ↦ rw (e, word_of-no_blank cs, e) refl
]

behind_word-shorter : (cs : List ℕ) → length (behind_word cs) ≤ length cs
unfolding behind_word
behind_word-shorter [] = omega arith
behind_word-shorter (c ∷ cs) = elim (Bool-cases (c == b' ')) [
  | inl e ↦ rw e (omega arith)
  | inr e ↦ rw e (omega (arith, behind_word-shorter cs))
]

-- what is left behind the blanks
data Rest (n : ℕ) : List ℕ → Type 0 where
  nothing : Rest n []
  some_word : (c : ℕ) (cs : List ℕ) → (c == b' ') ≡ false → length cs < n → Rest n (c ∷ cs)

longer : (m n : ℕ) (cs : List ℕ) → m ≤ n → Rest m cs → Rest n cs
longer m n cs le nothing = nothing
longer m n cs le (some_word c ds e lt) = some_word c ds e (omega arith)

skip_blanks-Rest : (line : List ℕ) → Rest (length line) (skip_blanks line)
unfolding skip_blanks
skip_blanks-Rest [] = nothing
skip_blanks-Rest (c ∷ cs) = elim (Bool-cases (c == b' ')) [
  | inl e ↦ rw e (longer (length cs) (suc (length cs)) _ (omega arith) (skip_blanks-Rest cs))
  | inr e ↦ rw e (some_word c cs e (omega arith))
]

word_of-some : (c : ℕ) (cs : List ℕ) → (c == b' ') ≡ false → 0 < length (word_of (c ∷ cs))
unfolding word_of
word_of-some c cs e = rw e (omega arith)

behind_word-less :
    (c : ℕ) (cs : List ℕ) (n : ℕ)
    → (c == b' ') ≡ false
    → length cs < n
    → length (behind_word (c ∷ cs)) < n
unfolding behind_word
behind_word-less c cs n e lt = rw e (omega (arith, behind_word-shorter cs, lt))

Parsed : ℕ → Option (List (List ℕ)) → Type 0
Parsed room r = (words : List (List ℕ)) × (r ≡ some words) × IsArgv room words

parse_rest-Parsed :
    (again : List ℕ → Option (List (List ℕ))) (room n : ℕ) (rest : List ℕ)
    → Rest n rest
    → 0 < room
    → ((l : List ℕ) → length l < n → 1 < room → Parsed (room - 1) (again l))
    → Parsed room (parse_rest again room rest)
unfolding parse_rest Parsed IsArgv
parse_rest-Parsed again room n rest nothing pos h = ([], refl, tt)
parse_rest-Parsed again room n rest (some_word c cs e lt) pos h = elim (Bool-cases (room == 1)) [
  | inl one ↦ rw one ((c ∷ cs) ∷ [], refl, (pos, omega arith, rw one refl, tt))
  | inr more ↦
      let shorter : length (behind_word (c ∷ cs)) < n = behind_word-less c cs n e lt in
      let r = h (behind_word (c ∷ cs)) shorter (ground arith) in
      rw (more, r.1)
        (
          word_of (c ∷ cs) ∷ r.0,
          refl,
          (pos, word_of-some c cs e, rw more (word_of-no_blank (c ∷ cs)), r.2),
        )
]

parse_loop-Parsed :
    (fuel room : ℕ) (line : List ℕ)
    → length line < fuel
    → 0 < room
    → Parsed room (parse_loop fuel room line)
unfolding parse_loop
parse_loop-Parsed zero room line lt pos = absurd (omega arith)
parse_loop-Parsed (suc fuel) room line lt pos =
    parse_rest-Parsed (parse_loop fuel (room - 1)) room (length line) (skip_blanks line)
      (skip_blanks-Rest line) pos
      (λ l short more. parse_loop-Parsed fuel (room - 1) l (omega arith) (omega arith))

-- `parse` returns for every line. It makes at most 16 arguments; none of them is empty, and none of the first
-- fifteen has a blank.
pub parse-IsArgv :
    (line : List ℕ) → (words : List (List ℕ)) × (parse line ≡ some words) × IsArgv args_max words
unfolding parse Parsed
parse-IsArgv line = parse_loop-Parsed (suc (length line)) args_max line (omega arith) (omega arith)
