-- ===== src/Keyboard/Letters.antt =====
-- Caps lock and the shift key.
use osver.Prelude.{
  ℕ, zero, suc, ◌+◌, ◌<◌, ◌≤◌, ◌≡◌, refl, subst, Bool, true, false, if◌then◌else◌, ◌==◌, ==_eq,
  Bool-cases, arith, inl, inr,
}
use osver.Fat32.Name.{to_upper}
use osver.Keyboard.{key_char}

-- does a test hold at `from` and the numbers behind it, `count` in all?
every : (test : ℕ → Bool) → ℕ → ℕ → Bool
every test from zero = true
every test from (suc count) = if test from then every test (from + 1) count else false

every-at :
    (test : ℕ → Bool) (from count at : ℕ)
    → every test from count ≡ true
    → from ≤ at
    → at < from + count
    → test at ≡ true
unfolding every
every-at test from zero at h low high = absurd (omega arith)
every-at test from (suc count) at h low high = elim (Bool-cases (from == at)) [
  | inl e ↦ subst (λ i. test i ≡ true) (==_eq from at e) (ground arith)
  | inr other ↦ every-at test (from + 1) count at (ground arith) (ground arith) (omega arith)
]

-- For each key of the tables, caps lock alone gives the upper-case form of what the key gives without
-- it, and caps lock with shift the character whose upper-case form shift alone gives.
pub key_char-to_upper :
    (sc : ℕ)
    → sc < 58
    → (key_char sc false true ≡ to_upper (key_char sc false false))
      × (to_upper (key_char sc true true) ≡ key_char sc true false)
unfolding every key_char to_upper
key_char-to_upper sc lt = (
  ==_eq (key_char sc false true) (to_upper (key_char sc false false)) (
      every-at (λ i. key_char i false true == to_upper (key_char i false false)) 0 58 sc refl
        (omega arith) lt),
  ==_eq (to_upper (key_char sc true true)) (key_char sc true false) (
      every-at (λ i. to_upper (key_char i true true) == key_char i true false) 0 58 sc refl
        (omega arith) lt),
)
