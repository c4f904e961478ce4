-- ===== src/Bits/Single.antt =====
-- Single bits of a word: reading, setting and clearing one.
use osver.Bits.Step.{bit_or_halves, bit_and_halves, bit_or-zero}
use osver.Bits.{bit_and_low, bit_not}
use native.Mathlib.Nat.{pow-suc, one-le-pow, pow-le-pow_right}
use osver.Prelude.{
  ℕ, zero, suc, ◌-◌, ◌*◌, ◌/◌, ◌%◌, ◌^◌, ◌<◌, bit_and, bit_or, min, max, inl, inr, Bool-cases, ◌≡◌,
  refl, ap, ◌∙◌, arith, if◌then◌else◌, ◌==◌,
}

-- bit `i` of `w`
pub bit_at : ℕ → ℕ → ℕ
bit_at zero w = w % 2
bit_at (suc i) w = bit_at i (w / 2)

-- The lowest digit is split off.
or-half : (a b : ℕ) → bit_or a b / 2 ≡ bit_or (a / 2) (b / 2)
or-half a b = omega (arith, bit_or_halves a b)

or-low : (a b : ℕ) → bit_or a b % 2 ≡ max (a % 2) (b % 2)
or-low a b = omega (arith, bit_or_halves a b)

and-half : (a b : ℕ) → bit_and a b / 2 ≡ bit_and (a / 2) (b / 2)
and-half a b = omega (arith, bit_and_halves a b)

and-low : (a b : ℕ) → bit_and a b % 2 ≡ min (a % 2) (b % 2)
and-low a b = omega (arith, bit_and_halves a b)

pow-half : (i : ℕ) → 2 ^ suc i / 2 ≡ 2 ^ i
pow-half i = omega (arith, pow-suc 2 i)

pow-even : (i : ℕ) → 2 ^ suc i % 2 ≡ 0
pow-even i = omega (arith, pow-suc 2 i)

bit_and_single : (i w : ℕ) → bit_and w (2 ^ i) ≡ bit_at i w * 2 ^ i
unfolding bit_at
bit_and_single zero w = omega (arith, bit_and_low 1 w)
bit_and_single (suc i) w =
    let e : bit_and w (2 ^ suc i) ≡ bit_and (w / 2) (2 ^ i) * 2 =
      ground (arith, bit_and_halves w (2 ^ suc i), pow-half i, pow-even i) in
    omega (arith, e, bit_and_single i (w / 2), ap (λ (t : ℕ). bit_at i (w / 2) * t) (pow-suc 2 i))

bit_at-lt : (i w : ℕ) → bit_at i w < 2
unfolding bit_at
bit_at-lt zero w = omega arith
bit_at-lt (suc i) w = bit_at-lt i (w / 2)

-- `w & 1 << i` is 0 exactly where the bit is.
pub bit_and_single-zero : (i w : ℕ) → (bit_and w (2 ^ i) == 0) ≡ (bit_at i w == 0)
bit_and_single-zero i w = elim (Bool-cases (bit_at i w == 0)) [
  | inl z ↦ ground (arith, bit_and_single i w)
  | inr nz ↦
      let one : bit_at i w ≡ 1 = ground (arith, bit_at-lt i w) in
      let e : bit_and w (2 ^ i) ≡ 2 ^ i = bit_and_single i w ∙ rw one (omega arith) in
      ground (arith, e, one-le-pow i 2)
]

-- `w | 1 << i`
pub bit_at-set : (i j w : ℕ) → bit_at j (bit_or w (2 ^ i)) ≡ (if i == j then 1 else bit_at j w)
unfolding bit_at
bit_at-set zero zero w = omega (arith, or-low w 1)
bit_at-set zero (suc j) w = ground (arith, or-half w 1, bit_or-zero (w / 2))
bit_at-set (suc i) zero w = ground (arith, or-low w (2 ^ suc i), pow-even i)
bit_at-set (suc i) (suc j) w =
    ground (arith, or-half w (2 ^ suc i), pow-half i, bit_at-set i j (w / 2))

-- A word of `n` ones.
pub bit_at-ones : (n j : ℕ) → j < n → bit_at j (2 ^ n - 1) ≡ 1
unfolding bit_at
bit_at-ones zero j h = absurd (omega arith)
bit_at-ones (suc n) zero h = omega (arith, pow-suc 2 n, one-le-pow n 2)
bit_at-ones (suc n) (suc j) h =
    let e : (2 ^ suc n - 1) / 2 ≡ 2 ^ n - 1 = omega (arith, pow-suc 2 n, one-le-pow n 2) in
    rw e (bit_at-ones n j (omega arith))

ones-half : (n : ℕ) → (2 ^ suc n - 1) / 2 ≡ 2 ^ n - 1
ones-half n = omega (arith, pow-suc 2 n, one-le-pow n 2)

ones-odd : (n : ℕ) → (2 ^ suc n - 1) % 2 ≡ 1
ones-odd n = omega (arith, pow-suc 2 n, one-le-pow n 2)

bit_at-mask : (n j w : ℕ) → j < n → bit_at j (bit_and w (2 ^ n - 1)) ≡ bit_at j w
unfolding bit_at
bit_at-mask zero j w h = absurd (omega arith)
bit_at-mask (suc n) zero w h = ground (arith, and-low w (2 ^ suc n - 1), ones-odd n)
bit_at-mask (suc n) (suc j) w h =
    ground (arith, and-half w (2 ^ suc n - 1), ones-half n, bit_at-mask n j (w / 2) (omega arith))

pow-lt : (i n : ℕ) → i < n → 2 ^ i < 2 ^ n
pow-lt i n h = omega (
  arith,
  pow-suc 2 i,
  one-le-pow i 2,
  pow-le-pow_right {n = 2} (omega arith) {i = suc i} {j = n} h,
)

-- a mask with one hole, less its lowest digit
hole-half : (n i : ℕ) → i < n → (2 ^ suc n - 1 - 2 ^ suc i) / 2 ≡ 2 ^ n - 1 - 2 ^ i
hole-half n i h = omega (arith, pow-suc 2 n, pow-suc 2 i, pow-lt i n h)

-- `w & ~(1 << i)`, at any width `n`
bit_at-clear_at :
    (n i j w : ℕ)
    → i < n
    → j < n
    → bit_at j (bit_and w (2 ^ n - 1 - 2 ^ i)) ≡ (if i == j then 0 else bit_at j w)
unfolding bit_at
bit_at-clear_at zero i j w hi hj = absurd (omega arith)
bit_at-clear_at (suc n) zero zero w hi hj =
    ground (arith, and-low w (2 ^ suc n - 2), pow-suc 2 n, one-le-pow n 2)
bit_at-clear_at (suc n) zero (suc j) w hi hj =
    let e : (2 ^ suc n - 1 - 2 ^ 0) / 2 ≡ 2 ^ n - 1 = omega (arith, pow-suc 2 n, one-le-pow n 2) in
    ground (arith, and-half w (2 ^ suc n - 1 - 2 ^ 0), e, bit_at-mask n j (w / 2) (omega arith))
bit_at-clear_at (suc n) (suc i) zero w hi hj = ground (
  arith,
  and-low w (2 ^ suc n - 1 - 2 ^ suc i),
  pow-suc 2 n,
  pow-suc 2 i,
  pow-lt i n (omega arith),
)
bit_at-clear_at (suc n) (suc i) (suc j) w hi hj = ground (
  arith,
  and-half w (2 ^ suc n - 1 - 2 ^ suc i),
  hole-half n i (omega arith),
  bit_at-clear_at n i j (w / 2) (omega arith) (omega arith),
)

-- `w & ~(1 << i)` on a `uint32_t`
pub bit_at-clear :
    (i j w : ℕ)
    → i < 32
    → j < 32
    → bit_at j (bit_and w (bit_not (2 ^ i))) ≡ (if i == j then 0 else bit_at j w)
bit_at-clear i j w hi hj = bit_at-clear_at 32 i j w hi hj

-- `|` does not care about the order.
pub bit_or_comm : (k a b : ℕ) → a < 2 ^ k → b < 2 ^ k → bit_or a b ≡ bit_or b a
bit_or_comm zero a b ha hb =
    let ea : a ≡ 0 = omega arith in let eb : b ≡ 0 = omega arith in rw (ea, eb) refl
bit_or_comm (suc k) a b ha hb =
    let p = pow-suc 2 k in
    let rest = bit_or_comm k (a / 2) (b / 2) (omega (arith, p)) (omega (arith, p)) in
    ground (arith, or-half a b, or-half b a, or-low a b, or-low b a)

-- A cut to a byte keeps its bits.
pub bit_at-byte : (j x : ℕ) → j < 8 → bit_at j (x % 2 ^ 8) ≡ bit_at j x
unfolding bit_at
bit_at-byte zero x lt = omega arith
bit_at-byte (suc zero) x lt = omega arith
bit_at-byte (suc (suc zero)) x lt = omega arith
bit_at-byte (suc (suc (suc zero))) x lt = omega arith
bit_at-byte (suc (suc (suc (suc zero)))) x lt = omega arith
bit_at-byte (suc (suc (suc (suc (suc zero))))) x lt = omega arith
bit_at-byte (suc (suc (suc (suc (suc (suc zero)))))) x lt = omega arith
bit_at-byte (suc (suc (suc (suc (suc (suc (suc zero))))))) x lt = omega arith
bit_at-byte (suc (suc (suc (suc (suc (suc (suc (suc j)))))))) x lt = absurd (omega arith)
