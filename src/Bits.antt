-- ===== src/Bits.antt =====
-- The bit operations of C on unsigned words, as arithmetic.
pub mod Single
mod Step
use Step.{bit_or_halves, bit_and_halves, bit_and-zero, bit_or-zero}
use osver.Prelude.{
  ℕ, zero, suc, ◌+◌, ◌-◌, ◌*◌, ◌/◌, ◌%◌, ◌^◌, ◌≤◌, ◌<◌, min, max, bit_and, bit_or, ◌≡◌, refl, ap,
  ◌∙◌, arith,
}
use native.Mathlib.Nat.{pow-suc, one-le-pow, mul_comm}

-- `~x` on a `uint32_t`.
abbrev pub bit_not : ℕ → ℕ
bit_not x = 2 ^ 32 - 1 - x

-- `x >> k` and `x << k`, the latter before it is cut to its width
abbrev pub shr : ℕ → ℕ → ℕ
shr x k = x / 2 ^ k

abbrev pub shl : ℕ → ℕ → ℕ
shl x k = x * 2 ^ k

double : (m k : ℕ) → m * 2 ^ suc k ≡ 2 * (m * 2 ^ k)
double m k = let e = ap (λ (t : ℕ). m * t) (pow-suc 2 k) in omega arith

half_fits : (k r : ℕ) → r < 2 ^ suc k → r / 2 < 2 ^ k
half_fits k r fits = omega (arith, pow-suc 2 k)

-- `|` of a high field and a low one that does not reach it is their sum.
pub bit_or_disjoint :
    (k high low : ℕ) → low < 2 ^ k → bit_or (high * 2 ^ k) low ≡ high * 2 ^ k + low
bit_or_disjoint zero high low fits = ground (arith, bit_or-zero high)
bit_or_disjoint (suc k) high low fits =
    let rest = bit_or_disjoint k high (low / 2) (half_fits k low fits) in
    ground (arith, bit_or_halves (high * 2 ^ suc k) low, double high k, pow-suc 2 k)

-- `k` ones select the low field.
select : (k low high : ℕ) → low < 2 ^ k → bit_and (high * 2 ^ k + low) (2 ^ k - 1) ≡ low
select zero low high fits = let e = bit_and-zero (high * 1 + low) in omega arith
select (suc k) low high fits =
    let rest = select k (low / 2) high (half_fits k low fits) in
    ground
      (arith, bit_and_halves (high * 2 ^ suc k + low) (2 ^ suc k - 1), pow-suc 2 k, double high k)

-- So they keep the remainder by `2 ^ k`.
pub bit_and_low : (k x : ℕ) → bit_and x (2 ^ k - 1) ≡ x % 2 ^ k
bit_and_low k x = ground (arith, select k (x % 2 ^ k) (x / 2 ^ k), one-le-pow k 2)

-- `|` with a number of `k` bits leaves the field above them alone.
pub bit_or_low :
    (k high a b : ℕ)
    → a < 2 ^ k
    → b < 2 ^ k
    → bit_or (high * 2 ^ k + a) b ≡ high * 2 ^ k + bit_or a b
bit_or_low zero high a b fits fits' =
    let ea : a ≡ 0 = omega arith in
    let eb : b ≡ 0 = omega arith in
    rw (ea, eb) (ground (arith, bit_or-zero (high * 1 + 0), bit_or-zero 0))
bit_or_low (suc k) high a b fits fits' =
    let rest = bit_or_low k high (a / 2) (b / 2) (half_fits k a fits) (half_fits k b fits') in
    ground
      (arith, bit_or_halves (high * 2 ^ suc k + a) b, bit_or_halves a b, double high k, pow-suc 2 k)

-- `x | 1` is the odd number of the pair that `x` stands in.
pub bit_or-one : (x : ℕ) → bit_or x 1 ≡ x / 2 * 2 + 1
bit_or-one x = omega (arith, bit_or_halves x 1, bit_or-zero (x / 2))

-- The lowest `k` digits are 0.
unfoldable pub IsClear : ℕ → ℕ → Type 0
IsClear zero x = Unit {0}
IsClear (suc k) x = (x % 2 ≡ 0) × IsClear k (x / 2)

-- The low digits of `x | y` are 0 only if both numbers' are.
pub bit_or-IsClear : (k x y : ℕ) → IsClear k (bit_or x y) → IsClear k x × IsClear k y
unfolding IsClear
bit_or-IsClear zero x y h = (tt, tt)
bit_or-IsClear (suc k) x y h =
    let halves = bit_or_halves x y in
    let half : bit_or x y / 2 ≡ bit_or (x / 2) (y / 2) = omega arith in
    let rest = bit_or-IsClear k (x / 2) (y / 2) (rw half at h.1) in
    ((omega arith, rest.0), (omega arith, rest.1))

-- A mask whose `k` low bits are clear acts on the field above them.
pub bit_and_high :
    (k q r m : ℕ) → r < 2 ^ k → bit_and (q * 2 ^ k + r) (m * 2 ^ k) ≡ bit_and q m * 2 ^ k
bit_and_high zero q r m fits =
    let e : q * 1 + r ≡ q = omega arith in
    let f : m * 1 ≡ m = omega arith in rw (e, f) (omega arith)
bit_and_high (suc k) q r m fits = ground (
  arith,
  double q k,
  double m k,
  double (bit_and q m) k,
  pow-suc 2 k,
  bit_and_halves (q * 2 ^ suc k + r) (m * 2 ^ suc k),
  bit_and_high k q (r / 2) m (omega (arith, pow-suc 2 k)),
)

-- A mask of `j` ones above `k` zeros: the low bits are cleared, those above cut off.
pub bit_and_clear_low : (k j a : ℕ) → bit_and a ((2 ^ j - 1) * 2 ^ k) ≡ a / 2 ^ k % 2 ^ j * 2 ^ k
bit_and_clear_low k j a = ground (
  arith,
  one-le-pow k 2,
  bit_and_high k (a / 2 ^ k) (a % 2 ^ k) (2 ^ j - 1),
  bit_and_low j (a / 2 ^ k),
)
