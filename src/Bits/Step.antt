-- ===== src/Bits/Step.antt =====
-- How `bit_and` and `bit_or` recur on their operands' halves. The definitions that the native
-- operations stand for count down fuel, of which the first operand is always enough.
use Prim.Native.Nat.{digits, bitwise, bit_and-bitwise, bit_or-bitwise}
use osver.Prelude.{
  ℕ, zero, suc, ◌+◌, ◌-◌, ◌*◌, ◌/◌, ◌%◌, ◌≤◌, min, max, bit_and, bit_or, ◌≡◌, refl, ap, ◌∙◌, arith,
}

module _ (at_zero : ℕ → ℕ) (digit : ℕ → ℕ → ℕ) where
  one_more : (x y n : ℕ) → x ≤ n → digits at_zero digit n x y ≡ digits at_zero digit (suc n) x y
  one_more zero y zero small = refl
  one_more zero y (suc n) small = refl
  one_more (suc x) y zero small = absurd (omega arith)
  one_more (suc x) y (suc n) small =
      ap (λ t. t * 2 + digit (suc x % 2) (y % 2)) (one_more (suc x / 2) (y / 2) n (omega arith))

  spare :
      (k x y n m : ℕ) → n + k ≡ m → x ≤ n → digits at_zero digit n x y ≡ digits at_zero digit m x y
  spare zero x y n m e small = ap (λ f. digits at_zero digit f x y) (omega arith)
  spare (suc k) x y n m e small =
      one_more x y n small ∙ spare k x y (suc n) m (omega arith) (omega arith)

  halves :
      (x y : ℕ)
      → bitwise at_zero digit (suc x) y
        ≡ digit (suc x % 2) (y % 2) + 2 * bitwise at_zero digit (suc x / 2) (y / 2)
  halves x y =
      let h = suc x / 2 in omega (arith, spare (x - h) h (y / 2) h x (omega arith) (omega arith))

pub bit_and_halves : (x y : ℕ) → bit_and x y ≡ min (x % 2) (y % 2) + 2 * bit_and (x / 2) (y / 2)
bit_and_halves zero y = omega (arith, bit_and-bitwise 0 y, bit_and-bitwise 0 (y / 2))
bit_and_halves (suc x) y =
    omega (
      arith,
      halves (λ t. 0) min x y,
      bit_and-bitwise (suc x) y,
      bit_and-bitwise (suc x / 2) (y / 2),
    )

pub bit_or_halves : (x y : ℕ) → bit_or x y ≡ max (x % 2) (y % 2) + 2 * bit_or (x / 2) (y / 2)
bit_or_halves zero y = omega (arith, bit_or-bitwise 0 y, bit_or-bitwise 0 (y / 2))
bit_or_halves (suc x) y =
    omega
      (arith, halves (λ t. t) max x y, bit_or-bitwise (suc x) y, bit_or-bitwise (suc x / 2) (y / 2))

-- Both operations with 0, for all numbers up to a bound.
with_zero : (bound x : ℕ) → x ≤ bound → (bit_and x 0 ≡ 0) × (bit_or x 0 ≡ x)
with_zero bound zero small = (refl, refl)
with_zero zero (suc x) small = absurd (omega arith)
with_zero (suc bound) (suc x) small =
    let rest = with_zero bound (suc x / 2) (omega arith) in
    (
      omega (arith, bit_and_halves (suc x) 0, rest.0),
      omega (arith, bit_or_halves (suc x) 0, rest.1),
    )

pub bit_and-zero : (x : ℕ) → bit_and x 0 ≡ 0
bit_and-zero x = (with_zero x x (omega arith)).0

pub bit_or-zero : (x : ℕ) → bit_or x 0 ≡ x
bit_or-zero x = (with_zero x x (omega arith)).1
