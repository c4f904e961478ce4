-- ===== src/Cpu/Pic/Masks.antt =====
-- Which interrupts are masked.
use osver.Prelude.{
  ℕ, ◌≢◌, ==_eq, ◌*◌, ◌%◌, ◌^◌, ◌<◌, ◌≡◌, refl, ap, ◌∙◌, sym, false, ◌==◌, eq_==, ne_==,
  if◌then◌else◌, arith, Bool-cases, inl, inr, bit_and, bit_or,
}
use osver.Bits.{bit_not}
use osver.Bits.Single.{bit_at, bit_at-set, bit_at-clear, bit_at-byte}
use osver.Cpu.Pic.{Ports, outb, inb, mask_port, mask_bit, pic_mask_irq, pic_unmask_irq}

-- the bit of an interrupt in its mask register
pub masked : ℕ → Ports → ℕ
masked irq s = bit_at (mask_bit irq) (s.last (mask_port irq))

same_bit :
    (irq q : ℕ)
    → irq < 16
    → q < 16
    → mask_port irq ≡ mask_port q
    → mask_bit irq ≡ mask_bit q
    → irq ≡ q
unfolding mask_port mask_bit
same_bit irq q hi hq e f = ground arith

bit-lt : (irq : ℕ) → irq < 16 → mask_bit irq < 8
unfolding mask_bit
bit-lt irq lt = ground arith

-- a write of a byte to the register of `irq`, seen from `q`
after_write :
    (irq q v : ℕ) (s : Ports)
    → irq < 16
    → q < 16
    → (b : ℕ)
    → ((j : ℕ)
        → j < 8
        → bit_at j (v % 2 ^ 8)
          ≡ (if mask_bit irq == j then b else bit_at j (s.last (mask_port irq))))
    → masked q (outb (mask_port irq) (v % 2 ^ 8) s) ≡ (if q == irq then b else masked q s)
unfolding masked outb
after_write irq q v s hi hq b bits = elim (Bool-cases (mask_port q == mask_port irq)) [
  | inl same ↦ elim (Bool-cases (q == irq)) [
    | inl e ↦
        let k : mask_bit irq ≡ mask_bit q = ap mask_bit (sym (==_eq q irq e)) in
        rw (same, e) (bits (mask_bit q) (bit-lt q hq) ∙ rw (eq_== _ _ k) refl)
    | inr e ↦
        let ports = ==_eq (mask_port q) (mask_port irq) same in
        let k : mask_bit irq ≢ mask_bit q =
          λ f. (let h = same_bit irq q hi hq (sym ports) f in absurd (ground arith)) in
        rw (same, e)
          (bits (mask_bit q) (bit-lt q hq)
            ∙ rw (ne_== _ _ k) (ap (λ p. bit_at (mask_bit q) (s.last p)) (sym ports)))
  ]
  | inr apart ↦
      let e : (q == irq) ≡ false = elim (Bool-cases (q == irq)) [
        | inl e ↦ absurd (
            let h = eq_== (mask_port q) (mask_port irq) (ap mask_port (==_eq q irq e)) in
            ground arith)
        | inr e ↦ e
      ] in
      rw (apart, e) refl
]

-- Of the 16 interrupts, `pic_mask_irq` masks the given one and `pic_unmask_irq` unmasks it, in whichever of
-- the two controllers it is, and every other interrupt stays as it was.
pub pic_mask_irq-masked :
    (irq q : ℕ) (s : Ports)
    → irq < 16
    → q < 16
    → (masked q (pic_mask_irq irq s) ≡ (if q == irq then 1 else masked q s))
      × (masked q (pic_unmask_irq irq s) ≡ (if q == irq then 0 else masked q s))
unfolding pic_mask_irq pic_unmask_irq inb
pic_mask_irq-masked irq q s hi hq =
    let old = s.last (mask_port irq) in
    let bit = mask_bit irq in
    let small = bit-lt irq hi in
    let one : 1 * 2 ^ bit ≡ 2 ^ bit = omega arith in
    (
      after_write irq q _ s hi hq 1 (λ j lt.
          bit_at-byte j _ lt ∙ ap (λ w. bit_at j (bit_or old w)) one ∙ bit_at-set bit j old),
      after_write irq q _ s hi hq 0 (λ j lt.
          bit_at-byte j _ lt
          ∙ ap (λ w. bit_at j (bit_and old (bit_not w))) one
          ∙ bit_at-clear bit j old (omega arith) (omega arith)),
    )
