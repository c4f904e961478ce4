-- ===== src/Cpu/Idt/Gates.antt =====
-- The handlers that the gates lead to.
use osver.Prelude.{
  ℕ, zero, suc, ◌+◌, ◌*◌, ◌/◌, ◌%◌, ◌^◌, ◌<◌, ◌≤◌, ◌≡◌, refl, ap, ◌∙◌, true, false, ◌&&◌, leb, ltb,
  ◌==◌, if◌then◌else◌, arith, Bool-cases, inl, inr, sym, ==_eq, subst,
}
use osver.Bits.{bit_and_low}
use osver.Cpu.Idt.{IdtEntry, Idt, gate, idt_set_gate, set_gates, idt_init}

-- the address of a handler that the fields stand for
pub offset_of : IdtEntry → ℕ
offset_of e = e.offset_low + 2 ^ 16 * e.offset_high

gate-offset :
    (handler selector flags : ℕ)
    → handler < 2 ^ 32
    → offset_of (gate handler selector flags) ≡ handler
unfolding offset_of gate
gate-offset handler selector flags lt =
    ground (arith, bit_and_low 16 handler, bit_and_low 16 (handler / 2 ^ 16))

-- the loop sets exactly its vectors
set_gates-idt :
    (left i base : ℕ) (stubs : ℕ → ℕ) (s : Idt) (v : ℕ)
    → base + i + left ≤ 256
    → (set_gates left i base stubs s).idt v
      ≡ (if leb (base + i) v && ltb v (base + i + left) then gate (stubs v) 0x08 0x8E else s.idt v)
unfolding set_gates idt_set_gate
set_gates-idt zero i base stubs s v le =
    elim (Bool-cases (leb (base + i) v && ltb v (base + i + 0))) [
      | inl e ↦ absurd (ground arith)
      | inr e ↦ rw e refl
    ]
set_gates-idt (suc left) i base stubs s v le =
    let rest =
      set_gates-idt left (i + 1) base stubs
        (idt_set_gate ((base + i) % 2 ^ 8) (stubs (base + i)) 0x08 0x8E s) v (omega arith) in
    elim (Bool-cases (v == base + i)) [
      | inl e ↦
          let here : (v == (base + i) % 2 ^ 8) ≡ true = ground arith in
          let past : (leb (base + (i + 1)) v && ltb v (base + (i + 1) + left)) ≡ false =
            ground arith in
          let test : (leb (base + i) v && ltb v (base + i + suc left)) ≡ true = ground arith in
          rest
          ∙ rw (past, here, test) (ap (λ x. gate (stubs x) 0x08 0x8E) (sym (==_eq v (base + i) e)))
      | inr e ↦
          let other : (v == (base + i) % 2 ^ 8) ≡ false = ground arith in
          let same : (leb (base + (i + 1)) v && ltb v (base + (i + 1) + left))
              ≡ (leb (base + i) v && ltb v (base + i + suc left)) =
            ground arith in
          rest ∙ rw (same, other) refl
    ]

-- A gate in segment 0x08 to a handler, with these attributes.
pub IsGate : ℕ → ℕ → IdtEntry → Type 0
IsGate handler attr e =
    (offset_of e ≡ handler) × (e.selector ≡ 0x08) × (e.zero ≡ 0) × (e.type_attr ≡ attr)

gate-IsGate : (handler attr : ℕ) → handler < 2 ^ 32 → IsGate handler attr (gate handler 0x08 attr)
unfolding IsGate gate
gate-IsGate handler attr lt = (gate-offset handler 0x08 attr lt, refl, refl, refl)

two_ranges :
    (v : ℕ) (a b : IdtEntry)
    → ◌≡◌ {A = IdtEntry}
        (if leb (32 + 0) v && ltb v (32 + 0 + 16)
          then a
          else (if leb (0 + 0) v && ltb v (0 + 0 + 32) then a else b))
        (if ltb v 48 then a else b)
two_ranges v a b = elim (Bool-cases (ltb v 48)) [
  | inl e ↦ elim (Bool-cases (ltb v 32)) [
    | inl f ↦
        let x : (leb (32 + 0) v && ltb v (32 + 0 + 16)) ≡ false = ground arith in
        let y : (leb (0 + 0) v && ltb v (0 + 0 + 32)) ≡ true = ground arith in rw (x, y, e) refl
    | inr f ↦
        let x : (leb (32 + 0) v && ltb v (32 + 0 + 16)) ≡ true = ground arith in rw (x, e) refl
  ]
  | inr e ↦
      let x : (leb (32 + 0) v && ltb v (32 + 0 + 16)) ≡ false = ground arith in
      let y : (leb (0 + 0) v && ltb v (0 + 0 + 32)) ≡ false = ground arith in rw (x, y, e) refl
]

all_stubs :
    (stubs : ℕ → ℕ) (s : Idt) (v : ℕ)
    → (set_gates 16 0 32 stubs (set_gates 32 0 0 stubs s)).idt v
      ≡ (if ltb v 48 then gate (stubs v) 0x08 0x8E else s.idt v)
all_stubs stubs s v =
    let first = set_gates-idt 32 0 0 stubs s v (omega arith) in
    let second = set_gates-idt 16 0 32 stubs (set_gates 32 0 0 stubs s) v (omega arith) in
    second
    ∙ ap (λ x. if leb (32 + 0) v && ltb v (32 + 0 + 16) then gate (stubs v) 0x08 0x8E else x) first
    ∙ two_ranges v (gate (stubs v) 0x08 0x8E) (s.idt v)

idt_init-idt :
    (stubs : ℕ → ℕ) (isr128 address : ℕ) (s : Idt) (v : ℕ)
    → (idt_init stubs isr128 address s).idt v ≡ (
        if v == 128
        then gate isr128 0x08 0xEF
        else (if ltb v 48 then gate (stubs v) 0x08 0x8E else s.idt v))
unfolding idt_init idt_set_gate
idt_init-idt stubs isr128 address s v =
    ap (λ x. if v == 128 then gate isr128 0x08 0xEF else x)
      (all_stubs stubs (record s { idt_ptr = record { limit = 2047; base = address } }) v)

-- After `idt_init`, where the stubs have 32-bit addresses, each of the vectors 0 to 47 leads to its stub by
-- an interrupt gate that only the kernel can call, vector 128 leads to the stub of the system calls by a trap
-- gate that every level can call, and every other vector is as it was.
pub idt_init-IsGate :
    (stubs : ℕ → ℕ) (isr128 address : ℕ) (s : Idt) (v : ℕ)
    → ((i : ℕ) → stubs i < 2 ^ 32)
    → isr128 < 2 ^ 32
    → let e = (idt_init stubs isr128 address s).idt v in
      if ltb v 48
      then IsGate (stubs v) 0x8E e
      else if v == 128
      then IsGate isr128 0xEF e
      else (e ≡ s.idt v)
idt_init-IsGate stubs isr128 address s v fits fits128 =
    let at = idt_init-idt stubs isr128 address s v in
    elim (Bool-cases (ltb v 48)) [
      | inl low ↦
          let other : (v == 128) ≡ false = ground arith in
          rw low (
            subst (IsGate (stubs v) 0x8E) (sym (at ∙ rw (other, low) refl))
              (gate-IsGate (stubs v) 0x8E (fits v)))
      | inr high ↦ rw high (elim (Bool-cases (v == 128)) [
        | inl call ↦
            rw call (
              subst (IsGate isr128 0xEF) (sym (at ∙ rw call refl))
                (gate-IsGate isr128 0xEF fits128))
        | inr other ↦ rw other (at ∙ rw (other, high) refl)
      ])
    ]
