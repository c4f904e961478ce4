-- ===== src/Serial/Lines.antt =====
-- What a text is sent as.
use osver.Prelude.{
  ℕ, zero, suc, ◌+◌, ◌%◌, ◌^◌, ◌<◌, ◌≡◌, refl, ap, ◌∙◌, sym, Bool, true, false, not, Option, some,
  none, List, [], ◌∷◌, ◌++◌, ◌==◌, if◌then◌else◌, bit_and, arith, Bool-cases, inl, inr, subst,
}
use mathlib.Core.List.{append_assoc, append-nil}
use osver.Serial.{
  Serial, outb, com1_data, lsr_thr_empty, wait_tx_empty, send, serial_putc, serial_puts,
}

-- the writes for a text: every line feed becomes a carriage return and a line feed
pub crlf : List ℕ → List (ℕ × ℕ)
crlf [] = []
crlf (c ∷ cs) =
    if c == 10
    then (com1_data, 13) ∷ (com1_data, 10) ∷ crlf cs
    else (com1_data, c % 2 ^ 8) ∷ crlf cs

-- Of any `fuel` reads in a row, one finds the transmitter empty.
unfoldable pub Answers : (ℕ → ℕ) → ℕ → Type 0
Answers status fuel =
    (n : ℕ) → (k : ℕ) × (k < fuel) × ((bit_and (status (n + k)) lsr_thr_empty == 0) ≡ false)

-- A call that returns: it has written these bytes more and is initialised as before.
pub Sent : List (ℕ × ℕ) → Serial → Option Serial → Type 0
Sent ws s o =
    (s' : Serial) × (o ≡ some s') × (s'.writes ≡ s.writes ++ ws) × (s'.initialized ≡ s.initialized)

is_on : {A : Type 0} (b : Bool) (x y : A) → b ≡ true → (if not b then x else y) ≡ y
is_on b x y e = rw e refl

is_off : {A : Type 0} (b : Bool) (x y : A) → b ≡ false → (if not b then x else y) ≡ x
is_off b x y e = rw e refl

is_true : {A : Type 0} (b : Bool) (x y : A) → b ≡ true → (if b then x else y) ≡ x
is_true b x y e = rw e refl

is_false : {A : Type 0} (b : Bool) (x y : A) → b ≡ false → (if b then x else y) ≡ y
is_false b x y e = rw e refl

at_once : (n : ℕ) → n + 0 ≡ n
at_once n = omega arith

later : (n k : ℕ) → n + 1 + k ≡ n + suc k
later n k = omega arith

crlf_first : (c : ℕ) (cs : List ℕ) → crlf (c ∷ cs) ≡ crlf (c ∷ []) ++ crlf cs
unfolding crlf
crlf_first c cs = elim (Bool-cases (c == 10)) [ inl e ↦ rw e refl | inr e ↦ rw e refl ]

module _ (status : ℕ → ℕ) where
  waits :
      (fuel : ℕ) (s : Serial) (k : ℕ)
      → k < fuel
      → (bit_and (status (s.reads + k)) lsr_thr_empty == 0) ≡ false
      → (s' : Serial) × (wait_tx_empty status fuel s ≡ some s')
        × (s'.writes ≡ s.writes)
        × (s'.initialized ≡ s.initialized)
  unfolding wait_tx_empty
  waits zero s k lt h = absurd (omega arith)
  waits (suc fuel) s zero lt h =
      let e : (bit_and (status s.reads) lsr_thr_empty == 0) ≡ false = rw⁻¹ (at_once s.reads) h in
      (record s { reads = s.reads + 1 }, rw e refl, refl, refl)
  waits (suc fuel) s (suc k) lt h =
      let after = record s { reads = s.reads + 1 } in
      let (s', run, writes, kept) = waits fuel after k (omega arith) (rw (later s.reads k) h) in
      elim (Bool-cases (bit_and (status s.reads) lsr_thr_empty == 0)) [
        | inr now ↦ (after, rw now refl, refl, refl)
        | inl busy ↦ (s', rw (busy, run) refl, writes, kept)
      ]

  sends :
      (fuel c : ℕ) (s : Serial)
      → Answers status fuel
      → Sent ((com1_data, c % 2 ^ 8) ∷ []) s (send status fuel c s)
  unfolding send Answers Sent outb
  sends fuel c s ready =
      let (k, lt, h) = ready s.reads in
      let (s1, run, writes, kept) = waits fuel s k lt h in
      (
        outb com1_data c s1,
        rw (send, run) refl,
        ap (λ w. w ++ ((com1_data, c % 2 ^ 8) ∷ [])) writes,
        kept,
      )

  both :
      (fuel c : ℕ) (s s1 s2 : Serial)
      → send status fuel 13 s ≡ some s1
      → send status fuel c s1 ≡ some s2
      → (elim (send status fuel 13 s) [ none ↦ none | some x ↦ send status fuel c x ]) ≡ some s2
  both fuel c s s1 s2 first second = rw first second

  puts_one :
      (fuel c : ℕ) (s : Serial)
      → Answers status fuel
      → s.initialized ≡ true
      → Sent (crlf (c ∷ [])) s (serial_putc status fuel c s)
  unfolding serial_putc crlf Sent
  puts_one fuel c s ready on = elim (Bool-cases (c == 10)) [
    | inl e ↦
        let (s1, run1, writes1, kept1) = sends fuel 13 s ready in
        let (s2, run2, writes2, kept2) = sends fuel c s1 ready in
        let ten : c % 2 ^ 8 ≡ 10 = ground arith in
        (
          s2,
          is_on s.initialized _ _ on ∙ rw e (both fuel c s s1 s2 run1 run2),
          writes2
              ∙ ap (λ w. w ++ ((com1_data, c % 2 ^ 8) ∷ [])) writes1
              ∙ append_assoc s.writes _ _
              ∙ rw (e, ten) refl,
          kept2 ∙ kept1,
        )
    | inr e ↦
        let (s1, run, writes, kept) = sends fuel c s ready in
        (s1, is_on s.initialized _ _ on ∙ rw e run, writes ∙ rw e refl, kept)
  ]

  puts_first :
      (fuel c : ℕ) (cs : List ℕ) (s s1 s2 : Serial)
      → serial_putc status fuel c s ≡ some s1
      → serial_puts status fuel cs s1 ≡ some s2
      → serial_puts status fuel (c ∷ cs) s ≡ some s2
  unfolding serial_puts
  puts_first fuel c cs s s1 s2 first second = rw (serial_puts, first) second

  puts_on :
      (fuel : ℕ) (cs : List ℕ) (s : Serial)
      → Answers status fuel
      → s.initialized ≡ true
      → Sent (crlf cs) s (serial_puts status fuel cs s)
  unfolding serial_puts Sent crlf
  puts_on fuel [] s ready on = (s, refl, sym (append-nil s.writes), refl)
  puts_on fuel (c ∷ cs) s ready on =
      let (s1, run1, writes1, kept1) = puts_one fuel c s ready on in
      let (s2, run2, writes2, kept2) = puts_on fuel cs s1 ready (kept1 ∙ on) in
      (
        s2,
        puts_first fuel c cs s s1 s2 run1 run2,
        writes2
            ∙ ap (λ w. w ++ crlf cs) writes1
            ∙ append_assoc s.writes (crlf (c ∷ [])) (crlf cs)
            ∙ ap (λ w. s.writes ++ w) (sym (crlf_first c cs)),
        kept2 ∙ kept1,
      )

  silent :
      (fuel : ℕ) (cs : List ℕ) (s : Serial)
      → serial_puts status fuel cs s ≡ some s
      → Sent [] s (serial_puts status fuel cs s)
  unfolding Sent
  silent fuel cs s run = (s, run, sym (append-nil s.writes), refl)

  puts_off :
      (fuel : ℕ) (cs : List ℕ) (s : Serial)
      → s.initialized ≡ false
      → serial_puts status fuel cs s ≡ some s
  unfolding serial_puts serial_putc
  puts_off fuel [] s off = refl
  puts_off fuel (c ∷ cs) s off =
      puts_first fuel c cs s s s (is_off s.initialized _ _ off) (puts_off fuel cs s off)

  -- When the transmitter becomes empty within the fuel, `serial_puts` returns; an initialised console has then
  -- sent the text with every line feed as a carriage return and a line feed, and one that is not has sent
  -- nothing.
  pub serial_puts-Sent :
      (fuel : ℕ) (cs : List ℕ) (s : Serial)
      → Answers status fuel
      → Sent (if s.initialized then crlf cs else []) s (serial_puts status fuel cs s)
  serial_puts-Sent fuel cs s ready = elim (Bool-cases s.initialized) [
    | inl on ↦
        subst (λ ws. Sent ws s (serial_puts status fuel cs s)) (sym (is_true s.initialized _ _ on))
          (puts_on fuel cs s ready on)
    | inr off ↦
        subst (λ ws. Sent ws s (serial_puts status fuel cs s))
          (sym (is_false s.initialized _ _ off)) (silent fuel cs s (puts_off fuel cs s off))
  ]
