-- ===== src/Interrupt/Preempt.antt =====
-- Preemption: the interrupts of the timer take the processor from a task at the end of its slice.
use osver.Prelude.{
  ℕ, zero, suc, ◌+◌, ◌%◌, ◌^◌, ◌<◌, ◌≡◌, refl, sym, ap, ◌∙◌, Bool, true, false, some, List, [], ◌∷◌,
  ◌++◌, length, replicate, ◌==◌, ==_eq, if◌then◌else◌, arith, Bool-cases, inl, inr,
}
use osver.Task.{Sched, Task, done, put, task_yield}
use osver.Task.Create.{task_tick, task_should_resched}
use osver.Task.Ring.Rounds.{IsRound, switched, turns, same_round}
use osver.Cpu.Pic.{pic_send_eoi, outb, pic1_cmd, pic_eoi}
use mathlib.Core.List.{append_assoc}
use osver.Task.Slice.{tick-last, tick-slice}
use osver.Timer
use osver.Interrupt.{
  Frame, Machine, Table, Ended, back, gone, stopped, isr_handler, reschedule, yield_if, after_irq,
}
use osver.Interrupt
use osver.Interrupt.Handlers.{timer_irq}

-- the same interrupt again and again, until the task is left
pub interrupts : ℕ → Table → Frame → Machine → Ended
interrupts zero handlers f m = back f m
interrupts (suc n) handlers f m = elim (isr_handler handlers f m) [
  | back f' m' ↦ interrupts n handlers f' m'
  | gone t m' ↦ gone t m'
  | stopped m' ↦ stopped m'
  | Interrupt.halted ↦ Interrupt.halted
  | Interrupt.out_of_fuel ↦ Interrupt.out_of_fuel
]

-- the machine behind the handler of the timer and the acknowledgement
ticked : Machine → Machine
ticked m = record m {
  kernel = record m.kernel {
    ticks = Timer.timer_irq m.kernel.ticks;
    sched = task_tick m.kernel.sched;
  };
  pic = pic_send_eoi 0 m.pic;
}

timer_once :
    (handlers : Table) (f : Frame) (m : Machine)
    → handlers 32 ≡ some timer_irq
    → isr_handler handlers (record f { int_no = 32 }) m
      ≡ reschedule (record f { int_no = 32 }) (ticked m)
unfolding isr_handler ticked after_irq timer_irq
timer_once handlers f m on = rw on refl

-- a task keeps its place and its state
Same : Sched → Sched → ℕ → Type 0
Same s s' q = ((s'.tasks q).next ≡ (s.tasks q).next) × ((s'.tasks q).state ≡ (s.tasks q).state)

chosen : (P : Sched → Type 0) (b : Bool) (x y : Sched) → P x → P y → P (if b then x else y)
chosen P true x y px py = px
chosen P false x y px py = py

put-Same :
    (p q : ℕ) (t : Task) (s : Sched)
    → t.next ≡ (s.tasks p).next
    → t.state ≡ (s.tasks p).state
    → Same s (put p t s) q
unfolding put Same
put-Same p q t s next state = elim (Bool-cases (q == p)) [
  | inl e ↦
      let same = sym (==_eq q p e) in
      rw e (next ∙ ap (λ x. (s.tasks x).next) same, state ∙ ap (λ x. (s.tasks x).state) same)
  | inr e ↦ rw e (refl, refl)
]

tick-Same : (s : Sched) (q : ℕ) → Same s (task_tick s) q
unfolding task_tick Same
tick-Same s q =
    chosen (λ x. Same s x q) s.active _ s (put-Same s.current q _ s refl refl) (refl, refl)

tick-active : (s : Sched) → (task_tick s).active ≡ s.active
unfolding task_tick put
tick-active s = chosen (λ x. x.active ≡ s.active) s.active _ s refl refl

tick-current : (s : Sched) → (task_tick s).current ≡ s.current
unfolding task_tick put
tick-current s = chosen (λ x. x.current ≡ s.current) s.active _ s refl refl

tick-round :
    (s : Sched) (from : ℕ) (cs : List ℕ) → IsRound s from cs → IsRound (task_tick s) from cs
unfolding Same
tick-round s from cs round =
    same_round s (task_tick s) from cs (tick-active s) (tick-current s) (tick-Same s) round

tick-waits :
    (s : Sched) (n : ℕ)
    → s.active ≡ true
    → (s.tasks s.current).slice_left ≡ suc (suc n)
    → s.need_resched ≡ false
    → (task_tick s).need_resched ≡ false
unfolding task_tick put
tick-waits s n on left calm = ground arith

not_asked : (s : Sched) → s.need_resched ≡ false → task_should_resched s ≡ (false, s)
unfolding task_should_resched
not_asked s calm = pick s.need_resched _ _ calm
  where
    pick : (b : Bool) (x y : Bool × Sched) → b ≡ false → (if b then x else y) ≡ y
    pick b x y e = rw e refl

asked_for :
    (s : Sched)
    → s.need_resched ≡ true
    → task_should_resched s ≡ (true, record s { need_resched = false })
unfolding task_should_resched
asked_for s asked = pick s.need_resched _ _ asked
  where
    pick : (b : Bool) (x y : Bool × Sched) → b ≡ true → (if b then x else y) ≡ x
    pick b x y e = rw e refl

-- behind the interrupt, when no switch is asked for
goes_on :
    (f : Frame) (m : Machine) → m.kernel.sched.need_resched ≡ false → reschedule f m ≡ back f m
unfolding reschedule
goes_on f m calm = ap (λ r. yield_if r f m) (not_asked m.kernel.sched calm)

-- and when one is
switches :
    (f : Frame) (m : Machine) (t : ℕ) (s : Sched)
    → m.kernel.sched.need_resched ≡ true
    → task_yield (record m.kernel.sched { need_resched = false }) ≡ done (some t) s
    → reschedule f m ≡ gone t (record m { kernel = record m.kernel { sched = s } })
unfolding reschedule yield_if
switches f m t s asked yield =
    ap (λ r. yield_if r f m) (asked_for m.kernel.sched asked) ∙ rw yield refl

acknowledged : (m : Machine) → (ticked m).pic.writes ≡ m.pic.writes ++ ((pic1_cmd, pic_eoi) ∷ [])
unfolding ticked pic_send_eoi outb
acknowledged m = refl

again :
    (n : ℕ) (e : ℕ × ℕ) (ws : List (ℕ × ℕ))
    → (ws ++ (e ∷ [])) ++ replicate n e ≡ ws ++ replicate (suc n) e
again n e ws = append_assoc ws (e ∷ []) (replicate n e)

counted : (t : ℕ) → Timer.timer_irq t ≡ (t + 1) % 2 ^ 32
unfolding Timer.timer_irq
counted t = refl

counted_on : (t n : ℕ) → (Timer.timer_irq t + suc n) % 2 ^ 32 ≡ (t + suc (suc n)) % 2 ^ 32
unfolding Timer.timer_irq
counted_on t n = omega arith

-- What the timer's interrupts through the rest of a slice end in: the task `c` runs, and these are the ring,
-- the acknowledgements and the ticks.
pub Preempted : ℕ → ℕ → List ℕ → Machine → Ended → Type 0
Preempted n c others m e =
    (m' : Machine) × (e ≡ gone c m')
    × IsRound m'.kernel.sched c others
    × (m'.pic.writes ≡ m.pic.writes ++ replicate n (pic1_cmd, pic_eoi))
    × (m'.kernel.ticks ≡ (m.kernel.ticks + n) % 2 ^ 32)

interrupts_first :
    (n : ℕ) (handlers : Table) (f f' : Frame) (m m' : Machine)
    → isr_handler handlers f m ≡ back f' m'
    → interrupts (suc n) handlers f m ≡ interrupts n handlers f' m'
unfolding interrupts
interrupts_first n handlers f f' m m' e = rw (interrupts, e) refl

interrupts_last :
    (n : ℕ) (handlers : Table) (f : Frame) (t : ℕ) (m m' : Machine)
    → isr_handler handlers f m ≡ gone t m'
    → interrupts (suc n) handlers f m ≡ gone t m'
unfolding interrupts
interrupts_last n handlers f t m m' e = rw (interrupts, e) refl

-- In a ring without zombies, where no switch is asked for and the current task has some ticks of its slice
-- left, so many interrupts of the timer end its turn: each is acknowledged once and counted as a tick, all
-- but the last come back to the task, and the last switches to the next task of the ring, behind which the old
-- one is the last.
pub isr_handler-Preempted :
    (n : ℕ) (handlers : Table) (f : Frame) (m : Machine) (from c : ℕ) (cs : List ℕ)
    → handlers 32 ≡ some timer_irq
    → IsRound m.kernel.sched from (c ∷ cs)
    → length cs + 1 < 2 ^ 32
    → m.kernel.sched.need_resched ≡ false
    → (m.kernel.sched.tasks m.kernel.sched.current).slice_left ≡ suc n
    → Preempted
        (suc n)
        c
        (cs ++ (from ∷ []))
        m
        (interrupts (suc n) handlers (record f { int_no = 32 }) m)
unfolding Preempted ticked
isr_handler-Preempted zero handlers f m from c cs on round lt calm left =
    let s = m.kernel.sched in
    let s1 : Sched = record (task_tick s) { need_resched = false } in
    let round1 : IsRound s1 from (c ∷ cs) =
      same_round (task_tick s) s1 from (c ∷ cs) refl refl (λ q. (refl, refl))
        (tick-round s from (c ∷ cs) round) in
    let (yield, next) = turns s1 from c cs round1 lt in
    (
      record (ticked m) { kernel = record (ticked m).kernel { sched = switched c s1 } },
      interrupts_last zero handlers (record f { int_no = 32 }) c m _
          (timer_once handlers f m on
            ∙ switches (record f { int_no = 32 }) (ticked m) c (switched c s1)
                (tick-last s round.active left) yield),
      next,
      acknowledged m,
      counted m.kernel.ticks,
    )
isr_handler-Preempted (suc n) handlers f m from c cs on round lt calm left =
    let s = m.kernel.sched in
    let (m', run, next, acks, ticks) =
      isr_handler-Preempted n handlers f (ticked m) from c cs on (tick-round s from (c ∷ cs) round)
        lt (tick-waits s n round.active left calm) (tick-slice s (suc n) round.active left) in
    (
      m',
      interrupts_first (suc n) handlers _ _ m (ticked m) (
            timer_once handlers f m on
            ∙ goes_on (record f { int_no = 32 }) (ticked m) (tick-waits s n round.active left calm))
          ∙ run,
      next,
      acks
          ∙ ap (λ ws. ws ++ replicate (suc n) (pic1_cmd, pic_eoi)) (acknowledged m)
          ∙ again (suc n) (pic1_cmd, pic_eoi) m.pic.writes,
      ticks ∙ counted_on m.kernel.ticks n,
    )
