-- ===== src/Task/Slice.antt =====
-- The time slice, and which task runs next.
use osver.Prelude.{
  ℕ, zero, suc, ◌-◌, ◌^◌, ◌≡◌, ◌≢◌, refl, ap, ◌∙◌, Bool, true, eq_==, ne_==, if◌then◌else◌, arith,
  some, none, Option,
}
use osver.Task.{
  Sched, ready, running, halted, out_of_fuel, put, ready_insert_after_current, Outcome, done, bind,
  pick_loop, pick_next, task_yield, ring_fuel,
}
use osver.Task.Create.{task_tick}

-- ticks of the timer without a switch between
unfoldable pub ticks : ℕ → Sched → Sched
ticks zero s = s
ticks (suc n) s = ticks n (task_tick s)

tick-kept : (s : Sched) → s.active ≡ true → (task_tick s).active ≡ true
unfolding task_tick put
tick-kept s on = ground arith

pub tick-slice :
    (s : Sched) (n : ℕ)
    → s.active ≡ true
    → (s.tasks s.current).slice_left ≡ suc n
    → ((task_tick s).tasks (task_tick s).current).slice_left ≡ n
unfolding task_tick put
tick-slice s n on h = ground arith

pub tick-last :
    (s : Sched)
    → s.active ≡ true
    → (s.tasks s.current).slice_left ≡ 1
    → (task_tick s).need_resched ≡ true
unfolding task_tick put
tick-last s on h = ground arith

-- The timer ends a slice: after as many ticks as the current task has left, at least one, a switch is
-- asked for.
pub ticks-need_resched :
    (n : ℕ) (s : Sched)
    → s.active ≡ true
    → (s.tasks s.current).slice_left ≡ suc n
    → (ticks (suc n) s).need_resched ≡ true
unfolding ticks
ticks-need_resched zero s on h = tick-last s on h
ticks-need_resched (suc n) s on h =
    ticks-need_resched n (task_tick s) (tick-kept s on) (tick-slice s (suc n) on h)

-- The context goes to this task, which is then the current one and is running.
pub SwitchesTo : ℕ → Outcome (Option ℕ) → Type 0
SwitchesTo t (done none s) = ⊥
SwitchesTo t (done (some u) s) = (u ≡ t) × (s.current ≡ t) × ((s.tasks t).state ≡ running)
SwitchesTo t halted = ⊥
SwitchesTo t out_of_fuel = ⊥

if_active :
    (t : ℕ) (b : Bool) (x y : Outcome (Option ℕ))
    → b ≡ true
    → SwitchesTo t x
    → SwitchesTo t (if b then x else y)
if_active t b x y e p = rw (e) p

bind_done :
    (t : ℕ) (o : Outcome ℕ) (k : ℕ → Sched → Outcome (Option ℕ)) (a : ℕ) (s : Sched)
    → o ≡ done a s
    → SwitchesTo t (k a s)
    → SwitchesTo t (bind o k)
bind_done t o k a s e p = rw (e) p

next_is :
    (t : ℕ) (s : Sched)
    → t ≢ s.current
    → ((ready_insert_after_current t s).tasks s.current).next ≡ t
unfolding ready_insert_after_current put
next_is t s other = ground arith

state_is :
    (t : ℕ) (s : Sched)
    → t ≢ s.current
    → ((ready_insert_after_current t s).tasks t).state ≡ (s.tasks t).state
unfolding ready_insert_after_current put
state_is t s other = ground arith

pick_ready :
    (fuel from cand : ℕ) (s : Sched)
    → cand ≢ from
    → (s.tasks cand).state ≡ ready
    → pick_loop (suc fuel) from cand s ≡ done cand s
unfolding pick_loop
pick_ready fuel from cand s other is_ready = rw (ne_== cand from other, is_ready) refl

picks :
    (t : ℕ) (s : Sched)
    → t ≢ s.current
    → (s.tasks s.current).next ≡ t
    → (s.tasks t).state ≡ ready
    → pick_next s.current s ≡ done t s
unfolding pick_next
picks t s other h is_ready =
    ap (λ c. pick_loop ring_fuel s.current c s) h
    ∙ pick_ready (2 ^ 32 - 1) s.current t s other is_ready

yields :
    (t : ℕ) (s : Sched)
    → s.active ≡ true
    → t ≢ s.current
    → pick_next s.current s ≡ done t s
    → SwitchesTo t (task_yield s)
unfolding task_yield SwitchesTo put
yields t s on other h = if_active t s.active _ _ on (
    bind_done t (pick_next s.current s) _ t s h
      (rw (ne_== t s.current other, eq_== t t refl) (refl, refl, refl)))

-- A task that is put into the ring while another runs is the next to run: the first yield after it
-- switches to it, whatever else is in the ring.
pub task_yield-ready_insert_after_current :
    (t : ℕ) (s : Sched)
    → s.active ≡ true
    → t ≢ s.current
    → (s.tasks t).state ≡ ready
    → SwitchesTo t (task_yield (ready_insert_after_current t s))
unfolding ready_insert_after_current put
task_yield-ready_insert_after_current t s on other is_ready =
    let s1 = ready_insert_after_current t s in
    yields t s1 on other (picks t s1 other (next_is t s other) (state_is t s other ∙ is_ready))
