-- ===== src/Task/Ring/Exit.antt =====
-- How a task leaves by `task_exit` of src/proc/task.c.
use osver.Prelude.{
  ℕ, ◌+◌, ◌^◌, ◌<◌, ◌≡◌, ◌≢◌, refl, sym, ap, ◌∙◌, subst, true, some, List, [], ◌∷◌, ◌++◌, length,
  ◌==◌, eq_==, ne_==, if◌then◌else◌, inr,
}
use osver.Task.{
  Sched, Task, running, zombie, done, put, pick_next, task_yield, task_exit, task_time_slice,
}
use osver.Task.Ring.{Fresh, IsRing}
use osver.Task.Ring.Rounds.{
  IsLive, AreLive, IsRound, picks_next, if_true, turned, same_next, put-next, put-IsLive, bind_done,
}

put_other : (p q : ℕ) (x : Task) (s : Sched) → q ≢ p → (put p x s).tasks q ≡ s.tasks q
unfolding put
put_other p q x s ne = rw (ne_== q p ne) refl

put_self : (p : ℕ) (x : Task) (s : Sched) → (put p x s).tasks p ≡ x
unfolding put
put_self p x s = rw (eq_== p p refl) refl

-- the current task as a zombie, and the state behind the switch away from it
ended : Sched → Sched
ended s = put s.current (record (s.tasks s.current) { state = zombie }) s

paused : Sched → Sched
paused s =
    put s.current (record (s.tasks s.current) { state = zombie; slice_left = task_time_slice }) s

left_to : ℕ → Sched → Sched
left_to next s =
    let top = (s.tasks next).kernel_stack_top in
    record (put next
      (record ((paused s).tasks next) { state = running; slice_left = task_time_slice })
      (paused s)) { current = next; esp0 = if top == 0 then s.esp0 else top }

leaves_to :
    (next : ℕ) (s : Sched)
    → s.active ≡ true
    → next ≢ s.current
    → pick_next s.current s ≡ done next s
    → (s.tasks s.current).state ≡ zombie
    → task_yield s ≡ done (some next) (left_to next s)
unfolding left_to paused task_yield
leaves_to next s on other picks h =
    if_true s.active _ _ on
    ∙ bind_done (pick_next s.current s) _ next s picks
    ∙ rw (ne_== next s.current other, h) refl

ring-Fresh : (tasks : ℕ → Task) (from n : ℕ) (cs : List ℕ) → IsRing tasks from n cs → Fresh from cs
unfolding IsRing Fresh
ring-Fresh tasks from n [] ring = tt
ring-Fresh tasks from n (c ∷ cs) (nc, cf, other, ring) =
    (λ e. cf (sym e), ring-Fresh tasks from (tasks c).next cs ring)

still_live :
    (tasks tasks' : ℕ → Task) (from : ℕ) (cs : List ℕ)
    → ((q : ℕ) → q ≢ from → IsLive (tasks q) → IsLive (tasks' q))
    → Fresh from cs
    → AreLive tasks cs
    → AreLive tasks' cs
unfolding Fresh AreLive
still_live tasks tasks' from [] keeps fresh live = tt
still_live tasks tasks' from (c ∷ cs) keeps (fc, fresh) (first, live) =
    (keeps c (λ e. fc (sym e)) first, still_live tasks tasks' from cs keeps fresh live)

left-next : (next : ℕ) (s : Sched) (q : ℕ) → ((left_to next s).tasks q).next ≡ (s.tasks q).next
unfolding left_to paused
left-next next s q = put-next next _ (paused s) q refl ∙ put-next s.current _ s q refl

left-IsLive :
    (next : ℕ) (s : Sched) (q : ℕ)
    → q ≢ s.current
    → IsLive (s.tasks q)
    → IsLive ((left_to next s).tasks q)
unfolding left_to paused IsLive
left-IsLive next s q other live =
    put-IsLive next _ (paused s) q (inr refl)
      (subst IsLive (sym (put_other s.current q _ s other)) live)

left-state :
    (next : ℕ) (s : Sched) → s.current ≢ next → ((left_to next s).tasks s.current).state ≡ zombie
unfolding left_to paused
left-state next s other =
    ap (λ t. t.state) (put_other next s.current _ (paused s) other ∙ put_self s.current _ s)

ended-next : (s : Sched) (q : ℕ) → ((ended s).tasks q).next ≡ (s.tasks q).next
unfolding ended
ended-next s q = put-next s.current _ s q refl

ended-state : (s : Sched) → ((ended s).tasks s.current).state ≡ zombie
unfolding ended
ended-state s = ap (λ t. t.state) (put_self s.current _ s)

ended-IsLive : (s : Sched) (q : ℕ) → q ≢ s.current → IsLive (s.tasks q) → IsLive ((ended s).tasks q)
unfolding ended
ended-IsLive s q other live = subst IsLive (sym (put_other s.current q _ s other)) live

ended-same : (s : Sched) → ((ended s).active ≡ s.active) × ((ended s).current ≡ s.current)
unfolding ended put
ended-same s = (refl, refl)

-- The task `c` runs, `from` is a zombie, and the ring goes on from `c` through `cs` to `from`.
pub HasLeft : ℕ → ℕ → List ℕ → Sched → Type 0
HasLeft from c cs s =
    (s.current ≡ c)
    × IsRing s.tasks c (s.tasks c).next (cs ++ (from ∷ []))
    × ((s.tasks from).state ≡ zombie)
    × AreLive s.tasks (c ∷ cs)

left-current : (next : ℕ) (s : Sched) → (left_to next s).current ≡ next
unfolding left_to
left-current next s = refl

exits :
    (s s' : Sched) (t : ℕ)
    → task_yield (ended s) ≡ done (some t) s'
    → task_exit s ≡ done (some t) s'
unfolding task_exit ended
exits s s' t e = bind_done (task_yield (ended s)) _ (some t) s' e

-- the same, for a scheduler whose current task is already a zombie
leaves :
    (s : Sched) (c : ℕ) (cs : List ℕ)
    → s.active ≡ true
    → (s.tasks s.current).state ≡ zombie
    → IsRing s.tasks s.current (s.tasks s.current).next (c ∷ cs)
    → AreLive s.tasks (c ∷ cs)
    → length cs + 1 < 2 ^ 32
    → (task_yield s ≡ done (some c) (left_to c s)) × HasLeft s.current c cs (left_to c s)
unfolding IsRing AreLive HasLeft
leaves s c cs on is_dead ring live lt =
    let (nc, cf, other, rest) = ring in
    let (first, behind) = live in
    let final = left_to c s in
    (
      leaves_to c s on cf (picks_next c cs s ring lt first) is_dead,
      (
        left-current c s,
        same_next s.tasks final.tasks c _ _ (left-next c s) (
            subst (λ n. IsRing s.tasks c n (cs ++ (s.current ∷ []))) (sym (left-next c s c))
              (turned s.tasks s.current c (s.tasks c).next cs rest other cf nc)),
        left-state c s (λ e. cf (sym e)),
        (
          left-IsLive c s c cf first,
          still_live s.tasks final.tasks s.current cs (left-IsLive c s)
              (ring-Fresh s.tasks s.current (s.tasks c).next cs rest) behind,
        ),
      ),
    )

-- In a ring of live tasks with another one, `task_exit` switches to the next task; the one that ended is a
-- zombie and the last in the ring behind it, and the others are alive.
pub task_exit-HasLeft :
    (s : Sched) (from c : ℕ) (cs : List ℕ)
    → IsRound s from (c ∷ cs)
    → length cs + 1 < 2 ^ 32
    → (s' : Sched) × (task_exit s ≡ done (some c) s') × HasLeft from c cs s'
unfolding AreLive ended put
task_exit-HasLeft s from c cs round lt =
    let s0 = ended s in
    let at : s0.current ≡ from = (ended-same s).1 ∙ round.current in
    let ring0 : IsRing s0.tasks from (s0.tasks from).next (c ∷ cs) =
      same_next s.tasks s0.tasks from _ (c ∷ cs) (ended-next s)
        (subst (λ n. IsRing s.tasks from n (c ∷ cs)) (sym (ended-next s from)) round.ring) in
    let live0 : AreLive s0.tasks (c ∷ cs) =
      still_live s.tasks s0.tasks from (c ∷ cs)
        (λ q ne. ended-IsLive s q (λ e. ne (e ∙ round.current)))
        (ring-Fresh s.tasks from (s.tasks from).next (c ∷ cs) round.ring) round.live.1 in
    let (yield, left) =
      leaves s0 c cs ((ended-same s).0 ∙ round.active) (ended-state s)
        (subst (λ p. IsRing s0.tasks p (s0.tasks p).next (c ∷ cs)) (sym at) ring0) live0 lt in
    (
      left_to c s0,
      exits s (left_to c s0) c yield,
      subst (λ p. HasLeft p c cs (left_to c s0)) at left,
    )
