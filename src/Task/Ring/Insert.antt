-- ===== src/Task/Ring/Insert.antt =====
-- A new task in the ring.
use osver.Prelude.{
  ℕ, ◌≡◌, ◌≢◌, refl, sym, ap, ◌∙◌, subst, true, false, List, [], ◌∷◌, ◌==◌, eq_==, ne_==, ==_eq,
  if◌then◌else◌, Bool-cases, inl, inr,
}
use osver.Task.{Sched, Task, ready, put, ready_insert_after_current}
use osver.Task.Ring.{Fresh, IsRing}
use osver.Task.Ring.Rounds.{IsLive, AreLive, IsRound, same_live}

module _ (tasks tasks' : ℕ → Task) (t : ℕ)
    (next : (q : ℕ) → q ≢ t → (tasks' q).next ≡ (tasks q).next)
    (state : (q : ℕ) → q ≢ t → (tasks' q).state ≡ (tasks q).state) where
  others-IsRing :
      (from n : ℕ) (cs : List ℕ) → Fresh t cs → IsRing tasks from n cs → IsRing tasks' from n cs
  unfolding Fresh IsRing
  others-IsRing from n [] fresh ring = ring
  others-IsRing from n (c ∷ cs) (tc, fresh) (nc, cf, other, ring) = (
    nc,
    cf,
    other,
    subst (λ m. IsRing tasks' from m cs) (sym (next c (λ e. tc (sym e))))
        (others-IsRing from (tasks c).next cs fresh ring),
  )

  others-AreLive : (cs : List ℕ) → Fresh t cs → AreLive tasks cs → AreLive tasks' cs
  unfolding Fresh AreLive IsLive
  others-AreLive [] fresh live = tt
  others-AreLive (c ∷ cs) (tc, fresh) (inl e, live) =
      (inl (state c (λ e. tc (sym e)) ∙ e), others-AreLive cs fresh live)
  others-AreLive (c ∷ cs) (tc, fresh) (inr e, live) =
      (inr (state c (λ e. tc (sym e)) ∙ e), others-AreLive cs fresh live)

-- A task that is not in the ring may change.
pub outside :
    (s s' : Sched) (t from : ℕ) (cs : List ℕ)
    → s'.active ≡ s.active
    → s'.current ≡ s.current
    → ((q : ℕ) → q ≢ t → s'.tasks q ≡ s.tasks q)
    → Fresh t (from ∷ cs)
    → IsRound s from cs
    → IsRound s' from cs
unfolding Fresh
outside s s' t from cs active current same (tf, fresh) round =
    let next = λ (q : ℕ) (ne : q ≢ t). ap (λ x. x.next) (same q ne) in
    let state = λ (q : ℕ) (ne : q ≢ t). ap (λ x. x.state) (same q ne) in
    record {
      active = active ∙ round.active;
      current = current ∙ round.current;
      ring =
          subst (λ n. IsRing s'.tasks from n cs) (sym (next from (λ e. tf (sym e))))
            (others-IsRing s.tasks s'.tasks t next state from _ cs fresh round.ring);
      live = others-AreLive s.tasks s'.tasks t next state (from ∷ cs) (tf, fresh) round.live;
    }

put-next_at :
    (p q : ℕ) (x : Task) (s : Sched)
    → ((put p x s).tasks q).next ≡ (if q == p then x.next else (s.tasks q).next)
unfolding put
put-next_at p q x s = elim (Bool-cases (q == p)) [ inl e ↦ rw e refl | inr e ↦ rw e refl ]

put-state :
    (p q : ℕ) (x : Task) (s : Sched)
    → x.state ≡ (s.tasks p).state
    → ((put p x s).tasks q).state ≡ (s.tasks q).state
unfolding put
put-state p q x s h = elim (Bool-cases (q == p)) [
  | inl e ↦ rw e (h ∙ ap (λ y. (s.tasks y).state) (sym (==_eq q p e)))
  | inr e ↦ rw e refl
]

inserted-next :
    (t q : ℕ) (s : Sched)
    → ((ready_insert_after_current t s).tasks q).next ≡ (
        if q == s.current
        then t
        else (if q == t then (s.tasks s.current).next else (s.tasks q).next))
unfolding ready_insert_after_current
inserted-next t q s =
    let x1 : Task = record (s.tasks t) { next = (s.tasks s.current).next } in
    let s1 : Sched = put t x1 s in
    put-next_at s.current q (record (s1.tasks s.current) { next = t }) s1
    ∙ ap (λ n. if q == s.current then t else n) (put-next_at t q x1 s)

inserted-state :
    (t q : ℕ) (s : Sched) → ((ready_insert_after_current t s).tasks q).state ≡ (s.tasks q).state
unfolding ready_insert_after_current
inserted-state t q s =
    let x1 : Task = record (s.tasks t) { next = (s.tasks s.current).next } in
    let s1 : Sched = put t x1 s in
    put-state s.current q (record (s1.tasks s.current) { next = t }) s1 refl
    ∙ put-state t q x1 s refl

inserted-active : (t : ℕ) (s : Sched) → (ready_insert_after_current t s).active ≡ s.active
unfolding ready_insert_after_current put
inserted-active t s = refl

inserted-current : (t : ℕ) (s : Sched) → (ready_insert_after_current t s).current ≡ s.current
unfolding ready_insert_after_current put
inserted-current t s = refl

behind-IsRing :
    (tasks tasks' : ℕ → Task) (t from n : ℕ) (cs : List ℕ)
    → ((q : ℕ) → q ≢ from → q ≢ t → (tasks' q).next ≡ (tasks q).next)
    → Fresh t cs
    → IsRing tasks from n cs
    → IsRing tasks' from n cs
unfolding Fresh IsRing
behind-IsRing tasks tasks' t from n [] next fresh ring = ring
behind-IsRing tasks tasks' t from n (c ∷ cs) next (tc, fresh) (nc, cf, other, ring) = (
  nc,
  cf,
  other,
  subst (λ m. IsRing tasks' from m cs) (sym (next c cf (λ e. tc (sym e))))
      (behind-IsRing tasks tasks' t from (tasks c).next cs next fresh ring),
)

-- A ready task that is put behind the current one is the first of the others.
pub insert-IsRound :
    (t from : ℕ) (cs : List ℕ) (s : Sched)
    → Fresh t (from ∷ cs)
    → (s.tasks t).state ≡ ready
    → IsRound s from cs
    → IsRound (ready_insert_after_current t s) from (t ∷ cs)
unfolding Fresh IsRing AreLive IsLive
insert-IsRound t from cs s (tf, fresh) is_ready round =
    let here : (from == s.current) ≡ true = eq_== from s.current (sym round.current) in
    let there : (t == s.current) ≡ false = ne_== t s.current (λ e. tf (e ∙ round.current)) in
    let first = inserted-next t from s ∙ rw here refl in
    let second = inserted-next t t s ∙ rw (there, eq_== t t refl) refl in
    let live =
      same_live s.tasks (ready_insert_after_current t s).tasks (from ∷ cs)
        (λ q. inserted-state t q s) round.live in
    record {
      active = inserted-active t s ∙ round.active;
      current = inserted-current t s ∙ round.current;
      ring = (
        first,
        tf,
        fresh,
        subst (λ n. IsRing (ready_insert_after_current t s).tasks from n cs)
            (sym (second ∙ ap (λ p. (s.tasks p).next) round.current))
            (behind-IsRing s.tasks (ready_insert_after_current t s).tasks t from _ cs
              (λ q qf qt.
                inserted-next t q s
                ∙ rw (ne_== q s.current (λ e. qf (e ∙ round.current)), ne_== q t qt) refl)
              fresh round.ring),
      );
      live = (live.0, (inl (inserted-state t t s ∙ is_ready), live.1));
    }
