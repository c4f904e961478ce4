-- ===== src/Task/Ring/Rounds.antt =====
-- The round robin of `task_yield` of src/proc/task.c.
use osver.Prelude.{
  ℕ, ◌+◌, ◌^◌, ◌<◌, ◌≡◌, ◌≢◌, refl, sym, ap, ◌∙◌, subst, Bool, true, some, List, [], ◌∷◌, ◌++◌,
  length, ◌==◌, ne_==, ==_eq, if◌then◌else◌, arith, Bool-cases, inl, inr, ◌⊎◌,
}
use osver.Task.{
  Sched, Task, ready, running, Outcome, done, bind, put, pick_next, task_yield, task_time_slice,
}
use osver.Task.Ring.{Fresh, IsRing, first_or, linked, free_all, answer}
use osver.Task.Ring.Pick.{pick_next-first_or, linked_self, front_live}

-- no zombie
unfoldable pub IsLive : Task → Type 0
IsLive t = (t.state ≡ ready) ⊎ (t.state ≡ running)

unfoldable pub AreLive : (ℕ → Task) → List ℕ → Type 0
AreLive tasks [] = Unit
AreLive tasks (c ∷ cs) = IsLive (tasks c) × AreLive tasks cs

-- The current task is `from`, the others of the ring are `cs`, and none is a zombie.
pub record IsRound (s : Sched) (from : ℕ) (cs : List ℕ) : Type 0 where
  pub active : s.active ≡ true
  pub current : s.current ≡ from
  pub ring : IsRing s.tasks from (s.tasks from).next cs
  pub live : AreLive s.tasks (from ∷ cs)

-- the state behind a switch to `next`
pub switched : ℕ → Sched → Sched
switched next s =
    let s2 =
      put s.current (record (s.tasks s.current) { state = ready; slice_left = task_time_slice })
        s in
    let top = (s.tasks next).kernel_stack_top in
    record (put next (record (s2.tasks next) { state = running; slice_left = task_time_slice })
      s2) { current = next; esp0 = if top == 0 then s.esp0 else top }

pub if_true : {A : Type 0} (b : Bool) (x y : A) → b ≡ true → (if b then x else y) ≡ x
if_true b x y e = rw e refl

pub bind_done :
    {A B : Type 0} (o : Outcome A) (k : A → Sched → Outcome B) (a : A) (s : Sched)
    → o ≡ done a s
    → bind o k ≡ k a s
bind_done o k a s e = rw e refl

yields_to :
    (next : ℕ) (s : Sched)
    → s.active ≡ true
    → next ≢ s.current
    → pick_next s.current s ≡ done next s
    → IsLive (s.tasks s.current)
    → task_yield s ≡ done (some next) (switched next s)
unfolding switched IsLive task_yield
yields_to next s on other picks (inl h) =
    if_true s.active _ _ on
    ∙ bind_done (pick_next s.current s) _ next s picks
    ∙ rw (ne_== next s.current other, h) refl
yields_to next s on other picks (inr h) =
    if_true s.active _ _ on
    ∙ bind_done (pick_next s.current s) _ next s picks
    ∙ rw (ne_== next s.current other, h) refl

pub picks_next :
    (c : ℕ) (cs : List ℕ) (s : Sched)
    → IsRing s.tasks s.current (s.tasks s.current).next (c ∷ cs)
    → length cs + 1 < 2 ^ 32
    → IsLive (s.tasks c)
    → pick_next s.current s ≡ done c s
unfolding IsLive free_all answer first_or IsRing
picks_next c cs s ring lt live =
    let front = front_live s.tasks c cs live in
    pick_next-first_or s.current (c ∷ cs) s ring (omega arith)
    ∙ rw (front.0, front.1)
        (ap (done c)
          (ap (λ n. linked s.current n s.loader s) (sym ring.0) ∙ linked_self s.current s))

Fresh-snoc : (x y : ℕ) (cs : List ℕ) → Fresh x cs → x ≢ y → Fresh x (cs ++ (y ∷ []))
unfolding Fresh
Fresh-snoc x y [] f ne = (ne, tt)
Fresh-snoc x y (c ∷ cs) (xc, f) ne = (xc, Fresh-snoc x y cs f ne)

-- the ring, seen from its second task
pub turned :
    (tasks : ℕ → Task) (from c n : ℕ) (cs : List ℕ)
    → IsRing tasks from n cs
    → Fresh c cs
    → c ≢ from
    → (tasks from).next ≡ c
    → IsRing tasks c n (cs ++ (from ∷ []))
unfolding IsRing Fresh
turned tasks from c n [] ring fresh cf back = (ring, λ e. cf (sym e), tt, back)
turned tasks from c n (x ∷ xs) (nx, xf, other, ring) (cx, fresh) cf back = (
  nx,
  λ e. cx (sym e),
  Fresh-snoc x from xs other xf,
  turned tasks from c (tasks x).next xs ring fresh cf back,
)

pub same_next :
    (tasks tasks' : ℕ → Task) (from n : ℕ) (cs : List ℕ)
    → ((q : ℕ) → (tasks' q).next ≡ (tasks q).next)
    → IsRing tasks from n cs
    → IsRing tasks' from n cs
unfolding IsRing
same_next tasks tasks' from n [] h ring = ring
same_next tasks tasks' from n (c ∷ cs) h (nc, cf, other, ring) = (
  nc,
  cf,
  other,
  subst (λ m. IsRing tasks' from m cs) (sym (h c))
      (same_next tasks tasks' from (tasks c).next cs h ring),
)

pub put-next :
    (p : ℕ) (t : Task) (s : Sched) (q : ℕ)
    → t.next ≡ (s.tasks p).next
    → ((put p t s).tasks q).next ≡ (s.tasks q).next
unfolding put
put-next p t s q h = elim (Bool-cases (q == p)) [
  | inl e ↦ rw e (h ∙ ap (λ x. (s.tasks x).next) (sym (==_eq q p e)))
  | inr e ↦ rw e refl
]

pub put-IsLive :
    (p : ℕ) (t : Task) (s : Sched) (q : ℕ)
    → IsLive t
    → IsLive (s.tasks q)
    → IsLive ((put p t s).tasks q)
unfolding put
put-IsLive p t s q new old = elim (Bool-cases (q == p)) [ inl e ↦ rw e new | inr e ↦ rw e old ]

switched-next : (c : ℕ) (s : Sched) (q : ℕ) → ((switched c s).tasks q).next ≡ (s.tasks q).next
unfolding switched
switched-next c s q = put-next c _ _ q refl ∙ put-next s.current _ s q refl

switched-IsLive : (c : ℕ) (s : Sched) (q : ℕ) → IsLive (s.tasks q) → IsLive ((switched c s).tasks q)
unfolding switched IsLive
switched-IsLive c s q live =
    put-IsLive c _ _ q (inr refl) (put-IsLive s.current _ s q (inl refl) live)

all_live : (c : ℕ) (s : Sched) (cs : List ℕ) → AreLive s.tasks cs → AreLive (switched c s).tasks cs
unfolding AreLive
all_live c s [] live = tt
all_live c s (x ∷ xs) (first, live) = (switched-IsLive c s x first, all_live c s xs live)

pub live_snoc :
    (tasks : ℕ → Task) (cs : List ℕ) (x : ℕ)
    → AreLive tasks cs
    → IsLive (tasks x)
    → AreLive tasks (cs ++ (x ∷ []))
unfolding AreLive
live_snoc tasks [] x live at = (at, tt)
live_snoc tasks (c ∷ cs) x (first, live) at = (first, live_snoc tasks cs x live at)

switched-active : (c : ℕ) (s : Sched) → (switched c s).active ≡ s.active
unfolding switched put
switched-active c s = refl

switched-current : (c : ℕ) (s : Sched) → (switched c s).current ≡ c
unfolding switched
switched-current c s = refl

-- A yield switches to the next task, and the old one is then the last of the round.
pub turns :
    (s : Sched) (from c : ℕ) (cs : List ℕ)
    → IsRound s from (c ∷ cs)
    → length cs + 1 < 2 ^ 32
    → (task_yield s ≡ done (some c) (switched c s)) × IsRound (switched c s) c (cs ++ (from ∷ []))
unfolding IsRing AreLive
turns s from c cs round lt =
    let same = round.current in
    let (nc, cf, other, ring) = round.ring in
    let (here, (there, behind)) = round.live in
    (
      yields_to c s round.active (λ e. cf (e ∙ same))
          (picks_next c cs s
            (subst (λ p. IsRing s.tasks p (s.tasks p).next (c ∷ cs)) (sym same) round.ring) lt
            there)
          (subst (λ p. IsLive (s.tasks p)) (sym same) here),
      record {
        active = switched-active c s ∙ round.active;
        current = switched-current c s;
        ring = same_next s.tasks (switched c s).tasks c _ _ (switched-next c s) (
            subst (λ n. IsRing s.tasks c n (cs ++ (from ∷ []))) (sym (switched-next c s c))
              (turned s.tasks from c (s.tasks c).next cs ring other cf nc));
        live = (
          switched-IsLive c s c there,
          live_snoc (switched c s).tasks cs from (all_live c s cs behind)
              (switched-IsLive c s from here),
        );
      },
    )

pub same_live :
    (tasks tasks' : ℕ → Task) (cs : List ℕ)
    → ((q : ℕ) → (tasks' q).state ≡ (tasks q).state)
    → AreLive tasks cs
    → AreLive tasks' cs
unfolding AreLive IsLive
same_live tasks tasks' [] h live = tt
same_live tasks tasks' (c ∷ cs) h (inl e, live) = (inl (h c ∙ e), same_live tasks tasks' cs h live)
same_live tasks tasks' (c ∷ cs) h (inr e, live) = (inr (h c ∙ e), same_live tasks tasks' cs h live)

-- A round depends on the pointers and the states of the tasks only.
pub same_round :
    (s s' : Sched) (from : ℕ) (cs : List ℕ)
    → s'.active ≡ s.active
    → s'.current ≡ s.current
    → ((q : ℕ) → ((s'.tasks q).next ≡ (s.tasks q).next) × ((s'.tasks q).state ≡ (s.tasks q).state))
    → IsRound s from cs
    → IsRound s' from cs
same_round s s' from cs active current same round = record {
  active = active ∙ round.active;
  current = current ∙ round.current;
  ring =
      subst (λ n. IsRing s'.tasks from n cs) (sym (same from).0)
        (same_next s.tasks s'.tasks from _ cs (λ q. (same q).0) round.ring);
  live = same_live s.tasks s'.tasks (from ∷ cs) (λ q. (same q).1) round.live;
}
