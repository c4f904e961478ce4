-- ===== src/Task/Ring/Pick.antt =====
-- `pick_next` of src/proc/task.c on the ring as a list.
use osver.Prelude.{
  ℕ, zero, suc, ◌^◌, ◌<◌, ◌≡◌, ◌≢◌, refl, sym, ap, ◌∙◌, some, List, [], ◌∷◌, length, ◌==◌, eq_==,
  ne_==, ==_eq, arith, Bool-cases, inl, inr, ◌⊎◌,
}
use mathlib.Core.Path.{fun_ext}
use osver.Elf.{Loader}
use osver.Elf
use osver.Task.{
  Sched, Task, TaskState, ready, running, zombie, Outcome, done, bind, put, find_before, ring_fuel,
  ready_remove, reap, pick_loop, pick_next,
}
use osver.Task.Ring.{
  Fresh, IsRing, dead, alive, first_or, linked, and_then, free_owned, free_all, answer, on_sched,
  release-free_owned,
}

unlinks :
    (target p : ℕ) (s : Sched)
    → find_before ring_fuel target (s.tasks target).next s ≡ some p
    → ready_remove target s
      ≡ done tt (put p (record (s.tasks p) { next = (s.tasks target).next }) s)
unfolding ready_remove
unlinks target p s found = rw (ready_remove, found) refl

TaskState-cases : (t : TaskState) → (t ≡ zombie) ⊎ ((t ≡ ready) ⊎ (t ≡ running))
TaskState-cases zombie = inl refl
TaskState-cases ready = inr (inl refl)
TaskState-cases running = inr (inr refl)

pub front_live :
    (tasks : ℕ → Task) (c : ℕ) (cs : List ℕ)
    → ((tasks c).state ≡ ready) ⊎ ((tasks c).state ≡ running)
    → (alive tasks (c ∷ cs) ≡ c ∷ cs) × (dead tasks (c ∷ cs) ≡ [])
unfolding alive dead
front_live tasks c cs (inl h) = (rw (alive, h) refl, rw (dead, h) refl)
front_live tasks c cs (inr h) = (rw (alive, h) refl, rw (dead, h) refl)

front_dead :
    (tasks : ℕ → Task) (c : ℕ) (cs : List ℕ)
    → (tasks c).state ≡ zombie
    → (alive tasks (c ∷ cs) ≡ alive tasks cs) × (dead tasks (c ∷ cs) ≡ c ∷ dead tasks cs)
unfolding alive dead
front_dead tasks c cs h = (rw (alive, h) refl, rw (dead, h) refl)

module _ (from : ℕ) (s : Sched) where
  -- a task but `from`
  linked-other : (n p : ℕ) (l : Loader) → p ≢ from → (linked from n l s).tasks p ≡ s.tasks p
  unfolding linked put
  linked-other n p l ne = rw (ne_== p from ne) refl

  linked-next : (n : ℕ) (l : Loader) → ((linked from n l s).tasks from).next ≡ n
  unfolding linked put
  linked-next n l = rw (eq_== from from refl) refl

  linked-put :
      (n m : ℕ) (l : Loader)
      → put from (record ((linked from n l s).tasks from) { next = m }) (linked from n l s)
        ≡ linked from m l s
  unfolding linked put
  linked-put n m l =
      ap (λ f. record s { tasks = f; loader = l })
        (fun_ext (λ q. elim (Bool-cases (q == from)) [
          | inl e ↦ rw (e, eq_== from from refl) refl
          | inr e ↦ rw e refl
        ]))

  pub linked_self : linked from (s.tasks from).next s.loader s ≡ s
  unfolding linked put
  linked_self =
      ap (λ f. record s { tasks = f })
        (fun_ext (λ q. elim (Bool-cases (q == from)) [
          | inl e ↦ rw e (ap s.tasks (sym (==_eq q from e)))
          | inr e ↦ rw e refl
        ]))

  -- the first of a ring is not a task that is fresh to it
  first_ne :
      (target n : ℕ) (cs : List ℕ)
      → target ≢ from
      → Fresh target cs
      → IsRing s.tasks from n cs
      → n ≢ target
  unfolding Fresh IsRing
  first_ne target n [] tf fresh ring = λ e. tf (sym e ∙ ring)
  first_ne target n (c ∷ cs) tf (tc, fresh) (nc, cf, other, ring) = λ e. tc (sym e ∙ nc)

  -- the walk of `ready_remove` from a task whose successor is `n`
  finds :
      (target : ℕ) (cs : List ℕ) (n fuel : ℕ) (l : Loader)
      → target ≢ from
      → Fresh target cs
      → IsRing s.tasks from n cs
      → length cs < fuel
      → find_before fuel target n (linked from target l s) ≡ some from
  unfolding find_before Fresh IsRing
  finds target cs n zero l tf fresh ring lt = absurd (omega arith)
  finds target [] n (suc fuel) l tf fresh ring lt =
      rw (ring, linked-next target l, eq_== target target refl) refl
  finds target (c ∷ cs) n (suc fuel) l tf (tc, fresh) (nc, cf, other, ring) lt =
      rw
        (
          nc,
          linked-other target c l cf,
          ne_== (s.tasks c).next target (first_ne target (s.tasks c).next cs tf fresh ring),
        )
        (finds target cs (s.tasks c).next fuel l tf fresh ring (omega arith))

  removes :
      (c : ℕ) (cs : List ℕ) (l : Loader)
      → c ≢ from
      → Fresh c cs
      → IsRing s.tasks from (s.tasks c).next cs
      → length cs < ring_fuel
      → ready_remove c (linked from c l s) ≡ done tt (linked from (s.tasks c).next l s)
  removes c cs l cf fresh ring lt =
      let same = ap (λ t. t.next) (linked-other c c l cf) in
      unlinks c from (linked from c l s) (
        ap (λ n. find_before ring_fuel c n (linked from c l s)) same
        ∙ finds c cs (s.tasks c).next ring_fuel l cf fresh ring lt)
      ∙ ap
          (λ n.
            done tt
              (put from (record ((linked from c l s).tasks from) { next = n }) (linked from c l s)))
          same
      ∙ ap (done tt) (linked-put c (s.tasks c).next l)

  reaps :
      (c : ℕ) (cs : List ℕ) (l : Loader)
      → c ≢ from
      → Fresh c cs
      → IsRing s.tasks from (s.tasks c).next cs
      → length cs < ring_fuel
      → reap c (linked from c l s)
        ≡ on_sched (linked from (s.tasks c).next l s) (free_owned (s.tasks c) c l)
  unfolding reap linked
  reaps c cs l cf fresh ring lt =
      rw (linked-other c c l cf, removes c cs l cf fresh ring lt)
        (release-free_owned (s.tasks c) c (linked from (s.tasks c).next l s))

  -- a walk that goes on behind a released task
  goes_on :
      (t n : ℕ) (o : Elf.Outcome (Unit {0})) (k : Loader → Elf.Outcome (Unit {0}))
      (next : Sched → Outcome ℕ)
      → ((l : Loader) → next (linked from n l s) ≡ answer from t s (k l))
      → (l0 : Loader)
      → bind (on_sched (linked from n l0 s) o) (λ _ s1. next s1) ≡ answer from t s (and_then o k)
  unfolding on_sched and_then answer linked
  goes_on t n (Elf.done u l) k next h l0 = h l
  goes_on t n Elf.halted k next h l0 = refl
  goes_on t n Elf.out_of_fuel k next h l0 = refl

  -- the cases of a candidate
  at_live :
      (fuel cand : ℕ) (l : Loader)
      → cand ≢ from
      → ((s.tasks cand).state ≡ ready) ⊎ ((s.tasks cand).state ≡ running)
      → pick_loop (suc fuel) from cand (linked from cand l s) ≡ done cand (linked from cand l s)
  unfolding pick_loop
  at_live fuel cand l cf (inl h) = rw (ne_== cand from cf, linked-other cand cand l cf, h) refl
  at_live fuel cand l cf (inr h) = rw (ne_== cand from cf, linked-other cand cand l cf, h) refl

  at_zombie :
      (fuel cand : ℕ) (l : Loader)
      → cand ≢ from
      → (s.tasks cand).state ≡ zombie
      → pick_loop (suc fuel) from cand (linked from cand l s)
        ≡ bind
            (reap cand (linked from cand l s))
            (λ _ s1. pick_loop fuel from (s.tasks cand).next s1)
  unfolding pick_loop
  at_zombie fuel cand l cf h =
      rw (ne_== cand from cf, linked-other cand cand l cf, h)
        (ap (λ t. bind (reap cand (linked from cand l s)) (λ _ s1. pick_loop fuel from t.next s1))
          (linked-other cand cand l cf))

  ended :
      (n fuel : ℕ) (l : Loader)
      → n ≡ from
      → pick_loop (suc fuel) from n (linked from n l s)
        ≡ answer from (first_or from (alive s.tasks [])) s (free_all s.tasks (dead s.tasks []) l)
  unfolding pick_loop first_or alive dead free_all answer
  ended n fuel l e = rw (eq_== n from e) (ap (λ m. done from (linked from m l s)) e)

  frees_first :
      (c : ℕ) (cs : List ℕ) (l : Loader)
      → answer from
          (first_or from (alive s.tasks cs))
          s
          (and_then (free_owned (s.tasks c) c l) (free_all s.tasks (dead s.tasks cs)))
        ≡ answer from
            (first_or from (alive s.tasks cs))
            s
            (free_all s.tasks (c ∷ dead s.tasks cs) l)
  unfolding free_all
  frees_first c cs l = refl

  none_dead :
      (c : ℕ) (cs : List ℕ) (l : Loader)
      → done c (linked from c l s) ≡ answer from (first_or from (c ∷ cs)) s (free_all s.tasks [] l)
  unfolding free_all answer first_or
  none_dead c cs l = refl

  walks :
      (cs : List ℕ) (n fuel : ℕ) (l : Loader)
      → IsRing s.tasks from n cs
      → length cs < fuel
      → length cs < ring_fuel
      → pick_loop fuel from n (linked from n l s)
        ≡ answer from (first_or from (alive s.tasks cs)) s (free_all s.tasks (dead s.tasks cs) l)
  unfolding IsRing
  walks cs n zero l ring lt small = absurd (omega arith)
  walks [] n (suc fuel) l ring lt small = ended n fuel l ring
  walks (c ∷ cs) n (suc fuel) l (nc, cf, other, ring) lt small =
      ap (λ m. pick_loop (suc fuel) from m (linked from m l s)) nc
      ∙ elim (TaskState-cases (s.tasks c).state) [
        | inl is_dead ↦
            let front = front_dead s.tasks c cs is_dead in
            at_zombie fuel c l cf is_dead
            ∙ ap (λ o. bind o (λ _ s1. pick_loop fuel from (s.tasks c).next s1))
                (reaps c cs l cf other ring (omega arith))
            ∙ goes_on _ (s.tasks c).next (free_owned (s.tasks c) c l)
                (free_all s.tasks (dead s.tasks cs)) (pick_loop fuel from (s.tasks c).next)
                (λ l1. walks cs (s.tasks c).next fuel l1 ring (omega arith) (omega arith)) l
            ∙ rw (front.0, front.1) (frees_first c cs l)
        | inr live ↦
            let front = front_live s.tasks c cs live in
            at_live fuel c l cf live ∙ rw (front.0, front.1) (none_dead c cs l)
      ]

-- In a ring of at most 2^32 tasks, `pick_next` answers the first task behind `from` that is no zombie, or
-- `from` when there is none; it gives back the images, stacks and records of exactly the zombies before that
-- task, in the order of the ring, and links `from` to the answer. It fails only where a release fails.
pub pick_next-first_or :
    (from : ℕ) (cs : List ℕ) (s : Sched)
    → IsRing s.tasks from (s.tasks from).next cs
    → length cs < 2 ^ 32
    → pick_next from s
      ≡ answer from
          (first_or from (alive s.tasks cs))
          s
          (free_all s.tasks (dead s.tasks cs) s.loader)
unfolding pick_next
pick_next-first_or from cs s ring lt =
    ap (pick_loop ring_fuel from (s.tasks from).next) (sym (linked_self from s))
    ∙ walks from s cs (s.tasks from).next ring_fuel s.loader ring lt lt
