-- ===== src/Task/Ring/Visits.antt =====
-- A full round of `task_yield` of src/proc/task.c.
use osver.Prelude.{
  ℕ, zero, suc, ◌+◌, ◌^◌, ◌<◌, ◌≡◌, refl, sym, ap, ◌∙◌, subst, Option, some, List, [], ◌∷◌, ◌++◌,
  length, length-append, arith,
}
use mathlib.Core.List.{append_assoc, append-nil}
use osver.Task.{Sched, Outcome, done, bind, task_yield}
use osver.Task.Ring.Rounds.{IsRound, switched, turns, bind_done}

-- the tasks that `n` yields switch to, one after the other, and the state behind them
pub yields : ℕ → Sched → Outcome (List (Option ℕ))
yields zero s = done [] s
yields (suc n) s = bind (task_yield s) (λ t s1. bind (yields n s1) (λ ts s2. done (t ∷ ts) s2))

-- the switches to these tasks
pub to_all : List ℕ → List (Option ℕ)
to_all [] = []
to_all (c ∷ cs) = some c ∷ to_all cs

append_move : (cs ds : List ℕ) (x : ℕ) → (cs ++ (x ∷ [])) ++ ds ≡ cs ++ (x ∷ ds)
append_move [] ds x = refl
append_move (c ∷ cs) ds x = ap (λ l. c ∷ l) (append_move cs ds x)

-- the last of `from ∷ ds`, and what stands behind it in the ring when `es` did
last_of : ℕ → List ℕ → ℕ
last_of from [] = from
last_of from (d ∷ ds) = last_of d ds

others_of : ℕ → List ℕ → List ℕ → List ℕ
others_of from [] es = es
others_of from (d ∷ ds) es = others_of d ds (es ++ (from ∷ []))

all_of :
    (from : ℕ) (ds es : List ℕ) → others_of from ds es ++ (last_of from ds ∷ []) ≡ es ++ (from ∷ ds)
unfolding others_of last_of
all_of from [] es = refl
all_of from (d ∷ ds) es = all_of d ds (es ++ (from ∷ [])) ∙ append_move es (d ∷ ds) from

yields_first :
    (n : ℕ) (t : Option ℕ) (ts : List (Option ℕ)) (s s1 s2 : Sched)
    → task_yield s ≡ done t s1
    → yields n s1 ≡ done ts s2
    → yields (suc n) s ≡ done (t ∷ ts) s2
unfolding yields
yields_first n t ts s s1 s2 e h =
    bind_done (task_yield s) _ t s1 e ∙ bind_done (yields n s1) _ ts s2 h

-- the yields through `ds`, when the others behind them are `es`
through :
    (ds : List ℕ) (s : Sched) (from : ℕ) (es : List ℕ)
    → IsRound s from (ds ++ es)
    → length ds + length es < 2 ^ 32
    → (s' : Sched) × (yields (length ds) s ≡ done (to_all ds) s')
      × IsRound s' (last_of from ds) (others_of from ds es)
unfolding yields to_all last_of others_of
through [] s from es round lt = (s, refl, round)
through (d ∷ ds) s from es round lt =
    let small = length-append ds es in
    let (yield, next) = turns s from d (ds ++ es) round (omega (arith, small)) in
    let more = length-append es (from ∷ []) in
    let (s', run, end) =
      through ds (switched d s) d (es ++ (from ∷ []))
        (subst (IsRound (switched d s) d) (append_assoc ds es (from ∷ [])) next)
        (omega (arith, more)) in
    (s', yields_first (length ds) (some d) (to_all ds) s (switched d s) s' yield run, end)

-- When what stands behind the last one is `fs`, the first of `fs` is `from` and the rest is the ring.
comes_back :
    (s : Sched) (from last : ℕ) (c : ℕ) (cs fs : List ℕ)
    → fs ++ (last ∷ []) ≡ from ∷ c ∷ cs
    → IsRound s last fs
    → length cs + 2 < 2 ^ 32
    → (s' : Sched) × (task_yield s ≡ done (some from) s') × IsRound s' from (c ∷ cs)
comes_back s from last c cs [] e round lt = absurd (let n = ap length e in omega (arith, n))
comes_back s from last c cs (f ∷ fs) e round lt =
    let rest : fs ++ (last ∷ []) ≡ c ∷ cs = cc in
    let same : f ≡ from = cc in
    let n = length-append fs (last ∷ []) in
    let m = ap length rest in
    let (yield, next) = turns s last f fs round (omega (arith, n, m)) in
    (
      switched f s,
      yield ∙ ap (λ x. done (some x) (switched f s)) same,
      subst (λ x. IsRound (switched f s) x (c ∷ cs)) same
          (subst (IsRound (switched f s) f) rest next),
    )

-- In a ring of fewer than 2^32 tasks without a zombie, as many yields as there are other tasks switch to each
-- of them once, in the order of the ring, and the next yield comes back to the first task, with the ring as it
-- was: every task has had its turn.
pub yields-round :
    (s : Sched) (from c : ℕ) (cs : List ℕ)
    → IsRound s from (c ∷ cs)
    → length cs + 2 < 2 ^ 32
    → (s1 : Sched) × (yields (length (c ∷ cs)) s ≡ done (to_all (c ∷ cs)) s1)
      × (s2 : Sched) × (task_yield s1 ≡ done (some from) s2)
      × IsRound s2 from (c ∷ cs)
yields-round s from c cs round lt =
    let (s1, run, end) =
      through (c ∷ cs) s from [] (subst (IsRound s from) (sym (append-nil (c ∷ cs))) round)
        (omega arith) in
    let (s2, yield, back) =
      comes_back s1 from (last_of from (c ∷ cs)) c cs (others_of from (c ∷ cs) [])
        (all_of from (c ∷ cs) []) end lt in
    (s1, run, s2, yield, back)
