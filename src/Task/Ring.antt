-- ===== src/Task/Ring.antt =====
-- The circular list of the tasks as a list of addresses, and the walk of `pick_next` of src/proc/task.c on
-- it.
pub mod Created
pub mod Frame
pub mod Insert
pub mod Pick
pub mod Rounds
pub mod Visits
pub mod Exit
use osver.Prelude.{
  ℕ, zero, suc, ◌+◌, ◌^◌, ◌<◌, ◌≡◌, ◌≢◌, refl, sym, ap, ◌∙◌, subst, Bool, true, false, Option, some,
  none, List, [], ◌∷◌, length, ◌==◌, eq_==, ne_==, ==_eq, if◌then◌else◌, arith, Bool-cases, inl,
  inr,
}
use osver.Kheap.{Kheap, kfree}
use osver.Kheap
use osver.Elf.{Loader, elf_unload}
use osver.Elf
use osver.Task.{
  Sched, Task, TaskState, ready, running, zombie, Outcome, done, halted, out_of_fuel, bind, put,
  on_heap, on_loader, free_unless_null, find_before, ring_fuel, ready_remove, release, reap,
  pick_loop, pick_next,
}

-- `c` is none of them
unfoldable pub Fresh : ℕ → List ℕ → Type 0
Fresh c [] = Unit
Fresh c (x ∷ xs) = (c ≢ x) × Fresh c xs

-- From `n` on, the pointers `next` lead through these tasks, each once, to `from`.
unfoldable pub IsRing : (ℕ → Task) → ℕ → ℕ → List ℕ → Type 0
IsRing tasks from n [] = n ≡ from
IsRing tasks from n (c ∷ cs) =
    (n ≡ c) × (c ≢ from) × Fresh c cs × IsRing tasks from (tasks c).next cs

-- the zombies at the front
pub dead : (ℕ → Task) → List ℕ → List ℕ
dead tasks [] = []
dead tasks (c ∷ cs) = elim (tasks c).state [
  | zombie ↦ c ∷ dead tasks cs
  | ready ↦ []
  | running ↦ []
]

-- what is behind them
pub alive : (ℕ → Task) → List ℕ → List ℕ
alive tasks [] = []
alive tasks (c ∷ cs) = elim (tasks c).state [
  | zombie ↦ alive tasks cs
  | ready ↦ c ∷ cs
  | running ↦ c ∷ cs
]

-- the first of them, or `from`
pub first_or : ℕ → List ℕ → ℕ
first_or from [] = from
first_or from (c ∷ cs) = c

-- the scheduler with another successor of `from` and another loader
pub linked : ℕ → ℕ → Loader → Sched → Sched
linked from n l s = record (put from (record (s.tasks from) { next = n }) s) { loader = l }

pub and_then : Elf.Outcome (Unit {0}) → (Loader → Elf.Outcome (Unit {0})) → Elf.Outcome (Unit {0})
and_then (Elf.done u l) k = k l
and_then Elf.halted k = Elf.halted
and_then Elf.out_of_fuel k = Elf.out_of_fuel

-- what `release` does, on the loader alone
pub free_block : ℕ → Loader → Elf.Outcome (Unit {0})
free_block p l = if p == 0 then Elf.done tt l else Elf.on_heap (kfree p) l

pub free_owned : Task → ℕ → Loader → Elf.Outcome (Unit {0})
free_owned t p l = and_then (if t.image == 0 then Elf.done tt l else elf_unload t.image l) (λ l1.
    and_then (free_block t.stack_base l1)
      (λ l2. and_then (free_block t.user_stack_base l2) (Elf.on_heap (kfree p))))

-- what tasks own, one task after the other
pub free_all : (ℕ → Task) → List ℕ → Loader → Elf.Outcome (Unit {0})
free_all tasks [] l = Elf.done tt l
free_all tasks (c ∷ cs) l = and_then (free_owned (tasks c) c l) (free_all tasks cs)

-- the answer `t`, with `from` linked to it, when the loader is done
pub answer : ℕ → ℕ → Sched → Elf.Outcome (Unit {0}) → Outcome ℕ
answer from t s (Elf.done u l) = done t (linked from t l s)
answer from t s Elf.halted = halted
answer from t s Elf.out_of_fuel = out_of_fuel

on_sched : Sched → Elf.Outcome (Unit {0}) → Outcome (Unit {0})
on_sched s (Elf.done u l) = done tt (record s { loader = l })
on_sched s Elf.halted = halted
on_sched s Elf.out_of_fuel = out_of_fuel

bind-on_sched :
    (s : Sched) (o : Elf.Outcome (Unit {0})) (k : Loader → Elf.Outcome (Unit {0}))
    (next : Sched → Outcome (Unit {0}))
    → ((l : Loader) → next (record s { loader = l }) ≡ on_sched s (k l))
    → bind (on_sched s o) (λ _ s1. next s1) ≡ on_sched s (and_then o k)
unfolding on_sched and_then
bind-on_sched s (Elf.done u l) k next h = h l
bind-on_sched s Elf.halted k next h = refl
bind-on_sched s Elf.out_of_fuel k next h = refl

on_loader-on_sched :
    (f : Loader → Elf.Outcome (Unit {0})) (s : Sched) → on_loader f s ≡ on_sched s (f s.loader)
unfolding on_sched
on_loader-on_sched f s = elim (f s.loader) [
  | Elf.done u l ↦ refl
  | Elf.halted ↦ refl
  | Elf.out_of_fuel ↦ refl
]

on_heap-on_sched :
    (f : Kheap → Kheap.Run (Unit {0})) (s : Sched)
    → on_heap f s ≡ on_sched s (Elf.on_heap f s.loader)
unfolding on_sched
on_heap-on_sched f s =
    elim (f s.loader.heap)
      as (λ r.
        ◌≡◌ {A = Outcome (Unit {0})}
          (elim r [
            | Kheap.ok a h ↦ done a (record s { loader = record s.loader { heap = h } })
            | Kheap.halted ↦ halted
            | Kheap.out_of_fuel ↦ out_of_fuel
          ])
          (on_sched s (elim r as (λ _. Elf.Outcome (Unit {0})) [
            | Kheap.ok a h ↦ Elf.done a (record s.loader { heap = h })
            | Kheap.halted ↦ Elf.halted
            | Kheap.out_of_fuel ↦ Elf.out_of_fuel
          ]))) [ Kheap.ok u h ↦ refl | Kheap.halted ↦ refl | Kheap.out_of_fuel ↦ refl ]

free_block-on_sched :
    (p : ℕ) (s : Sched) → free_unless_null p s ≡ on_sched s (free_block p s.loader)
unfolding on_sched free_block
free_block-on_sched p s = elim (Bool-cases (p == 0)) [
  | inl e ↦ rw e refl
  | inr e ↦ rw e (on_heap-on_sched (kfree p) s)
]

unload-on_sched :
    (p : ℕ) (s : Sched)
    → (if p == 0 then done tt s else on_loader (elf_unload p) s)
      ≡ on_sched s (if p == 0 then Elf.done tt s.loader else elf_unload p s.loader)
unfolding on_sched
unload-on_sched p s = elim (Bool-cases (p == 0)) [
  | inl e ↦ rw e refl
  | inr e ↦ rw e (on_loader-on_sched (elf_unload p) s)
]

release-free_owned :
    (t : Task) (p : ℕ) (s : Sched) → release t p s ≡ on_sched s (free_owned t p s.loader)
unfolding release free_owned on_sched
release-free_owned t p s = rw (unload-on_sched t.image s) (
    bind-on_sched s _ _ _ (λ l1. rw (free_block-on_sched t.stack_base (record s { loader = l1 })) (
      bind-on_sched s _ _ _ (λ l2.
        rw (free_block-on_sched t.user_stack_base (record s { loader = l2 }))
          (bind-on_sched s _ _ _ (λ l3. on_heap-on_sched (kfree p) (record s { loader = l3 })))))))
