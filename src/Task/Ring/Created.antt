-- ===== src/Task/Ring/Created.antt =====
-- What `task_create` of src/proc/task.c leaves: the ring, the frame and the heap.
use osver.Prelude.{
  ℕ, ◌+◌, ◌^◌, ◌<◌, ◌≡◌, ◌≢◌, refl, ap, ◌∙◌, subst, Bool, true, false, List, [], ◌∷◌, ◌++◌, ◌==◌,
  eq_==, ==_eq, if◌then◌else◌, arith, Bool-cases, inl, inr,
}
use osver.Kheap.{Kheap, kmalloc, kfree, align_up, hdr_size, storage_size}
use osver.Kheap
use osver.Kheap.Layout.{Seg, place, alloc, fits, after, address}
use osver.Kheap.Inv.{IsHeap, kmalloc-alloc}
use osver.Kheap.Payload.{kmalloc-large_enough}
use osver.Kheap.Free.{kfree-release}
use osver.Task.{Sched, Outcome, done, on_heap, task_stack_size, sizeof_task}
use osver.Task.Create.{fresh_task, task_create}
use osver.Task.Ring.{Fresh}
use osver.Task.Ring.Rounds.{IsRound, bind_done, same_round}
use osver.Task.Ring.Frame.{IsNew, entering-IsNew}

-- where no block is large enough the layout stays
alloc-none : (n p : ℕ) (xs : List Seg) → p ≢ 0 → place n p xs ≡ 0 → alloc n xs ≡ xs
alloc-none n p [] pos none_fits = refl
alloc-none n p (x ∷ xs) pos none_fits = elim (Bool-cases (fits n x)) [
  | inl e ↦ absurd (let z = rw e at none_fits in pos (omega (arith, z)))
  | inr e ↦
      rw e
        (ap (λ l. x ∷ l) (alloc-none n (after p x) xs (λ z. pos (omega arith)) (rw e at none_fits)))
]

-- A call that returns `t`: NULL with the ring as it was, or a new task with its frame.
pub Created : ℕ → ℕ → ℕ → List ℕ → Outcome ℕ → Type 0
Created start entry from cs o =
    (t : ℕ) × (s' : Sched) × (o ≡ done t s')
    × (if t == 0
        then IsRound s' from cs
        else IsNew t from cs (0 ∷ 0 ∷ 0 ∷ 0 ∷ start ∷ entry ∷ []) s')

with_heap : Kheap → Sched → Sched
with_heap h s = record s { loader = record s.loader { heap = h } }

heap_round :
    (h : Kheap) (s : Sched) (from : ℕ) (cs : List ℕ)
    → IsRound s from cs
    → IsRound (with_heap h s) from cs
unfolding with_heap
heap_round h s from cs round =
    same_round s (with_heap h s) from cs refl refl (λ q. (refl, refl)) round

on_heap_done :
    {A : Type 0} (f : Kheap → Kheap.Run A) (s : Sched) (a : A) (out : Kheap)
    → f s.loader.heap ≡ Kheap.ok a out
    → on_heap f s ≡ done a (with_heap out s)
unfolding with_heap
on_heap_done f s a out e = rw (on_heap, e) refl

if_true : {A : Type 0} (b : Bool) (x y : A) → b ≡ true → (if b then x else y) ≡ x
if_true b x y e = rw e refl

if_false : {A : Type 0} (b : Bool) (x y : A) → b ≡ false → (if b then x else y) ≡ y
if_false b x y e = rw e refl

module _ (start iret : ℕ) (name : List ℕ) (entry : ℕ) (s : Sched) where
  no_record :
      (h1 : Kheap) (t : ℕ)
      → kmalloc sizeof_task s.loader.heap ≡ Kheap.ok t h1
      → (t == 0) ≡ true
      → task_create start iret name entry s ≡ done 0 (with_heap h1 s)
  unfolding task_create
  no_record h1 t run z =
      bind_done (on_heap (kmalloc sizeof_task) s) _ t _
        (on_heap_done (kmalloc sizeof_task) s t h1 run)
      ∙ if_true (t == 0) _ _ z

  no_stack :
      (h1 h2 h3 : Kheap) (t stack : ℕ)
      → kmalloc sizeof_task s.loader.heap ≡ Kheap.ok t h1
      → (t == 0) ≡ false
      → kmalloc task_stack_size h1 ≡ Kheap.ok stack h2
      → (stack == 0) ≡ true
      → kfree t h2 ≡ Kheap.ok tt h3
      → task_create start iret name entry s ≡ done 0 (with_heap h3 s)
  unfolding task_create with_heap
  no_stack h1 h2 h3 t stack run1 nz run2 z run3 =
      bind_done (on_heap (kmalloc sizeof_task) s) _ t _
        (on_heap_done (kmalloc sizeof_task) s t h1 run1)
      ∙ if_false (t == 0) _ _ nz
      ∙ bind_done (on_heap (kmalloc task_stack_size) (with_heap h1 s)) _ stack _
          (on_heap_done (kmalloc task_stack_size) (with_heap h1 s) stack h2 run2)
      ∙ if_true (stack == 0) _ _ z
      ∙ bind_done (on_heap (kfree t) (with_heap h2 s)) _ tt _
          (on_heap_done (kfree t) (with_heap h2 s) tt h3 run3)

  with_both :
      (h1 h2 : Kheap) (t stack : ℕ)
      → kmalloc sizeof_task s.loader.heap ≡ Kheap.ok t h1
      → (t == 0) ≡ false
      → kmalloc task_stack_size h1 ≡ Kheap.ok stack h2
      → (stack == 0) ≡ false
      → task_create start iret name entry s
        ≡ done t (fresh_task t name stack false 0 (entry ∷ start ∷ []) (with_heap h2 s))
  unfolding task_create with_heap
  with_both h1 h2 t stack run1 nz run2 ns =
      bind_done (on_heap (kmalloc sizeof_task) s) _ t _
        (on_heap_done (kmalloc sizeof_task) s t h1 run1)
      ∙ if_false (t == 0) _ _ nz
      ∙ bind_done (on_heap (kmalloc task_stack_size) (with_heap h1 s)) _ stack _
          (on_heap_done (kmalloc task_stack_size) (with_heap h1 s) stack h2 run2)
      ∙ if_false (stack == 0) _ _ ns

-- the cases of a result
returns_null :
    (start entry from : ℕ) (cs : List ℕ) (o : Outcome ℕ) (s' : Sched)
    → o ≡ done 0 s'
    → IsRound s' from cs
    → Created start entry from cs o
unfolding Created
returns_null start entry from cs o s' e round = (0, s', e, round)

returns_task :
    (start entry from : ℕ) (cs : List ℕ) (o : Outcome ℕ) (t : ℕ) (s' : Sched)
    → (t == 0) ≡ false
    → o ≡ done t s'
    → IsNew t from cs (0 ∷ 0 ∷ 0 ∷ 0 ∷ start ∷ entry ∷ []) s'
    → Created start entry from cs o
unfolding Created
returns_task start entry from cs o t s' nz e new = (t, s', e, rw nz new)

-- Over a sound heap and a ring without zombies, where what the heap gives is no task of the ring, `task_create`
-- returns. It answers NULL, with the ring as it was, or a new task: that one stands behind the current task in
-- the ring, and from its stack pointer up there are four zeros for the registers, the address to return to,
-- and the entry.
pub task_create-Created :
    (start iret : ℕ) (name : List ℕ) (entry : ℕ) (s : Sched) (from : ℕ) (cs : List ℕ) (base : ℕ)
    (xs : List Seg)
    → base ≢ 0
    → base + storage_size < 2 ^ 32
    → IsHeap base xs s.loader.heap
    → IsRound s from cs
    → ((t : ℕ) (h : Kheap) → kmalloc sizeof_task s.loader.heap ≡ Kheap.ok t h → Fresh t (from ∷ cs))
    → Created start entry from cs (task_create start iret name entry s)
task_create-Created start iret name entry s from cs base xs pos small heap round apart =
    elim (Bool-cases (place (align_up sizeof_task 8) base xs == 0)) [
      | inl z ↦
          let (h1, run, heap1, kept) =
            kmalloc-alloc base sizeof_task xs s.loader.heap pos (omega arith) heap in
          returns_null start entry from cs _ (with_heap h1 s)
            (no_record start iret name entry s h1 _ run z) (heap_round h1 s from cs round)
      | inr nz ↦
          let (ys, g, zs, h1, run1, heap1, used, big) =
            kmalloc-large_enough base sizeof_task xs s.loader.heap pos (omega arith) (omega arith)
              heap
              (λ e.
                absurd
                  (let z = eq_== (place (align_up sizeof_task 8) base xs) 0 e in ground arith)) in
          let t = address base ys + hdr_size in
          let some_record : (t == 0) ≡ false = ground arith in
          let (h2, run2, heap2, kept) =
            kmalloc-alloc base task_stack_size (ys ++ g ∷ zs) h1 pos (omega arith) heap1 in
          let stack = place (align_up task_stack_size 8) base (ys ++ g ∷ zs) in
          elim (Bool-cases (stack == 0)) [
            | inl z ↦
                let same =
                  alloc-none (align_up task_stack_size 8) base (ys ++ g ∷ zs) pos
                    (==_eq stack 0 z) in
                let (h3, run3, heap3, kept3) =
                  kfree-release base ys g zs h2 pos small used
                    (subst (λ l. IsHeap base l h2) same heap2) in
                returns_null start entry from cs _ (with_heap h3 s)
                  (no_stack start iret name entry s h1 h2 h3 t stack run1 some_record run2 z run3)
                  (heap_round h3 s from cs round)
            | inr ns ↦
                returns_task start entry from cs _ t _ some_record
                  (with_both start iret name entry s h1 h2 t stack run1 some_record run2 ns)
                  (entering-IsNew t name stack entry start (with_heap h2 s) from cs
                    (apart t h1 run1) (heap_round h2 s from cs round))
          ]
    ]
