-- ===== src/Task/Tests.antt =====
-- Runs of the scheduler's theorems on a ring of one running task, and a second that enters it.
use osver.Prelude.{
  sym, ap, ◌∙◌, ◌-◌, List, ℕ, ◌≡◌, refl, true, false, [], ◌∷◌, inl, inr, some, ◌==◌, if◌then◌else◌,
  arith,
}
use osver.Elf.Tests.{start}
use osver.Kheap.{Kheap, kmalloc, kheap_init, align_up, storage_size, hdr_size}
use osver.Kheap
use osver.Kheap.Layout.{Seg, seg}
use osver.Kheap.Inv.{kmalloc-alloc, kheap_init-IsHeap}
use osver.Task.Create.{task_create}
use osver.Task.Ring.Created.{Created, task_create-Created}
use osver.Task.{
  sizeof_task, task_exit, Sched, Task, TaskState, zombie, ready, running, done, pick_next,
  task_yield, task_time_slice,
}
use osver.Task.Ring.{Fresh, IsRing, answer, first_or, alive, dead, free_all}
use osver.Task.Ring.Pick.{pick_next-first_or}
use osver.Task.Ring.Rounds.{AreLive, IsLive, IsRound}
use osver.Task.Ring.Exit.{HasLeft, task_exit-HasLeft}
use osver.Task.Ring.Visits.{yields, to_all, yields-round}

abbrev pub a_task : ℕ → TaskState → Task
a_task id state = record {
  id = id;
  name = [];
  state = state;
  esp = 0;
  stack_base = 0;
  stack_size = 0;
  kernel_stack_top = 0;
  is_user = false;
  user_stack_base = 0;
  image = 0;
  ticks_run = 0;
  slice_left = task_time_slice;
  next = 1000;
}

abbrev pub alone : Sched
alone = record {
  current = 1000;
  active = true;
  need_resched = false;
  next_id = 2;
  tasks = λ p. if p == 1000 then a_task 0 running else a_task 1 ready;
  loader = start;
  words = λ p. 0;
  esp0 = 0;
}

-- a ring of three tasks, the second of them in the given state
abbrev pub ring_of : TaskState → Sched
ring_of second = record alone {
  tasks = λ p.
      if p == 1000
      then record (a_task 0 running) { next = 2000 }
      else if p == 2000
      then record (a_task 1 second) { next = 3000; stack_base = 0x8010 }
      else a_task 2 ready;
}

pick_next-first_or_example :
    pick_next 1000 (ring_of zombie)
    ≡ answer 1000
        (first_or 1000 (alive (ring_of zombie).tasks (2000 ∷ 3000 ∷ [])))
        (ring_of zombie)
        (free_all (ring_of zombie).tasks (dead (ring_of zombie).tasks (2000 ∷ 3000 ∷ [])) start)
unfolding IsRing Fresh
pick_next-first_or_example =
    pick_next-first_or 1000 (2000 ∷ 3000 ∷ []) (ring_of zombie)
      (refl, omega arith, (omega arith, tt), (refl, omega arith, tt, refl)) (omega arith)

pub three : IsRound (ring_of ready) 1000 (2000 ∷ 3000 ∷ [])
unfolding IsRing Fresh AreLive IsLive
three = record {
  active = refl;
  current = refl;
  ring = (refl, omega arith, (omega arith, tt), (refl, omega arith, tt, refl));
  live = (inr refl, (inl refl, (inl refl, tt)));
}

yields-round_example :
    (s1 : Sched) × (yields 2 (ring_of ready) ≡ done (to_all (2000 ∷ 3000 ∷ [])) s1)
    × (s2 : Sched) × (task_yield s1 ≡ done (some 1000) s2)
    × IsRound s2 1000 (2000 ∷ 3000 ∷ [])
yields-round_example = yields-round (ring_of ready) 1000 2000 (3000 ∷ []) three (omega arith)

-- the same single task over a new heap
abbrev base : ℕ
base = 0x20000

abbrev first_free : List Seg
first_free = seg (storage_size - hdr_size) false ∷ []

abbrev heaped : Sched
heaped = record alone { loader = record start { heap = kheap_init base start.heap } }

single : IsRound heaped 1000 []
unfolding IsRing AreLive IsLive
single = record { active = refl; current = refl; ring = refl; live = (inr refl, tt) }

pointer : Kheap.Run ℕ → ℕ
pointer (Kheap.ok p h) = p
pointer Kheap.halted = 0
pointer Kheap.out_of_fuel = 0

new_block :
    (t : ℕ) (h : Kheap)
    → kmalloc sizeof_task heaped.loader.heap ≡ Kheap.ok t h
    → Fresh t (1000 ∷ [])
unfolding Fresh pointer align_up
new_block t h e =
    let found =
      kmalloc-alloc base sizeof_task first_free heaped.loader.heap (omega arith) (omega arith)
        (kheap_init-IsHeap base start.heap) in
    let at : t ≡ 0x20014 = sym (ap pointer e) ∙ ap pointer found.1 in
    (λ z. omega (arith, at, z), tt)

task_create-Created_example :
    Created 0x11000 0x12345 1000 [] (task_create 0x11000 0x11040 [] 0x12345 heaped)
task_create-Created_example =
    task_create-Created 0x11000 0x11040 [] 0x12345 heaped 1000 [] base first_free (omega arith)
      (omega arith) (kheap_init-IsHeap base start.heap) single new_block

task_exit-HasLeft_example :
    (s : Sched) × (task_exit (ring_of ready) ≡ done (some 2000) s) × HasLeft 1000 2000 (3000 ∷ []) s
task_exit-HasLeft_example =
    task_exit-HasLeft (ring_of ready) 1000 2000 (3000 ∷ []) three (omega arith)
