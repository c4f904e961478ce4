-- ===== src/Task.antt =====
-- The scheduler of src/proc/task.c: tasks in a circular list through their `next` pointers, kept in a
-- store from addresses to tasks beside the heap that they are allocated from. Words on the kernel
-- stacks are kept by address. The assembly of the context switch is outside: `task_yield` says to
-- which task it switches. The image of a dead task is released by `elf_unload` of src/proc/elf.c.
pub mod Create
pub mod Ring
pub mod Slice
pub mod Tests
use osver.Prelude.{
  ℕ, zero, suc, ◌+◌, ◌-◌, ◌*◌, ◌%◌, ◌^◌, Bool, true, false, not, ◌&&◌, ◌||◌, Option, some, none,
  List, [], ◌∷◌, ltb, leb, ◌==◌, if◌then◌else◌, bit_and, take,
}
use osver.Kheap.{Kheap, kmalloc, kfree}
use osver.Kheap
use osver.Elf.{Loader, elf_unload}
use osver.Elf

abbrev pub task_name_len : ℕ
task_name_len = 16

abbrev pub task_stack_size : ℕ
task_stack_size = 0x4000

abbrev pub task_time_slice : ℕ
task_time_slice = 5

-- the size of `task_t`
abbrev pub sizeof_task : ℕ
sizeof_task = 64

-- `task_state_t`
pub data TaskState : Type 0 where
  ready running zombie : TaskState

-- `task_t`
pub record Task : Type 0 where
  pub id : ℕ
  pub name : List ℕ
  pub state : TaskState
  pub esp : ℕ
  pub stack_base : ℕ
  pub stack_size : ℕ
  pub kernel_stack_top : ℕ
  pub is_user : Bool
  pub user_stack_base : ℕ
  pub image : ℕ
  pub ticks_run : ℕ
  pub slice_left : ℕ
  pub next : ℕ

-- the static variables, the tasks, the heap with the pages and the images, the stacks and the field esp0 of
-- the TSS
pub record Sched : Type 0 where
  pub current : ℕ
  pub active : Bool
  pub need_resched : Bool
  pub next_id : ℕ
  pub tasks : ℕ → Task
  pub loader : Loader
  pub words : ℕ → ℕ
  pub esp0 : ℕ

-- `halted`: a panic, or no task can run.
pub data Outcome (A : Type 0) : Type 0 where
  done : A → Sched → Outcome A
  halted : Outcome A
  out_of_fuel : Outcome A

abbrev pub bind : {A B : Type 0} → Outcome A → (A → Sched → Outcome B) → Outcome B
bind (done a s) k = k a s
bind halted k = halted
bind out_of_fuel k = out_of_fuel

-- an operation of the heap
abbrev pub on_heap : {A : Type 0} → (Kheap → Kheap.Run A) → Sched → Outcome A
on_heap f s = elim (f s.loader.heap) [
  | Kheap.ok a h ↦ done a (record s { loader = record s.loader { heap = h } })
  | Kheap.halted ↦ halted
  | Kheap.out_of_fuel ↦ out_of_fuel
]

-- an operation of the ELF loader
abbrev pub on_loader : {A : Type 0} → (Loader → Elf.Outcome A) → Sched → Outcome A
on_loader f s = elim (f s.loader) [
  | Elf.done a l ↦ done a (record s { loader = l })
  | Elf.halted ↦ halted
  | Elf.out_of_fuel ↦ out_of_fuel
]

unfoldable pub put : ℕ → Task → Sched → Sched
put p t s = record s { tasks = λ q. if q == p then t else s.tasks q }

-- a name is cut to 15 characters
unfoldable pub str_copy_n : List ℕ → List ℕ
str_copy_n src = take (task_name_len - 1) src

unfoldable pub ready_insert_after_current : ℕ → Sched → Sched
unfolding put
ready_insert_after_current t s =
    let s1 = put t (record (s.tasks t) { next = (s.tasks s.current).next }) s in
    put s.current (record (s1.tasks s.current) { next = t }) s1

-- the node before the target, from `p` on
unfoldable pub find_before : ℕ → ℕ → ℕ → Sched → Option ℕ
find_before zero target p s = none
find_before (suc fuel) target p s =
    let rest = find_before fuel target (s.tasks p).next s in
    if (s.tasks p).next == target then some p else rest

-- Fuel: tasks have distinct 32-bit addresses, so no ring is longer.
abbrev pub ring_fuel : ℕ
ring_fuel = 2 ^ 32

unfoldable pub ready_remove : ℕ → Sched → Outcome (Unit {0})
unfolding put
ready_remove target s = elim (find_before ring_fuel target (s.tasks target).next s) [
  | none ↦ out_of_fuel
  | some p ↦ done tt (put p (record (s.tasks p) { next = (s.tasks target).next }) s)
]

-- `kfree` of a pointer that may be NULL is left out there
abbrev pub free_unless_null : ℕ → Sched → Outcome (Unit {0})
free_unless_null p s = if p == 0 then done tt s else on_heap (kfree p) s

-- what a dead task `t` owned is given back, then the task
unfoldable pub release : Task → ℕ → Sched → Outcome (Unit {0})
release dead t s1 =
    bind (if dead.image == 0 then done tt s1 else on_loader (elf_unload dead.image) s1) (λ _ s2.
      bind (free_unless_null dead.stack_base s2)
        (λ _ s3. bind (free_unless_null dead.user_stack_base s3) (λ _ s4. on_heap (kfree t) s4)))

unfoldable pub reap : ℕ → Sched → Outcome (Unit {0})
reap t s = let dead = s.tasks t in bind (ready_remove t s) (λ _ s1. release dead t s1)

-- the loop of `pick_next` at `cand`
unfoldable pub pick_loop : ℕ → ℕ → ℕ → Sched → Outcome ℕ
pick_loop zero from cand s = out_of_fuel
pick_loop (suc fuel) from cand s = if cand == from then done from s else elim (s.tasks cand).state [
  | zombie ↦ bind (reap cand s) (λ _ s1. pick_loop fuel from (s.tasks cand).next s1)
  | ready ↦ done cand s
  | running ↦ done cand s
]

unfoldable pub pick_next : ℕ → Sched → Outcome ℕ
pick_next from s = pick_loop ring_fuel from (s.tasks from).next s

-- `none`: the caller goes on; `some t`: the context is switched to task `t`.
unfoldable pub task_yield : Sched → Outcome (Option ℕ)
task_yield s = if s.active then bind (pick_next s.current s) switch_to else done none s
  where
    is_zombie : TaskState → Bool
    is_zombie zombie = true
    is_zombie ready = false
    is_zombie running = false

    -- a running task is ready from now on
    paused : TaskState → TaskState
    paused running = ready
    paused ready = ready
    paused zombie = zombie

    switch_to : ℕ → Sched → Outcome (Option ℕ)
    switch_to next s1 =
        let prev = s1.current in
        let old = s1.tasks prev in
        let s2 =
          put prev (record old { state = paused old.state; slice_left = task_time_slice }) s1 in
        let s3 =
          put next (record (s2.tasks next) { state = running; slice_left = task_time_slice }) s2 in
        let top = (s1.tasks next).kernel_stack_top in
        if next == prev
        then (if is_zombie old.state then halted else done none s1)
        else done (some next)
            (record s3 { current = next; esp0 = if top == 0 then s1.esp0 else top })

-- A yield that comes back panics.
unfoldable pub task_exit : Sched → Outcome (Option ℕ)
unfolding put
task_exit s =
    bind (task_yield (put s.current (record (s.tasks s.current) { state = zombie }) s))
      (λ to s1. elim to [ none ↦ halted | some t ↦ done (some t) s1 ])
