-- ===== src/Task/Create.antt =====
-- Starting the scheduler, creating tasks with their first stack frames, and the tick.
use osver.Prelude.{
  ℕ, zero, suc, ◌+◌, ◌-◌, ◌*◌, ◌%◌, ◌/◌, ◌^◌, Bool, true, false, List, [], ◌∷◌, ◌==◌, if◌then◌else◌,
}
use osver.Cpu.Gdt.{gdt_udata_sel, gdt_ucode_sel}
use osver.Kheap.{kmalloc, kfree}
use osver.Task.{
  task_stack_size, task_time_slice, sizeof_task, TaskState, ready, running, Sched, Outcome, done,
  halted, bind, on_heap, put, str_copy_n, ready_insert_after_current, free_unless_null,
}

-- *--sp = v
unfoldable pub push : ℕ → ℕ × Sched → ℕ × Sched
push v (sp, s) =
    let sp' = (sp + 2 ^ 32 - 4) % 2 ^ 32 in
    (sp', record s { words = λ a. if a == sp' then v else s.words a })

-- the words in this order
unfoldable pub push_all : List ℕ → ℕ × Sched → ℕ × Sched
unfolding push
push_all [] frame = frame
push_all (v ∷ vs) frame = push_all vs (push v frame)

-- the first task, at `boot`, alone in the ring
unfoldable pub boot_task : ℕ → Sched → Sched
unfolding put str_copy_n
boot_task boot s1 =
    record (put boot
      (record {
        id = s1.next_id;
        name = str_copy_n (b'b' ∷ b'o' ∷ b'o' ∷ b't' ∷ []);
        state = running;
        esp = 0;
        stack_base = 0;
        stack_size = 0;
        kernel_stack_top = 0;
        is_user = false;
        user_stack_base = 0;
        image = 0;
        ticks_run = 0;
        slice_left = task_time_slice;
        next = boot;
      })
      s1) { next_id = (s1.next_id + 1) % 2 ^ 32; current = boot; active = true }

-- `kmalloc failed` panics
unfoldable pub tasking_init : Sched → Outcome (Unit {0})
unfolding boot_task
tasking_init s =
    bind (on_heap (kmalloc sizeof_task) s)
      λ boot s1. if boot == 0 then halted else done tt (boot_task boot s1)

-- the end of the functions that create a task: it comes behind the current one, or alone
unfoldable pub enqueue : ℕ → Sched → Sched
unfolding put
enqueue t s =
    if s.active
    then ready_insert_after_current t s
    else record (put t (record (s.tasks t) { next = t }) s) { current = t; active = true }

-- the words below which a new task resumes: those of `frame`, then four zeros for the registers
unfoldable pub saved_registers : List ℕ
saved_registers = 0 ∷ 0 ∷ 0 ∷ 0 ∷ []

-- a task that is ready, whose stack pointer stands below its first frame
unfoldable pub fresh_task : ℕ → List ℕ → ℕ → Bool → ℕ → List ℕ → Sched → Sched
unfolding put push_all str_copy_n saved_registers
fresh_task t name stack is_user user_stack frame s =
    let top = (stack + task_stack_size) % 2 ^ 32 in
    let pushed = push_all saved_registers (push_all frame (top, s)) in
    enqueue t
      (record (put t
        (record {
          id = s.next_id;
          name = str_copy_n name;
          state = ready;
          esp = pushed.0;
          stack_base = stack;
          stack_size = task_stack_size;
          kernel_stack_top = top;
          is_user = is_user;
          user_stack_base = user_stack;
          image = 0;
          ticks_run = 0;
          slice_left = task_time_slice;
          next = (s.tasks t).next;
        })
        pushed.1) { next_id = (s.next_id + 1) % 2 ^ 32 })

-- The addresses of the two assembly routines are parameters.
module _ (task_start_trampoline user_iret_trampoline : ℕ) where
  -- 0 is NULL
  unfoldable pub task_create : List ℕ → ℕ → Sched → Outcome ℕ
  task_create name entry s = bind (on_heap (kmalloc sizeof_task) s) λ t s1.
      if t == 0
      then done 0 s1
      else bind (on_heap (kmalloc task_stack_size) s1) λ stack s2.
        if stack == 0
        then bind (on_heap (kfree t) s2) (λ _ s3. done 0 s3)
        else done t (fresh_task t name stack false 0 (entry ∷ task_start_trampoline ∷ []) s2)

  unfoldable pub task_create_user : List ℕ → ℕ → Sched → Outcome ℕ
  task_create_user name entry s = bind (on_heap (kmalloc sizeof_task) s) λ t s1.
      if t == 0
      then done 0 s1
      else bind (on_heap (kmalloc task_stack_size) s1) λ kstack s2.
        bind (on_heap (kmalloc task_stack_size) s2) λ ustack s3.
          if if kstack == 0 then true else ustack == 0
          then bind (free_unless_null kstack s3) (λ _ s4.
            bind (free_unless_null ustack s4)
              (λ _ s5. bind (on_heap (kfree t) s5) (λ _ s6. done 0 s6)))
          else (let ustack_top = (ustack + task_stack_size) % 2 ^ 32 / 16 * 16 in
              let frame =
                gdt_udata_sel ∷ ustack_top ∷ 0x202 ∷ gdt_ucode_sel ∷ entry ∷ user_iret_trampoline
                ∷ [] in
              done t (fresh_task t name kstack true ustack frame s3))

  -- `entry_of` reads the field of the image.
  unfoldable pub task_create_user_image : (ℕ → ℕ) → List ℕ → ℕ → Sched → Outcome ℕ
  unfolding put
  task_create_user_image entry_of name image s =
      if image == 0
      then done 0 s
      else bind (task_create_user name (entry_of image) s) λ t s1.
        if t == 0 then done 0 s1 else done t (put t (record (s1.tasks t) { image = image }) s1)

unfoldable pub task_tick : Sched → Sched
unfolding put
task_tick s =
    let t = s.tasks s.current in
    let left = t.slice_left - 1 in
    let s1 =
      put s.current (record t { ticks_run = (t.ticks_run + 1) % 2 ^ 32; slice_left = left }) s in
    if s.active then record s1 { need_resched = if left == 0 then true else s.need_resched } else s

unfoldable pub task_should_resched : Sched → Bool × Sched
task_should_resched s =
    if s.need_resched then (true, record s { need_resched = false }) else (false, s)

-- `task_info_t`
pub record TaskInfo : Type 0 where
  pub id : ℕ
  pub name : List ℕ
  pub state : TaskState
  pub ticks_run : ℕ
  pub is_current : Bool

-- the loop of `task_list_snapshot` at `t`, with room for `max` entries more
unfoldable pub snapshot_loop : ℕ → ℕ → Sched → List TaskInfo
snapshot_loop zero t s = []
snapshot_loop (suc max) t s =
    let rest = snapshot_loop max (s.tasks t).next s in
    record {
      id = (s.tasks t).id;
      name = (s.tasks t).name;
      state = (s.tasks t).state;
      ticks_run = (s.tasks t).ticks_run;
      is_current = t == s.current;
    }
    ∷ (if (s.tasks t).next == s.current then [] else rest)

unfoldable pub task_list_snapshot : ℕ → Sched → List TaskInfo
task_list_snapshot max s = if s.active then snapshot_loop max s.current s else []
