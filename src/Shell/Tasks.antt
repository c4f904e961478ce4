-- ===== src/Shell/Tasks.antt =====
-- The commands of src/shell/shell.c on tasks and time. What happens from a switch to another task until the
-- shell is switched back to is a parameter, `others`; so are the addresses of code.
use osver.Prelude.{
  ℕ, zero, suc, ◌+◌, ◌*◌, ◌%◌, ◌^◌, some, none, List, [], ◌∷◌, ◌++◌, ltb, ◌==◌, if◌then◌else◌,
}
use osver.Screen.{Screen, kputchar, kprint, kprint_color, kprint_dec, vga_black}
use osver.Paging.{vmm_get_phys, unmapped}
use osver.Task.{TaskState, ready, running, zombie, task_yield}
use osver.Task.Create.{
  TaskInfo, task_create, task_create_user, task_tick, task_should_resched, task_list_snapshot,
}
use osver.Timer.{timer_irq, ticks_to_wait}
use osver.Shell.Text.{codes, parse_uint}
use osver.Shell.Files.{complain}
use osver.Shell.State.{
  ok, halted, out_of_fuel, M, pure, get, ◌>>=◌, ◌>>◌, on_sched, on_screen, print, print_in,
  print_dec, print_char, light_cyan, light_green,
}

unfoldable pub cmd_pftest : List (List ℕ) → M (Unit {0})
cmd_pftest argv = do
  complain (codes "Triggering page fault at 0xDEADC000 ...\n")
  s ← get
  if vmm_get_phys 0xDEADC000 s.sched.loader.paging == unmapped
      then (λ s1. halted)
      else print (codes "(unreachable)\n")

unfoldable pub state_str : TaskState → List ℕ
state_str running = codes "RUN "
state_str ready = codes "RDY "
state_str zombie = codes "DEAD"

unfoldable pub task_line : TaskInfo → Screen → Screen
unfolding state_str
task_line info s =
    let s1 =
      if info.is_current
      then kprint_color (codes "*") light_green vga_black s
      else kputchar b' ' s in
    let s2 = kprint_dec info.id (kprint (codes " ") s1) in
    let s3 = if ltb info.id 10 then kputchar b' ' s2 else s2 in
    let s4 = kprint (codes "   ") (kprint (state_str info.state) (kprint (codes "  ") s3)) in
    let s5 = kprint (codes "    ") (kprint_dec info.ticks_run s4) in
    kputchar 10 (kprint info.name s5)

unfoldable pub task_lines : List TaskInfo → Screen → Screen
unfolding task_line
task_lines [] s = s
task_lines (info ∷ rest) s = task_lines rest (task_line info s)

unfoldable pub cmd_tasks : List (List ℕ) → M (Unit {0})
unfolding task_lines
cmd_tasks argv s =
    if s.sched.active
    then (do
      print_in light_cyan (codes "ID  STATE  TICKS    NAME\n")
      on_screen (task_lines (task_list_snapshot 16 s.sched)))
        s
    else print (codes "multitasking not active\n") s

abbrev pub not_active : M (Unit {0})
not_active = complain (codes "multitasking not active\n")

-- the number and the name of a new task
abbrev pub tell_task : List ℕ → ℕ → M (Unit {0})
tell_task text t = do
  s ← get
  print text
  print_dec (s.sched.tasks t).id
  print (codes " '")
  print (s.sched.tasks t).name
  print (codes "'\n")

-- the numbers of tasks that can be spawned
abbrev pub at_most : ℕ → ℕ → ℕ
at_most top n = if ltb top n then top else n

module _ (others : ℕ → M (Unit {0})) where
  -- `task_yield`, up to the point where it returns
  unfoldable pub yield_now : M (Unit {0})
  yield_now = do to ← on_sched task_yield; elim to [ none ↦ pure tt | some t ↦ others t ]

  -- a tick of the timer during a wait
  unfoldable pub next_tick : M (Unit {0})
  unfolding yield_now
  next_tick s =
      let (asked, sched) = task_should_resched (task_tick s.sched) in
      let s1 = record s { ticks = timer_irq s.ticks; sched = sched } in
      if asked then yield_now s1 else ok tt s1

  -- the loop of `timer_sleep_ms`
  unfoldable pub wait_until : ℕ → ℕ → M (Unit {0})
  unfolding next_tick
  wait_until zero target s = if ltb s.ticks target then out_of_fuel else ok tt s
  wait_until (suc fuel) target s =
      let rest = (next_tick >> wait_until fuel target) s in
      if ltb s.ticks target then rest else ok tt s

  -- Fuel: as many ticks as the wait takes, when the other tasks leave the counter alone.
  unfoldable pub sleep_ms : ℕ → M (Unit {0})
  unfolding wait_until
  sleep_ms ms s = wait_until (ticks_to_wait ms) ((s.ticks + ticks_to_wait ms) % 2 ^ 32) s

  unfoldable pub cmd_sleep : List (List ℕ) → M (Unit {0})
  unfolding sleep_ms
  cmd_sleep (name ∷ seconds ∷ args) =
      let sec = parse_uint seconds in
      if sec == 0
      then print (codes "sleep: 0 seconds, returning immediately\n")
      else sleep_ms (at_most 3600 sec * 1000 % 2 ^ 32)
  cmd_sleep argv = print (codes "usage: sleep <seconds>\n")

  unfoldable pub cmd_yield : List (List ℕ) → M (Unit {0})
  unfolding yield_now
  cmd_yield argv s =
      if s.sched.active then (do yield_now; print (codes "(back from yield)\n")) s else not_active s

  -- The rounds from `i` on of the task that `spawn` creates, whose number and name stand at `me`.
  unfoldable pub counter_rounds : ℕ → ℕ → ℕ → M (Unit {0})
  unfolding sleep_ms
  counter_rounds zero i me = pure tt
  counter_rounds (suc left) i me = do
    s ← get
    print (codes "\n[T")
    print_dec (s.sched.tasks me).id
    print (codes ":")
    print_dec i
    print (codes "] tick from ")
    print (s.sched.tasks me).name
    print_char 10
    sleep_ms 1000
    counter_rounds left (i + 1) me

  unfoldable pub counter_task : M (Unit {0})
  unfolding counter_rounds
  counter_task s = counter_rounds 5 0 s.sched.current s

-- the addresses of the assembly, of `counter_task` and of `user_demo_entry`
module _ (task_start user_iret counter demo : ℕ) where
  -- the tasks from number `i` on
  unfoldable pub spawn_loop : ℕ → ℕ → M (Unit {0})
  spawn_loop zero i = pure tt
  spawn_loop (suc left) i = do
    let name = codes "cnt-" ++ ((b'0' + i % 10) ∷ [])
    t ← on_sched (task_create task_start user_iret name counter)
    if t == 0
        then complain (codes "spawn failed (kheap?)\n")
        else (do tell_task (codes "spawned task #") t; spawn_loop left (i + 1))

  unfoldable pub cmd_spawn : List (List ℕ) → M (Unit {0})
  unfolding spawn_loop
  cmd_spawn (name ∷ count ∷ args) s =
      let n = parse_uint count in
      if s.sched.active then spawn_loop (at_most 8 (if n == 0 then 1 else n)) 0 s else not_active s
  cmd_spawn argv s = print (codes "usage: spawn <count>\n") s

  unfoldable pub cmd_user : List (List ℕ) → M (Unit {0})
  cmd_user argv s =
      if s.sched.active
      then (do
        t ← on_sched (task_create_user task_start user_iret (codes "ring3-demo") demo)
        if t == 0
            then complain (codes "failed to spawn user task (kheap?)\n")
            else tell_task (codes "spawned ring-3 task #") t)
          s
      else not_active s
