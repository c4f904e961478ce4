-- ===== src/Shell/Line.antt =====
-- A line of input and its command in src/shell/shell.c. The characters that `keyboard_getchar` returns are a
-- list; `none` is a line that has not ended with them.
use osver.Prelude.{
  ℕ, ◌-◌, Bool, ◌&&◌, ◌||◌, Option, some, none, List, [], ◌∷◌, ◌++◌, ltb, ◌==◌, if◌then◌else◌,
  length, take,
}
use osver.Screen.{Screen, kputchar, kget_cursor}
use osver.Shell.Text.{codes, str_eq, parse, line_max}
use osver.Shell.State.{
  ok, out_of_fuel, M, pure, get, ◌>>=◌, ◌>>◌, on_screen, print, print_in, light_green, yellow,
}
use osver.Shell.Files.{
  cmd_ls, cmd_cat, cmd_touch, cmd_write, cmd_rm, cmd_mkdir, cmd_rmdir, complain,
}
use osver.Shell.Info.{cmd_help, cmd_version, cmd_uptime, cmd_halt}
use osver.Shell.Tasks.{cmd_pftest, cmd_sleep, cmd_tasks, cmd_spawn, cmd_yield, cmd_user}
use osver.Shell.Exec.{cmd_exec}
use osver.Shell.Cd.{cmd_cd, cmd_pwd}
use osver.Shell.Memory.{cmd_clear, cmd_echo, cmd_meminfo, cmd_page, cmd_vmap, cmd_heap, cmd_kalloc}

-- whether the cursor stands behind the prompt
unfoldable pub behind_prompt : ℕ × ℕ → ℕ × ℕ → Bool
behind_prompt (pcol, prow) (cc, cr) = ltb prow cr || ((cr == prow) && ltb pcol cc)

-- The loop of `readline` with the bytes of `buf` so far.
unfoldable pub read_chars : ℕ × ℕ → ℕ → List ℕ → List ℕ → Screen → Option (List ℕ × Screen)
unfolding behind_prompt
read_chars prompt max [] buf s = none
read_chars prompt max (c ∷ cs) buf s =
    let deleted = read_chars prompt max cs (take (length buf - 1) buf) (kputchar 8 s) in
    let typed = read_chars prompt max cs (buf ++ (c ∷ [])) (kputchar c s) in
    let refused = read_chars prompt max cs buf s in
    if c == 10
    then some (buf, kputchar 10 s)
    else if c == 8
    then (if ltb 0 (length buf) && behind_prompt prompt (kget_cursor s) then deleted else refused)
    else if ltb (length buf) (max - 1)
    then typed
    else refused

unfoldable pub readline : ℕ → List ℕ → Screen → Option (List ℕ × Screen)
unfolding read_chars
readline max chars s = read_chars (kget_cursor s) max chars [] s

-- the table `cmds`; the parameters are those of the commands on tasks
abbrev pub Command : Type 0
Command = List (List ℕ) → M (Unit {0})

module _ (others : ℕ → M (Unit {0})) (task_start user_iret counter demo : ℕ) where
  unfoldable pub cmds : List (List ℕ × Command)
  cmds =
      (codes "help", cmd_help)
      ∷ (codes "clear", cmd_clear)
      ∷ (codes "echo", cmd_echo)
      ∷ (codes "meminfo", cmd_meminfo)
      ∷ (codes "page", cmd_page)
      ∷ (codes "vmap", cmd_vmap)
      ∷ (codes "pf-test", cmd_pftest)
      ∷ (codes "ls", cmd_ls)
      ∷ (codes "cat", cmd_cat)
      ∷ (codes "touch", cmd_touch)
      ∷ (codes "write", cmd_write)
      ∷ (codes "rm", cmd_rm)
      ∷ (codes "mkdir", cmd_mkdir)
      ∷ (codes "rmdir", cmd_rmdir)
      ∷ (codes "cd", cmd_cd)
      ∷ (codes "pwd", cmd_pwd)
      ∷ (codes "uptime", cmd_uptime)
      ∷ (codes "sleep", cmd_sleep others)
      ∷ (codes "heap", cmd_heap)
      ∷ (codes "kalloc", cmd_kalloc)
      ∷ (codes "tasks", cmd_tasks)
      ∷ (codes "spawn", cmd_spawn task_start user_iret counter demo)
      ∷ (codes "yield", cmd_yield others)
      ∷ (codes "user", cmd_user task_start user_iret counter demo)
      ∷ (codes "exec", cmd_exec task_start user_iret)
      ∷ (codes "version", cmd_version)
      ∷ (codes "halt", cmd_halt)
      ∷ []

  -- the first entry with the name
  unfoldable pub find_command : List ℕ → List (List ℕ × Command) → Option Command
  find_command name [] = none
  find_command name ((n, f) ∷ rest) =
      let later = find_command name rest in if str_eq name n then some f else later

  unfoldable pub exec : List ℕ → M (Unit {0})
  unfolding cmds find_command
  exec line s = elim (parse line) [
    | none ↦ out_of_fuel
    | some [] ↦ ok tt s
    | some (name ∷ args) ↦ elim (find_command name cmds) [
      | some f ↦ f (name ∷ args) s
      | none ↦ (do complain (codes "unknown: "); print name; print (codes "  (type 'help')\n")) s
    ]
  ]

  -- A round of `shell_run`: the prompt, a line of the characters that are typed, and its command.
  unfoldable pub shell_round : List ℕ → M (Unit {0})
  unfolding exec readline
  shell_round chars = do
    s ← get
    print_in light_green s.cwd_path
    print_in light_green (codes "> ")
    s1 ← get
    elim (readline line_max chars s1.screen) [
      | none ↦ (λ s2. out_of_fuel)
      | some (line, screen) ↦ (do on_screen (λ old. screen); exec line)
    ]

  -- as many rounds as lines are typed
  unfoldable pub shell_rounds : List (List ℕ) → M (Unit {0})
  unfolding shell_round
  shell_rounds [] = pure tt
  shell_rounds (chars ∷ rest) = do shell_round chars; shell_rounds rest

  unfoldable pub shell_run : List (List ℕ) → M (Unit {0})
  unfolding shell_rounds
  shell_run typed = do
    print_in yellow (codes "MyOS Shell - ")
    print (codes "type 'help' for commands\n\n")
    shell_rounds typed
