-- ===== src/Shell/State.antt =====
-- What the shell's commands of src/shell/shell.c work on: the screen, the volume, the tasks with the heap
-- and the mapped memory, `cwd_path`, and the ticks of the timer. A command takes the state and returns the new one. Buffers that
-- a command takes from the heap are allocated and freed, and their bytes are passed as values.
use osver.Prelude.{ℕ, List}
use osver.Screen.{Screen, kputchar, kprint, kprint_color, kprint_dec, kprint_hex, vga_black}
use osver.Kheap.{Kheap}
use osver.Kheap
use osver.Paging.{Paging}
use osver.Elf.{Loader}
use osver.Elf
use osver.Task.{Sched}
use osver.Task
use osver.Fat32.State.{Fat32}
use osver.Fat32.State

pub record System : Type 0 where
  pub screen : Screen
  pub fs : Fat32
  pub sched : Sched
  pub cwd_path : List ℕ
  pub ticks : ℕ

abbrev pub with_loader : Loader → System → System
with_loader l s = record s { sched = record s.sched { loader = l } }

abbrev pub with_heap : Kheap → System → System
with_heap h s = with_loader (record s.sched.loader { heap = h }) s

abbrev pub with_paging : Paging → System → System
with_paging p s = with_loader (record s.sched.loader { paging = p }) s

-- `halted`: the heap panics, or the command halts.
pub data Run (A : Type 0) : Type 0 where
  ok : A → System → Run A
  halted : Run A
  out_of_fuel : Run A

abbrev pub M : Type 0 → Type 0
M A = System → Run A

abbrev pub pure : {A : Type 0} → A → M A
pure a s = ok a s

abbrev pub and_then : {A B : Type 0} → Run A → (A → M B) → Run B
and_then (ok a s) k = k a s
and_then halted k = halted
and_then out_of_fuel k = out_of_fuel

infixl 5 ◌>>=◌ ◌>>◌
abbrev pub ◌>>=◌ : {A B : Type 0} → M A → (A → M B) → M B
m >>= k = λ s. and_then (m s) k

abbrev pub ◌>>◌ : {A B : Type 0} → M A → M B → M B
m >> n = m >>= λ _. n

abbrev pub get : M System
get s = ok s s

-- an operation of the volume, of the heap, and on the screen
abbrev pub on_fat : {A : Type 0} → State.M A → M A
on_fat f s = elim (f s.fs) [
  | State.ok a fs ↦ ok a (record s { fs = fs })
  | State.out_of_fuel ↦ out_of_fuel
]

abbrev pub on_heap : {A : Type 0} → (Kheap → Kheap.Run A) → M A
on_heap f s = elim (f s.sched.loader.heap) [
  | Kheap.ok a h ↦ ok a (with_heap h s)
  | Kheap.halted ↦ halted
  | Kheap.out_of_fuel ↦ out_of_fuel
]

abbrev pub on_loader : {A : Type 0} → (Loader → Elf.Outcome A) → M A
on_loader f s = elim (f s.sched.loader) [
  | Elf.done a l ↦ ok a (with_loader l s)
  | Elf.halted ↦ halted
  | Elf.out_of_fuel ↦ out_of_fuel
]

-- an operation of the scheduler
abbrev pub on_sched : {A : Type 0} → (Sched → Task.Outcome A) → M A
on_sched f s = elim (f s.sched) [
  | Task.done a sched ↦ ok a (record s { sched = sched })
  | Task.halted ↦ halted
  | Task.out_of_fuel ↦ out_of_fuel
]

abbrev pub on_screen : (Screen → Screen) → M (Unit {0})
on_screen f s = ok tt (record s { screen = f s.screen })

abbrev pub light_green : ℕ
light_green = 10

abbrev pub light_cyan : ℕ
light_cyan = 11

abbrev pub light_red : ℕ
light_red = 12

abbrev pub yellow : ℕ
yellow = 14

abbrev pub print : List ℕ → M (Unit {0})
print cs = on_screen (kprint cs)

abbrev pub print_in : ℕ → List ℕ → M (Unit {0})
print_in color cs = on_screen (kprint_color cs color vga_black)

abbrev pub print_dec : ℕ → M (Unit {0})
print_dec n = on_screen (kprint_dec n)

abbrev pub print_hex : ℕ → M (Unit {0})
print_hex n = on_screen (kprint_hex n)

abbrev pub print_char : ℕ → M (Unit {0})
print_char c = on_screen (kputchar c)
