-- ===== src/Shell/Runs.antt =====
-- What the steps of the shell's commands leave alone.
use osver.Prelude.{ℕ, ◌≡◌, List}
use osver.Fat32.State
use osver.Fat32.State.{Fat32, Dirent, is_directory}
use osver.Fat32.Keeps.{SamePlace, same_place, then_same, Kept}
use osver.Kheap.{Kheap, kmalloc, kfree}
use osver.Kheap
use osver.Elf.{Loader}
use osver.Elf
use osver.Task.{Sched}
use osver.Task
use osver.Shell.State.{
  System, with_heap, with_loader, Run, ok, halted, out_of_fuel, M, and_then, on_fat, on_heap,
  on_sched, on_loader,
}

-- a command that returns leaves the volume, its root, the current directory and the path
abbrev pub Stays : {A : Type 0} → Fat32 → List ℕ → Run A → Type 0
Stays fs path (ok a s') = SamePlace fs s'.fs × (s'.cwd_path ≡ path)
Stays fs path halted = Unit {0}
Stays fs path out_of_fuel = Unit {0}

Stays-from :
    {A : Type 0} (fs fs' : Fat32) (path : List ℕ) (r : Run A)
    → SamePlace fs fs'
    → Stays fs' path r
    → Stays fs path r
Stays-from fs fs' path (ok a s') same h = (then_same fs fs' s'.fs same h.0, h.1)
Stays-from fs fs' path halted same h = tt
Stays-from fs fs' path out_of_fuel same h = tt

-- behind an operation of the volume
pub Stays-on_fat :
    {A B : Type 0} (s : System) (path : List ℕ) (f : State.M A) (k : A → M B)
    → Kept s.fs (f s.fs)
    → s.cwd_path ≡ path
    → ((a : A) (s' : System) → s'.cwd_path ≡ path → Stays s'.fs path (k a s'))
    → Stays s.fs path (and_then (on_fat f s) k)
Stays-on_fat {A} {B} s path f k kept e hk = behind (f s.fs) kept
  where
    behind :
        (r : State.Run A)
        → Kept s.fs r
        → Stays s.fs path (
            and_then
              (elim r as (λ _. Run A) [
                | State.ok a fs ↦ ok a (record s { fs = fs })
                | State.out_of_fuel ↦ out_of_fuel
              ])
              k)
    behind (State.ok a fs) h = Stays-from s.fs fs path _ h (hk a (record s { fs = fs }) e)
    behind State.out_of_fuel h = tt

-- behind an operation of the heap
pub Stays-on_heap :
    {A B : Type 0} (s : System) (path : List ℕ) (f : Kheap → Kheap.Run A) (k : A → M B)
    → ((a : A) (h : Kheap) → Stays s.fs path (k a (with_heap h s)))
    → Stays s.fs path (and_then (on_heap f s) k)
Stays-on_heap {A} {B} s path f k hk = behind (f s.sched.loader.heap)
  where
    behind :
        (r : Kheap.Run A)
        → Stays s.fs path (
            and_then
              (elim r as (λ _. Run A) [
                | Kheap.ok a h ↦ ok a (with_heap h s)
                | Kheap.halted ↦ halted
                | Kheap.out_of_fuel ↦ out_of_fuel
              ])
              k)
    behind (Kheap.ok a h) = hk a h
    behind Kheap.halted = tt
    behind Kheap.out_of_fuel = tt

-- an operation of the heap at the end
pub Stays-last :
    {A : Type 0} (s : System) (path : List ℕ) (f : Kheap → Kheap.Run A)
    → s.cwd_path ≡ path
    → Stays s.fs path (on_heap f s)
Stays-last {A} s path f e = behind (f s.sched.loader.heap)
  where
    behind :
        (r : Kheap.Run A)
        → Stays s.fs path (elim r as (λ _. Run A) [
          | Kheap.ok a h ↦ ok a (with_heap h s)
          | Kheap.halted ↦ halted
          | Kheap.out_of_fuel ↦ out_of_fuel
        ])
    behind (Kheap.ok a h) = (same_place s.fs, e)
    behind Kheap.halted = tt
    behind Kheap.out_of_fuel = tt

-- behind an operation of the scheduler, and of the loader
pub Stays-on_sched :
    {A B : Type 0} (s : System) (path : List ℕ) (f : Sched → Task.Outcome A) (k : A → M B)
    → ((a : A) (sched : Sched) → Stays s.fs path (k a (record s { sched = sched })))
    → Stays s.fs path (and_then (on_sched f s) k)
Stays-on_sched {A} {B} s path f k hk = behind (f s.sched)
  where
    behind :
        (r : Task.Outcome A)
        → Stays s.fs path (
            and_then
              (elim r as (λ _. Run A) [
                | osver.Task.done a sched ↦ ok a (record s { sched = sched })
                | osver.Task.halted ↦ halted
                | osver.Task.out_of_fuel ↦ out_of_fuel
              ])
              k)
    behind (osver.Task.done a sched) = hk a sched
    behind osver.Task.halted = tt
    behind osver.Task.out_of_fuel = tt

pub Stays-on_loader :
    {A B : Type 0} (s : System) (path : List ℕ) (f : Loader → Elf.Outcome A) (k : A → M B)
    → ((a : A) (l : Loader) → Stays s.fs path (k a (with_loader l s)))
    → Stays s.fs path (and_then (on_loader f s) k)
Stays-on_loader {A} {B} s path f k hk = behind (f s.sched.loader)
  where
    behind :
        (r : Elf.Outcome A)
        → Stays s.fs path (
            and_then
              (elim r as (λ _. Run A) [
                | Elf.done a l ↦ ok a (with_loader l s)
                | Elf.halted ↦ halted
                | Elf.out_of_fuel ↦ out_of_fuel
              ])
              k)
    behind (Elf.done a l) = hk a l
    behind Elf.halted = tt
    behind Elf.out_of_fuel = tt
