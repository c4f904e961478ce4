-- ===== src/Kernel/Started.antt =====
-- What holds when the shell starts.
use osver.Prelude.{
  ℕ, ◌+◌, ◌-◌, ◌/◌, ◌%◌, ◌^◌, ◌<◌, ◌≡◌, ◌≢◌, refl, sym, ap, ◌∙◌, subst, Bool, true, false, some,
  List, [], ◌∷◌, ltb, ◌==◌, eq_==, if◌then◌else◌, arith, inr,
}
use osver.Kheap.{Kheap, kmalloc, kheap_init, hdr_size, storage_size, align_up}
use osver.Kheap
use osver.Kheap.Layout.{Seg, seg}
use osver.Kheap.Inv.{IsHeap, kheap_init-IsHeap, kmalloc-alloc}
use osver.Pmm.{E820Entry, page_is_free, pmm_init}
use osver.Pmm.Init.{pmm_init-page}
use osver.Paging.{paging_init, vmm_get_phys, unmapped}
use osver.Paging.Slot.{IsPaged}
use osver.Paging.Init.{vmm_get_phys-paging_init}
use osver.Task.{Sched, done, on_heap, sizeof_task, put}
use osver.Task.Create.{boot_task, tasking_init}
use osver.Task.Ring.{IsRing}
use osver.Task.Ring.Rounds.{IsRound, AreLive, IsLive, bind_done}
use osver.Interrupt.{isr_register}
use osver.Interrupt.Handlers.{
  keyboard_init, register_fault, register_timer, page_fault_handler, timer_irq, kb_irq_handler,
}
use osver.Kernel.{
  Layout, Boot, at_shell, kmain, start_console, start_tables, start_memory, start_disk, start_timer,
  start_tasks, tell_memory, announce,
}

-- the layout of the heap with the record of the first task
pub first_layout : List Seg
first_layout = seg 64 true ∷ seg (storage_size - hdr_size - 64 - hdr_size) false ∷ []

if_false : {A : Type 0} (b : Bool) (x y : A) → b ≡ false → (if b then x else y) ≡ y
if_false b x y e = rw e refl

on_heap_done :
    (f : Kheap → Kheap.Run ℕ) (s : Sched) (a : ℕ) (out : Kheap)
    → f s.loader.heap ≡ Kheap.ok a out
    → on_heap f s ≡ done a (record s { loader = record s.loader { heap = out } })
on_heap_done f s a out e = rw (on_heap, e) refl

alone : (p : ℕ) (s : Sched) → IsRound (boot_task p s) p []
unfolding boot_task put IsRing AreLive IsLive
alone p s = record {
  active = refl;
  current = refl;
  ring = rw (eq_== p p refl) refl;
  live = (inr (rw (eq_== p p refl) refl), tt);
}

boot_loader : (p : ℕ) (s : Sched) → (boot_task p s).loader ≡ s.loader
unfolding boot_task put
boot_loader p s = refl

-- The first task is created behind the header of the first block.
tasking_init-first :
    (base : ℕ) (h : Kheap) (s : Sched)
    → base ≢ 0
    → s.loader.heap ≡ kheap_init base h
    → (s' : Sched) × (tasking_init s ≡ done tt s')
      × IsRound s' (base + hdr_size) []
      × IsHeap base first_layout s'.loader.heap
      × (s'.loader.paging ≡ s.loader.paging)
unfolding tasking_init first_layout align_up
tasking_init-first base h s pos e =
    let (out, run, heap, bytes) =
      kmalloc-alloc base sizeof_task (seg (storage_size - hdr_size) false ∷ []) (kheap_init base h)
        pos (omega arith) (kheap_init-IsHeap base h) in
    let s1 : Sched = record s { loader = record s.loader { heap = out } } in
    let some_block : ((base + hdr_size) == 0) ≡ false = ground arith in
    (
      boot_task (base + hdr_size) s1,
      bind_done (on_heap (kmalloc sizeof_task) s) _ (base + hdr_size) s1
            (on_heap_done (kmalloc sizeof_task) s _ out (ap (kmalloc sizeof_task) e ∙ run))
          ∙ if_false ((base + hdr_size) == 0) _ _ some_block,
      alone (base + hdr_size) s1,
      subst (λ x. IsHeap base first_layout x.heap) (sym (boot_loader (base + hdr_size) s1)) heap,
      ap (λ x. x.paging) (boot_loader (base + hdr_size) s1),
    )

-- The linker's and the assembly's part: the first page table is a page below 1 MiB, but not the first one.
pub record IsLayout (l : Layout) : Type 0 where
  pub aligned : l.first_page_table % 4096 ≡ 0
  pub low : l.first_page_table < 0x100000
  pub not_first : l.first_page_table ≢ 0
  pub heap : l.heap_storage ≢ 0

-- The shell's task is alone, the heap holds its record only, the first 4 MiB are mapped to themselves and
-- nothing else is, and the three handlers are registered.
pub record IsStarted (l : Layout) (b : Boot) : Type 0 where
  pub alone : IsRound b.sched (l.heap_storage + hdr_size) []
  pub heap : IsHeap l.heap_storage first_layout b.sched.loader.heap
  pub paged : IsPaged b.sched.loader.paging
  pub identity :
      (v : ℕ)
      → v < 2 ^ 32
      → vmm_get_phys v b.sched.loader.paging ≡ (if ltb v (2 ^ 22) then v else unmapped)
  pub on_fault : b.handlers 14 ≡ some page_fault_handler
  pub on_timer : b.handlers 32 ≡ some timer_irq
  pub on_key : b.handlers 33 ≡ some kb_irq_handler

either_way : (P : Boot → Type 0) (c : Bool) (x y : Boot) → P x → P y → P (if c then x else y)
either_way P true x y px py = px
either_way P false x y px py = py

disk-sched : (b : Boot) → (start_disk b).sched ≡ b.sched
unfolding start_disk
disk-sched b = either_way (λ x. x.sched ≡ b.sched) _ _ _ refl refl

disk-handlers : (b : Boot) → (start_disk b).handlers ≡ b.handlers
unfolding start_disk
disk-handlers b = either_way (λ x. x.handlers ≡ b.handlers) _ _ _ refl refl

-- the state that the tasks start in
before : Layout → List E820Entry → Boot → Boot
before l table b =
    start_timer (start_disk (start_memory l table (start_tables l (start_console b))))

memory-loader :
    (l : Layout) (table : List E820Entry) (b : Boot)
    → ((start_memory l table b).sched.loader.heap ≡ kheap_init l.heap_storage b.sched.loader.heap)
      × ((start_memory l table b).sched.loader.paging
          ≡ paging_init l.first_page_table (record b.sched.loader.paging { pmm = pmm_init table }))
unfolding start_memory tell_memory
memory-loader l table b = (refl, refl)

tables-sched : (l : Layout) (b : Boot) → (start_tables l (start_console b)).sched ≡ b.sched
unfolding start_tables start_console
tables-sched l b = refl

before-sched :
    (l : Layout) (table : List E820Entry) (b : Boot)
    → (before l table b).sched ≡ (start_memory l table (start_tables l (start_console b))).sched
unfolding before start_timer
before-sched l table b = disk-sched _

memory-handlers :
    (l : Layout) (table : List E820Entry) (b : Boot)
    → ((start_memory l table b).handlers 14 ≡ some page_fault_handler)
      × ((start_memory l table b).handlers 33 ≡ b.handlers 33)
unfolding start_memory tell_memory register_fault isr_register
memory-handlers l table b = (refl, refl)

tables-handlers : (l : Layout) (b : Boot) → (start_tables l b).handlers 33 ≡ some kb_irq_handler
unfolding start_tables keyboard_init isr_register
tables-handlers l b = refl

before-handlers :
    (l : Layout) (table : List E820Entry) (b : Boot)
    → ((before l table b).handlers 14 ≡ some page_fault_handler)
      × ((before l table b).handlers 32 ≡ some timer_irq)
      × ((before l table b).handlers 33 ≡ some kb_irq_handler)
unfolding before start_timer register_timer isr_register
before-handlers l table b =
    let e = disk-handlers (start_memory l table (start_tables l (start_console b))) in
    let m = memory-handlers l table (start_tables l (start_console b)) in
    (ap (λ h. h 14) e ∙ m.0, refl, ap (λ h. h 33) e ∙ m.1 ∙ tables-handlers l (start_console b))

-- the pages of the kernel's image are in use
busy :
    (p : ℕ) (table : List E820Entry)
    → p < 0x100000
    → page_is_free (p / 4096) (pmm_init table) ≡ false
busy p table low =
    let here : ltb (p / 4096) 256 ≡ true = ground arith in
    pmm_init-page table (p / 4096) ∙ rw here refl

goes_to_shell :
    (b : Boot) (s : Sched)
    → tasking_init b.sched ≡ done tt s
    → (b' : Boot) × (start_tasks b ≡ at_shell b') × (b'.sched ≡ s) × (b'.handlers ≡ b.handlers)
unfolding start_tasks announce
goes_to_shell b s run = (announce s b, rw (start_tasks, run) refl, refl, refl)

-- Where the static variables are laid out so, `kmain` reaches the shell whatever the memory table and the
-- disk hold: then the shell's task is active and alone, the heap is one block for its record and one free
-- block, the first 4 MiB are translated to themselves and no other address is translated, and page faults,
-- ticks and keys have their handlers.
pub kmain-IsStarted :
    (l : Layout) (table : List E820Entry) (b : Boot)
    → IsLayout l
    → (b' : Boot) × (kmain l table b ≡ at_shell b') × IsStarted l b'
unfolding kmain before
kmain-IsStarted l table b layout =
    let here = before-sched l table b in
    let loader = memory-loader l table (start_tables l (start_console b)) in
    let (s', run, round, heap, pages) =
      tasking_init-first l.heap_storage _ (before l table b).sched layout.heap
        (ap (λ s. s.loader.heap) here ∙ loader.0) in
    let (b', start, same, handlers) = goes_to_shell (before l table b) s' run in
    let set = before-handlers l table b in
    let p0 = record (start_tables l (start_console b)).sched.loader.paging {
      pmm = pmm_init table;
    } in
    let all_pages = pages ∙ ap (λ s. s.loader.paging) here ∙ loader.1 in
    let busy_table = busy l.first_page_table table layout.low in
    let small : l.first_page_table < 2 ^ 32 = omega (arith, layout.low) in
    (
      b',
      start,
      record {
        alone = subst (λ s. IsRound s (l.heap_storage + hdr_size) []) (sym same) round;
        heap = subst (λ s. IsHeap l.heap_storage first_layout s.loader.heap) (sym same) heap;
        paged =
            subst IsPaged (sym (ap (λ s. s.loader.paging) same ∙ all_pages))
              (vmm_get_phys-paging_init l.first_page_table p0 layout.aligned small layout.not_first
                busy_table 0 (omega arith)).0;
        identity = λ v lt.
            ap (λ s. vmm_get_phys v s.loader.paging) same
            ∙ ap (vmm_get_phys v) all_pages
            ∙ (vmm_get_phys-paging_init l.first_page_table p0 layout.aligned small layout.not_first
                busy_table v lt).1;
        on_fault = ap (λ h. h 14) handlers ∙ set.0;
        on_timer = ap (λ h. h 32) handlers ∙ set.1;
        on_key = ap (λ h. h 33) handlers ∙ set.2;
      },
    )
