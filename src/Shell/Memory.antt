-- ===== src/Shell/Memory.antt =====
-- The commands of src/shell/shell.c on memory and on the screen.
use osver.Prelude.{
  ℕ, zero, suc, ◌+◌, ◌-◌, ◌*◌, ◌/◌, ◌%◌, ◌^◌, List, [], ◌∷◌, ltb, ◌==◌, if◌then◌else◌,
}
use osver.Screen.{Screen, clear_screen, kputchar, kprint, kprint_color, vga_black}
use osver.Kheap.{KheapStats, kmalloc, kfree, kheap_get_stats}
use osver.Pmm.{pmm_alloc, pmm_free, pmm_free_pages, pmm_total_pages, page_size}
use osver.Paging.{vmm_get_phys, unmapped}
use osver.Shell.Text.{codes, str_eq, parse_uint}
use osver.Shell.Files.{complain}
use osver.Shell.State.{
  M, with_paging, pure, ◌>>=◌, ◌>>◌, on_heap, on_screen, print, print_in, print_dec, print_hex,
  print_char, light_red, light_cyan, light_green,
}

unfoldable pub cmd_clear : List (List ℕ) → M (Unit {0})
cmd_clear argv = on_screen clear_screen

-- the arguments with blanks between them
unfoldable pub echo_words : List (List ℕ) → Screen → Screen
echo_words [] s = s
echo_words (w ∷ []) s = kprint w s
echo_words (w ∷ v ∷ ws) s = echo_words (v ∷ ws) (kputchar b' ' (kprint w s))

unfoldable pub cmd_echo : List (List ℕ) → M (Unit {0})
unfolding echo_words
cmd_echo [] = print_char 10
cmd_echo (name ∷ args) = do on_screen (echo_words args); print_char 10

-- `n` cells of a bar from cell `i` on, of which the first `used_bars` are red
unfoldable pub put_bars : ℕ → ℕ → ℕ → Screen → Screen
put_bars zero i used_bars s = s
put_bars (suc n) i used_bars s = put_bars n (i + 1) used_bars (
    if ltb i used_bars
    then kprint_color (codes "|") light_red vga_black s
    else kprint_color (codes "-") light_green vga_black s)

abbrev pub heap_line : KheapStats → M (Unit {0})
heap_line hs = do
  print_in light_cyan (codes "Kernel Heap : ")
  print_dec hs.used_bytes
  print (codes " / ")
  print_dec hs.total_bytes
  print (codes " bytes used")
  print (codes " (")
  print_dec hs.blocks_used
  print (codes " blocks)\n")

abbrev pub memory_line : List ℕ → ℕ → M (Unit {0})
memory_line title kb = do print title; print_dec (kb / 1024); print (codes " MB\n")

-- 32-bit products and differences
unfoldable pub cmd_meminfo : List (List ℕ) → M (Unit {0})
unfolding put_bars
cmd_meminfo argv s =
    let total_kb = pmm_total_pages s.sched.loader.paging.pmm * (page_size / 1024) % 2 ^ 32 in
    let free_kb = pmm_free_pages s.sched.loader.paging.pmm * (page_size / 1024) % 2 ^ 32 in
    let used_kb = (total_kb + 2 ^ 32 - free_kb) % 2 ^ 32 in
    (do
      print_in light_cyan (codes "Physical Memory\n")
      memory_line (codes "  Total : ") total_kb
      memory_line (codes "  Used  : ") used_kb
      memory_line (codes "  Free  : ") free_kb
      if total_kb == 0 then pure tt else (do
        print (codes "  [")
        on_screen (put_bars 30 0 (used_kb * 30 % 2 ^ 32 / total_kb))
        print (codes "] ")
        print_dec (used_kb * 100 % 2 ^ 32 / total_kb)
        print (codes "% used\n")
        hs ← on_heap kheap_get_stats
        heap_line hs))
      s

abbrev pub page_usage : M (Unit {0})
page_usage = print (codes "usage: page alloc | page free <addr>\n")

unfoldable pub page_alloc : M (Unit {0})
page_alloc s =
    let r = pmm_alloc s.sched.loader.paging.pmm in
    (if r.0 == 0
        then complain (codes "Out of memory!\n")
        else (do print (codes "Allocated page at: "); print_hex r.0; print (codes "\n")))
      (with_paging (record s.sched.loader.paging { pmm = r.1 }) s)

unfoldable pub page_free : ℕ → M (Unit {0})
page_free addr s =
    if addr % page_size == 0
    then (do print (codes "Freed page at: "); print_hex addr; print (codes "\n"))
        (with_paging
          (record s.sched.loader.paging { pmm = pmm_free addr s.sched.loader.paging.pmm }) s)
    else complain (codes "Address must be page-aligned (multiple of 4096)\n") s

unfoldable pub cmd_page : List (List ℕ) → M (Unit {0})
unfolding page_alloc page_free
cmd_page (name ∷ what ∷ []) = if str_eq what (codes "alloc") then page_alloc else page_usage
cmd_page (name ∷ what ∷ addr ∷ args) =
    if str_eq what (codes "alloc")
    then page_alloc
    else if str_eq what (codes "free")
    then page_free (parse_uint addr)
    else page_usage
cmd_page (name ∷ []) = page_usage
cmd_page [] = page_usage

unfoldable pub cmd_vmap : List (List ℕ) → M (Unit {0})
cmd_vmap (name ∷ virt ∷ args) s =
    let v = parse_uint virt in
    let p = vmm_get_phys v s.sched.loader.paging in
    (do
      print (codes "virt ")
      print_hex v
      if p == unmapped
          then complain (codes " -> (unmapped)\n")
          else (do print (codes " -> phys "); print_hex p; print (codes "\n")))
      s
cmd_vmap argv s = print (codes "usage: vmap <virt>\n") s

-- how many, of a kind
abbrev pub block_line : List ℕ → ℕ → ℕ → M (Unit {0})
block_line title bytes blocks = do
  print title
  print_dec bytes
  print (codes " bytes (")
  print_dec blocks
  print (codes " blocks)\n")

unfoldable pub cmd_heap : List (List ℕ) → M (Unit {0})
unfolding put_bars
cmd_heap argv = do
  hs ← on_heap kheap_get_stats
  print_in light_cyan (codes "Kernel Heap\n")
  print (codes "  Arena : ")
  print_dec hs.total_bytes
  print (codes " bytes\n")
  block_line (codes "  Used  : ") hs.used_bytes hs.blocks_used
  block_line (codes "  Free  : ") hs.free_bytes hs.blocks_free
  print (codes "  Largest free block: ")
  print_dec hs.largest_free
  print (codes " bytes\n")
  let sum = (hs.used_bytes + hs.free_bytes) % 2 ^ 32
  let denom = if sum == 0 then 1 else sum
  if hs.total_bytes == 0 then pure tt else (do
    print (codes "  [")
    on_screen (put_bars 32 0 (hs.used_bytes * 32 % 2 ^ 32 / denom))
    print (codes "] ")
    print_dec (hs.used_bytes * 100 % 2 ^ 32 / denom)
    print (codes "% used\n"))

abbrev pub kalloc_usage : M (Unit {0})
kalloc_usage = print (codes "usage: kalloc alloc <bytes> | kalloc free <addr>\n")

unfoldable pub kalloc_alloc : ℕ → M (Unit {0})
kalloc_alloc n = do
  p ← on_heap (kmalloc n)
  if p == 0 then complain (codes "kmalloc returned NULL (OOM)\n") else (do
    print (codes "kmalloc(")
    print_dec n
    print (codes ") -> ")
    print_hex p
    print (codes "\n"))

unfoldable pub kalloc_free : ℕ → M (Unit {0})
kalloc_free a = do on_heap (kfree a); print (codes "kfree("); print_hex a; print (codes ") done\n")

unfoldable pub cmd_kalloc : List (List ℕ) → M (Unit {0})
unfolding kalloc_alloc kalloc_free
cmd_kalloc (name ∷ what ∷ arg ∷ args) =
    if str_eq what (codes "alloc")
    then kalloc_alloc (parse_uint arg)
    else if str_eq what (codes "free")
    then kalloc_free (parse_uint arg)
    else kalloc_usage
cmd_kalloc argv = kalloc_usage
