-- ===== src/Task/Ring/Frame.antt =====
-- The frame on the stack of a new task of src/proc/task.c.
use osver.Prelude.{
  ℕ, zero, suc, ◌+◌, ◌-◌, ◌*◌, ◌%◌, ◌^◌, ◌<◌, ◌≤◌, ◌≡◌, ◌≢◌, refl, sym, ap, ap₂, ◌∙◌, subst, Bool,
  true, false, List, [], ◌∷◌, length, ◌==◌, eq_==, ne_==, ==_eq, if◌then◌else◌, arith, Bool-cases,
  inl, inr,
}
use osver.Task.{
  Sched, Task, ready, put, ready_insert_after_current, task_stack_size, str_copy_n, task_time_slice,
}
use osver.Task.Create.{push, push_all, saved_registers, enqueue, fresh_task}
use osver.Task.Ring.{Fresh}
use osver.Task.Ring.Rounds.{IsRound}
use osver.Task.Ring.Insert.{outside, insert-IsRound}

-- `n` words from an address on
pub read_words : ℕ → ℕ → (ℕ → ℕ) → List ℕ
read_words zero a words = []
read_words (suc n) a words = words a ∷ read_words n ((a + 4) % 2 ^ 32) words

pub rev_onto : List ℕ → List ℕ → List ℕ
rev_onto [] ws = ws
rev_onto (v ∷ vs) ws = rev_onto vs (v ∷ ws)

-- a write below what is read
read_behind :
    (n k sp v : ℕ) (words : ℕ → ℕ)
    → sp < 2 ^ 32
    → n + k ≤ 1000
    → read_words n
        ((sp + 4 * k) % 2 ^ 32)
        (λ a. if a == (sp + 2 ^ 32 - 4) % 2 ^ 32 then v else words a)
      ≡ read_words n ((sp + 4 * k) % 2 ^ 32) words
unfolding read_words
read_behind zero k sp v words lt le = refl
read_behind (suc n) k sp v words lt le =
    let other : ((sp + 4 * k) % 2 ^ 32 == (sp + 2 ^ 32 - 4) % 2 ^ 32) ≡ false = ground arith in
    let step : ((sp + 4 * k) % 2 ^ 32 + 4) % 2 ^ 32 ≡ (sp + 4 * (k + 1)) % 2 ^ 32 = omega arith in
    rw (other, step)
      (ap (λ ws. words ((sp + 4 * k) % 2 ^ 32) ∷ ws)
        (read_behind n (k + 1) sp v words lt (omega arith)))

-- how many words are read behind these pushes, where `n` were before
pub room : List ℕ → ℕ → ℕ
room [] n = n
room (v ∷ vs) n = room vs (suc n)

le-room : (vs : List ℕ) (n : ℕ) → n ≤ room vs n
unfolding room
le-room [] n = omega arith
le-room (v ∷ vs) n = let r = le-room vs (suc n) in omega (arith, r)

push_read :
    (n sp v : ℕ) (s : Sched)
    → sp < 2 ^ 32
    → n ≤ 1000
    → read_words (suc n) (push v (sp, s)).0 (push v (sp, s)).1.words ≡ v ∷ read_words n sp s.words
unfolding push read_words
push_read n sp v s lt le =
    let here = eq_== ((sp + 2 ^ 32 - 4) % 2 ^ 32) ((sp + 2 ^ 32 - 4) % 2 ^ 32) refl in
    let up : ((sp + 2 ^ 32 - 4) % 2 ^ 32 + 4) % 2 ^ 32 ≡ (sp + 4 * 0) % 2 ^ 32 = omega arith in
    let back : (sp + 4 * 0) % 2 ^ 32 ≡ sp = omega arith in
    rw (here, up)
      (ap (λ ws. v ∷ ws)
        (read_behind n 0 sp v s.words lt (omega arith) ∙ ap (λ a. read_words n a s.words) back))

pushed_words :
    (vs : List ℕ) (n sp : ℕ) (s : Sched)
    → sp < 2 ^ 32
    → room vs n ≤ 1000
    → read_words (room vs n) (push_all vs (sp, s)).0 (push_all vs (sp, s)).1.words
      ≡ rev_onto vs (read_words n sp s.words)
unfolding push_all push room rev_onto read_words
pushed_words [] n sp s lt le = refl
pushed_words (v ∷ vs) n sp s lt le =
    pushed_words vs (suc n) _ _ (omega arith) le
    ∙ ap (rev_onto vs) (push_read n sp v s lt (omega (arith, le, le-room vs (suc n))))

pushed_same :
    (vs : List ℕ) (sp : ℕ) (s : Sched)
    → ((push_all vs (sp, s)).1.tasks ≡ s.tasks)
      × ((push_all vs (sp, s)).1.active ≡ s.active)
      × ((push_all vs (sp, s)).1.current ≡ s.current)
unfolding push_all push
pushed_same [] sp s = (refl, refl, refl)
pushed_same (v ∷ vs) sp s = pushed_same vs _ _

put-esp :
    (p q : ℕ) (x : Task) (s : Sched)
    → x.esp ≡ (s.tasks p).esp
    → ((put p x s).tasks q).esp ≡ (s.tasks q).esp
unfolding put
put-esp p q x s h = elim (Bool-cases (q == p)) [
  | inl e ↦ rw e (h ∙ ap (λ y. (s.tasks y).esp) (sym (==_eq q p e)))
  | inr e ↦ rw e refl
]

inserted-esp :
    (t q : ℕ) (s : Sched) → ((ready_insert_after_current t s).tasks q).esp ≡ (s.tasks q).esp
unfolding ready_insert_after_current
inserted-esp t q s =
    let x1 : Task = record (s.tasks t) { next = (s.tasks s.current).next } in
    let s1 : Sched = put t x1 s in
    put-esp s.current q (record (s1.tasks s.current) { next = t }) s1 refl ∙ put-esp t q x1 s refl

inserted-words : (t : ℕ) (s : Sched) → (ready_insert_after_current t s).words ≡ s.words
unfolding ready_insert_after_current put
inserted-words t s = refl

enqueue-inserted :
    (t : ℕ) (s : Sched) → s.active ≡ true → enqueue t s ≡ ready_insert_after_current t s
unfolding enqueue
enqueue-inserted t s on = pick s.active _ _ on
  where
    pick : (b : Bool) (x y : Sched) → b ≡ true → (if b then x else y) ≡ x
    pick b x y e = rw e refl

-- The task `t` is in the ring behind the current one, with these words on its stack.
pub IsNew : ℕ → ℕ → List ℕ → List ℕ → Sched → Type 0
IsNew t from cs frame s =
    IsRound s from (t ∷ cs) × (read_words (length frame) (s.tasks t).esp s.words ≡ frame)

-- the state before a fresh task enters the ring
staged : ℕ → List ℕ → ℕ → Bool → ℕ → List ℕ → Sched → Sched
staged t name stack is_user user_stack frame s =
    let top = (stack + task_stack_size) % 2 ^ 32 in
    let pushed = push_all saved_registers (push_all frame (top, s)) in
    record (put t
      (record {
        id = s.next_id;
        name = str_copy_n name;
        state = ready;
        esp = pushed.0;
        stack_base = stack;
        stack_size = task_stack_size;
        kernel_stack_top = top;
        is_user = is_user;
        user_stack_base = user_stack;
        image = 0;
        ticks_run = 0;
        slice_left = task_time_slice;
        next = (s.tasks t).next;
      })
      pushed.1) { next_id = (s.next_id + 1) % 2 ^ 32 }

task_staged :
    (t : ℕ) (name : List ℕ) (stack : ℕ) (is_user : Bool) (user_stack : ℕ) (frame : List ℕ)
    (s : Sched)
    → fresh_task t name stack is_user user_stack frame s
      ≡ enqueue t (staged t name stack is_user user_stack frame s)
unfolding fresh_task staged
task_staged t name stack is_user user_stack frame s = refl

module _ (t : ℕ) (name : List ℕ) (stack entry start : ℕ) (s : Sched) where
  entering : Sched
  entering = staged t name stack false 0 (entry ∷ start ∷ []) s

  frame_words :
      read_words 6 (entering.tasks t).esp entering.words ≡ 0 ∷ 0 ∷ 0 ∷ 0 ∷ start ∷ entry ∷ []
  unfolding entering staged put saved_registers room rev_onto push_all push read_words
  frame_words =
      let top = (stack + task_stack_size) % 2 ^ 32 in
      let one = push_all (entry ∷ start ∷ []) (top, s) in
      rw (eq_== t t refl) (
        pushed_words saved_registers 2 one.0 one.1 (omega arith) (omega arith)
        ∙ ap (rev_onto saved_registers)
            (pushed_words (entry ∷ start ∷ []) 0 top s (omega arith) (omega arith)))

  entering_same :
      (entering.active ≡ s.active)
      × (entering.current ≡ s.current)
      × ((entering.tasks t).state ≡ ready)
  unfolding entering staged put
  entering_same =
      let one = push_all (entry ∷ start ∷ []) ((stack + task_stack_size) % 2 ^ 32, s) in
      let a = pushed_same (entry ∷ start ∷ []) ((stack + task_stack_size) % 2 ^ 32) s in
      let b = pushed_same saved_registers one.0 one.1 in
      (b.1 ∙ a.1, b.2 ∙ a.2, rw (eq_== t t refl) refl)

  entering_others : (q : ℕ) → q ≢ t → entering.tasks q ≡ s.tasks q
  unfolding entering staged put
  entering_others q ne =
      let one = push_all (entry ∷ start ∷ []) ((stack + task_stack_size) % 2 ^ 32, s) in
      let a = pushed_same (entry ∷ start ∷ []) ((stack + task_stack_size) % 2 ^ 32) s in
      let b = pushed_same saved_registers one.0 one.1 in
      rw (ne_== q t ne) (ap (λ f. f q) (b.0 ∙ a.0))

  pub entering-IsNew :
      (from : ℕ) (cs : List ℕ)
      → Fresh t (from ∷ cs)
      → IsRound s from cs
      → IsNew t from cs
          (0 ∷ 0 ∷ 0 ∷ 0 ∷ start ∷ entry ∷ [])
          (fresh_task t name stack false 0 (entry ∷ start ∷ []) s)
  unfolding IsNew entering
  entering-IsNew from cs other round =
      let (active, current, is_ready) = entering_same in
      let staying = outside s entering t from cs active current entering_others other round in
      let e =
        task_staged t name stack false 0 (entry ∷ start ∷ []) s
        ∙ enqueue-inserted t entering staying.active in
      (
        subst (λ x. IsRound x from (t ∷ cs)) (sym e)
            (insert-IsRound t from cs entering other is_ready staying),
        ap (λ x. read_words 6 (x.tasks t).esp x.words) e
            ∙ ap₂ (read_words 6) (inserted-esp t t entering) (inserted-words t entering)
            ∙ frame_words,
      )
