-- ===== src/Keyboard/Queue.antt =====
-- The key buffer is a queue of at most 255 characters.
use osver.Prelude.{
  ℕ, zero, suc, ◌+◌, ◌-◌, ◌%◌, ◌<◌, ◌≡◌, ◌≢◌, refl, ap, ap₂, sym, ◌∙◌, Bool, true, false, not, ◌||◌,
  some, List, [], ◌∷◌, ◌++◌, ltb, leb, ◌==◌, if◌then◌else◌, length, arith, bit_and, inl, inr,
  Bool-cases, ne_==, eq_==, ==_eq, lt→ltb, subst,
}
use osver.Keyboard.{
  Keyboard, buf_push, key_char, kb_irq_handler, keyboard_haschar, take_char, keyboard_getchar,
  is_shift,
}

-- the abstract view: the characters from the read position on
unfoldable pub window : ℕ → ℕ → (ℕ → ℕ) → List ℕ
window zero i b = []
window (suc n) i b = b i ∷ window n ((i + 1) % 256) b

unfoldable pub pending : Keyboard → List ℕ
pending k = window ((k.head + 256 - k.tail) % 256) k.tail k.buf

unfoldable pub IsValid : Keyboard → Type 0
IsValid k = (k.head < 256) × (k.tail < 256)

-- a character is offered to a queue with room for 255
pub offer : List ℕ → ℕ → List ℕ
offer cs c = if ltb (length cs) 255 then cs ++ (c ∷ []) else cs

length-window : (n i : ℕ) (b : ℕ → ℕ) → length (window n i b) ≡ n
unfolding window
length-window zero i b = refl
length-window (suc n) i b = ap suc (length-window n ((i + 1) % 256) b)

-- A write outside the window does not show.
window-other :
    (n i p c : ℕ) (b : ℕ → ℕ)
    → ((k : ℕ) → k < n → (i + k) % 256 ≢ p)
    → i < 256
    → window n i (λ j. if j == p then c else b j) ≡ window n i b
unfolding window
window-other zero i p c b outside small = refl
window-other (suc n) i p c b outside small =
    let e : i % 256 ≡ i = omega arith in
    let ne : i ≢ p = λ eq. outside 0 (omega arith) (omega arith) in
    rw (ne_== i p ne) (
      ap (λ xs. b i ∷ xs)
        (window-other n ((i + 1) % 256) p c b
          (λ k lt eq. outside (suc k) (omega arith) (omega arith)) (omega arith)))

window-end :
    (n i : ℕ) (b : ℕ → ℕ) → i < 256 → window (suc n) i b ≡ window n i b ++ (b ((i + n) % 256) ∷ [])
unfolding window
window-end zero i b small = let e : (i + 0) % 256 ≡ i = omega arith in rw (e) refl
window-end (suc n) i b small =
    let e : ((i + 1) % 256 + n) % 256 ≡ (i + suc n) % 256 = omega arith in
    let r = window-end n ((i + 1) % 256) b (omega arith) in
    ap (λ xs. b i ∷ xs) (r ∙ ap (λ p. window n ((i + 1) % 256) b ++ (b p ∷ [])) e)

-- the number of characters that wait
used : Keyboard → ℕ
used k = (k.head + 256 - k.tail) % 256

offer_full : (cs : List ℕ) (c : ℕ) → length cs ≡ 255 → offer cs c ≡ cs
unfolding offer
offer_full cs c h = rw (h) refl

offer_room : (cs : List ℕ) (c : ℕ) → length cs < 255 → offer cs c ≡ cs ++ (c ∷ [])
unfolding offer
offer_room cs c h = rw (lt→ltb (length cs) 255 h) refl

length-pending : (k : Keyboard) → length (pending k) ≡ used k
unfolding pending used
length-pending k = length-window ((k.head + 256 - k.tail) % 256) k.tail k.buf

is_full : (k : Keyboard) → IsValid k → ((k.head + 1) % 256 == k.tail) ≡ true → used k ≡ 255
unfolding IsValid used
is_full k valid full = ground arith

has_room : (k : Keyboard) → IsValid k → ((k.head + 1) % 256 == k.tail) ≡ false → used k < 255
unfolding IsValid used
has_room k valid room = ground arith

more :
    (k : Keyboard)
    → IsValid k
    → ((k.head + 1) % 256 == k.tail) ≡ false
    → ((k.head + 1) % 256 + 256 - k.tail) % 256 ≡ suc (used k)
unfolding IsValid used
more k valid room = ground arith

last : (k : Keyboard) → IsValid k → (k.tail + used k) % 256 ≡ k.head
unfolding IsValid used
last k valid = ground arith

before : (k : Keyboard) (i : ℕ) → IsValid k → i < used k → (k.tail + i) % 256 ≢ k.head
unfolding IsValid used
before k i valid lt eq = ground arith

-- a buffer that is full, and one with room
push_full : (c : ℕ) (k : Keyboard) → ((k.head + 1) % 256 == k.tail) ≡ true → buf_push c k ≡ k
unfolding buf_push
push_full c k full = rw (full) refl

push_room :
    (c : ℕ) (k : Keyboard)
    → ((k.head + 1) % 256 == k.tail) ≡ false
    → buf_push c k
      ≡ record k { buf = λ i. if i == k.head then c else k.buf i; head = (k.head + 1) % 256 }
unfolding buf_push
push_room c k room = rw (room) refl

grown :
    (c : ℕ) (k : Keyboard)
    → IsValid k
    → ((k.head + 1) % 256 == k.tail) ≡ false
    → pending
        (record k { buf = λ i. if i == k.head then c else k.buf i; head = (k.head + 1) % 256 })
      ≡ pending k ++ (c ∷ [])
unfolding pending IsValid window used
grown c k valid room =
    let n = used k in
    let b' = λ (i : ℕ). if i == k.head then c else k.buf i in
    ap (λ m. window m k.tail b') (more k valid room)
    ∙ window-end n k.tail b' valid.1
    ∙ ap₂ (λ xs x. xs ++ (x ∷ []))
        (window-other n k.tail k.head c k.buf (λ i lt. before k i valid lt) valid.1)
        (ap b' (last k valid) ∙ rw (eq_== k.head k.head refl) refl)

-- Pushing a character adds it at the end of the queue if fewer than 255 wait, and else drops it.
pub buf_push-offer :
    (c : ℕ) (k : Keyboard)
    → IsValid k
    → (pending (buf_push c k) ≡ offer (pending k) c) × IsValid (buf_push c k)
unfolding offer IsValid
buf_push-offer c k valid = elim (Bool-cases (((k.head + 1) % 256) == k.tail)) [
  | inl full ↦ (
    ap pending (push_full c k full)
        ∙ sym (offer_full (pending k) c (length-pending k ∙ is_full k valid full)),
    subst IsValid (sym (push_full c k full)) valid,
  )
  | inr room ↦ (
    ap pending (push_room c k room)
        ∙ grown c k valid room
        ∙ sym (
            offer_room (pending k) c
              (subst (λ n. n < 255) (sym (length-pending k)) (has_room k valid room))),
    subst IsValid (sym (push_room c k room)) (omega arith, valid.1),
  )
]

-- Taking a character from a queue that is not empty takes its first.
pub take_char-pending :
    (k : Keyboard)
    → IsValid k
    → keyboard_haschar k ≡ true
    → (pending k ≡ (take_char k).0 ∷ pending (take_char k).1) × IsValid (take_char k).1
unfolding pending IsValid take_char keyboard_haschar window
take_char-pending k valid h =
    let less : (k.head + 256 - k.tail) % 256 ≡ suc ((k.head + 256 - (k.tail + 1) % 256) % 256) =
      ground arith in
    (ap (λ n. window n k.tail k.buf) less, (valid.0, omega arith))

-- What one interrupt does to the queue: nothing, or a character other than NUL is offered to it.
pub data Typed (k k' : Keyboard) : Type 0 where
  nothing : pending k' ≡ pending k → Typed k k'
  typed : (c : ℕ) → c ≢ 0 → pending k' ≡ offer (pending k) c → Typed k k'

pushed :
    (c : ℕ) (k : Keyboard)
    → IsValid k
    → Typed k (if c == 0 then k else buf_push c k) × IsValid (if c == 0 then k else buf_push c k)
pushed c k valid = elim (Bool-cases (c == 0)) [
  | inl t ↦ rw (t) (nothing refl, valid)
  | inr f ↦ let r = buf_push-offer c k valid in rw (f) (typed c (λ e. ground arith) r.0, r.1)
]

Stepped : Keyboard → Keyboard → Type 0
Stepped k k' = Typed k k' × IsValid k'

either : (k x y : Keyboard) (b : Bool) → Stepped k x → Stepped k y → Stepped k (if b then x else y)
either k x y true p q = p
either k x y false p q = q

-- On every scancode the interrupt handler keeps the positions within the buffer, and it leaves the
-- queue alone or adds one character that is not NUL at its end, dropped if 255 characters wait.
pub kb_irq_handler-Typed :
    (sc : ℕ) (k : Keyboard)
    → IsValid k
    → Typed k (kb_irq_handler sc k) × IsValid (kb_irq_handler sc k)
unfolding kb_irq_handler pending IsValid Stepped
kb_irq_handler-Typed sc k valid =
    let silent : Stepped k k = (nothing refl, valid) in
    let with_shift : (s : Bool) → Stepped k (record k { shift = s }) = λ s. (nothing refl, valid) in
    let with_caps : Stepped k (record k { caps = not k.caps }) = (nothing refl, valid) in
    either k _ _ (not (bit_and sc 0x80 == 0))
      (either k _ _ (is_shift (bit_and sc 0x7F)) (with_shift false) silent)
      (either k _ _ (is_shift sc) (with_shift true) (
        either k _ _ (sc == 0x3A) with_caps (
          either k _ _ ((sc == 0x1D) || (sc == 0x38)) silent
            (either k _ _ (leb 58 sc) silent (pushed (key_char sc k.shift k.caps) k valid)))))

same : (k : Keyboard) → k.head ≡ k.tail → used k ≡ 0
unfolding used
same k e = omega arith

not_empty :
    (k : Keyboard) (c : ℕ) (cs : List ℕ)
    → IsValid k
    → pending k ≡ c ∷ cs
    → keyboard_haschar k ≡ true
unfolding keyboard_haschar
not_empty k c cs valid h = elim (Bool-cases (k.head == k.tail)) [
  | inl t ↦
      let e : used k ≡ 0 = same k (==_eq k.head k.tail t) in
      let n = sym (length-pending k) ∙ ap length h in absurd (omega arith)
  | inr f ↦ rw (f) refl
]

getchar_ready :
    (scs : List ℕ) (k : Keyboard)
    → keyboard_haschar k ≡ true
    → keyboard_getchar scs k ≡ some (take_char k)
unfolding keyboard_getchar
getchar_ready [] k h = rw (h) refl
getchar_ready (sc ∷ scs) k h = rw (h) refl

tail_of : List ℕ → List ℕ
tail_of [] = []
tail_of (c ∷ cs) = cs

head_of : List ℕ → ℕ
head_of [] = 0
head_of (c ∷ cs) = c

-- A wait for a key does not lose or reorder characters: if a character waits, `keyboard_getchar`
-- returns the first at once, whatever scancodes are still to arrive, and leaves the others waiting.
pub keyboard_getchar-pending :
    (scs : List ℕ) (k : Keyboard) (c : ℕ) (cs : List ℕ)
    → IsValid k
    → pending k ≡ c ∷ cs
    → (k' : Keyboard) × (keyboard_getchar scs k ≡ some (c, k')) × (pending k' ≡ cs) × IsValid k'
unfolding tail_of head_of
keyboard_getchar-pending scs k c cs valid h =
    let ready = not_empty k c cs valid h in
    let t = take_char-pending k valid ready in
    let both = sym t.0 ∙ h in
    (
      (take_char k).1,
      getchar_ready scs k ready ∙ ap (λ x. some (x, (take_char k).1)) (ap head_of both),
      ap tail_of both,
      t.1,
    )
