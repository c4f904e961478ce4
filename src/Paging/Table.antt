-- ===== src/Paging/Table.antt =====
-- The table that `make_pt` adds to the directory.
use osver.Prelude.{
  ℕ, ◌+◌, ◌*◌, ◌/◌, ◌^◌, ◌<◌, ◌≤◌, ◌≡◌, ◌≢◌, refl, ap, sym, ◌∙◌, subst, true, false, ◌==◌, ==_eq,
  ne_==, eq_==, if◌then◌else◌, bit_or, arith, Bool-cases, ◌⊎◌, inl, inr,
}
use osver.Pmm.{Pmm, page_is_free, take_page, pmm_alloc, page_size}
use osver.Pmm.Page.{page_is_free-take}
use osver.Pmm.Alloc.{NoneFree, Allocated, page, exhausted, pmm_alloc-Allocated}
use osver.Paging.{
  Paging, page_dir_index, page_tbl_index, is_present, frame_of, entry_address, set_dir, clear_table,
  make_pt, vmm_get_phys, page_present, page_rw, page_user,
}
use osver.Paging.Entry.{frame_of-eq, dir_entry-eq, is_present-eq}
use osver.Paging.Slot.{
  IsPaged, through, dir_of, slot_of, vmm_get_phys-none, vmm_get_phys-through, vmm_get_phys-same,
  index_bounds,
}

-- the state after page `p` has become the table of the directory's entry `d`
unfoldable pub made : ℕ → ℕ → Paging → Paging
made d p s =
    set_dir d (p * 4096 + 7) (clear_table (p * 4096) (record s { pmm = take_page p s.pmm }))

-- What `make_pt` does.
pub data Made (d : ℕ) (s : Paging) : ℕ × Paging → Type 0 where
  refused :
      (m : Pmm)
      → ((q : ℕ) → page_is_free q s.pmm ≡ false → page_is_free q m ≡ false)
      → Made d s (0, record s { pmm = m })
  table :
      (p : ℕ)
      → p < 2 ^ 20
      → p ≢ 0
      → page_is_free p s.pmm ≡ true
      → NoneFree s.pmm 0 p
      → Made d s (p * 4096, made d p s)

pub still_used :
    (p q : ℕ) (m : Pmm) → page_is_free q m ≡ false → page_is_free q (take_page p m) ≡ false
still_used p q m h = let e = page_is_free-take p q m in ground arith

-- the rest of `make_pt`, given what `pmm_alloc` returned
rest_of : ℕ → Paging → ℕ × Pmm → ℕ × Paging
rest_of d s r =
    let s1 = record s { pmm = r.1 } in
    if r.0 == 0 then (0, s1) else (
      r.0,
      set_dir d (bit_or (bit_or (bit_or r.0 page_present) page_rw) page_user) (clear_table r.0 s1),
    )

rest_of-Made : (d : ℕ) (s : Paging) (r : ℕ × Pmm) → Allocated s.pmm r → Made d s (rest_of d s r)
unfolding rest_of made
rest_of-Made d s r (page p lt free first) = elim (Bool-cases (p * page_size == 0)) [
  | inl z ↦ rw z (refused (take_page p s.pmm) (λ q h. still_used p q s.pmm h))
  | inr nz ↦
      rw (nz, dir_entry-eq (p * page_size) (omega arith))
        (table p lt (λ e. ground arith) free first)
]
rest_of-Made d s r (exhausted none_free) = refused s.pmm (λ q h. h)

pub make_pt-Made : (v : ℕ) (s : Paging) → Made (page_dir_index v) s (make_pt v s)
unfolding make_pt rest_of
make_pt-Made v s = rest_of-Made (page_dir_index v) s (pmm_alloc s.pmm) (pmm_alloc-Allocated s.pmm)

-- A new table keeps the invariant, and every address its translation.
module _ (d p : ℕ) (s : Paging) (paged : IsPaged s) (dd : d < 1024) (pp : p < 2 ^ 20) (pos : p ≢ 0)
    (free : page_is_free p s.pmm ≡ true) (absent : is_present (s.page_directory d) ≡ false) where
  pub at_d : (made d p s).page_directory d ≡ p * 4096 + 7
  unfolding made set_dir
  at_d = rw (eq_== d d refl) refl

  elsewhere : (e : ℕ) → e ≢ d → (made d p s).page_directory e ≡ s.page_directory e
  unfolding made set_dir clear_table
  elsewhere e h = rw (ne_== e d h) refl

  pub new_present : is_present (p * 4096 + 7) ≡ true
  new_present = let e = is_present-eq (p * 4096 + 7) in ground arith

  pub new_frame : frame_of (p * 4096 + 7) ≡ p * 4096
  new_frame = frame_of-eq (p * 4096 + 7) ∙ omega arith

  -- no table of the directory is the new page
  fresh :
      (e : ℕ)
      → e < 1024
      → is_present (s.page_directory e) ≡ true
      → frame_of (s.page_directory e) ≢ p * 4096
  fresh e ee h eq =
      let u = paged.used e ee h in
      let same : frame_of (s.page_directory e) / 4096 ≡ p = omega arith in ground arith

  pub old_used : (q : ℕ) → page_is_free q s.pmm ≡ false → page_is_free q (made d p s).pmm ≡ false
  unfolding made set_dir clear_table
  old_used q h = still_used p q s.pmm h

  now_used : page_is_free p (made d p s).pmm ≡ false
  unfolding made set_dir clear_table
  now_used = let e = page_is_free-take p p s.pmm in ground arith

  unfoldable pub Entry : ℕ → Type 0
  Entry e =
      ((e ≡ d) × ((made d p s).page_directory e ≡ p * 4096 + 7))
      ⊎ ((e ≢ d) × ((made d p s).page_directory e ≡ s.page_directory e))

  pub entry : (e : ℕ) → Entry e
  unfolding Entry
  entry e = elim (Bool-cases (e == d)) [
    | inl t ↦ let eq = ==_eq e d t in inl (eq, ap (made d p s).page_directory eq ∙ at_d)
    | inr f ↦ let ne : e ≢ d = λ eq. ground arith in inr (ne, elsewhere e ne)
  ]

  module _ (e : ℕ) (ee : e < 1024) (h : is_present ((made d p s).page_directory e) ≡ true) where
    Entry-used :
        Entry e
        → page_is_free (frame_of ((made d p s).page_directory e) / 4096) (made d p s).pmm ≡ false
    unfolding Entry
    Entry-used (inl (eq, at)) =
        let q : frame_of ((made d p s).page_directory e) / 4096 ≡ p =
          ap (λ x. frame_of x / 4096) at ∙ ap (λ x. x / 4096) new_frame ∙ omega arith in
        subst (λ x. page_is_free x (made d p s).pmm ≡ false) (sym q) now_used
    Entry-used (inr (ne, at)) =
        subst (λ x. page_is_free (frame_of x / 4096) (made d p s).pmm ≡ false) (sym at)
          (old_used (frame_of (s.page_directory e) / 4096)
            (paged.used e ee (subst (λ x. is_present x ≡ true) at h)))

    Entry-not_null : Entry e → frame_of ((made d p s).page_directory e) ≢ 0
    unfolding Entry
    Entry-not_null (inl (eq, at)) z =
        let q = sym (ap frame_of at ∙ new_frame) ∙ z in pos (omega arith)
    Entry-not_null (inr (ne, at)) z =
        paged.not_null e ee (subst (λ x. is_present x ≡ true) at h) (sym (ap frame_of at) ∙ z)

    -- an old entry has another frame than the new one
    Entry-other :
        (f : ℕ)
        → f < 1024
        → is_present ((made d p s).page_directory f) ≡ true
        → frame_of ((made d p s).page_directory e) ≡ frame_of ((made d p s).page_directory f)
        → Entry e
        → Entry f
        → e ≡ f
    unfolding Entry
    Entry-other f ff hf eq (inl (ed, ae)) (inl (fd, af)) = ed ∙ sym fd
    Entry-other f ff hf eq (inl (ed, ae)) (inr (fn, af)) = absurd (
        fresh f ff (subst (λ x. is_present x ≡ true) af hf)
          (sym (ap frame_of af) ∙ sym eq ∙ ap frame_of ae ∙ new_frame))
    Entry-other f ff hf eq (inr (en, ae)) (inl (fd, af)) = absurd (
        fresh e ee (subst (λ x. is_present x ≡ true) ae h)
          (sym (ap frame_of ae) ∙ eq ∙ ap frame_of af ∙ new_frame))
    Entry-other f ff hf eq (inr (en, ae)) (inr (fn, af)) =
        paged.distinct e f ee ff (subst (λ x. is_present x ≡ true) ae h)
          (subst (λ x. is_present x ≡ true) af hf) (sym (ap frame_of ae) ∙ eq ∙ ap frame_of af)

  pub made-IsPaged : IsPaged (made d p s)
  made-IsPaged = record {
    used = λ e ee h. Entry-used e ee h (entry e);
    distinct = λ e f ee ff he hf eq. Entry-other e ee he f ff hf eq (entry e) (entry f);
    not_null = λ e ee h. Entry-not_null e ee h (entry e);
  }

  cleared : (a : ℕ) → p * 4096 ≤ a → a < p * 4096 + 4096 → (made d p s).word a ≡ 0
  unfolding made set_dir clear_table
  cleared a lo hi = ground arith

  outside : (a : ℕ) → a < p * 4096 ⊎ (p * 4096 + 4096 ≤ a) → (made d p s).word a ≡ s.word a
  unfolding made set_dir clear_table
  outside a (inl lo) = ground arith
  outside a (inr hi) = ground arith

  beside :
      (e i : ℕ)
      → e < 1024
      → i < 1024
      → is_present (s.page_directory e) ≡ true
      → (entry_address (frame_of (s.page_directory e)) i < p * 4096)
        ⊎ (p * 4096 + 4096 ≤ entry_address (frame_of (s.page_directory e)) i)
  unfolding entry_address
  beside e i ee ii h =
      let ne = fresh e ee h in let f = frame_of-eq (s.page_directory e) in ground arith

  by-Entry :
      (v : ℕ)
      → v < 2 ^ 32
      → Entry (page_dir_index v)
      → vmm_get_phys v (made d p s) ≡ vmm_get_phys v s
  unfolding Entry dir_of slot_of through entry_address is_present vmm_get_phys
  by-Entry v small (inl (ed, at)) =
      let b = index_bounds v in
      let z : (made d p s).word (slot_of v (made d p s)) ≡ 0 =
        let f : frame_of ((made d p s).page_directory (page_dir_index v)) ≡ p * 4096 =
          ap frame_of at ∙ new_frame in
        cleared (slot_of v (made d p s)) (omega arith) (omega arith) in
      vmm_get_phys-through v (made d p s) (ap is_present at ∙ new_present)
        (λ q. pos (let q' = sym (ap frame_of at ∙ new_frame) ∙ q in omega arith))
      ∙ ap (λ w. through w v) z
      ∙ sym (vmm_get_phys-none v s (ap (λ k. is_present (s.page_directory k)) ed ∙ absent))
  by-Entry v small (inr (ne, at)) =
      let b = index_bounds v in
      vmm_get_phys-same v s (made d p s) at
        (λ h. outside (slot_of v s) (beside (page_dir_index v) (page_tbl_index v) b.0 b.1 h))
        (paged.not_null (page_dir_index v) b.0)

  pub made-phys : (v : ℕ) → v < 2 ^ 32 → vmm_get_phys v (made d p s) ≡ vmm_get_phys v s
  made-phys v small = by-Entry v small (entry (page_dir_index v))
