-- ===== src/Paging/Slot.antt =====
-- Which words a translation reads, and what a write of an entry changes.
use osver.Prelude.{
  ℕ, ◌+◌, ◌*◌, ◌/◌, ◌^◌, ◌<◌, ◌≡◌, ◌≢◌, refl, ap, ap₂, sym, ◌∙◌, subst, true, false, ◌==◌, ==_eq,
  ne_==, eq_==, if◌then◌else◌, bit_or, arith, Bool-cases, ◌⊎◌, inl, inr,
}
use osver.Pmm.{page_is_free}
use osver.Paging.{
  Paging, page_dir_index, page_tbl_index, page_offset, is_present, frame_of, entry_address,
  set_entry, get_pt, vmm_get_phys, unmapped,
}
use osver.Paging.Entry.{page_dir_index-eq, page_tbl_index-eq, frame_of-eq}

-- The tables in the directory are pages in use, other than page 0, and no two entries share one.
pub record IsPaged (s : Paging) : Type 0 where
  pub used :
      (d : ℕ)
      → d < 1024
      → is_present (s.page_directory d) ≡ true
      → page_is_free (frame_of (s.page_directory d) / 4096) s.pmm ≡ false
  pub distinct :
      (d e : ℕ)
      → d < 1024
      → e < 1024
      → is_present (s.page_directory d) ≡ true
      → is_present (s.page_directory e) ≡ true
      → frame_of (s.page_directory d) ≡ frame_of (s.page_directory e)
      → d ≡ e
  pub not_null :
      (d : ℕ)
      → d < 1024
      → is_present (s.page_directory d) ≡ true
      → frame_of (s.page_directory d) ≢ 0

-- the address that an entry of a table gives
unfoldable pub through : ℕ → ℕ → ℕ
through pte v = if is_present pte then bit_or (frame_of pte) (page_offset v) else unmapped

unfoldable pub dir_of : ℕ → Paging → ℕ
dir_of v s = s.page_directory (page_dir_index v)

unfoldable pub slot_of : ℕ → Paging → ℕ
slot_of v s = entry_address (frame_of (dir_of v s)) (page_tbl_index v)

pub vmm_get_phys-none :
    (v : ℕ) (s : Paging) → is_present (dir_of v s) ≡ false → vmm_get_phys v s ≡ unmapped
unfolding vmm_get_phys get_pt dir_of
vmm_get_phys-none v s h = rw h refl

pub vmm_get_phys-through :
    (v : ℕ) (s : Paging)
    → is_present (dir_of v s) ≡ true
    → frame_of (dir_of v s) ≢ 0
    → vmm_get_phys v s ≡ through (s.word (slot_of v s)) v
unfolding vmm_get_phys get_pt dir_of slot_of through
vmm_get_phys-through v s h nz =
    rw (h, ne_== (frame_of (s.page_directory (page_dir_index v))) 0 nz) refl

-- The same directory entry and the same word give the same address.
pub vmm_get_phys-same :
    (v : ℕ) (s s' : Paging)
    → dir_of v s' ≡ dir_of v s
    → (is_present (dir_of v s) ≡ true → s'.word (slot_of v s) ≡ s.word (slot_of v s))
    → (is_present (dir_of v s) ≡ true → frame_of (dir_of v s) ≢ 0)
    → vmm_get_phys v s' ≡ vmm_get_phys v s
unfolding slot_of
vmm_get_phys-same v s s' same word nz = elim (Bool-cases (is_present (dir_of v s))) [
  | inl h ↦
      vmm_get_phys-through v s' (ap is_present same ∙ h)
        (subst (λ e. frame_of e ≢ 0) (sym same) (nz h))
      ∙ ap (λ w. through w v)
          (ap (λ e. s'.word (entry_address (frame_of e) (page_tbl_index v))) same ∙ word h)
      ∙ sym (vmm_get_phys-through v s h (nz h))
  | inr h ↦ vmm_get_phys-none v s' (ap is_present same ∙ h) ∙ sym (vmm_get_phys-none v s h)
]

pub index_bounds : (v : ℕ) → (page_dir_index v < 1024) × (page_tbl_index v < 1024)
index_bounds v = rw (page_dir_index-eq v, page_tbl_index-eq v) (omega arith, omega arith)

-- the page of an address, by its two indices
pub page_of : (v : ℕ) → v < 2 ^ 32 → v / 4096 ≡ page_dir_index v * 1024 + page_tbl_index v
page_of v small = rw (page_dir_index-eq v, page_tbl_index-eq v) (omega arith)

entry_address-ne :
    (a b i j : ℕ)
    → i < 1024
    → j < 1024
    → frame_of a ≢ frame_of b ⊎ (i ≢ j)
    → entry_address (frame_of a) i ≢ entry_address (frame_of b) j
unfolding entry_address
entry_address-ne a b i j si sj (inl h) eq =
    let ea = frame_of-eq a in let eb = frame_of-eq b in h (omega arith)
entry_address-ne a b i j si sj (inr h) eq =
    let ea = frame_of-eq a in let eb = frame_of-eq b in h (omega arith)

module _ (s : Paging) (paged : IsPaged s) (d i val : ℕ) (dd : d < 1024) (ii : i < 1024)
    (here : is_present (s.page_directory d) ≡ true) where
  unfoldable pub written : Paging
  written = set_entry (frame_of (s.page_directory d)) i val s

  -- The address that shows the new entry, and the others.
  pub written-hit :
      (v : ℕ) → v < 2 ^ 32 → v / 4096 ≡ d * 1024 + i → vmm_get_phys v written ≡ through val v
  unfolding written set_entry dir_of slot_of
  written-hit v small e =
      let b = index_bounds v in
      let p = page_of v small in
      let ed : page_dir_index v ≡ d = omega arith in
      let ei : page_tbl_index v ≡ i = omega arith in
      let fr = ap (λ k. s.page_directory k) ed in
      vmm_get_phys-through v written (ap is_present fr ∙ here)
        (subst (λ k. frame_of k ≢ 0) (sym fr) (paged.not_null d dd here))
      ∙ ap (λ w. through w v)
          (ap (λ a. if a == entry_address (frame_of (s.page_directory d)) i then val else s.word a)
              (ap₂ (λ k j. entry_address (frame_of k) j) fr ei)
            ∙ rw (eq_== (entry_address (frame_of (s.page_directory d)) i) _ refl) refl)

  pub written-miss :
      (v : ℕ) → v < 2 ^ 32 → v / 4096 ≢ d * 1024 + i → vmm_get_phys v written ≡ vmm_get_phys v s
  unfolding written set_entry dir_of slot_of
  written-miss v small e =
      let b = index_bounds v in
      let p = page_of v small in
      let apart : is_present (dir_of v s) ≡ true
          → slot_of v s ≢ entry_address (frame_of (s.page_directory d)) i =
        λ h.
          entry_address-ne (dir_of v s) (s.page_directory d) (page_tbl_index v) i b.1 ii
            (elim (Bool-cases (page_dir_index v == d)) [
              | inl t ↦ inr (λ ei. e (let ed = ==_eq (page_dir_index v) d t in omega arith))
              | inr f ↦
                  inl (λ eq. ground (arith, paged.distinct (page_dir_index v) d b.0 dd h here eq))
            ]) in
      vmm_get_phys-same v s written refl
        (λ h.
          rw (ne_== (slot_of v s) (entry_address (frame_of (s.page_directory d)) i) (apart h)) refl)
        (paged.not_null (page_dir_index v) b.0)
