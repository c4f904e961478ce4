-- ===== src/Paging/Init.antt =====
-- The translation that `paging_init` sets up.
use osver.Prelude.{
  ℕ, ◌+◌, ◌-◌, ◌*◌, ◌%◌, ◌/◌, ◌^◌, ◌<◌, ◌≡◌, ◌≢◌, refl, ap, sym, ◌∙◌, subst, true, false, ◌==◌,
  ==_eq, if◌then◌else◌, arith, Bool-cases, inl, inr, ltb, leb,
}
use osver.Bits.{bit_or_disjoint}
use osver.Pmm.{page_is_free}
use osver.Paging.{
  Paging, page_dir_index, page_tbl_index, is_present, frame_of, entry_address, vmm_get_phys,
  paging_init, unmapped,
}
use osver.Paging.Entry.{
  page_dir_index-eq, page_tbl_index-eq, frame_of-eq, is_present-eq, page_offset-eq, init_entry-eq,
}
use osver.Paging.Slot.{
  IsPaged, through, dir_of, slot_of, index_bounds, vmm_get_phys-none, vmm_get_phys-through,
}

through_first : (v : ℕ) → v < 2 ^ 22 → through (v / 4096 * 4096 + 7) v ≡ v
unfolding through
through_first v below =
    let p = v / 4096 in
    let shown : is_present (p * 4096 + 7) ≡ true = is_present-eq (p * 4096 + 7) ∙ ground arith in
    let frame : frame_of (p * 4096 + 7) ≡ p * 2 ^ 12 = frame_of-eq (p * 4096 + 7) ∙ omega arith in
    rw (shown, frame, page_offset-eq v)
      (bit_or_disjoint 12 p (v % 2 ^ 12) (omega arith) ∙ omega arith)

-- the first table is a page of the kernel's image, in use and not the first page
module _ (table : ℕ) (s : Paging) (aligned : table % 4096 ≡ 0) (small : table < 2 ^ 32)
    (pos : table ≢ 0) (busy : page_is_free (table / 4096) s.pmm ≡ false) where
  first_entry : (paging_init table s).page_directory 0 ≡ table + 7
  unfolding paging_init
  first_entry = init_entry-eq table aligned

  other_entry : (d : ℕ) → d < 1024 → d ≢ 0 → (paging_init table s).page_directory d ≡ 0
  unfolding paging_init
  other_entry d dd h = ground arith

  first_present : is_present ((paging_init table s).page_directory 0) ≡ true
  first_present = ap is_present first_entry ∙ is_present-eq (table + 7) ∙ ground arith

  pub first_frame : frame_of ((paging_init table s).page_directory 0) ≡ table
  first_frame = ap frame_of first_entry ∙ frame_of-eq (table + 7) ∙ omega arith

  -- only the first entry is there
  pub only_first :
      (d : ℕ) → d < 1024 → is_present ((paging_init table s).page_directory d) ≡ true → d ≡ 0
  only_first d dd h = elim (Bool-cases (d == 0)) [
    | inl t ↦ ==_eq d 0 t
    | inr f ↦
        let e = ap is_present (other_entry d dd (λ z. ground arith)) ∙ is_present-eq 0 in
        ground arith
  ]

  kept_pmm : (paging_init table s).pmm ≡ s.pmm
  unfolding paging_init
  kept_pmm = refl

  paging_init-IsPaged : IsPaged (paging_init table s)
  paging_init-IsPaged = record {
    used = λ d dd h.
        let z = only_first d dd h in
        subst
          (λ m. page_is_free (frame_of ((paging_init table s).page_directory d) / 4096) m ≡ false)
          (sym kept_pmm)
          (subst (λ f. page_is_free (f / 4096) s.pmm ≡ false)
            (sym (ap (λ k. frame_of ((paging_init table s).page_directory k)) z ∙ first_frame))
            busy);
    distinct = λ d e dd ee hd he eq. only_first d dd hd ∙ sym (only_first e ee he);
    not_null = λ d dd h eq. pos (
        sym (
          ap (λ k. frame_of ((paging_init table s).page_directory k)) (only_first d dd h)
          ∙ first_frame)
        ∙ eq);
  }

  slot_word : (i : ℕ) → i < 1024 → (paging_init table s).word (table + 4 * i) ≡ i * 4096 + 7
  unfolding paging_init
  slot_word i ii =
      let lo : leb table (table + 4 * i) ≡ true = ground arith in
      let hi : ltb (table + 4 * i) (table + 4096) ≡ true = ground arith in
      let at : (table + 4 * i - table) / 4 ≡ i = omega arith in
      rw (lo, hi, at) (init_entry-eq (i * 4096) (omega arith))

  low : (v : ℕ) → v < 2 ^ 22 → vmm_get_phys v (paging_init table s) ≡ v
  unfolding dir_of slot_of entry_address
  low v below =
      let b = index_bounds v in
      let d : page_dir_index v ≡ 0 = page_dir_index-eq v ∙ omega arith in
      let i : page_tbl_index v ≡ v / 4096 = page_tbl_index-eq v ∙ omega arith in
      let here = ap (paging_init table s).page_directory d in
      let frame = ap frame_of here ∙ first_frame in
      let word : (paging_init table s).word (slot_of v (paging_init table s))
          ≡ page_tbl_index v * 4096 + 7 =
        ap (λ f. (paging_init table s).word (f + 4 * page_tbl_index v)) frame
        ∙ slot_word (page_tbl_index v) b.1 in
      vmm_get_phys-through v (paging_init table s) (ap is_present here ∙ first_present)
        (λ z. pos (sym frame ∙ z))
      ∙ ap (λ w. through w v) (word ∙ ap (λ k. k * 4096 + 7) i)
      ∙ through_first v below

  -- After `paging_init` each address of the first 4 MiB is translated to itself and no other address is
  -- translated; the directory's one table is in use. The first table must be aligned to a page
  -- in use that is not page 0.
  pub vmm_get_phys-paging_init :
      (v : ℕ)
      → v < 2 ^ 32
      → IsPaged (paging_init table s)
        × (vmm_get_phys v (paging_init table s) ≡ (if ltb v (2 ^ 22) then v else unmapped))
  unfolding dir_of
  vmm_get_phys-paging_init v vv = (
    paging_init-IsPaged,
    elim (Bool-cases (ltb v (2 ^ 22))) [
      | inl t ↦ rw t (low v (ground arith))
      | inr f ↦
          let nz : page_dir_index v ≢ 0 =
            λ e. (let q = sym (page_dir_index-eq v) ∙ e in ground arith) in
          rw f (
            vmm_get_phys-none v (paging_init table s) (
              ap is_present (other_entry (page_dir_index v) (index_bounds v).0 nz)
              ∙ is_present-eq 0
              ∙ refl))
    ],
  )
