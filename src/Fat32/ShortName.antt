-- ===== src/Fat32/ShortName.antt =====
-- The 8.3 names that the search routines compare: their length, and that case does not matter.
use osver.Prelude.{
  ℕ, zero, suc, ◌+◌, ◌≡◌, refl, ap, ap₂, sym, ◌∙◌, Bool, true, List, [], ◌∷◌, ◌++◌, ◌==◌,
  if◌then◌else◌, length, length-append, arith, Bool-cases, inl, inr,
}
use osver.Fat32.Name.{
  to_upper, str_eq_ci, base_part, behind_dot, extension_part, pad, to_short_name,
}

length-pad : (n : ℕ) (cs : List ℕ) → length (pad n cs) ≡ n
unfolding pad
length-pad zero cs = refl
length-pad (suc n) [] = ap suc (length-pad n [])
length-pad (suc n) (c ∷ cs) = ap suc (length-pad n cs)

-- The name that a search looks for has eleven bytes, whatever the text that it comes from.
pub length-to_short_name : (name : List ℕ) → length (to_short_name name) ≡ 11
unfolding to_short_name
length-to_short_name name =
    length-append (pad 8 (base_part 8 name)) (pad 3 (extension_part 3 (behind_dot name)))
    ∙ ap₂ (λ m n. m + n) (length-pad 8 (base_part 8 name))
        (length-pad 3 (extension_part 3 (behind_dot name)))

upper-dot : (c : ℕ) → (to_upper c == b'.') ≡ (c == b'.')
unfolding to_upper
upper-dot c = ground arith

same-dot : (c d : ℕ) → to_upper c ≡ to_upper d → (c == b'.') ≡ (d == b'.')
same-dot c d h = sym (upper-dot c) ∙ ap (λ n. n == b'.') h ∙ upper-dot d

head_same :
    (c d : ℕ) (cs ds : List ℕ)
    → str_eq_ci (c ∷ cs) (d ∷ ds) ≡ true
    → (to_upper c ≡ to_upper d) × (str_eq_ci cs ds ≡ true)
unfolding str_eq_ci
head_same c d cs ds h = ground arith

extension_same :
    (n : ℕ) (cs ds : List ℕ) → str_eq_ci cs ds ≡ true → extension_part n cs ≡ extension_part n ds
unfolding extension_part str_eq_ci
extension_same zero cs ds h = refl
extension_same (suc n) [] [] h = refl
extension_same (suc n) [] (d ∷ ds) h = absurd (ground arith)
extension_same (suc n) (c ∷ cs) [] h = absurd (ground arith)
extension_same (suc n) (c ∷ cs) (d ∷ ds) h =
    let e = head_same c d cs ds h in ap₂ (λ x xs. x ∷ xs) e.0 (extension_same n cs ds e.1)

base_same : (n : ℕ) (cs ds : List ℕ) → str_eq_ci cs ds ≡ true → base_part n cs ≡ base_part n ds
unfolding base_part str_eq_ci
base_same zero cs ds h = refl
base_same (suc n) [] [] h = refl
base_same (suc n) [] (d ∷ ds) h = absurd (ground arith)
base_same (suc n) (c ∷ cs) [] h = absurd (ground arith)
base_same (suc n) (c ∷ cs) (d ∷ ds) h =
    let e = head_same c d cs ds h in
    ap₂ (λ (t : Bool) xs. if t then [] else xs) (same-dot c d e.0)
      (ap₂ (λ x xs. x ∷ xs) e.0 (base_same n cs ds e.1))

behind_same :
    (cs ds : List ℕ) → str_eq_ci cs ds ≡ true → str_eq_ci (behind_dot cs) (behind_dot ds) ≡ true
unfolding behind_dot str_eq_ci
behind_same [] [] h = refl
behind_same [] (d ∷ ds) h = absurd (ground arith)
behind_same (c ∷ cs) [] h = absurd (ground arith)
behind_same (c ∷ cs) (d ∷ ds) h =
    let e = head_same c d cs ds h in
    let dots = same-dot c d e.0 in
    let rest = behind_same cs ds e.1 in
    elim (Bool-cases (d == b'.')) [ inl t ↦ ground arith | inr f ↦ ground arith ]

-- Two names that `str_eq_ci` takes for equal, so `fat32_find` too, have the same eleven bytes: the
-- routines that search by these find the same entry for both.
pub to_short_name-str_eq_ci :
    (a b : List ℕ) → str_eq_ci a b ≡ true → to_short_name a ≡ to_short_name b
unfolding to_short_name
to_short_name-str_eq_ci a b h =
    ap₂ (λ xs ys. xs ++ ys) (ap (pad 8) (base_same 8 a b h))
      (ap (pad 3) (extension_same 3 (behind_dot a) (behind_dot b) (behind_same a b h)))
