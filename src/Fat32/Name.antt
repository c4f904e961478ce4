-- ===== src/Fat32/Name.antt =====
-- The 8.3 names of src/fs/fat32.c. A C string is the list of its bytes without the NUL.
use osver.Prelude.{
  ℕ, zero, suc, ◌+◌, ◌-◌, Bool, true, false, ◌&&◌, List, [], ◌∷◌, ◌++◌, leb, ◌==◌, if◌then◌else◌,
  not,
}
use osver.Ata.{Bytes}

unfoldable pub to_upper : ℕ → ℕ
to_upper c = if leb b'a' c && leb c b'z' then c - b'a' + b'A' else c

unfoldable pub str_eq_ci : List ℕ → List ℕ → Bool
unfolding to_upper
str_eq_ci [] [] = true
str_eq_ci [] (b ∷ bs) = false
str_eq_ci (a ∷ as') [] = false
str_eq_ci (a ∷ as') (b ∷ bs) = if not (to_upper a == to_upper b) then false else str_eq_ci as' bs

-- the bytes `raw[i] …` up to a blank, at most `left` of them
unfoldable pub until_blank : ℕ → ℕ → Bytes → List ℕ
until_blank zero i raw = []
until_blank (suc left) i raw =
    let rest = raw i ∷ until_blank left (i + 1) raw in if raw i == b' ' then [] else rest

-- the characters that a reader of the buffer sees, up to the first NUL
unfoldable pub c_string : List ℕ → List ℕ
c_string [] = []
c_string (c ∷ cs) = if c == 0 then [] else c ∷ c_string cs

unfoldable pub format_short_name : Bytes → List ℕ
unfolding until_blank c_string
format_short_name raw =
    c_string (until_blank 8 0 raw ++ (if raw 8 == b' ' then [] else b'.' ∷ until_blank 3 8 raw))

-- the loop over the base name: at most `left` characters before a dot, in upper case
unfoldable pub base_part : ℕ → List ℕ → List ℕ
unfolding to_upper
base_part zero cs = []
base_part (suc left) [] = []
base_part (suc left) (c ∷ cs) = if c == b'.' then [] else to_upper c ∷ base_part left cs

-- what follows the first dot
unfoldable pub behind_dot : List ℕ → List ℕ
behind_dot [] = []
behind_dot (c ∷ cs) = if c == b'.' then cs else behind_dot cs

unfoldable pub extension_part : ℕ → List ℕ → List ℕ
unfolding to_upper
extension_part zero cs = []
extension_part (suc left) [] = []
extension_part (suc left) (c ∷ cs) = to_upper c ∷ extension_part left cs

-- the text `cs` in a field of `n` blanks
unfoldable pub pad : ℕ → List ℕ → List ℕ
pad zero cs = []
pad (suc n) [] = b' ' ∷ pad n []
pad (suc n) (c ∷ cs) = c ∷ pad n cs

-- The 11 bytes of `out`, which the code fills with blanks first.
unfoldable pub to_short_name : List ℕ → List ℕ
unfolding base_part behind_dot extension_part pad
to_short_name name = pad 8 (base_part 8 name) ++ pad 3 (extension_part 3 (behind_dot name))

-- are the bytes from `i` on those of the name?
unfoldable pub sname_eq : Bytes → ℕ → List ℕ → Bool
sname_eq a i [] = true
sname_eq a i (b ∷ bs) = if not (a i == b) then false else sname_eq a (i + 1) bs
