-- ===== src/Profile/Slug.antt =====
-- internal/profile/profile.go, `Slugify` and `validateName`: from a profile's name to the stem of
-- its files.
pub mod Laws
use goat_client.Prelude.{
  ℕ, Bool, true, false, Option, none, some, List, [], ◌∷◌, Str, codes, same, leb, ◌==◌, ◌&&◌, ◌||◌,
  if◌then◌else◌,
}
use goat_client.Text.{trim, trim_space, to_lower}

-- The class `[a-z0-9]` that `slugRegex` negates.
abbrev pub is_plain : ℕ → Bool
is_plain c = (leb b'a' c && leb c b'z') || (leb b'0' c && leb c b'9')

abbrev pub is_dash : ℕ → Bool
is_dash c = c == b'-'

abbrev pub dash_unless : Bool → Str → Str
dash_unless true s = s
dash_unless false s = b'-' ∷ s

-- `slugRegex.ReplaceAllString(s, "-")`; the flag says whether the last character was replaced.
unfoldable pub collapse : Bool → Str → Str
collapse run [] = []
collapse run (c ∷ s) = elim (is_plain c) [
  | true ↦ c ∷ collapse false s
  | false ↦ dash_unless run (collapse true s)
]

unfoldable pub slugify : (ℕ → ℕ) → Str → Str
unfolding collapse trim
slugify fold name = trim is_dash (collapse false (to_lower fold (trim_space name)))

pub data NameError : Type 0 where
  slugifies_to_empty reserved : NameError

abbrev pub is_reserved : Str → Bool
is_reserved s =
    same s (codes "active") || (same s [] || (same s (codes ".") || same s (codes "..")))

pub data Named : Type 0 where
  slug : Str → Named
  invalid_name : NameError → Named

unfoldable pub validate_name : (ℕ → ℕ) → Str → Named
validate_name fold name =
    let s = slugify fold name in
    if same s []
    then invalid_name slugifies_to_empty
    else if is_reserved s
    then invalid_name reserved
    else slug s
