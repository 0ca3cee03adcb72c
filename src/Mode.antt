-- ===== src/Mode.antt =====
-- internal/mode: the selector of the tunnel subsystems. A `Mode` is a string in the source: its
-- three known values are constructors, and `other` holds any further text, the empty one included.
pub mod Laws
pub mod Persist
use goat_client.Prelude.{
  ℕ, Bool, true, false, Option, none, some, List, [], ◌∷◌, Str, codes, same, ◌||◌, if◌then◌else◌,
}
use goat_client.Text.{trim_space, to_lower}

pub data Mode : Type 0 where
  wg_cp0_only netbird_only combined : Mode
  other : Str → Mode

abbrev pub default_mode : Mode
default_mode = combined

abbrev pub all_modes : List Mode
all_modes = wg_cp0_only ∷ netbird_only ∷ combined ∷ []

-- `String`: the text on the wire and on disk.
unfoldable pub mode_string : Mode → Str
mode_string wg_cp0_only = codes "wg-cp0-only"
mode_string netbird_only = codes "netbird-only"
mode_string combined = codes "combined"
mode_string (other s) = s

abbrev pub one_of : Str → List Str → Bool
one_of s [] = false
one_of s (t ∷ ts) = same s t || one_of s ts

abbrev pub outer_names : List Str
outer_names =
    codes "wg-cp0-only" ∷ codes "wg-cp0" ∷ codes "wgcp0" ∷ codes "outer" ∷ codes "outer-only" ∷ []

abbrev pub inner_names : List Str
inner_names = codes "netbird-only" ∷ codes "netbird" ∷ codes "inner" ∷ codes "inner-only" ∷ []

abbrev pub both_names : List Str
both_names = codes "combined" ∷ codes "both" ∷ codes "all" ∷ []

-- The switch of `Parse` on the normalised text; `none` is `ErrUnknownMode`.
unfoldable pub parse_normal : Str → Option Mode
parse_normal s =
    if one_of s outer_names
    then some wg_cp0_only
    else if one_of s inner_names
    then some netbird_only
    else if one_of s both_names
    then some combined
    else none

unfoldable pub parse : (ℕ → ℕ) → Str → Option Mode
unfolding parse_normal
parse fold s = parse_normal (to_lower fold (trim_space s))

unfoldable pub valid : Mode → Bool
valid (other s) = false
valid _ = true

unfoldable pub display : Mode → Str
display wg_cp0_only = codes "wg-cp0 only (outer tunnel)"
display netbird_only = codes "netbird only (inner mesh)"
display combined = codes "combined (outer + inner)"
display (other s) = s

unfoldable pub includes_wg_cp0 : Mode → Bool
includes_wg_cp0 wg_cp0_only = true
includes_wg_cp0 netbird_only = false
includes_wg_cp0 combined = true
includes_wg_cp0 (other s) = false

unfoldable pub includes_netbird : Mode → Bool
includes_netbird wg_cp0_only = false
includes_netbird netbird_only = true
includes_netbird combined = true
includes_netbird (other s) = false
