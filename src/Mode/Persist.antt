-- ===== src/Mode/Persist.antt =====
-- internal/mode/persist.go: the file config.toml. A file is its text, or `missing` or `unreadable`.
pub mod Entries
pub mod Lines
pub mod RoundTrip
use goat_client.Prelude.{
  ℕ, ◌+◌, Bool, true, false, not, Option, none, some, List, [], ◌∷◌, ◌++◌, Str, codes, same, leb,
  ◌==◌, ◌&&◌, ◌||◌, if◌then◌else◌,
}
use goat_client.Text.{trim, trim_space}
use goat_client.Text.Split.{split, cut, join}
use goat_client.Mode.{Mode, other, mode_string, default_mode, valid}
use goat_client.Mode

pub record PersistedConfig : Type 0 where
  pub mode : Mode
  pub mesh_dns_servers : List Str
  pub mesh_dns_search_domains : List Str
  pub mesh_dns_match_domains : List Str

pub data PersistError : Type 0 where
  open_failed unknown_mode invalid_mode write_failed : PersistError

pub data Result (A : Type 0) : Type 0 where
  ok : A → Result A
  err : PersistError → Result A

pub data File : Type 0 where
  missing unreadable : File
  holds : Str → File

abbrev pub no_mode : Mode
no_mode = other []

abbrev pub empty_config : PersistedConfig
empty_config = record {
  mode = no_mode;
  mesh_dns_servers = [];
  mesh_dns_search_domains = [];
  mesh_dns_match_domains = [];
}

abbrev pub is_quote : ℕ → Bool
is_quote c = (c == b'"') || (c == b'\'')

abbrev pub keep_named : Str → List Str → List Str
keep_named [] rest = rest
keep_named (c ∷ s) rest = (c ∷ s) ∷ rest

abbrev pub trimmed : List Str → List Str
trimmed [] = []
trimmed (p ∷ ps) = keep_named (trim_space p) (trimmed ps)

unfoldable pub split_csv : Str → List Str
unfolding split
split_csv s = trimmed (split b',' s)

-- The characters that `%q` leaves as they are; it puts a backslash before a quote and a backslash.
abbrev pub is_printable : ℕ → Bool
is_printable c = leb 0x20 c && leb c 0x7e

unfoldable pub has_prefix_hash : Str → Bool
has_prefix_hash [] = false
has_prefix_hash (c ∷ s) = c == b'#'

abbrev pub with_mode : PersistedConfig → Option Mode → Result PersistedConfig
with_mode cfg none = err unknown_mode
with_mode cfg (some m) = ok (record cfg { mode = m })

abbrev pub then_lines :
    Result PersistedConfig → (PersistedConfig → Result PersistedConfig) → Result PersistedConfig
then_lines (err e) k = err e
then_lines (ok cfg) k = k cfg

abbrev pub persisted_mode : Result PersistedConfig → Result Mode
persisted_mode (err e) = err e
persisted_mode (ok cfg) =
    if same (mode_string cfg.mode) []
    then ok default_mode
    else if valid cfg.mode
    then ok cfg.mode
    else err invalid_mode

-- `fold` lowers the characters beyond ASCII.
module _ (fold : ℕ → ℕ) where
  -- The switch of `parse` on a key.
  unfoldable pub set_key : Str → Str → PersistedConfig → Result PersistedConfig
  set_key key val cfg =
      if same key (codes "mode")
      then (if same val [] then ok cfg else with_mode cfg (Mode.parse fold val))
      else if same key (codes "mesh_dns_servers")
      then ok (record cfg { mesh_dns_servers = split_csv val })
      else if same key (codes "mesh_dns_search_domains")
      then ok (record cfg { mesh_dns_search_domains = split_csv val })
      else if same key (codes "mesh_dns_match_domains")
      then ok (record cfg { mesh_dns_match_domains = split_csv val })
      else ok cfg

  abbrev pub set_pair : Option (Str × Str) → PersistedConfig → Result PersistedConfig
  set_pair none cfg = ok cfg
  set_pair (some (k, v)) cfg = set_key (trim_space k) (trim is_quote (trim_space v)) cfg

  unfoldable pub parse_line : Str → PersistedConfig → Result PersistedConfig
  parse_line line cfg =
      if same line [] || has_prefix_hash line then ok cfg else set_pair (cut b'=' line) cfg

  unfoldable pub parse_lines : List Str → PersistedConfig → Result PersistedConfig
  parse_lines [] cfg = ok cfg
  parse_lines (raw ∷ ls) cfg = then_lines (parse_line (trim_space raw) cfg) (parse_lines ls)

  unfoldable pub parse : Str → Result PersistedConfig
  parse text = parse_lines (split b'\n' text) empty_config

  unfoldable pub load : File → Result PersistedConfig
  load missing = ok empty_config
  load unreadable = err open_failed
  load (holds text) = parse text

  unfoldable pub load_or_default : File → Result Mode
  load_or_default f = persisted_mode (load f)

abbrev pub heading : Str
heading = codes "# goat-client config (v0.2). Managed by `goat-client setmode` or the installer."

abbrev pub written : Bool → File → Str → File × Option PersistError
written true old text = (old, some write_failed)
written false old text = (holds text, none)

-- `escape` is what `%q` makes of the characters beyond ASCII and of controls.
module _ (escape : ℕ → Str) where
  abbrev pub quoted : ℕ → Str
  quoted c =
      if (c == b'"') || (c == b'\\')
      then b'\\' ∷ c ∷ []
      else if is_printable c
      then c ∷ []
      else escape c

  abbrev pub quote_all : Str → Str
  quote_all [] = []
  quote_all (c ∷ s) = quoted c ++ quote_all s

  -- The verb `%q`.
  unfoldable pub quote : Str → Str
  quote s = b'"' ∷ (quote_all s ++ b'"' ∷ [])

  abbrev pub value_line : Str → Str → Str → Str
  value_line key val rest = key ++ (codes " = " ++ (quote val ++ b'\n' ∷ rest))

  abbrev pub list_line : Str → List Str → Str → Str
  list_line key [] rest = rest
  list_line key (v ∷ vs) rest = value_line key (join b',' (v ∷ vs)) rest

  unfoldable pub body : PersistedConfig → Str
  body cfg =
      heading
      ++ b'\n'
        ∷ (value_line (codes "mode") (mode_string cfg.mode) (
            list_line (codes "mesh_dns_servers") cfg.mesh_dns_servers (
              list_line (codes "mesh_dns_search_domains") cfg.mesh_dns_search_domains
                (list_line (codes "mesh_dns_match_domains") cfg.mesh_dns_match_domains []))))

  -- The flag says whether a step before the rename, or the rename, fails; the temporary file is gone
  -- either way.
  unfoldable pub save : PersistedConfig → Bool → File → File × Option PersistError
  save cfg fails old =
      if not (same (mode_string cfg.mode) []) && not (valid cfg.mode)
      then (old, some invalid_mode)
      else written fails old (body cfg)
