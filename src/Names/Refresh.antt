-- ===== src/Names/Refresh.antt =====
-- internal/names/refresh.go and service.go: the refresh of the snapshot and of the claims, and the state
-- that the daemon reports. A fetch is `get`, from an address to the body of a 200 response.
pub mod Monotone
use goat_client.Prelude.{
  ℕ, ◌+◌, ◌/◌, ◌*◌, Bool, true, false, Option, none, some, List, [], ◌∷◌, ◌++◌, Str, codes, same,
  ltb, ◌||◌, if◌then◌else◌,
}
use goat_client.Prelude.Int.{ℤ, pos, negsuc}
use goat_client.Text.{trim_space, digits}
use goat_client.Names.{
  Snapshot, NamesError, Store, Write, Crypto, Result, ok, err, load_snapshot, put_snapshot,
}
use goat_client.Names.Answers.{Library, Grade, fresh, aging, expired, grade_at, trim_dot}
use goat_client.Names.Observed.{observed_count}
use goat_client.Names.Claims.{Formats, put_claims}
use goat_client.Names.Forwarder.{Env, Service}
use goat_client.Ipc.Wire.{NamesSnapshot}

abbrev pub snapshot_file : Str
snapshot_file = codes "name-snapshot.json"

abbrev pub sig_file : Str
sig_file = codes "name-snapshot.json.sig"

abbrev pub claims_file : Str
claims_file = codes "claims.json"

unfoldable pub get_base_url : Str → Str → Str
get_base_url site_id zone =
    let site = trim_space site_id in
    let mesh_zone = trim_space (trim_dot zone) in
    if same site [] || same mesh_zone []
    then []
    else codes "https://get." ++ (site ++ (codes "." ++ mesh_zone))

-- `strings.TrimSuffix(url, "/")`.
abbrev pub trim_slash : Str → Str
trim_slash [] = []
trim_slash (c ∷ s) = elim (same (c ∷ s) (codes "/")) [ true ↦ [] | false ↦ c ∷ trim_slash s ]

unfoldable pub file_url : Str → Str → Str
file_url base file = trim_slash base ++ (codes "/" ++ file)

-- What the writes of a refresh come to, in their order.
pub record Writes : Type 0 where
  pub sig : Write
  pub artifact : Write
  pub claims_fail : Bool

pub data Refreshed : Type 0 where
  accepted : Snapshot → Refreshed
  no_base_url fetch_failed : Refreshed
  refused : NamesError → Refreshed

module _ (env : Env) (get : Str → Option Str) (w : Writes) (base : Str) where
  -- Best effort: the errors are only logged.
  abbrev pub refresh_claims : Option Str → Service → Service
  refresh_claims none s = s
  refresh_claims (some body) s = record s {
    claims = (put_claims env.lib env.crypto env.formats body w.claims_fail s.claims).0;
  }

  abbrev pub after_put : Store × Result Snapshot → Service → Service × Refreshed
  after_put (st, err e) s = (record s { store = st }, refused e)
  after_put (st, ok snap) s =
      (refresh_claims (get (file_url base claims_file)) (record s { store = st }), accepted snap)

  abbrev pub with_pair : Option Str → Option Str → Service → Service × Refreshed
  with_pair none sig s = (s, fetch_failed)
  with_pair (some artifact) none s = (s, fetch_failed)
  with_pair (some artifact) (some sig) s =
      after_put (put_snapshot env.crypto artifact sig w.sig w.artifact s.store) s

  unfoldable pub refresh : Service → Service × Refreshed
  refresh s =
      if same base []
      then (s, no_base_url)
      else with_pair (get (file_url base snapshot_file)) (get (file_url base sig_file)) s

-- One turn of `refreshLoop`, with the site and the zone of the time, where they are known.
unfoldable pub attempt : Env → (Str → Option Str) → Writes → Option (Str × Str) → Service → Service
unfolding refresh get_base_url
attempt env get w none s = s
attempt env get w (some (site, zone)) s =
    if same (get_base_url site zone) [] then s else (refresh env get w (get_base_url site zone) s).0

-- `AgeHuman`.
unfoldable pub age_human : ℤ → Str
age_human (negsuc n) = codes "0m"
age_human (pos n) =
    let s = n / 1000000000 in
    if ltb s 3600
    then digits 20 (s / 60) ++ codes "m"
    else if ltb s 86400
    then digits 20 (s / 3600) ++ codes "h"
    else digits 20 (s / 86400) ++ codes "d"

abbrev pub grade_text : Grade → Str
grade_text fresh = codes "fresh"
grade_text aging = codes "aging"
grade_text expired = codes "expired"

abbrev pub status_of : Str → ℕ → Service → Result Snapshot → NamesSnapshot
status_of addr now s (err e) = record {
  grade = codes "unavailable";
  serial = 0;
  age = [];
  records = 0;
  observed = observed_count now s.observed;
  forwarder_addr = addr;
  fallback_served = s.served;
  last_fallback = s.last_fall * 1000000000;
}
status_of addr now s (ok snap) =
    let graded = grade_at snap now in
    record {
      grade = grade_text graded.grade;
      serial = graded.serial;
      age = age_human graded.age;
      records = graded.records;
      observed = observed_count now s.observed;
      forwarder_addr = addr;
      fallback_served = s.served;
      last_fallback = s.last_fall * 1000000000;
    }

-- `StatusSnapshot`, with the address of the forwarder. The load may fill the cache.
unfoldable pub status_snapshot : Crypto → Str → ℕ → Service → Service × NamesSnapshot
status_snapshot crypto addr now s =
    let (st, r) = load_snapshot crypto s.store in (record s { store = st }, status_of addr now s r)
