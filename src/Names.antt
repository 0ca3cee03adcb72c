-- ===== src/Names.antt =====
-- internal/names: here `VerifyAndParse` (names.go) and the signed snapshots of the store (store.go).
-- A file is its contents and its time of change; one that is there can be read. The calls of the
-- store hold its mutex from end to end.
pub mod Snapshots
pub mod Answers
pub mod Observed
pub mod Claims
pub mod Forwarder
pub mod Refresh
pub mod Supervise
use goat_client.Prelude.{
  ℕ, Bool, true, false, not, Option, none, some, List, [], ◌∷◌, Str, codes, same, length, leb, ◌&&◌,
  ◌||◌, ◌==◌, if◌then◌else◌, is_some,
}
use goat_client.Prelude.Int.{ℤ}
use goat_client.Text.{trim_space}
use goat_client.Bundle.{Key}

pub record NameRecord : Type 0 where
  pub name : Str
  pub ip : Str

pub record PeerBinding : Type 0 where
  pub peer_name : Str
  pub anchor : Str

pub record Snapshot : Type 0 where
  pub format : Str
  pub site_id : Str
  pub zone : Str
  pub serial : ℕ
  pub generated_at : Str
  pub generated_at_unix : ℤ
  pub ttl_seconds : ℕ
  pub ca_id : Str
  pub records : List NameRecord
  pub peer_bindings : List PeerBinding

pub data NamesError : Type 0 where
  no_trust_roots not_base64 bad_signature malformed unexpected_format : NamesError
  no_cached_snapshot no_signature_file not_newer write_failed : NamesError

-- A value, or an error.
pub data Result (A : Type 0) : Type 0 where
  ok : A → Result A
  err : NamesError → Result A

-- What the package calls: `base64.StdEncoding.DecodeString`, `sha256.Sum256`, `ecdsa.VerifyASN1`
-- and `json.Unmarshal` into a snapshot.
pub record Crypto : Type 0 where
  pub decode_base64 : Str → Option Str
  pub digest : Str → Str
  pub verify_asn1 : Key → Str → Str → Bool
  pub unmarshal : Str → Option Snapshot

abbrev pub snapshot_format : Str
snapshot_format = codes "goat-name-snapshot-v1"

pub record File : Type 0 where
  pub bytes : Str
  pub changed_at : ℕ

abbrev pub Stat : Type 0
Stat = ℕ × ℕ

-- `artifact` and `sig` are the two files; `snap_cache_key` is `none` where the source has "".
pub record Store : Type 0 where
  pub roots : List (Option Key)
  pub artifact : Option File
  pub sig : Option File
  pub snap_cache : Option Snapshot
  pub snap_cache_key : Option (Stat × Stat)

-- What becomes of a `writeAtomic`: an error, or the file with its time of change.
pub data Write : Type 0 where
  fails : Write
  lands : ℕ → Write

unfoldable pub new_store : List (Option Key) → Option File → Option File → Store
new_store roots a s = record {
  roots = roots;
  artifact = a;
  sig = s;
  snap_cache = none;
  snap_cache_key = none;
}

abbrev pub stat : File → Stat
stat f = (length f.bytes, f.changed_at)

abbrev pub key_of : Option File → Option File → Option (Stat × Stat)
key_of none s = none
key_of (some a) none = none
key_of (some a) (some s) = some (stat a, stat s)

unfoldable pub snap_stat_key : Store → Option (Stat × Stat)
snap_stat_key st = key_of st.artifact st.sig

abbrev pub same_key : Option (Stat × Stat) → Option (Stat × Stat) → Bool
same_key none k = false
same_key (some k) none = false
same_key (some ((m, s), (n, t))) (some ((m', s'), (n', t'))) =
    (m == m') && (s == s') && (n == n') && (t == t')

abbrev pub forget : Store → Store
forget st = record st { snap_cache = none; snap_cache_key = none }

abbrev pub hit_if : Bool → Option Snapshot → Option Snapshot
hit_if true c = c
hit_if false c = none

-- The snapshot that the cache serves.
unfoldable pub hit : Store → Option Snapshot
hit st = hit_if (same_key (snap_stat_key st) st.snap_cache_key) st.snap_cache

module _ (crypto : Crypto) where
  abbrev pub root_verifies : Str → Str → Option Key → Bool
  root_verifies d der none = false
  root_verifies d der (some k) = crypto.verify_asn1 k d der

  unfoldable pub any_verifies : Str → Str → List (Option Key) → Bool
  any_verifies d der [] = false
  any_verifies d der (k ∷ ks) = root_verifies d der k || any_verifies d der ks

  abbrev pub check_format : Option Snapshot → Result Snapshot
  check_format none = err malformed
  check_format (some s) = if same s.format snapshot_format then ok s else err unexpected_format

  abbrev pub check_der : Str → List (Option Key) → Option Str → Result Snapshot
  check_der artifact roots none = err not_base64
  check_der artifact roots (some der) =
      if any_verifies (crypto.digest artifact) der roots
      then check_format (crypto.unmarshal artifact)
      else err bad_signature

  unfoldable pub verify_and_parse : Str → Str → List (Option Key) → Result Snapshot
  verify_and_parse artifact sig [] = err no_trust_roots
  verify_and_parse artifact sig (k ∷ ks) =
      check_der artifact (k ∷ ks) (crypto.decode_base64 (trim_space sig))

  -- The reads of both files and their check.
  unfoldable pub read_verified : List (Option Key) → Option File → Option File → Result Snapshot
  read_verified roots none s = err no_cached_snapshot
  read_verified roots (some a) none = err no_signature_file
  read_verified roots (some a) (some s) = verify_and_parse a.bytes s.bytes roots

  abbrev pub on_disk : Store → Result Snapshot
  on_disk st = read_verified st.roots st.artifact st.sig

  abbrev pub remember : Store → Result Snapshot → Store
  remember st (ok s) = record st { snap_cache = some s; snap_cache_key = snap_stat_key st }
  remember st (err no_cached_snapshot) = st
  remember st (err no_signature_file) = st
  remember st (err no_trust_roots) = forget st
  remember st (err not_base64) = forget st
  remember st (err bad_signature) = forget st
  remember st (err malformed) = forget st
  remember st (err unexpected_format) = forget st
  remember st (err not_newer) = forget st
  remember st (err write_failed) = forget st

  abbrev pub served : Store → Option Snapshot → Store × Result Snapshot
  served st (some s) = (st, ok s)
  served st none = (remember st (on_disk st), on_disk st)

  unfoldable pub load_snapshot : Store → Store × Result Snapshot
  load_snapshot st = served st (hit st)

  abbrev pub write_artifact : Str → Snapshot → Write → Store → Store × Result Snapshot
  write_artifact a cand fails st = (st, err write_failed)
  write_artifact a cand (lands t) st =
      let st' : Store = record st { artifact = some (record { bytes = a; changed_at = t }) } in
      (record st' { snap_cache = some cand; snap_cache_key = snap_stat_key st' }, ok cand)

  abbrev pub write_pair : Str → Str → Snapshot → Write → Write → Store → Store × Result Snapshot
  write_pair a s cand fails w st = (st, err write_failed)
  write_pair a s cand (lands t) w st =
      write_artifact a cand w (record st { sig = some (record { bytes = s; changed_at = t }) })

  abbrev pub replace_older :
      Str → Str → Snapshot → Write → Write → Store × Result Snapshot → Store × Result Snapshot
  replace_older a s cand w w' (st, err e) = write_pair a s cand w w' st
  replace_older a s cand w w' (st, ok cached) =
      if leb cand.serial cached.serial then (st, err not_newer) else write_pair a s cand w w' st

  abbrev pub put_verified :
      Str → Str → Write → Write → Store → Result Snapshot → Store × Result Snapshot
  put_verified a s w w' st (err e) = (st, err e)
  put_verified a s w w' st (ok cand) = replace_older a s cand w w' (load_snapshot st)

  -- The two writes are those of the signature and of the artifact.
  unfoldable pub put_snapshot : Str → Str → Write → Write → Store → Store × Result Snapshot
  put_snapshot a s w w' st = put_verified a s w w' st (verify_and_parse a s st.roots)
