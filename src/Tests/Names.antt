-- ===== src/Tests/Names.antt =====
-- Runs of internal/names.
use goat_client.Text.{trim_space}
use goat_client.Prelude.{
  ◌==◌, if◌then◌else◌, ℕ, Option, none, some, [], ◌∷◌, Str, codes, same, ◌≡◌, refl, subst,
}
use goat_client.Prelude.Int.{pos}
use goat_client.Bundle.{Key}
use goat_client.Names.{
  Snapshot, ok, err, Crypto, File, Stat, stat, Store, lands, new_store, not_newer, hit,
  load_snapshot, put_snapshot, verify_and_parse, any_verifies, read_verified, snap_stat_key,
}
use goat_client.Names.Snapshots.{LoadSpec, PutSpec, put_snapshot-PutSpec, new_store-Coherent}
use goat_client.Names.Snapshots.Cached
use goat_client.Names.Snapshots.Cached.{IsVersion, Reachable, Reachable-LoadSpec}

abbrev numbered : ℕ → Snapshot
numbered n = record {
  format = codes "goat-name-snapshot-v1";
  site_id = codes "site";
  zone = codes "mesh";
  serial = n;
  generated_at = [];
  generated_at_unix = pos 1700000000;
  ttl_seconds = 86400;
  ca_id = [];
  records = [];
  peer_bindings = [];
}

-- An artifact here is its serial.
abbrev read_serial : Str → Option Snapshot
read_serial [] = none
read_serial (n ∷ rest) = some (numbered n)

abbrev crypto : Crypto
crypto = record {
  decode_base64 = λ s. some s;
  digest = λ s. s;
  verify_asn1 = λ k d der. same d der;
  unmarshal = read_serial;
}

abbrev root : Key
root = record { curve = some (codes "P-256"); point = 3 }

abbrev file : ℕ → File
file n = record { bytes = n ∷ []; changed_at = 1 }

abbrev store : Store
store = new_store (none ∷ some root ∷ []) (some (file 65)) (some (file 65))

abbrev later_file : File
later_file = record { bytes = 66 ∷ []; changed_at = 2 }

-- The files were replaced once.
abbrev version : Stat → Str
version (size, t) = if t == 1 then 65 ∷ [] else 66 ∷ []

version-file : IsVersion crypto version version version (some (file 65))
version-file f e =
    let found : file 65 ≡ f = cc in subst (λ g. version (stat g) ≡ g.bytes) found refl

version-later_file : IsVersion crypto version version version (some later_file)
version-later_file f e =
    let found : later_file ≡ f = cc in subst (λ g. version (stat g) ≡ g.bytes) found refl

abbrev loaded : Store
loaded = (load_snapshot crypto store).0

abbrev replaced : Store
replaced = record loaded { artifact = some later_file; sig = some later_file }

replaced-Reachable : Reachable crypto version version replaced
unfolding new_store
replaced-Reachable =
    Cached.changes (some later_file) (some later_file) loaded
      (Cached.loads store (
        Cached.starts (none ∷ some root ∷ []) (some (file 65)) (some (file 65))
          (version-file, version-file)))
      (version-later_file, version-later_file)

Reachable-LoadSpec_example : LoadSpec crypto replaced (load_snapshot crypto replaced)
Reachable-LoadSpec_example = Reachable-LoadSpec crypto version version replaced replaced-Reachable

sees_later : (load_snapshot crypto replaced).1 ≡ ok (numbered 66)
unfolding load_snapshot verify_and_parse any_verifies read_verified hit new_store snap_stat_key same
    trim_space
sees_later = refl

put_snapshot-PutSpec_example :
    PutSpec crypto store
      (66 ∷ [])
      (66 ∷ [])
      (put_snapshot crypto (66 ∷ []) (66 ∷ []) (lands 2) (lands 3) store)
put_snapshot-PutSpec_example =
    put_snapshot-PutSpec crypto store (66 ∷ []) (66 ∷ []) (lands 2) (lands 3)
      (new_store-Coherent crypto (none ∷ some root ∷ []) (some (file 65)) (some (file 65)))

takes_newer :
    (put_snapshot crypto (66 ∷ []) (66 ∷ []) (lands 2) (lands 3) store).1 ≡ ok (numbered 66)
unfolding put_snapshot load_snapshot verify_and_parse any_verifies read_verified hit new_store
    snap_stat_key same trim_space
takes_newer = refl

refuses_older :
    (put_snapshot crypto (64 ∷ []) (64 ∷ []) (lands 2) (lands 3) store).1 ≡ err not_newer
unfolding put_snapshot load_snapshot verify_and_parse any_verifies read_verified hit new_store
    snap_stat_key same trim_space
refuses_older = refl
