-- ===== src/Tests/Store.antt =====
-- Runs of internal/bundle and internal/profile.
use goat_client.Prelude.{
  Bool, true, false, Option, none, some, [], ◌∷◌, Str, codes, same, Any, ◌≡◌, ◌↔◌, refl,
}
use goat_client.Prelude.Assoc.{lookup}
use goat_client.Bundle.{Codec, Key, EnrollmentBundle, InnerMeshSetup}
use goat_client.Bundle.Trust.{verify_bundle}
use goat_client.Bundle.Trust.Laws.{SignedBy, verify_bundle-none}
use goat_client.Mode.{combined}
use goat_client.Profile.Disk.{Meta, Disk, holds}
use goat_client.Profile.Store.{Env, AddRequest, add, rename, remove}
use goat_client.Profile.Store.Add.{AddSpec, add-AddSpec}
use goat_client.Profile.Store.Rename.{Stands, KeptBy, rename-keeps_bundle}
use goat_client.Profile.Migrate.{bytes, migrate_legacy_bundle}
use goat_client.Profile.Migrate.Imports.{MigrateSpec, migrate_legacy_bundle-MigrateSpec}
use goat_client.Profile.Store.Edits.{RemoveSpec, remove-RemoveSpec}

abbrev pub no_mesh : InnerMeshSetup
no_mesh = record {
  management_url = [];
  setup_key = [];
  admin_access_token = [];
  pre_shared_key = [];
  rosenpass_enabled = false;
  rosenpass_permissive = false;
}

abbrev signed_bundle : EnrollmentBundle
signed_bundle = record {
  version = 1;
  device_id = codes "laptop";
  peer_pubkey = [];
  acl_groups = [];
  site = codes "site";
  known_endpoints = [];
  issued_at = 0;
  activation_deadline = 10;
  expires_at = 20;
  nonce = [];
  ca_id = [];
  snitch_probe_key = [];
  tls_trust_anchor = [];
  cp_device_pubkey = [];
  cp_device_privkey = [];
  cp_device_address = [];
  inner_mesh_setup = no_mesh;
  mobile_cert = [];
  signature = codes "sig";
}

abbrev decode_one : Str → Option EnrollmentBundle
decode_one [] = none
decode_one (c ∷ s) = some signed_bundle

abbrev identity : Str → Str
identity s = s

abbrev marshal_name : EnrollmentBundle → Option Str
marshal_name b = some b.device_id

abbrev check_sig : Key → Str → Str → Bool
check_sig k digest sig = same sig (codes "sig")

abbrev codec : Codec
codec = record {
  cbor_unmarshal = decode_one;
  cbor_marshal = marshal_name;
  sha256 = identity;
  verify_asn1 = check_sig;
}

abbrev root : Key
root = record { curve = some (codes "P-256"); point = 3 }

abbrev pub env : Env
env = record { codec = codec; roots = some (root ∷ []); fold = λ c. c }

verify_bundle-none_example :
    (verify_bundle codec (some (root ∷ [])) signed_bundle ≡ none)
    ↔ Any (SignedBy codec signed_bundle) (root ∷ [])
verify_bundle-none_example = verify_bundle-none codec signed_bundle (some (root ∷ []))

abbrev request : AddRequest
request = record {
  name = codes "Home Net";
  mode = combined;
  bundle_bytes = codes "new";
  replace = false;
}

abbrev home : Meta
home = record {
  name = codes "Home";
  mode = combined;
  created_at = 1;
  updated_at = 2;
  rosenpass_enabled = none;
  rosenpass_permissive = none;
}

-- A profile on disk, and a fault at the fourth file operation.
abbrev disk : Disk
disk = record {
  metas = (codes "home", holds home) ∷ [];
  bundles = (codes "home", codes "bytes") ∷ [];
  active = some (holds (codes "home"));
  faults = false ∷ false ∷ false ∷ true ∷ [];
}

abbrev fresh : Disk
fresh = record { metas = []; bundles = []; active = none; faults = [] }

add-AddSpec_example :
    AddSpec env request disk ((add env request 7 disk).1) ((add env request 7 disk).0)
add-AddSpec_example = add-AddSpec env request 7 disk

home-Stands : Stands (codes "home") (codes "bytes") disk
unfolding lookup same
home-Stands = (refl, (home, refl))

rename-keeps_bundle_example :
    KeptBy env
      (codes "home")
      (codes "bytes")
      (codes "Office")
      7
      ((rename env (codes "home") (codes "Office") 7 disk).0)
rename-keeps_bundle_example =
    rename-keeps_bundle env (codes "home") (codes "bytes") (codes "Office") 7 disk home-Stands

remove-RemoveSpec_example :
    RemoveSpec (codes "home") disk ((remove (codes "home") disk).1) ((remove (codes "home") disk).0)
remove-RemoveSpec_example = remove-RemoveSpec (codes "home") disk

migrate_legacy_bundle-MigrateSpec_example :
    MigrateSpec env combined 7
      (bytes (codes "new"))
      fresh
      ((migrate_legacy_bundle env combined 7 (bytes (codes "new")) fresh).1)
      ((migrate_legacy_bundle env combined 7 (bytes (codes "new")) fresh).0)
migrate_legacy_bundle-MigrateSpec_example =
    migrate_legacy_bundle-MigrateSpec env combined 7 (bytes (codes "new")) fresh
