-- ===== src/Daemon/Imports.antt =====
-- internal/daemon/daemon.go: the operations that put a bundle or a profile into the store and take it up,
-- the reports on profiles, and the end of the daemon. What only the log sees is left out.
pub mod Stored
pub mod Steps
pub mod Verified
use goat_client.Prelude.{
  ℕ, Bool, true, false, not, Option, none, some, List, [], ◌∷◌, Str, codes, same, length, ltb, ◌==◌,
  ◌&&◌, map, if◌then◌else◌,
}
use goat_client.Bundle.{EnrollmentBundle, no_trust_roots, check_cp_device_keypair, check_expiry}
use goat_client.Bundle.Trust.{no_roots, verify_bundle}
use goat_client.Mode.{Mode, valid, mode_string}
use goat_client.Mode
use goat_client.Profile.Disk.{
  Disk, StoreError, not_found, already_exists, bundle_error, Result, ok, err, M, ◌>>=◌, ◌>>◌,
  return, throw, try, active_or_empty,
}
use goat_client.Profile.Store.{
  Env, AddRequest, Info, Profile, check, guard, parsed, parse, list, load, add, set_active,
}
use goat_client.Profile.Migrate.{LegacyFile, migrate_legacy_bundle}
use goat_client.Tunnel.Manager.{Manager, TunnelError, configure_manager, close}
use goat_client.Tunnel.FromBundle.{Derived, config, refused, from_bundle}
use goat_client.Ipc.Wire.{ImportBundleReply}
use goat_client.Ipc.Profiles.{
  ProfileInfo, ListProfilesReply, AddProfileRequest, AddProfileReply, SetActiveProfileReply,
  GetActiveProfileReply,
}
use goat_client.Daemon.{
  DaemonError, store_error, tunnel_error, slug_required, unknown_mode, Session, Outcome,
  override_from_profile, drop_mesh, outer_down,
}
use goat_client.Daemon.Legs.{Host}
use goat_client.Daemon.Switch.{set_active_profile}

-- What a handler returns: a reply or an error.
pub data Replied (A : Type 0) : Type 0 where
  replied : A → Replied A
  failed : DaemonError → Replied A

abbrev pub to_ipc_profile_info : Info → ProfileInfo
to_ipc_profile_info i = record {
  name = i.name;
  slug = i.slug;
  mode = mode_string i.mode;
  device_id = i.device_id;
  site = i.site;
  expires_at = i.expires_at;
  created_at = i.created_at;
  updated_at = i.updated_at;
  active = i.active;
}

unfoldable pub find_info : Str → List Info → Result Info
find_info slug [] = err not_found
find_info slug (i ∷ is) = if same i.slug slug then ok i else find_info slug is

abbrev pub name_or : Str → Result Info → Str
name_or slug (ok i) = i.name
name_or slug (err e) = slug

abbrev pub mode_or : Mode → Result Info → Mode
mode_or m (ok i) = i.mode
mode_or m (err e) = m

abbrev pub found : Str → Result (List Info) → Result Info
found slug (err e) = err e
found slug (ok is) = find_info slug is

-- `errors.Is(err, profile.ErrAlreadyExists)`.
abbrev pub is_taken : StoreError → Bool
is_taken already_exists = true
is_taken _ = false

abbrev pub bundle_request : Str → Mode → Str → Bool → AddRequest
bundle_request name m bytes replace = record {
  name = name;
  mode = m;
  bundle_bytes = bytes;
  replace = replace;
}

module _ (env : Env) where
  -- `profileInfoBySlug`, its error as a value.
  unfoldable pub profile_info_by_slug : Str → M (Result Info)
  profile_info_by_slug slug = do r ← try (list env); return (found slug r)

  -- The checks of `ImportBundle`.
  unfoldable pub check_import : Str → ℕ → M EnrollmentBundle
  check_import bytes now = do
    b ← parsed (parse env bytes)
    guard (not (no_roots env.roots)) (bundle_error no_trust_roots)
    check (verify_bundle env.codec env.roots b)
    check (check_cp_device_keypair b)
    check (check_expiry b now)
    return b

  -- The bundle of the active profile is replaced in place.
  unfoldable pub replace_active : Str → Mode → Str → ℕ → M Str
  replace_active slug m bytes now = do
    r ← profile_info_by_slug slug
    i ← add env (bundle_request (name_or slug r) (mode_or m r) bytes true) now
    return slug

  abbrev pub add_again : Mode → Str → ℕ → Result Info → M Info
  add_again m bytes now (ok i) = return i
  add_again m bytes now (err e) =
      if is_taken e then add env (bundle_request (codes "default") m bytes true) now else throw e

  -- A new profile "default", made active. One that is on disk and was not taken up is replaced.
  unfoldable pub add_default : Mode → Str → ℕ → M Str
  add_default m bytes now = do
    r ← try (add env (bundle_request (codes "default") m bytes false) now)
    i ← add_again m bytes now r
    previous ← set_active i.slug
    return i.slug

  -- The bundle, and the slug that is current from then on.
  unfoldable pub import_steps : Str → Mode → Str → ℕ → M (EnrollmentBundle × Str)
  import_steps slug m bytes now = do
    b ← check_import bytes now
    s ← if same slug [] then add_default m bytes now else replace_active slug m bytes now
    return (b, s)

abbrev pub configure_by : Derived → Session → Session
configure_by (refused e) d = d
configure_by (config c) d = record d { manager = (configure_manager c d.manager).0 }

-- The tunnel is configured from a bundle, its errors only logged.
abbrev pub configure_outer : Host → EnrollmentBundle → Session → Session
configure_outer host b d =
    configure_by (from_bundle host.platform host.parse_addr host.parse_prefix b) d

abbrev pub import_reply : EnrollmentBundle → ImportBundleReply
import_reply b = record {
  device_id = b.device_id;
  site = b.site;
  issued_at = b.issued_at;
  expires_at = b.expires_at;
  peer_pubkey = b.peer_pubkey;
  endpoints_count = length b.known_endpoints;
  has_cp_device_key = length b.cp_device_pubkey == 32;
}

abbrev pub imported :
    Host → Disk × Result (EnrollmentBundle × Str) → Session → Session × Replied ImportBundleReply
imported host (disk, err e) d = (record d { disk = disk }, failed (store_error e))
imported host (disk, ok (b, s)) d = (
  configure_outer host b (record d { disk = disk; current_bundle = some b; current_slug = s }),
  replied (import_reply b),
)

unfoldable pub import_bundle : Host → Str → ℕ → Session → Session × Replied ImportBundleReply
import_bundle host bytes now d =
    imported host (import_steps host.store d.current_slug d.current_mode bytes now d.disk) d

abbrev pub activated : Str → Info → Outcome → Session × Replied AddProfileReply
activated previous i (d, some e) = (d, failed e)
activated previous i (d, none) = (
  d,
  replied (record {
    profile = record (to_ipc_profile_info i) { active = true };
    previous_active = previous;
  }),
)

abbrev pub added : Host → Bool → Disk × Result Info → Session → Session × Replied AddProfileReply
added host set_it (disk, err e) d = (record d { disk = disk }, failed (store_error e))
added host false (disk, ok i) d = (
  record d { disk = disk },
  replied (record { profile = to_ipc_profile_info i; previous_active = [] }),
)
added host true (disk, ok i) d =
    activated d.current_slug i (set_active_profile host i.slug (record d { disk = disk }))

abbrev pub add_in_mode :
    Host → AddProfileRequest → ℕ → Option Mode → Session → Session × Replied AddProfileReply
add_in_mode host req now none d = (d, failed unknown_mode)
add_in_mode host req now (some m) d =
    added host req.set_active
      (add host.store (bundle_request req.name m req.bundle_bytes req.replace) now d.disk) d

-- An empty mode is the daemon's own.
abbrev pub resolve_mode : Host → Str → Session → Option Mode
resolve_mode host text d =
    if same text [] then some d.current_mode else Mode.parse host.store.fold text

unfoldable pub add_profile :
    Host → AddProfileRequest → ℕ → Session → Session × Replied AddProfileReply
add_profile host req now d = add_in_mode host req now (resolve_mode host req.mode d) d
