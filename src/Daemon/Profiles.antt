-- ===== src/Daemon/Profiles.antt =====
-- internal/daemon/daemon.go: what the daemon takes up at its start, the reports on profiles, and its end.
use goat_client.Prelude.{
  ℕ, Bool, true, false, not, Option, none, some, List, [], ◌∷◌, Str, same, map, ◌&&◌, if◌then◌else◌,
}
use goat_client.Mode.{Mode, valid}
use goat_client.Profile.Disk.{Disk, Result, ok, err, M, ◌>>=◌, return, try, active_or_empty}
use goat_client.Profile.Store.{Env, Info, Profile, list, load}
use goat_client.Profile.Migrate.{
  LegacyFile, Migrated, not_needed, migrated, inactive, migrate_legacy_bundle,
}
use goat_client.Tunnel.Manager.{Manager, TunnelError, close}
use goat_client.Ipc.Profiles.{
  ProfileInfo, ListProfilesReply, SetActiveProfileReply, GetActiveProfileReply,
}
use goat_client.Daemon.{
  store_error, tunnel_error, slug_required, Session, Outcome, override_from_profile, drop_mesh,
  outer_down,
}
use goat_client.Daemon.Legs.{Host}
use goat_client.Daemon.Switch.{set_active_profile}
use goat_client.Daemon.Imports.{
  Replied, replied, failed, to_ipc_profile_info, find_info, profile_info_by_slug, configure_outer,
}

-- The mode on the command line, where there is one, outranks the profile's.
unfoldable pub adopt_profile : Host → Bool → Str → Profile → Session → Session
adopt_profile host explicit slug p d = configure_outer host p.bundle (record d {
  current_bundle = some p.bundle;
  current_slug = slug;
  current_mode = if valid p.mode && not explicit then p.mode else d.current_mode;
  rosenpass_override = override_from_profile p;
})

module _ (env : Env) (m : Mode) (file : LegacyFile) (now : ℕ) where
  abbrev loaded : Str → Result Profile → Option (Str × Profile)
  loaded slug (err e) = none
  loaded slug (ok p) = some (slug, p)

  abbrev load_migrated : Result Migrated → M (Option (Str × Profile))
  load_migrated (err e) = return none
  load_migrated (ok not_needed) = return none
  load_migrated (ok (inactive slug e)) = return none
  load_migrated (ok (migrated slug)) = do r ← try (load env slug); return (loaded slug r)

  -- The migration of the legacy file.
  unfoldable pub from_legacy : M (Option (Str × Profile))
  from_legacy = do r ← try (migrate_legacy_bundle env m now file); load_migrated r

  abbrev or_legacy : Str → Result Profile → M (Option (Str × Profile))
  or_legacy slug (ok p) = return (some (slug, p))
  or_legacy slug (err e) = from_legacy

  -- The active profile, or else the migrated one.
  unfoldable pub find_persisted : M (Option (Str × Profile))
  find_persisted = do
    active ← active_or_empty
    if same active [] then from_legacy else (do r ← try (load env active); or_legacy active r)

abbrev pub adopted : Host → Bool → Disk × Result (Option (Str × Profile)) → Session → Session
adopted host explicit (disk, err e) d = record d { disk = disk }
adopted host explicit (disk, ok none) d = record d { disk = disk }
adopted host explicit (disk, ok (some (slug, p))) d =
    adopt_profile host explicit slug p (record d { disk = disk })

unfoldable pub load_persisted_bundle : Host → Bool → LegacyFile → ℕ → Session → Session
load_persisted_bundle host explicit file now d =
    adopted host explicit (find_persisted host.store d.current_mode file now d.disk) d

abbrev pub listed : Disk × Result (List Info) → Session → Session × Replied ListProfilesReply
listed (disk, err e) d = (record d { disk = disk }, failed (store_error e))
listed (disk, ok is) d =
    (record d { disk = disk }, replied (record { profiles = map to_ipc_profile_info is }))

unfoldable pub list_profiles : Host → Session → Session × Replied ListProfilesReply
list_profiles host d = listed (list host.store d.disk) d

abbrev pub with_info :
    Str → Disk × Result (Result Info) → Session → Session × Replied SetActiveProfileReply
with_info previous (disk, err e) d = (record d { disk = disk }, failed (store_error e))
with_info previous (disk, ok (err e)) d = (record d { disk = disk }, failed (store_error e))
with_info previous (disk, ok (ok i)) d = (
  record d { disk = disk },
  replied (record {
    previous_active = previous;
    active = record (to_ipc_profile_info i) { active = true };
  }),
)

abbrev pub reported : Host → Str → Str → Outcome → Session × Replied SetActiveProfileReply
reported host previous slug (d, some e) = (d, failed e)
reported host previous slug (d, none) =
    with_info previous (profile_info_by_slug host.store slug d.disk) d

-- `SetActiveProfile`.
unfoldable pub activate_profile : Host → Str → Session → Session × Replied SetActiveProfileReply
activate_profile host slug d =
    if same slug []
    then (d, failed slug_required)
    else reported host d.current_slug slug (set_active_profile host slug d)

abbrev pub no_profile : ProfileInfo
no_profile = record {
  name = [];
  slug = [];
  mode = [];
  device_id = [];
  site = [];
  expires_at = 0;
  created_at = 0;
  updated_at = 0;
  active = false;
}

abbrev pub active_or_none : Result Info → ProfileInfo
active_or_none (err e) = no_profile
active_or_none (ok i) = record (to_ipc_profile_info i) { active = true }

abbrev pub has_any : List Info → Bool
has_any [] = false
has_any (i ∷ is) = true

abbrev pub active_of :
    Str → Disk × Result (List Info) → Session → Session × Replied GetActiveProfileReply
active_of slug (disk, err e) d = (record d { disk = disk }, failed (store_error e))
active_of slug (disk, ok is) d = (
  record d { disk = disk },
  replied (record {
    active = if same slug [] then no_profile else active_or_none (find_info slug is);
    has_any = has_any is;
  }),
)

unfoldable pub get_active_profile : Host → Session → Session × Replied GetActiveProfileReply
get_active_profile host d = active_of d.current_slug (list host.store d.disk) d

abbrev pub closed_by : Manager × Option TunnelError → Session → Outcome
closed_by (m, none) d = (record d { manager = m }, none)
closed_by (m, some e) d = (record d { manager = m }, some (tunnel_error e))

-- `Shutdown`: the outer leg, the mesh, and the manager for good.
unfoldable pub shutdown : Session → Outcome
shutdown d = let d' = drop_mesh (outer_down d) in closed_by (close d'.manager) d'
