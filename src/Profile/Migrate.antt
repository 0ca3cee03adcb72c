-- ===== src/Profile/Migrate.antt =====
-- internal/profile/migrate.go: `Store.MigrateLegacyBundle`. The legacy file is the outcome of its
-- read: bytes, no such file, or another error.
pub mod Imports
use goat_client.Prelude.{ℕ, false, List, [], ◌∷◌, Str, if◌then◌else◌, codes}
use goat_client.Mode.{Mode, valid, default_mode}
use goat_client.Profile.Disk.{StoreError, io_error, Result, ok, err, M, ◌>>=◌, return, throw, try}
use goat_client.Profile.Store.{Env, Info, list, parsed, parse, add, set_active}

-- What `os.ReadFile(legacyPath)` returned.
pub data LegacyFile : Type 0 where
  absent unreadable : LegacyFile
  bytes : Str → LegacyFile

-- What is returned where it is not an error alone: `ok` false, the slug, or the slug with the error
-- of `SetActive`.
pub data Migrated : Type 0 where
  not_needed : Migrated
  migrated : Str → Migrated
  inactive : Str → StoreError → Migrated

abbrev pub activated : Str → Result Str → Migrated
activated slug (ok previous) = migrated slug
activated slug (err e) = inactive slug e

abbrev pub mode_or_default : Mode → Mode
mode_or_default m = if valid m then m else default_mode

module _ (env : Env) (initial : Mode) (now : ℕ) where
  unfoldable pub import_legacy : LegacyFile → M Migrated
  import_legacy absent = return not_needed
  import_legacy unreadable = throw io_error
  import_legacy (bytes raw) = do
    b ← parsed (parse env raw)
    i ←
        add env
          (record {
            name = codes "default";
            mode = mode_or_default initial;
            bundle_bytes = raw;
            replace = false;
          })
          now
    r ← try (set_active i.slug)
    return (activated i.slug r)

  abbrev import_unless : List Info → LegacyFile → M Migrated
  import_unless [] file = import_legacy file
  import_unless (i ∷ is) file = return not_needed

  unfoldable pub migrate_legacy_bundle : LegacyFile → M Migrated
  migrate_legacy_bundle file = do existing ← list env; import_unless existing file
