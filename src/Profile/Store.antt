-- ===== src/Profile/Store.antt =====
-- internal/profile/profile.go: the methods of `Store`. A method that takes the lock is one step.
pub mod Rules
pub mod Rename
pub mod Add
pub mod Edits
use goat_client.Prelude.{
  ℕ, Bool, true, false, Option, none, some, List, [], ◌∷◌, Str, same, if◌then◌else◌, ltb, ◌==◌, not,
}
use goat_client.Bundle.{
  Codec, EnrollmentBundle, Check, no_trust_roots, unmarshal, check_cp_device_keypair,
}
use goat_client.Bundle.Trust.{TrustRoots, no_roots, verify_bundle}
use goat_client.Mode.{Mode, valid}
use goat_client.Text.{trim_space}
use goat_client.Profile.Slug.{Named, validate_name}
use goat_client.Profile.Disk.{
  Meta, File, StoreError, not_found, already_exists, invalid_mode, empty_bundle, parse_bundle,
  invalid_name, bundle_error, Result, ok, err, M, ◌>>=◌, ◌>>◌, return, throw, try, read_meta,
  attempt, active_or_empty, read_bundle, write_meta, write_bundle, write_active, remove_meta,
  remove_bundle,
}

-- What is given to the store: the bundle codec, the pinned roots and the lower case of the language.
pub record Env : Type 0 where
  pub codec : Codec
  pub roots : TrustRoots
  pub fold : ℕ → ℕ

pub record Profile : Type 0 where
  pub name : Str
  pub mode : Mode
  pub bundle : EnrollmentBundle
  pub created_at : ℕ
  pub updated_at : ℕ
  pub rosenpass_enabled : Option Bool
  pub rosenpass_permissive : Option Bool

-- The bundle's fields are `none` where it could not be read.
pub record Info : Type 0 where
  pub name : Str
  pub slug : Str
  pub mode : Mode
  pub device_id : Str
  pub site : Str
  pub expires_at : ℕ
  pub created_at : ℕ
  pub updated_at : ℕ
  pub active : Bool

pub record AddRequest : Type 0 where
  pub name : Str
  pub mode : Mode
  pub bundle_bytes : Str
  pub replace : Bool

abbrev pub info_of : Str → Meta → Info
info_of s m = record {
  name = m.name;
  slug = s;
  mode = m.mode;
  device_id = [];
  site = [];
  expires_at = 0;
  created_at = m.created_at;
  updated_at = m.updated_at;
  active = false;
}

abbrev pub with_bundle : Info → EnrollmentBundle → Info
with_bundle i b = record i { device_id = b.device_id; site = b.site; expires_at = b.expires_at }

-- Lifts a check of the bundle package.
abbrev pub check : Check → M (Unit {0})
check none = return tt
check (some e) = throw (bundle_error e)

abbrev pub guard : Bool → StoreError → M (Unit {0})
guard true e = return tt
guard false e = throw e

abbrev pub named : Named → M Str
named (Named.slug s) = return s
named (Named.invalid_name e) = throw (invalid_name e)

abbrev pub parsed : Option EnrollmentBundle → M EnrollmentBundle
parsed none = throw parse_bundle
parsed (some b) = return b

abbrev pub succeeded : {A : Type 0} → Result A → Bool
succeeded (ok a) = true
succeeded (err e) = false

-- `strings`' order on text.
unfoldable pub before : Str → Str → Bool
before s [] = false
before [] (b ∷ t) = true
before (a ∷ s) (b ∷ t) = if a == b then before s t else ltb a b

unfoldable pub insert_by_name : Info → List Info → List Info
insert_by_name i [] = i ∷ []
insert_by_name i (j ∷ is) =
    let rest = insert_by_name i is in if before j.name i.name then j ∷ rest else i ∷ j ∷ is

unfoldable pub sort_by_name : List Info → List Info
unfolding insert_by_name
sort_by_name [] = []
sort_by_name (i ∷ is) = insert_by_name i (sort_by_name is)

abbrev pub skip_malformed : Str → Str → Result Info → List Info → List Info
skip_malformed active s (err e) is = is
skip_malformed active s (ok i) is = record i { active = same s active } ∷ is

abbrev kept_created : Bool → ℕ → Result Meta → ℕ
kept_created true now (ok prev) = prev.created_at
kept_created _ now _ = now

-- `if !req.Replace { if _, err := s.readMeta(slug); err == nil { return ErrAlreadyExists } }`.
abbrev refuse_existing : Bool → Str → M (Unit {0})
refuse_existing true s = return tt
refuse_existing false s = do r ← try (read_meta s); guard (not (succeeded r)) already_exists

abbrev previous : Bool → Str → M (Result Meta)
previous true s = try (read_meta s)
previous false s = return (err not_found)

abbrev undo_unless_written : Str → Result (Unit {0}) → M (Unit {0})
undo_unless_written s (ok _) = return tt
undo_unless_written s (err e) = do r ← try (remove_bundle s); throw e

-- The meta write with its best-effort rollback.
unfoldable pub write_meta_or_roll_back : Str → Meta → M (Unit {0})
write_meta_or_roll_back s m = do r ← try (write_meta s m); undo_unless_written s r

unfoldable pub remove : Str → M (Unit {0})
remove s = do
  m ← read_meta s
  active ← active_or_empty
  remove_meta s
  remove_bundle s
  if same s active then write_active [] else return tt

-- An empty slug clears the marker.
unfoldable pub set_active : Str → M Str
set_active s = do
  if same s [] then return tt else (do m ← read_meta s; return tt)
  previous ← active_or_empty
  write_active s
  return previous

unfoldable pub update_mode : Str → Mode → ℕ → M (Unit {0})
update_mode s m now = do
  guard (valid m) invalid_mode
  cur ← read_meta s
  write_meta s (record cur { mode = m; updated_at = now })

unfoldable pub update_rosenpass : Str → Option Bool → Option Bool → ℕ → M (Unit {0})
update_rosenpass s enabled permissive now = do
  cur ← read_meta s
  write_meta s (record cur {
    rosenpass_enabled = enabled;
    rosenpass_permissive = permissive;
    updated_at = now;
  })

-- The two writes that `Add` and `Rename` end in.
unfoldable pub install : Str → Str → Meta → M (Unit {0})
install s bytes m = do write_bundle s bytes; write_meta_or_roll_back s m

-- What `Rename` does once the new files are in place.
unfoldable pub retire : Str → Str → M (Unit {0})
retire old new = do
  r₁ ← try (remove_bundle old)
  r₂ ← try (remove_meta old)
  active ← active_or_empty
  if same active old then write_active new else return tt

abbrev pub report : Str → Meta → EnrollmentBundle → M Info
report s m b = do
  active ← active_or_empty
  return (record (with_bundle (info_of s m) b) { active = same s active })

-- `Add` from the lock on.
unfoldable pub add_locked : AddRequest → ℕ → Str → EnrollmentBundle → M Info
add_locked req now s b = do
  refuse_existing req.replace s
  prev ← previous req.replace s
  let m : Meta = record {
    name = trim_space req.name;
    mode = req.mode;
    created_at = kept_created req.replace now prev;
    updated_at = now;
    rosenpass_enabled = none;
    rosenpass_permissive = none;
  }
  install s req.bundle_bytes m
  report s m b

module _ (env : Env) where
  abbrev pub parse : Str → Option EnrollmentBundle
  parse bytes = unmarshal env.codec bytes

  abbrev filled : Info → Option EnrollmentBundle → Info
  filled i none = i
  filled i (some b) = with_bundle i b

  abbrev fill_info : Info → Result Str → Info
  fill_info i (err e) = i
  fill_info i (ok bytes) = filled i (parse bytes)

  unfoldable pub summarise : Str → M Info
  summarise s = do m ← read_meta s; r ← try (read_bundle s); return (fill_info (info_of s m) r)

  unfoldable pub load : Str → M Profile
  load s = do
    m ← read_meta s
    bytes ← read_bundle s
    b ← parsed (parse bytes)
    return (record {
      name = m.name;
      mode = m.mode;
      bundle = b;
      created_at = m.created_at;
      updated_at = m.updated_at;
      rosenpass_enabled = m.rosenpass_enabled;
      rosenpass_permissive = m.rosenpass_permissive;
    })

  unfoldable pub summarise_all : Str → List (Str × File Meta) → M (List Info)
  summarise_all active [] = return []
  summarise_all active ((s, f) ∷ ms) = do
    r ← try (summarise s)
    is ← summarise_all active ms
    return (skip_malformed active s r is)

  -- The directory's entries are the slugs of its meta files.
  unfoldable pub list : M (List Info)
  list = do
    attempt 1
    active ← active_or_empty
    is ← λ d. summarise_all active d.metas d
    return (sort_by_name is)

  -- The checks of `Add` before the lock.
  unfoldable pub check_add : AddRequest → M (Str × EnrollmentBundle)
  check_add req = do
    s ← named (validate_name env.fold req.name)
    guard (valid req.mode) invalid_mode
    guard (not (same req.bundle_bytes [])) empty_bundle
    b ← parsed (parse req.bundle_bytes)
    guard (not (no_roots env.roots)) (bundle_error no_trust_roots)
    check (verify_bundle env.codec env.roots b)
    check (check_cp_device_keypair b)
    return (s, b)

  unfoldable pub add : AddRequest → ℕ → M Info
  add req now = do (s, b) ← check_add req; add_locked req now s b

  -- `rename` to a name with the same slug: only the meta file is edited.
  unfoldable pub rename_in_place : Str → Str → ℕ → M Info
  rename_in_place s new_name now = do
    m ← read_meta s
    write_meta s (record m { name = trim_space new_name; updated_at = now })
    summarise s

  unfoldable pub rename_files : Str → Str → Str → ℕ → M Info
  rename_files old new new_name now = do
    r ← try (read_meta new)
    guard (not (succeeded r)) already_exists
    m ← read_meta old
    bytes ← read_bundle old
    install new bytes (record m { name = trim_space new_name; updated_at = now })
    retire old new
    summarise new

  unfoldable pub rename : Str → Str → ℕ → M Info
  rename old new_name now = do
    new ← named (validate_name env.fold new_name)
    if same new old then rename_in_place old new_name now else rename_files old new new_name now
