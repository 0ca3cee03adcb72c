-- ===== src/Profile/Disk.antt =====
-- internal/profile/profile.go, the file helpers. The directory `profiles/` is two maps from slugs,
-- one of parsed `.meta.json` files and one of `.cbor` bytes; `active.json` stands beside it. A JSON
-- file is the value that it encodes, or `garbled` where it does not parse. `faults` says of each
-- coming file operation whether it fails, and where the list ends none does.
use goat_client.Prelude.{
  ℕ, zero, suc, Bool, true, false, Option, none, some, List, [], ◌∷◌, Str, if◌then◌else◌,
}
use goat_client.Prelude.Assoc.{lookup, insert, delete}
use goat_client.Bundle.{BundleError}
use goat_client.Mode.{Mode}
use goat_client.Profile.Slug.{NameError}

pub record Meta : Type 0 where
  pub name : Str
  pub mode : Mode
  pub created_at : ℕ
  pub updated_at : ℕ
  pub rosenpass_enabled : Option Bool
  pub rosenpass_permissive : Option Bool

pub data File (A : Type 0) : Type 0 where
  holds : A → File A
  garbled : File A

pub record Disk : Type 0 where
  pub metas : List (Str × File Meta)
  pub bundles : List (Str × Str)
  pub active : Option (File Str)
  pub faults : List Bool

pub data StoreError : Type 0 where
  not_found already_exists invalid_mode empty_bundle parse_bundle parse_meta parse_active io_error :
      StoreError
  invalid_name : NameError → StoreError
  bundle_error : BundleError → StoreError

pub data Result (A : Type 0) : Type 0 where
  ok : A → Result A
  err : StoreError → Result A

-- A method of the store: what it leaves on disk, and what it returns.
abbrev pub M : Type 0 → Type 0
M A = Disk → Disk × Result A

unfoldable pub pass : {A B : Type 0} → Disk → Result A → (A → M B) → Disk × Result B
pass d (ok a) f = f a d
pass d (err e) f = (d, err e)

infixl 5 ◌>>=◌ ◌>>◌
unfoldable pub ◌>>=◌ : {A B : Type 0} → M A → (A → M B) → M B
unfolding pass
◌>>=◌ m f d = let (d', r) = m d in pass d' r f

unfoldable pub ◌>>◌ : {B : Type 0} → M (Unit {0}) → M B → M B
unfolding ◌>>=◌
m >> k = m >>= λ _. k

unfoldable pub return : {A : Type 0} → A → M A
return a d = (d, ok a)

unfoldable pub throw : {A : Type 0} → StoreError → M A
throw e d = (d, err e)

-- The outcome, with no early return: `if _, err := m(); err == nil`.
unfoldable pub try : {A : Type 0} → M A → M (Result A)
try m d = let (d', r) = m d in (d', ok r)

-- `n` file operations in a row, up to the first that fails.
unfoldable pub attempt_on : ℕ → List Bool → Bool × List Bool
attempt_on zero fs = (true, fs)
attempt_on (suc n) [] = (true, [])
attempt_on (suc n) (true ∷ fs) = (false, fs)
attempt_on (suc n) (false ∷ fs) = attempt_on n fs

unfoldable pub attempt : ℕ → M (Unit {0})
unfolding attempt_on
attempt n d =
    let (fine, fs) = attempt_on n d.faults in
    (record d { faults = fs }, if fine then ok tt else err io_error)

abbrev pub of_file : Option (File Meta) → Result Meta
of_file none = err not_found
of_file (some garbled) = err parse_meta
of_file (some (holds m)) = ok m

unfoldable pub read_meta : Str → M Meta
read_meta slug = do attempt 1; λ d. (d, of_file (lookup slug d.metas))

abbrev pub of_active : Option (File Str) → Result Str
of_active none = ok []
of_active (some garbled) = err parse_active
of_active (some (holds s)) = ok s

unfoldable pub read_active_marker : M Str
read_active_marker = do attempt 1; λ d. (d, of_active d.active)

-- `active, _ := s.readActiveMarker()`: the empty text after an error.
abbrev pub or_empty : Result Str → Str
or_empty (ok s) = s
or_empty (err e) = []

unfoldable pub active_or_empty : M Str
active_or_empty = do r ← try read_active_marker; return (or_empty r)

abbrev pub of_bytes : Option Str → Result Str
of_bytes none = err not_found
of_bytes (some b) = ok b

unfoldable pub read_bundle : Str → M Str
read_bundle slug = do attempt 1; λ d. (d, of_bytes (lookup slug d.bundles))

-- `writeAtomic`: create, write, sync, close, chmod and rename. The file changes at the last step
-- or not at all, and a temporary file is left by none.
abbrev pub write_atomic_steps : ℕ
write_atomic_steps = 6

-- Behind `MkdirAll` and the encoding.
unfoldable pub write_meta : Str → Meta → M (Unit {0})
write_meta slug m = do
  attempt (suc (suc write_atomic_steps))
  λ d. (record d { metas = insert slug (holds m) d.metas }, ok tt)

unfoldable pub write_bundle : Str → Str → M (Unit {0})
write_bundle slug bytes = do
  attempt (suc write_atomic_steps)
  λ d. (record d { bundles = insert slug bytes d.bundles }, ok tt)

unfoldable pub write_active : Str → M (Unit {0})
write_active slug = do
  attempt (suc (suc write_atomic_steps))
  λ d. (record d { active = some (holds slug) }, ok tt)

-- `os.Remove` with a missing file let pass.
unfoldable pub remove_meta : Str → M (Unit {0})
remove_meta slug = do attempt 1; λ d. (record d { metas = delete slug d.metas }, ok tt)

unfoldable pub remove_bundle : Str → M (Unit {0})
remove_bundle slug = do attempt 1; λ d. (record d { bundles = delete slug d.bundles }, ok tt)
