-- ===== src/Profile/Hoare.antt =====
-- Reasoning about the methods of the store on every schedule of faults: `Wp m Q d` says that `Q`
-- holds of what `m` returns and leaves behind when it starts on `d`.
use goat_client.Prelude.{
  ℕ, zero, suc, Bool, true, false, Option, none, some, List, [], ◌∷◌, Str, if◌then◌else◌, ◌≡◌, refl,
  subst,
}
use goat_client.Prelude.Assoc.{lookup, insert, delete}
use goat_client.Profile.Disk.{
  Meta, File, holds, garbled, Disk, StoreError, io_error, not_found, parse_meta, Result, ok, err, M,
  ◌>>=◌, ◌>>◌, return, throw, try, pass, attempt, attempt_on, of_file, of_bytes, read_meta,
  read_bundle, read_active_marker, active_or_empty, write_meta, write_bundle, write_active,
  remove_meta, remove_bundle,
}

abbrev pub Post : Type 0 → Type 1
Post A = Result A → Disk → Type 0

pub record Wp {A : Type 0} (m : M A) (Q : Post A) (d : Disk) : Type 0 where
  pub run : Q ((m d).1) ((m d).0)

pub outcome : {A : Type 0} (m : M A) (Q : Post A) (d : Disk) → Wp m Q d → Q ((m d).1) ((m d).0)
outcome m Q d h = h.run

abbrev pub Then : {A B : Type 0} → (A → M B) → Post B → Post A
Then f Q (ok a) d = Wp (f a) Q d
Then f Q (err e) d = Q (err e) d

pass_lem :
    {A B : Type 0} (Q : Post B) (f : A → M B) (d : Disk) (r : Result A)
    → Then f Q r d
    → Q ((pass d r f).1) ((pass d r f).0)
unfolding pass
pass_lem Q f d (ok a) h = h.run
pass_lem Q f d (err e) h = h

module _ {A B : Type 0} {Q : Post B} {d : Disk} where
  pub bind : (m : M A) (f : A → M B) → Wp m (Then f Q) d → Wp (m >>= f) Q d
  unfolding ◌>>=◌
  bind m f h = record { run = pass_lem Q f ((m d).0) ((m d).1) (h.run) }

pub follows :
    {A : Type 0} {P Q : Post A} {d : Disk} {m : M A}
    → Wp m P d
    → ((r : Result A) (d' : Disk) → P r d' → Q r d')
    → Wp m Q d
follows {d = d} {m = m} h k = record { run = k ((m d).1) ((m d).0) (h.run) }

module _ {B : Type 0} {Q : Post B} {d : Disk} where
  pub and_then : (m : M (Unit {0})) (k : M B) → Wp m (Then (λ _. k) Q) d → Wp (m >> k) Q d
  unfolding ◌>>◌
  and_then m k h = bind m (λ _. k) h

  pub returns : (a : B) → Q (ok a) d → Wp (return a) Q d
  unfolding return
  returns a h = record { run = h }

  pub throws : (e : StoreError) → Q (err e) d → Wp (throw e) Q d
  unfolding throw
  throws e h = record { run = h }

  pub goes_on : (b : Bool) (m n : M B) → Wp m Q d → Wp n Q d → Wp (if b then m else n) Q d
  goes_on true m n h k = h
  goes_on false m n h k = k

-- The outcome of `m` as seen behind a `try`.
abbrev pub Tried : {A : Type 0} → Post (Result A) → Post A
Tried Q r d = Q (ok r) d

module _ {A : Type 0} {Q : Post (Result A)} {d : Disk} where
  pub tries : (m : M A) → Wp m (Tried Q) d → Wp (try m) Q d
  unfolding try
  tries m h = record { run = h.run }

-- The disk with another schedule of faults to come.
abbrev pub facing : List Bool → Disk → Disk
facing fs d = record d { faults = fs }

abbrev Fails : Post (Unit {0}) → Disk → Type 0
Fails Q d = (fs : List Bool) → Q (err io_error) (facing fs d)

attempt_cases :
    (Q : Post (Unit {0})) (d : Disk) (n : ℕ) (fs : List Bool)
    → Fails Q d
    → ((gs : List Bool) → Q (ok tt) (facing gs d))
    → Q (if (attempt_on n fs).0 then ok tt else err io_error) (facing ((attempt_on n fs).1) d)
unfolding attempt_on
attempt_cases Q d zero fs h k = k fs
attempt_cases Q d (suc n) [] h k = k []
attempt_cases Q d (suc n) (true ∷ fs) h k = h fs
attempt_cases Q d (suc n) (false ∷ fs) h k = attempt_cases Q d n fs h k

module _ {Q : Post (Unit {0})} {d : Disk} where
  pub attempts :
      (n : ℕ) → Fails Q d → ((fs : List Bool) → Q (ok tt) (facing fs d)) → Wp (attempt n) Q d
  unfolding attempt
  attempts n h k = record { run = attempt_cases Q d n (d.faults) h k }

module _ {Q : Post (Unit {0})} {d : Disk} where
  pub writes_meta :
      (s : Str) (m : Meta)
      → Fails Q d
      → ((fs : List Bool)
          → Q (ok tt) (record d { faults = fs; metas = insert s (holds m) d.metas }))
      → Wp (write_meta s m) Q d
  unfolding write_meta
  writes_meta s m h k = and_then _ _ (attempts 8 h (λ fs. record { run = k fs }))

  pub writes_bundle :
      (s bytes : Str)
      → Fails Q d
      → ((fs : List Bool)
          → Q (ok tt) (record d { faults = fs; bundles = insert s bytes d.bundles }))
      → Wp (write_bundle s bytes) Q d
  unfolding write_bundle
  writes_bundle s bytes h k = and_then _ _ (attempts 7 h (λ fs. record { run = k fs }))

  pub writes_active :
      (s : Str)
      → Fails Q d
      → ((fs : List Bool) → Q (ok tt) (record d { faults = fs; active = some (holds s) }))
      → Wp (write_active s) Q d
  unfolding write_active
  writes_active s h k = and_then _ _ (attempts 8 h (λ fs. record { run = k fs }))

  pub removes_meta :
      (s : Str)
      → Fails Q d
      → ((fs : List Bool) → Q (ok tt) (record d { faults = fs; metas = delete s d.metas }))
      → Wp (remove_meta s) Q d
  unfolding remove_meta
  removes_meta s h k = and_then _ _ (attempts 1 h (λ fs. record { run = k fs }))

  pub removes_bundle :
      (s : Str)
      → Fails Q d
      → ((fs : List Bool) → Q (ok tt) (record d { faults = fs; bundles = delete s d.bundles }))
      → Wp (remove_bundle s) Q d
  unfolding remove_bundle
  removes_bundle s h k = and_then _ _ (attempts 1 h (λ fs. record { run = k fs }))

-- What a read leaves: the disk, with the operation's fault spent.
pub reads_meta :
    {Q : Post Meta} {d : Disk} (s : Str)
    → ((e : StoreError) (fs : List Bool) → Q (err e) (facing fs d))
    → ((m : Meta) (fs : List Bool) → lookup s d.metas ≡ some (holds m) → Q (ok m) (facing fs d))
    → Wp (read_meta s) Q d
unfolding read_meta
reads_meta {Q} {d} s h k =
    and_then _ _ (attempts 1 (h io_error) (λ fs. record { run = read fs (lookup s d.metas) refl }))
  where
    read :
        (fs : List Bool) (o : Option (File Meta))
        → lookup s d.metas ≡ o
        → Q (of_file o) (facing fs d)
    read fs none e = h not_found fs
    read fs (some garbled) e = h parse_meta fs
    read fs (some (holds m)) e = k m fs e

pub reads_bundle :
    {Q : Post Str} {d : Disk} (s : Str)
    → ((e : StoreError) (fs : List Bool) → Q (err e) (facing fs d))
    → ((b : Str) (fs : List Bool) → lookup s d.bundles ≡ some b → Q (ok b) (facing fs d))
    → Wp (read_bundle s) Q d
unfolding read_bundle
reads_bundle {Q} {d} s h k =
    and_then _ _
      (attempts 1 (h io_error) (λ fs. record { run = read fs (lookup s d.bundles) refl }))
  where
    read : (fs : List Bool) (o : Option Str) → lookup s d.bundles ≡ o → Q (of_bytes o) (facing fs d)
    read fs none e = h not_found fs
    read fs (some b) e = k b fs e

pub reads_active :
    {Q : Post Str} {d : Disk}
    → ((s : Str) (fs : List Bool) → Q (ok s) (facing fs d))
    → Wp active_or_empty Q d
unfolding active_or_empty read_active_marker
reads_active {Q} {d} k = bind _ _ (
    tries _ (
      and_then _ _
        (attempts 1 (λ fs. returns _ (k _ fs)) (λ fs. record { run = returns _ (k _ fs) }))))

pub reads_known_bundle :
    {Q : Post Str} {d : Disk} (s b : Str)
    → lookup s d.bundles ≡ some b
    → ((e : StoreError) (fs : List Bool) → Q (err e) (facing fs d))
    → ((fs : List Bool) → Q (ok b) (facing fs d))
    → Wp (read_bundle s) Q d
reads_known_bundle {Q} {d} s b e h k = reads_bundle s h (λ b' fs e'.
    let same_bytes : b ≡ b' = cc in subst (λ x. Q (ok x) (facing fs d)) same_bytes (k fs))
