-- ===== src/Profile/Store/Rules.antt =====
-- The rules of `Wp` for the checks and the shared steps of internal/profile/profile.go.
use goat_client.Prelude.{Bool, true, false, Option, none, some, List, Str, same, ◌≡◌, refl}
use goat_client.Bundle.{EnrollmentBundle, Check}
use goat_client.Prelude.Assoc.{lookup}
use goat_client.Profile.Slug.{Named}
use goat_client.Profile.Disk.{Meta, Disk, StoreError, Result, ok, err}
use goat_client.Profile.Hoare.{
  Post, Wp, bind, returns, throws, tries, facing, reads_meta, reads_bundle,
}
use goat_client.Profile.Store.{
  Env, Info, summarise, guard, check, named, parsed, refuse_existing, previous,
}

-- No other slug's files have changed.
abbrev pub OthersKept : Str → Disk → Disk → Type 0
OthersKept s d d' =
    (k : Str)
    → same s k ≡ false
    → (lookup k d'.metas ≡ lookup k d.metas) × (lookup k d'.bundles ≡ lookup k d.bundles)

-- No file has changed, and at most the two files of this slug have.
abbrev pub Unchanged : Disk → Disk → Type 0
Unchanged d d' = (d'.metas ≡ d.metas) × ((d'.bundles ≡ d.bundles) × (d'.active ≡ d.active))

abbrev pub OnlyOf : Str → Disk → Disk → Type 0
OnlyOf s d d' = OthersKept s d d' × (d'.active ≡ d.active)

-- A summary only reads.
pub summarises :
    {Q : Post Info} (env : Env) (d : Disk) (s : Str)
    → ((r : Result Info) (fs : List Bool) → Q r (facing fs d))
    → Wp (summarise env s) Q d
unfolding summarise
summarises env d s k = bind _ _ (
    reads_meta s (λ e fs. k (err e) fs)
      (λ m fs e. bind _ _ (
        tries _
          (reads_bundle s (λ e' fs'. returns _ (k _ fs')) (λ b fs' e'. returns _ (k _ fs'))))))

module _ {Q : Post (Unit {0})} {d : Disk} where
  pub guards :
      (b : Bool) (e : StoreError)
      → ((x : StoreError) → Q (err x) d)
      → (b ≡ true → Q (ok tt) d)
      → Wp (guard b e) Q d
  guards true e h k = returns _ (k refl)
  guards false e h k = throws _ (h e)

  pub passes :
      (c : Check) → ((x : StoreError) → Q (err x) d) → (c ≡ none → Q (ok tt) d) → Wp (check c) Q d
  passes none h k = returns _ (k refl)
  passes (some e) h k = throws _ (h _)

  pub refuses :
      (b : Bool) (s : Str)
      → ((x : StoreError) (fs : List Bool) → Q (err x) (facing fs d))
      → ((fs : List Bool) → Q (ok tt) (facing fs d))
      → Wp (refuse_existing b s) Q d
  refuses true s h k = returns _ (k d.faults)
  refuses false s h k =
      bind _ _ (tries _ (reads_meta s (λ _ fs. returns _ (k fs)) (λ _ fs _. throws _ (h _ fs))))

pub names :
    {Q : Post Str} {d : Disk} (n : Named)
    → ((x : StoreError) → Q (err x) d)
    → ((s : Str) → n ≡ Named.slug s → Q (ok s) d)
    → Wp (named n) Q d
names (Named.slug s) h k = returns _ (k s refl)
names (Named.invalid_name e) h k = throws _ (h _)

pub parses :
    {Q : Post EnrollmentBundle} {d : Disk} (o : Option EnrollmentBundle)
    → ((x : StoreError) → Q (err x) d)
    → ((b : EnrollmentBundle) → o ≡ some b → Q (ok b) d)
    → Wp (parsed o) Q d
parses none h k = throws _ (h _)
parses (some b) h k = returns _ (k b refl)

pub recalls :
    {Q : Post (Result Meta)} {d : Disk} (b : Bool) (s : Str)
    → ((r : Result Meta) (fs : List Bool) → Q (ok r) (facing fs d))
    → Wp (previous b s) Q d
recalls {d = d} true s k = tries _ (reads_meta s (λ e fs. k (err e) fs) (λ m fs _. k (ok m) fs))
recalls {d = d} false s k = returns _ (k _ d.faults)
