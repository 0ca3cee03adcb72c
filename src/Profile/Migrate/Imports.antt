-- ===== src/Profile/Migrate/Imports.antt =====
-- internal/profile/migrate.go, `MigrateLegacyBundle`: what becomes of the profiles.
use goat_client.Prelude.{
  ℕ, Bool, false, some, List, [], ◌∷◌, Str, codes, ◌≡◌, refl, ◌∙◌, ◌⊎◌, inl, inr, ap,
}
use goat_client.Prelude.Assoc.{lookup}
use goat_client.Bundle.{EnrollmentBundle, unmarshal}
use goat_client.Mode.{Mode}
use goat_client.Profile.Disk.{Meta, File, holds, Disk, Result, ok, err, ◌>>=◌, return, try}
use goat_client.Profile.Hoare.{
  Post, Wp, Then, bind, and_then, returns, throws, tries, follows, facing, attempts, reads_active,
}
use goat_client.Profile.Store.{
  Env, Info, AddRequest, list, summarise_all, skip_malformed, sort_by_name, set_active,
}
use goat_client.Profile.Store.Rules.{OthersKept, Unchanged, summarises, parses}
use goat_client.Profile.Store.Add.{Verified, Installed, AddSpec, add-AddSpec}
use goat_client.Profile.Store.Edits.{SetActiveSpec, set_active-SetActiveSpec}
use goat_client.Profile.Migrate.{
  LegacyFile, absent, unreadable, bytes, Migrated, not_needed, migrated, inactive, activated,
  mode_or_default, import_legacy, import_unless, migrate_legacy_bundle,
}

module _ (Q : Post (List Info)) (d : Disk) where
  abbrev pub OfReads : Type 0
  OfReads = (r : Result (List Info)) (fs : List Bool) → Q r (facing fs d)

module _ (env : Env) where
  summarises_all :
      (d : Disk) (active : Str) (ms : List (Str × File Meta)) (gs : List Bool)
      (Q : Post (List Info))
      → OfReads Q d
      → Wp (summarise_all env active ms) Q (facing gs d)
  unfolding summarise_all
  summarises_all d active [] gs Q k = returns _ (k _ gs)
  summarises_all d active ((s, f) ∷ ms) gs Q k = bind _ _ (
      tries _ (
        summarises env (facing gs d) s
          (λ r fs. bind _ _ (summarises_all d active ms fs _ (λ r' fs'. gathered r r' fs')))))
    where
      gathered :
          (r : Result Info) (r' : Result (List Info)) (fs : List Bool)
          → Then (λ is. return (skip_malformed active s r is)) Q r' (facing fs d)
      gathered r (ok is) fs = returns _ (k _ fs)
      gathered r (err e) fs = k _ fs

  -- A listing only reads.
  pub lists : {Q : Post (List Info)} {d : Disk} → OfReads Q d → Wp (list env) Q d
  unfolding list
  lists {Q} {d} k = and_then _ _ (
      attempts 1 (λ fs. k _ fs)
        (λ fs. bind _ _ (
          reads_active (λ a gs. bind _ _ (record {
            run =
                (summarises_all d a d.metas gs (Then (λ is. return (sort_by_name is)) Q)
                  sorted).run;
          })))))
    where
      sorted : OfReads (Then (λ is. return (sort_by_name is)) Q) d
      sorted (ok is) fs = returns _ (k _ fs)
      sorted (err e) fs = k _ fs

module _ (env : Env) (initial : Mode) (now : ℕ) where
  abbrev pub request_of : Str → AddRequest
  request_of raw = record {
    name = codes "default";
    mode = mode_or_default initial;
    bundle_bytes = raw;
    replace = false;
  }

  -- The legacy file passed every check of `Add` for this slug; it was stored there, and no other
  -- profile has changed.
  abbrev Passed : LegacyFile → Disk → Disk → Str → Type 0
  Passed file d d' s =
      (raw : Str) × ((file ≡ bytes raw)
        × ((b : EnrollmentBundle) × (Verified env (request_of raw) s b × OthersKept s d d')))

  abbrev Imported : LegacyFile → Disk → Disk → Str → Type 0
  Imported file d d' s =
      (raw : Str) × ((file ≡ bytes raw)
        × ((b : EnrollmentBundle) × (Verified env (request_of raw) s b
              × (OthersKept s d d' × Installed env (request_of raw) s d'))))

  abbrev pub MigrateSpec : LegacyFile → Disk → Post Migrated
  MigrateSpec file d (ok not_needed) d' = Unchanged d d'
  MigrateSpec file d (ok (migrated s)) d' = Imported file d d' s × (d'.active ≡ some (holds s))
  MigrateSpec file d (ok (inactive s e)) d' = Imported file d d' s × (d'.active ≡ d.active)
  MigrateSpec file d (err e) d' =
      Unchanged d d' ⊎ ((s : Str) × (Passed file d d' s × (d'.active ≡ d.active)))

  module _ (d : Disk) (raw : Str) where
    activates :
        (i : Info) (d₁ : Disk)
        → AddSpec env (request_of raw) d (ok i) d₁
        → Wp
            (do r ← try (set_active i.slug); return (activated i.slug r))
            (MigrateSpec (bytes raw) d)
            d₁
    activates i d₁ (b, (v, ((o, a), (hb, (m, (hm, hs)))))) =
        bind _ _ (tries _ (follows (record { run = set_active-SetActiveSpec i.slug d₁ }) act))
      where
        since :
            (d₂ : Disk)
            → d₂.metas ≡ d₁.metas
            → d₂.bundles ≡ d₁.bundles
            → Imported (bytes raw) d d₂ i.slug
        since d₂ em eb = (
          raw,
          (
            refl,
            (
              b,
              (
                v,
                (
                  (λ k e. let (h1, h2) = o k e in (ap (lookup k) em ∙ h1, ap (lookup k) eb ∙ h2)),
                  (ap (lookup i.slug) eb ∙ hb, (m, (ap (lookup i.slug) em ∙ hm, hs))),
                ),
              ),
            ),
          ),
        )

        act :
            (r : Result Str) (d₂ : Disk)
            → SetActiveSpec i.slug d₁ r d₂
            → Then (λ r'. return (activated i.slug r')) (MigrateSpec (bytes raw) d) (ok r) d₂
        act (err e) d₂ (em, (eb, ea)) = returns _ (since d₂ em eb, ea ∙ a)
        act (ok p) d₂ (em, (eb, (ea, h))) = returns _ (since d₂ em eb, ea)

    added :
        (r : Result Info) (d₁ : Disk)
        → AddSpec env (request_of raw) d r d₁
        → Then
            (λ i. do r' ← try (set_active i.slug); return (activated i.slug r'))
            (MigrateSpec (bytes raw) d)
            r
            d₁
    added (ok i) d₁ h = activates i d₁ h
    added (err e) d₁ (inl u) = inl u
    added (err e) d₁ (inr (s, (b, (v, (o, a))))) = inr (s, ((raw, (refl, (b, (v, o)))), a))

  imports :
      (file : LegacyFile) (d : Disk)
      → Wp (import_legacy env initial now file) (MigrateSpec file d) d
  unfolding import_legacy
  imports absent d = returns _ (refl, (refl, refl))
  imports unreadable d = throws _ (inl (refl, (refl, refl)))
  imports (bytes raw) d = bind _ _ (
      parses (unmarshal env.codec raw) (λ _. inl (refl, (refl, refl)))
        (λ b e.
          bind _ _
            (follows (record { run = add-AddSpec env (request_of raw) now d }) (added d raw))))

  -- On every schedule of file faults: a migration that returns a slug had a legacy file that passed
  -- every check of `Add`, a signature by a pinned root among them; its bytes stand under that slug
  -- with the mode asked for, or the default mode where that is not valid, and no other profile has
  -- changed. The slug is active, unless `SetActive` failed: then its error is returned with the slug,
  -- and the marker is as it was. A migration that is not needed changes no profile and no marker; one
  -- that fails without a slug leaves the marker and changes at most the profile of one slug, and only
  -- for a file that passed the checks.
  pub migrate_legacy_bundle-MigrateSpec :
      (file : LegacyFile) (d : Disk)
      → MigrateSpec file d
          ((migrate_legacy_bundle env initial now file d).1)
          ((migrate_legacy_bundle env initial now file d).0)
  unfolding migrate_legacy_bundle
  migrate_legacy_bundle-MigrateSpec file d = (bind _ _ (lists env listed)).run
    where
      same_start :
          (fs : List Bool) (r : Result Migrated) (d' : Disk)
          → MigrateSpec file (facing fs d) r d'
          → MigrateSpec file d r d'
      same_start fs (ok not_needed) d' h = h
      same_start fs (ok (migrated s)) d' h = h
      same_start fs (ok (inactive s e)) d' h = h
      same_start fs (err e) d' h = h

      listed :
          (r : Result (List Info)) (fs : List Bool)
          → Then
              (λ existing. import_unless env initial now existing file)
              (MigrateSpec file d)
              r
              (facing fs d)
      listed (err e) fs = inl (refl, (refl, refl))
      listed (ok (i ∷ is)) fs = returns _ (refl, (refl, refl))
      listed (ok []) fs = follows (imports file (facing fs d)) (same_start fs)
