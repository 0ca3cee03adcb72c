-- ===== src/Profile/Store/Add.antt =====
-- internal/profile/profile.go, `Add`: only verified bundles reach the disk, and only under their
-- own slug.
use goat_client.Prelude.{ℕ, true, not, none, some, [], Str, same, ◌≡◌, refl, ◌∙◌, ◌⊎◌, inl, inr, ap}
use goat_client.Prelude.Assoc.{
  lookup, insert, lookup-insert_ne, lookup-insert_self, lookup-delete_ne,
}
use goat_client.Bundle.{EnrollmentBundle, unmarshal, check_cp_device_keypair}
use goat_client.Bundle.Trust.{verify_bundle, no_roots}
use goat_client.Mode.{valid}
use goat_client.Text.{trim_space}
use goat_client.Profile.Slug.{Named, validate_name}
use goat_client.Profile.Disk.{Meta, holds, Disk, Result, ok, err, ◌>>◌}
use goat_client.Profile.Hoare.{
  Post, Wp, Then, bind, and_then, returns, throws, tries, follows, writes_meta, writes_bundle,
  removes_bundle, reads_active,
}
use goat_client.Profile.Store.Rules.{
  Unchanged, OnlyOf, guards, passes, names, parses, refuses, recalls,
}
use goat_client.Profile.Store.{
  Env, Info, AddRequest, install, write_meta_or_roll_back, check_add, add, add_locked, report,
}

-- What `Add` has checked of a request that it stores under `s`.
pub record Verified (env : Env) (req : AddRequest) (s : Str) (b : EnrollmentBundle) : Type 0 where
  pub slug_of_name : validate_name env.fold req.name ≡ Named.slug s
  pub mode_valid : valid req.mode ≡ true
  pub parses : unmarshal env.codec req.bundle_bytes ≡ some b
  pub signed : verify_bundle env.codec env.roots b ≡ none
  pub paired : check_cp_device_keypair b ≡ none

module _ (env : Env) (req : AddRequest) where
  abbrev Checked : Disk → Post (Str × EnrollmentBundle)
  Checked d (ok (s, b)) d' = Verified env req s b × Unchanged d d'
  Checked d (err e) d' = Unchanged d d'

  checks : (d : Disk) → Wp (check_add env req) (Checked d) d
  unfolding check_add
  checks d = bind _ _ (
      names (validate_name env.fold req.name) (λ _. (refl, (refl, refl)))
        (λ s named. and_then _ _ (
          guards (valid req.mode) _ (λ _. (refl, (refl, refl)))
            (λ v. and_then _ _ (
              guards (not (same req.bundle_bytes [])) _ (λ _. (refl, (refl, refl)))
                (λ _. bind _ _ (
                  parses (unmarshal env.codec req.bundle_bytes) (λ _. (refl, (refl, refl)))
                    (λ b p. and_then _ _ (
                      guards (not (no_roots env.roots)) _ (λ _. (refl, (refl, refl)))
                        (λ _. and_then _ _ (
                          passes (verify_bundle env.codec env.roots b) (λ _. (refl, (refl, refl)))
                            (λ signed. and_then _ _ (
                              passes (check_cp_device_keypair b) (λ _. (refl, (refl, refl)))
                                (λ paired. returns _ (
                                  (record {
                                    slug_of_name = named;
                                    mode_valid = v;
                                    parses = p;
                                    signed = signed;
                                    paired = paired;
                                  }),
                                  (refl, (refl, refl)),
                                )))))))))))))))

module _ (s bytes : Str) (m : Meta) (d : Disk) where
  abbrev Written : Post (Unit {0})
  Written (ok _) d' =
      OnlyOf s d d' × ((lookup s d'.bundles ≡ some bytes) × (lookup s d'.metas ≡ some (holds m)))
  Written (err _) d' = OnlyOf s d d'

  installs : Wp (install s bytes m) Written d
  unfolding install write_meta_or_roll_back
  installs = and_then _ _ (
      writes_bundle s bytes (λ _. ((λ k e. (refl, refl)), refl))
        (λ _. bind _ _ (
          tries _ (
            writes_meta s m
              (λ _. bind _ _ (
                tries _ (
                  removes_bundle s
                    (λ _.
                      throws _ ((λ k e. (refl, lookup-insert_ne s k (d.bundles) bytes e)), refl))
                    (λ _. throws _ (
                      (λ k e. (
                        refl,
                        lookup-delete_ne s k (insert s bytes d.bundles) e
                            ∙ lookup-insert_ne s k (d.bundles) bytes e,
                      )),
                      refl,
                    )))))
              (λ _. returns _ (
                (
                  (λ k e. (
                    lookup-insert_ne s k (d.metas) (holds m) e,
                    lookup-insert_ne s k (d.bundles) bytes e,
                  )),
                  refl,
                ),
                (lookup-insert_self s (d.bundles) bytes, lookup-insert_self s (d.metas) (holds m)),
              ))))))

module _ (env : Env) (req : AddRequest) where
  -- The request's bytes, name and mode stand under the slug.
  abbrev pub Installed : Str → Disk → Type 0
  Installed s d =
      (lookup s d.bundles ≡ some req.bundle_bytes)
      × ((m : Meta) × ((lookup s d.metas ≡ some (holds m))
            × ((m.name ≡ trim_space req.name) × (m.mode ≡ req.mode))))

  abbrev pub AddSpec : Disk → Post Info
  AddSpec d (ok i) d' =
      (b : EnrollmentBundle) × (Verified env req i.slug b
        × (OnlyOf i.slug d d' × Installed i.slug d'))
  AddSpec d (err e) d' =
      Unchanged d d'
      ⊎ ((s : Str) × ((b : EnrollmentBundle) × (Verified env req s b × OnlyOf s d d')))

  stores :
      (d d₀ : Disk) (s : Str) (b : EnrollmentBundle) (m : Meta)
      → Verified env req s b
      → Unchanged d₀ d
      → m.name ≡ trim_space req.name
      → m.mode ≡ req.mode
      → Wp (do install s req.bundle_bytes m; report s m b) (AddSpec d₀) d
  stores d d₀ s b m v (em, (eb, ea)) hn hm =
      and_then _ _ (follows (installs s req.bundle_bytes m d) written)
    where
      since : (d' : Disk) → OnlyOf s d d' → OnlyOf s d₀ d'
      since d' (h, a) =
          ((λ k e. let (h1, h2) = h k e in (h1 ∙ ap (lookup k) em, h2 ∙ ap (lookup k) eb)), a ∙ ea)

      written :
          (r : Result (Unit {0})) (d' : Disk)
          → Written s req.bundle_bytes m d r d'
          → Then (λ _. report s m b) (AddSpec d₀) r d'
      written (err _) d' h = inr (s, (b, (v, since d' h)))
      written (ok _) d' (h, (hb, hm')) =
          bind _ _
            (reads_active (λ a _. returns _ (b, (v, (since d' h, (hb, (m, (hm', (hn, hm)))))))))

  -- Whatever fails on the way, `Add` changes no file unless the request passed every check, a
  -- signature by a pinned root among them, and then only the two files of the slug of its name. When
  -- it returns without an error, the request's bytes, its trimmed name and its mode stand there. The
  -- marker of the active profile never changes.
  pub add-AddSpec : (now : ℕ) (d : Disk) → AddSpec d ((add env req now d).1) ((add env req now d).0)
  unfolding add
  add-AddSpec now d = (bind _ _ (follows (checks env req d) locked)).run
    where
      locked :
          (r : Result (Str × EnrollmentBundle)) (d' : Disk)
          → Checked env req d r d'
          → Then (λ sb. add_locked req now sb.0 sb.1) (AddSpec d) r d'
      locked (err e) d' h = inl h
      locked (ok (s, b)) d' (v, u) =
          unfold add_locked in
          and_then _ _ (
            refuses req.replace s (λ _ _. inl u)
              (λ _. bind _ _ (recalls req.replace s (λ _ _. stores _ d s b _ v u refl refl))))
