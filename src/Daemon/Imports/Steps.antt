-- ===== src/Daemon/Imports/Steps.antt =====
-- internal/daemon/daemon.go, `ImportBundle`: its checks and its steps on the store.
use goat_client.Prelude.{
  ℕ, Bool, true, false, not, none, some, List, [], ◌∷◌, Str, codes, same, ◌≡◌, refl, sym, subst, ap,
  ◌∙◌, inl, inr, if◌then◌else◌,
}
use goat_client.Prelude.Assoc.{lookup}
use goat_client.Bundle.{EnrollmentBundle, unmarshal, check_cp_device_keypair, check_expiry}
use goat_client.Bundle.Trust.{verify_bundle, no_roots}
use goat_client.Mode.{Mode}
use goat_client.Profile.Slug.{Named}
use goat_client.Profile.Disk.{holds, Disk, StoreError, Result, ok, err, ◌>>=◌, return}
use goat_client.Profile.Hoare.{
  Post, Wp, Then, bind, and_then, returns, throws, tries, follows, goes_on, facing,
}
use goat_client.Profile.Store.{Env, Info, AddRequest, add, set_active}
use goat_client.Profile.Store.Rules.{OthersKept, guards, passes, parses}
use goat_client.Profile.Store.Add.{Verified, AddSpec, add-AddSpec}
use goat_client.Profile.Store.Edits.{SetActiveSpec, set_active-SetActiveSpec}
use goat_client.Profile.Migrate.Imports.{lists}
use goat_client.Daemon.Imports.Stored.{Kept, Landed, since, until, both, stored, landed, kept}
use goat_client.Daemon.Imports.{
  found, name_or, mode_or, is_taken, bundle_request, profile_info_by_slug, check_import,
  replace_active, add_again, add_default, import_steps,
}

-- The checks that `ImportBundle` makes itself.
pub record Passed (env : Env) (bytes : Str) (now : ℕ) (b : EnrollmentBundle) : Type 0 where
  pub parses : unmarshal env.codec bytes ≡ some b
  pub signed : verify_bundle env.codec env.roots b ≡ none
  pub paired : check_cp_device_keypair b ≡ none
  pub current : check_expiry b now ≡ none

module _ (env : Env) (bytes : Str) where
  checks_import :
      {Q : Post EnrollmentBundle} {d : Disk} (now : ℕ)
      → ((x : StoreError) → Q (err x) d)
      → ((b : EnrollmentBundle) → Passed env bytes now b → Q (ok b) d)
      → Wp (check_import env bytes now) Q d
  unfolding check_import
  checks_import now h k = bind _ _ (
      parses (unmarshal env.codec bytes) h (λ b p. and_then _ _ (
        guards (not (no_roots env.roots)) _ h (λ _. and_then _ _ (
          passes (verify_bundle env.codec env.roots b) h (λ signed. and_then _ _ (
            passes (check_cp_device_keypair b) h (λ paired. and_then _ _ (
              passes (check_expiry b now) h (λ current. returns _ (
                k b (record {
                  parses = p;
                  signed = signed;
                  paired = paired;
                  current = current;
                }))))))))))))

  abbrev ReplaceSpec : Str → Disk → Post Str
  ReplaceSpec slug d (ok s) d' =
      (s ≡ slug) × ((s' : Str) × (Landed env bytes d d' s' × (d'.active ≡ d.active)))
  ReplaceSpec slug d (err e) d' = Kept env bytes d d'

  replaces :
      (slug : Str) (m : Mode) (now : ℕ) (d : Disk)
      → Wp (replace_active env slug m bytes now) (ReplaceSpec slug d) d
  unfolding replace_active profile_info_by_slug
  replaces slug m now d = bind _ _ (bind _ _ (tries _ (lists env listed)))
    where
      added :
          (req : AddRequest) (e : req.bundle_bytes ≡ bytes) (fs : List Bool) (r : Result Info)
          (d' : Disk)
          → AddSpec env req (facing fs d) r d'
          → Then (λ i. return slug) (ReplaceSpec slug d) r d'
      added req e fs (ok i) d' h = returns _ (refl, (i.slug, landed env bytes req e d d' i h))
      added req e fs (err x) d' h = kept env bytes req e d d' x h

      listed :
          (r : Result (List Info)) (fs : List Bool)
          → Wp
              (return (found slug r))
              (Then
                (λ r'. do
                  i ← add env (bundle_request (name_or slug r') (mode_or m r') bytes true) now
                  return slug)
                (ReplaceSpec slug d))
              (facing fs d)
      listed r fs = returns _ (
          bind _ _ (
            follows
              (record {
                run =
                    add-AddSpec env
                      (bundle_request (name_or slug (found slug r)) (mode_or m (found slug r)) bytes
                        true)
                      now (facing fs d);
              })
              (added _ refl fs)))

  -- What `Add` leaves, for a request of these bytes.
  abbrev AddedSpec : Disk → Post Info
  AddedSpec d (ok i) d' = Landed env bytes d d' i.slug × (d'.active ≡ d.active)
  AddedSpec d (err e) d' = Kept env bytes d d'

  module _ (m : Mode) where
    abbrev default_request : Bool → AddRequest
    default_request replace = bundle_request (codes "default") m bytes replace

    -- The same name gives the same slug again.
    one_slug :
        (s s' : Str) (b b' : EnrollmentBundle)
        → Verified env (default_request false) s b
        → Verified env (default_request true) s' b'
        → s ≡ s'
    one_slug s s' b b' v v' =
        let e : Named.slug s ≡ Named.slug s' = sym v.slug_of_name ∙ v'.slug_of_name in cc

    again :
        (d d₁ d₂ : Disk) (e : StoreError) (r : Result Info)
        → AddSpec env (default_request false) d (err e) d₁
        → AddSpec env (default_request true) d₁ r d₂
        → AddedSpec d r d₂
    again d d₁ d₂ e (ok i) (inl u) h =
        let ((st, l), a) = landed env bytes (default_request true) refl d₁ d₂ i h in
        ((since env bytes d d₁ d₂ i.slug u st, l), a ∙ u.1.1)
    again d d₁ d₂ e (ok i) (inr (s, (b, (v, (o, a))))) (b', (v', ((o', a'), (hb, hm)))) =
        let same_slug : s ≡ i.slug = one_slug s i.slug b b' v v' in
        (
          (
            both env bytes d d₁ d₂ i.slug (subst (λ x. OthersKept x d d₁) same_slug o)
                (stored env bytes (default_request true) refl d₁ d₂ i.slug b' v' o'),
            hb,
          ),
          a' ∙ a,
        )
    again d d₁ d₂ e (err x) (inl (em, (eb, ea))) (inl (em', (eb', ea'))) =
        inl (em' ∙ em, (eb' ∙ eb, ea' ∙ ea))
    again d d₁ d₂ e (err x) (inl u) (inr (s, (b, (v, (o, a))))) = inr (
      s,
      (
        since env bytes d d₁ d₂ s u (stored env bytes (default_request true) refl d₁ d₂ s b v o),
        a ∙ u.1.1,
      ),
    )
    again d d₁ d₂ e (err x) (inr (s, (b, (v, (o, a))))) (inl (em, (eb, ea))) = inr (
      s,
      (
        until env bytes d d₁ d₂ s (stored env bytes (default_request false) refl d d₁ s b v o) em
            eb,
        ea ∙ a,
      ),
    )
    again d d₁ d₂ e (err x) (inr (s, (b, (v, (o, a))))) (inr (s', (b', (v', (o', a'))))) =
        let same_slug : s ≡ s' = one_slug s s' b b' v v' in
        inr (
          s',
          (
            both env bytes d d₁ d₂ s' (subst (λ x. OthersKept x d d₁) same_slug o)
                (stored env bytes (default_request true) refl d₁ d₂ s' b' v' o'),
            a' ∙ a,
          ),
        )

    adds_again :
        (now : ℕ) (d d₁ : Disk) (r : Result Info)
        → AddSpec env (default_request false) d r d₁
        → Wp (add_again env m bytes now r) (AddedSpec d) d₁
    adds_again now d d₁ (ok i) h =
        returns _ (landed env bytes (default_request false) refl d d₁ i h)
    adds_again now d d₁ (err e) h =
        goes_on (is_taken e) _ _
          (follows (record { run = add-AddSpec env (default_request true) now d₁ })
            (λ r d₂ k. again d d₁ d₂ e r h k))
          (throws _ (kept env bytes (default_request false) refl d d₁ e h))

    abbrev DefaultSpec : Disk → Post Str
    DefaultSpec d (ok s) d' = Landed env bytes d d' s × (d'.active ≡ some (holds s))
    DefaultSpec d (err e) d' = Kept env bytes d d'

    activates :
        (d d₁ : Disk) (r : Result Info)
        → AddedSpec d r d₁
        → Then (λ i. do previous ← set_active i.slug; return i.slug) (DefaultSpec d) r d₁
    activates d d₁ (err e) h = h
    activates d d₁ (ok i) ((st, l), a) =
        bind _ _ (follows (record { run = set_active-SetActiveSpec i.slug d₁ }) act)
      where
        act :
            (r : Result Str) (d₂ : Disk)
            → SetActiveSpec i.slug d₁ r d₂
            → Then (λ _. return i.slug) (DefaultSpec d) r d₂
        act (err e) d₂ (em, (eb, ea)) =
            inr (i.slug, (until env bytes d d₁ d₂ i.slug st em eb, ea ∙ a))
        act (ok p) d₂ (em, (eb, (ea, h))) =
            returns _ ((until env bytes d d₁ d₂ i.slug st em eb, ap (lookup i.slug) eb ∙ l), ea)

    defaults : (now : ℕ) (d : Disk) → Wp (add_default env m bytes now) (DefaultSpec d) d
    unfolding add_default
    defaults now d = bind _ _ (
        tries _ (
          follows (record { run = add-AddSpec env (default_request false) now d })
            (λ r d₁ h.
              bind _ _ (follows (adds_again now d d₁ r h) (λ r' d₂ k. activates d d₂ r' k)))))

  -- Where the bytes stand: with no slug before, under the one that is current and active from then on;
  -- with one, that one stays current, and the marker is as it was.
  abbrev pub Placed : Str → Disk → Disk → Str → Type 0
  Placed [] d d' s = Landed env bytes d d' s × (d'.active ≡ some (holds s))
  Placed (c ∷ slug) d d' s =
      (s ≡ c ∷ slug) × ((s' : Str) × (Landed env bytes d d' s' × (d'.active ≡ d.active)))

  abbrev pub StepsSpec : Str → ℕ → Disk → Post (EnrollmentBundle × Str)
  StepsSpec slug now d (ok (b, s)) d' = Passed env bytes now b × Placed slug d d' s
  StepsSpec slug now d (err e) d' = Kept env bytes d d'

  places :
      (slug : Str) (m : Mode) (now : ℕ) (b : EnrollmentBundle) (d : Disk)
      → Passed env bytes now b
      → Wp
          (do
            s ←
                if same slug []
                then add_default env m bytes now
                else replace_active env slug m bytes now
            return (b, s))
          (StepsSpec slug now d)
          d
  unfolding same
  places [] m now b d passed = bind _ _ (follows (defaults m now d) done)
    where
      done :
          (r : Result Str) (d' : Disk)
          → DefaultSpec m d r d'
          → Then (λ s. return (b, s)) (StepsSpec [] now d) r d'
      done (ok s) d' h = returns _ (passed, h)
      done (err e) d' h = h
  places (c ∷ slug) m now b d passed = bind _ _ (follows (replaces (c ∷ slug) m now d) done)
    where
      done :
          (r : Result Str) (d' : Disk)
          → ReplaceSpec (c ∷ slug) d r d'
          → Then (λ s. return (b, s)) (StepsSpec (c ∷ slug) now d) r d'
      done (ok s) d' h = returns _ (passed, h)
      done (err e) d' h = h

  pub steps :
      (slug : Str) (m : Mode) (now : ℕ) (d : Disk)
      → Wp (import_steps env slug m bytes now) (StepsSpec slug now d) d
  unfolding import_steps
  steps slug m now d =
      bind _ _ (
        checks_import now (λ _. inl (refl, (refl, refl)))
          (λ b passed. places slug m now b d passed))
