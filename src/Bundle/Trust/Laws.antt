-- ===== src/Bundle/Trust/Laws.antt =====
-- internal/bundle/trust.go: which bundles `VerifyBundle` accepts.
use goat_client.Prelude.{
  Bool, true, false, Option, none, some, List, [], ◌∷◌, Str, not, if◌then◌else◌, ◌≡◌, refl, ◌↔◌,
  inl, inr, arith, Any,
}
use goat_client.Bundle.{
  Codec, EnrollmentBundle, Key, BundleError, Check, verify, signable, is_p256, is_empty,
  wrong_curve, empty_signature, check_signature,
}
use goat_client.Bundle.Trust.{TrustRoots, keys, verify_any, verify_bundle}

some_ne : (e : BundleError) → ¬ (◌≡◌ {A = Check} (some e) none)
some_ne e h = cc

module _ (codec : Codec) (b : EnrollmentBundle) where
  -- The key is on P-256, and the bundle's nonempty signature is one of it over the SHA-256 of the
  -- bundle's encoding without the signature.
  abbrev pub SignedBy : Key → Type 0
  SignedBy k =
      (is_p256 codec k ≡ true)
      × ((is_empty b.signature ≡ false)
          × ((payload : Str) × ((signable codec b ≡ some payload)
                × (codec.verify_asn1 k (codec.sha256 payload) b.signature ≡ true))))

  accepts :
      (k : Key) (p e : Bool) (o : Option Str)
      → is_p256 codec k ≡ p
      → is_empty b.signature ≡ e
      → signable codec b ≡ o
      → (if not p
          then some wrong_curve
          else (if e then some empty_signature else check_signature codec k b.signature o))
        ≡ none
      → SignedBy k
  accepts k false e o hp he ho h = absurd (cc)
  accepts k true true o hp he ho h = absurd (cc)
  accepts k true false none hp he ho h = absurd (cc)
  accepts k true false (some x) hp he ho h = (hp, (he, (x, (ho, ground arith))))

  rejects :
      (k : Key) (p e : Bool) (o : Option Str) (x : Str)
      → p ≡ true
      → e ≡ false
      → o ≡ some x
      → codec.verify_asn1 k (codec.sha256 x) b.signature ≡ true
      → (if not p
          then some wrong_curve
          else (if e then some empty_signature else check_signature codec k b.signature o))
        ≡ none
  rejects k p e o x hp he ho h = rw (hp, he, ho) (ground arith)

  verify-none : (k : Key) → (verify codec b (some k) ≡ none) ↔ SignedBy k
  unfolding verify
  verify-none k = (
    λ h. accepts k (is_p256 codec k) (is_empty b.signature) (signable codec b) refl refl refl h,
    λ (hp, (he, (x, (hx, hv)))).
        rejects k (is_p256 codec k) (is_empty b.signature) (signable codec b) x hp he hx hv,
  )

  verify_any-none : (ks : List Key) → (verify_any codec b ks ≡ none) ↔ Any SignedBy ks
  unfolding verify_any
  verify_any-none [] = (λ h. absurd (cc), λ h. absurd h)
  verify_any-none (k ∷ ks) = first (verify codec b (some k)) (verify-none k) (verify_any-none ks)
    where
      first :
          (c : Check)
          → (c ≡ none) ↔ SignedBy k
          → (verify_any codec b ks ≡ none) ↔ Any SignedBy ks
          → ((elim c as (λ _. Check) [ none ↦ none | some e ↦ verify_any codec b ks ]) ≡ none)
            ↔ Any SignedBy (k ∷ ks)
      first none p q = (λ _. inl (p.0 refl), λ _. refl)
      first (some e) p q =
          (λ h. inr (q.0 h), λ s. elim s [ inl x ↦ absurd (some_ne e (p.1 x)) | inr y ↦ q.1 y ])

  -- `VerifyBundle` returns no error exactly when a pinned root is a P-256 key under which the
  -- bundle's nonempty signature verifies over its encoding without the signature. No roots at all
  -- accept nothing.
  pub verify_bundle-none :
      (roots : TrustRoots) → (verify_bundle codec roots b ≡ none) ↔ Any SignedBy (keys roots)
  unfolding verify_bundle
  verify_bundle-none none = (λ h. absurd (cc), λ h. absurd h)
  verify_bundle-none (some []) = (λ h. absurd (cc), λ h. absurd h)
  verify_bundle-none (some (k ∷ ks)) = verify_any-none (k ∷ ks)
