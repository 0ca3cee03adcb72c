-- ===== src/Names/Claims/Authentic.antt =====
-- internal/names/claims.go, `VerifyClaim` and `LookupClaim`: a peer can claim only its own name.
use goat_client.Prelude.{
  ℕ, ◌≤◌, Bool, true, false, Option, none, some, List, [], ◌∷◌, Str, codes, same, if◌then◌else◌,
  same_iff, ◌≡◌, ◌≢◌, refl, ap, ◌∙◌, arith, Any, inl, inr, ◌⊎◌,
}
use goat_client.Prelude.Int.{pos, leb_ℤ, since, seconds, not_negative}
use goat_client.Text.{to_lower, trim_space}
use goat_client.Bundle.{Key}
use goat_client.Names.{Snapshot, PeerBinding, Crypto, any_verifies}
use goat_client.Names.Answers.{Library, wanted}
use goat_client.Names.Claims.{
  ClaimArtifact, ClaimEnvelope, ValidClaim, Leaf, Formats, Verdict, ok, refused, claim_format,
  leaf_identity, find_binding, check_leaf, check_artifact, check_claim, verify_claim, consider,
  best_claim, envelopes, lookup_claim,
}
use goat_client.Names.Claims.Verdicts.{
  Ensures, bind, and_then, gives, follows, neither, requires, needed,
}

-- The leaf certificate of an envelope is signed by a root and valid now.
pub record Rooted (crypto : Crypto) (formats : Formats) (roots : List (Option Key)) (pem : Str)
    (now : ℕ) (leaf : Leaf) : Type 0 where
  pub der : Str
  pub is_block : formats.pem_decode pem ≡ some (codes "CERTIFICATE", der)
  pub is_leaf : formats.parse_certificate der ≡ some leaf
  pub rooted : any_verifies crypto (crypto.digest leaf.raw_tbs) leaf.signature roots ≡ true
  pub begun : leaf.not_before ≤ now
  pub not_over : now ≤ leaf.not_after

-- The claim is signed by the leaf's key.
pub record Signed (crypto : Crypto) (formats : Formats) (envelope : ClaimEnvelope) (leaf : Leaf)
    (claim : ClaimArtifact) : Type 0 where
  pub artifact : Str
  pub is_artifact : crypto.decode_base64 (trim_space envelope.artifact_b64) ≡ some artifact
  pub sig : Str
  pub is_sig : crypto.decode_base64 (trim_space envelope.sig_b64) ≡ some sig
  pub key : Key
  pub is_key : leaf.public_key ≡ some key
  pub signed : crypto.verify_asn1 key (crypto.digest artifact) sig ≡ true
  pub is_claim : formats.unmarshal_claim artifact ≡ some claim
  pub format : claim.format ≡ claim_format

-- The first binding of the name, whatever the case it is written in.
abbrev pub BindsFirst : Library → Str → List PeerBinding → PeerBinding → Type 0
BindsFirst lib want [] b = ⊥
BindsFirst lib want (x ∷ bs) b =
    ((to_lower lib.fold x.peer_name ≡ want) × (x ≡ b))
    ⊎ ((to_lower lib.fold x.peer_name ≢ want) × BindsFirst lib want bs b)

find_binding-BindsFirst :
    (lib : Library) (want : Str) (bs : List PeerBinding) (b : PeerBinding)
    → find_binding lib want bs ≡ some b
    → BindsFirst lib want bs b
unfolding find_binding
find_binding-BindsFirst lib want [] b h = absurd (cc)
find_binding-BindsFirst lib want (x ∷ bs) b h =
    go (same (to_lower lib.fold x.peer_name) want) refl (find_binding-BindsFirst lib want bs b) h
  where
    go :
        (p : Bool)
        → same (to_lower lib.fold x.peer_name) want ≡ p
        → (find_binding lib want bs ≡ some b → BindsFirst lib want bs b)
        → (if p then some x else find_binding lib want bs) ≡ some b
        → BindsFirst lib want (x ∷ bs) b
    go true e later k = inl ((same_iff _ _).0 e, cc)
    go false e later k = inr (
      λ eq.
          let yes : same (to_lower lib.fold x.peer_name) want ≡ true = (same_iff _ _).1 eq in
          absurd (cc),
      later k,
    )

-- The claimed name is bound, in the snapshot, to the anchor that the leaf is the identity of.
pub record Own (lib : Library) (snap : Snapshot) (now : ℕ) (leaf : Leaf) (claim : ClaimArtifact)
    (c : ValidClaim) : Type 0 where
  pub identified : leaf_identity leaf ≢ []
  pub identity : leaf_identity leaf ≡ claim.anchor
  pub bound : PeerBinding
  pub is_bound : BindsFirst lib (wanted lib claim.name) snap.peer_bindings bound
  pub anchored : bound.anchor ≡ claim.anchor
  pub issued : leb_ℤ claim.issued_at_unix (pos 0) ≡ false
  pub unexpired : leb_ℤ (seconds claim.ttl_seconds) (since now claim.issued_at_unix) ≡ false
  pub is_ip : lib.parse_addr claim.ip ≡ some c.ip
  pub is_name : c.name ≡ wanted lib claim.name
  pub is_age : c.age ≡ not_negative (since now claim.issued_at_unix)

pub record Authentic (lib : Library) (crypto : Crypto) (formats : Formats)
    (envelope : ClaimEnvelope) (snap : Snapshot) (roots : List (Option Key)) (now : ℕ)
    (c : ValidClaim) : Type 0 where
  pub leaf : Leaf
  pub claim : ClaimArtifact
  pub is_rooted : Rooted crypto formats roots envelope.leaf_pem now leaf
  pub is_signed : Signed crypto formats envelope leaf claim
  pub is_own : Own lib snap now leaf claim c

module _ (lib : Library) (crypto : Crypto) (formats : Formats) where
  leaf_checked :
      (roots : List (Option Key)) (pem : Str) (now : ℕ)
      → Ensures (Rooted crypto formats roots pem now) (check_leaf lib crypto formats roots pem now)
  unfolding check_leaf
  leaf_checked roots pem now = and_then _ _ (
      requires _ _ (λ _. bind _ _ (
        needed _ _ (λ block is_block. and_then _ _ (
          requires _ _ (λ typed. bind _ _ (
            needed _ _ (λ leaf is_leaf. and_then _ _ (
              requires _ _ (λ rooted. and_then _ _ (
                requires _ _ (λ window. gives leaf (record {
                  der = block.1;
                  is_block = is_block ∙ ap (λ t. some (t, block.1)) ((same_iff _ _).0 typed);
                  is_leaf = is_leaf;
                  rooted = rooted;
                  begun = ground arith;
                  not_over = ground arith;
                })))))))))))))

  artifact_checked :
      (envelope : ClaimEnvelope) (leaf : Leaf)
      → Ensures
          (Signed crypto formats envelope leaf)
          (check_artifact lib crypto formats envelope leaf)
  unfolding check_artifact
  artifact_checked envelope leaf = bind _ _ (
      needed _ _ (λ artifact is_artifact. bind _ _ (
        needed _ _ (λ sig is_sig. bind _ _ (
          needed _ _ (λ key is_key. and_then _ _ (
            requires _ _ (λ signed. bind _ _ (
              needed _ _ (λ claim is_claim. and_then _ _ (
                requires _ _ (λ format. gives claim (record {
                  artifact = artifact;
                  is_artifact = is_artifact;
                  sig = sig;
                  is_sig = is_sig;
                  key = key;
                  is_key = is_key;
                  signed = signed;
                  is_claim = is_claim;
                  format = (same_iff _ _).0 format;
                })))))))))))))

  Own-checked :
      (claim : ClaimArtifact) (leaf : Leaf) (snap : Snapshot) (now : ℕ)
      → Ensures (Own lib snap now leaf claim) (check_claim lib crypto formats claim leaf snap now)
  unfolding check_claim
  Own-checked claim leaf snap now = and_then _ _ (
      requires _ _ (λ identified. and_then _ _ (
        requires _ _ (λ identity. bind _ _ (
          needed _ _ (λ bound is_bound. and_then _ _ (
            requires _ _ (λ anchored. and_then _ _ (
              requires _ _ (λ unexpired. bind _ _ (
                needed _ _ (λ ip is_ip. gives _ (record {
                  identified = ground (arith, same_iff (leaf_identity leaf) []);
                  identity = (same_iff _ _).0 identity;
                  bound = bound;
                  is_bound = find_binding-BindsFirst lib _ _ bound is_bound;
                  anchored = (same_iff _ _).0 anchored;
                  issued = (neither _ _ unexpired).0;
                  unexpired = (neither _ _ unexpired).1;
                  is_ip = is_ip;
                  is_name = refl;
                  is_age = refl;
                })))))))))))))

  claim_verified :
      (envelope : ClaimEnvelope) (snap : Snapshot) (roots : List (Option Key)) (now : ℕ)
      → Ensures
          (Authentic lib crypto formats envelope snap roots now)
          (verify_claim lib crypto formats envelope snap roots now)
  unfolding verify_claim
  claim_verified envelope snap roots now = bind _ _ (
      follows (leaf_checked roots envelope.leaf_pem now) (λ leaf is_rooted. bind _ _ (
        follows (artifact_checked envelope leaf) (λ claim is_signed.
          follows (Own-checked claim leaf snap now) (λ c is_own. record {
            leaf = leaf;
            claim = claim;
            is_rooted = is_rooted;
            is_signed = is_signed;
            is_own = is_own;
          })))))

  -- What the claim that is looked up rests on.
  abbrev pub Claimed : Option Str → Str → Snapshot → List (Option Key) → ℕ → ValidClaim → Type 0
  Claimed file name snap roots now c =
      (c.name ≡ wanted lib name)
      × Any (λ e. Authentic lib crypto formats e snap roots now c)
          (envelopes lib crypto formats file)

  module _ (want : Str) (snap : Snapshot) (roots : List (Option Key)) (now : ℕ) where
    abbrev Good : List ClaimEnvelope → ValidClaim → Type 0
    Good es c = (c.name ≡ want) × Any (λ e. Authentic lib crypto formats e snap roots now c) es

    consider-cases :
        (v : Verdict ValidClaim) (best : Option ValidClaim) (c : ValidClaim)
        → consider lib crypto formats want v best ≡ some c
        → (best ≡ some c) ⊎ ((v ≡ ok c) × (c.name ≡ want))
    consider-cases (refused e) best c h = inl h
    consider-cases (ok d) none c h = ground (arith, same_iff d.name want)
    consider-cases (ok d) (some best) c h = ground (arith, same_iff d.name want)

    best_claim-Good :
        (best : Option ValidClaim) (es : List ClaimEnvelope) (c : ValidClaim)
        → best_claim lib crypto formats want snap roots now best es ≡ some c
        → (best ≡ some c) ⊎ Good es c
    unfolding best_claim
    best_claim-Good best [] c h = inl h
    best_claim-Good best (e ∷ es) c h =
        elim (best_claim-Good
          (consider lib crypto formats want (verify_claim lib crypto formats e snap roots now) best)
          es c h) [
            | inr (n, later) ↦ inr (n, inr later)
            | inl here ↦
                elim (consider-cases (verify_claim lib crypto formats e snap roots now) best c
                  here) [
                    | inl old ↦ inl old
                    | inr (v, n) ↦ inr (n, inl ((claim_verified e snap roots now).run c v))
                  ]
          ]

  -- A claim that `LookupClaim` returns is for the name that was asked for and stands in the file as
  -- an envelope whose leaf certificate is signed by a root and in its validity, whose artifact is
  -- signed by the leaf's key and not expired, and whose name the snapshot binds to the anchor that
  -- the leaf is the identity of.
  pub lookup_claim-Claimed :
      (file : Option Str) (name : Str) (snap : Snapshot) (roots : List (Option Key)) (now : ℕ)
      (c : ValidClaim)
      → lookup_claim lib crypto formats file name snap roots now ≡ some c
      → Claimed file name snap roots now c
  unfolding lookup_claim
  lookup_claim-Claimed file name snap roots now c h =
      elim (best_claim-Good (wanted lib name) snap roots now none
        (envelopes lib crypto formats file) c h) [ inl impossible ↦ absurd (cc) | inr good ↦ good ]
