-- ===== src/Names/Claims.antt =====
-- internal/names/claims.go: the names that peers claim for themselves. PEM, X.509 and JSON are library
-- code; texts of errors are not kept.
pub mod Authentic
pub mod Verdicts
use goat_client.Prelude.{
  ℕ, Bool, true, false, not, Option, none, some, List, [], ◌∷◌, Str, codes, same, length, drop, leb,
  ltb, ◌==◌, ◌&&◌, ◌||◌, if◌then◌else◌,
}
use goat_client.Prelude.Int.{ℤ, pos, leb_ℤ, ltb_ℤ, since, seconds, not_negative}
use goat_client.Text.{to_lower, trim_space}
use goat_client.Bundle.{Key}
use goat_client.Names.{Snapshot, PeerBinding, Crypto, any_verifies}
use goat_client.Names.Answers.{Addr, Library, wanted}

abbrev pub claim_format : Str
claim_format = codes "goat-name-claim-v1"

pub record ClaimArtifact : Type 0 where
  pub format : Str
  pub name : Str
  pub ip : Str
  pub anchor : Str
  pub issued_at_unix : ℤ
  pub ttl_seconds : ℕ

pub record ClaimEnvelope : Type 0 where
  pub artifact_b64 : Str
  pub sig_b64 : Str
  pub leaf_pem : Str

pub record ValidClaim : Type 0 where
  pub name : Str
  pub ip : Addr
  pub age : ℤ

-- What the package reads of an `x509.Certificate`; the key is `none` where it is not an ECDSA key.
pub record Leaf : Type 0 where
  pub raw_tbs : Str
  pub signature : Str
  pub not_before : ℕ
  pub not_after : ℕ
  pub public_key : Option Key
  pub common_name : Str
  pub uris : List Str

-- `pem.Decode`, to the type and the bytes of the first block, `x509.ParseCertificate` and
-- `json.Unmarshal` into a claim and into a list of envelopes.
pub record Formats : Type 0 where
  pub pem_decode : Str → Option (Str × Str)
  pub parse_certificate : Str → Option Leaf
  pub unmarshal_claim : Str → Option ClaimArtifact
  pub unmarshal_envelopes : Str → Option (List ClaimEnvelope)

pub data ClaimError : Type 0 where
  no_trust_roots no_certificate_pem not_x509 not_rooted outside_validity : ClaimError
  artifact_not_base64 sig_not_base64 not_ecdsa bad_signature malformed unexpected_format :
      ClaimError
  no_identity other_anchor no_binding bound_elsewhere claim_expired bad_ip : ClaimError

pub data Verdict (A : Type 0) : Type 0 where
  ok : A → Verdict A
  refused : ClaimError → Verdict A

infixl 5 ◌>>=◌ ◌>>◌
unfoldable pub ◌>>=◌ : {A B : Type 0} → Verdict A → (A → Verdict B) → Verdict B
ok a >>= f = f a
refused e >>= f = refused e

unfoldable pub ◌>>◌ : {B : Type 0} → Verdict (Unit {0}) → Verdict B → Verdict B
unfolding ◌>>=◌
m >> k = m >>= λ _. k

abbrev pub require : Bool → ClaimError → Verdict (Unit {0})
require true e = ok tt
require false e = refused e

abbrev pub needs : {A : Type 0} → Option A → ClaimError → Verdict A
needs none e = refused e
needs (some a) e = ok a

abbrev pub is_hex : ℕ → Bool
is_hex c = (leb b'0' c && leb c b'9') || (leb b'a' c && leb c b'f')

abbrev pub all_hex : Str → Bool
all_hex [] = true
all_hex (c ∷ s) = is_hex c && all_hex s

-- `^[0-9a-f]{32}$`.
unfoldable pub anchor_shaped : Str → Bool
anchor_shaped s = (length s == 32) && all_hex s

unfoldable pub has_prefix : Str → Str → Bool
has_prefix s [] = true
has_prefix [] (d ∷ p) = false
has_prefix (c ∷ s) (d ∷ p) = (c == d) && has_prefix s p

-- What follows the first occurrence of a key.
unfoldable pub value_after : Str → Str → Option Str
unfolding has_prefix
value_after key [] = if has_prefix [] key then some (drop (length key) []) else none
value_after key (c ∷ s) =
    if has_prefix (c ∷ s) key then some (drop (length key) (c ∷ s)) else value_after key s

abbrev pub or_else : Option Str → Str → Str
or_else none other = other
or_else (some []) other = other
or_else (some (c ∷ s)) other = c ∷ s

-- The loop over the URIs and, within it, over the two keys.
unfoldable pub uri_identity : List Str → Str
uri_identity [] = []
uri_identity (u ∷ us) =
    or_else (value_after (codes "org=") u)
      (or_else (value_after (codes "vendor=") u) (uri_identity us))

unfoldable pub leaf_identity : Leaf → Str
leaf_identity leaf =
    if anchor_shaped leaf.common_name then leaf.common_name else uri_identity leaf.uris

module _ (lib : Library) where
  unfoldable pub find_binding : Str → List PeerBinding → Option PeerBinding
  find_binding want [] = none
  find_binding want (b ∷ bs) =
      if same (to_lower lib.fold b.peer_name) want then some b else find_binding want bs

module _ (lib : Library) (crypto : Crypto) (formats : Formats) where
  -- The leaf of an envelope, in its validity and signed by a root.
  unfoldable pub check_leaf : List (Option Key) → Str → ℕ → Verdict Leaf
  check_leaf roots pem now = do
    require (not (length roots == 0)) no_trust_roots
    block ← needs (formats.pem_decode pem) no_certificate_pem
    require (same block.0 (codes "CERTIFICATE")) no_certificate_pem
    leaf ← needs (formats.parse_certificate block.1) not_x509
    require (any_verifies crypto (crypto.digest leaf.raw_tbs) leaf.signature roots) not_rooted
    require (not (ltb now leaf.not_before || ltb leaf.not_after now)) outside_validity
    ok leaf

  -- The claim that the leaf has signed.
  unfoldable pub check_artifact : ClaimEnvelope → Leaf → Verdict ClaimArtifact
  check_artifact envelope leaf = do
    artifact ← needs (crypto.decode_base64 (trim_space envelope.artifact_b64)) artifact_not_base64
    sig ← needs (crypto.decode_base64 (trim_space envelope.sig_b64)) sig_not_base64
    key ← needs leaf.public_key not_ecdsa
    require (crypto.verify_asn1 key (crypto.digest artifact) sig) bad_signature
    claim ← needs (formats.unmarshal_claim artifact) malformed
    require (same claim.format claim_format) unexpected_format
    ok claim

  -- The claim's own name, address and age.
  unfoldable pub check_claim : ClaimArtifact → Leaf → Snapshot → ℕ → Verdict ValidClaim
  check_claim claim leaf snap now = do
    require (not (same (leaf_identity leaf) [])) no_identity
    require (same (leaf_identity leaf) claim.anchor) other_anchor
    bound ← needs (find_binding lib (wanted lib claim.name) snap.peer_bindings) no_binding
    require (same bound.anchor claim.anchor) bound_elsewhere
    let age = since now claim.issued_at_unix
    require (not (leb_ℤ claim.issued_at_unix (pos 0) || leb_ℤ (seconds claim.ttl_seconds) age))
        claim_expired
    ip ← needs (lib.parse_addr claim.ip) bad_ip
    ok (record { name = wanted lib claim.name; ip = ip; age = not_negative age })

  unfoldable pub verify_claim :
      ClaimEnvelope → Snapshot → List (Option Key) → ℕ → Verdict ValidClaim
  verify_claim envelope snap roots now = do
    leaf ← check_leaf roots envelope.leaf_pem now
    claim ← check_artifact envelope leaf
    check_claim claim leaf snap now

  abbrev pub fresher : ValidClaim → Option ValidClaim → Option ValidClaim
  fresher c none = some c
  fresher c (some best) = if ltb_ℤ c.age best.age then some c else some best

  abbrev pub consider : Str → Verdict ValidClaim → Option ValidClaim → Option ValidClaim
  consider want (refused e) best = best
  consider want (ok c) best = if same c.name want then fresher c best else best

  -- The loop of `LookupClaim`.
  unfoldable pub best_claim :
      Str
      → Snapshot
      → List (Option Key)
      → ℕ
      → Option ValidClaim
      → List ClaimEnvelope
      → Option ValidClaim
  best_claim want snap roots now best [] = best
  best_claim want snap roots now best (e ∷ es) =
      best_claim want snap roots now (consider want (verify_claim e snap roots now) best) es

  abbrev pub envelopes : Option Str → List ClaimEnvelope
  envelopes none = []
  envelopes (some body) = elim (formats.unmarshal_envelopes body) [ none ↦ [] | some es ↦ es ]

  -- `claims.json` is `none` where it cannot be read.
  unfoldable pub lookup_claim :
      Option Str → Str → Snapshot → List (Option Key) → ℕ → Option ValidClaim
  lookup_claim file name snap roots now =
      best_claim (wanted lib name) snap roots now none (envelopes file)

  -- `PutClaims`: what becomes of the file, and whether there is an error.
  abbrev pub stored_claims :
      Bool → Str → Option Str → Option (List ClaimEnvelope) → Option Str × Bool
  stored_claims fails body old none = (old, true)
  stored_claims true body old (some es) = (old, true)
  stored_claims false body old (some es) = (some body, false)

  unfoldable pub put_claims : Str → Bool → Option Str → Option Str × Bool
  put_claims body fails old = stored_claims fails body old (formats.unmarshal_envelopes body)

  unfoldable pub claim_count : Option Str → ℕ
  claim_count file = length (envelopes file)
