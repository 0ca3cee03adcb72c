-- ===== src/Tests/Resolver.antt =====
-- Runs of the forwarder, the claims and the observed names of internal/names.
use goat_client.Prelude.{
  ℕ, true, false, Option, none, some, List, [], ◌∷◌, Str, codes, same, replicate, ◌≡◌, refl, ap₂,
  arith,
}
use goat_client.Prelude.Assoc.{lookup}
use goat_client.Prelude.Int.{pos}
use goat_client.Text.{to_lower, lower, trim_space}
use goat_client.Bundle.{Key}
use goat_client.Names.{
  Snapshot, Crypto, File, new_store, hit, load_snapshot, verify_and_parse, any_verifies,
  read_verified, snap_stat_key,
}
use goat_client.Names.Snapshots.{new_store-Coherent}
use goat_client.Names.Answers.{Addr, Library, wanted}
use goat_client.Names.Observed.{
  Observed, Sort, kept, recent, stale, observation, record_observation, lookup_observed,
}
use goat_client.Names.Observed.Learned.{
  Permutes, Idempotent, lookup_observed-record_observation, record_observation-lost,
}
use goat_client.Names.Claims.{
  ClaimArtifact, ClaimEnvelope, ValidClaim, Leaf, Formats, claim_format, ◌>>=◌, ◌>>◌, anchor_shaped,
  leaf_identity, find_binding, check_leaf, check_artifact, check_claim, verify_claim, best_claim,
  lookup_claim,
}
use goat_client.Names.Claims.Authentic.{Claimed, lookup_claim-Claimed}
use goat_client.Names.Forwarder.{
  Question, QType, a, synthesized, Env, Service, try_upstreams, fall_back, handle,
}
use goat_client.Names.Forwarder.Provenance.{HandleSpec, handle-HandleSpec}

abbrev address : Str → Option Addr
address [] = none
address (c ∷ s) = some (record { is6 = false; slice = c ∷ s })

abbrev lib : Library
lib = record { parse_addr = address; fold = λ c. c }

abbrev anchor : Str
anchor = replicate 32 b'a'

abbrev bound_snapshot : Snapshot
bound_snapshot = record {
  format = codes "goat-name-snapshot-v1";
  site_id = codes "site";
  zone = codes "mesh";
  serial = 65;
  generated_at = [];
  generated_at_unix = pos 1700000000;
  ttl_seconds = 86400;
  ca_id = [];
  records = [];
  peer_bindings = record { peer_name = codes "n.mesh"; anchor = anchor } ∷ [];
}

abbrev pub crypto : Crypto
crypto = record {
  decode_base64 = λ s. some s;
  digest = λ s. s;
  verify_asn1 = λ k d der. same d der;
  unmarshal = λ s. some bound_snapshot;
}

abbrev pub root : Key
root = record { curve = some (codes "P-256"); point = 3 }

abbrev leaf : Leaf
leaf = record {
  raw_tbs = codes "tbs";
  signature = codes "tbs";
  not_before = 0;
  not_after = 1800000000000000000;
  public_key = some root;
  common_name = anchor;
  uris = [];
}

abbrev claim : ClaimArtifact
claim = record {
  format = claim_format;
  name = codes "N.mesh.";
  ip = codes "9";
  anchor = anchor;
  issued_at_unix = pos 1700000000;
  ttl_seconds = 600;
}

abbrev envelope : ClaimEnvelope
envelope = record { artifact_b64 = codes "c"; sig_b64 = codes "c"; leaf_pem = codes "p" }

abbrev formats : Formats
formats = record {
  pem_decode = λ s. some (codes "CERTIFICATE", s);
  parse_certificate = λ s. some leaf;
  unmarshal_claim = λ s. some claim;
  unmarshal_envelopes = λ s. some (envelope ∷ []);
}

abbrev pub roots : List (Option Key)
roots = none ∷ some root ∷ []

-- A minute after the claim was made.
abbrev now : ℕ
now = 1700000060000000000

abbrev valid_claim : ValidClaim
valid_claim = record {
  name = codes "n.mesh";
  ip = record { is6 = false; slice = codes "9" };
  age = pos 60000000000;
}

finds_claim :
    lookup_claim lib crypto formats (some []) (codes "n.mesh") bound_snapshot roots now
    ≡ some valid_claim
unfolding lookup_claim best_claim verify_claim check_leaf check_artifact check_claim ◌>>=◌ ◌>>◌
    any_verifies leaf_identity anchor_shaped find_binding wanted to_lower lower same trim_space
finds_claim = refl

lookup_claim-Claimed_example :
    Claimed lib crypto formats (some []) (codes "n.mesh") bound_snapshot roots now valid_claim
lookup_claim-Claimed_example =
    lookup_claim-Claimed lib crypto formats (some []) (codes "n.mesh") bound_snapshot roots now
      valid_claim finds_claim

abbrev pub file : File
file = record { bytes = 65 ∷ []; changed_at = 1 }

abbrev as_it_is : Sort
as_it_is rs = rs

-- No server answers.
abbrev pub env : Env
env = record {
  lib = lib;
  crypto = crypto;
  formats = formats;
  sort = as_it_is;
  splits = λ s. false;
  join = λ h p. h;
  exchange = λ s. none;
  upstreams = codes "up" ∷ [];
  now = now;
  write_fails = false;
}

abbrev nothing_observed : Observed
nothing_observed = record { file = none; last_obs = [] }

abbrev pub service : Service
service = record {
  store = new_store roots (some file) (some file);
  claims = some [];
  observed = nothing_observed;
  served = 0;
  last_fall = 0;
}

abbrev question : QType → Question
question t = record { name = codes "n.mesh"; qtype = t }

handle-HandleSpec_example :
    HandleSpec env (question a) service (handle env (some (question a)) service)
handle-HandleSpec_example =
    handle-HandleSpec env (question a) service
      (new_store-Coherent crypto roots (some file) (some file))

answers_from_claim :
    (handle env (some (question a)) service).1
    ≡ synthesized a (record { is6 = false; slice = codes "9" })
unfolding handle try_upstreams fall_back load_snapshot verify_and_parse read_verified hit new_store
    snap_stat_key lookup_claim best_claim verify_claim check_leaf check_artifact check_claim ◌>>=◌
    ◌>>◌ any_verifies leaf_identity anchor_shaped find_binding wanted to_lower lower same trim_space
answers_from_claim = refl

lower-lower : (s : Str) → to_lower lib.fold (to_lower lib.fold s) ≡ to_lower lib.fold s
unfolding to_lower lower
lower-lower [] = refl
lower-lower (c ∷ s) = ap₂ ◌∷◌ (ground arith) (lower-lower s)

idempotent : Idempotent lib
unfolding Idempotent
idempotent = lower-lower

as_it_is-Permutes : Permutes as_it_is
unfolding Permutes
as_it_is-Permutes rs = (refl, (λ o m. m), (λ o m. m))

not_recent : recent (codes "9") now (lookup (wanted lib (codes "n.mesh")) []) ≡ false
unfolding lookup
not_recent = refl

lookup_observed-record_observation_example :
    lookup_observed lib
      (codes "n.mesh")
      now
      (record_observation lib as_it_is (codes "n.mesh") (codes "9") now false nothing_observed)
    ≡ some (observation (wanted lib (codes "n.mesh")) (codes "9") now)
unfolding kept stale
lookup_observed-record_observation_example =
    lookup_observed-record_observation lib as_it_is as_it_is-Permutes idempotent (codes "n.mesh")
      (codes "9") now now nothing_observed not_recent (omega arith) refl

record_observation-lost_example :
    (record_observation lib as_it_is
      (codes "n.mesh")
      (codes "9")
      now
      false
      (record_observation lib as_it_is (codes "n.mesh") (codes "9") now true nothing_observed)).file
    ≡ none
record_observation-lost_example =
    record_observation-lost lib as_it_is (codes "n.mesh") (codes "9") now now false nothing_observed
      not_recent (omega arith) (omega arith)
