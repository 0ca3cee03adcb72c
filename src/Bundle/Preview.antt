-- ===== src/Bundle/Preview.antt =====
-- internal/bundle/bundle.go, `Preview`: what the import dialog shows before a bundle is verified.
use goat_client.Prelude.{ℕ, none, some, List, [], ◌∷◌, Str, map}
use goat_client.Bundle.{Codec, EnrollmentBundle, KnownEndpoint, cbor_error, empty_input, unmarshal}
use goat_client.Bundle.Trust.{Result, ok, err}

pub record Metadata : Type 0 where
  pub issued_to : Str
  pub site : Str
  pub not_before : ℕ
  pub not_after : ℕ
  pub peer_pub_key : Str
  pub endpoints : List Str

module _ (codec : Codec) (base64 : Str → Str) where
  abbrev metadata : EnrollmentBundle → Metadata
  metadata b = record {
    issued_to = b.device_id;
    site = b.site;
    not_before = b.issued_at;
    not_after = b.expires_at;
    peer_pub_key = base64 b.peer_pubkey;
    endpoints = map (λ (e : KnownEndpoint). e.addr) b.known_endpoints;
  }

  unfoldable pub preview : Str → Result Metadata
  preview [] = err empty_input
  preview (c ∷ raw) = elim (unmarshal codec (c ∷ raw)) [
    | none ↦ err cbor_error
    | some b ↦ ok (metadata b)
  ]
