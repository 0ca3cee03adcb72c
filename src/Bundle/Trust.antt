-- ===== src/Bundle/Trust.antt =====
-- internal/bundle/trust.go: the pinned roots. A `*TrustRoots` is an optional list of keys. PEM and
-- X.509 decoding stay outside: a decoded file is the list of its blocks.
pub mod Laws
use goat_client.Prelude.{
  Bool, true, false, Option, none, some, List, [], ◌∷◌, ◌++◌, not, if◌then◌else◌,
}
use goat_client.Bundle.{
  Codec, EnrollmentBundle, Key, BundleError, Check, nil_key, wrong_curve, no_trust_roots, untrusted,
  no_keys, verify, is_p256,
}

abbrev pub TrustRoots : Type 0
TrustRoots = Option (List Key)

-- A value, or an error.
pub data Result (A : Type 0) : Type 0 where
  ok : A → Result A
  err : BundleError → Result A

-- What `publicKeyFromPEMBlock` makes of a block's contents: a P-256 key, a block of another type
-- (`errSkipBlock`), or an error.
pub data Block : Type 0 where
  public_key : Key → Block
  skipped : Block
  malformed : BundleError → Block

abbrev pub keys : TrustRoots → List Key
keys none = []
keys (some ks) = ks

abbrev pub no_roots : TrustRoots → Bool
no_roots none = true
no_roots (some []) = true
no_roots (some (k ∷ ks)) = false

-- The loop of `LoadTrustRootsFromPEM`.
unfoldable pub load_blocks : List Key → List Block → Result TrustRoots
load_blocks [] [] = err no_keys
load_blocks (k ∷ ks) [] = ok (some (k ∷ ks))
load_blocks acc (public_key k ∷ bs) = load_blocks (acc ++ (k ∷ [])) bs
load_blocks acc (skipped ∷ bs) = load_blocks acc bs
load_blocks acc (malformed e ∷ bs) = err e

module _ (codec : Codec) where
  abbrev check_root : Option Key → Check
  check_root none = some nil_key
  check_root (some k) = if not (is_p256 codec k) then some wrong_curve else none

  abbrev push : Option Key → List Key → List Key
  push none ks = ks
  push (some k) ks = ks ++ (k ∷ [])

  -- The loop of `NewTrustRoots`.
  unfoldable pub new_trust_roots_from : List Key → List (Option Key) → Result TrustRoots
  new_trust_roots_from acc [] = ok (some acc)
  new_trust_roots_from acc (k ∷ ks) =
      let rest = new_trust_roots_from (push k acc) ks in
      elim (check_root k) [ some e ↦ err e | none ↦ rest ]

  unfoldable pub new_trust_roots : List (Option Key) → Result TrustRoots
  unfolding new_trust_roots_from
  new_trust_roots ks = new_trust_roots_from [] ks

  unfoldable pub add_root : List Key → Option Key → Result (List Key)
  add_root ks k = elim (check_root k) [ some e ↦ err e | none ↦ ok (push k ks) ]

  -- The loop of `VerifyBundle`; the last error is only text.
  unfoldable pub verify_any : EnrollmentBundle → List Key → Check
  verify_any b [] = some untrusted
  verify_any b (k ∷ ks) =
      let rest = verify_any b ks in elim (verify codec b (some k)) [ none ↦ none | some e ↦ rest ]

  unfoldable pub verify_bundle : TrustRoots → EnrollmentBundle → Check
  unfolding verify_any
  verify_bundle roots b = if no_roots roots then some no_trust_roots else verify_any b (keys roots)
