-- ===== src/TrustAnchor.antt =====
-- internal/trustanchor: the pinned anchors and their windows of validity (anchor.go), and the check of a
-- signature against them (verify.go). The embedded data are generated and are an argument.
pub mod Laws
use goat_client.Prelude.{
  ℕ, Bool, true, false, not, Option, none, some, List, [], ◌∷◌, Str, codes, same, ltb, ◌||◌,
  if◌then◌else◌,
}
use goat_client.Bundle.{Key}

pub record Anchor : Type 0 where
  pub name : Str
  pub issuer : Str
  pub public_key : Option Key
  pub spki : Str
  pub valid_from : ℕ
  pub valid_until : ℕ

pub data AnchorError : Type 0 where
  empty_name no_key_material bad_spki not_ecdsa wrong_curve no_window : AnchorError

pub data Result (E A : Type 0) : Type 0 where
  ok : A → Result E A
  err : E → Result E A

-- `x509.ParsePKIXPublicKey`, with `some none` for a key that is not ECDSA, `sha256.Sum256`, and
-- `ecdsa.VerifyASN1` of a key, a digest and a signature. A call of it on a nil key panics: no anchor of
-- a `Set` that `NewSet` returned has one.
pub record Library : Type 0 where
  pub parse_pkix : Str → Option (Option Key)
  pub sum256 : Str → Str
  pub verify_asn1 : Option Key → Str → Str → Bool

-- Within the window, its ends included.
unfoldable pub active : ℕ → Anchor → Bool
active at a = if ltb at a.valid_from then false else not (ltb a.valid_until at)

abbrev pub is_p256 : Key → Bool
is_p256 k = elim k.curve [ none ↦ false | some name ↦ same name (codes "P-256") ]

module _ (lib : Library) where
  abbrev pub parsed_spki : Option (Option Key) → Result AnchorError Key
  parsed_spki none = err bad_spki
  parsed_spki (some none) = err not_ecdsa
  parsed_spki (some (some k)) = ok k

  abbrev pub key_of : Option Key → Str → Result AnchorError Key
  key_of (some k) spki = ok k
  key_of none [] = err no_key_material
  key_of none (c ∷ spki) = parsed_spki (lib.parse_pkix (c ∷ spki))

  abbrev pub check_window : Anchor → Key → Result AnchorError Anchor
  check_window a k =
      if not (is_p256 k)
      then err wrong_curve
      else if not (ltb a.valid_from a.valid_until)
      then err no_window
      else ok (record a { public_key = some k })

  abbrev pub with_key : Anchor → Result AnchorError Key → Result AnchorError Anchor
  with_key a (err e) = err e
  with_key a (ok k) = check_window a k

  unfoldable pub check_anchor : Anchor → Result AnchorError Anchor
  check_anchor a =
      if same a.name [] then err empty_name else with_key a (key_of a.public_key a.spki)

  abbrev pub cons :
      Result AnchorError Anchor
      → Result AnchorError (List Anchor)
      → Result AnchorError (List Anchor)
  cons (err e) r = err e
  cons (ok a) (err e) = err e
  cons (ok a) (ok anchors) = ok (a ∷ anchors)

  -- `NewSet`: the anchors of the set, or the error of the first anchor that has one.
  unfoldable pub new_set : List Anchor → Result AnchorError (List Anchor)
  new_set [] = ok []
  new_set (a ∷ anchors) = cons (check_anchor a) (new_set anchors)

-- `Active`. `sort.Slice` by the start of the window is an argument.
unfoldable pub active_anchors : (List Anchor → List Anchor) → ℕ → List Anchor → List Anchor
active_anchors sort at anchors = sort (among anchors)
  where
    among : List Anchor → List Anchor
    among [] = []
    among (a ∷ anchors) = let rest = among anchors in if active at a then a ∷ rest else rest

pub data VerifyError : Type 0 where
  empty_signature no_active_anchors untrusted : VerifyError

module _ (lib : Library) (now : ℕ) (signature digest : Str) where
  -- The loop of `Verify`, with whether an active anchor has been met.
  unfoldable pub verify_from : Bool → List Anchor → Result VerifyError Anchor
  verify_from has_active [] = err (if has_active then untrusted else no_active_anchors)
  verify_from has_active (a ∷ anchors) =
      let skipped = verify_from has_active anchors in
      let passed = verify_from true anchors in
      if not (active now a)
      then skipped
      else if lib.verify_asn1 a.public_key digest signature
      then ok a
      else passed

unfoldable pub verify : Library → ℕ → List Anchor → Str → Str → Result VerifyError Anchor
verify lib now anchors [] payload = err empty_signature
verify lib now anchors (c ∷ signature) payload =
    verify_from lib now (c ∷ signature) (lib.sum256 payload) false anchors
