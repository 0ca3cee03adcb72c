-- ===== src/TrustAnchor/Laws.antt =====
-- internal/trustanchor: which signatures `Verify` accepts against a set made by `NewSet`.
use goat_client.Prelude.{
  ℕ, ◌<◌, ◌≤◌, arith, Bool, true, false, not, some, List, [], ◌∷◌, Str, same, ltb, All, Any,
  if◌then◌else◌, ltb→lt, ◌≡◌, ◌≢◌, ◌⊎◌, refl, sym, subst, same_iff, inl, inr,
}
use goat_client.Bundle.{Key}
use goat_client.TrustAnchor.{
  Anchor, AnchorError, empty_name, wrong_curve, no_window, Result, ok, err, Library, active,
  is_p256, key_of, check_window, with_key, check_anchor, cons, new_set, VerifyError,
  empty_signature, no_active_anchors, untrusted, verify_from, verify,
}

-- A P-256 key, and a window of validity that is not empty.
abbrev pub IsPinned : Anchor → Type 0
IsPinned a =
    (a.name ≢ [])
    × ((k : Key) × ((a.public_key ≡ some k) × (is_p256 k ≡ true)))
    × (a.valid_from < a.valid_until)

module _ (lib : Library) where
  windowed : (a b : Anchor) (k : Key) → a.name ≢ [] → check_window lib a k ≡ ok b → IsPinned b
  windowed a b k n h = go (is_p256 k) (ltb a.valid_from a.valid_until) refl refl h
    where
      go :
          (p q : Bool)
          → is_p256 k ≡ p
          → ltb a.valid_from a.valid_until ≡ q
          → (if not p
              then err wrong_curve
              else if not q
              then err no_window
              else ok (record a { public_key = some k }))
            ≡ ok b
          → IsPinned b
      go false q ep eq h = absurd (cc)
      go true false ep eq h = absurd (cc)
      go true true ep eq h =
          let e : record a { public_key = some k } ≡ b = cc in
          subst IsPinned e (n, (k, (refl, ep)), ltb→lt a.valid_from a.valid_until eq)

  keyed :
      (a b : Anchor) (r : Result AnchorError Key)
      → a.name ≢ []
      → with_key lib a r ≡ ok b
      → IsPinned b
  keyed a b (err e) n h = absurd (cc)
  keyed a b (ok k) n h = windowed a b k n h

  check_anchor-IsPinned : (a b : Anchor) → check_anchor lib a ≡ ok b → IsPinned b
  unfolding check_anchor
  check_anchor-IsPinned a b h = go (same a.name []) refl h
    where
      go :
          (p : Bool)
          → same a.name [] ≡ p
          → (if p then err empty_name else with_key lib a (key_of lib a.public_key a.spki)) ≡ ok b
          → IsPinned b
      go true e h = absurd (cc)
      go false e h = keyed a b (key_of lib a.public_key a.spki) (λ blank. absurd (named blank)) h
        where
          named : a.name ≡ [] → ⊥
          named blank = let yes : same a.name [] ≡ true = (same_iff a.name []).1 blank in cc

  new_set-IsPinned :
      (given anchors : List Anchor) → new_set lib given ≡ ok anchors → All IsPinned anchors
  unfolding new_set
  new_set-IsPinned [] [] h = tt
  new_set-IsPinned [] (b ∷ anchors) h = absurd (cc)
  new_set-IsPinned (a ∷ given) anchors h =
      go anchors (check_anchor lib a) (new_set lib given) refl refl (new_set-IsPinned given) h
    where
      go :
          (anchors : List Anchor) (r : Result AnchorError Anchor)
          (rs : Result AnchorError (List Anchor))
          → check_anchor lib a ≡ r
          → new_set lib given ≡ rs
          → ((later : List Anchor) → new_set lib given ≡ ok later → All IsPinned later)
          → cons lib r rs ≡ ok anchors
          → All IsPinned anchors
      go anchors (err e) rs er ers later h = absurd (cc)
      go anchors (ok b) (err e) er ers later h = absurd (cc)
      go [] (ok b) (ok bs) er ers later h = absurd (cc)
      go (c ∷ anchors) (ok b) (ok bs) er ers later h =
          let first : b ≡ c = cc in
          let others : bs ≡ anchors = cc in
          (
            subst IsPinned first (check_anchor-IsPinned a b er),
            subst (All IsPinned) others (later bs ers),
          )

  module _ (now : ℕ) (signature digest : Str) where
    -- The time is in the anchor's window, its ends included, or outside of it.
    abbrev pub IsOpen : Anchor → Type 0
    IsOpen a = (a.valid_from ≤ now) × (now ≤ a.valid_until)

    abbrev pub Idle : Anchor → Type 0
    Idle a = (now < a.valid_from) ⊎ (a.valid_until < now)

    active-IsOpen : (a : Anchor) → active now a ≡ true → IsOpen a
    unfolding active
    active-IsOpen a h = ground (arith, h)

    inactive-Idle : (a : Anchor) → active now a ≡ false → Idle a
    unfolding active
    inactive-Idle a h = ground (arith, h)

    -- The anchor is in its window, and the signature is one of its key over the digest.
    abbrev pub Accepts : Anchor → Type 0
    Accepts a = IsOpen a × (lib.verify_asn1 a.public_key digest signature ≡ true)

    abbrev pub Refuses : Anchor → Type 0
    Refuses a = Idle a ⊎ (IsOpen a × (lib.verify_asn1 a.public_key digest signature ≡ false))

    -- The anchor is the first of the set that accepts.
    abbrev pub IsFirst : Anchor → List Anchor → Type 0
    IsFirst a [] = ⊥
    IsFirst a (b ∷ anchors) = ((a ≡ b) × Accepts b) ⊎ (Refuses b × IsFirst a anchors)

    abbrev FromSpec : Bool → List Anchor → Result VerifyError Anchor → Type 0
    FromSpec met anchors (ok a) = IsFirst a anchors
    FromSpec met anchors (err empty_signature) = ⊥
    FromSpec met anchors (err no_active_anchors) = (met ≡ false) × All Idle anchors
    FromSpec met anchors (err untrusted) = All Refuses anchors × ((met ≡ true) ⊎ Any IsOpen anchors)

    skip :
        (met : Bool) (a : Anchor) (anchors : List Anchor) (r : Result VerifyError Anchor)
        → Idle a
        → FromSpec met anchors r
        → FromSpec met (a ∷ anchors) r
    skip met a anchors (ok b) i h = inr (inl i, h)
    skip met a anchors (err empty_signature) i h = h
    skip met a anchors (err no_active_anchors) i (m, h) = (m, (i, h))
    skip met a anchors (err untrusted) i (h, inl m) = ((inl i, h), inl m)
    skip met a anchors (err untrusted) i (h, inr m) = ((inl i, h), inr (inr m))

    pass :
        (met : Bool) (a : Anchor) (anchors : List Anchor) (r : Result VerifyError Anchor)
        → IsOpen a
        → lib.verify_asn1 a.public_key digest signature ≡ false
        → FromSpec true anchors r
        → FromSpec met (a ∷ anchors) r
    pass met a anchors (ok b) i v h = inr (inr (i, v), h)
    pass met a anchors (err empty_signature) i v h = h
    pass met a anchors (err no_active_anchors) i v (m, h) = absurd (cc)
    pass met a anchors (err untrusted) i v (h, m) = ((inr (i, v), h), inr (inl i))

    verify_from-FromSpec :
        (met : Bool) (anchors : List Anchor)
        → FromSpec met anchors (verify_from lib now signature digest met anchors)
    unfolding verify_from
    verify_from-FromSpec true [] = (tt, inl refl)
    verify_from-FromSpec false [] = (refl, tt)
    verify_from-FromSpec met (a ∷ anchors) =
        go (active now a) (lib.verify_asn1 a.public_key digest signature) refl refl
          (verify_from-FromSpec met anchors) (verify_from-FromSpec true anchors)
      where
        go :
            (p q : Bool)
            → active now a ≡ p
            → lib.verify_asn1 a.public_key digest signature ≡ q
            → FromSpec met anchors (verify_from lib now signature digest met anchors)
            → FromSpec true anchors (verify_from lib now signature digest true anchors)
            → FromSpec met (a ∷ anchors) (
                if not p
                then verify_from lib now signature digest met anchors
                else if q
                then ok a
                else verify_from lib now signature digest true anchors)
        go false q ep eq h k = skip met a anchors _ (inactive-Idle a ep) h
        go true true ep eq h k = inl (refl, (active-IsOpen a ep, eq))
        go true false ep eq h k = pass met a anchors _ (active-IsOpen a ep) eq k

  module _ (now : ℕ) (signature payload : Str) (anchors : List Anchor) where
    abbrev pub VerifySpec : Result VerifyError Anchor → Type 0
    VerifySpec (ok a) =
        (signature ≢ []) × IsPinned a × IsFirst now signature (lib.sum256 payload) a anchors
    VerifySpec (err empty_signature) = signature ≡ []
    VerifySpec (err no_active_anchors) =
        (signature ≢ []) × All (Idle now signature (lib.sum256 payload)) anchors
    VerifySpec (err untrusted) =
        (signature ≢ [])
        × All (Refuses now signature (lib.sum256 payload)) anchors
        × Any (IsOpen now signature (lib.sum256 payload)) anchors

    first-IsPinned :
        (a : Anchor) (bs : List Anchor)
        → All IsPinned bs
        → IsFirst now signature (lib.sum256 payload) a bs
        → IsPinned a
    first-IsPinned a [] p h = absurd h
    first-IsPinned a (b ∷ bs) (p, ps) (inl (e, h)) = subst IsPinned (sym e) p
    first-IsPinned a (b ∷ bs) (p, ps) (inr (r, h)) = first-IsPinned a bs ps h

    settled :
        (r : Result VerifyError Anchor)
        → signature ≢ []
        → All IsPinned anchors
        → FromSpec now signature (lib.sum256 payload) false anchors r
        → VerifySpec r
    settled (ok a) n p h = (n, first-IsPinned a anchors p h, h)
    settled (err empty_signature) n p h = absurd h
    settled (err no_active_anchors) n p (m, h) = (n, h)
    settled (err untrusted) n p (h, inl m) = absurd (cc)
    settled (err untrusted) n p (h, inr m) = (n, h, m)

  -- Against a set that `NewSet` made: an anchor that `Verify` returns has a P-256 key and a window that
  -- holds the time, its ends included, the signature is one of its key over the SHA-256 of the payload, and
  -- no active anchor before it accepts the signature. Otherwise the error says why: an empty signature, no
  -- anchor that is active, or active ones of which none accepts it.
  pub verify-VerifySpec :
      (given anchors : List Anchor) (now : ℕ) (signature payload : Str)
      → new_set lib given ≡ ok anchors
      → VerifySpec now signature payload anchors (verify lib now anchors signature payload)
  unfolding verify
  verify-VerifySpec given anchors now [] payload h = refl
  verify-VerifySpec given anchors now (c ∷ signature) payload h =
      settled now (c ∷ signature) payload anchors _ (λ e. absurd (cc))
        (new_set-IsPinned given anchors h)
        (verify_from-FromSpec now (c ∷ signature) (lib.sum256 payload) false anchors)
