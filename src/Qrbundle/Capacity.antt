-- ===== src/Qrbundle/Capacity.antt =====
-- The sizes of internal/qrbundle: what the encoder allocates, and what a single QR code holds.
use goat_client.Prelude.{
  ℕ, ◌%◌, ◌≤◌, ◌<◌, ◌≡◌, ◌⊎◌, inl, inr, refl, List, [], ◌∷◌, Str, IsByte, All, arith, length, ltb,
  ◌==◌, true, false, suc, Bool-cases,
}
use native.Mathlib.Decide.{dec_lt}
use goat_client.Qrbundle.Base45.{ok, base45_encode, base45_encoded_len, base45_decode_string}
use goat_client.Qrbundle.Inverse.{decode-iff-encode}
use goat_client.Qrbundle.Payload.{
  done, fail, empty, bundle_too_large, max_bundle_bytes, qr_alphanumeric_l_ceiling, encode, decode,
}

encoded_len_step :
    (n : ℕ) → base45_encoded_len (suc (suc n)) ≡ suc (suc (suc (base45_encoded_len n)))
unfolding base45_encoded_len
encoded_len_step n = elim (dec_lt 0 (n % 2)) [
  | yes odd ↦
      let e : (suc (suc n) % 2 == 0) ≡ false = ground arith in
      let f : (n % 2 == 0) ≡ false = ground arith in rw (e, f) (omega arith)
  | no even ↦
      let e : (suc (suc n) % 2 == 0) ≡ true = ground arith in
      let f : (n % 2 == 0) ≡ true = ground arith in rw (e, f) (omega arith)
]

-- The encoder's output has exactly the length that `base45EncodedLen` computes for its buffer.
length-base45_encode : (bs : List ℕ) → length (base45_encode bs) ≡ base45_encoded_len (length bs)
unfolding base45_encode
length-base45_encode [] = unfold base45_encoded_len in refl
length-base45_encode (x ∷ []) = unfold base45_encoded_len in refl
length-base45_encode (x ∷ y ∷ src) =
    omega (arith, length-base45_encode src, encoded_len_step (length src))

decode_of_ok :
    (s : Str) (b : ℕ) (bs : List ℕ)
    → base45_decode_string s ≡ ok (b ∷ bs)
    → decode s ≡ done (b ∷ bs)
unfolding decode
decode_of_ok [] b bs h = absurd (unfold base45_decode_string in cc h)
decode_of_ok (c ∷ cs) b bs h = rw h

-- `Encode` on every input: an empty bundle and one over 2864 bytes are refused with their errors,
-- and any other gives a text that fits a version 40 code and that `Decode` takes back to it.
pub encode_outcomes :
    (bs : List ℕ)
    → All IsByte bs
    → ((bs ≡ []) × (encode bs ≡ fail empty))
      ⊎ ((max_bundle_bytes < length bs) × (encode bs ≡ fail bundle_too_large))
      ⊎ ((s : Str) × (encode bs ≡ done s)
          × (length s ≤ qr_alphanumeric_l_ceiling)
          × (decode s ≡ done bs))
unfolding encode
encode_outcomes [] h = inl (refl, refl)
encode_outcomes (x ∷ xs) h = elim (Bool-cases (ltb max_bundle_bytes (length (x ∷ xs)))) [
  | inl big ↦ inr (inl (ground arith, rw big))
  | inr small ↦ inr (inr (base45_encode (x ∷ xs), rw small, fits small, back))
]
  where
    fits :
        ltb max_bundle_bytes (length (x ∷ xs)) ≡ false
        → length (base45_encode (x ∷ xs)) ≤ qr_alphanumeric_l_ceiling
    fits small = unfold base45_encoded_len in ground (arith, length-base45_encode (x ∷ xs))

    back : decode (base45_encode (x ∷ xs)) ≡ done (x ∷ xs)
    back = decode_of_ok _ x xs ((decode-iff-encode _ (x ∷ xs)).1 (refl, h))
