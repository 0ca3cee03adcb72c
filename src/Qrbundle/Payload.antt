-- ===== src/Qrbundle/Payload.antt =====
-- internal/qrbundle/qrbundle.go: the size budget around the codec.
use goat_client.Prelude.{ℕ, ◌*◌, ◌/◌, List, [], ◌∷◌, Str, length, ltb, if◌then◌else◌}
use goat_client.Qrbundle.Base45.{Error, Result, ok, err, base45_encode, base45_decode_string}

abbrev pub qr_alphanumeric_l_ceiling : ℕ
qr_alphanumeric_l_ceiling = 4296

abbrev pub max_bundle_bytes : ℕ
max_bundle_bytes = qr_alphanumeric_l_ceiling / 3 * 2

pub data Failure : Type 0 where
  empty : Failure
  bundle_too_large : Failure
  malformed : Error → Failure

pub data Outcome : Type 0 where
  done : List ℕ → Outcome
  fail : Failure → Outcome

unfoldable pub encode : List ℕ → Outcome
encode [] = fail empty
encode (x ∷ xs) =
    if ltb max_bundle_bytes (length (x ∷ xs))
    then fail bundle_too_large
    else done (base45_encode (x ∷ xs))

abbrev wrap : Result → Outcome
wrap (ok bs) = done bs
wrap (err e) = fail (malformed e)

unfoldable pub decode : Str → Outcome
decode [] = fail empty
decode (c ∷ cs) = wrap (base45_decode_string (c ∷ cs))
