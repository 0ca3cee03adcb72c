-- ===== src/Qrbundle/Base45.antt =====
-- internal/qrbundle/base45.go: the RFC 9285 codec. A byte is a number below 256, a Go string is
-- the list of its bytes, and `src[i]<<8 | src[i+1]` on bytes is `src[i] * 256 + src[i+1]`.
use goat_client.Prelude.{
  ℕ, ◌+◌, ◌-◌, ◌*◌, ◌/◌, ◌%◌, Option, none, some, List, [], ◌∷◌, ◌++◌, Str, codes, get_or, set,
  replicate, length, ltb, ◌==◌, if◌then◌else◌,
}

abbrev pub base45_alphabet : Str
base45_alphabet = codes "0123456789ABCDEFGHIJKLMNOPQRSTUVWXYZ $%*+-./:"

-- The loop of `init`: entry `alphabet[i]` of the table becomes `i`; -1 is `none`.
abbrev fill : List (Option ℕ) → ℕ → Str → List (Option ℕ)
fill table i [] = table
fill table i (c ∷ cs) = fill (set table c (some i)) (i + 1) cs

abbrev pub base45_decode : List (Option ℕ)
base45_decode = fill (replicate 256 none) 0 base45_alphabet

unfoldable pub decode_char : ℕ → Option ℕ
decode_char c = get_or base45_decode c none

unfoldable pub encode_char : ℕ → ℕ
encode_char i = get_or base45_alphabet i 0

unfoldable pub base45_encoded_len : ℕ → ℕ
base45_encoded_len n = if n % 2 == 0 then n / 2 * 3 else (n - 1) / 2 * 3 + 2

unfoldable pub base45_encode : List ℕ → Str
base45_encode [] = []
base45_encode (x ∷ []) = let b = x / 45 in let a = x - b * 45 in encode_char a ∷ encode_char b ∷ []
base45_encode (x ∷ y ∷ src) =
    let n = x * 256 + y in
    let c = n / (45 * 45) in
    let n' = n - c * 45 * 45 in
    let b = n' / 45 in
    let a = n' - b * 45 in encode_char a ∷ encode_char b ∷ encode_char c ∷ base45_encode src

-- The `errBase45` returns, and the run-time panic of an index out of range.
pub data Error : Type 0 where
  bad_length bad_char too_big index_range : Error

pub data Result : Type 0 where
  ok : List ℕ → Result
  err : Error → Result

-- What is appended to `out` before the bytes that the rest of the input gives.
abbrev pub prepend : List ℕ → Result → Result
prepend bs (ok cs) = ok (bs ++ cs)
prepend bs (err e) = err e

-- One triplet, with the rest of the loop already bound.
unfoldable pub decode_triplet : Option ℕ → Option ℕ → Option ℕ → Result → Result
decode_triplet (some a) (some b) (some c) rest =
    let n = a + b * 45 + c * 45 * 45 in
    if ltb 65535 n then err too_big else prepend (n / 256 % 256 ∷ n % 256 ∷ []) rest
decode_triplet _ _ _ _ = err bad_char

unfoldable pub decode_pair : Option ℕ → Option ℕ → Result
decode_pair (some a) (some b) =
    let n = a + b * 45 in if ltb 255 n then err too_big else ok (n % 256 ∷ [])
decode_pair _ _ = err bad_char

-- The two loops; a lone last character would be read past its end.
unfoldable pub decode_groups : Str → Result
unfolding decode_triplet decode_pair
decode_groups [] = ok []
decode_groups (x ∷ []) = err index_range
decode_groups (x ∷ y ∷ []) = decode_pair (decode_char x) (decode_char y)
decode_groups (x ∷ y ∷ z ∷ s) =
    let rest = decode_groups s in
    decode_triplet (decode_char x) (decode_char y) (decode_char z) rest

unfoldable pub base45_decode_string : Str → Result
unfolding decode_groups
base45_decode_string s = if length s % 3 == 1 then err bad_length else decode_groups s
