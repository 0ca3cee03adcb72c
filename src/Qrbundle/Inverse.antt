-- ===== src/Qrbundle/Inverse.antt =====
-- The codec of internal/qrbundle is a bijection between byte strings and accepted texts.
use goat_client.Prelude.{
  ℕ, ◌+◌, ◌-◌, ◌*◌, ◌/◌, ◌%◌, ◌≤◌, ◌<◌, ◌≡◌, ◌↔◌, ◌≢◌, inl, inr, refl, ap, Bool, true, false, ◌&&◌,
  Option, none, some, List, [], ◌∷◌, Str, IsByte, All, arith, length, ltb, ◌==◌, ==_iff,
  holds_below, holds_below_lem, get_or-past, Bool-cases,
}
use native.Mathlib.Decide.{dec_lt}
use goat_client.Qrbundle.Base45.{
  Result, ok, err, index_range, base45_decode, decode_char, encode_char, base45_encode,
  decode_groups, base45_decode_string, decode_triplet, decode_pair,
}

abbrev gives : ℕ → Option ℕ → Bool
gives i none = false
gives i (some j) = j == i

digits_decode : holds_below (λ i. gives i (decode_char (encode_char i))) 45 ≡ true
unfolding decode_char encode_char holds_below
digits_decode = refl

of_gives : (i : ℕ) (o : Option ℕ) → gives i o ≡ true → o ≡ some i
of_gives i none h = cc
of_gives i (some j) h = ap some ((==_iff j i).0 h)

decode_char-encode_char : (i : ℕ) → i < 45 → decode_char (encode_char i) ≡ some i
decode_char-encode_char i h = of_gives i _ (holds_below_lem _ 45 i h digits_decode)

-- What a table entry says of the character that it stands at.
abbrev stands : ℕ → Option ℕ → Bool
stands c none = true
stands c (some a) = encode_char a == c && ltb a 45

chars_encode : holds_below (λ c. stands c (decode_char c)) 256 ≡ true
unfolding decode_char encode_char holds_below
chars_encode = refl

stands-some :
    (c a : ℕ) (o : Option ℕ) → stands c o ≡ true → o ≡ some a → (encode_char a ≡ c) × (a < 45)
stands-some c a none h e = absurd (cc)
stands-some c a (some j) h e = ground arith

encode_char-decode_char : (c a : ℕ) → decode_char c ≡ some a → (encode_char a ≡ c) × (a < 45)
encode_char-decode_char c a e = elim (dec_lt c 256) [
  | yes p ↦ stands-some c a _ (holds_below_lem _ 256 c p chars_encode) e
  | no p ↦ absurd (unfold decode_char in cc (get_or-past base45_decode c none (omega arith)))
]

decode_groups-base45_encode :
    (bs : List ℕ) → All IsByte bs → decode_groups (base45_encode bs) ≡ ok bs
unfolding base45_encode decode_groups
decode_groups-base45_encode [] h = refl
decode_groups-base45_encode (x ∷ []) h =
    ground (arith, decode_char-encode_char (x / 45), decode_char-encode_char (x - x / 45 * 45))
decode_groups-base45_encode (x ∷ y ∷ src) (bx, (by, hs)) =
    let n = x * 256 + y in
    let c = n / (45 * 45) in
    let n' = n - c * 45 * 45 in
    let b = n' / 45 in
    let a = n' - b * 45 in
    rw
      (
        decode_char-encode_char a (omega arith),
        decode_char-encode_char b (omega arith),
        decode_char-encode_char c (omega arith),
        decode_groups-base45_encode src hs,
      )
      (let e : a + b * 45 + c * 45 * 45 ≡ n = omega arith in rw e (ground arith))

-- What an accepted triplet and an accepted pair say of their characters.
abbrev Digits : ℕ → ℕ → Type 0
Digits x a = (encode_char a ≡ x) × (a < 45)

decode_triplet-eq-ok :
    (oa ob oc : Option ℕ) (rest : Result) (bs : List ℕ)
    → decode_triplet oa ob oc rest ≡ ok bs
    → (a b c : ℕ) × (cs : List ℕ) × (oa ≡ some a)
      × (ob ≡ some b)
      × (oc ≡ some c)
      × (rest ≡ ok cs)
      × (a + b * 45 + c * 45 * 45 ≤ 65535)
      × (bs ≡ (a + b * 45 + c * 45 * 45) / 256 % 256 ∷ (a + b * 45 + c * 45 * 45) % 256 ∷ cs)
unfolding decode_triplet
decode_triplet-eq-ok (some a) (some b) (some c) (ok cs) bs h =
    (a, b, c, cs, refl, refl, refl, refl, ground arith, ground arith)
decode_triplet-eq-ok (some a) (some b) (some c) (err e) bs h = absurd (ground arith)
decode_triplet-eq-ok _ _ _ rest bs h = absurd (cc)

decode_pair-eq-ok :
    (oa ob : Option ℕ) (bs : List ℕ)
    → decode_pair oa ob ≡ ok bs
    → (a b : ℕ) × (oa ≡ some a)
      × (ob ≡ some b)
      × (a + b * 45 ≤ 255)
      × (bs ≡ (a + b * 45) % 256 ∷ [])
unfolding decode_pair
decode_pair-eq-ok (some a) (some b) bs h = (a, b, refl, refl, ground arith, ground arith)
decode_pair-eq-ok _ _ bs h = absurd (cc)

encode_pair :
    (x y a b : ℕ)
    → Digits x a
    → Digits y b
    → a + b * 45 ≤ 255
    → (base45_encode ((a + b * 45) % 256 ∷ []) ≡ x ∷ y ∷ []) × All IsByte ((a + b * 45) % 256 ∷ [])
unfolding base45_encode
encode_pair x y a b p q h =
    let n = a + b * 45 in
    let e₁ : n % 256 - n % 256 / 45 * 45 ≡ a = omega arith in
    let e₂ : n % 256 / 45 ≡ b = omega arith in (rw (e₁, e₂, p.0, q.0), (omega arith, tt))

encode_triplet :
    (x y z a b c : ℕ) (s : Str) (cs : List ℕ)
    → Digits x a
    → Digits y b
    → Digits z c
    → a + b * 45 + c * 45 * 45 ≤ 65535
    → base45_encode cs ≡ s
    → (base45_encode
          ((a + b * 45 + c * 45 * 45) / 256 % 256 ∷ (a + b * 45 + c * 45 * 45) % 256 ∷ cs)
        ≡ x ∷ y ∷ z ∷ s)
unfolding base45_encode
encode_triplet x y z a b c s cs p q r h e =
    let n = a + b * 45 + c * 45 * 45 in
    let e₁ : n / 256 % 256 * 256 + n % 256 ≡ n = omega arith in
    let e₂ : n / (45 * 45) ≡ c = omega arith in
    let e₃ : (n - c * 45 * 45) / 45 ≡ b = omega arith in
    let e₄ : n - c * 45 * 45 - b * 45 ≡ a = omega arith in rw (e₁, e₂, e₃, e₄, p.0, q.0, r.0, e)

base45_encode-decode_groups :
    (s : Str) (bs : List ℕ) → decode_groups s ≡ ok bs → (base45_encode bs ≡ s) × All IsByte bs
unfolding decode_groups
base45_encode-decode_groups [] [] h = (unfold base45_encode in refl, tt)
base45_encode-decode_groups [] (b ∷ bs) h = absurd (cc)
base45_encode-decode_groups (x ∷ []) bs h = absurd (cc)
base45_encode-decode_groups (x ∷ y ∷ []) bs h =
    let (a, b, ea, eb, small, e) = decode_pair-eq-ok _ _ bs h in
    rw e
      (encode_pair x y a b (encode_char-decode_char x a ea) (encode_char-decode_char y b eb) small)
base45_encode-decode_groups (x ∷ y ∷ z ∷ s) bs h =
    let (a, b, c, cs, ea, eb, ec, more, small, e) = decode_triplet-eq-ok _ _ _ _ bs h in
    let (back, bytes) = base45_encode-decode_groups s cs more in
    rw e (
      encode_triplet x y z a b c s cs (encode_char-decode_char x a ea)
          (encode_char-decode_char y b eb) (encode_char-decode_char z c ec) small back,
      (omega arith, (omega arith, bytes)),
    )

length-base45_encode-mod : (bs : List ℕ) → length (base45_encode bs) % 3 ≢ 1
unfolding base45_encode
length-base45_encode-mod [] = omega arith
length-base45_encode-mod (x ∷ []) = omega arith
length-base45_encode-mod (x ∷ y ∷ src) = omega (arith, length-base45_encode-mod src)

-- The decoder accepts a text, with the bytes that it returns, exactly when the text is the
-- encoding of those bytes, all below 256. So decoding undoes encoding, no two byte strings share
-- a text and no byte string has two accepted texts.
pub decode-iff-encode :
    (s : Str) (bs : List ℕ)
    → (base45_decode_string s ≡ ok bs) ↔ ((base45_encode bs ≡ s) × All IsByte bs)
unfolding base45_decode_string
decode-iff-encode s bs = (forth, λ h. back h.0 h.1)
  where
    forth : base45_decode_string s ≡ ok bs → (base45_encode bs ≡ s) × All IsByte bs
    forth h = elim (Bool-cases (length s % 3 == 1)) [
      | inl t ↦ absurd (cc (rw t at h))
      | inr f ↦ base45_encode-decode_groups s bs (rw f at h)
    ]

    back : base45_encode bs ≡ s → All IsByte bs → base45_decode_string s ≡ ok bs
    back e h =
        let small : (length (base45_encode bs) % 3 == 1) ≡ false =
          ground (arith, length-base45_encode-mod bs) in
        rw (← e, small) (decode_groups-base45_encode bs h)

decode_pair_in_range : (oa ob : Option ℕ) → decode_pair oa ob ≢ err index_range
unfolding decode_pair
decode_pair_in_range (some a) (some b) = ground arith
decode_pair_in_range _ _ = ground arith

decode_triplet_in_range :
    (oa ob oc : Option ℕ) (rest : Result)
    → rest ≢ err index_range
    → decode_triplet oa ob oc rest ≢ err index_range
unfolding decode_triplet
decode_triplet_in_range (some a) (some b) (some c) (ok bs) h = ground arith
decode_triplet_in_range (some a) (some b) (some c) (err e) h = ground arith
decode_triplet_in_range _ _ _ rest h = ground arith

decode_groups_in_range : (s : Str) → length s % 3 ≢ 1 → decode_groups s ≢ err index_range
unfolding decode_groups
decode_groups_in_range [] h = ground arith
decode_groups_in_range (x ∷ []) h = absurd (h (omega arith))
decode_groups_in_range (x ∷ y ∷ []) h = decode_pair_in_range (decode_char x) (decode_char y)
decode_groups_in_range (x ∷ y ∷ z ∷ s) h =
    decode_triplet_in_range (decode_char x) (decode_char y) (decode_char z) _
      (decode_groups_in_range s (omega arith))

-- No text makes the decoder read past the end of its input.
decode_in_range : (s : Str) → base45_decode_string s ≢ err index_range
unfolding base45_decode_string
decode_in_range s = elim (Bool-cases (length s % 3 == 1)) [
  | inl t ↦ rw t (ground arith)
  | inr f ↦ rw f (decode_groups_in_range s (ground arith))
]
