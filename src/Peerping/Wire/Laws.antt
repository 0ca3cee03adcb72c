-- ===== src/Peerping/Wire/Laws.antt =====
-- Laws of the probe datagram, of the responder and of one probe.
use goat_client.Prelude.{
  ℕ, ◌-◌, ◌/◌, ◌%◌, ◌^◌, ◌≤◌, ◌<◌, ◌≡◌, ◌≢◌, ◌↔◌, ◌⊎◌, inl, inr, refl, sym, ap, ◌∙◌, true, false,
  some, List, [], ◌∷◌, ◌++◌, IsByte, same, same_iff, length, take, drop, ltb, ◌==◌, arith, All,
  All-drop, length-drop, take-append-drop, Bool-cases, subst,
}
use goat_client.Peerping.Ring.{Sample}
use goat_client.Peerping.Wire.{
  magic, put_uint64, uint64, Decoded, seq, bad, encode_probe, decode_probe, respond, Read, datagram,
  timed_out, failed, Round, Probed, sample, probe_rounds, settle, echoes, version, packet_len,
  decode_body,
}

uint64-put_uint64 : (s : ℕ) → s < 2 ^ 64 → uint64 0 (put_uint64 s) ≡ s
unfolding uint64
uint64-put_uint64 s h = omega arith

decode-encode : (s : ℕ) (rest : List ℕ) → s < 2 ^ 64 → decode_probe (encode_probe s ++ rest) ≡ seq s
unfolding decode_probe encode_probe same
decode-encode s rest h =
    let long : ltb (length (encode_probe s ++ rest)) packet_len ≡ false = ground arith in
    rw long (ap seq (uint64-put_uint64 s h))

-- A datagram's tail is its version byte, a sequence number and whatever follows.
abbrev Body : List ℕ → ℕ → Type 0
Body c s = (s < 2 ^ 64) × ((rest : List ℕ) × (c ≡ (version ∷ put_uint64 s) ++ rest))

digits_of_uint64 :
    (a b c d e f g h : ℕ)
    → All IsByte (a ∷ b ∷ c ∷ d ∷ e ∷ f ∷ g ∷ h ∷ [])
    → let n = uint64 0 (a ∷ b ∷ c ∷ d ∷ e ∷ f ∷ g ∷ h ∷ []) in
      (n < 2 ^ 64)
      × (a ≡ n / 2 ^ 56 % 256)
      × (b ≡ n / 2 ^ 48 % 256)
      × (c ≡ n / 2 ^ 40 % 256)
      × (d ≡ n / 2 ^ 32 % 256)
      × (e ≡ n / 2 ^ 24 % 256)
      × (f ≡ n / 2 ^ 16 % 256)
      × (g ≡ n / 2 ^ 8 % 256)
      × (h ≡ n % 256)
unfolding uint64
digits_of_uint64 a b c d e f g h small = omega arith

of_digits :
    (a b c d e f g h v : ℕ) (rest : List ℕ)
    → All IsByte (a ∷ b ∷ c ∷ d ∷ e ∷ f ∷ g ∷ h ∷ [])
    → v ≡ version
    → Body
        (v ∷ a ∷ b ∷ c ∷ d ∷ e ∷ f ∷ g ∷ h ∷ rest)
        (uint64 0 (a ∷ b ∷ c ∷ d ∷ e ∷ f ∷ g ∷ h ∷ []))
of_digits a b c d e f g h v rest small is_one =
    let (fits, p, q, r, t, u, w, x, y) = digits_of_uint64 a b c d e f g h small in
    (fits, (rest, cc))

decode_body-eq-seq :
    (c : List ℕ) (s : ℕ) → 9 ≤ length c → All IsByte c → decode_body c ≡ seq s → Body c s
decode_body-eq-seq (v ∷ a ∷ b ∷ c ∷ d ∷ e ∷ f ∷ g ∷ h ∷ rest) s long small eq =
    elim (Bool-cases (v == version)) [
      | inl y ↦
          let same_seq : uint64 0 (a ∷ b ∷ c ∷ d ∷ e ∷ f ∷ g ∷ h ∷ []) ≡ s = cc (rw y at eq) in
          subst (Body (v ∷ a ∷ b ∷ c ∷ d ∷ e ∷ f ∷ g ∷ h ∷ rest)) same_seq
            (of_digits a b c d e f g h v rest (omega arith) (ground arith))
      | inr n ↦ absurd (cc (rw n at eq))
    ]
decode_body-eq-seq c s long small eq = absurd (omega arith)

decode_probe-eq-seq :
    (b : List ℕ) (s : ℕ)
    → decode_probe b ≡ seq s
    → (13 ≤ length b) × (take 4 b ≡ magic) × (decode_body (drop 4 b) ≡ seq s)
unfolding decode_probe
decode_probe-eq-seq b s h = ground (arith, same_iff (take 4 b) magic)

-- A datagram is taken for the probe numbered `s` exactly when it starts with the 13 bytes that
-- `encodeProbe` writes for that number; what follows them is ignored.
decode_probe-iff-encode_probe :
    (b : List ℕ) (s : ℕ)
    → All IsByte b
    → (decode_probe b ≡ seq s) ↔ ((s < 2 ^ 64) × ((rest : List ℕ) × (b ≡ encode_probe s ++ rest)))
unfolding encode_probe
decode_probe-iff-encode_probe b s small = (forth, λ h. back h.0 h.1.0 h.1.1)
  where
    back : s < 2 ^ 64 → (rest : List ℕ) → b ≡ encode_probe s ++ rest → decode_probe b ≡ seq s
    back h rest e = rw e (decode-encode s rest h)

    forth : decode_probe b ≡ seq s → (s < 2 ^ 64) × ((rest : List ℕ) × (b ≡ encode_probe s ++ rest))
    forth h =
        let (long, tagged, body) = decode_probe-eq-seq b s h in
        let (fits, (rest, e)) =
          decode_body-eq-seq (drop 4 b) s (omega (arith, length-drop 4 b))
            (All-drop IsByte 4 b small) body in
        (fits, (rest, sym (take-append-drop 4 b) ∙ cc))

-- The responder sends back a datagram exactly when it starts with a probe, and sends back that
-- datagram unchanged.
respond-iff-probe :
    (b r : List ℕ)
    → All IsByte b
    → (respond b ≡ some r)
      ↔ ((r ≡ b) × ((s : ℕ) × (s < 2 ^ 64) × ((rest : List ℕ) × (b ≡ encode_probe s ++ rest))))
unfolding respond
respond-iff-probe b r small = (forth, back)
  where
    of_some : respond b ≡ some r → (r ≡ b) × ((s : ℕ) × (decode_probe b ≡ seq s))
    of_some h = ground arith

    forth :
        respond b ≡ some r
        → (r ≡ b) × ((s : ℕ) × (s < 2 ^ 64) × ((rest : List ℕ) × (b ≡ encode_probe s ++ rest)))
    forth h =
        let (e, (s, d)) = of_some h in
        let (fits, starts) = (decode_probe-iff-encode_probe b s small).0 d in (e, (s, fits, starts))

    back :
        (r ≡ b) × ((s : ℕ) × (s < 2 ^ 64) × ((rest : List ℕ) × (b ≡ encode_probe s ++ rest)))
        → respond b ≡ some r
    back (e, (s, fits, starts)) =
        let d : decode_probe b ≡ seq s =
          (decode_probe-iff-encode_probe b s small).1 (fits, starts) in
        ground arith

-- A round that leaves the loop waiting: something came in time that is not the echo.
abbrev pub Ignored : ℕ → ℕ → Round → Type 0
Ignored s deadline r =
    (r.cancelled ≡ false)
    × (r.now < deadline)
    × ((b : List ℕ) × (r.read ≡ datagram b) × (decode_probe b ≢ seq s))

-- The round that ends a probe with its echo.
pub record Echoed (s start deadline : ℕ) (r : Round) (x : Sample) : Type 0 where
  pub live : r.cancelled ≡ false
  pub in_time : r.now < deadline
  pub bytes : List ℕ
  pub came : r.read ≡ datagram bytes
  pub own : decode_probe bytes ≡ seq s
  pub result : x ≡ record { seq = s; at = r.at; rtt = r.at_rtt - start; lost = false }

abbrev echo : ℕ → ℕ → Round → Sample
echo s start r = record { seq = s; at = r.at; rtt = r.at_rtt - start; lost = false }

echoes_iff : (s : ℕ) (d : Decoded) → (echoes s d ≡ true) ↔ (d ≡ seq s)
echoes_iff s (seq t) = ground arith
echoes_iff s (bad e) = ground arith

settle_cases :
    (s start : ℕ) (r : Round) (rest : Probed) (x : Sample) (rd : Read)
    → r.read ≡ rd
    → settle s start r rest ≡ sample x
    → x.lost ≡ false
    → (b : List ℕ) × (r.read ≡ datagram b)
      × (((decode_probe b ≡ seq s) × (x ≡ echo s start r))
          ⊎ ((decode_probe b ≢ seq s) × (rest ≡ sample x)))
settle_cases s start r rest x timed_out k e l = absurd (ground arith)
settle_cases s start r rest x failed k e l = absurd (ground arith)
settle_cases s start r rest x (datagram b) k e l = elim (Bool-cases (echoes s (decode_probe b))) [
  | inl y ↦ (b, k, inl ((echoes_iff s (decode_probe b)).0 y, ground arith))
  | inr n ↦ (b, k, inr (not_own n, ground arith))
]
  where
    not_own : echoes s (decode_probe b) ≡ false → decode_probe b ≢ seq s
    not_own n d =
        let y : echoes s (decode_probe b) ≡ true = (echoes_iff s (decode_probe b)).1 d in cc

probe_round :
    (s start deadline : ℕ) (r : Round) (rs : List Round) (x : Sample)
    → probe_rounds s start deadline (r ∷ rs) ≡ sample x
    → x.lost ≡ false
    → Echoed s start deadline r x
      ⊎ (Ignored s deadline r × (probe_rounds s start deadline rs ≡ sample x))
unfolding probe_rounds
probe_round s start deadline r rs x e l =
    let rest = probe_rounds s start deadline rs in
    let (live, in_time, settled) = open_round e in
    let (b, k, found) = settle_cases s start r rest x r.read refl settled l in
    elim found [
      | inl own ↦ inl (record {
        live = live;
        in_time = in_time;
        bytes = b;
        came = k;
        own = own.0;
        result = own.1;
      })
      | inr other ↦ inr ((live, in_time, (b, k, other.0)), other.1)
    ]
  where
    open_round :
        probe_rounds s start deadline (r ∷ rs) ≡ sample x
        → (r.cancelled ≡ false)
          × (r.now < deadline)
          × (settle s start r (probe_rounds s start deadline rs) ≡ sample x)
    open_round h = ground arith

-- A probe reports a round trip only from the first datagram that carries its own number, read
-- before the deadline; junk and late echoes before it are passed over, and the round trip is
-- measured from the probe's start.
pub probe_rounds-first_echo :
    (s start deadline : ℕ) (rs : List Round) (x : Sample)
    → probe_rounds s start deadline rs ≡ sample x
    → x.lost ≡ false
    → (before : List Round) × (r : Round) × (after : List Round) × (rs ≡ before ++ (r ∷ after))
      × All (Ignored s deadline) before
      × Echoed s start deadline r x
unfolding probe_rounds
probe_rounds-first_echo s start deadline [] x e l = absurd (cc)
probe_rounds-first_echo s start deadline (r ∷ rs) x e l =
    elim (probe_round s start deadline r rs x e l) [
      | inl done ↦ ([], r, rs, refl, tt, done)
      | inr skip ↦
          let (before, r', after, split, ignored, hit) =
            probe_rounds-first_echo s start deadline rs x skip.1 l in
          (r ∷ before, r', after, ap (◌∷◌ r) split, (skip.0, ignored), hit)
    ]
