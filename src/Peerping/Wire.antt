-- ===== src/Peerping/Wire.antt =====
-- internal/peerping/peerping.go, responder.go and pinger.go: the 13-byte probe datagram, what the
-- responder does with one datagram, and one probe of the pinger. A datagram is the list of its bytes.
pub mod Laws
use goat_client.Prelude.{
  ℕ, zero, suc, ◌+◌, ◌-◌, ◌*◌, ◌/◌, ◌%◌, ◌^◌, Bool, true, false, Option, none, some, List, [], ◌∷◌,
  ◌++◌, Str, codes, same, length, take, drop, ltb, leb, ◌==◌, not, ◌||◌, if◌then◌else◌,
}
use goat_client.Peerping.Ring.{Sample}

abbrev pub magic : Str
magic = codes "gpng"

abbrev pub version : ℕ
version = 1

abbrev pub packet_len : ℕ
packet_len = length magic + 1 + 8

-- `binary.BigEndian.PutUint64`.
abbrev pub put_uint64 : ℕ → List ℕ
put_uint64 v =
    (v / 2 ^ 56 % 256)
    ∷ (v / 2 ^ 48 % 256)
    ∷ (v / 2 ^ 40 % 256)
    ∷ (v / 2 ^ 32 % 256)
    ∷ (v / 2 ^ 24 % 256)
    ∷ (v / 2 ^ 16 % 256)
    ∷ (v / 2 ^ 8 % 256)
    ∷ (v % 256)
    ∷ []

-- `binary.BigEndian.Uint64` of a slice, from what was read so far.
unfoldable pub uint64 : ℕ → List ℕ → ℕ
uint64 acc [] = acc
uint64 acc (b ∷ bs) = uint64 (acc * 256 + b) bs

pub data DecodeError : Type 0 where
  short_packet bad_magic bad_version : DecodeError

pub data Decoded : Type 0 where
  seq : ℕ → Decoded
  bad : DecodeError → Decoded

unfoldable pub encode_probe : ℕ → List ℕ
encode_probe s = magic ++ (version ∷ put_uint64 s)

-- `b[4]` and `b[5:13]`; the length test above makes them exist.
abbrev pub decode_body : List ℕ → Decoded
decode_body [] = bad short_packet
decode_body (v ∷ rest) =
    if not (v == version) then bad bad_version else seq (uint64 0 (take 8 rest))

unfoldable pub decode_probe : List ℕ → Decoded
decode_probe b =
    if ltb (length b) packet_len
    then bad short_packet
    else if not (same (take 4 b) magic)
    then bad bad_magic
    else decode_body (drop 4 b)

-- One datagram in the loop of `Responder.Serve`: what is sent back, if anything.
unfoldable pub respond : List ℕ → Option (List ℕ)
respond b = elim (decode_probe b) [ seq s ↦ some b | bad e ↦ none ]

-- What one blocking read of the pinger gives.
pub data Read : Type 0 where
  datagram : List ℕ → Read
  timed_out : Read
  failed : Read

-- One round of the loop in `Pinger.Probe`: whether the context is done before and after the read,
-- the clock before it, what it gave, and the two clock readings behind it.
pub record Round : Type 0 where
  pub cancelled : Bool
  pub now : ℕ
  pub read : Read
  pub cancelled_after : Bool
  pub at : ℕ
  pub at_rtt : ℕ

pub data Probed : Type 0 where
  sample : Sample → Probed
  context_error : Probed
  socket_error : Probed
  waiting : Probed

abbrev pub lost_sample : ℕ → ℕ → Sample
lost_sample s at = record { seq = s; at = at; rtt = 0; lost = true }

-- `gotSeq != seq` and the decoding error, in one test.
abbrev pub echoes : ℕ → Decoded → Bool
echoes s (seq t) = t == s
echoes s (bad e) = false

abbrev pub settle : ℕ → ℕ → Round → Probed → Probed
settle s start r rest = elim (r.read) [
  | timed_out ↦ sample (lost_sample s r.at)
  | failed ↦ if r.cancelled_after then context_error else socket_error
  | datagram b ↦
      if echoes s (decode_probe b)
      then sample (record { seq = s; at = r.at; rtt = r.at_rtt - start; lost = false })
      else rest
]

-- The loop of `Probe`, over the rounds that the environment gives; `waiting` where they end.
-- The clock is monotonic, so `remaining` and the round trip are differences of naturals.
unfoldable pub probe_rounds : ℕ → ℕ → ℕ → List Round → Probed
probe_rounds s start deadline [] = waiting
probe_rounds s start deadline (r ∷ rs) =
    let rest = probe_rounds s start deadline rs in
    if r.cancelled
    then context_error
    else if leb deadline r.now
    then sample (lost_sample s r.at)
    else settle s start r rest

-- `Probe`: the write, then the loop until `start + timeout`.
unfoldable pub probe : ℕ → ℕ → ℕ → Bool → List Round → Probed
probe s start timeout sent rs =
    if sent then probe_rounds s start (start + timeout) rs else socket_error
