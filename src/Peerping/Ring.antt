-- ===== src/Peerping/Ring.antt =====
-- internal/peerping/ring.go: the rolling history of probe outcomes. A `time.Duration` is its
-- 64-bit pattern, a time is a number of nanoseconds, and a write under the lock is one step.
pub mod Order
pub mod Summary
use goat_client.Prelude.{
  ℕ, zero, suc, ◌+◌, ◌-◌, ◌/◌, ◌%◌, ◌^◌, Bool, true, false, Option, none, some, List, [], ◌∷◌,
  length, replicate, get_or, set, ltb, leb, ◌==◌, ◌||◌, if◌then◌else◌, back_index, forward,
}

pub record Sample : Type 0 where
  pub seq : ℕ
  pub at : ℕ
  pub rtt : ℕ
  pub lost : Bool

abbrev pub zero_sample : Sample
zero_sample = record { seq = 0; at = 0; rtt = 0; lost = false }

abbrev pub default_history : ℕ
default_history = 120

-- `n` is the number of valid samples, `head` the index of the next write.
pub record Ring : Type 0 where
  pub buf : List Sample
  pub head : ℕ
  pub n : ℕ

-- A capacity that is not positive is 0 here.
unfoldable pub new_ring : ℕ → Ring
new_ring capacity =
    let cap = if capacity == 0 then default_history else capacity in
    record { buf = replicate cap zero_sample; head = 0; n = 0 }

unfoldable pub add : Ring → Sample → Ring
add r s = record {
  buf = set r.buf r.head s;
  head = (r.head + 1) % length r.buf;
  n = if ltb r.n (length r.buf) then r.n + 1 else r.n;
}

abbrev pub cap : Ring → ℕ
cap r = length r.buf

abbrev pub len : Ring → ℕ
len r = r.n

-- `r.head - r.n + len(r.buf)` is not negative, since `n` is at most the length.
unfoldable pub samples : Ring → List Sample
samples r =
    let start = (r.head + length r.buf - r.n) % length r.buf in
    forward r.buf (length r.buf) zero_sample start 0 r.n

unfoldable pub last : Ring → Option Sample
last r =
    if r.n == 0 then none else some (get_or r.buf (back_index (length r.buf) r.head 0) zero_sample)

-- `LossPct` is a float, `lost / n * 100`, and is left to the reader of the two counts.
pub record Stats : Type 0 where
  pub n : ℕ
  pub lost : ℕ
  pub min : ℕ
  pub max : ℕ
  pub avg : ℕ
  pub last : ℕ

-- Comparison, sum and quotient of int64 bit patterns.
abbrev pub lt_int64 : ℕ → ℕ → Bool
lt_int64 a b = ltb ((a + 2 ^ 63) % 2 ^ 64) ((b + 2 ^ 63) % 2 ^ 64)

abbrev pub add_int64 : ℕ → ℕ → ℕ
add_int64 a b = (a + b) % 2 ^ 64

-- The divisor is a count, so it is positive.
abbrev pub div_int64 : ℕ → ℕ → ℕ
div_int64 a k = if ltb a (2 ^ 63) then a / k else (2 ^ 64 - (2 ^ 64 - a) / k) % 2 ^ 64

-- The variables of the loop in `Stats`.
pub record Tally : Type 0 where
  pub st : Stats
  pub sum : ℕ
  pub ok : ℕ

abbrev pub zero_stats : Stats
zero_stats = record { n = 0; lost = 0; min = 0; max = 0; avg = 0; last = 0 }

-- One round of the loop in `Stats`.
unfoldable pub tally : Tally → Sample → Tally
tally t s = if s.lost then record t { st = record st { lost = st.lost + 1 } } else record {
  st = record st {
    min = if t.ok == 0 || lt_int64 s.rtt st.min then s.rtt else st.min;
    max = if lt_int64 st.max s.rtt then s.rtt else st.max;
    last = s.rtt;
  };
  sum = add_int64 t.sum s.rtt;
  ok = t.ok + 1;
}
  where
    open t use {st}

unfoldable pub tally_all : Tally → List Sample → Tally
tally_all t [] = t
tally_all t (s ∷ ss) = tally_all (tally t s) ss

abbrev pub start_tally : ℕ → Tally
start_tally n = record { st = record zero_stats { n = n }; sum = 0; ok = 0 }

abbrev pub finish : Tally → Stats
finish t = if ltb 0 t.ok then record (t.st) { avg = div_int64 t.sum t.ok } else t.st

unfoldable pub stats : Ring → Stats
stats r =
    if r.n == 0
    then record zero_stats { n = r.n }
    else finish (tally_all (start_tally r.n) (samples r))
