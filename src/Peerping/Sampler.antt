-- ===== src/Peerping/Sampler.antt =====
-- internal/peerping/pinger.go, `Run`: the sampler of one peer. Each firing of its ticker is one probe; a
-- probe whose rounds end is still waiting, and nothing follows it.
pub mod Numbered
use goat_client.Prelude.{ℕ, ◌+◌, ◌^◌, ◌%◌, Bool, Option, none, some, List, [], ◌∷◌, if◌then◌else◌}
use goat_client.Peerping.Ring.{Sample, Ring, add}
use goat_client.Peerping.Wire.{
  Round, Probed, sample, context_error, socket_error, waiting, lost_sample, probe,
}

-- The clock when the probe starts, whether it can be written, its rounds, whether the context is done when
-- the probe has failed, and the clock then.
pub record Firing : Type 0 where
  pub start : ℕ
  pub sent : Bool
  pub rounds : List Round
  pub cancelled : Bool
  pub failed_at : ℕ

-- The counter is a uint64.
abbrev pub next_seq : ℕ → ℕ
next_seq n = (n + 1) % 2 ^ 64

-- The sample that is added, if one is.
abbrev pub sampled : ℕ → Firing → Probed → Option Sample
sampled s f (sample x) = some x
sampled s f context_error = none
sampled s f socket_error = if f.cancelled then none else some (lost_sample s f.failed_at)
sampled s f waiting = none

abbrev pub add_sampled : Option Sample → Ring → Ring
add_sampled none r = r
add_sampled (some x) r = add r x

-- `Run` after the socket is open, with the timeout of a probe.
unfoldable pub run : ℕ → ℕ → List Firing → Ring → Ring
run timeout n [] r = r
run timeout n (f ∷ fs) r =
    let s = next_seq n in
    run timeout s fs (add_sampled (sampled s f (probe s f.start timeout f.sent f.rounds)) r)
