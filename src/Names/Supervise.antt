-- ===== src/Names/Supervise.antt =====
-- internal/names/forwarder.go, `Start`, `supervise` and `setHealthy`: the listener of the forwarder and its
-- health. `events` are the calls of the health callback, newest first, and `waits` the delays slept,
-- in seconds.
pub mod Health
use goat_client.Prelude.{
  ℕ, zero, suc, Bool, true, false, not, List, [], ◌∷◌, ◌==◌, if◌then◌else◌, ◌≡◌,
}

-- Serving on a bound socket, or before the attempt of this number to bind it again.
pub data Listener : Type 0 where
  serving : Listener
  rebinding : ℕ → Listener

pub record Supervisor : Type 0 where
  pub listener : Listener
  pub healthy : Bool
  pub events : List Bool
  pub waits : List ℕ

-- The number of `rebindDelays`.
abbrev pub ladder : ℕ
ladder = 5

-- `f.rebindDelays[min(i, len(f.rebindDelays)-1)]`.
unfoldable pub rebind_delay : ℕ → ℕ
rebind_delay zero = 1
rebind_delay (suc zero) = 2
rebind_delay (suc (suc zero)) = 5
rebind_delay (suc (suc (suc zero))) = 15
rebind_delay (suc (suc (suc (suc n)))) = 30

-- `Start`, where the address can be bound.
abbrev pub started : Supervisor
started = record { listener = serving; healthy = true; events = []; waits = [] }

abbrev pub differs : Bool → Bool → Bool
differs true b = not b
differs false b = b

unfoldable pub set_healthy : Bool → Supervisor → Supervisor
set_healthy up s =
    if differs s.healthy up
    then record s { healthy = up; events = up ∷ s.events }
    else record s { healthy = up }

-- The top of the loop around attempt `i`: the exhausted ladder, and the delay.
unfoldable pub begin : ℕ → Supervisor → Supervisor
begin i s =
    let s' = if i == ladder then set_healthy false s else s in
    record s' { listener = rebinding i; waits = rebind_delay i ∷ s'.waits }

-- What happens to the listener: its serving ends, or an attempt fails or succeeds.
pub data Step : Supervisor → Supervisor → Type 0 where
  crashes : (s : Supervisor) → s.listener ≡ serving → Step s (begin 0 s)
  fails : (s : Supervisor) (i : ℕ) → s.listener ≡ rebinding i → Step s (begin (suc i) s)
  binds :
      (s : Supervisor) (i : ℕ)
      → s.listener ≡ rebinding i
      → Step s (set_healthy true (record s { listener = serving }))

pub data Reachable : Supervisor → Type 0 where
  at_start : Reachable started
  after : (s s' : Supervisor) → Reachable s → Step s s' → Reachable s'
