-- ===== src/Innermesh/Netbird/Connect.antt =====
-- internal/innermesh/netbird.go, `Netbird.Connect`: what it does where it returns no error.
use goat_client.Prelude.{
  ℕ, ◌<◌, Bool, true, false, Option, none, some, List, [], ◌∷◌, if◌then◌else◌, ◌≡◌, refl, arith,
}
use goat_client.Innermesh.{Config}
use goat_client.Innermesh.Netbird.{
  configuring, up, MeshError, Netbird, begin_connect, finish_connect, finished, first_fault,
  connect_calls, require_config, and_finish, is_closed, connect, stop,
}

pub connect-ok :
    (n : Netbird)
    → (connect n).1 ≡ none
    → (((connect n).0).running ≡ n.started ∷ n.running) × (((connect n).0).client ≡ some n.started)
unfolding connect begin_connect finish_connect
connect-ok n ok = go (n.shut) (n.cfg) ok
  where
    begun : Netbird
    begun = record n { state = configuring }

    done :
        (r : Option MeshError × List Bool)
        → (finished r begun).1 ≡ none
        → (((finished r begun).0).running ≡ n.started ∷ n.running)
          × (((finished r begun).0).client ≡ some n.started)
    done (some x, fs) k = absurd (cc)
    done (none, fs) k = (refl, refl)

    go :
        (s : Bool) (o : Option Config)
        → (and_finish o (if s then (n, some is_closed) else require_config o n)).1 ≡ none
        → (((and_finish o (if s then (n, some is_closed) else require_config o n)).0).running
            ≡ n.started ∷ n.running)
          × (((and_finish o (if s then (n, some is_closed) else require_config o n)).0).client
              ≡ some n.started)
    go true o k = absurd (cc)
    go false none k = absurd (cc)
    go false (some c) k = done (first_fault (connect_calls c) n.faults) k

pub stop_newest : (c d : ℕ) → c < d → stop d (d ∷ c ∷ []) ≡ c ∷ []
unfolding stop
stop_newest c d h = ground arith

-- A connection without an error leaves the mesh up.
pub connect-up : (n : Netbird) → (connect n).1 ≡ none → ((connect n).0).state ≡ up
unfolding connect begin_connect finish_connect
connect-up n ok = go (n.shut) (n.cfg) ok
  where
    done :
        (r : Option MeshError × List Bool) (m : Netbird)
        → (finished r m).1 ≡ none
        → ((finished r m).0).state ≡ up
    done (some x, fs) m k = absurd (cc)
    done (none, fs) m k = refl

    go :
        (s : Bool) (o : Option Config)
        → (and_finish o (if s then (n, some is_closed) else require_config o n)).1 ≡ none
        → ((and_finish o (if s then (n, some is_closed) else require_config o n)).0).state ≡ up
    go true o k = absurd (cc)
    go false none k = absurd (cc)
    go false (some c) k =
        done (first_fault (connect_calls c) n.faults) (record n { state = configuring }) k
