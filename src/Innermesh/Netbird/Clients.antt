-- ===== src/Innermesh/Netbird/Clients.antt =====
-- internal/innermesh/netbird.go, `Netbird`: which clients run.
use goat_client.Prelude.{
  ℕ, ◌<◌, Bool, true, false, ◌||◌, is_some, Option, none, some, List, [], ◌∷◌, Str, if◌then◌else◌,
  ◌≡◌, refl, ◌∙◌, arith, ap,
}
use goat_client.Innermesh.{Config}
use goat_client.Innermesh.Netbird.{
  Outcome, State, closed, configuring, up, error, MeshError, Netbird, new_netbird, configure,
  begin_connect, finish_connect, finished, first_fault, connect_calls, is_empty, require_config,
  management_url_required, setup_key_required, is_closed, connect, stop, stop_client, disconnect,
  close,
}
use goat_client.Innermesh.Netbird.Connect.{connect-ok, stop_newest}

-- The `Connect` in flight, if one has begun: it has let the lock go, with the configuration that it read.
abbrev pub in_flight : Option Config → Outcome → Option Config
in_flight c (n, some e) = none
in_flight c (n, none) = c

-- The meshes that methods reach one after another, when `Connect` is called only while no client is
-- held and no other is in flight. Any other method may come between its two halves. The flag says
-- whether a `Close` came there.
pub data Reachable : Bool → Option Config → Netbird → Type 0 where
  starts : (s : Str) (fs : List Bool) → Reachable false none (new_netbird s fs)
  configures :
      (raced : Bool) (o : Option Config) (c : Config) (n : Netbird)
      → Reachable raced o n
      → Reachable raced o ((configure c n).0)
  begins :
      (raced : Bool) (n : Netbird)
      → n.client ≡ none
      → Reachable raced none n
      → Reachable raced (in_flight n.cfg (begin_connect n)) ((begin_connect n).0)
  finishes :
      (raced : Bool) (c : Config) (n : Netbird)
      → Reachable raced (some c) n
      → Reachable raced none ((finish_connect c n).0)
  disconnects :
      (raced : Bool) (o : Option Config) (n : Netbird)
      → Reachable raced o n
      → Reachable raced o ((disconnect n).0)
  closes :
      (raced : Bool) (o : Option Config) (n : Netbird)
      → Reachable raced o n
      → Reachable (raced || is_some o) o ((close n).0)

abbrev pub held : Option ℕ → List ℕ
held none = []
held (some c) = c ∷ []

abbrev pub is_up : State → Bool
is_up up = true
is_up closed = false
is_up configuring = false
is_up error = false

abbrev pub is_held : Option ℕ → Bool
is_held none = false
is_held (some c) = true

-- What `Disconnect` and `Close` do to a mesh that holds this client.
abbrev dropped : Option ℕ → Bool → Netbird → Outcome
dropped p s n = stop_client p (record n { client = none; state = closed; shut = s })

stop_alone : (c : ℕ) → stop c (c ∷ []) ≡ []
unfolding stop
stop_alone c = ground arith

idle : (raced : Bool) (o : Option Config) → (raced || is_some o) ≡ false → o ≡ none
idle true o h = absurd (cc)
idle false none h = refl
idle false (some c) h = absurd (cc)

-- The held client is the only one that runs; a mesh is up only with one; none is held while a `Connect`
-- is in flight; and a mesh that was closed for good, and not during a `Connect`, holds none and is closed.
pub record IsValid (raced : Bool) (o : Option Config) (n : Netbird) : Type 0 where
  pub only_held : n.running ≡ held n.client
  pub up_with_client : is_up n.state ≡ true → is_held n.client ≡ true
  pub alone : is_some o ≡ true → n.client ≡ none
  pub shut_for_good :
      raced ≡ false → n.shut ≡ true → (n.state ≡ closed) × (n.client ≡ none) × (o ≡ none)

module _ (raced : Bool) (o : Option Config) (n : Netbird) (h : IsValid raced o n) where
  configure-IsValid : (c : Config) → IsValid raced o ((configure c n).0)
  unfolding configure
  configure-IsValid c = go (is_empty c.management_url) (is_empty c.setup_key) (n.shut) refl
    where
      go :
          (a b s : Bool)
          → n.shut ≡ s
          → IsValid raced o (
              (if◌then◌else◌ {A = Outcome} a
                (n, some management_url_required)
                (if b
                  then (n, some setup_key_required)
                  else (if s
                      then (n, some is_closed)
                      else (record n { cfg = some c; state = configuring }, none)))).0)
      go true b s e = h
      go false true s e = h
      go false false true e = h
      go false false false e = record {
        only_held = h.only_held;
        up_with_client = λ u. absurd (cc);
        alone = h.alone;
        shut_for_good = λ r s. absurd (cc);
      }

  -- Stopping what is held, behind `Disconnect`.
  disconnect-IsValid : (p : Option ℕ) → n.client ≡ p → IsValid raced o ((dropped p n.shut n).0)
  unfolding stop
  disconnect-IsValid none e = record {
    only_held = h.only_held ∙ ap held e;
    up_with_client = λ u. absurd (cc);
    alone = λ a. refl;
    shut_for_good = λ r s. (refl, refl, (h.shut_for_good r s).2);
  }
  disconnect-IsValid (some c) e = record {
    only_held = ap (stop c) (h.only_held ∙ ap held e) ∙ stop_alone c;
    up_with_client = λ u. absurd (cc);
    alone = λ a. refl;
    shut_for_good = λ r s. (refl, refl, (h.shut_for_good r s).2);
  }

  close-IsValid :
      (p : Option ℕ) → n.client ≡ p → IsValid (raced || is_some o) o ((dropped p true n).0)
  unfolding stop
  close-IsValid none e = record {
    only_held = h.only_held ∙ ap held e;
    up_with_client = λ u. absurd (cc);
    alone = λ a. refl;
    shut_for_good = λ r s. (refl, refl, idle raced o r);
  }
  close-IsValid (some c) e = record {
    only_held = ap (stop c) (h.only_held ∙ ap held e) ∙ stop_alone c;
    up_with_client = λ u. absurd (cc);
    alone = λ a. refl;
    shut_for_good = λ r s. (refl, refl, idle raced o r);
  }

begin-IsValid :
    (raced : Bool) (n : Netbird)
    → n.client ≡ none
    → IsValid raced none n
    → IsValid raced (in_flight n.cfg (begin_connect n)) ((begin_connect n).0)
unfolding begin_connect
begin-IsValid raced n e h = go (n.shut) (n.cfg) refl
  where
    go :
        (s : Bool) (c : Option Config)
        → n.shut ≡ s
        → IsValid raced
            (in_flight c (if s then (n, some is_closed) else require_config c n))
            ((if s then (n, some is_closed) else require_config c n).0)
    go true c es = h
    go false none es = h
    go false (some c) es = record {
      only_held = h.only_held;
      up_with_client = λ u. absurd (cc);
      alone = λ a. e;
      shut_for_good = λ r t. absurd (cc);
    }

finish-IsValid :
    (raced : Bool) (c : Config) (n : Netbird) (r : Option MeshError × List Bool)
    → IsValid raced (some c) n
    → IsValid raced none ((finished r n).0)
finish-IsValid raced c n (some x, fs) h = record {
  only_held = h.only_held;
  up_with_client = λ u. absurd (cc);
  alone = λ a. absurd (cc);
  shut_for_good = λ r s. let (a, b, busy) = h.shut_for_good r s in absurd (cc);
}
finish-IsValid raced c n (none, fs) h = record {
  only_held = ap (◌∷◌ n.started) (h.only_held ∙ ap held (h.alone refl));
  up_with_client = λ u. refl;
  alone = λ a. absurd (cc);
  shut_for_good = λ r s. let (a, b, busy) = h.shut_for_good r s in absurd (cc);
}

-- Where `Connect` is called only while no client is held and no other `Connect` is in flight, and
-- whatever fails or comes between its two halves: the held client is the only one that was started and
-- not told to stop, and the mesh is up only with a client. Where no `Close` came while a `Connect` was
-- in flight, a mesh that was closed for good holds no client and stays closed.
pub Reachable-IsValid :
    (raced : Bool) (o : Option Config) (n : Netbird) → Reachable raced o n → IsValid raced o n
unfolding new_netbird finish_connect disconnect close
Reachable-IsValid raced' o' n' (starts s fs) = record {
  only_held = refl;
  up_with_client = λ u. absurd (cc);
  alone = λ a. refl;
  shut_for_good = λ r t. absurd (cc);
}
Reachable-IsValid raced' o' n' (configures raced o c n r) =
    configure-IsValid raced o n (Reachable-IsValid raced o n r) c
Reachable-IsValid raced' o' n' (begins raced n e r) =
    begin-IsValid raced n e (Reachable-IsValid raced none n r)
Reachable-IsValid raced' o' n' (finishes raced c n r) =
    finish-IsValid raced c n (first_fault (connect_calls c) n.faults)
      (Reachable-IsValid raced (some c) n r)
Reachable-IsValid raced' o' n' (disconnects raced o n r) =
    disconnect-IsValid raced o n (Reachable-IsValid raced o n r) n.client refl
Reachable-IsValid raced' o' n' (closes raced o n r) =
    close-IsValid raced o n (Reachable-IsValid raced o n r) n.client refl

-- A `Connect` that succeeds over a held client that runs starts another, and holds that one instead
-- while both run. The `Close` that follows lets go of the second one and stops it, and leaves the
-- earlier client running.
pub close-leaves_running :
    (n : Netbird) (c : ℕ)
    → n.client ≡ some c
    → n.running ≡ c ∷ []
    → c < n.started
    → (connect n).1 ≡ none
    → (((connect n).0).client ≡ some n.started)
      × (((connect n).0).running ≡ n.started ∷ c ∷ [])
      × (((close ((connect n).0)).0).client ≡ none)
      × (((close ((connect n).0)).0).running ≡ c ∷ [])
unfolding close
close-leaves_running n c hc e lt ok =
    let (runs, holds) = connect-ok n ok in
    let (gone, left) = go (((connect n).0).client) holds in
    (holds, runs ∙ ap (◌∷◌ n.started) e, gone, left)
  where
    closing : Option ℕ → Netbird
    closing o =
        (stop_client o (record ((connect n).0) { client = none; shut = true; state = closed })).0

    go :
        (o : Option ℕ)
        → o ≡ some n.started
        → ((closing o).client ≡ none) × ((closing o).running ≡ c ∷ [])
    go none k = absurd (cc)
    go (some d) k = (
      refl,
      ap (stop d) ((connect-ok n ok).0)
          ∙ ap (λ x. stop x (n.started ∷ n.running)) same_client
          ∙ ap (λ l. stop n.started (n.started ∷ l)) e
          ∙ stop_newest c n.started lt,
    )
      where
        same_client : d ≡ n.started
        same_client = cc
