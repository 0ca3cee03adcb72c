-- ===== src/Tunnel/Manager/Invariant.antt =====
-- internal/tunnel/tunnel.go, `Manager`: what every sequence of its methods keeps to.
use goat_client.Prelude.{
  Bool, true, false, not, Option, none, some, List, [], ◌∷◌, length, ◌&&◌, ◌==◌, ◌≡◌, refl,
  Bool-cases, inl, inr, sym, ◌∙◌, arith, and_true,
}
use goat_client.Tunnel.{Platform, Config}
use goat_client.Tunnel.Manager.{
  State, closed, configuring, up, error, Call, create, configure, bring_up, bring_down, release,
  read_stats, Manager, new_manager, call, call_facing, reconfigure, start, apply, connect_device,
  created, connect_with, connect_to, downed, disconnect_with, released, close_with, stats_with,
  with_defaults, configure_manager, connect, disconnect, close, stats,
}

-- Whether a device is held after the calls.
abbrev pub holding : List Call → Bool
holding [] = false
holding (create b ∷ cs) = b
holding (release b ∷ cs) = false
holding (configure c b ∷ cs) = holding cs
holding (bring_up b ∷ cs) = holding cs
holding (bring_down b ∷ cs) = holding cs
holding (read_stats b ∷ cs) = holding cs

-- Whether the last call that could change it left the device routable.
abbrev pub routable : List Call → Bool
routable [] = false
routable (create b ∷ cs) = false
routable (release b ∷ cs) = false
routable (configure c b ∷ cs) = routable cs
routable (bring_up b ∷ cs) = b
routable (bring_down b ∷ cs) = false
routable (read_stats b ∷ cs) = routable cs

-- A device is made only where none is held, and used only where one is.
abbrev pub disciplined : List Call → Bool
disciplined [] = true
disciplined (create b ∷ cs) = not (holding cs) && disciplined cs
disciplined (release b ∷ cs) = holding cs && disciplined cs
disciplined (configure c b ∷ cs) = holding cs && disciplined cs
disciplined (bring_up b ∷ cs) = holding cs && disciplined cs
disciplined (bring_down b ∷ cs) = holding cs && disciplined cs
disciplined (read_stats b ∷ cs) = holding cs && disciplined cs

-- What the state says of a device: up is routable and closed is not.
abbrev pub agrees : State → Bool → Bool
agrees up r = r
agrees closed r = not r
agrees configuring r = true
agrees error r = true

abbrev pub complete : Option Config → Bool
complete none = true
complete (some c) = (length c.private_key == 32) && (length c.peer.public_key == 32)

pub record IsValid (m : Manager) : Type 0 where
  pub device : holding m.calls ≡ m.tun
  pub discipline : disciplined m.calls ≡ true
  pub status : agrees m.state (routable m.calls) ≡ true
  pub keys : complete m.cfg ≡ true

-- A routable device is a held one.
holding_of_routable :
    (cs : List Call) → disciplined cs ≡ true → routable cs ≡ true → holding cs ≡ true
holding_of_routable [] h r = absurd (cc)
holding_of_routable (create b ∷ cs) h r = absurd (cc)
holding_of_routable (release b ∷ cs) h r = absurd (cc)
holding_of_routable (configure c b ∷ cs) h r = (and_true (holding cs) (disciplined cs) h).0
holding_of_routable (bring_up b ∷ cs) h r = (and_true (holding cs) (disciplined cs) h).0
holding_of_routable (bring_down b ∷ cs) h r = absurd (cc)
holding_of_routable (read_stats b ∷ cs) h r = (and_true (holding cs) (disciplined cs) h).0

-- A call succeeds or fails, and the rest of the faults is to come.
call_cases :
    (P : Manager × Bool → Type 0) (c : Bool → Call) (m : Manager)
    → ((fs : List Bool) → P (record m { calls = c true ∷ m.calls; faults = fs }, true))
    → ((fs : List Bool) → P (record m { calls = c false ∷ m.calls; faults = fs }, false))
    → P (call c m)
call_cases P c m h k = go (m.faults)
  where
    go : (fs : List Bool) → P (call_facing fs c m)
    go [] = h []
    go (true ∷ fs) = k fs
    go (false ∷ fs) = h fs

module _ (m : Manager) (h : IsValid m) where
  configure-IsValid : (c : Config) → IsValid ((configure_manager c m).0)
  unfolding configure_manager with_defaults
  configure-IsValid c = elim (Bool-cases (length c.private_key == 32)) [
    | inr n ↦ simp n h
    | inl p ↦ elim (Bool-cases (length c.peer.public_key == 32)) [
      | inr n ↦ simp (p, n) h
      | inl q ↦ simp (p, q) (set p q (m.tun) refl)
    ]
  ]
    where
      set :
          length c.private_key == 32 ≡ true
          → length c.peer.public_key == 32 ≡ true
          → (t : Bool) → m.tun ≡ t
          → IsValid (
              (reconfigure t
                (with_defaults m.platform c)
                (record m { cfg = some (with_defaults m.platform c) })).0)
      set p q false e = record {
        device = h.device;
        discipline = h.discipline;
        status = h.status;
        keys = ground arith;
      }
      set p q true e =
          call_cases (λ o. IsValid (o.0)) (configure (with_defaults m.platform c))
            (record m { cfg = some (with_defaults m.platform c) })
            (λ _. record {
              device = h.device;
              discipline = ground (arith, h.device, h.discipline);
              status = h.status;
              keys = ground arith;
            })
            (λ _. record {
              device = h.device;
              discipline = ground (arith, h.device, h.discipline);
              status = h.status;
              keys = ground arith;
            })

  disconnect-IsValid : IsValid ((disconnect m).0)
  unfolding disconnect
  disconnect-IsValid = go (m.tun) refl
    where
      go : (t : Bool) → m.tun ≡ t → IsValid ((disconnect_with t m).0)
      go false e = record {
        device = h.device;
        discipline = h.discipline;
        status = ground (arith, h.device, h.discipline, holding_of_routable (m.calls));
        keys = h.keys;
      }
      go true e =
          call_cases (λ o. IsValid ((downed o).0)) bring_down m
            (λ _. record {
              device = h.device;
              discipline = ground (arith, h.device, h.discipline);
              status = refl;
              keys = h.keys;
            })
            (λ _. record {
              device = h.device;
              discipline = ground (arith, h.device, h.discipline);
              status = refl;
              keys = h.keys;
            })

  close-IsValid : IsValid ((close m).0)
  unfolding close
  close-IsValid = go (m.tun) refl
    where
      go : (t : Bool) → m.tun ≡ t → IsValid ((close_with t m).0)
      go false e = h
      go true e =
          call_cases (λ o. IsValid ((released o).0)) release m
            (λ _. record {
              device = refl;
              discipline = ground (arith, h.device, h.discipline);
              status = refl;
              keys = h.keys;
            })
            (λ _. record {
              device = refl;
              discipline = ground (arith, h.device, h.discipline);
              status = refl;
              keys = h.keys;
            })

  stats-IsValid : IsValid ((stats m).0)
  unfolding stats
  stats-IsValid = go (m.tun) refl
    where
      go : (t : Bool) → m.tun ≡ t → IsValid ((stats_with t m).0)
      go false e = h
      go true e =
          call_cases (λ o. IsValid (o.0)) read_stats m
            (λ _. record {
              device = h.device;
              discipline = ground (arith, h.device, h.discipline);
              status = h.status;
              keys = h.keys;
            })
            (λ _. record {
              device = h.device;
              discipline = ground (arith, h.device, h.discipline);
              status = h.status;
              keys = h.keys;
            })

  connect_device-IsValid :
      (m' : Manager) (c : Config)
      → m'.tun ≡ true
      → holding m'.calls ≡ true
      → disciplined m'.calls ≡ true
      → complete m'.cfg ≡ true
      → IsValid ((connect_device c m').0)
  connect_device-IsValid m' c t d p k =
      call_cases (λ o. IsValid ((apply o).0)) (configure c) (record m' { state = configuring })
        (λ fs.
          call_cases (λ o. IsValid ((start o).0)) bring_up
            (record m' { state = configuring; calls = configure c true ∷ m'.calls; faults = fs })
            (λ _. record {
              device = d ∙ sym t;
              discipline = ground (arith, d, p);
              status = refl;
              keys = k;
            })
            (λ _. record {
              device = d ∙ sym t;
              discipline = ground (arith, d, p);
              status = refl;
              keys = k;
            }))
        (λ _. record {
          device = d ∙ sym t;
          discipline = ground (arith, d, p);
          status = refl;
          keys = k;
        })

  connect-IsValid : IsValid ((connect m).0)
  unfolding connect
  connect-IsValid = go (m.cfg)
    where
      with_device : (c : Config) (t : Bool) → m.tun ≡ t → IsValid ((connect_with t c m).0)
      with_device c true e = connect_device-IsValid m c e (h.device ∙ e) (h.discipline) (h.keys)
      with_device c false e =
          call_cases (λ o. IsValid ((created c o).0)) create m
            (λ fs.
              connect_device-IsValid
                (record m { tun = true; calls = create true ∷ m.calls; faults = fs }) c refl refl
                (ground (arith, h.device, h.discipline)) (h.keys))
            (λ _. record {
              device = sym e;
              discipline = ground (arith, h.device, h.discipline);
              status = refl;
              keys = h.keys;
            })

      go : (o : Option Config) → IsValid ((connect_to o m).0)
      go none = h
      go (some c) = with_device c (m.tun) refl

pub data Op : Type 0 where
  configuring_to : Config → Op
  connecting disconnecting closing reading : Op

abbrev pub step : Op → Manager → Manager
step (configuring_to c) m = (configure_manager c m).0
step connecting m = (connect m).0
step disconnecting m = (disconnect m).0
step closing m = (close m).0
step reading m = (stats m).0

abbrev pub run : List Op → Manager → Manager
run [] m = m
run (o ∷ os) m = run os (step o m)

step-IsValid : (o : Op) (m : Manager) → IsValid m → IsValid (step o m)
step-IsValid (configuring_to c) m h = configure-IsValid m h c
step-IsValid connecting m h = connect-IsValid m h
step-IsValid disconnecting m h = disconnect-IsValid m h
step-IsValid closing m h = close-IsValid m h
step-IsValid reading m h = stats-IsValid m h

run_from-IsValid : (os : List Op) (m : Manager) → IsValid m → IsValid (run os m)
run_from-IsValid [] m h = h
run_from-IsValid (o ∷ os) m h = run_from-IsValid os (step o m) (step-IsValid o m h)

-- After any calls of its methods, and whatever the device fails at, the manager has never made a
-- second device beside one that it holds and never used one that it does not hold. It is up only
-- over a device whose last change of state was a successful `Up`, closed only over none that is
-- routable, and configured only with keys of 32 bytes.
pub run-IsValid :
    (platform : Platform) (os : List Op) (faults : List Bool)
    → IsValid (run os (new_manager platform faults))
run-IsValid platform os faults =
    run_from-IsValid os (new_manager platform faults)
      (record { device = refl; discipline = refl; status = refl; keys = refl })

start-up : (o : Manager × Bool) → (start o).1 ≡ none → ((start o).0).state ≡ up
start-up (m, true) h = refl
start-up (m, false) h = absurd (cc)

apply-up : (o : Manager × Bool) → (apply o).1 ≡ none → ((apply o).0).state ≡ up
apply-up (m, true) h = start-up (call bring_up m) h
apply-up (m, false) h = absurd (cc)

-- A connection without an error leaves the manager up.
pub connect-up : (m : Manager) → (connect m).1 ≡ none → ((connect m).0).state ≡ up
unfolding connect
connect-up m h = to (m.cfg) h
  where
    with_made :
        (c : Config) (o : Manager × Bool) → (created c o).1 ≡ none → ((created c o).0).state ≡ up
    with_made c (m', true) k =
        apply-up (call (configure c) (record m' { tun = true; state = configuring })) k
    with_made c (m', false) k = absurd (cc)

    with_device :
        (c : Config) (t : Bool)
        → (connect_with t c m).1 ≡ none
        → ((connect_with t c m).0).state ≡ up
    with_device c true k = apply-up (call (configure c) (record m { state = configuring })) k
    with_device c false k = with_made c (call create m) k

    to : (o : Option Config) → (connect_to o m).1 ≡ none → ((connect_to o m).0).state ≡ up
    to none k = absurd (cc)
    to (some c) k = with_device c (m.tun) k
