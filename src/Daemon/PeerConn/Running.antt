-- ===== src/Daemon/PeerConn/Running.antt =====
-- internal/daemon/daemon.go, `runPeerConn`: which samplers run after any turns.
use goat_client.Prelude.{
  Bool, true, false, not, Option, none, some, List, [], ◌∷◌, Str, same, is_some, ◌&&◌, ◌≡◌, refl,
  sym, subst, ap, ◌∙◌, same_iff, if◌then◌else◌, Bool-cases, inl, inr, ◌⊎◌,
}
use goat_client.Peerping.Ring.{default_history}
use goat_client.Peerping.Manager.{ManagerConfig, Manager, new_manager, start, stop}
use goat_client.Daemon.PeerConn.{
  PeerConn, idle, Turn, is_on, stop_ctrl, after_start, bind_of, start_ctrl, keep_up, reconcile,
  run_peer_conn,
}
use goat_client.Daemon.PeerConn.Samplers.{
  IsRunning, IsOver, HasRunning, IsSound, Fed, start-IsRunning, stop-IsOver, Fed-none, feed-lem,
  fed_some, start-fine,
}

module _ (join : Str → Str) where
  -- What a turn leaves.
  pub record TurnSpec (t : Turn) (st st' : PeerConn) : Type 0 where
    pub sound : IsSound st'
    pub off : is_on t ≡ false → (st'.ctrl ≡ none) × (st'.failed_bind ≡ [])
    pub fed : is_on t ≡ true → Fed t.peers st'.ctrl
    pub starts :
        is_on t ≡ true
        → t.bind_fails ≡ false
        → (same (bind_of join t) st.failed_bind ≡ false) ⊎ (bind_of join t ≡ [])
        → is_some st'.ctrl ≡ true

  stops :
      (t : Turn) (o : Option Manager) (st : PeerConn)
      → is_on t ≡ false
      → st.ctrl ≡ o
      → IsSound st
      → TurnSpec t st (stop_ctrl o st)
  stops t none st off e s = record {
    sound = record { running = s.running; over = s.over };
    off = λ _. (e, refl);
    fed = λ on. absurd (cc);
    starts = λ on. absurd (cc);
  }
  stops t (some m) st off e s = record {
    sound = record { running = tt; over = (stop_IsOver, s.over) };
    off = λ _. (refl, refl);
    fed = λ on. absurd (cc);
    starts = λ on. absurd (cc);
  }
    where
      stop_IsOver : IsOver (stop m)
      stop_IsOver = stop-IsOver m (subst HasRunning e s.running)

  module _ (t : Turn) (st : PeerConn) (on : is_on t ≡ true) (s : IsSound st) where
    after_start-TurnSpec :
        (bind : Str) (r : Manager × Bool)
        → (t.bind_fails ≡ false → r.1 ≡ false)
        → (r.1 ≡ false → IsRunning r.0)
        → st.ctrl ≡ none
        → TurnSpec t st (after_start bind t.peers r st)
    after_start-TurnSpec bind (m, true) fine run e = record {
      sound = record { running = s.running; over = s.over };
      off = λ off. absurd (cc);
      fed = λ _. subst (Fed t.peers) (sym e) (Fed-none t.peers);
      starts = λ _ b _. absurd (cc (fine b));
    }
    after_start-TurnSpec bind (m, false) fine run e =
        let (sound, fed) = feed-lem m t.peers (record st { failed_bind = [] }) (run refl) s.over in
        record {
          sound = sound;
          off = λ off. absurd (cc);
          fed = λ _. fed;
          starts = λ _ _ _. fed_some m t.peers (record st { failed_bind = [] });
        }

    abbrev config : ManagerConfig
    config = record { bind_addr = bind_of join t; history = default_history }

    fine_start : t.bind_fails ≡ false → (start t.bind_fails (new_manager config)).1 ≡ false
    fine_start b = ap (λ x. (start x (new_manager config)).1) b ∙ start-fine config

    -- An address that failed before is left alone.
    starts_ctrl : st.ctrl ≡ none → TurnSpec t st (start_ctrl join t (bind_of join t) st)
    starts_ctrl e = go (same (bind_of join t) []) (same (bind_of join t) st.failed_bind) refl refl
      where
        started :
            TurnSpec t st
              (after_start (bind_of join t) t.peers (start t.bind_fails (new_manager config)) st)
        started =
            after_start-TurnSpec (bind_of join t) _ fine_start (start-IsRunning t.bind_fails config)
              e

        go :
            (p q : Bool)
            → same (bind_of join t) [] ≡ p
            → same (bind_of join t) st.failed_bind ≡ q
            → TurnSpec t st (
                if not p && q
                then st
                else after_start
                    (bind_of join t)
                    t.peers
                    (start t.bind_fails (new_manager config))
                    st)
        go true q ep eq = started
        go false false ep eq = started
        go false true ep eq = record {
          sound = s;
          off = λ off. absurd (cc);
          fed = λ _. subst (Fed t.peers) (sym e) (Fed-none t.peers);
          starts = λ _ _ why. absurd (refused why);
        }
          where
            refused : (same (bind_of join t) st.failed_bind ≡ false) ⊎ (bind_of join t ≡ []) → ⊥
            refused (inl n) = cc
            refused (inr n) = let blank : same (bind_of join t) [] ≡ true = (same_iff _ _).1 n in cc

    keeps_up : (o : Option Manager) → st.ctrl ≡ o → TurnSpec t st (keep_up join t o st)
    keeps_up none e = starts_ctrl e
    keeps_up (some m) e =
        let (sound, fed) = feed-lem m t.peers st (subst HasRunning e s.running) s.over in
        record {
          sound = sound;
          off = λ off. absurd (cc);
          fed = λ _. fed;
          starts = λ _ _ _. fed_some m t.peers st;
        }

  reconcile-TurnSpec : (t : Turn) (st : PeerConn) → IsSound st → TurnSpec t st (reconcile join t st)
  unfolding reconcile
  reconcile-TurnSpec t st s = elim (Bool-cases (is_on t)) [
    | inl on ↦ rw on (keeps_up t st on s st.ctrl refl)
    | inr off ↦ rw off (stops t st.ctrl st off refl s)
  ]

  run_peer_conn-IsSound :
      (ts : List Turn) (st : PeerConn) → IsSound st → IsSound (run_peer_conn join ts st)
  unfolding run_peer_conn
  run_peer_conn-IsSound [] st s = s
  run_peer_conn-IsSound (t ∷ ts) st s =
      run_peer_conn-IsSound ts (reconcile join t st) (reconcile-TurnSpec t st s).sound

  -- After any turns and one more: every manager that was given up is stopped, with as many samplers
  -- cancelled as it had started, and at most one runs, with as many samplers as peers. None runs when
  -- the turn found the mesh down or not of the mode. Otherwise the peers of the one that runs are those
  -- that the mesh reported, where it did, and one runs at least where the socket can be bound and its
  -- address is not the one that failed last.
  pub run_peer_conn-TurnSpec :
      (ts : List Turn) (t : Turn)
      → TurnSpec t (run_peer_conn join ts idle) (reconcile join t (run_peer_conn join ts idle))
  run_peer_conn-TurnSpec ts t =
      reconcile-TurnSpec t (run_peer_conn join ts idle)
        (run_peer_conn-IsSound ts idle (record { running = tt; over = tt }))
