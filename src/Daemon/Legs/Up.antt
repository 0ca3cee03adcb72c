-- ===== src/Daemon/Legs/Up.antt =====
-- internal/daemon/daemon.go, `Connect` and `Disconnect`: what a call without an error has done.
use goat_client.Prelude.{Bool, true, false, Option, none, some, if◌then◌else◌, ◌≡◌, refl, ap, ◌∙◌}
use goat_client.Bundle.{EnrollmentBundle}
use goat_client.Mode.{includes_wg_cp0, includes_netbird}
use goat_client.Tunnel.Manager.{Manager, TunnelError, configure_manager}
use goat_client.Tunnel.Manager
use goat_client.Tunnel.Manager.Invariant
use goat_client.Tunnel.FromBundle.{Derived, config, refused, from_bundle}
use goat_client.Innermesh.Netbird.{Netbird, MeshError}
use goat_client.Innermesh.Netbird
use goat_client.Innermesh.Netbird.Connect
use goat_client.Daemon.{Session, Outcome, and_then, make_mesh, mesh_with}
use goat_client.Daemon.Legs.{
  Host, configure_mesh, tunnel_up, tunnel_configured, outer_with, connect_outer, mesh_up,
  mesh_start, inner_leg, connect_inner, connect_with, connect,
}

-- The inner leg stands: a mesh that is up, and the intent to keep it so.
abbrev pub InnerUp : Session → Type 0
InnerUp d = (d.mesh_wanted ≡ true) × ((m : Netbird) × ((d.mesh ≡ some m) × (m.state ≡ Netbird.up)))

abbrev pub OuterUp : Session → Type 0
OuterUp d = d.manager.state ≡ Manager.up

outer_with-up :
    (r : Derived) (d : Session)
    → (outer_with r d).1 ≡ none
    → OuterUp ((outer_with r d).0) × (((outer_with r d).0).current_mode ≡ d.current_mode)
outer_with-up (refused e) d h = absurd (cc)
outer_with-up (config c) d h = configured (configure_manager c d.manager) h
  where
    started :
        (o : Manager × Option TunnelError) (d' : Session)
        → (o.1 ≡ none → (o.0).state ≡ Manager.up)
        → (tunnel_up c o d').1 ≡ none
        → OuterUp ((tunnel_up c o d').0) × (((tunnel_up c o d').0).current_mode ≡ d'.current_mode)
    started (m, none) d' u k = (u refl, refl)
    started (m, some e) d' u k = absurd (cc)

    configured :
        (o : Manager × Option TunnelError)
        → (tunnel_configured c o d).1 ≡ none
        → OuterUp ((tunnel_configured c o d).0)
          × (((tunnel_configured c o d).0).current_mode ≡ d.current_mode)
    configured (m, some e) k = absurd (cc)
    configured (m, none) k =
        started (Manager.connect m) (record d { manager = m }) (Invariant.connect-up m) k

mesh_start-up :
    (host : Host) (b : EnrollmentBundle) (m : Netbird) (d : Session)
    → d.mesh_wanted ≡ true
    → (mesh_start host b (some m) d).1 ≡ none
    → InnerUp ((mesh_start host b (some m) d).0)
      × ((((mesh_start host b (some m) d).0).manager ≡ d.manager)
          × (((mesh_start host b (some m) d).0).current_mode ≡ d.current_mode))
mesh_start-up host b m d w h =
    started (Netbird.connect (configure_mesh host b m d))
      (Connect.connect-up (configure_mesh host b m d)) h
  where
    started :
        (o : Netbird × Option MeshError)
        → (o.1 ≡ none → (o.0).state ≡ Netbird.up)
        → (mesh_up o d).1 ≡ none
        → InnerUp ((mesh_up o d).0)
          × ((((mesh_up o d).0).manager ≡ d.manager)
              × (((mesh_up o d).0).current_mode ≡ d.current_mode))
    started (m', none) u k = ((w, (m', (refl, u refl))), (refl, refl))
    started (m', some e) u k = absurd (cc)

-- Both legs of the mode stand, and no error is kept.
abbrev pub ConnectSpec : Session → Session → Type 0
ConnectSpec d d' =
    (includes_wg_cp0 d.current_mode ≡ true → OuterUp d')
    × ((includes_netbird d.current_mode ≡ true → InnerUp d')
        × ((d'.current_mode ≡ d.current_mode) × (d'.last_err ≡ none)))

connect_inner-up :
    (host : Host) (b : EnrollmentBundle) (d : Session)
    → (connect_inner host b d).1 ≡ none
    → (includes_netbird d.current_mode ≡ true → InnerUp ((connect_inner host b d).0))
      × ((((connect_inner host b d).0).manager ≡ d.manager)
          × (((connect_inner host b d).0).current_mode ≡ d.current_mode))
unfolding connect_inner make_mesh
connect_inner-up host b d h = leg (includes_netbird d.current_mode) (d.mesh) h
  where
    leg :
        (w : Bool) (o : Option Netbird)
        → (inner_leg host b w o d).1 ≡ none
        → (w ≡ true → InnerUp ((inner_leg host b w o d).0))
          × ((((inner_leg host b w o d).0).manager ≡ d.manager)
              × (((inner_leg host b w o d).0).current_mode ≡ d.current_mode))
    leg false o k = (λ e. absurd (cc), (refl, refl))
    leg true (some m) k =
        let (u, rest) = mesh_start-up host b m (record d { mesh_wanted = true }) refl k in
        (λ _. u, rest)
    leg true none k =
        let made = make_mesh host.device_id d in
        let (u, rest) =
          mesh_start-up host b ((mesh_with host.device_id d.mesh_faults).0)
            (record made { mesh_wanted = true }) refl k in
        (λ _. u, rest)

connect_outer-up :
    (host : Host) (b : EnrollmentBundle) (d : Session)
    → (connect_outer host b d).1 ≡ none
    → (includes_wg_cp0 d.current_mode ≡ true → OuterUp ((connect_outer host b d).0))
      × (((connect_outer host b d).0).current_mode ≡ d.current_mode)
unfolding connect_outer
connect_outer-up host b d h = leg (includes_wg_cp0 d.current_mode) h
  where
    r : Derived
    r = from_bundle host.platform host.parse_addr host.parse_prefix b

    after : Bool → Outcome
    after w = if w then outer_with r d else (d, none)

    leg :
        (w : Bool)
        → (after w).1 ≡ none
        → (w ≡ true → OuterUp ((after w).0)) × (((after w).0).current_mode ≡ d.current_mode)
    leg false k = (λ e. absurd (cc), refl)
    leg true k = let (u, same_mode) = outer_with-up r d k in (λ _. u, same_mode)

-- A `Connect` that returns no error has brought up every leg that the mode includes: the tunnel
-- manager is up, the daemon holds a mesh that is up and wants it so; it leaves the mode as it was
-- and keeps no earlier error.
pub connect-ConnectSpec :
    (host : Host) (d : Session) → (connect host d).1 ≡ none → ConnectSpec d ((connect host d).0)
unfolding connect and_then
connect-ConnectSpec host d h = loaded (d.current_bundle) h
  where
    inner :
        (b : EnrollmentBundle) (o : Outcome)
        → (o.1 ≡ none
            → (includes_wg_cp0 d.current_mode ≡ true → OuterUp (o.0))
              × ((o.0).current_mode ≡ d.current_mode))
        → (and_then
            (and_then o (connect_inner host b))
            (λ d'. (record d' { last_err = none }, none))).1
          ≡ none
        → ConnectSpec d (
            (and_then
              (and_then o (connect_inner host b))
              (λ d'. (record d' { last_err = none }, none))).0)
    inner b (d₁, some e) u k = absurd (cc)
    inner b (d₁, none) u k = finish (connect_inner host b d₁) (connect_inner-up host b d₁) k
      where
        finish :
            (o : Outcome)
            → (o.1 ≡ none
                → (includes_netbird d₁.current_mode ≡ true → InnerUp (o.0))
                  × (((o.0).manager ≡ d₁.manager) × ((o.0).current_mode ≡ d₁.current_mode)))
            → (and_then o (λ d'. (record d' { last_err = none }, none))).1 ≡ none
            → ConnectSpec d ((and_then o (λ d'. (record d' { last_err = none }, none))).0)
        finish (d₂, some e) v k' = absurd (cc)
        finish (d₂, none) v k' =
            let (wg, mode₁) = u refl in
            let (nb, (same_manager, mode₂)) = v refl in
            (
              λ e. ap (λ (m : Manager). m.state) same_manager ∙ wg e,
              (λ e. nb (ap includes_netbird mode₁ ∙ e), (mode₂ ∙ mode₁, refl)),
            )

    loaded :
        (o : Option EnrollmentBundle)
        → (connect_with host o d).1 ≡ none
        → ConnectSpec d ((connect_with host o d).0)
    loaded none k = absurd (cc)
    loaded (some b) k = inner b (connect_outer host b d) (connect_outer-up host b d) k
