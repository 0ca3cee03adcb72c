-- ===== src/Daemon/Legs/Meshes.antt =====
-- internal/daemon/daemon.go: what the legs' operations do to the mesh in a mode without one.
use goat_client.Prelude.{
  Bool, true, false, Option, none, some, if◌then◌else◌, ◌≡◌, refl, sym, ap, ◌∙◌,
}
use goat_client.Bundle.{EnrollmentBundle}
use goat_client.Mode.{includes_wg_cp0, includes_netbird}
use goat_client.Tunnel.Manager.{Manager, TunnelError, configure_manager}
use goat_client.Tunnel.Manager
use goat_client.Tunnel.FromBundle.{Derived, config, refused, from_bundle}
use goat_client.Innermesh.Netbird.{Netbird, MeshError}
use goat_client.Innermesh.Netbird
use goat_client.Daemon.{
  mode_without_mesh, Session, Outcome, and_then, make_mesh, mesh_with, drop_mesh, dropping,
  outer_down,
}
use goat_client.Daemon.Legs.{
  Host, tunnel_up, tunnel_configured, outer_with, connect_outer, mesh_up, inner_leg, connect_inner,
  connect_with, connect, tunnel_down, mesh_down, mesh_stop, disconnect_outer, disconnect_inner,
  disconnect, enabled, mesh_enabled, enable_inner_mesh, disabled, disable_inner_mesh, tear_down_all,
  configure_mesh,
}

abbrev pub MeshFits : Session → Type 0
MeshFits d = includes_netbird d.current_mode ≡ false → d.mesh ≡ none

-- The mode is as it was, and in a mode without a mesh a missing one stays missing.
abbrev pub Keeps : Session → Session → Type 0
Keeps d d' =
    (d'.current_mode ≡ d.current_mode)
    × (includes_netbird d.current_mode ≡ false → d.mesh ≡ none → d'.mesh ≡ none)

pub Keeps-refl : (d : Session) → Keeps d d
Keeps-refl d = (refl, λ e h. h)

pub Keeps-trans : (d₁ d₂ d₃ : Session) → Keeps d₁ d₂ → Keeps d₂ d₃ → Keeps d₁ d₃
Keeps-trans d₁ d₂ d₃ (m, k) (n, l) = (n ∙ m, λ e h. l (ap includes_netbird m ∙ e) (k e h))

pub MeshFits-of-Keeps : (d d' : Session) → Keeps d d' → MeshFits d → MeshFits d'
MeshFits-of-Keeps d d' (m, k) f e =
    let e' : includes_netbird d.current_mode ≡ false = ap includes_netbird (sym m) ∙ e in
    k e' (f e')

and_then-Keeps :
    (d : Session) (o : Outcome) (f : Session → Outcome)
    → Keeps d (o.0)
    → ((d' : Session) → Keeps d' ((f d').0))
    → Keeps d ((and_then o f).0)
unfolding and_then
and_then-Keeps d (d', some e) f h k = h
and_then-Keeps d (d', none) f h k = Keeps-trans d d' ((f d').0) h (k d')

outer_with-Keeps : (r : Derived) (d : Session) → Keeps d ((outer_with r d).0)
outer_with-Keeps (refused e) d = Keeps-refl d
outer_with-Keeps (config c) d = configured (configure_manager c d.manager)
  where
    started : (o : Manager × Option TunnelError) (d' : Session) → Keeps d' ((tunnel_up c o d').0)
    started (m, none) d' = (refl, λ e h. h)
    started (m, some e) d' = (refl, λ e h. h)

    configured : (o : Manager × Option TunnelError) → Keeps d ((tunnel_configured c o d).0)
    configured (m, some e) = (refl, λ e h. h)
    configured (m, none) = started (Manager.connect m) (record d { manager = m })

pub connect-Keeps : (host : Host) (d : Session) → Keeps d ((connect host d).0)
unfolding connect connect_outer connect_inner make_mesh
connect-Keeps host d = loaded (d.current_bundle)
  where
    outer :
        (w : Bool) (r : Derived)
        → Keeps d ((if◌then◌else◌ {A = Outcome} w (outer_with r d) (d, none)).0)
    outer true r = outer_with-Keeps r d
    outer false r = Keeps-refl d

    up :
        (o : Netbird × Option MeshError) (d' : Session)
        → includes_netbird d'.current_mode ≡ true
        → Keeps d' ((mesh_up o d').0)
    up (m, none) d' w = (refl, λ e h. absurd (cc))
    up (m, some x) d' w = (refl, λ e h. absurd (cc))

    leg :
        (b : EnrollmentBundle) (d' : Session) (w : Bool) (o : Option Netbird)
        → includes_netbird d'.current_mode ≡ w
        → Keeps d' ((inner_leg host b w o d').0)
    leg b d' false o e = Keeps-refl d'
    leg b d' true (some m) e =
        up (Netbird.connect (configure_mesh host b m (record d' { mesh_wanted = true })))
          (record d' { mesh_wanted = true }) e
    leg b d' true none e =
        let made : Session = record (make_mesh host.device_id d') { mesh_wanted = true } in
        let m : Netbird = (mesh_with host.device_id d'.mesh_faults).0 in
        ((up (Netbird.connect (configure_mesh host b m made)) made e).0, λ x h. absurd (cc))

    loaded : (o : Option EnrollmentBundle) → Keeps d ((connect_with host o d).0)
    loaded none = Keeps-refl d
    loaded (some b) =
        and_then-Keeps d (and_then (connect_outer host b d) (connect_inner host b)) _
          (and_then-Keeps d (connect_outer host b d) (connect_inner host b)
            (outer (includes_wg_cp0 d.current_mode)
              (from_bundle host.platform host.parse_addr host.parse_prefix b))
            (λ d'. leg b d' (includes_netbird d'.current_mode) (d'.mesh) refl))
          (λ d'. (refl, λ e h. h))

pub disconnect-MeshFits : (d : Session) → MeshFits d → MeshFits ((disconnect d).0)
unfolding disconnect disconnect_outer disconnect_inner
disconnect-MeshFits d f =
    MeshFits-of-Keeps d ((disconnect d).0)
      (and_then-Keeps d (disconnect_outer d) disconnect_inner
        (outer (includes_wg_cp0 d.current_mode))
        (λ d'. inner d' (includes_netbird d'.current_mode) refl))
      f
  where
    down :
        (o : Manager × Option TunnelError)
        → Keeps d ((tunnel_down o (record d { last_dns = none })).0)
    down (m, none) = (refl, λ e h. h)
    down (m, some x) = (refl, λ e h. h)

    outer :
        (w : Bool)
        → Keeps d (
            (if◌then◌else◌ {A = Outcome} w
              (tunnel_down (Manager.disconnect d.manager) (record d { last_dns = none }))
              (d, none)).0)
    outer true = down (Manager.disconnect d.manager)
    outer false = Keeps-refl d

    stopped :
        (o : Netbird × Option MeshError) (d' : Session)
        → includes_netbird d'.current_mode ≡ true
        → Keeps d' ((mesh_down o (record d' { mesh_wanted = false })).0)
    stopped (m, none) d' w = (refl, λ e h. absurd (cc))
    stopped (m, some x) d' w = (refl, λ e h. absurd (cc))

    stop :
        (o : Option Netbird) (d' : Session)
        → includes_netbird d'.current_mode ≡ true
        → Keeps d' ((mesh_stop o d').0)
    stop none d' w = Keeps-refl d'
    stop (some m) d' w = stopped (Netbird.disconnect m) d' w

    inner :
        (d' : Session) (w : Bool)
        → includes_netbird d'.current_mode ≡ w
        → Keeps d' ((if◌then◌else◌ {A = Outcome} w (mesh_stop d'.mesh d') (d', none)).0)
    inner d' true e = stop (d'.mesh) d' e
    inner d' false e = Keeps-refl d'

-- The daemon after its mesh was let go holds none.
pub drop_mesh-none :
    (d : Session) → ((drop_mesh d).mesh ≡ none) × ((drop_mesh d).current_mode ≡ d.current_mode)
unfolding drop_mesh
drop_mesh-none d = go (d.mesh) refl
  where
    go :
        (o : Option Netbird)
        → d.mesh ≡ o
        → ((dropping o d).mesh ≡ none) × ((dropping o d).current_mode ≡ d.current_mode)
    go none e = (e, refl)
    go (some m) e = (refl, refl)

pub disable-MeshFits : (d : Session) → MeshFits d → MeshFits ((disable_inner_mesh d).0)
unfolding disable_inner_mesh
disable-MeshFits d f = go (d.mesh) refl
  where
    down :
        (o : Netbird × Option MeshError)
        → (includes_netbird d.current_mode ≡ false → ⊥)
        → MeshFits ((mesh_down o (record d { mesh_wanted = false })).0)
    down (m, none) n e = absurd (n e)
    down (m, some x) n e = absurd (n e)

    go : (o : Option Netbird) → d.mesh ≡ o → MeshFits ((disabled o d).0)
    go none h = λ e. h
    go (some m) h = down (Netbird.disconnect m) (λ e. let n : d.mesh ≡ none = f e in cc)

pub enable-MeshFits : (d : Session) → MeshFits d → MeshFits ((enable_inner_mesh d).0)
unfolding enable_inner_mesh
enable-MeshFits d f = go (includes_netbird d.current_mode) refl
  where
    started :
        (o : Netbird × Option MeshError) (d' : Session)
        → includes_netbird d'.current_mode ≡ true
        → MeshFits ((mesh_enabled o d').0)
    started (m, none) d' w e = absurd (cc)
    started (m, some x) d' w e = absurd (cc)

    on : (o : Option Netbird) → includes_netbird d.current_mode ≡ true → MeshFits ((enabled o d).0)
    on none w = f
    on (some m) w = started (Netbird.connect m) (record d { mesh_wanted = true }) w

    go :
        (w : Bool)
        → includes_netbird d.current_mode ≡ w
        → MeshFits
            ((if◌then◌else◌ {A = Outcome} w (enabled d.mesh d) (d, some mode_without_mesh)).0)
    go true w = on (d.mesh) w
    go false w = f

pub tear_down_all-none : (d : Session) → (tear_down_all d).mesh ≡ none
unfolding tear_down_all
tear_down_all-none d = (drop_mesh-none (outer_down d)).0
