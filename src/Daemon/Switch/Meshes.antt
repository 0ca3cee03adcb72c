-- ===== src/Daemon/Switch/Meshes.antt =====
-- internal/daemon/daemon.go: the daemon holds a mesh only in a mode that includes one.
use goat_client.Prelude.{
  ℕ, Bool, true, false, Option, none, some, List, [], ◌∷◌, Str, same, ◌&&◌, if◌then◌else◌, ◌≡◌,
  refl, sym, ap, ◌∙◌,
}
use goat_client.Bundle.{EnrollmentBundle}
use goat_client.Mode.{Mode, includes_wg_cp0, includes_netbird}
use goat_client.Profile.Disk.{Disk, Result, ok, err}
use goat_client.Profile.Store.{Info, Profile, load, update_rosenpass, remove, rename}
use goat_client.Tunnel.Manager.{Manager, TunnelError, configure_manager}
use goat_client.Tunnel.Manager
use goat_client.Tunnel.FromBundle.{Derived, config, refused, from_bundle}
use goat_client.Innermesh.Netbird.{Netbird, MeshError}
use goat_client.Innermesh.Netbird
use goat_client.Daemon.{Session, make_mesh, override_from_profile}
use goat_client.Daemon.Legs.{
  Host, connect, disconnect, enable_inner_mesh, disable_inner_mesh, tear_down_mode, tear_down_all,
}
use goat_client.Daemon.Legs.Meshes.{
  MeshFits, Keeps, Keeps-refl, MeshFits-of-Keeps, connect-Keeps, disconnect-MeshFits,
  enable-MeshFits, disable-MeshFits, tear_down_all-none,
}
use goat_client.Daemon.Switch.Modes.{inner_step-Keeps, set_mode-MeshFits}
use goat_client.Daemon.Switch.{
  bring_mesh_up, set_mode, rebuilt, set_rosenpass, valid_or_default, mesh_for, outer_to,
  outer_connected, is_up, switch_to, switched, set_active_profile, removed, remove_profile, renamed,
  rename_profile,
}

set_rosenpass-MeshFits :
    (host : Host) (en pm : Bool) (now : ℕ) (d : Session)
    → MeshFits d
    → MeshFits (set_rosenpass host en pm now d)
unfolding set_rosenpass
set_rosenpass-MeshFits host en pm now d f =
    stored (rebuilt host d.mesh d.current_bundle d₁) (rebuilds (d.mesh) (d.current_bundle) refl)
  where
    d₁ : Session
    d₁ = record d { rosenpass_override = some (record { enabled = en; permissive = pm }) }

    rebuilds :
        (o : Option Netbird) (b : Option EnrollmentBundle)
        → d.mesh ≡ o
        → MeshFits (rebuilt host o b d₁)
    rebuilds none b e = f
    rebuilds (some m) none e = f
    rebuilds (some m) (some b) e = go (includes_netbird d.current_mode && is_up m.state)
      where
        go :
            (w : Bool)
            → MeshFits
                (if w then bring_mesh_up host (some ((Netbird.disconnect m).0)) (some b) d₁ else d₁)
        go true = λ x. absurd (let n : d.mesh ≡ none = f x in cc)
        go false = f

    stored :
        (d₂ : Session)
        → MeshFits d₂
        → MeshFits (
            if same d₂.current_slug [] then d₂ else record d₂ {
              disk = (update_rosenpass d₂.current_slug (some en) (some pm) now d₂.disk).0;
            })
    stored d₂ g = go (same d₂.current_slug [])
      where
        go :
            (w : Bool)
            → MeshFits (
                if w then d₂ else record d₂ {
                  disk = (update_rosenpass d₂.current_slug (some en) (some pm) now d₂.disk).0;
                })
        go true = g
        go false = g

mesh_for-MeshFits :
    (host : Host) (w : Bool) (o : Option Netbird) (d : Session)
    → d.mesh ≡ o
    → ((mesh_for host w o d).current_mode ≡ d.current_mode)
      × (w ≡ false → (mesh_for host w o d).mesh ≡ none)
unfolding make_mesh
mesh_for-MeshFits host true none d e = (refl, λ x. absurd (cc))
mesh_for-MeshFits host true (some m) d e = (refl, λ x. absurd (cc))
mesh_for-MeshFits host false none d e = (refl, λ x. e)
mesh_for-MeshFits host false (some m) d e = (refl, λ x. refl)

outer_to-Keeps : (w : Bool) (r : Derived) (d : Session) → Keeps d (outer_to w r d)
outer_to-Keeps w (refused e) d = Keeps-refl d
outer_to-Keeps false (config c) d = (refl, λ e h. h)
outer_to-Keeps true (config c) d = go (Manager.connect ((configure_manager c d.manager).0))
  where
    go : (o : Manager × Option TunnelError) → Keeps d (outer_connected c o d)
    go (m, none) = (refl, λ e h. h)
    go (m, some x) = (refl, λ e h. h)

switch_to-MeshFits :
    (host : Host) (slug : Str) (p : Profile) (d : Session) → MeshFits (switch_to host slug p d)
unfolding switch_to
switch_to-MeshFits host slug p d =
    MeshFits-of-Keeps d₄ d₅
      (inner_step-Keeps host (includes_netbird new) (d₄.mesh) (some p.bundle) d₄
        (ap includes_netbird (outer_keeps.0 ∙ for.0)))
      (MeshFits-of-Keeps d₃ d₄ outer_keeps (λ e. for.1 (ap includes_netbird (sym for.0) ∙ e)))
  where
    new : Mode
    new = valid_or_default p.mode

    d₁ : Session
    d₁ = if same d.current_slug [] then d else tear_down_mode d.current_mode d

    d₂ : Session
    d₂ = record d₁ {
      current_bundle = some p.bundle;
      current_mode = new;
      current_slug = slug;
      rosenpass_override = override_from_profile p;
    }

    d₃ : Session
    d₃ = mesh_for host (includes_netbird new) d₂.mesh d₂

    d₄ : Session
    d₄ =
        outer_to (includes_wg_cp0 new)
          (from_bundle host.platform host.parse_addr host.parse_prefix p.bundle) d₃

    d₅ : Session
    d₅ = if includes_netbird new then bring_mesh_up host d₄.mesh (some p.bundle) d₄ else d₄

    for : (d₃.current_mode ≡ new) × (includes_netbird new ≡ false → d₃.mesh ≡ none)
    for = mesh_for-MeshFits host (includes_netbird new) (d₂.mesh) d₂ refl

    outer_keeps : Keeps d₃ d₄
    outer_keeps =
        outer_to-Keeps (includes_wg_cp0 new)
          (from_bundle host.platform host.parse_addr host.parse_prefix p.bundle) d₃

set_active_profile-MeshFits :
    (host : Host) (slug : Str) (d : Session)
    → MeshFits d
    → MeshFits ((set_active_profile host slug d).0)
unfolding set_active_profile
set_active_profile-MeshFits host slug d f = go (load host.store slug d.disk)
  where
    go : (o : Disk × Result Profile) → MeshFits ((switched host slug o d).0)
    go (disk, err e) = f
    go (disk, ok p) = switch_to-MeshFits host slug p (record d { disk = disk })

remove_profile-MeshFits :
    (slug : Str) (d : Session) → MeshFits d → MeshFits ((remove_profile slug d).0)
unfolding remove_profile
remove_profile-MeshFits slug d f = go (same slug d.current_slug)
  where
    after :
        (o : Disk × Result (Unit {0})) (d' : Session) → MeshFits d' → MeshFits ((removed o d').0)
    after (disk, ok _) d' g = g
    after (disk, err e) d' g = g

    down : Bool → Session
    down w = if w then record (tear_down_all d) { current_bundle = none; current_slug = [] } else d

    go : (w : Bool) → MeshFits ((removed (remove slug (down w).disk) (down w)).0)
    go true = after (remove slug (down true).disk) (down true) (λ e. tear_down_all-none d)
    go false = after (remove slug d.disk) d f

rename_profile-MeshFits :
    (host : Host) (slug name : Str) (now : ℕ) (d : Session)
    → MeshFits d
    → MeshFits ((rename_profile host slug name now d).0)
unfolding rename_profile
rename_profile-MeshFits host slug name now d f = go (rename host.store slug name now d.disk)
  where
    go : (o : Disk × Result Info) → MeshFits ((renamed slug o d).0)
    go (disk, err e) = f
    go (disk, ok i) = f

pub data Action : Type 0 where
  connecting disconnecting enabling disabling : Action
  setting_mode : Mode → ℕ → Action
  setting_rosenpass : Bool → Bool → ℕ → Action
  activating : Str → Action
  removing : Str → Action
  renaming : Str → Str → ℕ → Action

abbrev pub act : Host → Action → Session → Session
act host connecting d = (connect host d).0
act host disconnecting d = (disconnect d).0
act host enabling d = (enable_inner_mesh d).0
act host disabling d = (disable_inner_mesh d).0
act host (setting_mode m now) d = set_mode host m now d
act host (setting_rosenpass en pm now) d = set_rosenpass host en pm now d
act host (activating slug) d = (set_active_profile host slug d).0
act host (removing slug) d = (remove_profile slug d).0
act host (renaming slug name now) d = (rename_profile host slug name now d).0

abbrev pub act_all : Host → List Action → Session → Session
act_all host [] d = d
act_all host (a ∷ rest) d = act_all host rest (act host a d)

act-MeshFits : (host : Host) (a : Action) (d : Session) → MeshFits d → MeshFits (act host a d)
act-MeshFits host connecting d f = MeshFits-of-Keeps d ((connect host d).0) (connect-Keeps host d) f
act-MeshFits host disconnecting d f = disconnect-MeshFits d f
act-MeshFits host enabling d f = enable-MeshFits d f
act-MeshFits host disabling d f = disable-MeshFits d f
act-MeshFits host (setting_mode m now) d f = set_mode-MeshFits host m now d f
act-MeshFits host (setting_rosenpass en pm now) d f = set_rosenpass-MeshFits host en pm now d f
act-MeshFits host (activating slug) d f = set_active_profile-MeshFits host slug d f
act-MeshFits host (removing slug) d f = remove_profile-MeshFits slug d f
act-MeshFits host (renaming slug name now) d f = rename_profile-MeshFits host slug name now d f

-- From a daemon that holds no mesh outside the modes with one, no sequence of its operations leads
-- to a daemon that does, whatever fails.
pub act_all-MeshFits :
    (host : Host) (actions : List Action) (d : Session)
    → MeshFits d
    → MeshFits (act_all host actions d)
act_all-MeshFits host [] d f = f
act_all-MeshFits host (a ∷ rest) d f =
    act_all-MeshFits host rest (act host a d) (act-MeshFits host a d f)
