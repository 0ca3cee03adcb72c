-- ===== src/Daemon/Switch/Modes.antt =====
-- internal/daemon/daemon.go: `SetMode`: a mesh is held only in a mode that includes one.
use goat_client.Prelude.{
  ℕ, Bool, true, false, not, Option, none, some, [], same, ◌&&◌, if◌then◌else◌, ◌≡◌, refl, sym, ap,
  ◌∙◌,
}
use goat_client.Bundle.{EnrollmentBundle}
use goat_client.Mode.{Mode, includes_wg_cp0, includes_netbird, mode_string}
use goat_client.Profile.Store.{update_mode}
use goat_client.Tunnel.FromBundle.{Derived, config, refused, from_bundle}
use goat_client.Innermesh.Netbird.{Netbird}
use goat_client.Daemon.{Session, make_mesh, drop_mesh, outer_down}
use goat_client.Daemon.Legs.{Host}
use goat_client.Daemon.Legs.Meshes.{MeshFits, Keeps, Keeps-refl, MeshFits-of-Keeps, drop_mesh-none}
use goat_client.Daemon.Switch.{
  bring_mesh_up, outer_by, bring_outer_up, persist_mode, reconcile_mode, set_mode,
}

bring_mesh_up-mode :
    (host : Host) (o : Option Netbird) (b : Option EnrollmentBundle) (d : Session)
    → (bring_mesh_up host o b d).current_mode ≡ d.current_mode
bring_mesh_up-mode host none b d = refl
bring_mesh_up-mode host (some m) none d = refl
bring_mesh_up-mode host (some m) (some b) d = refl

outer_by-Keeps : (r : Derived) (d : Session) → Keeps d (outer_by r d)
outer_by-Keeps (refused e) d = Keeps-refl d
outer_by-Keeps (config c) d = (refl, λ e h. h)

bring_outer_up-Keeps :
    (host : Host) (o : Option EnrollmentBundle) (d : Session) → Keeps d (bring_outer_up host o d)
bring_outer_up-Keeps host none d = Keeps-refl d
bring_outer_up-Keeps host (some b) d =
    outer_by-Keeps (from_bundle host.platform host.parse_addr host.parse_prefix b) d

persist_mode-Keeps : (m : Mode) (now : ℕ) (d : Session) → Keeps d (persist_mode m now d)
persist_mode-Keeps m now d = go (same d.current_slug [])
  where
    go :
        (b : Bool)
        → Keeps d (if b then d else record d { disk = (update_mode d.current_slug m now d.disk).0 })
    go true = Keeps-refl d
    go false = (refl, λ e h. h)

-- Whatever the last step of a mode's bring-up does to the mesh.
pub inner_step-Keeps :
    (host : Host) (w : Bool) (o : Option Netbird) (b : Option EnrollmentBundle) (d : Session)
    → includes_netbird d.current_mode ≡ w
    → Keeps d (if w then bring_mesh_up host o b d else d)
inner_step-Keeps host false o b d e = Keeps-refl d
inner_step-Keeps host true o b d e = (bring_mesh_up-mode host o b d, λ x h. absurd (cc))

module _ (host : Host) (d : Session) (a : Bool) where
  abbrev outer_settled : Session
  outer_settled = if a then outer_down d else d

  abbrev settled : Bool → Bool → Session
  settled pn nn =
      let d₂ = if pn && not nn then drop_mesh outer_settled else outer_settled in
      if not pn && nn then make_mesh host.device_id d₂ else d₂

  settled_keeps : (outer_settled.current_mode ≡ d.current_mode) × (outer_settled.mesh ≡ d.mesh)
  settled_keeps = go a
    where
      go :
          (b : Bool)
          → ((if b then outer_down d else d).current_mode ≡ d.current_mode)
            × ((if b then outer_down d else d).mesh ≡ d.mesh)
      go true = unfold outer_down in (refl, refl)
      go false = (refl, refl)

  settled-MeshFits :
      (pn nn : Bool)
      → (pn ≡ false → d.mesh ≡ none)
      → ((settled pn nn).current_mode ≡ d.current_mode) × (nn ≡ false → (settled pn nn).mesh ≡ none)
  unfolding make_mesh
  settled-MeshFits true true f = (settled_keeps.0, λ e. absurd (cc))
  settled-MeshFits false true f = (settled_keeps.0, λ e. absurd (cc))
  settled-MeshFits true false f =
      let (n, m) = drop_mesh-none outer_settled in (m ∙ settled_keeps.0, λ e. n)
  settled-MeshFits false false f = (settled_keeps.0, λ e. settled_keeps.1 ∙ f refl)

pub set_mode-MeshFits :
    (host : Host) (new : Mode) (now : ℕ) (d : Session)
    → MeshFits d
    → MeshFits (set_mode host new now d)
unfolding set_mode reconcile_mode
set_mode-MeshFits host new now d f = choose (same (mode_string d.current_mode) (mode_string new))
  where
    d₁ : Session
    d₁ = reconcile_mode host d.current_mode new (record d { current_mode = new })

    raised : Bool → Session
    raised w = if w then bring_outer_up host d₁.current_bundle d₁ else d₁

    d₂ : Session
    d₂ = raised (includes_wg_cp0 new)

    d₃ : Session
    d₃ = if includes_netbird new then bring_mesh_up host d₂.mesh d₂.current_bundle d₂ else d₂

    settles : (d₁.current_mode ≡ new) × (includes_netbird new ≡ false → d₁.mesh ≡ none)
    settles =
        settled-MeshFits host (record d { current_mode = new })
          (includes_wg_cp0 d.current_mode && not (includes_wg_cp0 new))
          (includes_netbird d.current_mode) (includes_netbird new) f

    raises : (w : Bool) → Keeps d₁ (raised w)
    raises true = bring_outer_up-Keeps host (d₁.current_bundle) d₁
    raises false = Keeps-refl d₁

    fits₁ : MeshFits d₁
    fits₁ e = settles.1 (ap includes_netbird (sym settles.0) ∙ e)

    mode₂ : d₂.current_mode ≡ new
    mode₂ = (raises (includes_wg_cp0 new)).0 ∙ settles.0

    fits₃ : MeshFits d₃
    fits₃ =
        MeshFits-of-Keeps d₂ d₃
          (inner_step-Keeps host (includes_netbird new) (d₂.mesh) (d₂.current_bundle) d₂
            (ap includes_netbird mode₂))
          (MeshFits-of-Keeps d₁ d₂ (raises (includes_wg_cp0 new)) fits₁)

    choose : (b : Bool) → MeshFits (if b then d else persist_mode new now d₃)
    choose true = f
    choose false =
        MeshFits-of-Keeps d₃ (persist_mode new now d₃) (persist_mode-Keeps new now d₃) fits₃
