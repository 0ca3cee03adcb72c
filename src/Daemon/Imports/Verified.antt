-- ===== src/Daemon/Imports/Verified.antt =====
-- internal/daemon/daemon.go, `ImportBundle`: what an import leaves in the store and in the daemon.
use goat_client.Prelude.{ℕ, some, Str, ◌≡◌, refl, sym, subst}
use goat_client.Bundle.{EnrollmentBundle}
use goat_client.Profile.Disk.{Disk, Result, ok, err}
use goat_client.Tunnel.Manager.{Manager, configure_manager}
use goat_client.Tunnel.FromBundle.{Derived, config, refused, from_bundle}
use goat_client.Ipc.Wire.{ImportBundleReply}
use goat_client.Daemon.{Session}
use goat_client.Daemon.Legs.{Host}
use goat_client.Daemon.Imports.Stored.{Kept}
use goat_client.Daemon.Imports.{
  Replied, replied, failed, import_steps, configure_by, import_reply, imported, import_bundle,
}
use goat_client.Daemon.Imports.Steps.{Passed, Placed, StepsSpec, steps}

-- The mode, the intents, the mesh, the host's name servers and the last error stay as they are.
pub record SameRest (d d' : Session) : Type 0 where
  pub same_mode : d'.current_mode ≡ d.current_mode
  pub same_override : d'.rosenpass_override ≡ d.rosenpass_override
  pub same_mesh : d'.mesh ≡ d.mesh
  pub same_wish : d'.mesh_wanted ≡ d.mesh_wanted
  pub same_dns : d'.last_dns ≡ d.last_dns
  pub same_error : d'.last_err ≡ d.last_err
  pub same_dropped : d'.dropped ≡ d.dropped

-- The tunnel manager after a bundle with this configuration, where it has one: `Configure` was called
-- with it, and its error dropped.
abbrev pub Reconfigured : Derived → Manager → Manager → Type 0
Reconfigured (refused e) m m' = m' ≡ m
Reconfigured (config c) m m' = m' ≡ (configure_manager c m).0

module _ (host : Host) (bytes : Str) (now : ℕ) where
  abbrev pub ImportSpec : Session → Session × Replied ImportBundleReply → Type 0
  ImportSpec d (d', replied r) =
      (b : EnrollmentBundle) × (Passed host.store bytes now b
        × ((d'.current_bundle ≡ some b)
            × ((r ≡ import_reply b)
                × (SameRest d d'
                    × (Reconfigured (from_bundle host.platform host.parse_addr host.parse_prefix b)
                          d.manager d'.manager
                        × Placed host.store bytes d.current_slug d.disk d'.disk d'.current_slug)))))
  ImportSpec d (d', failed e) =
      (d' ≡ record d { disk = d'.disk }) × Kept host.store bytes d.disk d'.disk

  configured :
      (c : Derived) (d : Session) (b : EnrollmentBundle) (s : Str) (disk : Disk)
      → from_bundle host.platform host.parse_addr host.parse_prefix b ≡ c
      → Passed host.store bytes now b
      → Placed host.store bytes d.current_slug d.disk disk s
      → ImportSpec d (
        configure_by c (record d { disk = disk; current_bundle = some b; current_slug = s }),
        replied (import_reply b),
      )
  configured (refused e) d b s disk h p l = (b, (p, (refl, (refl, (same_rest, (reconfigured, l))))))
    where
      same_rest : SameRest d (record d { disk = disk; current_bundle = some b; current_slug = s })
      same_rest = record {
        same_mode = refl;
        same_override = refl;
        same_mesh = refl;
        same_wish = refl;
        same_dns = refl;
        same_error = refl;
        same_dropped = refl;
      }

      reconfigured :
          Reconfigured
            (from_bundle host.platform host.parse_addr host.parse_prefix b)
            d.manager
            d.manager
      reconfigured = subst (λ x. Reconfigured x d.manager d.manager) (sym h) refl
  configured (config c) d b s disk h p l = (b, (p, (refl, (refl, (same_rest, (reconfigured, l))))))
    where
      after : Manager
      after = (configure_manager c d.manager).0

      same_rest :
          SameRest d
            (record d { disk = disk; current_bundle = some b; current_slug = s; manager = after })
      same_rest = record {
        same_mode = refl;
        same_override = refl;
        same_mesh = refl;
        same_wish = refl;
        same_dns = refl;
        same_error = refl;
        same_dropped = refl;
      }

      reconfigured :
          Reconfigured
            (from_bundle host.platform host.parse_addr host.parse_prefix b)
            d.manager
            after
      reconfigured = subst (λ x. Reconfigured x d.manager after) (sym h) refl

  -- On every schedule of file faults: an import that returns a reply took up the bundle of these
  -- bytes, which passed its checks, a signature by a pinned root and the expiry among them. It called
  -- `Configure` of the tunnel manager with what `FromBundle` makes of the bundle, where that is a
  -- configuration, dropped the error, and left the mode, the mesh and the intents as they were. The
  -- bytes stand in the store, where no other profile has changed: with no active profile before, under
  -- the slug that is current and active from then on, and otherwise the current slug and the marker are
  -- the same. An import that fails changes nothing of the daemon and not the marker, and of the
  -- profiles on disk at most that of one slug, for bytes that passed the checks of `Add`.
  pub import_bundle-ImportSpec : (d : Session) → ImportSpec d (import_bundle host bytes now d)
  unfolding import_bundle
  import_bundle-ImportSpec d =
      finish (import_steps host.store d.current_slug d.current_mode bytes now d.disk)
        (steps host.store bytes d.current_slug d.current_mode now d.disk).run
    where
      finish :
          (r : Disk × Result (EnrollmentBundle × Str))
          → StepsSpec host.store bytes d.current_slug now d.disk r.1 r.0
          → ImportSpec d (imported host r d)
      finish (disk, err e) h = (refl, h)
      finish (disk, ok (b, s)) (p, l) =
          configured (from_bundle host.platform host.parse_addr host.parse_prefix b) d b s disk refl
            p l
