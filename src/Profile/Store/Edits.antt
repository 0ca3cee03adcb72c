-- ===== src/Profile/Store/Edits.antt =====
-- internal/profile/profile.go: `Remove`, `SetActive`, `UpdateMode` and `UpdateRosenpass` on every
-- schedule of faults.
use goat_client.Prelude.{
  ℕ, Bool, true, false, Option, none, some, List, [], Str, same, if◌then◌else◌, ◌≡◌, refl, ◌⊎◌, inl,
  inr, eq_of_same,
}
use goat_client.Prelude.Assoc.{
  lookup, delete, lookup-insert_ne, lookup-insert_self, lookup-delete_ne, lookup-delete_self,
}
use goat_client.Mode.{Mode, valid}
use goat_client.Profile.Disk.{
  Meta, holds, Disk, io_error, ok, err, ◌>>=◌, ◌>>◌, return, active_or_empty, read_meta,
  write_active, write_meta,
}
use goat_client.Profile.Hoare.{
  Post, Wp, outcome, Then, bind, and_then, returns, goes_on, facing, writes_meta, writes_active,
  removes_meta, removes_bundle, reads_meta, reads_active,
}
use goat_client.Profile.Store.Rules.{OthersKept, guards}
use goat_client.Profile.Store.{remove, set_active, update_mode, update_rosenpass}

module _ (s : Str) (d : Disk) where
  -- What `Remove` may have done to the marker: nothing, or cleared it.
  abbrev pub MarkerKept : Disk → Type 0
  MarkerKept d' = (d'.active ≡ d.active) ⊎ (d'.active ≡ some (holds []))

  abbrev pub RemoveSpec : Post (Unit {0})
  RemoveSpec (ok _) d' =
      OthersKept s d d'
      × (MarkerKept d' × ((lookup s d'.metas ≡ none) × (lookup s d'.bundles ≡ none)))
  RemoveSpec (err _) d' = OthersKept s d d' × MarkerKept d'

  -- Whatever fails on the way, `Remove` touches no other profile and changes the marker at most by
  -- clearing it. When it returns without an error, neither file is left.
  pub remove-RemoveSpec : RemoveSpec ((remove s d).1) ((remove s d).0)
  unfolding remove
  remove-RemoveSpec =
      let other_metas : (k : Str)
          → same s k ≡ false
          → lookup k (delete s d.metas) ≡ lookup k d.metas =
        λ k e. lookup-delete_ne s k (d.metas) e in
      let other_bundles : (k : Str)
          → same s k ≡ false
          → lookup k (delete s d.bundles) ≡ lookup k d.bundles =
        λ k e. lookup-delete_ne s k (d.bundles) e in
      let gone : (lookup s (delete s d.metas) ≡ none) × (lookup s (delete s d.bundles) ≡ none) =
        (lookup-delete_self s (d.metas), lookup-delete_self s (d.bundles)) in
      outcome (remove s) RemoveSpec d (
        bind _ _ (
          reads_meta s (λ _ _. (λ k e. (refl, refl), inl refl))
            (λ _ _ _. bind _ _ (
              reads_active (λ a _. and_then _ _ (
                removes_meta s (λ _. (λ k e. (refl, refl), inl refl))
                  (λ _. and_then _ _ (
                    removes_bundle s (λ _. (λ k e. (other_metas k e, refl), inl refl))
                      (λ _.
                        clears a _ (λ _. (λ k e. (other_metas k e, other_bundles k e), inl refl))
                          (λ _. (λ k e. (other_metas k e, other_bundles k e), (inr refl, gone)))
                          (λ k e. (other_metas k e, other_bundles k e), (inl refl, gone)))))))))))
    where
      clears :
          {Q : Post (Unit {0})} (a : Str) (d' : Disk)
          → ((fs : List Bool) → Q (err io_error) (facing fs d'))
          → ((fs : List Bool) → Q (ok tt) (record d' { faults = fs; active = some (holds []) }))
          → Q (ok tt) d'
          → Wp (if same s a then write_active [] else return tt) Q d'
      clears a d' h k l = goes_on _ _ _ (writes_active [] h k) (returns _ l)

  -- The files that `SetActive` leaves alone: all but the marker.
  abbrev pub SetActiveSpec : Post Str
  SetActiveSpec (ok previous) d' =
      (d'.metas ≡ d.metas)
      × ((d'.bundles ≡ d.bundles)
          × ((d'.active ≡ some (holds s))
              × ((s ≡ []) ⊎ ((m : Meta) × (lookup s d.metas ≡ some (holds m))))))
  SetActiveSpec (err _) d' =
      (d'.metas ≡ d.metas) × ((d'.bundles ≡ d.bundles) × (d'.active ≡ d.active))

  -- Whatever fails on the way, `SetActive` leaves every profile's files as they were. When it
  -- returns without an error, the marker is the slug, and the slug is empty or has a meta file
  -- that parses; otherwise the marker is as it was.
  pub set_active-SetActiveSpec : SetActiveSpec ((set_active s d).1) ((set_active s d).0)
  unfolding set_active
  set_active-SetActiveSpec =
      outcome (set_active s) SetActiveSpec d (and_then _ _ (finds (same s []) refl))
    where
      moves :
          (fs : List Bool)
          → (s ≡ []) ⊎ ((m : Meta) × (lookup s d.metas ≡ some (holds m)))
          → Wp
              (do previous ← active_or_empty; write_active s; return previous)
              SetActiveSpec
              (facing fs d)
      moves fs h = bind _ _ (
          reads_active (λ a _. and_then _ _ (
            writes_active s (λ _. (refl, (refl, refl)))
              (λ _. returns _ (refl, (refl, (refl, h)))))))

      finds :
          (b : Bool)
          → same s [] ≡ b
          → Wp
              (if b then return tt else (do m ← read_meta s; return tt))
              (Then
                (λ _. do previous ← active_or_empty; write_active s; return previous)
                SetActiveSpec)
              d
      finds true e = returns _ (moves d.faults (inl (eq_of_same s [] e)))
      finds false e =
          bind _ _ (
            reads_meta s (λ _ _. (refl, (refl, refl)))
              (λ m fs e. returns _ (moves fs (inr (m, e)))))

  -- An edit of one meta file: in place, or not at all.
  abbrev pub EditSpec : (Meta → Meta) → Post (Unit {0})
  EditSpec f (ok _) d' =
      (d'.bundles ≡ d.bundles)
      × ((d'.active ≡ d.active)
          × (OthersKept s d d'
              × ((m : Meta) × ((lookup s d.metas ≡ some (holds m))
                    × (lookup s d'.metas ≡ some (holds (f m)))))))
  EditSpec f (err _) d' = (d'.bundles ≡ d.bundles) × ((d'.active ≡ d.active) × (d'.metas ≡ d.metas))

  edits : (f : Meta → Meta) → Wp (do m ← read_meta s; write_meta s (f m)) (EditSpec f) d
  edits f = bind _ _ (
      reads_meta s (λ _ _. (refl, (refl, refl)))
        (λ m _ e.
          writes_meta s (f m) (λ _. (refl, (refl, refl)))
            (λ _. (
              refl,
              (
                refl,
                (
                  λ k n. (lookup-insert_ne s k (d.metas) (holds (f m)) n, refl),
                  (m, (e, lookup-insert_self s (d.metas) (holds (f m)))),
                ),
              ),
            ))))

  -- Whatever fails on the way, `UpdateMode` changes no bundle, no marker and no other profile. When
  -- it returns without an error, the profile's meta file is the earlier one with the mode and the
  -- time set, and otherwise no meta file has changed.
  update_mode-EditSpec :
      (m : Mode) (now : ℕ)
      → EditSpec
          (λ c. record c { mode = m; updated_at = now })
          ((update_mode s m now d).1)
          ((update_mode s m now d).0)
  unfolding update_mode
  update_mode-EditSpec m now =
      outcome (update_mode s m now) (EditSpec (λ c. record c { mode = m; updated_at = now })) d
        (and_then _ _ (guards (valid m) _ (λ _. (refl, (refl, refl))) (λ _. edits _)))

  -- The same for `UpdateRosenpass`, with the two overrides set.
  update_rosenpass-EditSpec :
      (enabled permissive : Option Bool) (now : ℕ)
      → EditSpec
          (λ c. record c {
            rosenpass_enabled = enabled;
            rosenpass_permissive = permissive;
            updated_at = now;
          })
          ((update_rosenpass s enabled permissive now d).1)
          ((update_rosenpass s enabled permissive now d).0)
  unfolding update_rosenpass
  update_rosenpass-EditSpec enabled permissive now =
      outcome (update_rosenpass s enabled permissive now)
        (EditSpec (λ c. record c {
          rosenpass_enabled = enabled;
          rosenpass_permissive = permissive;
          updated_at = now;
        }))
        d (edits _)
