-- ===== src/Profile/Store/Rename.antt =====
-- internal/profile/profile.go, `Rename`: the profile's files survive any failure on the way.
use goat_client.Prelude.{
  ℕ, false, some, Str, same, if◌then◌else◌, ◌≡◌, refl, ◌∙◌, ◌⊎◌, inl, inr, Bool-cases,
}
use goat_client.Prelude.Assoc.{
  lookup, insert, lookup-insert_ne, lookup-insert_self, lookup-delete_ne, same_sym,
}
use goat_client.Profile.Disk.{
  Meta, holds, Disk, Result, ok, err, ◌>>=◌, ◌>>◌, return, active_or_empty, write_active,
}
use goat_client.Profile.Hoare.{
  Wp, Then, bind, and_then, returns, throws, goes_on, tries, follows, reads_known_bundle,
  writes_meta, writes_bundle, writes_active, removes_meta, removes_bundle, reads_meta, reads_active,
}
use goat_client.Profile.Slug.{Named, validate_name}
use goat_client.Profile.Store.Rules.{summarises}
use goat_client.Profile.Store.{
  Env, summarise, install, retire, write_meta_or_roll_back, rename_files, rename_in_place, rename,
  named,
}

-- Under the slug the disk has these bundle bytes, and a meta file that parses.
abbrev pub Stands : Str → Str → Disk → Type 0
Stands s b d = (lookup s d.bundles ≡ some b) × ((m : Meta) × (lookup s d.metas ≡ some (holds m)))

module _ (old new b : Str) (e : same old new ≡ false) where
  abbrev Kept : Disk → Type 0
  Kept d = Stands old b d ⊎ Stands new b d

  -- Either both copies stand or the old one does, according to the outcome.
  abbrev Copied : Result (Unit {0}) → Disk → Type 0
  Copied (ok _) d = Stands new b d
  Copied (err _) d = Stands old b d

  installs : (m : Meta) (d : Disk) → Stands old b d → Wp (install new b m) Copied d
  unfolding install write_meta_or_roll_back
  installs m d (hb, h) =
      let e' = same_sym old new e in
      and_then _ _ (
        writes_bundle new b (λ _. (hb, h))
          (λ fs. bind _ _ (
            tries _ (
              writes_meta new m
                (λ fs'. bind _ _ (
                  tries _ (
                    removes_bundle new
                      (λ _. throws _ (lookup-insert_ne new old (d.bundles) b e' ∙ hb, h))
                      (λ _. throws _ (
                        lookup-delete_ne new old (insert new b d.bundles) e'
                            ∙ lookup-insert_ne new old (d.bundles) b e'
                            ∙ hb,
                        h,
                      )))))
                (λ fs'. returns _ (
                  lookup-insert_self new (d.bundles) b,
                  (m, lookup-insert_self new (d.metas) (holds m)),
                ))))))

  retires : (d : Disk) → Stands new b d → Wp (retire old new) (λ _. Stands new b) d
  unfolding retire
  retires d (hb, (m, hm)) =
      let hb' = lookup-delete_ne old new (d.bundles) e ∙ hb in
      let hm' = lookup-delete_ne old new (d.metas) e ∙ hm in
      bind _ _ (
        tries _ (
          removes_bundle old
            (λ _. bind _ _ (
              tries _
                (removes_meta old (λ _. marks _ (hb, (m, hm))) (λ _. marks _ (hb, (m, hm'))))))
            (λ _. bind _ _ (
              tries _
                (removes_meta old (λ _. marks _ (hb', (m, hm))) (λ _. marks _ (hb', (m, hm'))))))))
    where
      marks :
          (d' : Disk)
          → Stands new b d'
          → Wp
              (do active ← active_or_empty; if same active old then write_active new else return tt)
              (λ _. Stands new b)
              d'
      marks d' h =
          bind _ _ (
            reads_active
              (λ s fs. goes_on _ _ _ (writes_active new (λ _. h) (λ _. h)) (returns _ h)))

  finishes :
      (env : Env) (r : Result (Unit {0})) (d : Disk)
      → Copied r d
      → Then (λ _. do retire old new; summarise env new) (λ _. Kept) r d
  finishes env (err _) d h = inl h
  finishes env (ok _) d h = and_then _ _ (follows (retires d h) (summarised env))
    where
      summarised :
          (env : Env) (r : Result (Unit {0})) (d : Disk)
          → Stands new b d
          → Then (λ _. summarise env new) (λ _. Kept) r d
      summarised env (ok _) d h = summarises env d new (λ _ _. inr h)
      summarised env (err _) d h = inr h

  rename_files-keeps :
      (env : Env) (name : Str) (now : ℕ) (d : Disk)
      → Stands old b d
      → Wp (rename_files env old new name now) (λ _. Kept) d
  unfolding rename_files
  rename_files-keeps env name now d h = bind _ _ (
      tries _ (
        reads_meta new
          (λ _ _. and_then _ _ (
            returns _ (
              bind _ _ (
                reads_meta old (λ _ _. inl h)
                  (λ m _ _. bind _ _ (
                    reads_known_bundle old b h.0 (λ _ _. inl h)
                      (λ _. and_then _ _ (follows (installs _ _ h) (finishes env)))))))))
          (λ _ _ _. and_then _ _ (throws _ (inl h)))))

module _ (env : Env) (old b name : Str) (now : ℕ) where
  -- The bytes stand under the old slug or under the one that the new name gives.
  abbrev pub KeptBy : Disk → Type 0
  KeptBy d =
      Stands old b d
      ⊎ ((new : Str) × ((validate_name env.fold name ≡ Named.slug new) × Stands new b d))

  in_place-keeps :
      (d : Disk) → Stands old b d → Wp (rename_in_place env old name now) (λ _. Stands old b) d
  unfolding rename_in_place
  in_place-keeps d (hb, (m₀, h)) = bind _ _ (
      reads_meta old (λ _ _. (hb, (m₀, h)))
        (λ m _ _. and_then _ _ (
          writes_meta old _ (λ _. (hb, (m₀, h)))
            (λ _. summarises env _ old (λ _ _. (hb, (_, lookup-insert_self old (d.metas) _)))))))

  moves :
      (d : Disk) (n : Named)
      → validate_name env.fold name ≡ n
      → Stands old b d
      → Wp
          (do
            new ← named n
            if same new old
                then rename_in_place env old name now
                else rename_files env old new name now)
          (λ _. KeptBy)
          d
  moves d (Named.invalid_name x) e h = bind _ _ (throws _ (inl h))
  moves d (Named.slug new) e h = bind _ _ (
      returns _ (elim (Bool-cases (same new old)) [
        | inl s ↦ rw s (follows (in_place-keeps d h) (λ _ _ k. inl k))
        | inr n ↦ rw n (
            follows (rename_files-keeps old new b (same_sym new old n) env name now d h)
              (λ _ d' k. moved d' k))
      ]))
    where
      moved : (d' : Disk) → Stands old b d' ⊎ Stands new b d' → KeptBy d'
      moved d' (inl k) = inl k
      moved d' (inr k) = inr (new, (e, k))

  -- Whatever fails on the way, a rename leaves the profile's bundle bytes and a meta file that
  -- parses on disk: under the old slug, or under the slug of the new name.
  pub rename-keeps_bundle : (d : Disk) → Stands old b d → KeptBy ((rename env old name now d).0)
  unfolding rename
  rename-keeps_bundle d h = (moves d (validate_name env.fold name) refl h).run
