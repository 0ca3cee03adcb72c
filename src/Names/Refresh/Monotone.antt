-- ===== src/Names/Refresh/Monotone.antt =====
-- internal/names/refresh.go, `Refresh`: what a refresh can change.
use goat_client.Prelude.{
  Bool, true, false, Option, none, some, [], Str, same, same_iff, ◌≡◌, refl, if◌then◌else◌,
}
use goat_client.Names.{Snapshot, Store, Result, ok, err}
use goat_client.Names.Snapshots.{Coherent, PutSpec, put_snapshot-PutSpec}
use goat_client.Names.Claims.{put_claims}
use goat_client.Names.Forwarder.{Env, Service}
use goat_client.Names.Refresh.{
  Writes, Refreshed, accepted, no_base_url, fetch_failed, refused, file_url, snapshot_file,
  sig_file, claims_file, refresh_claims, after_put, with_pair, refresh,
}

module _ (env : Env) (get : Str → Option Str) (w : Writes) (base : Str) where
  -- What was learned and what was counted stay.
  abbrev pub Rest : Service → Service → Type 0
  Rest s s' = (s'.observed ≡ s.observed) × (s'.served ≡ s.served) × (s'.last_fall ≡ s.last_fall)

  -- The pair that the server gave has been put.
  abbrev pub Put : Service → Service → Result Snapshot → Type 0
  Put s s' r =
      (artifact : Str) × ((sig : Str) × ((get (file_url base snapshot_file) ≡ some artifact)
          × ((get (file_url base sig_file) ≡ some sig)
              × PutSpec env.crypto s.store artifact sig (s'.store, r))))

  abbrev pub Claims : Service → Service → Option Str → Type 0
  Claims s s' none = s'.claims ≡ s.claims
  Claims s s' (some body) =
      s'.claims ≡ (put_claims env.lib env.crypto env.formats body w.claims_fail s.claims).0

  abbrev pub RefreshSpec : Service → Service × Refreshed → Type 0
  RefreshSpec s (s', accepted snap) =
      Put s s' (ok snap) × Claims s s' (get (file_url base claims_file)) × Rest s s'
  RefreshSpec s (s', refused e) = Put s s' (err e) × (s'.claims ≡ s.claims) × Rest s s'
  RefreshSpec s (s', fetch_failed) = s' ≡ s
  RefreshSpec s (s', no_base_url) = (s' ≡ s) × (base ≡ [])

  puts :
      (s : Service) (artifact sig : Str) (r : Store × Result Snapshot)
      → get (file_url base snapshot_file) ≡ some artifact
      → get (file_url base sig_file) ≡ some sig
      → PutSpec env.crypto s.store artifact sig r
      → RefreshSpec s (after_put env get w base r s)
  puts s artifact sig (st, err e) ea es p =
      ((artifact, (sig, (ea, (es, p)))), refl, (refl, refl, refl))
  puts s artifact sig (st, ok snap) ea es p = claimed (get (file_url base claims_file))
    where
      with_store : Service
      with_store = record s { store = st }

      claimed :
          (o : Option Str)
          → Put s (refresh_claims env get w base o with_store) (ok snap)
            × Claims s (refresh_claims env get w base o with_store) o
            × Rest s (refresh_claims env get w base o with_store)
      claimed none = ((artifact, (sig, (ea, (es, p)))), refl, (refl, refl, refl))
      claimed (some body) = ((artifact, (sig, (ea, (es, p)))), refl, (refl, refl, refl))

  fetches :
      (s : Service) (o o' : Option Str)
      → get (file_url base snapshot_file) ≡ o
      → get (file_url base sig_file) ≡ o'
      → Coherent env.crypto s.store
      → RefreshSpec s (with_pair env get w base o o' s)
  fetches s none o' e e' c = refl
  fetches s (some artifact) none e e' c = refl
  fetches s (some artifact) (some sig) e e' c =
      puts s artifact sig _ e e'
        (put_snapshot-PutSpec env.crypto s.store artifact sig w.sig w.artifact c)

  -- On a store whose cache is coherent: a refresh that accepts a snapshot has put the pair that the
  -- server gave, and the claims that it gave where they parse and can be written. One that is refused,
  -- the case of a snapshot that is not newer included, has changed no claims whatever the server would
  -- give, and one that could not fetch has changed nothing. No refresh touches the observed names.
  pub refresh-RefreshSpec :
      (s : Service) → Coherent env.crypto s.store → RefreshSpec s (refresh env get w base s)
  unfolding refresh
  refresh-RefreshSpec s c = go (same base []) refl
    where
      go :
          (b : Bool)
          → same base [] ≡ b
          → RefreshSpec s (
              if b
              then (s, no_base_url)
              else with_pair env get w base
                  (get (file_url base snapshot_file))
                  (get (file_url base sig_file))
                  s)
      go true e = (refl, (same_iff base []).0 e)
      go false e = fetches s _ _ refl refl c
