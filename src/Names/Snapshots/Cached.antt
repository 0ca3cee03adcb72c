-- ===== src/Names/Snapshots/Cached.antt =====
-- internal/names/store.go, `LoadSnapshot`: the cache against files that others change. A file is known
-- by its size and its time of change.
use goat_client.Prelude.{
  Bool, true, false, List, Option, none, some, Str, length, leb, ◌≡◌, refl, sym, ap, ap₂, ◌∙◌,
  arith, if◌then◌else◌,
}
use goat_client.Bundle.{Key}
use goat_client.Names.{
  Snapshot, Result, ok, err, Crypto, Store, Write, fails, lands, File, Stat, no_cached_snapshot,
  no_signature_file, no_trust_roots, not_base64, bad_signature, malformed, unexpected_format,
  not_newer, write_failed, new_store, stat, key_of, same_key, snap_stat_key, hit, hit_if, on_disk,
  read_verified, remember, forget, served, load_snapshot, write_pair, replace_older, put_verified,
  put_snapshot, verify_and_parse,
}
use goat_client.Names.Snapshots.{Coherent, LoadSpec, load_snapshot-LoadSpec}

-- What an artifact and a signature of a size and a time of change hold: no two versions of a file
-- that differ have the same of both.
module _ (crypto : Crypto) (artifact_of sig_of : Stat → Str) where
  abbrev pub IsVersion : (Stat → Str) → Option File → Type 0
  IsVersion of file = (f : File) → file ≡ some f → of (stat f) ≡ f.bytes

  abbrev pub Stamped : Store → Type 0
  Stamped st = IsVersion artifact_of st.artifact × IsVersion sig_of st.sig

  -- The stores that loads and puts reach from a new one, while others change, add and remove the files.
  pub data Reachable : Store → Type 0 where
    starts :
        (roots : List (Option Key)) (a s : Option File)
        → Stamped (new_store roots a s)
        → Reachable (new_store roots a s)
    loads : (st : Store) → Reachable st → Reachable ((load_snapshot crypto st).0)
    puts :
        (a s : Str) (w w' : Write) (st : Store)
        → Reachable st
        → Stamped ((put_snapshot crypto a s w w' st).0)
        → Reachable ((put_snapshot crypto a s w w' st).0)
    changes :
        (a s : Option File) (st : Store)
        → Reachable st
        → Stamped (record st { artifact = a; sig = s })
        → Reachable (record st { artifact = a; sig = s })

  -- What is cached is what the versions of the key give.
  Cached : Store → Type 0
  Cached st =
      (s : Snapshot) (k k' : Stat)
      → st.snap_cache ≡ some s
      → st.snap_cache_key ≡ some (k, k')
      → verify_and_parse crypto (artifact_of k) (sig_of k') st.roots ≡ ok s

  checked :
      (roots : List (Option Key)) (a b : Option File) (s : Snapshot) (k k' : Stat)
      → IsVersion artifact_of a
      → IsVersion sig_of b
      → read_verified crypto roots a b ≡ ok s
      → key_of a b ≡ some (k, k')
      → verify_and_parse crypto (artifact_of k) (sig_of k') roots ≡ ok s
  unfolding read_verified
  checked roots none b s k k' va vb h e = absurd (cc)
  checked roots (some a) none s k k' va vb h e = absurd (cc)
  checked roots (some a) (some b) s k k' va vb h e =
      let first : stat a ≡ k = cc in
      let second : stat b ≡ k' = cc in
      ap₂ (λ x y. verify_and_parse crypto x y roots) (ap artifact_of (sym first) ∙ va a refl)
        (ap sig_of (sym second) ∙ vb b refl)
      ∙ h

  served_by :
      (roots : List (Option Key)) (a b : Option File) (key : Option (Stat × Stat))
      (c : Option Snapshot) (s : Snapshot)
      → IsVersion artifact_of a
      → IsVersion sig_of b
      → ((k k' : Stat)
          → c ≡ some s
          → key ≡ some (k, k')
          → verify_and_parse crypto (artifact_of k) (sig_of k') roots ≡ ok s)
      → hit_if (same_key (key_of a b) key) c ≡ some s
      → read_verified crypto roots a b ≡ ok s
  unfolding read_verified
  served_by roots none b key c s va vb h e = absurd (cc)
  served_by roots (some a) none key c s va vb h e = absurd (cc)
  served_by roots (some a) (some b) none c s va vb h e = absurd (cc)
  served_by roots (some a) (some b) (some ((m, u), (n, v))) c s va vb h e =
      go (same_key (some (stat a, stat b)) (some ((m, u), (n, v)))) refl e
    where
      go :
          (same : Bool)
          → same_key (some (stat a, stat b)) (some ((m, u), (n, v))) ≡ same
          → hit_if same c ≡ some s
          → verify_and_parse crypto a.bytes b.bytes roots ≡ ok s
      go false p k = absurd (cc)
      go true p k =
          let parts : (length a.bytes ≡ m)
              × (a.changed_at ≡ u)
              × (length b.bytes ≡ n)
              × (b.changed_at ≡ v) =
            ground (arith, p) in
          let first : stat a ≡ (m, u) = ap₂ (λ x y. (x, y)) parts.0 parts.1 in
          let second : stat b ≡ (n, v) = ap₂ (λ x y. (x, y)) parts.2 parts.3 in
          ap₂ (λ x y. verify_and_parse crypto x y roots) (sym (va a refl) ∙ ap artifact_of first)
            (sym (vb b refl) ∙ ap sig_of second)
          ∙ h (m, u) (n, v) k refl

  Cached-Coherent : (st : Store) → Stamped st → Cached st → Coherent crypto st
  unfolding Cached hit snap_stat_key
  Cached-Coherent st (va, vb) c s e =
      served_by st.roots st.artifact st.sig st.snap_cache_key st.snap_cache s va vb (c s) e

  forget-Cached : (st : Store) → Cached (forget st)
  unfolding Cached
  forget-Cached st s k k' e f = absurd (cc)

  remember-Cached :
      (st : Store) (r : Result Snapshot)
      → Stamped st
      → Cached st
      → on_disk crypto st ≡ r
      → Cached (remember crypto st r)
  unfolding Cached snap_stat_key
  remember-Cached st (ok x) (va, vb) c h = λ s k k' e f.
      let kept : x ≡ s = cc in checked st.roots st.artifact st.sig s k k' va vb (h ∙ ap ok kept) f
  remember-Cached st (err no_cached_snapshot) v c h = c
  remember-Cached st (err no_signature_file) v c h = c
  remember-Cached st (err no_trust_roots) v c h = forget-Cached st
  remember-Cached st (err not_base64) v c h = forget-Cached st
  remember-Cached st (err bad_signature) v c h = forget-Cached st
  remember-Cached st (err malformed) v c h = forget-Cached st
  remember-Cached st (err unexpected_format) v c h = forget-Cached st
  remember-Cached st (err not_newer) v c h = forget-Cached st
  remember-Cached st (err write_failed) v c h = forget-Cached st

  load-Cached : (st : Store) → Stamped st → Cached st → Cached ((load_snapshot crypto st).0)
  unfolding load_snapshot
  load-Cached st v c = go (hit st)
    where
      go : (o : Option Snapshot) → Cached ((served crypto st o).0)
      go (some s) = c
      go none = remember-Cached st (on_disk crypto st) v c refl

  write-Cached :
      (a s : Str) (cand : Snapshot) (w w' : Write) (st : Store)
      → Cached st
      → verify_and_parse crypto a s st.roots ≡ ok cand
      → Stamped ((write_pair crypto a s cand w w' st).0)
      → Cached ((write_pair crypto a s cand w w' st).0)
  unfolding Cached snap_stat_key
  write-Cached a s cand fails w' st c h v = c
  write-Cached a s cand (lands t) fails st c h v = c
  write-Cached a s cand (lands t) (lands t') st c h (va, vb) = λ x k k' e f.
      let kept : cand ≡ x = cc in
      unfold read_verified in
      checked st.roots (some (record { bytes = a; changed_at = t' }))
        (some (record { bytes = s; changed_at = t })) x k k' va vb (h ∙ ap ok kept) f

  replace-Cached :
      (a s : Str) (cand : Snapshot) (w w' : Write) (r : Store × Result Snapshot)
      → Cached r.0
      → verify_and_parse crypto a s (r.0).roots ≡ ok cand
      → Stamped ((replace_older crypto a s cand w w' r).0)
      → Cached ((replace_older crypto a s cand w w' r).0)
  replace-Cached a s cand w w' (st, err e) c h v = write-Cached a s cand w w' st c h v
  replace-Cached a s cand w w' (st, ok cached) c h v = go (leb cand.serial cached.serial) v
    where
      go :
          (b : Bool)
          → Stamped ((if b then (st, err not_newer) else write_pair crypto a s cand w w' st).0)
          → Cached ((if b then (st, err not_newer) else write_pair crypto a s cand w w' st).0)
      go true v = c
      go false v = write-Cached a s cand w w' st c h v

  put-Cached :
      (a s : Str) (w w' : Write) (st : Store)
      → Stamped st
      → Cached st
      → Stamped ((put_snapshot crypto a s w w' st).0)
      → Cached ((put_snapshot crypto a s w w' st).0)
  unfolding put_snapshot
  put-Cached a s w w' st v c = go (verify_and_parse crypto a s st.roots) refl
    where
      go :
          (r : Result Snapshot)
          → verify_and_parse crypto a s st.roots ≡ r
          → Stamped ((put_verified crypto a s w w' st r).0)
          → Cached ((put_verified crypto a s w w' st r).0)
      go (err e) h v' = c
      go (ok cand) h v' =
          let l = load_snapshot-LoadSpec crypto st (Cached-Coherent st v c) in
          replace-Cached a s cand w w' (load_snapshot crypto st) (load-Cached st v c)
            (ap (verify_and_parse crypto a s) l.files.0 ∙ h) v'

  IsVersion-same :
      (of : Stat → Str) (file file' : Option File)
      → file' ≡ file
      → IsVersion of file
      → IsVersion of file'
  IsVersion-same of file file' e v f h = v f (sym e ∙ h)

  keeps : (st : Store) → Reachable st → Stamped st × Cached st
  unfolding new_store Cached
  keeps st' (starts roots a s v) = (v, λ x k k' e f. absurd (cc))
  keeps st' (loads st r) =
      let (v, c) = keeps st r in
      let l = load_snapshot-LoadSpec crypto st (Cached-Coherent st v c) in
      (
        (
          IsVersion-same artifact_of st.artifact _ l.files.1 v.0,
          IsVersion-same sig_of st.sig _ l.files.2 v.1,
        ),
        load-Cached st v c,
      )
  keeps st' (puts a s w w' st r v') = let (v, c) = keeps st r in (v', put-Cached a s w w' st v c v')
  keeps st' (changes a s st r v') = let (v, c) = keeps st r in (v', c)

  -- Where no two versions of the artifact that differ agree in both size and time of change, and no two
  -- of the signature do: after any loads and puts, and whatever others did to the files in between,
  -- `LoadSnapshot` gives what reading and checking both files gives now, and changes neither.
  pub Reachable-LoadSpec :
      (st : Store) → Reachable st → LoadSpec crypto st (load_snapshot crypto st)
  Reachable-LoadSpec st r =
      let (v, c) = keeps st r in load_snapshot-LoadSpec crypto st (Cached-Coherent st v c)
