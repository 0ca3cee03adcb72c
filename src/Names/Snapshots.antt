-- ===== src/Names/Snapshots.antt =====
-- internal/names/store.go, `LoadSnapshot` and `PutSnapshot`: the cache serves what the files say,
-- and a snapshot is replaced only by a newer one.
pub mod Cached
use goat_client.Prelude.{
  ◌<◌, Bool, true, false, List, Option, none, some, Str, ◌≡◌, ◌≢◌, refl, subst, sym, ap, arith, leb,
  if◌then◌else◌, ◌∙◌,
}
use goat_client.Bundle.{Key}
use goat_client.Names.{
  Snapshot, Result, ok, err, Crypto, Store, Write, fails, lands, File, NamesError,
  no_cached_snapshot, no_signature_file, no_trust_roots, not_base64, bad_signature, malformed,
  unexpected_format, not_newer, write_failed, new_store, hit, hit_if, on_disk, read_verified,
  remember, forget, served, load_snapshot, write_pair, replace_older, put_verified, put_snapshot,
  verify_and_parse,
}

module _ (crypto : Crypto) where
  -- What the cache serves is what the check of the files would give.
  abbrev pub Coherent : Store → Type 0
  Coherent st = (s : Snapshot) → hit st ≡ some s → on_disk crypto st ≡ ok s

  abbrev pub SameFiles : Store → Store → Type 0
  SameFiles st st' = (st'.roots ≡ st.roots) × (st'.artifact ≡ st.artifact) × (st'.sig ≡ st.sig)

  -- A load changes no file, keeps the cache coherent, and gives what an uncached one gives.
  pub record LoadSpec (st : Store) (r : Store × Result Snapshot) : Type 0 where
    pub files : SameFiles st r.0
    pub coherent : Coherent r.0
    pub result : r.1 ≡ on_disk crypto st

  hit_if-cache : (b : Bool) (c : Option Snapshot) (s : Snapshot) → hit_if b c ≡ some s → c ≡ some s
  hit_if-cache true c s e = e
  hit_if-cache false c s e = absurd (cc)

  hit-cache : (st : Store) (s : Snapshot) → hit st ≡ some s → st.snap_cache ≡ some s
  unfolding hit
  hit-cache st s e = hit_if-cache _ st.snap_cache s e

  Coherent-forget : (st : Store) → Coherent (forget st)
  Coherent-forget st s e = let lost : none ≡ some s = hit-cache (forget st) s e in absurd (cc)

  pub new_store-Coherent :
      (roots : List (Option Key)) (a s : Option File) → Coherent (new_store roots a s)
  unfolding new_store
  new_store-Coherent roots a s x e =
      let lost : none ≡ some x = hit-cache (new_store roots a s) x e in absurd (cc)

  remember-LoadSpec :
      (st : Store) (r : Result Snapshot)
      → Coherent st
      → on_disk crypto st ≡ r
      → SameFiles st (remember crypto st r) × Coherent (remember crypto st r)
  remember-LoadSpec st (ok s) c e = (
    (refl, refl, refl),
    (λ x h. let kept : some s ≡ some x = hit-cache (remember crypto st (ok s)) x h in cc),
  )
  remember-LoadSpec st (err no_cached_snapshot) c e = ((refl, refl, refl), c)
  remember-LoadSpec st (err no_signature_file) c e = ((refl, refl, refl), c)
  remember-LoadSpec st (err no_trust_roots) c e = ((refl, refl, refl), Coherent-forget st)
  remember-LoadSpec st (err not_base64) c e = ((refl, refl, refl), Coherent-forget st)
  remember-LoadSpec st (err bad_signature) c e = ((refl, refl, refl), Coherent-forget st)
  remember-LoadSpec st (err malformed) c e = ((refl, refl, refl), Coherent-forget st)
  remember-LoadSpec st (err unexpected_format) c e = ((refl, refl, refl), Coherent-forget st)
  remember-LoadSpec st (err not_newer) c e = ((refl, refl, refl), Coherent-forget st)
  remember-LoadSpec st (err write_failed) c e = ((refl, refl, refl), Coherent-forget st)

  served-LoadSpec :
      (st : Store) (o : Option Snapshot)
      → Coherent st
      → hit st ≡ o
      → LoadSpec st (served crypto st o)
  served-LoadSpec st (some s) c e = record {
    files = (refl, refl, refl);
    coherent = c;
    result = sym (c s e);
  }
  served-LoadSpec st none c e =
      let both = remember-LoadSpec st (on_disk crypto st) c refl in
      record { files = both.0; coherent = both.1; result = refl }

  -- On a store whose cache is coherent, a new one for instance, `LoadSnapshot` gives what reading
  -- and checking both files would give, changes neither and leaves the cache coherent.
  pub load_snapshot-LoadSpec : (st : Store) → Coherent st → LoadSpec st (load_snapshot crypto st)
  unfolding load_snapshot
  load_snapshot-LoadSpec st c = served-LoadSpec st (hit st) c refl

  -- What a put that returned its snapshot has done.
  pub record Replaced (st : Store) (a s : Str) (st' : Store) (cand : Snapshot) : Type 0 where
    pub verified : verify_and_parse crypto a s st.roots ≡ ok cand
    pub installed : on_disk crypto st' ≡ ok cand
    pub newer : (old : Snapshot) → on_disk crypto st ≡ ok old → old.serial < cand.serial
    pub coherent : Coherent st'

  -- What a put that returned an error has done: the artifact stands, and where it was no failed
  -- write, so does its signature.
  pub record Kept (st st' : Store) (e : NamesError) : Type 0 where
    pub roots : st'.roots ≡ st.roots
    pub artifact : st'.artifact ≡ st.artifact
    pub files : e ≢ write_failed → SameFiles st st' × Coherent st'

  abbrev pub PutSpec : Store → Str → Str → Store × Result Snapshot → Type 0
  PutSpec st a s (st', ok cand) = Replaced st a s st' cand
  PutSpec st a s (st', err e) = Kept st st' e

  Older : Store → Snapshot → Type 0
  Older st cand = (old : Snapshot) → on_disk crypto st ≡ ok old → old.serial < cand.serial

  write_pair-PutSpec :
      (st : Store) (a s : Str) (cand : Snapshot) (w w' : Write) (st₁ : Store)
      → SameFiles st st₁
      → verify_and_parse crypto a s st.roots ≡ ok cand
      → Older st cand
      → PutSpec st a s (write_pair crypto a s cand w w' st₁)
  unfolding Older read_verified verify_and_parse
  write_pair-PutSpec st a s cand fails w' st₁ (r, f, g) v o = record {
    roots = r;
    artifact = f;
    files = (λ n. absurd (n refl));
  }
  write_pair-PutSpec st a s cand (lands t) fails st₁ (r, f, g) v o = record {
    roots = r;
    artifact = f;
    files = (λ n. absurd (n refl));
  }
  write_pair-PutSpec st a s cand (lands t) (lands t') st₁ (r, f, g) v o =
      let now : verify_and_parse crypto a s st₁.roots ≡ ok cand =
        ap (verify_and_parse crypto a s) r ∙ v in
      record {
        verified = v;
        installed = now;
        newer = o;
        coherent = (λ x h. let kept : some cand ≡ some x = hit-cache _ x h in cc);
      }

  replace_older-PutSpec :
      (st : Store) (a s : Str) (cand : Snapshot) (w w' : Write) (r : Store × Result Snapshot)
      → LoadSpec st r
      → verify_and_parse crypto a s st.roots ≡ ok cand
      → PutSpec st a s (replace_older crypto a s cand w w' r)
  unfolding Older
  replace_older-PutSpec st a s cand w w' (st₁, err e) l v =
      write_pair-PutSpec st a s cand w w' st₁ l.files v
        (λ old d. let lost : err e ≡ ok old = l.result ∙ d in absurd (cc))
  replace_older-PutSpec st a s cand w w' (st₁, ok cached) l v =
      go (leb cand.serial cached.serial) refl
    where
      go :
          (b : Bool)
          → leb cand.serial cached.serial ≡ b
          → PutSpec st a s (if b then (st₁, err not_newer) else write_pair crypto a s cand w w' st₁)
      go true e = record {
        roots = l.files.0;
        artifact = l.files.1;
        files = (λ n. (l.files, l.coherent));
      }
      go false e = write_pair-PutSpec st a s cand w w' st₁ l.files v (λ old d.
          let kept : ok cached ≡ ok old = l.result ∙ d in
          let same_snapshot : cached ≡ old = cc in
          subst (λ x. x.serial < cand.serial) same_snapshot (ground (arith)))

  -- On a store whose cache is coherent and whatever write fails, `PutSnapshot` returns a snapshot
  -- only if the pair verifies and its serial is above that of the pair on disk, where this verifies;
  -- then the new pair is on disk. Otherwise the artifact stands, and so does the signature file
  -- unless a write failed.
  pub put_snapshot-PutSpec :
      (st : Store) (a s : Str) (w w' : Write)
      → Coherent st
      → PutSpec st a s (put_snapshot crypto a s w w' st)
  unfolding put_snapshot
  put_snapshot-PutSpec st a s w w' c = go (verify_and_parse crypto a s st.roots) refl
    where
      go :
          (r : Result Snapshot)
          → verify_and_parse crypto a s st.roots ≡ r
          → PutSpec st a s (put_verified crypto a s w w' st r)
      go (err e) v = record {
        roots = refl;
        artifact = refl;
        files = (λ n. ((refl, refl, refl), c));
      }
      go (ok cand) v =
          replace_older-PutSpec st a s cand w w' (load_snapshot crypto st)
            (load_snapshot-LoadSpec st c) v
