-- ===== src/Names/Forwarder/Provenance.antt =====
-- internal/names/forwarder.go, `handle`: where an answer comes from.
use goat_client.Prelude.{
  Bool, true, false, Option, none, some, List, [], ◌∷◌, ◌+◌, ◌≡◌, ◌≢◌, refl, sym, ◌∙◌, ap, subst,
  arith, ◌⊎◌, inl, inr, if◌then◌else◌, Bool-cases,
}
use goat_client.Names.{Snapshot, NameRecord, Store, Result, ok, err, on_disk}
use goat_client.Names.Snapshots.{Coherent, LoadSpec, load_snapshot-LoadSpec}
use goat_client.Names.Answers.{
  Addr, Answer, Source, Grade, fresh, aging, expired, ObservedRecord, grade_at, lookup_record,
  answer_from, observed_answer, observed_or_none, supersedes, from_record, from_graded,
  pick_fallback,
}
use goat_client.Names.Observed.{lookup_observed}
use goat_client.Names.Claims.{ValidClaim, lookup_claim}
use goat_client.Names.Claims.Authentic.{Claimed, lookup_claim-Claimed}
use goat_client.Names.Forwarder.{
  QType, a, aaaa, other_type, Question, Rcode, success, server_failure, other_rcode, Rr, Msg, Reply,
  format_error, servfail, no_records, relayed, synthesized, Env, Service, try_upstreams,
  same_family, serve_fallback, answer_with, from_tiers, from_claim, from_loaded, fall_back, relay,
  live_or_fall_back, handle,
}

module _ (env : Env) (q : Question) where
  -- What an answer that the forwarder makes itself rests on: a peer's claim of its own name, a record
  -- of the signed snapshot that has not expired, or a name that was observed.
  pub data Justified (s : Service) (ip : Addr) : Type 0 where
    claimed :
        (snap : Snapshot) (c : ValidClaim)
        → on_disk env.crypto s.store ≡ ok snap
        → Claimed env.lib env.crypto env.formats s.claims q.name snap s.store.roots env.now c
        → c.ip ≡ ip
        → Justified s ip
    canonical :
        (snap : Snapshot) (rec : NameRecord)
        → on_disk env.crypto s.store ≡ ok snap
        → (grade_at snap env.now).grade ≢ expired
        → lookup_record env.lib snap q.name ≡ some rec
        → env.lib.parse_addr rec.ip ≡ some ip
        → Justified s ip
    learned :
        (obs : ObservedRecord)
        → lookup_observed env.lib q.name env.now s.observed ≡ some obs
        → env.lib.parse_addr obs.ip ≡ some ip
        → Justified s ip

  answer_from-ip :
      (src : Source) (o : Option Addr) (ans : Answer)
      → answer_from src o ≡ some ans
      → o ≡ some ans.ip
  answer_from-ip src none ans h = absurd (cc)
  answer_from-ip src (some ip) ans h = ground arith

  module _ (s : Service) (ans : Answer) where
    observed-Justified :
        (obs : Option ObservedRecord)
        → lookup_observed env.lib q.name env.now s.observed ≡ obs
        → observed_or_none env.lib env.now obs ≡ some ans
        → Justified s ans.ip
    unfolding observed_answer
    observed-Justified none e h = absurd (cc)
    observed-Justified (some obs) e h =
        learned obs e (answer_from-ip _ (env.lib.parse_addr obs.ip) ans h)

    module _ (snap : Snapshot) (disk : on_disk env.crypto s.store ≡ ok snap)
        (current : (grade_at snap env.now).grade ≢ expired) where
      record-Justified :
          (obs : Option ObservedRecord) (rec : Option NameRecord)
          → lookup_observed env.lib q.name env.now s.observed ≡ obs
          → lookup_record env.lib snap q.name ≡ rec
          → from_record env.lib snap (grade_at snap env.now) env.now obs rec ≡ some ans
          → Justified s ans.ip
      record-Justified obs none eo er h = observed-Justified obs eo h
      record-Justified none (some rec) eo er h =
          canonical snap rec disk current er (answer_from-ip _ (env.lib.parse_addr rec.ip) ans h)
      record-Justified (some obs) (some rec) eo er h = elim (Bool-cases (supersedes obs rec snap)) [
        | inl hotfix ↦ observed-Justified (some obs) eo (rw hotfix at h)
        | inr stale ↦
            canonical snap rec disk current er
              (answer_from-ip _ (env.lib.parse_addr rec.ip) ans (rw stale at h))
      ]

    graded-Justified :
        (snap : Snapshot) (g : Grade)
        → on_disk env.crypto s.store ≡ ok snap
        → (grade_at snap env.now).grade ≡ g
        → from_graded env.lib snap
            (grade_at snap env.now)
            env.now
            (lookup_observed env.lib q.name env.now s.observed)
            q.name
            g
          ≡ some ans
        → Justified s ans.ip
    graded-Justified snap expired disk e h = observed-Justified _ refl h
    graded-Justified snap fresh disk e h = record-Justified snap disk (λ x. cc) _ _ refl refl h
    graded-Justified snap aging disk e h = record-Justified snap disk (λ x. cc) _ _ refl refl h

    pick-Justified :
        (r : Result Snapshot)
        → on_disk env.crypto s.store ≡ r
        → pick_fallback env.lib r (lookup_observed env.lib q.name env.now s.observed) q.name env.now
          ≡ some ans
        → Justified s ans.ip
    unfolding pick_fallback
    pick-Justified (err e) disk h = observed-Justified _ refl h
    pick-Justified (ok snap) disk h =
        graded-Justified snap (grade_at snap env.now).grade disk refl h

  -- The live servers gave no answer that the forwarder would relay.
  pub NoLive : Type 0
  NoLive =
      (m : Msg)
      → try_upstreams env env.upstreams ≡ some m
      → (m.rcode ≡ server_failure) ⊎ ((m.rcode ≡ success) × (m.answer ≡ []))

  abbrev pub Uncounted : Service → Service → Type 0
  Uncounted s s' = (s'.served ≡ s.served) × (s'.claims ≡ s.claims)

  -- What a fallback leaves and replies.
  abbrev pub FallbackSpec : Service → Service × Reply → Type 0
  FallbackSpec s (s', synthesized t ip) =
      (t ≡ q.qtype) × (same_family env t ip ≡ true) × (s'.served ≡ s.served + 1) × Justified s ip
  FallbackSpec s (s', servfail) = Uncounted s s'
  FallbackSpec s (s', no_records) = Uncounted s s'
  FallbackSpec s (s', format_error) = ⊥
  FallbackSpec s (s', relayed m) = ⊥

  abbrev pub HandleSpec : Service → Service × Reply → Type 0
  HandleSpec s (s', relayed m) =
      (try_upstreams env env.upstreams ≡ some m) × (s'.served ≡ s.served) × (s'.store ≡ s.store)
  HandleSpec s (s', synthesized t ip) = NoLive × FallbackSpec s (s', synthesized t ip)
  HandleSpec s (s', servfail) = NoLive × FallbackSpec s (s', servfail)
  HandleSpec s (s', no_records) = NoLive × FallbackSpec s (s', no_records)
  HandleSpec s (s', format_error) = ⊥

  module _ (s : Service) (st : Store) where
    -- The service once the store has been loaded.
    abbrev loaded : Service
    loaded = record s { store = st }

    serves :
        (ip : Addr)
        → same_family env q.qtype ip ≡ true
        → Justified s ip
        → FallbackSpec s (serve_fallback env q.qtype ip loaded)
    serves ip f j = (refl, f, refl, j)

    answers :
        (o : Option Answer)
        → ((ans : Answer) → o ≡ some ans → Justified s ans.ip)
        → FallbackSpec s (answer_with env q.qtype o loaded)
    answers none j = (refl, refl)
    answers (some ans) j = fits (same_family env q.qtype ans.ip) refl
      where
        fits :
            (b : Bool)
            → same_family env q.qtype ans.ip ≡ b
            → FallbackSpec s
                (if b then serve_fallback env q.qtype ans.ip loaded else (loaded, no_records))
        fits true e = serves ans.ip e (j ans refl)
        fits false e = (refl, refl)

    tiers :
        (r : Result Snapshot)
        → on_disk env.crypto s.store ≡ r
        → FallbackSpec s (from_tiers env q r loaded)
    unfolding from_tiers
    tiers r disk = answers _ (λ ans h. pick-Justified s ans r disk h)

    claims_first :
        (snap : Snapshot) (o : Option ValidClaim)
        → on_disk env.crypto s.store ≡ ok snap
        → st.roots ≡ s.store.roots
        → lookup_claim env.lib env.crypto env.formats s.claims q.name snap st.roots env.now ≡ o
        → FallbackSpec s (from_claim env q snap o loaded)
    claims_first snap none disk roots e = tiers (ok snap) disk
    claims_first snap (some c) disk roots e = fits (same_family env q.qtype c.ip) refl
      where
        found : Claimed env.lib env.crypto env.formats s.claims q.name snap s.store.roots env.now c
        found =
            subst (λ r. Claimed env.lib env.crypto env.formats s.claims q.name snap r env.now c)
              roots
              (lookup_claim-Claimed env.lib env.crypto env.formats s.claims q.name snap st.roots
                env.now c e)

        fits :
            (b : Bool)
            → same_family env q.qtype c.ip ≡ b
            → FallbackSpec s (
                if b
                then serve_fallback env q.qtype c.ip loaded
                else from_tiers env q (ok snap) loaded)
        fits true f = serves c.ip f (claimed snap c disk found refl)
        fits false f = tiers (ok snap) disk

  loads :
      (s : Service) (r : Store × Result Snapshot)
      → LoadSpec env.crypto s.store r
      → FallbackSpec s (from_loaded env q s r)
  loads s (st, err e) l = tiers s st (err e) (sym l.result)
  loads s (st, ok snap) l = claims_first s st snap _ (sym l.result) l.files.0 refl

  falls_back :
      (s : Service) (t : QType) → Coherent env.crypto s.store → FallbackSpec s (fall_back env q t s)
  unfolding fall_back
  falls_back s other_type c = (refl, refl)
  falls_back s a c = loads s _ (load_snapshot-LoadSpec env.crypto s.store c)
  falls_back s aaaa c = loads s _ (load_snapshot-LoadSpec env.crypto s.store c)

  after_no_live : (s : Service) (r : Service × Reply) → NoLive → FallbackSpec s r → HandleSpec s r
  after_no_live s (s', relayed m) n f = absurd f
  after_no_live s (s', format_error) n f = f
  after_no_live s (s', synthesized t ip) n f = (n, f)
  after_no_live s (s', servfail) n f = (n, f)
  after_no_live s (s', no_records) n f = (n, f)

  relays :
      (s : Service) (m : Msg) (rc : Rcode) (rrs : List Rr)
      → Coherent env.crypto s.store
      → try_upstreams env env.upstreams ≡ some m
      → m.rcode ≡ rc
      → m.answer ≡ rrs
      → HandleSpec s (relay env q m rc rrs s)
  unfolding NoLive
  relays s m success [] c e er ea =
      after_no_live s (fall_back env q q.qtype s)
        (λ m' e'.
          let same_msg : m ≡ m' = cc in
          inr (ap (λ x. x.rcode) (sym same_msg) ∙ er, ap (λ x. x.answer) (sym same_msg) ∙ ea))
        (falls_back s q.qtype c)
  relays s m success (rr ∷ rrs) c e er ea = (e, refl, refl)
  relays s m server_failure rrs c e er ea =
      after_no_live s (fall_back env q q.qtype s)
        (λ m' e'. let same_msg : m ≡ m' = cc in inl (ap (λ x. x.rcode) (sym same_msg) ∙ er))
        (falls_back s q.qtype c)
  relays s m (other_rcode k) rrs c e er ea = (e, refl, refl)

  -- On a store whose cache is coherent, `handle` relays an answer of the live servers, or else they
  -- gave none, a server failure or an empty success. Then an answer that it makes is of the type
  -- and the family asked for, is counted, and rests on a peer's claim of its own name under the
  -- verified snapshot, on a record of that snapshot unexpired, or on an observed name. Where it
  -- fails, nothing is counted and no claim is lost.
  pub handle-HandleSpec :
      (s : Service) → Coherent env.crypto s.store → HandleSpec s (handle env (some q) s)
  unfolding handle NoLive
  handle-HandleSpec s c = live (try_upstreams env env.upstreams) refl
    where
      live :
          (o : Option Msg)
          → try_upstreams env env.upstreams ≡ o
          → HandleSpec s (live_or_fall_back env q o s)
      live none e =
          after_no_live s (fall_back env q q.qtype s) (λ m e'. absurd (cc)) (falls_back s q.qtype c)
      live (some m) e = relays s m m.rcode m.answer c e refl refl
