-- ===== src/Names/Forwarder.antt =====
-- internal/names/forwarder.go, `handle`: one DNS query, answered from the live servers, the claims, the
-- signed snapshot or the observed names. The servers and the encoding of messages are library code.
pub mod Provenance
use goat_client.Prelude.{
  ℕ, Bool, true, false, not, Option, none, some, List, [], ◌∷◌, ◌++◌, Str, codes, same, is_some,
  ◌+◌, ◌/◌, ◌&&◌, ◌||◌, if◌then◌else◌,
}
use goat_client.Text.{trim_space}
use goat_client.Names.{Snapshot, Store, Crypto, Result, ok, err, load_snapshot}
use goat_client.Names.Answers.{Addr, Library, Answer, pick_fallback}
use goat_client.Names.Observed.{Observed, Sort, record_observation, lookup_observed}
use goat_client.Names.Claims.{Formats, ValidClaim, lookup_claim}

pub data QType : Type 0 where
  a aaaa other_type : QType

pub record Question : Type 0 where
  pub name : Str
  pub qtype : QType

pub data Rcode : Type 0 where
  success server_failure : Rcode
  other_rcode : ℕ → Rcode

-- An A or AAAA record with its name and the text of its address, or none if its bytes are no address;
-- and any other record.
pub data Rr : Type 0 where
  address : Str → Option Str → Rr
  other_rr : Rr

pub record Msg : Type 0 where
  pub rcode : Rcode
  pub answer : List Rr

-- The answers of a `synthesized` reply have a time to live of 30 seconds.
pub data Reply : Type 0 where
  format_error servfail no_records : Reply
  relayed : Msg → Reply
  synthesized : QType → Addr → Reply

-- `splits` is whether `net.SplitHostPort` succeeds, `join` is `net.JoinHostPort`, and `exchange` what
-- a server answers to the query within the time limit.
pub record Env : Type 0 where
  pub lib : Library
  pub crypto : Crypto
  pub formats : Formats
  pub sort : Sort
  pub splits : Str → Bool
  pub join : Str → Str → Str
  pub exchange : Str → Option Msg
  pub upstreams : List Str
  pub now : ℕ
  pub write_fails : Bool

pub record Service : Type 0 where
  pub store : Store
  pub claims : Option Str
  pub observed : Observed
  pub served : ℕ
  pub last_fall : ℕ

module _ (env : Env) where
  abbrev pub server_address : Str → Str
  server_address up = if env.splits up then up else env.join up (codes "53")

  abbrev pub first_response : Option Msg → Option Msg → Option Msg
  first_response (some m) later = some m
  first_response none later = later

  unfoldable pub try_upstreams : List Str → Option Msg
  try_upstreams [] = none
  try_upstreams (up ∷ ups) =
      if same (trim_space up) []
      then try_upstreams ups
      else first_response (env.exchange (server_address (trim_space up))) (try_upstreams ups)

  abbrev pub record_live : List Rr → Observed → Observed
  record_live [] st = st
  record_live (other_rr ∷ rrs) st = record_live rrs st
  record_live (address name none ∷ rrs) st = record_live rrs st
  record_live (address name (some ip) ∷ rrs) st =
      record_live rrs (record_observation env.lib env.sort name ip env.now env.write_fails st)

  abbrev pub wants_v6 : QType → Bool
  wants_v6 aaaa = true
  wants_v6 _ = false

  abbrev pub same_family : QType → Addr → Bool
  same_family q ip = elim (wants_v6 q) [ true ↦ ip.is6 | false ↦ not ip.is6 ]

  abbrev pub serve_fallback : QType → Addr → Service → Service × Reply
  serve_fallback q ip s =
      (record s { served = s.served + 1; last_fall = env.now / 1000000000 }, synthesized q ip)

  abbrev pub answer_with : QType → Option Answer → Service → Service × Reply
  answer_with q none s = (s, servfail)
  answer_with q (some ans) s =
      if same_family q ans.ip then serve_fallback q ans.ip s else (s, no_records)

  unfoldable pub from_tiers : Question → Result Snapshot → Service → Service × Reply
  from_tiers q snap s =
      answer_with q.qtype
        (pick_fallback env.lib snap (lookup_observed env.lib q.name env.now s.observed) q.name
          env.now)
        s

  abbrev pub from_claim : Question → Snapshot → Option ValidClaim → Service → Service × Reply
  from_claim q snap none s = from_tiers q (ok snap) s
  from_claim q snap (some c) s =
      if same_family q.qtype c.ip then serve_fallback q.qtype c.ip s else from_tiers q (ok snap) s

  abbrev pub from_loaded : Question → Service → Store × Result Snapshot → Service × Reply
  from_loaded q s (st, err e) = from_tiers q (err e) (record s { store = st })
  from_loaded q s (st, ok snap) =
      from_claim q snap
        (lookup_claim env.lib env.crypto env.formats s.claims q.name snap st.roots env.now)
        (record s { store = st })

  unfoldable pub fall_back : Question → QType → Service → Service × Reply
  fall_back q other_type s = (s, servfail)
  fall_back q a s = from_loaded q s (load_snapshot env.crypto s.store)
  fall_back q aaaa s = from_loaded q s (load_snapshot env.crypto s.store)

  abbrev pub relay : Question → Msg → Rcode → List Rr → Service → Service × Reply
  relay q m success [] s = fall_back q q.qtype s
  relay q m success (rr ∷ rrs) s =
      (record s { observed = record_live (rr ∷ rrs) s.observed }, relayed m)
  relay q m server_failure rrs s = fall_back q q.qtype s
  relay q m (other_rcode c) rrs s = (s, relayed m)

  abbrev pub live_or_fall_back : Question → Option Msg → Service → Service × Reply
  live_or_fall_back q none s = fall_back q q.qtype s
  live_or_fall_back q (some m) s = relay q m m.rcode m.answer s

  unfoldable pub handle : Option Question → Service → Service × Reply
  handle none s = (s, format_error)
  handle (some q) s = live_or_fall_back q (try_upstreams env.upstreams) s
