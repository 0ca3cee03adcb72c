-- ===== src/Names/Answers.antt =====
-- internal/names/names.go: the grades of a snapshot and the choice of an answer, `PickFallback`. The
-- current time is in nanoseconds since 1970; texts of errors are not kept.
use goat_client.Prelude.{
  ℕ, Bool, true, false, Option, none, some, List, [], ◌∷◌, Str, codes, same, length, ◌||◌, ◌&&◌,
  not, if◌then◌else◌,
}
use goat_client.Prelude.Int.{ℤ, pos, leb_ℤ, ltb_ℤ, since, seconds, not_negative}
use goat_client.Text.{to_lower}
use goat_client.Names.{Snapshot, NameRecord, Result, ok, err}

pub record ObservedRecord : Type 0 where
  pub name : Str
  pub ip : Str
  pub observed_at : ℤ

-- A `netip.Addr`: its family and its bytes.
pub record Addr : Type 0 where
  pub is6 : Bool
  pub slice : Str

-- `netip.ParseAddr`, and the lower case of code points beyond ASCII.
pub record Library : Type 0 where
  pub parse_addr : Str → Option Addr
  pub fold : ℕ → ℕ

pub data Grade : Type 0 where
  fresh aging expired : Grade

pub record Meta : Type 0 where
  pub serial : ℕ
  pub age : ℤ
  pub grade : Grade
  pub site_id : Str
  pub zone : Str
  pub records : ℕ

-- Seven days.
abbrev pub fresh_bound : ℤ
fresh_bound = pos 604800000000000

unfoldable pub grade_of : Snapshot → ℤ → Grade
grade_of s age =
    if leb_ℤ s.generated_at_unix (pos 0) || leb_ℤ (seconds s.ttl_seconds) age
    then expired
    else if leb_ℤ fresh_bound age
    then aging
    else fresh

unfoldable pub grade_at : Snapshot → ℕ → Meta
unfolding grade_of
grade_at s now =
    let age = since now s.generated_at_unix in
    record {
      serial = s.serial;
      age = not_negative age;
      grade = grade_of s age;
      site_id = s.site_id;
      zone = s.zone;
      records = length s.records;
    }

-- `strings.TrimSuffix(name, ".")`.
abbrev pub trim_dot : Str → Str
trim_dot [] = []
trim_dot (c ∷ s) = elim (same (c ∷ s) (codes ".")) [ true ↦ [] | false ↦ c ∷ trim_dot s ]

unfoldable pub wanted : Library → Str → Str
wanted lib name = to_lower lib.fold (trim_dot name)

unfoldable pub find_record : Library → Str → List NameRecord → Option NameRecord
find_record lib want [] = none
find_record lib want (r ∷ rs) =
    if same (to_lower lib.fold r.name) want then some r else find_record lib want rs

unfoldable pub lookup_record : Library → Snapshot → Str → Option NameRecord
lookup_record lib s name = find_record lib (wanted lib name) s.records

pub data Source : Type 0 where
  snapshot : Meta → Source
  observed : ℤ → Source

pub record Answer : Type 0 where
  pub ip : Addr
  pub source : Source

abbrev pub answer_from : Source → Option Addr → Option Answer
answer_from source none = none
answer_from source (some a) = some (record { ip = a; source = source })

-- The error is `none`.
unfoldable pub observed_answer : Library → ObservedRecord → ℕ → Option Answer
observed_answer lib obs now =
    answer_from (observed (not_negative (since now obs.observed_at))) (lib.parse_addr obs.ip)

abbrev pub observed_or_none : Library → ℕ → Option ObservedRecord → Option Answer
observed_or_none lib now none = none
observed_or_none lib now (some obs) = observed_answer lib obs now

unfoldable pub supersedes : ObservedRecord → NameRecord → Snapshot → Bool
supersedes obs rec s = not (same obs.ip rec.ip) && ltb_ℤ s.generated_at_unix obs.observed_at

abbrev pub canonical_or_hotfix :
    Library → Snapshot → Meta → ℕ → Option ObservedRecord → NameRecord → Option Answer
canonical_or_hotfix lib s meta now none rec = answer_from (snapshot meta) (lib.parse_addr rec.ip)
canonical_or_hotfix lib s meta now (some obs) rec =
    if supersedes obs rec s
    then observed_answer lib obs now
    else answer_from (snapshot meta) (lib.parse_addr rec.ip)

abbrev pub from_record :
    Library → Snapshot → Meta → ℕ → Option ObservedRecord → Option NameRecord → Option Answer
from_record lib s meta now obs none = observed_or_none lib now obs
from_record lib s meta now obs (some rec) = canonical_or_hotfix lib s meta now obs rec

abbrev pub from_graded :
    Library → Snapshot → Meta → ℕ → Option ObservedRecord → Str → Grade → Option Answer
from_graded lib s meta now obs name expired = observed_or_none lib now obs
from_graded lib s meta now obs name fresh =
    from_record lib s meta now obs (lookup_record lib s name)
from_graded lib s meta now obs name aging =
    from_record lib s meta now obs (lookup_record lib s name)

-- `PickFallback` of what `LoadSnapshot` returned, which is never a nil snapshot with no error.
unfoldable pub pick_fallback :
    Library → Result Snapshot → Option ObservedRecord → Str → ℕ → Option Answer
pick_fallback lib (err e) obs name now = observed_or_none lib now obs
pick_fallback lib (ok s) obs name now =
    from_graded lib s (grade_at s now) now obs name (grade_at s now).grade
