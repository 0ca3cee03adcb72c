-- ===== src/Names/Observed.antt =====
-- internal/names/store.go: the observed tier, names that were learned from live answers. The file is
-- the list that it encodes, or `none` where it cannot be read or parsed; `sort` is `sort.Slice` by
-- the time of observation, newest first.
pub mod Learned
use goat_client.Prelude.{
  ℕ, Bool, true, false, Option, none, some, List, [], ◌∷◌, ◌++◌, Str, same, length, take, suc, ◌+◌,
  ◌/◌, ◌&&◌, ◌||◌, ltb, if◌then◌else◌,
}
use goat_client.Prelude.Assoc.{lookup, insert}
use goat_client.Prelude.Int.{ℤ, pos, leb_ℤ, ltb_ℤ, since, sub_ℕ, saturate}
use goat_client.Text.{to_lower}
use goat_client.Names.Answers.{ObservedRecord, Library, wanted}

-- Thirty days.
abbrev pub observed_ttl : ℤ
observed_ttl = pos 2592000000000000

abbrev pub observed_max : ℕ
observed_max = 512

-- A minute.
abbrev pub obs_suppress : ℤ
obs_suppress = pos 60000000000

-- `obsMark`: the address and the time of the last record of a name.
pub record Mark : Type 0 where
  pub ip : Str
  pub at : ℕ

pub record Observed : Type 0 where
  pub file : Option (List ObservedRecord)
  pub last_obs : List (Str × Mark)

abbrev pub Sort : Type 0
Sort = List ObservedRecord → List ObservedRecord

abbrev pub load_observed : Observed → List ObservedRecord
load_observed st = elim st.file [ none ↦ [] | some rs ↦ rs ]

unfoldable pub stale : ℕ → ObservedRecord → Bool
stale now o = leb_ℤ observed_ttl (since now o.observed_at)

-- What `RecordObservation` keeps of the earlier records.
unfoldable pub kept : Library → Str → ℕ → List ObservedRecord → List ObservedRecord
kept lib want now [] = []
kept lib want now (o ∷ os) =
    if same (to_lower lib.fold o.name) want || stale now o
    then kept lib want now os
    else o ∷ kept lib want now os

abbrev pub recent : Str → ℕ → Option Mark → Bool
recent ip now none = false
recent ip now (some m) = same m.ip ip && ltb_ℤ (saturate (sub_ℕ now m.at)) obs_suppress

abbrev pub observation : Str → Str → ℕ → ObservedRecord
observation want ip now = record { name = want; ip = ip; observed_at = pos (now / 1000000000) }

unfoldable pub updated : Library → Sort → Str → Str → ℕ → List ObservedRecord → List ObservedRecord
updated lib sort want ip now records =
    take observed_max (sort (kept lib want now records ++ observation want ip now ∷ []))

abbrev pub write : Bool → List ObservedRecord → Observed → Observed
write true records st = st
write false records st = record st { file = some records }

-- The flag says whether the write fails.
unfoldable pub record_observation : Library → Sort → Str → Str → ℕ → Bool → Observed → Observed
record_observation lib sort name ip now fails st =
    let want = wanted lib name in
    if recent ip now (lookup want st.last_obs)
    then st
    else write fails (updated lib sort want ip now (load_observed st))
        (record st { last_obs = insert want (record { ip = ip; at = now }) st.last_obs })

unfoldable pub find_observed : Library → Str → ℕ → List ObservedRecord → Option ObservedRecord
find_observed lib want now [] = none
find_observed lib want now (o ∷ os) =
    let rest = find_observed lib want now os in
    if stale now o then rest else if same (to_lower lib.fold o.name) want then some o else rest

unfoldable pub lookup_observed : Library → Str → ℕ → Observed → Option ObservedRecord
lookup_observed lib name now st = find_observed lib (wanted lib name) now (load_observed st)

unfoldable pub count_live : ℕ → List ObservedRecord → ℕ
count_live now [] = 0
count_live now (o ∷ os) = if stale now o then count_live now os else suc (count_live now os)

unfoldable pub observed_count : ℕ → Observed → ℕ
observed_count now st = count_live now (load_observed st)
