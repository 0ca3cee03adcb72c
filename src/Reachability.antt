-- ===== src/Reachability.antt =====
-- internal/reachability/prober.go: the order of a round's results, and which rounds `Run` hands to
-- its channel. What a dial gives is the environment's, so a round is the results of its endpoints
-- in their order. A round trip is a natural number.
pub mod Order
pub mod Emit
use goat_client.Prelude.{
  ℕ, Bool, true, false, not, Option, none, some, List, [], ◌∷◌, ◌++◌, Str, codes, same, ltb, ◌&&◌,
  ◌||◌, if◌then◌else◌,
}

-- An endpoint with its `network()`, and what a probe of it gave.
pub record Result : Type 0 where
  pub network : Str
  pub address : Str
  pub reachable : Bool
  pub rtt : ℕ

-- The less-than of `sortResults`.
abbrev pub before : Result → Result → Bool
before a b = if a.reachable then (if b.reachable then ltb a.rtt b.rtt else true) else false

-- `sort.SliceStable` by insertion, which has the same result.
unfoldable pub insert : Result → List Result → List Result
insert r [] = r ∷ []
insert r (x ∷ xs) = let rest = insert r xs in if before x r then x ∷ rest else r ∷ x ∷ xs

unfoldable pub sort_results : List Result → List Result
sort_results [] = []
sort_results (r ∷ rs) = insert r (sort_results rs)

abbrev pub flag : Bool → Str
flag true = codes "1"
flag false = codes "0"

abbrev pub entry : Result → Str
entry r = r.network ++ codes "|" ++ r.address ++ codes "|" ++ flag r.reachable

abbrev pub tail_entries : List Result → Str
tail_entries [] = []
tail_entries (r ∷ rs) = codes "," ++ entry r ++ tail_entries rs

unfoldable pub fingerprint : List Result → Str
fingerprint [] = []
fingerprint (r ∷ rs) = entry r ++ tail_entries rs

-- `prev` before the first round: no fingerprint starts with a zero byte.
abbrev pub uninit : Str
uninit = 0 ∷ codes "uninit"

-- One round of `Run`: its results, and whether the channel can take them.
pub record Round : Type 0 where
  pub results : List Result
  pub has_room : Bool

-- What `emit` sends, and the fingerprint that it keeps.
unfoldable pub emit : Str → Round → Option (List Result) × Str
emit prev r =
    let rs = sort_results r.results in
    let fp = fingerprint rs in
    if same fp prev then (none, prev) else (if r.has_room then some rs else none, fp)

-- The snapshots that the rounds of `Run` send, from what it keeps.
unfoldable pub run : Str → List Round → List (Option (List Result))
run prev [] = []
run prev (r ∷ rs) = let (out, next) = emit prev r in out ∷ run next rs
