-- ===== src/Tests/Reachability.antt =====
-- Runs of internal/reachability.
use goat_client.Prelude.{ℕ, true, false, [], ◌∷◌, Str, codes, All, ◌≡◌, refl}
use goat_client.Reachability.{Result, Round, sort_results, insert, fingerprint, run, uninit}
use goat_client.Reachability.Order.{FastestFirst, lost, timed, sort_results-stable}
use goat_client.Reachability.Emit.{Same, Nothing, run-full}

abbrev slow : Result
slow = record { network = codes "udp"; address = codes "a"; reachable = true; rtt = 30 }

abbrev gone : Result
gone = record { network = codes "udp"; address = codes "b"; reachable = false; rtt = 0 }

abbrev quick : Result
quick = record { network = codes "tcp"; address = codes "c"; reachable = true; rtt = 10 }

sorted : sort_results (slow ∷ gone ∷ quick ∷ []) ≡ quick ∷ slow ∷ gone ∷ []
unfolding sort_results insert
sorted = refl

sort_results-stable_example :
    FastestFirst (sort_results (slow ∷ gone ∷ quick ∷ []))
    × ((lost (sort_results (slow ∷ gone ∷ quick ∷ [])) ≡ lost (slow ∷ gone ∷ quick ∷ []))
        × ((t : ℕ)
            → timed t (sort_results (slow ∷ gone ∷ quick ∷ []))
              ≡ timed t (slow ∷ gone ∷ quick ∷ [])))
sort_results-stable_example = sort_results-stable (slow ∷ gone ∷ quick ∷ [])

abbrev full_round : Round
full_round = record { results = slow ∷ gone ∷ []; has_room = false }

abbrev later_round : Round
later_round = record { results = gone ∷ slow ∷ []; has_room = true }

abbrev print : Str
print = codes "udp|a|1,udp|b|0"

full_print : Same print full_round
unfolding fingerprint sort_results insert
full_print = refl

later_print : Same print later_round
unfolding fingerprint sort_results insert
later_print = refl

run-full_example : All Nothing (run uninit (full_round ∷ later_round ∷ []))
run-full_example =
    run-full uninit print full_round (later_round ∷ []) refl full_print (later_print, tt)
