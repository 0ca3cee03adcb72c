-- ===== src/Reachability/Emit.antt =====
-- internal/reachability/prober.go, `Run`: a snapshot that the channel could not take.
use goat_client.Prelude.{
  Bool, true, false, Option, none, some, List, [], ◌∷◌, Str, same, same_refl, eq_of_same, subst,
  sym, if◌then◌else◌, ◌≡◌, refl, ap, ◌∙◌, All,
}
use goat_client.Reachability.{Result, Round, sort_results, fingerprint, emit, run}

-- Rounds whose sorted results have the fingerprint.
abbrev pub Same : Str → Round → Type 0
Same fp r = fingerprint (sort_results r.results) ≡ fp

abbrev pub Nothing : Option (List Result) → Type 0
Nothing o = o ≡ none

emit-again : (fp : Str) (r : Round) → Same fp r → emit fp r ≡ (none, fp)
unfolding emit
emit-again fp r e =
    ap
      (λ (b : Bool). if b then (none, fp) else (
        if r.has_room then some (sort_results r.results) else none,
        fingerprint (sort_results r.results),
      ))
      (ap (λ s. same s fp) e ∙ same_refl fp)

quiet : (fp : Str) (rs : List Round) → All (Same fp) rs → All Nothing (run fp rs)
unfolding run
quiet fp [] h = tt
quiet fp (r ∷ rs) (e, h) =
    let again : emit fp r ≡ (none, fp) = emit-again fp r e in
    (
      ap (λ (x : Option (List Result) × Str). x.0) again,
      subst (λ (x : Option (List Result) × Str). All Nothing (run x.1 rs)) (sym again)
          (quiet fp rs h),
    )

-- When the channel has no room for the snapshot of a round, that round and all later rounds send
-- nothing for as long as reachability and order stay as they were in it, whatever room there is by
-- then: the snapshot is not made up for.
pub run-full :
    (prev fp : Str) (r : Round) (rs : List Round)
    → r.has_room ≡ false
    → Same fp r
    → All (Same fp) rs
    → All Nothing (run prev (r ∷ rs))
unfolding run emit
run-full prev fp r rs full e h = go (same (fingerprint (sort_results r.results)) prev) refl
  where
    out : Bool → Option (List Result) × Str
    out b = if b then (none, prev) else (
      if r.has_room then some (sort_results r.results) else none,
      fingerprint (sort_results r.results),
    )

    go :
        (b : Bool)
        → same (fingerprint (sort_results r.results)) prev ≡ b
        → Nothing ((out b).0) × All Nothing (run ((out b).1) rs)
    go true k =
        let kept : fp ≡ prev = sym e ∙ eq_of_same (fingerprint (sort_results r.results)) prev k in
        (refl, subst (λ x. All Nothing (run x rs)) kept (quiet fp rs h))
    go false k = (
      ap (λ (b : Bool). if b then some (sort_results r.results) else none) full,
      subst (λ x. All Nothing (run x rs)) (sym e) (quiet fp rs h),
    )
