-- ===== src/Names/Observed/Learned.antt =====
-- internal/names/store.go, `RecordObservation` and `LookupObserved`: what was learned is found.
use goat_client.Prelude.{
  ℕ, ◌≤◌, ◌<◌, ◌+◌, Bool, true, false, some, List, [], ◌∷◌, ◌++◌, Str, same, same_iff, same_refl,
  length, length-append, take-all, Any, ◌≡◌, refl, sym, ap, ◌∙◌, arith, ◌⊎◌, inl, inr, ◌||◌,
  Bool-cases,
}
use goat_client.Prelude.Assoc.{lookup, lookup-insert_self}
use goat_client.Text.{to_lower}
use goat_client.Names.Answers.{ObservedRecord, Library, wanted}
use goat_client.Names.Observed.{
  Observed, Sort, load_observed, stale, kept, recent, observation, updated, record_observation,
  find_observed, lookup_observed, observed_max,
}

-- A sort neither makes nor loses an entry.
unfoldable pub Permutes : Sort → Type 0
Permutes sort =
    (rs : List ObservedRecord)
    → (length (sort rs) ≡ length rs)
      × ((o : ObservedRecord) → Any (λ x. x ≡ o) (sort rs) → Any (λ x. x ≡ o) rs)
      × ((o : ObservedRecord) → Any (λ x. x ≡ o) rs → Any (λ x. x ≡ o) (sort rs))

module _ (lib : Library) (want : Str) where
  -- Every entry for the name is the one.
  Only : ObservedRecord → List ObservedRecord → Type 0
  Only o rs =
      (x : ObservedRecord)
      → Any (λ y. y ≡ x) rs
      → same (to_lower lib.fold x.name) want ≡ true
      → x ≡ o

module _ (lib : Library) (want : Str) (now : ℕ) where
  find_observed-Only :
      (o : ObservedRecord) (rs : List ObservedRecord)
      → stale now o ≡ false
      → same (to_lower lib.fold o.name) want ≡ true
      → Any (λ x. x ≡ o) rs
      → Only lib want o rs
      → find_observed lib want now rs ≡ some o
  unfolding find_observed Only
  find_observed-Only o [] live named member only = absurd member
  find_observed-Only o (x ∷ rs) live named (inl e) only =
      let live' : stale now x ≡ false = ap (stale now) e ∙ live in
      let named' : same (to_lower lib.fold x.name) want ≡ true =
        ap (λ y. same (to_lower lib.fold y.name) want) e ∙ named in
      rw (live', named') (ap some e)
  find_observed-Only o (x ∷ rs) live named (inr member) only =
      let rest = find_observed-Only o rs live named member (λ y m. only y (inr m)) in
      elim (Bool-cases (stale now x)) [
        | inl old ↦ rw old rest
        | inr fresh ↦ elim (Bool-cases (same (to_lower lib.fold x.name) want)) [
          | inl here ↦ rw (fresh, here) (ap some (only x (inl refl) here))
          | inr other ↦ rw (fresh, other) rest
        ]
      ]

  kept-Only :
      (rs : List ObservedRecord) (x : ObservedRecord)
      → Any (λ y. y ≡ x) (kept lib want now rs)
      → same (to_lower lib.fold x.name) want ≡ false
  unfolding kept
  kept-Only [] x m = absurd m
  kept-Only (o ∷ os) x m = elim (Bool-cases (same (to_lower lib.fold o.name) want || stale now o)) [
    | inl gone ↦ kept-Only os x (rw gone at m)
    | inr stays ↦ elim (rw stays at m) [
      | inl e ↦ ap (λ y. same (to_lower lib.fold y.name) want) (sym e) ∙ (ground arith)
      | inr later ↦ kept-Only os x later
    ]
  ]

Any-append : {A : Type 0} (P : A → Type 0) (xs ys : List A) → Any P (xs ++ ys) → Any P xs ⊎ Any P ys
Any-append P [] ys m = inr m
Any-append P (x ∷ xs) ys (inl e) = inl (inl e)
Any-append P (x ∷ xs) ys (inr m) = elim (Any-append P xs ys m) [
  | inl l ↦ inl (inr l)
  | inr r ↦ inr r
]

Any-last : {A : Type 0} (P : A → Type 0) (xs : List A) (y : A) → P y → Any P (xs ++ y ∷ [])
Any-last P [] y p = inl p
Any-last P (x ∷ xs) y p = inr (Any-last P xs y p)

-- `unicode.ToLower` of what it returned changes nothing.
unfoldable pub Idempotent : Library → Type 0
Idempotent lib = (s : Str) → to_lower lib.fold (to_lower lib.fold s) ≡ to_lower lib.fold s

module _ (lib : Library) (sort : Sort) (permutes : Permutes sort)
    (idempotent : Idempotent lib) where
  module _ (name ip : Str) (now : ℕ) (rs : List ObservedRecord) where
    abbrev learned : ObservedRecord
    learned = observation (wanted lib name) ip now

    named : same (to_lower lib.fold (wanted lib name)) (wanted lib name) ≡ true
    unfolding wanted Idempotent
    named = (same_iff _ _).1 (idempotent _)

    short :
        length (kept lib (wanted lib name) now rs) < observed_max
        → updated lib sort (wanted lib name) ip now rs
          ≡ sort (kept lib (wanted lib name) now rs ++ learned ∷ [])
    unfolding updated Permutes
    short few = take-all _ observed_max (
        omega (
          arith,
          (permutes (kept lib (wanted lib name) now rs ++ learned ∷ [])).0,
          length-append {0} (kept lib (wanted lib name) now rs) (learned ∷ []),
        ))

    only :
        Only lib
          (wanted lib name)
          learned
          (sort (kept lib (wanted lib name) now rs ++ learned ∷ []))
    unfolding Only Permutes
    only x m here = elim (Any-append _ (kept lib (wanted lib name) now rs) _ ((permutes _).1 x m)) [
      | inl old ↦ absurd (cc (kept-Only lib (wanted lib name) now rs x old))
      | inr (inl e) ↦ sym e
      | inr (inr none_left) ↦ absurd none_left
    ]

    found :
        (later : ℕ)
        → length (kept lib (wanted lib name) now rs) < observed_max
        → stale later learned ≡ false
        → find_observed lib (wanted lib name) later (updated lib sort (wanted lib name) ip now rs)
          ≡ some learned
    unfolding Permutes
    found later few live =
        ap (find_observed lib (wanted lib name) later) (short few)
        ∙ find_observed-Only lib (wanted lib name) later learned _ live named
            ((permutes _).2 learned (Any-last _ (kept lib (wanted lib name) now rs) learned refl))
            only

  -- Where the same address was not recorded within the minute before and fewer than 512 other records
  -- are kept, a binding that `RecordObservation` writes is what `LookupObserved` finds under that
  -- name until it is thirty days old.
  pub lookup_observed-record_observation :
      (name ip : Str) (now later : ℕ) (st : Observed)
      → recent ip now (lookup (wanted lib name) st.last_obs) ≡ false
      → length (kept lib (wanted lib name) now (load_observed st)) < observed_max
      → stale later (observation (wanted lib name) ip now) ≡ false
      → lookup_observed lib name later (record_observation lib sort name ip now false st)
        ≡ some (observation (wanted lib name) ip now)
  unfolding lookup_observed record_observation
  lookup_observed-record_observation name ip now later st new few live =
      rw new (found name ip now (load_observed st) later few live)

module _ (lib : Library) (sort : Sort) where
  recent-again :
      (ip : Str) (now later : ℕ)
      → now ≤ later
      → later < now + 60000000000
      → recent ip later (some (record { ip = ip; at = now })) ≡ true
  recent-again ip now later a b = ground (arith, same_refl ip)

  -- After a write that failed, `RecordObservation` of the same binding within a minute writes nothing,
  -- whether or not it could: the file is still the one before.
  pub record_observation-lost :
      (name ip : Str) (now later : ℕ) (fails : Bool) (st : Observed)
      → recent ip now (lookup (wanted lib name) st.last_obs) ≡ false
      → now ≤ later
      → later < now + 60000000000
      → (record_observation lib sort name ip later fails
          (record_observation lib sort name ip now true st)).file
        ≡ st.file
  unfolding record_observation
  record_observation-lost name ip now later fails st new a b = rw (
    new,
    lookup-insert_self (wanted lib name) st.last_obs (record { ip = ip; at = now }),
    recent-again ip now later a b,
  )
