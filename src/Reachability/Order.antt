-- ===== src/Reachability/Order.antt =====
-- internal/reachability/prober.go, `sortResults`: the order of a round.
use goat_client.Prelude.{
  ℕ, ◌≤◌, Bool, true, false, List, [], ◌∷◌, ◌&&◌, ◌==◌, if◌then◌else◌, All, ◌≡◌, refl, ap, ◌∙◌,
  arith,
}
use goat_client.Reachability.{Result, before, insert, sort_results}

-- A list in which no result should come before the one ahead of it.
abbrev InOrder : List Result → Type 0
InOrder [] = Unit
InOrder (x ∷ xs) = All (λ y. before y x ≡ false) xs × InOrder xs

-- Whatever stands behind a result: if it was reached then so was the result, in no more time.
abbrev pub Leads : Result → Result → Type 0
Leads x y = y.reachable ≡ true → (x.reachable ≡ true) × (x.rtt ≤ y.rtt)

abbrev pub FastestFirst : List Result → Type 0
FastestFirst [] = Unit
FastestFirst (x ∷ xs) = All (Leads x) xs × FastestFirst xs

Leads-not-before : (x y : Result) → before y x ≡ false → Leads x y
Leads-not-before x y h r = ground arith

InOrder-FastestFirst : (xs : List Result) → InOrder xs → FastestFirst xs
InOrder-FastestFirst [] h = tt
InOrder-FastestFirst (x ∷ xs) (a, h) = (leads xs a, InOrder-FastestFirst xs h)
  where
    leads : (ys : List Result) → All (λ y. before y x ≡ false) ys → All (Leads x) ys
    leads [] k = tt
    leads (y ∷ ys) (e, k) = (Leads-not-before x y e, leads ys k)

-- The results that cannot be reached, in their order.
abbrev pub lost : List Result → List Result
lost [] = []
lost (r ∷ rs) = if r.reachable then lost rs else r ∷ lost rs

-- Those with one round trip, in their order.
abbrev pub timed : ℕ → List Result → List Result
timed t [] = []
timed t (r ∷ rs) = if r.reachable && (r.rtt == t) then r ∷ timed t rs else timed t rs

before_trans : (a b c : Result) → before b a ≡ false → before c b ≡ false → before c a ≡ false
before_trans a b c h k = ground arith

before_asym : (a b : Result) → before a b ≡ true → before b a ≡ false
before_asym a b h = ground arith

All-insert :
    (P : Result → Type 0) (r : Result) (xs : List Result) → P r → All P xs → All P (insert r xs)
unfolding insert
All-insert P r [] p h = (p, tt)
All-insert P r (x ∷ xs) p (q, h) = go (All-insert P r xs p h) (before x r)
  where
    go : All P (insert r xs) → (b : Bool) → All P (if b then x ∷ insert r xs else r ∷ x ∷ xs)
    go k true = (q, k)
    go k false = (p, (q, h))

All-before_trans :
    (a b : Result) (xs : List Result)
    → before b a ≡ false
    → All (λ y. before y b ≡ false) xs
    → All (λ y. before y a ≡ false) xs
All-before_trans a b [] h k = tt
All-before_trans a b (x ∷ xs) h (p, k) = (before_trans a b x h p, All-before_trans a b xs h k)

insert-InOrder : (r : Result) (xs : List Result) → InOrder xs → InOrder (insert r xs)
unfolding insert
insert-InOrder r [] h = (tt, tt)
insert-InOrder r (x ∷ xs) (a, h) = go (insert-InOrder r xs h) (before x r) refl
  where
    go :
        InOrder (insert r xs)
        → (b : Bool) → before x r ≡ b
        → InOrder (if b then x ∷ insert r xs else r ∷ x ∷ xs)
    go k true e = (All-insert (λ y. before y x ≡ false) r xs (before_asym x r e) a, k)
    go k false e = ((e, All-before_trans r x xs e a), (a, h))

sort_results-InOrder : (rs : List Result) → InOrder (sort_results rs)
unfolding sort_results
sort_results-InOrder [] = tt
sort_results-InOrder (r ∷ rs) = insert-InOrder r (sort_results rs) (sort_results-InOrder rs)

abbrev lost_step : Bool → Result → List Result → List Result
lost_step b r rs = if b then rs else r ∷ rs

lost-insert : (r : Result) (xs : List Result) → lost (insert r xs) ≡ lost (r ∷ xs)
unfolding insert
lost-insert r [] = refl
lost-insert r (x ∷ xs) = go (lost-insert r xs) (before x r) refl
  where
    go :
        lost (insert r xs) ≡ lost (r ∷ xs)
        → (b : Bool) → before x r ≡ b
        → lost (if b then x ∷ insert r xs else r ∷ x ∷ xs) ≡ lost (r ∷ x ∷ xs)
    go k false e = refl
    go k true e = ap (lost_step x.reachable x) k ∙ swap (x.reachable) (r.reachable) refl refl
      where
        swap :
            (a b : Bool)
            → x.reachable ≡ a
            → r.reachable ≡ b
            → lost_step a x (lost_step b r (lost xs)) ≡ lost_step b r (lost_step a x (lost xs))
        swap true b p q = refl
        swap false true p q = refl
        swap false false p q = absurd (ground (arith, e, p, q))

abbrev timed_step : Bool → Result → List Result → List Result
timed_step b r rs = if b then r ∷ rs else rs

timed-insert : (t : ℕ) (r : Result) (xs : List Result) → timed t (insert r xs) ≡ timed t (r ∷ xs)
unfolding insert
timed-insert t r [] = refl
timed-insert t r (x ∷ xs) = go (timed-insert t r xs) (before x r) refl
  where
    go :
        timed t (insert r xs) ≡ timed t (r ∷ xs)
        → (b : Bool) → before x r ≡ b
        → timed t (if b then x ∷ insert r xs else r ∷ x ∷ xs) ≡ timed t (r ∷ x ∷ xs)
    go k false e = refl
    go k true e =
        ap (timed_step (x.reachable && (x.rtt == t)) x) k
        ∙ swap (x.reachable && (x.rtt == t)) (r.reachable && (r.rtt == t)) refl refl
      where
        swap :
            (a b : Bool)
            → (x.reachable && (x.rtt == t)) ≡ a
            → (r.reachable && (r.rtt == t)) ≡ b
            → timed_step a x (timed_step b r (timed t xs))
              ≡ timed_step b r (timed_step a x (timed t xs))
        swap false b p q = refl
        swap true false p q = refl
        swap true true p q = absurd (ground (arith, e, p, q))

-- Sorting puts the results that were reached first, in the order of their round trips, and the
-- others behind them. It is stable and loses nothing: the unreachable results, and those of each
-- round trip, are the same as before and in the same order.
pub sort_results-stable :
    (rs : List Result)
    → FastestFirst (sort_results rs)
      × ((lost (sort_results rs) ≡ lost rs) × ((t : ℕ) → timed t (sort_results rs) ≡ timed t rs))
unfolding sort_results
sort_results-stable rs = (
  InOrder-FastestFirst (sort_results rs) (sort_results-InOrder rs),
  (lost_all rs, λ t. timed_all t rs),
)
  where
    lost_all : (rs : List Result) → lost (sort_results rs) ≡ lost rs
    lost_all [] = refl
    lost_all (r ∷ rs) = lost-insert r (sort_results rs) ∙ ap (lost_step r.reachable r) (lost_all rs)

    timed_all : (t : ℕ) (rs : List Result) → timed t (sort_results rs) ≡ timed t rs
    timed_all t [] = refl
    timed_all t (r ∷ rs) =
        timed-insert t r (sort_results rs)
        ∙ ap (timed_step (r.reachable && (r.rtt == t)) r) (timed_all t rs)
