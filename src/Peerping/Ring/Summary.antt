-- ===== src/Peerping/Ring/Summary.antt =====
-- The rolling summary of internal/peerping, against the successful round trips of the window.
use goat_client.Prelude.{
  ℕ, suc, ◌+◌, ◌/◌, ◌^◌, ◌≤◌, ◌<◌, ◌≡◌, ◌⊎◌, inl, inr, refl, sym, ◌∙◌, true, false, List, [], ◌∷◌,
  length, arith, ltb, ◌==◌, ◌||◌, All, if◌then◌else◌, Bool-cases, subst,
}
use native.Mathlib.Decide.{dec_lt}
use goat_client.Peerping.Ring.{
  Ring, Sample, Stats, Tally, tally, tally_all, start_tally, finish, stats, samples, lt_int64,
  div_int64,
}
use goat_client.Peerping.Ring.Order.{IsValid, length-samples}

-- The round trips that came back, newest first, put before those of `done`.
abbrev pub replies : List Sample → List ℕ → List ℕ
replies [] done = done
replies (s ∷ ss) done = replies ss (if s.lost then done else s.rtt ∷ done)

abbrev pub sum : List ℕ → ℕ
sum [] = 0
sum (x ∷ xs) = x + sum xs

abbrev pub head_or_zero : List ℕ → ℕ
head_or_zero [] = 0
head_or_zero (x ∷ xs) = x

-- A value that a list holds, or 0 for the empty list.
abbrev pub Attained : ℕ → List ℕ → Type 0
Attained m [] = m ≡ 0
Attained m (x ∷ xs) = (m ≡ x) ⊎ Attained m xs

pub record Tallied (t : Tally) (seen : ℕ) (done : List ℕ) : Type 0 where
  pub ok_count : t.ok ≡ length done
  pub lost_count : t.st.lost + length done ≡ seen
  pub total : t.sum ≡ sum done
  pub fits : sum done < 2 ^ 63
  pub low : All (λ x. t.st.min ≤ x) done
  pub low_hit : Attained t.st.min done
  pub high : All (λ x. x ≤ t.st.max) done
  pub high_hit : Attained t.st.max done
  pub newest : t.st.last ≡ head_or_zero done

All-trans_low : (lo lo' : ℕ) (xs : List ℕ) → lo' ≤ lo → All (λ x. lo ≤ x) xs → All (λ x. lo' ≤ x) xs
All-trans_low lo lo' [] h a = tt
All-trans_low lo lo' (x ∷ xs) h a = (omega (arith, a.0), All-trans_low lo lo' xs h a.1)

All-trans_high :
    (hi hi' : ℕ) (xs : List ℕ) → hi ≤ hi' → All (λ x. x ≤ hi) xs → All (λ x. x ≤ hi') xs
All-trans_high hi hi' [] h a = tt
All-trans_high hi hi' (x ∷ xs) h a = (omega (arith, a.0), All-trans_high hi hi' xs h a.1)

Attained-le-sum : (m : ℕ) (xs : List ℕ) → Attained m xs → m ≤ sum xs
Attained-le-sum m [] h = omega arith
Attained-le-sum m (x ∷ xs) (inl e) = omega arith
Attained-le-sum m (x ∷ xs) (inr h) = omega (arith, Attained-le-sum m xs h)

lt_int64-ltb : (a b : ℕ) → a < 2 ^ 63 → b < 2 ^ 63 → lt_int64 a b ≡ ltb a b
lt_int64-ltb a b h k = ground arith

abbrev lower : ℕ → ℕ → ℕ → ℕ
lower k m x = if k == 0 || ltb x m then x else m

abbrev higher : ℕ → ℕ → ℕ
higher m x = if ltb m x then x else m

abbrev Least : List ℕ → ℕ → Type 0
Least xs m = All (λ y. m ≤ y) xs × Attained m xs

abbrev Greatest : List ℕ → ℕ → Type 0
Greatest xs m = All (λ y. y ≤ m) xs × Attained m xs

lower_step :
    (k m x : ℕ) (done : List ℕ)
    → k ≡ length done
    → All (λ y. m ≤ y) done
    → Attained m done
    → Least (x ∷ done) (lower k m x)
lower_step k m x [] e a h = rw e ((omega arith, tt), inl refl)
lower_step k m x (y ∷ done) e a h = elim (dec_lt x m) [
  | yes p ↦
      let f : lower k m x ≡ x = ground arith in
      subst (Least (x ∷ y ∷ done)) (sym f)
        ((omega arith, All-trans_low m x (y ∷ done) (omega arith) a), inl refl)
  | no p ↦
      let f : lower k m x ≡ m = ground arith in
      subst (Least (x ∷ y ∷ done)) (sym f) ((omega arith, a), inr h)
]

higher_step :
    (m x : ℕ) (done : List ℕ)
    → All (λ y. y ≤ m) done
    → Attained m done
    → Greatest (x ∷ done) (higher m x)
higher_step m x done a h = elim (dec_lt m x) [
  | yes p ↦
      let f : higher m x ≡ x = ground arith in
      subst (Greatest (x ∷ done)) (sym f)
        ((omega arith, All-trans_high m x done (omega arith) a), inl refl)
  | no p ↦
      let f : higher m x ≡ m = ground arith in
      subst (Greatest (x ∷ done)) (sym f) ((omega arith, a), inr h)
]

tally-Tallied_lost :
    {t : Tally} (seen : ℕ) (done : List ℕ) (s : Sample)
    → s.lost ≡ true
    → Tallied t seen done
    → Tallied (tally t s) (suc seen) done
unfolding tally
tally-Tallied_lost {t} seen done s e v = rw e (record {
  ok_count = v.ok_count;
  lost_count = omega (arith, v.lost_count);
  total = v.total;
  fits = v.fits;
  low = v.low;
  low_hit = v.low_hit;
  high = v.high;
  high_hit = v.high_hit;
  newest = v.newest;
})

tally-Tallied :
    {t : Tally} (seen : ℕ) (done : List ℕ) (s : Sample)
    → s.lost ≡ false
    → s.rtt + sum done < 2 ^ 63
    → Tallied t seen done
    → Tallied (tally t s) (suc seen) (s.rtt ∷ done)
unfolding tally
tally-Tallied {t} seen done s e fits' v =
    let min_small : t.st.min < 2 ^ 63 =
      omega (arith, Attained-le-sum t.st.min done v.low_hit, v.fits) in
    let max_small : t.st.max < 2 ^ 63 =
      omega (arith, Attained-le-sum t.st.max done v.high_hit, v.fits) in
    let (low', low_hit') = lower_step t.ok t.st.min s.rtt done v.ok_count v.low v.low_hit in
    let (high', high_hit') = higher_step t.st.max s.rtt done v.high v.high_hit in
    rw
      (
        e,
        lt_int64-ltb s.rtt t.st.min (omega arith) min_small,
        lt_int64-ltb t.st.max s.rtt max_small (omega arith),
      )
      (record {
        ok_count = omega (arith, v.ok_count);
        lost_count = omega (arith, v.lost_count);
        total = omega (arith, v.total);
        fits = fits';
        low = low';
        low_hit = low_hit';
        high = high';
        high_hit = high_hit';
        newest = refl;
      })

-- The newest-first list only grows, so what fits at the end fits all along.
sum-le-replies : (ss : List Sample) (done : List ℕ) → sum done ≤ sum (replies ss done)
sum-le-replies [] done = omega arith
sum-le-replies (s ∷ ss) done = elim (Bool-cases s.lost) [
  | inl gone ↦ rw gone (sum-le-replies ss done)
  | inr came ↦ rw came (omega (arith, sum-le-replies ss (s.rtt ∷ done)))
]

tally_all-Tallied :
    (t : Tally) (seen : ℕ) (ss : List Sample) (done : List ℕ)
    → sum (replies ss done) < 2 ^ 63
    → Tallied t seen done
    → Tallied (tally_all t ss) (seen + length ss) (replies ss done)
unfolding tally_all
tally_all-Tallied t seen [] done h v = subst (λ k. Tallied t k done) (omega arith) v
tally_all-Tallied t seen (s ∷ ss) done h v = elim (Bool-cases s.lost) [
  | inl gone ↦
      simp (gone, suc_right seen (length ss))
        (tally_all-Tallied (tally t s) (suc seen) ss done (simp gone at h)
          (tally-Tallied_lost seen done s gone v))
  | inr came ↦
      simp (came, suc_right seen (length ss))
        (tally_all-Tallied (tally t s) (suc seen) ss (s.rtt ∷ done) (simp came at h) (
          tally-Tallied seen done s came
            (omega (arith, sum-le-replies ss (s.rtt ∷ done), simp came at h)) v))
]
  where
    suc_right : (a b : ℕ) → a + suc b ≡ suc a + b
    suc_right a b = omega arith

start-Tallied : (n : ℕ) → Tallied (start_tally n) 0 []
start-Tallied n = record {
  ok_count = refl;
  lost_count = refl;
  total = refl;
  fits = omega arith;
  low = tt;
  low_hit = refl;
  high = tt;
  high_hit = refl;
  newest = refl;
}

tally_all_keeps :
    (t : Tally) (ss : List Sample)
    → ((tally_all t ss).st.n ≡ t.st.n) × ((tally_all t ss).st.avg ≡ t.st.avg)
unfolding tally_all tally
tally_all_keeps t [] = (refl, refl)
tally_all_keeps t (s ∷ ss) = ground (arith, tally_all_keeps (tally t s) ss)

-- What `Stats` says of a valid ring whose round trips add up below 2^63 nanoseconds: how many
-- samples there are, and how many were lost; the least and the greatest round trip that came
-- back, the last one and the whole-number average; all of them 0 where none came back.
pub record Summarises (st : Stats) (window : List Sample) : Type 0 where
  pub n : st.n ≡ length window
  pub lost : st.lost + length (replies window []) ≡ length window
  pub min : Least (replies window []) st.min
  pub max : Greatest (replies window []) st.max
  pub avg : st.avg ≡ sum (replies window []) / length (replies window [])
  pub last : st.last ≡ head_or_zero (replies window [])

sum_of_empty : (xs : List ℕ) → length xs ≡ 0 → 0 ≡ sum xs / length xs
sum_of_empty [] h = refl
sum_of_empty (x ∷ xs) h = absurd (omega arith)

nil_of_length : (ss : List Sample) → length ss ≡ 0 → ss ≡ []
nil_of_length [] h = refl
nil_of_length (s ∷ ss) h = absurd (omega arith)

finish-Summarises :
    (t : Tally) (window : List Sample)
    → t.st.n ≡ length window
    → t.st.avg ≡ 0
    → Tallied t (length window) (replies window [])
    → Summarises (finish t) window
finish-Summarises t window e z v = elim (dec_lt 0 t.ok) [
  | yes p ↦
      let f : finish t ≡ record (t.st) { avg = div_int64 t.sum t.ok } = ground arith in
      let q : div_int64 t.sum t.ok ≡ t.sum / t.ok = ground (arith, v.total, v.fits) in
      subst (λ st. Summarises st window) (sym f)
        (record {
          n = e;
          lost = v.lost_count;
          min = (v.low, v.low_hit);
          max = (v.high, v.high_hit);
          avg = q ∙ rw (v.total, v.ok_count);
          last = v.newest;
        })
  | no p ↦
      let f : finish t ≡ t.st = ground arith in
      subst (λ st. Summarises st window) (sym f)
        (record {
          n = e;
          lost = v.lost_count;
          min = (v.low, v.low_hit);
          max = (v.high, v.high_hit);
          avg = z ∙ sum_of_empty (replies window []) (omega (arith, v.ok_count));
          last = v.newest;
        })
]

-- On a valid ring whose round trips add up below 2^63 nanoseconds, `Stats` counts the samples held
-- and those lost, and gives the least, the greatest, the last and the whole-number average of the
-- round trips that came back, or zeros where none did.
pub stats-Summarises :
    {r : Ring}
    → IsValid r
    → sum (replies (samples r) []) < 2 ^ 63
    → Summarises (stats r) (samples r)
unfolding stats
stats-Summarises {r} v h = elim (dec_lt 0 r.n) [
  | yes p ↦
      let t = tally_all (start_tally r.n) (samples r) in
      let f : stats r ≡ finish t = ground arith in
      let (same_n, same_avg) = tally_all_keeps (start_tally r.n) (samples r) in
      subst (λ st. Summarises st (samples r)) (sym f)
        (finish-Summarises t (samples r) (same_n ∙ sym (length-samples v)) same_avg (
          subst (λ k. Tallied t k (replies (samples r) [])) (omega arith)
            (tally_all-Tallied (start_tally r.n) 0 (samples r) [] h (start-Tallied r.n))))
  | no p ↦
      let f : stats r ≡ finish (start_tally r.n) = ground arith in
      let g : samples r ≡ [] = nil_of_length (samples r) (omega (arith, length-samples v)) in
      rw (f, g) (finish-Summarises (start_tally r.n) [] (omega arith) refl (start-Tallied r.n))
]
