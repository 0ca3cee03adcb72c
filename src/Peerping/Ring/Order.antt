-- ===== src/Peerping/Ring/Order.antt =====
-- The ring of internal/peerping refines a bounded history: it holds the newest samples, in order.
use mathlib.Core.List.{reverse, reverse-append, head?}
use goat_client.Prelude.{
  ℕ, zero, suc, ◌≤◌, ◌<◌, ◌≡◌, refl, sym, ap, ◌∙◌, none, some, List, [], ◌∷◌, ◌++◌, length, take,
  arith, ◌==◌, length-set, length-replicate, take-all, take-cons-take, append_assoc, append-nil,
  get_or, if◌then◌else◌, newest, length-newest, length-forward, newest-add, forward-reverse-newest,
  back_index,
}
use goat_client.Peerping.Ring.{
  Ring, Sample, zero_sample, new_ring, add, samples, last, cap, len, default_history,
}

pub record IsValid (r : Ring) : Type 0 where
  pub head_in : r.head < cap r
  pub n_in : r.n ≤ cap r

abbrev granted : ℕ → ℕ
granted capacity = if capacity == 0 then default_history else capacity

cap-new_ring : (capacity : ℕ) → cap (new_ring capacity) ≡ granted capacity
unfolding new_ring
cap-new_ring capacity = length-replicate (granted capacity) zero_sample

granted_pos : (capacity : ℕ) → 0 < granted capacity
granted_pos capacity = ground arith

pub new_ring-IsValid : (capacity : ℕ) → IsValid (new_ring capacity)
unfolding new_ring
new_ring-IsValid capacity =
    let e : cap (new_ring capacity) ≡ granted capacity = cap-new_ring capacity in
    let p : 0 < cap (new_ring capacity) = omega (arith, granted_pos capacity) in
    record { head_in = p; n_in = omega arith }

cap-add : (r : Ring) (s : Sample) → cap (add r s) ≡ cap r
unfolding add
cap-add r s = length-set r.buf r.head s

pub add-IsValid : {r : Ring} (s : Sample) → IsValid r → IsValid (add r s)
unfolding add
add-IsValid {r} s v = record {
  head_in = rw (length-set r.buf r.head s) (grind arith);
  n_in = rw (length-set r.buf r.head s) (ground arith);
}

-- What the ring holds, newest first.
unfoldable pub recent : Ring → List Sample
recent r = newest r.buf (cap r) zero_sample r.head 0 r.n

length-recent : (r : Ring) → length (recent r) ≡ r.n
unfolding recent
length-recent r = length-newest r.buf (cap r) zero_sample r.head 0 r.n

recent-add : {r : Ring} (s : Sample) → IsValid r → recent (add r s) ≡ take (cap r) (s ∷ recent r)
unfolding recent add
recent-add {r} s v =
    rw (length-set r.buf r.head s)
      (newest-add r.buf (cap r) r.head r.n s zero_sample (omega arith) v.head_in v.n_in)

samples-recent : {r : Ring} → IsValid r → samples r ≡ reverse (recent r)
unfolding samples recent
samples-recent {r} v =
    forward-reverse-newest r.buf (cap r) zero_sample r.head r.n 0 r.n 0 v.n_in (omega arith)

unfoldable pub add_all : Ring → List Sample → Ring
add_all r [] = r
add_all r (s ∷ ss) = add_all (add r s) ss

-- The history is newest first.
add_all_lem :
    {r : Ring} (ss h : List Sample)
    → IsValid r
    → recent r ≡ take (cap r) h
    → IsValid (add_all r ss)
      × (cap (add_all r ss) ≡ cap r)
      × (recent (add_all r ss) ≡ take (cap r) (reverse ss ++ h))
unfolding add_all
add_all_lem [] h v e = (v, refl, e)
add_all_lem {r} (s ∷ ss) h v e =
    let same : recent (add r s) ≡ take (cap (add r s)) (s ∷ h) =
      recent-add s v ∙ rw (e, cap-add r s) (take-cons-take (cap r) s h) in
    let (valid, kept, held) = add_all_lem {r = add r s} ss (s ∷ h) (add-IsValid s v) same in
    (
      valid,
      kept ∙ cap-add r s,
      held
          ∙ rw (cap-add r s, reverse-append (s ∷ []) ss, append_assoc (reverse ss) (s ∷ []) h) refl,
    )

last-recent : (r : Ring) → last r ≡ head? (recent r)
unfolding last recent newest
last-recent r =
    elim (r.n)
      as (λ k.
        (if k == 0 then none else some (get_or r.buf (back_index (cap r) r.head 0) zero_sample))
        ≡ head? (newest r.buf (cap r) zero_sample r.head 0 k)) [
          | zero ↦ refl
          | suc k ↦ ground arith
        ]

head?-take : (n : ℕ) (l : List Sample) → 0 < n → head? (take n l) ≡ head? l
head?-take zero l h = absurd (omega arith)
head?-take (suc n) [] h = refl
head?-take (suc n) (x ∷ l) h = refl

-- After any run of samples through a new ring, `Samples` gives the last ones in the order in which
-- they came, as many as the capacity asked for, or 120 where that was not positive; `Len` is their
-- number, and `Last` is the last sample of the run, if there was one.
pub samples-add_all :
    (capacity : ℕ) (ss : List Sample)
    → let r = add_all (new_ring capacity) ss in
      let kept = take (if capacity == 0 then default_history else capacity) (reverse ss) in
      (samples r ≡ reverse kept) × (len r ≡ length kept) × (last r ≡ head? (reverse ss))
samples-add_all capacity ss =
    let none_yet : recent (new_ring capacity) ≡ take (cap (new_ring capacity)) [] =
      unfold recent new_ring newest in sym (take-all [] _ (omega arith)) in
    let (v, kept, held) = add_all_lem ss [] (new_ring-IsValid capacity) none_yet in
    let holds : recent (add_all (new_ring capacity) ss) ≡ take (granted capacity) (reverse ss) =
      held ∙ rw (append-nil, cap-new_ring capacity) in
    (
      samples-recent v ∙ ap reverse holds,
      sym (length-recent (add_all (new_ring capacity) ss)) ∙ ap length holds,
      last-recent (add_all (new_ring capacity) ss)
          ∙ ap head? holds
          ∙ head?-take (granted capacity) (reverse ss) (granted_pos capacity),
    )

pub length-samples : {r : Ring} → IsValid r → length (samples r) ≡ r.n
unfolding samples
length-samples {r} v = length-forward r.buf (cap r) zero_sample _ 0 r.n
