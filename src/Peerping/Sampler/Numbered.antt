-- ===== src/Peerping/Sampler/Numbered.antt =====
-- internal/peerping/pinger.go, `Run`: what a sampler leaves in the history.
use mathlib.Core.List.{reverse}
use goat_client.Prelude.{
  ℕ, ◌+◌, ◌-◌, ◌^◌, ◌<◌, ◌≤◌, ◌==◌, Bool, true, false, Option, none, some, List, [], ◌∷◌, length,
  take, leb, if◌then◌else◌, ◌≡◌, refl, sym, subst, ap, ◌∙◌, arith,
}
use goat_client.Peerping.Ring.{Sample, Ring, new_ring, add, samples, default_history}
use goat_client.Peerping.Ring.Order.{add_all, samples-add_all}
use goat_client.Peerping.Wire.{
  Round, Read, datagram, timed_out, failed, Probed, sample, context_error, socket_error, waiting,
  lost_sample, echoes, decode_probe, settle, probe_rounds, probe,
}
use goat_client.Peerping.Sampler.{Firing, next_seq, sampled, add_sampled, run}

-- The probe, if it is a sample, has this number.
abbrev HasSeq : ℕ → Probed → Type 0
HasSeq s (sample x) = x.seq ≡ s
HasSeq s context_error = Unit
HasSeq s socket_error = Unit
HasSeq s waiting = Unit

settle-HasSeq :
    (s start : ℕ) (r : Round) (rest : Probed) → HasSeq s rest → HasSeq s (settle s start r rest)
settle-HasSeq s start r rest h = go r.read
  where
    failing : (b : Bool) → HasSeq s (if b then context_error else socket_error)
    failing true = tt
    failing false = tt

    echoing :
        (b : Bool)
        → HasSeq s (
            if b
            then sample (record { seq = s; at = r.at; rtt = r.at_rtt - start; lost = false })
            else rest)
    echoing true = refl
    echoing false = h

    go :
        (read : Read)
        → HasSeq s (elim read [
          | timed_out ↦ sample (lost_sample s r.at)
          | failed ↦ if r.cancelled_after then context_error else socket_error
          | datagram b ↦
              if echoes s (decode_probe b)
              then sample (record { seq = s; at = r.at; rtt = r.at_rtt - start; lost = false })
              else rest
        ])
    go timed_out = refl
    go failed = failing r.cancelled_after
    go (datagram b) = echoing (echoes s (decode_probe b))

probe_rounds-HasSeq :
    (s start deadline : ℕ) (rs : List Round) → HasSeq s (probe_rounds s start deadline rs)
unfolding probe_rounds
probe_rounds-HasSeq s start deadline [] = tt
probe_rounds-HasSeq s start deadline (r ∷ rs) =
    go r.cancelled (leb deadline r.now) (probe_rounds-HasSeq s start deadline rs)
  where
    go :
        (b c : Bool)
        → HasSeq s (probe_rounds s start deadline rs)
        → HasSeq s (
            if b
            then context_error
            else if c
            then sample (lost_sample s r.at)
            else settle s start r (probe_rounds s start deadline rs))
    go true c h = tt
    go false true h = refl
    go false false h = settle-HasSeq s start r _ h

probe-HasSeq :
    (s start timeout : ℕ) (sent : Bool) (rs : List Round) → HasSeq s (probe s start timeout sent rs)
unfolding probe
probe-HasSeq s start timeout false rs = tt
probe-HasSeq s start timeout true rs = probe_rounds-HasSeq s start (start + timeout) rs

-- Numbers above this one, each above the one before.
abbrev pub Ascends : ℕ → List Sample → Type 0
Ascends n [] = Unit
Ascends n (x ∷ xs) = (n < x.seq) × Ascends x.seq xs

below : (m n : ℕ) (xs : List Sample) → m ≤ n → Ascends n xs → Ascends m xs
below m n [] h a = tt
below m n (x ∷ xs) h (l, a) = (omega (arith, h, l), a)

abbrev pub push : Option Sample → List Sample → List Sample
push none xs = xs
push (some x) xs = x ∷ xs

module _ (timeout : ℕ) where
  -- The samples of a run in their order.
  unfoldable pub all_sampled : ℕ → List Firing → List Sample
  all_sampled n [] = []
  all_sampled n (f ∷ fs) =
      push (sampled (next_seq n) f (probe (next_seq n) f.start timeout f.sent f.rounds))
        (all_sampled (next_seq n) fs)

  run-add_all :
      (n : ℕ) (fs : List Firing) (r : Ring) → run timeout n fs r ≡ add_all r (all_sampled n fs)
  unfolding run all_sampled add_all
  run-add_all n [] r = refl
  run-add_all n (f ∷ fs) r =
      go (sampled (next_seq n) f (probe (next_seq n) f.start timeout f.sent f.rounds))
        (run-add_all (next_seq n) fs)
    where
      go :
          (o : Option Sample)
          → ((r' : Ring)
              → run timeout (next_seq n) fs r' ≡ add_all r' (all_sampled (next_seq n) fs))
          → run timeout (next_seq n) fs (add_sampled o r)
            ≡ add_all r (push o (all_sampled (next_seq n) fs))
      go none later = later r
      go (some x) later = later (add r x)

  ascends : (n : ℕ) (fs : List Firing) → n + length fs < 2 ^ 64 → Ascends n (all_sampled n fs)
  unfolding all_sampled
  ascends n [] h = tt
  ascends n (f ∷ fs) h =
      go (next_seq n) (omega (arith, h)) (probe-HasSeq (next_seq n) f.start timeout f.sent f.rounds)
        (ascends (next_seq n) fs (omega (arith, h)))
    where
      numbered :
          (s : ℕ) (x : Sample)
          → n < s
          → x.seq ≡ s
          → Ascends s (all_sampled (next_seq n) fs)
          → Ascends n (x ∷ all_sampled (next_seq n) fs)
      numbered s x l e a = (
        subst (λ m. n < m) (sym e) l,
        subst (λ m. Ascends m (all_sampled (next_seq n) fs)) (sym e) a,
      )

      errs :
          (s : ℕ) (b : Bool)
          → n < s
          → Ascends s (all_sampled (next_seq n) fs)
          → Ascends n (
              push
                (if b then none else some (lost_sample s f.failed_at))
                (all_sampled (next_seq n) fs))
      errs s true l a = below n s (all_sampled (next_seq n) fs) (omega (arith, l)) a
      errs s false l a = (l, a)

      probed :
          (s : ℕ) (p : Probed)
          → n < s
          → HasSeq s p
          → Ascends s (all_sampled (next_seq n) fs)
          → Ascends n (push (sampled s f p) (all_sampled (next_seq n) fs))
      probed s (sample x) l e a = numbered s x l e a
      probed s context_error l e a = below n s (all_sampled (next_seq n) fs) (omega (arith, l)) a
      probed s socket_error l e a = errs s f.cancelled l a
      probed s waiting l e a = below n s (all_sampled (next_seq n) fs) (omega (arith, l)) a

      go :
          (s : ℕ)
          → n < s
          → HasSeq s (probe s f.start timeout f.sent f.rounds)
          → Ascends s (all_sampled (next_seq n) fs)
          → Ascends n (
              push
                (sampled s f (probe s f.start timeout f.sent f.rounds))
                (all_sampled (next_seq n) fs))
      go s l e a = probed s (probe s f.start timeout f.sent f.rounds) l e a

  -- After fewer than 2^64 firings of a new sampler: the history is the last of the samples that were
  -- taken, in order, as many as the capacity asked for, or 120 where that was not positive, and the numbers
  -- of the samples that were taken are positive and ascend.
  pub run-samples :
      (capacity : ℕ) (fs : List Firing)
      → length fs < 2 ^ 64
      → (samples (run timeout 0 fs (new_ring capacity))
          ≡ reverse (
              take
                (if capacity == 0 then default_history else capacity)
                (reverse (all_sampled 0 fs))))
        × Ascends 0 (all_sampled 0 fs)
  run-samples capacity fs h = (
    ap samples (run-add_all 0 fs (new_ring capacity))
        ∙ (samples-add_all capacity (all_sampled 0 fs)).0,
    ascends 0 fs (omega (arith, h)),
  )
