-- ===== src/Prelude/Cyclic.antt =====
-- A circular buffer read from its newest entry back, and from its oldest on. `head` is the index
-- of the next write.
use Prim.Native.Nat.{ℕ, zero, suc, ◌+◌, ◌-◌, ◌%◌, ◌≤◌, ◌<◌}
use mathlib.Core.Path.{◌≡◌, refl, sym, ap, ap₂, ◌∙◌}
use mathlib.Core.Logic.{◌≢◌}
use mathlib.Core.List.{List, [], ◌∷◌, ◌++◌, reverse, reverse-append}
use native.Mathlib.Nat.{mod-add-mod, mod-eq_of_lt, mod-eq-sub-mod}
use native.Mathlib.Decide.{dec_lt}
use native.Mathlib.Omega.{arith}
use goat_client.Prelude.Lists.{
  length, get_or, set, take, get_or-set_self, get_or-set_ne, take-all, take-cons,
}
use goat_client.Prelude.Tests.{ltb, lt→ltb, if◌then◌else◌}
use mathlib.Core.Bool.{false}

-- Where the entry stands that is `i` writes old.
abbrev pub back_index : ℕ → ℕ → ℕ → ℕ
back_index cap head i = (head + cap - 1 - i) % cap

module _ {ℓ} {A : Type ℓ} (buf : List A) (cap : ℕ) (d : A) where
  -- `k` entries from the one that is `i` writes old, newest first.
  unfoldable pub newest : ℕ → ℕ → ℕ → List A
  newest head i zero = []
  newest head i (suc k) = get_or buf (back_index cap head i) d ∷ newest head (i + 1) k

  -- The `k` entries at `start + i`, `start + i + 1`, ..., going round.
  unfoldable pub forward : ℕ → ℕ → ℕ → List A
  forward start i zero = []
  forward start i (suc k) = get_or buf ((start + i) % cap) d ∷ forward start (i + 1) k

  pub length-newest : (head i k : ℕ) → length (newest head i k) ≡ k
  unfolding newest
  length-newest head i zero = refl
  length-newest head i (suc k) = ap suc (length-newest head (i + 1) k)

  pub length-forward : (start i k : ℕ) → length (forward start i k) ≡ k
  unfolding forward
  length-forward start i zero = refl
  length-forward start i (suc k) = ap suc (length-forward start (i + 1) k)

  pub take-newest : (head i j k : ℕ) → j ≤ k → take j (newest head i k) ≡ newest head i j
  unfolding newest
  take-newest head i zero k h = refl
  take-newest head i (suc j) zero h = absurd (omega arith)
  take-newest head i (suc j) (suc k) h =
      ap (◌∷◌ (get_or buf (back_index cap head i) d)) (take-newest head (i + 1) j k (omega arith))

  newest_snoc :
      (head i k : ℕ)
      → newest head i (suc k) ≡ newest head i k ++ (get_or buf (back_index cap head (i + k)) d ∷ [])
  unfolding newest
  newest_snoc head i zero = ap (λ m. get_or buf (back_index cap head m) d ∷ []) (omega arith)
  newest_snoc head i (suc k) = ap (◌∷◌ (get_or buf (back_index cap head i) d)) (
      newest_snoc head (i + 1) k
      ∙ ap (λ m. newest head (i + 1) k ++ (get_or buf (back_index cap head m) d ∷ []))
          (omega arith))

  same_index :
      (head n j k i : ℕ)
      → n ≤ cap
      → j + suc k + i ≡ n
      → ((head + cap - n) % cap + j) % cap ≡ back_index cap head (i + k)
  same_index head n j k i small e =
      mod-add-mod (head + cap - n) cap j ∙ ap (λ m. m % cap) (omega arith)

  -- Read forward from the oldest of `n` entries, the buffer is its newest-first reading reversed.
  pub forward-reverse-newest :
      (head n j k i : ℕ)
      → n ≤ cap
      → j + k + i ≡ n
      → forward ((head + cap - n) % cap) j k ≡ reverse (newest head i k)
  unfolding forward
  forward-reverse-newest head n j zero i small e = unfold newest in refl
  forward-reverse-newest head n j (suc k) i small e =
      rw (newest_snoc head i k, reverse-append (newest head i k))
        (ap₂ (λ m l. get_or buf m d ∷ l) (same_index head n j k i small e)
          (forward-reverse-newest head n (j + 1) k i small (omega arith)))

wrap_once : (cap n : ℕ) → cap ≤ n → n < cap + cap → n % cap ≡ n - cap
wrap_once cap n h k =
    mod-eq-sub-mod {n = n} {m = cap} h ∙ mod-eq_of_lt {n = n - cap} {m = cap} (omega arith)

back_index_step :
    (cap head i : ℕ)
    → head < cap
    → i + 1 < cap
    → back_index cap ((head + 1) % cap) (i + 1) ≡ back_index cap head i
back_index_step cap head i h hi = elim (dec_lt (head + 1) cap) [
  | yes p ↦ rw (mod-eq_of_lt {n = head + 1} {m = cap} p) (ap (λ m. m % cap) (omega arith))
  | no p ↦ omega (
    arith,
    wrap_once cap (head + 1) (omega arith) (omega arith),
    ap (λ m. (m + cap - 1 - (i + 1)) % cap) (wrap_once cap (head + 1) (omega arith) (omega arith)),
    mod-eq_of_lt {n = head + 1 - cap + cap - 1 - (i + 1)} {m = cap} (omega arith),
    wrap_once cap (head + cap - 1 - i) (omega arith) (omega arith),
  )
]

back_index_ne : (cap head i : ℕ) → head < cap → suc i < cap → head ≢ back_index cap head i
back_index_ne cap head i h hi = elim (dec_lt i head) [
  | yes p ↦ omega (arith, wrap_once cap (head + cap - 1 - i) (omega arith) (omega arith))
  | no p ↦ omega (arith, mod-eq_of_lt {n = head + cap - 1 - i} {m = cap} (omega arith))
]

back_index_written : (cap head : ℕ) → head < cap → back_index cap ((head + 1) % cap) 0 ≡ head
back_index_written cap head h = elim (dec_lt (head + 1) cap) [
  | yes p ↦
      rw (mod-eq_of_lt {n = head + 1} {m = cap} p)
        (omega (arith, wrap_once cap (head + 1 + cap - 1 - 0) (omega arith) (omega arith)))
  | no p ↦
      rw (wrap_once cap (head + 1) (omega arith) (omega arith))
        (omega (arith, mod-eq_of_lt {n = head + 1 - cap + cap - 1 - 0} {m = cap} (omega arith)))
]

module _ {ℓ} {A : Type ℓ} (buf : List A) (cap head : ℕ) (x d : A) where
  newest-set_old :
      (i k : ℕ)
      → head < cap
      → i + k < cap
      → newest (set buf head x) cap d ((head + 1) % cap) (i + 1) k ≡ newest buf cap d head i k
  unfolding newest
  newest-set_old i zero h hk = refl
  newest-set_old i (suc k) h hk =
      ap₂ ◌∷◌
        (ap (λ m. get_or (set buf head x) m d) (back_index_step cap head i h (omega arith))
          ∙ get_or-set_ne buf head (back_index cap head i) x d
              (back_index_ne cap head i h (omega arith)))
        (newest-set_old (i + 1) k h (omega arith))

  -- A write at `head` puts the value before what was there, and pushes out the entry that is
  -- `cap` writes old.
  pub newest-write :
      (k : ℕ)
      → cap ≤ length buf
      → head < cap
      → k < cap
      → newest (set buf head x) cap d ((head + 1) % cap) 0 (suc k) ≡ x ∷ newest buf cap d head 0 k
  unfolding newest
  newest-write k room h hk =
      ap₂ ◌∷◌
        (ap (λ m. get_or (set buf head x) m d) (back_index_written cap head h)
          ∙ get_or-set_self buf head x d (omega arith))
        (newest-set_old 0 k h (omega arith))

-- A write into a buffer that holds `n` entries: the value comes first, and of the others stay as many as
-- there is room for.
pub newest-add {ℓ} :
    {A : Type ℓ} (buf : List A) (cap head n : ℕ) (x d : A)
    → cap ≤ length buf
    → head < cap
    → n ≤ cap
    → newest (set buf head x) cap d ((head + 1) % cap) 0 (if ltb n cap then n + 1 else n)
      ≡ take cap (x ∷ newest buf cap d head 0 n)
newest-add buf cap head n x d room h small = elim (dec_lt n cap) [
  | yes p ↦ rw (lt→ltb n cap p) (
      ap (newest (set buf head x) cap d ((head + 1) % cap) 0) (omega arith)
      ∙ newest-write buf cap head x d n room h p
      ∙ sym (
          take-all (x ∷ newest buf cap d head 0 n) cap
            (omega (arith, length-newest buf cap d head 0 n))))
  | no p ↦
      let full : ltb n cap ≡ false = ground arith in
      rw full (
        ap (newest (set buf head x) cap d ((head + 1) % cap) 0) (omega arith)
        ∙ newest-write buf cap head x d (cap - 1) room h (omega arith)
        ∙ ap (◌∷◌ x) (sym (take-newest buf cap d head 0 (cap - 1) n (omega arith)))
        ∙ sym (take-cons cap x (newest buf cap d head 0 n) (omega arith)))
]
