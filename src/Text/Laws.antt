-- ===== src/Text/Laws.antt =====
-- Laws of trimming and of lower case.
use goat_client.Prelude.{ℕ, ◌≡◌, refl, ap₂, Bool, true, false, [], ◌∷◌, Str, All}
use goat_client.Text.{trim_right, keep_unless}

pub trim_right_idem : (p : ℕ → Bool) (s : Str) → trim_right p (trim_right p s) ≡ trim_right p s
unfolding trim_right
trim_right_idem p [] = refl
trim_right_idem p (c ∷ s) = keep (p c) refl (trim_right p s) (trim_right_idem p s)
  where
    keep :
        (b : Bool)
        → p c ≡ b
        → (t : Str) → trim_right p t ≡ t
        → trim_right p (keep_unless b c t) ≡ keep_unless b c t
    keep true q [] e = refl
    keep true q (d ∷ t) e = ap₂ (λ x y. keep_unless x c y) q e
    keep false q t e = ap₂ (λ x y. keep_unless x c y) q e

pub trim_right_none : (p : ℕ → Bool) (s : Str) → All (λ c. p c ≡ false) s → trim_right p s ≡ s
unfolding trim_right
trim_right_none p [] h = refl
trim_right_none p (c ∷ s) h = rw (h.0, trim_right_none p s h.1)
