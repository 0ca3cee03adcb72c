-- ===== src/Names/Claims/Verdicts.antt =====
-- internal/names/claims.go: the rules by which the checks of a claim are run.
use goat_client.Prelude.{Bool, true, false, not, Option, none, some, ◌||◌, ◌≡◌, refl, subst, arith}
use goat_client.Names.Claims.{ClaimError, Verdict, ok, refused, ◌>>=◌, ◌>>◌, require, needs}

-- What holds of a verdict's value, if there is one.
pub record Ensures {A : Type 0} (P : A → Type 0) (v : Verdict A) : Type 0 where
  pub run : (a : A) → v ≡ ok a → P a

module _ {A B : Type 0} {Q : B → Type 0} where
  pub bind :
      (m : Verdict A) (f : A → Verdict B) → Ensures (λ a. Ensures Q (f a)) m → Ensures Q (m >>= f)
  unfolding ◌>>=◌
  bind (ok a) f h = h.run a refl
  bind (refused e) f h = record { run = λ b k. absurd (cc) }

module _ {B : Type 0} {Q : B → Type 0} where
  pub and_then :
      (m : Verdict (Unit {0})) (k : Verdict B) → Ensures (λ _. Ensures Q k) m → Ensures Q (m >> k)
  unfolding ◌>>◌
  and_then m k h = bind m (λ _. k) h

  pub gives : (b : B) → Q b → Ensures Q (ok b)
  gives b q = record { run = λ a e. let same_value : b ≡ a = cc in subst Q same_value q }

pub follows :
    {A : Type 0} {P Q : A → Type 0} {v : Verdict A}
    → Ensures P v
    → ((a : A) → P a → Q a)
    → Ensures Q v
follows h k = record { run = λ a e. k a (h.run a e) }

pub neither : (a b : Bool) → not (a || b) ≡ true → (a ≡ false) × (b ≡ false)
neither a b h = ground arith

pub requires :
    {P : Unit {0} → Type 0} (b : Bool) (e : ClaimError)
    → (b ≡ true → P tt)
    → Ensures P (require b e)
requires true e h = record { run = λ t k. h refl }
requires false e h = record { run = λ t k. absurd (cc) }

pub needed :
    {A : Type 0} {P : A → Type 0} (o : Option A) (e : ClaimError)
    → ((a : A) → o ≡ some a → P a)
    → Ensures P (needs o e)
needed {P = P} (some a) e h = gives a (h a refl)
needed none e h = record { run = λ a k. absurd (cc) }
