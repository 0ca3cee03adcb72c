-- ===== src/Text/Split.antt =====
-- Go's `strings.Split`, `Cut` and `Join` at a separator of one character, and their laws.
use goat_client.Prelude.{
  ℕ, Bool, true, false, Option, none, some, List, [], ◌∷◌, ◌++◌, Str, ◌==◌, All, if◌then◌else◌, ◌≡◌,
  refl, ap, ◌∙◌,
}
use goat_client.Text.{trim_right, keep_unless}

abbrev pub onto_first : ℕ → List Str → List Str
onto_first c [] = (c ∷ []) ∷ []
onto_first c (p ∷ ps) = (c ∷ p) ∷ ps

unfoldable pub split : ℕ → Str → List Str
split sep [] = [] ∷ []
split sep (c ∷ s) = if c == sep then [] ∷ split sep s else onto_first c (split sep s)

abbrev pub before : ℕ → Option (Str × Str) → Option (Str × Str)
before c none = none
before c (some (k, v)) = some (c ∷ k, v)

unfoldable pub cut : ℕ → Str → Option (Str × Str)
cut sep [] = none
cut sep (c ∷ s) = if c == sep then some ([], s) else before c (cut sep s)

unfoldable pub join : ℕ → List Str → Str
join sep [] = []
join sep (p ∷ []) = p
join sep (p ∷ q ∷ ps) = p ++ sep ∷ join sep (q ∷ ps)

-- No character of the text is the separator.
abbrev pub Without : ℕ → Str → Type 0
Without sep s = All (λ c. (c == sep) ≡ false) s

pub split-append :
    (sep : ℕ) (s rest : Str)
    → (sep == sep) ≡ true
    → Without sep s
    → split sep (s ++ sep ∷ rest) ≡ s ∷ split sep rest
unfolding split
split-append sep [] rest e h = rw e
split-append sep (c ∷ s) rest e h = rw (h.0, split-append sep s rest e h.1)

pub split-none : (sep : ℕ) (s : Str) → Without sep s → split sep s ≡ s ∷ []
unfolding split
split-none sep [] h = refl
split-none sep (c ∷ s) h = rw (h.0, split-none sep s h.1)

pub split-join :
    (sep : ℕ) (p : Str) (ps : List Str)
    → (sep == sep) ≡ true
    → All (Without sep) (p ∷ ps)
    → split sep (join sep (p ∷ ps)) ≡ p ∷ ps
unfolding join
split-join sep p [] e h = split-none sep p h.0
split-join sep p (q ∷ ps) e h =
    split-append sep p (join sep (q ∷ ps)) e h.0 ∙ ap (◌∷◌ p) (split-join sep q ps e h.1)

-- Trimming stops at a last character that stays, and takes one that goes.
pub trim_right-last :
    (p : ℕ → Bool) (s : Str) (c : ℕ) → p c ≡ false → trim_right p (s ++ c ∷ []) ≡ s ++ c ∷ []
unfolding trim_right
trim_right-last p [] c e = rw e
trim_right-last p (d ∷ s) c e = rw (trim_right-last p s c e) (kept (p d) s)
  where
    kept : (b : Bool) (t : Str) → keep_unless b d (t ++ c ∷ []) ≡ d ∷ (t ++ c ∷ [])
    kept true [] = refl
    kept true (x ∷ t) = refl
    kept false t = refl

pub trim_right-drop :
    (p : ℕ → Bool) (s : Str) (c : ℕ) → p c ≡ true → trim_right p (s ++ c ∷ []) ≡ trim_right p s
unfolding trim_right
trim_right-drop p [] c e = rw e
trim_right-drop p (d ∷ s) c e = rw (trim_right-drop p s c e)
