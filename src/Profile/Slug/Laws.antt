-- ===== src/Profile/Slug/Laws.antt =====
-- A slug is stable under `Slugify`, and safe as the stem of a file name.
use goat_client.Prelude.{
  ℕ, ◌≤◌, ◌≡◌, ◌⊎◌, inl, inr, refl, ap, ap₂, Bool, true, false, [], ◌∷◌, Str, All, arith,
  Bool-cases, sym, ◌≢◌, subst, same, codes,
}
use goat_client.Text.{trim_left, trim_right, trim_space, is_space, to_lower, keep_unless}
use goat_client.Text.Laws.{trim_right_idem, trim_right_none}
use goat_client.Profile.Slug.{
  is_plain, is_dash, collapse, slugify, dash_unless, validate_name, slug, is_reserved,
}

-- Plain characters and single dashes; the flag says that a dash may not come next.
abbrev pub Tidy : Bool → Str → Type 0
Tidy no_dash [] = Unit
Tidy no_dash (c ∷ s) =
    ((is_plain c ≡ true) × Tidy false s) ⊎ ((c ≡ b'-') × (no_dash ≡ false) × Tidy true s)

plain_not_dash : (c : ℕ) → is_plain c ≡ true → is_dash c ≡ false
plain_not_dash c h = ground arith

dash_not_plain : (c : ℕ) → c ≡ b'-' → is_plain c ≡ false
dash_not_plain c e = rw e

dash_is_dash : (c : ℕ) → c ≡ b'-' → is_dash c ≡ true
dash_is_dash c e = rw e

collapse-Tidy : (run : Bool) (s : Str) → Tidy run (collapse run s)
unfolding collapse
collapse-Tidy run [] = tt
collapse-Tidy run (c ∷ s) = elim (Bool-cases (is_plain c)) [
  | inl y ↦ rw (y, collapse) (inl (y, collapse-Tidy false s))
  | inr n ↦ rw (n, collapse) (dashed run (collapse-Tidy true s))
]
  where
    dashed : (b : Bool) → Tidy true (collapse true s) → Tidy b (dash_unless b (collapse true s))
    dashed true h = h
    dashed false h = inr (refl, refl, h)

Tidy-collapse : (b : Bool) (s : Str) → Tidy b s → collapse b s ≡ s
unfolding collapse
Tidy-collapse b [] h = refl
Tidy-collapse b (c ∷ s) (inl (y, h)) = rw (y, collapse) (ap (◌∷◌ c) (Tidy-collapse false s h))
Tidy-collapse b (c ∷ s) (inr (e, f, h)) =
    rw (dash_not_plain c e, collapse, f, e) (ap (◌∷◌ b'-') (Tidy-collapse true s h))

Tidy-weaken : (s : Str) → Tidy true s → Tidy false s
Tidy-weaken [] h = tt
Tidy-weaken (c ∷ s) (inl h) = inl h
Tidy-weaken (c ∷ s) (inr (e, f, h)) = absurd (cc)

Tidy-trim_left : (s : Str) → Tidy true s → trim_left is_dash s ≡ s
unfolding trim_left
Tidy-trim_left [] h = refl
Tidy-trim_left (c ∷ s) (inl (y, h)) = rw (plain_not_dash c y)
Tidy-trim_left (c ∷ s) (inr (e, f, h)) = absurd (cc)

trim_left-Tidy : (s : Str) → Tidy false s → Tidy true (trim_left is_dash s)
unfolding trim_left
trim_left-Tidy [] h = tt
trim_left-Tidy (c ∷ s) (inl (y, h)) = rw (plain_not_dash c y) (inl (y, h))
trim_left-Tidy (c ∷ s) (inr (e, f, h)) =
    rw (dash_is_dash c e) (subst (Tidy true) (sym (Tidy-trim_left s h)) h)

trim_right-Tidy : (b : Bool) (s : Str) → Tidy b s → Tidy b (trim_right is_dash s)
unfolding trim_right
trim_right-Tidy b [] h = tt
trim_right-Tidy b (c ∷ s) (inl (y, h)) =
    rw (plain_not_dash c y) (inl (y, trim_right-Tidy false s h))
trim_right-Tidy b (c ∷ s) (inr (e, f, h)) =
    rw (dash_is_dash c e) (dashed (trim_right is_dash s) (trim_right-Tidy true s h))
  where
    dashed : (t : Str) → Tidy true t → Tidy b (keep_unless true c t)
    dashed [] k = tt
    dashed (d ∷ t) k = inr (e, f, k)

-- A slug: plain characters in groups joined by single dashes.
pub record IsSlug (s : Str) : Type 0 where
  pub tidy : Tidy true s
  pub end : trim_right is_dash s ≡ s

slugify-IsSlug : (fold : ℕ → ℕ) (name : Str) → IsSlug (slugify fold name)
unfolding slugify
slugify-IsSlug fold name =
    let t = collapse false (to_lower fold (trim_space name)) in
    record {
      tidy =
          trim_right-Tidy true (trim_left is_dash t)
            (trim_left-Tidy t (collapse-Tidy false (to_lower fold (trim_space name))));
      end = trim_right_idem is_dash (trim_left is_dash t);
    }

-- What the characters of a slug are not.
Tidy-no_space : (b : Bool) (s : Str) → Tidy b s → All (λ c. is_space c ≡ false) s
unfolding is_space
Tidy-no_space b [] h = tt
Tidy-no_space b (c ∷ s) (inl (y, h)) = (ground arith, Tidy-no_space false s h)
Tidy-no_space b (c ∷ s) (inr (e, f, h)) = (rw e, Tidy-no_space true s h)

Tidy-lower : (fold : ℕ → ℕ) (b : Bool) (s : Str) → Tidy b s → to_lower fold s ≡ s
unfolding to_lower
Tidy-lower fold b [] h = refl
Tidy-lower fold b (c ∷ s) (inl (y, h)) = ap₂ ◌∷◌ (ground arith) (Tidy-lower fold false s h)
Tidy-lower fold b (c ∷ s) (inr (e, f, h)) = ap₂ ◌∷◌ (rw e) (Tidy-lower fold true s h)

trim_left_none : (p : ℕ → Bool) (s : Str) → All (λ c. p c ≡ false) s → trim_left p s ≡ s
unfolding trim_left
trim_left_none p [] h = refl
trim_left_none p (c ∷ s) h = rw h.0

IsSlug-slugify : (fold : ℕ → ℕ) (s : Str) → IsSlug s → slugify fold s ≡ s
unfolding slugify trim_space
IsSlug-slugify fold s h =
    let free = Tidy-no_space true s h.tidy in
    rw
      (
        trim_left_none is_space s free,
        trim_right_none is_space s free,
        Tidy-lower fold true s h.tidy,
        Tidy-collapse false s (Tidy-weaken s h.tidy),
        Tidy-trim_left s h.tidy,
      )
      h.end

slugify-slugify : (fold : ℕ → ℕ) (name : Str) → slugify fold (slugify fold name) ≡ slugify fold name
slugify-slugify fold name = IsSlug-slugify fold (slugify fold name) (slugify-IsSlug fold name)

-- A lower-case letter, a digit or a dash.
abbrev pub IsStemChar : ℕ → Type 0
IsStemChar c = ((b'a' ≤ c) × (c ≤ b'z')) ⊎ (((b'0' ≤ c) × (c ≤ b'9')) ⊎ (c ≡ b'-'))

slugify-stem : (fold : ℕ → ℕ) (name : Str) → All IsStemChar (slugify fold name)
slugify-stem fold name = stem true (slugify fold name) (slugify-IsSlug fold name).tidy
  where
    plain : (c : ℕ) → is_plain c ≡ true → IsStemChar c
    plain c y = ground arith

    stem : (b : Bool) (s : Str) → Tidy b s → All IsStemChar s
    stem b [] h = tt
    stem b (c ∷ s) (inl (y, h)) = (plain c y, stem false s h)
    stem b (c ∷ s) (inr (e, f, h)) = (inr (inr e), stem true s h)

-- An accepted name gives a slug that is the file stem for good: it is not empty and not the
-- marker's name, is made of lower-case letters, digits and dashes, and, taken as a name, is accepted
-- as itself, whatever the language's lower case does beyond ASCII.
pub validate_name-stem :
    (fold : ℕ → ℕ) (name s : Str)
    → validate_name fold name ≡ slug s
    → (s ≢ []) × (s ≢ codes "active") × All IsStemChar s × (validate_name fold s ≡ slug s)
unfolding validate_name
validate_name-stem fold name s h =
    let found : (slugify fold name ≡ s) × (same s [] ≡ false) × (is_reserved s ≡ false) =
      ground arith in
    let stable : slugify fold s ≡ s = rw (← found.0) (slugify-slugify fold name) in
    (
      λ e. not_empty (subst (λ t. same t [] ≡ false) e found.1),
      λ e. not_active (subst (λ t. is_reserved t ≡ false) e found.2),
      subst (All IsStemChar) found.0 (slugify-stem fold name),
      unfold validate_name in accepted stable found.1 found.2,
    )
  where
    not_empty : same [] [] ≡ false → ⊥
    not_empty e = unfold same in cc e

    not_active : is_reserved (codes "active") ≡ false → ⊥
    not_active e = unfold same in cc e

    accepted :
        slugify fold s ≡ s
        → same s [] ≡ false
        → is_reserved s ≡ false
        → validate_name fold s ≡ slug s
    accepted e f g = ground arith
