-- ===== src/Filedrop/Names.antt =====
-- internal/filedrop/server.go, `safeName`, `candidate` and `placeUniquely`: the names of stored files.
use goat_client.Prelude.{
  ℕ, zero, suc, ◌+◌, ◌/◌, ◌%◌, Bool, true, false, none, some, [], ◌∷◌, ◌++◌, Str, codes, same,
  is_some, ◌==◌, ◌&&◌, ◌||◌, ltb, if◌then◌else◌, ◌≡◌, ◌≢◌, refl, sym, subst, ap, ◌∙◌, All, arith,
  same_iff, append_assoc,
}
use goat_client.Prelude.Assoc.{lookup}
use goat_client.Text.{trim_space, digits}
use goat_client.Filedrop.{
  Inbox, contains_any, has_prefix, safe_name, split_ext, candidate, free_from, place_uniquely,
}

-- Neither a slash nor a backslash.
abbrev pub IsNameChar : ℕ → Type 0
IsNameChar c = (c ≢ b'/') × (c ≢ 92)

-- A name of one file in the inbox that is no temporary file of the receiver.
pub record IsSafe (name : Str) : Type 0 where
  pub not_empty : name ≢ []
  pub not_dot : name ≢ codes "."
  pub not_dots : name ≢ codes ".."
  pub one_component : All IsNameChar name
  pub not_temporary : (rest : Str) → name ≢ codes ".goatdrop-" ++ rest

All-append : (s t : Str) → All IsNameChar s → All IsNameChar t → All IsNameChar (s ++ t)
All-append [] t h k = k
All-append (c ∷ s) t (p, h) k = (p, All-append s t h k)

All-append_left : (s t : Str) → All IsNameChar (s ++ t) → All IsNameChar s
All-append_left [] t h = tt
All-append_left (c ∷ s) t (p, h) = (p, All-append_left s t h)

All-append_right : (s t : Str) → All IsNameChar (s ++ t) → All IsNameChar t
All-append_right [] t h = h
All-append_right (c ∷ s) t (p, h) = All-append_right s t h

contains_any-All : (s : Str) → contains_any s (codes "/\\") ≡ false → All IsNameChar s
unfolding contains_any
contains_any-All [] h = tt
contains_any-All (c ∷ s) h =
    let both : ((c == b'/') ≡ false)
        × ((c == 92) ≡ false)
        × (contains_any s (codes "/\\") ≡ false) =
      ground arith in
    ((ground (arith, both.0), ground (arith, both.1)), contains_any-All s both.2)

has_prefix-append : (p t : Str) → has_prefix (p ++ t) p ≡ true
unfolding has_prefix
has_prefix-append [] t = refl
has_prefix-append (c ∷ p) t = ground (arith, has_prefix-append p t)

pub safe_name-IsSafe : (raw name : Str) → safe_name raw ≡ some name → IsSafe name
unfolding safe_name
safe_name-IsSafe raw name h =
    checked (trim_space raw) (same (trim_space raw) []) (same (trim_space raw) (codes "."))
      (same (trim_space raw) (codes "..")) (contains_any (trim_space raw) (codes "/\\"))
      (has_prefix (trim_space raw) (codes ".goatdrop-")) refl refl refl refl refl h
  where
    differs : (s t : Str) → same s t ≡ false → s ≢ t
    differs s t e p = let yes : same s t ≡ true = (same_iff s t).1 p in absurd (cc)

    checked :
        (s : Str) (a b c d e : Bool)
        → same s [] ≡ a
        → same s (codes ".") ≡ b
        → same s (codes "..") ≡ c
        → contains_any s (codes "/\\") ≡ d
        → has_prefix s (codes ".goatdrop-") ≡ e
        → (if a || (b || c) then none else if d then none else if e then none else some s)
          ≡ some name
        → IsSafe name
    checked s true b c d e ha hb hc hd he k = absurd (cc)
    checked s false true c d e ha hb hc hd he k = absurd (cc)
    checked s false false true d e ha hb hc hd he k = absurd (cc)
    checked s false false false true e ha hb hc hd he k = absurd (cc)
    checked s false false false false true ha hb hc hd he k = absurd (cc)
    checked s false false false false false ha hb hc hd he k =
        let kept : s ≡ name = cc in
        subst IsSafe kept (record {
          not_empty = differs s [] ha;
          not_dot = differs s (codes ".") hb;
          not_dots = differs s (codes "..") hc;
          one_component = contains_any-All s hd;
          not_temporary = λ rest p.
              let yes : has_prefix s (codes ".goatdrop-") ≡ true =
                ap (λ x. has_prefix x (codes ".goatdrop-")) p
                ∙ has_prefix-append (codes ".goatdrop-") rest in
              absurd (cc);
        })

abbrev joined : Str × Str → Str
joined (s, t) = s ++ t

split_ext-append : (s : Str) → joined (split_ext s) ≡ s
unfolding split_ext
split_ext-append [] = refl
split_ext-append (c ∷ s) = go (split_ext s) (c == b'.') (split_ext-append s)
  where
    pick :
        (b : Bool) (stem ext : Str)
        → stem ++ ext ≡ s
        → joined (if b then ([], c ∷ s) else (c ∷ stem, ext)) ≡ c ∷ s
    pick true stem ext h = refl
    pick false stem ext h = ap (◌∷◌ c) h

    go :
        (r : Str × Str) (b : Bool)
        → joined r ≡ s
        → joined (if b && same r.1 [] then ([], c ∷ s) else (c ∷ r.0, r.1)) ≡ c ∷ s
    go (stem, ext) b h = pick (b && same ext []) stem ext h

digits-All : (k n : ℕ) → All IsNameChar (digits k n)
unfolding digits
digits-All zero n = tt
digits-All (suc k) n = go (ltb n 10) refl (digits-All k (n / 10))
  where
    go :
        (b : Bool)
        → ltb n 10 ≡ b
        → All IsNameChar (digits k (n / 10))
        → All IsNameChar (if b then (n + 48) ∷ [] else digits k (n / 10) ++ ((n % 10 + 48) ∷ []))
    go true e h = ((ground (arith, e), ground (arith, e)), tt)
    go false e h =
        All-append (digits k (n / 10)) ((n % 10 + 48) ∷ []) h ((omega arith, omega arith), tt)

abbrev NoSpace : Str → Type 0
NoSpace s = All (λ c. c ≢ b' ') s

-- A text without spaces is no text with one, and where it starts one, it stands before the space.
spaced : (s r t : Str) → NoSpace t → s ++ (b' ' ∷ r) ≢ t
spaced [] r [] n e = cc
spaced [] r (d ∷ t) (n, ns) e = let first : b' ' ≡ d = cc in n (sym first)
spaced (c ∷ s) r [] n e = cc
spaced (c ∷ s) r (d ∷ t) (n, ns) e = let later : s ++ (b' ' ∷ r) ≡ t = cc in spaced s r t ns later

starts_before : (s r p t : Str) → NoSpace p → s ++ (b' ' ∷ r) ≡ p ++ t → (u : Str) × (s ≡ p ++ u)
starts_before s r [] t n e = (s, refl)
starts_before [] r (d ∷ p) t (n, ns) e = let first : b' ' ≡ d = cc in absurd (n (sym first))
starts_before (c ∷ s) r (d ∷ p) t (n, ns) e =
    let first : c ≡ d = cc in
    let later : s ++ (b' ' ∷ r) ≡ p ++ t = cc in
    let (u, h) = starts_before s r p t ns later in (u, ap (λ x. x ∷ s) first ∙ ap (◌∷◌ d) h)

temporary_NoSpace : NoSpace (codes ".goatdrop-")
temporary_NoSpace = ground arith

numbered-IsSafe :
    (stem ext r : Str)
    → IsSafe (stem ++ ext)
    → All IsNameChar r
    → IsSafe (stem ++ (b' ' ∷ (r ++ ext)))
numbered-IsSafe stem ext r h k = record {
  not_empty = spaced stem (r ++ ext) [] tt;
  not_dot = spaced stem (r ++ ext) (codes ".") (omega arith, tt);
  not_dots = spaced stem (r ++ ext) (codes "..") (omega arith, (omega arith, tt));
  one_component =
      All-append stem (b' ' ∷ (r ++ ext)) (All-append_left stem ext h.one_component) (
        (omega arith, omega arith),
        All-append r ext k (All-append_right stem ext h.one_component),
      );
  not_temporary = λ rest e.
      let (u, starts) =
        starts_before stem (r ++ ext) (codes ".goatdrop-") rest temporary_NoSpace e in
      h.not_temporary (u ++ ext)
        (ap (λ x. x ++ ext) starts ∙ append_assoc (codes ".goatdrop-") u ext);
}

assembled :
    (stem number ext : Str)
    → stem ++ codes " (" ++ number ++ codes ")" ++ ext
      ≡ stem ++ (b' ' ∷ ((b'(' ∷ (number ++ codes ")")) ++ ext))
assembled stem number ext =
    ap (λ x. x ++ codes ")" ++ ext) (append_assoc stem (codes " (") number)
    ∙ ap (λ x. x ++ ext) (append_assoc stem (codes " (" ++ number) (codes ")"))
    ∙ append_assoc stem (codes " (" ++ number ++ codes ")") ext

candidate-IsSafe : (name : Str) (i : ℕ) → IsSafe name → IsSafe (candidate name i)
unfolding candidate
candidate-IsSafe name i h = go (split_ext name) (split_ext-append name)
  where
    number : All IsNameChar (b'(' ∷ (digits 5 i ++ codes ")"))
    number = (
      (omega arith, omega arith),
      All-append (digits 5 i) (codes ")") (digits-All 5 i) ((omega arith, omega arith), tt),
    )

    go :
        (r : Str × Str)
        → joined r ≡ name
        → IsSafe (r.0 ++ codes " (" ++ digits 5 i ++ codes ")" ++ r.1)
    go (stem, ext) e = subst IsSafe (sym (assembled stem (digits 5 i) ext)) (
        numbered-IsSafe stem ext (b'(' ∷ (digits 5 i ++ codes ")")) (subst IsSafe (sym e) h) number)

free_from-IsSafe :
    (inbox : Inbox) (name : Str) (i k : ℕ) (f : Str)
    → IsSafe name
    → free_from inbox name i k ≡ some f
    → IsSafe f
unfolding free_from
free_from-IsSafe inbox name i zero f s h = absurd (cc)
free_from-IsSafe inbox name i (suc k) f s h =
    go (is_some (lookup (candidate name i) inbox)) (free_from-IsSafe inbox name (i + 1) k f s) h
  where
    go :
        (b : Bool)
        → (free_from inbox name (i + 1) k ≡ some f → IsSafe f)
        → (if b then free_from inbox name (i + 1) k else some (candidate name i)) ≡ some f
        → IsSafe f
    go true later e = later e
    go false later e =
        let kept : candidate name i ≡ f = cc in subst IsSafe kept (candidate-IsSafe name i s)

-- Under whatever name a file is placed, the name is safe where the one asked for is.
pub place_uniquely-IsSafe :
    (inbox : Inbox) (name f : Str) → IsSafe name → place_uniquely inbox name ≡ some f → IsSafe f
unfolding place_uniquely
place_uniquely-IsSafe inbox name f s h = go (is_some (lookup name inbox)) h
  where
    go : (b : Bool) → (if b then free_from inbox name 1 9999 else some name) ≡ some f → IsSafe f
    go true e = free_from-IsSafe inbox name 1 9999 f s e
    go false e = let kept : name ≡ f = cc in subst IsSafe kept s
