-- ===== src/Mode/Persist/Entries.antt =====
-- internal/mode/persist.go: the entries of a list and the values between quotes, trimmed and split.
use goat_client.Prelude.{
  ℕ, Bool, true, false, not, some, List, [], ◌∷◌, ◌++◌, Str, ◌==◌, ◌&&◌, All, ◌≡◌, refl, ap, ap₂,
  ◌∙◌, arith,
}
use goat_client.Text.{trim, trim_left, trim_right, trim_space, is_space}
use goat_client.Text.Laws.{trim_right_none}
use goat_client.Text.Split.{cut, join, Without, split-join, trim_right-last, trim_right-drop}
use goat_client.Mode.Persist.{is_quote, keep_named, trimmed, split_csv, is_printable}

-- A printable character that `%q` leaves as it is and the reader does not trim.
abbrev pub is_plain : ℕ → Bool
is_plain c = is_printable c && not (is_quote c) && not (c == b'\\')

-- One that may also stand in an entry of a list.
abbrev pub is_entry : ℕ → Bool
is_entry c = is_plain c && not (c == b',') && not (c == b' ')

abbrev pub Plain : Str → Type 0
Plain s = All (λ c. is_plain c ≡ true) s

-- An entry of a list: a text that is not empty, of printable ASCII characters other than spaces,
-- commas, quotes and backslashes.
abbrev pub IsEntry : Str → Type 0
IsEntry [] = ⊥
IsEntry (c ∷ s) = All (λ d. is_entry d ≡ true) (c ∷ s)

pub All-append : (P : ℕ → Type 0) (s t : Str) → All P s → All P t → All P (s ++ t)
All-append P [] t h k = k
All-append P (c ∷ s) t h k = (h.0, All-append P s t h.1 k)

pub All-imp : {P Q : ℕ → Type 0} (s : Str) → ((c : ℕ) → P c → Q c) → All P s → All Q s
All-imp [] f h = h
All-imp (c ∷ s) f h = (f c h.0, All-imp s f h.1)

pub entry-plain : (c : ℕ) → is_entry c ≡ true → is_plain c ≡ true
entry-plain c h = ground arith

pub entry-comma : (c : ℕ) → is_entry c ≡ true → (c == b',') ≡ false
entry-comma c h = ground arith

pub entry-space : (c : ℕ) → is_entry c ≡ true → is_space c ≡ false
unfolding is_space
entry-space c h = ground arith

pub plain-newline : (c : ℕ) → is_plain c ≡ true → (c == b'\n') ≡ false
plain-newline c h = ground arith

pub plain-quote : (c : ℕ) → is_plain c ≡ true → is_quote c ≡ false
plain-quote c h = ground arith

pub trim_left_none : (p : ℕ → Bool) (s : Str) → All (λ c. p c ≡ false) s → trim_left p s ≡ s
unfolding trim_left
trim_left_none p [] h = refl
trim_left_none p (c ∷ s) h = rw h.0

pub trim_space-entry : (v : Str) → IsEntry v → trim_space v ≡ v
unfolding trim_space
trim_space-entry [] h = absurd h
trim_space-entry (c ∷ s) h =
    let kept = All-imp (c ∷ s) entry-space h in
    ap (trim_right is_space) (trim_left_none is_space (c ∷ s) kept)
    ∙ trim_right_none is_space (c ∷ s) kept

pub keep_named-entry : (v : Str) (rest : List Str) → IsEntry v → keep_named v rest ≡ v ∷ rest
keep_named-entry [] rest h = absurd h
keep_named-entry (c ∷ s) rest h = refl

pub trimmed-entries : (vs : List Str) → All IsEntry vs → trimmed vs ≡ vs
trimmed-entries [] h = refl
trimmed-entries (v ∷ vs) h =
    ap₂ keep_named (trim_space-entry v h.0) (trimmed-entries vs h.1) ∙ keep_named-entry v vs h.0

pub entry-Without : (v : Str) → IsEntry v → Without b',' v
entry-Without [] h = absurd h
entry-Without (c ∷ s) h = All-imp (c ∷ s) entry-comma h

pub entries-Without : (vs : List Str) → All IsEntry vs → All (Without b',') vs
entries-Without [] h = h
entries-Without (v ∷ vs) h = (entry-Without v h.0, entries-Without vs h.1)

pub split_csv-join :
    (v : Str) (vs : List Str) → All IsEntry (v ∷ vs) → split_csv (join b',' (v ∷ vs)) ≡ v ∷ vs
unfolding split_csv
split_csv-join v vs h =
    ap trimmed (split-join b',' v vs refl (entries-Without (v ∷ vs) h)) ∙ trimmed-entries (v ∷ vs) h

pub entry-Plain : (v : Str) → IsEntry v → Plain v
entry-Plain [] h = absurd h
entry-Plain (c ∷ s) h = All-imp (c ∷ s) entry-plain h

pub join-Plain : (v : Str) (vs : List Str) → All IsEntry (v ∷ vs) → Plain (join b',' (v ∷ vs))
unfolding join
join-Plain v [] h = entry-Plain v h.0
join-Plain v (w ∷ vs) h =
    All-append _ v (b',' ∷ join b',' (w ∷ vs)) (entry-Plain v h.0) (refl, join-Plain w vs h.1)

pub opening : (c : ℕ) (t : Str) → is_quote c ≡ false → trim_left is_quote (b'"' ∷ c ∷ t) ≡ c ∷ t
unfolding trim_left
opening c t e = rw e

-- Between its quotes a plain value is as it was.
pub unquoted : (val : Str) → Plain val → trim is_quote (b'"' ∷ (val ++ b'"' ∷ [])) ≡ val
unfolding trim trim_left trim_right
unquoted [] h = refl
unquoted (c ∷ val) h =
    let kept = All-imp (c ∷ val) plain-quote h in
    ap (trim_right is_quote) (opening c (val ++ b'"' ∷ []) kept.0)
    ∙ trim_right-drop is_quote (c ∷ val) b'"' refl
    ∙ trim_right_none is_quote (c ∷ val) kept

pub trim_space-ends :
    (c : ℕ) (s : Str) (d : ℕ)
    → is_space c ≡ false
    → is_space d ≡ false
    → trim_space (c ∷ (s ++ d ∷ [])) ≡ c ∷ (s ++ d ∷ [])
unfolding trim_space
trim_space-ends c s d e f =
    ap (trim_right is_space) (starts c (s ++ d ∷ []) e) ∙ trim_right-last is_space (c ∷ s) d f
  where
    starts : (c : ℕ) (t : Str) → is_space c ≡ false → trim_left is_space (c ∷ t) ≡ c ∷ t
    starts c t e = rw e

pub cut-append :
    (sep : ℕ) (k v : Str)
    → (sep == sep) ≡ true
    → Without sep k
    → cut sep (k ++ sep ∷ v) ≡ some (k, v)
unfolding cut
cut-append sep [] v e h = rw e
cut-append sep (c ∷ k) v e h = rw (h.0, cut-append sep k v e h.1)
