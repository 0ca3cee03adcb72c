-- ===== src/Mode/Persist/Lines.antt =====
-- internal/mode/persist.go: one line of the file, as it is written and read.
use goat_client.Prelude.{
  ℕ, true, false, some, List, [], ◌∷◌, ◌++◌, Str, codes, same, ◌==◌, All, append_assoc, ◌≡◌, refl,
  sym, ap, ap₂, ◌∙◌, arith,
}
use goat_client.Text.{trim, trim_space, is_space}
use goat_client.Text.Split.{split, cut, join, Without, split-append}
use goat_client.Mode.Persist.{
  PersistedConfig, ok, is_quote, split_csv, has_prefix_hash, set_key, set_pair, parse_line,
  then_lines, parse_lines, quoted, quote_all, quote, value_line, list_line,
}
use goat_client.Mode.Persist.Entries.{
  is_plain, Plain, IsEntry, All-append, All-imp, plain-newline, split_csv-join, join-Plain,
  unquoted, trim_space-ends, cut-append,
}

module _ (fold : ℕ → ℕ) (escape : ℕ → Str) where
  pub quote_all-Plain : (s : Str) → Plain s → quote_all escape s ≡ s
  quote_all-Plain [] h = refl
  quote_all-Plain (c ∷ s) h = ap₂ ◌++◌ (alone c h.0) (quote_all-Plain s h.1)
    where
      alone : (c : ℕ) → is_plain c ≡ true → quoted escape c ≡ c ∷ []
      alone c e = ground arith

  pub quote-Plain : (s : Str) → Plain s → quote escape s ≡ b'"' ∷ (s ++ b'"' ∷ [])
  unfolding quote
  quote-Plain s h = ap (λ t. b'"' ∷ (t ++ b'"' ∷ [])) (quote_all-Plain s h)

  -- A key that the reader knows: letters and underscores, none of which it splits or trims at.
  pub record IsKey (key : Str) : Type 0 where
    pub first : ℕ
    pub rest : Str
    pub starts : key ≡ first ∷ rest
    pub no_space : is_space first ≡ false
    pub no_hash : (first == b'#') ≡ false
    pub no_newline : Without b'\n' key
    pub no_equals : Without b'=' (key ++ b' ' ∷ [])
    pub trims : trim_space (key ++ b' ' ∷ []) ≡ key

  pub line_of : Str → Str → Str
  line_of key val = key ++ (b' ' ∷ b'=' ∷ b' ' ∷ b'"' ∷ (val ++ b'"' ∷ []))

  pub value_line-split :
      (key val rest : Str)
      → IsKey key
      → Plain val
      → split b'\n' (value_line escape key val rest) ≡ line_of key val ∷ split b'\n' rest
  unfolding line_of
  value_line-split key val rest k h =
      ap (split b'\n') (
        ap (λ q. key ++ (codes " = " ++ (q ++ b'\n' ∷ rest))) (quote-Plain val h)
        ∙ sym (append_assoc key (b' ' ∷ b'=' ∷ b' ' ∷ b'"' ∷ (val ++ b'"' ∷ [])) (b'\n' ∷ rest)))
      ∙ split-append b'\n' (line_of key val) rest refl (
          All-append _ key _ k.no_newline (
            refl,
            (
              refl,
              (refl, (refl, All-append _ val (b'"' ∷ []) (All-imp val plain-newline h) (refl, tt))),
            ),
          ))

  pub line_of-cons :
      (key val : Str) (k : IsKey key)
      → line_of key val ≡ k.first ∷ ((k.rest ++ (b' ' ∷ b'=' ∷ b' ' ∷ b'"' ∷ val)) ++ b'"' ∷ [])
  unfolding line_of
  line_of-cons key val k =
      ap (λ x. x ++ (b' ' ∷ b'=' ∷ b' ' ∷ b'"' ∷ (val ++ b'"' ∷ []))) k.starts
      ∙ ap (◌∷◌ k.first) (sym (append_assoc k.rest (b' ' ∷ b'=' ∷ b' ' ∷ b'"' ∷ val) (b'"' ∷ [])))

  pub line_of-trimmed : (key val : Str) → IsKey key → trim_space (line_of key val) ≡ line_of key val
  line_of-trimmed key val k =
      ap trim_space (line_of-cons key val k)
      ∙ trim_space-ends k.first (k.rest ++ (b' ' ∷ b'=' ∷ b' ' ∷ b'"' ∷ val)) b'"' k.no_space
          (unfold is_space in refl)
      ∙ sym (line_of-cons key val k)

  pub cut-line_of :
      (key val : Str)
      → IsKey key
      → cut b'=' (line_of key val) ≡ some (key ++ b' ' ∷ [], b' ' ∷ b'"' ∷ (val ++ b'"' ∷ []))
  unfolding line_of
  cut-line_of key val k =
      ap (cut b'=') (sym (append_assoc key (b' ' ∷ []) (b'=' ∷ b' ' ∷ b'"' ∷ (val ++ b'"' ∷ []))))
      ∙ cut-append b'=' (key ++ b' ' ∷ []) _ refl k.no_equals

  pub value_trimmed :
      (val : Str) → Plain val → trim is_quote (trim_space (b' ' ∷ b'"' ∷ (val ++ b'"' ∷ []))) ≡ val
  value_trimmed val h =
      ap (trim is_quote) (
        leading (b'"' ∷ (val ++ b'"' ∷ []))
        ∙ trim_space-ends b'"' val b'"' (unfold is_space in refl) (unfold is_space in refl))
      ∙ unquoted val h
    where
      leading : (s : Str) → trim_space (b' ' ∷ s) ≡ trim_space s
      leading s = unfold trim_space in refl

  pub parse_line-cons :
      (c : ℕ) (t : Str) (cfg : PersistedConfig)
      → (c == b'#') ≡ false
      → parse_line fold (c ∷ t) cfg ≡ set_pair fold (cut b'=' (c ∷ t)) cfg
  unfolding parse_line has_prefix_hash same
  parse_line-cons c t cfg e = rw e

  pub line_of-parsed :
      (key val : Str) (cfg : PersistedConfig)
      → IsKey key
      → Plain val
      → parse_line fold (trim_space (line_of key val)) cfg ≡ set_key fold key val cfg
  line_of-parsed key val cfg k h =
      ap (λ l. parse_line fold l cfg) (line_of-trimmed key val k ∙ line_of-cons key val k)
      ∙ parse_line-cons k.first _ cfg k.no_hash
      ∙ ap (λ l. set_pair fold (cut b'=' l) cfg) (sym (line_of-cons key val k))
      ∙ ap (λ o. set_pair fold o cfg) (cut-line_of key val k)
      ∙ ap₂ (λ x y. set_key fold x y cfg) k.trims (value_trimmed val h)

  -- One line of a value is read by one step.
  pub value_line-parsed :
      (key val rest : Str) (cfg : PersistedConfig)
      → IsKey key
      → Plain val
      → parse_lines fold (split b'\n' (value_line escape key val rest)) cfg
        ≡ then_lines (set_key fold key val cfg) (parse_lines fold (split b'\n' rest))
  unfolding parse_lines
  value_line-parsed key val rest cfg k h =
      ap (λ ls. parse_lines fold ls cfg) (value_line-split key val rest k h)
      ∙ ap (λ r. then_lines r (parse_lines fold (split b'\n' rest)))
          (line_of-parsed key val cfg k h)

  pub list_line-read :
      (key : Str) (put : List Str → PersistedConfig) (vs : List Str) (rest : Str)
      → IsKey key
      → ((val : Str) → set_key fold key val (put []) ≡ ok (put (split_csv val)))
      → All IsEntry vs
      → parse_lines fold (split b'\n' (list_line escape key vs rest)) (put [])
        ≡ parse_lines fold (split b'\n' rest) (put vs)
  list_line-read key put [] rest k sets h = refl
  list_line-read key put (v ∷ vs) rest k sets h =
      value_line-parsed key (join b',' (v ∷ vs)) rest (put []) k (join-Plain v vs h)
      ∙ ap (λ r. then_lines r (parse_lines fold (split b'\n' rest))) (sets _)
      ∙ ap (λ c. parse_lines fold (split b'\n' rest) (put c)) (split_csv-join v vs h)
