-- ===== src/Mode/Laws.antt =====
-- What internal/mode accepts and writes.
use goat_client.Prelude.{ℕ, ◌≡◌, inl, inr, refl, true, some, Str, same, arith, ◌||◌, Bool-cases}
use goat_client.Text.{trim_space, to_lower}
use goat_client.Mode.{
  Mode, wg_cp0_only, netbird_only, combined, other, mode_string, parse, parse_normal, one_of,
  outer_names, inner_names, both_names, valid, includes_wg_cp0, includes_netbird,
}

parse_normal-valid : (t : Str) (m : Mode) → parse_normal t ≡ some m → valid m ≡ true
unfolding parse_normal valid
parse_normal-valid t m h = elim (Bool-cases (one_of t outer_names)) [
  | inl a ↦ of_some wg_cp0_only refl (rw a at h)
  | inr a ↦ elim (Bool-cases (one_of t inner_names)) [
    | inl b ↦ of_some netbird_only refl (rw (a, b) at h)
    | inr b ↦ elim (Bool-cases (one_of t both_names)) [
      | inl c ↦ of_some combined refl (rw (a, b, c) at h)
      | inr c ↦ absurd (cc (rw (a, b, c) at h))
    ]
  ]
]
  where
    of_some : (k : Mode) → valid k ≡ true → some k ≡ some m → valid m ≡ true
    of_some k v e = ground arith

canonical :
    (fold : ℕ → ℕ) (m : Mode)
    → valid m ≡ true
    → (parse fold (mode_string m) ≡ some m) × ((includes_wg_cp0 m || includes_netbird m) ≡ true)
unfolding parse parse_normal mode_string valid includes_wg_cp0 includes_netbird trim_space to_lower
    same
canonical fold wg_cp0_only v = (refl, refl)
canonical fold netbird_only v = (refl, refl)
canonical fold combined v = (refl, refl)
canonical fold (other s) v = absurd (cc)

-- A mode that `Parse` accepts is valid, runs at least one subsystem, and its canonical text is
-- parsed to it again.
parse-valid :
    (fold : ℕ → ℕ) (s : Str) (m : Mode)
    → parse fold s ≡ some m
    → (valid m ≡ true)
      × (parse fold (mode_string m) ≡ some m)
      × ((includes_wg_cp0 m || includes_netbird m) ≡ true)
unfolding parse
parse-valid fold s m h =
    let v : valid m ≡ true = parse_normal-valid (to_lower fold (trim_space s)) m h in
    (v, (canonical fold m v).0, (canonical fold m v).1)
