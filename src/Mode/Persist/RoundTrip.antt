-- ===== src/Mode/Persist/RoundTrip.antt =====
-- internal/mode/persist.go, `Save` and `parse`: what is saved is read back.
use goat_client.Prelude.{
  ℕ, Bool, true, false, not, [], ◌∷◌, ◌++◌, Str, codes, same, ◌==◌, ◌&&◌, All, ◌≡◌, ◌⊎◌, inl, inr,
  refl, subst, ap, ◌∙◌, arith,
}
use goat_client.Mode
use goat_client.Text.{to_lower, trim_space, is_space}
use goat_client.Text.Split.{split, Without, split-append}
use goat_client.Mode.{Mode, wg_cp0_only, netbird_only, combined, other, mode_string, valid}
use goat_client.Mode.Persist.{
  PersistedConfig, ok, empty_config, has_prefix_hash, set_key, parse_line, then_lines, parse_lines,
  parse, value_line, heading, body,
}
use goat_client.Mode.Persist.Entries.{is_plain, Plain, IsEntry}
use goat_client.Mode.Persist.Lines.{IsKey, value_line-parsed, list_line-read}

other_than : ℕ → Str → Bool
other_than sep [] = true
other_than sep (c ∷ s) = not (c == sep) && other_than sep s

Without-by : (sep : ℕ) (s : Str) → other_than sep s ≡ true → Without sep s
unfolding other_than
Without-by sep [] h = tt
Without-by sep (c ∷ s) h = (ground arith, Without-by sep s (ground arith))

all_plain : Str → Bool
all_plain [] = true
all_plain (c ∷ s) = is_plain c && all_plain s

Plain-by : (s : Str) → all_plain s ≡ true → Plain s
unfolding all_plain
Plain-by [] h = tt
Plain-by (c ∷ s) h = (ground arith, Plain-by s (ground arith))

-- A configuration whose mode is valid or empty and whose entries are plain texts.
pub record IsSaved (cfg : PersistedConfig) : Type 0 where
  pub known_mode : (valid cfg.mode ≡ true) ⊎ (cfg.mode ≡ other [])
  pub servers : All IsEntry cfg.mesh_dns_servers
  pub search_domains : All IsEntry cfg.mesh_dns_search_domains
  pub match_domains : All IsEntry cfg.mesh_dns_match_domains

module _ (fold : ℕ → ℕ) (escape : ℕ → Str) where
  key_lem :
      (c : ℕ) (s : Str)
      → is_space c ≡ false
      → (c == b'#') ≡ false
      → other_than b'\n' (c ∷ s) ≡ true
      → other_than b'=' ((c ∷ s) ++ b' ' ∷ []) ≡ true
      → trim_space ((c ∷ s) ++ b' ' ∷ []) ≡ c ∷ s
      → IsKey fold escape (c ∷ s)
  key_lem c s a b d e f = record {
    first = c;
    rest = s;
    starts = refl;
    no_space = a;
    no_hash = b;
    no_newline = Without-by b'\n' (c ∷ s) d;
    no_equals = Without-by b'=' ((c ∷ s) ++ b' ' ∷ []) e;
    trims = f;
  }

  mode-IsKey : IsKey fold escape (codes "mode")
  unfolding is_space other_than trim_space
  mode-IsKey = key_lem b'm' (codes "ode") refl refl refl refl refl

  servers-IsKey : IsKey fold escape (codes "mesh_dns_servers")
  unfolding is_space other_than trim_space
  servers-IsKey = key_lem b'm' (codes "esh_dns_servers") refl refl refl refl refl

  search-IsKey : IsKey fold escape (codes "mesh_dns_search_domains")
  unfolding is_space other_than trim_space
  search-IsKey = key_lem b'm' (codes "esh_dns_search_domains") refl refl refl refl refl

  match-IsKey : IsKey fold escape (codes "mesh_dns_match_domains")
  unfolding is_space other_than trim_space
  match-IsKey = key_lem b'm' (codes "esh_dns_match_domains") refl refl refl refl refl

  mode-Plain : (m : Mode) → (valid m ≡ true) ⊎ (m ≡ other []) → Plain (mode_string m)
  unfolding mode_string valid all_plain
  mode-Plain wg_cp0_only h = Plain-by (codes "wg-cp0-only") refl
  mode-Plain netbird_only h = Plain-by (codes "netbird-only") refl
  mode-Plain combined h = Plain-by (codes "combined") refl
  mode-Plain (other s) (inl h) = absurd (cc)
  mode-Plain (other s) (inr e) = subst Plain (string_of s e) tt
    where
      string_of : (s : Str) → other s ≡ other [] → [] ≡ s
      string_of s e = cc

  mode_set :
      (m : Mode)
      → (valid m ≡ true) ⊎ (m ≡ other [])
      → set_key fold (codes "mode") (mode_string m) empty_config
        ≡ ok (record empty_config { mode = m })
  unfolding set_key mode_string valid same Mode.parse trim_space to_lower
  mode_set wg_cp0_only h = refl
  mode_set netbird_only h = refl
  mode_set combined h = refl
  mode_set (other s) (inl h) = absurd (cc)
  mode_set (other []) (inr e) = refl
  mode_set (other (c ∷ s)) (inr e) = absurd (cc)

  heading_skipped : (cfg : PersistedConfig) → parse_line fold (trim_space heading) cfg ≡ ok cfg
  unfolding trim_space parse_line has_prefix_hash same
  heading_skipped cfg = refl

  heading_read :
      (rest : Str) (cfg : PersistedConfig)
      → parse_lines fold (split b'\n' (heading ++ b'\n' ∷ rest)) cfg
        ≡ parse_lines fold (split b'\n' rest) cfg
  unfolding parse_lines
  heading_read rest cfg =
      ap (λ ls. parse_lines fold ls cfg)
        (split-append b'\n' heading rest refl
          (Without-by b'\n' heading (unfold other_than in refl)))
      ∙ ap (λ r. then_lines r (parse_lines fold (split b'\n' rest))) (heading_skipped cfg)

  end_read : (cfg : PersistedConfig) → parse_lines fold (split b'\n' []) cfg ≡ ok cfg
  unfolding parse_lines split trim_space parse_line same
  end_read cfg = refl

  mode_read :
      (m : Mode) (rest : Str)
      → (valid m ≡ true) ⊎ (m ≡ other [])
      → parse_lines fold
          (split b'\n' (value_line escape (codes "mode") (mode_string m) rest))
          empty_config
        ≡ parse_lines fold (split b'\n' rest) (record empty_config { mode = m })
  mode_read m rest h =
      value_line-parsed fold escape (codes "mode") (mode_string m) rest empty_config mode-IsKey
        (mode-Plain m h)
      ∙ ap (λ r. then_lines r (parse_lines fold (split b'\n' rest))) (mode_set m h)

  -- What `Save` writes of a configuration whose mode is valid or empty, and whose entries are not
  -- empty and of printable ASCII characters other than spaces, commas, quotes and backslashes,
  -- `parse` reads back as it was.
  pub parse-body : (cfg : PersistedConfig) → IsSaved cfg → parse fold (body escape cfg) ≡ ok cfg
  unfolding parse body set_key same
  parse-body cfg h =
      heading_read _ empty_config
      ∙ mode_read cfg.mode _ h.known_mode
      ∙ list_line-read fold escape (codes "mesh_dns_servers")
          (λ vs. record with_mode { mesh_dns_servers = vs }) cfg.mesh_dns_servers _ servers-IsKey
          (λ val. refl) h.servers
      ∙ list_line-read fold escape (codes "mesh_dns_search_domains")
          (λ vs. record with_servers { mesh_dns_search_domains = vs }) cfg.mesh_dns_search_domains _
          search-IsKey (λ val. refl) h.search_domains
      ∙ list_line-read fold escape (codes "mesh_dns_match_domains")
          (λ vs. record with_search { mesh_dns_match_domains = vs }) cfg.mesh_dns_match_domains []
          match-IsKey (λ val. refl) h.match_domains
      ∙ end_read cfg
    where
      with_mode : PersistedConfig
      with_mode = record empty_config { mode = cfg.mode }

      with_servers : PersistedConfig
      with_servers = record with_mode { mesh_dns_servers = cfg.mesh_dns_servers }

      with_search : PersistedConfig
      with_search = record with_servers { mesh_dns_search_domains = cfg.mesh_dns_search_domains }
