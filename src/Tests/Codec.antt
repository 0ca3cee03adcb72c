-- ===== src/Tests/Codec.antt =====
-- Runs of internal/qrbundle, internal/peerping, internal/mode and the names of internal/profile.
use goat_client.Prelude.{
  ℕ, ◌^◌, ◌<◌, ◌≤◌, true, false, some, List, [], ◌∷◌, ◌++◌, Str, codes, length, take, IsByte, All,
  ◌==◌, if◌then◌else◌, forward, same, ◌≡◌, ◌≢◌, ◌↔◌, ◌⊎◌, refl, arith,
}
use mathlib.Core.List.{reverse, head?}
use goat_client.Qrbundle.Base45.{ok, encode_char, base45_encode, base45_decode_string}
use goat_client.Qrbundle.Payload.{
  encode, decode, done, fail, empty, bundle_too_large, max_bundle_bytes, qr_alphanumeric_l_ceiling,
}
use goat_client.Qrbundle.Inverse.{decode-iff-encode}
use goat_client.Qrbundle.Capacity.{encode_outcomes}
use goat_client.Peerping.Ring.{
  Sample, Ring, new_ring, add, samples, len, last, stats, default_history,
}
use goat_client.Peerping.Ring.Order.{add_all, samples-add_all, add-IsValid, new_ring-IsValid}
use goat_client.Peerping.Ring.Summary.{replies, sum, Summarises, stats-Summarises}
use goat_client.Peerping.Wire.{uint64, Round, datagram, probe_rounds, sample, decode_probe}
use goat_client.Peerping.Sampler.{Firing, run}
use goat_client.Peerping.Sampler.Numbered.{Ascends, all_sampled, run-samples}
use goat_client.Peerping.Wire.Laws.{probe_rounds-first_echo, Ignored, Echoed}
use goat_client.Mode.{combined, parse}
use goat_client.Profile.Slug.{slug, slugify, validate_name}
use goat_client.Text.{to_lower, trim_space}
use goat_client.Profile.Slug.Laws.{IsStemChar, validate_name-stem}

abbrev ab : List ℕ
ab = 65 ∷ 66 ∷ []

abbrev ab-IsByte : All IsByte ab
ab-IsByte = (omega arith, (omega arith, tt))

encode_ab : base45_encode ab ≡ codes "BB8"
unfolding base45_encode encode_char
encode_ab = refl

decode-iff-encode_example :
    (base45_decode_string (codes "BB8") ≡ ok ab)
    ↔ ((base45_encode ab ≡ codes "BB8") × All IsByte ab)
decode-iff-encode_example = decode-iff-encode (codes "BB8") ab

encode_outcomes_example :
    ((ab ≡ []) × (encode ab ≡ fail empty))
    ⊎ ((max_bundle_bytes < length ab) × (encode ab ≡ fail bundle_too_large))
    ⊎ ((s : Str) × (encode ab ≡ done s)
        × (length s ≤ qr_alphanumeric_l_ceiling)
        × (decode s ≡ done ab))
encode_outcomes_example = encode_outcomes ab ab-IsByte

abbrev first : Sample
first = record { seq = 1; at = 5; rtt = 20; lost = false }

abbrev second : Sample
second = record { seq = 2; at = 9; rtt = 0; lost = true }

abbrev third : Sample
third = record { seq = 3; at = 12; rtt = 10; lost = false }

abbrev burst : List Sample
burst = first ∷ second ∷ third ∷ []

samples-add_all_example :
    let r = add_all (new_ring 2) burst in
    let kept = take (if 2 == 0 then default_history else 2) (reverse burst) in
    (samples r ≡ reverse kept) × (len r ≡ length kept) × (last r ≡ head? (reverse burst))
samples-add_all_example = samples-add_all 2 burst

abbrev filled : Ring
filled = add (add (add (new_ring 2) first) second) third

filled_fits : sum (replies (samples filled) []) < 2 ^ 63
unfolding samples add new_ring forward
filled_fits = omega arith

stats-Summarises_example : Summarises (stats filled) (samples filled)
stats-Summarises_example =
    stats-Summarises {r = filled}
      (add-IsValid third (add-IsValid second (add-IsValid first (new_ring-IsValid 2)))) filled_fits

abbrev probe_7 : List ℕ
probe_7 = 103 ∷ 112 ∷ 110 ∷ 103 ∷ 1 ∷ 0 ∷ 0 ∷ 0 ∷ 0 ∷ 0 ∷ 0 ∷ 0 ∷ 7 ∷ []

abbrev probe_7-IsByte : All IsByte probe_7
probe_7-IsByte = (
  omega arith,
  (
    omega arith,
    (
      omega arith,
      (
        omega arith,
        (
          omega arith,
          (
            omega arith,
            (
              omega arith,
              (
                omega arith,
                (omega arith, (omega arith, (omega arith, (omega arith, (omega arith, tt))))),
              ),
            ),
          ),
        ),
      ),
    ),
  ),
)

-- A late echo of another probe, then the one that is waited for.
abbrev rounds : List Round
rounds =
    record {
      cancelled = false;
      now = 100;
      read = datagram (codes "gpng");
      cancelled_after = false;
      at = 101;
      at_rtt = 102;
    }
    ∷ record {
      cancelled = false;
      now = 103;
      read = datagram probe_7;
      cancelled_after = false;
      at = 110;
      at_rtt = 111;
    }
    ∷ []

abbrev echo : Sample
echo = record { seq = 7; at = 110; rtt = 21; lost = false }

rounds_give : probe_rounds 7 90 200 rounds ≡ sample echo
unfolding probe_rounds decode_probe same uint64
rounds_give = refl

probe_rounds-first_echo_example :
    (before : List Round) × (r : Round) × (after : List Round) × (rounds ≡ before ++ (r ∷ after))
    × All (Ignored 7 200) before
    × Echoed 7 90 200 r echo
probe_rounds-first_echo_example = probe_rounds-first_echo 7 90 200 rounds echo rounds_give refl

abbrev id_fold : ℕ → ℕ
id_fold c = c

parse_both : parse id_fold (codes " Both ") ≡ some combined
unfolding parse same to_lower trim_space
parse_both = refl

name_slug : validate_name id_fold (codes "My NET!") ≡ slug (codes "my-net")
unfolding validate_name slugify same to_lower trim_space
name_slug = refl

validate_name-stem_example :
    (codes "my-net" ≢ [])
    × (codes "my-net" ≢ codes "active")
    × All IsStemChar (codes "my-net")
    × (validate_name id_fold (codes "my-net") ≡ slug (codes "my-net"))
validate_name-stem_example = validate_name-stem id_fold (codes "My NET!") (codes "my-net") name_slug

abbrev firing : Firing
firing = record { start = 5; sent = false; rounds = []; cancelled = false; failed_at = 6 }

run-samples_example :
    (samples (run 3 0 (firing ∷ firing ∷ []) (new_ring 1))
      ≡ reverse (take 1 (reverse (all_sampled 3 0 (firing ∷ firing ∷ [])))))
    × Ascends 0 (all_sampled 3 0 (firing ∷ firing ∷ []))
run-samples_example = run-samples 3 1 (firing ∷ firing ∷ []) (omega arith)
