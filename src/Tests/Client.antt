-- ===== src/Tests/Client.antt =====
-- Runs of the client of internal/ipc and of internal/trustanchor.
use goat_client.Prelude.{ℕ, true, false, Option, none, some, [], ◌∷◌, Str, codes, same, ◌≡◌, refl}
use goat_client.Ipc.Dispatch.{Method, RpcResponse, Answer}
use goat_client.Ipc.Client.{Turn, bump, err, read_failed, call_all}
use goat_client.Ipc.Client.Late.{IsSent, late, clear, each, behind, call_all-late}
use goat_client.TrustAnchor.{Anchor, Library, ok, check_anchor, new_set, verify}
use goat_client.Tests.Resolver.{root}
use goat_client.TrustAnchor.Laws.{VerifySpec, verify-VerifySpec}

abbrev number : ℕ → ℕ
number n = n

abbrev decode : Str → Option (RpcResponse ℕ)
decode [] = none
decode (c ∷ s) = some (record { id = none; answer = Answer.result c })

abbrev turn : Turn ℕ
turn = record {
  method = Method.get_mode;
  params = some 0;
  write_fails = false;
  answer = λ r. r.id ∷ [];
  in_time = true;
}

turn-IsSent : IsSent turn
turn-IsSent = ((0, refl), refl)

call_all-late_example :
    ((call_all number decode (turn ∷ turn ∷ []) (clear number decode 0)).1
      ≡ each number decode 0 (turn ∷ turn ∷ []))
    × ((call_all number decode (late turn ∷ turn ∷ turn ∷ []) (clear number decode 0)).1
        ≡ err read_failed ∷ behind number decode (bump 0) turn (turn ∷ turn ∷ []))
call_all-late_example =
    call_all-late number decode 0 turn (turn ∷ turn ∷ []) turn-IsSent
      ((turn-IsSent, refl), ((turn-IsSent, refl), tt))

abbrev lib : Library
lib = record { parse_pkix = λ s. none; sum256 = λ s. s; verify_asn1 = λ k d s. same d s }

abbrev anchor : Anchor
anchor = record {
  name = codes "ca";
  issuer = codes "ca";
  public_key = some root;
  spki = [];
  valid_from = 10;
  valid_until = 20;
}

makes_set : new_set lib (anchor ∷ []) ≡ ok (anchor ∷ [])
unfolding new_set check_anchor same
makes_set = refl

verify-VerifySpec_example :
    VerifySpec lib 20
      (codes "p")
      (codes "p")
      (anchor ∷ [])
      (verify lib 20 (anchor ∷ []) (codes "p") (codes "p"))
verify-VerifySpec_example =
    verify-VerifySpec lib (anchor ∷ []) (anchor ∷ []) 20 (codes "p") (codes "p") makes_set
