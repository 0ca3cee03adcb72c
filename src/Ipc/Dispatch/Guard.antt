-- ===== src/Ipc/Dispatch/Guard.antt =====
-- internal/ipc/dispatch.go, `handle` and `Serve`: what a connection of another user can do.
use goat_client.Prelude.{
  ℕ, Bool, true, false, Option, none, some, List, [], ◌∷◌, map, length, take, ◌≡◌, refl, ap, ap₂,
  ◌∙◌, arith,
}
use goat_client.Ipc.Profiles.{PeerCreds}
use goat_client.Ipc.Dispatch.{
  Method, import_bundle, get_status, connect, disconnect, get_diagnostics, get_mode, set_mode,
  set_rosenpass, get_inner_mesh_status, get_peer_connectivity, get_incoming_files, send_file,
  set_inner_mesh_profile, enable_inner_mesh, disable_inner_mesh, get_inner_mesh_diagnostics,
  list_profiles, add_profile, remove_profile, rename_profile, set_active_profile,
  get_active_profile, other, Outcome, ok, err, Handler, RpcRequest, RpcResponse, Codec, Line, line,
  too_long, End, is_mutating, authorized_for_mutate, stops, fill_result, route, answer_to, handle,
  reply_to, respond, and_then, serve,
}

-- The two daemons have the same methods that report. The other thirteen are any.
pub record SameReports {S : Type 0} (h h' : Handler S) : Type 0 where
  pub get_status : (s : S) → h.get_status s ≡ h'.get_status s
  pub get_diagnostics : (s : S) → h.get_diagnostics s ≡ h'.get_diagnostics s
  pub get_mode : (s : S) → h.get_mode s ≡ h'.get_mode s
  pub get_inner_mesh_status : (s : S) → h.get_inner_mesh_status s ≡ h'.get_inner_mesh_status s
  pub get_peer_connectivity : (s : S) → h.get_peer_connectivity s ≡ h'.get_peer_connectivity s
  pub get_incoming_files : (s : S) → h.get_incoming_files s ≡ h'.get_incoming_files s
  pub get_inner_mesh_diagnostics :
      (s : S) → h.get_inner_mesh_diagnostics s ≡ h'.get_inner_mesh_diagnostics s
  pub list_profiles : (s : S) → h.list_profiles s ≡ h'.list_profiles s
  pub get_active_profile : (s : S) → h.get_active_profile s ≡ h'.get_active_profile s

module _ {S Json : Type 0} (codec : Codec Json) (h h' : Handler S)
    (same_reports : SameReports h h') where
  route_read :
      (m : Method) (p : Json) (s : S)
      → is_mutating m ≡ false
      → route codec h m p s ≡ route codec h' m p s
  unfolding route is_mutating
  route_read import_bundle p s e = absurd (cc)
  route_read connect p s e = absurd (cc)
  route_read disconnect p s e = absurd (cc)
  route_read set_mode p s e = absurd (cc)
  route_read set_rosenpass p s e = absurd (cc)
  route_read set_inner_mesh_profile p s e = absurd (cc)
  route_read enable_inner_mesh p s e = absurd (cc)
  route_read disable_inner_mesh p s e = absurd (cc)
  route_read add_profile p s e = absurd (cc)
  route_read remove_profile p s e = absurd (cc)
  route_read rename_profile p s e = absurd (cc)
  route_read set_active_profile p s e = absurd (cc)
  route_read send_file p s e = absurd (cc)
  route_read get_status p s e = ap (fill_result codec _) (same_reports.get_status s)
  route_read get_diagnostics p s e = ap (fill_result codec _) (same_reports.get_diagnostics s)
  route_read get_mode p s e = ap (fill_result codec _) (same_reports.get_mode s)
  route_read get_inner_mesh_status p s e =
      ap (fill_result codec _) (same_reports.get_inner_mesh_status s)
  route_read get_peer_connectivity p s e =
      ap (fill_result codec _) (same_reports.get_peer_connectivity s)
  route_read get_incoming_files p s e = ap (fill_result codec _) (same_reports.get_incoming_files s)
  route_read get_inner_mesh_diagnostics p s e =
      ap (fill_result codec _) (same_reports.get_inner_mesh_diagnostics s)
  route_read list_profiles p s e = ap (fill_result codec _) (same_reports.list_profiles s)
  route_read get_active_profile p s e = ap (fill_result codec _) (same_reports.get_active_profile s)
  route_read (other m) p s e = refl

  module _ (creds : PeerCreds) (trusted_uid : ℕ)
      (foreign : authorized_for_mutate creds trusted_uid ≡ false) where
    answer_to_same :
        (req : RpcRequest Json) (s : S)
        → answer_to codec h creds trusted_uid req s ≡ answer_to codec h' creds trusted_uid req s
    unfolding answer_to
    answer_to_same req s = ground (arith, route_read req.method req.params s)

    reply_to_same :
        (r : Outcome (RpcRequest Json)) (s : S)
        → reply_to codec h creds trusted_uid r s ≡ reply_to codec h' creds trusted_uid r s
    unfolding handle
    reply_to_same (err e) s = refl
    reply_to_same (ok req) s = ap (respond codec (some req.id)) (answer_to_same req s)

    and_then_same :
        (b : Bool) (r : S × RpcResponse Json) (k k' : S → S × List (RpcResponse Json) × End)
        → ((s : S) → k s ≡ k' s)
        → and_then codec b r k ≡ and_then codec b r k'
    and_then_same true (s, r) k k' e = refl
    and_then_same false (s, r) k k' e = ap (λ x. (x.0, r ∷ x.1, x.2)) (e s)

    serve_same :
        (ls : List Line) (s : S)
        → serve codec h creds trusted_uid ls s ≡ serve codec h' creds trusted_uid ls s
    unfolding serve
    serve_same [] s = refl
    serve_same (too_long ∷ ls) s = refl
    serve_same (line l true w ∷ ls) s = refl
    serve_same (line l false w ∷ ls) s =
        ap (λ r. and_then codec (stops (codec.decode l) w) r (serve codec h creds trusted_uid ls))
          (reply_to_same (codec.decode l) s)
        ∙ and_then_same (stops (codec.decode l) w)
            (reply_to codec h' creds trusted_uid (codec.decode l) s)
            (serve codec h creds trusted_uid ls) (serve codec h' creds trusted_uid ls)
            (serve_same ls)

abbrev pub request_id : {Json : Type 0} → Outcome (RpcRequest Json) → Option Json
request_id (ok req) = some req.id
request_id (err e) = none

abbrev pub line_id : {Json : Type 0} → Codec Json → Line → Option Json
line_id codec (line l d w) = request_id (codec.decode l)
line_id codec too_long = none

module _ {S Json : Type 0} (codec : Codec Json) (h : Handler S) (creds : PeerCreds)
    (trusted_uid : ℕ) where
  abbrev pub InOrder : List Line → List (RpcResponse Json) → Type 0
  InOrder ls rs = map (λ r. r.id) rs ≡ take (length rs) (map (line_id codec) ls)

  reply_to-id :
      (r : Outcome (RpcRequest Json)) (s : S)
      → (reply_to codec h creds trusted_uid r s).1.id ≡ request_id r
  unfolding handle
  reply_to-id (err e) s = refl
  reply_to-id (ok req) s = refl

  and_then-InOrder :
      (b : Bool) (r : S × RpcResponse Json) (k : S → S × List (RpcResponse Json) × End) (l : Line)
      (ls : List Line)
      → r.1.id ≡ line_id codec l
      → ((s : S) → InOrder ls (k s).1)
      → InOrder (l ∷ ls) (and_then codec b r k).1
  and_then-InOrder true r k l ls e f = refl
  and_then-InOrder false (s, r) k l ls e f = ap₂ ◌∷◌ e (f s)

  serve-InOrder : (ls : List Line) (s : S) → InOrder ls (serve codec h creds trusted_uid ls s).1
  unfolding serve
  serve-InOrder [] s = refl
  serve-InOrder (too_long ∷ ls) s = refl
  serve-InOrder (line l true w ∷ ls) s = refl
  serve-InOrder (line l false w ∷ ls) s =
      and_then-InOrder (stops (codec.decode l) w)
        (reply_to codec h creds trusted_uid (codec.decode l) s) (serve codec h creds trusted_uid ls)
        (line l false w) ls (reply_to-id (codec.decode l) s) (serve-InOrder ls)

  -- A connection whose user is not trusted runs none of the methods that change the daemon: whatever it
  -- sends, it leaves the daemon in the state, and gets the responses and the end, that it would with any
  -- others in place of `ImportBundle`, `Connect`, `Disconnect`, `SetMode`, `SetRosenpass`, the three of
  -- the inner mesh, the four of profiles and `SendFile`. The responses answer the first lines of the input
  -- in their order, each with the id of its request, or none where the line is no request.
  pub serve-untrusted :
      (h' : Handler S) (ls : List Line) (s : S)
      → SameReports h h'
      → authorized_for_mutate creds trusted_uid ≡ false
      → (serve codec h creds trusted_uid ls s ≡ serve codec h' creds trusted_uid ls s)
        × InOrder ls (serve codec h creds trusted_uid ls s).1
  serve-untrusted h' ls s same_reports foreign =
      (serve_same codec h h' same_reports creds trusted_uid foreign ls s, serve-InOrder ls s)
