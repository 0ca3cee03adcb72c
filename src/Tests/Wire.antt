-- ===== src/Tests/Wire.antt =====
-- Runs of the dispatch of internal/ipc, of the file of internal/mode and of the samplers of
-- internal/peerping.
use goat_client.Prelude.{ℕ, false, none, List, [], ◌∷◌, Str, codes, same, ◌≡◌, refl, inl}
use goat_client.Prelude.Assoc.{lookup, insert}
use goat_client.Mode.{combined, valid}
use goat_client.Mode.Persist.{PersistedConfig, ok, parse, body}
use goat_client.Mode.Persist.RoundTrip.{IsSaved, parse-body}
use goat_client.Peerping.Manager.{
  Target, ManagerConfig, new_manager, set_targets, start, wanted_from, stop_gone, start_new, retain,
  gone,
}
use goat_client.Peerping.Manager.Reconcile.{
  Op, starts, sets, run, apply, IsValid, reconciled, last_target, set_targets-reconciles,
}
use goat_client.Ipc.Profiles.{PeerCreds}
use goat_client.Ipc.Dispatch
use goat_client.Ipc.Dispatch.{
  Method, connect, Outcome, Call, Handler, RpcRequest, Codec, Line, line, authorized_for_mutate,
  serve, result, unauthorized, error, RpcResponse, finished, handle, answer_to, route, is_mutating,
}
use goat_client.Ipc.Dispatch.Guard.{SameReports, InOrder, serve-untrusted}

-- A daemon that counts the calls that change it and refuses the others.
abbrev counted : {A : Type 0} → Call ℕ A
counted n = (n, Dispatch.err [])

abbrev counter : Handler ℕ
counter = record {
  import_bundle = λ r n. (1, Dispatch.err []);
  get_status = counted;
  connect = λ n. (1, Dispatch.ok tt);
  disconnect = λ n. (1, Dispatch.ok tt);
  get_diagnostics = counted;
  get_mode = counted;
  set_mode = λ r n. (1, Dispatch.err []);
  set_rosenpass = λ r n. (1, Dispatch.err []);
  get_inner_mesh_status = counted;
  get_peer_connectivity = counted;
  get_incoming_files = counted;
  send_file = λ r n. (1, Dispatch.err []);
  set_inner_mesh_profile = λ r n. (1, Dispatch.err []);
  enable_inner_mesh = λ n. (1, Dispatch.ok tt);
  disable_inner_mesh = λ n. (1, Dispatch.ok tt);
  get_inner_mesh_diagnostics = counted;
  list_profiles = counted;
  add_profile = λ r n. (1, Dispatch.err []);
  remove_profile = λ r n. (1, Dispatch.err []);
  rename_profile = λ r n. (1, Dispatch.err []);
  set_active_profile = λ r n. (1, Dispatch.err []);
  get_active_profile = counted;
}

-- One that nothing changes.
abbrev still : Handler ℕ
still = record counter {
  import_bundle = λ r. counted;
  connect = counted;
  disconnect = counted;
  set_mode = λ r. counted;
  set_rosenpass = λ r. counted;
  send_file = λ r. counted;
  set_inner_mesh_profile = λ r. counted;
  enable_inner_mesh = counted;
  disable_inner_mesh = counted;
  add_profile = λ r. counted;
  remove_profile = λ r. counted;
  rename_profile = λ r. counted;
  set_active_profile = λ r. counted;
}

counter-SameReports : SameReports counter still
counter-SameReports = record {
  get_status = λ s. refl;
  get_diagnostics = λ s. refl;
  get_mode = λ s. refl;
  get_inner_mesh_status = λ s. refl;
  get_peer_connectivity = λ s. refl;
  get_incoming_files = λ s. refl;
  get_inner_mesh_diagnostics = λ s. refl;
  list_profiles = λ s. refl;
  get_active_profile = λ s. refl;
}

-- Every line is a request to connect.
abbrev codec : Codec ℕ
codec = record {
  decode =
      λ s. Dispatch.ok (record { jsonrpc = codes "2.0"; id = 7; method = connect; params = 0 });
  decode_import = λ j. Dispatch.err [];
  decode_set_mode = λ j. Dispatch.err [];
  decode_set_rosenpass = λ j. Dispatch.err [];
  decode_send_file = λ j. Dispatch.err [];
  decode_mesh_profile = λ j. Dispatch.err [];
  decode_add = λ j. Dispatch.err [];
  decode_remove = λ j. Dispatch.err [];
  decode_rename = λ j. Dispatch.err [];
  decode_set_active = λ j. Dispatch.err [];
  encode = λ r. Dispatch.ok 0;
}

abbrev user : ℕ → PeerCreds
user n = record { uid = n; pid = 1 }

abbrev two_lines : List Line
two_lines = line [] false false ∷ line [] false false ∷ []

serve-untrusted_example :
    (serve codec counter (user 1001) 1000 two_lines 0
      ≡ serve codec still (user 1001) 1000 two_lines 0)
    × InOrder codec counter
        (user 1001)
        1000
        two_lines
        (serve codec counter (user 1001) 1000 two_lines 0).1
unfolding authorized_for_mutate
serve-untrusted_example =
    serve-untrusted codec counter (user 1001) 1000 still two_lines 0 counter-SameReports refl

trusted_connects : (serve codec counter (user 1000) 1000 two_lines 0).0 ≡ 1
unfolding serve handle answer_to route is_mutating authorized_for_mutate same
trusted_connects = refl

abbrev config : PersistedConfig
config = record {
  mode = combined;
  mesh_dns_servers = codes "ns" ∷ codes "h" ∷ [];
  mesh_dns_search_domains = [];
  mesh_dns_match_domains = codes "m" ∷ [];
}

config-IsSaved : IsSaved config
unfolding valid
config-IsSaved = record {
  known_mode = inl refl;
  servers = ((refl, (refl, tt)), ((refl, tt), tt));
  search_domains = tt;
  match_domains = ((refl, tt), tt);
}

parse-body_example : parse (λ c. c) (body (λ c. []) config) ≡ ok config
parse-body_example = parse-body (λ c. c) (λ c. []) config config-IsSaved

abbrev peer : Str → ℕ → Target
peer ip port = record { ip = ip; port = port }

abbrev manager_config : ManagerConfig
manager_config = record { bind_addr = codes "198.18.0.6:51822"; history = 0 }

abbrev ops : List Op
ops = starts false ∷ sets (peer (codes "a") 0 ∷ peer (codes "b") 9 ∷ []) ∷ []

set_targets-reconciles_example :
    IsValid (
      set_targets
        (peer (codes "b") 0 ∷ peer (codes "c") 0 ∷ [])
        (run ops (new_manager manager_config)))
    × ((ip : Str)
        → lookup ip
            (set_targets
              (peer (codes "b") 0 ∷ peer (codes "c") 0 ∷ [])
              (run ops (new_manager manager_config))).peers
          ≡ reconciled
              (run ops (new_manager manager_config)).cfg.history
              (last_target ip (peer (codes "b") 0 ∷ peer (codes "c") 0 ∷ []) none)
              (lookup ip (run ops (new_manager manager_config)).peers))
unfolding run apply start set_targets new_manager wanted_from stop_gone start_new retain gone same
    insert lookup
set_targets-reconciles_example =
    set_targets-reconciles manager_config ops (peer (codes "b") 0 ∷ peer (codes "c") 0 ∷ []) refl
      refl
