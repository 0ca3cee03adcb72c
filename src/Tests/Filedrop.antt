-- ===== src/Tests/Filedrop.antt =====
-- Runs of internal/filedrop.
use goat_client.Prelude.{false, Option, none, some, [], ◌∷◌, Str, codes, same, ◌≡◌, refl}
use goat_client.Prelude.Assoc.{lookup}
use goat_client.Text.{trim_space}
use goat_client.Filedrop.{
  Server, Request, Inbox, handle_put, safe_name, split_ext, candidate, place_uniquely, free_from,
  contains_any, has_prefix,
}
use goat_client.Text.{digits}
use goat_client.Filedrop.Put.{PutSpec, handle_put-PutSpec}

abbrev peer_only : Str → Option Str
peer_only [] = none
peer_only (c ∷ s) = some (codes "peer.mesh")

abbrev pub host_only : Str → Option Str
host_only s = some (codes "100.64.0.2")

abbrev server : Server
server = record { auth = some peer_only; max_file_bytes = 100; split_host = host_only }

abbrev pub request : Request
request = record {
  method = codes "PUT";
  remote_addr = codes "100.64.0.2:5000";
  path = codes "/put/a.tar.gz";
  content_length = none;
  body = codes "hello";
  inbox_fails = false;
  temp_fails = false;
  copy_fails = false;
  rename_fails = false;
}

abbrev pub inbox : Inbox
inbox = (codes "a.tar.gz", codes "old") ∷ []

second_name : place_uniquely inbox (codes "a.tar.gz") ≡ some (codes "a.tar (1).gz")
unfolding place_uniquely free_from candidate split_ext digits lookup same
second_name = refl

no_escape : safe_name (codes "../x") ≡ none
unfolding safe_name trim_space contains_any same has_prefix
no_escape = refl

handle_put-PutSpec_example : PutSpec server request inbox (handle_put server request inbox)
handle_put-PutSpec_example = handle_put-PutSpec server request inbox
