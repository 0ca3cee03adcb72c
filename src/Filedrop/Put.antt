-- ===== src/Filedrop/Put.antt =====
-- internal/filedrop/server.go, `handlePut`: what a request can do to the inbox.
use goat_client.Prelude.{
  ℕ, zero, suc, ◌+◌, ◌≤◌, Bool, true, false, Option, none, some, Str, same, length, ltb, ◌||◌,
  if◌then◌else◌, ◌≡◌, refl, subst, arith, is_some, codes,
}
use goat_client.Prelude.Assoc.{lookup, insert, lookup-insert_ne, lookup-insert_self}
use goat_client.Filedrop.Names.{IsSafe, safe_name-IsSafe, place_uniquely-IsSafe}
use goat_client.Filedrop.{
  Server, Request, Received, Reply, stored, not_stored, bad_request, too_large, inbox_unavailable,
  transfer_failed, forbidden, method_not_allowed, Inbox, max_bytes, source_ip, safe_name,
  trim_prefix, put_prefix, free_from, candidate, place_uniquely, place, receive, authorize, admit,
  announced_over, handle_put,
}

free_from-free :
    (inbox : Inbox) (name : Str) (i k : ℕ) (f : Str)
    → free_from inbox name i k ≡ some f
    → lookup f inbox ≡ none
unfolding free_from
free_from-free inbox name i zero f h = absurd (cc)
free_from-free inbox name i (suc k) f h =
    go (lookup (candidate name i) inbox) refl (free_from-free inbox name (i + 1) k f) h
  where
    go :
        (o : Option Str)
        → lookup (candidate name i) inbox ≡ o
        → (free_from inbox name (i + 1) k ≡ some f → lookup f inbox ≡ none)
        → (if is_some o then free_from inbox name (i + 1) k else some (candidate name i)) ≡ some f
        → lookup f inbox ≡ none
    go none e later h =
        let same_name : candidate name i ≡ f = cc in subst (λ x. lookup x inbox ≡ none) same_name e
    go (some b) e later h = later h

place_uniquely-free :
    (inbox : Inbox) (name f : Str) → place_uniquely inbox name ≡ some f → lookup f inbox ≡ none
unfolding place_uniquely
place_uniquely-free inbox name f h = go (lookup name inbox) refl h
  where
    go :
        (o : Option Str)
        → lookup name inbox ≡ o
        → (if is_some o then free_from inbox name 1 9999 else some name) ≡ some f
        → lookup f inbox ≡ none
    go none e k = let same_name : name ≡ f = cc in subst (λ x. lookup x inbox ≡ none) same_name e
    go (some b) e k = free_from-free inbox name 1 9999 f k

-- What a stored file has passed: a known sender, a safe name, the size limit, and a free name in
-- the inbox, under which it is now, whole, beside all that was there.
pub record Stored (s : Server) (r : Request) (inbox inbox' : Inbox) (rec : Received) : Type 0 where
  pub known : authorize s.auth (source_ip s r.remote_addr) ≡ some rec.from
  pub asked : Str
  pub accepted : safe_name (trim_prefix r.path put_prefix) ≡ some asked
  pub chosen : place_uniquely inbox asked ≡ some rec.name
  pub safe : IsSafe rec.name
  pub was_free : lookup rec.name inbox ≡ none
  pub within : length r.body ≤ max_bytes s
  pub whole : rec.size ≡ length r.body
  pub now_there : lookup rec.name inbox' ≡ some r.body
  pub others : (k : Str) → same rec.name k ≡ false → lookup k inbox' ≡ lookup k inbox

module _ (s : Server) (r : Request) (inbox : Inbox) where
  abbrev pub PutSpec : Inbox × Reply → Type 0
  PutSpec (inbox', stored rec) = Stored s r inbox inbox' rec
  PutSpec (inbox', method_not_allowed) = inbox' ≡ inbox
  PutSpec (inbox', forbidden) = inbox' ≡ inbox
  PutSpec (inbox', bad_request) = inbox' ≡ inbox
  PutSpec (inbox', too_large) = inbox' ≡ inbox
  PutSpec (inbox', inbox_unavailable) = inbox' ≡ inbox
  PutSpec (inbox', transfer_failed) = inbox' ≡ inbox
  PutSpec (inbox', not_stored) = inbox' ≡ inbox

  places :
      (label asked : Str) (o : Option Str)
      → authorize s.auth (source_ip s r.remote_addr) ≡ some label
      → safe_name (trim_prefix r.path put_prefix) ≡ some asked
      → length r.body ≤ max_bytes s
      → place_uniquely inbox asked ≡ o
      → PutSpec (place r label (source_ip s r.remote_addr) inbox o)
  places label asked none known safe within chosen = refl
  places label asked (some name) known safe within chosen = go (r.rename_fails)
    where
      rec : Received
      rec = record {
        name = name;
        size = length r.body;
        from = label;
        from_ip = source_ip s r.remote_addr;
      }

      go :
          (b : Bool)
          → PutSpec (if b then (inbox, not_stored) else (insert name r.body inbox, stored rec))
      go true = refl
      go false = record {
        known = known;
        asked = asked;
        accepted = safe;
        chosen = chosen;
        safe = place_uniquely-IsSafe inbox asked name (safe_name-IsSafe _ asked safe) chosen;
        was_free = place_uniquely-free inbox asked name chosen;
        within = within;
        whole = refl;
        now_there = lookup-insert_self name inbox r.body;
        others = λ k e. lookup-insert_ne name k inbox r.body e;
      }

  receives :
      (label : Str) (o : Option Str)
      → authorize s.auth (source_ip s r.remote_addr) ≡ some label
      → safe_name (trim_prefix r.path put_prefix) ≡ o
      → PutSpec (receive (max_bytes s) r label (source_ip s r.remote_addr) inbox o)
  receives label none known safe = refl
  receives label (some asked) known safe =
      go (announced_over (max_bytes s) r.content_length) (r.inbox_fails || r.temp_fails)
        (ltb (max_bytes s) (length r.body)) (r.copy_fails) refl
    where
      go :
          (a b c d : Bool)
          → ltb (max_bytes s) (length r.body) ≡ c
          → PutSpec (
              if a
              then (inbox, too_large)
              else (if b
                  then (inbox, inbox_unavailable)
                  else (if c || d
                      then (inbox, transfer_failed)
                      else place r label
                          (source_ip s r.remote_addr)
                          inbox
                          (place_uniquely inbox asked))))
      go true b c d e = refl
      go false true c d e = refl
      go false false true d e = refl
      go false false false true e = refl
      go false false false false e =
          places label asked (place_uniquely inbox asked) known safe (ground (arith, e)) refl

  -- A request changes the inbox only when it is answered by a stored file. That file then comes
  -- from a known sender, is within the size limit, and stands whole under a name that was free; the
  -- name is not empty, not `.` or `..`, has neither slash nor backslash, and is not that of a
  -- temporary file. Every other file is as it was, so none is overwritten.
  pub handle_put-PutSpec : PutSpec (handle_put s r inbox)
  unfolding handle_put
  handle_put-PutSpec = go (same r.method (codes "PUT") || same r.method (codes "POST"))
    where
      admits :
          (o : Option Str)
          → authorize s.auth (source_ip s r.remote_addr) ≡ o
          → PutSpec (admit (max_bytes s) r (source_ip s r.remote_addr) inbox o)
      admits none e = refl
      admits (some label) e = receives label (safe_name (trim_prefix r.path put_prefix)) e refl

      go :
          (b : Bool)
          → PutSpec (
              if b
              then admit
                  (max_bytes s)
                  r
                  (source_ip s r.remote_addr)
                  inbox
                  (authorize s.auth (source_ip s r.remote_addr))
              else (inbox, method_not_allowed))
      go true = admits (authorize s.auth (source_ip s r.remote_addr)) refl
      go false = refl
