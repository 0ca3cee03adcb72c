-- ===== src/Filedrop.antt =====
-- internal/filedrop/server.go: the receiver of dropped files, `handlePut`. The inbox is a map from
-- names to contents; a temporary file is no entry of it, and is gone when the handler ends. One
-- request is handled at a time.
pub mod Names
pub mod Put
use goat_client.Prelude.{
  ℕ, zero, suc, ◌+◌, ◌/◌, ◌%◌, Bool, true, false, not, Option, none, some, List, [], ◌∷◌, ◌++◌, Str,
  codes, same, length, drop, is_some, ◌&&◌, ltb, ◌==◌, ◌||◌, if◌then◌else◌,
}
use goat_client.Prelude.Assoc.{lookup, insert}
use goat_client.Text.{trim_space, digits}

pub record Received : Type 0 where
  pub name : Str
  pub size : ℕ
  pub from : Str
  pub from_ip : Str

-- `max_file_bytes` is 0 where it is not positive; `split_host` is `net.SplitHostPort`.
pub record Server : Type 0 where
  pub auth : Option (Str → Option Str)
  pub max_file_bytes : ℕ
  pub split_host : Str → Option Str

-- The content length is `none` where it is unknown. The flags say what fails: the inbox, the
-- temporary file, the copy of the body, the last rename.
pub record Request : Type 0 where
  pub method : Str
  pub remote_addr : Str
  pub path : Str
  pub content_length : Option ℕ
  pub body : Str
  pub inbox_fails : Bool
  pub temp_fails : Bool
  pub copy_fails : Bool
  pub rename_fails : Bool

pub data Reply : Type 0 where
  method_not_allowed forbidden bad_request too_large inbox_unavailable transfer_failed not_stored :
      Reply
  stored : Received → Reply

abbrev pub Inbox : Type 0
Inbox = List (Str × Str)

abbrev pub default_max_bytes : ℕ
default_max_bytes = 2147483648

unfoldable pub max_bytes : Server → ℕ
max_bytes s = if s.max_file_bytes == 0 then default_max_bytes else s.max_file_bytes

abbrev pub or_self : Str → Option Str → Str
or_self a none = a
or_self a (some h) = h

unfoldable pub source_ip : Server → Str → Str
source_ip s a = or_self a (s.split_host a)

abbrev pub is_among : ℕ → Str → Bool
is_among c [] = false
is_among c (d ∷ ds) = (c == d) || is_among c ds

unfoldable pub contains_any : Str → Str → Bool
contains_any [] cs = false
contains_any (c ∷ s) cs = is_among c cs || contains_any s cs

unfoldable pub has_prefix : Str → Str → Bool
has_prefix s [] = true
has_prefix [] (d ∷ p) = false
has_prefix (c ∷ s) (d ∷ p) = if c == d then has_prefix s p else false

unfoldable pub trim_prefix : Str → Str → Str
trim_prefix s p = if has_prefix s p then drop (length p) s else s

unfoldable pub safe_name : Str → Option Str
safe_name raw =
    let name = trim_space raw in
    if same name [] || (same name (codes ".") || same name (codes ".."))
    then none
    else if contains_any name (codes "/\\")
    then none
    else if has_prefix name (codes ".goatdrop-")
    then none
    else some name

-- `filepath.Ext` of a name without separators, and what is before it: the last dot splits.
unfoldable pub split_ext : Str → Str × Str
split_ext [] = ([], [])
split_ext (c ∷ s) =
    let (stem, ext) = split_ext s in
    if (c == b'.') && same ext [] then ([], c ∷ s) else (c ∷ stem, ext)

unfoldable pub candidate : Str → ℕ → Str
candidate name i =
    let (stem, ext) = split_ext name in stem ++ codes " (" ++ digits 5 i ++ codes ")" ++ ext

-- The first name that is free among `k` numbered ones from `i` on.
unfoldable pub free_from : Inbox → Str → ℕ → ℕ → Option Str
free_from inbox name i zero = none
free_from inbox name i (suc k) =
    let later = free_from inbox name (i + 1) k in
    if is_some (lookup (candidate name i) inbox) then later else some (candidate name i)

unfoldable pub place_uniquely : Inbox → Str → Option Str
place_uniquely inbox name =
    if is_some (lookup name inbox) then free_from inbox name 1 9999 else some name

abbrev pub put_prefix : Str
put_prefix = codes "/put/"

abbrev pub announced_over : ℕ → Option ℕ → Bool
announced_over most none = false
announced_over most (some n) = ltb most n

abbrev pub placed : Request → Str → Inbox → Received → Inbox × Reply
placed r name inbox rec =
    if r.rename_fails then (inbox, not_stored) else (insert name r.body inbox, stored rec)

abbrev pub place : Request → Str → Str → Inbox → Option Str → Inbox × Reply
place r label ip inbox none = (inbox, not_stored)
place r label ip inbox (some name) =
    placed r name inbox (record { name = name; size = length r.body; from = label; from_ip = ip })

abbrev pub receive : ℕ → Request → Str → Str → Inbox → Option Str → Inbox × Reply
receive most r label ip inbox none = (inbox, bad_request)
receive most r label ip inbox (some name) =
    if announced_over most r.content_length
    then (inbox, too_large)
    else if r.inbox_fails || r.temp_fails
    then (inbox, inbox_unavailable)
    else if ltb most (length r.body) || r.copy_fails
    then (inbox, transfer_failed)
    else place r label ip inbox (place_uniquely inbox name)

abbrev pub authorize : Option (Str → Option Str) → Str → Option Str
authorize none ip = none
authorize (some f) ip = f ip

abbrev pub admit : ℕ → Request → Str → Inbox → Option Str → Inbox × Reply
admit most r ip inbox none = (inbox, forbidden)
admit most r ip inbox (some label) =
    receive most r label ip inbox (safe_name (trim_prefix r.path put_prefix))

unfoldable pub handle_put : Server → Request → Inbox → Inbox × Reply
handle_put s r inbox =
    if same r.method (codes "PUT") || same r.method (codes "POST")
    then admit (max_bytes s) r (source_ip s r.remote_addr) inbox
        (authorize s.auth (source_ip s r.remote_addr))
    else (inbox, method_not_allowed)
