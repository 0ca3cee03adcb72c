-- ===== src/Daemon/Log.antt =====
-- internal/daemon/daemon.go: the rolling diagnostic log, `logf` and `GetDiagnostics`. A line is what the
-- formatting gave.
pub mod Tail
use goat_client.Prelude.{
  ℕ, zero, suc, ◌+◌, ◌-◌, ◌/◌, ◌%◌, List, [], ◌∷◌, Str, length, replicate, set, get_or, leb,
  forward, if◌then◌else◌, ◌==◌,
}
use goat_client.Ipc.Wire.{DiagnosticsReply}

abbrev pub default_tail_size : ℕ
default_tail_size = 256

-- The fields `LogTailSize`, `logTail` and `logIdx`.
pub record Log : Type 0 where
  pub size : ℕ
  pub lines : List Str
  pub idx : ℕ

-- In `New`. A size that is not positive is 0 here.
unfoldable pub new_log : ℕ → Log
new_log asked =
    let size = if asked == 0 then default_tail_size else asked in
    record { size = size; lines = replicate size []; idx = 0 }

unfoldable pub logf : Log → Str → Log
logf l line = record l { lines = set l.lines l.idx line; idx = (l.idx + 1) % l.size }

-- The lines that are not empty.
unfoldable pub kept : List Str → List Str
kept [] = []
kept ([] ∷ ls) = kept ls
kept ((c ∷ s) ∷ ls) = (c ∷ s) ∷ kept ls

unfoldable pub tail : Log → List Str
tail l = kept (forward l.lines l.size [] l.idx 0 l.size)

-- The times are in nanoseconds, and `last_error` is the text of the last error or empty.
unfoldable pub get_diagnostics : Log → ℕ → ℕ → ℕ → Str → DiagnosticsReply
get_diagnostics l last_connect started_at now last_error = record {
  log_tail = tail l;
  last_connect_attempt = last_connect;
  last_error = last_error;
  uptime_seconds = (now - started_at) / 1000000000;
}
