-- ===== src/Innermesh/LogBuffer.antt =====
-- internal/innermesh/netbird.go: `ringWriter`, the bounded log of the embedded client.
pub mod Bounds
use goat_client.Prelude.{
  ℕ, zero, suc, ◌+◌, ◌-◌, Bool, true, false, Option, none, some, List, [], ◌∷◌, ◌++◌, Str, length,
  drop, ltb, leb, ◌==◌, ◌||◌, if◌then◌else◌,
}

pub record RingWriter : Type 0 where
  pub buf : Str
  pub cap : ℕ

abbrev pub newline : ℕ
newline = 10

unfoldable pub new_ring_writer : ℕ → RingWriter
new_ring_writer zero = record { buf = []; cap = 65536 }
new_ring_writer (suc n) = record { buf = []; cap = suc n }

-- `bytes.IndexByte` and `indexNewline`, with `none` for -1.
unfoldable pub index_newline : Str → Option ℕ
index_newline [] = none
index_newline (c ∷ s) =
    let rest = index_newline s in
    if c == newline then some 0 else elim rest [ none ↦ none | some i ↦ some (suc i) ]

abbrev pub dropped : ℕ → Option ℕ → ℕ
dropped excess none = excess
dropped excess (some i) = excess + i + 1

unfoldable pub write : RingWriter → Str → RingWriter
write r p =
    let bs = r.buf ++ p in
    let excess = length bs - r.cap in
    if ltb r.cap (length bs)
    then record r { buf = drop (dropped excess (index_newline (drop excess bs))) bs }
    else record r { buf = bs }

-- A line goes into the list unless it is empty.
abbrev pub line_before : Str → List Str → List Str
line_before [] ls = ls
line_before (c ∷ s) ls = (c ∷ s) ∷ ls

-- The line read so far, and the rest of the text.
unfoldable pub split_from : Str → Str → List Str
split_from line [] = line_before line []
split_from line (c ∷ s) =
    let next = split_from [] s in
    let same_line = split_from (line ++ (c ∷ [])) s in
    if c == newline then line_before line next else same_line

unfoldable pub split_lines : Str → List Str
split_lines s = split_from [] s

-- `tail` is 0 where the caller passes no more than 0.
unfoldable pub lines : RingWriter → ℕ → List Str
lines r tail =
    let all = split_lines r.buf in
    if (tail == 0) || leb (length all) tail then all else drop (length all - tail) all
