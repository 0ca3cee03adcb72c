-- ===== src/Daemon/Log/Tail.antt =====
-- internal/daemon/daemon.go, `logf` and `GetDiagnostics`: the diagnostics show the last lines.
use mathlib.Core.List.{reverse, reverse-append}
use goat_client.Prelude.{
  ℕ, zero, suc, ◌+◌, ◌%◌, ◌<◌, ◌≡◌, refl, sym, ap, ap₂, ◌∙◌, List, [], ◌∷◌, ◌++◌, Str, length, take,
  replicate, set, arith, length-set, length-replicate, take-all, take-cons-take, append_assoc,
  append-nil, get_or, newest, newest-add, forward, forward-reverse-newest, if◌then◌else◌, ◌==◌,
}
use native.Mathlib.Nat.{mod-eq_of_lt}
use goat_client.Daemon.Log.{Log, new_log, logf, kept, tail, get_diagnostics, default_tail_size}

record IsValid (l : Log) : Type 0 where
  idx_in : l.idx < l.size
  full : length l.lines ≡ l.size

new_log-IsValid : (asked : ℕ) → IsValid (new_log asked)
unfolding new_log
new_log-IsValid asked = record {
  idx_in = ground arith;
  full = length-replicate (if asked == 0 then default_tail_size else asked) [];
}

logf-IsValid : (l : Log) (line : Str) → IsValid l → IsValid (logf l line)
unfolding logf
logf-IsValid l line v = record {
  idx_in = grind (arith, v.idx_in);
  full = length-set l.lines l.idx line ∙ v.full;
}

-- All entries, newest first.
recent : Log → List Str
recent l = newest l.lines l.size [] l.idx 0 l.size

recent-logf :
    (l : Log) (line : Str) → IsValid l → recent (logf l line) ≡ take l.size (line ∷ recent l)
unfolding recent logf
recent-logf l line v =
    ap (newest (set l.lines l.idx line) l.size [] ((l.idx + 1) % l.size) 0) (ground arith)
    ∙ newest-add l.lines l.size l.idx l.size line [] (omega (arith, v.full)) v.idx_in (omega arith)

pub log_all : Log → List Str → Log
log_all l [] = l
log_all l (s ∷ ss) = log_all (logf l s) ss

-- The history is newest first.
log_all_lem :
    (l : Log) (ss h : List Str)
    → IsValid l
    → recent l ≡ take l.size h
    → IsValid (log_all l ss)
      × ((log_all l ss).size ≡ l.size)
      × (recent (log_all l ss) ≡ take l.size (reverse ss ++ h))
unfolding log_all logf
log_all_lem l [] h v e = (v, refl, e)
log_all_lem l (s ∷ ss) h v e =
    let one_more : recent (logf l s) ≡ take l.size (s ∷ h) =
      recent-logf l s v ∙ ap (λ r. take l.size (s ∷ r)) e ∙ take-cons-take l.size s h in
    let (valid, kept_size, held) =
      log_all_lem (logf l s) ss (s ∷ h) (logf-IsValid l s v) one_more in
    (
      valid,
      kept_size,
      held
          ∙ ap (take l.size)
              (sym (rw (reverse-append (s ∷ []) ss, append_assoc (reverse ss) (s ∷ []) h) refl)),
    )

kept-append : (xs ys : List Str) → kept (xs ++ ys) ≡ kept xs ++ kept ys
unfolding kept
kept-append [] ys = refl
kept-append ([] ∷ xs) ys = kept-append xs ys
kept-append ((c ∷ s) ∷ xs) ys = ap (◌∷◌ (c ∷ s)) (kept-append xs ys)

kept-reverse : (xs : List Str) → kept (reverse xs) ≡ reverse (kept xs)
unfolding kept
kept-reverse [] = refl
kept-reverse ([] ∷ xs) =
    ap kept (reverse-append ([] ∷ []) xs)
    ∙ kept-append (reverse xs) ([] ∷ [])
    ∙ append-nil _
    ∙ kept-reverse xs
kept-reverse ((c ∷ s) ∷ xs) =
    ap kept (reverse-append ((c ∷ s) ∷ []) xs)
    ∙ kept-append (reverse xs) ((c ∷ s) ∷ [])
    ∙ ap (λ r. r ++ (c ∷ s) ∷ []) (kept-reverse xs)
    ∙ sym (reverse-append ((c ∷ s) ∷ []) (kept xs))

take-nil : (n : ℕ) → take {A = Str} n [] ≡ []
take-nil zero = refl
take-nil (suc n) = refl

-- Entries that were never written are not shown.
kept-take-unwritten :
    (n m : ℕ) (xs : List Str) → kept (take n (xs ++ replicate m [])) ≡ kept (take n xs)
unfolding kept
kept-take-unwritten zero m xs = refl
kept-take-unwritten (suc n) zero [] = refl
kept-take-unwritten (suc n) (suc m) [] = kept-take-unwritten n m [] ∙ ap kept (take-nil n)
kept-take-unwritten (suc n) m ([] ∷ xs) = kept-take-unwritten n m xs
kept-take-unwritten (suc n) m ((c ∷ s) ∷ xs) = ap (◌∷◌ (c ∷ s)) (kept-take-unwritten n m xs)

get_or-replicate : (n i : ℕ) → get_or {A = Str} (replicate n []) i [] ≡ []
get_or-replicate zero i = refl
get_or-replicate (suc n) zero = refl
get_or-replicate (suc n) (suc i) = get_or-replicate n i

newest-replicate :
    (n size head i k : ℕ) → newest {A = Str} (replicate n []) size [] head i k ≡ replicate k []
unfolding newest
newest-replicate n size head i zero = refl
newest-replicate n size head i (suc k) =
    ap₂ ◌∷◌ (get_or-replicate n _) (newest-replicate n size head (i + 1) k)

recent-new_log :
    (asked : ℕ)
    → recent (new_log asked) ≡ take (new_log asked).size (replicate (new_log asked).size [])
unfolding recent new_log
recent-new_log asked =
    let n : ℕ = if asked == 0 then default_tail_size else asked in
    newest-replicate n n 0 0 n
    ∙ sym (take-all (replicate n []) n (omega (arith, length-replicate {0} n [])))

tail-recent : (l : Log) → IsValid l → tail l ≡ kept (reverse (recent l))
unfolding tail recent
tail-recent l v =
    ap (λ start. kept (forward l.lines l.size [] start 0 l.size))
      (sym (ap (λ m. m % l.size) (omega arith) ∙ mod-eq_of_lt {n = l.idx} {m = l.size} v.idx_in))
    ∙ ap kept (
        forward-reverse-newest l.lines l.size [] l.idx l.size 0 l.size 0 (omega arith)
          (omega arith))

-- After any lines that a new daemon has logged, its diagnostics show the last of them in their order,
-- as many as the size of the log that was asked for, or 256 where that was not positive, without
-- those that are empty.
pub log_tail-log_all :
    (asked : ℕ) (ss : List Str) (last_connect started_at now : ℕ) (e : Str)
    → (get_diagnostics (log_all (new_log asked) ss) last_connect started_at now e).log_tail
      ≡ kept (reverse (take (if asked == 0 then default_tail_size else asked) (reverse ss)))
unfolding get_diagnostics
log_tail-log_all asked ss last_connect started_at now e =
    let n : ℕ = (new_log asked).size in
    let (v, same_size, held) =
      log_all_lem (new_log asked) ss (replicate n []) (new_log-IsValid asked)
        (recent-new_log asked) in
    tail-recent (log_all (new_log asked) ss) v
    ∙ ap (λ r. kept (reverse r)) held
    ∙ kept-reverse _
    ∙ ap reverse (kept-take-unwritten n n (reverse ss))
    ∙ sym (kept-reverse (take n (reverse ss)))
    ∙ unfold new_log in refl
