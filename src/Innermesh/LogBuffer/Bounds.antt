-- ===== src/Innermesh/LogBuffer/Bounds.antt =====
-- internal/innermesh/netbird.go, `ringWriter`: what the log holds after any writes.
use goat_client.Prelude.{
  ℕ, zero, suc, ◌-◌, ◌≤◌, ◌<◌, Option, none, some, List, [], ◌∷◌, ◌++◌, Str, length, take, drop,
  take-append-drop, length-drop, length-append, ltb, ltb→lt, ◌≡◌, refl, sym, ap, ◌∙◌, inl, inr,
  Bool-cases, arith, subst, append_assoc, append-nil,
}
use goat_client.Innermesh.LogBuffer.{RingWriter, new_ring_writer, index_newline, dropped, write}

abbrev pub write_all : RingWriter → List Str → RingWriter
write_all r [] = r
write_all r (p ∷ ps) = write_all (write r p) ps

abbrev pub joined : List Str → Str
joined [] = []
joined (p ∷ ps) = p ++ joined ps

-- Of the text written so far, what is held: its end, no longer than the capacity, and all of it
-- while it fits.
pub record Holds (r : RingWriter) (cap : ℕ) (written : Str) : Type 0 where
  pub lost : Str
  pub end_of_written : written ≡ lost ++ r.buf
  pub capacity : r.cap ≡ cap
  pub bounded : length r.buf ≤ cap
  pub whole : length written ≤ cap → r.buf ≡ written

dropped_enough : (n : ℕ) (o : Option ℕ) → n ≤ dropped n o
dropped_enough n none = omega arith
dropped_enough n (some i) = omega arith

-- A write keeps to it.
write-Holds :
    (r : RingWriter) (cap : ℕ) (w p : Str) → Holds r cap w → Holds (write r p) cap (w ++ p)
unfolding write
write-Holds r cap w p h = elim (Bool-cases (ltb r.cap (length (r.buf ++ p)))) [
  | inr n ↦ simp n (record {
    lost = h.lost;
    end_of_written = joined_end;
    capacity = h.capacity;
    bounded = ground (arith, h.capacity, n);
    whole = λ fits. ap (λ b. b ++ p) (h.whole (ground (arith, length-append w p, fits)));
  })
  | inl y ↦ simp y (record {
    lost = h.lost ++ take (cut r.cap) bs;
    end_of_written =
        joined_end
        ∙ ap (◌++◌ h.lost) (sym (take-append-drop (cut r.cap) bs))
        ∙ sym (append_assoc h.lost (take (cut r.cap) bs) (drop (cut r.cap) bs));
    capacity = h.capacity;
    bounded = omega (
      arith,
      length-drop (cut r.cap) bs,
      dropped_enough (length bs - r.cap) (index_newline (drop (length bs - r.cap) bs)),
      h.capacity,
    );
    whole = λ fits. absurd (
        omega (
          arith,
          ap length joined_end,
          length-append (h.lost) bs,
          ltb→lt (r.cap) (length bs) y,
          h.capacity,
        ));
  })
]
  where
    bs : Str
    bs = r.buf ++ p

    cut : ℕ → ℕ
    cut c = dropped (length bs - c) (index_newline (drop (length bs - c) bs))

    joined_end : w ++ p ≡ h.lost ++ (r.buf ++ p)
    joined_end = ap (λ x. x ++ p) h.end_of_written ∙ append_assoc h.lost (r.buf) p

write_all-Holds :
    (ps : List Str) (r : RingWriter) (cap : ℕ) (w : Str)
    → Holds r cap w
    → Holds (write_all r ps) cap (w ++ joined ps)
write_all-Holds [] r cap w h = subst (Holds r cap) (sym (append-nil w)) h
write_all-Holds (p ∷ ps) r cap w h =
    subst (Holds (write_all (write r p) ps) cap) (append_assoc w p (joined ps))
      (write_all-Holds ps (write r p) cap (w ++ p) (write-Holds r cap w p h))

-- After any writes, a log of positive capacity holds the end of the text written, no longer than
-- its capacity, and all of the text as long as that fits.
pub log-Holds :
    (n : ℕ) (ps : List Str) → 0 < n → Holds (write_all (new_ring_writer n) ps) n (joined ps)
unfolding new_ring_writer
log-Holds zero ps h = absurd (omega arith)
log-Holds (suc n) ps h =
    write_all-Holds ps (record { buf = []; cap = suc n }) (suc n) []
      (record {
        lost = [];
        end_of_written = refl;
        capacity = refl;
        bounded = omega arith;
        whole = λ _. refl;
      })
