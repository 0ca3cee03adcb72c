-- ===== src/Ipc/Client/Late.antt =====
-- internal/ipc/client.go, `call`: whose response a call returns.
use goat_client.Prelude.{
  ℕ, Bool, true, false, Option, none, some, List, [], ◌∷◌, ◌++◌, Str, All, ◌≡◌, refl, sym, ap, ap₂,
  ◌∙◌,
}
use goat_client.Ipc.Dispatch.{RpcResponse}
use goat_client.Ipc.Client.{
  marshal_failed, read_failed, Result, err, Client, Turn, bump, request, taken, receive, exchange,
  call_raw, call_all,
}

-- The request of this call is written.
abbrev pub IsSent : {Json : Type 0} → Turn Json → Type 0
IsSent {Json} t = ((p : Json) × (t.params ≡ some p)) × (t.write_fails ≡ false)

abbrev pub IsPrompt : {Json : Type 0} → Turn Json → Type 0
IsPrompt t = IsSent t × (t.in_time ≡ true)

abbrev pub late : {Json : Type 0} → Turn Json → Turn Json
late t = record t { in_time = false }

module _ {Json : Type 0} (number : ℕ → Json) (decode : Str → Option (RpcResponse Json)) where
  abbrev of_params : ℕ → Turn Json → Option Json → Result Json
  of_params n t none = err marshal_failed
  of_params n t (some p) = taken number decode (decode (t.answer (request number decode n t p)))

  -- What the daemon's response to this call's own request, the number given, comes to.
  abbrev pub own : ℕ → Turn Json → Result Json
  own n t = of_params n t t.params

  -- Each call with its own response.
  unfoldable pub each : ℕ → List (Turn Json) → List (Result Json)
  each n [] = []
  each n (t ∷ ts) = own (bump n) t ∷ each (bump n) ts

  -- Each call with the response of the call before it, the first with that of `t`.
  unfoldable pub behind : ℕ → Turn Json → List (Turn Json) → List (Result Json)
  behind n t [] = []
  behind n t (u ∷ us) = own n t ∷ behind (bump n) u us

  -- A connection after this many calls, with nothing left unread, or one line.
  abbrev pub clear : ℕ → Client
  clear n = record { next = n; unread = [] }

  abbrev holding : ℕ → Str → Client
  holding n l = record { next = n; unread = l ∷ [] }

  abbrev line : ℕ → Turn Json → Json → Str
  line n t p = t.answer (request number decode n t p)

  sends :
      (t : Turn Json) (p : Json) (b : Bool) (c : Client)
      → t.params ≡ some p
      → t.write_fails ≡ false
      → t.in_time ≡ b
      → call_raw number decode t c
        ≡ receive number decode b
            (record { next = bump c.next; unread = c.unread ++ line (bump c.next) t p ∷ [] })
  unfolding call_raw
  sends t p b c hp hw hb =
      ap₂ (λ o w. exchange number decode t o w (record c { next = bump c.next })) hp hw
      ∙ ap
          (λ i.
            receive number decode i
              (record { next = bump c.next; unread = c.unread ++ line (bump c.next) t p ∷ [] }))
          hb

  own_lem :
      (n : ℕ) (t : Turn Json) (p : Json)
      → t.params ≡ some p
      → taken number decode (decode (line n t p)) ≡ own n t
  own_lem n t p h = ap (of_params n t) (sym h)

  call_all-each :
      (n : ℕ) (ts : List (Turn Json))
      → All IsPrompt ts
      → (call_all number decode ts (clear n)).1 ≡ each n ts
  unfolding call_all each
  call_all-each n [] h = refl
  call_all-each n (t ∷ ts) ((((p, hp), hw), ht), hs) =
      ap (λ x. x.1 ∷ (call_all number decode ts x.0).1) (sends t p true (clear n) hp hw ht)
      ∙ ap₂ ◌∷◌ (own_lem (bump n) t p hp) (call_all-each (bump n) ts hs)

  call_all-behind :
      (n : ℕ) (t : Turn Json) (p : Json) (ts : List (Turn Json))
      → t.params ≡ some p
      → All IsPrompt ts
      → (call_all number decode ts (holding n (line n t p))).1 ≡ behind n t ts
  unfolding call_all behind
  call_all-behind n t p [] ht h = refl
  call_all-behind n t p (u ∷ us) ht ((((q, hq), hw), hu), hs) =
      ap (λ x. x.1 ∷ (call_all number decode us x.0).1)
        (sends u q true (holding n (line n t p)) hq hw hu)
      ∙ ap₂ ◌∷◌ (own_lem n t p ht) (call_all-behind (bump n) u q us hq hs)

  -- Where every request is written and its parameters can be marshalled: on a connection with nothing left
  -- unread, calls that are answered in time return each the response to its own request. But when the
  -- first call reaches its deadline, every call after it that is answered in time returns the response
  -- that was meant for the call before it.
  pub call_all-late :
      (n : ℕ) (t : Turn Json) (ts : List (Turn Json))
      → IsSent t
      → All IsPrompt ts
      → ((call_all number decode ts (clear n)).1 ≡ each n ts)
        × ((call_all number decode (late t ∷ ts) (clear n)).1
            ≡ err read_failed ∷ behind (bump n) t ts)
  unfolding call_all
  call_all-late n t ts ((p, hp), hw) hs = (
    call_all-each n ts hs,
    ap (λ x. x.1 ∷ (call_all number decode ts x.0).1) (sends (late t) p false (clear n) hp hw refl)
        ∙ ap (λ rs. err read_failed ∷ rs) (call_all-behind (bump n) t p ts hp hs),
  )
