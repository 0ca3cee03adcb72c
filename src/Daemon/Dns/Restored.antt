-- ===== src/Daemon/Dns/Restored.antt =====
-- internal/daemon/daemon.go, `restoreDNS` and `onForwarderState`: what is left of a torn-down configuration.
use goat_client.Prelude.{
  Bool, true, false, Option, none, some, List, [], ◌∷◌, Str, is_some, ◌≡◌, ◌≢◌, refl, ap, ◌∙◌,
  if◌then◌else◌,
}
use goat_client.Daemon.Dns.{
  DnsConfig, Net, Resolver, Seen, register, front, apply_dns_current, reapply, on_forwarder_state,
  restore_dns,
}

module _ (net : Net) (fronting : Bool) where
  -- Transitions of the forwarder, one after another.
  unfoldable pub transitions : List Seen → Resolver → Resolver
  transitions [] r = r
  transitions (e ∷ es) r = transitions es (on_forwarder_state net fronting e r)

  stay_restored :
      (es : List Seen) (r : Resolver) → r.last_dns ≡ none → (transitions es r).host ≡ r.host
  unfolding transitions on_forwarder_state
  stay_restored [] r h = refl
  stay_restored (e ∷ es) r h =
      ap (λ o. (transitions es (reapply net fronting e o r)).host) h ∙ stay_restored es r h

  registers :
      (e : Seen) (iface : Str) (direct : DnsConfig) (o : Option DnsConfig) (r : Resolver)
      → e.direct_fails ≡ false
      → is_some (front e iface direct o r).host ≡ true
  registers e iface direct none r h = ap (λ b. is_some (register b iface direct r).host) h
  registers e iface direct (some c) r h = go e.fronted_fails
    where
      go :
          (b : Bool)
          → is_some
              (if b then register e.direct_fails iface direct r else register false iface c r).host
            ≡ true
      go true = ap (λ x. is_some (register x iface direct r).host) h
      go false = refl

  keeps_last :
      (e : Seen) (iface : Str) (direct : DnsConfig) (o : Option DnsConfig) (r : Resolver)
      → (front e iface direct o r).last_dns ≡ r.last_dns
  keeps_last e iface direct none r = kept e.direct_fails direct
    where
      kept : (b : Bool) (c : DnsConfig) → (register b iface c r).last_dns ≡ r.last_dns
      kept true c = refl
      kept false c = refl
  keeps_last e iface direct (some c) r = go e.fronted_fails e.direct_fails
    where
      go :
          (b d : Bool)
          → (if b then register d iface direct r else register false iface c r).last_dns
            ≡ r.last_dns
      go true true = refl
      go true false = refl
      go false d = refl

  -- Where a configuration was active and its direct registration works: once the resolver is restored,
  -- transitions of the forwarder that come after leave it so. But one that read the active configuration
  -- before, and applies it after, registers a configuration again, though none is active any more.
  pub restore_dns-transitions :
      (r : Resolver) (es : List Seen) (e : Seen)
      → r.last_dns ≢ none
      → e.direct_fails ≡ false
      → ((transitions es (restore_dns false r)).host ≡ none)
        × (is_some (reapply net fronting e r.last_dns (restore_dns false r)).host ≡ true)
        × ((reapply net fronting e r.last_dns (restore_dns false r)).last_dns ≡ none)
  unfolding restore_dns
  restore_dns-transitions r es e n h =
      let (back, gone) = again r.last_dns n h in
      (stay_restored es (restore_dns false r) refl, back, gone)
    where
      again :
          (o : Option (Str × DnsConfig))
          → o ≢ none
          → e.direct_fails ≡ false
          → (is_some (reapply net fronting e o (restore_dns false r)).host ≡ true)
            × ((reapply net fronting e o (restore_dns false r)).last_dns ≡ none)
      again none n h = absurd (n refl)
      again (some (iface, direct)) n h =
          unfold apply_dns_current in
          (
            registers e iface direct _ (restore_dns false r) h,
            keeps_last e iface direct _ (restore_dns false r),
          )
