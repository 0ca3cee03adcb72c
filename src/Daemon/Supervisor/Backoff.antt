-- ===== src/Daemon/Supervisor/Backoff.antt =====
-- internal/daemon/daemon.go, `runMeshSupervisor`: when it acts, and how long it waits.
use goat_client.Prelude.{
  ℕ, zero, suc, ◌*◌, ◌^◌, ◌≤◌, ◌<◌, min, true, false, List, [], ◌∷◌, length, All, ◌≡◌, refl, sym,
  ap, ◌∙◌, arith,
}
use native.Mathlib.Nat.{mul_assoc, le-mul_of_pos_right, mul-le-mul_right, pow-suc, pow-succ'}
use native.Mathlib.Decide.{dec_lt}
use goat_client.Mode.{includes_netbird}
use goat_client.Innermesh.Netbird.{error}
use goat_client.Daemon.Supervisor.{
  seen, Round, Turn, doubled, base_delay, max_delay, reconnect, supervise, delay_after,
  run_mesh_supervisor,
}

-- The round finds the inner mesh wanted, in the mode, with a bundle, and failed.
pub record Failed (r : Round) : Type 0 where
  pub wanted : r.wanted ≡ true
  pub in_mode : includes_netbird r.current_mode ≡ true
  pub failed : r.mesh ≡ seen error
  pub loaded : r.has_bundle ≡ true

-- And the reconnection does not succeed.
abbrev pub StaysDown : Round → Type 0
StaysDown r = Failed r × (r.reconnects ≡ false)

-- Doubling under a bound and then scaling under it is scaling under it.
twice_within : (d p most : ℕ) → 0 < p → min (min (d * 2) most * p) most ≡ min (d * (2 * p)) most
twice_within d p most h = elim (dec_lt (d * 2) most) [
  | yes y ↦
      let e : min (d * 2) most ≡ d * 2 = omega arith in
      rw e (ap (λ x. min x most) (mul_assoc d 2 p))
  | no n ↦
      let e : min (d * 2) most ≡ most = omega arith in
      rw e (
        omega (
          arith,
          le-mul_of_pos_right {m = p} most h,
          mul-le-mul_right {m = most} {n = d * 2} p (omega arith),
          mul_assoc d 2 p,
        ))
]

pow_pos : (n : ℕ) → 0 < 2 ^ n
pow_pos zero = omega arith
pow_pos (suc n) = omega (arith, pow-suc 2 n, pow_pos n)

module _ (base most : ℕ) where
  supervise-Failed :
      (r : Round) (delay : ℕ)
      → Failed r
      → supervise base most r delay ≡ reconnect base most r.reconnects delay
  unfolding supervise
  supervise-Failed r delay h = simp (h.wanted, h.in_mode, h.failed, h.loaded) refl

  doubled_lem : (d : ℕ) → d ≤ most → most < 2 ^ 62 → doubled most d ≡ min (d * 2) most
  doubled_lem d h k = ground arith

  delay_after_lem :
      (rs : List Round) (d : ℕ)
      → All StaysDown rs
      → d ≤ most
      → most < 2 ^ 62
      → delay_after base most rs d ≡ min (d * 2 ^ length rs) most
  unfolding delay_after
  delay_after_lem [] d h k l = ground arith
  delay_after_lem (r ∷ rs) d (h, hs) k l =
      let step : (supervise base most r d).delay ≡ min (d * 2) most =
        ap (λ (x : Turn). x.delay) (supervise-Failed r d h.0)
        ∙ ap (λ b. (reconnect base most b d).delay) h.1
        ∙ doubled_lem d k l in
      rw step (
        delay_after_lem rs (min (d * 2) most) hs (omega arith) l
        ∙ twice_within d (2 ^ length rs) most (pow_pos (length rs))
        ∙ ap (λ x. min (d * x) most) (sym (pow-succ' 2 (length rs))))

-- After any number of rounds in a row that find the mesh failed and do not bring it back, the
-- next such round tries again, and then waits the base delay doubled as often as rounds failed,
-- up to the greatest delay, which is below 2^62 nanoseconds and not below the base.
pub run_mesh_supervisor-backoff :
    (interval most : ℕ) (rs : List Round) (r : Round)
    → base_delay interval ≤ max_delay most
    → max_delay most < 2 ^ 62
    → All StaysDown rs
    → StaysDown r
    → let t = run_mesh_supervisor interval most rs r in
      (t.attempted ≡ true) × (t.wait ≡ min (base_delay interval * 2 ^ length rs) (max_delay most))
unfolding run_mesh_supervisor
run_mesh_supervisor-backoff interval most rs r h k hs (f, down) =
    let base = base_delay interval in
    let top = max_delay most in
    let kept = delay_after base top rs base in
    let turn : supervise base top r kept ≡ reconnect base top false kept =
      supervise-Failed base top r kept f ∙ ap (λ b. reconnect base top b kept) down in
    (
      ap (λ (x : Turn). x.attempted) turn,
      ap (λ (x : Turn). x.wait) turn ∙ delay_after_lem base top rs base hs h k,
    )
