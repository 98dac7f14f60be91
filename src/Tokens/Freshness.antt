-- ===== src/Tokens/Freshness.antt =====
-- When a cached token is handed out again.
use secretgen_controller.Common.{
  ℕ, ◌+◌, ◌*◌, ◌/◌, ◌≤◌, true, false, some, ◌≡◌, ◌↔◌, refl, ap, arith, Bool-cases, inl, inr,
}
use secretgen_controller.Common.Go.{value}
use secretgen_controller.Tokens.{
  TokenRequest, Services, State, second, max_ttl, is_stale, reviewed, requires_refresh,
  refresh_by_time,
}

-- At a reading of the clock, half of the requested lifetime and the jitter are left, and the token is
-- not older than the maximum less the jitter.
pub record IsFresh (now expiration seconds jitter : ℕ) : Type 0 where
  pub half_left : now + seconds * 50 / 100 * second + jitter * second ≤ expiration
  pub young : now + seconds * second + jitter * second ≤ expiration + max_ttl

is_stale_iff :
    (now expiration seconds jitter : ℕ)
    → (is_stale now expiration seconds jitter ≡ false) ↔ IsFresh now expiration seconds jitter
unfolding is_stale
is_stale_iff now expiration seconds jitter = (
  λ h. record { half_left = ground (arith, h); young = ground (arith, h) },
  λ h. ground (arith, h.half_left, h.young),
)

module _ {W : Type 0} (services : Services W) where
  -- The clock and the jitter are read behind the review.
  abbrev pub world_reviewed : TokenRequest → W → W
  world_reviewed tr w = (services.review_token tr.token w).1

  -- A token with a requested lifetime needs no refresh exactly when its review authenticates it, half of
  -- that lifetime is left, and it is not older than two hours, both less a jitter.
  pub requires_refresh_iff :
      (tr : TokenRequest) (seconds : ℕ) (s : State W)
      → tr.expiration_seconds ≡ some seconds
      → ((requires_refresh services tr s).0 ≡ value false) ↔ (
          (reviewed (services.review_token tr.token s.world).0 ≡ true)
          × IsFresh
              (services.now (world_reviewed tr s.world)).0
              tr.expiration_timestamp
              seconds
              (services.jitter (services.now (world_reviewed tr s.world)).1).0)
  unfolding requires_refresh refresh_by_time
  requires_refresh_iff tr seconds s h =
      let w = world_reviewed tr s.world in
      let timed =
        is_stale_iff (services.now w).0 tr.expiration_timestamp seconds
          (services.jitter (services.now w).1).0 in
      elim (Bool-cases (reviewed (services.review_token tr.token s.world).0)) [
        | inl accepted ↦
            rw (accepted, h) (λ e. (refl, timed.0 (ground (arith, e))), λ e. ap value (timed.1 e.1))
        | inr denied ↦
            rw denied (λ e. absurd (ground (arith, e)), λ e. absurd (ground (arith, e.0)))
      ]
