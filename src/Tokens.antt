-- ===== src/Tokens.antt =====
-- Manager of pkg/satoken/token_manager.go: a cache of service account tokens. Its lock makes get, set
-- and cleanup one step each. Logging is left out.
pub mod Origin
pub mod Freshness
pub mod Cleanup
use secretgen_controller.Common.{
  ℕ, ◌+◌, ◌*◌, ◌/◌, Text, codes, text_eq_instance, Bool, true, false, Option, none, some, List, [],
  ◌∷◌, ◌++◌, ltb, if◌then◌else◌,
}
use secretgen_controller.Common.Maps
use secretgen_controller.Common.Maps.{Map}
use secretgen_controller.Common.Go.{Go, Outcome, value, pure, call, gets, modify, ◌>>=◌, ◌>>◌}
use secretgen_controller.Kube.{Fetched, found, failed}
use secretgen_controller.Api.Errors.{Error, errorf, error_text, plain}

-- authenticationv1.TokenRequest: the requested lifetime, and the token with its expiry. Times and
-- durations are in nanoseconds, a requested lifetime is in seconds.
pub record TokenRequest : Type 0 where
  pub expiration_seconds : Option ℕ
  pub token : Text
  pub expiration_timestamp : ℕ

-- What the manager calls: the TokenRequest and TokenReview APIs, the clock, and the jitter that is
-- drawn from math/rand, in whole seconds.
pub record Services (W : Type 0) : Type 0 where
  pub get_token : (name namespace : Text) → TokenRequest → W → Fetched TokenRequest × W
  -- The review's `Authenticated`.
  pub review_token : Text → W → Fetched Bool × W
  pub now : W → ℕ × W
  pub jitter : W → ℕ × W
  -- `%q` of fmt.
  pub quote : Text → Text

abbrev pub Cache : Type 0
Cache = Map Text TokenRequest

pub record State (W : Type 0) : Type 0 where
  pub world : W
  pub cache : Cache

abbrev pub on_world : {W A : Type 0} → (W → A × W) → Go (State W) A
on_world f s = let (a, world) = f s.world in (value a, record s { world = world })

abbrev pub second : ℕ
second = 1000000000

-- 2 * time.Hour.
abbrev pub max_ttl : ℕ
max_ttl = 7200 * second

-- m.clock.Now().After(expiration), at a reading of the clock.
abbrev pub is_after : ℕ → TokenRequest → Bool
is_after now tr = ltb tr.expiration_timestamp now

-- The two tests at the end of requiresRefresh, with what they subtract from a time written on the other
-- side: the API keeps lifetimes below 2 ^ 32 seconds, so that no Duration wraps around.
unfoldable pub is_stale : (now expiration seconds jitter : ℕ) → Bool
is_stale now expiration seconds jitter =
    if ltb (expiration + max_ttl) (now + seconds * second + jitter * second)
    then true
    else ltb expiration (now + seconds * 50 / 100 * second + jitter * second)

abbrev pub reviewed : Fetched Bool → Bool
reviewed (failed err) = false
reviewed (found authenticated) = authenticated

module _ {W : Type 0} (services : Services W) where
  unfoldable pub key : (name namespace : Text) → Text
  key name namespace = services.quote name ++ (codes "/" ++ services.quote namespace)

  unfoldable pub expired : TokenRequest → Go (State W) Bool
  expired tr = do now ← on_world services.now; pure (is_after now tr)

  -- Behind the review.
  refresh_by_time : TokenRequest → Option ℕ → Go (State W) Bool
  unfolding is_stale
  refresh_by_time tr none = pure false
  refresh_by_time tr (some seconds) = do
    now ← on_world services.now
    jitter ← on_world services.jitter
    pure (is_stale now tr.expiration_timestamp seconds jitter)

  unfoldable pub requires_refresh : TokenRequest → Go (State W) Bool
  unfolding refresh_by_time
  requires_refresh tr = do
    review ← on_world (services.review_token tr.token)
    if reviewed review then refresh_by_time tr tr.expiration_seconds else pure true

  set : Text → TokenRequest → Go (State W) (Unit {0})
  set k tr = modify (λ s. record s { cache = Maps.put k tr s.cache })

  -- A failed refresh of a cached token.
  keep_unless : Text → TokenRequest → Error → Bool → Fetched TokenRequest
  keep_unless k cached err true =
      failed (errorf (codes "Token " ++ (k ++ codes " expired and refresh failed")) err)
  keep_unless k cached err false = found cached

  -- What follows a call of the TokenRequest API; `none` is a key that the cache does not hold.
  unfoldable pub refreshed :
      Text → Option TokenRequest → Fetched TokenRequest → Go (State W) (Fetched TokenRequest)
  unfolding set keep_unless expired
  refreshed k cached (found tr) = do set k tr; pure (found tr)
  refreshed k none (failed err) = pure (failed (errorf (codes "Fetch token") err))
  refreshed k (some tr) (failed err) = do late ← expired tr; pure (keep_unless k tr err late)

  refresh :
      (namespace name : Text)
      → TokenRequest
      → Option TokenRequest
      → Go (State W) (Fetched TokenRequest)
  unfolding refreshed key
  refresh namespace name tr cached = do
    answer ← on_world (services.get_token name namespace tr)
    refreshed (key name namespace) cached answer

  cached_or_refreshed :
      (namespace name : Text)
      → TokenRequest
      → TokenRequest
      → Bool
      → Go (State W) (Fetched TokenRequest)
  unfolding refresh
  cached_or_refreshed namespace name tr cached true = refresh namespace name tr (some cached)
  cached_or_refreshed namespace name tr cached false = pure (found cached)

  looked_up :
      (namespace name : Text)
      → TokenRequest
      → Option TokenRequest
      → Go (State W) (Fetched TokenRequest)
  unfolding refresh requires_refresh cached_or_refreshed
  looked_up namespace name tr none = refresh namespace name tr none
  looked_up namespace name tr (some cached) = do
    needed ← requires_refresh cached
    cached_or_refreshed namespace name tr cached needed

  unfoldable pub get_service_account_token :
      (namespace name : Text) → TokenRequest → Go (State W) (Fetched TokenRequest)
  unfolding looked_up key
  get_service_account_token namespace name tr = do
    cached ← gets (λ s. Maps.get (key name namespace) s.cache)
    looked_up namespace name tr cached

  -- The loop of cleanup: the clock is read for each entry.
  unfoldable pub drop_expired : Cache → W → Cache × W
  drop_expired [] w = ([], w)
  drop_expired ((k, tr) ∷ cache) w =
      let (now, w') = services.now w in
      let (rest, w'') = drop_expired cache w' in
      (if is_after now tr then rest else (k, tr) ∷ rest, w'')

  unfoldable pub cleanup : State W → State W
  unfolding drop_expired
  cleanup s =
      let (cache, world) = drop_expired s.cache s.world in record { world = world; cache = cache }
