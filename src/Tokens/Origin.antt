-- ===== src/Tokens/Origin.antt =====
-- Whose tokens the cache holds, and whose it hands out.
use mathlib.Core.List.{append_cancel_left}
use secretgen_controller.Common.{
  ℕ, Text, codes, text_eq_iff, text_eq_instance, Bool, true, false, Option, none, some, [], ◌∷◌,
  ◌++◌, ◌≡◌, refl, sym, ap, ◌∙◌, subst, text_eq, arith, Bool-cases, inl, inr,
}
use secretgen_controller.Common.Maps
use secretgen_controller.Common.Go.{Outcome, value}
use secretgen_controller.Kube.{Fetched, found, failed}
use secretgen_controller.Tokens.{
  TokenRequest, Services, Cache, State, is_after, reviewed, key, keep_unless, expired,
  requires_refresh, refresh_by_time, set, refreshed, refresh, cached_or_refreshed, looked_up,
  get_service_account_token, drop_expired, cleanup,
}

-- A quoted text tells where it ends: strconv.Quote escapes the quotes inside.
pub record IsQuote (quote : Text → Text) : Type 0 where
  pub ends : (a b s t : Text) → quote a ++ s ≡ quote b ++ t → a ≡ b

-- The TokenRequest API's tokens, and which account each is for.
pub record IsIssuer {W : Type 0} (services : Services W)
    (For : (name namespace : Text) → TokenRequest → Type 0) : Type 0 where
  pub issued :
      (name namespace : Text) (tr : TokenRequest) (w : W) {t : TokenRequest}
      → (services.get_token name namespace tr w).0 ≡ found t
      → For name namespace t

module _ {W : Type 0} (services : Services W)
    (For : (name namespace : Text) → TokenRequest → Type 0) where
  -- The key of an entry is that of the account that its token is for.
  abbrev pub IsIssued : Text × TokenRequest → Type 0
  IsIssued (k, t) =
      (name : Text) × (namespace : Text) × (k ≡ key services name namespace) × For name namespace t

  abbrev pub AllIssued : Cache → Type 0
  AllIssued [] = Unit
  AllIssued (entry ∷ cache) = IsIssued entry × AllIssued cache

  -- A token that is handed out is for the account.
  abbrev pub IsAnswer : (name namespace : Text) → Fetched TokenRequest → Type 0
  IsAnswer name namespace (found t) = For name namespace t
  IsAnswer name namespace (failed err) = Unit

  module _ (quotes : IsQuote services.quote) where
    key_inj : (a b a' b' : Text) → key services a b ≡ key services a' b' → (a ≡ a') × (b ≡ b')
    unfolding key
    key_inj a b a' b' h =
        let names =
          quotes.ends a a' (codes "/" ++ services.quote b) (codes "/" ++ services.quote b') h in
        let rest : services.quote a' ++ (codes "/" ++ services.quote b)
            ≡ services.quote a' ++ (codes "/" ++ services.quote b') =
          subst
            (λ x.
              services.quote x ++ (codes "/" ++ services.quote b)
              ≡ services.quote a' ++ (codes "/" ++ services.quote b'))
            names h in
        let slashed =
          append_cancel_left (services.quote a') (codes "/" ++ services.quote b)
            (codes "/" ++ services.quote b') rest in
        let spaces =
          append_cancel_left (codes "/") (services.quote b) (services.quote b') slashed in
        (names, quotes.ends b b' [] [] (ap (λ q. q ++ []) spaces))

    get-AllIssued :
        (name namespace : Text) (t : TokenRequest) (cache : Cache)
        → AllIssued cache
        → Maps.get (key services name namespace) cache ≡ some t
        → For name namespace t
    unfolding Maps.get
    get-AllIssued name namespace t [] h found_it = absurd (cc found_it)
    get-AllIssued name namespace t ((k, x) ∷ cache) h found_it =
        elim (Bool-cases (text_eq k (key services name namespace))) [
          | inl same ↦
              let (n, ns, at, for) = h.0 in
              let (names, spaces) =
                key_inj n ns name namespace
                  (sym at ∙ (text_eq_iff k (key services name namespace)).0 same) in
              let it : x ≡ t = ground (arith, found_it, same) in
              subst (λ y. For name namespace y) it
                (subst (λ m. For name m x) spaces (subst (λ m. For m ns x) names for))
          | inr other ↦ get-AllIssued name namespace t cache h.1 (ground (arith, found_it, other))
        ]

  put-AllIssued :
      (name namespace : Text) (t : TokenRequest) (cache : Cache)
      → For name namespace t
      → AllIssued cache
      → AllIssued (Maps.put (key services name namespace) t cache)
  unfolding Maps.put
  put-AllIssued name namespace t [] for h = ((name, namespace, refl, for), tt)
  put-AllIssued name namespace t ((k, x) ∷ cache) for h =
      elim (Bool-cases (text_eq k (key services name namespace))) [
        | inl same ↦ rw same ((name, namespace, refl, for), h.1)
        | inr other ↦ rw other (h.0, put-AllIssued name namespace t cache for h.1)
      ]

  drop-AllIssued :
      (cache : Cache) (w : W) → AllIssued cache → AllIssued (drop_expired services cache w).0
  unfolding drop_expired
  drop-AllIssued [] w h = tt
  drop-AllIssued ((k, t) ∷ cache) w h =
      let (now, w') = services.now w in
      elim (Bool-cases (is_after now t)) [
        | inl late ↦ rw late (drop-AllIssued cache w' h.1)
        | inr early ↦ rw early (h.0, drop-AllIssued cache w' h.1)
      ]

  -- What a call returns, and the cache that it leaves.
  abbrev pub Answers : (name namespace : Text) → Outcome (Fetched TokenRequest) × State W → Type 0
  Answers name namespace (outcome, s) =
      (answer : Fetched TokenRequest) × (outcome ≡ value answer)
      × IsAnswer name namespace answer
      × AllIssued s.cache

  -- requiresRefresh returns, and leaves the cache as it is.
  requires_refresh_lem :
      (tr : TokenRequest) (s : State W)
      → (b : Bool) × (w : W) × (requires_refresh services tr s ≡ (value b, record s { world = w }))
  unfolding requires_refresh
  requires_refresh_lem tr s =
      let (review, w) = services.review_token tr.token s.world in
      elim (Bool-cases (reviewed review)) [
        | inr denied ↦ (true, w, rw denied refl)
        | inl accepted ↦
            let (b, w', timed) = by_time tr.expiration_seconds (record s { world = w }) in
            (b, w', rw accepted timed)
      ]
    where
      by_time :
          (seconds : Option ℕ) (s : State W)
          → (b : Bool) × (w : W) × (refresh_by_time services tr seconds s
              ≡ (value b, record s { world = w }))
      by_time none s = (false, s.world, unfold refresh_by_time in refl)
      by_time (some n) s = (_, _, unfold refresh_by_time in refl)

  module _ (quotes : IsQuote services.quote) (issuer : IsIssuer services For) where
    refreshed-Answers :
        (name namespace : Text) (cached : Option TokenRequest) (answer : Fetched TokenRequest)
        (s : State W)
        → IsAnswer name namespace answer
        → ((t : TokenRequest) → cached ≡ some t → For name namespace t)
        → AllIssued s.cache
        → Answers name namespace (refreshed services (key services name namespace) cached answer s)
    unfolding refreshed set expired
    refreshed-Answers name namespace cached (found t) s for held h =
        (found t, refl, for, put-AllIssued name namespace t s.cache for h)
    refreshed-Answers name namespace none (failed err) s for held h = (_, refl, tt, h)
    refreshed-Answers name namespace (some t) (failed err) s for held h =
        let (now, w) = services.now s.world in
        elim (Bool-cases (is_after now t)) [
          | inl late ↦ rw late (_, refl, unfold keep_unless in tt, h)
          | inr early ↦ rw early (_, refl, unfold keep_unless in held t refl, h)
        ]

    refresh-Answers :
        (name namespace : Text) (tr : TokenRequest) (cached : Option TokenRequest) (s : State W)
        → ((t : TokenRequest) → cached ≡ some t → For name namespace t)
        → AllIssued s.cache
        → Answers name namespace (refresh services namespace name tr cached s)
    unfolding refresh
    refresh-Answers name namespace tr cached s held h =
        refreshed-Answers name namespace cached (services.get_token name namespace tr s.world).0 _
          (answered (services.get_token name namespace tr s.world).0 refl) held h
      where
        answered :
            (answer : Fetched TokenRequest)
            → (services.get_token name namespace tr s.world).0 ≡ answer
            → IsAnswer name namespace answer
        answered (found t) e = issuer.issued name namespace tr s.world e
        answered (failed err) e = tt

    looked_up-Answers :
        (name namespace : Text) (tr : TokenRequest) (cached : Option TokenRequest) (s : State W)
        → ((t : TokenRequest) → cached ≡ some t → For name namespace t)
        → AllIssued s.cache
        → Answers name namespace (looked_up services namespace name tr cached s)
    unfolding looked_up cached_or_refreshed
    looked_up-Answers name namespace tr none s held h =
        refresh-Answers name namespace tr none s held h
    looked_up-Answers name namespace tr (some t) s held h =
        let (b, w, returned) = requires_refresh_lem t s in rw returned (by_need b w)
      where
        by_need :
            (b : Bool) (w : W)
            → Answers name namespace
                (cached_or_refreshed services namespace name tr t b (record s { world = w }))
        by_need true w = refresh-Answers name namespace tr (some t) (record s { world = w }) held h
        by_need false w = (found t, refl, held t refl, h)

    get-Answers :
        (name namespace : Text) (tr : TokenRequest) (s : State W)
        → AllIssued s.cache
        → Answers name namespace (get_service_account_token services namespace name tr s)
    unfolding get_service_account_token
    get-Answers name namespace tr s h =
        looked_up-Answers name namespace tr (Maps.get (key services name namespace) s.cache) s
          (λ t e. get-AllIssued quotes name namespace t s.cache h e) h

-- The states of a manager: calls and cleanups in any order, in a cluster that changes meanwhile.
pub data Reachable {W : Type 0} (services : Services W) : State W → Type 0 where
  started : (w : W) → Reachable services (record { world = w; cache = [] })
  asked :
      {s : State W} (namespace name : Text) (tr : TokenRequest)
      → Reachable services s
      → Reachable services (get_service_account_token services namespace name tr s).1
  cleaned : {s : State W} → Reachable services s → Reachable services (cleanup services s)
  elsewhere :
      {s : State W} (w : W) → Reachable services s → Reachable services (record s { world = w })

module _ {W : Type 0} (services : Services W)
    (For : (name namespace : Text) → TokenRequest → Type 0) (quotes : IsQuote services.quote)
    (issuer : IsIssuer services For) where
  Reachable-AllIssued : {s : State W} → Reachable services s → AllIssued services For s.cache
  unfolding cleanup
  Reachable-AllIssued (started w) = tt
  Reachable-AllIssued (asked {s} namespace name tr r) =
      (get-Answers services For quotes issuer name namespace tr s (Reachable-AllIssued r)).3
  Reachable-AllIssued (cleaned {s} r) =
      drop-AllIssued services For s.cache s.world (Reachable-AllIssued r)
  Reachable-AllIssued (elsewhere w r) = Reachable-AllIssued r

  -- A token that GetServiceAccountToken hands out, from the cache or fresh, is one that the API issued for
  -- the account that is asked for, whatever calls and cleanups came before; and every call returns.
  pub get_service_account_token-IsAnswer :
      {s : State W} (namespace name : Text) (tr : TokenRequest)
      → Reachable services s
      → (answer : Fetched TokenRequest) × ((get_service_account_token services namespace name tr
            s).0
          ≡ value answer)
        × IsAnswer services For name namespace answer
  get_service_account_token-IsAnswer {s} namespace name tr r =
      let (answer, ok, for, _) =
        get-Answers services For quotes issuer name namespace tr s (Reachable-AllIssued r) in
      (answer, ok, for)
