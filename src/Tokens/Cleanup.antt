-- ===== src/Tokens/Cleanup.antt =====
-- What cleanup leaves in the cache.
use secretgen_controller.Common.{
  ℕ, Text, text_eq, text_eq_iff, text_eq_instance, Option, none, some, [], ◌∷◌, ◌≡◌, refl, ap, ◌∙◌,
  subst, arith, if◌then◌else◌, Bool-cases, inl, inr,
}
use secretgen_controller.Common.Maps
use secretgen_controller.Tokens.{
  TokenRequest, Services, Cache, State, is_after, drop_expired, cleanup,
}

-- A token that is not expired at a time.
abbrev pub live : ℕ → Option TokenRequest → Option TokenRequest
live now none = none
live now (some tr) = if is_after now tr then none else some tr

module _ {W : Type 0} (services : Services W) (now : ℕ)
    (clock : (w : W) → services.now w ≡ (now, w)) where
  get-drop_expired :
      (k : Text) (cache : Cache) (w : W)
      → Maps.IsMap cache
      → Maps.get k (drop_expired services cache w).0 ≡ live now (Maps.get k cache)
  unfolding drop_expired Maps.get
  get-drop_expired k [] w h = refl
  get-drop_expired k ((j, tr) ∷ cache) w h =
      let rec = get-drop_expired k cache w h.1 in
      rw (clock w) (elim (Bool-cases (text_eq j k)) [
        | inr other ↦ elim (Bool-cases (is_after now tr)) [
          | inl late ↦ rw (late, other) rec
          | inr early ↦ rw (early, other) rec
        ]
        | inl same ↦
            let gone : Maps.get k cache ≡ none =
              Maps.get-Absent k cache
                (subst (λ x. Maps.Absent x cache) ((text_eq_iff j k).0 same) h.0) in
            elim (Bool-cases (is_after now tr)) [
              | inl late ↦ rw (late, same) (rec ∙ ap (live now) gone ∙ ground (arith, late))
              | inr early ↦ rw (early, same) (ground (arith, early))
            ]
      ])

  -- cleanup removes the tokens that are expired at its time, and no others: the clock stands still while
  -- it runs, and the cache holds no key twice.
  pub get-cleanup :
      (k : Text) (s : State W)
      → Maps.IsMap s.cache
      → Maps.get k (cleanup services s).cache ≡ live now (Maps.get k s.cache)
  unfolding cleanup
  get-cleanup k s h = get-drop_expired k s.cache s.world h
