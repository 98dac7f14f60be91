-- ===== src/Generator/Password/Drawing.antt =====
-- The loops of generate, and randomElement.
use secretgen_controller.Common.{
  ℕ, zero, suc, Text, get_elem?, get_elem?-some, some, [], ◌∷◌, ◌++◌, ◌≡◌, ◌≢◌, refl, ap, arith,
  All, length,
}
use mathlib.Core.List.{append_assoc, append-nil}
use secretgen_controller.Common.Go.{value}
use secretgen_controller.Generator.Random.{Random, drawn, rand_int, IsRandom}
use secretgen_controller.Generator.Password.{
  built, picked, byte_at, random_element, append_more, append_random,
}

-- A character of a set.
pub record IsFrom (set : Text) (c : ℕ) : Type 0 where
  pub index : ℕ
  pub at_index : get_elem? set index ≡ some c

module _ {W : Type 0} (random : Random W) (source : IsRandom random) where
  random_element_lem :
      (set : Text) (w : W)
      → set ≢ []
      → (c : ℕ) × ((random_element random set w).0 ≡ value (drawn c)) × IsFrom set c
  unfolding random_element rand_int picked byte_at
  random_element_lem [] w h = absurd (h refl)
  random_element_lem (x ∷ xs) w h =
      let (d, ok, below) = source.draws (length xs) w in
      let (c, at) = get_elem?-some (x ∷ xs) d below in
      (c, rw (ok, at) refl, record { index = d; at_index = at })

  -- A loop of so many rounds: it writes that many characters of its set.
  pub append_random_lem :
      (set : Text) (n : ℕ) (acc : Text) (w : W)
      → (n ≢ 0 → set ≢ [])
      → (cs : Text) × ((append_random random set n acc w).0 ≡ value (built (acc ++ cs)))
        × (length cs ≡ n)
        × All (IsFrom set) cs
  unfolding append_random append_more
  append_random_lem set zero acc w h = ([], rw (append-nil acc) refl, refl, tt)
  append_random_lem set (suc n) acc w h =
      let (c, ok, from) = random_element_lem set w (h (omega arith)) in
      let (cs, more, len, all) =
        append_random_lem set n (acc ++ (c ∷ [])) (random_element random set w).1
          (λ _. h (omega arith)) in
      (c ∷ cs, rw (ok, more, append_assoc acc (c ∷ []) cs) refl, ap suc len, (from, all))
