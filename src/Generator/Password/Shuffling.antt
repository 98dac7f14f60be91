-- ===== src/Generator/Password/Shuffling.antt =====
-- localCryptoShuffle and the swaps that it makes.
use secretgen_controller.Common.{
  ℕ, zero, suc, ◌+◌, ◌-◌, ◌<◌, ◌≤◌, Text, get_elem?, get_elem?-some, some, [], ◌∷◌, ◌++◌, ◌≡◌, refl,
  ap, ◌∙◌, arith, length, ◌==◌, if◌then◌else◌,
}
use secretgen_controller.Common.Go.{value}
use secretgen_controller.Generator.Random.{Random, rand_int, IsRandom}
use secretgen_controller.Generator.Password.{
  set_elem, swap, swap_found, swap_drawn, shuffle, local_crypto_shuffle,
}

-- How often a character stands in a text.
abbrev one_if : ℕ → ℕ → ℕ
one_if c d = if c == d then 1 else 0

abbrev pub count : ℕ → Text → ℕ
count c [] = 0
count c (d ∷ s) = one_if c d + count c s

pub count-append : (c : ℕ) (s t : Text) → count c (s ++ t) ≡ count c s + count c t
count-append c [] t = omega arith
count-append c (d ∷ s) t = omega (arith, count-append c s t)

-- The same characters, each as often.
pub record IsRearranged (s t : Text) : Type 0 where
  pub same_length : length s ≡ length t
  pub same_count : (c : ℕ) → count c s ≡ count c t

set_elem_lem :
    (s : Text) (i a b : ℕ)
    → get_elem? s i ≡ some a
    → (length (set_elem s i b) ≡ length s)
      × ((c : ℕ) → count c (set_elem s i b) + one_if c a ≡ count c s + one_if c b)
unfolding get_elem? set_elem
set_elem_lem [] i a b h = ground arith
set_elem_lem (x ∷ s) zero a b h = (refl, λ c. ground (arith, h))
set_elem_lem (x ∷ s) (suc i) a b h =
    let (len, counts) = set_elem_lem s i a b h in (ap suc len, λ c. omega (arith, counts c))

-- What stands at the second index behind the first write.
get_elem?-set_elem :
    (s : Text) (i j a b : ℕ)
    → get_elem? s i ≡ some a
    → get_elem? s j ≡ some b
    → get_elem? (set_elem s i b) j ≡ some b
unfolding get_elem? set_elem
get_elem?-set_elem [] i j a b h k = ground arith
get_elem?-set_elem (x ∷ s) zero zero a b h k = refl
get_elem?-set_elem (x ∷ s) zero (suc j) a b h k = k
get_elem?-set_elem (x ∷ s) (suc i) zero a b h k = k
get_elem?-set_elem (x ∷ s) (suc i) (suc j) a b h k = get_elem?-set_elem s i j a b h k

swap_lem :
    (s : Text) (i j : ℕ)
    → i < length s
    → j < length s
    → (t : Text) × (swap i j s ≡ value t) × IsRearranged s t
unfolding swap swap_found
swap_lem s i j hi hj =
    let (a, at_i) = get_elem?-some s i hi in
    let (b, at_j) = get_elem?-some s j hj in
    let first = set_elem s i b in
    let (len, counts) = set_elem_lem s i a b at_i in
    let (len', counts') = set_elem_lem first j b a (get_elem?-set_elem s i j a b at_i at_j) in
    (
      set_elem first j a,
      rw (at_i, at_j) refl,
      record {
        same_length = omega (arith, len, len');
        same_count = λ c. omega (arith, counts c, counts' c);
      },
    )

module _ {W : Type 0} (random : Random W) (source : IsRandom random) where
  shuffle_lem :
      (i : ℕ) (s : Text) (w : W)
      → i ≤ length s - 1
      → (t : Text) × ((shuffle random i s w).0 ≡ value t) × IsRearranged s t
  unfolding shuffle
  shuffle_lem zero s w h = (s, refl, record { same_length = refl; same_count = λ c. refl })
  shuffle_lem (suc i) s w h =
      let (d, ok, below) = source.draws (suc i) w in
      let w' = (random.int_below (suc (suc i)) w).1 in
      let (t, swapped, kept) = swap_lem s (suc i) d (omega arith) (omega (arith, below)) in
      let (u, rest, kept') = shuffle_lem i t w' (omega (arith, kept.same_length)) in
      (
        u,
        unfold rand_int swap_drawn in rw (ok, swapped, rest) refl,
        record {
          same_length = kept.same_length ∙ kept'.same_length;
          same_count = λ c. kept.same_count c ∙ kept'.same_count c;
        },
      )

  -- Shuffling returns a rearrangement of the runes.
  pub local_crypto_shuffle_lem :
      (s : Text) (w : W)
      → (t : Text) × ((local_crypto_shuffle random s w).0 ≡ value t) × IsRearranged s t
  unfolding local_crypto_shuffle
  local_crypto_shuffle_lem s w = shuffle_lem (length s - 1) s w (omega arith)
