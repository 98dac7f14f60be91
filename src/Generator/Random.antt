-- ===== src/Generator/Random.antt =====
-- crypto/rand.Int with rand.Reader, a parameter of the model. The source of random numbers is part of
-- the state that calls act on.
use secretgen_controller.Common.{ℕ, zero, suc, ◌<◌, ◌≡◌, codes}
use secretgen_controller.Common.Go.{Go, value, panicked}
use secretgen_controller.Api.Errors.{Error}

pub data Drawn : Type 0 where
  drawn : ℕ → Drawn
  no_entropy : Error → Drawn

-- A number below `max`, which is positive, or an error of the reader.
pub record Random (W : Type 0) : Type 0 where
  pub int_below : ℕ → W → Drawn × W

-- rand.Int(rand.Reader, big.NewInt(max)): it panics if max is not positive.
unfoldable pub rand_int : {W : Type 0} → Random W → ℕ → Go W Drawn
rand_int random zero w = (panicked (codes "crypto/rand: argument to Int is <= 0"), w)
rand_int random (suc n) w = let (d, w') = random.int_below (suc n) w in (value d, w')

-- What is documented of rand.Int with a reader that does not fail.
pub record IsRandom {W : Type 0} (random : Random W) : Type 0 where
  pub draws : (n : ℕ) (w : W) → (d : ℕ) × ((random.int_below (suc n) w).0 ≡ drawn d) × (d < suc n)
