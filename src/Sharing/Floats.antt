-- ===== src/Sharing/Floats.antt =====
-- float64 weights. Go's float64 and strconv.ParseFloat are parameters of the model, with the laws of
-- IEEE 754 comparisons: a NaN is neither less nor greater than anything.
use secretgen_controller.Common.{Text, ◌≡◌, Bool, true, false, ◌⊎◌, Option}

pub record Float64 (F : Type 0) : Type 0 where
  pub less : F → F → Bool
  pub is_nan : F → Bool
  pub zero : F
  -- strconv.ParseFloat(val, 64), `none` where it returns an error.
  pub parse : Text → Option F

pub record IsFloat64 {F : Type 0} (float : Float64 F) : Type 0 where
  pub asym : (a b : F) → float.less a b ≡ true → float.less b a ≡ false
  pub cotrans :
      (a b c : F)
      → float.is_nan b ≡ false
      → float.less a c ≡ true
      → (float.less a b ≡ true) ⊎ (float.less b c ≡ true)
  pub nan_left : (a b : F) → float.is_nan a ≡ true → float.less a b ≡ false
  pub nan_right : (a b : F) → float.is_nan b ≡ true → float.less a b ≡ false
  pub zero_number : float.is_nan float.zero ≡ false
