-- ===== src/Generator/Password/Composition.antt =====
-- The password that generate returns, against its specification.
use secretgen_controller.Common.{
  ℕ, ◌+◌, ◌-◌, ◌^◌, ◌≤◌, ◌<◌, lt→ltb, Text, [], ◌∷◌, ◌++◌, ◌≡◌, ◌≢◌, refl, arith, All, length,
  length-append,
}
use secretgen_controller.Common.Go.{value}
use secretgen_controller.Generator.Random.{Random, IsRandom}
use secretgen_controller.Generator.Password.{
  PasswordSpec, built, lower_char_set, upper_char_set, digit_set, all_char_set, rounds, sub_int,
  remaining_length, encode_runes, append_random, unless_stopped, draw_all, shuffle_all, generate,
}
use secretgen_controller.Generator.Password.Drawing.{IsFrom, append_random_lem}
use secretgen_controller.Generator.Password.Shuffling.{IsRearranged, local_crypto_shuffle_lem}

-- So many characters, each of a set.
pub record IsDrawn (set : Text) (n : ℕ) (s : Text) : Type 0 where
  pub has_length : length s ≡ n
  pub all_from : All (IsFrom set) s

cons-ne : {c : ℕ} {s : Text} → c ∷ s ≢ []
cons-ne {c} {s} = λ e. ground arith

-- The runes are the characters of five groups, rearranged.
pub record IsPassword (spec : PasswordSpec) (runes : Text) : Type 0 where
  pub symbols : Text
  pub digits : Text
  pub uppers : Text
  pub lowers : Text
  pub others : Text
  pub symbols_drawn : IsDrawn spec.symbol_char_set (rounds spec.symbols) symbols
  pub digits_drawn : IsDrawn digit_set (rounds spec.digits) digits
  pub uppers_drawn : IsDrawn upper_char_set (rounds spec.uppercase_letters) uppers
  pub lowers_drawn : IsDrawn lower_char_set (rounds spec.lowercase_letters) lowers
  pub others_drawn : IsDrawn all_char_set (rounds (remaining_length spec)) others
  pub rearranged : IsRearranged ((((symbols ++ digits) ++ uppers) ++ lowers) ++ others) runes

module _ {W : Type 0} (random : Random W) (source : IsRandom random) where
  draw :
      (set : Text) (n : ℕ) (acc : Text) (w : W)
      → (n ≢ 0 → set ≢ [])
      → (cs : Text) × ((append_random random set n acc w).0 ≡ value (built (acc ++ cs)))
        × IsDrawn set n cs
  draw set n acc w h =
      let (cs, ok, len, all) = append_random_lem random source set n acc w h in
      (cs, ok, record { has_length = len; all_from = all })

  -- The text that the five loops write.
  draw_all_lem :
      (spec : PasswordSpec) (w : W)
      → (rounds spec.symbols ≢ 0 → spec.symbol_char_set ≢ [])
      → (s d u l o : Text) × ((draw_all random spec w).0
          ≡ value (built ((((s ++ d) ++ u) ++ l) ++ o)))
        × IsDrawn spec.symbol_char_set (rounds spec.symbols) s
        × IsDrawn digit_set (rounds spec.digits) d
        × IsDrawn upper_char_set (rounds spec.uppercase_letters) u
        × IsDrawn lower_char_set (rounds spec.lowercase_letters) l
        × IsDrawn all_char_set (rounds (remaining_length spec)) o
  unfolding draw_all unless_stopped
  draw_all_lem spec w h =
      let (s, ok, ds) = draw spec.symbol_char_set (rounds spec.symbols) [] w h in
      let w1 = (append_random random spec.symbol_char_set (rounds spec.symbols) [] w).1 in
      let (d, ok1, dd) = draw digit_set (rounds spec.digits) s w1 (λ _. cons-ne) in
      let w2 = (append_random random digit_set (rounds spec.digits) s w1).1 in
      let (u, ok2, du) =
        draw upper_char_set (rounds spec.uppercase_letters) (s ++ d) w2 (λ _. cons-ne) in
      let w3 =
        (append_random random upper_char_set (rounds spec.uppercase_letters) (s ++ d) w2).1 in
      let (l, ok3, dl) =
        draw lower_char_set (rounds spec.lowercase_letters) ((s ++ d) ++ u) w3 (λ _. cons-ne) in
      let w4 =
        (append_random random lower_char_set (rounds spec.lowercase_letters) ((s ++ d) ++ u)
          w3).1 in
      let (o, ok4, do_) =
        draw all_char_set (rounds (remaining_length spec)) (((s ++ d) ++ u) ++ l) w4
          (λ _. cons-ne) in
      (s, d, u, l, o, rw (ok, ok1, ok2, ok3, ok4) refl, ds, dd, du, dl, do_)

  pub generate_lem :
      (spec : PasswordSpec) (w : W)
      → (rounds spec.symbols ≢ 0 → spec.symbol_char_set ≢ [])
      → (runes : Text) × ((generate random spec w).0 ≡ value (built (encode_runes runes)))
        × IsPassword spec runes
  unfolding generate unless_stopped shuffle_all
  generate_lem spec w h =
      let (s, d, u, l, o, ok, ds, dd, du, dl, do_) = draw_all_lem spec w h in
      let (runes, shuffled, kept) =
        local_crypto_shuffle_lem random source ((((s ++ d) ++ u) ++ l) ++ o)
          (draw_all random spec w).1 in
      (
        runes,
        rw (ok, shuffled) refl,
        record {
          symbols = s;
          digits = d;
          uppers = u;
          lowers = l;
          others = o;
          symbols_drawn = ds;
          digits_drawn = dd;
          uppers_drawn = du;
          lowers_drawn = dl;
          others_drawn = do_;
          rearranged = kept;
        },
      )

sub_int_lem : (a b : ℕ) → b ≤ a → a < 2 ^ 63 → sub_int a b ≡ a - b
unfolding sub_int
sub_int_lem a b h k = omega (arith, h, k)

rounds_lem : (a : ℕ) → a < 2 ^ 63 → rounds a ≡ a
unfolding rounds
rounds_lem a h = rw (lt→ltb a (2 ^ 63) h) refl

-- A password has the length that is asked for, if that is an int that is not less than the counts
-- of symbols, digits and letters together.
pub IsPassword-length :
    (spec : PasswordSpec) (runes : Text)
    → IsPassword spec runes
    → spec.length < 2 ^ 63
    → spec.symbols + spec.digits + spec.uppercase_letters + spec.lowercase_letters ≤ spec.length
    → length runes ≡ spec.length
unfolding remaining_length
IsPassword-length spec runes p bound fits =
    let a = sub_int_lem spec.length spec.symbols (omega (arith, fits)) bound in
    let b =
      sub_int_lem (spec.length - spec.symbols) spec.digits (omega (arith, fits))
        (omega (arith, bound)) in
    let c =
      sub_int_lem (spec.length - spec.symbols - spec.digits) spec.uppercase_letters
        (omega (arith, fits)) (omega (arith, bound)) in
    let d =
      sub_int_lem (spec.length - spec.symbols - spec.digits - spec.uppercase_letters)
        spec.lowercase_letters (omega (arith, fits)) (omega (arith, bound)) in
    let remaining : remaining_length spec
        ≡ spec.length - spec.symbols - spec.digits - spec.uppercase_letters
          - spec.lowercase_letters =
      rw (a, b, c, d) refl in
    omega (
      arith,
      fits,
      bound,
      p.rearranged.same_length,
      length-append (((p.symbols ++ p.digits) ++ p.uppers) ++ p.lowers) p.others,
      length-append ((p.symbols ++ p.digits) ++ p.uppers) p.lowers,
      length-append (p.symbols ++ p.digits) p.uppers,
      length-append p.symbols p.digits,
      p.symbols_drawn.has_length,
      p.digits_drawn.has_length,
      p.uppers_drawn.has_length,
      p.lowers_drawn.has_length,
      p.others_drawn.has_length,
      rounds_lem spec.symbols (omega (arith, fits, bound)),
      rounds_lem spec.digits (omega (arith, fits, bound)),
      rounds_lem spec.uppercase_letters (omega (arith, fits, bound)),
      rounds_lem spec.lowercase_letters (omega (arith, fits, bound)),
      remaining,
      rounds_lem (remaining_length spec) (omega (arith, remaining, bound)),
    )
