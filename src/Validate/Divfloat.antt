-- ===== src/Validate/Divfloat.antt =====
-- validate/validate_cpu_divfloat.cpp and validate/float_divexpand6.cpp. The doubles with their
-- quotients are a parameter.
pub mod Laws
use r_bench_an_interference.Base.{
  ℕ, zero, suc, Bool, true, false, Option, none, some, List, [], ◌∷◌, map,
}
use r_bench_an_interference.Base.Int.{pos}
use r_bench_an_interference.Validate.{Number, ones, is_ans}

module _ {D : Type 0} (num : Number D) (div : D → D → D) where
  -- `for( ; w <= limit ; )`: the variables beside `w` in the order of their lines, `x /= ( w / x )`,
  -- and then `w += ( w / w )`.
  unfoldable pub quotient_loop : D → ℕ → List D → D → Option (List D × D)
  quotient_loop limit zero xs w = none
  quotient_loop limit (suc fuel) xs w = elim (num.leb w limit) [
    | false ↦ some (xs, w)
    | true ↦ quotient_loop limit fuel (map (λ x. div x (div w x)) xs) (num.add w (div w w))
  ]

  -- Whether the program prints `OK`.
  unfoldable pub quotient_expand : ℕ → ℕ → ℕ → ℕ → Option Bool
  unfolding quotient_loop
  quotient_expand others limit ans fuel =
      is_ans num ans
        (quotient_loop (num.of_int (pos limit)) fuel (ones num others) (num.of_int (pos 1)))

  -- `for( ; x <= limit ; x ++ ) x += ( x / x )`
  unfoldable pub quotient_steps : D → ℕ → D → Option D
  quotient_steps limit zero x = none
  quotient_steps limit (suc fuel) x = elim (num.leb x limit) [
    | false ↦ some x
    | true ↦ quotient_steps limit fuel (num.add (num.add x (div x x)) (num.of_int (pos 1)))
  ]

  unfoldable pub quotient_expand_one : ℕ → ℕ → ℕ → Option Bool
  unfolding quotient_steps
  quotient_expand_one limit ans fuel =
      elim (quotient_steps (num.of_int (pos limit)) fuel (num.of_int (pos 1))) [
        | none ↦ none
        | some x ↦ some (num.eqb x (num.of_int (pos ans)))
      ]

  unfoldable pub expand1 : ℕ → Option Bool
  unfolding quotient_expand_one
  expand1 = quotient_expand_one 1000000000 1000000001

  unfoldable pub expand2 : ℕ → Option Bool
  unfolding quotient_expand
  expand2 = quotient_expand 1 500000000 500000001

  unfoldable pub expand3 : ℕ → Option Bool
  unfolding quotient_expand
  expand3 = quotient_expand 2 333333333 333333334

  unfoldable pub expand4 : ℕ → Option Bool
  unfolding quotient_expand
  expand4 = quotient_expand 3 250000000 250000001

  unfoldable pub expand5 : ℕ → Option Bool
  unfolding quotient_expand
  expand5 = quotient_expand 4 200000000 200000001

  unfoldable pub expand6 : ℕ → Option Bool
  unfolding quotient_expand
  expand6 = quotient_expand 5 166666667 166666668

  unfoldable pub expand7 : ℕ → Option Bool
  unfolding quotient_expand
  expand7 = quotient_expand 6 142857142 142857143

  unfoldable pub expand8 : ℕ → Option Bool
  unfolding quotient_expand
  expand8 = quotient_expand 7 125000000 125000001

  -- One turn of the loop in `main`: what the eight functions print.
  unfoldable pub validate_cpu_divfloat : ℕ → List (Option Bool)
  unfolding expand1 expand2 expand3 expand4 expand5 expand6 expand7 expand8
  validate_cpu_divfloat fuel =
      expand1 fuel
      ∷ expand2 fuel
      ∷ expand3 fuel
      ∷ expand4 fuel
      ∷ expand5 fuel
      ∷ expand6 fuel
      ∷ expand7 fuel
      ∷ expand8 fuel
      ∷ []

  -- `expand6` of float_divexpand6.cpp
  unfoldable pub float_divexpand6 : ℕ → Option Bool
  unfolding quotient_expand
  float_divexpand6 = quotient_expand 5 166666667 166666668
