-- ===== src/Validate/Float.antt =====
-- validate/validate_cpu_float.cpp and validate/float_expand6.cpp. The doubles are a parameter, with
-- the law that whole numbers below a bound, which is 2^53 for them, are exact.
use r_bench_an_interference.Base.{
  ℕ, ◌+◌, ◌*◌, ◌<◌, ◌≤◌, ◌≡◌, refl, arith, Bool, true, Option, some, List, [], ◌∷◌,
}
use r_bench_an_interference.Validate.{Number, expand, expand_one}
use r_bench_an_interference.Validate.Laws.{Exact, expand-ok, expand_one-ok}

module _ {D : Type 0} (num : Number D) where
  unfoldable pub expand1 : ℕ → Option Bool
  unfolding expand_one
  expand1 = expand_one num 10000000000 10000000001

  unfoldable pub expand2 : ℕ → Option Bool
  unfolding expand
  expand2 = expand num 1 5000000000 10000000001

  unfoldable pub expand3 : ℕ → Option Bool
  unfolding expand
  expand3 = expand num 2 3333333333 10000000000

  unfoldable pub expand4 : ℕ → Option Bool
  unfolding expand
  expand4 = expand num 3 2500000000 10000000001

  unfoldable pub expand5 : ℕ → Option Bool
  unfolding expand
  expand5 = expand num 4 2000000000 10000000001

  unfoldable pub expand6 : ℕ → Option Bool
  unfolding expand
  expand6 = expand num 5 1666666667 10000000003

  unfoldable pub expand7 : ℕ → Option Bool
  unfolding expand
  expand7 = expand num 6 1428571428 9999999997

  unfoldable pub expand8 : ℕ → Option Bool
  unfolding expand
  expand8 = expand num 7 1250000000 10000000001

  -- One turn of the loop in `main`: what the eight functions print.
  unfoldable pub validate_cpu_float : ℕ → List (Option Bool)
  unfolding expand1 expand2 expand3 expand4 expand5 expand6 expand7 expand8
  validate_cpu_float fuel =
      expand1 fuel
      ∷ expand2 fuel
      ∷ expand3 fuel
      ∷ expand4 fuel
      ∷ expand5 fuel
      ∷ expand6 fuel
      ∷ expand7 fuel
      ∷ expand8 fuel
      ∷ []

  -- `expand6` of float_expand6.cpp
  unfoldable pub float_expand6 : ℕ → Option Bool
  unfolding expand
  float_expand6 = expand num 5 1666666667 10000000003

  -- Where whole numbers up to 10000000003 are exact, as they are in doubles, and with the fuel for
  -- the longest loop, all eight functions of validate_cpu_float.cpp end and find the sum that they
  -- expect.
  validate_cpu_float-ok :
      (bound fuel : ℕ)
      → Exact num bound
      → 10000000003 ≤ bound
      → 5000000000 < fuel
      → validate_cpu_float fuel
        ≡ some true
          ∷ some true
          ∷ some true
          ∷ some true
          ∷ some true
          ∷ some true
          ∷ some true
          ∷ some true
          ∷ []
  unfolding validate_cpu_float expand1 expand2 expand3 expand4 expand5 expand6 expand7 expand8
  validate_cpu_float-ok bound fuel exact room enough =
      rw
        (
          expand_one-ok num bound exact 5000000000 10000000000 fuel refl (omega arith) enough,
          ok 1 5000000000 10000000001 refl (omega arith) (omega arith) (omega arith),
          ok 2 3333333333 10000000000 refl (omega arith) (omega arith) (omega arith),
          ok 3 2500000000 10000000001 refl (omega arith) (omega arith) (omega arith),
          ok 4 2000000000 10000000001 refl (omega arith) (omega arith) (omega arith),
          ok 5 1666666667 10000000003 refl (omega arith) (omega arith) (omega arith),
          ok 6 1428571428 9999999997 refl (omega arith) (omega arith) (omega arith),
          ok 7 1250000000 10000000001 refl (omega arith) (omega arith) (omega arith),
        )
        refl
    where
      ok :
          (others limit ans : ℕ)
          → (others + 1) * limit + 1 ≡ ans
          → 1 ≤ limit
          → limit ≤ 5000000000
          → ans ≤ 10000000003
          → expand num others limit ans fuel ≡ some true
      ok others limit ans e positive below small =
          expand-ok num bound exact others limit ans fuel positive e (omega arith) (omega arith)
