-- ===== src/Validate/Int.antt =====
-- validate/validate_cpu_int.cpp, validate/int_expand6.cpp and validate/int_divexpand6.cpp.
use native.Mathlib.Nat.{div_self}
use r_bench_an_interference.Base.{
  ℕ, zero, suc, leb, map, ◌/◌, ◌==◌, ◌+◌, ◌*◌, ◌^◌, ◌<◌, ◌≤◌, ◌≡◌, refl, arith, Bool, true, false,
  Option, none, some, List, [], ◌∷◌,
}
use r_bench_an_interference.Base.Int.{
  ℤ, pos, negsuc, ◌+ℤ◌, neg_ℤ, leb_ℤ, eqb_ℤ, to_signed, to_unsigned,
}
use r_bench_an_interference.Validate.{Number, place, expand, expand_one}
use r_bench_an_interference.Validate.Laws.{Within, Exact, expand-ok, expand_one-ok}

-- `long long`, with the wrap-around of the machine.
abbrev pub wrap64 : ℤ → ℤ
wrap64 a = to_signed 64 (to_unsigned 64 a)

abbrev pub long_long : Number ℤ
long_long = record {
  of_int = λ a. a;
  add = λ a b. wrap64 (a +ℤ b);
  sub = λ a b. wrap64 (a +ℤ neg_ℤ b);
  leb = leb_ℤ;
  eqb = eqb_ℤ;
}

wrap64-Within : (a : ℤ) → Within (2 ^ 62) a → wrap64 a ≡ a
wrap64-Within (pos n) h = ground arith
wrap64-Within (negsuc n) h = ground arith

long_long-Exact : Exact long_long (2 ^ 62)
long_long-Exact = record {
  add_exact = λ a b h h' within. wrap64-Within (a +ℤ b) within;
  sub_exact = λ a b h h' within. wrap64-Within (a +ℤ neg_ℤ b) within;
  leb_exact = λ a b h h'. refl;
  eqb_exact = λ a b h h'. refl;
}

unfoldable pub expand1 : ℕ → Option Bool
unfolding expand_one
expand1 = expand_one long_long 10000000000 10000000001

unfoldable pub expand2 : ℕ → Option Bool
unfolding expand
expand2 = expand long_long 1 5000000000 10000000001

unfoldable pub expand3 : ℕ → Option Bool
unfolding expand
expand3 = expand long_long 2 3333333333 10000000000

unfoldable pub expand4 : ℕ → Option Bool
unfolding expand
expand4 = expand long_long 3 2500000000 10000000001

unfoldable pub expand5 : ℕ → Option Bool
unfolding expand
expand5 = expand long_long 4 2000000000 10000000001

unfoldable pub expand6 : ℕ → Option Bool
unfolding expand
expand6 = expand long_long 5 1666666667 10000000003

unfoldable pub expand7 : ℕ → Option Bool
unfolding expand
expand7 = expand long_long 6 1428571428 9999999997

unfoldable pub expand8 : ℕ → Option Bool
unfolding expand
expand8 = expand long_long 7 1250000000 10000000001

-- One turn of the loop in `main`: what the eight functions print.
unfoldable pub validate_cpu_int : ℕ → List (Option Bool)
unfolding expand1 expand2 expand3 expand4 expand5 expand6 expand7 expand8
validate_cpu_int fuel =
    expand1 fuel
    ∷ expand2 fuel
    ∷ expand3 fuel
    ∷ expand4 fuel
    ∷ expand5 fuel
    ∷ expand6 fuel
    ∷ expand7 fuel
    ∷ expand8 fuel
    ∷ []

-- `expand6` of int_expand6.cpp
unfoldable pub int_expand6 : ℕ → Option Bool
unfolding expand
int_expand6 = expand long_long 5 1666666667 10000000003

-- The loop of int_divexpand6.cpp, whose variables stay above 0.
unfoldable pub divide_loop : ℕ → ℕ → List ℕ → ℕ → Option (List ℕ × ℕ)
divide_loop limit zero xs w = none
divide_loop limit (suc fuel) xs w = elim (leb w limit) [
  | false ↦ some (xs, w)
  | true ↦ divide_loop limit fuel (map (λ x. x / x) xs) (w + w / w)
]

abbrev sum_ℕ : List ℕ → ℕ
sum_ℕ [] = 0
sum_ℕ (x ∷ xs) = x + sum_ℕ xs

-- `cal` of int_divexpand6.cpp, and whether it is the expected 166666668.
unfoldable pub int_divexpand6 : ℕ → Option (ℕ × Bool)
unfolding divide_loop
int_divexpand6 fuel = elim (divide_loop 166666667 fuel (1 ∷ 1 ∷ 1 ∷ 1 ∷ 1 ∷ []) 1) [
  | none ↦ none
  | some (xs, w) ↦ some (sum_ℕ (place 3 w xs), sum_ℕ (place 3 w xs) == 166666668)
]

divide_loop-ends :
    (limit d w fuel : ℕ)
    → w + d ≡ limit + 1
    → 1 ≤ w
    → d < fuel
    → divide_loop limit fuel (1 ∷ 1 ∷ 1 ∷ 1 ∷ 1 ∷ []) w ≡ some (1 ∷ 1 ∷ 1 ∷ 1 ∷ 1 ∷ [], limit + 1)
unfolding divide_loop
divide_loop-ends limit d w zero e positive enough = absurd (omega arith)
divide_loop-ends limit zero w (suc fuel) e positive enough =
    let out : leb w limit ≡ false = ground arith in
    let last : w ≡ limit + 1 = omega arith in rw (divide_loop, out, last) refl
divide_loop-ends limit (suc d) w (suc fuel) e positive enough =
    let run : leb w limit ≡ true = ground arith in
    rw (divide_loop, run, div_self positive)
      (divide_loop-ends limit d (w + 1) fuel (omega arith) (omega arith) (omega arith))

pub int_divexpand6-sum :
    (fuel : ℕ) → 166666667 < fuel → int_divexpand6 fuel ≡ some (166666673, false)
unfolding int_divexpand6
int_divexpand6-sum fuel enough =
    rw (int_divexpand6, divide_loop-ends 166666667 166666667 1 fuel refl (omega arith) enough) refl

-- With the fuel for the longest loop, all eight functions of validate_cpu_int.cpp end and find the
-- sum that they expect, in 64-bit integers that wrap.
pub validate_cpu_int-ok :
    (fuel : ℕ)
    → 5000000000 < fuel
    → validate_cpu_int fuel
      ≡ some true
        ∷ some true
        ∷ some true
        ∷ some true
        ∷ some true
        ∷ some true
        ∷ some true
        ∷ some true
        ∷ []
unfolding validate_cpu_int expand1 expand2 expand3 expand4 expand5 expand6 expand7 expand8
validate_cpu_int-ok fuel enough =
    rw
      (
        expand_one-ok long_long (2 ^ 62) long_long-Exact 5000000000 10000000000 fuel refl
            (omega arith) enough,
        ok 1 5000000000 10000000001 refl (omega arith) (omega arith) (omega arith),
        ok 2 3333333333 10000000000 refl (omega arith) (omega arith) (omega arith),
        ok 3 2500000000 10000000001 refl (omega arith) (omega arith) (omega arith),
        ok 4 2000000000 10000000001 refl (omega arith) (omega arith) (omega arith),
        ok 5 1666666667 10000000003 refl (omega arith) (omega arith) (omega arith),
        ok 6 1428571428 9999999997 refl (omega arith) (omega arith) (omega arith),
        ok 7 1250000000 10000000001 refl (omega arith) (omega arith) (omega arith),
      )
      refl
  where
    ok :
        (others limit ans : ℕ)
        → (others + 1) * limit + 1 ≡ ans
        → 1 ≤ limit
        → limit ≤ 5000000000
        → ans ≤ 10000000003
        → expand long_long others limit ans fuel ≡ some true
    ok others limit ans e positive below small =
        expand-ok long_long (2 ^ 62) long_long-Exact others limit ans fuel positive e (omega arith)
          (omega arith)
