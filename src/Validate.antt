-- ===== src/Validate.antt =====
-- validate/: the programs that check the instructions by a sum known beforehand, and the random
-- accesses of the cache programs.
pub mod Laws
pub mod Int
pub mod Float
pub mod Divfloat
pub mod Access
use r_bench_an_interference.Base.{
  ℕ, zero, suc, Bool, true, false, Option, none, some, List, [], ◌∷◌, map,
}
use r_bench_an_interference.Base.Int.{ℤ, pos}

-- A type of numbers as the programs use it.
pub record Number (N : Type 0) : Type 0 where
  pub of_int : ℤ → N
  pub add : N → N → N
  pub sub : N → N → N
  pub leb : N → N → Bool
  pub eqb : N → N → Bool

-- `w` stands behind the third of the other variables in the sums, or last.
abbrev pub place : {N : Type 0} → ℕ → N → List N → List N
place zero w xs = w ∷ xs
place (suc n) w [] = w ∷ []
place (suc n) w (x ∷ xs) = x ∷ place n w xs

module _ {N : Type 0} (num : Number N) where
  -- `for( ; w <= limit ; )`, with the variables beside `w` in the order of their lines.
  unfoldable pub expand_loop : N → ℕ → List N → N → Option (List N × N)
  expand_loop limit zero xs w = none
  expand_loop limit (suc fuel) xs w = elim (num.leb w limit) [
    | false ↦ some (xs, w)
    | true ↦
        expand_loop limit fuel (map (λ x. num.sub x (num.sub x w)) xs)
          (num.add w (num.of_int (pos 1)))
  ]

  unfoldable pub sum_from : N → List N → N
  sum_from acc [] = acc
  sum_from acc (x ∷ xs) = sum_from (num.add acc x) xs

  -- `x + y + z + w + a + b + c + d`
  unfoldable pub sum : List N → N
  unfolding sum_from
  sum [] = num.of_int (pos 0)
  sum (x ∷ xs) = sum_from x xs

  -- So many variables beside `w`, each of them 1.
  abbrev pub ones : ℕ → List N
  ones zero = []
  ones (suc n) = num.of_int (pos 1) ∷ ones n

  -- `cal == ans`, after a loop that ends.
  abbrev pub is_ans : ℕ → Option (List N × N) → Option Bool
  is_ans ans none = none
  is_ans ans (some (xs, w)) = some (num.eqb (sum (place 3 w xs)) (num.of_int (pos ans)))

  -- Whether the program prints `OK`.
  unfoldable pub expand : ℕ → ℕ → ℕ → ℕ → Option Bool
  unfolding expand_loop sum
  expand others limit ans fuel =
      is_ans ans (expand_loop (num.of_int (pos limit)) fuel (ones others) (num.of_int (pos 1)))

  -- `for( ; x <= limit ; x ++ ) x = x + 1`
  unfoldable pub step_by_two : N → ℕ → N → Option N
  step_by_two limit zero x = none
  step_by_two limit (suc fuel) x = elim (num.leb x limit) [
    | false ↦ some x
    | true ↦ step_by_two limit fuel (num.add (num.add x (num.of_int (pos 1))) (num.of_int (pos 1)))
  ]

  unfoldable pub expand_one : ℕ → ℕ → ℕ → Option Bool
  unfolding step_by_two
  expand_one limit ans fuel =
      elim (step_by_two (num.of_int (pos limit)) fuel (num.of_int (pos 1))) [
        | none ↦ none
        | some x ↦ some (num.eqb x (num.of_int (pos ans)))
      ]
