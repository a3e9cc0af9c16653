-- ===== src/Validate/Divfloat/Laws.antt =====
-- validate/validate_cpu_divfloat.cpp: why its sums come out. `x = x * x / w` falls below every double.
use r_bench_an_interference.Base.{
  ℕ, zero, suc, ◌+◌, ◌-◌, ◌*◌, ◌≤◌, ◌<◌, ◌≡◌, refl, arith, ap, ap₂, ◌∙◌, true, false, some, List,
  [], ◌∷◌, map,
}
use r_bench_an_interference.Base.Int.{pos}
use r_bench_an_interference.Validate.{Number, place, ones, is_ans, sum}
use r_bench_an_interference.Validate.Laws.{
  Exact, add-whole, leb-whole, sum-whole, copies, total, total-copies, total-place, place-map,
  whole, eqb-whole,
}
use r_bench_an_interference.Validate.Divfloat.{
  quotient_loop, quotient_expand, quotient_steps, quotient_expand_one, expand1, expand2, expand3,
  expand4, expand5, expand6, expand7, expand8, validate_cpu_divfloat,
}

-- What IEEE 754 says of quotients, which are rounded monotonically: `AtMost k x` for 0 ≤ x ≤ 2^-k,
-- `AtLeast k x` for 2^k ≤ x, infinity included. The least double is 2^-1074, and half of it rounds
-- to 0.
pub record Quotients {D : Type 0} (num : Number D) (bound : ℕ) (div : D → D → D) : Type 1 where
  pub AtMost : ℕ → D → Type 0
  pub AtLeast : ℕ → D → Type 0
  pub one_at_most : AtMost 0 (num.of_int (pos 1))
  pub div_at_least :
      (k n : ℕ) (x : D)
      → AtMost k x
      → 2 ≤ n
      → n ≤ bound
      → AtLeast (suc k) (div (num.of_int (pos n)) x)
  pub div_at_most : (k m : ℕ) (x y : D) → AtMost k x → AtLeast m y → AtMost (k + m) (div x y)
  pub underflow : (k : ℕ) (x : D) → 1075 ≤ k → AtMost k x → x ≡ num.of_int (pos 0)
  pub div_self :
      (n : ℕ)
      → 1 ≤ n
      → n ≤ bound
      → div (num.of_int (pos n)) (num.of_int (pos n)) ≡ num.of_int (pos 1)

module _ {D : Type 0} (num : Number D) (div : D → D → D) (bound : ℕ) (exact : Exact num bound)
    (q : Quotients num bound div) where
  open q use {AtMost, AtLeast, one_at_most, div_at_least, div_at_most, underflow, div_self}

  abbrev times : ℕ → D → List D
  times zero x = []
  times (suc n) x = x ∷ times n x

  ones-times : (n : ℕ) → ones num n ≡ times n (num.of_int (pos 1))
  ones-times zero = refl
  ones-times (suc n) = ap (λ xs. num.of_int (pos 1) ∷ xs) (ones-times n)

  map-times : (f : D → D) (n : ℕ) (x : D) → map f (times n x) ≡ times n (f x)
  map-times f zero x = refl
  map-times f (suc n) x = ap (λ xs. f x ∷ xs) (map-times f n x)

  times-whole :
      (n a : ℕ)
      → times n (num.of_int (pos a)) ≡ map (whole num bound exact) (copies num bound exact n a)
  times-whole zero a = refl
  times-whole (suc n) a = ap (λ xs. num.of_int (pos a) ∷ xs) (times-whole n a)

  -- After the turn with `w = v + 1` the other variables are at most 2^-v.
  abbrev Fallen : ℕ → D → Type 0
  Fallen v x = (k : ℕ) × AtMost k x × (v ≤ k)

  turn :
      (v : ℕ) (x : D)
      → Fallen v x
      → v + 2 ≤ bound
      → Fallen (suc v) (div x (div (num.of_int (pos (v + 2))) x))
  turn v x (k, small, h) room = (
    k + suc k,
    div_at_most k (suc k) x (div (num.of_int (pos (v + 2))) x) small
        (div_at_least k (v + 2) x small (omega arith) room),
    omega arith,
  )

  quotient_turns :
      (n limit d v fuel : ℕ) (x : D)
      → v + 1 + d ≡ limit
      → limit + 1 ≤ bound
      → d < fuel
      → Fallen v x
      → 1076 ≤ limit
      → quotient_loop num div (num.of_int (pos limit)) fuel (times n x) (num.of_int (pos (v + 2)))
        ≡ some (times n (num.of_int (pos 0)), num.of_int (pos (limit + 1)))
  unfolding quotient_loop
  quotient_turns n limit d v zero x e room enough fallen many = absurd (omega arith)
  quotient_turns n limit zero v (suc fuel) x e room enough (k, small, h) many =
      let out : num.leb (num.of_int (pos (v + 2))) (num.of_int (pos limit)) ≡ false =
        leb-whole num bound exact (v + 2) limit (omega arith) (omega arith) ∙ ground arith in
      let nothing : x ≡ num.of_int (pos 0) = underflow k x (omega arith) small in
      let same : v + 2 ≡ limit + 1 = omega arith in
      rw (quotient_loop, out) (ap₂ (λ y (t : ℕ). some (times n y, num.of_int (pos t))) nothing same)
  quotient_turns n limit (suc d) v (suc fuel) x e room enough fallen many =
      let run : num.leb (num.of_int (pos (v + 2))) (num.of_int (pos limit)) ≡ true =
        leb-whole num bound exact (v + 2) limit (omega arith) (omega arith) ∙ ground arith in
      rw
        (
          quotient_loop,
          run,
          map-times (λ y. div y (div (num.of_int (pos (v + 2))) y)) n x,
          div_self (v + 2) (omega arith) (omega arith),
          add-whole num bound exact (v + 2) 1 (suc v + 2) (omega arith) (omega arith),
        )
        (quotient_turns n limit d (suc v) fuel (div x (div (num.of_int (pos (v + 2))) x))
          (omega arith) room (omega arith) (turn v x fallen (omega arith)) many)

  quotient_loop-ends :
      (n limit fuel : ℕ)
      → 1076 ≤ limit
      → limit + 1 ≤ bound
      → limit < fuel
      → quotient_loop num div (num.of_int (pos limit)) fuel (ones num n) (num.of_int (pos 1))
        ≡ some (times n (num.of_int (pos 0)), num.of_int (pos (limit + 1)))
  unfolding quotient_loop
  quotient_loop-ends n limit zero many room enough = absurd (omega arith)
  quotient_loop-ends n limit (suc fuel) many room enough =
      let run : num.leb (num.of_int (pos 1)) (num.of_int (pos limit)) ≡ true =
        leb-whole num bound exact 1 limit (omega arith) (omega arith) ∙ ground arith in
      let unit = div_self 1 (omega arith) (omega arith) in
      rw
        (
          quotient_loop,
          run,
          ones-times n,
          map-times (λ y. div y (div (num.of_int (pos 1)) y)) n (num.of_int (pos 1)),
          unit,
          unit,
          add-whole num bound exact 1 1 2 (omega arith) (omega arith),
        )
        (quotient_turns n limit (limit - 1) 0 fuel (num.of_int (pos 1)) (omega arith) room
          (omega arith) (0, one_at_most, omega arith) many)

  quotient_expand-ok :
      (others limit fuel : ℕ)
      → 1076 ≤ limit
      → limit + 1 ≤ bound
      → limit < fuel
      → quotient_expand num div others limit (limit + 1) fuel ≡ some true
  unfolding quotient_expand
  quotient_expand-ok others limit fuel many room enough =
      ap (is_ans num (limit + 1)) (
        quotient_loop-ends others limit fuel many room enough
        ∙ ap (λ xs. some (xs, num.of_int (pos (limit + 1)))) (times-whole others 0))
      ∙ ap (λ xs. some (num.eqb (sum num xs) (num.of_int (pos (limit + 1)))))
          (place-map num bound exact 3 (limit + 1) (copies num bound exact others 0))
      ∙ ap (λ x. some (num.eqb x (num.of_int (pos (limit + 1)))))
          (sum-whole num bound exact (place 3 (limit + 1) (copies num bound exact others 0))
              (omega (arith, sums))
            ∙ ap (whole num bound exact) sums)
      ∙ ap some (eqb-whole num bound exact (limit + 1) room)
    where
      sums :
          total num bound exact (place 3 (limit + 1) (copies num bound exact others 0)) ≡ limit + 1
      sums = omega (
        arith,
        total-place num bound exact 3 (limit + 1) (copies num bound exact others 0),
        total-copies num bound exact others 0,
      )

  steps_of_two :
      (limit d v fuel : ℕ)
      → v + 2 * d ≡ limit + 1
      → 1 ≤ v
      → limit + 1 ≤ bound
      → d < fuel
      → quotient_steps num div (num.of_int (pos limit)) fuel (num.of_int (pos v))
        ≡ some (num.of_int (pos (limit + 1)))
  unfolding quotient_steps
  steps_of_two limit d v zero e positive h enough = absurd (omega arith)
  steps_of_two limit zero v (suc fuel) e positive h enough =
      let out : num.leb (num.of_int (pos v)) (num.of_int (pos limit)) ≡ false =
        leb-whole num bound exact v limit (omega arith) (omega arith) ∙ ground arith in
      let last : v ≡ limit + 1 = omega arith in rw (quotient_steps, out, last) refl
  steps_of_two limit (suc d) v (suc fuel) e positive h enough =
      let run : num.leb (num.of_int (pos v)) (num.of_int (pos limit)) ≡ true =
        leb-whole num bound exact v limit (omega arith) (omega arith) ∙ ground arith in
      rw
        (
          quotient_steps,
          run,
          div_self v positive (omega arith),
          add-whole num bound exact v 1 (v + 1) refl (omega arith),
          add-whole num bound exact (v + 1) 1 (v + 2) (omega arith) (omega arith),
        )
        (steps_of_two limit d (v + 2) fuel (omega arith) (omega arith) h (omega arith))

  quotient_expand_one-ok :
      (half limit fuel : ℕ)
      → limit ≡ 2 * half
      → limit + 1 ≤ bound
      → half < fuel
      → quotient_expand_one num div limit (limit + 1) fuel ≡ some true
  unfolding quotient_expand_one
  quotient_expand_one-ok half limit fuel e room enough =
      rw
        (
          quotient_expand_one,
          steps_of_two limit half 1 fuel (omega arith) (omega arith) room enough,
        )
        (ap some (eqb-whole num bound exact (limit + 1) room))

  -- Where whole numbers up to 1000000001 are exact and quotients are rounded as IEEE 754 says, and
  -- with the fuel for the longest loop, all eight functions of validate_cpu_divfloat.cpp end and find
  -- the sum that they expect.
  pub validate_cpu_divfloat-ok :
      (fuel : ℕ)
      → 1000000001 ≤ bound
      → 500000000 < fuel
      → validate_cpu_divfloat num div fuel
        ≡ some true
          ∷ some true
          ∷ some true
          ∷ some true
          ∷ some true
          ∷ some true
          ∷ some true
          ∷ some true
          ∷ []
  unfolding validate_cpu_divfloat expand1 expand2 expand3 expand4 expand5 expand6 expand7 expand8
  validate_cpu_divfloat-ok fuel room enough =
      rw
        (
          quotient_expand_one-ok 500000000 1000000000 fuel refl room enough,
          ok 1 500000000 (omega arith) (omega arith),
          ok 2 333333333 (omega arith) (omega arith),
          ok 3 250000000 (omega arith) (omega arith),
          ok 4 200000000 (omega arith) (omega arith),
          ok 5 166666667 (omega arith) (omega arith),
          ok 6 142857142 (omega arith) (omega arith),
          ok 7 125000000 (omega arith) (omega arith),
        )
        refl
    where
      ok :
          (others limit : ℕ)
          → 1076 ≤ limit
          → limit ≤ 500000000
          → quotient_expand num div others limit (limit + 1) fuel ≡ some true
      ok others limit many below =
          quotient_expand-ok others limit fuel many (omega arith) (omega arith)
