-- ===== src/Validate/Laws.antt =====
-- validate/: when the sums come out as the programs expect.
use native.Mathlib.Nat.{suc-mul}
use r_bench_an_interference.Base.{
  ℕ, zero, suc, ◌+◌, ◌-◌, ◌*◌, ◌≤◌, ◌<◌, ◌≡◌, refl, arith, ap, ap₂, ◌∙◌, true, false, some, List,
  [], ◌∷◌, map,
}
use r_bench_an_interference.Base.Int.{ℤ, pos, pos_part, neg_part, ◌+ℤ◌, neg_ℤ, leb_ℤ, eqb_ℤ}
use r_bench_an_interference.Validate.{
  Number, place, expand_loop, sum_from, sum, ones, is_ans, expand, step_by_two, expand_one,
}

abbrev pub Within : ℕ → ℤ → Type 0
Within bound a = (pos_part a ≤ bound) × (neg_part a ≤ bound)

-- Sums, differences and comparisons of whole numbers are exact while they stay within the bound.
pub record Exact {N : Type 0} (num : Number N) (bound : ℕ) : Type 0 where
  pub add_exact :
      (a b : ℤ)
      → Within bound a
      → Within bound b
      → Within bound (a +ℤ b)
      → num.add (num.of_int a) (num.of_int b) ≡ num.of_int (a +ℤ b)
  pub sub_exact :
      (a b : ℤ)
      → Within bound a
      → Within bound b
      → Within bound (a +ℤ neg_ℤ b)
      → num.sub (num.of_int a) (num.of_int b) ≡ num.of_int (a +ℤ neg_ℤ b)
  pub leb_exact :
      (a b : ℤ)
      → Within bound a
      → Within bound b
      → num.leb (num.of_int a) (num.of_int b) ≡ leb_ℤ a b
  pub eqb_exact :
      (a b : ℤ)
      → Within bound a
      → Within bound b
      → num.eqb (num.of_int a) (num.of_int b) ≡ eqb_ℤ a b

module _ {N : Type 0} (num : Number N) (bound : ℕ) (exact : Exact num bound) where
  abbrev pub whole : ℕ → N
  whole n = num.of_int (pos n)

  pub add-whole : (a b c : ℕ) → a + b ≡ c → c ≤ bound → num.add (whole a) (whole b) ≡ whole c
  unfolding ◌+ℤ◌
  add-whole a b c e h =
      exact.add_exact (pos a) (pos b) (omega arith, omega arith) (omega arith, omega arith)
        (ground arith, ground arith)
      ∙ ap num.of_int (let e' : pos a +ℤ pos b ≡ pos c = ground arith in e')

  sub-whole :
      (a b : ℕ) → a ≤ bound → b ≤ bound → num.sub (whole a) (num.sub (whole a) (whole b)) ≡ whole b
  unfolding ◌+ℤ◌
  sub-whole a b h h' =
      ap (num.sub (whole a)) (
        exact.sub_exact (pos a) (pos b) (h, omega arith) (h', omega arith)
          (ground arith, ground arith))
      ∙ exact.sub_exact (pos a) (pos a +ℤ neg_ℤ (pos b)) (h, omega arith)
          (ground arith, ground arith) (ground arith, ground arith)
      ∙ ap num.of_int (let e : pos a +ℤ neg_ℤ (pos a +ℤ neg_ℤ (pos b)) ≡ pos b = ground arith in e)

  -- So many times the same number, and the sum of a list.
  abbrev pub copies : ℕ → ℕ → List ℕ
  copies zero a = []
  copies (suc n) a = a ∷ copies n a

  abbrev pub total : List ℕ → ℕ
  total [] = 0
  total (k ∷ ks) = k + total ks

  ones_lem : (n : ℕ) → ones num n ≡ map whole (copies n 1)
  ones_lem zero = refl
  ones_lem (suc n) = ap (λ xs. whole 1 ∷ xs) (ones_lem n)

  pub total-copies : (n a : ℕ) → total (copies n a) ≡ n * a
  total-copies zero a = omega arith
  total-copies (suc n) a = omega (arith, total-copies n a, suc-mul n a)

  pub total-place : (n w : ℕ) (ks : List ℕ) → total (place n w ks) ≡ w + total ks
  total-place zero w ks = refl
  total-place (suc n) w [] = refl
  total-place (suc n) w (k ∷ ks) = omega (arith, total-place n w ks)

  pub place-map :
      (n w : ℕ) (ks : List ℕ) → place n (whole w) (map whole ks) ≡ map whole (place n w ks)
  place-map zero w ks = refl
  place-map (suc n) w [] = refl
  place-map (suc n) w (k ∷ ks) = ap (λ xs. whole k ∷ xs) (place-map n w ks)

  sum_from-whole :
      (acc : ℕ) (ks : List ℕ)
      → acc + total ks ≤ bound
      → sum_from num (whole acc) (map whole ks) ≡ whole (acc + total ks)
  unfolding sum_from
  sum_from-whole acc [] h = ap whole (omega arith)
  sum_from-whole acc (k ∷ ks) h =
      ap (λ x. sum_from num x (map whole ks)) (add-whole acc k (acc + k) refl (omega arith))
      ∙ sum_from-whole (acc + k) ks (omega arith)
      ∙ ap whole (omega arith)

  pub sum-whole : (ks : List ℕ) → total ks ≤ bound → sum num (map whole ks) ≡ whole (total ks)
  unfolding sum
  sum-whole [] h = refl
  sum-whole (k ∷ ks) h = sum_from-whole k ks h

  -- One iteration brings every other variable to `w`.
  to_w :
      (n a w : ℕ)
      → a ≤ bound
      → w ≤ bound
      → map (λ x. num.sub x (num.sub x (whole w))) (map whole (copies n a)) ≡ map whole (copies n w)
  to_w zero a w h h' = refl
  to_w (suc n) a w h h' = ap₂ (λ x xs. x ∷ xs) (sub-whole a w h h') (to_w n a w h h')

  pub leb-whole :
      (a b : ℕ) → a ≤ bound → b ≤ bound → num.leb (whole a) (whole b) ≡ leb_ℤ (pos a) (pos b)
  leb-whole a b h h' = exact.leb_exact (pos a) (pos b) (h, omega arith) (h', omega arith)

  iterations :
      (n limit d v fuel : ℕ)
      → v + d ≡ limit
      → limit + 1 ≤ bound
      → d < fuel
      → expand_loop num (whole limit) fuel (map whole (copies n v)) (whole (v + 1))
        ≡ some (map whole (copies n limit), whole (limit + 1))
  unfolding expand_loop
  iterations n limit d v zero e h enough = absurd (omega arith)
  iterations n limit zero v (suc fuel) e h enough =
      let out : num.leb (whole (v + 1)) (whole limit) ≡ false =
        leb-whole (v + 1) limit (omega arith) (omega arith) ∙ ground arith in
      let same : v ≡ limit = omega arith in rw (expand_loop, out, same) refl
  iterations n limit (suc d) v (suc fuel) e h enough =
      let run : num.leb (whole (v + 1)) (whole limit) ≡ true =
        leb-whole (v + 1) limit (omega arith) (omega arith) ∙ ground arith in
      rw
        (
          expand_loop,
          run,
          to_w n v (v + 1) (omega arith) (omega arith),
          add-whole (v + 1) 1 (v + 1 + 1) refl (omega arith),
        )
        (iterations n limit d (v + 1) fuel (omega arith) h (omega arith))

  expand_loop-whole :
      (n limit fuel : ℕ)
      → 1 ≤ limit
      → limit + 1 ≤ bound
      → limit < fuel
      → expand_loop num (whole limit) fuel (ones num n) (whole 1)
        ≡ some (map whole (copies n limit), whole (limit + 1))
  unfolding expand_loop
  expand_loop-whole n limit zero positive h enough = absurd (omega arith)
  expand_loop-whole n limit (suc fuel) positive h enough =
      let run : num.leb (whole 1) (whole limit) ≡ true =
        leb-whole 1 limit (omega arith) (omega arith) ∙ ground arith in
      ap (λ xs. expand_loop num (whole limit) (suc fuel) xs (whole 1)) (ones_lem n)
      ∙ rw
          (
            expand_loop,
            run,
            to_w n 1 1 (omega arith) (omega arith),
            add-whole 1 1 2 refl (omega arith),
          )
          (iterations n limit (limit - 1) 1 fuel (omega arith) h (omega arith))

  pub eqb-whole : (a : ℕ) → a ≤ bound → num.eqb (whole a) (whole a) ≡ true
  eqb-whole a h = exact.eqb_exact (pos a) (pos a) (h, omega arith) (h, omega arith) ∙ ground arith

  pub expand-ok :
      (others limit ans fuel : ℕ)
      → 1 ≤ limit
      → (others + 1) * limit + 1 ≡ ans
      → ans ≤ bound
      → limit < fuel
      → expand num others limit ans fuel ≡ some true
  unfolding expand
  expand-ok others limit ans fuel positive e h enough =
      ap (is_ans num ans) (
        expand_loop-whole others limit fuel positive
          (omega (arith, sums, total-place 3 (limit + 1) (copies others limit))) enough)
      ∙ ap (λ xs. some (num.eqb (sum num xs) (whole ans)))
          (place-map 3 (limit + 1) (copies others limit))
      ∙ ap (λ x. some (num.eqb x (whole ans)))
          (sum-whole (place 3 (limit + 1) (copies others limit)) (omega (arith, sums))
            ∙ ap whole sums)
      ∙ ap some (eqb-whole ans h)
    where
      sums : total (place 3 (limit + 1) (copies others limit)) ≡ ans
      sums = omega (
        arith,
        total-place 3 (limit + 1) (copies others limit),
        total-copies others limit,
        suc-mul others limit,
        e,
      )

  by_two :
      (limit d v fuel : ℕ)
      → v + 2 * d ≡ limit + 1
      → limit + 1 ≤ bound
      → d < fuel
      → step_by_two num (whole limit) fuel (whole v) ≡ some (whole (limit + 1))
  unfolding step_by_two
  by_two limit d v zero e h enough = absurd (omega arith)
  by_two limit zero v (suc fuel) e h enough =
      let out : num.leb (whole v) (whole limit) ≡ false =
        leb-whole v limit (omega arith) (omega arith) ∙ ground arith in
      let last : v ≡ limit + 1 = omega arith in rw (step_by_two, out, last) refl
  by_two limit (suc d) v (suc fuel) e h enough =
      let run : num.leb (whole v) (whole limit) ≡ true =
        leb-whole v limit (omega arith) (omega arith) ∙ ground arith in
      rw
        (
          step_by_two,
          run,
          add-whole v 1 (v + 1) refl (omega arith),
          add-whole (v + 1) 1 (v + 2) (omega arith) (omega arith),
        )
        (by_two limit d (v + 2) fuel (omega arith) h (omega arith))

  pub expand_one-ok :
      (half limit fuel : ℕ)
      → limit ≡ 2 * half
      → limit + 1 ≤ bound
      → half < fuel
      → expand_one num limit (limit + 1) fuel ≡ some true
  unfolding expand_one
  expand_one-ok half limit fuel e h enough =
      rw (expand_one, by_two limit half 1 fuel (omega arith) h enough)
        (ap some (eqb-whole (limit + 1) h))
