-- ===== src/Udp/Total.antt =====
-- rbench-udp.cpp: the sum of a weight over the threads, as the monitors of the server and of the
-- client add up over `conns`.
use r_bench_an_interference.Base.{
  ℕ, zero, suc, ◌+◌, ◌≤◌, ◌<◌, ◌≡◌, refl, arith, ◌==◌, Bool, true, false,
}

unfoldable pub total {ℓ} : {P : Type ℓ} → (P → ℕ) → (ℕ → P) → ℕ → ℕ
total w phase zero = 0
total w phase (suc i) = total w phase i + w (phase i)

module _ {ℓ} {P : Type ℓ} (w : P → ℕ) (phase : ℕ → P) where
  -- Below `k` or at `k`.
  below_suc :
      (i k : ℕ) → i < suc k → (i < k → w (phase i) ≡ w (phase k)) → w (phase i) ≡ w (phase k)
  below_suc i k h f = choose (i == k) refl
    where
      choose : (b : Bool) → (i == k) ≡ b → w (phase i) ≡ w (phase k)
      choose true same = let same_i : i ≡ k = ground arith in rw same_i refl
      choose false other = f (ground arith)

  pub total-le : (n : ℕ) → ((p : P) → w p ≤ 1) → total w phase n ≤ n
  unfolding total
  total-le zero at_most = omega arith
  total-le (suc k) at_most = omega (arith, total-le k at_most, at_most (phase k))

  -- With a weight of at most 1, the sum is `n` only when each weight is 1.
  pub total-full :
      (n : ℕ) → ((p : P) → w p ≤ 1) → total w phase n ≡ n → (i : ℕ) → i < n → w (phase i) ≡ 1
  unfolding total
  total-full zero at_most e i h = absurd (omega arith)
  total-full (suc k) at_most e i h =
      let last : w (phase k) ≡ 1 = omega (arith, e, total-le k at_most, at_most (phase k)) in
      omega (
        arith,
        last,
        below_suc i k h
            (λ below. omega (arith, last, total-full k at_most (omega (arith, e, last)) i below)),
      )

  pub full-total : (n : ℕ) → ((i : ℕ) → i < n → w (phase i) ≡ 1) → total w phase n ≡ n
  unfolding total
  full-total zero h = refl
  full-total (suc k) h =
      omega (arith, h k (omega arith), full-total k (λ i below. h i (omega arith)))

  pub total-zero : (n : ℕ) → total w phase n ≡ 0 → (i : ℕ) → i < n → w (phase i) ≡ 0
  unfolding total
  total-zero zero e i h = absurd (omega arith)
  total-zero (suc k) e i h = omega (
    arith,
    e,
    below_suc i k h (λ below. omega (arith, e, total-zero k (omega (arith, e)) i below)),
  )

  pub zero-total : (n : ℕ) → ((i : ℕ) → i < n → w (phase i) ≡ 0) → total w phase n ≡ 0
  unfolding total
  zero-total zero h = refl
  zero-total (suc k) h =
      omega (arith, h k (omega arith), zero-total k (λ i below. h i (omega arith)))
