-- ===== src/Kernels/Integer/Words.antt =====
-- rbench-cpu-int.cpp: the registers of the integer kernel stay words of their width.
use native.Mathlib.Nat.{mod-lt, div-le_self, one-le-pow}
use r_bench_an_interference.Base.{ℕ, zero, suc, ◌/◌, ◌%◌, ◌^◌, ◌≤◌, ◌<◌, arith, bit_and, bit_or}
use r_bench_an_interference.Base.Bits.{
  bit_and_step, zero-bit_and, half_induction, bit_or-lt, bit_at, bit_at-bit_or,
}
use r_bench_an_interference.Kernels.Integer.{Registers, iteration, iterations}

pub record AreWords (w c2 c3 : ℕ) (r : Registers) : Type 0 where
  pub a_word : r.a < 2 ^ w
  pub b_word : r.b < 2 ^ w
  pub a_bits : (k : ℕ) → bit_at c2 k ≤ bit_at r.a k
  pub b_bits : r.b ≤ c3

bit_and-le : (x c : ℕ) → bit_and x c ≤ c
bit_and-le =
    half_induction (λ x. (c : ℕ) → bit_and x c ≤ c) (λ c. omega (arith, zero-bit_and c))
      (λ n h ih c. omega (arith, bit_and_step n c, ih (c / 2)))

remainder-div-lt : (x n d : ℕ) → 0 < n → x % n / d < n
remainder-div-lt x n d positive = omega (arith, mod-lt x positive, div-le_self (x % n) d)

iteration-AreWords :
    (w c1 c2 c3 : ℕ) (r : Registers)
    → c2 < 2 ^ w
    → c3 < 2 ^ w
    → AreWords w c2 c3 (iteration w c1 c2 c3 r)
unfolding iteration
iteration-AreWords w c1 c2 c3 r h2 h3 = record {
  a_word = bit_or-lt w _ c2 (remainder-div-lt _ (2 ^ w) 7 (one-le-pow w 2 (omega arith))) h2;
  b_word = below (bit_and-le _ c3) h3;
  a_bits = λ k. at_least _ c2 k;
  b_bits = bit_and-le _ c3;
}
  where
    below : {x : ℕ} → x ≤ c3 → c3 < 2 ^ w → x < 2 ^ w
    below h h' = omega arith

    at_least : (a c k : ℕ) → bit_at c k ≤ bit_at (bit_or a c) k
    at_least a c k = rw (bit_at-bit_or k a c) (omega arith)

-- After one iteration or more both registers are words, `a` has the bits of `c2` and `b` is at most `c3`.
pub iterations-AreWords :
    (w c1 c2 c3 left : ℕ) (r : Registers)
    → c2 < 2 ^ w
    → c3 < 2 ^ w
    → 1 ≤ left
    → AreWords w c2 c3 (iterations w c1 c2 c3 left r)
unfolding iterations
iterations-AreWords w c1 c2 c3 zero r h2 h3 positive = absurd (omega arith)
iterations-AreWords w c1 c2 c3 (suc zero) r h2 h3 positive = iteration-AreWords w c1 c2 c3 r h2 h3
iterations-AreWords w c1 c2 c3 (suc (suc left)) r h2 h3 positive =
    iterations-AreWords w c1 c2 c3 (suc left) (iteration w c1 c2 c3 r) h2 h3 (omega arith)
