-- ===== src/Kernels/Avx.antt =====
-- rbench-simd-avx.cpp: the kernel, over the intrinsics for vectors of four `double`.
use r_bench_an_interference.Base.{
  ℕ, zero, suc, ◌≡◌, refl, ap, ◌∙◌, ◌&&◌, if◌then◌else◌, Bool, true, false, [], ◌∷◌,
}
use r_bench_an_interference.Mwc.{Mwc, mwc, mwc_seed_w, mwc_seed_z, mwc32}
use r_bench_an_interference.Kernels.Warn.{
  Warnings, verify, verify_all, verify_rounds, verify_rounds-once, first_wrong, silent,
}

-- `set_draws` is `_mm256_set_pd` of four draws, the first draw first, as the compiler orders them;
-- `set_all n k` that of n / 10^k four times.
pub record Intrinsics (V : Type 0) : Type 0 where
  pub set_draws : ℕ → ℕ → ℕ → ℕ → V
  pub set_all : ℕ → ℕ → V
  pub add_pd : V → V → V
  pub sub_pd : V → V → V
  pub mul_pd : V → V → V
  pub div_pd : V → V → V
  pub hadd_pd : V → V → V
  pub addsub_pd : V → V → V
  pub round_to_zero : V → V
  pub srli_epi64 : V → ℕ → V
  pub slli_epi64 : V → ℕ → V
  pub permute4x64_pd : V → ℕ → V

-- The lanes of a result, and the arithmetic of `double` that its check uses.
pub record Lanes (V D : Type 0) : Type 0 where
  pub res : V → ℕ → D
  pub decimal : ℕ → ℕ → D
  pub neg : D → D
  pub sub : D → D → D
  pub gtb : D → D → Bool
  pub below : D → ℕ → Bool

pub record VectorRegisters (V : Type 0) : Type 0 where
  pub a : V
  pub b : V
  pub c : V
  pub d : V

-- The text of the warning.
pub data VectorType : Type 0 where
  m256d : VectorType

module _ {V : Type 0} (i : Intrinsics V) where
  -- `tmp` is the part without the fraction, and `x - tmp` the fraction.
  abbrev fraction : V → V
  fraction x = i.sub_pd x (i.round_to_zero x)

  abbrev clear_bits : ℕ → V → V
  clear_bits n x = i.slli_epi64 (i.srli_epi64 x n) n

  -- The body of the loop, a name for each value of a register that is read.
  unfoldable pub avx_iteration : VectorRegisters V → VectorRegisters V
  avx_iteration r =
      let a1 = i.add_pd r.a r.b in
      let b1 = i.mul_pd a1 r.c in
      let c1 = i.sub_pd a1 b1 in
      let d1 = fraction (i.div_pd a1 (i.set_all 81 1)) in
      let a2 = fraction (i.div_pd c1 (i.set_all 51923 4)) in
      let c2 = fraction c1 in
      let b2 = i.add_pd c2 a2 in
      let d2 = i.permute4x64_pd (clear_bits 2 d1) 0x78 in
      let c3 = i.hadd_pd a2 b2 in
      let a3 = i.permute4x64_pd a2 0x63 in
      let b3 = i.mul_pd b2 c3 in
      let c4 = i.add_pd c3 (i.set_all 15 1) in
      let d3 = i.addsub_pd d2 c4 in
      let a4 = i.addsub_pd a3 b3 in
      let b4 = clear_bits 3 (i.addsub_pd b3 c4) in
      record { a = a4; b = i.sub_pd d3 b4; c = i.div_pd (i.add_pd a4 b4) c4; d = d3 }

  unfoldable pub avx_iterations : ℕ → VectorRegisters V → VectorRegisters V
  unfolding avx_iteration
  avx_iterations zero r = r
  avx_iterations (suc left) r = avx_iterations left (avx_iteration r)

  -- Four draws, and the generator behind them.
  unfoldable pub draw_vector : Mwc → V × Mwc
  unfolding mwc32
  draw_vector m0 =
      let (w1, m1) = mwc32 m0 in
      let (w2, m2) = mwc32 m1 in
      let (w3, m3) = mwc32 m2 in let (w4, m4) = mwc32 m3 in (i.set_draws w1 w2 w3 w4, m4)

  unfoldable pub avx_start : VectorRegisters V
  unfolding draw_vector
  avx_start =
      let (a, m1) = draw_vector (mwc mwc_seed_w mwc_seed_z) in
      let (b, m2) = draw_vector m1 in
      let (c, m3) = draw_vector m2 in record { a = a; b = b; c = c; d = i.set_all 0 0 }

  -- `tmp`, which is stored in `res`.
  unfoldable pub avx_result : V
  unfolding avx_iterations avx_start
  avx_result =
      let r = avx_iterations 1000 avx_start in i.add_pd (i.add_pd (i.add_pd r.a r.b) r.c) r.d

module _ {V D : Type 0} (i : Intrinsics V) (n : Lanes V D) where
  -- `f_is_zero( res[k] - std[k] )`, at a `double`
  abbrev lane_correct : ℕ → D → Bool
  lane_correct k std =
      let x = n.sub (n.res (avx_result i) k) std in
      n.below (if n.gtb x (n.decimal 0 0) then x else n.neg x) 9

  abbrev pub avx_correct : Bool
  avx_correct =
      lane_correct 0 (n.neg (n.decimal 25 1))
      && lane_correct 1 (n.decimal 25 1)
      && lane_correct 2 (n.neg (n.decimal 25 1))
      && lane_correct 3 (n.decimal 25 1)

  unfoldable pub simd_avx_ops_kernel : Warnings VectorType → Warnings VectorType
  simd_avx_ops_kernel s = verify avx_correct m256d s

  -- So many calls of the kernel, as `simd_avx_bench` makes them.
  unfoldable pub avx_rounds : ℕ → Warnings VectorType → Warnings VectorType
  unfolding simd_avx_ops_kernel
  avx_rounds zero s = s
  avx_rounds (suc left) s = avx_rounds left (simd_avx_ops_kernel s)

  avx_rounds-verify_rounds :
      (left : ℕ) (s : Warnings VectorType)
      → avx_rounds left s ≡ verify_rounds left ((avx_correct, m256d) ∷ []) s
  unfolding avx_rounds simd_avx_ops_kernel verify_rounds verify_all
  avx_rounds-verify_rounds zero s = refl
  avx_rounds-verify_rounds (suc left) s = avx_rounds-verify_rounds left (simd_avx_ops_kernel s)

  -- However often the vector kernel is called, it warns once where a lane of its result is off, and
  -- not at all otherwise.
  pub avx_rounds-once :
      (left : ℕ) → (avx_rounds (suc left) silent).log ≡ (if avx_correct then [] else m256d ∷ [])
  avx_rounds-once left =
      ap (λ (s : Warnings VectorType). s.log) (avx_rounds-verify_rounds (suc left) silent)
      ∙ verify_rounds-once left ((avx_correct, m256d) ∷ [])
      ∙ by_result avx_correct
    where
      by_result : (b : Bool) → first_wrong ((b, m256d) ∷ []) ≡ (if b then [] else m256d ∷ [])
      by_result true = refl
      by_result false = refl
