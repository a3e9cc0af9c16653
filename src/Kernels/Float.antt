-- ===== src/Kernels/Float.antt =====
-- rbench-cpu-float.cpp: the kernel, over the operations of the floating-point types.
use r_bench_an_interference.Base.{
  ℕ, zero, suc, ◌≡◌, refl, ap, ◌∙◌, if◌then◌else◌, Bool, List, [], ◌∷◌,
}
use r_bench_an_interference.Kernels.Warn.{
  Warnings, verify, verify_all, verify_rounds, verify_rounds-once, first_wrong, silent,
}

-- What the kernel does with `double`; `decimal n k` is the literal n / 10^k.
pub record Doubles (D : Type 0) : Type 0 where
  pub of_word : ℕ → D
  pub decimal : ℕ → ℕ → D
  pub add : D → D → D
  pub sub : D → D → D
  pub div : D → D → D
  pub neg : D → D
  pub gtb : D → D → Bool
  pub sin : D → D
  pub cos : D → D

-- What it does with a type `T`. `long_decimal` is a literal of `long double`, cast to `T`, and
-- `below x k` is `x < 1e-k`.
pub record Floats (T D : Type 0) : Type 0 where
  pub long_decimal : ℕ → ℕ → T
  pub add : T → T → T
  pub sub : T → T → T
  pub mul : T → T → T
  pub div : T → T → T
  pub neg : T → T
  pub gtb : T → T → Bool
  pub below : T → ℕ → Bool
  pub to_double : T → D
  pub of_double : D → T
  pub long_part : T → D

pub record FloatRegisters (T : Type 0) : Type 0 where
  pub a : T
  pub b : T
  pub c : T
  pub d : T

-- `typeid( T )`
pub data FloatType : Type 0 where
  long_double_t double_t float_t : FloatType

abbrev pub accuracy : FloatType → ℕ
accuracy float_t = 5
accuracy _ = 9

module _ {T D : Type 0} (dbl : Doubles D) (flt : Floats T D) where
  -- A literal of `double`, cast to `T`.
  abbrev lit : ℕ → ℕ → T
  lit n k = flt.of_double (dbl.decimal n k)

  -- `fabs` of rbench.hpp, and `f_is_zero`
  abbrev fabs : T → T
  fabs x = if flt.gtb x (lit 0 0) then x else flt.neg x

  abbrev fabs_double : D → D
  fabs_double x = if dbl.gtb x (dbl.decimal 0 0) then x else dbl.neg x

  abbrev f_is_zero : FloatType → T → Bool
  f_is_zero type x = flt.below (fabs x) (accuracy type)

  -- `float_thresh`; `long_part x` is `(double)(long)x`.
  abbrev float_thresh : T → T
  float_thresh x =
      if dbl.gtb (fabs_double (flt.to_double x)) (dbl.decimal 1 0)
      then flt.of_double (dbl.sub (dbl.add (dbl.decimal 1 1) (flt.to_double x)) (flt.long_part x))
      else x

  abbrev sin_of : T → T
  sin_of x = flt.of_double (dbl.sin (flt.to_double x))

  abbrev cos_of : T → T
  cos_of x = flt.of_double (dbl.cos (flt.to_double x))

  -- The body of the loop, a name for each value of a register.
  unfoldable pub float_iteration : FloatRegisters T → FloatRegisters T
  float_iteration r =
      let a1 = flt.add r.a r.b in
      let b1 = flt.mul a1 r.c in
      let c1 = flt.sub a1 b1 in
      let d1 = float_thresh (flt.div a1 (lit 81 1)) in
      let a2 = float_thresh (flt.div c1 (lit 51923 4)) in
      let c2 = float_thresh c1 in
      let b2 = flt.add c2 a2 in
      let c3 = flt.mul b2 (sin_of b2) in
      let d2 = flt.add (flt.add d1 b2) (sin_of a2) in
      let a3 = cos_of (flt.add b2 c3) in
      let b3 = flt.mul b2 c3 in
      let c4 = flt.add c3 (lit 15 1) in
      let d3 = flt.sub d2 (sin_of c4) in
      let a4 = flt.mul a3 (cos_of b3) in
      let b4 = flt.add b3 (cos_of c4) in
      record {
        a = a4;
        b = flt.sub d3 (lit 5 1);
        c = flt.div (sin_of (flt.add a4 b4)) (lit 2344 3);
        d = d3;
      }

  unfoldable pub float_iterations : ℕ → FloatRegisters T → FloatRegisters T
  unfolding float_iteration
  float_iterations zero r = r
  float_iterations (suc left) r = float_iterations left (float_iteration r)

  abbrev float_start : FloatRegisters T
  float_start = record {
    a = flt.long_decimal 18728 5;
    b = flt.of_double (dbl.div (dbl.of_word 820856226) (dbl.decimal 65536 0));
    c = flt.of_double (dbl.div (dbl.of_word 2331188998) (dbl.decimal 65536 0));
    d = lit 0 0;
  }

  -- `r`, after the thousand iterations that a `float` counts exactly.
  unfoldable pub float_result : T
  unfolding float_iterations
  float_result =
      let r = float_iterations 1000 float_start in flt.add (flt.add (flt.add r.a r.b) r.c) r.d

  -- Whether the result is the one that was calculated before.
  unfoldable pub float_correct : FloatType → T → Bool
  unfolding float_result
  float_correct type r_final = f_is_zero type (flt.sub float_result r_final)

  abbrev pub float_ops_ikernel : FloatType → T → Warnings FloatType → Warnings FloatType
  float_ops_ikernel type r_final s = verify (float_correct type r_final) type s

module _ {L D F : Type 0} (dbl : Doubles D) (l : Floats L D) (d : Floats D D) (f : Floats F D) where
  -- The four checks in their order: whether a result is right, and its type.
  abbrev pub float_checks : List (Bool × FloatType)
  float_checks =
      (
        float_correct dbl l long_double_t (l.of_double (dbl.neg (dbl.decimal 20687397322345 13))),
        long_double_t,
      )
      ∷ (
        float_correct dbl d double_t (d.of_double (dbl.neg (dbl.decimal 521491991288263 14))),
        double_t,
      )
      ∷ (
        float_correct dbl d double_t (d.of_double (dbl.neg (dbl.decimal 521491991288263 14))),
        double_t,
      )
      ∷ (
        float_correct dbl f float_t (f.of_double (dbl.neg (dbl.decimal 288806390762329 14))),
        float_t,
      )
      ∷ []

  -- The four calls.
  unfoldable pub float_ops_kernel : Warnings FloatType → Warnings FloatType
  float_ops_kernel s =
      float_ops_ikernel dbl f float_t (f.of_double (dbl.neg (dbl.decimal 288806390762329 14))) (
        float_ops_ikernel dbl d double_t (d.of_double (dbl.neg (dbl.decimal 521491991288263 14))) (
          float_ops_ikernel dbl d double_t (d.of_double (dbl.neg (dbl.decimal 521491991288263 14)))
            (float_ops_ikernel dbl l long_double_t
              (l.of_double (dbl.neg (dbl.decimal 20687397322345 13))) s)))

  -- So many calls of the kernel, as `cpu_float_bench` makes them.
  unfoldable pub float_rounds : ℕ → Warnings FloatType → Warnings FloatType
  unfolding float_ops_kernel
  float_rounds zero s = s
  float_rounds (suc n) s = float_rounds n (float_ops_kernel s)

  float_rounds-verify_rounds :
      (n : ℕ) (s : Warnings FloatType) → float_rounds n s ≡ verify_rounds n float_checks s
  unfolding float_rounds float_ops_kernel verify_rounds verify_all
  float_rounds-verify_rounds zero s = refl
  float_rounds-verify_rounds (suc n) s = float_rounds-verify_rounds n (float_ops_kernel s)

  -- However often the floating-point kernel is called, and whatever the arithmetic of the machine is,
  -- it warns at most once: of the first of its four checks that fails, and of none where all results
  -- are right.
  pub float_rounds-once : (n : ℕ) → (float_rounds (suc n) silent).log ≡ first_wrong float_checks
  float_rounds-once n =
      ap (λ (s : Warnings FloatType). s.log) (float_rounds-verify_rounds (suc n) silent)
      ∙ verify_rounds-once n float_checks
