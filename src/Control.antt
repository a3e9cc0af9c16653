-- ===== src/Control.antt =====
-- rbench-core.cpp, `strength_to_time`, `membw_to_time` and `network_pps_to_time`: how many rounds of a
-- kernel to run, and how long to sleep after them. The operations on `double` are a parameter.
pub mod Laws
use r_bench_an_interference.Base.{ℕ, zero, suc, ◌*◌, ◌^◌, ◌==◌, if◌then◌else◌, Bool, ◌||◌}
use r_bench_an_interference.Base.Int.{ℤ, pos, negsuc, leb_ℤ}

-- What the code uses of `double`: the arithmetic, the conversions, `<`, `>=`, `round` and `isnan`. A
-- conversion to `int32_t` gives the 32 bits.
pub record Floating (D : Type 0) : Type 0 where
  pub add : D → D → D
  pub sub : D → D → D
  pub mul : D → D → D
  pub div : D → D → D
  pub of_int : ℤ → D
  pub less : D → D → Bool
  pub at_least : D → D → Bool
  pub round : D → D
  pub is_nan : D → Bool
  pub to_int32 : D → ℕ

-- The two results that the functions assign: the rounds and the microseconds, 32 bits each.
pub record Pace : Type 0 where
  pub module_runround : ℕ
  pub module_sleepus : ℕ

abbrev pub full_strength100_module_round : ℕ
full_strength100_module_round = 100

abbrev pub full_membw_module_round : ℕ
full_membw_module_round = 100

abbrev pub full_network_pps_module_round : ℕ
full_network_pps_module_round = 100

module _ {D : Type 0} (f : Floating D) where
  abbrev pub of_nat : ℕ → D
  of_nat n = f.of_int (pos n)

  -- `ONE_MILLION`
  abbrev pub one_million : D
  one_million = of_nat 1000000

  -- The last assignments: `x` rounds and a sleep of `y`, both scaled by `ratio`.
  abbrev pub round_pace : ℕ → D → D → D → Pace
  round_pace full x y ratio =
      let bad = f.less x (of_nat 0) || f.is_nan x in
      record {
        module_runround = f.to_int32 (f.round (if bad then of_nat full else x));
        module_sleepus = f.to_int32 (f.round (f.mul (if bad then of_nat 0 else y) ratio));
      }

  unfoldable pub strength_to_time : D → D → ℕ → ℕ → Pace
  strength_to_time sgl_round_time sgl_idle_time strength_ period =
      if strength_ == 100
      then record { module_runround = full_strength100_module_round; module_sleepus = 0 }
      else let p = f.div (of_nat strength_) (of_nat 100) in
        let y = f.mul (f.sub (of_nat 1) p) (of_nat period) in
        let work = f.sub (f.sub sgl_round_time (f.mul p sgl_round_time)) (f.mul p sgl_idle_time) in
        let x = f.div (f.mul y p) (f.mul work one_million) in
        let x_time = f.mul (f.mul x (f.add sgl_round_time sgl_idle_time)) one_million in
        let ratio = f.div (of_nat period) (f.add x_time y) in
        round_pace full_strength100_module_round (f.mul x ratio) (f.mul y ratio)
          (f.div (f.round (f.mul x ratio)) (f.mul x ratio))

  unfoldable pub membw_to_time : ℕ → ℕ → D → D → ℕ → Pace
  membw_to_time bytes aim_bw sgl_round_time sgl_idle_time period =
      let full_bw = f.div (of_nat bytes) sgl_round_time in
      let eq_strength_percent = f.mul (f.div (of_nat aim_bw) full_bw) (of_nat 100) in
      if aim_bw == 0 || f.at_least eq_strength_percent (of_nat 100)
      then record { module_runround = full_membw_module_round; module_sleepus = 0 }
      else let p = f.div eq_strength_percent (of_nat 100) in
        let y = f.mul (f.sub (of_nat 1) p) (of_nat period) in
        let work = f.sub (f.sub sgl_round_time (f.mul p sgl_round_time)) (f.mul p sgl_idle_time) in
        let x = f.div (f.mul y p) (f.mul work one_million) in
        let x_time = f.mul (f.mul x (f.add sgl_round_time sgl_idle_time)) one_million in
        let ratio = f.div (of_nat period) (f.add x_time y) in
        round_pace full_membw_module_round (f.mul x ratio) (f.mul y ratio)
          (f.div (f.round (f.mul x ratio)) (f.mul x ratio))

  unfoldable pub network_pps_to_time : D → ℤ → D → D → ℕ → Pace
  network_pps_to_time roundpps aim_pps sgl_round_time sgl_idle_time period =
      let full_pps = f.div roundpps sgl_round_time in
      let eq_strength_percent = f.mul (f.div (f.of_int aim_pps) full_pps) (of_nat 100) in
      if leb_ℤ aim_pps (pos 0) || f.at_least eq_strength_percent (of_nat 100)
      then record { module_runround = full_network_pps_module_round; module_sleepus = 0 }
      else let p = f.div eq_strength_percent (of_nat 100) in
        let y = f.mul (f.sub (of_nat 1) p) (of_nat period) in
        let work = f.sub (f.sub sgl_round_time (f.mul p sgl_round_time)) (f.mul p sgl_idle_time) in
        let x = f.div (f.mul y p) (f.mul work one_million) in
        let x_time = f.mul (f.mul x (f.add sgl_round_time sgl_idle_time)) one_million in
        let ratio = f.div (of_nat period) (f.add x_time y) in
        round_pace full_network_pps_module_round (f.mul x ratio) (f.mul y ratio)
          (f.div (f.round (f.mul x ratio)) (f.mul x ratio))
