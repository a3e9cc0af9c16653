-- ===== src/Tests/Stress.antt =====
-- rbench-core.cpp and the loop of the stressors: the theorems on numbers in thousandths.
use r_bench_an_interference.Base.{
  ℕ, suc, ◌+◌, ◌-◌, ◌*◌, ◌/◌, ◌≡◌, refl, arith, ltb, leb, true, false, some, u32,
}
use r_bench_an_interference.Base.Int.{pos, pos_part}
use r_bench_an_interference.Flags.{get_arg_flag}
use r_bench_an_interference.Opts.{BenchArgs, bench_args}
use r_bench_an_interference.Control.{
  Floating, Pace, strength_to_time, membw_to_time, network_pps_to_time,
}
use r_bench_an_interference.Control.Laws.{to_time_agree}
use r_bench_an_interference.Stress.{Readings, Stressor, Regulation, fresh}
use r_bench_an_interference.Stress.Threads.{strength_bench}
use r_bench_an_interference.Stress.Full.{full_pace, strength_bench_full}
use r_bench_an_interference.Stress.Kernel.{Runs, stress_with, stress_with-Runs}

-- Fixed-point numbers that are not negative, in thousandths.
abbrev pub thousandths : Floating ℕ
thousandths = record {
  add = λ a b. a + b;
  sub = λ a b. a - b;
  mul = λ a b. a * b / 1000;
  div = λ a b. a * 1000 / b;
  of_int = λ n. pos_part n * 1000;
  less = λ a b. ltb a b;
  at_least = λ a b. leb b a;
  round = λ a. (a + 500) / 1000 * 1000;
  is_nan = λ a. false;
  to_int32 = λ a. u32 (a / 1000);
}

to_time_agree_example :
    (membw_to_time thousandths 100 50 1000 0 100000 ≡ strength_to_time thousandths 1000 0 50 100000)
    × (network_pps_to_time thousandths 100000 (pos 50) 1000 0 100000
        ≡ strength_to_time thousandths 1000 0 50 100000)
to_time_agree_example =
    to_time_agree thousandths 1000 0 100000 50 100000 100 50 (pos 50) (λ e. omega (arith, e))
      (λ e. omega (arith, e)) (omega arith) refl refl refl

-- Turn `k` starts at second 2 k, runs for a second and sleeps for one.
abbrev pub steady : ℕ → Readings ℕ
steady k = record {
  md_thr_cpu_t_start = k * 1000;
  md_thr_cpu_t_end = k * 1000 + 900;
  md_t_start = k * 2000;
  md_t_end = k * 2000 + 1000;
  sleep_start = k * 2000 + 1000;
  sleep_end = k * 2000 + 2000;
}

abbrev pace_of : ℕ → Pace
pace_of rounds = record { module_runround = rounds; module_sleepus = 1000000 }

abbrev alternating : ℕ → Regulation ℕ
alternating rounds = record {
  actual = λ s. s.sum_krounds;
  off_target = λ actual. true;
  low = λ actual. ltb actual 50000;
  repace = λ sgl_time sgl_idle. pace_of rounds;
}

stress_with-Runs_example : Runs thousandths suc 0 70 0 0 steady 5 (
    stress_with thousandths suc
      (alternating 9)
      (pos 70)
      0
      0
      steady
      70
      0
      (fresh thousandths (pace_of 7))
      5)
stress_with-Runs_example =
    stress_with-Runs thousandths suc (alternating 9) 70 0 0 steady 70 0
      (fresh thousandths (pace_of 7)) 5 (record { runs = omega arith; fits = omega arith })
      (λ a b. record { runs = omega arith; fits = omega arith }) (omega arith) (omega arith)
      (omega arith) (omega arith)

abbrev limited_args : BenchArgs
limited_args = record bench_args { flags = 2; limit_round = pos 250 }

strength_bench_full_example :
    (s : Stressor ℕ) × (strength_bench thousandths limited_args 5000 (steady 0) 0 steady 3 ≡ some s)
    × (s.knl_round_sumup ≡ 100 * ((250 + 99) / 100))
    × (s.pace ≡ full_pace)
unfolding get_arg_flag
strength_bench_full_example =
    strength_bench_full thousandths limited_args 250 5000 (steady 0) 0 steady 3 refl refl refl refl
      (omega arith) (omega arith) (omega arith)
