-- ===== src/Stress.antt =====
-- The loop that every stressor runs in a thread, as in rbench-cpu-int.cpp: it measures rounds of a
-- kernel, sleeps, stops at its limits and regulates its load at every eighth turn.
pub mod Threads
pub mod Laws
pub mod Full
pub mod Idle
pub mod Kernel
use Prim.Native.Nat.{min, max}
use r_bench_an_interference.Base.{
  ℕ, zero, suc, ◌+◌, ◌-◌, ◌*◌, ◌/◌, ◌^◌, ◌==◌, ltb, if◌then◌else◌, u32, u64,
}
use r_bench_an_interference.Base.{
  Bool, true, false, not, ◌&&◌, ◌||◌, bit_and, Option, none, some, List, [], ◌∷◌,
}
use r_bench_an_interference.Base.Int.{ℤ, pos, negsuc, leb_ℤ, to_signed, to_unsigned}
use r_bench_an_interference.Flags.{is_limited, get_arg_flag}
use r_bench_an_interference.Opts.{BenchArgs}
use r_bench_an_interference.Control.{
  Floating, Pace, of_nat, one_million, strength_to_time, membw_to_time,
}

-- What the clocks say in one turn: thread time and time around the rounds, time around the sleep.
pub record Readings (D : Type 0) : Type 0 where
  pub md_thr_cpu_t_start : D
  pub md_thr_cpu_t_end : D
  pub md_t_start : D
  pub md_t_end : D
  pub sleep_start : D
  pub sleep_end : D

-- The two warnings, with the load that they report.
pub data Notice (D : Type 0) : Type 0 where
  low_adjusting : D → Notice D
  adjustment_succeed : D → Notice D

pub record Stressor (D : Type 0) : Type 0 where
  pub pace : Pace
  pub round_cnt : ℕ
  pub knl_round_sumup : ℕ
  pub low_actl_warning : ℕ
  pub in_low_actl_warning : Bool
  pub sum_krounds : D
  pub sum_sleepus : D
  pub sum_runtimeus : D
  pub sum_runidleus : D
  pub log : List (Notice D)

-- What differs between the stressors: the load that the sums show, when to compute the pace
-- again, when the load is low, and the new pace.
pub record Regulation (D : Type 0) : Type 0 where
  pub actual : Stressor D → D
  pub off_target : D → Bool
  pub low : D → Bool
  pub repace : D → D → Pace

module _ {D : Type 0} (f : Floating D) where
  abbrev pub half : D
  half = f.div (of_nat f 1) (of_nat f 2)

  abbrev pub one_millionth : D
  one_millionth = f.div (of_nat f 1) (one_million f)

  -- The run, the sleep and the sums of a turn, up to the tests of the limits.
  unfoldable pub run_rounds : Readings D → Stressor D → Stressor D
  run_rounds r s =
      let measure_rounds = s.pace.module_runround in
      let actl_runt = f.sub r.md_thr_cpu_t_end r.md_thr_cpu_t_start in
      let run_idlet = f.sub (f.sub r.md_t_end r.md_t_start) actl_runt in
      let actl_sleepus = f.mul (f.sub r.sleep_end r.sleep_start) (one_million f) in
      record s {
        round_cnt = u32 (s.round_cnt + 1);
        sum_runtimeus = f.add s.sum_runtimeus (f.mul actl_runt (one_million f));
        sum_runidleus = f.add s.sum_runidleus (f.mul run_idlet (one_million f));
        sum_krounds = f.add s.sum_krounds (f.of_int (to_signed 32 measure_rounds));
        sum_sleepus = f.add s.sum_sleepus actl_sleepus;
        knl_round_sumup = u64 (s.knl_round_sumup + to_unsigned 64 (to_signed 32 measure_rounds));
      }

  -- The two tests that leave the loop; the time is that after the sleep.
  unfoldable pub is_over : ℤ → ℕ → D → Readings D → Stressor D → Bool
  is_over limit time_limit t_start r s =
      leb_ℤ limit (to_signed 64 s.knl_round_sumup)
      || (not (time_limit == 0) && f.at_least (f.sub r.sleep_end t_start) (of_nat f time_limit))

  -- A sum less a fifth of it.
  abbrev pub decay : D → D
  decay x = f.sub x (f.div x (of_nat f 5))

  -- The warnings of a low load, counted up to nine times in a row.
  unfoldable pub warn_low : Regulation D → D → Stressor D → Stressor D
  warn_low g actual s =
      if g.low actual
      then if ltb 8 (s.low_actl_warning + 1)
        then record s {
          log = low_adjusting actual ∷ s.log;
          in_low_actl_warning = true;
          low_actl_warning = 0;
        }
        else record s { low_actl_warning = s.low_actl_warning + 1 }
      else record s {
        log = if s.in_low_actl_warning then adjustment_succeed actual ∷ s.log else s.log;
        in_low_actl_warning = false;
        low_actl_warning = 0;
      }

  abbrev pub decay_sums : Stressor D → Stressor D
  decay_sums s = record s {
    sum_runtimeus = decay s.sum_runtimeus;
    sum_krounds = decay s.sum_krounds;
    sum_sleepus = decay s.sum_sleepus;
    sum_runidleus = decay s.sum_runidleus;
  }

  -- The regulation at every eighth turn.
  unfoldable pub regulate : Regulation D → Stressor D → Stressor D
  unfolding warn_low
  regulate g s =
      let sgl_time = f.div (f.mul s.sum_runtimeus one_millionth) s.sum_krounds in
      let sgl_idle = f.div (f.mul s.sum_runidleus one_millionth) s.sum_krounds in
      let actual = g.actual s in
      let pace = if g.off_target actual then g.repace sgl_time sgl_idle else s.pace in
      if bit_and s.round_cnt 0x7 == 0
      then decay_sums (warn_low g actual (record s { pace = pace }))
      else s

  -- The loop; `readings k` is what the clocks say in turn `k`. The fuel is the number of turns.
  unfoldable pub stress :
      Regulation D → ℤ → ℕ → D → (ℕ → Readings D) → ℕ → ℕ → Stressor D → Option (Stressor D)
  unfolding run_rounds is_over regulate
  stress g limit time_limit t_start readings zero k s = none
  stress g limit time_limit t_start readings (suc fuel) k s =
      let s' = run_rounds (readings k) s in
      elim (is_over limit time_limit t_start (readings k) s') [
        | true ↦ some s'
        | false ↦ stress g limit time_limit t_start readings fuel (k + 1) (regulate g s')
      ]

  -- The variables before the loop.
  abbrev pub fresh : Pace → Stressor D
  fresh pace = record {
    pace = pace;
    round_cnt = 0;
    knl_round_sumup = 0;
    low_actl_warning = 0;
    in_low_actl_warning = false;
    sum_krounds = of_nat f 0;
    sum_sleepus = of_nat f 0;
    sum_runtimeus = of_nat f 0;
    sum_runidleus = of_nat f 0;
    log = [];
  }
