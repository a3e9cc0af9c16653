-- ===== src/Disk/Bench.antt =====
-- rbench-disk.cpp: a thread of the disk stressor, as the calls that it makes on its file.
pub mod Runs
use mathlib.Core.List.{append-nil, append_assoc}
use r_bench_an_interference.Base.{
  ℕ, zero, suc, ◌+◌, ◌*◌, ◌^◌, ◌≤◌, ◌<◌, ◌≡◌, inl, inr, refl, arith, ap, ap₂, sym, ◌∙◌, ◌==◌, ◌||◌,
  ◌&&◌, not, if◌then◌else◌, Bool, true, false, Bool-cases, Option, none, some, List, [], ◌∷◌, ◌++◌,
  u64,
}
use r_bench_an_interference.Base.Int.{ℤ, pos, negsuc, pos_part, leb_ℤ, to_signed, to_unsigned}
use r_bench_an_interference.Flags.{is_limited, get_arg_flag}
use r_bench_an_interference.Opts.{BenchArgs}
use r_bench_an_interference.Control.{Floating, Pace, of_nat, strength_to_time}
use r_bench_an_interference.Stress.{Readings}
use r_bench_an_interference.Stress.Laws.{IsPace}
use r_bench_an_interference.Stress.Threads.{knl_round_limit, measure}
use r_bench_an_interference.Disk.{DiskCall, disk_write_kernel2, write_rounds}
use r_bench_an_interference.Disk.Laws.{position_after, write_rounds_grow}

-- The thread ends at `ftruncate64`, or with its calls after that and `knl_round_sumup`.
pub data DiskEnd : Type 0 where
  ftruncate_failed : DiskEnd
  wrote : List DiskCall → ℕ → DiskEnd

abbrev pub before : List DiskCall → DiskEnd → DiskEnd
before calls ftruncate_failed = ftruncate_failed
before calls (wrote rest sumup) = wrote (calls ++ rest) sumup

-- The end of a turn: the calls of the others come after its own.
abbrev after_turn : Bool → List DiskCall → ℕ → Option DiskEnd → Option DiskEnd
after_turn true calls counted rest = some (wrote calls counted)
after_turn false calls counted none = none
after_turn false calls counted (some rest) = some (before calls rest)

-- The first write and the 1000 rounds of the measurement, before the end of the loop.
abbrev after_first : ℕ → Option DiskEnd → Option DiskEnd
after_first fsize none = none
after_first fsize (some end) =
    some (before (write_rounds 1 fsize 0 ++ write_rounds 1000 fsize 0) end)

module _ {D : Type 0} (f : Floating D) where
  -- The two tests that leave the loop.
  abbrev disk_over : ℤ → ℕ → D → Readings D → ℕ → Bool
  disk_over limit time_limit t_start r sumup =
      leb_ℤ limit (to_signed 64 sumup)
      || (not (time_limit == 0) && f.at_least (f.sub r.md_t_end t_start) (of_nat f time_limit))

  -- The loop with its number of rounds in a turn, which is never adjusted.
  unfoldable pub disk_loop : ℤ → ℕ → D → (ℕ → Readings D) → ℕ → ℕ → ℕ → ℕ → ℕ → Option DiskEnd
  unfolding write_rounds
  disk_loop limit time_limit t_start readings rounds fsize zero turn sumup = none
  disk_loop limit time_limit t_start readings rounds fsize (suc fuel) turn sumup =
      let calls = write_rounds (pos_part (to_signed 32 rounds)) fsize 0 in
      let counted = u64 (sumup + to_unsigned 64 (to_signed 32 rounds)) in
      after_turn (disk_over limit time_limit t_start (readings turn) counted) calls counted
        (disk_loop limit time_limit t_start readings rounds fsize fuel (suc turn) counted)

  -- The first write, the measurement of 1000 rounds, and the loop.
  unfoldable pub disk_write_bench :
      BenchArgs → Bool → Readings D → D → (ℕ → Readings D) → ℕ → Option DiskEnd
  unfolding write_rounds disk_loop measure knl_round_limit
  disk_write_bench args truncated first t_start readings fuel =
      let fsize = args.payload in
      let (sgl_time, sgl_idle) = measure f first 1000 in
      let pace = strength_to_time f sgl_time sgl_idle args.strength args.period in
      if truncated
      then after_first fsize (
          disk_loop (knl_round_limit args) args.time t_start readings pace.module_runround fsize
            fuel 0 0)
      else some ftruncate_failed
