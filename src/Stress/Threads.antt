-- ===== src/Stress/Threads.antt =====
-- The threads of the stressors: what each file gives to the loop.
use Prim.Native.Nat.{min, max}
use r_bench_an_interference.Base.{ℕ, zero, suc, ◌-◌, ◌*◌, ◌/◌, ◌^◌, ◌==◌, if◌then◌else◌, u32}
use r_bench_an_interference.Base.{Bool, not, ◌||◌, Option}
use r_bench_an_interference.Base.Int.{ℤ, pos, negsuc, to_signed}
use r_bench_an_interference.Flags.{is_limited, get_arg_flag}
use r_bench_an_interference.Opts.{BenchArgs}
use r_bench_an_interference.Control.{Floating, of_nat, one_million, strength_to_time, membw_to_time}
use r_bench_an_interference.Stress.{Readings, Stressor, Regulation, half, stress, fresh}

-- `INT64_MAX`
abbrev pub int64_max : ℕ
int64_max = 2 ^ 63 - 1

-- `knl_round_limit`
unfoldable pub knl_round_limit : BenchArgs → ℤ
knl_round_limit args =
    if get_arg_flag args.flags is_limited then args.limit_round else pos int64_max

-- `args.strength - 1`, an `int`.
abbrev pub one_below : ℕ → ℤ
one_below zero = negsuc 0
one_below (suc n) = pos n

module _ {D : Type 0} (f : Floating D) where
  -- The regulation by strength, as in rbench-cpu-int.cpp and six others.
  unfoldable pub by_strength : BenchArgs → Regulation D
  by_strength args = record {
    actual = λ s.
        f.div (f.mul (of_nat f 100) s.sum_runtimeus)
          (f.add (f.add s.sum_runtimeus s.sum_sleepus) s.sum_runidleus);
    off_target = λ actual.
        f.less actual (f.sub (of_nat f args.strength) (half f))
        || f.less (f.add (of_nat f args.strength) (half f)) actual;
    low = λ actual. f.less actual (f.of_int (one_below args.strength));
    repace = λ sgl_time sgl_idle. strength_to_time f sgl_time sgl_idle args.strength args.period;
  }

  -- The measurement before the loop.
  unfoldable pub measure : Readings D → ℕ → D × D
  measure r measure_rounds =
      let actl_runt = f.sub r.md_thr_cpu_t_end r.md_thr_cpu_t_start in
      let run_idlet = f.sub (f.sub r.md_t_end r.md_t_start) actl_runt in
      (f.div actl_runt (of_nat f measure_rounds), f.div run_idlet (of_nat f measure_rounds))

  -- A thread of a stressor by strength, after its set-up, with the rounds that it measures first.
  unfoldable pub strength_bench :
      BenchArgs → ℕ → Readings D → D → (ℕ → Readings D) → ℕ → Option (Stressor D)
  unfolding by_strength stress measure knl_round_limit
  strength_bench args measure_rounds first t_start readings fuel =
      let (sgl_time, sgl_idle) = measure first measure_rounds in
      stress f (by_strength args) (knl_round_limit args) args.time t_start readings fuel 0
        (fresh f (strength_to_time f sgl_time sgl_idle args.strength args.period))

  -- The threads by the files that they stand in, each with the rounds that it measures first.
  abbrev pub cpu_int_bench : BenchArgs → Readings D → D → (ℕ → Readings D) → ℕ → Option (Stressor D)
  cpu_int_bench args = strength_bench args 5000

  abbrev pub cpu_float_bench :
      BenchArgs → Readings D → D → (ℕ → Readings D) → ℕ → Option (Stressor D)
  cpu_float_bench args = strength_bench args 5000

  abbrev pub cpu_l1i_bench : BenchArgs → Readings D → D → (ℕ → Readings D) → ℕ → Option (Stressor D)
  cpu_l1i_bench args = strength_bench args 500

  abbrev pub simd_avx_bench :
      BenchArgs → Readings D → D → (ℕ → Readings D) → ℕ → Option (Stressor D)
  simd_avx_bench args = strength_bench args 5000

  -- Where the build defines `AVX512_SUPPORTED`.
  abbrev pub simd_avx512_bench :
      BenchArgs → Readings D → D → (ℕ → Readings D) → ℕ → Option (Stressor D)
  simd_avx512_bench args = strength_bench args 5000

  -- `tlb_bench_module`, from its measurement on.
  abbrev pub tlb_bench_loop :
      BenchArgs → Readings D → D → (ℕ → Readings D) → ℕ → Option (Stressor D)
  tlb_bench_loop args = strength_bench args 1000

  -- The regulation by memory bandwidth, as in rbench-mem-bw.cpp; `mem_bandwidth` is the payload.
  unfoldable pub by_bandwidth : ℕ → BenchArgs → Regulation D
  by_bandwidth bytes_add_kernel args =
      let mem_bandwidth = f.of_int (to_signed 64 args.payload) in
      record {
        actual = λ s.
            f.mul
              (f.div (f.mul s.sum_krounds (of_nat f bytes_add_kernel))
                (f.add (f.add s.sum_runtimeus s.sum_sleepus) s.sum_runidleus))
              (one_million f);
        off_target = λ actual.
            f.less actual (f.sub mem_bandwidth (of_nat f (50 * 2 ^ 20)))
            || f.less (f.add mem_bandwidth (of_nat f (50 * 2 ^ 20))) actual;
        low = λ actual. f.less actual (f.sub mem_bandwidth (of_nat f (2 * (50 * 2 ^ 20))));
        repace = λ sgl_time sgl_idle.
            membw_to_time f bytes_add_kernel args.payload sgl_time sgl_idle args.period;
      }

  -- `KERNEL_ITER*3*sizeof(stream_type)`
  abbrev pub bytes_add_kernel : ℕ
  bytes_add_kernel = 120000 * 3 * 8

  -- `mem_bw_bench_module`, from its measurement on.
  unfoldable pub mem_bw_bench_loop :
      BenchArgs → Readings D → D → (ℕ → Readings D) → ℕ → Option (Stressor D)
  unfolding by_bandwidth stress measure knl_round_limit
  mem_bw_bench_loop args first t_start readings fuel =
      let (sgl_time, sgl_idle) = measure first 10000 in
      stress f (by_bandwidth bytes_add_kernel args) (knl_round_limit args) args.time t_start
        readings fuel 0
        (fresh f (membw_to_time f bytes_add_kernel args.payload sgl_time sgl_idle args.period))

  -- The rounds that rbench-cpu-cache.cpp measures first: at least 500 and at most 5000.
  abbrev pub cache_measure_rounds : ℕ → ℕ
  cache_measure_rounds cache_size = min (max (1000000000 / cache_size) 500) 5000

  -- How a thread of the cache stressor ends: the size does not fit 32 bits, no memory is mapped,
  -- the division by a size of 0 traps, or the loop has run.
  pub data CacheBench : Type 0 where
    exceeds_uint32 mmap_fails division_by_zero : CacheBench
    ran : Option (Stressor D) → CacheBench

  unfoldable pub cache_bench_rand_access_module :
      BenchArgs → Bool → Readings D → D → (ℕ → Readings D) → ℕ → CacheBench
  unfolding strength_bench
  cache_bench_rand_access_module args mapped first t_start readings fuel =
      let cache_size = u32 args.payload in
      if not (cache_size == args.payload)
      then exceeds_uint32
      else if not mapped
      then mmap_fails
      else if cache_size == 0
      then division_by_zero
      else ran (strength_bench args (cache_measure_rounds cache_size) first t_start readings fuel)
