-- ===== src/Launch/Share.antt =====
-- rbench.cpp, `main`: which threads a task joins itself, and which it leaves to `main`.
use r_bench_an_interference.Base.{
  ◌≡◌, Bool, true, false, Option, none, some, List, [], ◌∷◌, ◌++◌, if◌then◌else◌,
}
use r_bench_an_interference.Base.Int.{ℤ, pos, negsuc}
use r_bench_an_interference.Flags.{is_run_parallel, get_arg_flag}
use r_bench_an_interference.Opts.{
  BenchArgs, BenchFunc, BenchTask, cache_bench_entry, cpu_int_bench_entry, cpu_float_bench_entry,
  simd_avx_bench_entry, simd_avx512_bench_entry, cpu_l1i_bench_entry, tlb_bench_entry,
  mem_bw_bench_entry, disk_write_bench_entry, udp_server_bench_entry, udp_client_bench_entry,
}
use r_bench_an_interference.Udp.Entry
use r_bench_an_interference.Launch.{Started, start_threads, Machine}

-- The threads that a task joins itself, and those that it leaves to `main`.
abbrev pub Share : Type 0
Share = List Started × List Started

abbrev pub share_of : Bool → List Started → Share
share_of true thrs = ([], thrs)
share_of false thrs = (thrs, [])

abbrev pub udp_share : List Started → Option ℤ → Share
udp_share thrs none = ([], [])
udp_share thrs (some (pos n)) = (thrs, [])
udp_share thrs (some (negsuc n)) = ([], [])

-- The threads of a task and their share. Where an entry of rbench-udp.cpp does not return, it is empty.
unfoldable pub share : Machine → BenchFunc → BenchArgs → Share
share m cache_bench_entry args =
    share_of (get_arg_flag args.flags is_run_parallel)
      (start_threads cache_bench_entry 1 args.threads)
share m cpu_int_bench_entry args =
    share_of (get_arg_flag args.flags is_run_parallel)
      (start_threads cpu_int_bench_entry 1 args.threads)
share m cpu_float_bench_entry args =
    share_of (get_arg_flag args.flags is_run_parallel)
      (start_threads cpu_float_bench_entry 1 args.threads)
share m simd_avx_bench_entry args =
    share_of (get_arg_flag args.flags is_run_parallel)
      (start_threads simd_avx_bench_entry 1 args.threads)
share m simd_avx512_bench_entry args =
    share_of (get_arg_flag args.flags is_run_parallel)
      (start_threads simd_avx512_bench_entry 1 args.threads)
share m cpu_l1i_bench_entry args =
    share_of (get_arg_flag args.flags is_run_parallel)
      (start_threads cpu_l1i_bench_entry 1 args.threads)
share m tlb_bench_entry args =
    share_of (get_arg_flag args.flags is_run_parallel)
      (start_threads tlb_bench_entry 1 args.threads)
share m disk_write_bench_entry args =
    share_of (get_arg_flag args.flags is_run_parallel)
      (start_threads disk_write_bench_entry 1 args.threads)
share m mem_bw_bench_entry args =
    if m.mapped
    then share_of (get_arg_flag args.flags is_run_parallel)
        (start_threads mem_bw_bench_entry 1 args.threads)
    else ([], [])
share m udp_server_bench_entry args =
    udp_share (start_threads udp_server_bench_entry 1 args.threads)
      (Entry.udp_server_bench_entry args m.server m.listenbuf m.fuel)
share m udp_client_bench_entry args =
    udp_share (start_threads udp_client_bench_entry 1 args.threads)
      (Entry.udp_client_bench_entry args m.client m.fuel)

-- An entry of rbench-udp.cpp returns; the others always do.
abbrev pub Returns : Machine → BenchFunc → BenchArgs → Type 0
Returns m cache_bench_entry args = Unit
Returns m cpu_int_bench_entry args = Unit
Returns m cpu_float_bench_entry args = Unit
Returns m simd_avx_bench_entry args = Unit
Returns m simd_avx512_bench_entry args = Unit
Returns m cpu_l1i_bench_entry args = Unit
Returns m tlb_bench_entry args = Unit
Returns m mem_bw_bench_entry args = Unit
Returns m disk_write_bench_entry args = Unit
Returns m udp_server_bench_entry args =
    (n : ℤ) × (Entry.udp_server_bench_entry args m.server m.listenbuf m.fuel ≡ some n)
Returns m udp_client_bench_entry args =
    (n : ℤ) × (Entry.udp_client_bench_entry args m.client m.fuel ≡ some n)

abbrev pub own : Machine → List BenchTask → List Started
own m [] = []
own m (task ∷ tasks) = (share m task.func task.args).0 ++ own m tasks

abbrev pub left : Machine → List BenchTask → List Started
left m [] = []
left m (task ∷ tasks) = (share m task.func task.args).1 ++ left m tasks
