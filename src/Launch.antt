-- ===== src/Launch.antt =====
-- rbench.cpp, `main` from `parse_opts` on, and the entries of the stressors: which threads are
-- started, and where they are joined.
pub mod Share
pub mod Laws
use r_bench_an_interference.Base.{
  ℕ, zero, suc, ◌+◌, ◌^◌, ltb, Bool, true, false, Option, none, some, List, [], ◌∷◌, ◌++◌,
  if◌then◌else◌, length,
}
use r_bench_an_interference.Base.Int.{ℤ, pos, negsuc}
use r_bench_an_interference.Base.Cstring.{Cstring}
use r_bench_an_interference.Flags.{is_run_parallel, get_arg_flag}
use r_bench_an_interference.Opts.{
  BenchArgs, BenchFunc, BenchTask, cache_bench_entry, cpu_int_bench_entry, cpu_float_bench_entry,
  simd_avx_bench_entry, simd_avx512_bench_entry, cpu_l1i_bench_entry, tlb_bench_entry,
  mem_bw_bench_entry, disk_write_bench_entry, udp_server_bench_entry, udp_client_bench_entry,
}
use r_bench_an_interference.Udp.Entry.{World}
use r_bench_an_interference.Udp.Entry

-- A thread of a task, by its number, which counts from 1.
pub record Started : Type 0 where
  pub func : BenchFunc
  pub thrid : ℕ

-- `glob_threads` up to `glob_thr_cnt`, and the threads that have been joined, in order.
pub record Threads : Type 0 where
  pub glob_threads : List Started
  pub joined : List Started

-- `thrs[i] = thread( … , i + 1 , args )` for the threads that are left.
abbrev pub start_threads : BenchFunc → ℕ → ℕ → List Started
start_threads func thrid zero = []
start_threads func thrid (suc left) =
    record { func = func; thrid = thrid } ∷ start_threads func (suc thrid) left

-- `glob_threads[glob_thr_cnt++].swap( thr )`; nothing is said of a write behind the 1000 slots.
unfoldable pub swap_all : List Started → List Started → Option (List Started)
swap_all [] glob_threads = some glob_threads
swap_all (thr ∷ thrs) glob_threads = elim (ltb (length glob_threads) 1000) [
  | false ↦ none
  | true ↦ swap_all thrs (glob_threads ++ (thr ∷ []))
]

-- The end that the entries share: the threads are left to `main`, or joined.
unfoldable pub launch : BenchFunc → BenchArgs → Threads → Option Threads
unfolding swap_all
launch func args g =
    let thrs = start_threads func 1 args.threads in
    elim (get_arg_flag args.flags is_run_parallel) [
      | true ↦ elim (swap_all thrs g.glob_threads) [
        | none ↦ none
        | some glob_threads ↦ some (record g { glob_threads = glob_threads })
      ]
      | false ↦ some (record g { joined = g.joined ++ thrs })
    ]

-- The entries by the files that they stand in.
abbrev pub cache_entry : BenchArgs → Threads → Option Threads
cache_entry = launch cache_bench_entry

abbrev pub cpu_int_entry : BenchArgs → Threads → Option Threads
cpu_int_entry = launch cpu_int_bench_entry

abbrev pub cpu_float_entry : BenchArgs → Threads → Option Threads
cpu_float_entry = launch cpu_float_bench_entry

abbrev pub simd_avx_entry : BenchArgs → Threads → Option Threads
simd_avx_entry = launch simd_avx_bench_entry

abbrev pub simd_avx512_entry : BenchArgs → Threads → Option Threads
simd_avx512_entry = launch simd_avx512_bench_entry

abbrev pub cpu_l1i_entry : BenchArgs → Threads → Option Threads
cpu_l1i_entry = launch cpu_l1i_bench_entry

abbrev pub tlb_entry : BenchArgs → Threads → Option Threads
tlb_entry = launch tlb_bench_entry

abbrev pub disk_write_entry : BenchArgs → Threads → Option Threads
disk_write_entry = launch disk_write_bench_entry

-- `mapped` says whether its three blocks of memory are there; it returns -1 otherwise.
abbrev pub mem_bw_entry : Bool → BenchArgs → Threads → Option Threads
mem_bw_entry mapped args g = if mapped then launch mem_bw_bench_entry args g else some g

-- An entry of rbench-udp.cpp has joined its threads when it returns 0, and has none when it returns -1.
abbrev pub udp_entry : BenchFunc → BenchArgs → Option ℤ → Threads → Option Threads
udp_entry func args none g = none
udp_entry func args (some (pos n)) g =
    some (record g { joined = g.joined ++ start_threads func 1 args.threads })
udp_entry func args (some (negsuc n)) g = some g

-- What the entries meet; the fuel is for the loops of rbench-udp.cpp.
pub record Machine : Type 0 where
  pub mapped : Bool
  pub client : World
  pub server : World
  pub listenbuf : Cstring
  pub fuel : ℕ

-- `task.func( task.args )`
unfoldable pub call : Machine → BenchFunc → BenchArgs → Threads → Option Threads
unfolding launch r_bench_an_interference.Udp.Entry.udp_client_bench_entry
    r_bench_an_interference.Udp.Entry.udp_server_bench_entry
call m cache_bench_entry args g = cache_entry args g
call m cpu_int_bench_entry args g = cpu_int_entry args g
call m cpu_float_bench_entry args g = cpu_float_entry args g
call m simd_avx_bench_entry args g = simd_avx_entry args g
call m simd_avx512_bench_entry args g = simd_avx512_entry args g
call m cpu_l1i_bench_entry args g = cpu_l1i_entry args g
call m tlb_bench_entry args g = tlb_entry args g
call m mem_bw_bench_entry args g = mem_bw_entry m.mapped args g
call m disk_write_bench_entry args g = disk_write_entry args g
call m udp_server_bench_entry args g =
    udp_entry udp_server_bench_entry args
      (Entry.udp_server_bench_entry args m.server m.listenbuf m.fuel) g
call m udp_client_bench_entry args g =
    udp_entry udp_client_bench_entry args (Entry.udp_client_bench_entry args m.client m.fuel) g

unfoldable pub call_all : Machine → List BenchTask → Threads → Option Threads
unfolding call
call_all m [] g = some g
call_all m (task ∷ tasks) g = elim (call m task.func task.args g) [
  | none ↦ none
  | some g' ↦ call_all m tasks g'
]

-- `main` after `parse_opts`: the calls, and the joins of what they have left. The result is the
-- order of the joins.
unfoldable pub run_tasks : Machine → List BenchTask → Option (List Started)
unfolding call_all
run_tasks m tasks = elim (call_all m tasks (record { glob_threads = []; joined = [] })) [
  | none ↦ none
  | some g ↦ some (g.joined ++ g.glob_threads)
]
