-- ===== src/Opts/Run.antt =====
-- rbench.cpp, the cases of the `switch` in `parse_opts` that make tasks: `OPT_run` and `OPT_check`.
use r_bench_an_interference.Base.{ℕ, ◌*◌, ◌^◌, if◌then◌else◌, Option, none, some, List, [], ◌∷◌}
use r_bench_an_interference.Base.Cstring.{Cstring, codes, strncase_eq}
use r_bench_an_interference.Cpuinfo.{CpuInfo, get_data_cache_size_level}
use r_bench_an_interference.Flags.{is_check, is_limited, set_arg_flag}
use r_bench_an_interference.Opts.{
  BenchArgs, BenchFunc, BenchTask, bench_args, set_payload, set_network_pps, set_network_psize,
  find_func, find_limited_default,
}
use r_bench_an_interference.Opts.State.{ParseState, bench_tasks, emplace_task, set_args, pr_warning}
use r_bench_an_interference.Opts.State

infixl 5 ◌>>=◌
abbrev pub ◌>>=◌ : {A B : Type 0} → Option A → (A → Option B) → Option B
none >>= k = none
some x >>= k = k x

-- `pargs->cache_size = cpuinfo.get_data_cache_size_level( level )`
unfoldable pub set_cache_level : CpuInfo → ℕ → BenchArgs → Option BenchArgs
set_cache_level info level a = do
  size ← get_data_cache_size_level info level
  some (set_payload size a)

abbrev pub default_tlb_page_tot : ℕ
default_tlb_page_tot = 8 * 2 ^ 30

-- The settings by name that follow a new task: the chain behind the first test.
unfoldable pub run_chain : CpuInfo → Cstring → BenchArgs → Option BenchArgs
unfolding set_cache_level
run_chain info name a =
    if strncase_eq name (codes "disk-write") 10
    then some (set_payload (1 * 2 ^ 30) a)
    else if strncase_eq name (codes "cacheL1") 7
    then set_cache_level info 1 a
    else if strncase_eq name (codes "cacheL2") 7
    then set_cache_level info 2 a
    else if strncase_eq name (codes "cacheL3") 7
    then set_cache_level info 3 a
    else if strncase_eq name (codes "udp-server") 10
    then some (set_network_psize 64 (set_network_pps 0 a))
    else if strncase_eq name (codes "udp-client") 10
    then some (set_network_psize 64 (set_network_pps 0 a))
    else some a

-- The first test, and the chain.
unfoldable pub run_defaults : CpuInfo → Cstring → BenchArgs → Option BenchArgs
unfolding run_chain
run_defaults info name a =
    run_chain info name
      (if strncase_eq name (codes "tlb") 3 then set_payload default_tlb_page_tot a else a)

abbrev pub run_found : CpuInfo → Cstring → ParseState → Option BenchFunc → Option ParseState
run_found info name s none = some (pr_warning (State.no_such_benchmark name) s)
run_found info name s (some f) = do
  a ← run_defaults info name (record bench_args { bench_name = name })
  some (emplace_task f a s)

unfoldable pub opt_run : CpuInfo → Cstring → ParseState → Option ParseState
unfolding run_defaults
opt_run info optarg s = run_found info optarg s (find_func optarg)

-- A task of the preset check: `find` at its name is dereferenced, then the arguments are set.
unfoldable pub check_task :
    Cstring → (BenchArgs → Option BenchArgs) → ParseState → Option ParseState
check_task name settings s = do
  f ← find_func name
  a ← settings (record bench_args { bench_name = name })
  some (emplace_task f a s)

-- The tasks of the preset check, in order.
unfoldable pub check_tasks : CpuInfo → List (Cstring × (BenchArgs → Option BenchArgs))
unfolding set_cache_level
check_tasks info =
    (codes "cpu-int", some)
    ∷ (codes "cpu-float", some)
    ∷ (codes "simd-avx", some)
    ∷ (codes "simd-avx512", some)
    ∷ (codes "cpu-l1i", set_cache_level info 1)
    ∷ (codes "cacheL1", set_cache_level info 1)
    ∷ (codes "cacheL2", set_cache_level info 2)
    ∷ (codes "cacheL3", set_cache_level info 3)
    ∷ (codes "tlb", λ a. some (set_payload default_tlb_page_tot a))
    ∷ (codes "mem-bw", some)
    ∷ []

unfoldable pub emplace_all :
    List (Cstring × (BenchArgs → Option BenchArgs)) → ParseState → Option ParseState
unfolding check_task
emplace_all [] s = some s
emplace_all ((name, settings) ∷ rest) s = do s' ← check_task name settings s; emplace_all rest s'

-- `limit_round` of one task from the table of defaults.
unfoldable pub default_limit : BenchArgs → Option BenchArgs
default_limit a = do n ← find_limited_default a.bench_name; some (record a { limit_round = n })

unfoldable pub default_limits : List BenchTask → Option (List BenchTask)
unfolding default_limit
default_limits [] = some []
default_limits (t ∷ rest) = do
  a ← default_limit t.args
  rest' ← default_limits rest
  some (record t { args = a } ∷ rest')

-- The loop over all tasks; the last of them is the one that `pargs` points to. With no task the
-- null buffer is left alone.
abbrev pub limit_with : Option BenchFunc → ParseState → Option ParseState
limit_with none s = some s
limit_with (some f) s = do
  earlier ← default_limits s.earlier
  a ← default_limit s.current
  some (record s { earlier = earlier; current = a })

unfoldable pub limit_all : ParseState → Option ParseState
unfolding default_limits
limit_all s = limit_with s.target s

unfoldable pub opt_check : CpuInfo → ParseState → Option ParseState
unfolding emplace_all limit_all check_tasks
opt_check info s = do
  s' ←
      emplace_all (check_tasks info)
        (record s { global_flag = set_arg_flag (set_arg_flag s.global_flag is_check) is_limited })
  limit_all s'
