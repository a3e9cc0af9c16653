-- ===== src/Opts/State.antt =====
-- rbench.cpp, the state of `parse_opts`: `bench_tasks`, `global_flag`, and what `pargs` points to;
-- rbench-core.cpp, the test of `pr_warning`.
use r_bench_an_interference.Base.{
  ℕ, Bool, true, false, if◌then◌else◌, Option, none, some, List, [], ◌∷◌, ◌++◌,
}
use r_bench_an_interference.Base.Int.{ℤ}
use r_bench_an_interference.Base.Cstring.{Cstring}
use r_bench_an_interference.Flags.{no_warn, get_arg_flag}
use r_bench_an_interference.Opts.{BenchArgs, BenchFunc, BenchTask, bench_args}

-- The messages, by their format and arguments.
pub data Message : Type 0 where
  mem_bandwidth_ignored : ℤ → Message
  ninstance_adjusted : ℤ → ℤ → ℤ → Message
  no_such_benchmark : Cstring → Message
  strength_adjusted : ℤ → ℤ → Message
  strength_not_for_mem_bw strength_not_for_network strength_not_for_disk : Message
  time_ignored : ℤ → Message
  addr_multiple_colon addr_no_port addr_to_multiple_colon addr_to_no_port : Message
  disk_file_size_adjusted : Message
  page_tot_small : ℕ → Message
  pack_size_ignored : ℤ → Message
  pps_ignored : ℤ → Message
  period_small : ℤ → Message
  unknown_argument : Message

-- `pargs` points to `null_buffer` until a task is made, and from then on to the arguments of the
-- last task. `current` is what it points to, `target` the function of that task, and `earlier`
-- holds the tasks before it.
pub record ParseState : Type 0 where
  pub earlier : List BenchTask
  pub target : Option BenchFunc
  pub current : BenchArgs
  pub global_flag : ℕ
  pub log : List Message

-- Whether `pargs` points to a task.
abbrev pub has_target : Option BenchFunc → Bool
has_target none = false
has_target (some f) = true

-- `bench_tasks`
abbrev pub tasks_of : List BenchTask → Option BenchFunc → BenchArgs → List BenchTask
tasks_of earlier none current = earlier
tasks_of earlier (some f) current = earlier ++ (record { func = f; args = current } ∷ [])

abbrev pub bench_tasks : ParseState → List BenchTask
bench_tasks s = tasks_of s.earlier s.target s.current

-- `bench_tasks.emplace_back( func , bench_args_t() )`, and `pargs` set to its arguments.
unfoldable pub emplace_task : BenchFunc → BenchArgs → ParseState → ParseState
emplace_task f args s = record s { earlier = bench_tasks s; target = some f; current = args }

-- An assignment through `pargs`.
abbrev pub set_args : (BenchArgs → BenchArgs) → ParseState → ParseState
set_args f s = record s { current = f s.current }

unfoldable pub pr_warning : Message → ParseState → ParseState
pr_warning message s =
    if get_arg_flag s.global_flag no_warn then s else record s { log = s.log ++ (message ∷ []) }

unfoldable pub pr_error : Message → ParseState → ParseState
pr_error message s = record s { log = s.log ++ (message ∷ []) }

-- A warning where the test says so.
abbrev pub warn_if : Bool → Message → ParseState → ParseState
warn_if test message s = if test then pr_warning message s else s

abbrev pub start : ParseState
start = record { earlier = []; target = none; current = bench_args; global_flag = 0; log = [] }
