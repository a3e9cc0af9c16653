-- ===== src/Opts/Parse.antt =====
-- rbench.cpp, `parse_opts`: `argvopt_t`, `long_options`, the `switch`, the loop and what follows it.
-- `getopt_long` belongs to the C library: what it returns is the list of events, each the value
-- and `optarg`, up to the -1 at the end.
use r_bench_an_interference.Base.{
  ℕ, ◌==◌, if◌then◌else◌, Bool, true, false, bit_or, Option, none, some, List, [], ◌∷◌, map,
}
use r_bench_an_interference.Base.Cstring.{Cstring, codes}
use r_bench_an_interference.Cpuinfo.{CpuInfo}
use r_bench_an_interference.Flags.{
  ArgFlag, print_debug_info, is_check, is_run_parallel, no_warn, set_arg_flag, get_arg_flag,
}
use r_bench_an_interference.Opts.{BenchTask}
use r_bench_an_interference.Opts.State.{Message, ParseState, bench_tasks, pr_error, start}
use r_bench_an_interference.Opts.State
use r_bench_an_interference.Opts.Handlers.{
  opt_limited, opt_mem_bandwidth, opt_ninstance, opt_strength, opt_time, opt_addr, opt_addr_to,
  opt_cache_size, opt_disk_file_size, opt_page_tot, opt_pack_size, opt_pack_per_sec, opt_period,
}
use r_bench_an_interference.Opts.Run.{◌>>=◌, opt_run, opt_check}

-- `argvopt_t`, without the two values that no option has.
pub data ArgvOpt : Type 0 where
  limited mem_bandwidth ninstance run strength time addr addr_to cache_size check debug : ArgvOpt
  disk_file_size no_warning page_tot pack_per_sec pack_size parallel period : ArgvOpt

unfoldable pub code_of : ArgvOpt → ℕ
code_of limited = b'l'
code_of mem_bandwidth = b'b'
code_of ninstance = b'n'
code_of run = b'r'
code_of strength = b's'
code_of time = b't'
code_of addr = 0x80
code_of addr_to = 0x81
code_of cache_size = 0x82
code_of check = 0x83
code_of debug = 0x84
code_of disk_file_size = 0x85
code_of no_warning = 0x86
code_of page_tot = 0x87
code_of pack_per_sec = 0x88
code_of pack_size = 0x89
code_of parallel = 0x8a
code_of period = 0x8b

abbrev pub all_opts : List ArgvOpt
all_opts =
    limited ∷ mem_bandwidth ∷ ninstance ∷ run ∷ strength ∷ time ∷ addr ∷ addr_to ∷ cache_size
    ∷ check ∷ debug ∷ disk_file_size ∷ no_warning ∷ page_tot ∷ pack_size ∷ pack_per_sec ∷ parallel
    ∷ period ∷ []

-- The case of the `switch` that a value of `c` takes; `none` is the default.
abbrev pub case_among : List ArgvOpt → ℕ → Option ArgvOpt
case_among [] c = none
case_among (o ∷ rest) c = if code_of o == c then some o else case_among rest c

unfoldable pub switch : ℕ → Option ArgvOpt
unfolding code_of
switch c = case_among all_opts c

pub data HasArg : Type 0 where
  no_argument required_argument optional_argument : HasArg

unfoldable pub long_options : List (Cstring × HasArg × ArgvOpt)
long_options =
    (codes "limited", optional_argument, limited)
    ∷ (codes "mem-bandwidth", required_argument, mem_bandwidth)
    ∷ (codes "mb", required_argument, mem_bandwidth)
    ∷ (codes "ninstance", required_argument, ninstance)
    ∷ (codes "instance", required_argument, ninstance)
    ∷ (codes "run", required_argument, run)
    ∷ (codes "strength", required_argument, strength)
    ∷ (codes "time", required_argument, time)
    ∷ (codes "addr", required_argument, addr)
    ∷ (codes "addr-to", required_argument, addr_to)
    ∷ (codes "to-addr", required_argument, addr_to)
    ∷ (codes "cache-size", required_argument, cache_size)
    ∷ (codes "check", no_argument, check)
    ∷ (codes "debug", no_argument, debug)
    ∷ (codes "diskfile-size", required_argument, disk_file_size)
    ∷ (codes "no-warn", no_argument, no_warning)
    ∷ (codes "page-tot", required_argument, page_tot)
    ∷ (codes "pack-per-sec", required_argument, pack_per_sec)
    ∷ (codes "pps", required_argument, pack_per_sec)
    ∷ (codes "pack-size", required_argument, pack_size)
    ∷ (codes "psize", required_argument, pack_size)
    ∷ (codes "parallel", no_argument, parallel)
    ∷ (codes "period", required_argument, period)
    ∷ []

-- A case that reads `optarg`; where that is null the read is undefined.
abbrev pub with_arg :
    Option Cstring → (Cstring → ParseState → ParseState) → ParseState → Option ParseState
with_arg none handler s = none
with_arg (some optarg) handler s = some (handler optarg s)

abbrev pub set_global : ArgFlag → ParseState → ParseState
set_global flag s = record s { global_flag = set_arg_flag s.global_flag flag }

-- The body of the `switch`.
unfoldable pub handle : CpuInfo → Option ArgvOpt → Option Cstring → ParseState → Option ParseState
handle info none arg s = some (pr_error State.unknown_argument s)
handle info (some limited) arg s = opt_limited arg s
handle info (some mem_bandwidth) arg s = with_arg arg opt_mem_bandwidth s
handle info (some ninstance) arg s = with_arg arg (opt_ninstance info) s
handle info (some run) none s = none
handle info (some run) (some optarg) s = opt_run info optarg s
handle info (some strength) arg s = with_arg arg opt_strength s
handle info (some time) arg s = with_arg arg opt_time s
handle info (some addr) arg s = with_arg arg opt_addr s
handle info (some addr_to) arg s = with_arg arg opt_addr_to s
handle info (some cache_size) arg s = with_arg arg opt_cache_size s
handle info (some check) arg s = opt_check info s
handle info (some debug) arg s = some (set_global print_debug_info s)
handle info (some disk_file_size) arg s = with_arg arg opt_disk_file_size s
handle info (some no_warning) arg s = some (set_global no_warn s)
handle info (some page_tot) arg s = with_arg arg opt_page_tot s
handle info (some pack_size) arg s = with_arg arg opt_pack_size s
handle info (some pack_per_sec) arg s = with_arg arg opt_pack_per_sec s
handle info (some parallel) arg s = some (set_global is_run_parallel s)
handle info (some period) arg s = with_arg arg opt_period s

pub record Event : Type 0 where
  pub c : ℕ
  pub optarg : Option Cstring

-- The `while` loop. It stops before the next event once the check flag is set.
unfoldable pub parse_loop : CpuInfo → List Event → ParseState → Option ParseState
unfolding handle switch
parse_loop info [] s = some s
parse_loop info (e ∷ rest) s = elim (get_arg_flag s.global_flag is_check) [
  | true ↦ some s
  | false ↦ handle info (switch e.c) e.optarg s >>= parse_loop info rest
]

-- What `parse_opts` leaves, and whether it printed the usage help.
pub record Parsed : Type 0 where
  pub tasks : List BenchTask
  pub global_flag : ℕ
  pub log : List Message
  pub helped : Bool

abbrev pub add_flags : ℕ → BenchTask → BenchTask
add_flags flags t = record t { args = record (t.args) { flags = bit_or t.args.flags flags } }

-- The loop behind the `while`.
unfoldable pub finish : ParseState → Parsed
finish s = record {
  tasks = map (add_flags s.global_flag) (bench_tasks s);
  global_flag = s.global_flag;
  log = s.log;
  helped = false;
}

unfoldable pub parse_opts : CpuInfo → ℕ → List Event → Option Parsed
unfolding parse_loop finish
parse_opts info argc events =
    if argc == 1
    then some (record { tasks = []; global_flag = 0; log = []; helped = true })
    else (parse_loop info events start >>= λ s. some (finish s))
