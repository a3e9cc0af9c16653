-- ===== src/Opts/Handlers.antt =====
-- rbench.cpp, the cases of the `switch` in `parse_opts` that set one argument of the benchmark
-- that `pargs` points to.
use r_bench_an_interference.Base.{ℕ, ◌*◌, ◌^◌, ◌||◌, leb, if◌then◌else◌, u64}
use r_bench_an_interference.Base.{Option, none, some}
use r_bench_an_interference.Base.Int.{ℤ, pos, pos_part, ltb_ℤ, leb_ℤ, to_unsigned}
use r_bench_an_interference.Base.Cstring.{Cstring, codes, strncase_eq, strchr, atoi, atoll}
use r_bench_an_interference.Cpuinfo.{CpuInfo}
use r_bench_an_interference.Flags.{is_limited, set_arg_flag}
use r_bench_an_interference.Opts.{
  BenchArgs, NetAddress, set_payload, set_network_pps, set_network_psize, find_limited_default,
}
use r_bench_an_interference.Opts.State.{Message, ParseState, set_args, pr_warning, warn_if}
use r_bench_an_interference.Opts.State

abbrev set_limit : ℤ → BenchArgs → BenchArgs
set_limit n a = record a { limit_round = n }

-- `find` at the name is dereferenced untested: `none` where the name has no default.
abbrev pub limit_default : Option ℤ → ParseState → Option ParseState
limit_default none s = none
limit_default (some n) s = some (set_args (set_limit n) s)

unfoldable pub opt_limited : Option Cstring → ParseState → Option ParseState
opt_limited arg s =
    let s' = set_args (λ a. record a { flags = set_arg_flag a.flags is_limited }) s in
    elim arg [
      | none ↦ limit_default (find_limited_default s.current.bench_name) s'
      | some optarg ↦ some (set_args (set_limit (atoll optarg)) s')
    ]

unfoldable pub opt_mem_bandwidth : Cstring → ParseState → ParseState
opt_mem_bandwidth optarg s =
    let i32 = atoi optarg in
    let bad = leb_ℤ i32 (pos 0) in
    let s' = warn_if bad (State.mem_bandwidth_ignored i32) s in
    set_args (set_payload (u64 (2 ^ 20 * (if bad then 0 else pos_part i32)))) s'

unfoldable pub opt_ninstance : CpuInfo → Cstring → ParseState → ParseState
opt_ninstance info optarg s =
    let i32 = atoi optarg in
    let newi32 = if ltb_ℤ i32 (pos 1) then pos 1 else info.online_count in
    let bad = ltb_ℤ i32 (pos 1) || ltb_ℤ info.online_count i32 in
    let s' = warn_if bad (State.ninstance_adjusted i32 info.online_count newi32) s in
    set_args (λ a. record a { threads = to_unsigned 16 (if bad then newi32 else i32) }) s'

unfoldable pub opt_strength : Cstring → ParseState → ParseState
opt_strength optarg s =
    let i32 = atoi optarg in
    let newi32 = if ltb_ℤ i32 (pos 1) then pos 1 else pos 100 in
    let bad = ltb_ℤ i32 (pos 1) || ltb_ℤ (pos 100) i32 in
    let s' = warn_if bad (State.strength_adjusted i32 newi32) s in
    let name = s.current.bench_name in
    if strncase_eq name (codes "mem-bw") 6
    then pr_warning State.strength_not_for_mem_bw s'
    else if strncase_eq name (codes "udp_") 4
    then pr_warning State.strength_not_for_network s'
    else if strncase_eq name (codes "disk") 4
    then pr_warning State.strength_not_for_disk s'
    else set_args (λ a. record a { strength = to_unsigned 8 (if bad then newi32 else i32) }) s'

unfoldable pub opt_time : Cstring → ParseState → ParseState
opt_time optarg s =
    let i32 = atoi optarg in
    let bad = leb_ℤ i32 (pos 0) in
    let s' = warn_if bad (State.time_ignored i32) s in
    set_args (λ a. record a { time = if bad then 0 else pos_part i32 }) s'

-- What stands in `optarg` around its colon.
pub data Address : Type 0 where
  no_port multiple_colon : Address
  address : Cstring → ℕ → Address

abbrev pub check_colon : Cstring → Cstring → Option (Cstring × Cstring) → Address
check_colon ip port none = address ip (to_unsigned 16 (atoi port))
check_colon ip port (some _) = multiple_colon

abbrev pub after_colon : Option (Cstring × Cstring) → Address
after_colon none = no_port
after_colon (some (ip, port)) = check_colon ip port (strchr b':' port)

unfoldable pub parse_address : Cstring → Address
parse_address optarg = after_colon (strchr b':' optarg)

abbrev pub with_address : Cstring → ℕ → NetAddress → NetAddress
with_address ip port n = record n { ip = ip; port = port }

unfoldable pub opt_addr : Cstring → ParseState → ParseState
unfolding parse_address
opt_addr optarg s = elim (parse_address optarg) [
  | no_port ↦ pr_warning State.addr_no_port s
  | multiple_colon ↦ pr_warning State.addr_multiple_colon s
  | address ip port ↦ set_args (λ a. record a { netaddr = with_address ip port a.netaddr }) s
]

unfoldable pub opt_addr_to : Cstring → ParseState → ParseState
unfolding parse_address
opt_addr_to optarg s = elim (parse_address optarg) [
  | no_port ↦ pr_warning State.addr_to_no_port s
  | multiple_colon ↦ pr_warning State.addr_to_multiple_colon s
  | address ip port ↦ set_args (λ a. record a { to_addr = with_address ip port a.to_addr }) s
]

unfoldable pub opt_cache_size : Cstring → ParseState → ParseState
opt_cache_size optarg s = set_args (set_payload (to_unsigned 32 (atoi optarg))) s

-- `atoi( optarg ) * MB`, in 64 unsigned bits.
abbrev pub megabytes : Cstring → ℕ
megabytes optarg = u64 (to_unsigned 64 (atoi optarg) * 2 ^ 20)

unfoldable pub opt_disk_file_size : Cstring → ParseState → ParseState
opt_disk_file_size optarg s =
    let i64 = megabytes optarg in
    let bad = leb i64 (100 * 2 ^ 20) in
    let s' = warn_if bad State.disk_file_size_adjusted s in
    set_args (set_payload (if bad then 100 * 2 ^ 20 else i64)) s'

unfoldable pub opt_page_tot : Cstring → ParseState → ParseState
opt_page_tot optarg s =
    let i64 = megabytes optarg in
    set_args (set_payload i64) (warn_if (leb i64 (2 ^ 30)) (State.page_tot_small i64) s)

unfoldable pub opt_pack_size : Cstring → ParseState → ParseState
opt_pack_size optarg s =
    let i32 = atoi optarg in
    if leb_ℤ i32 (pos 0)
    then pr_warning (State.pack_size_ignored i32) s
    else set_args (set_network_psize (to_unsigned 32 i32)) s

unfoldable pub opt_pack_per_sec : Cstring → ParseState → ParseState
opt_pack_per_sec optarg s =
    let i32 = atoi optarg in
    if leb_ℤ i32 (pos 0)
    then pr_warning (State.pps_ignored i32) s
    else set_args (set_network_pps (to_unsigned 32 i32)) s

unfoldable pub opt_period : Cstring → ParseState → ParseState
opt_period optarg s =
    let i32 = atoi optarg in
    set_args (λ a. record a { period = to_unsigned 32 i32 })
      (warn_if (ltb_ℤ i32 (pos 5000)) (State.period_small i32) s)
