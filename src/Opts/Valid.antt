-- ===== src/Opts/Valid.antt =====
-- rbench.cpp: what `parse_opts` guarantees of the tasks that it leaves.
use r_bench_an_interference.Base.{ℕ, ◌^◌, ◌≤◌, ◌<◌, ◌≡◌, arith}
use r_bench_an_interference.Base.{Option, none, some}
use r_bench_an_interference.Base.Int.{ℤ, pos, negsuc, to_unsigned}
use r_bench_an_interference.Base.Cstring.{Cstring, strchr, atoi}
use r_bench_an_interference.Cpuinfo.{CpuInfo}
use r_bench_an_interference.Opts.{BenchArgs}
use r_bench_an_interference.Opts.State.{ParseState, pr_warning}
use r_bench_an_interference.Opts.Atoi.{atoi_range}
use r_bench_an_interference.Opts.Handlers.{
  Address, address, check_colon, after_colon, parse_address, opt_mem_bandwidth, opt_ninstance,
  opt_strength, opt_time, opt_addr, opt_addr_to, opt_cache_size, opt_disk_file_size, opt_page_tot,
  opt_pack_size, opt_pack_per_sec, opt_period,
}

-- The ranges of the arguments; `online` is the number of processors.
pub record IsValidArgs (online : ℕ) (a : BenchArgs) : Type 0 where
  pub strength_lo : 1 ≤ a.strength
  pub strength_hi : a.strength ≤ 100
  pub threads_lo : 1 ≤ a.threads
  pub threads_hi : a.threads ≤ online
  pub time_hi : a.time < 2 ^ 31
  pub period_hi : a.period < 2 ^ 32
  pub port_hi : a.netaddr.port < 2 ^ 16
  pub to_port_hi : a.to_addr.port < 2 ^ 16
  pub payload_hi : a.payload < 2 ^ 64
  pub flags_hi : a.flags < 2 ^ 32

-- A handler of one option changes the arguments that `pargs` points to, and no other task.
pub record IsUpdate (online : ℕ) (s s' : ParseState) : Type 0 where
  pub same_earlier : s'.earlier ≡ s.earlier
  pub same_target : s'.target ≡ s.target
  pub same_flag : s'.global_flag ≡ s.global_flag
  pub same_name : s'.current.bench_name ≡ s.current.bench_name
  pub valid : IsValidArgs online s'.current

abbrev port_of : Address → ℕ
port_of (address ip port) = port
port_of _ = 0

parse_address_port : (t : Cstring) → port_of (parse_address t) < 2 ^ 16
unfolding parse_address
parse_address_port t = outer (strchr b':' t)
  where
    inner :
        (ip port : Cstring) (o : Option (Cstring × Cstring))
        → port_of (check_colon ip port o) < 2 ^ 16
    inner ip port none = unsigned16 (atoi port)
      where
        unsigned16 : (z : ℤ) → to_unsigned 16 z < 2 ^ 16
        unsigned16 (pos n) = omega arith
        unsigned16 (negsuc n) = omega arith
    inner ip port (some _) = omega arith

    outer : (o : Option (Cstring × Cstring)) → port_of (after_colon o) < 2 ^ 16
    outer none = omega arith
    outer (some (ip, port)) = inner ip port (strchr b':' port)

module _ (online : ℕ) (s : ParseState) (v : IsValidArgs online s.current) where
  pub opt_time-IsUpdate : (t : Cstring) → IsUpdate online s (opt_time t s)
  unfolding opt_time pr_warning
  opt_time-IsUpdate t = ground (arith, atoi_range t)

  pub opt_strength-IsUpdate : (t : Cstring) → IsUpdate online s (opt_strength t s)
  unfolding opt_strength pr_warning
  opt_strength-IsUpdate t = ground (arith, atoi_range t)

  pub opt_mem_bandwidth-IsUpdate : (t : Cstring) → IsUpdate online s (opt_mem_bandwidth t s)
  unfolding opt_mem_bandwidth pr_warning
  opt_mem_bandwidth-IsUpdate t = ground (arith, atoi_range t)

  pub opt_addr-IsUpdate : (t : Cstring) → IsUpdate online s (opt_addr t s)
  unfolding opt_addr pr_warning
  opt_addr-IsUpdate t = ground (arith, parse_address_port t)

  pub opt_addr_to-IsUpdate : (t : Cstring) → IsUpdate online s (opt_addr_to t s)
  unfolding opt_addr_to pr_warning
  opt_addr_to-IsUpdate t = ground (arith, parse_address_port t)

  pub opt_cache_size-IsUpdate : (t : Cstring) → IsUpdate online s (opt_cache_size t s)
  unfolding opt_cache_size
  opt_cache_size-IsUpdate t = ground arith

  pub opt_disk_file_size-IsUpdate : (t : Cstring) → IsUpdate online s (opt_disk_file_size t s)
  unfolding opt_disk_file_size pr_warning
  opt_disk_file_size-IsUpdate t = ground arith

  pub opt_page_tot-IsUpdate : (t : Cstring) → IsUpdate online s (opt_page_tot t s)
  unfolding opt_page_tot pr_warning
  opt_page_tot-IsUpdate t = ground arith

  pub opt_pack_size-IsUpdate : (t : Cstring) → IsUpdate online s (opt_pack_size t s)
  unfolding opt_pack_size pr_warning
  opt_pack_size-IsUpdate t = ground arith

  pub opt_pack_per_sec-IsUpdate : (t : Cstring) → IsUpdate online s (opt_pack_per_sec t s)
  unfolding opt_pack_per_sec pr_warning
  opt_pack_per_sec-IsUpdate t = ground arith

  pub opt_period-IsUpdate : (t : Cstring) → IsUpdate online s (opt_period t s)
  unfolding opt_period pr_warning
  opt_period-IsUpdate t = ground (arith, atoi_range t)

  pub opt_ninstance-IsUpdate :
      (info : CpuInfo) (t : Cstring)
      → info.online_count ≡ pos online
      → 1 ≤ online
      → online < 2 ^ 16
      → IsUpdate online s (opt_ninstance info t s)
  unfolding opt_ninstance pr_warning
  opt_ninstance-IsUpdate info t e lo hi = ground (arith, atoi_range t)
