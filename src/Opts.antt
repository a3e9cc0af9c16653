-- ===== src/Opts.antt =====
-- rbench.hpp, `net_address_t` and `bench_args_t`; rbench.cpp, `bench_task_t` and the two tables
-- by benchmark name.
pub mod Atoi
pub mod Address
pub mod State
pub mod Handlers
pub mod Run
pub mod Parse
pub mod Valid
pub mod Invariant
pub mod Tasks
pub mod Check
pub mod Cases
pub mod Total
use r_bench_an_interference.Base.{ℕ, ◌+◌, ◌*◌, ◌/◌, ◌%◌, ◌^◌, if◌then◌else◌}
use r_bench_an_interference.Base.{Option, none, some, List, [], ◌∷◌, u64}
use r_bench_an_interference.Base.Int.{ℤ, pos, to_signed}
use r_bench_an_interference.Base.Cstring.{Cstring, codes, str_eq}

pub data IpType : Type 0 where
  ipv4 ipv6 unknown : IpType

pub record NetAddress : Type 0 where
  pub ip : Cstring
  pub port : ℕ
  pub ip_type : IpType

-- The members of the `union` share `payload`, 64 bits of little-endian memory.
pub record BenchArgs : Type 0 where
  pub bench_name : Cstring
  pub threads : ℕ
  pub strength : ℕ
  pub limit_round : ℤ
  pub time : ℕ
  pub flags : ℕ
  pub period : ℕ
  pub netaddr : NetAddress
  pub to_addr : NetAddress
  pub payload : ℕ

-- `mem_bandwidth`, `cache_size`, `tlb_page_tot` and `disk_file_size`, written.
abbrev pub set_payload : ℕ → BenchArgs → BenchArgs
set_payload v a = record a { payload = u64 v }

-- `network_pps` is the low half of the payload, and `network_psize` the high half.
abbrev pub network_pps : BenchArgs → ℤ
network_pps a = to_signed 32 (a.payload % 2 ^ 32)

abbrev pub network_psize : BenchArgs → ℤ
network_psize a = to_signed 32 (a.payload / 2 ^ 32)

abbrev pub set_network_pps : ℕ → BenchArgs → BenchArgs
set_network_pps v a = record a { payload = a.payload / 2 ^ 32 * 2 ^ 32 + v % 2 ^ 32 }

abbrev pub set_network_psize : ℕ → BenchArgs → BenchArgs
set_network_psize v a = record a { payload = a.payload % 2 ^ 32 + v % 2 ^ 32 * 2 ^ 32 }

abbrev any_address : NetAddress
any_address = record { ip = codes "0"; port = 0; ip_type = ipv4 }

-- The constructor `bench_args_t()`.
abbrev pub bench_args : BenchArgs
bench_args = record {
  bench_name = [];
  threads = 1;
  strength = 100;
  limit_round = pos 0;
  time = 0;
  flags = 0;
  period = 100000;
  netaddr = any_address;
  to_addr = any_address;
  payload = 0;
}

-- The entry functions that `bench_funcs` points to.
pub data BenchFunc : Type 0 where
  cache_bench_entry cpu_int_bench_entry cpu_float_bench_entry simd_avx_bench_entry : BenchFunc
  simd_avx512_bench_entry cpu_l1i_bench_entry tlb_bench_entry mem_bw_bench_entry : BenchFunc
  disk_write_bench_entry udp_server_bench_entry udp_client_bench_entry : BenchFunc

pub record BenchTask : Type 0 where
  pub func : BenchFunc
  pub args : BenchArgs

-- `find` in a `map` from names.
abbrev pub find {ℓ} : {V : Type ℓ} → List (Cstring × V) → Cstring → Option V
find [] name = none
find ((key, v) ∷ rest) name = if str_eq key name then some v else find rest name

pub bench_funcs : List (Cstring × BenchFunc)
bench_funcs =
    (codes "cache", cache_bench_entry)
    ∷ (codes "cacheL1", cache_bench_entry)
    ∷ (codes "cacheL2", cache_bench_entry)
    ∷ (codes "cacheL3", cache_bench_entry)
    ∷ (codes "cpu-int", cpu_int_bench_entry)
    ∷ (codes "cpu-float", cpu_float_bench_entry)
    ∷ (codes "simd-avx", simd_avx_bench_entry)
    ∷ (codes "simd-avx512", simd_avx512_bench_entry)
    ∷ (codes "cpu-l1i", cpu_l1i_bench_entry)
    ∷ (codes "tlb", tlb_bench_entry)
    ∷ (codes "mem-bw", mem_bw_bench_entry)
    ∷ (codes "disk-write", disk_write_bench_entry)
    ∷ (codes "udp-server", udp_server_bench_entry)
    ∷ (codes "udp-client", udp_client_bench_entry)
    ∷ []

pub bench_funcs_limited_default : List (Cstring × ℤ)
bench_funcs_limited_default =
    (codes "cache", pos 100000)
    ∷ (codes "cacheL1", pos 100000)
    ∷ (codes "cacheL2", pos 100000)
    ∷ (codes "cacheL3", pos 100000)
    ∷ (codes "cpu-int", pos 20000)
    ∷ (codes "cpu-float", pos 20000)
    ∷ (codes "simd-avx", pos 20000)
    ∷ (codes "simd-avx512", pos 20000)
    ∷ (codes "cpu-l1i", pos 10000)
    ∷ (codes "tlb", pos 10000)
    ∷ (codes "mem-bw", pos 50000)
    ∷ (codes "disk-write", pos 10000)
    ∷ (codes "udp-client", pos 50000)
    ∷ (codes "udp-server", pos 1000000000)
    ∷ []

unfoldable pub find_func : Cstring → Option BenchFunc
unfolding bench_funcs
find_func name = find bench_funcs name

unfoldable pub find_limited_default : Cstring → Option ℤ
unfolding bench_funcs_limited_default
find_limited_default name = find bench_funcs_limited_default name
