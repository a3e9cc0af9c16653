-- ===== src/Mapping.antt =====
-- rbench-core.cpp, `mmap_with_retry`, and the blocks that the threads of rbench-cpu-cache.cpp and
-- rbench-cpu-tlb.cpp place in what it maps. The answers of `mmap` are an argument.
pub mod Line
pub mod Cache
pub mod Tlb
use r_bench_an_interference.Base.{
  ℕ, zero, suc, ◌+◌, ◌-◌, ◌/◌, ◌%◌, ◌==◌, not, if◌then◌else◌, Option, none, some, List, [], ◌∷◌,
  ◌++◌, u32, min, max, ltb, map, get_elem?, Bool, true, false,
}
use r_bench_an_interference.Cpuinfo.{CacheType, type_instruction, CpuCache, CpuInfo}
use r_bench_an_interference.Mwc.{Mwc}
use r_bench_an_interference.Kernels.Cache.{cache_bench_rdacc_kernel}

-- The answers to the first and to the second call, by the size asked for; `none` is `MAP_FAILED`.
abbrev pub Mmap : Type 0
Mmap = ℕ → ℕ → Option ℕ

unfoldable pub mmap_with_retry : Mmap → ℕ → Option ℕ
mmap_with_retry mmap size = elim (mmap 0 size) [ some block ↦ some block | none ↦ mmap 1 size ]

-- `block + align - (uintptr_t)block % align`
abbrev pub block_aligned : ℕ → ℕ → ℕ
block_aligned align block = block + align - block % align

abbrev pub is_instruction : CacheType → Bool
is_instruction type_instruction = true
is_instruction _ = false

-- The body of the loop over `cpuinfo.caches` in `cache_bench_entry`.
abbrev pub next_line : ℕ → CpuCache → ℕ → ℕ
next_line cache_size c line =
    if is_instruction c.kind then line else if ltb c.size cache_size then c.line_size else line

-- The loop from index `i`, with the indices that are left. `none` is a read past the array.
unfoldable pub find_line : ℕ → List CpuCache → ℕ → ℕ → ℕ → Option ℕ
find_line cache_size caches zero i line = some line
find_line cache_size caches (suc left) i line = elim (get_elem? caches i) [
  | none ↦ none
  | some c ↦ find_line cache_size caches left (suc i) (next_line cache_size c line)
]

-- `UNIVERSAL_CACHELINE`
abbrev pub universal_cacheline : ℕ
universal_cacheline = 64

unfoldable pub cache_line_size : CpuInfo → ℕ → Option ℕ
unfolding find_line
cache_line_size info cache_size =
    find_line cache_size info.caches info.cache_count 0 universal_cacheline

-- `std::min( std::max( int( 1000000000ll / cache_size ) , 500 ) , 5000 )`
abbrev pub measure_rounds : ℕ → ℕ
measure_rounds cache_size = min (max (1000000000 / cache_size) 500) 5000

-- The measurement: calls of the kernel, and the indices of all accesses. `fuel` is that of each
-- draw, and `turns` that of each call.
unfoldable pub measure : ℕ → ℕ → ℕ → ℕ → Mwc → Option (List ℕ × Mwc)
unfolding cache_bench_rdacc_kernel
measure fuel turns cache_size zero mwc_eng = some ([], mwc_eng)
measure fuel turns cache_size (suc left) mwc_eng =
    elim (cache_bench_rdacc_kernel fuel cache_size turns mwc_eng) [
      | none ↦ none
      | some (indices, next) ↦ elim (measure fuel turns cache_size left next) [
        | none ↦ none
        | some (rest, last) ↦ some (indices ++ rest, last)
      ]
    ]

-- How a thread of the cache stressor comes to its loop, with the addresses that its measurement has
-- counted up; or it returns, or divides by 0.
pub data CacheStart : Type 0 where
  size_exceeds : CacheStart
  no_memory : CacheStart
  divided_by_zero : CacheStart
  unfinished : CacheStart
  measured : ℕ → List ℕ → Mwc → CacheStart

unfoldable pub in_block : ℕ → ℕ → Option (List ℕ × Mwc) → CacheStart
in_block line block none = unfinished
in_block line block (some (indices, mwc_eng)) =
    measured block (map (λ i. block_aligned line block + i) indices) mwc_eng

-- `cache_bench_rand_access_module` up to its loop. The sum of the sizes is one of `uint32_t`.
unfoldable pub cache_bench_rand_access_module : Mmap → ℕ → ℕ → ℕ → ℕ → Mwc → CacheStart
unfolding in_block
cache_bench_rand_access_module mmap fuel turns args_size line mwc_eng =
    if not (u32 args_size == args_size)
    then size_exceeds
    else elim (mmap_with_retry mmap (u32 (u32 args_size + line))) [
      | none ↦ no_memory
      | some block ↦
          if line == 0
          then divided_by_zero
          else if args_size == 0
          then divided_by_zero
          else in_block line block
              (measure fuel turns (u32 args_size) (measure_rounds (u32 args_size)) mwc_eng)
    ]
