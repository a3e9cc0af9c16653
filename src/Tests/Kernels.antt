-- ===== src/Tests/Kernels.antt =====
-- rbench-mem-bw.cpp, rbench-cpu-tlb.cpp, rbench-cpu-cache.cpp, rbench-cpu-l1igen.cpp and
-- rbench-cpu-int.cpp: the theorems on a few cells, pages, sizes and rounds, and the results that
-- the integer kernel expects.
use r_bench_an_interference.Base.{
  ℕ, ◌+◌, ◌*◌, ◌≡◌, ◌<◌, ◌^◌, ◌==◌, if◌then◌else◌, [], ◌∷◌, refl, arith, true, some,
}
use r_bench_an_interference.Mwc.{mwc, mwc32}
use r_bench_an_interference.Kernels.Membw.{
  mem_bw_add_kernel, Added, mem_bw_add_kernel-Added, array_len, slice_start, slices_apart,
  instance_array_len,
}
use r_bench_an_interference.Kernels.L1i.{cpu_l1i_kernel}
use r_bench_an_interference.Kernels.L1i.Run.{kernel_returns-one}
use r_bench_an_interference.Kernels.Tlb.{Sequence, access_sequence, access_sequence-Sequence}
use r_bench_an_interference.Kernels.Cache.{}
use r_bench_an_interference.Kernels.Integer.{
  int_ops_kernel, int_ops_ikernel, iterations, seeded, iteration,
}
use r_bench_an_interference.Tests.Mwc.{second_state, fifth}
use r_bench_an_interference.Kernels.Membw.Rounds.{mem_bw_rounds, mem_bw_rounds-fill}
use r_bench_an_interference.Cpuinfo.{CpuInfo, type_data, type_instruction, type_unified}
use r_bench_an_interference.Mapping.{
  Mmap, no_memory, cache_line_size, cache_bench_rand_access_module,
}
use r_bench_an_interference.Mapping.Line.{IsLineOfLast, cache_line_size-IsLineOfLast}
use r_bench_an_interference.Mapping.Cache.{InMapping, cache_thread-InMapping}
use r_bench_an_interference.Base.{◌⊎◌, none}
use r_bench_an_interference.Base.Int.{pos}

mem_bw_add_kernel-Added_example :
    Added ◌+◌
      (λ j. j)
      (λ j. 2 * j)
      5
      (λ j. 0)
      3
      (mem_bw_add_kernel ◌+◌ (λ j. j) (λ j. 2 * j) 5 (λ j. 0) 3)
mem_bw_add_kernel-Added_example =
    mem_bw_add_kernel-Added ◌+◌ (λ j. j) (λ j. 2 * j) 5 (λ j. 0) 3 (omega arith) (omega arith)

slices_apart_example :
    (slice_start 10 7 6 + 3 < array_len 10)
    × (slice_start 10 7 6 + 3 ≡ slice_start 10 7 2 + 5 → ◌≡◌ {A = ℕ} 6 2 × ◌≡◌ {A = ℕ} 3 5)
unfolding instance_array_len
slices_apart_example =
    slices_apart 10 7 6 2 3 5 (omega arith) (omega arith) (omega arith) (omega arith)

access_sequence-Sequence_example :
    Sequence 8 4096 65536 1 (access_sequence 9 8 4096 65536 1 second_state)
access_sequence-Sequence_example =
    access_sequence-Sequence 9 8 4096 65536 1 second_state (omega arith) (omega arith)
      (4, fifth, omega arith, tt)

-- Two loops and the end loop, in two rounds.
kernel_returns-one_example : cpu_l1i_kernel 2 2 400 ≡ some 1
kernel_returns-one_example = kernel_returns-one 2 1 400 (omega arith) (omega arith) (omega arith)

-- The kernel of the shipped `loopcount` and `roundtime`.
shipped_kernel : cpu_l1i_kernel 3000 1 192064 ≡ some 1
shipped_kernel = kernel_returns-one 3000 0 192064 (omega arith) (omega arith) (omega arith)

-- The five results of the source are those that its kernel computes.
int_ops_kernel_passes : int_ops_kernel ≡ true
unfolding int_ops_kernel int_ops_ikernel iterations seeded iteration mwc32
int_ops_kernel_passes = refl

mem_bw_rounds-fill_example :
    mem_bw_rounds ◌+◌ 1 2 0 5 1 (record { a = λ j. j; b = λ j. 7; c = λ j. 9 }) 3 ≡ 2 + 0
mem_bw_rounds-fill_example =
    mem_bw_rounds-fill ◌+◌ 1 2 0 5 1 3 (record { a = λ j. j; b = λ j. 7; c = λ j. 9 }) (omega arith)
      (omega arith) (omega arith)

abbrev three_caches : CpuInfo
three_caches = record {
  page_size = pos 4096;
  core_count = pos 2;
  online_count = pos 2;
  cache_count = 3;
  caches =
      record { kind = type_data; level = 1; line_size = 32; ways = 8; sets = 64; size = 2 ^ 15 }
      ∷ record {
        kind = type_instruction;
        level = 1;
        line_size = 16;
        ways = 8;
        sets = 64;
        size = 2 ^ 15;
      }
      ∷ record {
        kind = type_unified;
        level = 2;
        line_size = 128;
        ways = 8;
        sets = 1024;
        size = 2 ^ 20;
      }
      ∷ [];
}

cache_line_size-IsLineOfLast_example :
    (found : ℕ) × (cache_line_size three_caches (2 ^ 18) ≡ some found)
    × IsLineOfLast (2 ^ 18) three_caches.caches 0 3 64 found
cache_line_size-IsLineOfLast_example =
    cache_line_size-IsLineOfLast three_caches (2 ^ 18) (omega arith)

first_level_line : cache_line_size three_caches (2 ^ 18) ≡ some 32
unfolding cache_line_size
first_level_line = refl

-- The first call fails.
abbrev pub second_call : Mmap
second_call attempt size = if attempt == 0 then none else some 8192

cache_thread-InMapping_example :
    ((second_call 0 (2 ^ 12 + 64) ≡ none)
      × (second_call 1 (2 ^ 12 + 64) ≡ none)
      × (cache_bench_rand_access_module second_call 1 821 (2 ^ 12) 64 (mwc 1 2) ≡ no_memory))
    ⊎ InMapping second_call
        (2 ^ 12)
        64
        (cache_bench_rand_access_module second_call 1 821 (2 ^ 12) 64 (mwc 1 2))
cache_thread-InMapping_example =
    cache_thread-InMapping second_call 1 821 12 64 (mwc 1 2) (omega arith) (omega arith)
      (omega arith) (omega arith)
