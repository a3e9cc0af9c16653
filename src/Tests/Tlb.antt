-- ===== src/Tests/Tlb.antt =====
-- rbench-cpu-tlb.cpp: the theorem on a thread of the TLB stressor, on eight pages and one address.
use r_bench_an_interference.Base.{ℕ, ◌+◌, ◌-◌, ◌^◌, ◌<◌, ◌≡◌, ◌⊎◌, ◌==◌, if◌then◌else◌, arith, none}
use r_bench_an_interference.Mapping.{mmap_with_retry}
use r_bench_an_interference.Mapping.Tlb.{
  no_memory, Writable, tlb_bench_module, Placed, tlb_thread-Placed,
}
use r_bench_an_interference.Base.{some, Bool, ltb}
use r_bench_an_interference.Tests.Mwc.{second_state, fifth}
use r_bench_an_interference.Tests.Kernels.{second_call}

abbrev words : ℕ → ℕ
words address = if address == 12288 then 2 ^ 32 - 1 else 7

words_small : (b : ℕ) → words b < 2 ^ 32
words_small b = ground arith

abbrev low_words : ℕ → Bool
low_words a = ltb a 100000

given :
    (block : ℕ) → mmap_with_retry second_call 36864 ≡ some block → Writable low_words block 36864
unfolding mmap_with_retry
given block e a low high =
    let at_block : 8192 ≡ block = cc e in
    let bound : a < 100000 = omega (arith, at_block, high) in ground arith

tlb_thread-Placed_example :
    let start = tlb_bench_module second_call low_words 9 1 4096 32768 second_state words in
    ((second_call 0 (32768 + 4096) ≡ none)
      × (second_call 1 (32768 + 4096) ≡ none)
      × (start ≡ no_memory))
    ⊎ Placed second_call low_words 1 4096 32768 words start
tlb_thread-Placed_example =
    tlb_thread-Placed second_call low_words 9 1 4096 32768 second_state words (omega arith)
      (omega arith) (omega arith) (omega arith) given words_small (4, fifth, omega arith, tt)
