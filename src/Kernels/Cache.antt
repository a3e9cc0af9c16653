-- ===== src/Kernels/Cache.antt =====
-- rbench-cpu-cache.cpp: the kernel of random accesses, and the block that it works on.
use native.Mathlib.Nat.{mod-lt, one-le-pow}
use r_bench_an_interference.Base.{
  ℕ, zero, suc, ◌+◌, ◌*◌, ◌%◌, ◌^◌, ◌≤◌, ◌<◌, ◌≡◌, refl, arith, ◌∙◌, ltb, true, false, Option, none,
  some, List, [], ◌∷◌, ◌++◌, length, length-append, All, All-append, u32,
}
use r_bench_an_interference.Cpuinfo.{}
use r_bench_an_interference.Mwc.{Mwc, mwc32, high_first}
use r_bench_an_interference.Mwc.Modn.{mwc32modn_maybe_pwr2}
use r_bench_an_interference.Mwc.PowerOfTwo.{modn_at_power}

-- `block_aligned[mwc_eng.mwc32modn_maybe_pwr2(cache_size)] ++` so many times: the indices, in order.
unfoldable pub accesses : ℕ → ℕ → ℕ → Mwc → Option (List ℕ × Mwc)
unfolding mwc32modn_maybe_pwr2
accesses fuel cache_size zero mwc_eng = some ([], mwc_eng)
accesses fuel cache_size (suc left) mwc_eng = elim (mwc32modn_maybe_pwr2 fuel cache_size mwc_eng) [
  | none ↦ none
  | some (i, next) ↦ elim (accesses fuel cache_size left next) [
    | none ↦ none
    | some (rest, last) ↦ some (i ∷ rest, last)
  ]
]

-- The loop from `count` on; `rounds` is its fuel, and `fuel` that of each draw.
unfoldable pub rdacc_loop : ℕ → ℕ → ℕ → ℕ → Mwc → Option (List ℕ × Mwc)
unfolding accesses
rdacc_loop fuel cache_size zero count mwc_eng = none
rdacc_loop fuel cache_size (suc rounds) count mwc_eng = elim (ltb 16383 count) [
  | true ↦ some ([], mwc_eng)
  | false ↦ elim (accesses fuel cache_size 20 mwc_eng) [
    | none ↦ none
    | some (round, next) ↦ elim (rdacc_loop fuel cache_size rounds (u32 (count + 20)) next) [
      | none ↦ none
      | some (rest, last) ↦ some (round ++ rest, last)
    ]
  ]
]

unfoldable pub cache_bench_rdacc_kernel : ℕ → ℕ → ℕ → Mwc → Option (List ℕ × Mwc)
unfolding rdacc_loop
cache_bench_rdacc_kernel fuel cache_size rounds mwc_eng =
    rdacc_loop fuel cache_size rounds 0 mwc_eng

-- So many accesses, all of them in the cache's size.
pub record Accesses (size n : ℕ) (run : Option (List ℕ × Mwc)) : Type 0 where
  pub indices : List ℕ
  pub last : Mwc
  pub returns : run ≡ some (indices, last)
  pub counted : length indices ≡ n
  pub inside : All (λ i. i < size) indices

-- A draw that returns an index from every state.
abbrev AlwaysDraws : ℕ → ℕ → Type 0
AlwaysDraws fuel size =
    (m : Mwc)
    → (i : ℕ) × (next : Mwc) × (mwc32modn_maybe_pwr2 fuel size m ≡ some (i, next)) × (i < size)

accesses-Accesses :
    (fuel size left : ℕ) (m : Mwc)
    → AlwaysDraws fuel size
    → Accesses size left (accesses fuel size left m)
unfolding accesses
accesses-Accesses fuel size zero m draws = record {
  indices = [];
  last = m;
  returns = refl;
  counted = refl;
  inside = tt;
}
accesses-Accesses fuel size (suc left) m draws =
    let (i, next, drawn, below) = draws m in
    let rest = accesses-Accesses fuel size left next draws in
    record {
      indices = i ∷ rest.indices;
      last = rest.last;
      returns = rw (accesses, drawn, rest.returns) refl;
      counted = omega (arith, rest.counted);
      inside = (below, rest.inside);
    }

rdacc_loop-Accesses :
    (fuel size d rounds count : ℕ) (m : Mwc)
    → AlwaysDraws fuel size
    → count + 20 * d ≤ 16403
    → 16383 < count + 20 * d
    → d < rounds
    → Accesses size (20 * d) (rdacc_loop fuel size rounds count m)
unfolding rdacc_loop
rdacc_loop-Accesses fuel size d zero count m draws low high enough = absurd (omega arith)
rdacc_loop-Accesses fuel size zero (suc rounds) count m draws low high enough =
    let ends : ltb 16383 count ≡ true = ground arith in
    record {
      indices = [];
      last = m;
      returns = rw (rdacc_loop, ends) refl;
      counted = refl;
      inside = tt;
    }
rdacc_loop-Accesses fuel size (suc d) (suc rounds) count m draws low high enough =
    let runs : ltb 16383 count ≡ false = ground arith in
    let round = accesses-Accesses fuel size 20 m draws in
    let rest =
      rdacc_loop-Accesses fuel size d rounds (u32 (count + 20)) round.last draws (omega arith)
        (omega arith) (omega arith) in
    record {
      indices = round.indices ++ rest.indices;
      last = rest.last;
      returns = rw (rdacc_loop, runs, round.returns, rest.returns) refl;
      counted =
          length-append round.indices rest.indices ∙ omega (arith, round.counted, rest.counted);
      inside = All-append (λ i. i < size) round.indices rest.indices round.inside rest.inside;
    }

-- At a cache size that is a power of two below 2 ^ 32, a call of the cache kernel ends after 16400
-- accesses, all of them within the size, whatever the state of the generator.
pub cache_bench_rdacc_kernel-Accesses :
    (fuel k rounds : ℕ) (m : Mwc)
    → k < 32
    → 820 < rounds
    → Accesses (2 ^ k) 16400 (cache_bench_rdacc_kernel fuel (2 ^ k) rounds m)
unfolding cache_bench_rdacc_kernel
cache_bench_rdacc_kernel-Accesses fuel k rounds m small enough =
    rdacc_loop-Accesses fuel (2 ^ k) 820 rounds 0 m draws (omega arith) (omega arith) enough
  where
    draws : AlwaysDraws fuel (2 ^ k)
    draws s = (
      (mwc32 s).0 % 2 ^ k,
      (mwc32 s).1,
      (modn_at_power high_first fuel k s small).0,
      mod-lt ((mwc32 s).0) (one-le-pow k 2 (omega arith)),
    )
