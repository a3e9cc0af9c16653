-- ===== src/Mapping/Cache.antt =====
-- rbench-cpu-cache.cpp, the threads of the cache stressor up to their loop: all accesses are in what
-- they have mapped.
use native.Mathlib.Nat.{
  mod-lt, mod-le, mod-eq_of_lt, mul-mod_left, suc-mul, div-add-mod', one-le-pow,
}
use r_bench_an_interference.Base.{
  ℕ, zero, suc, ◌+◌, ◌*◌, ◌/◌, ◌%◌, ◌^◌, ◌≤◌, ◌<◌, ◌≡◌, ◌⊎◌, inl, inr, refl, arith, ap, ◌∙◌, Option,
  none, some, List, [], ◌∷◌, ◌++◌, length, length-append, All, All-append, map, u32, ◌==◌, true,
  false,
}
use r_bench_an_interference.Mwc.{Mwc}
use r_bench_an_interference.Kernels.Cache.{Accesses, cache_bench_rdacc_kernel-Accesses}
use r_bench_an_interference.Mapping.{
  Mmap, mmap_with_retry, block_aligned, measure_rounds, measure, CacheStart, no_memory, measured,
  in_block, cache_bench_rand_access_module,
}

-- The block starts at a multiple of the alignment, behind the start of the mapping, and ends in it.
pub block_aligned_lem :
    (align block : ℕ)
    → 0 < align
    → (block ≤ block_aligned align block)
      × (block_aligned align block ≤ block + align)
      × (block_aligned align block % align ≡ 0)
block_aligned_lem align block positive = (
  omega (arith, mod-lt block positive),
  omega (arith, mod-lt block positive),
  ap (λ (t : ℕ). t % align)
        (let e : block_aligned align block ≡ suc (block / align) * align =
            omega (
              arith,
              div-add-mod' block align,
              suc-mul (block / align) align,
              mod-le block align,
            ) in
          e)
      ∙ mul-mod_left (suc (block / align)) align,
)

measure-Accesses :
    (fuel k turns n : ℕ) (m : Mwc)
    → k < 32
    → 820 < turns
    → Accesses (2 ^ k) (n * 16400) (measure fuel turns (2 ^ k) n m)
unfolding measure
measure-Accesses fuel k turns zero m small enough = record {
  indices = [];
  last = m;
  returns = refl;
  counted = omega arith;
  inside = tt;
}
measure-Accesses fuel k turns (suc n) m small enough =
    let call = cache_bench_rdacc_kernel-Accesses fuel k turns m small enough in
    let rest = measure-Accesses fuel k turns n call.last small enough in
    record {
      indices = call.indices ++ rest.indices;
      last = rest.last;
      returns = rw (measure, call.returns, rest.returns) refl;
      counted = length-append call.indices rest.indices ∙ omega (arith, call.counted, rest.counted);
      inside = All-append (λ i. i < 2 ^ k) call.indices rest.indices call.inside rest.inside;
    }

length-map : (f : ℕ → ℕ) (xs : List ℕ) → length (map f xs) ≡ length xs
length-map f [] = refl
length-map f (x ∷ xs) = omega (arith, length-map f xs)

map_inside :
    (size line block : ℕ)
    → 0 < line
    → (indices : List ℕ) → All (λ i. i < size) indices
    → All
        (λ a. (block ≤ a) × (a < block + (size + line)))
        (map (λ i. block_aligned line block + i) indices)
map_inside size line block positive [] h = tt
map_inside size line block positive (i ∷ is) (h, hs) =
    let (low, high, aligned) = block_aligned_lem line block positive in
    ((omega arith, omega arith), map_inside size line block positive is hs)

-- The thread comes to its loop: its mapping, and what its measurement has counted up.
pub record InMapping (mmap : Mmap) (size line : ℕ) (start : CacheStart) : Type 0 where
  pub block : ℕ
  pub addresses : List ℕ
  pub last : Mwc
  pub mapped : mmap_with_retry mmap (size + line) ≡ some block
  pub aligned : block_aligned line block % line ≡ 0
  pub starts : start ≡ measured block addresses last
  pub counted : length addresses ≡ measure_rounds size * 16400
  pub inside : All (λ a. (block ≤ a) × (a < block + (size + line))) addresses

pub mmap_with_retry_cases :
    (mmap : Mmap) (size : ℕ)
    → ((mmap 0 size ≡ none) × (mmap 1 size ≡ none) × (mmap_with_retry mmap size ≡ none))
      ⊎ ((block : ℕ) × (mmap_with_retry mmap size ≡ some block))
unfolding mmap_with_retry
mmap_with_retry_cases mmap size = choose (mmap 0 size) (mmap 1 size) refl refl
  where
    choose :
        (a b : Option ℕ)
        → mmap 0 size ≡ a
        → mmap 1 size ≡ b
        → ((mmap 0 size ≡ none) × (mmap 1 size ≡ none) × (mmap_with_retry mmap size ≡ none))
          ⊎ ((block : ℕ) × (mmap_with_retry mmap size ≡ some block))
    choose (some block) b e e' = inr (block, rw (mmap_with_retry, e) refl)
    choose none (some block) e e' = inr (block, rw (mmap_with_retry, e) e')
    choose none none e e' = inl (e, e', rw (mmap_with_retry, e) e')

-- At a cache size that is a power of two, with a line of at least a byte, and both together below
-- 2 ^ 32, a thread of the cache stressor returns when `mmap` has failed twice. Otherwise its block
-- starts at a multiple of the line, and its measurement ends after 16400 accesses for each of its
-- rounds, all of them in the mapping.
pub cache_thread-InMapping :
    (mmap : Mmap) (fuel turns k line : ℕ) (m : Mwc)
    → k < 32
    → 0 < line
    → 2 ^ k + line < 2 ^ 32
    → 820 < turns
    → ((mmap 0 (2 ^ k + line) ≡ none)
        × (mmap 1 (2 ^ k + line) ≡ none)
        × (cache_bench_rand_access_module mmap fuel turns (2 ^ k) line m ≡ no_memory))
      ⊎ InMapping mmap (2 ^ k) line (cache_bench_rand_access_module mmap fuel turns (2 ^ k) line m)
unfolding cache_bench_rand_access_module
cache_thread-InMapping mmap fuel turns k line m small positive room enough =
    elim (mmap_with_retry_cases mmap (2 ^ k + line)) [
      | inl (e, e', failed) ↦ inl (e, e', rw (word, same, both, failed) refl)
      | inr (block, e) ↦ inr (found block e)
    ]
  where
    word : u32 (2 ^ k) ≡ 2 ^ k
    word = mod-eq_of_lt (omega arith)

    same : (2 ^ k == 2 ^ k) ≡ true
    same = ground arith

    both : u32 (2 ^ k + line) ≡ 2 ^ k + line
    both = mod-eq_of_lt room

    found :
        (block : ℕ)
        → mmap_with_retry mmap (2 ^ k + line) ≡ some block
        → InMapping mmap
            (2 ^ k)
            line
            (cache_bench_rand_access_module mmap fuel turns (2 ^ k) line m)
    found block e =
        let run = measure-Accesses fuel k turns (measure_rounds (2 ^ k)) m small enough in
        let line_there : (line == 0) ≡ false = ground arith in
        let size_there : (2 ^ k == 0) ≡ false =
          let h = one-le-pow k 2 (omega arith) in ground arith in
        let (low, high, aligned) = block_aligned_lem line block positive in
        record {
          block = block;
          addresses = map (λ i. block_aligned line block + i) run.indices;
          last = run.last;
          mapped = e;
          aligned = aligned;
          starts =
              rw (word, same, both, e, line_there, size_there)
                (ap (λ (s : ℕ). in_block line block (measure fuel turns s (measure_rounds s) m))
                    word
                  ∙ ap (in_block line block) run.returns);
          counted = length-map (λ i. block_aligned line block + i) run.indices ∙ run.counted;
          inside = map_inside (2 ^ k) line block positive run.indices run.inside;
        }
