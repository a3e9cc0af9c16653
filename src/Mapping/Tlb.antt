-- ===== src/Mapping/Tlb.antt =====
-- rbench-cpu-tlb.cpp, `tlb_bench_module` up to its loop: the mapping, the sequence of addresses in it
-- and the measurement. The memory is a function on addresses.
use native.Mathlib.Nat.{mod-lt, mod-eq_of_lt, suc-mul, mul-le-mul_right, div-add-mod'}
use r_bench_an_interference.Base.{
  ℕ, zero, suc, ◌+◌, ◌-◌, ◌*◌, ◌/◌, ◌%◌, ◌^◌, ◌≤◌, ◌<◌, ◌≡◌, ◌⊎◌, inl, inr, refl, arith, sym, ◌∙◌,
  Option, none, some, List, [], ◌∷◌, u32, u64, length, All, ◌==◌, false, if◌then◌else◌,
}
use r_bench_an_interference.Mwc.{Mwc}
use r_bench_an_interference.Kernels.Tlb.{
  access_sequence, AllFirst, IsPageOrWrapped, access_sequence-Sequence,
}
use mathlib.Core.Path.{subst}
use r_bench_an_interference.Base.{Bool, true, get_elem?}
use r_bench_an_interference.Kernels.TlbStep.{
  AllMapped, Unmapped, tlb_bench_step_kernel_cases, tlb_bench_step_kernel,
  tlb_bench_step_kernel-Stepped, count_from,
}
use r_bench_an_interference.Mapping.{Mmap, mmap_with_retry, block_aligned}
use r_bench_an_interference.Mapping.Cache.{block_aligned_lem, mmap_with_retry_cases}

-- `ADRS_CAPA` addresses are counted up in so many calls of the kernel; `none` is a fault.
unfoldable pub step_rounds : (ℕ → Bool) → List ℕ → ℕ → ℕ → (ℕ → ℕ) → Option (ℕ → ℕ)
step_rounds mapped adrs adrs_capa zero memory = some memory
step_rounds mapped adrs adrs_capa (suc left) memory =
    elim (tlb_bench_step_kernel mapped adrs adrs_capa memory) [
      | none ↦ none
      | some after ↦ step_rounds mapped adrs adrs_capa left after
    ]

-- How a thread of the TLB stressor comes to its loop, with its block, its addresses and the memory
-- behind its measurement; or it returns, divides by 0, or counts up a word that cannot be written.
pub data TlbStart : Type 0 where
  no_memory : TlbStart
  divided_by_zero : TlbStart
  unfinished : TlbStart
  fault : TlbStart
  measured : ℕ → List ℕ → (ℕ → ℕ) → TlbStart

-- The 1000 rounds of the measurement.
unfoldable pub measure_tlb : (ℕ → Bool) → ℕ → ℕ → (ℕ → ℕ) → Option (List ℕ) → TlbStart
unfolding step_rounds
measure_tlb mapped block adrs_capa memory none = unfinished
measure_tlb mapped block adrs_capa memory (some adrs) =
    elim (step_rounds mapped adrs adrs_capa 1000 memory) [
      | none ↦ fault
      | some after ↦ measured block adrs after
    ]

-- `tlb_bench_module` up to its loop. The sum of the sizes is one of `uint64_t`, and the number of
-- pages is handed to `mwc32modn` in 32 bits. `mapped` says which words can be written, `fuel` is that
-- of each draw, and `adrs_capa` `ADRS_CAPA`.
unfoldable pub tlb_bench_module : Mmap → (ℕ → Bool) → ℕ → ℕ → ℕ → ℕ → Mwc → (ℕ → ℕ) → TlbStart
unfolding measure_tlb access_sequence
tlb_bench_module mmap mapped fuel adrs_capa page_size buffer_size mwc_eng memory =
    elim (mmap_with_retry mmap (u64 (buffer_size + page_size))) [
      | none ↦ no_memory
      | some block ↦
          if page_size == 0
          then divided_by_zero
          else measure_tlb mapped block adrs_capa memory (
              access_sequence fuel (u32 (buffer_size / page_size)) page_size
                (block_aligned page_size block) adrs_capa mwc_eng)
    ]

record Counted (adrs : List ℕ) (rounds : ℕ) (memory : ℕ → ℕ) (run : Option (ℕ → ℕ)) : Type 0 where
  after : ℕ → ℕ
  returns : run ≡ some after
  added : (b : ℕ) → after b ≡ u32 (memory b + rounds * count_from b adrs (length adrs / 2))

step_rounds-Counted :
    (mapped : ℕ → Bool) (adrs : List ℕ) (rounds : ℕ) (memory : ℕ → ℕ)
    → AllMapped mapped adrs (length adrs / 2)
    → ((b : ℕ) → memory b < 2 ^ 32)
    → Counted adrs rounds memory (step_rounds mapped adrs (length adrs) rounds memory)
unfolding step_rounds
step_rounds-Counted mapped adrs zero memory all small = record {
  after = memory;
  returns = refl;
  added = λ b. omega (arith, small b);
}
step_rounds-Counted mapped adrs (suc left) memory all small =
    let call = tlb_bench_step_kernel-Stepped mapped adrs memory all small in
    let rest =
      step_rounds-Counted mapped adrs left call.after all (λ b. omega (arith, call.added b)) in
    record {
      after = rest.after;
      returns = rw (step_rounds, call.returns) rest.returns;
      added = λ b.
          let c = count_from b adrs (length adrs / 2) in
          omega (arith, rest.added b, call.added b, suc-mul left c);
    }

-- A whole page in the mapping of the thread, or an address behind the mapping.
abbrev pub IsPageOrBehind : ℕ → ℕ → ℕ → ℕ → Type 0
IsPageOrBehind page_size buffer_size block a =
    ((block ≤ a) × (a + page_size ≤ block + (buffer_size + page_size)))
    ⊎ (block + (buffer_size + page_size) < a)

page_lem :
    (page_size buffer_size block a : ℕ)
    → 0 < page_size
    → buffer_size / page_size < 2 ^ 31
    → IsPageOrWrapped (buffer_size / page_size) page_size (block_aligned page_size block) a
    → IsPageOrBehind page_size buffer_size block a
page_lem page_size buffer_size block a positive few (inl (page, e, below)) =
    let (low, high, aligned) = block_aligned_lem page_size block positive in
    inl (omega (arith, e), omega (arith, below, high, div-add-mod' buffer_size page_size))
page_lem page_size buffer_size block a positive few (inr (e, behind)) =
    let (low, high, aligned) = block_aligned_lem page_size block positive in
    let three =
      mul-le-mul_right {m = suc (suc (suc (buffer_size / page_size)))} {n = 2 ^ 32 - 1} page_size
        (omega arith) in
    inr (
      omega (
        arith,
        e,
        three,
        suc-mul (suc (suc (buffer_size / page_size))) page_size,
        suc-mul (suc (buffer_size / page_size)) page_size,
        suc-mul (buffer_size / page_size) page_size,
        div-add-mod' buffer_size page_size,
        mod-lt buffer_size positive,
      ))

each_page :
    (page_size buffer_size block : ℕ)
    → 0 < page_size
    → buffer_size / page_size < 2 ^ 31
    → (adrs : List ℕ)
    → All (IsPageOrWrapped (buffer_size / page_size) page_size (block_aligned page_size block)) adrs
    → All (IsPageOrBehind page_size buffer_size block) adrs
each_page page_size buffer_size block positive few [] h = tt
each_page page_size buffer_size block positive few (a ∷ adrs) (h, hs) = (
  page_lem page_size buffer_size block a positive few h,
  each_page page_size buffer_size block positive few adrs hs,
)

measured_of_rounds :
    (mapped : ℕ → Bool) (block adrs_capa : ℕ) (memory after : ℕ → ℕ) (adrs : List ℕ)
    → step_rounds mapped adrs adrs_capa 1000 memory ≡ some after
    → measure_tlb mapped block adrs_capa memory (some adrs) ≡ measured block adrs after
unfolding measure_tlb
measured_of_rounds mapped block adrs_capa memory after adrs e = rw (measure_tlb, e) refl

fault_at_once :
    (mapped : ℕ → Bool) (block adrs_capa : ℕ) (memory : ℕ → ℕ) (adrs : List ℕ)
    → tlb_bench_step_kernel mapped adrs adrs_capa memory ≡ none
    → measure_tlb mapped block adrs_capa memory (some adrs) ≡ fault
unfolding measure_tlb step_rounds
fault_at_once mapped block adrs_capa memory adrs e =
    let first : step_rounds mapped adrs adrs_capa 1000 memory ≡ none = rw (step_rounds, e) refl in
    rw (measure_tlb, first) refl

not_zero : (n : ℕ) → 0 < n → (n == 0) ≡ false
not_zero n h = ground arith

-- Where an address stands, what holds of all of them holds of it.
All-at : (P : ℕ → Type 0) (adrs : List ℕ) (k a : ℕ) → All P adrs → get_elem? adrs k ≡ some a → P a
All-at P [] k a h e = absurd (ground arith)
All-at P (x ∷ adrs) zero a (h, hs) e = let same : x ≡ a = cc e in rw (sym same) h
All-at P (x ∷ adrs) (suc k) a (h, hs) e = All-at P adrs k a hs e

-- The words of what `mmap` has given can be written.
abbrev pub Writable : (ℕ → Bool) → ℕ → ℕ → Type 0
Writable mapped block size = (a : ℕ) → block ≤ a → a + 4 ≤ block + size → mapped a ≡ true

-- An address in the second half behind the mapping, at a word that cannot be written.
pub record Faulted (mapped : ℕ → Bool) (block buffer_size page_size : ℕ) (adrs : List ℕ)
    (start : TlbStart) : Type 0 where
  pub starts : start ≡ fault
  pub word : Unmapped mapped adrs (length adrs / 2)
  pub behind : block + (buffer_size + page_size) < word.address

-- The thread comes to its loop.
pub record Measured (mapped : ℕ → Bool) (block : ℕ) (adrs : List ℕ) (memory : ℕ → ℕ)
    (start : TlbStart) : Type 0 where
  pub after : ℕ → ℕ
  pub starts : start ≡ measured block adrs after
  pub writable : AllMapped mapped adrs (length adrs / 2)
  pub added : (b : ℕ) → after b ≡ u32 (memory b + 1000 * count_from b adrs (length adrs / 2))

-- What the thread has mapped, the addresses that it draws, and how it goes on.
pub record Placed (mmap : Mmap) (mapped : ℕ → Bool) (adrs_capa page_size buffer_size : ℕ)
    (memory : ℕ → ℕ) (start : TlbStart) : Type 0 where
  pub block : ℕ
  pub adrs : List ℕ
  pub given : mmap_with_retry mmap (buffer_size + page_size) ≡ some block
  pub aligned : block_aligned page_size block % page_size ≡ 0
  pub counted : length adrs ≡ adrs_capa
  pub placed : All (IsPageOrBehind page_size buffer_size block) adrs
  pub ends :
      Faulted mapped block buffer_size page_size adrs start
      ⊎ Measured mapped block adrs memory start

behind_of_Unmapped :
    (mapped : ℕ → Bool) (page_size buffer_size block a : ℕ)
    → 4 ≤ page_size
    → Writable mapped block (buffer_size + page_size)
    → mapped a ≡ false
    → IsPageOrBehind page_size buffer_size block a
    → block + (buffer_size + page_size) < a
behind_of_Unmapped mapped page_size buffer_size block a wide writable refused (inl (low, high)) =
    absurd (
      let bad : true ≡ false = sym (writable a low (omega (arith, high, wide))) ∙ refused in
      ground arith)
behind_of_Unmapped mapped page_size buffer_size block a wide writable refused (inr behind) = behind

how_it_ends :
    (mapped : ℕ → Bool) (page_size buffer_size block : ℕ) (adrs : List ℕ) (memory : ℕ → ℕ)
    → 4 ≤ page_size
    → Writable mapped block (buffer_size + page_size)
    → ((b : ℕ) → memory b < 2 ^ 32)
    → All (IsPageOrBehind page_size buffer_size block) adrs
    → let start = measure_tlb mapped block (length adrs) memory (some adrs) in
      Faulted mapped block buffer_size page_size adrs start
      ⊎ Measured mapped block adrs memory start
how_it_ends mapped page_size buffer_size block adrs memory wide writable small placed =
    elim (tlb_bench_step_kernel_cases mapped adrs) [
      | inl all ↦
          let run = step_rounds-Counted mapped adrs 1000 memory all small in
          inr (record {
            after = run.after;
            starts =
                measured_of_rounds mapped block (length adrs) memory run.after adrs run.returns;
            writable = all;
            added = run.added;
          })
      | inr (u, faults) ↦ inl (record {
        starts = fault_at_once mapped block (length adrs) memory adrs (faults memory);
        word = u;
        behind =
            behind_of_Unmapped mapped page_size buffer_size block u.address wide writable u.refused
              (All-at (IsPageOrBehind page_size buffer_size block) adrs u.index u.address placed
                u.stands);
      })
    ]

-- With pages of four bytes or more in the buffer, fewer than 2 ^ 31, sizes that are together below
-- 2 ^ 64, words of 32 bits and draws that are accepted within the fuel, a thread of the TLB stressor
-- returns when `mmap` has failed twice. Otherwise its block starts at a multiple of the page size, and
-- it draws its number of addresses, each that of a whole page in the mapping or behind the mapping.
-- Where all words of their second half can be written, it comes to its loop, and its measurement has
-- added to each word, which wraps, 1000 times as much as its address stands there. If not, the
-- measurement faults, and one of those addresses lies behind the mapping. What `mmap` has given
-- can be written.
pub tlb_thread-Placed :
    (mmap : Mmap) (mapped : ℕ → Bool) (fuel adrs_capa page_size buffer_size : ℕ) (mwc_eng : Mwc)
    (memory : ℕ → ℕ)
    → 4 ≤ page_size
    → 0 < buffer_size / page_size
    → buffer_size / page_size < 2 ^ 31
    → buffer_size + page_size < 2 ^ 64
    → ((block : ℕ)
        → mmap_with_retry mmap (buffer_size + page_size) ≡ some block
        → Writable mapped block (buffer_size + page_size))
    → ((b : ℕ) → memory b < 2 ^ 32)
    → AllFirst fuel (buffer_size / page_size) adrs_capa mwc_eng
    → let start =
        tlb_bench_module mmap mapped fuel adrs_capa page_size buffer_size mwc_eng memory in
      ((mmap 0 (buffer_size + page_size) ≡ none)
        × (mmap 1 (buffer_size + page_size) ≡ none)
        × (start ≡ no_memory))
      ⊎ Placed mmap mapped adrs_capa page_size buffer_size memory start
unfolding tlb_bench_module
tlb_thread-Placed mmap mapped fuel adrs_capa page_size buffer_size mwc_eng memory wide some_pages
      few room writable small first =
    elim (mmap_with_retry_cases mmap (buffer_size + page_size)) [
      | inl (e, e', failed) ↦ inl (e, e', rw (tlb_bench_module, both, failed) refl)
      | inr (block, e) ↦ inr (found block e)
    ]
  where
    both : u64 (buffer_size + page_size) ≡ buffer_size + page_size
    both = mod-eq_of_lt room

    pages : u32 (buffer_size / page_size) ≡ buffer_size / page_size
    pages = mod-eq_of_lt (omega (arith, few))

    positive : 0 < page_size
    positive = omega (arith, wide)

    found :
        (block : ℕ)
        → mmap_with_retry mmap (buffer_size + page_size) ≡ some block
        → Placed mmap mapped adrs_capa page_size buffer_size memory
            (tlb_bench_module mmap mapped fuel adrs_capa page_size buffer_size mwc_eng memory)
    found block e =
        let sequence =
          access_sequence-Sequence fuel (buffer_size / page_size) page_size
            (block_aligned page_size block) adrs_capa mwc_eng some_pages (omega (arith, few))
            first in
        let pages_there =
          each_page page_size buffer_size block positive few sequence.adrs sequence.placed in
        let page_there = not_zero page_size positive in
        let (low, high, aligned) = block_aligned_lem page_size block positive in
        let Goes : TlbStart → Type 0 = λ start.
          Faulted mapped block buffer_size page_size sequence.adrs start
          ⊎ Measured mapped block sequence.adrs memory start in
        record {
          block = block;
          adrs = sequence.adrs;
          given = e;
          aligned = aligned;
          counted = sequence.counted;
          placed = pages_there;
          ends =
              rw (tlb_bench_module, both, e, page_there, pages, sequence.returns)
                (subst (λ (n : ℕ). Goes (measure_tlb mapped block n memory (some sequence.adrs)))
                  sequence.counted
                  (how_it_ends mapped page_size buffer_size block sequence.adrs memory wide
                    (writable block e) small pages_there));
        }
