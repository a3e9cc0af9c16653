-- ===== src/Validate/Access.antt =====
-- validate/validate_cacheL1.c, validate_cacheL2.c, validate_cacheL3.c and validate_tlb.c: which bytes
-- `rand_access` increments, in order.
use native.Mathlib.Nat.{mod-lt}
use r_bench_an_interference.Base.{
  ℕ, zero, suc, ◌+◌, ◌-◌, ◌*◌, ◌%◌, ◌^◌, ◌<◌, ◌≤◌, ◌≡◌, ◌≢◌, refl, arith, ◌∙◌, ltb, true, false,
  Option, none, some, List, [], ◌∷◌, ◌++◌, map, u32, ◌<<<◌, length, length-append, All, All-append,
}
use r_bench_an_interference.Lfsr.{galois_lfsr, lfsr32}
use r_bench_an_interference.Lfsr.Laws.{lfsr32_range}

-- `block_aligned[r] ++` so many times: the indices, and the register after them.
unfoldable pub increments : (ℕ → ℕ) → ℕ → ℕ → List ℕ × ℕ
unfolding lfsr32
increments r zero lfsr = ([], lfsr)
increments r (suc n) lfsr =
    let next = lfsr32 lfsr in let rest = increments r n next in (r next ∷ rest.0, rest.1)

-- The loop from a register and a count on.
unfoldable pub access_loop : (ℕ → ℕ) → ℕ → ℕ → ℕ → ℕ → Option (List ℕ)
unfolding increments
access_loop r op_limit zero lfsr count = none
access_loop r op_limit (suc fuel) lfsr count = elim (ltb op_limit count) [
  | true ↦ some []
  | false ↦
      let round = increments r 20 lfsr in
      elim (access_loop r op_limit fuel (round.1) (u32 (count + 20))) [
        | none ↦ none
        | some rest ↦ some (round.0 ++ rest)
      ]
]

-- `rand_access` of each program: its size and its limit.
unfoldable pub rand_access_l1 : ℕ → Option (List ℕ)
unfolding access_loop
rand_access_l1 fuel = access_loop (λ rand. rand % 32768) 2000000000 fuel galois_lfsr 0

unfoldable pub rand_access_l2 : ℕ → Option (List ℕ)
unfolding access_loop
rand_access_l2 fuel = access_loop (λ rand. rand % 1048576) 2000000000 fuel galois_lfsr 0

unfoldable pub rand_access_l3 : ℕ → Option (List ℕ)
unfolding access_loop
rand_access_l3 fuel = access_loop (λ rand. rand % 14417920) 2000000000 fuel galois_lfsr 0

unfoldable pub rand_access_tlb : ℕ → Option (List ℕ)
unfolding access_loop
rand_access_tlb fuel =
    access_loop (λ rand. u32 (rand <<< 2) % (4 * 2 ^ 30)) 200000000 fuel galois_lfsr 0

-- So many accesses, each at `r` of a number that the register can hold.
pub record Accessed (r : ℕ → ℕ) (n : ℕ) (run : Option (List ℕ)) : Type 0 where
  pub indices : List ℕ
  pub returns : run ≡ some indices
  pub counted : length indices ≡ n
  pub drawn : All (λ i. (s : ℕ) × (s < 2 ^ 32) × (s ≢ 0) × (i ≡ r s)) indices

record Drawn (r : ℕ → ℕ) (n : ℕ) (round : List ℕ × ℕ) : Type 0 where
  counted : length (round.0) ≡ n
  drawn : All (λ i. (s : ℕ) × (s < 2 ^ 32) × (s ≢ 0) × (i ≡ r s)) (round.0)
  below : round.1 < 2 ^ 32
  nonzero : round.1 ≢ 0

increments-Drawn :
    (r : ℕ → ℕ) (n lfsr : ℕ) → lfsr < 2 ^ 32 → lfsr ≢ 0 → Drawn r n (increments r n lfsr)
unfolding increments
increments-Drawn r zero lfsr h h' = record { counted = refl; drawn = tt; below = h; nonzero = h' }
increments-Drawn r (suc n) lfsr h h' =
    let (below, nonzero) = lfsr32_range lfsr h h' in
    let rest = increments-Drawn r n (lfsr32 lfsr) below nonzero in
    record {
      counted = omega (arith, rest.counted);
      drawn = ((lfsr32 lfsr, below, nonzero, refl), rest.drawn);
      below = rest.below;
      nonzero = rest.nonzero;
    }

access_loop-Accessed :
    (r : ℕ → ℕ) (op_limit d fuel lfsr count : ℕ)
    → lfsr < 2 ^ 32
    → lfsr ≢ 0
    → count + 20 * d ≤ op_limit + 20
    → op_limit < count + 20 * d
    → op_limit + 20 < 2 ^ 32
    → d < fuel
    → Accessed r (20 * d) (access_loop r op_limit fuel lfsr count)
unfolding access_loop
access_loop-Accessed r op_limit d zero lfsr count h h' low high room enough = absurd (omega arith)
access_loop-Accessed r op_limit zero (suc fuel) lfsr count h h' low high room enough =
    let ends : ltb op_limit count ≡ true = ground arith in
    record { indices = []; returns = rw (access_loop, ends) refl; counted = refl; drawn = tt }
access_loop-Accessed r op_limit (suc d) (suc fuel) lfsr count h h' low high room enough =
    let runs : ltb op_limit count ≡ false = ground arith in
    let round = increments-Drawn r 20 lfsr h h' in
    let stays : u32 (count + 20) ≡ count + 20 = omega arith in
    let rest =
      access_loop-Accessed r op_limit d fuel ((increments r 20 lfsr).1) (u32 (count + 20))
        round.below round.nonzero (omega arith) (omega arith) room (omega arith) in
    record {
      indices = (increments r 20 lfsr).0 ++ rest.indices;
      returns = rw (access_loop, runs, rest.returns) refl;
      counted =
          length-append ((increments r 20 lfsr).0) rest.indices
          ∙ omega (arith, round.counted, rest.counted);
      drawn =
          All-append (λ i. (s : ℕ) × (s < 2 ^ 32) × (s ≢ 0) × (i ≡ r s)) ((increments r 20 lfsr).0)
            rest.indices round.drawn rest.drawn;
    }

-- The block of a program starts behind `mmap`'s address, at the next cache line.
abbrev pub aligned : ℕ → ℕ → ℕ
aligned line block = block + line - block % line

-- The addresses that are incremented.
abbrev pub addresses : ℕ → List ℕ → List ℕ
addresses block indices = map (λ i. aligned 64 block + i) indices

-- All increments are in the mapping, which is twice as large as the cache.
pub record InBlock (size n block : ℕ) (run : Option (List ℕ)) : Type 0 where
  pub indices : List ℕ
  pub returns : run ≡ some indices
  pub counted : length indices ≡ n
  pub inside : All (λ a. (block ≤ a) × (a < block + 2 * size)) (addresses block indices)

inside_block :
    (r : ℕ → ℕ) (size block : ℕ)
    → 64 ≤ size
    → ((s : ℕ) → r s < size)
    → (indices : List ℕ) → All (λ i. (s : ℕ) × (s < 2 ^ 32) × (s ≢ 0) × (i ≡ r s)) indices
    → All (λ a. (block ≤ a) × (a < block + 2 * size)) (addresses block indices)
inside_block r size block room small [] h = tt
inside_block r size block room small (i ∷ is) ((s, below, nonzero, e), h) =
    ((omega arith, omega (arith, small s, e)), inside_block r size block room small is h)

Accessed-InBlock :
    {r : ℕ → ℕ} {n : ℕ} {run : Option (List ℕ)} (size block : ℕ)
    → 64 ≤ size
    → ((s : ℕ) → r s < size)
    → Accessed r n run
    → InBlock size n block run
Accessed-InBlock {r} size block room small accessed = record {
  indices = accessed.indices;
  returns = accessed.returns;
  counted = accessed.counted;
  inside = inside_block r size block room small accessed.indices accessed.drawn;
}

-- The four programs for the caches and the TLB make 2000000020 or 200000020 accesses and end, and
-- each of them lies in the mapping, which is twice as large as the cache, wherever it starts.
pub rand_access-InBlock :
    (block fuel : ℕ)
    → 100000001 < fuel
    → InBlock 32768 2000000020 block (rand_access_l1 fuel)
      × InBlock 1048576 2000000020 block (rand_access_l2 fuel)
      × InBlock 14417920 2000000020 block (rand_access_l3 fuel)
      × InBlock (4 * 2 ^ 30) 200000020 block (rand_access_tlb fuel)
unfolding rand_access_l1 rand_access_l2 rand_access_l3 rand_access_tlb
rand_access-InBlock block fuel enough = (
  within 32768 (omega arith),
  within 1048576 (omega arith),
  within 14417920 (omega arith),
  Accessed-InBlock {r = λ rand. u32 (rand <<< 2) % (4 * 2 ^ 30)} (4 * 2 ^ 30) block (omega arith)
      (λ s. omega arith)
      (access_loop-Accessed (λ rand. u32 (rand <<< 2) % (4 * 2 ^ 30)) 200000000 10000001 fuel 1 0
        (omega arith) (omega arith) (omega arith) (omega arith) (omega arith) (omega arith)),
)
  where
    within :
        (size : ℕ)
        → 64 ≤ size
        → InBlock size 2000000020 block (access_loop (λ rand. rand % size) 2000000000 fuel 1 0)
    within size room =
        Accessed-InBlock {r = λ rand. rand % size} size block room (λ s. mod-lt s (omega arith))
          (access_loop-Accessed (λ rand. rand % size) 2000000000 100000001 fuel 1 0 (omega arith)
            (omega arith) (omega arith) (omega arith) (omega arith) (omega arith))
