-- ===== src/Kernels/TlbStep.antt =====
-- rbench-cpu-tlb.cpp, `tlb_bench_step_kernel`: it counts up the words at the second half of the
-- addresses. The memory is a function on addresses, which lie a page apart or coincide.
use r_bench_an_interference.Base.{
  ℕ, zero, suc, ◌+◌, ◌-◌, ◌/◌, ◌^◌, ◌≤◌, ◌<◌, ◌≡◌, ◌≢◌, ◌⊎◌, inl, inr, ◌==◌, refl, arith, ap, sym,
  ◌∙◌, Bool, true, false, if◌then◌else◌, Option, none, some, List, [], ◌∷◌, u32, length, get_elem?,
}

-- `(*( a[i] ) )++`
unfoldable pub increment : ℕ → (ℕ → ℕ) → ℕ → ℕ
increment address memory b = if address == b then u32 (memory b + 1) else memory b

-- The turns that are left from `i` on; `mapped` says which words can be written. `none` is a fault: a
-- read behind the sequence, or an increment of a word that is not mapped.
unfoldable pub step_loop : (ℕ → Bool) → List ℕ → ℕ → ℕ → (ℕ → ℕ) → Option (ℕ → ℕ)
step_loop mapped a i zero memory = some memory
step_loop mapped a i (suc left) memory = elim (get_elem? a i) [
  | none ↦ none
  | some address ↦ elim (mapped address) [
    | false ↦ none
    | true ↦ step_loop mapped a (suc i) left (increment address memory)
  ]
]

unfoldable pub tlb_bench_step_kernel : (ℕ → Bool) → List ℕ → ℕ → (ℕ → ℕ) → Option (ℕ → ℕ)
unfolding step_loop
tlb_bench_step_kernel mapped a len memory = step_loop mapped a (len / 2) (len - len / 2) memory

-- All addresses from `i` on can be written, or one of them cannot.
abbrev pub AllMapped : (ℕ → Bool) → List ℕ → ℕ → Type 0
AllMapped mapped a i =
    (k address : ℕ) → i ≤ k → get_elem? a k ≡ some address → mapped address ≡ true

pub record Unmapped (mapped : ℕ → Bool) (a : List ℕ) (i : ℕ) : Type 0 where
  pub index : ℕ
  pub address : ℕ
  pub from : i ≤ index
  pub stands : get_elem? a index ≡ some address
  pub refused : mapped address ≡ false

-- How often an address stands in a sequence from `i` on.
unfoldable pub count_from : ℕ → List ℕ → ℕ → ℕ
count_from b [] i = 0
count_from b (x ∷ xs) zero = (if x == b then 1 else 0) + count_from b xs zero
count_from b (x ∷ xs) (suc i) = count_from b xs i

count_from-length : (b : ℕ) (a : List ℕ) (i : ℕ) → i ≡ length a → count_from b a i ≡ 0
unfolding count_from
count_from-length b [] i e = refl
count_from-length b (x ∷ xs) zero e = absurd (omega arith)
count_from-length b (x ∷ xs) (suc i) e = count_from-length b xs i (omega arith)

get_elem?-below : (a : List ℕ) (k address : ℕ) → get_elem? a k ≡ some address → k < length a
get_elem?-below [] k address e = absurd (ground arith)
get_elem?-below (x ∷ a) zero address e = omega arith
get_elem?-below (x ∷ a) (suc k) address e = omega (arith, get_elem?-below a k address e)

record At (a : List ℕ) (i : ℕ) : Type 0 where
  address : ℕ
  found : get_elem? a i ≡ some address
  counted : (b : ℕ) → count_from b a i ≡ (if address == b then 1 else 0) + count_from b a (suc i)

at : (a : List ℕ) (i : ℕ) → i < length a → At a i
unfolding count_from
at [] i h = absurd (omega arith)
at (x ∷ xs) zero h = record { address = x; found = refl; counted = λ b. refl }
at (x ∷ xs) (suc i) h =
    let r = at xs i (omega arith) in
    record { address = r.address; found = r.found; counted = r.counted }

pub record Stepped (a : List ℕ) (i : ℕ) (memory : ℕ → ℕ) (run : Option (ℕ → ℕ)) : Type 0 where
  pub after : ℕ → ℕ
  pub returns : run ≡ some after
  pub added : (b : ℕ) → after b ≡ u32 (memory b + count_from b a i)

increment_lem :
    (address b c : ℕ) (memory : ℕ → ℕ)
    → memory b < 2 ^ 32
    → (increment address memory b < 2 ^ 32)
      × (u32 (increment address memory b + c)
          ≡ u32 (memory b + ((if address == b then 1 else 0) + c)))
unfolding increment
increment_lem address b c memory small = by_case (address == b)
  where
    by_case :
        (same : Bool)
        → ((if same then u32 (memory b + 1) else memory b) < 2 ^ 32)
          × (u32 ((if same then u32 (memory b + 1) else memory b) + c)
              ≡ u32 (memory b + ((if same then 1 else 0) + c)))
    by_case true = (omega arith, omega arith)
    by_case false = (small, omega arith)

step_loop-Stepped :
    (mapped : ℕ → Bool) (a : List ℕ) (left i : ℕ) (memory : ℕ → ℕ)
    → AllMapped mapped a i
    → ((b : ℕ) → memory b < 2 ^ 32)
    → i + left ≡ length a
    → Stepped a i memory (step_loop mapped a i left memory)
unfolding step_loop
step_loop-Stepped mapped a zero i memory all small e = record {
  after = memory;
  returns = refl;
  added =
      λ b. let nothing = count_from-length b a i (omega arith) in omega (arith, small b, nothing);
}
step_loop-Stepped mapped a (suc left) i memory all small e =
    let r = at a i (omega arith) in
    let s =
      step_loop-Stepped mapped a left (suc i) (increment r.address memory)
        (λ k address from there. all k address (omega (arith, from)) there)
        (λ b. (increment_lem r.address b 0 memory (small b)).0) (omega arith) in
    record {
      after = s.after;
      returns = rw (step_loop, r.found, all i r.address (omega arith) r.found) s.returns;
      added = λ b.
          s.added b
          ∙ (increment_lem r.address b (count_from b a (suc i)) memory (small b)).1
          ∙ ap (λ (t : ℕ). u32 (memory b + t)) (sym (r.counted b));
    }

-- Where all words of the second half can be written, the kernel of the TLB stressor has added to each
-- word of 32 bits, which wraps, as often as its address stands there.
pub tlb_bench_step_kernel-Stepped :
    (mapped : ℕ → Bool) (a : List ℕ) (memory : ℕ → ℕ)
    → AllMapped mapped a (length a / 2)
    → ((b : ℕ) → memory b < 2 ^ 32)
    → Stepped a (length a / 2) memory (tlb_bench_step_kernel mapped a (length a) memory)
unfolding tlb_bench_step_kernel
tlb_bench_step_kernel-Stepped mapped a memory all small =
    step_loop-Stepped mapped a (length a - length a / 2) (length a / 2) memory all small
      (omega arith)

-- A look at the addresses from `i` on: the loop ends at the first that cannot be written.
step_loop_cases :
    (mapped : ℕ → Bool) (a : List ℕ) (left i : ℕ)
    → i + left ≡ length a
    → AllMapped mapped a i
      ⊎ (Unmapped mapped a i × ((memory : ℕ → ℕ) → step_loop mapped a i left memory ≡ none))
unfolding step_loop
step_loop_cases mapped a zero i e =
    inl (λ k address from there. absurd (omega (arith, e, from, get_elem?-below a k address there)))
step_loop_cases mapped a (suc left) i e =
    by_word (mapped (at a i (omega arith)).address) refl
      (step_loop_cases mapped a left (suc i) (omega arith))
  where
    r : At a i
    r = at a i (omega arith)

    by_word :
        (b : Bool)
        → mapped r.address ≡ b
        → AllMapped mapped a (suc i)
          ⊎ (Unmapped mapped a (suc i)
              × ((memory : ℕ → ℕ) → step_loop mapped a (suc i) left memory ≡ none))
        → AllMapped mapped a i
          ⊎ (Unmapped mapped a i
              × ((memory : ℕ → ℕ) → step_loop mapped a i (suc left) memory ≡ none))
    by_word false refused rest = inr (
      record {
        index = i;
        address = r.address;
        from = omega arith;
        stands = r.found;
        refused = refused;
      },
      λ memory. rw (step_loop, r.found, refused) refl,
    )
    by_word true there (inl all) =
        inl (λ k address from stands. here_or_behind k address from stands (i == k) refl all)
      where
        here_or_behind :
            (k address : ℕ)
            → i ≤ k
            → get_elem? a k ≡ some address
            → (b : Bool) → (i == k) ≡ b
            → AllMapped mapped a (suc i)
            → mapped address ≡ true
        here_or_behind k address from stands true same all =
            let same_i : i ≡ k = ground arith in
            let word : some r.address ≡ some address =
              sym r.found ∙ ap (get_elem? a) same_i ∙ stands in
            let same_word : r.address ≡ address = cc word in ap mapped (sym same_word) ∙ there
        here_or_behind k address from stands false other all =
            let ne : i ≢ k = λ x. ground arith in all k address (omega (arith, from, ne)) stands
    by_word true there (inr (u, faults)) = inr (
      record {
        index = u.index;
        address = u.address;
        from = (let later = u.from in omega (arith, later));
        stands = u.stands;
        refused = u.refused;
      },
      λ memory. rw (step_loop, r.found, there) (faults (increment r.address memory)),
    )

pub tlb_bench_step_kernel_cases :
    (mapped : ℕ → Bool) (a : List ℕ)
    → AllMapped mapped a (length a / 2)
      ⊎ (Unmapped mapped a (length a / 2)
          × ((memory : ℕ → ℕ) → tlb_bench_step_kernel mapped a (length a) memory ≡ none))
unfolding tlb_bench_step_kernel
tlb_bench_step_kernel_cases mapped a =
    step_loop_cases mapped a (length a - length a / 2) (length a / 2) (omega arith)
