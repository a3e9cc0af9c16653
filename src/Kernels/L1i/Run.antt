-- ===== src/Kernels/L1i/Run.antt =====
-- rbench-cpu-l1igen.cpp: the run goes through all blocks as often as `roundtime` says, and returns 1.
use native.Mathlib.Nat.{suc-mul, zero-mul, mul_assoc, mul_comm, mod-eq_of_lt}
use r_bench_an_interference.Base.{
  ℕ, zero, suc, ◌+◌, ◌-◌, ◌*◌, ◌^◌, ◌≤◌, ◌<◌, ◌≡◌, refl, arith, ap, ap₂, sym, ◌∙◌, ◌==◌, Bool, true,
  false, some, List, ltb, if◌then◌else◌,
}
use r_bench_an_interference.Kernels.L1i.{
  Last, jmp, dec_jne, Block, printendloop, print_from, print_program, start_r10, find_label,
  minus_one, run, cpu_l1i_kernel,
}
use r_bench_an_interference.Kernels.L1i.Path.{at_loop, at_end, find-end_in, find-end_last}

minus_one-suc : (r : ℕ) → 0 < r → minus_one r ≡ r - 1
unfolding minus_one
minus_one-suc r h = let positive : (r == 0) ≡ false = ground arith in rw (minus_one, positive) refl

module _ (loopcount : ℕ) where
  abbrev program : List Block
  program = print_program loopcount

  jump :
      (fuel label target r9 r10 : ℕ)
      → 0 < r10
      → find_label program label ≡ some (jmp target)
      → run program (suc fuel) label r9 r10 ≡ run program fuel target r9 (r10 - 1)
  unfolding run
  jump fuel label target r9 r10 h e =
      rw (run, e) (ap (run program fuel target r9) (minus_one-suc r10 h))

  found_loop :
      (id j : ℕ)
      → id < loopcount
      → j < 64
      → find_label program (id * 64 + 1 + j) ≡ some (jmp (id * 64 + 1 + j + 64))
  unfolding print_program
  found_loop id j h below = at_loop loopcount 0 id j (omega arith) (omega arith) below

  found_end :
      (j : ℕ) (last : Last)
      → j < 64
      → find_label (printendloop loopcount) (loopcount * 64 + 1 + j) ≡ some last
      → find_label program (loopcount * 64 + 1 + j) ≡ some last
  unfolding print_program
  found_end j last below e =
      ap (λ (t : ℕ). find_label (print_from 0 loopcount) (t * 64 + 1 + j)) (sym same)
      ∙ at_end loopcount 0 j last below
          (ap (λ (t : ℕ). find_label (printendloop t) (t * 64 + 1 + j)) same ∙ e)
    where
      same : 0 + loopcount ≡ loopcount
      same = omega arith

  -- From loop to loop, at one place in each.
  column :
      (d id j fuel total r9 r10 : ℕ)
      → id + d ≡ loopcount
      → d ≤ r10
      → j < 64
      → total ≡ d + fuel
      → run program total (id * 64 + 1 + j) r9 r10
        ≡ run program fuel (loopcount * 64 + 1 + j) r9 (r10 - d)
  column zero id j fuel total r9 r10 e much below f =
      let same : id ≡ loopcount = omega arith in
      let enough : total ≡ fuel = omega arith in
      let kept : r10 ≡ r10 - 0 = omega arith in
      ap (λ (t : ℕ). run program t (id * 64 + 1 + j) r9 r10) enough
      ∙ ap₂ (λ (t : ℕ) (s : ℕ). run program fuel (t * 64 + 1 + j) r9 s) same kept
  column (suc d) id j fuel zero r9 r10 e much below f = absurd (omega arith)
  column (suc d) id j fuel (suc total) r9 r10 e much below f =
      jump total (id * 64 + 1 + j) (id * 64 + 1 + j + 64) r9 r10 (omega arith)
        (found_loop id j (omega arith) below)
      ∙ ap (λ (t : ℕ). run program total t r9 (r10 - 1))
          (let next : id * 64 + 1 + j + 64 ≡ suc id * 64 + 1 + j = omega arith in next)
      ∙ column d (suc id) j fuel total r9 (r10 - 1) (omega arith) (omega arith) below (omega arith)
      ∙ ap (run program fuel (loopcount * 64 + 1 + j) r9) (omega arith)

  -- A column and the jump behind it to the next one.
  next_column :
      (j fuel total r9 r10 : ℕ)
      → loopcount < r10
      → j < 63
      → total ≡ loopcount + 1 + fuel
      → run program total (1 + j) r9 r10 ≡ run program fuel (1 + (j + 1)) r9 (r10 - (loopcount + 1))
  unfolding printendloop
  next_column j fuel total r9 r10 much below f =
      column loopcount 0 j (suc fuel) total r9 r10 (omega arith) (omega arith) (omega arith)
        (omega arith)
      ∙ jump fuel (loopcount * 64 + 1 + j) (1 + j + 1) r9 (r10 - loopcount) (omega arith)
          (found_end j (jmp (1 + j + 1)) (omega arith) (find-end_in (loopcount * 64) 1 63 j below))
      ∙ ap₂ (λ (t : ℕ) (s : ℕ). run program fuel t r9 s) (omega arith) (omega arith)

  columns :
      (n j fuel total r9 r10 : ℕ)
      → n * (loopcount + 1) ≤ r10
      → n + j ≤ 63
      → total ≡ n * (loopcount + 1) + fuel
      → run program total (1 + j) r9 r10
        ≡ run program fuel (1 + (j + n)) r9 (r10 - n * (loopcount + 1))
  columns zero j fuel total r9 r10 much below f =
      ap (λ (t : ℕ). run program t (1 + j) r9 r10) (omega (arith, f, zero-mul (loopcount + 1)))
      ∙ ap₂ (λ (t : ℕ) (s : ℕ). run program fuel t r9 s) (omega arith)
          (omega (arith, zero-mul (loopcount + 1)))
  columns (suc n) j fuel total r9 r10 much below f =
      next_column j (n * (loopcount + 1) + fuel) total r9 r10
        (omega (arith, much, suc-mul n (loopcount + 1))) (omega arith)
        (omega (arith, f, suc-mul n (loopcount + 1)))
      ∙ columns n (j + 1) fuel (n * (loopcount + 1) + fuel) r9 (r10 - (loopcount + 1))
          (omega (arith, much, suc-mul n (loopcount + 1))) (omega arith) refl
      ∙ ap₂ (λ (t : ℕ) (s : ℕ). run program fuel t r9 s) (omega arith)
          (omega (arith, suc-mul n (loopcount + 1)))

  choose :
      (fuel next x y : ℕ) (b : Bool)
      → x ≡ y
      → elim b [ true ↦ some x | false ↦ run program fuel 1 next x ]
        ≡ (if b then some y else run program fuel 1 next y)
  choose fuel next x y true e = ap some e
  choose fuel next x y false e = ap (run program fuel 1 next) e

  -- One round, down to the `jne`.
  one_round :
      (fuel total r9 next r10 : ℕ)
      → 64 * (loopcount + 1) ≤ r10
      → minus_one r9 ≡ next
      → total ≡ 64 * (loopcount + 1) + fuel
      → run program total 1 r9 r10 ≡ (
          if next == 0
          then some (r10 - 64 * (loopcount + 1))
          else run program fuel 1 next (r10 - 64 * (loopcount + 1)))
  unfolding run printendloop
  one_round fuel total r9 next r10 much e f =
      columns 63 0 (loopcount + 1 + fuel) total r9 r10 (omega arith) (omega arith) (omega arith)
      ∙ column loopcount 0 63 (suc fuel) (loopcount + 1 + fuel) r9 (r10 - 63 * (loopcount + 1))
          (omega arith) (omega arith) (omega arith) (omega arith)
      ∙ rw (run, found_end 63 dec_jne (omega arith) (find-end_last (loopcount * 64) 1 63))
          (choose fuel (minus_one r9) _ (r10 - 64 * (loopcount + 1)) (minus_one r9 == 0)
            (minus_one-suc (r10 - 63 * (loopcount + 1) - loopcount) (omega arith) ∙ omega arith))
      ∙ ap
          (λ (t : ℕ).
            if t == 0
            then some (r10 - 64 * (loopcount + 1))
            else run program fuel 1 t (r10 - 64 * (loopcount + 1)))
          e

  all_rounds :
      (rounds fuel r10 : ℕ)
      → r10 ≡ 1 + suc rounds * (64 * (loopcount + 1))
      → suc rounds * (64 * (loopcount + 1)) ≤ fuel
      → run program fuel 1 (suc rounds) r10 ≡ some 1
  all_rounds zero fuel r10 e enough =
      one_round (fuel - 64 * (loopcount + 1)) fuel 1 0 r10 (omega arith)
        (minus_one-suc 1 (omega arith) ∙ omega arith) (omega arith)
      ∙ ap some (omega arith)
  all_rounds (suc rounds) fuel r10 e enough =
      one_round (fuel - 64 * (loopcount + 1)) fuel (suc (suc rounds)) (suc rounds) r10
        (omega (arith, e, suc-mul (suc rounds) (64 * (loopcount + 1))))
        (minus_one-suc (suc (suc rounds)) (omega arith) ∙ omega arith)
        (omega (arith, enough, suc-mul (suc rounds) (64 * (loopcount + 1))))
      ∙ ap
          (λ (b : Bool).
            if b
            then some (r10 - 64 * (loopcount + 1))
            else run program (fuel - 64 * (loopcount + 1)) 1 (suc rounds)
                (r10 - 64 * (loopcount + 1)))
          (let more : (suc rounds == 0) ≡ false = ground arith in more)
      ∙ all_rounds rounds (fuel - 64 * (loopcount + 1)) (r10 - 64 * (loopcount + 1))
          (omega (arith, e, suc-mul (suc rounds) (64 * (loopcount + 1))))
          (omega (arith, enough, suc-mul (suc rounds) (64 * (loopcount + 1))))

  -- The kernel that rbench-cpu-l1igen.cpp prints, entered with its two registers as it sets them and
  -- with one round or more, comes back after as many steps as `%r10` counts down and returns 1, where
  -- the last label and the product for `%r10` are below 2 ^ 31.
  pub kernel_returns-one :
      (rounds fuel : ℕ)
      → (loopcount + 1) * 64 < 2 ^ 31
      → (loopcount + 1) * suc rounds < 2 ^ 31
      → (loopcount + 1) * suc rounds * 64 ≤ fuel
      → cpu_l1i_kernel loopcount (suc rounds) fuel ≡ some 1
  unfolding cpu_l1i_kernel
  kernel_returns-one rounds fuel labels product enough =
      rw (cpu_l1i_kernel, below (2 ^ 31) labels, below (2 ^ 31) product, cut)
        (all_rounds rounds fuel (1 + (loopcount + 1) * suc rounds * 64) (ap (λ (t : ℕ). 1 + t) same)
          (rw (sym same) enough))
    where
      below : {x : ℕ} (n : ℕ) → x < n → ltb x n ≡ true
      below n h = ground arith

      cut : start_r10 loopcount (suc rounds) ≡ 1 + (loopcount + 1) * suc rounds * 64
      cut = mod-eq_of_lt (omega (arith, product))

      same : (loopcount + 1) * suc rounds * 64 ≡ suc rounds * (64 * (loopcount + 1))
      same =
          ap (λ (t : ℕ). t * 64) (mul_comm (loopcount + 1) (suc rounds))
          ∙ mul_assoc (suc rounds) (loopcount + 1) 64
          ∙ ap (λ (t : ℕ). suc rounds * t) (omega arith)
