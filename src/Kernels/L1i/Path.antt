-- ===== src/Kernels/L1i/Path.antt =====
-- rbench-cpu-l1igen.cpp: which block stands at a label.
use native.Mathlib.Decide.{dec_lt}
use r_bench_an_interference.Base.{
  ℕ, zero, suc, ◌+◌, ◌*◌, ◌≤◌, ◌<◌, ◌≡◌, refl, arith, ap, sym, ◌∙◌, ◌==◌, true, false, some, List,
  [], ◌∷◌, ◌++◌,
}
use r_bench_an_interference.Kernels.L1i.{
  Last, jmp, dec_jne, Block, loop_from, end_from, printloop, printendloop, print_from, find_label,
}

find-head :
    (b : Block) (bs : List Block) (label : ℕ)
    → b.label ≡ label
    → find_label (b ∷ bs) label ≡ some b.last
unfolding find_label
find-head b bs label e =
    let same : (b.label == label) ≡ true = ground arith in rw (find_label, same) refl

find-tail :
    (b : Block) (bs : List Block) (label : ℕ)
    → b.label < label
    → find_label (b ∷ bs) label ≡ find_label bs label
unfolding find_label
find-tail b bs label h =
    let other : (b.label == label) ≡ false = ground arith in rw (find_label, other) refl

find-loop_in :
    (base i left k : ℕ) (rest : List Block)
    → k < left
    → find_label (loop_from base i left ++ rest) (base + i + k) ≡ some (jmp (base + i + k + 64))
find-loop_in base i zero k rest h = absurd (omega arith)
find-loop_in base i (suc left) zero rest h =
    find-head _ (loop_from base (suc i) left ++ rest) (base + i + 0) (omega arith)
    ∙ ap (λ (t : ℕ). some (jmp t)) (omega arith)
find-loop_in base i (suc left) (suc k) rest h =
    find-tail _ (loop_from base (suc i) left ++ rest) (base + i + suc k) (omega arith)
    ∙ ap (find_label (loop_from base (suc i) left ++ rest))
        (let e : base + i + suc k ≡ base + suc i + k = omega arith in e)
    ∙ find-loop_in base (suc i) left k rest (omega arith)
    ∙ ap (λ (t : ℕ). some (jmp t)) (omega arith)

find-loop_out :
    (base i left label : ℕ) (rest : List Block)
    → base + i + left ≤ label
    → find_label (loop_from base i left ++ rest) label ≡ find_label rest label
find-loop_out base i zero label rest h = refl
find-loop_out base i (suc left) label rest h =
    find-tail _ (loop_from base (suc i) left ++ rest) label (omega arith)
    ∙ find-loop_out base (suc i) left label rest (omega arith)

pub find-end_in :
    (base i left k : ℕ)
    → k < left
    → find_label (end_from base i left) (base + i + k) ≡ some (jmp (i + k + 1))
find-end_in base i zero k h = absurd (omega arith)
find-end_in base i (suc left) zero h =
    find-head _ (end_from base (suc i) left) (base + i + 0) (omega arith)
    ∙ ap (λ (t : ℕ). some (jmp t)) (omega arith)
find-end_in base i (suc left) (suc k) h =
    find-tail _ (end_from base (suc i) left) (base + i + suc k) (omega arith)
    ∙ ap (find_label (end_from base (suc i) left))
        (let e : base + i + suc k ≡ base + suc i + k = omega arith in e)
    ∙ find-end_in base (suc i) left k (omega arith)
    ∙ ap (λ (t : ℕ). some (jmp t)) (omega arith)

pub find-end_last :
    (base i left : ℕ) → find_label (end_from base i left) (base + i + left) ≡ some dec_jne
find-end_last base i zero = find-head _ [] (base + i + 0) (omega arith)
find-end_last base i (suc left) =
    find-tail _ (end_from base (suc i) left) (base + i + suc left) (omega arith)
    ∙ ap (find_label (end_from base (suc i) left))
        (let e : base + i + suc left ≡ base + suc i + left = omega arith in e)
    ∙ find-end_last base (suc i) left

-- A label of a block is `id * 64 + j + 1`.
pub at_loop :
    (left i id j : ℕ)
    → i ≤ id
    → id < i + left
    → j < 64
    → find_label (print_from i left) (id * 64 + 1 + j) ≡ some (jmp (id * 64 + 1 + j + 64))
unfolding print_from printloop
at_loop zero i id j h h' below = absurd (omega arith)
at_loop (suc left) i id j h h' below = elim (dec_lt i id) [
  | no not_before ↦
      let same : id ≡ i = omega arith in
      rw same (find-loop_in (i * 64) 1 64 j (print_from (suc i) left) below)
  | yes before ↦
      find-loop_out (i * 64) 1 64 (id * 64 + 1 + j) (print_from (suc i) left) (omega arith)
      ∙ at_loop left (suc i) id j (omega arith) (omega arith) below
]

pub at_end :
    (left i j : ℕ) (last : Last)
    → j < 64
    → find_label (printendloop (i + left)) ((i + left) * 64 + 1 + j) ≡ some last
    → find_label (print_from i left) ((i + left) * 64 + 1 + j) ≡ some last
unfolding print_from printloop
at_end zero i j last below e =
    let same : i + 0 ≡ i = omega arith in
    ap (λ (t : ℕ). find_label (printendloop t) ((i + 0) * 64 + 1 + j)) (sym same) ∙ e
at_end (suc left) i j last below e =
    find-loop_out (i * 64) 1 64 ((i + suc left) * 64 + 1 + j) (print_from (suc i) left)
      (omega arith)
    ∙ ap (λ (t : ℕ). find_label (print_from (suc i) left) (t * 64 + 1 + j)) shift
    ∙ at_end left (suc i) j last below
        (ap (λ (t : ℕ). find_label (printendloop t) (t * 64 + 1 + j)) (sym shift) ∙ e)
  where
    shift : i + suc left ≡ suc i + left
    shift = omega arith
