-- ===== src/Kernels/L1i.antt =====
-- rbench-cpu-l1igen.cpp: the blocks of instructions that it prints, and their run. A block is a label,
-- `subq $0x1, %r10`, and its last instructions.
pub mod Path
pub mod Run
use r_bench_an_interference.Base.{
  ℕ, zero, suc, ◌+◌, ◌-◌, ◌*◌, ◌^◌, ◌==◌, ◌&&◌, ltb, if◌then◌else◌, u64, Bool, true, false, Option,
  none, some, List, [], ◌∷◌, ◌++◌,
}

-- `jmp .LABAL%d`, or `dec %r9` and `jne .LBEGIN_FOR`, behind which the kernel returns.
pub data Last : Type 0 where
  jmp : ℕ → Last
  dec_jne : Last

pub record Block : Type 0 where
  pub label : ℕ
  pub last : Last

-- The blocks from number `i` on, with as many as are left of the 64.
abbrev loop_from : ℕ → ℕ → ℕ → List Block
loop_from base i zero = []
loop_from base i (suc left) =
    record { label = base + i; last = jmp (base + i + 64) } ∷ loop_from base (suc i) left

abbrev end_from : ℕ → ℕ → ℕ → List Block
end_from base i zero = record { label = base + i; last = dec_jne } ∷ []
end_from base i (suc left) =
    record { label = base + i; last = jmp (i + 1) } ∷ end_from base (suc i) left

unfoldable pub printloop : ℕ → List Block
printloop id = loop_from (id * 64) 1 64

unfoldable pub printendloop : ℕ → List Block
printendloop id = end_from (id * 64) 1 63

-- `for( int i = 0 ; i < loopcount ; i ++ ) printloop( i ) ;` and `printendloop( loopcount ) ;`
unfoldable pub print_from : ℕ → ℕ → List Block
unfolding printloop printendloop
print_from i zero = printendloop i
print_from i (suc left) = printloop i ++ print_from (suc i) left

unfoldable pub print_program : ℕ → List Block
unfolding print_from
print_program loopcount = print_from 0 loopcount

-- `movabsq`, with the number of subtractions and one more in 64 bits. The product `( loopcount + 1 ) *
-- roundtime` is one of `int`.
abbrev pub start_r10 : ℕ → ℕ → ℕ
start_r10 loopcount roundtime = u64 (1 + (loopcount + 1) * roundtime * 64)

unfoldable pub find_label : List Block → ℕ → Option Last
find_label [] label = none
find_label (b ∷ bs) label = elim (b.label == label) [
  | true ↦ some b.last
  | false ↦ find_label bs label
]

-- `subq $0x1` and `dec` on a register of 64 bits.
unfoldable pub minus_one : ℕ → ℕ
minus_one r = elim (r == 0) [ true ↦ 2 ^ 64 - 1 | false ↦ r - 1 ]

-- The run from a label, with the registers; `.LBEGIN_FOR` stands before the block 1. The result is
-- `%rax`; `none` is a jump to no label, or a run that goes on.
unfoldable pub run : List Block → ℕ → ℕ → ℕ → ℕ → Option ℕ
unfolding find_label minus_one
run program zero label r9 r10 = none
run program (suc fuel) label r9 r10 = elim (find_label program label) [
  | none ↦ none
  | some (jmp target) ↦ run program fuel target r9 (minus_one r10)
  | some dec_jne ↦ elim (minus_one r9 == 0) [
    | true ↦ some (minus_one r10)
    | false ↦ run program fuel 1 (minus_one r9) (minus_one r10)
  ]
]

-- The numbers that the program computes in `int`: the last label, and the product for `%r10`.
abbrev pub fits_int : ℕ → ℕ → Bool
fits_int loopcount roundtime =
    ltb ((loopcount + 1) * 64) (2 ^ 31) && ltb ((loopcount + 1) * roundtime) (2 ^ 31)

-- The printed kernel, entered with its registers. An overflow of `int` is undefined, and `none` too.
unfoldable pub cpu_l1i_kernel : ℕ → ℕ → ℕ → Option ℕ
unfolding run print_program
cpu_l1i_kernel loopcount roundtime fuel =
    if fits_int loopcount roundtime
    then run (print_program loopcount) fuel 1 roundtime (start_r10 loopcount roundtime)
    else none
