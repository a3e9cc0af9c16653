-- ===== src/Kernels/Tlb.antt =====
-- rbench-cpu-tlb.cpp: the addresses of the access sequence.
use native.Mathlib.Nat.{suc-mul, mul-le-mul_right}
use r_bench_an_interference.Base.{
  ℕ, zero, suc, ◌+◌, ◌-◌, ◌*◌, ◌%◌, ◌^◌, ◌≤◌, ◌<◌, ◌≡◌, ◌⊎◌, inl, inr, refl, arith, ap, Option,
  none, some, List, [], ◌∷◌, u32, length, All,
}
use r_bench_an_interference.Mwc.{Mwc, mwc32}
use r_bench_an_interference.Mwc.Modn.{mwc32modn}
use r_bench_an_interference.Mwc.Bounds.{IsFirst, after, threshold, mwc32modn-first}

-- `mwc32modn( page_tot ) - 1`, in 32 bits, and the address of the page.
abbrev pub page_id : ℕ → ℕ
page_id draw = u32 (draw + 2 ^ 32 - 1)

abbrev pub page_address : ℕ → ℕ → ℕ → ℕ
page_address page_size block_aligned draw = block_aligned + page_id draw * page_size

-- The loop over `adrs`: the addresses that are left, each with as many draws as the fuel.
unfoldable pub access_sequence : ℕ → ℕ → ℕ → ℕ → ℕ → Mwc → Option (List ℕ)
unfolding mwc32modn
access_sequence fuel page_tot page_size block_aligned zero mwc_eng = some []
access_sequence fuel page_tot page_size block_aligned (suc left) mwc_eng =
    elim (mwc32modn fuel page_tot mwc_eng) [
      | none ↦ none
      | some (draw, next) ↦ elim (access_sequence fuel page_tot page_size block_aligned left next) [
        | none ↦ none
        | some adrs ↦ some (page_address page_size block_aligned draw ∷ adrs)
      ]
    ]

-- The address of a whole page in the buffer, for any draw but 0; a draw of 0 leads behind the buffer.
abbrev pub IsPageOrWrapped : ℕ → ℕ → ℕ → ℕ → Type 0
IsPageOrWrapped page_tot page_size block_aligned a =
    ((page : ℕ) × (a ≡ block_aligned + page * page_size)
      × (a + page_size ≤ block_aligned + page_tot * page_size))
    ⊎ ((a ≡ block_aligned + (2 ^ 32 - 1) * page_size) × (block_aligned + page_tot * page_size ≤ a))

page_address_lem :
    (page_tot page_size block_aligned draw : ℕ)
    → page_tot < 2 ^ 32
    → draw < page_tot
    → IsPageOrWrapped page_tot page_size block_aligned (page_address page_size block_aligned draw)
page_address_lem page_tot page_size block_aligned zero small below =
    inr (
      refl,
      omega (arith, mul-le-mul_right {m = page_tot} {n = 2 ^ 32 - 1} page_size (omega arith)),
    )
page_address_lem page_tot page_size block_aligned (suc page) small below =
    let id : page_id (suc page) ≡ page = omega arith in
    let whole : page_address page_size block_aligned (suc page) ≡ block_aligned + page * page_size =
      ap (λ (t : ℕ). block_aligned + t * page_size) id in
    inl (
      page,
      whole,
      omega (
        arith,
        whole,
        suc-mul page page_size,
        mul-le-mul_right {m = suc page} {n = page_tot} page_size (omega arith),
      ),
    )

-- Each of the draws that are left comes below the threshold within the fuel.
abbrev pub AllFirst : ℕ → ℕ → ℕ → Mwc → Type 0
AllFirst fuel page_tot zero mwc_eng = Unit
AllFirst fuel page_tot (suc left) mwc_eng =
    (n : ℕ) × IsFirst mwc32 (threshold 31 page_tot) n mwc_eng
    × (n < fuel)
    × AllFirst fuel page_tot left ((mwc32 (after mwc32 n mwc_eng)).1)

pub record Sequence (page_tot page_size block_aligned left : ℕ) (run : Option (List ℕ))
    : Type 0 where
  pub adrs : List ℕ
  pub returns : run ≡ some adrs
  pub counted : length adrs ≡ left
  pub placed : All (IsPageOrWrapped page_tot page_size block_aligned) adrs

-- With pages in the buffer, fewer than 2 ^ 32, and draws that are accepted within the fuel, the
-- access sequence has its length, and each of its addresses is that of a whole page in the buffer,
-- or, as after a draw of 0, lies 2 ^ 32 - 1 pages behind its start and so behind the buffer.
pub access_sequence-Sequence :
    (fuel page_tot page_size block_aligned left : ℕ) (mwc_eng : Mwc)
    → 0 < page_tot
    → page_tot < 2 ^ 32
    → AllFirst fuel page_tot left mwc_eng
    → Sequence page_tot page_size block_aligned left
        (access_sequence fuel page_tot page_size block_aligned left mwc_eng)
unfolding access_sequence
access_sequence-Sequence fuel page_tot page_size block_aligned zero mwc_eng positive small first =
    record { adrs = []; returns = refl; counted = refl; placed = tt }
access_sequence-Sequence fuel page_tot page_size block_aligned (suc left) mwc_eng positive small
      (n, first, enough, others) =
    let (drawn, below) = mwc32modn-first fuel n page_tot mwc_eng positive first enough in
    let draw = (mwc32 (after mwc32 n mwc_eng)).0 % page_tot in
    let rest =
      access_sequence-Sequence fuel page_tot page_size block_aligned left
        ((mwc32 (after mwc32 n mwc_eng)).1) positive small others in
    record {
      adrs = page_address page_size block_aligned draw ∷ rest.adrs;
      returns = rw (access_sequence, drawn, rest.returns) refl;
      counted = omega (arith, rest.counted);
      placed = (page_address_lem page_tot page_size block_aligned draw small below, rest.placed);
    }
