-- ===== src/Kernels/Membw.antt =====
-- rbench-mem-bw.cpp: the kernel over three arrays, and the slices of the arrays that the threads get.
pub mod Rounds
use native.Mathlib.Nat.{
  mod-lt, mod-eq_of_lt, mod-add-mod, mod_self, mul-suc, mul-le-mul_left, div-mul-le_self,
}
use native.Mathlib.Decide.{dec_lt}
use r_bench_an_interference.Base.{
  ℕ, zero, suc, ◌+◌, ◌*◌, ◌/◌, ◌%◌, ◌^◌, ◌≤◌, ◌<◌, ◌≡◌, inl, inr, refl, arith, ap, sym, ◌∙◌, leb,
  ◌==◌, if◌then◌else◌, Bool, true, false, Bool-cases, u64,
}

-- `KERNEL_ITER`
abbrev pub kernel_iter : ℕ
kernel_iter = 120000

-- `if( ++ptr >= len ) ptr = 0 ;`
abbrev pub next_ptr : ℕ → ℕ → ℕ
next_ptr len ptr = if leb len (u64 (ptr + 1)) then 0 else u64 (ptr + 1)

abbrev pub store : {D : Type 0} → (ℕ → D) → ℕ → D → ℕ → D
store a ptr v j = if ptr == j then v else a j

module _ {D : Type 0} (plus : D → D → D) (b c : ℕ → D) (len : ℕ) where
  -- The iterations that are left, with the array `a` and `ptr`; `b` and `c` are only read.
  unfoldable pub add_iterations : ℕ → (ℕ → D) → ℕ → (ℕ → D) × ℕ
  add_iterations zero a ptr = (a, ptr)
  add_iterations (suc left) a ptr =
      add_iterations left (store a ptr (plus (b ptr) (c ptr))) (next_ptr len ptr)

  unfoldable pub mem_bw_add_kernel : (ℕ → D) → ℕ → (ℕ → D) × ℕ
  unfolding add_iterations
  mem_bw_add_kernel a ptr = add_iterations kernel_iter a ptr

  next_ptr_lem : (ptr : ℕ) → ptr < len → len < 2 ^ 64 → next_ptr len ptr ≡ (ptr + 1) % len
  next_ptr_lem ptr h room = elim (Bool-cases (leb len (ptr + 1))) [
    | inl wraps ↦
        let same : ptr + 1 ≡ len = ground arith in
        let word : u64 (ptr + 1) ≡ ptr + 1 = mod-eq_of_lt (omega arith) in
        rw (word, wraps, same, mod_self len) refl
    | inr stays ↦
        let below : ptr + 1 < len = ground arith in
        let word : u64 (ptr + 1) ≡ ptr + 1 = mod-eq_of_lt (omega arith) in
        rw (word, stays, mod-eq_of_lt below) refl
  ]

  -- A cell with its sum keeps it, and a cell outside the slice is not written.
  keeps_sum :
      (n j : ℕ) (a : ℕ → D) (ptr : ℕ)
      → a j ≡ plus (b j) (c j)
      → (add_iterations n a ptr).0 j ≡ plus (b j) (c j)
  unfolding add_iterations
  keeps_sum zero j a ptr e = e
  keeps_sum (suc n) j a ptr e =
      keeps_sum n j (store a ptr (plus (b ptr) (c ptr))) (next_ptr len ptr) (choose (ptr == j) refl)
    where
      choose :
          (t : Bool) → (ptr == j) ≡ t → (if t then plus (b ptr) (c ptr) else a j) ≡ plus (b j) (c j)
      choose true same = let e' : ptr ≡ j = ground arith in rw e' refl
      choose false other = e

  outside :
      (n j : ℕ) (a : ℕ → D) (ptr : ℕ)
      → ptr < len
      → len < 2 ^ 64
      → len ≤ j
      → (add_iterations n a ptr).0 j ≡ a j
  unfolding add_iterations
  outside zero j a ptr h room beyond = refl
  outside (suc n) j a ptr h room beyond =
      let other : (ptr == j) ≡ false = ground arith in
      let next : next_ptr len ptr < len =
        rw (next_ptr_lem ptr h room) (mod-lt (ptr + 1) (omega arith)) in
      outside n j (store a ptr (plus (b ptr) (c ptr))) (next_ptr len ptr) next room beyond
      ∙ rw other refl

  pub visits :
      (n k : ℕ) (a : ℕ → D) (ptr : ℕ)
      → ptr < len
      → len < 2 ^ 64
      → k < n
      → (add_iterations n a ptr).0 ((ptr + k) % len)
        ≡ plus (b ((ptr + k) % len)) (c ((ptr + k) % len))
  unfolding add_iterations
  visits zero k a ptr h room below = absurd (omega arith)
  visits (suc n) zero a ptr h room below =
      let here : (ptr + 0) % len ≡ ptr = ap (λ (t : ℕ). t % len) (omega arith) ∙ mod-eq_of_lt h in
      rw here (
        keeps_sum n ptr (store a ptr (plus (b ptr) (c ptr))) (next_ptr len ptr)
          (let hit : (ptr == ptr) ≡ true = ground arith in rw hit refl))
  visits (suc n) (suc k) a ptr h room below =
      let next : next_ptr len ptr < len =
        rw (next_ptr_lem ptr h room) (mod-lt (ptr + 1) (omega arith)) in
      let same : (next_ptr len ptr + k) % len ≡ (ptr + suc k) % len =
        ap (λ (t : ℕ). (t + k) % len) (next_ptr_lem ptr h room)
        ∙ mod-add-mod (ptr + 1) len k
        ∙ ap (λ (t : ℕ). t % len) (let e : ptr + 1 + k ≡ ptr + suc k = omega arith in e) in
      ap ((add_iterations n (store a ptr (plus (b ptr) (c ptr))) (next_ptr len ptr)).0) (sym same)
      ∙ visits n k (store a ptr (plus (b ptr) (c ptr))) (next_ptr len ptr) next room (omega arith)
      ∙ ap (λ j. plus (b j) (c j)) same

  moves :
      (n : ℕ) (a : ℕ → D) (ptr : ℕ)
      → ptr < len
      → len < 2 ^ 64
      → (add_iterations n a ptr).1 ≡ (ptr + n) % len
  unfolding add_iterations
  moves zero a ptr h room =
      sym (ap (λ (t : ℕ). t % len) (let e : ptr + 0 ≡ ptr = omega arith in e) ∙ mod-eq_of_lt h)
  moves (suc n) a ptr h room =
      let next : next_ptr len ptr < len =
        rw (next_ptr_lem ptr h room) (mod-lt (ptr + 1) (omega arith)) in
      moves n (store a ptr (plus (b ptr) (c ptr))) (next_ptr len ptr) next room
      ∙ ap (λ (t : ℕ). (t + n) % len) (next_ptr_lem ptr h room)
      ∙ mod-add-mod (ptr + 1) len n
      ∙ ap (λ (t : ℕ). t % len) (let e : ptr + 1 + n ≡ ptr + suc n = omega arith in e)

  -- What the kernel leaves of the array `a` and of `ptr`.
  pub record Added (a : ℕ → D) (ptr : ℕ) (run : (ℕ → D) × ℕ) : Type 0 where
    pub pointer : run.1 ≡ (ptr + kernel_iter) % len
    pub bounded : run.1 < len
    pub sums :
        (k : ℕ)
        → k < kernel_iter
        → run.0 ((ptr + k) % len) ≡ plus (b ((ptr + k) % len)) (c ((ptr + k) % len))
    pub untouched : (j : ℕ) → len ≤ j → run.0 j ≡ a j

  -- From a `ptr` in the slice, the kernel of the memory stressor leaves the sums in the 120000
  -- cells that come next, with the end of the slice joined to its start, writes no cell behind the
  -- slice, and moves `ptr` on as far within the slice.
  pub mem_bw_add_kernel-Added :
      (a : ℕ → D) (ptr : ℕ) → ptr < len → len < 2 ^ 64 → Added a ptr (mem_bw_add_kernel a ptr)
  unfolding mem_bw_add_kernel
  mem_bw_add_kernel-Added a ptr h room = record {
    pointer = moves kernel_iter a ptr h room;
    bounded = rw (moves kernel_iter a ptr h room) (mod-lt (ptr + kernel_iter) (omega arith));
    sums = λ k below. visits kernel_iter k a ptr h room below;
    untouched = λ j beyond. outside kernel_iter j a ptr h room beyond;
  }

-- The arrays of `mem_bw_bench_entry` have six times the size of the third level as their length, and
-- each thread gets a slice.
abbrev pub array_len : ℕ → ℕ
array_len size = u64 (size * 6)

unfoldable pub instance_array_len : ℕ → ℕ → ℕ
instance_array_len size count_thr = array_len size / count_thr

-- `a_start + instance_array_len * i`
unfoldable pub slice_start : ℕ → ℕ → ℕ → ℕ
unfolding instance_array_len
slice_start size count_thr i = instance_array_len size count_thr * i

in_slice : (len n i j total : ℕ) → len * n ≤ total → i < n → j < len → len * i + j < total
in_slice len n i j total room h below =
    omega (arith, mul-suc len i, mul-le-mul_left {m = suc i} {n = n} len (omega arith))

in_order : (len i i' j j' : ℕ) → i < i' → j < len → len * i + j < len * i' + j'
in_order len i i' j j' h below =
    omega (arith, mul-suc len i, mul-le-mul_left {m = suc i} {n = i'} len (omega arith))

same_place :
    (len i i' j j' : ℕ) → j < len → j' < len → len * i + j ≡ len * i' + j' → (i ≡ i') × (j ≡ j')
same_place len i i' j j' below below' e = elim (dec_lt i i') [
  | yes h ↦ absurd (omega (arith, in_order len i i' j j' h below))
  | no not_before ↦ elim (dec_lt i' i) [
    | yes h ↦ absurd (omega (arith, in_order len i' i j' j h below'))
    | no not_behind ↦
        let same : i ≡ i' = omega arith in (same, omega (arith, ap (λ (t : ℕ). len * t) same))
  ]
]

-- Each cell of a slice lies in the array, and cells of the slices of two threads are never the
-- same: one cell belongs to one thread.
pub slices_apart :
    (size count_thr i i' j j' : ℕ)
    → i < count_thr
    → i' < count_thr
    → j < instance_array_len size count_thr
    → j' < instance_array_len size count_thr
    → (slice_start size count_thr i + j < array_len size)
      × (slice_start size count_thr i + j ≡ slice_start size count_thr i' + j'
          → (i ≡ i') × (j ≡ j'))
unfolding slice_start instance_array_len
slices_apart size count_thr i i' j j' h h' below below' = (
  in_slice (instance_array_len size count_thr) count_thr i j (array_len size)
      (div-mul-le_self (array_len size) count_thr) h below,
  same_place (instance_array_len size count_thr) i i' j j' below below',
)
