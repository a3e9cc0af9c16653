-- ===== src/Kernels/Membw/Rounds.antt =====
-- rbench-mem-bw.cpp: `mem_bw_init_kernel`, and the calls of the kernel one after another in a slice.
use native.Mathlib.Nat.{suc-mul, zero-mul, mod-eq_of_lt}
use r_bench_an_interference.Base.{
  ℕ, zero, suc, ◌+◌, ◌*◌, ◌%◌, ◌^◌, ◌≤◌, ◌<◌, ◌≡◌, refl, arith, ap, ap₂, sym, ◌∙◌, ◌==◌, true,
  false,
}
use r_bench_an_interference.Kernels.Membw.{
  kernel_iter, next_ptr, store, add_iterations, mem_bw_add_kernel, visits,
}

pub record Arrays (D : Type 0) : Type 0 where
  pub a : ℕ → D
  pub b : ℕ → D
  pub c : ℕ → D

module _ {D : Type 0} (one two nought : D) where
  -- The iterations that are left, from `j` on.
  unfoldable pub init_loop : ℕ → ℕ → Arrays D → Arrays D
  init_loop zero j m = m
  init_loop (suc left) j m =
      init_loop left (suc j)
        (record { a = store m.a j one; b = store m.b j two; c = store m.c j nought })

  unfoldable pub mem_bw_init_kernel : ℕ → Arrays D → Arrays D
  unfolding init_loop
  mem_bw_init_kernel len m = init_loop len 0 m

  store-lt : (f : ℕ → D) (j k : ℕ) (v : D) → k < j → store f j v k ≡ f k
  store-lt f j k v h = let other : (j == k) ≡ false = ground arith in rw other refl

  store_self : (f : ℕ → D) (j : ℕ) (v : D) → store f j v j ≡ v
  store_self f j v = let same : (j == j) ≡ true = ground arith in rw same refl

  before :
      (left j k : ℕ) (m : Arrays D)
      → k < j
      → ((init_loop left j m).b k ≡ m.b k) × ((init_loop left j m).c k ≡ m.c k)
  unfolding init_loop
  before zero j k m h = (refl, refl)
  before (suc left) j k m h =
      let (e, e') =
        before left (suc j) k
          (record { a = store m.a j one; b = store m.b j two; c = store m.c j nought })
          (omega arith) in
      (e ∙ store-lt m.b j k two h, e' ∙ store-lt m.c j k nought h)

  written :
      (left j d : ℕ) (m : Arrays D)
      → d < left
      → ((init_loop left j m).b (j + d) ≡ two) × ((init_loop left j m).c (j + d) ≡ nought)
  unfolding init_loop
  written zero j d m h = absurd (omega arith)
  written (suc left) j zero m h =
      let here : j + 0 ≡ j = omega arith in
      let (e, e') =
        before left (suc j) j
          (record { a = store m.a j one; b = store m.b j two; c = store m.c j nought })
          (omega arith) in
      rw here (e ∙ store_self m.b j two, e' ∙ store_self m.c j nought)
  written (suc left) j (suc d) m h =
      let there : j + suc d ≡ suc j + d = omega arith in
      rw there (
        written left (suc j) d
          (record { a = store m.a j one; b = store m.b j two; c = store m.c j nought })
          (omega arith))

  init_lem :
      (len k : ℕ) (m : Arrays D)
      → k < len
      → ((mem_bw_init_kernel len m).b k ≡ two) × ((mem_bw_init_kernel len m).c k ≡ nought)
  unfolding mem_bw_init_kernel
  init_lem len k m h = let here : k ≡ 0 + k = omega arith in rw here (written len 0 k m h)

module _ {D : Type 0} (plus : D → D → D) (b c : ℕ → D) (len : ℕ) where
  -- So many calls of the kernel, with `array_ptr` from one to the next.
  unfoldable pub add_rounds : ℕ → (ℕ → D) → ℕ → (ℕ → D) × ℕ
  add_rounds zero a ptr = (a, ptr)
  add_rounds (suc n) a ptr =
      add_rounds n ((mem_bw_add_kernel plus b c len a ptr).0)
        ((mem_bw_add_kernel plus b c len a ptr).1)

  add_iterations-add :
      (m n : ℕ) (a : ℕ → D) (ptr : ℕ)
      → add_iterations plus b c len (m + n) a ptr
        ≡ add_iterations plus b c len n
            ((add_iterations plus b c len m a ptr).0)
            ((add_iterations plus b c len m a ptr).1)
  unfolding add_iterations
  add_iterations-add zero n a ptr =
      ap (λ (t : ℕ). add_iterations plus b c len t a ptr) (let e : 0 + n ≡ n = omega arith in e)
  add_iterations-add (suc m) n a ptr =
      ap (λ (t : ℕ). add_iterations plus b c len t a ptr)
        (let e : suc m + n ≡ suc (m + n) = omega arith in e)
      ∙ add_iterations-add m n (store a ptr (plus (b ptr) (c ptr))) (next_ptr len ptr)

  kernel_lem :
      (a : ℕ → D) (ptr : ℕ)
      → mem_bw_add_kernel plus b c len a ptr ≡ add_iterations plus b c len kernel_iter a ptr
  unfolding mem_bw_add_kernel
  kernel_lem a ptr = refl

  add_rounds-add_iterations :
      (n : ℕ) (a : ℕ → D) (ptr : ℕ)
      → add_rounds n a ptr ≡ add_iterations plus b c len (n * kernel_iter) a ptr
  unfolding add_rounds
  add_rounds-add_iterations zero a ptr =
      none_left a ptr
      ∙ ap (λ (t : ℕ). add_iterations plus b c len t a ptr) (sym (zero-mul kernel_iter))
    where
      none_left : (a : ℕ → D) (ptr : ℕ) → (a, ptr) ≡ add_iterations plus b c len zero a ptr
      none_left a ptr = unfold add_iterations in refl
  add_rounds-add_iterations (suc n) a ptr =
      add_rounds-add_iterations n ((mem_bw_add_kernel plus b c len a ptr).0)
        ((mem_bw_add_kernel plus b c len a ptr).1)
      ∙ ap (λ (r : (ℕ → D) × ℕ). add_iterations plus b c len (n * kernel_iter) r.0 r.1)
          (kernel_lem a ptr)
      ∙ sym (add_iterations-add kernel_iter (n * kernel_iter) a ptr)
      ∙ ap (λ (t : ℕ). add_iterations plus b c len t a ptr)
          (let e : kernel_iter + n * kernel_iter ≡ suc n * kernel_iter =
              omega (arith, suc-mul n kernel_iter) in
            e)

  -- Calls enough for the whole slice fill it with the sums, wherever they start.
  add_rounds-fill :
      (n j : ℕ) (a : ℕ → D)
      → len < 2 ^ 64
      → len ≤ n * kernel_iter
      → j < len
      → (add_rounds n a 0).0 j ≡ plus (b j) (c j)
  add_rounds-fill n j a room enough below =
      ap (λ (r : (ℕ → D) × ℕ). r.0 j) (add_rounds-add_iterations n a 0)
      ∙ ap ((add_iterations plus b c len (n * kernel_iter) a 0).0) (sym here)
      ∙ visits plus b c len (n * kernel_iter) j a 0 (omega arith) room (omega arith)
      ∙ ap (λ (t : ℕ). plus (b t) (c t)) here
    where
      here : (0 + j) % len ≡ j
      here = ap (λ (t : ℕ). t % len) (let e : 0 + j ≡ j = omega arith in e) ∙ mod-eq_of_lt below

-- `mem_bw_bench_module` from its initialisation through so many rounds: what the first array holds.
unfoldable pub mem_bw_rounds : {D : Type 0} → (D → D → D) → D → D → D → ℕ → ℕ → Arrays D → ℕ → D
unfolding mem_bw_init_kernel add_rounds
mem_bw_rounds plus one two nought len rounds m =
    (add_rounds plus ((mem_bw_init_kernel one two nought len m).b)
      ((mem_bw_init_kernel one two nought len m).c) len rounds
      ((mem_bw_init_kernel one two nought len m).a) 0).0

-- Once the rounds of a thread have gone over its slice, which takes one round for every 120000 cells,
-- every cell of its first array is 2.0 + 0.0, whatever the mapping held before.
pub mem_bw_rounds-fill :
    {D : Type 0} (plus : D → D → D) (one two nought : D) (len rounds j : ℕ) (m : Arrays D)
    → len < 2 ^ 64
    → len ≤ rounds * kernel_iter
    → j < len
    → mem_bw_rounds plus one two nought len rounds m j ≡ plus two nought
unfolding mem_bw_rounds
mem_bw_rounds-fill plus one two nought len rounds j m room enough below =
    add_rounds-fill plus ((mem_bw_init_kernel one two nought len m).b)
      ((mem_bw_init_kernel one two nought len m).c) len rounds j
      ((mem_bw_init_kernel one two nought len m).a) room enough below
    ∙ ap₂ plus (init_lem one two nought len j m below).0 (init_lem one two nought len j m below).1
