-- ===== src/Mwc/FillLaws.antt =====
-- core-mwc.cpp: which bytes `fill_array` writes.
use r_bench_an_interference.Base.{ℕ, zero, suc, ◌+◌, ◌-◌, ◌/◌, ◌%◌, ◌^◌, ◌≤◌, ◌<◌}
use r_bench_an_interference.Base.{◌≡◌, ◌⊎◌, refl, arith, ◌∙◌, none, some, le→leb, lt→ltb}
use r_bench_an_interference.Base.{
  [], ◌∷◌, length, get_elem?, set, length-set, get_elem?-set_ne, Option, u8,
}
use r_bench_an_interference.Base.Int.{pos}
use r_bench_an_interference.Mwc.{Mwc, mwc32, mwc8}
use r_bench_an_interference.Mwc.Fill.{
  Memory, write_int, write_char, fill_words, fill_tail, fill_array,
}

-- A run ends, in a memory that holds what it held from `lo` up to `mid` and from `hi` on.
pub record Ends (mem : Memory) (run : Option (Memory × Mwc)) (lo mid hi : ℕ) : Type 0 where
  pub out : Memory
  pub state : Mwc
  pub returns : run ≡ some (out, state)
  pub same_length : length out ≡ length mem
  pub same : (j : ℕ) → lo ≤ j → (j < mid) ⊎ (hi ≤ j) → get_elem? out j ≡ get_elem? mem j

module _ (v : ℕ) (mem : Memory) where
  -- The memory after `*(int*)p = v`.
  stored : Memory
  stored =
      set (set (set (set mem 0 (u8 v)) 1 (u8 (v / 2 ^ 8))) 2 (u8 (v / 2 ^ 16))) 3 (u8 (v / 2 ^ 24))

  write_int-stored : 4 ≤ length mem → write_int v mem ≡ some stored
  unfolding write_int stored
  write_int-stored h = rw (le→leb 4 (length mem) h)

  length-stored : length stored ≡ length mem
  unfolding stored
  length-stored = simp length-set

  get_elem?-stored : (j : ℕ) → 4 ≤ j → get_elem? stored j ≡ get_elem? mem j
  unfolding stored
  get_elem?-stored j h =
      get_elem?-set_ne _ 3 j _ (omega arith)
      ∙ get_elem?-set_ne _ 2 j _ (omega arith)
      ∙ get_elem?-set_ne _ 1 j _ (omega arith)
      ∙ get_elem?-set_ne mem 0 j _ (omega arith)

-- The first loop writes only the first four bytes, however long the array.
fill_words-Ends :
    (left : ℕ) (m : Mwc) (mem : Memory) → 4 ≤ length mem → Ends mem (fill_words left m mem) 4 0 0
unfolding fill_words
fill_words-Ends zero m mem h = record {
  out = mem;
  state = m;
  returns = refl;
  same_length = refl;
  same = λ j p q. refl;
}
fill_words-Ends (suc left) m mem h =
    let v = (mwc32 m).0 in
    let rest =
      fill_words-Ends left (mwc32 m).1 (stored v mem) (omega (arith, length-stored v mem)) in
    record {
      out = rest.out;
      state = rest.state;
      returns = rw (write_int-stored v mem h) rest.returns;
      same_length = rest.same_length ∙ length-stored v mem;
      same = λ j p q. rest.same j p q ∙ get_elem?-stored v mem j p;
    }

-- The second loop writes the last bytes.
fill_tail-Ends :
    (left i len : ℕ) (m : Mwc) (mem : Memory)
    → i + left ≤ len
    → len ≤ length mem
    → Ends mem (fill_tail left i len m mem) 0 (len - (i + left)) (len - i)
unfolding fill_tail write_char
fill_tail-Ends zero i len m mem h fits = record {
  out = mem;
  state = m;
  returns = refl;
  same_length = refl;
  same = λ j p q. refl;
}
fill_tail-Ends (suc left) i len m mem h fits =
    let v = (mwc8 m).0 in
    let mem' = set mem (len - 1 - i) v in
    let rest =
      fill_tail-Ends left (i + 1) len (mwc8 m).1 mem' (omega arith)
        (omega (arith, length-set mem (len - 1 - i) v)) in
    record {
      out = rest.out;
      state = rest.state;
      returns = rw (lt→ltb (len - 1 - i) (length mem) (omega arith)) rest.returns;
      same_length = rest.same_length ∙ length-set mem (len - 1 - i) v;
      same = λ j p q.
          rest.same j p (omega arith) ∙ get_elem?-set_ne mem (len - 1 - i) j v (omega arith);
    }

-- With room for at least four bytes, `fill_array` returns and writes no byte but the first four and
-- the last `len % 4`: those between keep what they held, as do those behind the array.
pub fill_array-Ends :
    (len : ℕ) (m : Mwc) (mem : Memory)
    → 4 ≤ len
    → len ≤ length mem
    → Ends mem (fill_array (pos len) m mem) 4 (len - len % 4) len
unfolding fill_array
fill_array-Ends len m mem h fits =
    let words = fill_words-Ends ((len + 3) / 4) m mem (omega arith) in
    let rest =
      fill_tail-Ends (len % 4) 0 len words.state words.out (omega arith)
        (omega (arith, words.same_length)) in
    record {
      out = rest.out;
      state = rest.state;
      returns = rw words.returns rest.returns;
      same_length = rest.same_length ∙ words.same_length;
      same = λ j p q. rest.same j (omega arith) (omega arith) ∙ words.same j p (omega arith);
    }

-- An array of one, two or three bytes is overrun by the first write.
pub fill_array_overrun :
    (m : Mwc) (mem : Memory)
    → 0 < length mem
    → length mem < 4
    → fill_array (pos (length mem)) m mem ≡ none
unfolding fill_array
fill_array_overrun m [] h lt = absurd (omega arith)
fill_array_overrun m (a ∷ []) h lt = refl
fill_array_overrun m (a ∷ b ∷ []) h lt = refl
fill_array_overrun m (a ∷ b ∷ c ∷ []) h lt = refl
fill_array_overrun m (a ∷ b ∷ c ∷ d ∷ mem) h lt = absurd (omega arith)
