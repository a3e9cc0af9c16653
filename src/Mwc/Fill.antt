-- ===== src/Mwc/Fill.antt =====
-- core-mwc.cpp: `fill_array`. The memory from `p` on is a list of bytes; `none` is a write past its end.
use r_bench_an_interference.Base.{ℕ, zero, suc, ◌+◌, ◌-◌, ◌/◌, ◌%◌, ltb, leb, if◌then◌else◌}
use r_bench_an_interference.Base.{Option, none, some, List, length, set, u8, ◌>>>◌}
use r_bench_an_interference.Base.Int.{ℤ, pos, negsuc}
use r_bench_an_interference.Mwc.{Mwc, mwc8, mwc32}

abbrev pub Memory : Type 0
Memory = List ℕ

-- `*(int*)p = v` on a little-endian machine.
unfoldable pub write_int : ℕ → Memory → Option Memory
write_int v mem =
    if leb 4 (length mem)
    then some
        (set (set (set (set mem 0 (u8 v)) 1 (u8 (v >>> 8))) 2 (u8 (v >>> 16))) 3 (u8 (v >>> 24)))
    else none

-- `*((char*)p+at) = v`
unfoldable pub write_char : ℕ → ℕ → Memory → Option Memory
write_char at v mem = if ltb at (length mem) then some (set mem at v) else none

infixl 5 ◌>>=◌
abbrev pub ◌>>=◌ : {A B : Type 0} → Option A → (A → Option B) → Option B
none >>= k = none
some x >>= k = k x

-- The first loop, `for( i = 0 ; i < len ; i += 4 )`, with the rounds that are left.
unfoldable pub fill_words : ℕ → Mwc → Memory → Option (Memory × Mwc)
fill_words zero m mem = some (mem, m)
fill_words (suc left) m mem =
    let r = mwc32 m in write_int r.0 mem >>= λ mem'. fill_words left r.1 mem'

-- The second loop, from `i` on, with the rounds that are left.
unfoldable pub fill_tail : ℕ → ℕ → ℕ → Mwc → Memory → Option (Memory × Mwc)
fill_tail zero i len m mem = some (mem, m)
fill_tail (suc left) i len m mem =
    let r = mwc8 m in
    write_char (len - 1 - i) r.0 mem >>= λ mem'. fill_tail left (i + 1) len r.1 mem'

-- With a negative length neither loop has a round.
unfoldable pub fill_array : ℤ → Mwc → Memory → Option (Memory × Mwc)
unfolding fill_words fill_tail write_int write_char
fill_array (pos len) m mem =
    fill_words ((len + 3) / 4) m mem >>= λ r. fill_tail (len % 4) 0 len r.1 r.0
fill_array (negsuc n) m mem = some (mem, m)
