-- ===== src/Mwc/Modn.antt =====
-- core-mwc.cpp: `mwc8modn`, `mwc16modn`, `mwc32modn`, `mwc64modn` and `mwc32modn_maybe_pwr2`.
-- The loop that draws again takes fuel, the number of draws; `none` says that it ran out.
use r_bench_an_interference.Base.{ℕ, zero, suc, ◌+◌, ◌-◌, ◌%◌, ◌^◌, bit_and}
use r_bench_an_interference.Base.{◌==◌, ltb, leb, if◌then◌else◌, u32, ◌<<<◌}
use r_bench_an_interference.Base.{Option, none, some, true, false}
use r_bench_an_interference.Mwc.{Mwc, FirstDraw, mwc8, mwc16, mwc32, mwc64}

-- `while( threshold < 0x80U ) threshold = (uint8_t)( threshold << 1 )`, in a word whose top bit
-- is bit `top`. As many rounds as the word has bits are enough.
unfoldable pub raise_threshold : ℕ → ℕ → ℕ → ℕ
raise_threshold top zero threshold = threshold
raise_threshold top (suc fuel) threshold = elim (ltb threshold (2 ^ top)) [
  | true ↦ raise_threshold top fuel ((threshold <<< 1) % 2 ^ suc top)
  | false ↦ threshold
]

-- `do{ val = draw() ; } while( val >= threshold )`
unfoldable pub draw_below : (Mwc → ℕ × Mwc) → ℕ → ℕ → Mwc → Option (ℕ × Mwc)
draw_below draw threshold zero m = none
draw_below draw threshold (suc fuel) m = elim (leb threshold (draw m).0) [
  | true ↦ draw_below draw threshold fuel (draw m).1
  | false ↦ some (draw m)
]

-- `return val % mmod`
abbrev pub reduce : ℕ → Option (ℕ × Mwc) → Option (ℕ × Mwc)
reduce mmod none = none
reduce mmod (some (val, m)) = some (val % mmod, m)

-- The body that the three widths share after their test for 0.
abbrev pub modn_body : ℕ → (Mwc → ℕ × Mwc) → ℕ → ℕ → Mwc → Option (ℕ × Mwc)
modn_body top draw fuel mmod m =
    reduce mmod (draw_below draw (raise_threshold top (suc top) mmod) fuel m)

unfoldable pub mwc8modn : ℕ → ℕ → Mwc → Option (ℕ × Mwc)
mwc8modn fuel mmod m = if mmod == 0 then some (0, m) else modn_body 7 mwc8 fuel mmod m

unfoldable pub mwc16modn : ℕ → ℕ → Mwc → Option (ℕ × Mwc)
mwc16modn fuel mmod m = if mmod == 0 then some (0, m) else modn_body 15 mwc16 fuel mmod m

unfoldable pub mwc32modn : ℕ → ℕ → Mwc → Option (ℕ × Mwc)
mwc32modn fuel mmod m = if mmod == 0 then some (0, m) else modn_body 31 mwc32 fuel mmod m

-- The mask is taken before the test for 0, and wraps there.
unfoldable pub mwc32modn_maybe_pwr2 : ℕ → ℕ → Mwc → Option (ℕ × Mwc)
mwc32modn_maybe_pwr2 fuel mmod m =
    let mask = u32 (mmod + 2 ^ 32 - 1) in
    if mmod == 0
    then some (0, m)
    else if bit_and mmod mask == 0
    then some (bit_and (mwc32 m).0 mask, (mwc32 m).1)
    else mwc32modn fuel mmod m

unfoldable pub mwc64modn : FirstDraw → ℕ → ℕ → Mwc → Option (ℕ × Mwc)
mwc64modn order fuel mmod m =
    if mmod == 0
    then some (0, m)
    else if bit_and mmod (mmod - 1) == 0
    then some (bit_and (mwc64 order m).0 (mmod - 1), (mwc64 order m).1)
    else modn_body 63 (mwc64 order) fuel mmod m
