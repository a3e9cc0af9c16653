-- ===== src/Mapping/Line.antt =====
-- rbench-cpu-cache.cpp, `cache_bench_entry`: which line size it finds.
use r_bench_an_interference.Base.{
  ℕ, zero, suc, ◌+◌, ◌≤◌, ◌<◌, ◌≡◌, ◌≢◌, ◌⊎◌, inl, inr, refl, arith, ap, sym, ◌∙◌, some, List,
  get_elem?, get_elem?-lt, length, ltb, if◌then◌else◌, Bool, true, false, ◌==◌,
}
use r_bench_an_interference.Cpuinfo.{CpuCache, CpuInfo}
use r_bench_an_interference.Mapping.{
  is_instruction, next_line, find_line, cache_line_size, universal_cacheline,
}

-- A cache that is none for instructions, and is smaller than the size.
abbrev pub Fits : ℕ → CpuCache → Type 0
Fits size c = (is_instruction c.kind ≡ false) × (c.size < size)

-- No cache with an index from `i` on and below `stop` fits.
abbrev pub NoneFits : ℕ → List CpuCache → ℕ → ℕ → Type 0
NoneFits size caches i stop =
    (j : ℕ) (c : CpuCache) → i ≤ j → j < stop → get_elem? caches j ≡ some c → ¬ Fits size c

-- The cache that is the last one to fit from `i` on and below `stop`.
pub record LastFit (size : ℕ) (caches : List CpuCache) (i stop : ℕ) : Type 0 where
  pub index : ℕ
  pub cache : CpuCache
  pub from : i ≤ index
  pub below : index < stop
  pub stands : get_elem? caches index ≡ some cache
  pub fits : Fits size cache
  pub last : NoneFits size caches (suc index) stop

-- The line size of the last cache that fits, or the given one where none does.
abbrev pub IsLineOfLast : ℕ → List CpuCache → ℕ → ℕ → ℕ → ℕ → Type 0
IsLineOfLast size caches i stop line found =
    ((l : LastFit size caches i stop) × (found ≡ l.cache.line_size))
    ⊎ (NoneFits size caches i stop × (found ≡ line))

next_line_cases :
    (size line : ℕ) (c : CpuCache)
    → (Fits size c × (next_line size c line ≡ c.line_size))
      ⊎ ((¬ Fits size c) × (next_line size c line ≡ line))
next_line_cases size line c = choose (is_instruction c.kind) refl (ltb c.size size) refl
  where
    choose :
        (a : Bool)
        → is_instruction c.kind ≡ a
        → (b : Bool) → ltb c.size size ≡ b
        → (Fits size c × ((if a then line else if b then c.line_size else line) ≡ c.line_size))
          ⊎ ((¬ Fits size c) × ((if a then line else if b then c.line_size else line) ≡ line))
    choose true e b e' =
        inr ((λ (f, small). absurd (let bad : true ≡ false = sym e ∙ f in ground arith)), refl)
    choose false e true e' = inl ((e, ground arith), refl)
    choose false e false e' = inr ((λ (f, small). absurd (ground arith)), refl)

one_more :
    (size : ℕ) (caches : List CpuCache) (i stop : ℕ) (c : CpuCache)
    → get_elem? caches i ≡ some c
    → (¬ Fits size c)
    → NoneFits size caches (suc i) stop
    → NoneFits size caches i stop
one_more size caches i stop c e unfit rest j d from below e' fits = choose (i == j) refl
  where
    choose : (b : Bool) → (i == j) ≡ b → ⊥
    choose true same =
        let same_i : i ≡ j = ground arith in
        let found : some c ≡ some d = sym e ∙ ap (get_elem? caches) same_i ∙ e' in
        let same_c : c ≡ d = cc found in unfit (rw same_c fits)
    choose false other =
        let ne : i ≢ j = λ x. ground arith in rest j d (omega (arith, from, ne)) below e' fits

-- A cache before: it counts only where none behind it fits.
before :
    (size : ℕ) (caches : List CpuCache) (i stop line found : ℕ) (c : CpuCache)
    → i < stop
    → get_elem? caches i ≡ some c
    → IsLineOfLast size caches (suc i) stop (next_line size c line) found
    → IsLineOfLast size caches i stop line found
before size caches i stop line found c h e (inl (l, found_there)) = inl (
  record {
    index = l.index;
    cache = l.cache;
    from = (let later = l.from in omega (arith, later));
    below = l.below;
    stands = l.stands;
    fits = l.fits;
    last = l.last;
  },
  found_there,
)
before size caches i stop line found c h e (inr (none_behind, kept)) =
    elim (next_line_cases size line c) [
      | inl (fits, taken) ↦ inl (
        record {
          index = i;
          cache = c;
          from = omega arith;
          below = h;
          stands = e;
          fits = fits;
          last = none_behind;
        },
        kept ∙ taken,
      )
      | inr (unfit, passed) ↦ inr (one_more size caches i stop c e unfit none_behind, kept ∙ passed)
    ]

find_line-IsLineOfLast :
    (size : ℕ) (caches : List CpuCache) (left i stop line : ℕ)
    → i + left ≡ stop
    → stop ≤ length caches
    → (found : ℕ) × (find_line size caches left i line ≡ some found)
      × IsLineOfLast size caches i stop line found
unfolding find_line
find_line-IsLineOfLast size caches zero i stop line e h =
    (line, refl, inr ((λ j c from below e' fits. absurd (omega (arith, e, from, below))), refl))
find_line-IsLineOfLast size caches (suc left) i stop line e h =
    let (c, there) = get_elem?-lt caches i (omega (arith, e, h)) in
    let (found, returns, is_last) =
      find_line-IsLineOfLast size caches left (suc i) stop (next_line size c line)
        (omega (arith, e)) h in
    (
      found,
      rw (find_line, there) returns,
      before size caches i stop line found c (omega (arith, e)) there is_last,
    )

-- With entries for all caches, `cache_bench_entry` finds the line size of the last cache that is no
-- cache for instructions and is smaller than the given size, or 64 where there is none.
pub cache_line_size-IsLineOfLast :
    (info : CpuInfo) (size : ℕ)
    → info.cache_count ≤ length info.caches
    → (found : ℕ) × (cache_line_size info size ≡ some found)
      × IsLineOfLast size info.caches 0 info.cache_count universal_cacheline found
unfolding cache_line_size
cache_line_size-IsLineOfLast info size h =
    find_line-IsLineOfLast size info.caches info.cache_count 0 info.cache_count universal_cacheline
      (omega arith) h
