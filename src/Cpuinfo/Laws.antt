-- ===== src/Cpuinfo/Laws.antt =====
-- rbench-core.cpp: the cache table is read within its ten entries, and searched in order.
use r_bench_an_interference.Base.{
  ℕ, zero, suc, ◌+◌, ◌≤◌, ◌<◌, ◌==◌, if◌then◌else◌, ◌≡◌, refl, arith, ◌∙◌,
}
use r_bench_an_interference.Base.{
  Bool, true, false, ◌&&◌, Option, none, some, List, length, get_elem?, Bool-cases, Option-cases,
  inl, inr,
}
use r_bench_an_interference.Base.{length-set, get_elem?-lt}
use r_bench_an_interference.Base.Int.{ℤ, pos, leb_ℤ, ◌≤ℤ◌}
use r_bench_an_interference.Cpuinfo.{
  CpuCache, CpuInfo, IndexFiles, System, read_index, write_entry, update_cache, read_caches,
  read_cpuinfo,
}
use r_bench_an_interference.Cpuinfo.{holds_data, find_level, get_data_cache_size_level}

-- A cache that the search for level `lev` takes.
abbrev pub matches : ℕ → CpuCache → Bool
matches lev c = c.level == lev && holds_data c.kind

-- Entry `k` from `i` on is the first that the search takes.
pub record IsFirstAt (caches : List CpuCache) (i k lev : ℕ) (c : CpuCache) : Type 0 where
  pub entry : get_elem? caches (i + k) ≡ some c
  pub taken : matches lev c ≡ true
  pub passed :
      (j : ℕ)
      → j < k
      → (d : CpuCache) × (get_elem? caches (i + j) ≡ some d) × (matches lev d ≡ false)

module _ (caches : List CpuCache) (left i lev : ℕ) (d : CpuCache) where
  find_level-pass :
      get_elem? caches i ≡ some d
      → matches lev d ≡ false
      → find_level caches (suc left) i lev ≡ find_level caches left (i + 1) lev
  unfolding find_level
  find_level-pass e no_match = rw (e, find_level) (ground arith)

  find_level-take :
      get_elem? caches i ≡ some d
      → matches lev d ≡ true
      → find_level caches (suc left) i lev ≡ some d.size
  unfolding find_level
  find_level-take e match = rw (e, find_level) (ground arith)

find_level-first :
    (caches : List CpuCache) (left i k lev : ℕ) (c : CpuCache)
    → k < left
    → IsFirstAt caches i k lev c
    → find_level caches left i lev ≡ some c.size
find_level-first caches zero i k lev c h f = absurd (omega arith)
find_level-first caches (suc left) i zero lev c h f =
    let e : i + 0 ≡ i = omega arith in
    find_level-take caches left i lev c (rw e at (f.entry)) f.taken
find_level-first caches (suc left) i (suc k) lev c h f =
    let (d, at_i, no_match) = f.passed 0 (omega arith) in
    let e : i + 0 ≡ i = omega arith in
    find_level-pass caches left i lev d (rw e at at_i) no_match
    ∙ find_level-first caches left (i + 1) k lev c (omega arith) (record {
      entry = rw (next i k) (f.entry);
      taken = f.taken;
      passed = λ j lt. rw (next i j) (f.passed (suc j) (omega arith));
    })
  where
    next : (i j : ℕ) → i + 1 + j ≡ i + suc j
    next i j = omega arith

find_level-none :
    (caches : List CpuCache) (left i lev : ℕ)
    → ((j : ℕ)
        → j < left
        → (d : CpuCache) × (get_elem? caches (i + j) ≡ some d) × (matches lev d ≡ false))
    → find_level caches left i lev ≡ some 0
unfolding find_level
find_level-none caches zero i lev h = refl
find_level-none caches (suc left) i lev h =
    let (d, at_i, no_match) = h 0 (omega arith) in
    let e : i + 0 ≡ i = omega arith in
    find_level-pass caches left i lev d (rw e at at_i) no_match
    ∙ find_level-none caches left (i + 1) lev
        (λ j lt. let n : i + 1 + j ≡ i + suc j = omega arith in rw n (h (suc j) (omega arith)))

-- The size is that of the first entry below `cache_count` with the level asked for that is no
-- instruction cache nor of unknown type.
get_data_cache_size_level-first :
    (info : CpuInfo) (k lev : ℕ) (c : CpuCache)
    → k < info.cache_count
    → IsFirstAt info.caches 0 k lev c
    → get_data_cache_size_level info lev ≡ some c.size
unfolding get_data_cache_size_level
get_data_cache_size_level-first info k lev c h f =
    find_level-first info.caches info.cache_count 0 k lev c h f

-- Where every entry below `cache_count` is passed over, the size is 0.
pub get_data_cache_size_level-none :
    (info : CpuInfo) (lev : ℕ)
    → ((j : ℕ)
        → j < info.cache_count
        → (d : CpuCache) × (get_elem? info.caches (0 + j) ≡ some d) × (matches lev d ≡ false))
    → get_data_cache_size_level info lev ≡ some 0
unfolding get_data_cache_size_level
get_data_cache_size_level-none info lev h = find_level-none info.caches info.cache_count 0 lev h

-- The array holds every entry that the count says is there.
abbrev pub IsReadable : CpuInfo → Type 0
IsReadable info = info.cache_count ≤ length info.caches

pub find_level-total :
    (caches : List CpuCache) (left i lev : ℕ)
    → i + left ≤ length caches
    → (v : ℕ) × (find_level caches left i lev ≡ some v)
unfolding find_level
find_level-total caches zero i lev h = (0, refl)
find_level-total caches (suc left) i lev h =
    let (d, at_i) = get_elem?-lt caches i (omega arith) in
    let (v, rest) = find_level-total caches left (i + 1) lev (omega arith) in
    elim (Bool-cases (matches lev d)) [
      | inl e ↦ (d.size, find_level-take caches left i lev d at_i e)
      | inr e ↦ (v, find_level-pass caches left i lev d at_i e ∙ rest)
    ]

length-update_cache :
    (i : ℕ) (f : IndexFiles) (caches : List CpuCache)
    → length (update_cache i f caches) ≡ length caches
length-update_cache i f caches = written (get_elem? caches i)
  where
    written : (o : Option CpuCache) → length (write_entry o i f caches) ≡ length caches
    written none = refl
    written (some c) = length-set caches i (read_index f c)

-- How many indices from `i` on have files, among those left.
pub present : (ℕ → Option IndexFiles) → ℕ → ℕ → ℕ
present files zero i = 0
present files (suc left) i = elim (files i) [ none ↦ 0 | some f ↦ present files left (i + 1) + 1 ]

read_caches-count :
    (files : ℕ → Option IndexFiles) (left i : ℕ) (info : CpuInfo)
    → let r = read_caches files left i info in
      (r.cache_count ≡ info.cache_count + present files left i)
      × (length r.caches ≡ length info.caches)
      × (r.page_size ≡ info.page_size)
unfolding read_caches present
read_caches-count files zero i info = (omega arith, refl, refl)
read_caches-count files (suc left) i info = elim (Option-cases (files i)) [
  | inl e ↦ rw (e, read_caches, present) (omega arith, refl, refl)
  | inr (f, e) ↦
      let info' : CpuInfo = record info {
        cache_count = info.cache_count + 1;
        caches = update_cache i f info.caches;
      } in
      let (count, len, page) = read_caches-count files left (i + 1) info' in
      rw (e, read_caches, present)
        (omega (arith, count), len ∙ length-update_cache i f info.caches, page)
]

present-le : (files : ℕ → Option IndexFiles) (left i : ℕ) → present files left i ≤ left
unfolding present
present-le files zero i = omega arith
present-le files (suc left) i = ground (arith, present-le files left (i + 1))

-- From a fresh `cpuinfo_t` with its ten entries, `read_cpuinfo` counts the indices up to the first
-- without files, at most ten; the page size is positive; and each search by level stays within the
-- ten entries and returns.
pub read_cpuinfo-IsReadable :
    (sys : System) (info : CpuInfo) (lev : ℕ)
    → info.cache_count ≡ 0
    → length info.caches ≡ 10
    → let r = read_cpuinfo sys info in
      (r.cache_count ≡ present sys.index_files 10 0)
      × IsReadable r
      × (pos 1 ≤ℤ r.page_size)
      × ((v : ℕ) × (get_data_cache_size_level r lev ≡ some v))
unfolding read_cpuinfo get_data_cache_size_level
read_cpuinfo-IsReadable sys info lev fresh room =
    let info' : CpuInfo = record info {
      core_count = sys.conf;
      online_count = sys.online;
      page_size = if leb_ℤ sys.page (pos 0) then pos 4096 else sys.page;
    } in
    let r = read_caches sys.index_files 10 0 info' in
    let (count, len, page) = read_caches-count sys.index_files 10 0 info' in
    let within : r.cache_count ≤ length r.caches =
      omega (arith, count, len, present-le sys.index_files 10 0) in
    (
      omega (arith, count),
      within,
      rw page (page_size_pos sys.page),
      find_level-total r.caches r.cache_count 0 lev (omega (arith, within)),
    )
  where
    page_size_pos : (p : ℤ) → pos 1 ≤ℤ (if leb_ℤ p (pos 0) then pos 4096 else p)
    page_size_pos p = ground arith
