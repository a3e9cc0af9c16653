-- ===== src/Cpuinfo.antt =====
-- rbench-core.cpp, `cpuinfo_t`, and its types in rbench.hpp: what sysfs says of the caches of cpu 0.
pub mod Laws
use r_bench_an_interference.Base.{ℕ, zero, suc, ◌+◌, ◌*◌, ◌^◌, ◌==◌, if◌then◌else◌, u64}
use r_bench_an_interference.Base.{
  Bool, true, false, not, ◌&&◌, Option, none, some, List, [], ◌∷◌, get_elem?, set,
}
use r_bench_an_interference.Base.Int.{ℤ, pos, leb_ℤ}
use r_bench_an_interference.Base.Cstring.{Cstring, codes, strncase_eq}

pub data CacheType : Type 0 where
  type_unknown type_data type_instruction type_unified : CacheType

pub record CpuCache : Type 0 where
  pub kind : CacheType
  pub level : ℕ
  pub line_size : ℕ
  pub ways : ℕ
  pub sets : ℕ
  pub size : ℕ

pub record CpuInfo : Type 0 where
  pub page_size : ℤ
  pub core_count : ℤ
  pub online_count : ℤ
  pub cache_count : ℕ
  pub caches : List CpuCache

-- What the files of one sysfs index hold: the line of `type`, and the values that `>>` reads
-- from the others; `none` is a file that does not open.
pub record IndexFiles : Type 0 where
  pub type_line : Cstring
  pub level_file : Option ℕ
  pub line_file : Option ℕ
  pub sets_file : Option ℕ
  pub ways_file : Option ℕ
  pub size_file : Option (ℕ × Cstring)

-- What the system answers: the three calls of `sysconf`, and the files by index, where `none`
-- says that the index has no `type` file.
pub record System : Type 0 where
  pub conf : ℤ
  pub online : ℤ
  pub page : ℤ
  pub index_files : ℕ → Option IndexFiles

abbrev pub kind_of : Cstring → CacheType
kind_of line =
    if strncase_eq line (codes "Data") 4
    then type_data
    else if strncase_eq line (codes "Instruction") 11
    then type_instruction
    else if strncase_eq line (codes "Unified") 7
    then type_unified
    else type_unknown

-- A field keeps its value where the file does not open.
abbrev pub read_into : Option ℕ → ℕ → ℕ
read_into none old = old
read_into (some v) old = v

-- The unit that follows a size. An unknown one is reported and changes nothing.
unfoldable pub scale : ℕ → Cstring → ℕ
scale n unit =
    if strncase_eq unit (codes "K") 1
    then u64 (n * 2 ^ 10)
    else if strncase_eq unit (codes "M") 1
    then u64 (n * 2 ^ 20)
    else if strncase_eq unit (codes "G") 1
    then u64 (n * 2 ^ 30)
    else n

abbrev pub read_size : Option (ℕ × Cstring) → ℕ → ℕ
read_size none old = old
read_size (some (n, unit)) old = scale n unit

-- One round of the loop over the indices.
unfoldable pub read_index : IndexFiles → CpuCache → CpuCache
unfolding scale
read_index f c = record {
  kind = kind_of f.type_line;
  level = read_into f.level_file c.level;
  line_size = read_into f.line_file c.line_size;
  ways = read_into f.ways_file c.ways;
  sets = read_into f.sets_file c.sets;
  size = read_size f.size_file c.size;
}

-- Index `i` of `caches`, written through; the array has the room that the list has.
abbrev pub write_entry : Option CpuCache → ℕ → IndexFiles → List CpuCache → List CpuCache
write_entry none i f caches = caches
write_entry (some c) i f caches = set caches i (read_index f c)

abbrev pub update_cache : ℕ → IndexFiles → List CpuCache → List CpuCache
update_cache i f caches = write_entry (get_elem? caches i) i f caches

-- The loop from index `i`, with the indices that are left up to '9'.
unfoldable pub read_caches : (ℕ → Option IndexFiles) → ℕ → ℕ → CpuInfo → CpuInfo
unfolding read_index
read_caches files zero i info = info
read_caches files (suc left) i info = elim (files i) [
  | none ↦ info
  | some f ↦
      read_caches files left (i + 1)
        (record info { cache_count = info.cache_count + 1; caches = update_cache i f info.caches })
]

unfoldable pub read_cpuinfo : System → CpuInfo → CpuInfo
unfolding read_caches
read_cpuinfo sys info = read_caches sys.index_files 10 0 (record info {
  core_count = sys.conf;
  online_count = sys.online;
  page_size = if leb_ℤ sys.page (pos 0) then pos 4096 else sys.page;
})

abbrev pub holds_data : CacheType → Bool
holds_data type_data = true
holds_data type_unified = true
holds_data _ = false

-- The loop from index `i`, with the indices that are left. `none` is a read past the array.
unfoldable pub find_level : List CpuCache → ℕ → ℕ → ℕ → Option ℕ
find_level caches zero i lev = some 0
find_level caches (suc left) i lev = elim (get_elem? caches i) [
  | none ↦ none
  | some c ↦
      let rest = find_level caches left (i + 1) lev in
      if not (c.level == lev) then rest else if holds_data c.kind then some c.size else rest
]

unfoldable pub get_data_cache_size_level : CpuInfo → ℕ → Option ℕ
unfolding find_level
get_data_cache_size_level info lev = find_level info.caches info.cache_count 0 lev
