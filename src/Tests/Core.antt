-- ===== src/Tests/Core.antt =====
-- rbench-core.cpp and rbench.cpp: the theorems on small machines and command lines.
use r_bench_an_interference.Base.{ℕ, zero, suc, ◌+◌, ◌<◌, ◌≡◌, refl, arith}
use r_bench_an_interference.Base.{false, Option, none, some, List, [], ◌∷◌, All, get_elem?}
use r_bench_an_interference.Base.Int.{pos, negsuc, ◌≤ℤ◌}
use r_bench_an_interference.Base.Cstring.{str_eq, codes, atoi}
use r_bench_an_interference.Cpuinfo.{
  CpuCache, CpuInfo, IndexFiles, System, read_cpuinfo, get_data_cache_size_level, type_data,
  type_instruction, type_unknown,
}
use r_bench_an_interference.Cpuinfo.Laws.{
  find_level-total, matches, present, IsReadable, read_cpuinfo-IsReadable,
}
use r_bench_an_interference.Opts.Atoi.{value, IsDigit, atoi-value, atoi-negative}
use r_bench_an_interference.Opts.Handlers.{parse_address, address, no_port, multiple_colon}
use r_bench_an_interference.Opts.Address.{NoColon, parse_address-ip-port, parse_address_refused}
use r_bench_an_interference.Opts.Parse.{switch, code_of, Event, Parsed, parse_opts}
use r_bench_an_interference.Opts.Invariant.{IsTask}
use r_bench_an_interference.Opts.Tasks.{HasSizes}
use r_bench_an_interference.Opts.{find_func}
use r_bench_an_interference.Opts.Cases.{IsAccepted}
use r_bench_an_interference.Opts.Total.{parse_opts-IsTask}

abbrev instruction_cache : CpuCache
instruction_cache = record {
  kind = type_instruction;
  level = 1;
  line_size = 64;
  ways = 8;
  sets = 64;
  size = 32768;
}

abbrev data_cache : CpuCache
data_cache = record {
  kind = type_data;
  level = 1;
  line_size = 64;
  ways = 12;
  sets = 64;
  size = 49152;
}

abbrev two_caches : CpuInfo
two_caches = record {
  page_size = pos 4096;
  core_count = pos 8;
  online_count = pos 4;
  cache_count = 2;
  caches = instruction_cache ∷ data_cache ∷ [];
}

no_third :
    (j : ℕ)
    → j < 2
    → (d : CpuCache) × (get_elem? two_caches.caches (0 + j) ≡ some d) × (matches 3 d ≡ false)
no_third zero h = (instruction_cache, refl, refl)
no_third (suc zero) h = (data_cache, refl, refl)
no_third (suc (suc j)) h = absurd (omega arith)

abbrev one_index : ℕ → Option IndexFiles
one_index zero = some (record {
  type_line = codes "Data";
  level_file = some 1;
  line_file = some 64;
  sets_file = some 64;
  ways_file = none;
  size_file = some (48, codes "K");
})
one_index (suc i) = none

abbrev small_system : System
small_system = record { conf = pos 8; online = pos 4; page = negsuc 0; index_files = one_index }

abbrev no_cache : CpuCache
no_cache = record { kind = type_unknown; level = 0; line_size = 0; ways = 0; sets = 0; size = 0 }

abbrev fresh_info : CpuInfo
fresh_info = record {
  page_size = pos 0;
  core_count = pos 0;
  online_count = pos 0;
  cache_count = 0;
  caches =
      no_cache ∷ no_cache ∷ no_cache ∷ no_cache ∷ no_cache ∷ no_cache ∷ no_cache ∷ no_cache
      ∷ no_cache ∷ no_cache ∷ [];
}

read_cpuinfo-IsReadable_example :
    let r = read_cpuinfo small_system fresh_info in
    (r.cache_count ≡ present one_index 10 0)
    × IsReadable r
    × (pos 1 ≤ℤ r.page_size)
    × ((v : ℕ) × (get_data_cache_size_level r 1 ≡ some v))
read_cpuinfo-IsReadable_example = read_cpuinfo-IsReadable small_system fresh_info 1 refl refl

digits_80 : All IsDigit (codes "80")
digits_80 = (omega arith, (omega arith, tt))

atoi-value_example : atoi (codes "80") ≡ pos (value (codes "80"))
unfolding value
atoi-value_example = atoi-value b'8' (codes "0") digits_80 (omega arith)

atoi-negative_example : atoi (codes "-80") ≡ negsuc 79
unfolding value
atoi-negative_example = atoi-negative b'8' (codes "0") 79 digits_80 refl (omega arith)

NoColon-10 : NoColon (codes "1.0")
NoColon-10 = (λ e. omega (arith, e), (λ e. omega (arith, e), (λ e. omega (arith, e), tt)))

parse_address-ip-port_example :
    parse_address (codes "1.0:80") ≡ address (codes "1.0") (value (codes "80"))
unfolding value
parse_address-ip-port_example =
    parse_address-ip-port (codes "1.0") b'8' (codes "0") NoColon-10 digits_80 (omega arith)

parse_address_refused_example :
    (parse_address (codes "1.0") ≡ no_port) × (parse_address (codes "1.0:1.0:80") ≡ multiple_colon)
parse_address_refused_example =
    parse_address_refused (codes "1.0") (codes "1.0") (codes "80") NoColon-10 NoColon-10

-- `-r cacheL1 -n 9 -s 250 -l --check`
abbrev a_line : List Event
a_line =
    record { c = b'r'; optarg = some (codes "cacheL1") }
    ∷ record { c = b'n'; optarg = some (codes "9") }
    ∷ record { c = b's'; optarg = some (codes "250") }
    ∷ record { c = b'l'; optarg = none }
    ∷ record { c = 0x83; optarg = none }
    ∷ []

two_caches-HasSizes : HasSizes two_caches
unfolding get_data_cache_size_level
two_caches-HasSizes lev = find_level-total two_caches.caches 2 0 lev (omega arith)

a_line-IsAccepted : IsAccepted false a_line
unfolding switch code_of find_func str_eq
a_line-IsAccepted = (tt, (tt, (tt, (refl, (refl, tt)))))

parse_opts-IsTask_example :
    (r : Parsed) × (parse_opts two_caches 9 a_line ≡ some r) × All (IsTask 4) r.tasks
parse_opts-IsTask_example =
    parse_opts-IsTask 4 two_caches two_caches-HasSizes refl (omega arith) (omega arith) 9 a_line
      a_line-IsAccepted
