-- ===== src/Flags.antt =====
-- rbench-core.cpp, `set_arg_flag`, `clr_arg_flag`, `get_arg_flag`, and `argflag_t` of rbench.hpp:
-- a word of 32 flags.
pub mod Laws
use r_bench_an_interference.Base.{ℕ, ◌+◌, ◌-◌, ◌^◌, bit_and, bit_or, Bool, not}
use r_bench_an_interference.Base.{◌==◌, if◌then◌else◌, u32, ◌>>>◌}

-- `argflag_t`, in the order of the source.
pub data ArgFlag : Type 0 where
  print_debug_info is_limited is_check is_run_parallel count no_warn : ArgFlag

-- `static_cast<int>(id)`
abbrev pub index : ArgFlag → ℕ
index print_debug_info = 0
index is_limited = 1
index is_check = 2
index is_run_parallel = 3
index count = 4
index no_warn = 5

unfoldable pub set_arg_flag : ℕ → ArgFlag → ℕ
set_arg_flag flags id = u32 (bit_or flags (2 ^ index id))

unfoldable pub clr_arg_flag : ℕ → ArgFlag → ℕ
clr_arg_flag flags id =
    if not (bit_and flags (2 ^ index id) == 0) then u32 (flags + 2 ^ 32 - 2 ^ index id) else flags

-- The result is converted to `bool`.
unfoldable pub get_arg_flag : ℕ → ArgFlag → Bool
get_arg_flag flags id = not (bit_and flags (2 ^ index id) >>> index id == 0)
