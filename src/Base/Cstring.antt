-- ===== src/Base/Cstring.antt =====
-- C strings as lists of character codes, and what the program uses of <cstring> and <cstdlib>.
use Prim.Native.Nat.{ℕ, zero, suc, ◌+◌, ◌-◌, ◌*◌, ◌^◌, min}
use Prim.Native.Char.{code}
use Prim.Native.String.{String}
use mathlib.Core.Bool.{Bool, true, false, ◌&&◌, ◌||◌}
use mathlib.Core.List.{List, [], ◌∷◌}
use mathlib.Core.Option.{Option, none, some}
use r_bench_an_interference.Base.Tests.{leb, ◌==◌, if◌then◌else◌}
use r_bench_an_interference.Base.Int.{ℤ, pos, negsuc, to_signed, to_unsigned}

abbrev pub Cstring : Type 0
Cstring = List ℕ

-- A literal of the source.
abbrev pub codes : String → Cstring
codes String.[] = []
codes (String.◌∷◌ c s) = code c ∷ codes s

unfoldable pub str_eq : Cstring → Cstring → Bool
str_eq [] [] = true
str_eq [] (d ∷ t) = false
str_eq (c ∷ s) [] = false
str_eq (c ∷ s) (d ∷ t) = c == d && str_eq s t

unfoldable pub tolower : ℕ → ℕ
tolower c = if leb b'A' c && leb c b'Z' then c + 32 else c

-- `!strncasecmp( s , t , n )`
unfoldable pub strncase_eq : Cstring → Cstring → ℕ → Bool
unfolding tolower
strncase_eq s t zero = true
strncase_eq [] [] (suc n) = true
strncase_eq [] (d ∷ t) (suc n) = false
strncase_eq (c ∷ s) [] (suc n) = false
strncase_eq (c ∷ s) (d ∷ t) (suc n) = tolower c == tolower d && strncase_eq s t n

unfoldable pub isdigit : ℕ → Bool
isdigit c = leb b'0' c && leb c b'9'

unfoldable pub isspace : ℕ → Bool
isspace c = c == 32 || (leb 9 c && leb c 13)

-- The digits in front, in base ten.
unfoldable pub read_digits : ℕ → Cstring → ℕ
unfolding isdigit
read_digits acc [] = acc
read_digits acc (c ∷ s) = elim (isdigit c) [
  | true ↦ read_digits (acc * 10 + (c - b'0')) s
  | false ↦ acc
]

-- glibc's `strtol` keeps the value in 64 bits.
abbrev pub clamp64 : Bool → ℕ → ℤ
clamp64 false n = pos (min n (2 ^ 63 - 1))
clamp64 true zero = pos 0
clamp64 true (suc n) = negsuc (min n (2 ^ 63 - 1))

abbrev pub read_signed : Cstring → ℤ
read_signed [] = pos 0
read_signed (c ∷ s) =
    if c == b'-'
    then clamp64 true (read_digits 0 s)
    else if c == b'+'
    then clamp64 false (read_digits 0 s)
    else clamp64 false (read_digits 0 (c ∷ s))

unfoldable pub atoll : Cstring → ℤ
unfolding isspace read_digits
atoll [] = read_signed []
atoll (c ∷ s) = elim (isspace c) [ true ↦ atoll s | false ↦ read_signed (c ∷ s) ]

-- `(int)strtol( s )`
unfoldable pub atoi : Cstring → ℤ
unfolding atoll
atoi s = to_signed 32 (to_unsigned 32 (atoll s))

abbrev pub cons_front : ℕ → Option (Cstring × Cstring) → Option (Cstring × Cstring)
cons_front d none = none
cons_front d (some (a, b)) = some (d ∷ a, b)

-- `strchr( s , c )`: what stands in front of the first `c`, and what follows it.
unfoldable pub strchr : ℕ → Cstring → Option (Cstring × Cstring)
strchr c [] = none
strchr c (d ∷ s) = if c == d then some ([], s) else cons_front d (strchr c s)
