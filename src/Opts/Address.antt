-- ===== src/Opts/Address.antt =====
-- rbench.cpp, `OPT_addr` and `OPT_addr_to`: the format "ip:port".
use r_bench_an_interference.Base.{ℕ, ◌^◌, ◌<◌, ◌≡◌, ◌≢◌, refl, arith}
use r_bench_an_interference.Base.{[], ◌∷◌, ◌++◌, All, none, some}
use r_bench_an_interference.Base.Cstring.{Cstring, strchr}
use r_bench_an_interference.Opts.Atoi.{IsDigit, value, atoi-value}
use r_bench_an_interference.Opts.Handlers.{no_port, multiple_colon, address, parse_address}

abbrev pub NoColon : Cstring → Type 0
NoColon = All (λ c. c ≢ b':')

strchr-none : (s : Cstring) → NoColon s → strchr b':' s ≡ none
unfolding strchr
strchr-none [] h = refl
strchr-none (c ∷ s) h = ground (arith, strchr-none s h.1)

strchr-append : (s t : Cstring) → NoColon s → strchr b':' (s ++ b':' ∷ t) ≡ some (s, t)
unfolding strchr
strchr-append [] t h = refl
strchr-append (c ∷ s) t h = ground (arith, strchr-append s t h.1)

digits-NoColon : (s : Cstring) → All IsDigit s → NoColon s
digits-NoColon [] h = tt
digits-NoColon (c ∷ s) h = (omega arith, digits-NoColon s h.1)

-- A text without a colon, a colon and the digits of a port number below 2 ^ 16 read back as that
-- text and that number.
pub parse_address-ip-port :
    (ip : Cstring) (c : ℕ) (port : Cstring)
    → NoColon ip
    → All IsDigit (c ∷ port)
    → value (c ∷ port) < 2 ^ 16
    → parse_address (ip ++ b':' ∷ c ∷ port) ≡ address ip (value (c ∷ port))
unfolding parse_address
parse_address-ip-port ip c port plain digits small =
    rw
      (strchr-append ip (c ∷ port) plain, strchr-none (c ∷ port) (digits-NoColon (c ∷ port) digits))
      (rw (atoi-value c port digits (omega arith)) (ground arith))

-- A text without a colon is refused, and so is one with a second colon, wherever they stand.
pub parse_address_refused :
    (ip mid rest : Cstring)
    → NoColon ip
    → NoColon mid
    → (parse_address ip ≡ no_port)
      × (parse_address (ip ++ (b':' ∷ (mid ++ (b':' ∷ rest)))) ≡ multiple_colon)
unfolding parse_address
parse_address_refused ip mid rest plain plain' = (
  rw (strchr-none ip plain),
  rw (strchr-append ip (mid ++ (b':' ∷ rest)) plain, strchr-append mid rest plain'),
)
