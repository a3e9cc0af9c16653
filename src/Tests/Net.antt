-- ===== src/Tests/Net.antt =====
-- core-net.cpp: the theorem on a short packet.
use r_bench_an_interference.Base.{◌≡◌, refl, arith, ◌==◌, ◌||◌, not, true, some, [], ◌∷◌, set}
use r_bench_an_interference.Base.Int.{pos}
use r_bench_an_interference.Net.{net_check_headfoot_checksum}
use r_bench_an_interference.Net.Checksum.{net_check_change}

sealed : net_check_headfoot_checksum (9 ∷ 5 ∷ 7 ∷ 12 ∷ []) (pos 4) ≡ some true
unfolding net_check_headfoot_checksum
sealed = refl

net_check_change_example :
    net_check_headfoot_checksum (set (9 ∷ 5 ∷ 7 ∷ 12 ∷ []) 2 8) (pos 4)
    ≡ some (not (2 == 0 || (2 == 1 || 2 == 3)))
net_check_change_example =
    net_check_change 9 5 1 2 7 8 (7 ∷ 12 ∷ []) refl sealed refl (λ e. omega (arith, e))
