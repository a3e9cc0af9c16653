-- ===== src/Control/Laws.antt =====
-- rbench-core.cpp: the three functions agree on what share of the time a load takes.
use r_bench_an_interference.Base.{ℕ, ◌≡◌, ◌≢◌, refl, arith, ◌==◌, false}
use r_bench_an_interference.Base.Int.{ℤ, pos, leb_ℤ, ◌<ℤ◌}
use r_bench_an_interference.Control.{
  Floating, of_nat, strength_to_time, membw_to_time, network_pps_to_time,
}

module _ {D : Type 0} (f : Floating D) where
  -- A bandwidth or a number of packets that is below the full one, and is as many percent of it as
  -- the strength says, gives the pace of that strength, unless the strength is 100.
  pub to_time_agree :
      (sgl idle roundpps : D) (strength period bytes aim_bw : ℕ) (aim_pps : ℤ)
      → strength ≢ 100
      → aim_bw ≢ 0
      → pos 0 <ℤ aim_pps
      → f.at_least (of_nat f strength) (of_nat f 100) ≡ false
      → f.mul (f.div (of_nat f aim_bw) (f.div (of_nat f bytes) sgl)) (of_nat f 100)
        ≡ of_nat f strength
      → f.mul (f.div (f.of_int aim_pps) (f.div roundpps sgl)) (of_nat f 100) ≡ of_nat f strength
      → (membw_to_time f bytes aim_bw sgl idle period ≡ strength_to_time f sgl idle strength period)
        × (network_pps_to_time f roundpps aim_pps sgl idle period
            ≡ strength_to_time f sgl idle strength period)
  unfolding membw_to_time network_pps_to_time strength_to_time
  to_time_agree sgl idle roundpps strength period bytes aim_bw aim_pps full bw pps below share
        share' =
      (
        rw (share, below, differs aim_bw 0 bw, differs strength 100 full) refl,
        rw (share', below, at_least_one aim_pps pps, differs strength 100 full) refl,
      )
    where
      differs : (a b : ℕ) → a ≢ b → (a == b) ≡ false
      differs a b h = ground arith

      at_least_one : (z : ℤ) → pos 0 <ℤ z → leb_ℤ z (pos 0) ≡ false
      at_least_one z h = ground arith
