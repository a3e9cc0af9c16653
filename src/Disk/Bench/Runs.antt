-- ===== src/Disk/Bench/Runs.antt =====
-- rbench-disk.cpp: a thread of the disk stressor ends, and where its file is then.
use r_bench_an_interference.Base.{ℕ, ◌+◌, ◌*◌, ◌^◌, ◌<◌, ◌≡◌, Option, some, List, max}
use r_bench_an_interference.Control.{Floating}
use r_bench_an_interference.Disk.{DiskCall, write_rounds}
use r_bench_an_interference.Disk.Laws.{position_after, length_after}
use r_bench_an_interference.Disk.Bench.{DiskEnd, wrote}

module _ {D : Type 0} (f : Floating D) where
  -- The loop ends with its count, having made as many rounds of calls.
  record DiskRuns (start limit fsize : ℕ) (run : Option DiskEnd) : Type 0 where
    ran : ℕ
    returns : run ≡ some (wrote (write_rounds ran fsize 0) (start + ran))
    below : start + ran < limit + 2 ^ 31

  -- A thread with a limit of rounds makes its calls, with fewer than 2^31 rounds beyond the limit;
  -- and in a file of more than one MB the position never goes back, so that its end is where the
  -- file has been truncated to, or where the writes have come to, whichever is later.
  pub record Wrote (limit fsize : ℕ) (run : Option DiskEnd) : Type 0 where
    pub ran : ℕ
    pub calls : List DiskCall
    pub returns : run ≡ some (wrote calls ran)
    pub all_calls : calls ≡ write_rounds (1001 + ran) fsize 0
    pub below : ran < limit + 2 ^ 31
    pub position : 2 ^ 20 < fsize → position_after 0 calls ≡ (1001 + ran) * 2 ^ 20
    pub long : 2 ^ 20 < fsize → length_after 0 fsize calls ≡ max fsize ((1001 + ran) * 2 ^ 20)
