-- ===== src/Disk.antt =====
-- rbench-disk.cpp: the kernel of the disk stressor, as the calls that it makes on the file.
pub mod Laws
pub mod Bench
use r_bench_an_interference.Base.{ℕ, zero, suc, ◌+◌, ◌*◌, ◌^◌, leb, if◌then◌else◌, u64}
use r_bench_an_interference.Base.{List, [], ◌∷◌, ◌++◌}

-- `lseek( fd , 0 , SEEK_SET )`, and `write` of a number of bytes.
pub data DiskCall : Type 0 where
  lseek_start : DiskCall
  write : ℕ → DiskCall

-- `DISK_WRITE_GRANU`
abbrev pub disk_write_granu : ℕ
disk_write_granu = 1 * 2 ^ 20

-- `fpos` is passed by value: what the kernel assigns to it is lost.
unfoldable pub disk_write_kernel2 : ℕ → ℕ → List DiskCall
disk_write_kernel2 fsize fpos =
    let seeks = if leb fsize (u64 (fpos + disk_write_granu)) then lseek_start ∷ [] else [] in
    seeks ++ (write disk_write_granu ∷ [])

-- `for( int i = 0 ; i < measure_rounds ; i ++ ) disk_write_kernel2( fd , fsize , fpos )`
unfoldable pub write_rounds : ℕ → ℕ → ℕ → List DiskCall
unfolding disk_write_kernel2
write_rounds zero fsize fpos = []
write_rounds (suc left) fsize fpos = disk_write_kernel2 fsize fpos ++ write_rounds left fsize fpos
