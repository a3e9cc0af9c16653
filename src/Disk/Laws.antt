-- ===== src/Disk/Laws.antt =====
-- rbench-disk.cpp: where the kernel of the disk stressor writes.
use r_bench_an_interference.Base.{
  ℕ, zero, suc, ◌+◌, ◌*◌, ◌^◌, ◌≤◌, ◌<◌, ◌≡◌, ◌∙◌, ap, arith, max, List, [], ◌∷◌,
}
use r_bench_an_interference.Disk.{
  DiskCall, lseek_start, write, disk_write_granu, disk_write_kernel2, write_rounds,
}

-- The position of a file after some calls.
unfoldable pub position_after : ℕ → List DiskCall → ℕ
position_after position [] = position
position_after position (lseek_start ∷ rest) = position_after 0 rest
position_after position (write n ∷ rest) = position_after (position + n) rest

-- The length of a file after some calls, from a position and a length: a write behind the end makes
-- it longer.
unfoldable pub length_after : ℕ → ℕ → List DiskCall → ℕ
length_after position length [] = length
length_after position length (lseek_start ∷ rest) = length_after 0 length rest
length_after position length (write n ∷ rest) =
    length_after (position + n) (max length (position + n)) rest

kernel_long :
    (fsize : ℕ) → 2 ^ 20 < fsize → disk_write_kernel2 fsize 0 ≡ write disk_write_granu ∷ []
unfolding disk_write_kernel2
kernel_long fsize h = ground arith

-- With a file of more than one MB, rounds of writing from `fpos` 0 never go back to the start:
-- they move the position of the file on by one MB each, past any size.
pub write_rounds_grow :
    (rounds fsize position : ℕ)
    → 2 ^ 20 < fsize
    → position_after position (write_rounds rounds fsize 0) ≡ position + rounds * 2 ^ 20
unfolding position_after write_rounds
write_rounds_grow zero fsize position h = omega arith
write_rounds_grow (suc rounds) fsize position h =
    rw (kernel_long fsize h)
      (omega (arith, write_rounds_grow rounds fsize (position + 1 * 2 ^ 20) h))

max_upper : (a b : ℕ) → b ≤ max a b
max_upper a b = ground arith

max_absorb : (a b c : ℕ) → b ≤ c → max (max a b) c ≡ max a c
max_absorb a b c h = ground arith

max_left : (a b : ℕ) → b ≤ a → a ≡ max a b
max_left a b h = ground arith

-- The file is as long as it was, or as the position where those rounds end.
pub write_rounds_length :
    (rounds fsize position length : ℕ)
    → 2 ^ 20 < fsize
    → position ≤ length
    → length_after position length (write_rounds rounds fsize 0)
      ≡ max length (position + rounds * 2 ^ 20)
unfolding length_after write_rounds
write_rounds_length zero fsize position length h within =
    max_left length (position + 0) (omega (arith, within))
write_rounds_length (suc rounds) fsize position length h within = rw (kernel_long fsize h) (
    write_rounds_length rounds fsize (position + 1 * 2 ^ 20) (max length (position + 1 * 2 ^ 20)) h
      (max_upper length (position + 1 * 2 ^ 20))
    ∙ max_absorb length (position + 1 * 2 ^ 20) (position + 1 * 2 ^ 20 + rounds * 2 ^ 20)
        (omega arith)
    ∙ ap (λ (e : ℕ). max length e)
        (let e : position + 1 * 2 ^ 20 + rounds * 2 ^ 20 ≡ position + suc rounds * 2 ^ 20 =
            omega arith in
          e))
