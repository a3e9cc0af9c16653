-- ===== src/Tests/UdpTest.antt =====
-- udptest/: the server over a hundred thousand answers of `sendto` and one more.
use r_bench_an_interference.Base.{
  ℕ, zero, suc, ◌/◌, ◌≡◌, refl, length, All, List, [], ◌∷◌, ◌++◌, some,
}
use r_bench_an_interference.Base.Int.{ℤ, pos, negsuc}
use r_bench_an_interference.UdpTest.{returned, strlen, take, overwrite, server_main}
use r_bench_an_interference.UdpTest.Laws.{IsText, AllAnswered, drop, server_main-counts}

-- So many packets are sent whole.
unfoldable sent_whole : ℕ → List ℤ
sent_whole zero = []
sent_whole (suc n) = pos 40 ∷ sent_whole n

sent_whole-AllAnswered : (n : ℕ) → AllAnswered (sent_whole n)
unfolding sent_whole
sent_whole-AllAnswered zero = tt
sent_whole-AllAnswered (suc n) = (refl, sent_whole-AllAnswered n)

-- The buffer that `new` gives has old bytes in it, and then a 0; "hi" is received with its end.
abbrev old_bytes : List ℕ
old_bytes = 7 ∷ 7 ∷ 7 ∷ 7 ∷ 0 ∷ 7 ∷ []

abbrev hi : List ℕ
hi = b'h' ∷ b'i' ∷ 0 ∷ []

hi_ends : strlen (overwrite (take 4096 hi) old_bytes) ≡ some 2
unfolding strlen
hi_ends = refl

server_main-counts_example :
    let oks = sent_whole 100001 in
    let served =
      server_main 3 (pos 3) (pos 0) (some hi) (λ d. d) (oks ++ negsuc 0 ∷ []) old_bytes in
    (length served.sent ≡ length oks)
    × (served.speeds ≡ length oks / 100000)
    × (served.end ≡ returned (pos 0))
    × All IsText (drop 9999 served.sent)
server_main-counts_example =
    server_main-counts (pos 3) (pos 0) (negsuc 0) hi old_bytes 2 (λ d. d) (sent_whole 100001) refl
      refl hi_ends (sent_whole-AllAnswered 100001) refl
