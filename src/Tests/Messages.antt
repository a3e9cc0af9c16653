-- ===== src/Tests/Messages.antt =====
-- rbench-core.cpp: two threads that print, one of them a warning.
use r_bench_an_interference.Base.{ℕ, ◌≡◌, refl, ◌==◌, if◌then◌else◌, some, List, [], ◌∷◌}
use r_bench_an_interference.Base.Cstring.{codes}
use r_bench_an_interference.Messages.{
  Call, pr_info, pr_warning, message, Printers, Print, stdout, put_thread, lock, print,
  PrinterReach, here, next, begin,
}
use r_bench_an_interference.Messages.Whole.{AreWhole, PrinterReach-AreWhole}

abbrev two_threads : ℕ → List Call
two_threads i =
    if i == 0
    then pr_info (codes "end") ∷ []
    else if i == 1
    then pr_warning (codes "low") ∷ []
    else []

abbrev end_line : Print
end_line = record { stream = stdout; text = codes "Info: end\n" }

abbrev locked : Printers
locked = record (begin two_threads) {
  global_pr_mtx = some 0;
  threads =
      put_thread 0 (record { calls = []; printing = some (end_line ∷ []) })
        (begin two_threads).threads;
}

abbrev printed : Printers
printed = record locked {
  threads = put_thread 0 (record { calls = []; printing = some [] }) locked.threads;
  output = (0, end_line) ∷ [];
}

loud_info : message 0 (pr_info (codes "end")) ≡ some (end_line ∷ [])
unfolding message
loud_info = refl

printed_reached : PrinterReach 0 (begin two_threads) printed
printed_reached =
    next
      (next here
        (lock (begin two_threads) 0 (pr_info (codes "end")) [] (end_line ∷ []) refl loud_info refl))
      (print locked 0 [] end_line [] refl)

PrinterReach-AreWhole_example : AreWhole 0 two_threads printed
PrinterReach-AreWhole_example = PrinterReach-AreWhole 0 two_threads printed_reached
