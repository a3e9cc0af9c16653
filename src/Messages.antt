-- ===== src/Messages.antt =====
-- rbench-core.cpp, `pr_info`, `pr_warning`, `pr_error` and `pr_debug`: what they print, and the
-- threads that call them, with `global_pr_mtx` between them. A call of printf is one step, and the
-- steps of the threads come in any order.
pub mod Lists
pub mod Whole
use r_bench_an_interference.Base.{
  ℕ, ◌≡◌, ◌==◌, if◌then◌else◌, Option, none, some, List, [], ◌∷◌, ◌++◌,
}
use r_bench_an_interference.Base.Cstring.{Cstring, codes}
use r_bench_an_interference.Flags.{get_arg_flag, no_warn, print_debug_info}

pub data Stream : Type 0 where
  stdout stderr : Stream

-- What one call of printf or fprintf writes.
pub record Print : Type 0 where
  pub stream : Stream
  pub text : Cstring

-- The last takes a function, by what its calls of printf write.
pub data Call : Type 0 where
  pr_info pr_warning pr_error pr_debug : Cstring → Call
  pr_debug_func : List Print → Call

abbrev line : Stream → Cstring → Cstring → List Print
line stream label info = record { stream = stream; text = label ++ (info ++ 10 ∷ []) } ∷ []

-- What a call prints between `lock` and `unlock`; `none` where it returns before.
unfoldable pub message : ℕ → Call → Option (List Print)
message global_flag (pr_info info) = some (line stdout (codes "Info: ") info)
message global_flag (pr_warning info) =
    if get_arg_flag global_flag no_warn then none else some (line stderr (codes "Warning: ") info)
message global_flag (pr_error info) = some (line stdout (codes "Error: ") info)
message global_flag (pr_debug info) =
    if get_arg_flag global_flag print_debug_info
    then some (line stdout (codes "DbgInfo: ") info)
    else none
message global_flag (pr_debug_func prints) =
    if get_arg_flag global_flag print_debug_info then some prints else none

-- The calls that a thread has before it, and, while it holds the mutex, what it has yet to print.
pub record Printer : Type 0 where
  pub calls : List Call
  pub printing : Option (List Print)

pub record Printers : Type 0 where
  pub global_pr_mtx : Option ℕ
  pub threads : ℕ → Printer
  pub output : List (ℕ × Print)

abbrev pub put_thread : ℕ → Printer → (ℕ → Printer) → ℕ → Printer
put_thread i p threads k = if i == k then p else threads k

pub data PrinterStep (global_flag : ℕ) : Printers → Printers → Type 0 where
  return_early :
      (s : Printers) (i : ℕ) (c : Call) (cs : List Call)
      → s.threads i ≡ record { calls = c ∷ cs; printing = none }
      → message global_flag c ≡ none
      → PrinterStep global_flag s
          (record s { threads = put_thread i (record { calls = cs; printing = none }) s.threads })
  lock :
      (s : Printers) (i : ℕ) (c : Call) (cs : List Call) (prints : List Print)
      → s.threads i ≡ record { calls = c ∷ cs; printing = none }
      → message global_flag c ≡ some prints
      → s.global_pr_mtx ≡ none
      → PrinterStep global_flag s (record s {
        global_pr_mtx = some i;
        threads = put_thread i (record { calls = cs; printing = some prints }) s.threads;
      })
  print :
      (s : Printers) (i : ℕ) (cs : List Call) (p : Print) (prints : List Print)
      → s.threads i ≡ record { calls = cs; printing = some (p ∷ prints) }
      → PrinterStep global_flag s (record s {
        threads = put_thread i (record { calls = cs; printing = some prints }) s.threads;
        output = s.output ++ (i, p) ∷ [];
      })
  unlock :
      (s : Printers) (i : ℕ) (cs : List Call)
      → s.threads i ≡ record { calls = cs; printing = some [] }
      → PrinterStep global_flag s (record s {
        global_pr_mtx = none;
        threads = put_thread i (record { calls = cs; printing = none }) s.threads;
      })

pub data PrinterReach (global_flag : ℕ) (s : Printers) : Printers → Type 0 where
  here : PrinterReach global_flag s s
  next :
      {t u : Printers}
      → PrinterReach global_flag s t
      → PrinterStep global_flag t u
      → PrinterReach global_flag s u

-- Each thread before its first call.
abbrev pub begin : (ℕ → List Call) → Printers
begin program = record {
  global_pr_mtx = none;
  threads = λ i. record { calls = program i; printing = none };
  output = [];
}
