-- ===== src/Messages/Whole.antt =====
-- rbench-core.cpp: `global_pr_mtx` keeps every message whole, and none is lost.
use mathlib.Core.List.{append_assoc, append-nil}
use r_bench_an_interference.Base.{
  ℕ, ◌≡◌, refl, arith, ap, ap₂, sym, ◌∙◌, ◌==◌, if◌then◌else◌, Bool, true, false, Option, none,
  some, List, [], ◌∷◌, ◌++◌,
}
use r_bench_an_interference.Messages.{
  Print, Call, message, Printer, Printers, put_thread, PrinterStep, return_early, lock, print,
  unlock, PrinterReach, here, next, begin,
}
use r_bench_an_interference.Messages.Lists.{
  Message, tag, flat, own, loud, tag-append, flat-append, own-append, loud-silent, loud-message,
}

module _ (flag : ℕ) (program : ℕ → List Call) where
  -- The mutex is free: nobody prints, and the output is whole messages.
  pub record IsClear (s : Printers) : Type 0 where
    pub log : List (ℕ × Message)
    pub free : s.global_pr_mtx ≡ none
    pub nobody : (i : ℕ) → (s.threads i).printing ≡ none
    pub output : s.output ≡ flat log
    pub accounts : (i : ℕ) → own i log ++ loud flag (s.threads i).calls ≡ loud flag (program i)

  -- One thread holds it, and only that thread prints.
  pub record IsHeld (s : Printers) : Type 0 where
    pub log : List (ℕ × Message)
    pub holder : ℕ
    pub printed : Message
    pub left : Message
    pub held : s.global_pr_mtx ≡ some holder
    pub prints : (s.threads holder).printing ≡ some left
    pub nobody_else : (i : ℕ) → (holder == i) ≡ false → (s.threads i).printing ≡ none
    pub output : s.output ≡ flat log ++ tag holder printed
    pub accounts :
        (i : ℕ)
        → own i log
            ++ ((if holder == i then (printed ++ left) ∷ [] else [])
                ++ loud flag (s.threads i).calls)
          ≡ loud flag (program i)

  pub data AreWhole (s : Printers) : Type 0 where
    clear : IsClear s → AreWhole s
    held : IsHeld s → AreWhole s

  -- A thread's calls after it has moved, as the messages that they print.
  calls_put :
      (s : Printers) (i k : ℕ) (p : Printer)
      → loud flag p.calls ≡ loud flag (s.threads i).calls
      → loud flag (put_thread i p s.threads k).calls ≡ loud flag (s.threads k).calls
  calls_put s i k p e = choose (i == k) refl
    where
      choose :
          (b : Bool)
          → (i == k) ≡ b
          → loud flag (if b then p else s.threads k).calls ≡ loud flag (s.threads k).calls
      choose true same =
          let e' : i ≡ k = ground arith in e ∙ ap (λ (j : ℕ). loud flag (s.threads j).calls) e'
      choose false other = refl

  put_thread_self : (i : ℕ) (p : Printer) (threads : ℕ → Printer) → put_thread i p threads i ≡ p
  put_thread_self i p threads = let same : (i == i) ≡ true = ground arith in rw same refl

  printing_put :
      (s : Printers) (i k : ℕ) (p : Printer) (o : Option Message)
      → ((i == k) ≡ false → (s.threads k).printing ≡ o)
      → ((i == k) ≡ true → p.printing ≡ o)
      → (put_thread i p s.threads k).printing ≡ o
  printing_put s i k p o f g = choose (i == k) refl
    where
      choose : (b : Bool) → (i == k) ≡ b → (if b then p else s.threads k).printing ≡ o
      choose true same = g same
      choose false other = f other

  printing_of :
      (s : Printers) (i : ℕ) (p : Printer) → s.threads i ≡ p → (s.threads i).printing ≡ p.printing
  printing_of s i p e = ap (λ (q : Printer). q.printing) e

  calls_of :
      (s : Printers) (i : ℕ) (p : Printer)
      → s.threads i ≡ p
      → loud flag p.calls ≡ loud flag (s.threads i).calls
  calls_of s i p e = ap (λ (q : Printer). loud flag q.calls) (sym e)

  -- Who prints is the holder.
  is_holder :
      (s : Printers) (h : IsHeld s) (i : ℕ) (m : Message)
      → (s.threads i).printing ≡ some m
      → (h.holder ≡ i) × (h.left ≡ m)
  is_holder s h i m e = choose (h.holder == i) refl
    where
      choose : (b : Bool) → (h.holder == i) ≡ b → (h.holder ≡ i) × (h.left ≡ m)
      choose true same =
          let e' : h.holder ≡ i = ground arith in
          (e', cc (h.prints, ap (λ (j : ℕ). (s.threads j).printing) e', e))
      choose false other =
          absurd (let bad : none ≡ some m = sym (h.nobody_else i other) ∙ e in ground arith)

  return_early-AreWhole :
      (s : Printers) (i : ℕ) (c : Call) (cs : List Call)
      → s.threads i ≡ record { calls = c ∷ cs; printing = none }
      → message flag c ≡ none
      → AreWhole s
      → AreWhole
          (record s { threads = put_thread i (record { calls = cs; printing = none }) s.threads })
  return_early-AreWhole s i c cs e silent w = elim w [
    | clear h ↦ clear (record {
      log = h.log;
      free = h.free;
      nobody = λ k. printing_put s i k after none (λ x. h.nobody k) (λ x. refl);
      output = h.output;
      accounts =
          λ k. ap (λ ms. own k h.log ++ ms) (calls_put s i k after same_calls) ∙ h.accounts k;
    })
    | held h ↦ held (record {
      log = h.log;
      holder = h.holder;
      printed = h.printed;
      left = h.left;
      held = h.held;
      prints =
          printing_put s i h.holder after (some h.left) (λ x. h.prints)
            (λ x.
              let e' : i ≡ h.holder = ground arith in
              absurd (
                let bad : none ≡ some h.left =
                  sym (printing_of s i _ e)
                  ∙ ap (λ (j : ℕ). (s.threads j).printing) e'
                  ∙ h.prints in
                ground arith));
      nobody_else = λ k ne. printing_put s i k after none (λ x. h.nobody_else k ne) (λ x. refl);
      output = h.output;
      accounts = λ k.
          ap
            (λ ms.
              own k h.log ++ ((if h.holder == k then (h.printed ++ h.left) ∷ [] else []) ++ ms))
            (calls_put s i k after same_calls)
          ∙ h.accounts k;
    })
  ]
    where
      after : Printer
      after = record { calls = cs; printing = none }

      same_calls : loud flag cs ≡ loud flag (s.threads i).calls
      same_calls =
          sym (loud-silent flag c cs silent)
          ∙ calls_of s i (record { calls = c ∷ cs; printing = none }) e

  lock-AreWhole :
      (s : Printers) (i : ℕ) (c : Call) (cs : List Call) (m : Message)
      → s.threads i ≡ record { calls = c ∷ cs; printing = none }
      → message flag c ≡ some m
      → s.global_pr_mtx ≡ none
      → AreWhole s
      → AreWhole (record s {
        global_pr_mtx = some i;
        threads = put_thread i (record { calls = cs; printing = some m }) s.threads;
      })
  lock-AreWhole s i c cs m e loud_call unlocked w = elim w [
    | held h ↦ absurd (let bad : none ≡ some h.holder = sym unlocked ∙ h.held in ground arith)
    | clear h ↦ held (record {
      log = h.log;
      holder = i;
      printed = [];
      left = m;
      held = refl;
      prints = ap (λ (p : Printer). p.printing) (put_thread_self i after s.threads);
      nobody_else = λ k ne.
          printing_put s i k after none (λ x. h.nobody k)
            (λ x. absurd (let bad : true ≡ false = sym x ∙ ne in ground arith));
      output = h.output ∙ sym (append-nil (flat h.log));
      accounts = λ k. ap (λ ms. own k h.log ++ ms) (owed k (i == k) refl) ∙ h.accounts k;
    })
  ]
    where
      after : Printer
      after = record { calls = cs; printing = some m }

      owed :
          (k : ℕ) (b : Bool)
          → (i == k) ≡ b
          → (if b then m ∷ [] else []) ++ loud flag (if b then after else s.threads k).calls
            ≡ loud flag (s.threads k).calls
      owed k true same =
          let e' : i ≡ k = ground arith in
          sym (loud-message flag c cs m loud_call)
          ∙ calls_of s i (record { calls = c ∷ cs; printing = none }) e
          ∙ ap (λ (j : ℕ). loud flag (s.threads j).calls) e'
      owed k false other = refl

  print-AreWhole :
      (s : Printers) (i : ℕ) (cs : List Call) (p : Print) (m : Message)
      → s.threads i ≡ record { calls = cs; printing = some (p ∷ m) }
      → AreWhole s
      → AreWhole (record s {
        threads = put_thread i (record { calls = cs; printing = some m }) s.threads;
        output = s.output ++ (i, p) ∷ [];
      })
  print-AreWhole s i cs p m e w = elim w [
    | clear h ↦
        absurd
          (let bad : none ≡ some (p ∷ m) = sym (h.nobody i) ∙ printing_of s i _ e in ground arith)
    | held h ↦
        let (same, left) =
          is_holder s h i (p ∷ m)
            (printing_of s i (record { calls = cs; printing = some (p ∷ m) }) e) in
        held (record {
          log = h.log;
          holder = i;
          printed = h.printed ++ p ∷ [];
          left = m;
          held = h.held ∙ ap some same;
          prints = ap (λ (q : Printer). q.printing) (put_thread_self i after s.threads);
          nobody_else = λ k ne.
              printing_put s i k after none
                (λ x. h.nobody_else k (ap (λ (j : ℕ). j == k) same ∙ ne))
                (λ x. absurd (let bad : true ≡ false = sym x ∙ ne in ground arith));
          output =
              ap (λ ps. ps ++ (i, p) ∷ [])
                (h.output ∙ ap (λ (j : ℕ). flat h.log ++ tag j h.printed) same)
              ∙ append_assoc (flat h.log) (tag i h.printed) ((i, p) ∷ [])
              ∙ ap (λ ps. flat h.log ++ ps) (sym (tag-append i h.printed (p ∷ [])));
          accounts = λ k.
              ap (λ ms. own k h.log ++ ms)
                (ap₂ (λ (t : Message) ms. (if i == k then t ∷ [] else []) ++ ms)
                    (append_assoc h.printed (p ∷ []) m)
                    (calls_put s i k after
                      (calls_of s i (record { calls = cs; printing = some (p ∷ m) }) e))
                  ∙ ap₂
                      (λ (j : ℕ) (t : Message).
                        (if j == k then (h.printed ++ t) ∷ [] else [])
                        ++ loud flag (s.threads k).calls)
                      (sym same) (sym left))
              ∙ h.accounts k;
        })
  ]
    where
      after : Printer
      after = record { calls = cs; printing = some m }

  unlock-AreWhole :
      (s : Printers) (i : ℕ) (cs : List Call)
      → s.threads i ≡ record { calls = cs; printing = some [] }
      → AreWhole s
      → AreWhole (record s {
        global_pr_mtx = none;
        threads = put_thread i (record { calls = cs; printing = none }) s.threads;
      })
  unlock-AreWhole s i cs e w = elim w [
    | clear h ↦ absurd (
        let bad : none ≡ some [] =
          sym (h.nobody i) ∙ printing_of s i (record { calls = cs; printing = some [] }) e in
        ground arith)
    | held h ↦
        let (same, left) =
          is_holder s h i [] (printing_of s i (record { calls = cs; printing = some [] }) e) in
        clear (record {
          log = h.log ++ (i, h.printed) ∷ [];
          free = refl;
          nobody = λ k.
              printing_put s i k after none (λ x. h.nobody_else k (ap (λ (j : ℕ). j == k) same ∙ x))
                (λ x. refl);
          output =
              h.output
              ∙ ap (λ (j : ℕ). flat h.log ++ tag j h.printed) same
              ∙ ap (λ ps. flat h.log ++ ps) (sym (append-nil (tag i h.printed)))
              ∙ sym (flat-append h.log ((i, h.printed) ∷ []));
          accounts = λ k.
              ap₂ (λ ms ns. ms ++ ns) (own-append k h.log ((i, h.printed) ∷ []))
                (calls_put s i k after (calls_of s i (record { calls = cs; printing = some [] }) e))
              ∙ append_assoc (own k h.log) ((if i == k then h.printed ∷ [] else []) ++ [])
                  (loud flag (s.threads k).calls)
              ∙ ap (λ ms. own k h.log ++ (ms ++ loud flag (s.threads k).calls))
                  (append-nil (if i == k then h.printed ∷ [] else []))
              ∙ ap₂
                  (λ (j : ℕ) (t : Message).
                    own k h.log
                    ++ ((if j == k then t ∷ [] else []) ++ loud flag (s.threads k).calls))
                  (sym same)
                  (sym (append-nil h.printed) ∙ ap (λ (t : Message). h.printed ++ t) (sym left))
              ∙ h.accounts k;
        })
  ]
    where
      after : Printer
      after = record { calls = cs; printing = none }

  PrinterStep-AreWhole : {s t : Printers} → PrinterStep flag s t → AreWhole s → AreWhole t
  PrinterStep-AreWhole (return_early s i c cs e silent) w =
      return_early-AreWhole s i c cs e silent w
  PrinterStep-AreWhole (lock s i c cs m e loud_call unlocked) w =
      lock-AreWhole s i c cs m e loud_call unlocked w
  PrinterStep-AreWhole (print s i cs p m e) w = print-AreWhole s i cs p m e w
  PrinterStep-AreWhole (unlock s i cs e) w = unlock-AreWhole s i cs e w

  begin-AreWhole : AreWhole (begin program)
  begin-AreWhole =
      clear
        (record { log = []; free = refl; nobody = λ i. refl; output = refl; accounts = λ i. refl })

  -- In every reachable state of the threads, the output is whole messages, and behind them what the
  -- holder of the mutex has printed of its own, while nobody else prints; and the messages of each
  -- thread are in the order of its calls, with none lost.
  pub PrinterReach-AreWhole : {s : Printers} → PrinterReach flag (begin program) s → AreWhole s
  PrinterReach-AreWhole here = begin-AreWhole
  PrinterReach-AreWhole (next r st) = PrinterStep-AreWhole st (PrinterReach-AreWhole r)
