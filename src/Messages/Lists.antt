-- ===== src/Messages/Lists.antt =====
-- rbench-core.cpp: the messages of the threads, whole and in order.
use mathlib.Core.List.{append_assoc}
use r_bench_an_interference.Base.{
  ℕ, ◌≡◌, refl, ap, sym, ◌∙◌, ◌==◌, if◌then◌else◌, none, some, List, [], ◌∷◌, ◌++◌,
}
use r_bench_an_interference.Messages.{Print, Call, message}

abbrev pub Message : Type 0
Message = List Print

-- The prints of one thread.
abbrev pub tag : ℕ → Message → List (ℕ × Print)
tag i [] = []
tag i (p ∷ ps) = (i, p) ∷ tag i ps

-- Whole messages one after another, each with its thread.
abbrev pub flat : List (ℕ × Message) → List (ℕ × Print)
flat [] = []
flat ((i, m) ∷ log) = tag i m ++ flat log

-- The messages of one thread among them.
abbrev pub own : ℕ → List (ℕ × Message) → List Message
own i [] = []
own i ((j, m) ∷ log) = (if j == i then m ∷ [] else []) ++ own i log

-- The messages of the calls that print.
unfoldable pub loud : ℕ → List Call → List Message
loud flag [] = []
loud flag (c ∷ cs) = elim (message flag c) [ none ↦ loud flag cs | some m ↦ m ∷ loud flag cs ]

pub tag-append : (i : ℕ) (a b : Message) → tag i (a ++ b) ≡ tag i a ++ tag i b
tag-append i [] b = refl
tag-append i (p ∷ a) b = ap (λ ps. (i, p) ∷ ps) (tag-append i a b)

pub flat-append : (a b : List (ℕ × Message)) → flat (a ++ b) ≡ flat a ++ flat b
flat-append [] b = refl
flat-append ((i, m) ∷ a) b =
    ap (λ ps. tag i m ++ ps) (flat-append a b) ∙ sym (append_assoc (tag i m) (flat a) (flat b))

pub own-append : (i : ℕ) (a b : List (ℕ × Message)) → own i (a ++ b) ≡ own i a ++ own i b
own-append i [] b = refl
own-append i ((j, m) ∷ a) b =
    ap (λ ms. (if j == i then m ∷ [] else []) ++ ms) (own-append i a b)
    ∙ sym (append_assoc (if j == i then m ∷ [] else []) (own i a) (own i b))

pub loud-silent :
    (flag : ℕ) (c : Call) (cs : List Call)
    → message flag c ≡ none
    → loud flag (c ∷ cs) ≡ loud flag cs
unfolding loud
loud-silent flag c cs e = rw (loud, e) refl

pub loud-message :
    (flag : ℕ) (c : Call) (cs : List Call) (m : Message)
    → message flag c ≡ some m
    → loud flag (c ∷ cs) ≡ m ∷ loud flag cs
unfolding loud
loud-message flag c cs m e = rw (loud, e) refl
