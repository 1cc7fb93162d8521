-- ===== src/Caching/Moves.antt =====
-- The loops of caching.c over the ring, seen on the queue that it holds.
use mathlib.Core.Path.{ap₂}
use progetto_sistemi_operati.Base.{
  ◌⊎◌, inl, inr, exited, ℕ, zero, suc, ◌+◌, ◌-◌, ◌%◌, ◌≤◌, ◌<◌, ◌≡◌, refl, sym, ap, ◌∙◌, List, [],
  ◌∷◌, ◌++◌, length, get_or, set, drop, length-set, length-append, arith, ok,
}
use progetto_sistemi_operati.Base.Ring.{
  window, length-window, window-set, window-get, step-mod, add-zero-mod, round-mod, next-mod,
  prev-mod, next-prev, set-beyond,
}
use progetto_sistemi_operati.Caching.State.{slot, next, prev, find_file, find_used, shift_files}
use progetto_sistemi_operati.Caching.Valid.{NotIn}

-- The search stops at the first occurrence, with as much fuel as there are files up to it.
pub find_file_lem :
    (cs file : ℕ) (slots xs ys : List ℕ) (fuel h n : ℕ)
    → h < cs
    → window 0 slots cs h n ≡ xs ++ file ∷ ys
    → NotIn file xs
    → length xs < fuel
    → find_file cs file slots fuel h ≡ ok ((h + length xs) % cs)
unfolding find_file
find_file_lem cs file slots [] ys zero h n hh e ni hf = elim hf [ ]
find_file_lem cs file slots [] ys (suc fuel) h zero hh e ni hf = cc
find_file_lem cs file slots [] ys (suc fuel) h (suc n) hh e ni hf =
    ground (arith, add-zero-mod cs h hh)
find_file_lem cs file slots (x ∷ xs) ys zero h n hh e ni hf = elim hf [ ]
find_file_lem cs file slots (x ∷ xs) ys (suc fuel) h zero hh e ni hf = cc
find_file_lem cs file slots (x ∷ xs) ys (suc fuel) h (suc n) hh e ni hf = ground (
  arith,
  step-mod cs h (length xs),
  find_file_lem cs file slots xs ys fuel ((h + 1) % cs) n (omega arith) (cc) ni.1 (omega arith),
)

-- The indices that a search through `xs` from index `h` on comes to, after the first, are small.
abbrev pub NoneAbove : ℕ → ℕ → List ℕ → Type 0
NoneAbove cs h [] = Unit {0}
NoneAbove cs h (x ∷ xs) = ((h + 1) % cs ≤ 100) × NoneAbove cs ((h + 1) % cs) xs

pub find_used_lem :
    (cs file : ℕ) (slots xs ys : List ℕ) (fuel h n : ℕ)
    → h < cs
    → window 0 slots cs h n ≡ xs ++ file ∷ ys
    → NotIn file xs
    → NoneAbove cs h xs
    → length xs < fuel
    → find_used cs file slots fuel h ≡ ok ((h + length xs) % cs)
unfolding find_used
find_used_lem cs file slots [] ys zero h n hh e ni na hf = elim hf [ ]
find_used_lem cs file slots [] ys (suc fuel) h zero hh e ni na hf = cc
find_used_lem cs file slots [] ys (suc fuel) h (suc n) hh e ni na hf =
    ground (arith, add-zero-mod cs h hh)
find_used_lem cs file slots (x ∷ xs) ys zero h n hh e ni na hf = elim hf [ ]
find_used_lem cs file slots (x ∷ xs) ys (suc fuel) h zero hh e ni na hf = cc
find_used_lem cs file slots (x ∷ xs) ys (suc fuel) h (suc n) hh e ni na hf = ground (
  arith,
  step-mod cs h (length xs),
  find_used_lem cs file slots xs ys fuel ((h + 1) % cs) n (omega arith) (cc) ni.1 na.1
      (omega arith),
)

-- A small ring has no index above 100.
pub small-NoneAbove : (cs h : ℕ) (xs : List ℕ) → 0 < cs → cs ≤ 101 → NoneAbove cs h xs
small-NoneAbove cs h [] pos small = tt
small-NoneAbove cs h (x ∷ xs) pos small =
    (omega arith, small-NoneAbove cs ((h + 1) % cs) xs pos small)

-- The search through `xs` comes to an index above 100.
abbrev pub SomeAbove : ℕ → ℕ → List ℕ → Type 0
SomeAbove cs h [] = ⊥
SomeAbove cs h (x ∷ xs) = (100 < (h + 1) % cs) ⊎ SomeAbove cs ((h + 1) % cs) xs

pub find_used-exits :
    (cs file : ℕ) (slots xs ys : List ℕ) (fuel h n : ℕ)
    → 0 < cs
    → window 0 slots cs h n ≡ xs ++ ys
    → NotIn file xs
    → SomeAbove cs h xs
    → length xs < fuel
    → find_used cs file slots fuel h ≡ exited
unfolding find_used
find_used-exits cs file slots [] ys fuel h n hc e ni sa hf = absurd sa
find_used-exits cs file slots (x ∷ xs) ys zero h n hc e ni sa hf = elim hf [ ]
find_used-exits cs file slots (x ∷ xs) ys (suc fuel) h zero hc e ni sa hf = cc
find_used-exits cs file slots (x ∷ xs) ys (suc fuel) h (suc n) hc e ni (inl far) hf = ground arith
find_used-exits cs file slots (x ∷ xs) ys (suc fuel) h (suc n) hc e ni (inr later) hf = ground (
  arith,
  find_used-exits cs file slots xs ys fuel ((h + 1) % cs) n hc (cc) ni.1 later (omega arith),
)

-- `n` rounds of the shift, on the list.
abbrev shift_list : ℕ → List ℕ → List ℕ
shift_list zero w = w
shift_list (suc p) w = shift_list p (set w (suc p) (get_or w p 0))

shift_list-cons : (p a : ℕ) (w : List ℕ) → shift_list (suc p) (a ∷ w) ≡ a ∷ set (shift_list p w) 0 a
shift_list-cons zero a w = refl
shift_list-cons (suc p) a w = shift_list-cons p a (set w (suc p) (get_or w p 0))

abbrev head_or : List ℕ → ℕ → ℕ
head_or [] d = d
head_or (x ∷ xs) d = x

-- Shifting up to a file overwrites it, and frees the first cell.
shift_list-append :
    (xs : List ℕ) (y : ℕ) (ys : List ℕ)
    → shift_list (length xs) (xs ++ y ∷ ys) ≡ head_or (xs ++ y ∷ ys) 0 ∷ xs ++ ys
shift_list-append [] y ys = refl
shift_list-append (x ∷ xs) y ys =
    shift_list-cons (length xs) x (xs ++ y ∷ ys)
    ∙ ap (λ w. x ∷ set w 0 x) (shift_list-append xs y ys)

-- One round of the shift, from the cell at offset `suc p`.
shift-cell :
    (cs h p : ℕ) (slots : List ℕ)
    → 0 < cs
    → set slots (next cs (prev cs ((h + suc p) % cs))) (slot slots (prev cs ((h + suc p) % cs)))
      ≡ set slots ((h + suc p) % cs) (slot slots ((h + p) % cs))
shift-cell cs h p slots hc =
    ap (λ i. set slots (next cs i) (slot slots i)) (prev-mod cs h p hc)
    ∙ ap (λ i. set slots i (slot slots ((h + p) % cs))) (next-mod cs h p)

window-shift :
    (cs h n p : ℕ) (slots : List ℕ)
    → cs ≤ length slots
    → h < cs
    → n ≤ cs
    → p < n
    → window 0 (shift_files cs p ((h + p) % cs) slots) cs h n ≡ shift_list p (window 0 slots cs h n)
unfolding shift_files
window-shift cs h n zero slots hs hh hn hp = refl
window-shift cs h n (suc p) slots hs hh hn hp =
    ap₂ (λ i s. window 0 (shift_files cs p i s) cs h n) (prev-mod cs h p (omega arith))
      (shift-cell cs h p slots (omega arith))
    ∙ window-shift cs h n p (set slots ((h + suc p) % cs) (slot slots ((h + p) % cs)))
        (omega (arith, length-set slots ((h + suc p) % cs) (slot slots ((h + p) % cs)))) hh hn
        (omega arith)
    ∙ ap (shift_list p) (
        window-set 0 slots cs h n (suc p) (slot slots ((h + p) % cs)) hs hh (omega arith) hn
        ∙ ap (set (window 0 slots cs h n) (suc p))
            (sym (window-get 0 slots cs h n p hh (omega arith))))

-- One round more, from the first cell of the window, does not touch what is behind that cell.
shift-once-more :
    (cs h n p : ℕ) (slots : List ℕ)
    → cs ≤ length slots
    → h < cs
    → suc n ≤ cs
    → window 0 (shift_files cs (suc p) ((h + p) % cs) slots) cs ((h + 1) % cs) n
      ≡ window 0 (shift_files cs p ((h + p) % cs) slots) cs ((h + 1) % cs) n
unfolding shift_files
shift-once-more cs h n zero slots hs hh hn =
    ap (λ i. window 0 (set slots i v) cs ((h + 1) % cs) n) back
    ∙ window-set 0 slots cs ((h + 1) % cs) n (cs - 1) v hs (omega arith) (omega arith) (omega arith)
    ∙ set-beyond _ (cs - 1) v (omega (arith, length-window 0 slots cs ((h + 1) % cs) n))
  where
    v : ℕ
    v = slot slots (prev cs ((h + 0) % cs))

    back : next cs (prev cs ((h + 0) % cs)) ≡ ((h + 1) % cs + (cs - 1)) % cs
    back =
        ap (λ i. next cs (prev cs i)) (add-zero-mod cs h hh)
        ∙ next-prev cs h hh
        ∙ sym (round-mod cs h hh)
shift-once-more cs h n (suc p) slots hs hh hn =
    ap₂ (λ i s. window 0 (shift_files cs (suc p) i s) cs ((h + 1) % cs) n)
      (prev-mod cs h p (omega arith)) (shift-cell cs h p slots (omega arith))
    ∙ shift-once-more cs h n p (set slots ((h + suc p) % cs) (slot slots ((h + p) % cs)))
        (omega (arith, length-set slots ((h + suc p) % cs) (slot slots ((h + p) % cs)))) hh hn
    ∙ sym (
        ap₂ (λ i s. window 0 (shift_files cs p i s) cs ((h + 1) % cs) n)
          (prev-mod cs h p (omega arith)) (shift-cell cs h p slots (omega arith)))

-- Shifting up to a file, and leaving the first cell out, takes the file out of the queue.
pub window-shift_files :
    (cs h n file : ℕ) (slots xs ys : List ℕ)
    → cs ≤ length slots
    → h < cs
    → suc n ≤ cs
    → window 0 slots cs h (suc n) ≡ xs ++ file ∷ ys
    → window 0 (shift_files cs (length xs) ((h + length xs) % cs) slots) cs ((h + 1) % cs) n
      ≡ xs ++ ys
window-shift_files cs h n file slots xs ys hs hh hn e = ap (drop 1) (
    window-shift cs h (suc n) (length xs) slots hs hh hn
      (omega (arith, length-window 0 slots cs h (suc n), ap length e, length-append xs (file ∷ ys)))
    ∙ ap (shift_list (length xs)) e
    ∙ shift_list-append xs file ys)

-- The same with one round more.
pub window-shift_files' :
    (cs h n file : ℕ) (slots xs ys : List ℕ)
    → cs ≤ length slots
    → h < cs
    → suc n ≤ cs
    → window 0 slots cs h (suc n) ≡ xs ++ file ∷ ys
    → window 0 (shift_files cs (suc (length xs)) ((h + length xs) % cs) slots) cs ((h + 1) % cs) n
      ≡ xs ++ ys
window-shift_files' cs h n file slots xs ys hs hh hn e =
    shift-once-more cs h n (length xs) slots hs hh hn
    ∙ window-shift_files cs h n file slots xs ys hs hh hn e

pub length-shift_files :
    (cs p i : ℕ) (slots : List ℕ) → length (shift_files cs p i slots) ≡ length slots
unfolding shift_files
length-shift_files cs zero i slots = refl
length-shift_files cs (suc p) i slots =
    length-shift_files cs p (prev cs i) _
    ∙ length-set slots (next cs (prev cs i)) (slot slots (prev cs i))
