-- ===== src/Threads/Counts.antt =====
-- How often a descriptor occurs, in a list and over numbered threads.
use progetto_sistemi_operati.Base.{
  ℕ, zero, suc, ◌+◌, ◌<◌, ◌≤◌, ◌≡◌, refl, List, [], ◌∷◌, ◌++◌, arith, length, ◌==◌, Bool-cases, inl,
  inr, if◌then◌else◌,
}

abbrev pub one : ℕ → ℕ → ℕ
one fd c = if c == fd then 1 else 0

unfoldable pub count : ℕ → List ℕ → ℕ
count fd [] = 0
count fd (c ∷ cs) = one fd c + count fd cs

-- One occurrence less.
unfoldable pub erase : ℕ → List ℕ → List ℕ
erase fd [] = []
erase fd (c ∷ cs) = let rest = c ∷ erase fd cs in if c == fd then cs else rest

pub count-cons : (fd c : ℕ) (cs : List ℕ) → count fd (c ∷ cs) ≡ one fd c + count fd cs
unfolding count
count-cons fd c cs = refl

pub count-nil : (fd : ℕ) → count fd [] ≡ 0
unfolding count
count-nil fd = refl

pub count-append : (fd : ℕ) (xs ys : List ℕ) → count fd (xs ++ ys) ≡ count fd xs + count fd ys
unfolding count
count-append fd [] ys = omega arith
count-append fd (x ∷ xs) ys = omega (arith, count-append fd xs ys)

pub count-snoc : (fd c : ℕ) (xs : List ℕ) → count fd (xs ++ c ∷ []) ≡ count fd xs + one fd c
unfolding count
count-snoc fd c xs = omega (arith, count-append fd xs (c ∷ []))

pub count-erase :
    (fd c : ℕ) (xs : List ℕ) → 0 < count c xs → count fd (erase c xs) + one fd c ≡ count fd xs
unfolding count erase
count-erase fd c [] h = absurd (omega arith)
count-erase fd c (x ∷ xs) h = ground (arith, count-erase fd c xs)

pub length-erase : (c : ℕ) (xs : List ℕ) → 0 < count c xs → length (erase c xs) + 1 ≡ length xs
unfolding count erase
length-erase c [] h = absurd (omega arith)
length-erase c (x ∷ xs) h = ground (arith, length-erase c xs)

-- A family indexed by thread, and the sum of its first `n` weights.
abbrev pub assign {ℓ} : {A : Type ℓ} → (ℕ → A) → ℕ → A → ℕ → A
assign f i a j = if i == j then a else f j

module _ {ℓ} {A : Type ℓ} (weight : A → ℕ) where
  unfoldable pub total : ℕ → (ℕ → A) → ℕ
  total zero f = 0
  total (suc n) f = total n f + weight (f n)

  total-assign_beyond :
      (n : ℕ) (f : ℕ → A) (i : ℕ) (a : A) → n ≤ i → total n (assign f i a) ≡ total n f
  unfolding total
  total-assign_beyond zero f i a h = refl
  total-assign_beyond (suc n) f i a h = ground (arith, total-assign_beyond n f i a)

  pub total-assign :
      (n : ℕ) (f : ℕ → A) (i : ℕ) (a : A)
      → i < n
      → total n (assign f i a) + weight (f i) ≡ total n f + weight a
  unfolding total
  total-assign zero f i a h = absurd (omega arith)
  total-assign (suc n) f i a h = elim (Bool-cases (i == n)) [
    | inl last ↦ ground (arith, total-assign_beyond n f i a)
    | inr below ↦ ground (arith, total-assign n f i a)
  ]

  pub weight-le-total : (n : ℕ) (f : ℕ → A) (i : ℕ) → i < n → weight (f i) ≤ total n f
  unfolding total
  weight-le-total zero f i h = absurd (omega arith)
  weight-le-total (suc n) f i h = elim (Bool-cases (i == n)) [
    | inl last ↦ ground arith
    | inr below ↦ ground (arith, weight-le-total n f i)
  ]

  -- Two threads of weight one are the same where the sum is at most one.
  pub total-distinct :
      (n : ℕ) (f : ℕ → A) (i j : ℕ) → i < n → j < i → weight (f i) + weight (f j) ≤ total n f
  unfolding total
  total-distinct zero f i j h k = absurd (omega arith)
  total-distinct (suc n) f i j h k = elim (Bool-cases (i == n)) [
    | inl last ↦ ground (arith, weight-le-total n f j)
    | inr below ↦ ground (arith, total-distinct n f i j)
  ]

  pub total-zero : (n : ℕ) (f : ℕ → A) → ((i : ℕ) → weight (f i) ≡ 0) → total n f ≡ 0
  unfolding total
  total-zero zero f h = refl
  total-zero (suc n) f h = omega (arith, total-zero n f h, h n)
