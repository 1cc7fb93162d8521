-- ===== src/Base/Ring.antt =====
-- Circular buffers: the cells met from an index on, going round at the end, as a list.
use native.Mathlib.Nat.{mod-add-mod, mod-eq_of_lt, mod-eq-sub-mod, add-mod_right, add-zero}
use native.Mathlib.Decide.{dec_lt}
use native.Mathlib.Omega.{arith}
use mathlib.Core.Path.{◌≡◌, refl, ap, ap₂, sym, ◌∙◌}
use mathlib.Core.Logic.{◌≢◌, ◌⊎◌, inl, inr}
use mathlib.Core.List.{List, [], ◌∷◌, ◌++◌}
use progetto_sistemi_operati.Base.Lists.{length, get_or, set, get_or-set_self, get_or-set_ne}
use Prim.Native.Nat.{ℕ, zero, suc, ◌+◌, ◌-◌, ◌%◌, ◌≤◌, ◌<◌}

-- Steps of an index round a ring of `cs` cells.
pub step-mod : (cs h k : ℕ) → ((h + 1) % cs + k) % cs ≡ (h + suc k) % cs
step-mod cs h k = rw mod-add-mod (ap (λ i. i % cs) (omega arith))

pub add-zero-mod : (cs h : ℕ) → h < cs → (h + 0) % cs ≡ h
add-zero-mod cs h hh = rw add-zero (mod-eq_of_lt hh)

pub add-mod-ne : (cs h k : ℕ) → h < cs → suc k < cs → (h + suc k) % cs ≢ h
add-mod-ne cs h k hh hk = elim (dec_lt (h + suc k) cs) [
  | yes p ↦ omega (arith, mod-eq_of_lt p)
  | no p ↦ omega (
    arith,
    mod-eq-sub-mod {n = h + suc k} {m = cs} (omega arith),
    mod-eq_of_lt {n = h + suc k - cs} {m = cs} (omega arith),
  )
]

-- A sum of an index and an offset wraps at most once.
pub add-mod_cases :
    (cs h k : ℕ)
    → h < cs
    → k ≤ cs
    → ((h + k) % cs ≡ h + k) × (h + k < cs) ⊎ ((h + k) % cs ≡ h + k - cs) × (cs ≤ h + k)
add-mod_cases cs h k hh hk = elim (dec_lt (h + k) cs) [
  | yes p ↦ inl (mod-eq_of_lt p, p)
  | no p ↦ inr (
    mod-eq-sub-mod {n = h + k} {m = cs} (omega arith)
        ∙ mod-eq_of_lt {n = h + k - cs} {m = cs} (omega arith),
    omega arith,
  )
]

-- One index further, and one back.
pub next-mod : (cs h k : ℕ) → ((h + k) % cs + 1) % cs ≡ (h + suc k) % cs
next-mod cs h k = rw mod-add-mod (ap (λ i. i % cs) (omega arith))

pub prev-mod : (cs h k : ℕ) → 0 < cs → ((h + suc k) % cs + cs - 1) % cs ≡ (h + k) % cs
prev-mod cs h k hc =
    ap (λ i. i % cs) (omega arith)
    ∙ mod-add-mod (h + suc k) cs (cs - 1)
    ∙ ap (λ i. i % cs) (omega arith)
    ∙ add-mod_right (h + k) cs

pub next-prev : (cs h : ℕ) → h < cs → ((h + cs - 1) % cs + 1) % cs ≡ h
next-prev cs h hh =
    mod-add-mod (h + cs - 1) cs 1
    ∙ ap (λ i. i % cs) (omega arith)
    ∙ add-mod_right h cs
    ∙ mod-eq_of_lt hh

-- The distance from `h` on to the cell at offset `k`, as the code computes it.
pub distance-mod :
    (cs h k j : ℕ) → h < cs → k ≤ cs → k + j < cs → ((h + k) % cs + cs - h + j) % cs ≡ k + j
distance-mod cs h k j hh hk hj = elim (add-mod_cases cs h k hh hk) [
  | inl (e, _) ↦ ap (λ i. i % cs) (add-cs e) ∙ add-mod_right (k + j) cs ∙ mod-eq_of_lt hj
  | inr (e, le) ↦ ap (λ i. i % cs) (same e le) ∙ mod-eq_of_lt hj
]
  where
    add-cs : (h + k) % cs ≡ h + k → (h + k) % cs + cs - h + j ≡ k + j + cs
    add-cs e = omega arith

    same : (h + k) % cs ≡ h + k - cs → cs ≤ h + k → (h + k) % cs + cs - h + j ≡ k + j
    same e le = omega arith

pub distance-mod_exact : (cs h k : ℕ) → h < cs → k < cs → ((h + k) % cs + cs - h) % cs ≡ k
distance-mod_exact cs h k hh hk =
    let e : (h + k) % cs + cs - h ≡ (h + k) % cs + cs - h + 0 = omega arith in
    ap (λ i. i % cs) e ∙ distance-mod cs h k 0 hh (omega arith) (omega arith) ∙ add-zero k

-- A full round comes back to the start.
pub round-mod : (cs h : ℕ) → h < cs → ((h + 1) % cs + (cs - 1)) % cs ≡ h
round-mod cs h hh = grind arith

pub set-beyond {ℓ} : {A : Type ℓ} (xs : List A) (i : ℕ) (v : A) → length xs ≤ i → set xs i v ≡ xs
set-beyond [] i v h = refl
set-beyond (x ∷ xs) zero v h = elim h [ ]
set-beyond (x ∷ xs) (suc i) v h = ap (λ r. x ∷ r) (set-beyond xs i v (omega arith))

module _ {ℓ} {A : Type ℓ} (d : A) where
  -- The `n` cells from index `h` on.
  abbrev pub window : List A → ℕ → ℕ → ℕ → List A
  window buf cs h zero = []
  window buf cs h (suc n) = get_or buf h d ∷ window buf cs ((h + 1) % cs) n

  pub length-window : (buf : List A) (cs h n : ℕ) → length (window buf cs h n) ≡ n
  length-window buf cs h zero = refl
  length-window buf cs h (suc n) = ap suc (length-window buf cs ((h + 1) % cs) n)

  -- A write at a cell of the ring is a write in the list.
  pub window-set :
      (buf : List A) (cs h n k : ℕ) (v : A)
      → cs ≤ length buf
      → h < cs
      → k < cs
      → n ≤ cs
      → window (set buf ((h + k) % cs) v) cs h n ≡ set (window buf cs h n) k v
  window-set buf cs h zero k v hb hh hk hn = refl
  window-set buf cs h (suc n) zero v hb hh hk hn =
      let rest : window (set buf h v) cs ((h + 1) % cs) n ≡ window buf cs ((h + 1) % cs) n =
        ap (λ i. window (set buf i v) cs ((h + 1) % cs) n) (sym (round-mod cs h hh))
        ∙ window-set buf cs ((h + 1) % cs) n (cs - 1) v hb (omega arith) (omega arith) (omega arith)
        ∙ set-beyond _ (cs - 1) v (omega (arith, length-window buf cs ((h + 1) % cs) n)) in
      ap (λ i. window (set buf i v) cs h (suc n)) (add-zero-mod cs h hh)
      ∙ ap₂ ◌∷◌ (get_or-set_self buf h v d (omega arith)) rest
  window-set buf cs h (suc n) (suc k) v hb hh hk hn =
      ap₂ ◌∷◌ (get_or-set_ne buf ((h + suc k) % cs) h v d (add-mod-ne cs h k hh hk)) (
        ap (λ i. window (set buf i v) cs ((h + 1) % cs) n) (sym (step-mod cs h k))
        ∙ window-set buf cs ((h + 1) % cs) n k v hb (omega arith) (omega arith) (omega arith))

  -- A read at a cell of the ring is a read in the list.
  pub window-get :
      (buf : List A) (cs h n k : ℕ)
      → h < cs
      → k < n
      → get_or (window buf cs h n) k d ≡ get_or buf ((h + k) % cs) d
  window-get buf cs h zero k hh hk = elim hk [ ]
  window-get buf cs h (suc n) zero hh hk = ap (λ i. get_or buf i d) (sym (add-zero-mod cs h hh))
  window-get buf cs h (suc n) (suc k) hh hk =
      window-get buf cs ((h + 1) % cs) n k (omega arith) (omega arith)
      ∙ ap (λ i. get_or buf i d) (step-mod cs h k)

  pub window-snoc :
      (buf : List A) (cs h n : ℕ)
      → h < cs
      → window buf cs h (suc n) ≡ window buf cs h n ++ get_or buf ((h + n) % cs) d ∷ []
  window-snoc buf cs h zero hh = ap (λ i. get_or buf i d ∷ []) (sym (add-zero-mod cs h hh))
  window-snoc buf cs h (suc n) hh =
      ap (λ r. get_or buf h d ∷ r)
        (window-snoc buf cs ((h + 1) % cs) n (omega arith)
          ∙ ap (λ i. window buf cs ((h + 1) % cs) n ++ get_or buf i d ∷ []) (step-mod cs h n))

  -- Writing just behind a window lengthens it by the value written.
  pub window-push :
      (buf : List A) (cs h n : ℕ) (v : A)
      → cs ≤ length buf
      → h < cs
      → n < cs
      → window (set buf ((h + n) % cs) v) cs h (suc n) ≡ window buf cs h n ++ v ∷ []
  window-push buf cs h n v hb hh hn =
      window-snoc (set buf ((h + n) % cs) v) cs h n hh
      ∙ ap₂ (λ xs y. xs ++ y ∷ [])
          (window-set buf cs h n n v hb hh hn (omega arith)
            ∙ set-beyond _ n v (omega (arith, length-window buf cs h n)))
          (get_or-set_self buf ((h + n) % cs) v d (omega arith))

  pub window-split :
      (buf : List A) (cs h n : ℕ) (x : A) (xs : List A)
      → window buf cs h n ≡ x ∷ xs
      → (n ≡ suc (n - 1)) × (get_or buf h d ≡ x) × (window buf cs ((h + 1) % cs) (n - 1) ≡ xs)
  window-split buf cs h zero x xs e = cc
  window-split buf cs h (suc n) x xs e =
      let e' : suc n - 1 ≡ n = omega arith in
      (ap suc (sym e'), cc, ap (window buf cs ((h + 1) % cs)) e' ∙ cc)

  -- Writing just before a window puts the value in front of it.
  pub window-front :
      (buf : List A) (cs h n : ℕ) (v : A)
      → cs ≤ length buf
      → h < cs
      → suc n ≤ cs
      → window (set buf ((h + cs - 1) % cs) v) cs ((h + cs - 1) % cs) (suc n)
        ≡ v ∷ window buf cs h n
  window-front buf cs h n v hb hh hn =
      let e : h + cs - 1 ≡ h + (cs - 1) = omega arith in
      ap₂ ◌∷◌ (get_or-set_self buf ((h + cs - 1) % cs) v d (omega arith)) (
        ap (λ i. window (set buf ((h + cs - 1) % cs) v) cs i n) (next-prev cs h hh)
        ∙ ap (λ i. window (set buf (i % cs) v) cs h n) e
        ∙ window-set buf cs h n (cs - 1) v hb hh (omega arith) (omega arith)
        ∙ set-beyond _ (cs - 1) v (omega (arith, length-window buf cs h n)))
