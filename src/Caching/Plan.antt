-- ===== src/Caching/Plan.antt =====
-- Which files an edit expels, computed on the queue: the reference for the loops of the edit
-- handlers of caching.c.
use mathlib.Core.Path.{ap₂}
use progetto_sistemi_operati.Base.{
  ==_iff, ◌∙◌, ℕ, ◌+◌, ◌-◌, ◌≤◌, ◌<◌, ◌≡◌, refl, ◌⊎◌, inl, inr, List, [], ◌∷◌, ◌++◌, Bool, true,
  false, length, Bool-cases, arith, ltb, ◌==◌, if◌then◌else◌,
}
use progetto_sistemi_operati.Caching.Valid.{NotIn, total}

-- The queue without a file.
unfoldable pub others : ℕ → List ℕ → List ℕ
others file [] = []
others file (x ∷ xs) = let rest = others file xs in if x == file then rest else x ∷ rest

pub others-nil : (file : ℕ) → others file [] ≡ []
unfolding others
others-nil file = refl

pub others-hit :
    (file x : ℕ) (xs : List ℕ) → (x == file) ≡ true → others file (x ∷ xs) ≡ others file xs
unfolding others
others-hit file x xs h = rw h

pub others-miss :
    (file x : ℕ) (xs : List ℕ) → (x == file) ≡ false → others file (x ∷ xs) ≡ x ∷ others file xs
unfolding others
others-miss file x xs h = rw h

pub others_id : (file : ℕ) (xs : List ℕ) → NotIn file xs → others file xs ≡ xs
unfolding others
others_id file [] h = refl
others_id file (x ∷ xs) h = ground (arith, others_id file xs)

pub others-append :
    (file : ℕ) (xs ys : List ℕ) → others file (xs ++ ys) ≡ others file xs ++ others file ys
unfolding others
others-append file [] ys = refl
others-append file (x ∷ xs) ys = ground (arith, others-append file xs ys)

-- A file that stands once in a queue.
pub others-around :
    (file : ℕ) (xs ys : List ℕ)
    → NotIn file xs
    → NotIn file ys
    → others file (xs ++ file ∷ ys) ≡ xs ++ ys
others-around file xs ys before behind =
    others-append file xs (file ∷ ys)
    ∙ ap₂ ◌++◌ (others_id file xs before)
        (others-hit file file ys ((==_iff file file).1 refl) ∙ others_id file ys behind)

pub NotIn-others : (file : ℕ) (xs : List ℕ) → NotIn file (others file xs)
unfolding others
NotIn-others file [] = tt
NotIn-others file (x ∷ xs) = ground (arith, NotIn-others file xs)

pub record Plan : Type 0 where
  pub evicted : List ℕ
  pub skipped : Bool
  pub rest : List ℕ
  pub left : ℕ

module _ (len : ℕ → ℕ) (limit file : ℕ) where
  -- From a queue and the bytes expected: expel files until the bytes fit, passing over `file`.
  unfoldable pub plan : ℕ → List ℕ → Plan
  plan e [] = record { evicted = []; skipped = false; rest = []; left = e }
  plan e (x ∷ xs) =
      let over = plan e xs in
      let less = plan (e - len x) xs in
      let go : Plan =
        if x == file
        then (record over { skipped = true })
        else (record less { evicted = x ∷ less.evicted }) in
      if ltb limit e
      then go
      else (record { evicted = []; skipped = false; rest = x ∷ xs; left = e })

  -- The plan, case by case.
  pub plan-nil : (e : ℕ) → plan e [] ≡ record { evicted = []; skipped = false; rest = []; left = e }
  unfolding plan
  plan-nil e = refl

  pub plan-fits :
      (x : ℕ) (xs : List ℕ) (e : ℕ)
      → ltb limit e ≡ false
      → plan e (x ∷ xs) ≡ record { evicted = []; skipped = false; rest = x ∷ xs; left = e }
  unfolding plan
  plan-fits x xs e h = rw h

  pub plan-hit :
      (x : ℕ) (xs : List ℕ) (e : ℕ)
      → ltb limit e ≡ true
      → (x == file) ≡ true
      → plan e (x ∷ xs) ≡ record (plan e xs) { skipped = true }
  unfolding plan
  plan-hit x xs e h hit = rw (h, hit)

  pub plan-miss :
      (x : ℕ) (xs : List ℕ) (e : ℕ)
      → ltb limit e ≡ true
      → (x == file) ≡ false
      → plan e (x ∷ xs)
        ≡ record (plan (e - len x) xs) { evicted = x ∷ (plan (e - len x) xs).evicted }
  unfolding plan
  plan-miss x xs e h miss = rw (h, miss)

  module _ (new : ℕ) (small : new ≤ limit) where
    -- The bytes expected are those of the edited file and of the other files.
    pub plan-left :
        (w : List ℕ) (e : ℕ)
        → e ≡ new + total len (others file w)
        → let p = plan e w in (p.left ≡ new + total len (others file p.rest)) × (p.left ≤ limit)
    unfolding plan others
    plan-left [] e h = ground arith
    plan-left (x ∷ xs) e h = ground (arith, plan-left xs e, plan-left xs (e - len x))

    pub plan-ne-nil :
        (w : List ℕ) (e : ℕ)
        → e ≡ new + total len (others file w)
        → limit < e
        → 0 < length (plan e w).evicted
    unfolding plan others
    plan-ne-nil [] e h over = ground arith
    plan-ne-nil (x ∷ xs) e h over = ground (arith, plan-ne-nil xs e)

  pub plan-others :
      (w : List ℕ) (e : ℕ) → let p = plan e w in p.evicted ++ others file p.rest ≡ others file w
  unfolding plan others
  plan-others [] e = refl
  plan-others (x ∷ xs) e = ground (arith, plan-others xs e, plan-others xs (e - len x))

  pub plan-NotIn : (w : List ℕ) (e : ℕ) → NotIn file (plan e w).evicted
  unfolding plan
  plan-NotIn [] e = tt
  plan-NotIn (x ∷ xs) e = ground (arith, plan-NotIn xs e, plan-NotIn xs (e - len x))

  plan-nothing : (w : List ℕ) (e : ℕ) → (plan e w).evicted ≡ [] → (plan e w).left ≡ e
  unfolding plan
  plan-nothing [] e h = refl
  plan-nothing (x ∷ xs) e h = ground (arith, plan-nothing xs e)

  -- Without the last file expelled the bytes would not fit.
  pub plan-least :
      (w : List ℕ) (e : ℕ) (es : List ℕ) (z : ℕ)
      → (plan e w).evicted ≡ es ++ z ∷ []
      → limit < (plan e w).left + len z
  unfolding plan
  plan-least [] e [] z h = cc
  plan-least [] e (a ∷ es) z h = cc
  plan-least (x ∷ xs) e [] z h = ground (arith, plan-least xs e [] z, plan-nothing xs (e - len x))
  plan-least (x ∷ xs) e (a ∷ es) z h =
      ground (arith, plan-least xs e (a ∷ es) z, plan-least xs (e - len x) es z)

  plan-NotIn_rest : (w : List ℕ) (e : ℕ) → NotIn file w → NotIn file (plan e w).rest
  unfolding plan
  plan-NotIn_rest [] e h = tt
  plan-NotIn_rest (x ∷ xs) e h =
      ground (arith, plan-NotIn_rest xs e, plan-NotIn_rest xs (e - len x))

  -- Either the file was passed over, or it still stands where it stood.
  pub plan-file :
      (xs ys : List ℕ) (e : ℕ)
      → NotIn file xs
      → NotIn file ys
      → let p = plan e (xs ++ file ∷ ys) in
        ((p.skipped ≡ true) × NotIn file p.rest)
        ⊎ ((xs' : List ℕ) × (p.skipped ≡ false) × (p.rest ≡ xs' ++ file ∷ ys) × NotIn file xs')
  unfolding plan
  plan-file [] ys e hx hy = elim (Bool-cases (ltb limit e)) [
    | inl over ↦ inl (ground arith, ground (arith, plan-NotIn_rest ys e hy))
    | inr fits ↦ inr ([], ground arith, ground arith, tt)
  ]
  plan-file (x ∷ xs) ys e hx hy = elim (Bool-cases (ltb limit e)) [
    | inl over ↦ elim (plan-file xs ys (e - len x) hx.1 hy) [
      | inl (s, r) ↦ inl (ground (arith, hx.0), ground (arith, hx.0))
      | inr (xs', s, r, h) ↦ inr (xs', ground (arith, hx.0), ground (arith, hx.0), h)
    ]
    | inr fits ↦ inr (x ∷ xs, ground arith, ground arith, hx)
  ]

  pub plan-length : (w : List ℕ) (e : ℕ) → length (plan e w).rest ≤ length w
  unfolding plan
  plan-length [] e = omega arith
  plan-length (x ∷ xs) e = ground (arith, plan-length xs e, plan-length xs (e - len x))
