-- ===== src/Vector/Growth.antt =====
-- What the growth of a vector of vector.h leaves of its elements.
use progetto_sistemi_operati.Base.{
  ℕ, zero, suc, ◌-◌, ◌*◌, ◌/◌, ◌^◌, ◌≤◌, ◌<◌, ◌≡◌, refl, ap, sym, ◌∙◌, inl, inr, min, ◌&&◌, List,
  [], ◌∷◌, ◌++◌, false, Option, none, length, length-append, length-replicate, get_or, take,
  replicate, Bool-cases, leb, ltb, if◌then◌else◌, arith, ok,
}
use progetto_sistemi_operati.Vector.{Vector, null_from, realloc, resize, resize_if_needed}

module _ {A : Type 0} where
  -- The capacity is the array's, there is a place left, and the places behind the size are null.
  pub record IsValid (v : Vector A) : Type 0 where
    pub storage : length v.array ≡ v.capacity
    pub room : v.size < v.capacity
    pub least : 5 ≤ v.capacity
    pub beyond : (i : ℕ) → v.size ≤ i → get_or v.array i none ≡ none

  get_or-beyond : (xs : List (Option A)) (i : ℕ) → length xs ≤ i → get_or xs i none ≡ none
  get_or-beyond [] i h = refl
  get_or-beyond (x ∷ xs) zero h = absurd (omega arith)
  get_or-beyond (x ∷ xs) (suc i) h = get_or-beyond xs i (omega arith)

  length-take_le : (n : ℕ) (xs : List (Option A)) → length (take n xs) ≡ min n (length xs)
  length-take_le zero xs = omega arith
  length-take_le (suc n) [] = omega arith
  length-take_le (suc n) (x ∷ xs) = omega (arith, length-take_le n xs)

  length-realloc : (junk : Option A) (n : ℕ) (xs : List (Option A)) → length (realloc junk n xs) ≡ n
  length-realloc junk n xs = omega (
    arith,
    length-append (take n xs) (replicate (n - length xs) junk),
    length-take_le n xs,
    length-replicate (n - length xs) junk,
  )

  length-null_from : (i : ℕ) (xs : List (Option A)) → length (null_from i xs) ≡ length xs
  unfolding null_from
  length-null_from i [] = refl
  length-null_from zero (x ∷ xs) = ap suc (length-null_from zero xs)
  length-null_from (suc i) (x ∷ xs) = ap suc (length-null_from i xs)

  -- The elements below `size` survive the new array, the others are null.
  get_or-null_from :
      (size : ℕ) (xs : List (Option A)) (i : ℕ)
      → get_or (null_from size xs) i none ≡ (if ltb i size then get_or xs i none else none)
  unfolding null_from
  get_or-null_from size [] i = ground arith
  get_or-null_from zero (x ∷ xs) zero = refl
  get_or-null_from zero (x ∷ xs) (suc i) = get_or-null_from zero xs i ∙ ground arith
  get_or-null_from (suc size) (x ∷ xs) zero = ground arith
  get_or-null_from (suc size) (x ∷ xs) (suc i) = get_or-null_from size xs i ∙ ground arith

  get_or-take_append :
      (n : ℕ) (xs ys : List (Option A)) (i : ℕ)
      → i < n
      → i < length xs
      → get_or (take n xs ++ ys) i none ≡ get_or xs i none
  get_or-take_append zero xs ys i h k = absurd (omega arith)
  get_or-take_append (suc n) [] ys i h k = absurd (omega arith)
  get_or-take_append (suc n) (x ∷ xs) ys zero h k = refl
  get_or-take_append (suc n) (x ∷ xs) ys (suc i) h k =
      get_or-take_append n xs ys i (omega arith) (omega arith)

  -- A new capacity above the size keeps every element.
  pub resize-kept :
      (junk : Option A) (n : ℕ) (v : Vector A)
      → length v.array ≡ v.capacity
      → ((i : ℕ) → v.size ≤ i → get_or v.array i none ≡ none)
      → v.size ≤ v.capacity
      → v.size ≤ n
      → n < 2 ^ 31
      → (w : Vector A) × (resize junk n v ≡ ok w)
        × (w.size ≡ v.size)
        × (w.capacity ≡ n)
        × (length w.array ≡ n)
        × ((i : ℕ) → get_or w.array i none ≡ get_or v.array i none)
  unfolding resize
  resize-kept junk n v storage beyond inside fits small =
      let enough : leb (2 ^ 31) n ≡ false = ground arith in
      let bigger = realloc junk n v.array in
      rw enough (
        _,
        refl,
        refl,
        refl,
        length-null_from v.size bigger ∙ length-realloc junk n v.array,
        λ i. elim (Bool-cases (ltb i v.size)) [
          | inl below ↦
              get_or-null_from v.size bigger i
              ∙ rw below (get_or-take_append n v.array _ i (ground arith) (ground arith))
          | inr above ↦ get_or-null_from v.size bigger i ∙ rw above (sym (beyond i (ground arith)))
        ],
      )

  -- The parts of a valid vector that the resizing looks at.
  module _ (junk : Option A) (v : Vector A) (storage : length v.array ≡ v.capacity)
      (beyond : (i : ℕ) → v.size ≤ i → get_or v.array i none ≡ none) where
    -- A vector with place enough for its last element.
    pub resize_if_needed-kept :
        v.size ≤ v.capacity
        → 5 ≤ v.capacity
        → v.capacity < 2 ^ 30
        → (w : Vector A) × (resize_if_needed junk v ≡ ok w)
          × IsValid w
          × (w.size ≡ v.size)
          × ((i : ℕ) → get_or w.array i none ≡ get_or v.array i none)
    unfolding resize_if_needed
    resize_if_needed-kept fits least small = elim (Bool-cases (leb (4 * v.capacity) (5 * v.size))) [
      | inl full ↦
          let (w, e, size, cap, len, same) =
            resize-kept junk (2 * v.capacity) v storage beyond fits (omega arith) (omega arith) in
          rw full (w, e, valid w size cap len same (omega arith) (omega arith), size, same)
      | inr not_full ↦ elim (Bool-cases (leb (5 * v.size) v.capacity && ltb 10 v.capacity)) [
        | inl sparse ↦
            let (w, e, size, cap, len, same) =
              resize-kept junk (v.capacity / 2) v storage beyond fits (ground arith)
                (omega arith) in
            rw (not_full, sparse)
              (w, e, valid w size cap len same (ground arith) (ground arith), size, same)
        | inr neither ↦
            rw (not_full, neither)
              (v, refl, valid v refl refl storage (λ i. refl) (ground arith) least, refl, λ i. refl)
      ]
    ]
      where
        valid :
            (w : Vector A) {n : ℕ}
            → w.size ≡ v.size
            → w.capacity ≡ n
            → length w.array ≡ n
            → ((i : ℕ) → get_or w.array i none ≡ get_or v.array i none)
            → v.size < n
            → 5 ≤ n
            → IsValid w
        valid w size cap len same below large = record {
          storage = len ∙ sym cap;
          room = omega arith;
          least = omega arith;
          beyond = λ i h. same i ∙ beyond i (omega arith);
        }
