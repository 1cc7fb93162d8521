-- ===== src/Vector/Access.antt =====
-- What the calls of vector.h do to the elements, index by index.
use progetto_sistemi_operati.Base.{
  ℕ, zero, suc, ◌+◌, ◌*◌, ◌^◌, ◌≤◌, ◌<◌, ◌≡◌, refl, ap, sym, ◌∙◌, inl, inr, max, Option, none, some,
  length, length-set, get_or, get_or-set_self, get_or-set_ne, set, replicate, Bool-cases, ◌==◌, leb,
  if◌then◌else◌, arith, ok,
}
use progetto_sistemi_operati.Base.Int.{pos}
use progetto_sistemi_operati.Vector.{
  Vector, resize_if_needed, get_vector, put, set_vector, new_vector,
}
use progetto_sistemi_operati.Vector.Growth.{IsValid, resize-kept, resize_if_needed-kept}

module _ {A : Type 0} where
  get_vector-array :
      (v : Vector A) → IsValid v → (i : ℕ) → get_vector v (pos i) ≡ get_or v.array i none
  unfolding get_vector
  get_vector-array v valid i = elim (Bool-cases (leb v.size i)) [
    | inl behind ↦ rw behind (sym (valid.beyond i (ground arith)))
    | inr inside ↦ rw inside refl
  ]

  -- An array of `n` places with the element put at an index of them.
  put-kept :
      (junk : Option A) (el : A) (index : ℕ) (v : Vector A)
      → length v.array ≡ v.capacity
      → ((i : ℕ) → v.size ≤ i → get_or v.array i none ≡ none)
      → v.size < v.capacity
      → index < v.capacity
      → 5 ≤ v.capacity
      → v.capacity < 2 ^ 30
      → (w : Vector A) × (resize_if_needed junk (put el index v) ≡ ok w)
        × IsValid w
        × (w.size ≡ max (index + 1) v.size)
        × ((i : ℕ)
            → get_or w.array i none ≡ (if i == index then some el else get_or v.array i none))
  put-kept junk el index v storage beyond room at least small =
      let len = length-set v.array index (some el) in
      let (w, e, valid, size, same) =
        resize_if_needed-kept junk (put el index v) (len ∙ storage)
          (λ i h.
            get_or-set_ne v.array index i (some el) none (λ ne. omega arith)
            ∙ beyond i (omega arith))
          (omega arith) least small in
      (
        w,
        e,
        valid,
        size,
        λ i. elim (Bool-cases (i == index)) [
          | inl there ↦
              let eq : i ≡ index = ground arith in
              same i
              ∙ rw there (
                  ap (λ j. get_or (set v.array index (some el)) j none) eq
                  ∙ get_or-set_self v.array index (some el) none (omega arith))
          | inr other ↦
              same i ∙ rw other (get_or-set_ne v.array index i (some el) none (λ ne. ground arith))
        ],
      )

  -- Setting an element of a valid vector, whose capacity and the index are below 2 ^ 29, succeeds
  -- and leaves a valid vector of the right size, from which get gives the element at its index
  -- and what it gave before at every other one, whatever the memory held into which the array
  -- grows.
  pub set_vector-get :
      (junk : Option A) (el : A) (index : ℕ) (v : Vector A)
      → IsValid v
      → index < 2 ^ 29
      → v.capacity < 2 ^ 29
      → (w : Vector A) × (set_vector junk el (pos index) v ≡ ok w)
        × IsValid w
        × (w.size ≡ max (index + 1) v.size)
        × ((i : ℕ) → get_vector w (pos i) ≡ (if i == index then some el else get_vector v (pos i)))
  unfolding set_vector
  set_vector-get junk el index v valid low small = elim (Bool-cases (leb v.capacity index)) [
    | inl grows ↦
        let (r, e, size, cap, len, same) =
          resize-kept junk (2 * index) v valid.storage valid.beyond (omega (arith, valid.room))
            (ground (arith, valid.room)) (omega arith) in
        let (w, e', valid', size', same') =
          put-kept junk el index r (len ∙ sym cap) (λ i h. same i ∙ valid.beyond i (omega arith))
            (ground (arith, valid.room)) (ground (arith, valid.least)) (ground (arith, valid.least))
            (omega arith) in
        rw (grows, e, e')
          (
            w,
            refl,
            valid',
            size' ∙ ap (max (index + 1)) size,
            λ i.
                get_vector-array w valid' i
                ∙ same' i
                ∙ ap (λ o. if i == index then some el else o)
                    (same i ∙ sym (get_vector-array v valid i)),
          )
    | inr fits ↦
        let (w, e', valid', size', same') =
          put-kept junk el index v valid.storage valid.beyond valid.room (ground arith) valid.least
            (omega arith) in
        rw (fits, e')
          (
            w,
            refl,
            valid',
            size',
            λ i.
                get_vector-array w valid' i
                ∙ same' i
                ∙ ap (λ o. if i == index then some el else o) (sym (get_vector-array v valid i)),
          )
  ]

  pub new_vector-IsValid : IsValid (new_vector {A = A})
  unfolding new_vector
  new_vector-IsValid = record {
    storage = refl;
    room = omega arith;
    least = omega arith;
    beyond = λ i h. none_anywhere 10 i;
  }
    where
      none_anywhere : (n i : ℕ) → get_or {A = Option A} (replicate n none) i none ≡ none
      none_anywhere zero i = refl
      none_anywhere (suc n) zero = refl
      none_anywhere (suc n) (suc i) = none_anywhere n i
