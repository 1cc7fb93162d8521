-- ===== src/Vector.antt =====
-- src/common/include/vector.h: an array of pointers that grows and shrinks.
pub mod Growth
pub mod Access
mod Tests
use progetto_sistemi_operati.Base.{
  ℕ, zero, suc, ◌+◌, ◌-◌, ◌*◌, ◌/◌, ◌^◌, max, ◌&&◌, List, [], ◌∷◌, ◌++◌, Bool, true, false, Option,
  none, some, length, get_or, set, take, replicate, leb, ltb, if◌then◌else◌, Outcome, ok, fault,
  ◌>>=◌,
}
use progetto_sistemi_operati.Base.Int.{ℤ, pos, negsuc}

-- The pointers are `none` for null; their targets belong to the vector.
pub record Vector (A : Type 0) : Type 0 where
  pub array : List (Option A)
  pub capacity : ℕ
  pub size : ℕ

module _ {A : Type 0} where
  -- The loop that makes the places from index `i` on null.
  unfoldable pub null_from : ℕ → List (Option A) → List (Option A)
  null_from i [] = []
  null_from zero (x ∷ xs) = none ∷ null_from zero xs
  null_from (suc i) (x ∷ xs) = x ∷ null_from i xs

  -- `realloc`: the new places hold `junk`.
  abbrev pub realloc : Option A → ℕ → List (Option A) → List (Option A)
  realloc junk n xs = take n xs ++ replicate (n - length xs) junk

  -- `RESIZE`; a capacity of 2 ^ 31 is no int.
  unfoldable pub resize : Option A → ℕ → Vector A → Outcome (Vector A)
  unfolding null_from
  resize junk new_capacity self =
      if leb (2 ^ 31) new_capacity
      then fault
      else ok (record self {
        array = null_from self.size (realloc junk new_capacity self.array);
        capacity = new_capacity;
      })

  -- `RESIZE_IF_NEEDED`. The comparisons with 0.8 and 0.2 times the capacity are exact in `double` at
  -- these sizes; half of it is cut to an int.
  unfoldable pub resize_if_needed : Option A → Vector A → Outcome (Vector A)
  unfolding resize
  resize_if_needed junk self =
      if leb (4 * self.capacity) (5 * self.size)
      then resize junk (2 * self.capacity) self
      else if leb (5 * self.size) self.capacity && ltb 10 self.capacity
      then resize junk (self.capacity / 2) self
      else ok self

  -- A negative index and one behind the size give null.
  unfoldable pub get_vector : Vector A → ℤ → Option A
  get_vector self (negsuc n) = none
  get_vector self (pos i) = if leb self.size i then none else get_or self.array i none

  -- The element is put into its place, which exists by now.
  abbrev pub put : A → ℕ → Vector A → Vector A
  put el index self = record self {
    array = set self.array index (some el);
    size = max (index + 1) self.size;
  }

  unfoldable pub set_vector : Option A → A → ℤ → Vector A → Outcome (Vector A)
  set_vector junk el (negsuc n) self = ok self
  set_vector junk el (pos index) self =
      (if leb self.capacity index then resize junk (2 * index) self else ok self) >>= λ roomy.
      resize_if_needed junk (put el index roomy)

  unfoldable pub append : Option A → A → Vector A → Outcome (Vector A)
  unfolding set_vector
  append junk el self = set_vector junk el (pos self.size) self

unfoldable pub new_vector : {A : Type 0} → Vector A
new_vector = record { array = replicate 10 none; capacity = 10; size = 0 }
