-- ===== src/Vector/Tests.antt =====
-- An element put far behind the end of a new vector, and a run that grows it.
use progetto_sistemi_operati.Base.{
  ◌∷◌, ℕ, ◌+◌, ◌<◌, ◌≡◌, refl, max, none, some, ◌==◌, if◌then◌else◌, arith, ok, ◌>>=◌, replicate,
}
use progetto_sistemi_operati.Base.Int.{pos}
use progetto_sistemi_operati.Vector.{
  Vector, new_vector, set_vector, get_vector, append, resize_if_needed,
}
use progetto_sistemi_operati.Vector.Growth.{IsValid}
use progetto_sistemi_operati.Vector.Access.{set_vector-get, new_vector-IsValid}

small : (new_vector {A = ℕ}).capacity < 2000
unfolding new_vector
small = omega arith

set_vector-get_example :
    (w : Vector ℕ) × (set_vector none 7 (pos 12) new_vector ≡ ok w)
    × IsValid w
    × (w.size ≡ max (12 + 1) (new_vector {A = ℕ}).size)
    × ((i : ℕ) → get_vector w (pos i) ≡ (if i == 12 then some 7 else get_vector new_vector (pos i)))
set_vector-get_example =
    set_vector-get none 7 12 new_vector new_vector-IsValid (omega arith) (omega (arith, small))

append_runs :
    (append {A = ℕ} none 1 new_vector >>= append {A = ℕ} none 2)
    ≡ ok (record { array = some 1 ∷ some 2 ∷ replicate 8 none; capacity = 10; size = 2 })
unfolding append new_vector set_vector resize_if_needed
append_runs = refl
