-- ===== src/Caching/Valid.antt =====
-- The representation invariant of the ring of caching.c, and the queue of files that it holds.
use progetto_sistemi_operati.Base.{
  ℕ, suc, ◌+◌, ◌%◌, ◌≤◌, ◌<◌, ◌≡◌, refl, ◌≢◌, List, [], ◌∷◌, ◌++◌, length, All, arith,
  length-replicate,
}
use progetto_sistemi_operati.Base.Ring.{window, length-window}
use progetto_sistemi_operati.Base.Int.{pos}
use progetto_sistemi_operati.Caching.Config.{Config}
use progetto_sistemi_operati.Caching.State.{Cache, init_caching_system}

pub record IsValid (cfg : Config) (c : Cache) : Type 0 where
  pub storage : length c.slots ≡ c.cache_size
  pub sized : c.cache_size ≡ suc cfg.max_file_count
  pub head_in : c.head < c.cache_size
  pub tail_at : c.tail ≡ (c.head + c.count) % c.cache_size
  pub fits : c.count ≤ cfg.max_file_count

-- The files in the order of the ring, the next one to expel first.
abbrev pub contents : Cache → List ℕ
contents c = window 0 c.slots c.cache_size c.head c.count

-- A file that does not occur.
abbrev pub NotIn : ℕ → List ℕ → Type 0
NotIn f = All (λ x. x ≢ f)

pub NotIn-append : (f : ℕ) (xs ys : List ℕ) → NotIn f xs → NotIn f ys → NotIn f (xs ++ ys)
NotIn-append f [] ys hx hy = hy
NotIn-append f (x ∷ xs) ys hx hy = (hx.0, NotIn-append f xs ys hx.1 hy)

-- The bytes of the listed files.
abbrev pub total : (ℕ → ℕ) → List ℕ → ℕ
total len [] = 0
total len (x ∷ xs) = len x + total len xs

pub total-append :
    (len : ℕ → ℕ) (xs ys : List ℕ) → total len (xs ++ ys) ≡ total len xs + total len ys
total-append len [] ys = omega arith
total-append len (x ∷ xs) ys = omega (arith, total-append len xs ys)

-- The size counter is the number of bytes that the files hold.
abbrev pub Accounted : (ℕ → ℕ) → Cache → Type 0
Accounted len c = c.size ≡ pos (total len (contents c))

pub length-contents : (c : Cache) → length (contents c) ≡ c.count
length-contents c = length-window 0 c.slots c.cache_size c.head c.count

pub init-IsValid : (cfg : Config) (junk : ℕ) → IsValid cfg (init_caching_system cfg junk)
unfolding init_caching_system
init-IsValid cfg junk = record {
  storage = length-replicate (suc cfg.max_file_count) junk;
  sized = refl;
  head_in = omega arith;
  tail_at = omega arith;
  fits = omega arith;
}
