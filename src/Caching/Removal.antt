-- ===== src/Caching/Removal.antt =====
-- The removal handlers of caching.c on the queue of files.
use progetto_sistemi_operati.Base.{
  ℕ, suc, ◌+◌, ◌-◌, ◌%◌, ◌≡◌, refl, ap, ◌∙◌, List, ◌∷◌, ◌++◌, length, length-append, arith, ok, inl,
  inr, Bool-cases, Outcome,
}
use progetto_sistemi_operati.Base.Int.{pos, ◌-ℤ◌}
use progetto_sistemi_operati.Base.Ring.{window, step-mod, distance-mod, distance-mod_exact}
use progetto_sistemi_operati.Caching.Config.{Config}
use progetto_sistemi_operati.Caching.State.{Cache, next, find_file, shift_files}
use progetto_sistemi_operati.Caching.Fifo.{handle_removal_fifo}
use progetto_sistemi_operati.Caching.Lru.{handle_removal_lru}
use progetto_sistemi_operati.Caching.Policy.{is_fifo, handle_removal}
use progetto_sistemi_operati.Caching.Moves.{
  find_file_lem, length-shift_files, window-shift_files, window-shift_files',
}
use progetto_sistemi_operati.Caching.Valid.{IsValid, contents, length-contents, NotIn}

module _ {cfg : Config} (len : ℕ → ℕ) (file : ℕ) (xs ys : List ℕ) {c : Cache} (v : IsValid cfg c)
    (e : contents c ≡ xs ++ file ∷ ys) (first : NotIn file xs) where
  open c use {slots, cache_size as cs, head, tail, count}

  -- What a removal gives.
  pub record Removed (r : Outcome Cache) : Type 0 where
    pub after : Cache
    pub returns : r ≡ ok after
    pub valid : IsValid cfg after
    pub queue : contents after ≡ xs ++ ys
    pub bytes : after.size ≡ c.size -ℤ pos (len file)
    pub shorter : after.count + 1 ≡ c.count

  count-eq : count ≡ suc (length xs + length ys)
  count-eq = omega (arith, length-contents c, ap length e, length-append xs (file ∷ ys))

  spot : find_file cs file slots cs head ≡ ok ((head + length xs) % cs)
  spot = find_file_lem cs file slots xs ys cs head count v.head_in e first (omega (arith, count-eq))

  whole : window 0 slots cs head (suc (count - 1)) ≡ xs ++ file ∷ ys
  whole =
      let e' : suc (count - 1) ≡ count = omega (arith, count-eq) in
      ap (window 0 slots cs head) e' ∙ e

  -- The ring after `n` rounds of the shift.
  shifted : ℕ → Cache
  shifted n = record c {
    slots = shift_files cs n ((head + length xs) % cs) slots;
    head = next cs head;
    size = c.size -ℤ pos (len file);
    count = count - 1;
  }

  shifted-Removed :
      (n : ℕ) {r : Outcome Cache} → r ≡ ok (shifted n) → contents (shifted n) ≡ xs ++ ys → Removed r
  unfolding shifted
  shifted-Removed n e' q = record {
    after = shifted n;
    returns = e';
    valid = ground (
      arith,
      count-eq,
      length-shift_files cs n ((head + length xs) % cs) slots,
      step-mod cs head (count - 1),
    );
    queue = q;
    bytes = refl;
    shorter = omega (arith, count-eq);
  }

  fifo-Removed : Removed (handle_removal_fifo len file c)
  unfolding handle_removal_fifo shifted
  fifo-Removed =
      let d : ((head + length xs) % cs + cs - head + 1) % cs ≡ suc (length xs) =
        distance-mod cs head (length xs) 1 v.head_in (omega (arith, count-eq))
          (omega (arith, count-eq))
        ∙ omega arith in
      shifted-Removed (suc (length xs)) (rw spot (ap (λ n. ok (shifted n)) d)) (
        window-shift_files' cs head (count - 1) file slots xs ys (omega arith) v.head_in
          (omega (arith, count-eq)) whole)

  lru-Removed : Removed (handle_removal_lru len file c)
  unfolding handle_removal_lru shifted
  lru-Removed =
      let d : ((head + length xs) % cs + cs - head) % cs ≡ length xs =
        distance-mod_exact cs head (length xs) v.head_in (omega (arith, count-eq)) in
      shifted-Removed (length xs) (rw spot (ap (λ n. ok (shifted n)) d)) (
        window-shift_files cs head (count - 1) file slots xs ys (omega arith) v.head_in
          (omega (arith, count-eq)) whole)

  -- Removing a file that a valid ring holds succeeds under either policy: the ring stays valid
  -- and loses the oldest slot of that file alone, the size loses its length, and the count goes
  -- down by one.
  pub handle_removal-Removed : Removed (handle_removal cfg len file c)
  unfolding handle_removal
  handle_removal-Removed = elim (Bool-cases (is_fifo cfg)) [
    | inl p ↦ rw p fifo-Removed
    | inr p ↦ rw p lru-Removed
  ]
