-- ===== src/Caching/Insertion.antt =====
-- The insertion handlers of caching.c against a bounded queue of files.
use progetto_sistemi_operati.Base.{
  ℕ, suc, ◌+◌, ◌-◌, ◌%◌, ◌<◌, ◌≡◌, refl, sym, ap, ◌∙◌, ◌↔◌, List, [], ◌∷◌, ◌++◌, Option, none, some,
  length, set, length-set, arith, ltb, if◌then◌else◌, inl, inr, Bool-cases, true, false, max, ok,
}
use progetto_sistemi_operati.Base.Int.{pos, ◌-ℤ◌}
use progetto_sistemi_operati.Base.Ring.{window, window-push, window-split, step-mod, next-mod}
use progetto_sistemi_operati.Caching.Config.{Config}
use progetto_sistemi_operati.Caching.State.{Cache, next, slot}
use progetto_sistemi_operati.Caching.Fifo.{handle_insertion_fifo}
use progetto_sistemi_operati.Caching.Lru.{handle_insertion_lru}
use progetto_sistemi_operati.Caching.Policy.{is_fifo, handle_insertion}
use progetto_sistemi_operati.Caching.Valid.{
  IsValid, contents, length-contents, Accounted, total-append,
}

-- A queue of at most `limit` files: a full one loses its first file to the new one.
pub insert_bounded : ℕ → ℕ → List ℕ → List ℕ × Option ℕ
insert_bounded limit file [] = (file ∷ [], none)
insert_bounded limit file (x ∷ xs) =
    if ltb (length xs + 1) limit then (x ∷ xs ++ file ∷ [], none) else (xs ++ file ∷ [], some x)

module _ {cfg : Config} (len : ℕ → ℕ) (file : ℕ) {c : Cache} (v : IsValid cfg c) where
  open c use {slots, cache_size as cs, head, tail, count}

  -- The two policies insert alike.
  lru-eq-fifo : handle_insertion_lru cfg len file c ≡ handle_insertion_fifo cfg len file c
  unfolding handle_insertion_fifo handle_insertion_lru
  lru-eq-fifo = refl

  policy-eq-fifo : handle_insertion cfg len file c ≡ handle_insertion_fifo cfg len file c
  unfolding handle_insertion
  policy-eq-fifo = elim (Bool-cases (is_fifo cfg)) [ inl e ↦ rw e | inr e ↦ rw e lru-eq-fifo ]

  -- The ring with the file at its tail, and with the oldest file still in it.
  with_file : Cache
  with_file = record c {
    slots = set slots tail file;
    tail = next cs tail;
    count = count + 1;
    max_count = max c.max_count (count + 1);
  }

  -- The ring with the file in place of the oldest one.
  with_file_for_oldest : Cache
  with_file_for_oldest = record c {
    slots = set slots tail file;
    head = next cs head;
    tail = next cs tail;
    size = c.size -ℤ pos (len (slot slots (next cs head)));
    max_count = max c.max_count count;
    activations = c.activations + 1;
  }

  insertion-fits :
      count < cfg.max_file_count → handle_insertion cfg len file c ≡ ok (with_file, none)
  unfolding handle_insertion_fifo with_file
  insertion-fits h =
      let room : ltb cfg.max_file_count (count + 1) ≡ false = ground arith in
      rw (policy-eq-fifo, room) refl

  insertion-full :
      count ≡ cfg.max_file_count
      → 1 < count
      → handle_insertion cfg len file c ≡ ok (with_file_for_oldest, some (slot slots head))
  unfolding handle_insertion_fifo with_file_for_oldest
  insertion-full full two =
      let no_room : ltb cfg.max_file_count (count + 1) ≡ true = ground arith in
      let enough : ltb count 2 ≡ false = ground arith in rw (policy-eq-fifo, no_room, enough) refl

  with_file-IsValid : count < cfg.max_file_count → IsValid cfg with_file
  unfolding with_file
  with_file-IsValid h =
      ground (arith, length-set slots tail file, next-mod cs head count, step-mod cs head count)

  with_file_for_oldest-IsValid : 0 < count → IsValid cfg with_file_for_oldest
  unfolding with_file_for_oldest
  with_file_for_oldest-IsValid h =
      ground (arith, length-set slots tail file, next-mod cs head count, step-mod cs head count)

  push-fits :
      count < cfg.max_file_count
      → window 0 (set slots tail file) cs head (count + 1) ≡ contents c ++ file ∷ []
  push-fits h =
      let e : count + 1 ≡ suc count = omega arith in
      ap (window 0 (set slots tail file) cs head) e
      ∙ ap (λ t. window 0 (set slots t file) cs head (suc count)) v.tail_at
      ∙ window-push 0 slots cs head count file (omega arith) v.head_in (omega arith)

  push-expels :
      (x : ℕ) (xs : List ℕ)
      → contents c ≡ x ∷ xs
      → window 0 (set slots tail file) cs (next cs head) count ≡ xs ++ file ∷ []
  push-expels x xs e =
      let (n, _, rest) = window-split 0 slots cs head count x xs e in
      let e' : tail ≡ (next cs head + (count - 1)) % cs =
        v.tail_at ∙ ap (λ k. (head + k) % cs) n ∙ sym (step-mod cs head (count - 1)) in
      ap (window 0 (set slots tail file) cs (next cs head)) n
      ∙ ap (λ t. window 0 (set slots t file) cs (next cs head) (suc (count - 1))) e'
      ∙ window-push 0 slots cs (next cs head) (count - 1) file (omega arith) (omega arith)
          (omega arith)
      ∙ ap (λ q. q ++ file ∷ []) rest

  contents-with_file :
      count < cfg.max_file_count
      → (contents with_file, none) ≡ insert_bounded cfg.max_file_count file (contents c)
  unfolding with_file insert_bounded
  contents-with_file h = go (contents c) refl
    where
      go :
          (q : List ℕ)
          → contents c ≡ q
          → (contents with_file, none) ≡ insert_bounded cfg.max_file_count file q
      go [] e = ground (arith, push-fits h, ap length e, length-contents c)
      go (x ∷ xs) e = ground (arith, push-fits h, ap length e, length-contents c)

  contents-with_file_for_oldest :
      count ≡ cfg.max_file_count
      → 1 < count
      → (contents with_file_for_oldest, some (slot slots head))
        ≡ insert_bounded cfg.max_file_count file (contents c)
  unfolding with_file_for_oldest insert_bounded
  contents-with_file_for_oldest full two = go (contents c) refl
    where
      go :
          (q : List ℕ)
          → contents c ≡ q
          → (contents with_file_for_oldest, some (slot slots head))
            ≡ insert_bounded cfg.max_file_count file q
      go [] e = absurd (omega (arith, ap length e, length-contents c, two))
      go (x ∷ xs) e = ground (
        arith,
        push-expels x xs e,
        window-split 0 slots cs head count x xs e,
        ap length e,
        length-contents c,
      )

  -- With room for two files at least, an insertion into a valid ring returns. It keeps the ring
  -- valid, puts the file behind all others and expels the oldest one exactly if the ring is full,
  -- for both policies.
  pub handle_insertion_refines :
      1 < cfg.max_file_count
      → (c' : Cache) × (expelled : Option ℕ) × (handle_insertion cfg len file c ≡ ok (c', expelled))
        × IsValid cfg c'
        × ((contents c', expelled) ≡ insert_bounded cfg.max_file_count file (contents c))
  handle_insertion_refines two = elim (Bool-cases (ltb count cfg.max_file_count)) [
    | inl e ↦
        let room : count < cfg.max_file_count = ground arith in
        (with_file, none, insertion-fits room, with_file-IsValid room, contents-with_file room)
    | inr e ↦
        let full : count ≡ cfg.max_file_count = ground (arith, v) in
        let some_two : 1 < count = omega (arith, full, two) in
        (
          with_file_for_oldest,
          some (slot slots head),
          insertion-full full some_two,
          with_file_for_oldest-IsValid (omega arith),
          contents-with_file_for_oldest full some_two,
        )
  ]

  -- When a file without content is inserted into a full valid ring of two files at least, whose
  -- size counter is right, the counter stays right exactly if the two oldest files have the same
  -- length, since the code subtracts the length of the second and removes the first.
  pub handle_insertion-Accounted_iff :
      (x y : ℕ) (rest : List ℕ)
      → contents c ≡ x ∷ y ∷ rest
      → count ≡ cfg.max_file_count
      → len file ≡ 0
      → Accounted len c
      → (c' : Cache) × (expelled : Option ℕ) × (handle_insertion cfg len file c ≡ ok (c', expelled))
        × (Accounted len c' ↔ (len x ≡ len y))
  unfolding with_file_for_oldest ◌-ℤ◌
  handle_insertion-Accounted_iff x y rest e full z a =
      let two : 1 < count = omega (arith, ap length e, length-contents c) in
      let (_, _, e₁) = window-split 0 slots cs head count x (y ∷ rest) e in
      let (_, e₂, _) = window-split 0 slots cs (next cs head) (count - 1) y rest e₁ in
      let e₃ = push-expels x (y ∷ rest) e in
      let e₄ = total-append len (y ∷ rest) (file ∷ []) in
      (
        with_file_for_oldest,
        some (slot slots head),
        insertion-full full two,
        (
          λ q. ground (arith, e₂, e₃, e₄, ap length e, length-contents c),
          λ q. ground (arith, e₂, e₃, e₄, ap length e, length-contents c),
        ),
      )
