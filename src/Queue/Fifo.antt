-- ===== src/Queue/Fifo.antt =====
-- The blocking queues of intqueue.c and requestqueue.c as lists of items, and the runs of their calls.
use native.Mathlib.Nat.{mod-eq_of_lt}
use progetto_sistemi_operati.Base.{
  ℕ, suc, ◌+◌, ◌-◌, ◌%◌, ◌≤◌, ◌<◌, ◌≡◌, refl, sym, subst, ap, ap₂, ◌∙◌, inl, inr, List, [], ◌∷◌,
  ◌++◌, append_assoc, true, false, Option, none, some, get_or, set, length, length-set,
  length-replicate, ◌==◌, leb, if◌then◌else◌, Bool-cases, arith,
}
use progetto_sistemi_operati.Base.Ring.{window, window-push, add-mod_cases}
use progetto_sistemi_operati.Queue.{
  Queue, init_queue, insert_queue, pop_head, remove_queue, close_queue,
}

module _ {A : Type 0} (size : ℕ) (blank : A) where
  pub record IsValid (q : Queue A) : Type 0 where
    pub storage : length q.items ≡ size
    pub head_in : q.head < size
    pub ordered : q.head ≤ q.tail
    pub fits : q.tail ≤ q.head + size

  -- The items in the queue, oldest first.
  abbrev pub queued : Queue A → List A
  queued q = window blank q.items size q.head (q.tail - q.head)

  pub init_queue-IsValid :
      0 < size → IsValid (init_queue size blank) × (queued (init_queue size blank) ≡ [])
  unfolding init_queue
  init_queue-IsValid h = (ground (arith, length-replicate size blank), refl)

  -- An insertion goes through unless the queue is full.
  pub insert_queue-queued :
      (item : A) (q q' : Queue A)
      → IsValid q
      → insert_queue size blank item q ≡ some q'
      → IsValid q' × (queued q' ≡ queued q ++ item ∷ [])
  unfolding insert_queue
  insert_queue-queued item q q' v e = elim (Bool-cases (b - a == size)) [
    | inl full ↦ cc (rw full at e)
    | inr room ↦
        let same : some added ≡ some q' = rw room at e in
        subst (λ p. IsValid p × (queued p ≡ queued q ++ item ∷ [])) (let e' : added ≡ q' = cc in e')
          (ground (arith, length-set q.items (b % size) item), pushed room)
  ]
    where
      open q use {items as xs, head as a, tail as b}

      added : Queue A
      added = record q { items = set xs (b % size) item; tail = b + 1 }

      ring : ℕ → ℕ → List A
      ring i n = window blank (set xs (i % size) item) size a n

      back : b ≡ a + (b - a)
      back = ground arith

      more : b + 1 - a ≡ suc (b - a)
      more = ground arith

      pushed : (b - a == size) ≡ false → ring b (b + 1 - a) ≡ queued q ++ item ∷ []
      pushed room =
          ap (λ i. ring i (b + 1 - a)) back
          ∙ ap (ring (a + (b - a))) more
          ∙ window-push blank xs size a (b - a) item (ground arith) v.head_in (ground arith)

  pop_head-queued :
      (q : Queue A)
      → IsValid q
      → q.head < q.tail
      → IsValid (pop_head size blank q)
        × (queued q ≡ get_or q.items (q.head % size) blank ∷ queued (pop_head size blank q))
  unfolding pop_head
  pop_head-queued q v more = elim (Bool-cases (leb size (a + 1))) [
    | inl e ↦ (
      ground arith,
      ap (ring a) one_more
          ∙ rw e (cells (a + 1 - size) (b - size) (wraps (ground arith)) (ground arith)),
    )
    | inr e ↦ (
      ground arith,
      ap (ring a) one_more ∙ rw e (cells (a + 1) b (mod-eq_of_lt (ground arith)) (ground arith)),
    )
  ]
    where
      open q use {items as xs, head as a, tail as b}

      ring : ℕ → ℕ → List A
      ring i n = window blank xs size i n

      one_more : b - a ≡ suc (b - (a + 1))
      one_more = omega arith

      wraps : size ≤ a + 1 → (a + 1) % size ≡ a + 1 - size
      wraps le = elim (add-mod_cases size a 1 v.head_in (omega arith)) [
        | inl (_, less) ↦ omega arith
        | inr (e, _) ↦ e
      ]

      cells :
          (a' b' : ℕ)
          → (a + 1) % size ≡ a'
          → b - (a + 1) ≡ b' - a'
          → ring a (suc (b - (a + 1))) ≡ get_or xs (a % size) blank ∷ ring a' (b' - a')
      cells a' b' ea eb =
          let same : a ≡ a % size = sym (mod-eq_of_lt v.head_in) in
          ap₂ ◌∷◌ (ap (λ i. get_or xs i blank) same) (ap₂ ring ea eb)

  remove_queue-open :
      (q : Queue A)
      → q.closed ≡ false
      → let popped : Option (Option A × Queue A) =
          some (some (get_or q.items (q.head % size) blank), pop_head size blank q) in
        remove_queue size blank q ≡ (if q.head == q.tail then none else popped)
  unfolding remove_queue
  remove_queue-open q e =
      let popped : Option (Option A × Queue A) =
        some (some (get_or q.items (q.head % size) blank), pop_head size blank q) in
      ap (λ c. if c then some (none, q) else if q.head == q.tail then none else popped) e

  pub remove_queue-queued :
      (q : Queue A)
      → IsValid q
      → q.closed ≡ false
      → (o : Option A) (q' : Queue A) → remove_queue size blank q ≡ some (o, q')
      → IsValid q' × (item : A) × (o ≡ some item) × (queued q ≡ item ∷ queued q')
  remove_queue-queued q v open_queue o q' e = elim (Bool-cases (q.head == q.tail)) [
    | inl empty ↦ cc (rw empty at now)
    | inr some_left ↦
        let same : ◌≡◌ {A = Option (Option A × Queue A)} (some (some first, pop_head size blank q))
            (some (o, q')) =
          rw some_left at now in
        let there : some first ≡ o = cc in
        let then_q : pop_head size blank q ≡ q' = cc in
        let (valid, left) = pop_head-queued q v (ground arith) in
        (subst IsValid then_q valid, first, sym there, left ∙ ap (λ p. first ∷ queued p) then_q)
  ]
    where
      first : A
      first = get_or q.items (q.head % size) blank

      popped : Option (Option A × Queue A)
      popped = some (some first, pop_head size blank q)

      now : (if q.head == q.tail then none else popped) ≡ some (o, q')
      now = sym (remove_queue-open q open_queue) ∙ e

  remove_queue-closed : (q : Queue A) → q.closed ≡ true → remove_queue size blank q ≡ some (none, q)
  unfolding remove_queue
  remove_queue-closed q e = rw (e, remove_queue) refl

  remove_queue-some :
      (item : A) (q q' : Queue A)
      → remove_queue size blank q ≡ some (some item, q')
      → q.closed ≡ false
  remove_queue-some item q q' e = elim (Bool-cases q.closed) [
    | inl closed ↦ cc (sym (remove_queue-closed q closed) ∙ e)
    | inr still_open ↦ still_open
  ]

  -- A removal that gives an item gives the oldest one.
  pub remove_queue-item :
      (item : A) (q q' : Queue A)
      → IsValid q
      → remove_queue size blank q ≡ some (some item, q')
      → IsValid q' × (queued q ≡ item ∷ queued q')
  remove_queue-item item q q' v e =
      let (v', first, same, left) =
        remove_queue-queued q v (remove_queue-some item q q' e) (some item) q' e in
      let same' : first ≡ item = cc in (v', left ∙ ap (λ x. x ∷ queued q') same')

  remove_queue-none :
      (q : Queue A)
      → IsValid q
      → (q' : Queue A) → remove_queue size blank q ≡ some (none, q')
      → q ≡ q'
  remove_queue-none q v q' e = elim (Bool-cases q.closed) [
    | inl closed ↦
        let same : ◌≡◌ {A = Option (Option A × Queue A)} (some (none, q)) (some (none, q')) =
          sym (remove_queue-closed q closed) ∙ e in
        cc
    | inr still_open ↦ let (_, item, same, _) = remove_queue-queued q v still_open none q' e in cc
  ]

  pub close_queue-queued :
      (q : Queue A) → IsValid q → IsValid (close_queue q) × (queued (close_queue q) ≡ queued q)
  unfolding close_queue
  close_queue-queued q v = (ground arith, refl)

  -- The calls of any number of threads, in the order in which they take the lock: what has been
  -- inserted, what has been removed, and the state.
  pub data Run : List A → List A → Queue A → Type 0 where
    init : Run [] [] (init_queue size blank)
    inserts :
        {ins outs : List A} {q q' : Queue A} (item : A)
        → Run ins outs q
        → insert_queue size blank item q ≡ some q'
        → Run (ins ++ item ∷ []) outs q'
    removes :
        {ins outs : List A} {q q' : Queue A} (item : A)
        → Run ins outs q
        → remove_queue size blank q ≡ some (some item, q')
        → Run ins (outs ++ item ∷ []) q'
    refused :
        {ins outs : List A} {q q' : Queue A}
        → Run ins outs q
        → remove_queue size blank q ≡ some (none, q')
        → Run ins outs q'
    closes : {ins outs : List A} {q : Queue A} → Run ins outs q → Run ins outs (close_queue q)

  -- Whatever the threads do with a blocking queue of at least one slot, the items removed and
  -- those still in it are the items inserted, in order, and the ring stays well formed.
  pub Run-queued :
      {ins outs : List A} {q : Queue A}
      → 0 < size
      → Run ins outs q
      → IsValid q × (ins ≡ outs ++ queued q)
  unfolding init_queue
  Run-queued h init = let (v, none_yet) = init_queue-IsValid h in (v, sym none_yet)
  Run-queued h (inserts {outs = outs} {q = q} {q' = q'} item run e) =
      let (v, kept) = Run-queued h run in
      let (v', more) = insert_queue-queued item q q' v e in
      (
        v',
        ap (λ xs. xs ++ item ∷ []) kept
            ∙ append_assoc outs (queued q) (item ∷ [])
            ∙ ap (λ xs. outs ++ xs) (sym more),
      )
  Run-queued h (removes {outs = outs} {q = q} {q' = q'} item run e) =
      let (v, kept) = Run-queued h run in
      let (v', less) = remove_queue-item item q q' v e in
      (v', kept ∙ ap (λ xs. outs ++ xs) less ∙ sym (append_assoc outs (item ∷ []) (queued q')))
  Run-queued h (refused {outs = outs} {q = q} {q' = q'} run e) =
      let (v, kept) = Run-queued h run in
      let same = remove_queue-none q v q' e in
      (subst IsValid same v, kept ∙ ap (λ p. outs ++ queued p) same)
  Run-queued h (closes {outs = outs} {q = q} run) =
      let (v, kept) = Run-queued h run in
      let (v', same) = close_queue-queued q v in (v', kept ∙ ap (λ xs. outs ++ xs) (sym same))
