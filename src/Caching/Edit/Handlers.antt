-- ===== src/Caching/Edit/Handlers.antt =====
-- What `handleEdit` does to the queue and to the counters, under either policy.
use mathlib.Core.Path.{ap₂, subst}
use progetto_sistemi_operati.Base.{
  ℕ, suc, ◌+◌, ◌%◌, ◌^◌, ltb, ◌≤◌, ◌<◌, ◌≡◌, refl, sym, ap, ◌∙◌, ◌⊎◌, inl, inr, List, [], ◌∷◌, ◌++◌,
  none, some, true, false, length, length-append, length-set, set, arith, ok, Bool-cases, Outcome,
  append-nil,
}
use progetto_sistemi_operati.Base.Int.{pos, replace_part, ◌+ℤ◌, ◌-ℤ◌}
use progetto_sistemi_operati.Base.Ring.{
  window, step-mod, next-mod, next-prev, window-front, window-push,
}
use progetto_sistemi_operati.Caching.Config.{Config}
use progetto_sistemi_operati.Caching.State.{Cache, Scan, expel, update_stats, slot, next, prev}
use progetto_sistemi_operati.Caching.Fifo.{handle_edit_fifo, move_to_front}
use progetto_sistemi_operati.Caching.Lru.{handle_edit_lru, handle_usage_lru, move_to_back}
use progetto_sistemi_operati.Caching.Policy.{is_fifo, handle_edit}
use progetto_sistemi_operati.Caching.Plan.{
  Plan, plan, plan-left, plan-others, plan-least, plan-file, plan-length, others, others-around,
  others_id,
}
use progetto_sistemi_operati.Caching.Moves.{small-NoneAbove}
use progetto_sistemi_operati.Caching.Usage.{IsQueue, usage_lru-IsQueue}
use progetto_sistemi_operati.Caching.Valid.{
  IsValid, contents, length-contents, NotIn, NotIn-append, total, total-append, Accounted,
}
use progetto_sistemi_operati.Caching.Edit.Loops.{Scanned, scan_lem, collect_lem}

module _ {cfg : Config} (len : ℕ → ℕ) (file new : ℕ) (xs ys : List ℕ) {c : Cache}
    (v : IsValid cfg c) (e : contents c ≡ xs ++ file ∷ ys) (before : NotIn file xs)
    (behind : NotIn file ys) (a : Accounted len c) (small : new ≤ cfg.max_memory_size)
    (int : new + total len (others file (contents c)) < 2 ^ 31) where
  open c use {slots, cache_size as cs, head, tail, count}

  -- The bytes expected after the edit, with nothing expelled.
  abbrev wanted : ℕ
  wanted = new + total len (others file (contents c))

  abbrev p : Plan
  p = plan len cfg.max_memory_size file wanted (contents c)

  others-eq : others file (contents c) ≡ xs ++ ys
  others-eq = ap (others file) e ∙ others-around file xs ys before behind

  wanted-eq : c.size +ℤ (pos new -ℤ pos (len file)) ≡ pos wanted
  wanted-eq =
      let whole = total-append len xs (file ∷ ys) in
      let part = total-append len xs ys in
      ap (λ z. z +ℤ (pos new -ℤ pos (len file))) a
      ∙ replace_part (total len (contents c)) (len file) new (rw e (omega (arith, whole)))
      ∙ ap pos (rw (others-eq, e) (omega (arith, whole, part)))

  wanted-int : ltb wanted (2 ^ 31) ≡ true
  wanted-int = ground arith

  record Expelled : Type 0 where
    scanned : Scan
    found :
        Scanned len cfg.max_memory_size cs file slots new small
          (record {
            index = head;
            edited = none;
            expected = pos wanted;
            dim = 0;
            file_count = count;
          })
          p
          scanned
    new_head : ℕ
    returns : expel cfg len file new c ≡ ok (p.evicted, new_head, scanned)
    head_in : new_head < cs
    same_end : (new_head + length p.rest) % cs ≡ tail
    rest : window 0 slots cs new_head (length p.rest) ≡ p.rest

  expelled : Expelled
  unfolding expel
  expelled =
      let whole : window 0 slots cs head (length (contents c)) ≡ contents c =
        ap (window 0 slots cs head) (length-contents c) in
      let enough : length (contents c) < cs = omega (arith, length-contents c) in
      let (s, r, m) =
        scan_lem len cfg.max_memory_size cs file slots new small (contents c) cs wanted
          (record {
            index = head;
            edited = none;
            expected = pos wanted;
            dim = 0;
            file_count = count;
          })
          whole refl refl enough in
      let col =
        collect_lem len cfg.max_memory_size cs file slots new small (contents c) cs wanted head
          v.head_in whole refl enough in
      let d : s.dim ≡ length p.evicted = m.dim ∙ omega arith in
      record {
        scanned = s;
        found = m;
        new_head = col.new_head;
        returns = rw (wanted-eq, wanted-int, r, d, col.returns);
        head_in = col.head_in;
        same_end = col.same_end ∙ ap (λ k. (head + k) % cs) (length-contents c) ∙ sym v.tail_at;
        rest = col.rest;
      }

  -- What an edit gives: the files expelled, and the ring after it.
  pub record Edited (r : Outcome (List ℕ × Cache)) : Type 0 where
    pub gone : List ℕ
    pub after : Cache
    pub returns : r ≡ ok (gone, after)
    pub valid : IsValid cfg after
    pub front : List ℕ
    pub back : List ℕ
    pub still_there : contents after ≡ front ++ file ∷ back
    pub not_in_front : NotIn file front
    pub not_in_back : NotIn file back
    pub kept : gone ++ others file (contents after) ≡ others file (contents c)
    pub bytes : after.size ≡ pos (new + total len (others file (contents after)))
    pub within : new + total len (others file (contents after)) ≤ cfg.max_memory_size
    pub least :
        (es : List ℕ) (z : ℕ)
        → gone ≡ es ++ z ∷ []
        → cfg.max_memory_size < new + total len (others file (contents after)) + len z

  module _ (x : Expelled) (d : Cache) (front back : List ℕ) where
    abbrev q : List ℕ
    q = front ++ file ∷ back

    -- The files that are left.
    files-left :
        NotIn file front
        → NotIn file back
        → others file q ≡ others file p.rest
        → x.scanned.file_count ≡ length q
    files-left hf hb same = omega (
      arith,
      x.found.files,
      length-contents c,
      ap length e,
      ap length others-eq,
      ap length (plan-others len cfg.max_memory_size file (contents c) wanted),
      ap length same,
      ap length (others-around file front back hf hb),
      length-append xs (file ∷ ys),
      length-append xs ys,
      length-append front (file ∷ back),
      length-append front back,
      length-append p.evicted (others file p.rest),
    )

    finish :
        {r : Outcome (List ℕ × Cache)}
        → r ≡ ok (p.evicted, update_stats x.scanned d)
        → IsQueue d (length q) q
        → d.cache_size ≡ cs
        → NotIn file front
        → NotIn file back
        → others file q ≡ others file p.rest
        → Edited r
    unfolding update_stats
    finish ret i size hf hb same =
        let n = files-left hf hb same in
        let there : contents (update_stats x.scanned d) ≡ q =
          ap (window 0 d.slots d.cache_size d.head) n ∙ i.queue in
        let rest = ap (others file) there ∙ same in
        let (l, fits) = plan-left len cfg.max_memory_size file new small (contents c) wanted refl in
        record {
          gone = p.evicted;
          after = update_stats x.scanned d;
          returns = ret;
          valid = record {
            storage = i.storage;
            sized = size ∙ v.sized;
            head_in = i.head_in;
            tail_at = rw n i.tail_at;
            fits = rw n (omega (arith, i.fits, size, v.sized));
          };
          front = front;
          back = back;
          still_there = there;
          not_in_front = hf;
          not_in_back = hb;
          kept = rw rest (plan-others len cfg.max_memory_size file (contents c) wanted);
          bytes = rw rest (x.found.bytes ∙ ap pos l);
          within = rw (rest, ← l) fits;
          least = λ es z h.
              rw (rest, ← l) (plan-least len cfg.max_memory_size file (contents c) wanted es z h);
        }

  -- Either the file was passed over, or it still stands in the rest of the queue.
  abbrev Place : Type 0
  Place =
      ((p.skipped ≡ true) × NotIn file p.rest)
      ⊎ ((xs' : List ℕ) × (p.skipped ≡ false) × (p.rest ≡ xs' ++ file ∷ ys) × NotIn file xs')

  place : Place
  place = rw (← e) at (plan-file len cfg.max_memory_size file xs ys wanted before behind)

  -- The ring once the head is past the files expelled.
  advanced : Expelled → Cache
  advanced x = record c { head = x.new_head }

  rest-lt : NotIn file p.rest → length p.rest < count
  rest-lt none_left = omega (
    arith,
    length-contents c,
    ap length e,
    ap length others-eq,
    ap length (plan-others len cfg.max_memory_size file (contents c) wanted),
    ap length (others_id file p.rest none_left),
    length-append xs (file ∷ ys),
    length-append xs ys,
    length-append p.evicted (others file p.rest),
  )

  advanced-IsQueue : (x : Expelled) → IsQueue (advanced x) (length p.rest) p.rest
  unfolding advanced
  advanced-IsQueue x = record {
    storage = v.storage;
    head_in = x.head_in;
    tail_at = sym x.same_end;
    fits =
        omega
          (arith, plan-length len cfg.max_memory_size file (contents c) wanted, length-contents c);
    queue = x.rest;
  }

  to_front-IsQueue :
      (x : Expelled) (i : ℕ)
      → slot slots i ≡ file
      → NotIn file p.rest
      → IsQueue (move_to_front (some i) x.new_head c) (suc (length p.rest)) (file ∷ p.rest)
  unfolding move_to_front
  to_front-IsQueue x i there none_left = record {
    storage = length-set slots (prev cs x.new_head) (slot slots i) ∙ v.storage;
    head_in = omega arith;
    tail_at =
        sym x.same_end
        ∙ ap (λ h. (h + length p.rest) % cs) (sym (next-prev cs x.new_head x.head_in))
        ∙ step-mod cs (prev cs x.new_head) (length p.rest);
    fits = omega (arith, rest-lt none_left);
    queue =
        window-front 0 slots cs x.new_head (length p.rest) (slot slots i) (omega arith) x.head_in
          (omega (arith, rest-lt none_left))
        ∙ ap₂ ◌∷◌ there x.rest;
  }

  seen-some :
      (x : Expelled)
      → p.skipped ≡ true
      → (i : ℕ) × (x.scanned.edited ≡ some i) × (slot slots i ≡ file)
  seen-some x sk = rw sk at x.found.seen

  seen-none : (x : Expelled) → p.skipped ≡ false → x.scanned.edited ≡ none
  seen-none x sk = rw sk at x.found.seen

  front-others : NotIn file p.rest → others file (file ∷ p.rest) ≡ others file p.rest
  front-others none_left =
      others-around file [] p.rest tt none_left ∙ sym (others_id file p.rest none_left)

  fifo-Edited : Expelled → Edited (handle_edit_fifo cfg len file new c)
  unfolding handle_edit_fifo move_to_front advanced
  fifo-Edited x = elim place [
    | inl (sk, none_left) ↦
        let (i, ed, there) = seen-some x sk in
        finish x (move_to_front (some i) x.new_head c) [] p.rest (rw (x.returns, ed))
          (to_front-IsQueue x i there none_left) refl tt none_left (front-others none_left)
    | inr (xs', sk, split, none_before) ↦
        finish x (advanced x) xs' ys (rw (x.returns, seen-none x sk))
          (subst (λ w. IsQueue (advanced x) (length w) w) split (advanced-IsQueue x)) refl
          none_before behind (ap (others file) (sym split))
  ]

  -- The file goes behind the rest of the queue.
  to_back-IsQueue :
      (x : Expelled) (i : ℕ)
      → slot slots i ≡ file
      → NotIn file p.rest
      → IsQueue
          (record c {
            head = x.new_head;
            slots = set slots tail (slot slots i);
            tail = next cs tail;
          })
          (suc (length p.rest))
          (p.rest ++ file ∷ [])
  to_back-IsQueue x i there none_left = record {
    storage = length-set slots tail (slot slots i) ∙ v.storage;
    head_in = x.head_in;
    tail_at = ap (next cs) (sym x.same_end) ∙ next-mod cs x.new_head (length p.rest);
    fits = omega (arith, rest-lt none_left);
    queue =
        ap (λ t. window 0 (set slots t (slot slots i)) cs x.new_head (suc (length p.rest)))
          (sym x.same_end)
        ∙ window-push 0 slots cs x.new_head (length p.rest) (slot slots i) (omega arith) x.head_in
            (omega (arith, rest-lt none_left))
        ∙ ap₂ (λ w f. w ++ f ∷ []) x.rest there;
  }

  lru-stays :
      (x : Expelled) (d : Cache)
      → x.scanned.edited ≡ none
      → handle_usage_lru file (advanced x) ≡ ok d
      → handle_edit_lru cfg len file new c ≡ ok (p.evicted, update_stats x.scanned d)
  unfolding handle_edit_lru move_to_back advanced
  lru-stays x d unseen ret = rw (x.returns, unseen, ret)

  lru-Edited : cs ≤ 101 → Expelled → Edited (handle_edit_lru cfg len file new c)
  unfolding handle_edit_lru move_to_back advanced
  lru-Edited near x = elim place [
    | inl (sk, none_left) ↦
        let (i, ed, there) = seen-some x sk in
        finish x
          (record c {
            head = x.new_head;
            slots = set slots tail (slot slots i);
            tail = next cs tail;
          })
          p.rest [] (rw (x.returns, ed))
          (let n : suc (length p.rest) ≡ length (p.rest ++ file ∷ []) =
              omega (arith, length-append p.rest (file ∷ [])) in
            rw n at (to_back-IsQueue x i there none_left))
          refl none_left tt
          (others-around file p.rest [] none_left tt
            ∙ append-nil p.rest
            ∙ sym (others_id file p.rest none_left))
    | inr (xs', sk, split, none_before) ↦
        let (d, ret, i, sz, n, k, ms, mc, ac) =
          usage_lru-IsQueue file xs' ys
            (subst (λ w. IsQueue (advanced x) (length w) w) split (advanced-IsQueue x)) none_before
            (small-NoneAbove cs x.new_head xs' (omega arith) near) in
        let m : length (xs' ++ file ∷ ys) ≡ length (xs' ++ ys ++ file ∷ []) = omega (
          arith,
          length-append xs' (file ∷ ys),
          length-append (xs' ++ ys) (file ∷ []),
          length-append xs' ys,
        ) in
        let apart = NotIn-append file xs' ys none_before behind in
        finish x d (xs' ++ ys) [] (lru-stays x d (seen-none x sk) ret)
          (subst (λ n. IsQueue d n (xs' ++ ys ++ file ∷ [])) m i) k apart tt
          (others-around file (xs' ++ ys) [] apart tt
            ∙ append-nil (xs' ++ ys)
            ∙ sym (others-around file xs' ys none_before behind)
            ∙ ap (others file) (sym split))
  ]

  -- In a valid ring that holds the file once and whose size counter is right, an edit of the file
  -- to a length that fits the memory alone succeeds, if the bytes of the other files and that
  -- length together are below 2 ^ 31, and under LRU if the ring has at most 101 slots. The ring
  -- stays valid and keeps the file; the files expelled are the oldest others, and the rest keep
  -- their order; the size counter is then that of the files left with the new length, it is
  -- within the limit, and without the last file expelled it would not be.
  pub handle_edit-Edited :
      (is_fifo cfg ≡ true) ⊎ (cs ≤ 101) → Edited (handle_edit cfg len file new c)
  unfolding handle_edit
  handle_edit-Edited near = elim (Bool-cases (is_fifo cfg)) [
    | inl fifo ↦ rw fifo (fifo-Edited expelled)
    | inr lru ↦ rw lru (lru-Edited (close near lru) expelled)
  ]
    where
      close : (is_fifo cfg ≡ true) ⊎ (cs ≤ 101) → is_fifo cfg ≡ false → cs ≤ 101
      close (inl t) f = cc
      close (inr h) f = h
