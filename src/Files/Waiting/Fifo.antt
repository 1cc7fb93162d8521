-- ===== src/Files/Waiting/Fifo.antt =====
-- The queue of the requests that wait for a lock, in files.c, as a list.
use progetto_sistemi_operati.Base.{
  ℕ, zero, suc, ◌+◌, ◌-◌, ◌%◌, ◌≤◌, ◌<◌, ◌≡◌, refl, sym, ap, ap₂, ◌∙◌, inl, inr, List, [], ◌∷◌,
  ◌++◌, Option, none, some, true, false, length, length-set, set, get_or, arith, leb, ◌==◌,
  Bool-cases, Option-cases,
}
use progetto_sistemi_operati.Base.Ring.{window, window-push}
use progetto_sistemi_operati.Files.Waiting.{
  Request, HashEntry, max_waiting, waiting_at, has_room, enqueue, advance, next_owner, drain,
  new_hash_entry,
}

-- The indices stay small, and between them there is room for the requests.
pub record IsValid (h : HashEntry) : Type 0 where
  pub storage : length h.waiting_queue ≡ max_waiting
  pub head_in : h.queue_head < max_waiting
  pub ordered : h.queue_head ≤ h.queue_tail
  pub fits : h.queue_tail ≤ h.queue_head + max_waiting

-- The slots in use, oldest first; a client that has left is a null request.
abbrev pub queued : HashEntry → List (Option Request)
queued h = window none h.waiting_queue max_waiting h.queue_head (h.queue_tail - h.queue_head)

abbrev pub present : List (Option Request) → List Request
present [] = []
present (none ∷ os) = present os
present (some r ∷ os) = r ∷ present os

-- The requests that still wait, oldest first.
abbrev pub waiters : HashEntry → List Request
waiters h = present (queued h)

pub present-append : (xs ys : List (Option Request)) → present (xs ++ ys) ≡ present xs ++ present ys
present-append [] ys = refl
present-append (none ∷ xs) ys = present-append xs ys
present-append (some r ∷ xs) ys = ap (λ rs. r ∷ rs) (present-append xs ys)

pub new_hash_entry-IsValid :
    (p : ℕ) → IsValid (new_hash_entry p) × (waiters (new_hash_entry p) ≡ [])
unfolding new_hash_entry
new_hash_entry-IsValid p = (omega arith, refl)

enqueue-IsValid :
    (r : Request) {h : HashEntry} → IsValid h → has_room h ≡ true → IsValid (enqueue r h)
unfolding enqueue has_room
enqueue-IsValid r {h} v room =
    ground (arith, length-set h.waiting_queue (h.queue_tail % max_waiting) (some r))

-- A request that finds room goes behind all others.
pub queued-enqueue :
    (r : Request) {h : HashEntry}
    → IsValid h
    → has_room h ≡ true
    → IsValid (enqueue r h) × (queued (enqueue r h) ≡ queued h ++ some r ∷ [])
unfolding enqueue has_room
queued-enqueue r {h} v room = (enqueue-IsValid r v room, whole)
  where
    open h use {waiting_queue as q, queue_head as a, queue_tail as b}

    ring : ℕ → ℕ → List (Option Request)
    ring i n = window none (set q (i % max_waiting) (some r)) max_waiting a n

    back : b ≡ a + (b - a)
    back = ground arith

    more : b + 1 - a ≡ suc (b - a)
    more = ground arith

    whole : ring b (b + 1 - a) ≡ queued h ++ some r ∷ []
    whole =
        ap (λ i. ring i (b + 1 - a)) back
        ∙ ap (ring (a + (b - a))) more
        ∙ window-push none q max_waiting a (b - a) (some r) (ground arith) v.head_in (ground arith)

advance-IsValid : {h : HashEntry} → IsValid h → h.queue_head < h.queue_tail → IsValid (advance h)
unfolding advance
advance-IsValid v more = ground arith

queued-advance :
    {h : HashEntry}
    → IsValid h
    → h.queue_head < h.queue_tail
    → queued h ≡ waiting_at h h.queue_head ∷ queued (advance h)
unfolding advance
queued-advance {h} v more = elim (Bool-cases (leb max_waiting (a + 1))) [
  | inl e ↦
      ap (ring a) one_more
      ∙ rw e (cells (a + 1 - max_waiting) (b - max_waiting) (ground arith) (ground arith))
  | inr e ↦ ap (ring a) one_more ∙ rw e (cells (a + 1) b (ground arith) (ground arith))
]
  where
    open h use {waiting_queue as q, queue_head as a, queue_tail as b}

    ring : ℕ → ℕ → List (Option Request)
    ring i n = window none q max_waiting i n

    one_more : b - a ≡ suc (b - (a + 1))
    one_more = omega arith

    cells :
        (a' b' : ℕ)
        → (a + 1) % max_waiting ≡ a'
        → b - (a + 1) ≡ b' - a'
        → ring a (suc (b - (a + 1))) ≡ waiting_at h a ∷ ring a' (b' - a')
    cells a' b' ea eb =
        let same : a ≡ a % max_waiting = ground arith in
        ap₂ ◌∷◌ (ap (λ i. get_or q i none) same) (ap₂ ring ea eb)

-- The oldest request that still waits, and the slots behind it.
unfoldable pub take_first : List (Option Request) → Option Request × List (Option Request)
take_first [] = (none, [])
take_first (none ∷ os) = take_first os
take_first (some r ∷ os) = (some r, os)

queued-none : (h : HashEntry) → h.queue_tail - h.queue_head ≡ 0 → queued h ≡ []
queued-none h e = ap (window none h.waiting_queue max_waiting h.queue_head) e

apart : (a b n : ℕ) → b - a ≡ suc n → (b == a) ≡ false
apart a b n e = ground arith

advance-length :
    (n : ℕ) (h : HashEntry)
    → h.queue_tail - h.queue_head ≡ suc n
    → (advance h).queue_tail - (advance h).queue_head ≡ n
unfolding advance
advance-length n h e = ground arith

queued-at :
    {h : HashEntry} {o : Option Request}
    → IsValid h
    → h.queue_head < h.queue_tail
    → waiting_at h h.queue_head ≡ o
    → queued h ≡ o ∷ queued (advance h)
queued-at {h} v more e = queued-advance v more ∙ ap (λ o. o ∷ queued (advance h)) e

-- The search for the next owner takes the oldest of those who wait.
pub next_owner-take_first :
    (n : ℕ) {h : HashEntry}
    → IsValid h
    → h.queue_tail - h.queue_head ≡ n
    → IsValid (next_owner n h).1
      × (((next_owner n h).0, queued (next_owner n h).1) ≡ take_first (queued h))
unfolding next_owner take_first
next_owner-take_first zero {h} v e = (v, rw (queued-none h e) refl)
next_owner-take_first (suc n) {h} v e =
    let more : h.queue_head < h.queue_tail = omega arith in
    let (v', rest) = next_owner-take_first n (advance-IsValid v more) (advance-length n h e) in
    rw (apart h.queue_head h.queue_tail n e) (elim (Option-cases (waiting_at h h.queue_head)) [
      | inl gone ↦ rw gone (v', rest ∙ sym (ap take_first (queued-at v more gone)))
      | inr (r, here) ↦
          rw here (advance-IsValid v more, sym (ap take_first (queued-at v more here)))
    ])

-- Emptying the queue meets all who wait, oldest first.
pub drain-waiters :
    (n : ℕ) {h : HashEntry} → IsValid h → h.queue_tail - h.queue_head ≡ n → drain n h ≡ waiters h
unfolding drain
drain-waiters zero {h} v e = sym (ap present (queued-none h e))
drain-waiters (suc n) {h} v e =
    let more : h.queue_head < h.queue_tail = omega arith in
    let rest = drain-waiters n (advance-IsValid v more) (advance-length n h e) in
    rw (apart h.queue_head h.queue_tail n e) (elim (Option-cases (waiting_at h h.queue_head)) [
      | inl gone ↦ rw gone (rest ∙ sym (ap present (queued-at v more gone)))
      | inr (r, here) ↦ rw here (ap (λ rs. r ∷ rs) rest ∙ sym (ap present (queued-at v more here)))
    ])
