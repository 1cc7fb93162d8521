-- ===== src/Files/Waiting.antt =====
-- src/server/src/files.c: a hash entry's queue of requests that wait for the lock of its file.
pub mod Fifo
use progetto_sistemi_operati.Base.{
  ℕ, zero, suc, ◌+◌, ◌-◌, ◌%◌, List, [], ◌∷◌, Bool, Option, none, some, get_or, set, replicate,
  ◌==◌, leb, ltb, if◌then◌else◌,
}
use progetto_sistemi_operati.Files.Entry.{FileEntry}

-- src/server/include/request.h. The client is the index of its session, which is its descriptor.
pub record Request : Type 0 where
  pub kind : ℕ
  pub flags : ℕ
  pub client : ℕ
  pub file : FileEntry

-- `MAX_CLIENTS_WAITING_FOR_LOCK`
abbrev pub max_waiting : ℕ
max_waiting = 32

pub record HashEntry : Type 0 where
  pub file : ℕ
  pub waiting_queue : List (Option Request)
  pub queue_head : ℕ
  pub queue_tail : ℕ

unfoldable pub new_hash_entry : ℕ → HashEntry
new_hash_entry p = record {
  file = p;
  waiting_queue = replicate max_waiting none;
  queue_head = 0;
  queue_tail = 0;
}

-- `waitingQueue[i % MAX_CLIENTS_WAITING_FOR_LOCK]`
abbrev pub waiting_at : HashEntry → ℕ → Option Request
waiting_at h i = get_or h.waiting_queue (i % max_waiting) none

-- `(queueTail - queueHead) < MAX_CLIENTS_WAITING_FOR_LOCK`, and the enqueuing under it.
unfoldable pub has_room : HashEntry → Bool
has_room h = ltb (h.queue_tail - h.queue_head) max_waiting

unfoldable pub enqueue : Request → HashEntry → HashEntry
enqueue r h = record h {
  waiting_queue = set h.waiting_queue (h.queue_tail % max_waiting) (some r);
  queue_tail = h.queue_tail + 1;
}

-- `queueHead++`, and the step back of both indices when it reaches the end of the array.
unfoldable pub advance : HashEntry → HashEntry
advance h =
    if leb max_waiting (h.queue_head + 1)
    then (record h {
      queue_head = h.queue_head + 1 - max_waiting;
      queue_tail = h.queue_tail - max_waiting;
    })
    else (record h { queue_head = h.queue_head + 1 })

-- The loop of `unlockfileWithSession`: the first request that is not null, if there is one. The
-- number bounds the rounds; there are `queueTail - queueHead` of them at most.
unfoldable pub next_owner : ℕ → HashEntry → Option Request × HashEntry
unfolding advance
next_owner zero h = (none, h)
next_owner (suc n) h =
    let rest = next_owner n (advance h) in
    let go : Option Request × HashEntry = elim (waiting_at h h.queue_head) [
      | none ↦ rest
      | some r ↦ (some r, advance h)
    ] in
    if h.queue_tail == h.queue_head then (none, h) else go

-- The loop of `remove_hashEntry_ref`: all the requests that are not null, in order.
unfoldable pub drain : ℕ → HashEntry → List Request
unfolding advance
drain zero h = []
drain (suc n) h =
    let rest = drain n (advance h) in
    let go : List Request = elim (waiting_at h h.queue_head) [ none ↦ rest | some r ↦ r ∷ rest ] in
    if h.queue_tail == h.queue_head then [] else go
