-- ===== src/Queue.antt =====
-- src/server/src/intqueue.c and requestqueue.c: the two blocking queues, which differ in the type of an
-- item and in the size. One call is one step, since it holds the queue's lock; the wait of a call on
-- a condition is the call not being possible yet.
pub mod Fifo
mod Tests
use progetto_sistemi_operati.Base.{
  ℕ, zero, suc, ◌+◌, ◌-◌, ◌%◌, ◌≡◌, List, [], ◌∷◌, ◌++◌, Bool, true, false, Option, none, some,
  get_or, set, replicate, ◌==◌, leb, if◌then◌else◌,
}
use progetto_sistemi_operati.Files.Waiting.{Request}

-- `closed` is set at the server's end.
pub record Queue (A : Type 0) : Type 0 where
  pub items : List A
  pub head : ℕ
  pub tail : ℕ
  pub closed : Bool

-- The number of slots, and what stands in them before the first item.
module _ {A : Type 0} (size : ℕ) (blank : A) where
  unfoldable pub init_queue : Queue A
  init_queue = record { items = replicate size blank; head = 0; tail = 0; closed = false }

  -- The insertion, and the state after it; without space the caller waits (`none`).
  unfoldable pub insert_queue : A → Queue A → Option (Queue A)
  insert_queue item q =
      if q.tail - q.head == size
      then none
      else some (record q { items = set q.items (q.tail % size) item; tail = q.tail + 1 })

  -- `head++`, and the step back of both indices at the end of the array
  unfoldable pub pop_head : Queue A → Queue A
  pop_head q =
      if leb size (q.head + 1)
      then (record q { head = q.head + 1 - size; tail = q.tail - size })
      else (record q { head = q.head + 1 })

  -- The item, which is null once the queue is closed; on an empty queue the caller waits (`none`).
  unfoldable pub remove_queue : Queue A → Option (Option A × Queue A)
  unfolding pop_head
  remove_queue q =
      if q.closed
      then some (none, q)
      else if q.head == q.tail
      then none
      else some (some (get_or q.items (q.head % size) blank), pop_head q)

-- The wait for an empty queue is over.
unfoldable pub is_empty : {A : Type 0} → Queue A → Bool
is_empty q = q.tail == q.head

unfoldable pub close_queue : {A : Type 0} → Queue A → Queue A
close_queue q = record q { closed = true }

-- The int queue of the descriptors that are ready, and the queue of the clients to notify.
abbrev pub int_queue_size : ℕ
int_queue_size = 500

abbrev pub request_queue_size : ℕ
request_queue_size = 100

-- `free_request_queue`: the requests that its loop frees. It indexes without the remainder, so that a
-- read behind the array gives whatever is there, `beyond`.
unfoldable pub freed_requests : ℕ → (ℕ → Request) → Queue Request → List Request
freed_requests zero beyond q = []
freed_requests (suc n) beyond q =
    let rest = freed_requests n beyond (record q { head = q.head + 1 }) in
    if q.tail == q.head then [] else get_or q.items q.head (beyond q.head) ∷ rest
