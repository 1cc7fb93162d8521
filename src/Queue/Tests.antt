-- ===== src/Queue/Tests.antt =====
-- A queue of two slots, and the end of the queue of the clients to notify.
use progetto_sistemi_operati.Base.{ℕ, ◌≡◌, refl, ◌∷◌, [], ◌++◌, none, false, arith}
use progetto_sistemi_operati.Files.Waiting.{Request}
use progetto_sistemi_operati.Queue.{
  Queue, init_queue, insert_queue, remove_queue, pop_head, freed_requests,
}
use progetto_sistemi_operati.Queue.Fifo.{IsValid, queued, Run, init, inserts, removes, Run-queued}

abbrev one : Queue ℕ
one = record { items = 7 ∷ 0 ∷ []; head = 0; tail = 1; closed = false }

abbrev emptied : Queue ℕ
emptied = record one { head = 1 }

abbrev run : Run 2 0 (7 ∷ []) (7 ∷ []) emptied
unfolding init_queue insert_queue remove_queue pop_head
run = removes 7 (inserts 7 init refl) refl

Run-queued_example : IsValid 2 0 emptied × (7 ∷ [] ≡ 7 ∷ [] ++ queued 2 0 emptied)
Run-queued_example = Run-queued 2 0 (omega arith) run

abbrev request : ℕ → Request
request n = record {
  kind = 0;
  flags = 0;
  client = n;
  file = record {
    buf = [];
    content_at = 0;
    pathname_at = 0;
    content_length = 0;
    pathlen = 0;
    owner = none;
  };
}

-- The queue holds two requests round the end of the array: the second one that `free_request_queue`
-- frees stands behind the array.
freed_behind :
    freed_requests 2
      (λ i. request 66)
      (record {
        items = request 1 ∷ request 2 ∷ request 3 ∷ [];
        head = 2;
        tail = 4;
        closed = false;
      })
    ≡ request 3 ∷ request 66 ∷ []
unfolding freed_requests
freed_behind = refl
