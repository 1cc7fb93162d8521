-- ===== src/Threads/Reachable.antt =====
-- What holds in every state that the threads of main.c and worker.c can come to.
use progetto_sistemi_operati.Base.{
  ℕ, ◌+◌, ◌<◌, ◌≡◌, ◌⊎◌, inl, inr, refl, ap, [], Bool, true, false, none, some, length, ltb,
  Bool-cases, arith, ok, ◌∙◌,
}
use progetto_sistemi_operati.Base.Int.{pos}
use progetto_sistemi_operati.Caching.Config.{Config}
use progetto_sistemi_operati.Files.State.{Server}
use progetto_sistemi_operati.Queue.{int_queue_size}
use progetto_sistemi_operati.Queue.Fifo.{queued, init_queue-IsValid}
use progetto_sistemi_operati.Wire.Arrival.{read_request-short}
use progetto_sistemi_operati.Threads.Counts.{count, total-zero, total-distinct, weight-le-total}
use progetto_sistemi_operati.Threads.State.{System, idle}
use progetto_sistemi_operati.Threads.Select.{may_leave}
use progetto_sistemi_operati.Threads.Steps.{
  Step, accepts, announces, stops, wakes, skips, passes, obeys, read_fails, ends_round, takes,
  reads, serves, returns, reports, notifies, answers, closes, init_system,
}
use progetto_sistemi_operati.Threads.Owned.{Inv, Owned, Watched, held, tokens, announced, newcomer}
use progetto_sistemi_operati.Threads.Waiting.{Waits, notified-pending, Step-Waits, start-Waits}
use progetto_sistemi_operati.Threads.Owned.Clients.{accepts-Inv, announces-Inv, stops-Inv}
use progetto_sistemi_operati.Threads.Owned.Rounds.{
  set_scan-Inv, wakes-Scanned, rest-Scanned, passes-Inv,
}
use progetto_sistemi_operati.Threads.Owned.Messages.{obeys-Inv}
use progetto_sistemi_operati.Threads.Owned.Work.{
  takes-Inv, reads-Inv, serves-Inv, returns-Inv, reports-Inv, notifies-Inv, answers-Inv, closes-Inv,
}

lt_cases : (i j : ℕ) → ((i < j) ⊎ (j < i)) ⊎ (i ≡ j)
lt_cases i j = elim (Bool-cases (ltb i j)) [
  | inl below ↦ inl (inl (ground arith))
  | inr other ↦ elim (Bool-cases (ltb j i)) [
    | inl above ↦ inl (inr (ground arith))
    | inr neither ↦ inr (ground arith)
  ]
]

module _ (cfg : Config) (limit n pipe_read pipe_write sockfd : ℕ) (others : ℕ → Bool)
    (server : Server) where
  pub data Reach : System → Type 0 where
    start : Reach (init_system sockfd pipe_read pipe_write server)
    later : {s t : System} → Reach s → Step cfg limit n pipe_read pipe_write others s t → Reach t

  Step-Inv :
      {s t : System}
      → Step cfg limit n pipe_read pipe_write others s t
      → Waits s
      → Inv n pipe_read pipe_write others s
      → Inv n pipe_read pipe_write others t
  Step-Inv (accepts s conn run free closed) w inv =
      accepts-Inv n pipe_read pipe_write others inv conn free closed
  Step-Inv (announces s conn e) w inv = announces-Inv n pipe_read pipe_write others inv conn e
  Step-Inv (stops s sighup run free) w inv = stops-Inv n pipe_read pipe_write others inv sighup
  Step-Inv (wakes s ready top stay r) w inv =
      set_scan-Inv n pipe_read pipe_write others inv (some (ready, 0))
        (wakes-Scanned n pipe_read pipe_write others inv ready r.members r.not_writing)
  Step-Inv (skips s ready fd at le e) w inv =
      set_scan-Inv n pipe_read pipe_write others inv _
        (rest-Scanned n pipe_read pipe_write others inv ready fd at)
  Step-Inv (passes s t ready fd at le e ne passed) w inv =
      passes-Inv n pipe_read pipe_write others inv t ready fd at e ne passed
  Step-Inv (obeys s t ready kind fd rest at le e read done) w inv =
      obeys-Inv n pipe_read pipe_write others inv ready kind fd rest at read limit t done
  Step-Inv (read_fails s ready at le) w inv =
      set_scan-Inv n pipe_read pipe_write others inv _
        (rest-Scanned n pipe_read pipe_write others inv ready pipe_read at)
  Step-Inv (ends_round s ready fd at beyond) w inv =
      set_scan-Inv n pipe_read pipe_write others inv none tt
  Step-Inv (takes s i fd q h e removed) w inv =
      takes-Inv n pipe_read pipe_write others inv i fd q h e removed
  Step-Inv (reads s i fd stream es es' a next h e arrived turned) w inv =
      reads-Inv n pipe_read pipe_write others inv i fd a next h e
        (λ same. read_request-short stream es es' (arrived ∙ ap ok same)) turned
  Step-Inv (serves s i fd junk r rand result sent srv h e done) w inv =
      serves-Inv n pipe_read pipe_write others inv i fd r result srv h e
  Step-Inv (returns s i fd result h e) w inv =
      returns-Inv n pipe_read pipe_write others inv i fd result h e
  Step-Inv (reports s i kind fd h e) w inv =
      reports-Inv n pipe_read pipe_write others inv i kind fd h e
  Step-Inv (notifies s r rest free queued) w inv =
      notifies-Inv n pipe_read pipe_write others inv r _ free (notified-pending s r rest w queued)
  Step-Inv (answers s r e) w inv = answers-Inv n pipe_read pipe_write others inv r e
  Step-Inv (closes s) w inv = closes-Inv n pipe_read pipe_write others inv

  module _ (reads_pipe : others pipe_read ≡ true) (writes_pipe : others pipe_write ≡ true)
      (empty : (i : ℕ) → server.table i ≡ []) (nobody : server.clients_to_notify ≡ []) where
    init_system-Inv :
        Inv n pipe_read pipe_write others (init_system sockfd pipe_read pipe_write server)
    unfolding init_system count tokens announced
    init_system-Inv =
        let some_room : 0 < int_queue_size = omega arith in
        let (valid, empty) = init_queue-IsValid {A = ℕ} int_queue_size 0 some_room in
        record {
          places = record {
            owned = λ fd.
                ground (arith, total-zero (held fd) n (λ i. idle) (λ i. refl), ap (count fd) empty);
            single = λ fd. omega arith;
            apart = λ fd e. refl;
          };
          watch = record {
            bounded = λ fd m. ground arith;
            pipe_ends = λ fd m o. ground arith;
            scanned = tt;
            counted = refl;
          };
          ring = valid;
          agreed = λ i. tt;
        }

    -- In every state that the threads can reach from the start, the queues of the table are well
    -- formed, and they and the queue of the notifier hold together no more requests of a client
    -- than the times that it has been left pending and the notifier has not taken its request
    -- since. At the start the ends of the pipe are taken to be open and the table of files and
    -- the queue of the notifier to be empty.
    pub Reach-Waits : {s : System} → Reach s → Waits s
    unfolding init_system count
    Reach-Waits start =
        let (valid, none_kept) = start-Waits server empty nobody in
        (valid, λ c. omega (arith, none_kept c))
    Reach-Waits (later r st) = Step-Waits cfg limit n pipe_read pipe_write others st (Reach-Waits r)

    Reach-Inv : {s : System} → Reach s → Inv n pipe_read pipe_write others s
    Reach-Inv start = init_system-Inv
    Reach-Inv (later r st) = Step-Inv st (Reach-Waits r) (Reach-Inv r)

    -- In every state that the threads can reach from the start, an open connection is in exactly
    -- one place: the set of the select thread, the queue of requests, the hands of a worker, of
    -- main or of the notifier, a message of kind 0, 1 or 2 in the pipe, or the clients that wait;
    -- a descriptor that is not an open connection is in none. At the start the ends of the pipe
    -- are taken to be open and the table of files and the queue of the notifier to be empty.
    pub Reach-Owned : {s : System} → Reach s → Owned n pipe_read pipe_write others s
    Reach-Owned r = (Reach-Inv r).places

    -- In every state that the threads can reach from the start, no member of the select thread's
    -- set is above the highest descriptor that it looks at, what is left of its round are clients
    -- in the set, and its counter is the number of open connections but for those whose message
    -- of kind 2 it has not read. At the start the ends of the pipe are taken to be open and the
    -- table of files and the queue of the notifier to be empty.
    pub Reach-Watched :
        {s : System}
        → Reach s
        → Watched n pipe_read pipe_write others s.select
            (newcomer s.accepted + announced s.pipe)
            (length s.clients)
    Reach-Watched r = (Reach-Inv r).watch

    -- In every state that the threads can reach from the start, if two workers have the same
    -- client, they are one worker; the client is then not in the set of the select thread, and
    -- neither in the queue of requests nor waiting for a lock. At the start the ends of the pipe
    -- are taken to be open and the table of files and the queue of the notifier to be empty.
    pub served_once :
        {s : System} (fd i j : ℕ)
        → Reach s
        → i < n
        → j < n
        → 0 < held fd (s.workers i)
        → 0 < held fd (s.workers j)
        → (i ≡ j)
          × (s.select.set fd ≡ false)
          × (count fd (queued int_queue_size 0 s.queue) ≡ 0)
          × (count fd s.pending ≡ 0)
    served_once {s} fd i j r hi hj wi wj =
        let owned = places.owned fd in
        let single = places.single fd in
        let apart = places.apart fd in
        let some_i = weight-le-total (held fd) n s.workers i hi in
        (
          elim (lt_cases i j) [
            | inl (inl below) ↦
                absurd
                  (omega (arith, owned, single, total-distinct (held fd) n s.workers j i hj below))
            | inl (inr above) ↦
                absurd
                  (omega (arith, owned, single, total-distinct (held fd) n s.workers i j hi above))
            | inr same ↦ same
          ],
          ground (arith, owned, single, some_i, apart),
          omega (arith, owned, single, some_i),
          omega (arith, owned, single, some_i),
        )
      where
        places : Owned n pipe_read pipe_write others s
        places = Reach-Owned r

    -- In every state that the threads can reach from the start, if SIGHUP has been received and
    -- the select thread may leave its loop, then its counter is 0 and all open connections are
    -- those that it has not been told of yet. At the start the ends of the pipe are taken to be
    -- open and the table of files and the queue of the notifier to be empty.
    pub soft_exit :
        {s : System}
        → Reach s
        → s.sighup_received ≡ true
        → may_leave s ≡ true
        → (s.select.clients_connected ≡ pos 0)
          × (newcomer s.accepted + announced s.pipe ≡ length s.clients)
    unfolding may_leave
    soft_exit {s} r soft leaves =
        let zero : s.select.clients_connected ≡ pos 0 = ground arith in
        (zero, ground (arith, (Reach-Inv r).watch.counted, zero))
