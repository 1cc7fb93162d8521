-- ===== src/Threads/Owned/Work.antt =====
-- The turns of worker_start and worker_notify of src/server/src/worker.c keep the invariant.
use progetto_sistemi_operati.Base.{
  Bool, ℕ, ◌+◌, ◌≤◌, ◌<◌, ◌≡◌, ◌≢◌, refl, ap, sym, List, none, some, ◌==◌, Bool-cases, inl, inr,
  arith, ok, >>=-eq-ok, >>=-all, set, ok-injective, ◌∙◌, subst,
}
use progetto_sistemi_operati.Files.Waiting.{Request}
use progetto_sistemi_operati.Files.State.{Server}
use progetto_sistemi_operati.Queue.{Queue, int_queue_size, remove_queue, close_queue}
use progetto_sistemi_operati.Queue.Fifo.{queued, remove_queue-item, close_queue-queued}
use progetto_sistemi_operati.Service.{Result, refused, pending, answered, kept}
use progetto_sistemi_operati.Wire.Arrival.{Arrival, lost, left, short, message}
use progetto_sistemi_operati.Wire.Ints.{int_at}
use progetto_sistemi_operati.Wire.Requests.{new_request}
use progetto_sistemi_operati.Threads.Counts.{
  one, count, count-cons, erase, count-erase, assign, total, total-assign,
}
use progetto_sistemi_operati.Threads.State.{
  System, Worker, idle, serving, handling, returning, reporting, write_to_pipe,
}
use progetto_sistemi_operati.Threads.Workers.{after_read, after_body}
use progetto_sistemi_operati.Threads.Steps.{set_worker, still_waiting}
use progetto_sistemi_operati.Threads.Owned.{
  Inv, held, Agrees, in_set, tokens, just_accepted, notified,
}
use progetto_sistemi_operati.Threads.Owned.Clients.{tokens-snoc, announced-snoc}

new_request-client :
    (msg : List ℕ) (fd : ℕ) (r : Request) → new_request msg fd ≡ ok r → r.client ≡ fd
unfolding new_request
new_request-client msg fd =
    let Ours = λ (r : Request). r.client ≡ fd in
    >>=-all Ours (int_at msg 1) _ λ pathlen.
      >>=-all Ours (int_at (set msg (5 + pathlen) 0) (6 + pathlen)) _ λ n.
        >>=-all Ours (int_at (set msg (5 + pathlen) 0) (10 + pathlen + n)) _
          λ flags r e. ap (λ (q : Request). q.client) (sym (ok-injective e))

-- A worker has read: it still has the descriptor.
after_read-held :
    (fd : ℕ) (a : Arrival) (w : Worker)
    → a ≢ short
    → after_read fd a ≡ ok w
    → ((c : ℕ) → held c w ≡ one c fd) × Agrees w
unfolding after_read
after_read-held fd short w ne e = absurd (ne refl)
after_read-held fd lost w ne e =
    subst (λ v. ((c : ℕ) → held c v ≡ one c fd) × Agrees v) (ok-injective e)
      (λ c. refl, omega arith)
after_read-held fd left w ne e =
    subst (λ v. ((c : ℕ) → held c v ≡ one c fd) × Agrees v) (ok-injective e)
      (λ c. refl, omega arith)
after_read-held fd (message msg) w ne e =
    let (r, parsed, same) = >>=-eq-ok (new_request msg fd) (λ r. ok (handling fd r)) e in
    subst (λ v. ((c : ℕ) → held c v ≡ one c fd) × Agrees v) (ok-injective same)
      (λ c. refl, new_request-client msg fd r parsed)

-- A worker has served a request: it has the descriptor, or the client waits.
held-returning :
    (fd : ℕ) (result : Result) (fds : List ℕ) (c : ℕ)
    → held c (returning fd result) + count c (still_waiting result fd fds) ≡ one c fd + count c fds
held-returning fd refused fds c = refl
held-returning fd pending fds c = omega (arith, count-cons c fd fds)
held-returning fd answered fds c = refl
held-returning fd kept fds c = refl

held-after_body :
    (fd : ℕ) (result : Result) (c : ℕ)
    → held c (after_body fd result) ≡ held c (returning fd result)
unfolding after_body
held-after_body fd refused c = refl
held-after_body fd pending c = refl
held-after_body fd answered c = refl
held-after_body fd kept c = refl

after_body-Agrees : (fd : ℕ) (result : Result) → Agrees (after_body fd result)
unfolding after_body
after_body-Agrees fd refused = omega arith
after_body-Agrees fd pending = tt
after_body-Agrees fd answered = omega arith
after_body-Agrees fd kept = omega arith

Agrees-assign :
    (f : ℕ → Worker) (i : ℕ) (w : Worker)
    → ((j : ℕ) → Agrees (f j))
    → Agrees w
    → (j : ℕ) → Agrees (assign f i w j)
Agrees-assign f i w all new j = elim (Bool-cases (i == j)) [
  | inl same ↦ rw same new
  | inr other ↦ rw other (all j)
]

module _ (n_threads pipe_read pipe_write : ℕ) (others : ℕ → Bool) {s : System}
    (inv : Inv n_threads pipe_read pipe_write others s) where
  open inv use {places, watch, ring, agreed}

  abbrev Good : System → Type 0
  Good t = Inv n_threads pipe_read pipe_write others t

  -- The weights of all workers, when one of them goes on.
  moved :
      (i : ℕ) (w w' : Worker) (c : ℕ)
      → i < n_threads
      → s.workers i ≡ w
      → total (held c) n_threads (assign s.workers i w') + held c w
        ≡ total (held c) n_threads s.workers + held c w'
  moved i w w' c h e =
      ap (λ v. total (held c) n_threads (assign s.workers i w') + held c v) (sym e)
      ∙ total-assign (held c) n_threads s.workers i w' h

  pub takes-Inv :
      (i fd : ℕ) (q : Queue ℕ)
      → i < n_threads
      → s.workers i ≡ idle
      → remove_queue int_queue_size 0 s.queue ≡ some (some fd, q)
      → Good (set_worker i (serving fd) (record s { queue = q }))
  takes-Inv i fd q h e removed =
      let (valid, less) = remove_queue-item int_queue_size 0 fd s.queue q ring removed in
      record {
        places = record {
          owned = λ c.
              let size : count c (queued int_queue_size 0 s.queue)
                  ≡ one c fd + count c (queued int_queue_size 0 q) =
                ap (count c) less ∙ count-cons c fd (queued int_queue_size 0 q) in
              omega (arith, places.owned c, size, moved i idle (serving fd) c h e);
          single = places.single;
          apart = places.apart;
        };
        watch = watch;
        ring = valid;
        agreed = Agrees-assign s.workers i (serving fd) agreed tt;
      }

  pub reads-Inv :
      (i fd : ℕ) (a : Arrival) (w : Worker)
      → i < n_threads
      → s.workers i ≡ serving fd
      → a ≢ short
      → after_read fd a ≡ ok w
      → Good (set_worker i w s)
  reads-Inv i fd a w h e ne turned =
      let (same, agrees) = after_read-held fd a w ne turned in
      record {
        places = record {
          owned = λ c. omega (arith, places.owned c, same c, moved i (serving fd) w c h e);
          single = places.single;
          apart = places.apart;
        };
        watch = watch;
        ring = ring;
        agreed = Agrees-assign s.workers i w agreed agrees;
      }

  pub serves-Inv :
      (i fd : ℕ) (r : Request) (result : Result) (server : Server)
      → i < n_threads
      → s.workers i ≡ handling fd r
      → Good (
          set_worker i
            (returning fd result)
            (record s { server = server; pending = still_waiting result r.client s.pending }))
  serves-Inv i fd r result server h e =
      let own : r.client ≡ fd = subst Agrees e (agreed i) in
      record {
        places = record {
          owned = λ c.
              let kept : held c (returning fd result)
                    + count c (still_waiting result r.client s.pending)
                  ≡ one c fd + count c s.pending =
                rw own (held-returning fd result s.pending c) in
              omega
                (arith, places.owned c, kept, moved i (handling fd r) (returning fd result) c h e);
          single = places.single;
          apart = places.apart;
        };
        watch = watch;
        ring = ring;
        agreed = Agrees-assign s.workers i (returning fd result) agreed tt;
      }

  pub returns-Inv :
      (i fd : ℕ) (result : Result)
      → i < n_threads
      → s.workers i ≡ returning fd result
      → Good (set_worker i (after_body fd result) s)
  returns-Inv i fd result h e = record {
    places = record {
      owned = λ c. omega (
        arith,
        places.owned c,
        held-after_body fd result c,
        moved i (returning fd result) (after_body fd result) c h e,
      );
      single = places.single;
      apart = places.apart;
    };
    watch = watch;
    ring = ring;
    agreed = Agrees-assign s.workers i (after_body fd result) agreed (after_body-Agrees fd result);
  }

  pub reports-Inv :
      (i kind fd : ℕ)
      → i < n_threads
      → s.workers i ≡ reporting kind fd
      → Good (set_worker i idle (write_to_pipe kind fd s))
  unfolding write_to_pipe
  reports-Inv i kind fd h e =
      let low : kind ≤ 1 = subst Agrees e (agreed i) in
      record {
        places = record {
          owned = λ c. omega (
            arith,
            places.owned c,
            tokens-snoc c kind fd s.pipe,
            moved i (reporting kind fd) idle c h e,
          );
          single = places.single;
          apart = places.apart;
        };
        watch = record {
          bounded = watch.bounded;
          pipe_ends = watch.pipe_ends;
          scanned = watch.scanned;
          counted = ground (arith, watch.counted, announced-snoc kind fd s.pipe);
        };
        ring = ring;
        agreed = Agrees-assign s.workers i idle agreed tt;
      }

  pub notifies-Inv :
      (r : Request) (server : Server)
      → s.notifying ≡ none
      → 0 < count r.client s.pending
      → Good (record s { server = server; pending = erase r.client s.pending; notifying = some r })
  notifies-Inv r server e there = record {
    places = record {
      owned = λ c. ground (arith, places.owned c, count-erase c r.client s.pending there);
      single = places.single;
      apart = places.apart;
    };
    watch = watch;
    ring = ring;
    agreed = agreed;
  }

  pub answers-Inv :
      (r : Request)
      → s.notifying ≡ some r
      → Good (write_to_pipe 1 r.client (record s { notifying = none }))
  unfolding write_to_pipe
  answers-Inv r e = record {
    places = record {
      owned = λ c. ground (arith, places.owned c, tokens-snoc c 1 r.client s.pipe);
      single = places.single;
      apart = places.apart;
    };
    watch = record {
      bounded = watch.bounded;
      pipe_ends = watch.pipe_ends;
      scanned = watch.scanned;
      counted = ground (arith, watch.counted, announced-snoc 1 r.client s.pipe);
    };
    ring = ring;
    agreed = agreed;
  }

  pub closes-Inv : Good (record s { queue = close_queue s.queue })
  closes-Inv =
      let (valid, same) = close_queue-queued int_queue_size 0 s.queue ring in
      record {
        places = record {
          owned = λ c.
              places.owned c
              ∙ ap
                  (λ q.
                    in_set n_threads pipe_read pipe_write others s.select.set c
                    + (count c q
                        + (total (held c) n_threads s.workers
                            + (tokens c s.pipe
                                + (just_accepted c s.accepted
                                    + (notified c s.notifying + count c s.pending))))))
                  (sym same);
          single = places.single;
          apart = places.apart;
        };
        watch = watch;
        ring = valid;
        agreed = agreed;
      }
