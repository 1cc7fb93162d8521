-- ===== src/Threads/Steps.antt =====
-- The steps of the threads of main.c and worker.c, which interleave in any order.
use progetto_sistemi_operati.Base.{
  ℕ, suc, ◌≤◌, ◌<◌, ◌≡◌, ◌≢◌, List, [], ◌∷◌, Bool, true, false, Option, none, some, ok, max,
}
use progetto_sistemi_operati.Base.Int.{pos}
use progetto_sistemi_operati.Caching.Config.{Config}
use progetto_sistemi_operati.Files.Waiting.{Request}
use progetto_sistemi_operati.Files.State.{Server}
use progetto_sistemi_operati.Queue.{Queue, int_queue_size, init_queue, remove_queue, close_queue}
use progetto_sistemi_operati.Service.{Result, pending}
use progetto_sistemi_operati.Service.Body.{worker_body}
use progetto_sistemi_operati.Wire.Streams.{Event}
use progetto_sistemi_operati.Wire.Arrival.{Arrival, read_request}
use progetto_sistemi_operati.Threads.Counts.{erase, assign}
use progetto_sistemi_operati.Threads.State.{
  System, Worker, idle, serving, handling, returning, reporting, is_open, fd_set, write_to_pipe,
}
use progetto_sistemi_operati.Threads.Select.{handle_message, pass_on, may_leave}
use progetto_sistemi_operati.Threads.Workers.{after_read, after_body}

abbrev pub set_scan : Option ((ℕ → Bool) × ℕ) → System → System
set_scan scan s = record s { select = record s.select { scan = scan } }

abbrev pub set_worker : ℕ → Worker → System → System
set_worker i w s = record s { workers = assign s.workers i w }

-- The client of a request that is left pending.
abbrev pub still_waiting : Result → ℕ → List ℕ → List ℕ
still_waiting pending fd fds = fd ∷ fds
still_waiting Result.refused fd fds = fds
still_waiting Result.answered fd fds = fds
still_waiting Result.kept fd fds = fds

-- The configuration, the number of sessions and of workers, the two ends of the pipe, and the open
-- descriptors that are no clients.
module _ (cfg : Config) (limit n_threads pipe_read pipe_write : ℕ) (others : ℕ → Bool) where
  -- What `select` may report: members of the set, the read end of the pipe only if it holds a message,
  -- and never the write end.
  pub record Ready (s : System) (ready : ℕ → Bool) : Type 0 where
    pub members : (fd : ℕ) → ready fd ≡ true → s.select.set fd ≡ true
    pub readable : ready pipe_read ≡ true → s.pipe ≢ []
    pub not_writing : ready pipe_write ≡ false

  pub data Step : System → System → Type 0 where
    -- The loop of `main`: `accept` gives a descriptor that is not open; afterwards it is announced.
    accepts :
        (s : System) (conn : ℕ)
        → s.running ≡ true
        → s.accepted ≡ none
        → is_open others s conn ≡ false
        → Step s (record s { clients = conn ∷ s.clients; accepted = some conn })
    announces :
        (s : System) (conn : ℕ)
        → s.accepted ≡ some conn
        → Step s (write_to_pipe 2 conn (record s { accepted = none }))
    -- A signal ends that loop, and the select thread is told.
    stops :
        (s : System) (sighup : Bool)
        → s.running ≡ true
        → s.accepted ≡ none
        → Step s (write_to_pipe 3 0 (record s { running = false; sighup_received = sighup }))
    -- `thread_select`: a round begins, comes to the next descriptor, and ends.
    wakes :
        (s : System) (ready : ℕ → Bool)
        → s.select.scan ≡ none
        → may_leave s ≡ false
        → Ready s ready
        → Step s (set_scan (some (ready, 0)) s)
    skips :
        (s : System) (ready : ℕ → Bool) (fd : ℕ)
        → s.select.scan ≡ some (ready, fd)
        → fd ≤ s.select.max_fds
        → ready fd ≡ false
        → Step s (set_scan (some (ready, suc fd)) s)
    passes :
        (s t : System) (ready : ℕ → Bool) (fd : ℕ)
        → s.select.scan ≡ some (ready, fd)
        → fd ≤ s.select.max_fds
        → ready fd ≡ true
        → fd ≢ pipe_read
        → pass_on (is_open others s) fd s ≡ some t
        → Step s (set_scan (some (ready, suc fd)) t)
    obeys :
        (s t : System) (ready : ℕ → Bool) (kind fd : ℕ) (rest : List (ℕ × ℕ))
        → s.select.scan ≡ some (ready, pipe_read)
        → pipe_read ≤ s.select.max_fds
        → ready pipe_read ≡ true
        → s.pipe ≡ (kind, fd) ∷ rest
        → handle_message limit kind fd (record s { pipe = rest }) ≡ ok t
        → Step s (set_scan (some (ready, suc pipe_read)) t)
    read_fails :
        (s : System) (ready : ℕ → Bool)
        → s.select.scan ≡ some (ready, pipe_read)
        → pipe_read ≤ s.select.max_fds
        → Step s (set_scan (some (ready, suc pipe_read)) s)
    ends_round :
        (s : System) (ready : ℕ → Bool) (fd : ℕ)
        → s.select.scan ≡ some (ready, fd)
        → s.select.max_fds < fd
        → Step s (set_scan none s)
    -- Worker `i`: it takes a descriptor, reads the request, serves it, returns from that and reports.
    -- Behind `serves`, other threads may have seen what it has done before it returns.
    takes :
        (s : System) (i fd : ℕ) (q : Queue ℕ)
        → i < n_threads
        → s.workers i ≡ idle
        → remove_queue int_queue_size 0 s.queue ≡ some (some fd, q)
        → Step s (set_worker i (serving fd) (record s { queue = q }))
    reads :
        (s : System) (i fd : ℕ) (stream : List ℕ) (es es' : List Event) (a : Arrival) (w : Worker)
        → i < n_threads
        → s.workers i ≡ serving fd
        → read_request stream es es' ≡ ok a
        → after_read fd a ≡ ok w
        → Step s (set_worker i w s)
    serves :
        (s : System) (i fd junk : ℕ) (r : Request) (rand : List ℕ) (result : Result)
        (sent : Option (List ℕ)) (server : Server)
        → i < n_threads
        → s.workers i ≡ handling fd r
        → worker_body cfg rand junk r s.server ≡ ok (result, sent, server)
        → Step s (
            set_worker i
              (returning fd result)
              (record s { server = server; pending = still_waiting result r.client s.pending }))
    returns :
        (s : System) (i fd : ℕ) (result : Result)
        → i < n_threads
        → s.workers i ≡ returning fd result
        → Step s (set_worker i (after_body fd result) s)
    reports :
        (s : System) (i kind fd : ℕ)
        → i < n_threads
        → s.workers i ≡ reporting kind fd
        → Step s (set_worker i idle (write_to_pipe kind fd s))
    -- `worker_notify` takes a request out of its queue, and tells the select thread when it has
    -- answered.
    notifies :
        (s : System) (r : Request) (rest : List Request)
        → s.notifying ≡ none
        → s.server.clients_to_notify ≡ r ∷ rest
        → Step s (record s {
          server = record s.server { clients_to_notify = rest };
          pending = erase r.client s.pending;
          notifying = some r;
        })
    answers :
        (s : System) (r : Request)
        → s.notifying ≡ some r
        → Step s (write_to_pipe 1 r.client (record s { notifying = none }))
    -- `main` closes the queue when the select thread has ended.
    closes : (s : System) → Step s (record s { queue = close_queue s.queue })

-- What `main` sets up before it starts the threads; the listening socket counts for the first maximum.
unfoldable pub init_system : ℕ → ℕ → ℕ → Server → System
unfolding init_queue
init_system sockfd pipe_read pipe_write server = record {
  server = server;
  clients = [];
  select = record {
    set = fd_set pipe_write (fd_set pipe_read (λ fd. false));
    max_fds = max sockfd (max pipe_read pipe_write);
    clients_connected = pos 0;
    max_clients_connected = pos 0;
    select_exit = false;
    scan = none;
  };
  queue = init_queue int_queue_size 0;
  pipe = [];
  running = true;
  sighup_received = false;
  accepted = none;
  workers = λ i. idle;
  notifying = none;
  pending = [];
}
