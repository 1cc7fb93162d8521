-- ===== src/Threads/Waiting.antt =====
-- Who waits for a lock, in main.c and worker.c: a request that files.c keeps is that of a client who has
-- been left pending.
use progetto_sistemi_operati.Base.{
  Gives-at, ℕ, ◌+◌, ◌≤◌, ◌<◌, ◌≡◌, inl, inr, ap, subst, List, [], ◌∷◌, some, arith, ◌==◌, leb,
  Bool-cases, Option-cases, ok, >>=-eq-ok, ok-injective,
}
use progetto_sistemi_operati.Caching.Config.{Config}
use progetto_sistemi_operati.Files.Entry.{hashtable_size}
use progetto_sistemi_operati.Files.Waiting.{Request}
use progetto_sistemi_operati.Files.State.{Server}
use progetto_sistemi_operati.Files.Operations.Release.{filesystem_handle_connection_closed}
use progetto_sistemi_operati.Files.Asked.{asked, in_bucket, unanswered, AllValid, Keeps}
use progetto_sistemi_operati.Files.Asked.Closing.{filesystem_handle_connection_closed-Keeps}
use progetto_sistemi_operati.Queue.{int_queue_size, insert_queue}
use progetto_sistemi_operati.Service.{Result, refused, pending, answered, kept}
use progetto_sistemi_operati.Service.Asked.{left_pending, worker_body-Grows}
use progetto_sistemi_operati.Threads.Counts.{count, count-cons, erase, count-erase, total-zero}
use progetto_sistemi_operati.Threads.State.{System, is_open, write_to_pipe}
use progetto_sistemi_operati.Threads.Select.{
  passed_on, pass_on, client_gone, connection_closed, restore_client, connection_accepted,
  handle_message,
}
use progetto_sistemi_operati.Threads.Steps.{
  still_waiting, Step, accepts, announces, stops, wakes, skips, passes, obeys, read_fails,
  ends_round, takes, reads, serves, returns, reports, notifies, answers, closes,
}

-- The queues of files.c are well formed, and a client has no more requests in them than times that it
-- has been left pending.
abbrev pub Waits : System → Type 0
Waits s = AllValid s.server × ((c : ℕ) → unanswered c s.server ≤ count c s.pending)

-- The next request for the notifier is that of a client who waits.
pub notified-pending :
    (s : System) (r : Request) (rest : List Request)
    → Waits s
    → s.server.clients_to_notify ≡ r ∷ rest
    → 0 < count r.client s.pending
notified-pending s r rest (valid, known) e = ground (arith, known r.client, ap (asked r.client) e)

notifies-Waits :
    (s : System) (r : Request) (rest : List Request)
    → Waits s
    → s.server.clients_to_notify ≡ r ∷ rest
    → Waits (record s {
      server = record s.server { clients_to_notify = rest };
      pending = erase r.client s.pending;
      notifying = some r;
    })
notifies-Waits s r rest (valid, known) e =
    let there = notified-pending s r rest (valid, known) e in
    (valid, λ c. omega (arith, known c, ap (asked c) e, count-erase c r.client s.pending there))

count-still_waiting :
    (result : Result) (fd : ℕ) (fds : List ℕ) (c : ℕ)
    → count c (still_waiting result fd fds) ≡ count c fds + left_pending result fd c
count-still_waiting refused fd fds c = omega arith
count-still_waiting pending fd fds c = omega (arith, count-cons c fd fds)
count-still_waiting answered fd fds c = omega arith
count-still_waiting kept fd fds c = omega arith

-- What the select thread does leaves the requests and the clients who wait.
handle_message-Waits :
    (limit kind fd : ℕ) (s t : System) → Waits s → handle_message limit kind fd s ≡ ok t → Waits t
unfolding handle_message connection_closed restore_client connection_accepted
handle_message-Waits limit kind fd s t w e = elim (Bool-cases (kind == 0)) [
  | inl closed ↦ elim (Bool-cases (leb limit fd)) [
    | inl beyond ↦ cc (rw (closed, handle_message, connection_closed, beyond) at e)
    | inr inside ↦
        let (srv, done, same) =
          >>=-eq-ok (filesystem_handle_connection_closed fd s.server)
            (λ srv. ok (client_gone fd s srv))
            (rw (closed, handle_message, connection_closed, inside) at e) in
        let keeps =
          Gives-at (Keeps s.server) (filesystem_handle_connection_closed fd s.server)
            (filesystem_handle_connection_closed-Keeps fd s.server) done in
        subst Waits (ok-injective same)
          (keeps.valid w.0, λ c. omega (arith, keeps.bound w.0 c, w.1 c))
  ]
  | inr not_closed ↦ elim (Bool-cases (kind == 1)) [
    | inl restored ↦
        subst Waits (ok-injective (rw (not_closed, restored, handle_message, restore_client) at e))
          w
    | inr not_restored ↦ elim (Bool-cases (kind == 2)) [
      | inl new ↦ elim (Bool-cases (leb limit fd)) [
        | inl beyond ↦
            cc
              (rw (not_closed, not_restored, new, handle_message, connection_accepted, beyond) at e)
        | inr inside ↦
            subst Waits
              (ok-injective (
                rw (not_closed, not_restored, new, handle_message, connection_accepted, inside) at
                  e))
              w
      ]
      | inr old ↦ elim (Bool-cases (kind == 3)) [
        | inl ends ↦
            subst Waits
              (ok-injective (rw (not_closed, not_restored, old, ends, handle_message) at e)) w
        | inr goes_on ↦
            subst Waits
              (ok-injective (rw (not_closed, not_restored, old, goes_on, handle_message) at e)) w
      ]
    ]
  ]
]

pass_on-Waits :
    (open_now : ℕ → _) (fd : ℕ) (s t : System) → Waits s → pass_on open_now fd s ≡ some t → Waits t
unfolding pass_on
pass_on-Waits open_now fd s t w e = elim (Option-cases (insert_queue int_queue_size 0 fd s.queue)) [
  | inl full ↦ cc (rw (full, pass_on) at e)
  | inr (q, inserted) ↦
      let found : some (passed_on open_now fd q s) ≡ some t = rw (inserted, pass_on) at e in
      let same : passed_on open_now fd q s ≡ t = cc in subst Waits same w
]

module _ (cfg : Config) (limit n pipe_read pipe_write : ℕ) (others : ℕ → _) where
  pub Step-Waits :
      {s t : System} → Step cfg limit n pipe_read pipe_write others s t → Waits s → Waits t
  unfolding write_to_pipe
  Step-Waits (accepts s conn run free closed) w = w
  Step-Waits (announces s conn e) w = w
  Step-Waits (stops s sighup run free) w = w
  Step-Waits (wakes s ready top stay r) w = w
  Step-Waits (skips s ready fd at le e) w = w
  Step-Waits (passes s t ready fd at le e ne passed) w =
      pass_on-Waits (is_open others s) fd s t w passed
  Step-Waits (obeys s t ready kind fd rest at le e read done) w =
      handle_message-Waits limit kind fd (record s { pipe = rest }) t w done
  Step-Waits (read_fails s ready at le) w = w
  Step-Waits (ends_round s ready fd at beyond) w = w
  Step-Waits (takes s i fd q h e removed) w = w
  Step-Waits (reads s i fd stream es es' a v h e arrived turned) w = w
  Step-Waits (serves s i fd junk r rand result sent srv h e done) (valid, known) =
      let grows = worker_body-Grows cfg rand junk r s.server srv result sent done in
      (
        grows.valid valid,
        λ c.
            omega (
              arith,
              grows.bound valid c,
              known c,
              count-still_waiting result r.client s.pending c,
            ),
      )
  Step-Waits (returns s i fd result h e) w = w
  Step-Waits (reports s i kind fd h e) w = w
  Step-Waits (notifies s r rest free e) w = notifies-Waits s r rest w e
  Step-Waits (answers s r e) w = w
  Step-Waits (closes s) w = w

-- At the start no request is kept.
pub start-Waits :
    (server : Server)
    → ((i : ℕ) → server.table i ≡ [])
    → server.clients_to_notify ≡ []
    → AllValid server × ((c : ℕ) → unanswered c server ≡ 0)
start-Waits server empty nobody = (
  λ i. rw (empty i) tt,
  λ c. omega (
    arith,
    total-zero (in_bucket c) hashtable_size server.table (λ i. ap (in_bucket c) (empty i)),
    ap (asked c) nobody,
  ),
)
