-- ===== src/Api/Notified.antt =====
-- lockFile of src/api/src/api.c, for a client that has to wait: worker_notify of
-- src/server/src/worker.c answers when the file is unlocked, and the client reads that.
use mathlib.Core.Option
use progetto_sistemi_operati.Base.{
  ℕ, ◌+◌, ◌^◌, ◌-◌, ◌≤◌, ◌≡◌, refl, ap, ap₂, subst, All, ◌++◌, ◌∙◌, List, [], ◌∷◌, Bool, true,
  false, Option, some, length, arith, ok,
}
use progetto_sistemi_operati.Session.{Session}
use progetto_sistemi_operati.Files.Waiting.{Request, HashEntry}
use progetto_sistemi_operati.Files.Waiting.Fifo.{IsValid, present, queued, take_first, waiters}
use progetto_sistemi_operati.Files.State.{Server, get_hash_entry_ref}
use progetto_sistemi_operati.Files.Locks.{
  done, is_owner, remove_hash_entry_ref, unlockfile_with_session,
}
use progetto_sistemi_operati.Files.Locks.Abstract.{Lock, HasLock, lock_of, release}
use progetto_sistemi_operati.Files.Locks.Refine.{unlockfile_with_session-release}
use progetto_sistemi_operati.Files.Locks.Waiters.{Told, remove_hash_entry_ref-Told}
use progetto_sistemi_operati.Files.Locks.Given.{unlockfile_with_session-Told}
use progetto_sistemi_operati.Service.Notifier.{answer_client}
use progetto_sistemi_operati.Settings.{codes}
use progetto_sistemi_operati.Wire.Ints.{serialize_int}
use progetto_sistemi_operati.Wire.Streams.{Event, count, ping_ok, ping_ko, Moving}
use progetto_sistemi_operati.Wire.Requests.{write_message}
use progetto_sistemi_operati.Wire.Arrival.{length-payload}
use progetto_sistemi_operati.Wire.Replies.{Reply, consent, server_error, sent_for, Sendable}
use progetto_sistemi_operati.Api.{set_last_api_call, is_read, error_of}
use progetto_sistemi_operati.Api.Calls.{simple_api, api_lock_file}
use progetto_sistemi_operati.Api.Laws.{writen-all, exchange-Answered}
use progetto_sistemi_operati.Api.Served.{Calls, Suffice, link_to}

-- The notifier's two answers, and the error that the client's library notes.
abbrev answer_for : Bool → Reply
answer_for true = consent
answer_for false = server_error 2

abbrev error_for : Bool → ℕ
error_for true = 0
error_for false = 2

length-sent_for : (status : Bool) → length (sent_for (answer_for status)) ≡ 4
unfolding serialize_int
length-sent_for true = refl
length-sent_for false = refl

answer_client-sent_for :
    (client : Session) (status : Bool) (es : List Event)
    → client.op_status ≡ status
    → Moving es
    → 4 ≤ length es
    → answer_client client es ≡ ok (count 4, sent_for (answer_for status))
unfolding answer_client ping_ok ping_ko
answer_client-sent_for client true es e moving calls =
    rw e (writen-all [] (serialize_int 0) es moving (omega (arith, length-sent_for true)))
    ∙ ap (λ n. ok (count n, serialize_int 0)) (length-sent_for true)
answer_client-sent_for client false es e moving calls =
    rw e
      (writen-all [] (serialize_int (2 ^ 32 - 2)) es moving (omega (arith, length-sent_for false)))
    ∙ ap (λ n. ok (count n, serialize_int (2 ^ 32 - 2))) (length-sent_for false)

length-lock_message : (path : List ℕ) → length (write_message b'l' path [] 0) ≡ 18 + length path
unfolding write_message serialize_int
length-lock_message path = omega (arith, length-payload b'l' path [] 0)

api_lock_file-sent_for :
    (last : ℕ) (path : List ℕ) (status : Bool) (calls : Calls)
    → Suffice (18 + length path) calls
    → api_lock_file last (some path) (link_to (sent_for (answer_for status)) calls)
      ≡ ok (status, [], set_last_api_call (codes "lockFile") status path (error_for status))
unfolding api_lock_file simple_api
api_lock_file-sent_for last path status calls (header, body, writing, answer_header, answer_body) =
    rw
      (exchange-Answered b'l' path [] 0 (answer_for status)
        (link_to (sent_for (answer_for status)) calls) (sendable status)
        (
          refl,
          (writing.0, omega (arith, writing.1, length-lock_message path)),
          answer_header,
          (answer_body.0, omega (arith, answer_body.1, length-sent_for status)),
        ))
      (ap₂ (λ b n. ok (b, [], set_last_api_call (codes "lockFile") b path n)) (reads status)
        (errs status))
  where
    sendable : (b : Bool) → Sendable (answer_for b)
    sendable true = tt
    sendable false = (omega arith, omega arith)

    reads : (b : Bool) → is_read (answer_for b) ≡ b
    reads true = refl
    reads false = refl

    errs : (b : Bool) → error_of (answer_for b) ≡ error_for b
    errs true = refl
    errs false = refl

release-next :
    (fd : ℕ) (l : Lock) (r : Request) {rest : List (Option Request)}
    → is_owner l.owner fd ≡ true
    → take_first l.queue ≡ (some r, rest)
    → release fd l ≡ (done, some r, record { owner = some r.client; queue = rest })
unfolding release
release-next fd l r own first =
    rw own
      (ap (λ t. (done, t.0, record { owner = Option.map (λ q. q.client) t.0; queue = t.1 })) first)

-- The owner of a lock, whose queue is well formed, unlocks it, and there is a request that waits.
-- Then the lock is the one's who has waited longest, the request is put behind the clients to
-- notify, the notifier writes an answer to its client, and lockFile of that client, which has
-- written its request and reads that answer, succeeds, if the calls of read and write move bytes
-- and are enough.
pub api_lock_file-unlockfile_with_session :
    (fd i : ℕ) (s : Server) (path : List ℕ) (index : ℕ) {h : HashEntry} (r : Request)
    {rest : List (Option Request)} (last : ℕ) (es : List Event) (calls : Calls)
    → get_hash_entry_ref s path index ≡ some h
    → IsValid h
    → is_owner (s.heap h.file).owner fd ≡ true
    → take_first (queued h) ≡ (some r, rest)
    → Moving es
    → 4 ≤ length es
    → Suffice (18 + length path) calls
    → let t = (unlockfile_with_session fd path index i s).1 in
      (t.clients_to_notify ≡ s.clients_to_notify ++ r ∷ [])
      × HasLock t path index (record { owner = some r.client; queue = rest })
      × ((sent : List ℕ) × (answer_client (t.sessions r.client) es ≡ ok (count 4, sent))
          × (api_lock_file last (some path) (link_to sent calls)
              ≡ ok (true, [], set_last_api_call (codes "lockFile") true path 0)))
api_lock_file-unlockfile_with_session fd i s path index {h} r {rest} last es calls e v own first
      moving enough suffice =
    let t = unlockfile_with_session fd path index i s in
    let (result, told, owned) =
      subst
        (λ x.
          (t.0 ≡ x.0)
          × (t.1.clients_to_notify ≡ s.clients_to_notify ++ present (x.1 ∷ []))
          × HasLock t.1 path index x.2)
        (release-next fd (lock_of s h) r own first)
        (unlockfile_with_session-release fd i s path index e v) in
    (
      told,
      owned,
      (
        sent_for consent,
        answer_client-sent_for (t.1.sessions r.client) true es
            (unlockfile_with_session-Told fd i s path index r e v own first).0 moving enough,
        api_lock_file-sent_for last path true calls suffice,
      ),
    )

All-at :
    (P : Request → Type 0) (before : List Request) (r : Request) (after : List Request)
    → All P (before ++ r ∷ after)
    → P r
All-at P [] r after (h, rest) = h
All-at P (q ∷ before) r after (h, rest) = All-at P before r after rest

-- A file, whose queue of requests is well formed, is removed from the table. Then all requests
-- that wait for its lock are put behind the clients to notify, the oldest first, the notifier
-- writes an answer to each of their clients, and lockFile of that client, which reads that
-- answer, fails and notes the error 2, if the calls of read and write move bytes and are enough.
pub api_lock_file-remove_hash_entry_ref :
    (s : Server) (path : List ℕ) (index : ℕ) {h : HashEntry} (before : List Request) (r : Request)
    (after : List Request) (last : ℕ) (es : List Event) (calls : Calls)
    → get_hash_entry_ref s path index ≡ some h
    → IsValid h
    → waiters h ≡ before ++ r ∷ after
    → Moving es
    → 4 ≤ length es
    → Suffice (18 + length path) calls
    → let t = remove_hash_entry_ref path index s in
      (t.clients_to_notify ≡ s.clients_to_notify ++ waiters h)
      × ((sent : List ℕ) × (answer_client (t.sessions r.client) es ≡ ok (count 4, sent))
          × (api_lock_file last (some path) (link_to sent calls)
              ≡ ok (false, [], set_last_api_call (codes "lockFile") false path 2)))
api_lock_file-remove_hash_entry_ref s path index before r after last es calls e v waits moving
      enough suffice =
    let t = remove_hash_entry_ref path index s in
    let (told, all, others) = remove_hash_entry_ref-Told s path index e v in
    let own =
      All-at (λ q. Told false t q.client) before r after
        (subst (All (λ q. Told false t q.client)) waits all) in
    (
      told,
      (
        sent_for (server_error 2),
        answer_client-sent_for (t.sessions r.client) false es own.0 moving enough,
        api_lock_file-sent_for last path false calls suffice,
      ),
    )
