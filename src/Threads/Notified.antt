-- ===== src/Threads/Notified.antt =====
-- Client 3 creates a file with its lock, client 4 asks for that lock and waits, and client 3 unlocks the
-- file: the notifier takes the request of client 4.
use progetto_sistemi_operati.Base.{
  ℕ, ◌≡◌, refl, List, [], ◌∷◌, none, str_eq, ok, Option, Outcome, fault, exited, stuck,
}
use progetto_sistemi_operati.Caching.Fifo.{handle_insertion_fifo, handle_usage_fifo}
use progetto_sistemi_operati.Caching.Policy.{handle_insertion, handle_usage}
use progetto_sistemi_operati.Session.{init_session}
use progetto_sistemi_operati.Files.Entry.{bucket_of, pathname}
use progetto_sistemi_operati.Files.Waiting.{Request}
use progetto_sistemi_operati.Files.State.{Server, set_session}
use progetto_sistemi_operati.Files.Samples.{config}
use progetto_sistemi_operati.Service.{Result, refused, answered, pending}
use progetto_sistemi_operati.Service.Body.{worker_body}
use progetto_sistemi_operati.Threads.Tests.{empty_server}

-- What the server parses: an operation on the path with flags.
abbrev request_of : ℕ → ℕ → ℕ → Request
request_of kind flags fd = record {
  kind = kind;
  flags = flags;
  client = fd;
  file = record {
    buf = kind ∷ 1 ∷ 0 ∷ 0 ∷ 0 ∷ b'a' ∷ 0 ∷ 0 ∷ 0 ∷ 0 ∷ 0 ∷ 0 ∷ 0 ∷ 0 ∷ 0 ∷ [];
    content_at = 11;
    pathname_at = 5;
    content_length = 0;
    pathlen = 1;
    owner = none;
  };
}

abbrev Answer : Type 0
Answer = Result × Option (List ℕ) × Server

abbrev answer_of : Outcome Answer → Answer
answer_of (ok a) = a
answer_of fault = (refused, none, empty_server)
answer_of exited = (refused, none, empty_server)
answer_of stuck = (refused, none, empty_server)

-- The server with the sessions of both clients, and what the three requests make of it.
abbrev connected : Server
connected =
    let s = set_session 3 (init_session (empty_server.sessions 3)) empty_server in
    set_session 4 (init_session (s.sessions 4)) s

abbrev created : Answer
created = answer_of (worker_body config [] 0 (request_of b'o' 3 3) connected)

abbrev asked_for : Answer
asked_for = answer_of (worker_body config [] 0 (request_of b'o' 2 4) created.2)

abbrev unlocked : Answer
unlocked = answer_of (worker_body config [] 0 (request_of b'u' 0 3) asked_for.2)

creates :
    worker_body config [] 0 (request_of b'o' 3 3) connected ≡ ok (answered, created.1, created.2)
unfolding worker_body handle_insertion handle_insertion_fifo handle_usage handle_usage_fifo
    bucket_of pathname str_eq init_session
creates = refl

asks :
    worker_body config [] 0 (request_of b'o' 2 4) created.2 ≡ ok (pending, asked_for.1, asked_for.2)
unfolding worker_body handle_insertion handle_insertion_fifo handle_usage handle_usage_fifo
    bucket_of pathname str_eq init_session
asks = refl

unlocks :
    worker_body config [] 0 (request_of b'u' 0 3) asked_for.2
    ≡ ok (answered, unlocked.1, unlocked.2)
unfolding worker_body handle_insertion handle_insertion_fifo handle_usage handle_usage_fifo
    bucket_of pathname str_eq init_session
unlocks = refl

four_is_next : unlocked.2.clients_to_notify ≡ request_of b'o' 2 4 ∷ []
unfolding worker_body handle_insertion handle_insertion_fifo handle_usage handle_usage_fifo
    bucket_of pathname str_eq init_session
four_is_next = refl
