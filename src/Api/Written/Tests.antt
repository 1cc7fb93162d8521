-- ===== src/Api/Written/Tests.antt =====
-- Client 4 writes two bytes to the file that it has locked, and client 6 reads them.
use progetto_sistemi_operati.Base.{
  ℕ, List, ◌≡◌, refl, [], ◌∷◌, true, none, some, arith, ok, replicate, str_eq, Option, Outcome,
  fault, exited, stuck,
}
use progetto_sistemi_operati.Base.Int.{◌+ℤ◌, ◌-ℤ◌}
use progetto_sistemi_operati.Caching.Fifo.{handle_edit_fifo, handle_usage_fifo}
use progetto_sistemi_operati.Caching.Policy.{handle_edit, handle_usage}
use progetto_sistemi_operati.Session.{is_file_opened}
use progetto_sistemi_operati.Files.Entry.{FileEntry, bucket_of, pathname}
use progetto_sistemi_operati.Files.Waiting.{Request}
use progetto_sistemi_operati.Files.State.{Server, get_file_entry_ref}
use progetto_sistemi_operati.Files.Operations.Content.{filesystem_write_file}
use progetto_sistemi_operati.Files.Operations.Edits.{MayWrite}
use progetto_sistemi_operati.Files.Samples.{path_a, server, config}
use progetto_sistemi_operati.Service.{Result, refused, kept, answered}
use progetto_sistemi_operati.Service.Body.{worker_body}
use progetto_sistemi_operati.Settings.{codes}
use progetto_sistemi_operati.Wire.Ints.{serialize_int}
use progetto_sistemi_operati.Wire.Streams.{moves, readn}
use progetto_sistemi_operati.Wire.Requests.{payload, write_message, new_request}
use progetto_sistemi_operati.Wire.Arrival.{message, read_request}
use progetto_sistemi_operati.Api.{set_last_api_call}
use progetto_sistemi_operati.Api.Calls.{api_read_file}
use progetto_sistemi_operati.Api.Served.{Calls, link_to}
use progetto_sistemi_operati.Api.Written.{api_read_file-written}

abbrev new_bytes : List ℕ
new_bytes = 7 ∷ 8 ∷ []

abbrev calls : Calls
calls = record {
  request_header = replicate 4 (moves 4);
  request_body = replicate 30 (moves 4);
  writing = replicate 30 (moves 4);
  answer_header = replicate 4 (moves 4);
  answer_body = replicate 30 (moves 4);
}

-- The request that the server parses
abbrev sent_file : FileEntry
sent_file = record {
  buf = b'w' ∷ 1 ∷ 0 ∷ 0 ∷ 0 ∷ b'a' ∷ 0 ∷ 2 ∷ 0 ∷ 0 ∷ 0 ∷ 7 ∷ 8 ∷ 0 ∷ 0 ∷ 0 ∷ 0 ∷ [];
  content_at = 11;
  pathname_at = 5;
  content_length = 2;
  pathlen = 1;
  owner = none;
}

abbrev write_request : Request
write_request = record { kind = b'w'; flags = 0; client = 4; file = sent_file }

arrives :
    read_request (write_message b'w' path_a new_bytes 0) calls.request_header calls.request_body
    ≡ ok (message (payload b'w' path_a new_bytes 0))
unfolding read_request readn write_message payload serialize_int
arrives = refl

parses : new_request (payload b'w' path_a new_bytes 0) 4 ≡ ok write_request
unfolding new_request payload serialize_int
parses = refl

may_write : MayWrite server write_request 0 0
unfolding get_file_entry_ref is_file_opened bucket_of pathname str_eq
may_write = ((refl, refl), refl, refl)

abbrev state_of : Outcome (Result × Option (List ℕ) × Server) → Result × Option (List ℕ) × Server
state_of (ok r) = r
state_of fault = (refused, none, server)
state_of exited = (refused, none, server)
state_of stuck = (refused, none, server)

abbrev after_write : Result × Option (List ℕ) × Server
after_write = state_of (worker_body config [] 9 write_request server)

write_returns : worker_body config [] 9 write_request server ≡ ok after_write
unfolding worker_body filesystem_write_file handle_edit bucket_of pathname str_eq handle_edit_fifo
    ◌+ℤ◌ ◌-ℤ◌
write_returns = refl

still_found : get_file_entry_ref after_write.2 path_a (bucket_of path_a) ≡ some 0
unfolding worker_body filesystem_write_file handle_edit bucket_of pathname str_eq handle_edit_fifo
    ◌+ℤ◌ ◌-ℤ◌ get_file_entry_ref
still_found = refl

usage_returns : handle_usage config 0 after_write.2.cache ≡ ok after_write.2.cache
unfolding handle_usage handle_usage_fifo str_eq
usage_returns = refl

api_read_file-written_example :
    (after_write.0 ≡ kept)
    × ((asked : List ℕ) × (q : Request) × (answer : List ℕ) × (read_request
            (write_message b'r' path_a [] 0)
            calls.request_header
            calls.request_body
          ≡ ok (message asked))
        × (new_request asked 6 ≡ ok q)
        × (worker_body config [] 9 q after_write.2
            ≡ ok (answered, some answer, record after_write.2 { cache = after_write.2.cache }))
        × (api_read_file 0 (some path_a) (link_to answer calls)
            ≡ ok (some new_bytes, set_last_api_call (codes "readFile") true path_a 0)))
api_read_file-written_example =
    api_read_file-written config [] 9 4 6 0 server after_write.2 0 0 after_write.2.cache path_a
      new_bytes (payload b'w' path_a new_bytes 0) write_request calls (omega arith, tt)
      (omega arith)
      (
        (tt, omega arith),
        (tt, omega arith),
        (tt, omega arith),
        (tt, omega arith),
        (tt, omega arith),
      )
      arrives parses may_write refl (omega arith) write_returns still_found usage_returns
