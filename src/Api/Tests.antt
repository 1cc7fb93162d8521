-- ===== src/Api/Tests.antt =====
-- Reads and locks on the sample table, a connection, and files that are saved.
use progetto_sistemi_operati.Base.{
  ℕ, List, ◌++◌, str_eq, ◌≡◌, refl, List, [], ◌∷◌, true, false, none, some, Bool, replicate, arith,
  ok,
}
use progetto_sistemi_operati.Settings.{codes}
use progetto_sistemi_operati.Wire.Streams.{Event, count, moves}
use progetto_sistemi_operati.Wire.Requests.{write_message}
use progetto_sistemi_operati.Wire.Replies.{Reply, contents, sent_for}
use progetto_sistemi_operati.Api.{Link, set_last_api_call}
use progetto_sistemi_operati.Api.Calls.{api_read_file, api_open_file, api_lock_file}
use progetto_sistemi_operati.Api.Notified.{
  api_lock_file-unlockfile_with_session, api_lock_file-remove_hash_entry_ref,
}
use progetto_sistemi_operati.Files.Waiting.Fifo.{waiters, queued, take_first}
use progetto_sistemi_operati.Files.Locks.{unlockfile_with_session, remove_hash_entry_ref}
use progetto_sistemi_operati.Files.Locks.Abstract.{HasLock}
use progetto_sistemi_operati.Service.Notifier.{answer_client}
use progetto_sistemi_operati.Api.Served.{Calls, link_to, api_read_file-served}
use progetto_sistemi_operati.Files.Entry.{bucket_of, pathname}
use progetto_sistemi_operati.Files.Waiting.{Request}
use progetto_sistemi_operati.Files.State.{get_file_entry_ref, get_hash_entry_ref}
use progetto_sistemi_operati.Files.Samples.{
  path_a, request, entry, entry-IsValid, server, cache, config, stored-Layout, usage_returns,
}
use progetto_sistemi_operati.Service.{answered}
use progetto_sistemi_operati.Service.Body.{worker_body}
use progetto_sistemi_operati.Wire.Arrival.{message, read_request}
use progetto_sistemi_operati.Wire.Requests.{new_request}
use progetto_sistemi_operati.Api.Saving.{write_results_to_file, strip_front, with_slash}
use progetto_sistemi_operati.Files.Entry.{c_string}
use progetto_sistemi_operati.Api.Connection.{Timespec, Attempt, open_connection}
use progetto_sistemi_operati.Api.Connection.Timeout.{EndsWith, open_connection-ends}

abbrev answer : Reply
answer = contents (codes "a" ∷ codes "xyz" ∷ [])

abbrev link : Link
link = record {
  writing = replicate 40 (moves 3);
  stream = sent_for answer;
  reading_header = replicate 4 (moves 1);
  reading_body = replicate 40 (moves 2);
}

-- A call without a path notes the error of the call before it.
no_path :
    api_open_file 7 none 3 link ≡ ok (false, [], set_last_api_call (codes "openFile") false [] 7)
unfolding api_open_file
no_path = refl

-- Files go below the directory, without the dots and slashes in front.
saved_below :
    write_results_to_file 4096 (some (codes "out")) (codes "../etc/x" ∷ codes "1" ∷ [])
    ≡ ok ((codes "out/etc/x", codes "1") ∷ [])
unfolding write_results_to_file c_string strip_front with_slash
saved_below = refl

-- Two attempts fail, the second of them after the end of the time.
abbrev clock : ℕ → Timespec
clock n = record { tv_sec = 1; tv_nsec = n }

abbrev attempts : List Attempt
attempts =
    record { connects = false; cur_time = clock 5 }
    ∷ record { connects = false; cur_time = clock 9 }
    ∷ record { connects = true; cur_time = clock 12 }
    ∷ []

open_connection-ends_example :
    (success : Bool) × (open_connection 0 (some (codes "s")) true (clock 6) attempts
      ≡ ok (success, set_last_api_call (codes "openConnection") success (codes "s") 0))
    × EndsWith (clock 6) attempts success
open_connection-ends_example =
    open_connection-ends 0 (codes "s") (clock 6) 1000000004 attempts (omega arith)
      ((omega arith, omega arith, (omega arith, omega arith, (omega arith, omega arith, tt))))
      (omega arith) (omega arith)

-- The sample table, in which file 0 holds the bytes 5 and 6.
abbrev events : ℕ → List Event
events n = replicate n (moves 4)

abbrev socket_calls : Calls
socket_calls = record {
  request_header = events 4;
  request_body = events 30;
  writing = events 30;
  answer_header = events 4;
  answer_body = events 30;
}

stored_found : get_file_entry_ref server path_a (bucket_of path_a) ≡ some 0
unfolding get_file_entry_ref bucket_of pathname str_eq
stored_found = refl

api_read_file-served_example :
    (msg : List ℕ) × (r : Request) × (sent : List ℕ) × (read_request
        (write_message b'r' path_a [] 0)
        (events 4)
        (events 30)
      ≡ ok (message msg))
    × (new_request msg 5 ≡ ok r)
    × (worker_body config [] 9 r server ≡ ok (answered, some sent, record server { cache = cache }))
    × (api_read_file 0 (some path_a) (link_to sent socket_calls)
        ≡ ok (some (5 ∷ 6 ∷ []), set_last_api_call (codes "readFile") true path_a 0))
api_read_file-served_example =
    api_read_file-served config [] 9 5 0 server 0 cache path_a (5 ∷ 6 ∷ []) socket_calls
      stored_found usage_returns stored-Layout refl (omega arith)
      (
        (tt, omega arith),
        (tt, omega arith),
        (tt, omega arith),
        (tt, omega arith),
        (tt, omega arith),
      )

-- Client 5 waits in lockFile for the file that client 4 has locked.
entry_found : get_hash_entry_ref server path_a 1542 ≡ some entry
unfolding get_hash_entry_ref pathname str_eq
entry_found = refl

five_waits : waiters entry ≡ [] ++ request 5 ∷ []
five_waits = refl

five_next : take_first (queued entry) ≡ (some (request 5), [])
unfolding take_first
five_next = refl

api_lock_file-unlockfile_with_session_example :
    let t = (unlockfile_with_session 4 path_a 1542 0 server).1 in
    (t.clients_to_notify ≡ [] ++ request 5 ∷ [])
    × HasLock t path_a 1542 (record { owner = some 5; queue = [] })
    × ((sent : List ℕ) × (answer_client (t.sessions 5) (events 4) ≡ ok (count 4, sent))
        × (api_lock_file 0 (some path_a) (link_to sent socket_calls)
            ≡ ok (true, [], set_last_api_call (codes "lockFile") true path_a 0)))
api_lock_file-unlockfile_with_session_example =
    api_lock_file-unlockfile_with_session 4 0 server path_a 1542 (request 5) 0 (events 4)
      socket_calls entry_found entry-IsValid refl five_next tt (omega arith)
      (
        (tt, omega arith),
        (tt, omega arith),
        (tt, omega arith),
        (tt, omega arith),
        (tt, omega arith),
      )

api_lock_file-remove_hash_entry_ref_example :
    let t = remove_hash_entry_ref path_a 1542 server in
    (t.clients_to_notify ≡ [] ++ waiters entry)
    × ((sent : List ℕ) × (answer_client (t.sessions 5) (events 4) ≡ ok (count 4, sent))
        × (api_lock_file 0 (some path_a) (link_to sent socket_calls)
            ≡ ok (false, [], set_last_api_call (codes "lockFile") false path_a 2)))
api_lock_file-remove_hash_entry_ref_example =
    api_lock_file-remove_hash_entry_ref server path_a 1542 [] (request 5) [] 0 (events 4)
      socket_calls entry_found entry-IsValid five_waits tt (omega arith)
      (
        (tt, omega arith),
        (tt, omega arith),
        (tt, omega arith),
        (tt, omega arith),
        (tt, omega arith),
      )
