-- ===== src/Files/Tests.antt =====
-- The table of files.c with one file, on small inputs.
use progetto_sistemi_operati.Files.Samples.{
  path_a, stored, request, entry, session, cache, server, config, stored-Layout, entry_found,
  entry-IsValid, path_found,
}
use progetto_sistemi_operati.Base.{
  true, str_eq, ℕ, List, Outcome, fault, exited, stuck, ◌≡◌, ◌≢◌, refl, [], ◌∷◌, ◌++◌, none, some,
  replicate, arith, ok, All, inl, ◌>>=◌, ◌<◌, length, if◌then◌else◌, ◌==◌, ◌||◌, ltb, leb, map,
  get_or,
}
use progetto_sistemi_operati.Base.Int.{◌+ℤ◌, ◌-ℤ◌}
use progetto_sistemi_operati.Session.{is_file_opened}
use progetto_sistemi_operati.Caching.Fifo.{handle_edit_fifo, handle_usage_fifo}
use progetto_sistemi_operati.Caching.Policy.{handle_edit, is_fifo, handle_usage}
use progetto_sistemi_operati.Files.Entry.{
  pathname, content, bucket_of, c_string, extend_file, empty_file,
}
use progetto_sistemi_operati.Files.Entry.Layout.{extend_file-empty_file}
use progetto_sistemi_operati.Files.Waiting.{Request}
use progetto_sistemi_operati.Files.Waiting.Fifo.{present}
use progetto_sistemi_operati.Files.State.{
  update, put_file_entry_ref, Server, get_hash_entry_ref, get_file_entry_ref,
}
use progetto_sistemi_operati.Files.Locks.{
  Status, done, failed, lockfile, unlockfile_with_session, clean_pending_lock_request,
}
use progetto_sistemi_operati.Files.Locks.Abstract.{HasLock, acquire, release, lock_of}
use progetto_sistemi_operati.Files.Locks.Creation.{put_file_entry_ref-HasLock}
use progetto_sistemi_operati.Files.Operations.Release.{filesystem_handle_connection_closed}
use progetto_sistemi_operati.Files.Operations.Sampling.{
  Distinct, Picked, filesystem_get_n_file_entry-stored,
}
use progetto_sistemi_operati.Files.Operations.Open.{
  filesystem_get_n_file_entry, filesystem_open_file,
}
use progetto_sistemi_operati.Caching.Valid.{contents}
use progetto_sistemi_operati.Files.Locks.Refine.{lockfile-acquire, unlockfile_with_session-release}
use progetto_sistemi_operati.Files.Locks.Waiters.{Attended, locking-Attended}
use progetto_sistemi_operati.Files.Operations.Content.{
  filesystem_write_file, filesystem_append_to_file, writable_descriptor,
}
use progetto_sistemi_operati.Files.Operations.Edits.{
  Opened, filesystem_write_file-content, filesystem_append_to_file-content,
  filesystem_write_file-refused,
}
use progetto_sistemi_operati.Files.Operations.Opening.{filesystem_open_file-opened}

lockfile-acquire_example :
    ((lockfile (request 7) path_a 1542 server).0 ≡ (acquire (request 7) (lock_of server entry)).0)
    × HasLock
        (lockfile (request 7) path_a 1542 server).1
        path_a
        1542
        (acquire (request 7) (lock_of server entry)).1
lockfile-acquire_example = lockfile-acquire (request 7) server path_a 1542 entry_found entry-IsValid

unlockfile_with_session-release_example :
    let t = unlockfile_with_session 4 path_a 1542 0 server in
    let (result, next, l) = release 4 (lock_of server entry) in
    (t.0 ≡ result) × (t.1.clients_to_notify ≡ [] ++ present (next ∷ [])) × HasLock t.1 path_a 1542 l
unlockfile_with_session-release_example =
    unlockfile_with_session-release 4 0 server path_a 1542 entry_found entry-IsValid

locking-Attended_example :
    ((r : Request) → Attended (lockfile r path_a 1542 server).1 path_a 1542)
    × ((fd i : ℕ) → Attended (unlockfile_with_session fd path_a 1542 i server).1 path_a 1542)
locking-Attended_example =
    locking-Attended server path_a 1542 (entry, entry_found, entry-IsValid, λ e. cc)

extend_file-empty_file_example :
    (content (extend_file 9 (empty_file path_a) (7 ∷ [])) ≡ 7 ∷ [])
    × (pathname (extend_file 9 (empty_file path_a) (7 ∷ [])) ≡ path_a ++ c_string (7 ∷ 9 ∷ []))
extend_file-empty_file_example = extend_file-empty_file 9 path_a (7 ∷ []) (omega arith, tt)

abbrev Answer : Type 0
Answer = Status × List ℕ × Server

abbrev result_of : Outcome Answer → Answer
result_of (ok a) = a
result_of fault = (failed, [], server)
result_of exited = (failed, [], server)
result_of stuck = (failed, [], server)

abbrev written : Answer
written = result_of (filesystem_write_file config (request 4) server)

abbrev appended : Answer
appended = result_of (filesystem_append_to_file config 9 (request 4) server)

request-Opened : Opened server (request 4) 0 0
unfolding get_file_entry_ref is_file_opened bucket_of pathname str_eq
request-Opened = (refl, refl)

write_returns : filesystem_write_file config (request 4) server ≡ ok written
unfolding filesystem_write_file handle_edit bucket_of pathname str_eq handle_edit_fifo ◌+ℤ◌ ◌-ℤ◌
write_returns = refl

append_returns : filesystem_append_to_file config 9 (request 4) server ≡ ok appended
unfolding filesystem_append_to_file handle_edit bucket_of pathname str_eq handle_edit_fifo ◌+ℤ◌ ◌-ℤ◌
append_returns = refl

filesystem_write_file-content_example :
    (written.0 ≡ done)
    × (content (written.2.heap 0) ≡ content stored)
    × (pathname (written.2.heap 0) ≡ pathname stored)
    × ((q : ℕ) → 0 ≢ q → written.2.heap q ≡ stored)
    × (writable_descriptor (written.2.sessions 4) (pathname stored) ≢ some 0)
filesystem_write_file-content_example =
    filesystem_write_file-content config (request 4) server 0 0 (request-Opened, refl, refl)
      (omega arith) write_returns

filesystem_append_to_file-content_example :
    (appended.0 ≡ done)
    × (content (appended.2.heap 0) ≡ (5 ∷ 6 ∷ []) ++ content stored)
    × (pathname (appended.2.heap 0) ≡ path_a)
    × ((q : ℕ) → 0 ≢ q → appended.2.heap q ≡ stored)
filesystem_append_to_file-content_example =
    filesystem_append_to_file-content config 9 (request 4) server 0 0 request-Opened stored-Layout
      (omega arith) append_returns

filesystem_write_file-refused_example :
    filesystem_write_file (record config { max_file_size = 1 }) (request 4) server
    ≡ ok (failed, [], server)
filesystem_write_file-refused_example =
    filesystem_write_file-refused (record config { max_file_size = 1 }) (request 4) server
      (inl (omega arith))

path_opened : is_file_opened session path_a ≡ some 0
unfolding is_file_opened str_eq
path_opened = refl

filesystem_open_file-opened_example :
    filesystem_open_file config (request 4) path_a 1 server
    ≡ filesystem_open_file config (request 4) path_a 0 server
filesystem_open_file-opened_example =
    filesystem_open_file-opened config (request 4) path_a server 0 0 path_found path_opened

abbrev empty_server : Server
empty_server = record server { table = λ i. [] }

stored_named : pathname stored ≡ path_a
unfolding pathname
stored_named = refl

empty_missing : get_file_entry_ref empty_server path_a 1542 ≡ none
unfolding get_file_entry_ref
empty_missing = refl

put_file_entry_ref-HasLock_example :
    let (put, t) = put_file_entry_ref 0 1542 empty_server in
    (put ≡ true)
    × HasLock t path_a 1542 (record { owner = none; queue = [] })
    × ((other : List ℕ)
        → path_a ≢ other
        → get_hash_entry_ref t other 1542 ≡ get_hash_entry_ref empty_server other 1542)
put_file_entry_ref-HasLock_example =
    put_file_entry_ref-HasLock 0 empty_server path_a 1542 stored_named empty_missing

stored_there : get_file_entry_ref server path_a 1542 ≡ some 0
unfolding get_file_entry_ref pathname str_eq
stored_there = refl

-- The first request of a queue that two clients have joined.
abbrev two_wait : Server
two_wait =
    (lockfile (request 6) path_a 1542
      (lockfile (request 5) path_a 1542 (record server {
        table =
            update (λ i. []) 1542
              (record entry { waiting_queue = replicate 32 none; queue_tail = 0 } ∷ []);
      })).1).1

-- Both leave while they wait, one after the other.
closing_both :
    (filesystem_handle_connection_closed 5 two_wait >>= λ t.
    filesystem_handle_connection_closed 6 t)
    ≡ fault
unfolding filesystem_handle_connection_closed clean_pending_lock_request lockfile bucket_of pathname
    str_eq
closing_both = refl

config_fifo : is_fifo config ≡ true
unfolding str_eq
config_fifo = refl

filesystem_get_n_file_entry-stored_example :
    (es : List ℕ) × All (λ e. e < 1) es
    × Distinct es
    × (length es ≡ (if 0 == 0 || ltb 1 0 then 1 else 0))
    × Picked (0 == 0 || leb 1 0) 1 es
    × (filesystem_get_n_file_entry config 0 [] server
        ≡ ok (map (λ e. server.heap (get_or (contents server.cache) e 0)) es, server))
filesystem_get_n_file_entry-stored_example =
    filesystem_get_n_file_entry-stored server (omega arith) config_fifo (omega arith) 0 []
      (omega arith)

-- The one file stands in the last slot of the ring, and the slot read is the first one.
abbrev last_slot : Server
last_slot = record server {
  heap = λ p. record stored { pathlen = p };
  cache = record cache { slots = 70 ∷ 71 ∷ 72 ∷ []; head = 2; tail = 0 };
}

other_slot_read :
    filesystem_get_n_file_entry config 0 [] last_slot
    ≡ ok (record stored { pathlen = 70 } ∷ [], last_slot)
unfolding filesystem_get_n_file_entry handle_usage handle_usage_fifo str_eq
other_slot_read = refl
