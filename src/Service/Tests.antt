-- ===== src/Service/Tests.antt =====
-- A lock on the sample table.
use progetto_sistemi_operati.Base.{
  ℕ, ◌+◌, ◌≤◌, ◌==◌, inl, inr, Bool-cases, [], ok, ◌≡◌, ◌≢◌, refl, none, some, str_eq,
}
use progetto_sistemi_operati.Session.{is_file_opened}
use progetto_sistemi_operati.Files.Entry.{bucket_of, pathname}
use progetto_sistemi_operati.Files.State.{Server, get_hash_entry_ref}
use progetto_sistemi_operati.Files.Locks.Abstract.{Lock, HasLock}
use progetto_sistemi_operati.Files.Samples.{config, path_a, request, entry, server, entry-IsValid}
use progetto_sistemi_operati.Service.{pending, lock_file}
use progetto_sistemi_operati.Files.Asked.{AllValid, unanswered}
use progetto_sistemi_operati.Service.Body.{worker_body}
use progetto_sistemi_operati.Service.Asked.{left_pending, worker_body-unanswered}
use progetto_sistemi_operati.Service.Pending.{QueuedLast, lock_file-QueuedLast}

lock_found : get_hash_entry_ref server path_a (bucket_of path_a) ≡ some entry
unfolding get_hash_entry_ref bucket_of pathname str_eq
lock_found = refl

lock_pending : (lock_file (request 7) path_a server).0 ≡ pending
unfolding lock_file bucket_of pathname str_eq
lock_pending = refl

lock_file-QueuedLast_example :
    (is_file_opened (server.sessions 7) path_a ≢ none)
    × (l : Lock) × HasLock (lock_file (request 7) path_a server).1 path_a (bucket_of path_a) l
    × QueuedLast (request 7) l
lock_file-QueuedLast_example =
    lock_file-QueuedLast (request 7) path_a server lock_found entry-IsValid lock_pending

server-AllValid : AllValid server
server-AllValid i = elim (Bool-cases (1542 == i)) [
  | inl here ↦ rw here (entry-IsValid, tt)
  | inr elsewhere ↦ rw elsewhere tt
]

-- The request of client 7 is left pending, behind that of client 5.
left_behind : Server
left_behind = (lock_file (request 7) path_a server).1

worker_body_runs : worker_body config [] 0 (request 7) server ≡ ok (pending, none, left_behind)
unfolding worker_body lock_file bucket_of pathname str_eq left_behind
worker_body_runs = refl

worker_body-unanswered_example :
    AllValid left_behind
    × ((c : ℕ) → unanswered c left_behind ≤ unanswered c server + left_pending pending 7 c)
worker_body-unanswered_example =
    worker_body-unanswered config [] 0 (request 7) server left_behind pending none server-AllValid
      worker_body_runs
