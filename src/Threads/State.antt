-- ===== src/Threads/State.antt =====
-- What the threads of src/server/src/main.c and worker.c share, and where each of them is.
use progetto_sistemi_operati.Base.{
  ℕ, ◌||◌, List, [], ◌∷◌, ◌++◌, Bool, true, false, Option, ◌==◌, leb, if◌then◌else◌,
}
use progetto_sistemi_operati.Base.Int.{ℤ}
use progetto_sistemi_operati.Files.Waiting.{Request}
use progetto_sistemi_operati.Files.State.{Server}
use progetto_sistemi_operati.Queue.{Queue}
use progetto_sistemi_operati.Service.{Result}
use progetto_sistemi_operati.Threads.Counts.{count}

-- The variables of `thread_select`. `scan` is the `rdset` of a round with the descriptor that its
-- loop has come to, and `none` at the top of the outer loop.
pub record Select : Type 0 where
  pub set : ℕ → Bool
  pub max_fds : ℕ
  pub clients_connected : ℤ
  pub max_clients_connected : ℤ
  pub select_exit : Bool
  pub scan : Option ((ℕ → Bool) × ℕ)

-- Where `worker_start` is: in front of the queue, reading from a descriptor, with a parsed request,
-- behind the operation on the files with its result, or in front of `writeToPipe(kind, fd)`.
pub data Worker : Type 0 where
  idle : Worker
  serving : ℕ → Worker
  handling : ℕ → Request → Worker
  returning : ℕ → Result → Worker
  reporting : ℕ → ℕ → Worker

-- `clients` are the open descriptors of connections. `accepted` is the one that `main` has from
-- `accept` and has not announced, `notifying` the request that `worker_notify` has taken. `pending` are
-- the clients whose request has been left in a queue of files.c. The pipe holds the messages, a kind
-- and a descriptor, that `writeToPipe` has written.
pub record System : Type 0 where
  pub server : Server
  pub clients : List ℕ
  pub select : Select
  pub queue : Queue ℕ
  pub pipe : List (ℕ × ℕ)
  pub running : Bool
  pub sighup_received : Bool
  pub accepted : Option ℕ
  pub workers : ℕ → Worker
  pub notifying : Option Request
  pub pending : List ℕ

-- A set with one member more or less, `FD_SET` and `FD_CLR`.
abbrev pub fd_set : ℕ → (ℕ → Bool) → ℕ → Bool
fd_set fd set c = if c == fd then true else set c

abbrev pub fd_clr : ℕ → (ℕ → Bool) → ℕ → Bool
fd_clr fd set c = if c == fd then false else set c

-- What `fstat` tells; `others` are the open descriptors that are no clients.
abbrev pub is_open : (ℕ → Bool) → System → ℕ → Bool
is_open others s fd = others fd || leb 1 (count fd s.clients)

unfoldable pub write_to_pipe : ℕ → ℕ → System → System
write_to_pipe kind fd s = record s { pipe = s.pipe ++ (kind, fd) ∷ [] }
