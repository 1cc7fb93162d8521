-- ===== src/Threads/Select.antt =====
-- thread_select of src/server/src/main.c.
use progetto_sistemi_operati.Base.{
  ℕ, zero, suc, max, ◌&&◌, ◌||◌, not, Bool, true, false, Option, none, some, ◌==◌, leb,
  if◌then◌else◌, Outcome, ok, fault, ◌>>=◌,
}
use progetto_sistemi_operati.Base.Int.{ℤ, pos, ◌+ℤ◌, ◌-ℤ◌, max_ℤ}
use progetto_sistemi_operati.Session.{init_session, clear_session}
use progetto_sistemi_operati.Files.State.{Server, set_session}
use progetto_sistemi_operati.Files.Operations.Release.{filesystem_handle_connection_closed}
use progetto_sistemi_operati.Queue.{Queue, int_queue_size, insert_queue}
use progetto_sistemi_operati.Threads.Counts.{erase}
use progetto_sistemi_operati.Threads.State.{System, fd_set, fd_clr}

-- `case 0`: the client has closed its connection.
abbrev pub client_gone : ℕ → System → Server → System
client_gone fd s srv = record s {
  select = record s.select { clients_connected = s.select.clients_connected -ℤ pos 1 };
  server = set_session fd (clear_session (srv.sessions fd)) srv;
  clients = erase fd s.clients;
}

-- A descriptor behind the array of the sessions is a fault; that array has `limit` places,
-- DEFAULT_MAX_CLIENTS.
unfoldable pub connection_closed : ℕ → ℕ → System → Outcome System
unfolding filesystem_handle_connection_closed clear_session erase ◌-ℤ◌
connection_closed limit fd s =
    if leb limit fd
    then fault
    else (filesystem_handle_connection_closed fd s.server >>= λ srv. ok (client_gone fd s srv))

-- `case 1`: the client is listened to again.
unfoldable pub restore_client : ℕ → System → System
restore_client fd s = record s {
  select = record s.select { set = fd_set fd s.select.set; max_fds = max s.select.max_fds fd };
}

-- `case 2`: a new connection.
unfoldable pub connection_accepted : ℕ → ℕ → System → Outcome System
unfolding init_session ◌+ℤ◌
connection_accepted limit fd s =
    let connected = s.select.clients_connected +ℤ pos 1 in
    if leb limit fd
    then fault
    else ok (record s {
      server = set_session fd (init_session (s.server.sessions fd)) s.server;
      select = record s.select {
        set = fd_set fd s.select.set;
        max_fds = max s.select.max_fds fd;
        clients_connected = connected;
        max_clients_connected = max_ℤ s.select.max_clients_connected connected;
      };
    })

-- The `switch` on the kind of a message; an unknown kind is ignored.
unfoldable pub handle_message : ℕ → ℕ → ℕ → System → Outcome System
unfolding connection_closed restore_client connection_accepted
handle_message limit kind fd s =
    if kind == 0
    then connection_closed limit fd s
    else if kind == 1
    then ok (restore_client fd s)
    else if kind == 2
    then connection_accepted limit fd s
    else if kind == 3
    then ok (record s { select = record s.select { select_exit = true } })
    else ok s

-- `while(fstat(_maxFds, &statbuf) == -1) _maxFds--`; descriptor 0 is taken to be open.
unfoldable pub highest_open : (ℕ → Bool) → ℕ → ℕ
highest_open is_open zero = zero
highest_open is_open (suc n) =
    let rest = highest_open is_open n in if is_open (suc n) then suc n else rest

-- A client that is ready goes to the workers, into `q`.
abbrev pub passed_on : (ℕ → Bool) → ℕ → Queue ℕ → System → System
passed_on is_open fd q s = record s {
  queue = q;
  select = record s.select {
    set = fd_clr fd s.select.set;
    max_fds = highest_open is_open s.select.max_fds;
  };
}

-- Without space in the queue the thread waits (`none`).
unfoldable pub pass_on : (ℕ → Bool) → ℕ → System → Option System
unfolding highest_open insert_queue
pass_on is_open fd s = elim (insert_queue int_queue_size 0 fd s.queue) [
  | none ↦ none
  | some q ↦ some (passed_on is_open fd q s)
]

abbrev pub is_zero : ℤ → Bool
is_zero (pos zero) = true
is_zero (pos (suc n)) = false
is_zero (ℤ.negsuc n) = false

-- The test at the top of the outer loop, under which it is left.
unfoldable pub may_leave : System → Bool
may_leave s =
    is_zero s.select.clients_connected && (s.sighup_received && s.select.select_exit)
    || s.select.select_exit && not s.sighup_received
