-- ===== src/Threads/Workers.antt =====
-- worker_start and worker_notify of src/server/src/worker.c, between their calls.
use progetto_sistemi_operati.Base.{ℕ, Outcome, ok, ◌>>=◌}
use progetto_sistemi_operati.Service.{Result, refused, pending, answered, kept}
use progetto_sistemi_operati.Wire.Arrival.{Arrival, lost, left, short, message}
use progetto_sistemi_operati.Wire.Requests.{new_request}
use progetto_sistemi_operati.Threads.State.{Worker, idle, handling, reporting}

-- Behind `readMessage`: -2 drops the message and the client, -1 and 0 are reported, and a message
-- is parsed.
unfoldable pub after_read : ℕ → Arrival → Outcome Worker
unfolding new_request
after_read fd short = ok idle
after_read fd lost = ok (reporting 1 fd)
after_read fd left = ok (reporting 0 fd)
after_read fd (message msg) = new_request msg fd >>= λ r. ok (handling fd r)

-- Behind `worker_body`: with result 0 the client still waits, and the notifier will report it.
unfoldable pub after_body : ℕ → Result → Worker
after_body fd refused = reporting 1 fd
after_body fd pending = idle
after_body fd answered = reporting 1 fd
after_body fd kept = reporting 1 fd
