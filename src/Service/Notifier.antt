-- ===== src/Service/Notifier.antt =====
-- worker_notify of src/server/src/worker.c: what it writes to a client whose request was pending.
use progetto_sistemi_operati.Base.{ℕ, List, if◌then◌else◌, Outcome}
use progetto_sistemi_operati.Session.{Session}
use progetto_sistemi_operati.Wire.Streams.{Event, Transfer, ping_ok, ping_ko}

unfoldable pub answer_client : Session → List Event → Outcome (Transfer × List ℕ)
unfolding ping_ok ping_ko
answer_client client es = if client.op_status then ping_ok es else ping_ko es
