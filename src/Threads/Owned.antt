-- ===== src/Threads/Owned.antt =====
-- Who has the descriptor of a client: the invariant of the threads of main.c and worker.c.
pub mod Clients
pub mod Rounds
pub mod Messages
pub mod Work
use progetto_sistemi_operati.Base.{
  ℕ, suc, ◌+◌, ◌≤◌, ◌≡◌, ◌≢◌, ◌⊎◌, List, [], ◌∷◌, Bool, true, false, Option, none, some, length,
  leb, ◌==◌, if◌then◌else◌,
}
use progetto_sistemi_operati.Base.Int.{pos_part, neg_part}
use progetto_sistemi_operati.Files.Waiting.{Request}
use progetto_sistemi_operati.Queue.{int_queue_size}
use progetto_sistemi_operati.Queue.Fifo.{IsValid, queued}
use progetto_sistemi_operati.Service.{Result, refused, pending, answered, kept}
use progetto_sistemi_operati.Threads.Counts.{one, count, total}
use progetto_sistemi_operati.Threads.State.{
  Select, System, Worker, idle, serving, handling, returning, reporting,
}

-- A message of kind 0, 1 or 2 carries its descriptor.
abbrev pub carried : ℕ → ℕ → ℕ → ℕ
carried fd kind c = if leb kind 2 then one fd c else 0

unfoldable pub tokens : ℕ → List (ℕ × ℕ) → ℕ
tokens fd [] = 0
tokens fd ((kind, c) ∷ ms) = carried fd kind c + tokens fd ms

-- The connections that the select thread has not been told of yet.
unfoldable pub announced : List (ℕ × ℕ) → ℕ
announced [] = 0
announced ((kind, c) ∷ ms) = (if kind == 2 then 1 else 0) + announced ms

-- A worker whose request is left pending has no client any more.
abbrev pub held_behind : ℕ → ℕ → Result → ℕ
held_behind fd c refused = one fd c
held_behind fd c pending = 0
held_behind fd c answered = one fd c
held_behind fd c kept = one fd c

abbrev pub held : ℕ → Worker → ℕ
held fd idle = 0
held fd (serving c) = one fd c
held fd (handling c r) = one fd c
held fd (returning c result) = held_behind fd c result
held fd (reporting kind c) = carried fd kind c

abbrev pub just_accepted : ℕ → Option ℕ → ℕ
just_accepted fd none = 0
just_accepted fd (some c) = one fd c

abbrev pub newcomer : Option ℕ → ℕ
newcomer none = 0
newcomer (some c) = 1

abbrev pub notified : ℕ → Option Request → ℕ
notified fd none = 0
notified fd (some r) = one fd r.client

-- A worker serves the client whose request it has, and reports with kind 0 or 1.
abbrev pub Agrees : Worker → Type 0
Agrees idle = Unit
Agrees (serving c) = Unit
Agrees (handling c r) = r.client ≡ c
Agrees (returning c result) = Unit
Agrees (reporting kind c) = kind ≤ 1

module _ (n_threads pipe_read pipe_write : ℕ) (others : ℕ → Bool) where
  abbrev pub in_set : (ℕ → Bool) → ℕ → ℕ
  in_set set fd = if others fd then 0 else if set fd then 1 else 0

  -- The places of a descriptor outside the set of the select thread.
  abbrev pub elsewhere : System → ℕ → ℕ
  elsewhere s fd =
      count fd (queued int_queue_size 0 s.queue)
      + (total (held fd) n_threads s.workers
          + (tokens fd s.pipe
              + (just_accepted fd s.accepted + (notified fd s.notifying + count fd s.pending))))

  -- What is still to be scanned in a round is in the set.
  abbrev pub Scanned : (ℕ → Bool) → Option ((ℕ → Bool) × ℕ) → Type 0
  Scanned set none = Unit
  Scanned set (some (ready, at)) =
      (fd : ℕ) → at ≤ fd → ready fd ≡ true → fd ≢ pipe_read → (set fd ≡ true) × (others fd ≡ false)

  -- An open connection is in exactly one place, a descriptor that is not open in none.
  pub record Owned (s : System) : Type 0 where
    pub owned : (fd : ℕ) → count fd s.clients ≡ in_set s.select.set fd + elsewhere s fd
    pub single : (fd : ℕ) → count fd s.clients ≤ 1
    pub apart : (fd : ℕ) → others fd ≡ true → count fd s.clients ≡ 0

  -- The select thread overlooks no member of its set, and counts the `opened` connections but for
  -- those that are still `arriving`.
  pub record Watched (select : Select) (arriving opened : ℕ) : Type 0 where
    pub bounded : (fd : ℕ) → select.set fd ≡ true → fd ≤ select.max_fds
    pub pipe_ends :
        (fd : ℕ) → select.set fd ≡ true → others fd ≡ true → (fd ≡ pipe_read) ⊎ (fd ≡ pipe_write)
    pub scanned : Scanned select.set select.scan
    pub counted :
        pos_part select.clients_connected + arriving ≡ opened + neg_part select.clients_connected

  pub record Inv (s : System) : Type 0 where
    pub places : Owned s
    pub watch : Watched s.select (newcomer s.accepted + announced s.pipe) (length s.clients)
    pub ring : IsValid int_queue_size 0 s.queue
    pub agreed : (i : ℕ) → Agrees (s.workers i)
