-- ===== src/Service.antt =====
-- src/server/src/operations.c: what a worker calls for a request. The logging is left out.
pub mod Body
mod Tests
pub mod Pending
pub mod Asked
pub mod Reading
pub mod Notifier
use progetto_sistemi_operati.Base.{ℕ, List, [], ◌∷◌, Option, none, some, map, Outcome, ok, ◌>>=◌}
use progetto_sistemi_operati.Session.{is_file_opened}
use progetto_sistemi_operati.Caching.Config.{Config}
use progetto_sistemi_operati.Files.Entry.{FileEntry}
use progetto_sistemi_operati.Files.Waiting.{Request}
use progetto_sistemi_operati.Files.State.{Server, set_session}
use progetto_sistemi_operati.Files.Locks.{Status, done, waiting, failed}
use progetto_sistemi_operati.Files.Operations.Open.{
  filesystem_open_file, filesystem_get_file_entry, filesystem_get_n_file_entry,
}
use progetto_sistemi_operati.Files.Operations.Content.{
  filesystem_write_file, filesystem_append_to_file,
}
use progetto_sistemi_operati.Files.Operations.Release.{
  filesystem_lock_acquire, filesystem_lock_release, filesystem_remove_file, forget_file,
}

-- The result of an operation: -1, 0 (the client waits), 1, and 2 (the buffer of the request is kept).
pub data Result : Type 0 where
  refused pending answered kept : Result

-- The result, the files for the client, and the state.
abbrev pub Done : Type 0
Done = Result × List FileEntry × Server

abbrev pub result_of : Status → Result
result_of done = answered
result_of waiting = pending
result_of failed = refused

-- A pointer that is null or points to a file, as the array of the files to send.
abbrev pub files_at : Server → Option ℕ → List FileEntry
files_at s none = []
files_at s (some p) = s.heap p ∷ []

-- The files to send of an edit: none if it has failed.
abbrev pub edited_files : Result → Status × List ℕ × Server → Done
edited_files success (done, gone, s) = (success, map (λ p. s.heap p) gone, s)
edited_files success (waiting, gone, s) = (success, map (λ p. s.heap p) gone, s)
edited_files success (failed, gone, s) = (refused, [], s)

unfoldable pub open_file : Config → Request → List ℕ → ℕ → Server → Outcome Done
unfolding filesystem_open_file
open_file cfg r pathname flags s =
    filesystem_open_file cfg r pathname flags s >>= λ t. ok (result_of t.0, files_at t.2 t.1, t.2)

unfoldable pub read_file : Config → Request → List ℕ → Server → Outcome Done
unfolding filesystem_get_file_entry
read_file cfg r pathname s = filesystem_get_file_entry cfg pathname s >>= λ t. elim t.0 [
  | none ↦ ok (refused, [], t.1)
  | some f ↦ ok (answered, f ∷ [], t.1)
]

-- The array of `filesystem_get_n_fileEntry` is never null.
unfoldable pub read_n_files : Config → Request → ℕ → List ℕ → Server → Outcome Done
unfolding filesystem_get_n_file_entry
read_n_files cfg r n rand s =
    filesystem_get_n_file_entry cfg n rand s >>= λ t. ok (answered, t.0, t.1)

unfoldable pub write_file : Config → Request → Server → Outcome Done
unfolding filesystem_write_file
write_file cfg r s = filesystem_write_file cfg r s >>= λ t. ok (edited_files kept t)

unfoldable pub append_to_file : Config → ℕ → Request → Server → Outcome Done
unfolding filesystem_append_to_file
append_to_file cfg junk r s =
    filesystem_append_to_file cfg junk r s >>= λ t. ok (edited_files answered t)

unfoldable pub lock_file : Request → List ℕ → Server → Result × Server
unfolding filesystem_lock_acquire
lock_file r pathname s =
    let (status, t) = filesystem_lock_acquire r pathname s in (result_of status, t)

abbrev pub succeeded : Status → Result
succeeded done = answered
succeeded waiting = answered
succeeded failed = refused

unfoldable pub unlock_file : Request → List ℕ → Server → Result × Server
unfolding filesystem_lock_release
unlock_file r pathname s =
    let (status, t) = filesystem_lock_release r pathname s in (succeeded status, t)

unfoldable pub close_file : Request → List ℕ → Server → Result × Server
unfolding is_file_opened filesystem_lock_release
close_file r pathname s = elim (is_file_opened (s.sessions r.client) pathname) [
  | none ↦ (refused, s)
  | some d ↦
      let t = (filesystem_lock_release r pathname s).1 in
      (answered, set_session r.client (forget_file d (t.sessions r.client)) t)
]

unfoldable pub remove_file : Config → Request → List ℕ → Server → Outcome (Result × Server)
unfolding filesystem_remove_file
remove_file cfg r pathname s =
    filesystem_remove_file cfg r pathname s >>= λ t. ok (succeeded t.0, t.1)
