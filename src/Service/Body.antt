-- ===== src/Service/Body.antt =====
-- src/server/src/worker.c: the request handler, and the answer that it writes.
use progetto_sistemi_operati.Base.{
  ℕ, ◌^◌, ◌-◌, List, [], ◌∷◌, Option, none, some, take, drop, ◌==◌, if◌then◌else◌, Outcome, ok,
  ◌>>=◌,
}
use progetto_sistemi_operati.Caching.Config.{Config}
use progetto_sistemi_operati.Files.Entry.{FileEntry, pathname, content}
use progetto_sistemi_operati.Files.Waiting.{Request}
use progetto_sistemi_operati.Files.State.{Server}
use progetto_sistemi_operati.Service.{
  Result, refused, pending, answered, kept, Done, open_file, read_file, read_n_files, write_file,
  append_to_file, lock_file, unlock_file, close_file, remove_file,
}
use progetto_sistemi_operati.Wire.Ints.{serialize_int}
use progetto_sistemi_operati.Wire.Replies.{write_reply}

-- `writeFileArray`: for each file `pathlen` bytes from its path on, and its content.
unfoldable pub file_strings : List FileEntry → List (List ℕ)
unfolding content
file_strings [] = []
file_strings (f ∷ fs) = take f.pathlen (drop f.pathname_at f.buf) ∷ content f ∷ file_strings fs

unfoldable pub write_file_array : List FileEntry → List ℕ
unfolding file_strings write_reply
write_file_array files = write_reply (file_strings files)

-- The dispatch on the kind; `rand` is what `rand()` gives, `junk` what `realloc` leaves.
unfoldable pub dispatch : Config → List ℕ → ℕ → Request → Server → Outcome Done
unfolding open_file read_file read_n_files write_file append_to_file lock_file unlock_file
    close_file remove_file
dispatch cfg rand junk r s =
    let path = pathname r.file in
    let alone = λ (t : Result × Server). ok (t.0, [], t.1) in
    let unhandled : Outcome Done = ok (refused, [], s) in
    if r.kind == b'o'
    then open_file cfg r path r.flags s
    else if r.kind == b'r'
    then read_file cfg r path s
    else if r.kind == b'n'
    then read_n_files cfg r r.flags rand s
    else if r.kind == b'w'
    then write_file cfg r s
    else if r.kind == b'a'
    then append_to_file cfg junk r s
    else if r.kind == b'l'
    then alone (lock_file r path s)
    else if r.kind == b'u'
    then alone (unlock_file r path s)
    else if r.kind == b'c'
    then alone (close_file r path s)
    else if r.kind == b'R'
    then (remove_file cfg r path s >>= alone)
    else unhandled

-- What is written to the client: nothing while it waits.
unfoldable pub response : Result → List FileEntry → Option (List ℕ)
unfolding write_file_array serialize_int
response refused files = some (serialize_int (2 ^ 32 - 2))
response pending files = none
response answered [] = some (serialize_int 0)
response answered (f ∷ fs) = some (write_file_array (f ∷ fs))
response kept [] = some (serialize_int 0)
response kept (f ∷ fs) = some (write_file_array (f ∷ fs))

unfoldable pub worker_body :
    Config → List ℕ → ℕ → Request → Server → Outcome (Result × Option (List ℕ) × Server)
unfolding dispatch response
worker_body cfg rand junk r s = dispatch cfg rand junk r s >>= λ t. ok (t.0, response t.0 t.1, t.2)
