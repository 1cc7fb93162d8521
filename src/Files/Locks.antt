-- ===== src/Files/Locks.antt =====
-- src/server/src/files.c: locking, unlocking and removing, under the table's lock.
pub mod Lookup
pub mod Abstract
pub mod Refine
pub mod Given
pub mod Waiters
pub mod Creation
use progetto_sistemi_operati.Base.{
  ℕ, zero, suc, ◌+◌, ◌-◌, ◌%◌, List, [], ◌∷◌, ◌++◌, Bool, true, false, Option, none, some, set,
  ◌==◌, take, if◌then◌else◌, Outcome, ok, fault, ◌>>=◌,
}
use progetto_sistemi_operati.Session.{Session}
use progetto_sistemi_operati.Files.Entry.{FileEntry, pathname, bucket_of}
use progetto_sistemi_operati.Files.Waiting.{
  Request, HashEntry, has_room, enqueue, next_owner, drain, max_waiting, waiting_at,
}
use progetto_sistemi_operati.Files.State.{
  Server, update, set_file, set_session, unlink_entry, get_hash_entry_ref, set_entry, answer,
  answer_all,
}

-- `int` results: 1, 0 (the request waits in the queue) and -1.
pub data Status : Type 0 where
  done waiting failed : Status

-- `remove_hashEntry_ref`: the entry goes, and all who wait for it are told of the failure. What the
-- flag decides is only whether the file is freed, which the model does not show.
unfoldable pub remove_hash_entry_ref : List ℕ → ℕ → Server → Server
unfolding get_hash_entry_ref unlink_entry drain answer_all
remove_hash_entry_ref path index s = elim (get_hash_entry_ref s path index) [
  | none ↦ s
  | some h ↦
      answer_all false (drain (h.queue_tail - h.queue_head) h)
        (record s { table = update s.table index (unlink_entry s.heap path (s.table index)) })
]

-- The path that a waiting client remembers: `pathlen` bytes of the file's path.
abbrev pub pending_path : FileEntry → List ℕ
pending_path f = take f.pathlen (pathname f)

-- `lockfile`, from the entry that it finds and its file's owner. The client is the one of the request.
unfoldable pub lock_entry : Option ℕ → Request → List ℕ → ℕ → HashEntry → Server → Status × Server
unfolding set_entry enqueue has_room
lock_entry none r path index h s =
    (done, set_file h.file (record (s.heap h.file) { owner = some r.client }) s)
lock_entry (some o) r path index h s =
    let wait : Status × Server = (
      waiting,
      set_session r.client
          (record (s.sessions r.client) {
            pathname_pending_lock = some (pending_path (s.heap h.file));
          })
          (set_entry path index (enqueue r h) s),
    ) in
    let other : Status × Server = if has_room h then wait else (failed, s) in
    if o == r.client then (done, s) else other

unfoldable pub lockfile : Request → List ℕ → ℕ → Server → Status × Server
unfolding get_hash_entry_ref lock_entry
lockfile r path index s = elim (get_hash_entry_ref s path index) [
  | none ↦ (failed, s)
  | some h ↦ lock_entry (s.heap h.file).owner r path index h s
]

-- `client->canWriteOnFile[i] = false`
abbrev pub forbid_write : ℕ → Session → Session
forbid_write i c = record c { can_write_on_file = set c.can_write_on_file i false }

-- `h->file->owner == client->clientFd`
abbrev pub is_owner : Option ℕ → ℕ → Bool
is_owner none fd = false
is_owner (some o) fd = o == fd

-- The lock goes to the first request in the queue that is not null.
unfoldable pub give_lock : Option Request → ℕ → Server → Server
unfolding answer
give_lock none p s = s
give_lock (some r) p s = answer true r (set_file p (record (s.heap p) { owner = some r.client }) s)

unfoldable pub hand_over : List ℕ → ℕ → HashEntry → Server → Server
unfolding next_owner set_entry give_lock
hand_over path index h s =
    let (next, h') = next_owner (h.queue_tail - h.queue_head) h in
    give_lock next h'.file (set_entry path index h' s)

-- `unlockfileWithSession`, for the session of descriptor `fd`
unfoldable pub unlockfile_with_session : ℕ → List ℕ → ℕ → ℕ → Server → Status × Server
unfolding get_hash_entry_ref hand_over
unlockfile_with_session fd path index session_file_index s =
    elim (get_hash_entry_ref s path index) [
      | none ↦ (failed, s)
      | some h ↦
          if is_owner (s.heap h.file).owner fd
          then (
            done,
            hand_over path index h (
                set_session fd (forbid_write session_file_index (s.sessions fd))
                  (set_file h.file (record (s.heap h.file) { owner = none }) s)),
          )
          else (failed, s)
    ]

unfoldable pub unlockfile : Request → List ℕ → ℕ → ℕ → Server → Status × Server
unfolding unlockfile_with_session
unlockfile r path index i s = unlockfile_with_session r.client path index i s

-- The loop of `clean_pending_lock_request`, `n` rounds from index `i` on, for the client `fd`. It
-- reads the client of every request that it meets, and a null request is a fault.
unfoldable pub clean_loop : ℕ → ℕ → ℕ → Bool → HashEntry → Server → Outcome (HashEntry × Server)
clean_loop zero i fd notify h s = ok (h, s)
clean_loop (suc n) i fd notify h s = elim (waiting_at h i) [
  | none ↦ fault
  | some r ↦
      let keep = clean_loop n (i + 1) fd notify h s in
      let c = record (s.sessions fd) { pathname_pending_lock = none } in
      let told =
        set_session fd (record c { op_status = false })
          (record s { clients_to_notify = s.clients_to_notify ++ r ∷ [] }) in
      let gone =
        clean_loop n (i + 1) fd notify
          (record h { waiting_queue = set h.waiting_queue (i % max_waiting) none })
          (if notify then told else (set_session fd c s)) in
      if r.client == fd then gone else keep
]

-- The second `free` of the same path, after a request was found, is not modelled.
unfoldable pub clean_pending_lock_request : ℕ → Bool → Server → Outcome Server
unfolding get_hash_entry_ref set_entry clean_loop
clean_pending_lock_request fd notify s = elim (s.sessions fd).pathname_pending_lock [
  | none ↦ ok s
  | some path ↦ elim (get_hash_entry_ref s path (bucket_of path)) [
    | none ↦ ok (forget s)
    | some h ↦ clean_loop (h.queue_tail - h.queue_head) h.queue_head fd notify h s >>= λ r.
        ok (forget (set_entry path (bucket_of path) r.0 r.1))
  ]
]
  where
    forget : Server → Server
    forget t = set_session fd (record (t.sessions fd) { pathname_pending_lock = none }) t
