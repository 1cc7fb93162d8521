-- ===== src/Files/Operations/Release.antt =====
-- src/server/src/files.c: locking, unlocking, removing, and the end of a connection.
use progetto_sistemi_operati.Base.{
  ℕ, ◌+◌, List, [], ◌∷◌, false, Option, none, some, set, if◌then◌else◌, Outcome, ok, ◌>>=◌,
}
use progetto_sistemi_operati.Session.{Session, is_file_opened}
use progetto_sistemi_operati.Caching.Config.{Config}
use progetto_sistemi_operati.Caching.Policy.{handle_removal}
use progetto_sistemi_operati.Files.Entry.{bucket_of}
use progetto_sistemi_operati.Files.Waiting.{Request, HashEntry}
use progetto_sistemi_operati.Files.State.{Server, length_of, set_session, get_hash_entry_ref}
use progetto_sistemi_operati.Files.Locks.{
  Status, done, failed, lockfile, unlockfile, unlockfile_with_session, clean_pending_lock_request,
  forbid_write, is_owner, remove_hash_entry_ref,
}

unfoldable pub filesystem_lock_acquire : Request → List ℕ → Server → Status × Server
unfolding is_file_opened lockfile
filesystem_lock_acquire r path s = elim (is_file_opened (s.sessions r.client) path) [
  | none ↦ (failed, s)
  | some i ↦ lockfile r path (bucket_of path) s
]

unfoldable pub filesystem_lock_release : Request → List ℕ → Server → Status × Server
unfolding is_file_opened unlockfile
filesystem_lock_release r path s = elim (is_file_opened (s.sessions r.client) path) [
  | none ↦ (failed, s)
  | some i ↦
      let (result, t) = unlockfile r path (bucket_of path) i s in
      (result, set_session r.client (forbid_write i (t.sessions r.client)) t)
]

-- The session forgets an open file.
abbrev pub forget_file : ℕ → Session → Session
forget_file d c = record c {
  can_write_on_file = set c.can_write_on_file d false;
  opened_files = set c.opened_files d none;
}

-- `filesystem_removeFile`
unfoldable pub filesystem_remove_file :
    Config → Request → List ℕ → Server → Outcome (Status × Server)
unfolding is_file_opened get_hash_entry_ref remove_hash_entry_ref
filesystem_remove_file cfg r path s =
    let refused : Outcome (Status × Server) = ok (failed, s) in
    let remove = λ (d : ℕ) (h : HashEntry).
      handle_removal cfg (length_of s) h.file s.cache >>= λ cache. ok (
        done,
        remove_hash_entry_ref path (bucket_of path) (
            set_session r.client (forget_file d (s.sessions r.client))
              (record s { cache = cache })),
      ) in
    elim (is_file_opened (s.sessions r.client) path) [
      | none ↦ refused
      | some d ↦ elim (get_hash_entry_ref s path (bucket_of path)) [
        | none ↦ refused
        | some h ↦ if is_owner (s.heap h.file).owner r.client then remove d h else refused
      ]
    ]

-- The loop of `filesystem_handle_connectionClosed`, from descriptor `i` on.
unfoldable pub unlock_opened : List (Option (List ℕ)) → ℕ → ℕ → Server → Server
unfolding unlockfile_with_session
unlock_opened [] i fd s = s
unlock_opened (none ∷ os) i fd s = unlock_opened os (i + 1) fd s
unlock_opened (some path ∷ os) i fd s =
    unlock_opened os (i + 1) fd (unlockfile_with_session fd path (bucket_of path) i s).1

unfoldable pub filesystem_handle_connection_closed : ℕ → Server → Outcome Server
unfolding clean_pending_lock_request unlock_opened
filesystem_handle_connection_closed fd s = clean_pending_lock_request fd false s >>= λ t.
    ok (unlock_opened (t.sessions fd).opened_files 0 fd t)
