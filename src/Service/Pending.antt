-- ===== src/Service/Pending.antt =====
-- The requests that lockFile of operations.c leaves without an answer.
use progetto_sistemi_operati.Base.{
  ℕ, ◌≡◌, ◌≢◌, refl, sym, ◌∙◌, inl, inr, List, [], ◌∷◌, ◌++◌, true, Option, none, some, length, ltb,
  ◌==◌, Bool-cases, Option-cases, ==_iff,
}
use progetto_sistemi_operati.Session.{is_file_opened}
use progetto_sistemi_operati.Files.Entry.{bucket_of}
use progetto_sistemi_operati.Files.Waiting.{Request, HashEntry, max_waiting}
use progetto_sistemi_operati.Files.Waiting.Fifo.{IsValid}
use progetto_sistemi_operati.Files.State.{Server, get_hash_entry_ref}
use progetto_sistemi_operati.Files.Locks.{Status, done, waiting, failed, lockfile}
use progetto_sistemi_operati.Files.Locks.Abstract.{Lock, acquire, lock_of, HasLock}
use progetto_sistemi_operati.Files.Locks.Refine.{lockfile-acquire}
use progetto_sistemi_operati.Files.Operations.Release.{filesystem_lock_acquire}
use progetto_sistemi_operati.Service.{pending, result_of, lock_file}

-- The request is the last one in the queue of a lock that another client owns.
abbrev pub QueuedLast : Request → Lock → Type 0
QueuedLast r l =
    (before : List (Option Request)) × (o : ℕ) × (l.queue ≡ before ++ some r ∷ [])
    × (l.owner ≡ some o)
    × (o ≢ r.client)

acquire-QueuedLast :
    (r : Request) (l : Lock) → (acquire r l).0 ≡ waiting → QueuedLast r (acquire r l).1
unfolding acquire
acquire-QueuedLast r l = elim (Option-cases l.owner) [
  | inl free ↦ rw (free, acquire) (λ e. cc)
  | inr (o, taken) ↦
      rw (taken, acquire)
        (elim (Bool-cases (o == r.client)) [
          | inl own ↦ rw own (λ e. cc)
          | inr other ↦ rw other (elim (Bool-cases (ltb (length l.queue) max_waiting)) [
            | inl room ↦ rw room (λ e. (
              l.queue,
              o,
              refl,
              taken,
              λ same. (let t : (o == r.client) ≡ true = (==_iff o r.client).1 same in cc),
            ))
            | inr full ↦ rw full (λ e. cc)
          ])
        ])
]

result_of-pending : (st : Status) → result_of st ≡ pending → st ≡ waiting
result_of-pending done e = cc
result_of-pending waiting e = refl
result_of-pending failed e = cc

-- If lockFile leaves a request for a path, whose entry has a well-formed queue, pending, then the
-- client has the file open, another client owns it, and the request is the last one in the queue
-- of its lock, which stays well formed.
pub lock_file-QueuedLast :
    (r : Request) (path : List ℕ) (s : Server) {h : HashEntry}
    → get_hash_entry_ref s path (bucket_of path) ≡ some h
    → IsValid h
    → (lock_file r path s).0 ≡ pending
    → (is_file_opened (s.sessions r.client) path ≢ none)
      × (l : Lock) × HasLock (lock_file r path s).1 path (bucket_of path) l
      × QueuedLast r l
unfolding lock_file filesystem_lock_acquire
lock_file-QueuedLast r path s {h} found v =
    elim (Option-cases (is_file_opened (s.sessions r.client) path)) [
      | inl closed ↦ rw (lock_file, filesystem_lock_acquire, closed) (λ e. cc)
      | inr (d, opened) ↦
          rw (lock_file, filesystem_lock_acquire, opened)
            (λ e.
              let (status, locked) = lockfile-acquire r s path (bucket_of path) found v in
              let waits = sym status ∙ result_of-pending (lockfile r path (bucket_of path) s).0 e in
              (
                λ none_open. cc,
                (acquire r (lock_of s h)).1,
                locked,
                acquire-QueuedLast r (lock_of s h) waits,
              ))
    ]
