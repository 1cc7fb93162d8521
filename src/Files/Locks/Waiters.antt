-- ===== src/Files/Locks/Waiters.antt =====
-- The clients in the queue of a lock of files.c, when it is taken, given on and removed.
use progetto_sistemi_operati.Base.{
  All, ◌≢◌, if◌then◌else◌, inl, inr, true, Bool-cases, str_eq_sound, ℕ, ◌-◌, ◌≡◌, refl, ap, subst,
  sym, ◌∙◌, List, [], ◌∷◌, ◌++◌, none, some, append_assoc, append-nil, Bool, false, ◌==◌, arith,
}
use progetto_sistemi_operati.Files.Entry.{FileEntry}
use progetto_sistemi_operati.Files.Waiting.{Request, HashEntry}
use progetto_sistemi_operati.Files.Waiting.Fifo.{IsValid, waiters, drain-waiters}
use progetto_sistemi_operati.Files.State.{
  update, has_path, find_entry, unlink_entry, Server, get_hash_entry_ref, answer, answer_all,
}
use progetto_sistemi_operati.Files.Locks.{lockfile, unlockfile_with_session, remove_hash_entry_ref}
use progetto_sistemi_operati.Files.Locks.Abstract.{
  Lock, HasLock, NoneForgotten, lock_of, acquire-NoneForgotten, release-NoneForgotten,
}
use progetto_sistemi_operati.Files.Locks.Refine.{lockfile-acquire, unlockfile_with_session-release}

-- The entry of the path is well formed, and if its file is not locked then nobody waits for it.
abbrev pub Attended : Server → List ℕ → ℕ → Type 0
Attended s path index =
    (h : HashEntry) × (get_hash_entry_ref s path index ≡ some h)
    × IsValid h
    × NoneForgotten (lock_of s h)

HasLock-Attended :
    (s : Server) (path : List ℕ) (index : ℕ) {l : Lock}
    → HasLock s path index l
    → NoneForgotten l
    → Attended s path index
HasLock-Attended s path index (h, e, v, same) kept = (h, e, v, subst NoneForgotten (sym same) kept)

-- If the entry of a path has a well-formed queue and, while its file is not locked, nobody who
-- waits, then it has after every lockfile and every unlockfileWithSession: a file is never left
-- unlocked with a client waiting for it.
pub locking-Attended :
    (s : Server) (path : List ℕ) (index : ℕ)
    → Attended s path index
    → ((r : Request) → Attended (lockfile r path index s).1 path index)
      × ((fd i : ℕ) → Attended (unlockfile_with_session fd path index i s).1 path index)
locking-Attended s path index (h, e, v, kept) = (
  λ r.
      HasLock-Attended _ path index (lockfile-acquire r s path index e v).1
        (acquire-NoneForgotten r (lock_of s h) kept),
  λ fd i.
      HasLock-Attended _ path index (unlockfile_with_session-release fd i s path index e v).2
        (release-NoneForgotten fd (lock_of s h) kept),
)

answer_all-clients_to_notify :
    (status : Bool) (rs : List Request) (s : Server)
    → (answer_all status rs s).clients_to_notify ≡ s.clients_to_notify ++ rs
unfolding answer_all
answer_all-clients_to_notify status [] s = sym (append-nil s.clients_to_notify)
answer_all-clients_to_notify status (r ∷ rs) s =
    answer_all-clients_to_notify status rs (answer status r s)
    ∙ append_assoc s.clients_to_notify (r ∷ []) rs

-- What a client finds that has been told of `status`.
abbrev pub Told : Bool → Server → ℕ → Type 0
Told status s fd =
    ((s.sessions fd).op_status ≡ status) × ((s.sessions fd).pathname_pending_lock ≡ none)

pub answer-Told :
    (status : Bool) (r : Request) (s : Server) → Told status (answer status r s) r.client
unfolding answer
answer-Told status r s = rw (let e : (r.client == r.client) ≡ true = ground arith in e) (refl, refl)

answer-Told_kept :
    (status : Bool) (r : Request) (s : Server) (fd : ℕ)
    → Told status s fd
    → Told status (answer status r s) fd
unfolding answer
answer-Told_kept status r s fd told = elim (Bool-cases (r.client == fd)) [
  | inl e ↦ rw e (refl, refl)
  | inr e ↦ rw e told
]

answer_all-Told_kept :
    (status : Bool) (rs : List Request) (s : Server) (fd : ℕ)
    → Told status s fd
    → Told status (answer_all status rs s) fd
unfolding answer_all
answer_all-Told_kept status [] s fd told = told
answer_all-Told_kept status (r ∷ rs) s fd told =
    answer_all-Told_kept status rs (answer status r s) fd (answer-Told_kept status r s fd told)

answer_all-Told :
    (status : Bool) (rs : List Request) (s : Server)
    → All (λ r. Told status (answer_all status rs s) r.client) rs
unfolding answer_all
answer_all-Told status [] s = tt
answer_all-Told status (r ∷ rs) s = (
  answer_all-Told_kept status rs (answer status r s) r.client (answer-Told status r s),
  answer_all-Told status rs (answer status r s),
)

find_entry-unlink_entry :
    (heap : ℕ → FileEntry) (path other : List ℕ) (hs : List HashEntry)
    → path ≢ other
    → find_entry heap other (unlink_entry heap path hs) ≡ find_entry heap other hs
unfolding find_entry unlink_entry
find_entry-unlink_entry heap path other [] ne = refl
find_entry-unlink_entry heap path other (h ∷ hs) ne = elim (Bool-cases (has_path heap path h)) [
  | inl here ↦ rw (here, differs here) refl
  | inr not_here ↦ rw not_here (
      ap (λ r. if has_path heap other h then some h else r)
        (find_entry-unlink_entry heap path other hs ne))
]
  where
    differs : has_path heap path h ≡ true → has_path heap other h ≡ false
    differs here = elim (Bool-cases (has_path heap other h)) [
      | inl also ↦ absurd (ne (sym (str_eq_sound _ path here) ∙ str_eq_sound _ other also))
      | inr e ↦ e
    ]

answer_all-get_hash_entry_ref :
    (status : Bool) (rs : List Request) (s : Server) (path : List ℕ) (index : ℕ)
    → get_hash_entry_ref (answer_all status rs s) path index ≡ get_hash_entry_ref s path index
unfolding answer_all answer get_hash_entry_ref
answer_all-get_hash_entry_ref status [] s path index = refl
answer_all-get_hash_entry_ref status (r ∷ rs) s path index =
    answer_all-get_hash_entry_ref status rs (answer status r s) path index

-- Removing a file whose queue is well formed tells all who wait for its lock, the oldest first,
-- that they have failed, and leaves the other paths of the bucket alone.
pub remove_hash_entry_ref-Told :
    (s : Server) (path : List ℕ) (index : ℕ) {h : HashEntry}
    → get_hash_entry_ref s path index ≡ some h
    → IsValid h
    → let t = remove_hash_entry_ref path index s in
      (t.clients_to_notify ≡ s.clients_to_notify ++ waiters h)
      × All (λ r. Told false t r.client) (waiters h)
      × ((other : List ℕ)
          → path ≢ other
          → get_hash_entry_ref t other index ≡ get_hash_entry_ref s other index)
unfolding remove_hash_entry_ref get_hash_entry_ref
remove_hash_entry_ref-Told s path index {h} e v =
    rw (e, remove_hash_entry_ref, drain-waiters (h.queue_tail - h.queue_head) v refl)
      (
        answer_all-clients_to_notify false (waiters h) unlinked,
        answer_all-Told false (waiters h) unlinked,
        λ other ne.
            answer_all-get_hash_entry_ref false (waiters h) unlinked other index
            ∙ unlinked-others other ne,
      )
  where
    unlinked : Server
    unlinked = record s { table = update s.table index (unlink_entry s.heap path (s.table index)) }

    unlinked-others :
        (other : List ℕ)
        → path ≢ other
        → get_hash_entry_ref unlinked other index ≡ get_hash_entry_ref s other index
    unlinked-others other ne =
        rw (let e : (index == index) ≡ true = ground arith in e)
          (find_entry-unlink_entry s.heap path other (s.table index) ne)
