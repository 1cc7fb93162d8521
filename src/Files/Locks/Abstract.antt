-- ===== src/Files/Locks/Abstract.antt =====
-- What the lock of a file promises, without the table and without the ring of files.c.
use mathlib.Core.Option
use progetto_sistemi_operati.Base.{
  Bool-cases, Option-cases, ◌≡◌, refl, inl, inr, ℕ, List, [], ◌∷◌, ◌++◌, Option, none, some, length,
  ltb, ◌==◌, if◌then◌else◌,
}
use progetto_sistemi_operati.Files.Waiting.{Request, HashEntry, max_waiting}
use progetto_sistemi_operati.Files.Waiting.Fifo.{IsValid, present, queued, take_first}
use progetto_sistemi_operati.Files.State.{Server, get_hash_entry_ref}
use progetto_sistemi_operati.Files.Locks.{Status, done, waiting, failed, is_owner}

-- The owner, and the requests behind it, oldest first; a client that has left leaves a gap.
pub record Lock : Type 0 where
  pub owner : Option ℕ
  pub queue : List (Option Request)

unfoldable pub acquire : Request → Lock → Status × Lock
acquire r l = elim l.owner [
  | none ↦ (done, record l { owner = some r.client })
  | some o ↦
      if o == r.client
      then (done, l)
      else if ltb (length l.queue) max_waiting
      then (waiting, record l { queue = l.queue ++ some r ∷ [] })
      else (failed, l)
]

-- The lock goes to the oldest who waits; it is free if nobody does.
unfoldable pub release : ℕ → Lock → Status × Option Request × Lock
unfolding take_first
release fd l =
    let (next, rest) = take_first l.queue in
    if is_owner l.owner fd
    then (done, next, record { owner = Option.map (λ r. r.client) next; queue = rest })
    else (failed, none, l)

-- The lock of an entry, and of the entry that the table has for a path.
abbrev pub lock_of : Server → HashEntry → Lock
lock_of s h = record { owner = (s.heap h.file).owner; queue = queued h }

-- The table has an entry for the path, its queue is well formed, and its lock is `l`.
abbrev pub HasLock : Server → List ℕ → ℕ → Lock → Type 0
HasLock s path index l =
    (h : HashEntry) × (get_hash_entry_ref s path index ≡ some h) × IsValid h × (lock_of s h ≡ l)

-- A free lock has nobody waiting for it.
abbrev pub NoneForgotten : Lock → Type 0
NoneForgotten l = l.owner ≡ none → present l.queue ≡ []

pub acquire-NoneForgotten :
    (r : Request) (l : Lock) → NoneForgotten l → NoneForgotten (acquire r l).1
unfolding acquire
acquire-NoneForgotten r l kept = elim (Option-cases l.owner) [
  | inl free ↦ rw (free, acquire) (λ e. cc)
  | inr (o, taken) ↦
      rw (taken, acquire)
        (elim (Bool-cases (o == r.client)) [
          | inl own ↦ rw own kept
          | inr other ↦ rw other (elim (Bool-cases (ltb (length l.queue) max_waiting)) [
            | inl room ↦ rw room (λ e. cc)
            | inr full ↦ rw full kept
          ])
        ])
]

take_first-NoneForgotten :
    (os : List (Option Request))
    → Option.map (λ r. r.client) (take_first os).0 ≡ none
    → present (take_first os).1 ≡ []
unfolding take_first
take_first-NoneForgotten [] e = refl
take_first-NoneForgotten (none ∷ os) e = take_first-NoneForgotten os e
take_first-NoneForgotten (some r ∷ os) e = cc

pub release-NoneForgotten : (fd : ℕ) (l : Lock) → NoneForgotten l → NoneForgotten (release fd l).2
unfolding release
release-NoneForgotten fd l kept = elim (Bool-cases (is_owner l.owner fd)) [
  | inl own ↦ rw own (take_first-NoneForgotten l.queue)
  | inr other ↦ rw other kept
]
