-- ===== src/Files/Asked/Locking.antt =====
-- The requests kept by lockfile, unlockfileWithSession and remove_hashEntry_ref of files.c.

use progetto_sistemi_operati.Base.{
  ℕ, ◌+◌, ◌-◌, ◌≤◌, ◌<◌, ◌≡◌, refl, inl, inr, ap, ◌∙◌, List, [], ◌∷◌, ◌++◌, Bool, true, false,
  Option, none, some, arith, ◌==◌, Bool-cases, Option-cases,
}
use progetto_sistemi_operati.Files.Entry.{bucket_of, hashtable_size}
use progetto_sistemi_operati.Files.Waiting.{
  Request, HashEntry, has_room, enqueue, next_owner, drain,
}
use progetto_sistemi_operati.Files.Waiting.Fifo.{
  IsValid, present, present-append, queued, waiters, queued-enqueue, take_first,
  next_owner-take_first, drain-waiters,
}
use progetto_sistemi_operati.Files.State.{
  Server, set_file, set_session, set_entry, get_hash_entry_ref, answer, answer_all,
}
use progetto_sistemi_operati.Files.Locks.{
  Status, done, waiting, failed, lock_entry, lockfile, remove_hash_entry_ref, give_lock, hand_over,
  is_owner, forbid_write, unlockfile_with_session,
}
use progetto_sistemi_operati.Files.Locks.Refine.{
  get_hash_entry_ref-owner, get_hash_entry_ref-set_entry,
}
use progetto_sistemi_operati.Files.Asked.{
  asked, asked-append, Grows, Keeps, Keeps-refl, Grows-trans, found-IsValid, set_entry-Grows,
  set_entry-unanswered, unlink_entry-unanswered, unlink_entry-AllValid,
}
use progetto_sistemi_operati.Threads.Counts.{one}

pub bucket_of-small : (path : List ℕ) → bucket_of path < hashtable_size
unfolding bucket_of
bucket_of-small path = omega arith

-- A request that is left pending is one more.
abbrev pub more : Status → ℕ → ℕ → ℕ
more done fd c = 0
more waiting fd c = one c fd
more failed fd c = 0

pub answer_all-Grows :
    (status : Bool) (rs : List Request) (s : Server)
    → Grows (λ c. asked c rs) s (answer_all status rs s)
unfolding answer_all answer
answer_all-Grows status [] s = record { valid = λ v. v; bound = λ v c. omega arith }
answer_all-Grows status (r ∷ rs) s =
    Grows-trans {e = λ c. one c r.client} {f = λ c. asked c rs} {t = answer status r s}
      (record {
        valid = λ v. v;
        bound = λ v c. omega (arith, asked-append c s.clients_to_notify (r ∷ []));
      })
      (answer_all-Grows status rs (answer status r s)) (λ c. omega arith)

pub remove_hash_entry_ref-Keeps :
    (path : List ℕ) (index : ℕ) (s : Server)
    → index < hashtable_size
    → Keeps s (remove_hash_entry_ref path index s)
unfolding remove_hash_entry_ref
remove_hash_entry_ref-Keeps path index s small =
    elim (Option-cases (get_hash_entry_ref s path index)) [
      | inl missing ↦ rw (missing, remove_hash_entry_ref) (Keeps-refl s)
      | inr (h, found) ↦
          let n = h.queue_tail - h.queue_head in
          rw (found, remove_hash_entry_ref)
            (let told = answer_all-Grows false (drain n h) _ in
              record {
                valid = λ v. told.valid (unlink_entry-AllValid s path index small found v);
                bound = λ v c. omega (
                  arith,
                  told.bound (unlink_entry-AllValid s path index small found v) c,
                  unlink_entry-unanswered s path index small found c,
                  ap (asked c) (drain-waiters n (found-IsValid s path index small found v) refl),
                );
              })
    ]

module _ (r : Request) (path : List ℕ) (index : ℕ) (s : Server)
    (small : index < hashtable_size) where
  enqueue-asked :
      (h : HashEntry)
      → has_room h ≡ true
      → IsValid h
      → IsValid (enqueue r h)
        × ((c : ℕ) → asked c (waiters (enqueue r h)) ≤ asked c (waiters h) + one c r.client)
  enqueue-asked h room v =
      let (v', behind) = queued-enqueue r v room in
      (
        v',
        λ c.
            let all : waiters (enqueue r h) ≡ waiters h ++ r ∷ [] =
              ap present behind ∙ present-append (queued h) (some r ∷ []) in
            omega (arith, ap (asked c) all, asked-append c (waiters h) (r ∷ [])),
      )

  lock_entry-Grows :
      (o : Option ℕ) {h : HashEntry}
      → get_hash_entry_ref s path index ≡ some h
      → let t = lock_entry o r path index h s in Grows (more t.0 r.client) s t.1
  unfolding lock_entry
  lock_entry-Grows none found = record { valid = λ v. v; bound = λ v c. omega arith }
  lock_entry-Grows (some o) {h} found = elim (Bool-cases (o == r.client)) [
    | inl own ↦ rw own (Keeps-refl s)
    | inr other ↦ rw other (elim (Bool-cases (has_room h)) [
      | inl room ↦ rw room (
          let put =
            set_entry-Grows s path index small found (enqueue r h) (λ c. one c r.client)
              (enqueue-asked h room) in
          record { valid = put.valid; bound = put.bound })
      | inr full ↦ rw full (Keeps-refl s)
    ])
  ]

  pub lockfile-Grows : let t = lockfile r path index s in Grows (more t.0 r.client) s t.1
  unfolding lockfile
  lockfile-Grows = elim (Option-cases (get_hash_entry_ref s path index)) [
    | inl missing ↦ rw (missing, lockfile) (Keeps-refl s)
    | inr (h, found) ↦ rw (found, lockfile) (lock_entry-Grows (s.heap h.file).owner found)
  ]

  lock_entry-found :
      (o : Option ℕ) {h : HashEntry}
      → get_hash_entry_ref s path index ≡ some h
      → let t = lock_entry o r path index h s in
        t.0 ≡ waiting → get_hash_entry_ref t.1 path index ≡ some (enqueue r h)
  unfolding lock_entry get_hash_entry_ref enqueue
  lock_entry-found none found = λ e. cc
  lock_entry-found (some o) {h} found = elim (Bool-cases (o == r.client)) [
    | inl own ↦ rw own (λ e. cc)
    | inr other ↦ rw other (elim (Bool-cases (has_room h)) [
      | inl room ↦ rw room (λ e. get_hash_entry_ref-set_entry s path index (enqueue r h) found refl)
      | inr full ↦ rw full (λ e. cc)
    ])
  ]

  -- A request that is left pending has been queued in an entry of the path.
  pub lockfile-found :
      let t = lockfile r path index s in
      t.0 ≡ waiting → (h : HashEntry) × (get_hash_entry_ref t.1 path index ≡ some h)
  unfolding lockfile
  lockfile-found = elim (Option-cases (get_hash_entry_ref s path index)) [
    | inl missing ↦ rw (missing, lockfile) (λ e. cc)
    | inr (h, found) ↦
        rw (found, lockfile) (λ e. (enqueue r h, lock_entry-found (s.heap h.file).owner found e))
  ]

take_first-asked :
    (c : ℕ) (os : List (Option Request))
    → asked c (present (take_first os).1) + asked c (present ((take_first os).0 ∷ []))
      ≡ asked c (present os)
unfolding take_first
take_first-asked c [] = refl
take_first-asked c (none ∷ os) = take_first-asked c os
take_first-asked c (some r ∷ os) = omega arith

give_lock-Grows :
    (o : Option Request) (p : ℕ) (s : Server)
    → Grows (λ c. asked c (present (o ∷ []))) s (give_lock o p s)
unfolding give_lock answer
give_lock-Grows none p s = record { valid = λ v. v; bound = λ v c. omega arith }
give_lock-Grows (some r) p s = record {
  valid = λ v. v;
  bound = λ v c. omega (arith, asked-append c s.clients_to_notify (r ∷ []));
}

hand_over-Keeps :
    (path : List ℕ) (index : ℕ) (s : Server) {h : HashEntry}
    → index < hashtable_size
    → get_hash_entry_ref s path index ≡ some h
    → Keeps s (hand_over path index h s)
unfolding hand_over
hand_over-Keeps path index s {h} small found =
    let n = h.queue_tail - h.queue_head in
    let taken = λ (v : IsValid h). next_owner-take_first n v refl in
    let split = λ (v : IsValid h) (c : ℕ).
      ap (λ t. asked c (present t.1) + asked c (present (t.0 ∷ []))) (taken v).1
      ∙ take_first-asked c (queued h) in
    let put =
      set_entry-Grows s path index small found (next_owner n h).1 (λ c. 0)
        (λ v. ((taken v).0, λ c. omega (arith, split v c))) in
    let given =
      give_lock-Grows (next_owner n h).0 (next_owner n h).1.file
        (set_entry path index (next_owner n h).1 s) in
    record {
      valid = λ v. given.valid (put.valid v);
      bound = λ v c. omega (
        arith,
        given.bound (put.valid v) c,
        set_entry-unanswered s path index small found (next_owner n h).1 c,
        split (found-IsValid s path index small found v) c,
      );
    }

pub unlockfile_with_session-Keeps :
    (fd : ℕ) (path : List ℕ) (index i : ℕ) (s : Server)
    → index < hashtable_size
    → Keeps s (unlockfile_with_session fd path index i s).1
unfolding unlockfile_with_session get_hash_entry_ref
unlockfile_with_session-Keeps fd path index i s small =
    elim (Option-cases (get_hash_entry_ref s path index)) [
      | inl missing ↦ rw (missing, unlockfile_with_session) (Keeps-refl s)
      | inr (h, found) ↦ elim (Bool-cases (is_owner (s.heap h.file).owner fd)) [
        | inl own ↦
            let given =
              hand_over-Keeps path index
                (set_session fd (forbid_write i (s.sessions fd))
                  (set_file h.file (record (s.heap h.file) { owner = none }) s))
                small (get_hash_entry_ref-owner s path index none found) in
            rw (found, own, unlockfile_with_session)
              (record { valid = given.valid; bound = given.bound })
        | inr other ↦ rw (found, other, unlockfile_with_session) (Keeps-refl s)
      ]
    ]
