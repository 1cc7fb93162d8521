-- ===== src/Files/Locks/Refine.antt =====
-- Locking and unlocking in files.c against the abstract lock.
use mathlib.Core.Option
use progetto_sistemi_operati.Base.{
  ℕ, zero, suc, ◌-◌, ◌≡◌, refl, sym, ap, ap₂, ◌∙◌, inl, inr, List, [], ◌∷◌, ◌++◌, true, Option,
  none, some, length, ltb, ◌==◌, Bool-cases, Option-cases, append-nil, arith,
}
use progetto_sistemi_operati.Base.Ring.{length-window}
use progetto_sistemi_operati.Files.Waiting.{
  advance, waiting_at, Request, HashEntry, max_waiting, has_room, enqueue, next_owner,
}
use progetto_sistemi_operati.Files.Waiting.Fifo.{
  IsValid, queued, take_first, present, queued-enqueue, next_owner-take_first,
}
use progetto_sistemi_operati.Files.State.{
  Server, update, set_file, set_session, set_entry, answer, get_hash_entry_ref,
}
use progetto_sistemi_operati.Files.Locks.{
  is_owner, lock_entry, lockfile, hand_over, forbid_write, give_lock, unlockfile_with_session,
}
use progetto_sistemi_operati.Files.Locks.Lookup.{
  update-same, update-pathname, find_entry-heap, find_entry-replace_entry,
}
use progetto_sistemi_operati.Files.Locks.Abstract.{Lock, acquire, release, lock_of, HasLock}

-- After a change of the file's owner and of the entry's queue, the table has that lock.
pub get_hash_entry_ref-owner :
    (s : Server) (path : List ℕ) (index : ℕ) {h : HashEntry} (o : Option ℕ)
    → get_hash_entry_ref s path index ≡ some h
    → get_hash_entry_ref (set_file h.file (record (s.heap h.file) { owner = o }) s) path index
      ≡ some h
unfolding get_hash_entry_ref
get_hash_entry_ref-owner s path index {h} o e =
    find_entry-heap s.heap (update s.heap h.file (record (s.heap h.file) { owner = o })) path
      (s.table index) (update-pathname s.heap h.file o)
    ∙ e

pub get_hash_entry_ref-set_entry :
    (s : Server) (path : List ℕ) (index : ℕ) {h : HashEntry} (h' : HashEntry)
    → get_hash_entry_ref s path index ≡ some h
    → h'.file ≡ h.file
    → get_hash_entry_ref (set_entry path index h' s) path index ≡ some h'
unfolding get_hash_entry_ref set_entry
get_hash_entry_ref-set_entry s path index {h} h' e same =
    rw (let e : (index == index) ≡ true = ground arith in e)
      (find_entry-replace_entry s.heap path h h' (s.table index) e same)

enqueue-file : (r : Request) (h : HashEntry) → (enqueue r h).file ≡ h.file
unfolding enqueue
enqueue-file r h = refl

has_room-length : (h : HashEntry) → has_room h ≡ ltb (length (queued h)) max_waiting
unfolding has_room
has_room-length h =
    ap (λ n. ltb n max_waiting)
      (sym
        (length-window none h.waiting_queue max_waiting h.queue_head (h.queue_tail - h.queue_head)))

lock_entry-acquire :
    (o : Option ℕ) (r : Request) (s : Server) (path : List ℕ) (index : ℕ) {h : HashEntry}
    → (s.heap h.file).owner ≡ o
    → get_hash_entry_ref s path index ≡ some h
    → IsValid h
    → let l : Lock = record { owner = o; queue = queued h } in
      ((lock_entry o r path index h s).0 ≡ (acquire r l).0)
      × HasLock (lock_entry o r path index h s).1 path index (acquire r l).1
unfolding lock_entry acquire get_hash_entry_ref
lock_entry-acquire none r s path index {h} owned e v = (
  refl,
  (
    h,
    get_hash_entry_ref-owner s path index (some r.client) e,
    v,
    ap (λ f. record { owner = f.owner; queue = queued h })
        (update-same s.heap h.file (record (s.heap h.file) { owner = some r.client })),
  ),
)
lock_entry-acquire (some o) r s path index {h} owned e v = elim (Bool-cases (o == r.client)) [
  | inl own ↦ rw own (refl, (h, e, v, same))
  | inr other ↦ rw other (
      rw (sym (has_room-length h)) (elim (Bool-cases (has_room h)) [
        | inl room ↦ rw room (
          refl,
          (
            enqueue r h,
            get_hash_entry_ref-set_entry s path index (enqueue r h) e (enqueue-file r h),
            (queued-enqueue r v room).0,
            ap₂ (λ w q. record { owner = w; queue = q })
                (ap (λ p. (s.heap p).owner) (enqueue-file r h) ∙ owned) (queued-enqueue r v room).1,
          ),
        )
        | inr full ↦ rw full (refl, (h, e, v, same))
      ]))
]
  where
    same : lock_of s h ≡ record { owner = some o; queue = queued h }
    same = ap (λ w. record { owner = w; queue = queued h }) owned

-- lockfile, on an entry with a well-formed queue, gives the lock, queues the request behind all
-- others or refuses it, as the abstract lock does.
pub lockfile-acquire :
    (r : Request) (s : Server) (path : List ℕ) (index : ℕ) {h : HashEntry}
    → get_hash_entry_ref s path index ≡ some h
    → IsValid h
    → ((lockfile r path index s).0 ≡ (acquire r (lock_of s h)).0)
      × HasLock (lockfile r path index s).1 path index (acquire r (lock_of s h)).1
unfolding lockfile
lockfile-acquire r s path index {h} e v =
    rw (e, lockfile) (lock_entry-acquire (s.heap h.file).owner r s path index refl e v)

give_lock-HasLock :
    (o : Option Request) (s : Server) (path : List ℕ) (index : ℕ) {h : HashEntry}
    → get_hash_entry_ref s path index ≡ some h
    → IsValid h
    → (s.heap h.file).owner ≡ none
    → ((give_lock o h.file s).clients_to_notify ≡ s.clients_to_notify ++ present (o ∷ []))
      × HasLock
          (give_lock o h.file s)
          path
          index
          (record { owner = Option.map (λ r. r.client) o; queue = queued h })
unfolding give_lock answer get_hash_entry_ref
give_lock-HasLock none s path index {h} e v free = (
  sym (append-nil s.clients_to_notify),
  (h, e, v, ap (λ w. record { owner = w; queue = queued h }) free),
)
give_lock-HasLock (some r) s path index {h} e v free = (
  refl,
  (
    h,
    get_hash_entry_ref-owner s path index (some r.client) e,
    v,
    ap (λ f. record { owner = f.owner; queue = queued h })
        (update-same s.heap h.file (record (s.heap h.file) { owner = some r.client })),
  ),
)

advance-file : (h : HashEntry) → (advance h).file ≡ h.file
unfolding advance
advance-file h = ground arith

next_owner-file : (n : ℕ) (h : HashEntry) → (next_owner n h).1.file ≡ h.file
unfolding next_owner advance
next_owner-file zero h = refl
next_owner-file (suc n) h = elim (Bool-cases (h.queue_tail == h.queue_head)) [
  | inl same ↦ rw same refl
  | inr more ↦ rw more (elim (Option-cases (waiting_at h h.queue_head)) [
    | inl gone ↦ rw gone (next_owner-file n (advance h) ∙ advance-file h)
    | inr (r, here) ↦ rw here (advance-file h)
  ])
]

hand_over-HasLock :
    (s : Server) (path : List ℕ) (index : ℕ) {h : HashEntry}
    → get_hash_entry_ref s path index ≡ some h
    → IsValid h
    → (s.heap h.file).owner ≡ none
    → let (next, rest) = take_first (queued h) in
      ((hand_over path index h s).clients_to_notify ≡ s.clients_to_notify ++ present (next ∷ []))
      × HasLock
          (hand_over path index h s)
          path
          index
          (record { owner = Option.map (λ r. r.client) next; queue = rest })
unfolding hand_over set_entry
hand_over-HasLock s path index {h} e v free =
    let n = h.queue_tail - h.queue_head in
    let (v', taken) = next_owner-take_first n v refl in
    let same = next_owner-file n h in
    let (told, (h', e', w, l)) =
      give_lock-HasLock (next_owner n h).0 (set_entry path index (next_owner n h).1 s) path index
        (get_hash_entry_ref-set_entry s path index (next_owner n h).1 e same) v'
        (ap (λ p. (s.heap p).owner) same ∙ free) in
    (
      told ∙ ap (λ t. s.clients_to_notify ++ present (t.0 ∷ [])) taken,
      (
        h',
        e',
        w,
        l ∙ ap (λ t. record { owner = Option.map (λ r. r.client) t.0; queue = t.1 }) taken,
      ),
    )

-- unlockfileWithSession, on an entry with a well-formed queue, gives the lock to the oldest
-- request that still waits, frees it if there is none, or refuses, as the abstract lock does, and
-- puts the new owner behind the clients to notify.
pub unlockfile_with_session-release :
    (fd i : ℕ) (s : Server) (path : List ℕ) (index : ℕ) {h : HashEntry}
    → get_hash_entry_ref s path index ≡ some h
    → IsValid h
    → let t = unlockfile_with_session fd path index i s in
      let (result, next, l) = release fd (lock_of s h) in
      (t.0 ≡ result)
      × (t.1.clients_to_notify ≡ s.clients_to_notify ++ present (next ∷ []))
      × HasLock t.1 path index l
unfolding unlockfile_with_session release hand_over get_hash_entry_ref
unlockfile_with_session-release fd i s path index {h} e v =
    elim (Bool-cases (is_owner (s.heap h.file).owner fd)) [
      | inl own ↦ rw (e, own, unlockfile_with_session, release) (refl, given.0, given.1)
      | inr other ↦
          rw (e, other, unlockfile_with_session, release)
            (refl, sym (append-nil s.clients_to_notify), (h, e, v, refl))
    ]
  where
    freed : Server
    freed =
        set_session fd (forbid_write i (s.sessions fd))
          (set_file h.file (record (s.heap h.file) { owner = none }) s)

    given :
        let (next, rest) = take_first (queued h) in
        ((hand_over path index h freed).clients_to_notify
          ≡ s.clients_to_notify ++ present (next ∷ []))
        × HasLock
            (hand_over path index h freed)
            path
            index
            (record { owner = Option.map (λ r. r.client) next; queue = rest })
    given =
        hand_over-HasLock freed path index (get_hash_entry_ref-owner s path index none e) v
          (ap (λ f. f.owner) (update-same s.heap h.file (record (s.heap h.file) { owner = none })))
