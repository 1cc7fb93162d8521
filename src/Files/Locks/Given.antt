-- ===== src/Files/Locks/Given.antt =====
-- The next owner of a lock, after unlockfileWithSession of src/server/src/files.c.
use progetto_sistemi_operati.Base.{
  ℕ, ◌-◌, ◌≡◌, refl, ap, sym, subst, ◌∙◌, List, true, Option, none, some,
}
use progetto_sistemi_operati.Files.Waiting.{Request, HashEntry, next_owner}
use progetto_sistemi_operati.Files.Waiting.Fifo.{IsValid, queued, take_first, next_owner-take_first}
use progetto_sistemi_operati.Files.State.{
  Server, get_hash_entry_ref, set_file, set_entry, set_session,
}
use progetto_sistemi_operati.Files.Locks.{
  is_owner, forbid_write, give_lock, hand_over, unlockfile_with_session,
}
use progetto_sistemi_operati.Files.Locks.Waiters.{Told, answer-Told}

give_lock-Told :
    (next : Option Request) (p : ℕ) (s : Server) (r : Request)
    → next ≡ some r
    → Told true (give_lock next p s) r.client
unfolding give_lock
give_lock-Told next p s r e =
    subst (λ n. Told true (give_lock n p s) r.client) (sym e)
      (answer-Told true r (set_file p (record (s.heap p) { owner = some r.client }) s))

hand_over-Told :
    (s : Server) (path : List ℕ) (index : ℕ) (h : HashEntry) (r : Request)
    {rest : List (Option Request)}
    → IsValid h
    → take_first (queued h) ≡ (some r, rest)
    → Told true (hand_over path index h s) r.client
unfolding hand_over
hand_over-Told s path index h r v e =
    let n = h.queue_tail - h.queue_head in
    give_lock-Told (next_owner n h).0 (next_owner n h).1.file
      (set_entry path index (next_owner n h).1 s) r
      (ap (λ t. t.0) ((next_owner-take_first n v refl).1) ∙ ap (λ t. t.0) e)

pub unlockfile_with_session-Told :
    (fd i : ℕ) (s : Server) (path : List ℕ) (index : ℕ) (r : Request) {h : HashEntry}
    {rest : List (Option Request)}
    → get_hash_entry_ref s path index ≡ some h
    → IsValid h
    → is_owner (s.heap h.file).owner fd ≡ true
    → take_first (queued h) ≡ (some r, rest)
    → Told true (unlockfile_with_session fd path index i s).1 r.client
unfolding unlockfile_with_session get_hash_entry_ref
unlockfile_with_session-Told fd i s path index r {h} e v own first =
    rw (e, own, unlockfile_with_session) (hand_over-Told freed path index h r v first)
  where
    freed : Server
    freed =
        set_session fd (forbid_write i (s.sessions fd))
          (set_file h.file (record (s.heap h.file) { owner = none }) s)
