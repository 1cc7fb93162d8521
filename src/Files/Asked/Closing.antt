-- ===== src/Files/Asked/Closing.antt =====
-- The requests kept when a connection ends, in files.c.
use progetto_sistemi_operati.Base.{
  Gives, Gives-map, if-both-Gives, >>=-Gives, ℕ, zero, suc, ◌+◌, ◌-◌, ◌%◌, ◌≤◌, ◌≡◌, refl, inl, inr,
  ◌⊎◌, ap, ap₂, ◌∙◌, List, [], ◌∷◌, false, Option, none, some, arith, ◌==◌, set, get_or, length-set,
  Option-cases,
}
use progetto_sistemi_operati.Base.Ring.{window}
use progetto_sistemi_operati.Files.Entry.{bucket_of}
use progetto_sistemi_operati.Files.Waiting.{Request, HashEntry, max_waiting, waiting_at}
use progetto_sistemi_operati.Files.Waiting.Fifo.{IsValid, present, waiters}
use progetto_sistemi_operati.Files.State.{
  Server, find_entry, set_session, get_hash_entry_ref, set_entry,
}
use progetto_sistemi_operati.Files.Locks.{clean_loop, clean_pending_lock_request}
use progetto_sistemi_operati.Files.Operations.Release.{
  unlock_opened, filesystem_handle_connection_closed,
}
use progetto_sistemi_operati.Files.Asked.{
  asked, Keeps, Keeps-refl, Keeps-trans, same-Keeps, set_entry-Grows,
}
use progetto_sistemi_operati.Files.Asked.Locking.{bucket_of-small, unlockfile_with_session-Keeps}

-- A slot after another one has been made null.
nulled :
    (q : List (Option Request)) (j i : ℕ)
    → (get_or (set q j none) i none ≡ none) ⊎ (get_or (set q j none) i none ≡ get_or q i none)
nulled [] j i = inr refl
nulled (o ∷ os) zero zero = inl refl
nulled (o ∷ os) zero (suc i) = inr refl
nulled (o ∷ os) (suc j) zero = inr refl
nulled (o ∷ os) (suc j) (suc i) = nulled os j i

at-nulled :
    (c : ℕ) (o o' : Option Request) (os os' : List (Option Request))
    → (o' ≡ none) ⊎ (o' ≡ o)
    → asked c (present os') ≤ asked c (present os)
    → asked c (present (o' ∷ os')) ≤ asked c (present (o ∷ os))
at-nulled c none none os os' e le = le
at-nulled c none (some r) os os' (inl e) le = cc
at-nulled c none (some r) os os' (inr e) le = cc
at-nulled c (some r) none os os' e le = omega (arith, le)
at-nulled c (some r) (some q) os os' (inl e) le = cc
at-nulled c (some r) (some q) os os' (inr e) le =
    omega (arith, le, ap (λ o. asked c (present (o ∷ []))) e)

window-nulled :
    (c : ℕ) (q : List (Option Request)) (j size i n : ℕ)
    → asked c (present (window none (set q j none) size i n))
      ≤ asked c (present (window none q size i n))
window-nulled c q j size i zero = omega arith
window-nulled c q j size i (suc n) =
    at-nulled c (get_or q i none) (get_or (set q j none) i none) _ _ (nulled q j i)
      (window-nulled c q j size ((i + 1) % size) n)

-- The loop without notification changes sessions and makes slots null.
record Cleaned (h : HashEntry) (s : Server) (r : HashEntry × Server) : Type 0 where
  same_heap : r.1.heap ≡ s.heap
  same_table : r.1.table ≡ s.table
  same_queue : r.1.clients_to_notify ≡ s.clients_to_notify
  valid : IsValid h → IsValid r.0
  fewer : (c : ℕ) → asked c (waiters r.0) ≤ asked c (waiters h)

clean_loop-Cleaned :
    (n i fd : ℕ) (h : HashEntry) (s : Server) → Gives (Cleaned h s) (clean_loop n i fd false h s)
unfolding clean_loop
clean_loop-Cleaned zero i fd h s = record {
  same_heap = refl;
  same_table = refl;
  same_queue = refl;
  valid = λ v. v;
  fewer = λ c. omega arith;
}
clean_loop-Cleaned (suc n) i fd h s = elim (Option-cases (waiting_at h i)) [
  | inl gone ↦ rw (gone, clean_loop) tt
  | inr (r, there) ↦
      let h' = record h { waiting_queue = set h.waiting_queue (i % max_waiting) none } in
      let t = set_session fd (record (s.sessions fd) { pathname_pending_lock = none }) s in
      rw (there, clean_loop)
        (if-both-Gives (Cleaned h s) (r.client == fd) (clean_loop n (i + 1) fd false h' t)
          (clean_loop n (i + 1) fd false h s)
          (Gives-map (Cleaned h' t) (Cleaned h s) (clean_loop n (i + 1) fd false h' t)
            (λ u k. record {
              same_heap = k.same_heap;
              same_table = k.same_table;
              same_queue = k.same_queue;
              valid = λ v. k.valid (record {
                storage = length-set h.waiting_queue (i % max_waiting) none ∙ v.storage;
                head_in = v.head_in;
                ordered = v.ordered;
                fits = v.fits;
              });
              fewer = λ c. omega (
                arith,
                k.fewer c,
                window-nulled c h.waiting_queue (i % max_waiting) max_waiting h.queue_head
                    (h.queue_tail - h.queue_head),
              );
            })
            (clean_loop-Cleaned n (i + 1) fd h' t))
          (clean_loop-Cleaned n (i + 1) fd h s))
]

Cleaned-Keeps :
    (path : List ℕ) (h : HashEntry) (s : Server) (r : HashEntry × Server)
    → get_hash_entry_ref s path (bucket_of path) ≡ some h
    → Cleaned h s r
    → Keeps s (set_entry path (bucket_of path) r.0 r.1)
unfolding get_hash_entry_ref
Cleaned-Keeps path h s r found k = Keeps-trans (same-Keeps s r.1 k.same_table k.same_queue) (
    set_entry-Grows r.1 path (bucket_of path) (bucket_of-small path)
      (ap₂ (λ heap table. find_entry heap path (table (bucket_of path))) k.same_heap k.same_table
        ∙ found)
      r.0 (λ c. 0) (λ v. (k.valid v, λ c. omega (arith, k.fewer c))))

clean_pending_lock_request-Keeps :
    (fd : ℕ) (s : Server) → Gives (Keeps s) (clean_pending_lock_request fd false s)
unfolding clean_pending_lock_request
clean_pending_lock_request-Keeps fd s = elim (Option-cases (s.sessions fd).pathname_pending_lock) [
  | inl nothing ↦ rw (nothing, clean_pending_lock_request) (Keeps-refl s)
  | inr (path, pending) ↦ elim (Option-cases (get_hash_entry_ref s path (bucket_of path))) [
    | inl missing ↦ rw (pending, missing, clean_pending_lock_request) (same-Keeps s _ refl refl)
    | inr (h, found) ↦
        rw (pending, found, clean_pending_lock_request)
          (>>=-Gives (Cleaned h s) (Keeps s)
            (clean_loop (h.queue_tail - h.queue_head) h.queue_head fd false h s) _
            (clean_loop-Cleaned (h.queue_tail - h.queue_head) h.queue_head fd h s)
            (λ r k. Keeps-trans (Cleaned-Keeps path h s r found k) (same-Keeps _ _ refl refl)))
  ]
]

unlock_opened-Keeps :
    (os : List (Option (List ℕ))) (i fd : ℕ) (s : Server) → Keeps s (unlock_opened os i fd s)
unfolding unlock_opened
unlock_opened-Keeps [] i fd s = Keeps-refl s
unlock_opened-Keeps (none ∷ os) i fd s = unlock_opened-Keeps os (i + 1) fd s
unlock_opened-Keeps (some path ∷ os) i fd s =
    Keeps-trans (unlockfile_with_session-Keeps fd path (bucket_of path) i s (bucket_of-small path))
      (unlock_opened-Keeps os (i + 1) fd _)

pub filesystem_handle_connection_closed-Keeps :
    (fd : ℕ) (s : Server) → Gives (Keeps s) (filesystem_handle_connection_closed fd s)
unfolding filesystem_handle_connection_closed
filesystem_handle_connection_closed-Keeps fd s =
    >>=-Gives (Keeps s) (Keeps s) (clean_pending_lock_request fd false s) _
      (clean_pending_lock_request-Keeps fd s)
      (λ t k. Keeps-trans k (unlock_opened-Keeps (t.sessions fd).opened_files 0 fd t))
