-- ===== src/Files/Asked.antt =====
-- The requests that src/server/src/files.c keeps for later: those in the queues of the hash entries, and
-- those in the queue of clients to notify.
pub mod Locking
pub mod Opening
pub mod Operations
pub mod Closing
use progetto_sistemi_operati.Base.{
  ℕ, ◌+◌, ◌≤◌, ◌<◌, ◌≡◌, inl, inr, subst, sym, ap, Bool, true, false, if◌then◌else◌, List, [], ◌∷◌,
  ◌++◌, some, All, arith, ◌==◌, Bool-cases, Outcome, ok, fault, exited, stuck, ◌>>=◌,
}
use progetto_sistemi_operati.Files.Entry.{FileEntry, hashtable_size}
use progetto_sistemi_operati.Files.Waiting.{Request, HashEntry}
use progetto_sistemi_operati.Files.Waiting.Fifo.{IsValid, waiters}
use progetto_sistemi_operati.Files.State.{
  Server, update, has_path, find_entry, replace_entry, unlink_entry, get_hash_entry_ref, set_entry,
}
use progetto_sistemi_operati.Threads.Counts.{one, total, total-assign}

-- How many of the requests are the client's.
abbrev pub asked : ℕ → List Request → ℕ
asked fd [] = 0
asked fd (r ∷ rs) = one fd r.client + asked fd rs

pub asked-append : (fd : ℕ) (rs qs : List Request) → asked fd (rs ++ qs) ≡ asked fd rs + asked fd qs
asked-append fd [] qs = omega arith
asked-append fd (r ∷ rs) qs = omega (arith, asked-append fd rs qs)

abbrev pub in_bucket : ℕ → List HashEntry → ℕ
in_bucket fd [] = 0
in_bucket fd (h ∷ hs) = asked fd (waiters h) + in_bucket fd hs

-- How many requests of a client are kept.
abbrev pub unanswered : ℕ → Server → ℕ
unanswered fd s = total (in_bucket fd) hashtable_size s.table + asked fd s.clients_to_notify

abbrev pub AllValid : Server → Type 0
AllValid s = (i : ℕ) → All IsValid (s.table i)

-- From `s` to `t` the queues stay well formed, and each client gets `extra` requests more at most.
pub record Grows (extra : ℕ → ℕ) (s t : Server) : Type 0 where
  pub valid : AllValid s → AllValid t
  pub bound : AllValid s → (c : ℕ) → unanswered c t ≤ unanswered c s + extra c

abbrev pub Keeps : Server → Server → Type 0
Keeps s t = Grows (λ c. 0) s t

pub Keeps-refl : (s : Server) → Keeps s s
Keeps-refl s = record { valid = λ v. v; bound = λ v c. omega arith }

-- The other fields of the state do not matter.
pub same-Keeps :
    (s t : Server) → t.table ≡ s.table → t.clients_to_notify ≡ s.clients_to_notify → Keeps s t
same-Keeps s t e e' = record {
  valid = λ v i. subst (λ f. All IsValid (f i)) (sym e) (v i);
  bound = λ v c. omega (arith, ap (total (in_bucket c) hashtable_size) e, ap (asked c) e');
}

pub Keeps-Grows : (extra : ℕ → ℕ) {s t : Server} → Keeps s t → Grows extra s t
Keeps-Grows extra k = record { valid = k.valid; bound = λ v c. omega (arith, k.bound v c) }

pub Grows-trans :
    {e f g : ℕ → ℕ} {s t u : Server}
    → Grows e s t
    → Grows f t u
    → ((c : ℕ) → e c + f c ≤ g c)
    → Grows g s u
Grows-trans a b le = record {
  valid = λ v. b.valid (a.valid v);
  bound = λ v c. omega (arith, a.bound v c, b.bound (a.valid v) c, le c);
}

pub Keeps-trans : {f : ℕ → ℕ} {s t u : Server} → Keeps s t → Grows f t u → Grows f s u
Keeps-trans a b = Grows-trans a b (λ c. omega arith)

pub Grows-Keeps : {f : ℕ → ℕ} {s t u : Server} → Grows f s t → Keeps t u → Grows f s u
Grows-Keeps a b = Grows-trans a b (λ c. omega arith)

pub AllValid-update :
    (table : ℕ → List HashEntry) (index : ℕ) (hs : List HashEntry)
    → ((i : ℕ) → All IsValid (table i))
    → All IsValid hs
    → (i : ℕ) → All IsValid (update table index hs i)
AllValid-update table index hs v w i = elim (Bool-cases (index == i)) [
  | inl same ↦ rw same w
  | inr other ↦ rw other (v i)
]

module _ (heap : ℕ → FileEntry) (path : List ℕ) (h : HashEntry) where
  pub find_entry-IsValid :
      (hs : List HashEntry) → find_entry heap path hs ≡ some h → All IsValid hs → IsValid h
  unfolding find_entry
  find_entry-IsValid [] e v = cc
  find_entry-IsValid (k ∷ hs) e (first, v) = elim (Bool-cases (has_path heap path k)) [
    | inl here ↦
        let e' : some k ≡ some h = rw here at e in let same : k ≡ h = cc in subst IsValid same first
    | inr not_here ↦ find_entry-IsValid hs (rw not_here at e) v
  ]

  replace_entry-IsValid :
      (h' : HashEntry) (hs : List HashEntry)
      → IsValid h'
      → All IsValid hs
      → All IsValid (replace_entry heap path h' hs)
  unfolding replace_entry
  replace_entry-IsValid h' [] w v = tt
  replace_entry-IsValid h' (k ∷ hs) w (first, v) = elim (Bool-cases (has_path heap path k)) [
    | inl here ↦ rw here (w, v)
    | inr not_here ↦ rw not_here (first, replace_entry-IsValid h' hs w v)
  ]

  unlink_entry-IsValid :
      (hs : List HashEntry) → All IsValid hs → All IsValid (unlink_entry heap path hs)
  unfolding unlink_entry
  unlink_entry-IsValid [] v = tt
  unlink_entry-IsValid (k ∷ hs) (first, v) = elim (Bool-cases (has_path heap path k)) [
    | inl here ↦ rw here v
    | inr not_here ↦ rw not_here (first, unlink_entry-IsValid hs v)
  ]

  replace_entry-asked :
      (h' : HashEntry) (c : ℕ) (hs : List HashEntry)
      → find_entry heap path hs ≡ some h
      → in_bucket c (replace_entry heap path h' hs) + asked c (waiters h)
        ≡ in_bucket c hs + asked c (waiters h')
  unfolding find_entry replace_entry
  replace_entry-asked h' c [] e = cc
  replace_entry-asked h' c (k ∷ hs) e = elim (Bool-cases (has_path heap path k)) [
    | inl here ↦
        let e' : some k ≡ some h = rw here at e in
        let same : k ≡ h = cc in rw here (omega (arith, ap (λ m. asked c (waiters m)) same))
    | inr not_here ↦ rw not_here (omega (arith, replace_entry-asked h' c hs (rw not_here at e)))
  ]

  unlink_entry-asked :
      (c : ℕ) (hs : List HashEntry)
      → find_entry heap path hs ≡ some h
      → in_bucket c (unlink_entry heap path hs) + asked c (waiters h) ≡ in_bucket c hs
  unfolding find_entry unlink_entry
  unlink_entry-asked c [] e = cc
  unlink_entry-asked c (k ∷ hs) e = elim (Bool-cases (has_path heap path k)) [
    | inl here ↦
        let e' : some k ≡ some h = rw here at e in
        let same : k ≡ h = cc in rw here (omega (arith, ap (λ m. asked c (waiters m)) same))
    | inr not_here ↦ rw not_here (omega (arith, unlink_entry-asked c hs (rw not_here at e)))
  ]

module _ (s : Server) (path : List ℕ) (index : ℕ) {h : HashEntry} (small : index < hashtable_size)
    (found : get_hash_entry_ref s path index ≡ some h) where
  pub found-IsValid : AllValid s → IsValid h
  unfolding get_hash_entry_ref
  found-IsValid v = find_entry-IsValid s.heap path h (s.table index) found (v index)

  pub set_entry-unanswered :
      (h' : HashEntry) (c : ℕ)
      → unanswered c (set_entry path index h' s) + asked c (waiters h)
        ≡ unanswered c s + asked c (waiters h')
  unfolding set_entry get_hash_entry_ref
  set_entry-unanswered h' c = omega (
    arith,
    total-assign (in_bucket c) hashtable_size s.table index
        (replace_entry s.heap path h' (s.table index)) small,
    replace_entry-asked s.heap path h h' c (s.table index) found,
  )

  -- The entry gets another queue.
  pub set_entry-Grows :
      (h' : HashEntry) (extra : ℕ → ℕ)
      → (IsValid h → IsValid h' × ((c : ℕ) → asked c (waiters h') ≤ asked c (waiters h) + extra c))
      → Grows extra s (set_entry path index h' s)
  unfolding set_entry get_hash_entry_ref
  set_entry-Grows h' extra more = record {
    valid = λ v. AllValid-update s.table index _ v (
        replace_entry-IsValid s.heap path h h' (s.table index) (more (found-IsValid v)).0
          (v index));
    bound = λ v c. omega (arith, set_entry-unanswered h' c, (more (found-IsValid v)).1 c);
  }

  -- The entry goes, and its requests are kept no more.
  pub unlink_entry-unanswered :
      (c : ℕ)
      → unanswered c
            (record s { table = update s.table index (unlink_entry s.heap path (s.table index)) })
          + asked c (waiters h)
        ≡ unanswered c s
  unfolding get_hash_entry_ref
  unlink_entry-unanswered c = omega (
    arith,
    total-assign (in_bucket c) hashtable_size s.table index
        (unlink_entry s.heap path (s.table index)) small,
    unlink_entry-asked s.heap path h c (s.table index) found,
  )

  pub unlink_entry-AllValid :
      AllValid s
      → AllValid
          (record s { table = update s.table index (unlink_entry s.heap path (s.table index)) })
  unlink_entry-AllValid v =
      AllValid-update s.table index _ v
        (unlink_entry-IsValid s.heap path h (s.table index) (v index))
