-- ===== src/Files/State.antt =====
-- src/server/src/files.c: the hash table, and the functions that its lock protects.
use mathlib.Core.Option
use progetto_sistemi_operati.Base.{
  ℕ, List, [], ◌∷◌, ◌++◌, Bool, true, false, Option, none, some, str_eq, ◌==◌, if◌then◌else◌,
}
use progetto_sistemi_operati.Session.{Session}
use progetto_sistemi_operati.Caching.State.{Cache}
use progetto_sistemi_operati.Files.Entry.{FileEntry, pathname}
use progetto_sistemi_operati.Files.Waiting.{Request, HashEntry, new_hash_entry}

-- `heap p` is the file that pointer `p` points to; `fresh` is the next pointer that `malloc` gives.
-- `clients_to_notify` is what has been put into that queue so far and not taken out.
pub record Server : Type 0 where
  pub heap : ℕ → FileEntry
  pub fresh : ℕ
  pub table : ℕ → List HashEntry
  pub cache : Cache
  pub sessions : ℕ → Session
  pub clients_to_notify : List Request

abbrev pub update {κ} : {V : Type κ} (memory : ℕ → V) (at : ℕ) (value : V) → ℕ → V
update memory at value p = if at == p then value else memory p

-- The `length` field of a file, as the cache reads it.
abbrev pub length_of : Server → ℕ → ℕ
length_of s p = (s.heap p).content_length

abbrev pub set_file : ℕ → FileEntry → Server → Server
set_file p f s = record s { heap = update s.heap p f }

abbrev pub set_session : ℕ → Session → Server → Server
set_session fd c s = record s { sessions = update s.sessions fd c }

-- `strcmp(entry->file->pathname, pathname) == 0`
abbrev pub has_path : (ℕ → FileEntry) → List ℕ → HashEntry → Bool
has_path heap path h = str_eq (pathname (heap h.file)) path

module _ (heap : ℕ → FileEntry) (path : List ℕ) where
  unfoldable pub find_entry : List HashEntry → Option HashEntry
  find_entry [] = none
  find_entry (h ∷ hs) = let rest = find_entry hs in if has_path heap path h then some h else rest

  -- A write through the pointer that the search returns.
  unfoldable pub replace_entry : HashEntry → List HashEntry → List HashEntry
  replace_entry h' [] = []
  replace_entry h' (h ∷ hs) =
      let rest = h ∷ replace_entry h' hs in if has_path heap path h then h' ∷ hs else rest

  unfoldable pub unlink_entry : List HashEntry → List HashEntry
  unlink_entry [] = []
  unlink_entry (h ∷ hs) =
      let rest = h ∷ unlink_entry hs in if has_path heap path h then hs else rest

unfoldable pub get_hash_entry_ref : Server → List ℕ → ℕ → Option HashEntry
unfolding find_entry
get_hash_entry_ref s path index = find_entry s.heap path (s.table index)

unfoldable pub get_file_entry_ref : Server → List ℕ → ℕ → Option ℕ
unfolding get_hash_entry_ref
get_file_entry_ref s path index = Option.map (λ h. h.file) (get_hash_entry_ref s path index)

unfoldable pub set_entry : List ℕ → ℕ → HashEntry → Server → Server
unfolding replace_entry
set_entry path index h s = record s {
  table = update s.table index (replace_entry s.heap path h (s.table index));
}

-- `put_fileEntry_ref`: whether the file was put into the table.
unfoldable pub put_file_entry_ref : ℕ → ℕ → Server → Bool × Server
unfolding get_file_entry_ref new_hash_entry
put_file_entry_ref p index s =
    let s' = set_file p (record (s.heap p) { owner = none }) s in
    elim (get_file_entry_ref s' (pathname (s'.heap p)) index) [
      | none ↦
          (true, record s' { table = update s'.table index (new_hash_entry p ∷ s'.table index) })
      | some q ↦ (false, s')
    ]

-- What a client that waited is told: the answer, and that it waits no more.
unfoldable pub answer : Bool → Request → Server → Server
answer status r s =
    set_session r.client
      (record (s.sessions r.client) { op_status = status; pathname_pending_lock = none })
      (record s { clients_to_notify = s.clients_to_notify ++ r ∷ [] })

unfoldable pub answer_all : Bool → List Request → Server → Server
unfolding answer
answer_all status [] s = s
answer_all status (r ∷ rs) s = answer_all status rs (answer status r s)
