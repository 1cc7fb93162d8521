-- ===== src/Files/Operations/Content.antt =====
-- src/server/src/files.c: writing and appending.
use progetto_sistemi_operati.Base.{
  ℕ, ◌+◌, List, [], ◌∷◌, false, Option, none, some, get_or, ltb, if◌then◌else◌, Outcome, ok, ◌>>=◌,
}
use progetto_sistemi_operati.Session.{Session, is_file_opened}
use progetto_sistemi_operati.Caching.Config.{Config}
use progetto_sistemi_operati.Caching.Policy.{handle_edit}
use progetto_sistemi_operati.Files.Entry.{
  FileEntry, pathname, content, bucket_of, replace_file, extend_file,
}
use progetto_sistemi_operati.Files.Waiting.{Request}
use progetto_sistemi_operati.Files.State.{
  Server, length_of, set_file, set_session, get_file_entry_ref,
}
use progetto_sistemi_operati.Files.Locks.{
  Status, done, failed, forbid_write, is_owner, remove_hash_entry_ref,
}

-- The files that an edit expels leave the table.
unfoldable pub remove_all : List ℕ → Server → Server
unfolding remove_hash_entry_ref
remove_all [] s = s
remove_all (q ∷ qs) s =
    remove_all qs (remove_hash_entry_ref (pathname (s.heap q)) (bucket_of (pathname (s.heap q))) s)

-- What both operations do once they may edit file `p`, opened at descriptor `d`: make room for
-- `new_size` bytes, put `f` in the place of the file, and take the right to write away.
unfoldable pub edit_file :
    Config → ℕ → ℕ → ℕ → ℕ → (FileEntry → FileEntry) → Server → Outcome (Status × List ℕ × Server)
unfolding remove_all
edit_file cfg p fd d new_size f s = handle_edit cfg (length_of s) p new_size s.cache >>= λ r.
    let t = remove_all r.0 (record s { cache = r.1 }) in
    ok (done, r.0, set_session fd (forbid_write d (t.sessions fd)) (set_file p (f (t.heap p)) t))

-- `descriptor != -1 && client->canWriteOnFile[descriptor]`, with the descriptor
unfoldable pub writable_descriptor : Session → List ℕ → Option ℕ
unfolding is_file_opened
writable_descriptor c path = elim (is_file_opened c path) [
  | none ↦ none
  | some d ↦ if get_or c.can_write_on_file d false then some d else none
]

-- `filesystem_writeFile`: the result, the files removed to make room, and the state.
unfoldable pub filesystem_write_file :
    Config → Request → Server → Outcome (Status × List ℕ × Server)
unfolding get_file_entry_ref writable_descriptor edit_file replace_file
filesystem_write_file cfg r s =
    let g = r.file in
    let refused : Outcome (Status × List ℕ × Server) = ok (failed, [], s) in
    let write : ℕ → Outcome (Status × List ℕ × Server) = λ p.
      elim (writable_descriptor (s.sessions r.client) (pathname g)) [
        | none ↦ refused
        | some d ↦ edit_file cfg p r.client d g.content_length (λ f. replace_file f g) s
      ] in
    let go : Outcome (Status × List ℕ × Server) =
      elim (get_file_entry_ref s (pathname g) (bucket_of (pathname g))) [
        | none ↦ refused
        | some p ↦ if is_owner (s.heap p).owner r.client then write p else refused
      ] in
    if ltb cfg.max_file_size g.content_length then refused else go

-- `filesystem_appendToFile`, which does not look at the owner.
unfoldable pub filesystem_append_to_file :
    Config → ℕ → Request → Server → Outcome (Status × List ℕ × Server)
unfolding get_file_entry_ref is_file_opened edit_file extend_file
filesystem_append_to_file cfg junk r s =
    let g = r.file in
    let refused : Outcome (Status × List ℕ × Server) = ok (failed, [], s) in
    let append = λ (d p : ℕ).
      let total = g.content_length + (s.heap p).content_length in
      let edit =
        edit_file cfg p r.client d ((s.heap p).content_length + g.content_length)
          (λ f. extend_file junk f (content g)) s in
      if ltb cfg.max_file_size total then refused else edit in
    elim (is_file_opened (s.sessions r.client) (pathname g)) [
      | none ↦ refused
      | some d ↦ elim (get_file_entry_ref s (pathname g) (bucket_of (pathname g))) [
        | none ↦ refused
        | some p ↦ append d p
      ]
    ]
