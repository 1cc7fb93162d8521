-- ===== src/Files/Asked/Operations.antt =====
-- The requests kept by the other operations of files.c that a worker calls.
use progetto_sistemi_operati.Base.{
  Gives, >>=-Gives, Gives-any, if-both-Gives, ℕ, ◌+◌, List, [], ◌∷◌, inl, inr, Option-cases, ok,
  ltb, ◌^◌, leb, refl,
}
use progetto_sistemi_operati.Caching.Config.{Config}
use progetto_sistemi_operati.Caching.Policy.{handle_edit, handle_removal, handle_usage}
use progetto_sistemi_operati.Session.{is_file_opened}
use progetto_sistemi_operati.Files.Entry.{
  FileEntry, pathname, content, bucket_of, replace_file, extend_file,
}
use progetto_sistemi_operati.Files.Waiting.{Request}
use progetto_sistemi_operati.Files.State.{
  Server, length_of, get_hash_entry_ref, get_file_entry_ref, set_session,
}
use progetto_sistemi_operati.Files.Locks.{Status, failed, unlockfile, is_owner}
use progetto_sistemi_operati.Files.Operations.Release.{
  filesystem_lock_acquire, filesystem_lock_release, filesystem_remove_file, forget_file,
}
use progetto_sistemi_operati.Files.Operations.Content.{
  remove_all, edit_file, writable_descriptor, filesystem_write_file, filesystem_append_to_file,
}
use progetto_sistemi_operati.Files.Operations.Open.{
  read_chosen, chosen, filesystem_get_n_file_entry, filesystem_get_file_entry,
}
use progetto_sistemi_operati.Files.Asked.{Grows, Keeps, Keeps-refl, Keeps-trans, same-Keeps}
use progetto_sistemi_operati.Files.Asked.Locking.{
  more, bucket_of-small, remove_hash_entry_ref-Keeps, lockfile-Grows, unlockfile_with_session-Keeps,
}

pub filesystem_lock_acquire-Grows :
    (r : Request) (path : List ℕ) (s : Server)
    → let t = filesystem_lock_acquire r path s in Grows (more t.0 r.client) s t.1
unfolding filesystem_lock_acquire
filesystem_lock_acquire-Grows r path s =
    elim (Option-cases (is_file_opened (s.sessions r.client) path)) [
      | inl closed ↦ rw (closed, filesystem_lock_acquire) (Keeps-refl s)
      | inr (i, opened) ↦
          rw (opened, filesystem_lock_acquire)
            (lockfile-Grows r path (bucket_of path) s (bucket_of-small path))
    ]

pub filesystem_lock_release-Keeps :
    (r : Request) (path : List ℕ) (s : Server) → Keeps s (filesystem_lock_release r path s).1
unfolding filesystem_lock_release unlockfile
filesystem_lock_release-Keeps r path s =
    elim (Option-cases (is_file_opened (s.sessions r.client) path)) [
      | inl closed ↦ rw (closed, filesystem_lock_release) (Keeps-refl s)
      | inr (i, opened) ↦
          rw (opened, filesystem_lock_release)
            (Keeps-trans
              (unlockfile_with_session-Keeps r.client path (bucket_of path) i s
                (bucket_of-small path))
              (same-Keeps _ _ refl refl))
    ]

abbrev pub After : {A : Type 0} → Server → A × Server → Type 0
After s t = Keeps s t.1

pub filesystem_remove_file-Keeps :
    (cfg : Config) (r : Request) (path : List ℕ) (s : Server)
    → Gives (After s) (filesystem_remove_file cfg r path s)
unfolding filesystem_remove_file
filesystem_remove_file-Keeps cfg r path s =
    elim (Option-cases (is_file_opened (s.sessions r.client) path)) [
      | inl closed ↦ rw (closed, filesystem_remove_file) (Keeps-refl s)
      | inr (d, opened) ↦ elim (Option-cases (get_hash_entry_ref s path (bucket_of path))) [
        | inl missing ↦ rw (opened, missing, filesystem_remove_file) (Keeps-refl s)
        | inr (h, found) ↦
            rw (opened, found, filesystem_remove_file)
              (if-both-Gives (After s) (is_owner (s.heap h.file).owner r.client) _ _
                (>>=-Gives (λ c. Unit) (After s) (handle_removal cfg (length_of s) h.file s.cache) _
                  (Gives-any _)
                  (λ cache u. Keeps-trans (same-Keeps s _ refl refl) (
                    remove_hash_entry_ref-Keeps path (bucket_of path)
                      (set_session r.client (forget_file d (s.sessions r.client))
                        (record s { cache = cache }))
                      (bucket_of-small path))))
                (Keeps-refl s))
      ]
    ]

remove_all-Keeps : (qs : List ℕ) (s : Server) → Keeps s (remove_all qs s)
unfolding remove_all
remove_all-Keeps [] s = Keeps-refl s
remove_all-Keeps (q ∷ qs) s =
    Keeps-trans (remove_hash_entry_ref-Keeps _ _ s (bucket_of-small (pathname (s.heap q))))
      (remove_all-Keeps qs _)

abbrev pub AfterEdit : Server → Status × List ℕ × Server → Type 0
AfterEdit s t = Keeps s t.2

edit_file-Keeps :
    (cfg : Config) (p fd d new_size : ℕ) (f : FileEntry → FileEntry) (s : Server)
    → Gives (AfterEdit s) (edit_file cfg p fd d new_size f s)
unfolding edit_file
edit_file-Keeps cfg p fd d new_size f s =
    >>=-Gives (λ r. Unit) (AfterEdit s) (handle_edit cfg (length_of s) p new_size s.cache) _
      (Gives-any _)
      (λ r u.
        Keeps-trans (same-Keeps s (record s { cache = r.1 }) refl refl) (
          Keeps-trans (remove_all-Keeps r.0 (record s { cache = r.1 })) (same-Keeps _ _ refl refl)))

pub filesystem_write_file-Keeps :
    (cfg : Config) (r : Request) (s : Server) → Gives (AfterEdit s) (filesystem_write_file cfg r s)
unfolding filesystem_write_file
filesystem_write_file-Keeps cfg r s =
    let path = pathname r.file in
    if-both-Gives (AfterEdit s) (ltb cfg.max_file_size r.file.content_length) _ _ (Keeps-refl s)
      (elim (Option-cases (get_file_entry_ref s path (bucket_of path))) [
        | inl missing ↦ rw missing (Keeps-refl s)
        | inr (p, found) ↦ rw found (
            if-both-Gives (AfterEdit s) (is_owner (s.heap p).owner r.client) _ _
              (elim (Option-cases (writable_descriptor (s.sessions r.client) path)) [
                | inl closed ↦ rw closed (Keeps-refl s)
                | inr (d, opened) ↦
                    rw opened (edit_file-Keeps cfg p r.client d _ (λ f. replace_file f r.file) s)
              ])
              (Keeps-refl s))
      ])

pub filesystem_append_to_file-Keeps :
    (cfg : Config) (junk : ℕ) (r : Request) (s : Server)
    → Gives (AfterEdit s) (filesystem_append_to_file cfg junk r s)
unfolding filesystem_append_to_file
filesystem_append_to_file-Keeps cfg junk r s =
    let path = pathname r.file in
    elim (Option-cases (is_file_opened (s.sessions r.client) path)) [
      | inl closed ↦ rw (closed, filesystem_append_to_file) (Keeps-refl s)
      | inr (d, opened) ↦ elim (Option-cases (get_file_entry_ref s path (bucket_of path))) [
        | inl missing ↦ rw (opened, missing, filesystem_append_to_file) (Keeps-refl s)
        | inr (p, found) ↦
            rw (opened, found, filesystem_append_to_file)
              (if-both-Gives (AfterEdit s)
                (ltb cfg.max_file_size (r.file.content_length + (s.heap p).content_length))
                (ok (failed, [], s)) _ (Keeps-refl s)
                (edit_file-Keeps cfg p r.client d
                  ((s.heap p).content_length + r.file.content_length)
                  (λ f. extend_file junk f (content r.file)) s))
      ]
    ]

pub filesystem_get_file_entry-Keeps :
    (cfg : Config) (path : List ℕ) (s : Server)
    → Gives (After s) (filesystem_get_file_entry cfg path s)
unfolding filesystem_get_file_entry
filesystem_get_file_entry-Keeps cfg path s =
    elim (Option-cases (get_file_entry_ref s path (bucket_of path))) [
      | inl missing ↦ rw (missing, filesystem_get_file_entry) (Keeps-refl s)
      | inr (p, found) ↦
          rw (found, filesystem_get_file_entry)
            (>>=-Gives (λ c. Unit) (After s) (handle_usage cfg p s.cache) _ (Gives-any _)
              (λ cache u. same-Keeps s _ refl refl))
    ]

read_chosen-Keeps :
    (cfg : Config) (head : ℕ) (es : List ℕ) (s : Server)
    → Gives (After s) (read_chosen cfg head es s)
unfolding read_chosen
read_chosen-Keeps cfg head [] s = Keeps-refl s
read_chosen-Keeps cfg head (e ∷ es) s =
    >>=-Gives (λ c. Unit) (After s) (handle_usage cfg _ s.cache) _ (Gives-any _)
      (λ cache u.
        >>=-Gives (After (record s { cache = cache })) (After s)
          (read_chosen cfg head es (record s { cache = cache })) _
          (read_chosen-Keeps cfg head es (record s { cache = cache }))
          (λ t k. Keeps-trans (same-Keeps s (record s { cache = cache }) refl refl) k))

pub filesystem_get_n_file_entry-Keeps :
    (cfg : Config) (n : ℕ) (rand : List ℕ) (s : Server)
    → Gives (After s) (filesystem_get_n_file_entry cfg n rand s)
unfolding filesystem_get_n_file_entry
filesystem_get_n_file_entry-Keeps cfg n rand s =
    if-both-Gives (After s) (leb (2 ^ 31) n) _ _ tt
      (read_chosen-Keeps cfg s.cache.head (chosen s.cache n rand) s)
