-- ===== src/Files/Operations/Edits.antt =====
-- What a write or an append of files.c does to the files and to the client's rights.
use progetto_sistemi_operati.Base.{
  ℕ, ◌-◌, zero, suc, ◌+◌, ◌≡◌, ◌≢◌, refl, sym, subst, ap, ◌∙◌, inl, inr, List, [], ◌∷◌, ◌++◌, Bool,
  true, false, Option, none, some, get_or, set, ◌==◌, ltb, Bool-cases, Option-cases, ok, >>=-eq-ok,
  ==_iff, arith, ◌≤◌, ◌<◌, ◌⊎◌,
}
use progetto_sistemi_operati.Session.{Session, is_file_opened}
use progetto_sistemi_operati.Caching.Config.{Config}
use progetto_sistemi_operati.Caching.Policy.{handle_edit}
use progetto_sistemi_operati.Files.Entry.{
  FileEntry, pathname, content, bucket_of, replace_file, extend_file,
}
use progetto_sistemi_operati.Files.Entry.Layout.{Layout, Layout-read, extend_file-Layout}
use progetto_sistemi_operati.Files.Waiting.{Request, drain}
use progetto_sistemi_operati.Files.State.{
  Server, update, length_of, get_hash_entry_ref, get_file_entry_ref, answer, answer_all,
  unlink_entry, set_session, set_file,
}
use progetto_sistemi_operati.Files.Locks.{
  forbid_write, Status, done, failed, is_owner, remove_hash_entry_ref,
}
use progetto_sistemi_operati.Files.Locks.Lookup.{update-same}
use progetto_sistemi_operati.Files.Operations.Content.{
  remove_all, edit_file, writable_descriptor, filesystem_write_file, filesystem_append_to_file,
}

answer_all-heap :
    (status : Bool) (rs : List Request) (s : Server) → (answer_all status rs s).heap ≡ s.heap
unfolding answer_all answer
answer_all-heap status [] s = refl
answer_all-heap status (r ∷ rs) s = answer_all-heap status rs (answer status r s)

remove_hash_entry_ref-heap :
    (path : List ℕ) (index : ℕ) (s : Server) → (remove_hash_entry_ref path index s).heap ≡ s.heap
unfolding remove_hash_entry_ref
remove_hash_entry_ref-heap path index s = elim (Option-cases (get_hash_entry_ref s path index)) [
  | inl e ↦ rw (e, remove_hash_entry_ref) refl
  | inr (h, e) ↦
      rw (e, remove_hash_entry_ref)
        (answer_all-heap false (drain (h.queue_tail - h.queue_head) h)
          (record s { table = update s.table index (unlink_entry s.heap path (s.table index)) }))
]

remove_all-heap : (qs : List ℕ) (s : Server) → (remove_all qs s).heap ≡ s.heap
unfolding remove_all
remove_all-heap [] s = refl
remove_all-heap (q ∷ qs) s = remove_all-heap qs _ ∙ remove_hash_entry_ref-heap _ _ s

get_or-set_default : (bs : List Bool) (i : ℕ) → get_or (set bs i false) i false ≡ false
get_or-set_default [] i = refl
get_or-set_default (b ∷ bs) zero = refl
get_or-set_default (b ∷ bs) (suc i) = get_or-set_default bs i

update-other : (heap : ℕ → FileEntry) (p q : ℕ) (f : FileEntry) → p ≢ q → update heap p f q ≡ heap q
update-other heap p q f ne = rw (let e : (p == q) ≡ false = ground arith in e) refl

-- An edit that returns has changed the one file and used up the right to write.
abbrev pub Edited : Server → ℕ → ℕ → ℕ → FileEntry → Status × List ℕ × Server → Type 0
Edited s p fd d f r =
    (r.0 ≡ done)
    × (r.2.heap p ≡ f)
    × ((q : ℕ) → p ≢ q → r.2.heap q ≡ s.heap q)
    × (get_or (r.2.sessions fd).can_write_on_file d false ≡ false)

pub edit_file-Edited :
    (cfg : Config) (p fd d size : ℕ) (f : FileEntry → FileEntry) (s : Server)
    {r : Status × List ℕ × Server}
    → edit_file cfg p fd d size f s ≡ ok r
    → Edited s p fd d (f (s.heap p)) r
unfolding edit_file
edit_file-Edited cfg p fd d size f s {r} e =
    let (edit, done_so, rest) = >>=-eq-ok (handle_edit cfg (length_of s) p size s.cache) _ e in
    let u = remove_all edit.0 (record s { cache = edit.1 }) in
    let same = remove_all-heap edit.0 (record s { cache = edit.1 }) in
    let r' : Status × List ℕ × Server = (
      done,
      edit.0,
      set_session fd (forbid_write d (u.sessions fd)) (set_file p (f (u.heap p)) u),
    ) in
    subst (Edited s p fd d (f (s.heap p))) (let e' : r' ≡ r = cc in e') (
      refl,
      update-same u.heap p (f (u.heap p)) ∙ ap (λ h. f (h p)) same,
      λ q ne. update-other u.heap p q (f (u.heap p)) ne ∙ ap (λ h. h q) same,
      rw (let e : (fd == fd) ≡ true = ground arith in e)
          (get_or-set_default (u.sessions fd).can_write_on_file d),
    )

-- The client has opened the path as `d`, and the table has the file `p` for it.
abbrev pub Opened : Server → Request → ℕ → ℕ → Type 0
Opened s r p d =
    (get_file_entry_ref s (pathname r.file) (bucket_of (pathname r.file)) ≡ some p)
    × (is_file_opened (s.sessions r.client) (pathname r.file) ≡ some d)

-- The client owns the file too, and the open that created it has left it the right to write.
abbrev pub MayWrite : Server → Request → ℕ → ℕ → Type 0
MayWrite s r p d =
    Opened s r p d
    × ((s.heap p).owner ≡ some r.client)
    × (get_or (s.sessions r.client).can_write_on_file d false ≡ true)

is_owner_lem : (o : Option ℕ) (fd : ℕ) → is_owner o fd ≡ true → o ≡ some fd
is_owner_lem none fd e = cc
is_owner_lem (some o) fd e = ap some ((==_iff o fd).0 e)

pub write_permitted :
    (cfg : Config) (r : Request) (s : Server) (p d : ℕ)
    → MayWrite s r p d
    → ltb cfg.max_file_size r.file.content_length ≡ false
    → filesystem_write_file cfg r s
      ≡ edit_file cfg p r.client d r.file.content_length (λ f. replace_file f r.file) s
unfolding filesystem_write_file writable_descriptor
write_permitted cfg r s p d ((found, opened), owned, writable) small =
    rw
      (
        small,
        found,
        owned,
        let e : (r.client == r.client) ≡ true = ground arith in e,
        opened,
        writable,
      )
      refl

-- A client that may write and sends no more than a file can hold: if the write returns, it has
-- succeeded, the file has the path and the content of the request, no other file has changed, and
-- the right to write is used up.
pub filesystem_write_file-content :
    (cfg : Config) (r : Request) (s : Server) (p d : ℕ)
    → MayWrite s r p d
    → r.file.content_length ≤ cfg.max_file_size
    → {a : Status × List ℕ × Server} → filesystem_write_file cfg r s ≡ ok a
    → (a.0 ≡ done)
      × (content (a.2.heap p) ≡ content r.file)
      × (pathname (a.2.heap p) ≡ pathname r.file)
      × ((q : ℕ) → p ≢ q → a.2.heap q ≡ s.heap q)
      × (writable_descriptor (a.2.sessions r.client) (pathname r.file) ≢ some d)
unfolding replace_file content pathname writable_descriptor
filesystem_write_file-content cfg r s p d may small {a} e =
    let (finished, file, others, used) =
      edit_file-Edited cfg p r.client d r.file.content_length (λ f. replace_file f r.file) s {r = a}
        (sym (write_permitted cfg r s p d may (ground arith)) ∙ e) in
    (finished, ap content file, ap pathname file, others, used_up (a.2.sessions r.client) used)
  where
    used_up :
        (c : Session)
        → get_or c.can_write_on_file d false ≡ false
        → writable_descriptor c (pathname r.file) ≢ some d
    used_up c used = elim (Option-cases (is_file_opened c (pathname r.file))) [
      | inl closed ↦ rw (closed, writable_descriptor) (λ w. cc)
      | inr (i, opened) ↦
          rw (opened, writable_descriptor)
            (elim (Bool-cases (get_or c.can_write_on_file i false)) [
              | inl right ↦ rw right (λ w.
                  let same : i ≡ d = cc in
                  let no_right =
                    subst (λ j. get_or c.can_write_on_file j false ≡ false) (sym same) used in
                  cc)
              | inr no_right ↦ rw no_right (λ w. cc)
            ])
    ]

append_permitted :
    (cfg : Config) (junk : ℕ) (r : Request) (s : Server) (p d : ℕ)
    → Opened s r p d
    → ltb cfg.max_file_size (r.file.content_length + (s.heap p).content_length) ≡ false
    → filesystem_append_to_file cfg junk r s
      ≡ edit_file cfg p r.client d
          ((s.heap p).content_length + r.file.content_length)
          (λ f. extend_file junk f (content r.file))
          s
unfolding filesystem_append_to_file
append_permitted cfg junk r s p d (found, opened) small =
    rw (opened, filesystem_append_to_file, found, small) refl

-- A client that has opened a file, whose buffer holds its path before its content, and keeps to
-- the size limit: if the append returns, it has succeeded, the file keeps its path, the bytes
-- stand behind its content, and no other file has changed.
pub filesystem_append_to_file-content :
    (cfg : Config) (junk : ℕ) (r : Request) (s : Server) (p d : ℕ) {path bytes : List ℕ}
    → Opened s r p d
    → Layout (s.heap p) path bytes
    → r.file.content_length + (s.heap p).content_length ≤ cfg.max_file_size
    → {a : Status × List ℕ × Server} → filesystem_append_to_file cfg junk r s ≡ ok a
    → (a.0 ≡ done)
      × (content (a.2.heap p) ≡ bytes ++ content r.file)
      × (pathname (a.2.heap p) ≡ path)
      × ((q : ℕ) → p ≢ q → a.2.heap q ≡ s.heap q)
filesystem_append_to_file-content cfg junk r s p d opened l small {a} e =
    let (finished, file, others, used) =
      edit_file-Edited cfg p r.client d _ (λ f. extend_file junk f (content r.file)) s {r = a}
        (sym (append_permitted cfg junk r s p d opened (ground arith)) ∙ e) in
    let (path_kept, extended) = Layout-read (extend_file-Layout junk (content r.file) l) in
    (finished, ap content file ∙ extended, ap pathname file ∙ path_kept, others)

-- A client without the right to write to the path, or with more content than a file can hold, is
-- refused and nothing changes.
pub filesystem_write_file-refused :
    (cfg : Config) (r : Request) (s : Server)
    → (cfg.max_file_size < r.file.content_length) ⊎ ((p d : ℕ) → ¬ MayWrite s r p d)
    → filesystem_write_file cfg r s ≡ ok (failed, [], s)
unfolding filesystem_write_file writable_descriptor
filesystem_write_file-refused cfg r s why =
    elim (Bool-cases (ltb cfg.max_file_size r.file.content_length)) [
      | inl big ↦ rw big refl
      | inr small ↦
          rw small
            (elim (Option-cases
              (get_file_entry_ref s (pathname r.file) (bucket_of (pathname r.file)))) [
                | inl missing ↦ rw missing refl
                | inr (p, found) ↦
                    rw found (elim (Bool-cases (is_owner (s.heap p).owner r.client)) [
                      | inr other ↦ rw other refl
                      | inl own ↦
                          rw own
                            (elim (Option-cases
                              (is_file_opened (s.sessions r.client) (pathname r.file))) [
                                | inl closed ↦ rw closed refl
                                | inr (d, opened) ↦
                                    rw opened
                                      (elim (Bool-cases
                                        (get_or (s.sessions r.client).can_write_on_file d false)) [
                                          | inr no_right ↦ rw no_right refl
                                          | inl right ↦ elim why [
                                            | inl big ↦ absurd (
                                                let no : ltb cfg.max_file_size r.file.content_length
                                                      ≡ false
                                                    → ⊥ =
                                                  λ e. ground arith in
                                                no small)
                                            | inr never ↦ absurd (
                                                never p d (
                                                  (found, opened),
                                                  is_owner_lem (s.heap p).owner r.client own,
                                                  right,
                                                ))
                                          ]
                                        ])
                              ])
                    ])
              ])
    ]
