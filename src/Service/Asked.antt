-- ===== src/Service/Asked.antt =====
-- The requests kept when a worker serves a request, in worker.c and operations.c: the one that is left
-- pending, and no more.
use progetto_sistemi_operati.Base.{
  ◌+◌, ◌≤◌, Gives, Gives-at, >>=-Gives, if-both-Gives, ℕ, ◌≡◌, refl, List, [], ◌∷◌, Option, none,
  some, inl, inr, ◌==◌, Option-cases, ok,
}
use progetto_sistemi_operati.Caching.Config.{Config}
use progetto_sistemi_operati.Session.{is_file_opened}
use progetto_sistemi_operati.Files.Entry.{FileEntry, pathname}
use progetto_sistemi_operati.Files.Waiting.{Request}
use progetto_sistemi_operati.Files.State.{Server}
use progetto_sistemi_operati.Files.Locks.{Status, done, waiting, failed}
use progetto_sistemi_operati.Files.Operations.Open.{
  filesystem_open_file, filesystem_get_file_entry, filesystem_get_n_file_entry,
}
use progetto_sistemi_operati.Files.Operations.Content.{
  filesystem_write_file, filesystem_append_to_file,
}
use progetto_sistemi_operati.Files.Operations.Release.{
  filesystem_lock_acquire, filesystem_lock_release, filesystem_remove_file,
}
use progetto_sistemi_operati.Files.Asked.{
  AllValid, unanswered, Grows, Keeps-refl, Keeps-trans, Keeps-Grows, same-Keeps,
}
use progetto_sistemi_operati.Files.Asked.Locking.{more}
use progetto_sistemi_operati.Files.Asked.Opening.{filesystem_open_file-Grows}
use progetto_sistemi_operati.Files.Asked.Operations.{
  After, AfterEdit, filesystem_lock_acquire-Grows, filesystem_lock_release-Keeps,
  filesystem_remove_file-Keeps, filesystem_write_file-Keeps, filesystem_append_to_file-Keeps,
  filesystem_get_file_entry-Keeps, filesystem_get_n_file_entry-Keeps,
}
use progetto_sistemi_operati.Service.{
  Result, refused, pending, answered, kept, Done, result_of, edited_files, succeeded, open_file,
  read_file, read_n_files, write_file, append_to_file, lock_file, unlock_file, close_file,
  remove_file,
}
use progetto_sistemi_operati.Service.Body.{dispatch, worker_body}
use progetto_sistemi_operati.Threads.Counts.{one}

abbrev pub left_pending : Result → ℕ → ℕ → ℕ
left_pending refused fd c = 0
left_pending pending fd c = one c fd
left_pending answered fd c = 0
left_pending kept fd c = 0

-- What the operations of `dispatch` leave behind.
abbrev Served : Request → Server → Done → Type 0
Served r s t = Grows (left_pending t.0 r.client) s t.2

result_of-more :
    (r : Request) (s u : Server) (status : Status)
    → Grows (more status r.client) s u
    → Grows (left_pending (result_of status) r.client) s u
result_of-more r s u done g = g
result_of-more r s u waiting g = g
result_of-more r s u failed g = g

module _ (r : Request) (s : Server) where
  Served-edited :
      (success : Result) (t : Status × List ℕ × Server)
      → AfterEdit s t
      → Served r s (edited_files success t)
  Served-edited success (done, gone, u) k = Keeps-Grows (left_pending success r.client) k
  Served-edited success (waiting, gone, u) k = Keeps-Grows (left_pending success r.client) k
  Served-edited success (failed, gone, u) k = k

  Served-found :
      (t : Option FileEntry × Server)
      → After s t
      → Gives
          (Served r s)
          (elim t.0 [ none ↦ ok (refused, [], t.1) | some f ↦ ok (answered, f ∷ [], t.1) ])
  Served-found (none, u) k = k
  Served-found (some f, u) k = k

  lock_file-Served : (path : List ℕ) → let t = lock_file r path s in Served r s (t.0, [], t.1)
  unfolding lock_file
  lock_file-Served path =
      let t = filesystem_lock_acquire r path s in
      result_of-more r s t.1 t.0 (filesystem_lock_acquire-Grows r path s)

  unlock_file-Served : (path : List ℕ) → let t = unlock_file r path s in Served r s (t.0, [], t.1)
  unfolding unlock_file
  unlock_file-Served path =
      Keeps-Grows (left_pending (succeeded (filesystem_lock_release r path s).0) r.client)
        (filesystem_lock_release-Keeps r path s)

  close_file-Served : (path : List ℕ) → let t = close_file r path s in Served r s (t.0, [], t.1)
  unfolding close_file
  close_file-Served path = elim (Option-cases (is_file_opened (s.sessions r.client) path)) [
    | inl closed ↦ rw (closed, close_file) (Keeps-refl s)
    | inr (d, opened) ↦
        rw (opened, close_file)
          (Keeps-trans (filesystem_lock_release-Keeps r path s) (same-Keeps _ _ refl refl))
  ]

  remove_file-Served :
      (cfg : Config) (path : List ℕ)
      → Gives (λ (t : Result × Server). Served r s (t.0, [], t.1)) (remove_file cfg r path s)
  unfolding remove_file
  remove_file-Served cfg path =
      >>=-Gives (After s) (λ (t : Result × Server). Served r s (t.0, [], t.1))
        (filesystem_remove_file cfg r path s) _ (filesystem_remove_file-Keeps cfg r path s)
        (λ t k. Keeps-Grows (left_pending (succeeded t.0) r.client) k)

  open_file-Served :
      (cfg : Config) (path : List ℕ) (flags : ℕ) → Gives (Served r s) (open_file cfg r path flags s)
  unfolding open_file
  open_file-Served cfg path flags =
      >>=-Gives (λ (t : Status × Option ℕ × Server). Grows (more t.0 r.client) s t.2) (Served r s)
        (filesystem_open_file cfg r path flags s) _ (filesystem_open_file-Grows cfg r path flags s)
        (λ t g. result_of-more r s t.2 t.0 g)

  read_file-Served : (cfg : Config) (path : List ℕ) → Gives (Served r s) (read_file cfg r path s)
  unfolding read_file
  read_file-Served cfg path =
      >>=-Gives (After s) (Served r s) (filesystem_get_file_entry cfg path s) _
        (filesystem_get_file_entry-Keeps cfg path s) Served-found

  read_n_files-Served :
      (cfg : Config) (n : ℕ) (rand : List ℕ) → Gives (Served r s) (read_n_files cfg r n rand s)
  unfolding read_n_files
  read_n_files-Served cfg n rand =
      >>=-Gives (After s) (Served r s) (filesystem_get_n_file_entry cfg n rand s) _
        (filesystem_get_n_file_entry-Keeps cfg n rand s) (λ t k. k)

  write_file-Served : (cfg : Config) → Gives (Served r s) (write_file cfg r s)
  unfolding write_file
  write_file-Served cfg =
      >>=-Gives (AfterEdit s) (Served r s) (filesystem_write_file cfg r s) _
        (filesystem_write_file-Keeps cfg r s) (Served-edited kept)

  append_to_file-Served :
      (cfg : Config) (junk : ℕ) → Gives (Served r s) (append_to_file cfg junk r s)
  unfolding append_to_file
  append_to_file-Served cfg junk =
      >>=-Gives (AfterEdit s) (Served r s) (filesystem_append_to_file cfg junk r s) _
        (filesystem_append_to_file-Keeps cfg junk r s) (Served-edited answered)

  dispatch-Served :
      (cfg : Config) (rand : List ℕ) (junk : ℕ) → Gives (Served r s) (dispatch cfg rand junk r s)
  unfolding dispatch
  dispatch-Served cfg rand junk =
      let path = pathname r.file in
      if-both-Gives (Served r s) (r.kind == b'o') _ _ (open_file-Served cfg path r.flags) (
        if-both-Gives (Served r s) (r.kind == b'r') _ _ (read_file-Served cfg path) (
          if-both-Gives (Served r s) (r.kind == b'n') _ _ (read_n_files-Served cfg r.flags rand) (
            if-both-Gives (Served r s) (r.kind == b'w') _ _ (write_file-Served cfg) (
              if-both-Gives (Served r s) (r.kind == b'a') _ _ (append_to_file-Served cfg junk) (
                if-both-Gives (Served r s) (r.kind == b'l') _ _ (lock_file-Served path) (
                  if-both-Gives (Served r s) (r.kind == b'u') _ _ (unlock_file-Served path) (
                    if-both-Gives (Served r s) (r.kind == b'c') _ _ (close_file-Served path) (
                      if-both-Gives (Served r s) (r.kind == b'R') _ _
                        (>>=-Gives (λ (t : Result × Server). Served r s (t.0, [], t.1)) (Served r s)
                          (remove_file cfg r path s) (λ t. ok (t.0, [], t.1))
                          (remove_file-Served cfg path) (λ t k. k))
                        (Keeps-refl s)))))))))

pub worker_body-Grows :
    (cfg : Config) (rand : List ℕ) (junk : ℕ) (r : Request) (s t : Server) (result : Result)
    (sent : Option (List ℕ))
    → worker_body cfg rand junk r s ≡ ok (result, sent, t)
    → Grows (left_pending result r.client) s t
unfolding worker_body
worker_body-Grows cfg rand junk r s t result sent e =
    Gives-at (λ (u : Result × Option (List ℕ) × Server). Grows (left_pending u.0 r.client) s u.2)
      (worker_body cfg rand junk r s)
      (>>=-Gives (Served r s)
        (λ (u : Result × Option (List ℕ) × Server). Grows (left_pending u.0 r.client) s u.2)
        (dispatch cfg rand junk r s) _ (dispatch-Served r s cfg rand junk) (λ u g. g))
      e

-- If all queues of the table are well formed, then serving a request keeps them so, and
-- afterwards the queues of the table and that of the notifier hold together no more requests of
-- any client than before, but for one more of the request's own client if the result is 0.
pub worker_body-unanswered :
    (cfg : Config) (rand : List ℕ) (junk : ℕ) (r : Request) (s t : Server) (result : Result)
    (sent : Option (List ℕ))
    → AllValid s
    → worker_body cfg rand junk r s ≡ ok (result, sent, t)
    → AllValid t × ((c : ℕ) → unanswered c t ≤ unanswered c s + left_pending result r.client c)
worker_body-unanswered cfg rand junk r s t result sent v e =
    let grows = worker_body-Grows cfg rand junk r s t result sent e in
    (grows.valid v, grows.bound v)
