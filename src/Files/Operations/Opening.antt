-- ===== src/Files/Operations/Opening.antt =====
-- The branches of filesystem_openFile, of files.c, for a file that exists.
use progetto_sistemi_operati.Base.{
  ℕ, ◌≡◌, refl, sym, ap, ap₂, not, ◌∙◌, List, Option, none, some, Outcome, ◌>>=◌, ok,
}
use progetto_sistemi_operati.Session.{Session, is_file_opened}
use progetto_sistemi_operati.Caching.Config.{Config}
use progetto_sistemi_operati.Files.Entry.{bucket_of}
use progetto_sistemi_operati.Files.Waiting.{Request}
use progetto_sistemi_operati.Files.State.{Server, get_file_entry_ref}
use progetto_sistemi_operati.Files.Locks.{Status, done}
use progetto_sistemi_operati.Files.Operations.Open.{
  filesystem_open_file, choose_descriptor, finish_open, lock_and_open, open_at, is_none,
}

choose_descriptor-opened :
    (c : Session) (path : List ℕ) (d : ℕ)
    → is_file_opened c path ≡ some d
    → choose_descriptor c path ≡ some d
unfolding choose_descriptor
choose_descriptor-opened c path d opened = rw (opened, choose_descriptor) refl

finish_open-flags :
    (cfg : Config) (o : Option ℕ) (path : List ℕ) (fd : ℕ) (result : Status) (s : Server)
    → finish_open cfg o path 1 fd result s ≡ finish_open cfg o path 0 fd result s
unfolding finish_open
finish_open-flags cfg o path fd result s = refl

filesystem_open_file-open_at :
    (cfg : Config) (r : Request) (path : List ℕ) (flags : ℕ) (s : Server) {o i g : Option ℕ}
    → choose_descriptor (s.sessions r.client) path ≡ o
    → is_file_opened (s.sessions r.client) path ≡ i
    → get_file_entry_ref s path (bucket_of path) ≡ g
    → filesystem_open_file cfg r path flags s
      ≡ open_at cfg r path flags o (not (is_none i)) (is_none g) s
unfolding filesystem_open_file
filesystem_open_file-open_at cfg r path flags s {o = o} chosen opened found =
    ap
      (λ d.
        open_at cfg r path flags d (not (is_none (is_file_opened (s.sessions r.client) path)))
          (is_none (get_file_entry_ref s path (bucket_of path))) s)
      chosen
    ∙ ap₂ (λ i g. open_at cfg r path flags o (not (is_none i)) (is_none g) s) opened found

module _ (cfg : Config) (r : Request) (path : List ℕ) (s : Server) (p : ℕ) where
  answered : Outcome (Status × Server) → Outcome (Status × Option ℕ × Server)
  answered m = m >>= λ t. ok (t.0, none, t.1)

  -- Opening with O_CREATE an existing file that the client has open does what opening it without
  -- any flag does.
  pub filesystem_open_file-opened :
      (d : ℕ)
      → get_file_entry_ref s path (bucket_of path) ≡ some p
      → is_file_opened (s.sessions r.client) path ≡ some d
      → filesystem_open_file cfg r path 1 s ≡ filesystem_open_file cfg r path 0 s
  unfolding open_at lock_and_open answered
  filesystem_open_file-opened d found opened =
      let chosen = choose_descriptor-opened (s.sessions r.client) path d opened in
      filesystem_open_file-open_at cfg r path 1 s chosen opened found
      ∙ ap answered (finish_open-flags cfg (some d) path r.client done s)
      ∙ sym (filesystem_open_file-open_at cfg r path 0 s chosen opened found)
