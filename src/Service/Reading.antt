-- ===== src/Service/Reading.antt =====
-- A read from end to end: worker_body of worker.c on the server, readMessage of api.c at the client.
use progetto_sistemi_operati.Base.{
  ℕ, ◌+◌, length-append, ◌^◌, ◌<◌, ◌≤◌, ◌≡◌, refl, ap, ap₂, ◌∙◌, List, [], ◌∷◌, ◌++◌, some, take,
  drop, length, arith, take-length-append, ok, ◌>>=◌,
}
use progetto_sistemi_operati.Caching.Config.{Config}
use progetto_sistemi_operati.Caching.State.{Cache}
use progetto_sistemi_operati.Caching.Policy.{handle_usage}
use progetto_sistemi_operati.Files.Entry.{FileEntry, pathname, bucket_of}
use progetto_sistemi_operati.Files.Entry.Layout.{Layout, Layout-read, Layout-from_path}
use progetto_sistemi_operati.Files.Waiting.{Request}
use progetto_sistemi_operati.Files.State.{Server, get_file_entry_ref}
use progetto_sistemi_operati.Files.Operations.Open.{filesystem_get_file_entry}
use progetto_sistemi_operati.Service.{answered, read_file}
use progetto_sistemi_operati.Service.Body.{
  file_strings, write_file_array, dispatch, response, worker_body,
}
use progetto_sistemi_operati.Wire.Ints.{serialize_int}
use progetto_sistemi_operati.Wire.Streams.{Event, Moving}
use progetto_sistemi_operati.Wire.Replies.{
  contents, contents_bytes, reply_payload, write_reply, read_reply, read_reply-sent_for,
}

-- The bytes that are sent for a file are its path and its content.
pub file_strings-Layout :
    (f : FileEntry) {path bytes : List ℕ}
    → Layout f path bytes
    → f.pathlen ≡ length path
    → file_strings (f ∷ []) ≡ path ∷ bytes ∷ []
unfolding file_strings
file_strings-Layout f {path} {bytes} l size = ap₂ (λ p b. p ∷ b ∷ []) sent_path (Layout-read l).1
  where
    sent_path : take f.pathlen (drop f.pathname_at f.buf) ≡ path
    sent_path =
        ap₂ (λ n b. take n b) size (Layout-from_path l)
        ∙ take-length-append path (0 ∷ l.middle ++ (bytes ++ l.after))

read_file-found :
    (cfg : Config) (r : Request) (s : Server) (p : ℕ) (path : List ℕ) (cache : Cache)
    → get_file_entry_ref s path (bucket_of path) ≡ some p
    → handle_usage cfg p s.cache ≡ ok cache
    → read_file cfg r path s ≡ ok (answered, s.heap p ∷ [], record s { cache = cache })
unfolding read_file filesystem_get_file_entry
read_file-found cfg r s p path cache found usage =
    rw (read_file, filesystem_get_file_entry, found, usage) refl

pub worker_body-read :
    (cfg : Config) (rand : List ℕ) (junk : ℕ) (r : Request) (s : Server) (p : ℕ) (cache : Cache)
    → r.kind ≡ b'r'
    → get_file_entry_ref s (pathname r.file) (bucket_of (pathname r.file)) ≡ some p
    → handle_usage cfg p s.cache ≡ ok cache
    → worker_body cfg rand junk r s
      ≡ ok (answered, some (write_file_array (s.heap p ∷ [])), record s { cache = cache })
unfolding worker_body dispatch response
worker_body-read cfg rand junk r s p cache kind found usage =
    rw (worker_body, dispatch, kind)
      (ap (λ m. m >>= λ t. ok (t.0, response t.0 t.1, t.2))
        (read_file-found cfg r s p (pathname r.file) cache found usage))

pub length-two :
    (path bytes : List ℕ)
    → length (reply_payload (path ∷ bytes ∷ [])) ≡ 14 + length path + length bytes
unfolding reply_payload contents_bytes serialize_int
length-two path bytes =
    let second = serialize_int (length bytes) ++ (bytes ++ 32 ∷ []) in
    omega (arith, length-append path (32 ∷ second), length-append bytes (32 ∷ []))

pub length-sent :
    (path bytes : List ℕ)
    → length (write_reply (path ∷ bytes ∷ [])) ≡ 18 + length path + length bytes
unfolding write_reply serialize_int
length-sent path bytes = omega (arith, length-two path bytes)

-- A client that reads a stored file, whose buffer holds its path before its content and whose
-- path has the length noted, gets its path and its content, and nothing is changed but the cache:
-- if the cache handles the usage, the answer has less than 2 ^ 31 bytes, each call of read at the
-- client moves bytes, and there are enough of them.
pub worker_body-read_reply :
    (cfg : Config) (rand : List ℕ) (junk : ℕ) (r : Request) (s : Server) (p : ℕ) (cache : Cache)
    {path bytes : List ℕ} (es es' : List Event)
    → r.kind ≡ b'r'
    → get_file_entry_ref s (pathname r.file) (bucket_of (pathname r.file)) ≡ some p
    → handle_usage cfg p s.cache ≡ ok cache
    → Layout (s.heap p) path bytes
    → (s.heap p).pathlen ≡ length path
    → 14 + length path + length bytes < 2 ^ 31
    → Moving es × Moving es'
    → (4 ≤ length es) × (18 + length path + length bytes ≤ length es')
    → (sent : List ℕ) × (worker_body cfg rand junk r s
        ≡ ok (answered, some sent, record s { cache = cache }))
      × (read_reply sent es es' ≡ ok (contents (path ∷ bytes ∷ [])))
unfolding write_file_array
worker_body-read_reply cfg rand junk r s p cache {path} {bytes} es es' kind found usage l size small
      moving calls =
    (
      write_file_array (s.heap p ∷ []),
      worker_body-read cfg rand junk r s p cache kind found usage,
      ap (λ cs. read_reply (write_reply cs) es es') (file_strings-Layout (s.heap p) l size)
          ∙ read_reply-sent_for (contents (path ∷ bytes ∷ [])) es es'
              (omega arith, (omega arith, (omega arith, tt)), omega (arith, length-two path bytes))
              moving.0 moving.1 calls.0 (omega (arith, length-sent path bytes)),
    )
