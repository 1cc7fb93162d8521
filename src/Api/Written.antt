-- ===== src/Api/Written.antt =====
-- writeFile and then readFile of src/api/src/api.c, through the server.
mod Tests
use progetto_sistemi_operati.Base.{
  ℕ, ◌+◌, ◌^◌, ◌<◌, ◌≤◌, ◌≡◌, refl, ap, ap₂, sym, subst, ◌∙◌, List, [], ◌∷◌, true, false, Option,
  some, length, ltb, get_or, arith, Outcome, ok, ◌>>=◌, >>=-eq-ok, ok-injective, All, ◌≢◌,
}
use progetto_sistemi_operati.Caching.Config.{Config}
use progetto_sistemi_operati.Caching.State.{Cache}
use progetto_sistemi_operati.Caching.Policy.{handle_usage}
use progetto_sistemi_operati.Session.{is_file_opened}
use progetto_sistemi_operati.Files.Entry.{FileEntry, bucket_of, pathname, content, replace_file}
use progetto_sistemi_operati.Files.Entry.Layout.{Layout, Layout-read}
use progetto_sistemi_operati.Files.Waiting.{Request}
use progetto_sistemi_operati.Files.State.{Server, get_file_entry_ref}
use progetto_sistemi_operati.Files.Locks.{Status, done, waiting, failed}
use progetto_sistemi_operati.Files.Operations.Content.{filesystem_write_file}
use progetto_sistemi_operati.Files.Operations.Edits.{
  MayWrite, Edited, edit_file-Edited, write_permitted,
}
use progetto_sistemi_operati.Service.{Result, kept, answered, write_file, edited_files}
use progetto_sistemi_operati.Service.Body.{worker_body, dispatch}
use progetto_sistemi_operati.Settings.{codes}
use progetto_sistemi_operati.Wire.Requests.{
  write_message, payload, new_request, new_request-payload,
}
use progetto_sistemi_operati.Wire.Arrival.{
  Arrival, lost, left, short, message, read_request, read_request-write_message,
}
use progetto_sistemi_operati.Api.{set_last_api_call}
use progetto_sistemi_operati.Api.Calls.{api_read_file}
use progetto_sistemi_operati.Api.Served.{Calls, Suffice, link_to, api_read_file-served}

-- The file has the request's buffer, so that it is laid out as the request.
replace_file-Layout :
    (f g : FileEntry) {path bytes : List ℕ}
    → Layout g path bytes
    → Layout (replace_file f g) path bytes
unfolding replace_file
replace_file-Layout f g l = record {
  before = l.before;
  middle = l.middle;
  after = l.after;
  filled = l.filled;
  path_starts = l.path_starts;
  content_starts = l.content_starts;
  content_ends = l.content_ends;
  no_nul = l.no_nul;
}

edited_files-state : (a : Status × List ℕ × Server) → (edited_files kept a).2 ≡ a.2
edited_files-state (done, gone, s) = refl
edited_files-state (waiting, gone, s) = refl
edited_files-state (failed, gone, s) = refl

edited_files-done : (a : Status × List ℕ × Server) → a.0 ≡ done → (edited_files kept a).0 ≡ kept
edited_files-done (done, gone, s) e = refl
edited_files-done (waiting, gone, s) e = cc
edited_files-done (failed, gone, s) e = cc

-- The state behind a write that the client may do, if it returns.
write_file-replaced :
    (cfg : Config) (r : Request) (s t : Server) (p d : ℕ) {result : Result} {files : List FileEntry}
    → MayWrite s r p d
    → r.file.content_length ≤ cfg.max_file_size
    → write_file cfg r s ≡ ok (result, files, t)
    → (result ≡ kept) × (t.heap p ≡ replace_file (s.heap p) r.file)
unfolding write_file
write_file-replaced cfg r s t p d {result} {files} may small e =
    let (a, wrote, rest) = >>=-eq-ok (filesystem_write_file cfg r s) _ e in
    let (finished, file, others, used) =
      edit_file-Edited cfg p r.client d r.file.content_length (λ f. replace_file f r.file) s {r = a}
        (sym (write_permitted cfg r s p d may (ground arith)) ∙ wrote) in
    let same = ok-injective rest in
    (
      sym (ap (λ b. b.0) same) ∙ edited_files-done a finished,
      ap (λ u. u.heap p) (sym (ap (λ b. b.2) same) ∙ edited_files-state a) ∙ file,
    )

worker_body-write :
    (cfg : Config) (rand : List ℕ) (junk : ℕ) (r : Request) (s t : Server) {result : Result}
    {sent : Option (List ℕ)}
    → r.kind ≡ b'w'
    → worker_body cfg rand junk r s ≡ ok (result, sent, t)
    → (files : List FileEntry) × (write_file cfg r s ≡ ok (result, files, t))
unfolding worker_body dispatch
worker_body-write cfg rand junk r s t {result} {sent} kind e =
    let (a, wrote, rest) = >>=-eq-ok (dispatch cfg rand junk r s) _ e in
    let same = ok-injective rest in
    let written : write_file cfg r s ≡ ok a = rw (dispatch, kind) at wrote in
    (a.1, written ∙ ap ok (ap₂ (λ b u. (b, a.1, u)) (ap (λ b. b.0) same) (ap (λ b. b.2) same)))

abbrev message_of : Arrival → List ℕ
message_of lost = []
message_of left = []
message_of short = []
message_of (message msg) = msg

-- A request that has arrived and has been parsed is laid out as it was sent.
arrived-Layout :
    (path bytes msg : List ℕ) (client : ℕ) (r : Request) (calls : Calls)
    → All (λ b. b ≢ 0) path
    → 14 + length path + length bytes < 2 ^ 31
    → Suffice (18 + length path + length bytes) calls
    → read_request (write_message b'w' path bytes 0) calls.request_header calls.request_body
      ≡ ok (message msg)
    → new_request msg client ≡ ok r
    → (r.kind ≡ b'w') × Layout r.file path bytes
arrived-Layout path bytes msg client r calls no_nul small
      (header, body, writing, answer_header, answer_body) arrived parsed =
    let (msg', q, arrived', parsed', (kind, flags, who), layout) =
      read_request-write_message b'w' path bytes 0 client calls.request_header calls.request_body
        (omega arith) (omega arith) no_nul (header.0, body.0) (header.1, omega (arith, body.1)) in
    let same_msg : msg' ≡ msg = ap message_of (ok-injective (sym arrived' ∙ arrived)) in
    let same : q ≡ r =
      ok-injective (sym parsed' ∙ ap (λ m. new_request m client) same_msg ∙ parsed) in
    (ap (λ x. x.kind) (sym same) ∙ kind, subst (λ x. Layout x.file path bytes) same layout)

-- The bytes that writeFile of the client sends for a path and a content arrive at the server and
-- are parsed; the client owns the file, has it open and may write to it, the content is not
-- longer than a file may be, and the size limits of the messages hold. If worker_body returns
-- from that request, it has succeeded; and if the file is then still found under the path, whose
-- length it has noted, and the cache handles its usage, readFile of any client gives the content
-- that was written, provided that the calls of read and write move bytes and are enough.
pub api_read_file-written :
    (cfg : Config) (rand : List ℕ) (junk writer reader last : ℕ) (s t : Server) (p d : ℕ)
    (cache : Cache) (path bytes msg : List ℕ) (r : Request) (calls : Calls) {result : Result}
    {sent : Option (List ℕ)}
    → All (λ b. b ≢ 0) path
    → 14 + length path + length bytes < 2 ^ 31
    → Suffice (18 + length path + length bytes) calls
    → read_request (write_message b'w' path bytes 0) calls.request_header calls.request_body
      ≡ ok (message msg)
    → new_request msg writer ≡ ok r
    → MayWrite s r p d
    → (s.heap p).pathlen ≡ length path
    → length bytes ≤ cfg.max_file_size
    → worker_body cfg rand junk r s ≡ ok (result, sent, t)
    → get_file_entry_ref t path (bucket_of path) ≡ some p
    → handle_usage cfg p t.cache ≡ ok cache
    → (result ≡ kept)
      × ((asked : List ℕ) × (q : Request) × (answer : List ℕ) × (read_request
              (write_message b'r' path [] 0)
              calls.request_header
              calls.request_body
            ≡ ok (message asked))
          × (new_request asked reader ≡ ok q)
          × (worker_body cfg rand junk q t ≡ ok (answered, some answer, record t { cache = cache }))
          × (api_read_file last (some path) (link_to answer calls)
              ≡ ok (some bytes, set_last_api_call (codes "readFile") true path 0)))
api_read_file-written cfg rand junk writer reader last s t p d cache path bytes msg r calls no_nul
      small suffice arrived parsed may size fits wrote found usage =
    let (kind, laid) =
      arrived-Layout path bytes msg writer r calls no_nul small suffice arrived parsed in
    let (files, stored) = worker_body-write cfg rand junk r s t kind wrote in
    let (done_so, file) =
      write_file-replaced cfg r s t p d may (omega (arith, laid.content_ends)) stored in
    let now =
      subst (λ f. Layout f path bytes) (sym file) (replace_file-Layout (s.heap p) r.file laid) in
    (
      done_so,
      api_read_file-served cfg rand junk reader last t p cache path bytes calls found usage now
          (ap (λ f. f.pathlen) file ∙ (unfold replace_file in size)) small suffice,
    )
