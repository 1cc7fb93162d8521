-- ===== src/Api/Served.antt =====
-- readFile of src/api/src/api.c against the server: the request is written by api.c, read and parsed
-- by src/server/src/worker.c and request.c, served by worker_body, and its answer is read by api.c.
use progetto_sistemi_operati.Base.{
  ℕ, ◌+◌, ◌^◌, ◌<◌, ◌≤◌, ◌≡◌, refl, ap, ◌∙◌, List, [], ◌∷◌, true, some, length, arith, ok,
}
use progetto_sistemi_operati.Caching.Config.{Config}
use progetto_sistemi_operati.Caching.State.{Cache}
use progetto_sistemi_operati.Caching.Policy.{handle_usage}
use progetto_sistemi_operati.Files.Entry.{bucket_of}
use progetto_sistemi_operati.Files.Entry.Layout.{Layout, Layout-read}
use progetto_sistemi_operati.Files.Waiting.{Request}
use progetto_sistemi_operati.Files.State.{Server, get_file_entry_ref}
use progetto_sistemi_operati.Service.{answered}
use progetto_sistemi_operati.Service.Body.{write_file_array, worker_body}
use progetto_sistemi_operati.Service.Reading.{
  worker_body-read, file_strings-Layout, length-two, length-sent,
}
use progetto_sistemi_operati.Settings.{codes}
use progetto_sistemi_operati.Wire.Ints.{serialize_int}
use progetto_sistemi_operati.Wire.Streams.{Event, Moving}
use progetto_sistemi_operati.Wire.Requests.{write_message, new_request}
use progetto_sistemi_operati.Wire.Arrival.{
  message, length-payload, read_request, read_request-write_message,
}
use progetto_sistemi_operati.Wire.Replies.{contents, write_reply, Sendable}
use progetto_sistemi_operati.Api.{Link, set_last_api_call}
use progetto_sistemi_operati.Api.Calls.{api_read_file}
use progetto_sistemi_operati.Api.Laws.{file_in, api_read_file-file_in}

-- The calls of read and write of both sides: the server's for the request, the client's for the
-- request, and for the answer.
pub record Calls : Type 0 where
  pub request_header : List Event
  pub request_body : List Event
  pub writing : List Event
  pub answer_header : List Event
  pub answer_body : List Event

-- They all move bytes, and there are enough of them for `n` bytes.
abbrev pub Suffice : ℕ → Calls → Type 0
Suffice n c =
    (Moving c.request_header × (4 ≤ length c.request_header))
    × (Moving c.request_body × (n ≤ length c.request_body))
    × (Moving c.writing × (n ≤ length c.writing))
    × (Moving c.answer_header × (4 ≤ length c.answer_header))
    × (Moving c.answer_body × (n ≤ length c.answer_body))

-- The client's end of the socket.
abbrev pub link_to : List ℕ → Calls → Link
link_to sent c = record {
  writing = c.writing;
  stream = sent;
  reading_header = c.answer_header;
  reading_body = c.answer_body;
}

length-read_message : (path : List ℕ) → length (write_message b'r' path [] 0) ≡ 18 + length path
unfolding write_message serialize_int
length-read_message path = omega (arith, length-payload b'r' path [] 0)

sent_contents :
    (path bytes : List ℕ)
    → 14 + length path + length bytes < 2 ^ 31
    → Sendable (contents (path ∷ bytes ∷ []))
sent_contents path bytes small =
    (omega arith, (omega arith, (omega arith, tt)), omega (arith, length-two path bytes))

-- The client, given the bytes of the answer
read-sent :
    (last : ℕ) (path bytes sent : List ℕ) (calls : Calls)
    → sent ≡ write_reply (path ∷ bytes ∷ [])
    → 14 + length path + length bytes < 2 ^ 31
    → Suffice (18 + length path + length bytes) calls
    → api_read_file last (some path) (link_to sent calls)
      ≡ ok (some bytes, set_last_api_call (codes "readFile") true path 0)
read-sent last path bytes sent calls e small (header, body, writing, answer_header, answer_body) =
    api_read_file-file_in last path (contents (path ∷ bytes ∷ [])) (link_to sent calls)
      (sent_contents path bytes small)
      (
        e,
        (writing.0, omega (arith, writing.1, length-read_message path)),
        answer_header,
        (answer_body.0, omega (arith, answer_body.1, length-sent path bytes)),
      )
    ∙ unfold file_in in refl

-- A file is stored whose buffer holds its path before its content, with the length of the path
-- noted; path and content have less than 2 ^ 31 bytes with the 14 around them, the cache handles
-- the usage, and the calls of read and write on both sides move bytes and are enough. Then the
-- server reads and parses the request that readFile of the client writes, worker_body answers it
-- and changes nothing but the cache, and readFile gives the content of the file.
pub api_read_file-served :
    (cfg : Config) (rand : List ℕ) (junk client last : ℕ) (s : Server) (p : ℕ) (cache : Cache)
    (path bytes : List ℕ) (calls : Calls)
    → get_file_entry_ref s path (bucket_of path) ≡ some p
    → handle_usage cfg p s.cache ≡ ok cache
    → Layout (s.heap p) path bytes
    → (s.heap p).pathlen ≡ length path
    → 14 + length path + length bytes < 2 ^ 31
    → Suffice (18 + length path + length bytes) calls
    → (msg : List ℕ) × (r : Request) × (sent : List ℕ) × (read_request
          (write_message b'r' path [] 0)
          calls.request_header
          calls.request_body
        ≡ ok (message msg))
      × (new_request msg client ≡ ok r)
      × (worker_body cfg rand junk r s ≡ ok (answered, some sent, record s { cache = cache }))
      × (api_read_file last (some path) (link_to sent calls)
          ≡ ok (some bytes, set_last_api_call (codes "readFile") true path 0))
api_read_file-served cfg rand junk client last s p cache path bytes calls found usage l size small
      (header, body, writing, answer_header, answer_body) =
    let (msg, r, arrived, parsed, (kind, flags, who), layout) =
      read_request-write_message b'r' path [] 0 client calls.request_header calls.request_body
        (omega arith) (omega arith) l.no_nul (header.0, body.0) (header.1, omega (arith, body.1)) in
    let same = (Layout-read layout).0 in
    let stored = s.heap p in
    let read =
      worker_body-read cfg rand junk r s p cache kind
        (ap (λ n. get_file_entry_ref s n (bucket_of n)) same ∙ found) usage in
    (
      msg,
      r,
      write_file_array (stored ∷ []),
      arrived,
      parsed,
      read,
      read-sent last path bytes _ calls
          (unfold write_file_array in ap write_reply (file_strings-Layout stored l size)) small
          (header, body, writing, answer_header, answer_body),
    )
