-- ===== src/Api.antt =====
-- src/api/src/api.c: the calls of the client library. The times and the numbers of bytes in
-- `lastApiCall` are left out, and `errno`.
pub mod Saving
pub mod Calls
pub mod Connection
pub mod Laws
pub mod Served
pub mod Notified
pub mod Written
mod Tests
use progetto_sistemi_operati.Base.{
  ℕ, zero, suc, ◌-◌, ◌&&◌, List, [], ◌∷◌, Bool, true, false, Option, none, some, take,
  if◌then◌else◌, Outcome, ok, ◌>>=◌,
}
use progetto_sistemi_operati.Wire.Streams.{Event, Transfer, minus_one, count, writen}
use progetto_sistemi_operati.Wire.Requests.{write_message}
use progetto_sistemi_operati.Wire.Replies.{
  Reply, broken, server_error, consent, contents, read_reply,
}

-- The socket for one call: how `write` goes, what the server sends, and how the two reads of the
-- answer go.
pub record Link : Type 0 where
  pub writing : List Event
  pub stream : List ℕ
  pub reading_header : List Event
  pub reading_body : List Event

-- `lastApiCall`; `succeeded` is its `opStatus`, "success" or "failure".
pub record ApiInfo : Type 0 where
  pub op_name : List ℕ
  pub succeeded : Bool
  pub error_code : ℕ
  pub file : List ℕ

-- `FILE_LEN`
abbrev pub file_len : ℕ
file_len = 4096

unfoldable pub set_last_api_call : List ℕ → Bool → List ℕ → ℕ → ApiInfo
set_last_api_call op_name succeeded file server_response_error = record {
  op_name = op_name;
  succeeded = succeeded;
  error_code = server_response_error;
  file = take (file_len - 1) file;
}

-- `bytesWritten > 0`
abbrev pub is_written : Transfer → Bool
is_written minus_one = false
is_written (count zero) = false
is_written (count (suc n)) = true

-- `bytesRead > 0`
abbrev pub is_read : Reply → Bool
is_read broken = false
is_read (server_error n) = false
is_read consent = true
is_read (contents cs) = true

-- `content` and `dim`
abbrev pub contents_of : Reply → List (List ℕ)
contents_of broken = []
contents_of (server_error n) = []
contents_of consent = []
contents_of (contents cs) = cs

-- `serverResponseError`, which `readMessage` sets back first
abbrev pub error_of : Reply → ℕ
error_of broken = 0
error_of (server_error n) = n
error_of consent = 0
error_of (contents cs) = 0

-- The request is written and the answer read, whether or not the request got through.
unfoldable pub exchange : ℕ → List ℕ → List ℕ → ℕ → Link → Outcome (Bool × Reply)
unfolding writen write_message read_reply
exchange kind pathname content flags link =
    writen [] (write_message kind pathname content flags) link.writing >>= λ written.
    read_reply link.stream link.reading_header link.reading_body >>= λ reply.
    ok (is_written written.0 && is_read reply, reply)
