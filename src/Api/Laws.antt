-- ===== src/Api/Laws.antt =====
-- What the calls of src/api/src/api.c give for the answers that the server can send.
use progetto_sistemi_operati.Base.{
  ℕ, zero, suc, ◌+◌, ◌≤◌, ◌≡◌, refl, ap, sym, ◌∙◌, List, [], ◌∷◌, ◌++◌, append_assoc, append-nil,
  Option, none, some, length, length-append, take, drop, arith, ok,
}
use progetto_sistemi_operati.Settings.{codes}
use progetto_sistemi_operati.Wire.Ints.{serialize_int}
use progetto_sistemi_operati.Wire.Streams.{
  Event, moves, interrupted, error, count, writen, Moving, take-drop,
}
use progetto_sistemi_operati.Wire.Requests.{write_message}
use progetto_sistemi_operati.Wire.Replies.{
  Reply, broken, server_error, consent, contents, sent_for, Sendable, read_reply-sent_for,
}
use progetto_sistemi_operati.Api.{Link, set_last_api_call, error_of, exchange, is_read, contents_of}
use progetto_sistemi_operati.Api.Calls.{api_read_file, is_some, single_file}

pub writen-all :
    (sent left : List ℕ) (es : List Event)
    → Moving es
    → length left ≤ length es
    → writen sent left es ≡ ok (count (length (sent ++ left)), sent ++ left)
unfolding writen
writen-all sent [] es moving calls = ap (λ r. ok (count (length r), r)) (sym (append-nil sent))
writen-all sent (b ∷ bs) [] moving calls = absurd (omega arith)
writen-all sent (b ∷ bs) (interrupted ∷ es) moving calls = elim moving [ ]
writen-all sent (b ∷ bs) (error ∷ es) moving calls = elim moving [ ]
writen-all sent (b ∷ bs) (moves zero ∷ es) moving calls = elim moving [ ]
writen-all sent (b ∷ bs) (moves (suc k) ∷ es) moving calls =
    let parts : length (take k bs) + length (drop k bs) ≡ length bs =
      sym (length-append (take k bs) (drop k bs)) ∙ ap length (take-drop k bs) in
    writen-all (sent ++ b ∷ take k bs) (drop k bs) es moving (omega (arith, parts))
    ∙ ap (λ r. ok (count (length r), r))
        (append_assoc sent (b ∷ take k bs) (drop k bs) ∙ ap (λ r. sent ++ b ∷ r) (take-drop k bs))

-- The link of a call whose request gets through and whose answer is `reply`.
abbrev pub Answered : ℕ → List ℕ → List ℕ → ℕ → Reply → Link → Type 0
Answered kind pathname content flags reply link =
    (link.stream ≡ sent_for reply)
    × (Moving link.writing
        × (length (write_message kind pathname content flags) ≤ length link.writing))
    × (Moving link.reading_header × (4 ≤ length link.reading_header))
    × (Moving link.reading_body × (length (sent_for reply) ≤ length link.reading_body))

pub exchange-Answered :
    (kind : ℕ) (pathname content : List ℕ) (flags : ℕ) (reply : Reply) (link : Link)
    → Sendable reply
    → Answered kind pathname content flags reply link
    → exchange kind pathname content flags link ≡ ok (is_read reply, reply)
unfolding exchange
exchange-Answered kind pathname content flags reply link sendable (stream, w, h, b) =
    rw
      (
        writen-all [] (write_message kind pathname content flags) link.writing w.0 w.1,
        stream,
        read_reply-sent_for reply link.reading_header link.reading_body sendable h.0 b.0 h.1 b.1,
      )
      (unfold write_message serialize_int in refl)

-- The bytes of the file, if the answer is a path and its content.
unfoldable pub file_in : Reply → Option (List ℕ)
file_in (contents (path ∷ bytes ∷ [])) = some bytes
file_in (contents []) = none
file_in (contents (path ∷ [])) = none
file_in (contents (path ∷ bytes ∷ (c ∷ cs))) = none
file_in consent = none
file_in (server_error n) = none
file_in broken = none

file_in-single_file : (r : Reply) → single_file (is_read r) (contents_of r) ≡ file_in r
unfolding file_in
file_in-single_file broken = refl
file_in-single_file (server_error n) = refl
file_in-single_file consent = refl
file_in-single_file (contents []) = refl
file_in-single_file (contents (path ∷ [])) = refl
file_in-single_file (contents (path ∷ bytes ∷ [])) = refl
file_in-single_file (contents (path ∷ bytes ∷ (c ∷ cs))) = refl

-- If the calls of write and read all move bytes and there are enough of them, readFile of the
-- client gives the bytes of the file when the server has sent a path and a content, and fails for
-- any other answer, noting the server's error.
pub api_read_file-file_in :
    (last : ℕ) (pathname : List ℕ) (reply : Reply) (link : Link)
    → Sendable reply
    → Answered b'r' pathname [] 0 reply link
    → api_read_file last (some pathname) link
      ≡ ok (
        file_in reply,
        set_last_api_call (codes "readFile") (is_some (file_in reply)) pathname (error_of reply),
      )
unfolding api_read_file
api_read_file-file_in last pathname reply link sendable answered =
    rw (exchange-Answered b'r' pathname [] 0 reply link sendable answered) (
      ap (λ b. ok (b, set_last_api_call (codes "readFile") (is_some b) pathname (error_of reply)))
        (file_in-single_file reply))
