-- ===== src/Wire/Tests.antt =====
-- A message and a stream, on small inputs.
use progetto_sistemi_operati.Base.{
  ℕ, List, ◌≡◌, ◌≢◌, replicate, refl, [], ◌∷◌, ◌++◌, arith, ok, length,
}
use progetto_sistemi_operati.Files.Entry.Layout.{Layout}
use progetto_sistemi_operati.Files.Waiting.{Request}
use progetto_sistemi_operati.Wire.Ints.{serialize_int}
use progetto_sistemi_operati.Wire.Streams.{Event, interrupted, moves, count, readn, readn-returns}
use progetto_sistemi_operati.Wire.Replies.{server_error, sent_for, read_reply, read_reply-sent_for}
use progetto_sistemi_operati.Wire.Arrival.{
  message, short, read_request, read_request-write_message, read_request-short,
}
use progetto_sistemi_operati.Wire.Requests.{write_message, new_request}

readn_runs :
    readn 3 [] (1 ∷ 2 ∷ 3 ∷ 4 ∷ []) (moves 2 ∷ interrupted ∷ moves 5 ∷ [])
    ≡ ok (count 3, 1 ∷ 2 ∷ 3 ∷ [], 4 ∷ [])
unfolding readn
readn_runs = refl

readn-returns_example :
    (buf : List ℕ) × (rest : List ℕ) × (readn 2 [] (1 ∷ 2 ∷ 3 ∷ []) (moves 1 ∷ moves 5 ∷ [])
      ≡ ok (count 2, buf, rest))
    × (length buf ≡ 2)
    × (buf ++ rest ≡ 1 ∷ 2 ∷ 3 ∷ [])
readn-returns_example =
    readn-returns 2 (1 ∷ 2 ∷ 3 ∷ []) (moves 1 ∷ moves 5 ∷ []) (omega arith) tt (omega arith)
      (omega arith)

read_reply-sent_for_example :
    read_reply
      (sent_for (server_error 2))
      (moves 4 ∷ moves 4 ∷ moves 4 ∷ moves 4 ∷ [])
      (moves 4 ∷ moves 4 ∷ moves 4 ∷ moves 4 ∷ [])
    ≡ ok (server_error 2)
unfolding serialize_int
read_reply-sent_for_example =
    read_reply-sent_for (server_error 2) (moves 4 ∷ moves 4 ∷ moves 4 ∷ moves 4 ∷ [])
      (moves 4 ∷ moves 4 ∷ moves 4 ∷ moves 4 ∷ []) (omega arith, omega arith) tt tt (omega arith)
      (omega arith)

abbrev calls : ℕ → List Event
calls n = replicate n (moves 4)

read_request-write_message_example :
    (msg : List ℕ) × (r : Request) × (read_request
        (write_message b'w' (b'a' ∷ []) (5 ∷ 6 ∷ []) 3)
        (calls 4)
        (calls 17)
      ≡ ok (message msg))
    × (new_request msg 9 ≡ ok r)
    × ((r.kind ≡ b'w') × (r.flags ≡ 3) × (r.client ≡ 9))
    × Layout r.file (b'a' ∷ []) (5 ∷ 6 ∷ [])
read_request-write_message_example =
    read_request-write_message b'w' (b'a' ∷ []) (5 ∷ 6 ∷ []) 3 9 (calls 4) (calls 17) (omega arith)
      (omega arith) (omega arith) (tt, tt) (omega arith, omega arith)

read_request-short_example : read_request (1 ∷ 0 ∷ []) (calls 2) (calls 2) ≢ ok short
read_request-short_example = read_request-short (1 ∷ 0 ∷ []) (calls 2) (calls 2)
