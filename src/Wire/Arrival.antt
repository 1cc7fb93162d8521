-- ===== src/Wire/Arrival.antt =====
-- The server's side of a request: readMessage of worker.c, for what writeMessage of api.c has sent.
use progetto_sistemi_operati.Base.{
  ℕ, ◌+◌, ◌-◌, ◌^◌, ◌<◌, ◌≤◌, ◌≡◌, ◌≢◌, refl, sym, ap, ◌∙◌, inl, inr, List, [], ◌∷◌, ◌++◌,
  append-nil, arith, length, length-append, All, ltb, leb, ◌==◌, if◌then◌else◌, true, false,
  Bool-cases, Outcome, ok, fault, exited, stuck, ◌>>=◌,
}
use progetto_sistemi_operati.Files.Entry.Layout.{Layout}
use progetto_sistemi_operati.Files.Waiting.{Request}
use progetto_sistemi_operati.Wire.Ints.{
  serialize_int, deserialize_int, deserialize_int-serialize_int,
}
use progetto_sistemi_operati.Wire.Streams.{
  Event, Transfer, minus_one, count, readn, readn-exact, ReadEnd, Moving,
}
use progetto_sistemi_operati.Wire.Requests.{
  payload, write_message, new_request, new_request-payload,
}
use progetto_sistemi_operati.Wire.Sent.{readn-sent, first_read}

-- The results -1, 0 and -2, and a message.
pub data Arrival : Type 0 where
  lost left short : Arrival
  message : List ℕ → Arrival

-- The tests behind both reads of `n` bytes: -1 and 0 are returned, fewer bytes give -2.
unfoldable pub judge : ℕ → Outcome Arrival → Transfer → Outcome Arrival
judge n go minus_one = ok lost
judge n go (count c) = if c == 0 then ok left else if ltb c n then ok short else go

-- The message of `size` bytes. A negative size fails the allocation, but for -1, which allocates no
-- byte and reads without a bound.
unfoldable pub read_payload : ℕ → List ℕ → List Event → Outcome Arrival
unfolding readn judge
read_payload size stream es =
    let body : Outcome Arrival =
      readn size [] stream es >>= λ b. judge size (ok (message b.1)) b.0 in
    if size == 2 ^ 32 - 1 then fault else if leb (2 ^ 31) size then exited else body

-- `readMessage` of worker.c, with the events of its two reads.
unfoldable pub read_request : List ℕ → List Event → List Event → Outcome Arrival
unfolding readn judge read_payload deserialize_int
read_request stream es es' =
    readn 4 [] stream es >>= λ a. judge 4 (read_payload (deserialize_int a.1) a.2 es') a.0

read_payload-sent :
    (sent : List ℕ) (es : List Event)
    → 0 < length sent
    → length sent < 2 ^ 31
    → Moving es
    → length sent ≤ length es
    → read_payload (length sent) sent es ≡ ok (message sent)
unfolding read_payload
read_payload-sent sent es some_bytes small moving calls =
    let not_minus : (length sent == 2 ^ 32 - 1) ≡ false = ground arith in
    let positive : leb (2 ^ 31) (length sent) ≡ false = ground arith in
    let present : (length sent == 0) ≡ false = ground arith in
    let all : ltb (length sent) (length sent) ≡ false = ground arith in
    let read : readn (length sent) [] sent es ≡ ok (count (length sent), sent, []) =
      ap (λ b. readn (length sent) [] b es) (sym (append-nil sent))
      ∙ readn-sent sent [] es some_bytes moving calls in
    rw (not_minus, read_payload, positive, read, present, all) refl

pub length-payload :
    (kind : ℕ) (path bytes : List ℕ) (flags : ℕ)
    → length (payload kind path bytes flags) ≡ 14 + length path + length bytes
unfolding payload serialize_int
length-payload kind path bytes flags =
    let sized = serialize_int (length bytes) in
    omega (
      arith,
      length-append (path ++ 32 ∷ sized ++ bytes) (serialize_int flags),
      length-append (path ++ 32 ∷ sized) bytes,
      length-append path (32 ∷ sized),
    )

read_request-header :
    (n : ℕ) (rest : List ℕ) (es es' : List Event)
    → n < 2 ^ 32
    → Moving es
    → 4 ≤ length es
    → read_request (serialize_int n ++ rest) es es' ≡ read_payload n rest es'
unfolding read_request
read_request-header n rest es es' small moving calls =
    rw (read_request, first_read n rest es moving calls)
      (ap (λ k. read_payload k rest es') (deserialize_int-serialize_int n small))

-- After `readn`, the answer -2 comes from nowhere but what is done next.
judge-short :
    (n : ℕ) (whole : List ℕ) (m : Outcome (Transfer × List ℕ × List ℕ))
    (go : Transfer × List ℕ × List ℕ → Outcome Arrival)
    → ReadEnd n whole m
    → (m >>= λ a. judge n (go a) a.0) ≡ ok short
    → (a : Transfer × List ℕ × List ℕ) × (go a ≡ ok short)
unfolding judge
judge-short n whole (ok (minus_one, buf, rest)) go end e = cc
judge-short n whole (ok (count c, buf, rest)) go end e = elim (Bool-cases (c == 0)) [
  | inl none_read ↦ cc (rw none_read at e)
  | inr some_read ↦ elim end [
    | inl zero_read ↦ let t : (c == 0) ≡ true = ground arith in cc
    | inr (all, _, _) ↦
        let enough : ltb c n ≡ false = ground arith in
        ((count c, buf, rest), rw (some_read, enough) at e)
  ]
]
judge-short n whole fault go end e = cc
judge-short n whole exited go end e = cc
judge-short n whole stuck go end e = cc

read_payload-short :
    (size : ℕ) (stream : List ℕ) (es : List Event) → read_payload size stream es ≢ ok short
unfolding read_payload
read_payload-short size stream es = elim (Bool-cases (size == 2 ^ 32 - 1)) [
  | inl minus ↦ rw (minus, read_payload) (λ e. cc)
  | inr not_minus ↦
      rw (not_minus, read_payload)
        (elim (Bool-cases (leb (2 ^ 31) size)) [
          | inl negative ↦ rw negative (λ e. cc)
          | inr positive ↦ rw positive (λ e.
              let (a, none_short) =
                judge-short size stream (readn size [] stream es) (λ b. ok (message b.1))
                  (readn-exact size stream es) e in
              cc)
        ])
]

-- readMessage of the server never returns -2, whatever the client sends and however its calls of
-- read go.
pub read_request-short :
    (stream : List ℕ) (es es' : List Event) → read_request stream es es' ≢ ok short
unfolding read_request
read_request-short stream es es' e =
    let (a, still_short) =
      judge-short 4 stream (readn 4 [] stream es) (λ a. read_payload (deserialize_int a.1) a.2 es')
        (readn-exact 4 stream es) e in
    read_payload-short (deserialize_int a.1) a.2 es' still_short

-- The server reads from the socket the message that the client has written, and its parser finds
-- in it the kind, the flags, the path and the content that were sent, if the message has less
-- than 2 ^ 31 bytes, the flags are below 2 ^ 32, the path has no NUL, each call of read moves
-- bytes and there are enough of them.
pub read_request-write_message :
    (kind : ℕ) (path bytes : List ℕ) (flags client : ℕ) (es es' : List Event)
    → 14 + length path + length bytes < 2 ^ 31
    → flags < 2 ^ 32
    → All (λ b. b ≢ 0) path
    → Moving es × Moving es'
    → (4 ≤ length es) × (14 + length path + length bytes ≤ length es')
    → (msg : List ℕ) × (r : Request) × (read_request (write_message kind path bytes flags) es es'
        ≡ ok (message msg))
      × (new_request msg client ≡ ok r)
      × ((r.kind ≡ kind) × (r.flags ≡ flags) × (r.client ≡ client))
      × Layout r.file path bytes
unfolding write_message
read_request-write_message kind path bytes flags client es es' small hf no_nul moving calls =
    let size = length-payload kind path bytes flags in
    let sent = payload kind path bytes flags in
    let (r, parsed, k, f, c, n, l) =
      new_request-payload kind path bytes flags client (omega arith) (omega arith) hf no_nul in
    (
      sent,
      r,
      read_request-header (length sent) sent es es' (omega (arith, size)) moving.0 calls.0
          ∙ read_payload-sent sent es' (omega (arith, size)) (omega (arith, size)) moving.1
              (omega (arith, size)),
      parsed,
      (k, f, c),
      l,
    )
