-- ===== src/Wire/Replies.antt =====
-- An answer on its way: writeMessage of worker.c makes the bytes, readMessage of api.c reads them.
use progetto_sistemi_operati.Base.{
  ℕ, zero, suc, ◌+◌, ◌-◌, ◌^◌, ◌<◌, ◌≤◌, ◌≡◌, refl, sym, ap, ◌∙◌, List, [], ◌∷◌, ◌++◌, append_assoc,
  append-nil, arith, length, take, drop, All, length-append, take-length-append, drop-length-append,
  leb, ◌==◌, if◌then◌else◌, Bool, true, false, Outcome, ok, fault, ◌>>=◌,
}
use progetto_sistemi_operati.Wire.Ints.{
  serialize_int, deserialize_int, deserialize_int-serialize_int, int_at, int_at-serialize_int,
}
use progetto_sistemi_operati.Wire.Sent.{first_read, readn-sent}
use progetto_sistemi_operati.Wire.Streams.{Event, Transfer, minus_one, count, readn, Moving}

-- `writeMessage` of worker.c, one content after the other: its size, its bytes and a space.
unfoldable pub contents_bytes : List (List ℕ) → List ℕ
unfolding serialize_int
contents_bytes [] = []
contents_bytes (c ∷ cs) = serialize_int (length c) ++ (c ++ 32 ∷ contents_bytes cs)

-- What stands behind the header; without contents that is nothing.
unfoldable pub reply_payload : List (List ℕ) → List ℕ
unfolding serialize_int contents_bytes
reply_payload [] = []
reply_payload (c ∷ cs) = serialize_int (length (c ∷ cs)) ++ contents_bytes (c ∷ cs)

unfoldable pub write_reply : List (List ℕ) → List ℕ
unfolding serialize_int reply_payload
write_reply cs = serialize_int (length (reply_payload cs)) ++ reply_payload cs

-- The loop of `readMessage` of api.c, `n` rounds from index `i` on: a content is `size` bytes, and a
-- NUL is put behind it, over a byte that is not read again.
unfoldable pub read_contents : ℕ → List ℕ → ℕ → Outcome (List (List ℕ))
unfolding int_at
read_contents zero buf i = ok []
read_contents (suc n) buf i = int_at buf i >>= λ size.
    if leb (i + 4 + size) (length buf)
    then (read_contents n buf (i + 5 + size) >>= λ cs. ok (take size (drop (i + 4) buf) ∷ cs))
    else fault

-- What `readMessage` finds: a failed or closed connection, an error of the server, its bare consent,
-- or contents.
pub data Reply : Type 0 where
  broken : Reply
  server_error : ℕ → Reply
  consent : Reply
  contents : List (List ℕ) → Reply

abbrev pub is_count : ℕ → Transfer → Bool
is_count n minus_one = false
is_count n (count c) = c == n

-- The contents of a payload.
unfoldable pub parse_contents : List ℕ → Outcome Reply
unfolding int_at read_contents
parse_contents msg = int_at msg 0 >>= λ n. read_contents n msg 4 >>= λ cs. ok (contents cs)

-- `readMessage` of api.c behind the header. A size of 2 ^ 31 or more is negative.
unfoldable pub read_body : ℕ → List ℕ → List Event → Outcome Reply
unfolding readn parse_contents
read_body size stream es =
    let body : Outcome Reply = readn size [] stream es >>= λ b.
    if is_count size b.0 then parse_contents b.1 else ok broken in
    let sized : Outcome Reply = if size == 0 then ok consent else body in
    if leb (2 ^ 31) size then ok (server_error (2 ^ 32 - size)) else sized

-- All of it, with the events of its two reads.
unfoldable pub read_reply : List ℕ → List Event → List Event → Outcome Reply
unfolding readn read_body deserialize_int
read_reply stream es es' = readn 4 [] stream es >>= λ a.
    if is_count 4 a.0 then read_body (deserialize_int a.1) a.2 es' else ok broken

drop-beyond : (xs ys : List ℕ) (i : ℕ) → i ≡ length xs → drop i (xs ++ ys) ≡ ys
drop-beyond xs ys i at = ap (λ j. drop j (xs ++ ys)) at ∙ drop-length-append xs ys

module _ (c : List ℕ) (cs : List (List ℕ)) (before : List ℕ) (i : ℕ) (at : i ≡ length before) where
  whole : List ℕ
  unfolding serialize_int contents_bytes
  whole = before ++ contents_bytes (c ∷ cs)

  behind_size : whole ≡ before ++ serialize_int (length c) ++ (c ++ 32 ∷ contents_bytes cs)
  unfolding whole contents_bytes
  behind_size = sym (append_assoc before (serialize_int (length c)) (c ++ 32 ∷ contents_bytes cs))

  head_length : i + 4 ≡ length (before ++ serialize_int (length c))
  unfolding serialize_int
  head_length = omega (arith, length-append before (serialize_int (length c)))

  taken : take (length c) (drop (i + 4) whole) ≡ c
  taken =
      ap (λ b. take (length c) (drop (i + 4) b)) behind_size
      ∙ ap (take (length c))
          (drop-beyond (before ++ serialize_int (length c)) _ (i + 4) head_length)
      ∙ take-length-append c (32 ∷ contents_bytes cs)

  inside : leb (i + 4 + length c) (length whole) ≡ true
  inside =
      let front = before ++ serialize_int (length c) in
      let rest = 32 ∷ contents_bytes cs in
      let size = ap length behind_size in
      ground (arith, size, head_length, length-append front (c ++ rest), length-append c rest)

  next_before : List ℕ
  next_before = before ++ serialize_int (length c) ++ c ++ 32 ∷ []

  behind_content : whole ≡ next_before ++ contents_bytes cs
  unfolding next_before
  behind_content =
      let front = before ++ serialize_int (length c) in
      behind_size
      ∙ sym (append_assoc front c (32 ∷ contents_bytes cs))
      ∙ sym (append_assoc (front ++ c) (32 ∷ []) (contents_bytes cs))

  next_length : i + 5 + length c ≡ length next_before
  unfolding next_before
  next_length =
      let front = before ++ serialize_int (length c) in
      omega (arith, head_length, length-append front c, length-append (front ++ c) (32 ∷ []))

read_contents-contents_bytes :
    (cs : List (List ℕ)) (before : List ℕ) (i : ℕ)
    → All (λ c. length c < 2 ^ 31) cs
    → i ≡ length before
    → read_contents (length cs) (before ++ contents_bytes cs) i ≡ ok cs
unfolding read_contents contents_bytes whole
read_contents-contents_bytes [] before i small at = refl
read_contents-contents_bytes (c ∷ cs) before i (short, small) at =
    let rest =
      ap (λ b. read_contents (length cs) b (i + 5 + length c)) (behind_content c cs before i at)
      ∙ read_contents-contents_bytes cs (next_before c cs before i at) (i + 5 + length c) small
          (next_length c cs before i at) in
    rw
      (
        int_at-serialize_int before (c ++ 32 ∷ contents_bytes cs) (length c) i (omega arith) at,
        inside c cs before i at,
        rest,
        taken c cs before i at,
      )
      refl

-- The three answers, and the bytes that the server sends for them.
abbrev pub sent_for : Reply → List ℕ
sent_for (contents cs) = write_reply cs
sent_for consent = serialize_int 0
sent_for (server_error n) = serialize_int (2 ^ 32 - n)
sent_for broken = []

-- The answers that the protocol can carry.
abbrev pub Sendable : Reply → Type 0
Sendable (contents cs) =
    (0 < length cs) × All (λ c. length c < 2 ^ 31) cs × (length (reply_payload cs) < 2 ^ 31)
Sendable consent = Unit
Sendable (server_error n) = (0 < n) × (n ≤ 2 ^ 31)
Sendable broken = ⊥

length-contents_bytes : (cs : List (List ℕ)) → length cs ≤ length (contents_bytes cs)
unfolding contents_bytes
length-contents_bytes [] = omega arith
length-contents_bytes (c ∷ cs) =
    omega (arith, length-append c (32 ∷ contents_bytes cs), length-contents_bytes cs)

number :
    (c : List ℕ) (cs : List (List ℕ))
    → length (reply_payload (c ∷ cs)) < 2 ^ 31
    → length (c ∷ cs) ≤ length (reply_payload (c ∷ cs))
unfolding reply_payload
number c cs short = omega (arith, length-contents_bytes (c ∷ cs))

four : (c : List ℕ) (cs : List (List ℕ)) → 4 ≡ length (serialize_int (length (c ∷ cs)))
unfolding serialize_int
four c cs = refl

read_reply-header :
    (n : ℕ) (rest : List ℕ) (es es' : List Event)
    → n < 2 ^ 32
    → Moving es
    → 4 ≤ length es
    → read_reply (serialize_int n ++ rest) es es' ≡ read_body n rest es'
unfolding read_reply
read_reply-header n rest es es' small moving calls =
    rw (first_read n rest es moving calls, deserialize_int-serialize_int n small) refl

parse_contents-reply_payload :
    (c : List ℕ) (cs : List (List ℕ))
    → All (λ c. length c < 2 ^ 31) (c ∷ cs)
    → length (reply_payload (c ∷ cs)) < 2 ^ 31
    → parse_contents (reply_payload (c ∷ cs)) ≡ ok (contents (c ∷ cs))
unfolding parse_contents reply_payload
parse_contents-reply_payload c cs small short =
    rw
      (
        int_at-serialize_int [] (contents_bytes (c ∷ cs)) (length (c ∷ cs)) 0
            (omega (arith, number c cs short)) refl,
        read_contents-contents_bytes (c ∷ cs) (serialize_int (length (c ∷ cs))) 4 small (four c cs),
      )
      refl

-- The client reads back the answer of the server, be it consent, an error or contents whose
-- lengths fit an int, if each call of read moves bytes and there are enough of them.
pub read_reply-sent_for :
    (reply : Reply) (es es' : List Event)
    → Sendable reply
    → Moving es
    → Moving es'
    → 4 ≤ length es
    → length (sent_for reply) ≤ length es'
    → read_reply (sent_for reply) es es' ≡ ok reply
unfolding write_reply read_body
read_reply-sent_for broken es es' sendable moving moving' calls calls' = elim sendable [ ]
read_reply-sent_for consent es es' sendable moving moving' calls calls' =
    ap (λ b. read_reply b es es') (sym (append-nil (serialize_int 0)))
    ∙ read_reply-header 0 [] es es' (omega arith) moving calls
read_reply-sent_for (server_error n) es es' (some_error, small) moving moving' calls calls' =
    let negative : leb (2 ^ 31) (2 ^ 32 - n) ≡ true = ground arith in
    let back : 2 ^ 32 - (2 ^ 32 - n) ≡ n = omega arith in
    ap (λ b. read_reply b es es') (sym (append-nil (serialize_int (2 ^ 32 - n))))
    ∙ read_reply-header (2 ^ 32 - n) [] es es' (omega arith) moving calls
    ∙ rw (negative, read_body) (ap (λ k. ok (server_error k)) back)
read_reply-sent_for (contents []) es es' (some_content, small, short) moving moving' calls calls' =
    elim some_content [ ]
read_reply-sent_for (contents (c ∷ cs)) es es' (some_content, small, short) moving moving' calls
      calls' =
    let payload = reply_payload (c ∷ cs) in
    let longer = number c cs short in
    let positive : leb (2 ^ 31) (length payload) ≡ false = ground arith in
    let present : (length payload == 0) ≡ false = ground (arith, longer) in
    let read : readn (length payload) [] payload es' ≡ ok (count (length payload), payload, []) =
      ap (λ b. readn (length payload) [] b es') (sym (append-nil payload))
      ∙ readn-sent payload [] es' (omega (arith, longer)) moving'
          (omega (arith, length-append (serialize_int (length payload)) payload)) in
    read_reply-header (length payload) payload es es' (omega arith) moving calls
    ∙ rw (positive, read_body, present, read)
        (rw (let e : (length payload == length payload) ≡ true = ground arith in e)
          (parse_contents-reply_payload c cs small short))
