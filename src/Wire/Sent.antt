-- ===== src/Wire/Sent.antt =====
-- What readn of comunication.c returns of bytes that have been sent.
use progetto_sistemi_operati.Base.{
  ℕ, ◌<◌, ◌≤◌, ◌≡◌, sym, ap₂, ◌∙◌, List, [], ◌++◌, arith, length, take, drop, length-append,
  take-length-append, drop-length-append, ok,
}
use progetto_sistemi_operati.Wire.Ints.{serialize_int}
use progetto_sistemi_operati.Wire.Streams.{Event, count, readn, Moving, readn-returns}

parts-equal :
    (xs ys zs ws : List ℕ) → length xs ≡ length zs → xs ++ ys ≡ zs ++ ws → (xs ≡ zs) × (ys ≡ ws)
parts-equal xs ys zs ws n e = (
  sym (take-length-append xs ys) ∙ ap₂ (λ k l. take k l) n e ∙ take-length-append zs ws,
  sym (drop-length-append xs ys) ∙ ap₂ (λ k l. drop k l) n e ∙ drop-length-append zs ws,
)

-- What is sent first is what the first read returns, if its calls move bytes.
pub readn-sent :
    (sent rest : List ℕ) (es : List Event)
    → 0 < length sent
    → Moving es
    → length sent ≤ length es
    → readn (length sent) [] (sent ++ rest) es ≡ ok (count (length sent), sent, rest)
readn-sent sent rest es some_bytes moving calls =
    let (buf, left, e, size, parts) =
      readn-returns (length sent) (sent ++ rest) es some_bytes moving
        (omega (arith, length-append sent rest)) calls in
    let (same, same_left) = parts-equal buf left sent rest size parts in
    e ∙ ap₂ (λ b l. ok (count (length sent), b, l)) same same_left

-- The header of a message.
pub first_read :
    (n : ℕ) (rest : List ℕ) (es : List Event)
    → Moving es
    → 4 ≤ length es
    → readn 4 [] (serialize_int n ++ rest) es ≡ ok (count 4, serialize_int n, rest)
unfolding serialize_int
first_read n rest es moving calls = readn-sent (serialize_int n) rest es (omega arith) moving calls
