-- ===== src/Wire/Streams.antt =====
-- readn and writen of comunication.c, over what `read` and `write` return.
use progetto_sistemi_operati.Wire.Ints.{serialize_int}
use progetto_sistemi_operati.Base.{
  ℕ, zero, suc, ◌+◌, ◌-◌, ◌≤◌, ◌<◌, ◌≡◌, refl, ap, ◌∙◌, ◌⊎◌, inl, inr, List, [], ◌∷◌, ◌++◌, min,
  arith, length, length-append, append-nil, sym, ◌^◌, take, drop, ltb, ◌==◌, Bool-cases,
  if◌then◌else◌, Outcome, ok, stuck, fault, exited, append_assoc, subst, true, false,
}

-- What one call does: it is interrupted, it fails, or it moves bytes, as many as it likes up to what
-- is asked for. `read` moves none only at the end of the file.
pub data Event : Type 0 where
  interrupted error : Event
  moves : ℕ → Event

-- `ssize_t`: -1 or a count.
pub data Transfer : Type 0 where
  minus_one : Transfer
  count : ℕ → Transfer

-- `readn` once `got` has been read; `stream` is what the other side sends. Without an event the call
-- blocks for ever.
unfoldable pub readn : ℕ → List ℕ → List ℕ → List Event → Outcome (Transfer × List ℕ × List ℕ)
readn n got stream [] = if ltb (length got) n then stuck else ok (count (length got), got, stream)
readn n got stream (interrupted ∷ es) =
    let rest = readn n got stream es in
    if ltb (length got) n then rest else ok (count (length got), got, stream)
readn n got stream (error ∷ es) =
    if ltb (length got) n then ok (minus_one, got, stream) else ok (count (length got), got, stream)
readn n got stream (moves k ∷ es) =
    let m = min (min k (n - length got)) (length stream) in
    let rest = readn n (got ++ take m stream) (drop m stream) es in
    let moved = if m == 0 then ok (count 0, got, stream) else rest in
    if ltb (length got) n then moved else ok (count (length got), got, stream)

-- How a read of `n` bytes can end: it fails, the stream ends, exactly `n` bytes are read, or it
-- blocks. `whole` is what has been read and what is still to come.
abbrev pub ReadEnd : ℕ → List ℕ → Outcome (Transfer × List ℕ × List ℕ) → Type 0
ReadEnd n whole (ok (minus_one, buf, rest)) = Unit
ReadEnd n whole (ok (count c, buf, rest)) =
    (c ≡ 0) ⊎ ((c ≡ n) × (length buf ≡ n) × (buf ++ rest ≡ whole))
ReadEnd n whole stuck = Unit
ReadEnd n whole fault = ⊥
ReadEnd n whole exited = ⊥

full :
    (n : ℕ) (got stream : List ℕ)
    → length got ≤ n
    → ltb (length got) n ≡ false
    → ReadEnd n (got ++ stream) (ok (count (length got), got, stream))
full n got stream le e = inr (ground arith, ground arith, refl)

pub take-drop : (k : ℕ) (xs : List ℕ) → take k xs ++ drop k xs ≡ xs
take-drop zero xs = refl
take-drop (suc k) [] = refl
take-drop (suc k) (x ∷ xs) = ap (λ r. x ∷ r) (take-drop k xs)

length-take : (k : ℕ) (xs : List ℕ) → k ≤ length xs → length (take k xs) ≡ k
length-take zero xs h = refl
length-take (suc k) [] h = omega arith
length-take (suc k) (x ∷ xs) h = ap suc (length-take k xs (omega arith))

readn-ReadEnd :
    (n : ℕ) (got stream : List ℕ) (es : List Event)
    → length got ≤ n
    → ReadEnd n (got ++ stream) (readn n got stream es)
unfolding readn
readn-ReadEnd n got stream [] le = elim (Bool-cases (ltb (length got) n)) [
  | inl less ↦ rw less tt
  | inr all ↦ rw all (full n got stream le all)
]
readn-ReadEnd n got stream (interrupted ∷ es) le = elim (Bool-cases (ltb (length got) n)) [
  | inl less ↦ rw less (readn-ReadEnd n got stream es le)
  | inr all ↦ rw all (full n got stream le all)
]
readn-ReadEnd n got stream (error ∷ es) le = elim (Bool-cases (ltb (length got) n)) [
  | inl less ↦ rw less tt
  | inr all ↦ rw all (full n got stream le all)
]
readn-ReadEnd n got stream (moves k ∷ es) le = elim (Bool-cases (ltb (length got) n)) [
  | inr all ↦ rw all (full n got stream le all)
  | inl less ↦ rw less (elim (Bool-cases (m == 0)) [
    | inl none_left ↦ rw none_left (inl refl)
    | inr some_left ↦ rw some_left (
        subst (λ whole. ReadEnd n whole (readn n (got ++ take m stream) (drop m stream) es)) whole
          (readn-ReadEnd n (got ++ take m stream) (drop m stream) es (shorter less)))
  ])
]
  where
    m : ℕ
    m = min (min k (n - length got)) (length stream)

    whole : got ++ take m stream ++ drop m stream ≡ got ++ stream
    whole =
        append_assoc got (take m stream) (drop m stream) ∙ ap (λ r. got ++ r) (take-drop m stream)

    shorter : ltb (length got) n ≡ true → length (got ++ take m stream) ≤ n
    shorter less =
        ground (arith, length-append got (take m stream), length-take m stream (omega arith))

-- readn returns -1, 0 or the whole number of bytes asked for, and then it has the first bytes of
-- the stream and leaves the others; or it blocks.
pub readn-exact :
    (n : ℕ) (stream : List ℕ) (es : List Event) → ReadEnd n stream (readn n [] stream es)
readn-exact n stream es = readn-ReadEnd n [] stream es (omega arith)

-- Calls that move at least one byte each.
abbrev pub Moving : List Event → Type 0
Moving [] = Unit
Moving (moves (suc k) ∷ es) = Moving es
Moving (moves zero ∷ es) = ⊥
Moving (interrupted ∷ es) = ⊥
Moving (error ∷ es) = ⊥

readn-returns_from :
    (n : ℕ) (got stream : List ℕ) (es : List Event)
    → Moving es
    → length got ≤ n
    → n ≤ length got + length stream
    → n ≤ length got + length es
    → (buf : List ℕ) × (rest : List ℕ) × (readn n got stream es ≡ ok (count n, buf, rest))
unfolding readn
readn-returns_from n got stream [] moving le enough calls =
    let all : ltb (length got) n ≡ false = ground arith in
    let e : length got ≡ n = omega arith in
    rw all (got, stream, ap (λ c. ok (count c, got, stream)) e)
readn-returns_from n got stream (interrupted ∷ es) moving le enough calls = elim moving [ ]
readn-returns_from n got stream (error ∷ es) moving le enough calls = elim moving [ ]
readn-returns_from n got stream (moves zero ∷ es) moving le enough calls = elim moving [ ]
readn-returns_from n got stream (moves (suc k) ∷ es) moving le enough calls =
    elim (Bool-cases (ltb (length got) n)) [
      | inr all ↦
          let e : length got ≡ n = ground arith in
          rw all (got, stream, ap (λ c. ok (count c, got, stream)) e)
      | inl less ↦
          let m = min (min (suc k) (n - length got)) (length stream) in
          let some_bytes : 0 < m = ground arith in
          let moved : (m == 0) ≡ false = ground arith in
          let taken : length (got ++ take m stream) ≡ length got + m =
            length-append got (take m stream)
            ∙ ap (λ c. length got + c) (length-take m stream (omega arith)) in
          let parts : length (take m stream) + length (drop m stream) ≡ length stream =
            sym (length-append (take m stream) (drop m stream)) ∙ ap length (take-drop m stream) in
          rw (less, moved)
            (readn-returns_from n (got ++ take m stream) (drop m stream) es moving
              (omega (arith, taken))
              (omega (arith, taken, parts, length-take m stream (omega arith)))
              (omega (arith, taken)))
    ]

-- If each call of read moves bytes, there are enough calls and the stream has at least n bytes, n
-- > 0, then readn returns n with the first n bytes.
pub readn-returns :
    (n : ℕ) (stream : List ℕ) (es : List Event)
    → 0 < n
    → Moving es
    → n ≤ length stream
    → n ≤ length es
    → (buf : List ℕ) × (rest : List ℕ) × (readn n [] stream es ≡ ok (count n, buf, rest))
      × (length buf ≡ n)
      × (buf ++ rest ≡ stream)
readn-returns n stream es some_bytes moving enough calls =
    let (buf, rest, e) =
      readn-returns_from n [] stream es moving (omega arith) (omega arith) (omega arith) in
    elim (subst (ReadEnd n stream) e (readn-exact n stream es)) [
      | inl none_read ↦ absurd (let ne : n ≡ 0 → ⊥ = λ z. omega arith in ne none_read)
      | inr (_, size, parts) ↦ (buf, rest, e, size, parts)
    ]

-- `writen` once `sent` has been written of `left`, which is still to go.
unfoldable pub writen : List ℕ → List ℕ → List Event → Outcome (Transfer × List ℕ)
writen sent [] es = ok (count (length sent), sent)
writen sent (b ∷ bs) [] = stuck
writen sent (b ∷ bs) (interrupted ∷ es) = writen sent (b ∷ bs) es
writen sent (b ∷ bs) (error ∷ es) = ok (minus_one, sent)
writen sent (b ∷ bs) (moves zero ∷ es) = ok (count 0, sent)
writen sent (b ∷ bs) (moves (suc k) ∷ es) = writen (sent ++ b ∷ take k bs) (drop k bs) es

unfoldable pub ping_ok : List Event → Outcome (Transfer × List ℕ)
unfolding writen serialize_int
ping_ok es = writen [] (serialize_int 0) es

unfoldable pub ping_ko : List Event → Outcome (Transfer × List ℕ)
unfolding writen serialize_int
ping_ko es = writen [] (serialize_int (2 ^ 32 - 2)) es

-- How a write ends, as for a read.
abbrev pub WriteEnd : List ℕ → Outcome (Transfer × List ℕ) → Type 0
WriteEnd whole (ok (minus_one, sent)) = Unit
WriteEnd whole (ok (count c, sent)) = (c ≡ 0) ⊎ ((c ≡ length whole) × (sent ≡ whole))
WriteEnd whole stuck = Unit
WriteEnd whole fault = ⊥
WriteEnd whole exited = ⊥

writen-WriteEnd :
    (sent left : List ℕ) (es : List Event) → WriteEnd (sent ++ left) (writen sent left es)
unfolding writen
writen-WriteEnd sent [] es = inr (ap length (sym (append-nil sent)), sym (append-nil sent))
writen-WriteEnd sent (b ∷ bs) [] = tt
writen-WriteEnd sent (b ∷ bs) (interrupted ∷ es) = writen-WriteEnd sent (b ∷ bs) es
writen-WriteEnd sent (b ∷ bs) (error ∷ es) = tt
writen-WriteEnd sent (b ∷ bs) (moves zero ∷ es) = inl refl
writen-WriteEnd sent (b ∷ bs) (moves (suc k) ∷ es) =
    let rest = b ∷ take k bs in
    subst (λ whole. WriteEnd whole (writen (sent ++ rest) (drop k bs) es))
      (append_assoc sent rest (drop k bs) ∙ ap (λ r. sent ++ b ∷ r) (take-drop k bs))
      (writen-WriteEnd (sent ++ rest) (drop k bs) es)

-- writen returns -1, 0 or the whole number of bytes, and then all of them have been written in
-- order; or it blocks.
pub writen-exact : (bytes : List ℕ) (es : List Event) → WriteEnd bytes (writen [] bytes es)
writen-exact bytes es = writen-WriteEnd [] bytes es
