-- ===== src/Wire/Ints.antt =====
-- serializeInt and deserializeInt of comunication.c.
use progetto_sistemi_operati.Base.{
  ℕ, ◌+◌, ◌*◌, ◌/◌, ◌%◌, ◌^◌, ◌<◌, ◌≡◌, ap, ◌∙◌, List, [], ◌∷◌, ◌++◌, arith, get_or, length, take,
  drop, drop-length-append, length-append, leb, if◌then◌else◌, Outcome, ok, fault, true,
}

-- An `int` is its pattern of 32 bits, a number below 2 ^ 32; a negative one is 2 ^ 32 less its size.
unfoldable pub serialize_int : ℕ → List ℕ
serialize_int content =
    content % 256 ∷ content / 256 % 256 ∷ content / 65536 % 256 ∷ content / 16777216 % 256 ∷ []

-- The four bytes do not overlap, so that `|` is a sum.
unfoldable pub deserialize_int : List ℕ → ℕ
deserialize_int src =
    (get_or src 3 0 * 16777216 + get_or src 2 0 * 65536 + get_or src 1 0 * 256 + get_or src 0 0)
    % 2 ^ 32

pub deserialize_int-serialize_int : (n : ℕ) → n < 2 ^ 32 → deserialize_int (serialize_int n) ≡ n
unfolding deserialize_int serialize_int
deserialize_int-serialize_int n h = omega arith

-- The `int` at an offset of a buffer; beyond its end there is none.
unfoldable pub int_at : List ℕ → ℕ → Outcome ℕ
unfolding deserialize_int
int_at buf i =
    if leb (i + 4) (length buf) then ok (deserialize_int (take 4 (drop i buf))) else fault

-- An int below 2 ^ 32 that is serialized behind some bytes is read back at their end, whatever
-- follows.
pub int_at-serialize_int :
    (xs ys : List ℕ) (n i : ℕ)
    → n < 2 ^ 32
    → i ≡ length xs
    → int_at (xs ++ (serialize_int n ++ ys)) i ≡ ok n
unfolding int_at serialize_int deserialize_int
int_at-serialize_int xs ys n i h at =
    let tail = serialize_int n ++ ys in
    let inside : leb (length xs + 4) (length (xs ++ tail)) ≡ true =
      ground (arith, length-append xs tail) in
    ap (int_at (xs ++ tail)) at
    ∙ rw (inside, drop-length-append xs tail) (ap ok (deserialize_int-serialize_int n h))
