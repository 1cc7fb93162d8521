-- ===== src/Strings/Split.antt =====
-- char_array_split of stringutils.c.
use progetto_sistemi_operati.Base.{
  ℕ, zero, suc, ◌+◌, ◌≤◌, ◌<◌, ◌≡◌, refl, ap₂, List, [], ◌∷◌, ◌++◌, false, none, some, length, All,
  ◌==◌, arith, ok, map, take-length-append, length-append,
}
use progetto_sistemi_operati.Strings.{
  new_string, is_in, skip_delims, until_delim, behind_delim, token_of, strtok, split_loop,
  char_array_split,
}

-- Words with a separator between them.
unfoldable pub join : ℕ → List (List ℕ) → List ℕ
join d [] = []
join d (w ∷ []) = w
join d (w ∷ (v ∷ ws)) = w ++ d ∷ join d (v ∷ ws)

-- A word is not empty and does not hold the separator.
abbrev pub IsWord : ℕ → List ℕ → Type 0
IsWord d w = (0 < length w) × All (λ c. (c == d) ≡ false) w

module _ (d : ℕ) where
  until_delim-word :
      (w rest : List ℕ) → All (λ c. (c == d) ≡ false) w → until_delim (d ∷ []) (w ++ d ∷ rest) ≡ w
  unfolding until_delim is_in
  until_delim-word [] rest h = ground arith
  until_delim-word (c ∷ w) rest (ne, h) = ground (arith, until_delim-word w rest h)

  behind_delim-word :
      (w rest : List ℕ)
      → All (λ c. (c == d) ≡ false) w
      → behind_delim (d ∷ []) (w ++ d ∷ rest) ≡ rest
  unfolding behind_delim is_in
  behind_delim-word [] rest h = ground arith
  behind_delim-word (c ∷ w) rest (ne, h) = ground (arith, behind_delim-word w rest h)

  until_delim-last : (w : List ℕ) → All (λ c. (c == d) ≡ false) w → until_delim (d ∷ []) w ≡ w
  unfolding until_delim is_in
  until_delim-last [] h = refl
  until_delim-last (c ∷ w) (ne, h) = ground (arith, until_delim-last w h)

  behind_delim-last : (w : List ℕ) → All (λ c. (c == d) ≡ false) w → behind_delim (d ∷ []) w ≡ []
  unfolding behind_delim is_in
  behind_delim-last [] h = refl
  behind_delim-last (c ∷ w) (ne, h) = ground (arith, behind_delim-last w h)

  strtok-word : (w rest : List ℕ) → IsWord d w → strtok (d ∷ []) (w ++ d ∷ rest) ≡ some (w, rest)
  unfolding strtok skip_delims token_of is_in
  strtok-word [] rest (some_byte, h) = elim some_byte [ ]
  strtok-word (c ∷ w) rest (some_byte, (ne, h)) = rw (ne) (
      ap₂ (λ a b. some (a, b)) (until_delim-word (c ∷ w) rest (ne, h))
        (behind_delim-word (c ∷ w) rest (ne, h)))

  strtok-last : (w : List ℕ) → IsWord d w → strtok (d ∷ []) w ≡ some (w, [])
  unfolding strtok skip_delims token_of is_in
  strtok-last [] (some_byte, h) = elim some_byte [ ]
  strtok-last (c ∷ w) (some_byte, (ne, h)) = rw (ne) (
      ap₂ (λ a b. some (a, b)) (until_delim-last (c ∷ w) (ne, h))
        (behind_delim-last (c ∷ w) (ne, h)))

  strtok-nil : strtok (d ∷ []) [] ≡ none
  unfolding strtok skip_delims token_of
  strtok-nil = refl

  split_loop-join :
      (ws : List (List ℕ)) (fuel : ℕ)
      → All (IsWord d) ws
      → length ws < fuel
      → split_loop fuel (d ∷ []) (join d ws) ≡ ok (map new_string ws)
  unfolding split_loop join
  split_loop-join ws zero h enough = absurd (omega arith)
  split_loop-join [] (suc fuel) h enough = rw (strtok-nil, split_loop) refl
  split_loop-join (w ∷ []) (suc fuel) (word, h) enough =
      rw (strtok-last w word, split_loop, split_loop-join [] fuel tt (omega arith)) refl
  split_loop-join (w ∷ (v ∷ ws)) (suc fuel) (word, h) enough =
      rw
        (
          strtok-word w (join d (v ∷ ws)) word,
          split_loop,
          split_loop-join (v ∷ ws) fuel h (omega arith),
        )
        refl

  length-join : (ws : List (List ℕ)) → All (IsWord d) ws → length ws ≤ length (join d ws)
  unfolding join
  length-join [] h = omega arith
  length-join (w ∷ []) (word, h) = omega arith
  length-join (w ∷ (v ∷ ws)) (word, h) =
      omega (arith, length-append w (d ∷ join d (v ∷ ws)), length-join (v ∷ ws) h)

  -- char_array_split of words joined by the delimiter gives back the words, whatever follows the
  -- bytes that it is told to read, if no word is empty or has the delimiter in it.
  pub char_array_split-join :
      (ws : List (List ℕ)) (rest : List ℕ)
      → All (IsWord d) ws
      → char_array_split (join d ws ++ rest) (length (join d ws)) (d ∷ []) ≡ ok (map new_string ws)
  unfolding char_array_split
  char_array_split-join ws rest h =
      rw (take-length-append (join d ws) rest)
        (split_loop-join ws (length (join d ws) + 1) h (omega (arith, length-join ws h)))
