-- ===== src/Strings/Tokens.antt =====
-- The loop of char_array_split of stringutils.c ends, since each token takes a byte.
use progetto_sistemi_operati.Base.{
  ℕ, zero, suc, ◌+◌, ◌≤◌, ◌<◌, List, [], ◌∷◌, Bool-cases, inl, inr, Option, none, some, length,
  arith, ok, Ends, >>=-Ends, ◌>>=◌, take,
}
use progetto_sistemi_operati.Strings.{
  new_string, is_in, skip_delims, behind_delim, token_of, strtok, split_loop, char_array_split,
}

module _ (delim : List ℕ) where
  length-skip_delims : (s : List ℕ) → length (skip_delims delim s) ≤ length s
  unfolding skip_delims
  length-skip_delims [] = omega arith
  length-skip_delims (c ∷ cs) = elim (Bool-cases (is_in c delim)) [
    | inl inside ↦ rw inside (omega (arith, length-skip_delims cs))
    | inr outside ↦ rw outside (omega arith)
  ]

  length-behind_delim : (c : ℕ) (cs : List ℕ) → length (behind_delim delim (c ∷ cs)) ≤ length cs
  unfolding behind_delim
  length-behind_delim c [] = elim (Bool-cases (is_in c delim)) [
    | inl inside ↦ rw inside (omega arith)
    | inr outside ↦ rw outside (omega arith)
  ]
  length-behind_delim c (d ∷ ds) = elim (Bool-cases (is_in c delim)) [
    | inl inside ↦ rw inside (omega arith)
    | inr outside ↦ rw outside (omega (arith, length-behind_delim d ds))
  ]

  -- A token is followed by a shorter string.
  abbrev Shorter : List ℕ → Option (List ℕ × List ℕ) → Type 0
  Shorter s none = Unit
  Shorter s (some (token, rest)) = length rest < length s

  token_of-Shorter : (s rest : List ℕ) → length rest ≤ length s → Shorter s (token_of delim rest)
  unfolding token_of
  token_of-Shorter s [] le = tt
  token_of-Shorter s (c ∷ cs) le = omega (arith, length-behind_delim c cs)

  strtok-Shorter : (s : List ℕ) → Shorter s (strtok delim s)
  unfolding strtok
  strtok-Shorter s = token_of-Shorter s (skip_delims delim s) (length-skip_delims s)

  split_loop-Ends :
      (fuel : ℕ) (s : List ℕ) → length s < fuel → Ends (λ ts. Unit) (split_loop fuel delim s)
  unfolding split_loop
  split_loop-Ends zero s enough = absurd (omega arith)
  split_loop-Ends (suc fuel) s enough =
      go (strtok delim s) (strtok-Shorter s) (λ r less. split_loop-Ends fuel r (omega arith))
    where
      go :
          (t : Option (List ℕ × List ℕ))
          → Shorter s t
          → ((r : List ℕ) → length r < length s → Ends (λ ts. Unit) (split_loop fuel delim r))
          → Ends
              (λ ts. Unit)
              (elim t [
                | none ↦ ok []
                | some (token, rest) ↦
                    split_loop fuel delim rest >>= λ tokens. ok (new_string token ∷ tokens)
              ])
      go none h all = tt
      go (some (token, rest)) h all =
          >>=-Ends (λ ts. Unit) (λ ts. Unit) (split_loop fuel delim rest) _ (all rest h)
            (λ ts u. tt)

  pub char_array_split-Ends :
      (char_arr : List ℕ) (size : ℕ) → Ends (λ ts. Unit) (char_array_split char_arr size delim)
  unfolding char_array_split
  char_array_split-Ends char_arr size =
      split_loop-Ends (length (take size char_arr) + 1) (take size char_arr) (omega arith)
