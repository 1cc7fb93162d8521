-- ===== src/Strings/Tests.antt =====
-- Splitting and reading numbers, on small inputs.
use progetto_sistemi_operati.Base.{ℕ, List, ◌≡◌, refl, [], ◌∷◌, none, some, ok}
use progetto_sistemi_operati.Base.Int.{negsuc}
use progetto_sistemi_operati.Strings.{
  new_string, char_array_split, str_to_int, long_of, digits_value, strtok,
}

abbrev words : List (List ℕ)
words = (b'a' ∷ b'b' ∷ []) ∷ (b'c' ∷ []) ∷ []

-- Delimiters in a row and at the ends leave no empty word.
split_runs :
    char_array_split (b',' ∷ b'a' ∷ b',' ∷ b',' ∷ []) 4 (b',' ∷ [])
    ≡ ok (new_string (b'a' ∷ []) ∷ [])
unfolding char_array_split strtok
split_runs = refl

str_to_int_runs : str_to_int (some (32 ∷ b'-' ∷ b'4' ∷ b'2' ∷ [])) ≡ some (negsuc 41)
unfolding str_to_int long_of digits_value
str_to_int_runs = refl

str_to_int_refuses : str_to_int (some (b'4' ∷ b'x' ∷ [])) ≡ none
unfolding str_to_int long_of digits_value
str_to_int_refuses = refl
