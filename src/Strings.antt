-- ===== src/Strings.antt =====
-- src/common/src/mystring.c and stringutils.c. A C string is its bytes before the NUL.
pub mod Split
pub mod Tokens
pub mod Numbers
mod Tests
use progetto_sistemi_operati.Base.{
  ℕ, zero, suc, ◌+◌, ◌-◌, ◌*◌, ◌^◌, ◌&&◌, ◌||◌, not, List, [], ◌∷◌, ◌++◌, Bool, true, false, Option,
  none, some, length, take, ◌==◌, leb, ltb, if◌then◌else◌, Outcome, ok, stuck, ◌>>=◌,
}
use progetto_sistemi_operati.Base.Int.{ℤ, pos, negsuc, sub_ℕ}

-- mystring.h; `size` counts the NUL.
pub record String : Type 0 where
  pub content : List ℕ
  pub size : ℕ

unfoldable pub new_string : List ℕ → String
new_string content = record { content = content; size = length content + 1 }

-- `strchr(delim, c) != NULL`
unfoldable pub is_in : ℕ → List ℕ → Bool
is_in c [] = false
is_in c (d ∷ ds) = c == d || is_in c ds

-- The bytes of `strtok`: the delimiters in front are skipped, a token goes to the next delimiter, and
-- the next call goes on behind that.
unfoldable pub skip_delims : List ℕ → List ℕ → List ℕ
unfolding is_in
skip_delims delim [] = []
skip_delims delim (c ∷ cs) =
    let rest = skip_delims delim cs in if is_in c delim then rest else c ∷ cs

unfoldable pub until_delim : List ℕ → List ℕ → List ℕ
unfolding is_in
until_delim delim [] = []
until_delim delim (c ∷ cs) =
    let rest = c ∷ until_delim delim cs in if is_in c delim then [] else rest

unfoldable pub behind_delim : List ℕ → List ℕ → List ℕ
unfolding is_in
behind_delim delim [] = []
behind_delim delim (c ∷ cs) = let rest = behind_delim delim cs in if is_in c delim then cs else rest

-- `strtok`: the token, and what it keeps for the next call; `none` is null.
unfoldable pub token_of : List ℕ → List ℕ → Option (List ℕ × List ℕ)
unfolding until_delim behind_delim
token_of delim [] = none
token_of delim (c ∷ cs) = some (until_delim delim (c ∷ cs), behind_delim delim (c ∷ cs))

unfoldable pub strtok : List ℕ → List ℕ → Option (List ℕ × List ℕ)
unfolding skip_delims token_of
strtok delim s = token_of delim (skip_delims delim s)

-- The loop of `char_array_split`; a token shortens what is left, so that its length is fuel enough.
unfoldable pub split_loop : ℕ → List ℕ → List ℕ → Outcome (List String)
unfolding new_string
split_loop zero delim s = stuck
split_loop (suc fuel) delim s = elim (strtok delim s) [
  | none ↦ ok []
  | some (token, rest) ↦ split_loop fuel delim rest >>= λ tokens. ok (new_string token ∷ tokens)
]

-- The first `size` bytes are split.
unfoldable pub char_array_split : List ℕ → ℕ → List ℕ → Outcome (List String)
unfolding split_loop
char_array_split char_arr size delim =
    let str = take size char_arr in split_loop (length str + 1) delim str

unfoldable pub string_split : String → List ℕ → Outcome (List String)
unfolding char_array_split
string_split self delim = char_array_split self.content self.size delim

-- `isspace` and `isdigit`
abbrev pub is_space : ℕ → Bool
is_space c = c == 32 || (leb 9 c && leb c 13)

abbrev pub is_digit : ℕ → Bool
is_digit c = leb b'0' c && leb c b'9'

unfoldable pub skip_spaces : List ℕ → List ℕ
skip_spaces [] = []
skip_spaces (c ∷ cs) = let rest = skip_spaces cs in if is_space c then rest else c ∷ cs

-- The digits in front, behind `value`, and what follows them.
unfoldable pub digits_value : ℕ → List ℕ → ℕ × List ℕ
digits_value value [] = (value, [])
digits_value value (c ∷ cs) =
    let rest = digits_value (value * 10 + (c - b'0')) cs in
    if is_digit c then rest else (value, c ∷ cs)

abbrev pub starts_with_digit : List ℕ → Bool
starts_with_digit [] = false
starts_with_digit (c ∷ cs) = is_digit c

abbrev pub is_nil : List ℕ → Bool
is_nil [] = true
is_nil (c ∷ cs) = false

-- `strtol(src, &end, 10)` behind the sign, for a `long` of 64 bits, with the tests of `strToInt` behind
-- it: without a digit `end` is `src`, which is not empty; out of range is ERANGE.
unfoldable pub long_of : Bool → List ℕ → Option ℤ
long_of negative s =
    let (value, rest) = digits_value 0 s in
    let limit = if negative then 2 ^ 63 else 2 ^ 63 - 1 in
    if starts_with_digit s && (is_nil rest && leb value limit)
    then some (if negative then sub_ℕ 0 value else pos value)
    else none

unfoldable pub signed_long : List ℕ → Option ℤ
unfolding long_of
signed_long [] = none
signed_long (c ∷ cs) =
    if c == b'-'
    then long_of true cs
    else if c == b'+'
    then long_of false cs
    else long_of false (c ∷ cs)

-- `strToInt`: the number that it writes, or `none` if it returns false; what is written then is not
-- read by its callers. `src` may be null.
unfoldable pub str_to_int : Option (List ℕ) → Option ℤ
unfolding skip_spaces signed_long
str_to_int none = none
str_to_int (some src) = signed_long (skip_spaces src)
