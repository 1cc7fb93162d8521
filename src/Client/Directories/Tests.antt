-- ===== src/Client/Directories/Tests.antt =====
-- A read of two files, a flag for them, and a flag at the front.
use progetto_sistemi_operati.Base.{
  ℕ, zero, suc, ◌-◌, ◌≡◌, ap, Option, Ends, ◌>>=◌, refl, List, [], ◌∷◌, none, some, arith, ok,
}
use progetto_sistemi_operati.Base.Int.{pos}
use progetto_sistemi_operati.Client.Requests.{ClientRequest, new_request_without_dir}
use progetto_sistemi_operati.Client.Directories.{expand_requests, expand_flag}
use progetto_sistemi_operati.Client.Directories.Requested.{with_directories, expand_requests-parsed}
use progetto_sistemi_operati.Client.Options.{Found, parse_command_line_arguments}
use progetto_sistemi_operati.Client.Options.Chained.{Advances}
use progetto_sistemi_operati.Strings.{char_array_split, strtok}

abbrev request : ℕ → ℕ → ℕ → ClientRequest
request kind name index = record {
  content = name ∷ [];
  kind = kind;
  extra = pos 0;
  dir = none;
  index = index;
}

abbrev others : List ClientRequest
others = request b'r' 2 0 ∷ request b'd' 9 1 ∷ request b'l' 3 2 ∷ []

expand_runs :
    expand_requests (request b'r' 1 0 ∷ others)
    ≡ ok (
        record (request b'r' 1 0) { dir = some (9 ∷ []) }
        ∷ record (request b'r' 2 0) { dir = some (9 ∷ []) }
        ∷ request b'd' 9 1
        ∷ request b'l' 3 2
        ∷ [])
unfolding expand_requests expand_flag
expand_runs = refl

-- A command line, with the word that the scan is at: -r x,y -R -d o. The argument of -R is the
-- word of -d, so that the parser sets the scan one word back.
abbrev next_option : ℕ → Option (Found × ℕ)
next_option zero = some (record { opt = b'r'; optarg = b'x' ∷ b',' ∷ b'y' ∷ []; optopt = 0 }, 2)
next_option (suc zero) = none
next_option (suc (suc zero)) =
    some (record { opt = b'R'; optarg = b'-' ∷ b'd' ∷ []; optopt = 0 }, 4)
next_option (suc (suc (suc zero))) = some (record { opt = b'd'; optarg = b'o' ∷ []; optopt = 0 }, 5)
next_option (suc (suc (suc (suc n)))) = none

abbrev one_back : ℕ → ℕ
one_back n = n - 1

abbrev words_left : ℕ → ℕ
words_left n = 5 - n

abbrev next_word : ℕ → Option (Found × ℕ) → ℕ
next_word n none = n
next_word n (some (f, m)) = m

advances : Advances next_option one_back words_left
advances zero f t e =
    let at : 2 ≡ t = ap (next_word 0) e in (omega (arith, at), λ i p q h. omega (arith, at))
advances (suc zero) f t e = cc
advances (suc (suc zero)) f t e =
    let at : 4 ≡ t = ap (next_word 0) e in (omega (arith, at), λ i p q h. omega (arith, at))
advances (suc (suc (suc zero))) f t e =
    let at : 5 ≡ t = ap (next_word 0) e in (omega (arith, at), λ i p q h. omega (arith, at))
advances (suc (suc (suc (suc n)))) f t e = cc

expand_requests-parsed_example :
    Ends
      (λ p. expand_requests p.requests ≡ with_directories p.requests)
      (parse_command_line_arguments next_option one_back 6 0)
expand_requests-parsed_example =
    expand_requests-parsed next_option one_back words_left advances 6 0 (omega arith)

parse_runs :
    (parse_command_line_arguments next_option one_back 6 0 >>= λ p. ok p.requests)
    ≡ ok (
        request b'r' b'x' 0
        ∷ request b'r' b'y' 0
        ∷ record (request b'R' 0 1) { content = [] }
        ∷ request b'd' b'o' 2
        ∷ [])
unfolding parse_command_line_arguments char_array_split strtok new_request_without_dir
parse_runs = refl
