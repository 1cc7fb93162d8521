-- ===== src/Client/Directories/Requested.antt =====
-- parseCommandLineArguments and then expandRequests, as main of src/client/src/main.c calls them.
use progetto_sistemi_operati.Base.{
  ℕ, ◌<◌, ◌≡◌, refl, List, [], ◌∷◌, Option, if◌then◌else◌, Outcome, ok, fault, Ends, Ends-map,
}
use progetto_sistemi_operati.Client.Requests.{ClientRequest}
use progetto_sistemi_operati.Client.Options.{Found, parse_command_line_arguments}
use progetto_sistemi_operati.Client.Options.Numbered.{Chain}
use progetto_sistemi_operati.Client.Options.Chained.{Advances, parse_command_line_arguments-Chain}
use progetto_sistemi_operati.Client.Directories.{
  is_dir_flag, expand_requests, expand_from, rev_onto,
}
use progetto_sistemi_operati.Client.Directories.Assigned.{directed, expand_requests-directed}

-- Each request with its directory; a flag in front of all follows the null pointer.
abbrev pub with_directories : List ClientRequest → Outcome (List ClientRequest)
with_directories [] = ok []
with_directories (r ∷ rs) = if is_dir_flag r.kind then fault else ok (directed (r ∷ rs))

Chain-with_directories :
    (rs : List ClientRequest) → Chain rs → expand_requests rs ≡ with_directories rs
unfolding expand_requests expand_from rev_onto
Chain-with_directories [] c = refl
Chain-with_directories (r ∷ rs) f = expand_requests-directed r rs f

-- If each call of getopt goes forward, and where an option sets the scan one step back the scan
-- still goes on behind that option, the parser of the command line returns or follows a null
-- pointer, and does not run on. After a return expandRequests gives each request the directory of
-- the -d or -D that stands right behind the requests of its option and goes with its type, and
-- changes nothing else; a -d or -D in front of all requests makes it follow a null pointer.
pub expand_requests-parsed :
    {S : Type 0} (getopt : S → Option (Found × S)) (step_back : S → S) (left : S → ℕ)
    → Advances getopt step_back left
    → (fuel : ℕ) (s : S) → left s < fuel
    → Ends
        (λ p. expand_requests p.requests ≡ with_directories p.requests)
        (parse_command_line_arguments getopt step_back fuel s)
expand_requests-parsed getopt step_back left advances fuel s enough =
    let parsed = parse_command_line_arguments getopt step_back fuel s in
    Ends-map (λ p. Chain p.requests) (λ p. expand_requests p.requests ≡ with_directories p.requests)
      parsed (λ p c. Chain-with_directories p.requests c)
      (parse_command_line_arguments-Chain getopt step_back left advances fuel s enough)
