-- ===== src/Client/Directories.antt =====
-- expandRequests of src/client/src/args.c: the flags -d and -D and the requests that they are about.
pub mod Marked
pub mod Assigned
pub mod Requested
mod Tests
use progetto_sistemi_operati.Base.{
  ℕ, suc, ◌+◌, ◌||◌, ◌&&◌, List, [], ◌∷◌, ◌++◌, Bool, true, false, Option, none, some, ◌==◌,
  if◌then◌else◌, Outcome, ok, fault, ◌>>=◌,
}
use progetto_sistemi_operati.Client.Requests.{ClientRequest, set_request_directory}

-- The type of the flag and the type of the request in front of it go together.
abbrev pub fits : ℕ → ℕ → Bool
fits flag kind =
    (flag == b'd' && (kind == b'r' || kind == b'R'))
    || (flag == b'D' && (kind == b'w' || kind == b'W'))

abbrev pub is_dir_flag : ℕ → Bool
is_dir_flag kind = kind == b'd' || kind == b'D'

-- The loop that goes back from a flag, over the requests before it, the nearest first.
unfoldable pub set_directories : ClientRequest → List ClientRequest → List ClientRequest
unfolding set_request_directory
set_directories flag [] = []
set_directories flag (r ∷ rs) =
    let set = set_request_directory flag.content r ∷ set_directories flag rs in
    if r.index + 1 == flag.index then set else r ∷ rs

-- A flag at the front follows the null pointer that `get` gives for index -1.
unfoldable pub expand_flag : ClientRequest → List ClientRequest → Outcome (List ClientRequest)
unfolding set_directories
expand_flag flag [] = fault
expand_flag flag (r ∷ rs) =
    ok (if fits flag.kind r.kind then set_directories flag (r ∷ rs) else r ∷ rs)

-- `before` are the requests that the loop has passed, the last one first; then all of them.
unfoldable pub expand_from : List ClientRequest → List ClientRequest → Outcome (List ClientRequest)
unfolding expand_flag
expand_from before [] = ok before
expand_from before (r ∷ rs) = elim (is_dir_flag r.kind) [
  | true ↦ expand_flag r before >>= λ changed. expand_from (r ∷ changed) rs
  | false ↦ expand_from (r ∷ before) rs
]

unfoldable pub rev_onto : List ClientRequest → List ClientRequest → List ClientRequest
rev_onto [] rs = rs
rev_onto (x ∷ xs) rs = rev_onto xs (x ∷ rs)

-- `expandRequests`; the list is turned round again.
unfoldable pub expand_requests : List ClientRequest → Outcome (List ClientRequest)
unfolding expand_from rev_onto
expand_requests requests = expand_from [] requests >>= λ passed. ok (rev_onto passed [])
