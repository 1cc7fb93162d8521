-- ===== src/Client/Main/Written.antt =====
-- The option -W of src/client/src/main.c, from the command line to the calls.
use progetto_sistemi_operati.Base.{
  ℕ, suc, ◌+◌, ◌≡◌, refl, ap, sym, ◌∙◌, List, [], ◌∷◌, ◌++◌, map, append_assoc, append-nil, Bool,
  true, false, Option, none, some, All, length, ok, ◌>>=◌,
}
use progetto_sistemi_operati.Base.Int.{pos}
use progetto_sistemi_operati.Strings.{new_string, char_array_split}
use progetto_sistemi_operati.Strings.Split.{IsWord, join, char_array_split-join}
use progetto_sistemi_operati.Client.Requests.{ClientRequest, new_request_without_dir}
use progetto_sistemi_operati.Client.Options.{
  Found, Parsed, nothing_parsed, handle_single_parameter, handle_single_parameter_with_extra,
  handle_each, handle_multiple_parameters, handle_option, parse_options,
  parse_command_line_arguments,
}
use progetto_sistemi_operati.Client.Directories.{expand_requests, expand_from, rev_onto}
use progetto_sistemi_operati.Client.Directories.Assigned.{rev_onto-rev_onto}
use progetto_sistemi_operati.Client.Calls.{Call, opens, writes, closes, Surroundings}
use progetto_sistemi_operati.Client.Sending.{Entries}
use progetto_sistemi_operati.Client.Sending.Files.{opened_paths, opened_paths-append}
use progetto_sistemi_operati.Client.Running.{go_on, run_write, process_request, process_requests}
use progetto_sistemi_operati.Client.Main.{run_parsed, run_main, socket_of}

-- The request to write a file.
abbrev written : List ℕ → ClientRequest
written path = record { content = path; kind = b'W'; extra = pos 0; dir = none; index = 0 }

handle_each-written :
    (paths : List (List ℕ)) (p : Parsed)
    → handle_each b'W' (map new_string paths) 0 p
      ≡ record p { requests = p.requests ++ map written paths }
unfolding handle_each handle_single_parameter handle_single_parameter_with_extra new_string
    new_request_without_dir
handle_each-written [] p = ap (λ rs. record p { requests = rs }) (sym (append-nil p.requests))
handle_each-written (x ∷ xs) p =
    handle_each-written xs (record p { requests = p.requests ++ written x ∷ [] })
    ∙ ap (λ rs. record p { requests = rs })
        (append_assoc p.requests (written x ∷ []) (map written xs))

expand_from-written :
    (paths : List (List ℕ)) (before : List ClientRequest)
    → expand_from before (map written paths) ≡ ok (rev_onto (map written paths) before)
unfolding expand_from rev_onto
expand_from-written [] before = refl
expand_from-written (x ∷ xs) before = expand_from-written xs (written x ∷ before)

silent :
    (calls : List Call) (c : Call)
    → opened_paths (c ∷ []) ≡ []
    → opened_paths (calls ++ c ∷ []) ≡ opened_paths calls
silent calls c e =
    opened_paths-append calls (c ∷ [])
    ∙ ap (λ ps. opened_paths calls ++ ps) e
    ∙ append-nil (opened_paths calls)

-- Whether the file is opened or not, its path has been asked for once.
go_on-opened :
    (past : List Call) (path : List ℕ) (is_open : Bool)
    → opened_paths (
        go_on
          (is_open, past ++ opens path 3 none ∷ [])
          (λ q. (q ++ writes path none ∷ []) ++ closes path ∷ []))
      ≡ opened_paths past ++ path ∷ []
unfolding opened_paths
go_on-opened past path true =
    let opening = past ++ opens path 3 none ∷ [] in
    silent (opening ++ writes path none ∷ []) (closes path) refl
    ∙ silent opening (writes path none) refl
    ∙ opened_paths-append past (opens path 3 none ∷ [])
go_on-opened past path false = opened_paths-append past (opens path 3 none ∷ [])

split-words :
    (paths : List (List ℕ))
    → All (IsWord b',') paths
    → char_array_split (join b',' paths) (length (join b',' paths)) (b',' ∷ [])
      ≡ ok (map new_string paths)
split-words paths words =
    ap (λ args. char_array_split args (length (join b',' paths)) (b',' ∷ []))
      (sym (append-nil (join b',' paths)))
    ∙ char_array_split-join b',' paths [] words

handle_option-written :
    (f : Found) (paths : List (List ℕ)) (p : Parsed)
    → All (IsWord b',') paths
    → f.opt ≡ b'W'
    → f.optarg ≡ join b',' paths
    → handle_option f 0 p ≡ ok (false, record p { requests = p.requests ++ map written paths })
unfolding handle_option handle_multiple_parameters
handle_option-written f paths p words opt optarg =
    rw (opt, optarg, split-words paths words)
      (ap (λ q. ok (false, q)) (handle_each-written paths p))

module _ (w : Surroundings) (tree : List ℕ → Bool × Entries) where
  run_write-opened :
      (path : List ℕ) (past : List Call)
      → opened_paths (run_write w tree (written path) past) ≡ opened_paths past ++ path ∷ []
  unfolding run_write opened_paths
  run_write-opened path past = go_on-opened past path (w.succeeds past (opens path 3 none))

  process_requests-opened :
      (paths : List (List ℕ)) (past : List Call)
      → (calls : List Call) × (process_requests w tree (map written paths) past ≡ ok calls)
        × (opened_paths calls ≡ opened_paths past ++ paths)
  unfolding process_requests process_request
  process_requests-opened [] past = (past, refl, sym (append-nil (opened_paths past)))
  process_requests-opened (x ∷ xs) past =
      let next = run_write w tree (written x) past in
      let (calls, e, opened) = process_requests-opened xs next in
      (
        calls,
        e,
        opened
            ∙ ap (λ ps. ps ++ xs) (run_write-opened x past)
            ∙ append_assoc (opened_paths past) (x ∷ []) xs,
      )

module _ {S : Type 0} (getopt : S → Option (Found × S)) (step_back : S → S) where
  parse-next :
      (fuel i : ℕ) (s t : S) (f : Found) (p q : Parsed)
      → getopt s ≡ some (f, t)
      → handle_option f i p ≡ ok (false, q)
      → parse_options getopt step_back (suc fuel) i s p
        ≡ parse_options getopt step_back fuel (i + 1) t q
  unfolding parse_options
  parse-next fuel i s t f p q first handled = rw (first, parse_options) (rw handled refl)

  parse-end :
      (fuel i : ℕ) (s : S) (p : Parsed)
      → getopt s ≡ none
      → parse_options getopt step_back (suc fuel) i s p ≡ ok p
  unfolding parse_options
  parse-end fuel i s p last = rw (last, parse_options) refl

  parse-written :
      (paths : List (List ℕ)) (s t : S) (f : Found) (fuel : ℕ)
      → All (IsWord b',') paths
      → f.opt ≡ b'W'
      → f.optarg ≡ join b',' paths
      → getopt s ≡ some (f, t)
      → getopt t ≡ none
      → parse_command_line_arguments getopt step_back (suc (suc fuel)) s
        ≡ ok (record nothing_parsed { requests = map written paths })
  unfolding parse_command_line_arguments nothing_parsed
  parse-written paths s t f fuel words opt optarg first last =
      parse-next (suc fuel) 0 s t f nothing_parsed
        (record nothing_parsed { requests = map written paths }) first
        (handle_option-written f paths nothing_parsed words opt optarg)
      ∙ parse-end fuel 1 t (record nothing_parsed { requests = map written paths }) last

expand_requests-written :
    (paths : List (List ℕ)) → expand_requests (map written paths) ≡ ok (map written paths)
unfolding expand_requests
expand_requests-written paths =
    ap (λ o. o >>= λ passed. ok (rev_onto passed [])) (expand_from-written paths [])
    ∙ ap ok (
        rev_onto-rev_onto (map written paths) [] []
        ∙ unfold rev_onto in append-nil (map written paths))

-- A client whose command line is -W with names that are separated by commas, none of them empty,
-- and which gets its connection: whatever the server answers to its calls, main processes all
-- requests and asks the server to open these files, each once and in their order.
pub run_main-written :
    {S : Type 0} (getopt : S → Option (Found × S)) (step_back : S → S) (w : Surroundings)
    (tree : List ℕ → Bool × Entries) (connects : List ℕ → Bool) (paths : List (List ℕ)) (s t : S)
    (f : Found) (fuel : ℕ)
    → All (IsWord b',') paths
    → f.opt ≡ b'W'
    → f.optarg ≡ join b',' paths
    → getopt s ≡ some (f, t)
    → getopt t ≡ none
    → connects (socket_of none) ≡ true
    → (calls : List Call) × (run_main getopt step_back w tree connects (suc (suc fuel)) s
        ≡ ok calls)
      × (opened_paths calls ≡ paths)
unfolding run_main run_parsed opened_paths nothing_parsed
run_main-written getopt step_back w tree connects paths s t f fuel words opt optarg first last up =
    let (calls, e, opened) = process_requests-opened w tree paths [] in
    (
      calls,
      ap (λ o. o >>= run_parsed getopt step_back w tree connects)
            (parse-written getopt step_back paths s t f fuel words opt optarg first last)
          ∙ rw (expand_requests-written paths, up) e,
      opened,
    )
