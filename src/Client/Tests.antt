-- ===== src/Client/Tests.antt =====
-- A tree of files, the option -R at the end of the command line, and a request that is run.
use progetto_sistemi_operati.Base.{
  some, Option, List, ℕ, arith, ◌-◌, ◌≡◌, refl, [], ◌∷◌, ◌++◌, true, false, none, length, take, ok,
  fault,
}
use progetto_sistemi_operati.Base.Int.{pos}
use progetto_sistemi_operati.Strings.{strtok}
use progetto_sistemi_operati.Client.Requests.{new_request_without_dir}
use progetto_sistemi_operati.Client.Options.{Found, nothing_parsed, handle_option, add_requests}
use progetto_sistemi_operati.Client.Calls.{Call, Surroundings}
use progetto_sistemi_operati.Client.Sending.{Entries, end, directory, regular, handle_small_w_flag}
use progetto_sistemi_operati.Client.Sending.Files.{
  all_files, opened_paths, handle_small_w_flag-opened,
}
use progetto_sistemi_operati.Strings.Split.{join}
use progetto_sistemi_operati.Client.Main.{run_main}
use progetto_sistemi_operati.Client.Main.Written.{run_main-written}
use progetto_sistemi_operati.Client.Running.{process_requests}

abbrev willing : Surroundings
willing = record { succeeds = λ past c. true; content_of = λ past path. []; on_disk = λ path. none }

-- d/a, d/s/b, d/.h/c and d/e.
abbrev tree : Entries
tree = regular (b'a' ∷ []) (
    directory (b's' ∷ []) true (regular (b'b' ∷ []) end)
      (directory (b'.' ∷ b'h' ∷ []) true (regular (b'c' ∷ []) end) (regular (b'e' ∷ []) end)))

handle_small_w_flag-opened_example :
    ((handle_small_w_flag willing none true tree (b'd' ∷ []) 2 []).0
      ≡ 2 - length (all_files tree (b'd' ∷ [])))
    × (opened_paths (handle_small_w_flag willing none true tree (b'd' ∷ []) 2 []).1
        ≡ opened_paths [] ++ take 2 (all_files tree (b'd' ∷ [])))
handle_small_w_flag-opened_example = handle_small_w_flag-opened willing none tree (b'd' ∷ []) 2 []

-- -R without an argument at the end makes a request of type ':', which is not processed.
missing_r :
    handle_option (record { opt = b':'; optarg = []; optopt = b'R' }) 0 nothing_parsed
    ≡ ok (false, add_requests (new_request_without_dir b':' [] (pos 0) 0 ∷ []) nothing_parsed)
unfolding handle_option
missing_r = refl

nothing_done :
    process_requests willing
      (λ path. (true, end))
      (new_request_without_dir b':' [] (pos 0) 0 ∷ [])
      []
    ≡ ok []
unfolding process_requests new_request_without_dir
nothing_done = refl

-- -w with an argument of commas alone.
no_directory :
    handle_option (record { opt = b'w'; optarg = b',' ∷ []; optopt = 0 }) 0 nothing_parsed ≡ fault
unfolding handle_option strtok
no_directory = refl

-- The command line -W a,b.
abbrev next_found : List Found → Option (Found × List Found)
next_found [] = none
next_found (f ∷ fs) = some (f, fs)

abbrev writes_two : Found
writes_two = record { opt = b'W'; optarg = b'a' ∷ b',' ∷ b'b' ∷ []; optopt = 0 }

abbrev two_paths : List (List ℕ)
two_paths = (b'a' ∷ []) ∷ (b'b' ∷ []) ∷ []

run_main-written_example :
    (calls : List Call) × (run_main next_found
        (λ fs. fs)
        willing
        (λ path. (true, end))
        (λ name. true)
        2
        (writes_two ∷ [])
      ≡ ok calls)
    × (opened_paths calls ≡ two_paths)
run_main-written_example =
    run_main-written next_found (λ fs. fs) willing (λ path. (true, end)) (λ name. true) two_paths
      (writes_two ∷ []) [] writes_two 0 ((omega arith, (refl, tt)), ((omega arith, (refl, tt)), tt))
      refl (unfold join in refl) refl refl refl
