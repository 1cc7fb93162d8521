-- ===== src/Api/Calls.antt =====
-- The calls of src/api/src/api.c. `error` is the value of `serverResponseError` before the call.
use progetto_sistemi_operati.Base.{
  ℕ, List, [], ◌∷◌, Bool, true, false, Option, none, some, Outcome, ok, ◌>>=◌,
}
use progetto_sistemi_operati.Settings.{codes}
use progetto_sistemi_operati.Wire.Replies.{Reply}
use progetto_sistemi_operati.Api.{Link, ApiInfo, set_last_api_call, contents_of, error_of, exchange}
use progetto_sistemi_operati.Api.Saving.{write_results_to_file}

-- The result 0 or -1, the files saved, and `lastApiCall`.
abbrev pub Called : Type 0
Called = Bool × List (List ℕ × List ℕ) × ApiInfo

-- A call without what it needs fails at once.
abbrev pub refused_call : List ℕ → ℕ → Called
refused_call name error = (false, [], set_last_api_call name false [] error)

unfoldable pub simple_api : ℕ → Option (List ℕ) → ℕ → List ℕ → ℕ → Link → Outcome Called
unfolding exchange set_last_api_call
simple_api error none flags name kind link = ok (refused_call name error)
simple_api error (some pathname) flags name kind link =
    exchange kind pathname [] flags link >>= λ t.
    ok (t.0, [], set_last_api_call name t.0 pathname (error_of t.1))

unfoldable pub api_open_file : ℕ → Option (List ℕ) → ℕ → Link → Outcome Called
unfolding simple_api
api_open_file error pathname flags link =
    simple_api error pathname flags (codes "openFile") b'o' link

unfoldable pub api_lock_file : ℕ → Option (List ℕ) → Link → Outcome Called
unfolding simple_api
api_lock_file error pathname link = simple_api error pathname 0 (codes "lockFile") b'l' link

unfoldable pub api_unlock_file : ℕ → Option (List ℕ) → Link → Outcome Called
unfolding simple_api
api_unlock_file error pathname link = simple_api error pathname 0 (codes "unlockFile") b'u' link

unfoldable pub api_close_file : ℕ → Option (List ℕ) → Link → Outcome Called
unfolding simple_api
api_close_file error pathname link = simple_api error pathname 0 (codes "closeFile") b'c' link

unfoldable pub api_remove_file : ℕ → Option (List ℕ) → Link → Outcome Called
unfolding simple_api
api_remove_file error pathname link = simple_api error pathname 0 (codes "removeFile") b'R' link

-- The end of a call whose answer may hold files: they are saved if it has succeeded. `file` is the
-- name that is noted.
unfoldable pub save_answer : ℕ → List ℕ → List ℕ → Option (List ℕ) → Bool × Reply → Outcome Called
unfolding write_results_to_file set_last_api_call
save_answer path_max name file dirname (true, reply) =
    write_results_to_file path_max dirname (contents_of reply) >>= λ saved.
    ok (true, saved, set_last_api_call name true file (error_of reply))
save_answer path_max name file dirname (false, reply) =
    ok (false, [], set_last_api_call name false file (error_of reply))

unfoldable pub better_open_file :
    ℕ → ℕ → Option (List ℕ) → ℕ → Option (List ℕ) → Link → Outcome Called
unfolding exchange save_answer set_last_api_call
better_open_file path_max error none flags dirname link =
    ok (refused_call (codes "betterOpenFile") error)
better_open_file path_max error (some pathname) flags dirname link =
    exchange b'o' pathname [] flags link >>= λ t.
    save_answer path_max (codes "betterOpenFile") pathname dirname t

unfoldable pub api_read_n_files : ℕ → ℕ → Option (List ℕ) → Link → Outcome Called
unfolding exchange save_answer
api_read_n_files path_max n dirname link =
    exchange b'n' [] [] n link >>= λ t. save_answer path_max (codes "readNFiles") [] dirname t

-- `file_buf` is what `readFromFile` gives for the path, `none` if it fails.
unfoldable pub api_write_file :
    ℕ → ℕ → Option (List ℕ) → Option (List ℕ) → Option (List ℕ) → Link → Outcome Called
unfolding exchange save_answer set_last_api_call
api_write_file path_max error none file_buf dirname link =
    ok (refused_call (codes "writeFile") error)
api_write_file path_max error (some pathname) none dirname link =
    ok (refused_call (codes "writeFile") error)
api_write_file path_max error (some pathname) (some file_buf) dirname link =
    exchange b'w' pathname file_buf 0 link >>= λ t.
    save_answer path_max (codes "writeFile") pathname dirname t

unfoldable pub api_append_to_file :
    ℕ → ℕ → Option (List ℕ) → Option (List ℕ) → Option (List ℕ) → Link → Outcome Called
unfolding exchange save_answer set_last_api_call
api_append_to_file path_max error none buf dirname link =
    ok (refused_call (codes "appendToFile") error)
api_append_to_file path_max error (some pathname) none dirname link =
    ok (refused_call (codes "appendToFile") error)
api_append_to_file path_max error (some pathname) (some buf) dirname link =
    exchange b'a' pathname buf 0 link >>= λ t.
    save_answer path_max (codes "appendToFile") [] dirname t

-- A read succeeds with exactly two contents, the path and the bytes, which are for the caller.
abbrev pub single_file : Bool → List (List ℕ) → Option (List ℕ)
single_file true (path ∷ bytes ∷ []) = some bytes
single_file true [] = none
single_file true (path ∷ []) = none
single_file true (path ∷ bytes ∷ (c ∷ cs)) = none
single_file false cs = none

abbrev pub is_some : Option (List ℕ) → Bool
is_some none = false
is_some (some b) = true

-- The bytes, `none` for -1, and `lastApiCall`.
unfoldable pub api_read_file : ℕ → Option (List ℕ) → Link → Outcome (Option (List ℕ) × ApiInfo)
unfolding exchange set_last_api_call
api_read_file error none link = ok (none, set_last_api_call (codes "readFile") false [] error)
api_read_file error (some pathname) link = exchange b'r' pathname [] 0 link >>= λ t.
    let buf = single_file t.0 (contents_of t.1) in
    ok (buf, set_last_api_call (codes "readFile") (is_some buf) pathname (error_of t.1))
