-- ===== src/Client/Main.antt =====
-- main of src/client/src/main.c from the command line to the calls of the library.
pub mod Written
use progetto_sistemi_operati.Base.{
  ℕ, List, [], Bool, Option, none, some, if◌then◌else◌, Outcome, ok, ◌>>=◌,
}
use progetto_sistemi_operati.Settings.{codes}
use progetto_sistemi_operati.Client.Options.{Found, Parsed, parse_command_line_arguments}
use progetto_sistemi_operati.Client.Directories.{expand_requests}
use progetto_sistemi_operati.Client.Calls.{Call, Surroundings}
use progetto_sistemi_operati.Client.Sending.{Entries}
use progetto_sistemi_operati.Client.Running.{process_requests}

-- The option -f, or `DEFAULT_SOCKET_FILENAME`
abbrev pub socket_of : Option (List ℕ) → List ℕ
socket_of none = codes "fileStorageSocket.sk"
socket_of (some name) = name

-- `connects` is what `openConnection` does for a path, `tree` what a directory holds.
module _ {S : Type 0} (getopt : S → Option (Found × S)) (step_back : S → S) (w : Surroundings)
    (tree : List ℕ → Bool × Entries) (connects : List ℕ → Bool) where
  -- Behind the parser: the manual ends the program, and so does a connection that fails.
  unfoldable pub run_parsed : Parsed → Outcome (List Call)
  unfolding expand_requests process_requests
  run_parsed p =
      let run = expand_requests p.requests >>= λ requests.
      if connects (socket_of p.socket_file_name)
      then process_requests w tree requests []
      else ok [] in
      if p.h_flag then ok [] else run

  unfoldable pub run_main : ℕ → S → Outcome (List Call)
  unfolding parse_command_line_arguments run_parsed
  run_main fuel s = parse_command_line_arguments getopt step_back fuel s >>= run_parsed
