-- ===== src/Settings/Startup.antt =====
-- handleConfiguration of src/server/src/args.c.
use progetto_sistemi_operati.Base.{
  ℕ, zero, suc, ◌+◌, ◌-◌, ◌*◌, ◌^◌, List, [], ◌∷◌, ◌++◌, Option, none, some, length, ◌==◌, leb, ltb,
  if◌then◌else◌, Outcome, ok, fault, ◌>>=◌,
}
use progetto_sistemi_operati.Base.Int.{ℤ, pos, negsuc, min_ℤ}
use progetto_sistemi_operati.Settings.{Settings, default_settings, codes}
use progetto_sistemi_operati.Settings.Scanning.{parse_file_arguments}

-- The directory of a path: what stands before its last slash. Without one the loop runs in front of
-- the buffer (`none`).
unfoldable pub directory_of : List ℕ → Option (List ℕ)
directory_of [] = none
directory_of (c ∷ cs) = elim (directory_of cs) [
  | some d ↦ some (c ∷ d)
  | none ↦ if c == b'/' then some [] else none
]

-- Which file is read: the argument, or `config.txt` beside the program, if its path can be found
-- and is short enough; without it `handleConfiguration` returns (`ok none`).
unfoldable pub config_file : ℕ → Option (List ℕ) → Option (List ℕ) → Outcome (Option (List ℕ))
unfolding directory_of
config_file path_max (some argument) link = ok (some argument)
config_file path_max none none = ok none
config_file path_max none (some exe) = elim (directory_of exe) [
  | none ↦ fault
  | some d ↦
      if leb path_max (length (codes "config.txt") + length d + 2)
      then ok none
      else ok (some (d ++ b'/' ∷ codes "config.txt"))
]

-- `configs.maxMemorySize *= 1024 * 1024`; beyond the range of an int that is undefined.
unfoldable pub to_bytes : ℤ → Outcome ℤ
to_bytes (pos n) = if ltb (n * 2 ^ 20) (2 ^ 31) then ok (pos (n * 2 ^ 20)) else fault
to_bytes (negsuc n) =
    if leb ((n + 1) * 2 ^ 20) (2 ^ 31) then ok (negsuc ((n + 1) * 2 ^ 20 - 1)) else fault

-- 0 stands for the maximum.
unfoldable pub limit_clients : ℕ → ℤ → ℤ
limit_clients max_clients (pos zero) = pos max_clients
limit_clients max_clients (pos (suc n)) = min_ℤ (pos (suc n)) (pos max_clients)
limit_clients max_clients (negsuc n) = min_ℤ (negsuc n) (pos max_clients)

unfoldable pub adjust : ℕ → Settings → Outcome Settings
unfolding to_bytes limit_clients
adjust max_clients s = to_bytes s.max_memory_size >>= λ bytes. ok (record s {
  max_clients_connected = limit_clients max_clients s.max_clients_connected;
  max_memory_size = bytes;
  max_file_size = min_ℤ s.max_file_size bytes;
})

-- The levels of logging.h that a verbosity stands for; any other number leaves the level as it is.
unfoldable pub logging_level_of : ℤ → ℕ → ℕ
logging_level_of (pos n) level =
    if n == 4
    then 32 + 16 + 8 + 4 + 2 + 1
    else if n == 3
    then 32 + 16 + 8 + 4 + 2
    else if n == 2
    then 32 + 16 + 8 + 4
    else if n == 1
    then 32 + 16 + 4
    else if n == 0
    then 0
    else level
logging_level_of (negsuc n) level = level

-- The parsed file, or the settings if it cannot be opened.
unfoldable pub read_settings : ℕ → Option (List ℕ) → Settings → Outcome Settings
unfolding parse_file_arguments
read_settings fuel none s = ok s
read_settings fuel (some file) s = parse_file_arguments fuel file s

-- `handleConfiguration`: `disk` gives the bytes of a file that can be opened. Where no path is found it
-- returns with the settings as they are.
unfoldable pub handle_configuration :
    ℕ
    → ℕ
    → ℕ
    → (List ℕ → Option (List ℕ))
    → Option (List ℕ)
    → Option (List ℕ)
    → ℕ
    → Outcome (Settings × ℕ)
unfolding config_file read_settings adjust logging_level_of default_settings
handle_configuration fuel path_max max_clients disk argument link level =
    config_file path_max argument link >>= λ name. elim name [
      | none ↦ ok (default_settings max_clients, level)
      | some path ↦ read_settings fuel (disk path) (default_settings max_clients) >>= λ s.
          adjust max_clients s >>= λ adjusted.
          ok (adjusted, logging_level_of adjusted.log_verbosity level)
    ]
