-- ===== src/Settings.antt =====
-- src/server/src/args.c: the configuration file of the server. It is its bytes, none of which is a NUL.
pub mod Scanning
pub mod Reading
pub mod Startup
mod Tests
use Prim.Native.Char.{code}
use Prim.Native.String
use progetto_sistemi_operati.Base.{
  ℕ, zero, suc, ◌+◌, ◌-◌, ◌*◌, ◌^◌, List, [], ◌∷◌, ◌++◌, Bool, true, false, Option, none, some,
  length, str_eq, ◌==◌, leb, ltb, if◌then◌else◌, Outcome, ok, fault, ◌>>=◌,
}
use progetto_sistemi_operati.Base.Int.{ℤ, pos, negsuc, to_int, ltb_ℤ, min_ℤ}
use progetto_sistemi_operati.Strings.{str_to_int}

-- The bytes of a text.
abbrev pub codes : String.String → List ℕ
codes String.[] = []
codes (String.◌∷◌ c s) = code c ∷ codes s

-- configuration.h, without the log file.
pub record Settings : Type 0 where
  pub socket_file_name : List ℕ
  pub cache_policy : List ℕ
  pub n_thread_workers : ℤ
  pub max_memory_size : ℤ
  pub max_file_count : ℤ
  pub max_file_size : ℤ
  pub max_clients_connected : ℤ
  pub log_verbosity : ℤ

-- The defaults; `max_clients` is MIN(SOMAXCONN, FD_SETSIZE) of the system's headers.
unfoldable pub default_settings : ℕ → Settings
default_settings max_clients = record {
  socket_file_name = codes "fileStorageSocket.sk";
  cache_policy = codes "FIFO";
  n_thread_workers = pos 4;
  max_memory_size = pos 128;
  max_file_count = pos 1000;
  max_file_size = pos (2 ^ 20);
  max_clients_connected = pos max_clients;
  log_verbosity = pos 2;
}

-- An option with a number: it is left as it is if the value is none.
abbrev pub with_number : List ℕ → (ℤ → Settings) → Settings → Settings
with_number value put s = elim (str_to_int (some value)) [ none ↦ s | some n ↦ put (to_int n) ]

-- The `if` chain over the names; an unknown option is ignored.
unfoldable pub set_option : List ℕ → List ℕ → Settings → Settings
unfolding str_to_int to_int str_eq
set_option option value s =
    if str_eq option (codes "N_THREAD_WORKERS")
    then with_number value (λ n. record s { n_thread_workers = n }) s
    else if str_eq option (codes "MAX_MEMORY_SIZE_MB")
    then with_number value (λ n. record s { max_memory_size = n }) s
    else if str_eq option (codes "MAX_FILES")
    then with_number value (λ n. record s { max_file_count = n }) s
    else if str_eq option (codes "MAX_FILE_SIZE")
    then with_number value (λ n. record s { max_file_size = n }) s
    else if str_eq option (codes "SOCKET_FILEPATH")
    then (record s { socket_file_name = value })
    else if str_eq option (codes "MAX_CLIENTS")
    then with_number value (λ n. record s { max_clients_connected = n }) s
    else if str_eq option (codes "CACHE_POLICY")
    then (record s { cache_policy = value })
    else if str_eq option (codes "LOG_VERBOSITY")
    then with_number value (λ n. record s { log_verbosity = n }) s
    else s
