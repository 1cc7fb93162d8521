-- ===== src/Files/Samples.antt =====
-- A small table, cache and session, for the tests of files.c and of what stands above it.
use progetto_sistemi_operati.Base.{
  ℕ, List, ◌≡◌, refl, [], ◌∷◌, true, false, none, some, replicate, arith, ok, str_eq,
}
use progetto_sistemi_operati.Base.Int.{pos}
use progetto_sistemi_operati.Session.{Session}
use progetto_sistemi_operati.Caching.Config.{Config, fifo_name}
use progetto_sistemi_operati.Caching.State.{Cache}
use progetto_sistemi_operati.Caching.Fifo.{handle_usage_fifo}
use progetto_sistemi_operati.Caching.Policy.{handle_usage}
use progetto_sistemi_operati.Files.Entry.{FileEntry, pathname, bucket_of}
use progetto_sistemi_operati.Files.Entry.Layout.{Layout}
use progetto_sistemi_operati.Files.Waiting.{Request, HashEntry}
use progetto_sistemi_operati.Files.Waiting.Fifo.{IsValid}
use progetto_sistemi_operati.Files.State.{Server, update, get_hash_entry_ref, get_file_entry_ref}

-- The file "a", which holds two bytes, and which client 4 has locked while client 5 waits.
abbrev pub path_a : List ℕ
path_a = b'a' ∷ []

abbrev pub stored : FileEntry
stored = record {
  buf = b'a' ∷ 0 ∷ 5 ∷ 6 ∷ 0 ∷ [];
  content_at = 2;
  pathname_at = 0;
  content_length = 2;
  pathlen = 1;
  owner = some 4;
}

abbrev pub request : ℕ → Request
request client = record { kind = b'l'; flags = 0; client = client; file = stored }

abbrev pub entry : HashEntry
entry = record {
  file = 0;
  waiting_queue = none ∷ some (request 5) ∷ replicate 30 none;
  queue_head = 0;
  queue_tail = 2;
}

abbrev pub session : Session
session = record {
  client_fd = 4;
  op_status = false;
  opened_files = some path_a ∷ replicate 31 none;
  can_write_on_file = true ∷ replicate 31 false;
  pathname_pending_lock = none;
}

abbrev pub cache : Cache
cache = record {
  slots = 0 ∷ 0 ∷ 0 ∷ [];
  cache_size = 3;
  head = 0;
  tail = 1;
  size = pos 2;
  count = 1;
  max_size = pos 2;
  max_count = 1;
  activations = 0;
}

abbrev pub server : Server
server = record {
  heap = λ p. stored;
  fresh = 1;
  table = update (λ i. []) 1542 (entry ∷ []);
  cache = cache;
  sessions = λ fd. session;
  clients_to_notify = [];
}

abbrev pub config : Config
config = record {
  cache_policy = fifo_name;
  max_memory_size = 10;
  max_file_count = 2;
  max_file_size = 4;
}

pub stored-Layout : Layout stored path_a (5 ∷ 6 ∷ [])
stored-Layout = record {
  before = [];
  middle = [];
  after = 0 ∷ [];
  filled = refl;
  path_starts = refl;
  content_starts = refl;
  content_ends = refl;
  no_nul = (omega arith, tt);
}

pub entry_found : get_hash_entry_ref server path_a 1542 ≡ some entry
unfolding get_hash_entry_ref str_eq pathname
entry_found = refl

pub entry-IsValid : IsValid entry
entry-IsValid = omega arith

pub path_found : get_file_entry_ref server path_a (bucket_of path_a) ≡ some 0
unfolding get_file_entry_ref bucket_of pathname str_eq
path_found = refl

pub usage_returns : handle_usage config 0 cache ≡ ok cache
unfolding handle_usage handle_usage_fifo str_eq
usage_returns = refl
