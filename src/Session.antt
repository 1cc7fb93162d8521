-- ===== src/Session.antt =====
-- src/server/src/session.c and session.h: what the server keeps for each connection.
pub mod Laws
mod Tests
use progetto_sistemi_operati.Base.{
  ℕ, zero, suc, ◌+◌, List, [], ◌∷◌, Bool, true, false, Option, none, some, str_eq, replicate,
  if◌then◌else◌,
}

-- `MAX_OPENED_FILES`
abbrev pub max_opened_files : ℕ
max_opened_files = 32

-- `none` is the null pointer. A path is the bytes before the terminating NUL.
pub record Session : Type 0 where
  pub client_fd : ℕ
  pub op_status : Bool
  pub opened_files : List (Option (List ℕ))
  pub can_write_on_file : List Bool
  pub pathname_pending_lock : Option (List ℕ)

-- `self->openedFiles[i] != NULL && strcmp(self->openedFiles[i], pathname) == 0`
abbrev pub holds_path : List ℕ → Option (List ℕ) → Bool
holds_path pathname none = false
holds_path pathname (some p) = str_eq p pathname

-- The loop from index `i` on; `none` is -1.
unfoldable pub find_opened : List ℕ → List (Option (List ℕ)) → ℕ → Option ℕ
find_opened pathname [] i = none
find_opened pathname (o ∷ os) i =
    let rest = find_opened pathname os (i + 1) in if holds_path pathname o then some i else rest

unfoldable pub is_file_opened : Session → List ℕ → Option ℕ
unfolding find_opened
is_file_opened self pathname = find_opened pathname self.opened_files 0

unfoldable pub find_free : List (Option (List ℕ)) → ℕ → Option ℕ
find_free [] i = none
find_free (none ∷ os) i = some i
find_free (some p ∷ os) i = find_free os (i + 1)

unfoldable pub get_free_file_descriptor : Session → Option ℕ
unfolding find_free
get_free_file_descriptor s = find_free s.opened_files 0

unfoldable pub init_session : Session → Session
init_session s = record s {
  op_status = false;
  pathname_pending_lock = none;
  opened_files = replicate max_opened_files none;
  can_write_on_file = replicate max_opened_files false;
}

unfoldable pub clear_session : Session → Session
clear_session s = record s {
  op_status = false;
  opened_files = replicate max_opened_files none;
  can_write_on_file = replicate max_opened_files false;
  pathname_pending_lock = none;
}
