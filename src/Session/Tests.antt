-- ===== src/Session/Tests.antt =====
-- The descriptors of a session, on a small input.
use progetto_sistemi_operati.Base.{◌≡◌, refl, str_eq, [], ◌∷◌, false, none, some, replicate}
use progetto_sistemi_operati.Session.{Session, is_file_opened, get_free_file_descriptor}

abbrev session : Session
session = record {
  client_fd = 4;
  op_status = false;
  opened_files = some (b'a' ∷ []) ∷ none ∷ some (b'b' ∷ []) ∷ [];
  can_write_on_file = replicate 3 false;
  pathname_pending_lock = none;
}

opened_third : is_file_opened session (b'b' ∷ []) ≡ some 2
unfolding is_file_opened str_eq
opened_third = refl

not_opened : is_file_opened session (b'c' ∷ []) ≡ none
unfolding is_file_opened str_eq
not_opened = refl

second_free : get_free_file_descriptor session ≡ some 1
unfolding get_free_file_descriptor
second_free = refl
