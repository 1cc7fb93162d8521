-- ===== src/Client/Sending.antt =====
-- handleSmallWFlag of src/client/src/main.c: the files of a directory tree are sent.
pub mod Files
use progetto_sistemi_operati.Base.{
  ℕ, zero, suc, ◌+◌, ◌-◌, ◌≤◌, ◌≡◌, refl, ap, sym, ◌∙◌, List, [], ◌∷◌, ◌++◌, append_assoc,
  append-nil, Bool, true, false, Option, length, take, ◌==◌, if◌then◌else◌, arith,
}
use progetto_sistemi_operati.Client.Calls.{Call, opens, writes, closes, Surroundings, perform}

-- What `readdir` gives, entry by entry: a directory, with what is in it and whether it can be
-- opened, a regular file, or another one.
pub data Entries : Type 0 where
  end : Entries
  directory : List ℕ → Bool → Entries → Entries → Entries
  regular special : List ℕ → Entries → Entries

-- `PATH_MAX`; `snprintf` cuts the path to one byte less.
abbrev pub path_max : ℕ
path_max = 4096

unfoldable pub path_in : List ℕ → List ℕ → List ℕ
path_in dirname name = take (path_max - 1) (dirname ++ b'/' ∷ name)

-- `ent->d_name[0] == '.'`
abbrev pub is_hidden : List ℕ → Bool
is_hidden [] = false
is_hidden (c ∷ cs) = c == b'.'

-- A directory is visited unless it is hidden or cannot be opened.
abbrev pub visit {ℓ} : {A : Type ℓ} → Bool → Bool → A → A → A
visit true can_open inner outer = outer
visit false true inner outer = inner
visit false false inner outer = outer

module _ (w : Surroundings) (save_dir : Option (List ℕ)) where
  -- A file is opened, written and closed; each failure skips the rest. O_CREATE | O_LOCK is 3.
  unfoldable pub send_file : List ℕ → List Call → List Call
  send_file path past =
      let (is_open, past_open) = perform w (opens path 3 save_dir) past in
      let (is_written, past_write) = perform w (writes path save_dir) past_open in
      let (is_closed, past_close) = perform w (closes path) past_write in
      if is_open then if is_written then past_close else past_write else past_open

  -- The loop over the entries, while `remaining` is above 0, and its new value.
  unfoldable pub send_entries : Entries → List ℕ → ℕ → List Call → ℕ × List Call
  unfolding path_in send_file
  send_entries end dirname remaining past = (remaining, past)
  send_entries (directory name can_open inside rest) dirname zero past = (zero, past)
  send_entries (directory name can_open inside rest) dirname (suc n) past =
      let inner = send_entries inside (path_in dirname name) (suc n) past in
      let seen = visit (is_hidden name) can_open inner (suc n, past) in
      send_entries rest dirname seen.0 seen.1
  send_entries (regular name rest) dirname zero past = (zero, past)
  send_entries (regular name rest) dirname (suc n) past =
      send_entries rest dirname n (send_file (path_in dirname name) past)
  send_entries (special name rest) dirname zero past = (zero, past)
  send_entries (special name rest) dirname (suc n) past = send_entries rest dirname (suc n) past

  -- `handleSmallWFlag`, on a directory that can be opened or not; what it returns is not read.
  unfoldable pub handle_small_w_flag : Bool → Entries → List ℕ → ℕ → List Call → ℕ × List Call
  unfolding send_entries
  handle_small_w_flag can_open inside dirname remaining past =
      if can_open then send_entries inside dirname remaining past else (remaining, past)
