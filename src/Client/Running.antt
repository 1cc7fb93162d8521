-- ===== src/Client/Running.antt =====
-- main of src/client/src/main.c: the requests are processed one after the other. Each call of the
-- library is noted; what main logs is left out.
use progetto_sistemi_operati.Base.{
  ℕ, zero, suc, ◌-◌, ◌^◌, List, [], ◌∷◌, ◌++◌, Bool, true, false, none, some, length, take, get_or,
  ◌==◌, if◌then◌else◌, Outcome, ok, fault, ◌>>=◌,
}
use progetto_sistemi_operati.Base.Int.{ℤ, pos, negsuc}
use progetto_sistemi_operati.Client.Requests.{ClientRequest}
use progetto_sistemi_operati.Client.Options.{Parsed}
use progetto_sistemi_operati.Client.Calls.{
  Call, opens, writes, closes, reads, locks, unlocks, removes, reads_n, appends, saves,
  Surroundings, perform,
}
use progetto_sistemi_operati.Client.Sending.{Entries, handle_small_w_flag}

-- The levels of logging.h that main switches.
pub record Levels : Type 0 where
  pub info : Bool
  pub operation : Bool
  pub error : Bool

-- The flags of the command line; `main` tests `qFlag` where it tells of the error flag.
unfoldable pub set_levels : Parsed → Levels → Levels
set_levels p l =
    let with_operation = if p.p_flag then (record l { operation = true }) else l in
    let quiet = if p.q_flag then (record with_operation { info = false }) else with_operation in
    if p.q_flag then (record quiet { error = false }) else quiet

-- `if(result == -1) continue`
abbrev pub go_on : Bool × List Call → (List Call → List Call) → List Call
go_on (true, past) next = next past
go_on (false, past) next = past

abbrev pub ignore_result : Bool × List Call → List Call
ignore_result result = result.1

-- How many files `-w` sends: `n`, for 0 INT_MAX; a negative number sends none.
abbrev pub remaining_of : ℤ → ℕ
remaining_of (pos zero) = 2 ^ 31 - 1
remaining_of (pos (suc n)) = suc n
remaining_of (negsuc n) = 0

-- A directory without the slash at its end; the empty name is indexed in front of its first byte.
unfoldable pub strip_slash : List ℕ → Outcome (List ℕ)
strip_slash [] = fault
strip_slash (c ∷ cs) =
    let n = length cs in ok (if get_or (c ∷ cs) n 0 == b'/' then take n (c ∷ cs) else c ∷ cs)

module _ (w : Surroundings) (tree : List ℕ → Bool × Entries) where
  unfoldable pub run_w : ClientRequest → List Call → Outcome (List Call)
  unfolding strip_slash handle_small_w_flag
  run_w r past = strip_slash r.content >>= λ dirname.
      let (can_open, inside) = tree dirname in
      ok (handle_small_w_flag w r.dir can_open inside dirname (remaining_of r.extra) past).1

  -- 'W': a failed write is logged, and the file is closed.
  unfoldable pub run_write : ClientRequest → List Call → List Call
  run_write r past = go_on (perform w (opens r.content 3 r.dir) past) λ past.
      let past = ignore_result (perform w (writes r.content r.dir) past) in
      ignore_result (perform w (closes r.content) past)

  -- 'r': what has been read is saved if a directory is given, and the file is closed.
  unfoldable pub run_read : ClientRequest → List Call → List Call
  run_read r past = go_on (perform w (opens r.content 0 r.dir) past) λ past.
      let (is_read, read) = perform w (reads r.content) past in
      let saved : List Call = elim r.dir [
        | none ↦ read
        | some dir ↦ read ++ saves dir r.content (w.content_of past r.content) ∷ []
      ] in
      ignore_result (perform w (closes r.content) (if is_read then saved else read))

  unfoldable pub run_lock : ClientRequest → List Call → List Call
  run_lock r past =
      go_on (perform w (opens r.content 0 r.dir) past)
        λ past. ignore_result (perform w (locks r.content) past)

  unfoldable pub run_unlock : ClientRequest → List Call → List Call
  run_unlock r past =
      let past = ignore_result (perform w (unlocks r.content) past) in
      ignore_result (perform w (closes r.content) past)

  -- 'c': O_LOCK is 2.
  unfoldable pub run_remove : ClientRequest → List Call → List Call
  run_remove r past =
      go_on (perform w (opens r.content 2 r.dir) past)
        λ past. ignore_result (perform w (removes r.content) past)

  -- 'a': each failure skips the rest.
  unfoldable pub run_append : ClientRequest → List Call → List Call
  run_append r past = elim (w.on_disk r.content) [
    | none ↦ past
    | some buf ↦ go_on (perform w (opens r.content 0 r.dir) past) λ past.
        go_on (perform w (appends r.content buf r.dir) past)
          λ past. ignore_result (perform w (closes r.content) past)
  ]

  -- The `switch` on the type of a request; -d and -D have been handled.
  unfoldable pub process_request : ClientRequest → List Call → Outcome (List Call)
  unfolding run_w run_write run_read run_lock run_unlock run_remove run_append
  process_request r past =
      if r.kind == b'w'
      then run_w r past
      else if r.kind == b'W'
      then ok (run_write r past)
      else if r.kind == b'r'
      then ok (run_read r past)
      else if r.kind == b'R'
      then ok (ignore_result (perform w (reads_n r.extra r.dir) past))
      else if r.kind == b'l'
      then ok (run_lock r past)
      else if r.kind == b'u'
      then ok (run_unlock r past)
      else if r.kind == b'c'
      then ok (run_remove r past)
      else if r.kind == b'a'
      then ok (run_append r past)
      else ok past

  unfoldable pub process_requests : List ClientRequest → List Call → Outcome (List Call)
  unfolding process_request
  process_requests [] past = ok past
  process_requests (r ∷ rs) past = process_request r past >>= process_requests rs
