-- ===== src/Api/Connection.antt =====
-- openConnection and closeConnection of src/api/src/api.c. What `connect` does, and the time behind
-- it, is a list of attempts, which the loop takes one by one.
pub mod Timeout
use progetto_sistemi_operati.Base.{
  ℕ, ◌+◌, ◌*◌, ◌^◌, ◌&&◌, ◌||◌, List, [], ◌∷◌, Bool, true, false, Option, none, some, ◌==◌, leb,
  ltb, if◌then◌else◌, Outcome, ok, stuck, ◌>>=◌,
}
use progetto_sistemi_operati.Settings.{codes}
use progetto_sistemi_operati.Api.{ApiInfo, set_last_api_call}

-- `struct timespec`
pub record Timespec : Type 0 where
  pub tv_sec : ℕ
  pub tv_nsec : ℕ

unfoldable pub compare_times : Timespec → Timespec → Bool
compare_times t1 t2 =
    if ltb t1.tv_sec t2.tv_sec
    then true
    else if t1.tv_sec == t2.tv_sec && leb t1.tv_nsec t2.tv_nsec
    then true
    else false

-- Whether `connect` succeeds, and the time that is read behind it and the sleep.
pub record Attempt : Type 0 where
  pub connects : Bool
  pub cur_time : Timespec

-- The loop: up to a success or the end of the time. Without an attempt left it goes on.
unfoldable pub connect_loop : Timespec → List Attempt → Outcome Bool
unfolding compare_times
connect_loop abstime [] = stuck
connect_loop abstime (a ∷ attempts) =
    let again = connect_loop abstime attempts in
    if a.connects then ok true else if compare_times a.cur_time abstime then again else ok false

-- The result 0 or -1, and `lastApiCall`. `has_socket` is what `socket` does.
unfoldable pub open_connection :
    ℕ → Option (List ℕ) → Bool → Timespec → List Attempt → Outcome (Bool × ApiInfo)
unfolding connect_loop set_last_api_call
open_connection error none has_socket abstime attempts =
    ok (false, set_last_api_call (codes "openConnection") false [] error)
open_connection error (some sockname) has_socket abstime attempts =
    (if has_socket then connect_loop abstime attempts else ok false) >>= λ success.
    ok (success, set_last_api_call (codes "openConnection") success sockname error)

-- `closes` is what `close` does.
unfoldable pub close_connection : ℕ → Option (List ℕ) → Bool → Bool × ApiInfo
unfolding set_last_api_call
close_connection error none closes =
    (false, set_last_api_call (codes "closeConnection") false [] error)
close_connection error (some sockname) closes =
    (closes, set_last_api_call (codes "closeConnection") closes sockname error)
