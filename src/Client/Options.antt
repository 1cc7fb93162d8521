-- ===== src/Client/Options.antt =====
-- parseCommandLineArguments of src/client/src/args.c. `getopt` belongs to the system: it is a
-- parameter, a function from the state of its scan to what it has found and the next state.
pub mod Numbered
pub mod Handlers
pub mod Chained
use progetto_sistemi_operati.Base.{
  ℕ, zero, suc, ◌+◌, ◌||◌, List, [], ◌∷◌, ◌++◌, Bool, true, false, Option, none, some, length, ◌==◌,
  if◌then◌else◌, Outcome, ok, fault, stuck, ◌>>=◌,
}
use progetto_sistemi_operati.Base.Int.{ℤ, pos, to_int}
use progetto_sistemi_operati.Strings.{String, char_array_split, str_to_int}
use progetto_sistemi_operati.Client.Requests.{ClientRequest, new_request_without_dir}

-- What `getopt` returns, with `optarg` and `optopt`.
pub record Found : Type 0 where
  pub opt : ℕ
  pub optarg : List ℕ
  pub optopt : ℕ

-- The global flags, the local `tFound`, and the requests.
pub record Parsed : Type 0 where
  pub requests : List ClientRequest
  pub socket_file_name : Option (List ℕ)
  pub h_flag : Bool
  pub p_flag : Bool
  pub q_flag : Bool
  pub e_flag : Bool
  pub t_found : Bool
  pub t_flag : ℤ

unfoldable pub nothing_parsed : Parsed
nothing_parsed = record {
  requests = [];
  socket_file_name = none;
  h_flag = false;
  p_flag = false;
  q_flag = false;
  e_flag = false;
  t_found = false;
  t_flag = pos 0;
}

abbrev pub add_requests : List ClientRequest → Parsed → Parsed
add_requests rs p = record p { requests = p.requests ++ rs }

unfoldable pub handle_single_parameter_with_extra : ℕ → List ℕ → ℤ → ℕ → Parsed → Parsed
unfolding new_request_without_dir
handle_single_parameter_with_extra kind arg extra index p =
    add_requests (new_request_without_dir kind arg extra index ∷ []) p

unfoldable pub handle_single_parameter : ℕ → List ℕ → ℕ → Parsed → Parsed
unfolding handle_single_parameter_with_extra
handle_single_parameter kind arg index p =
    handle_single_parameter_with_extra kind arg (pos 0) index p

-- The loop of `handleMultipleParameters`.
unfoldable pub handle_each : ℕ → List String → ℕ → Parsed → Parsed
unfolding handle_single_parameter
handle_each kind [] index p = p
handle_each kind (v ∷ vs) index p =
    handle_each kind vs index (handle_single_parameter kind v.content index p)

unfoldable pub handle_multiple_parameters : ℕ → List ℕ → ℕ → Parsed → Outcome Parsed
unfolding char_array_split handle_each
handle_multiple_parameters kind args index p =
    char_array_split args (length args) (b',' ∷ []) >>= λ v_args.
    ok (handle_each kind v_args index p)

-- Case 'w', with the parts of the argument: without any, the null pointer is followed.
unfoldable pub handle_w : List String → ℕ → Parsed → Outcome Parsed
unfolding handle_single_parameter_with_extra str_to_int to_int
handle_w [] index p = fault
handle_w (d ∷ []) index p = ok (handle_single_parameter_with_extra b'w' d.content (pos 0) index p)
handle_w (d ∷ n ∷ []) index p = elim (str_to_int (some n.content)) [
  | none ↦ ok p
  | some tmp ↦ ok (handle_single_parameter_with_extra b'w' d.content (to_int tmp) index p)
]
handle_w (d ∷ n ∷ (x ∷ xs)) index p = ok p

-- `argumentValid`, the negation of it
abbrev pub is_flag : List ℕ → Bool
is_flag [] = false
is_flag (c ∷ cs) = c == b'-'

-- Case 'R'; the scan goes one step back if the argument is a flag.
unfoldable pub handle_r : List ℕ → ℕ → Parsed → Bool × Parsed
unfolding handle_single_parameter_with_extra str_to_int to_int
handle_r optarg index p =
    let read : Bool × Parsed = elim (str_to_int (some optarg)) [
      | none ↦ (false, p)
      | some tmp ↦ (false, handle_single_parameter_with_extra b'R' [] (to_int tmp) index p)
    ] in
    if is_flag optarg
    then (true, handle_single_parameter_with_extra b'R' [] (pos 0) index p)
    else read

-- Case ':', an option without its argument.
unfoldable pub handle_missing : Found → ℕ → Parsed → Parsed
unfolding handle_single_parameter_with_extra
handle_missing f index p =
    if f.optopt == b'R' then handle_single_parameter_with_extra f.opt [] (pos 0) index p else p

unfoldable pub handle_t : List ℕ → Parsed → Parsed
unfolding str_to_int to_int
handle_t optarg p =
    let read : Parsed = elim (str_to_int (some optarg)) [
      | none ↦ p
      | some tmp ↦ record p { t_found = true; t_flag = to_int tmp }
    ] in
    if p.t_found then p else read

unfoldable pub handle_f : List ℕ → Parsed → Parsed
handle_f optarg p = elim p.socket_file_name [
  | none ↦ record p { socket_file_name = some optarg }
  | some name ↦ p
]

abbrev pub takes_files : ℕ → Bool
takes_files opt =
    opt == b'W' || (opt == b'r' || (opt == b'l' || (opt == b'u' || (opt == b'c' || opt == b'a'))))

-- The `switch`: whether the scan goes a step back, and the state.
unfoldable pub handle_option : Found → ℕ → Parsed → Outcome (Bool × Parsed)
unfolding handle_missing handle_t handle_f handle_multiple_parameters handle_w handle_r
    handle_single_parameter
handle_option f index p =
    let on = λ (q : Parsed). ok (false, q) in
    if f.opt == b':'
    then on (handle_missing f index p)
    else if f.opt == b'h'
    then on (record p { h_flag = true })
    else if f.opt == b'p'
    then on (record p { p_flag = true })
    else if f.opt == b'q'
    then on (record p { q_flag = true })
    else if f.opt == b'e'
    then on (record p { e_flag = true })
    else if f.opt == b't'
    then on (handle_t f.optarg p)
    else if f.opt == b'f'
    then on (handle_f f.optarg p)
    else if takes_files f.opt
    then (handle_multiple_parameters f.opt f.optarg index p >>= on)
    else if f.opt == b'w'
    then (char_array_split f.optarg (length f.optarg) (b',' ∷ []) >>= λ v_args.
        handle_w v_args index p >>= on)
    else if f.opt == b'R'
    then ok (handle_r f.optarg index p)
    else if f.opt == b'd' || f.opt == b'D'
    then on (handle_single_parameter f.opt f.optarg index p)
    else on p

-- The loop of `parseCommandLineArguments`, on fuel.
module _ {S : Type 0} (getopt : S → Option (Found × S)) (step_back : S → S) where
  unfoldable pub parse_options : ℕ → ℕ → S → Parsed → Outcome Parsed
  unfolding handle_option
  parse_options zero index s p = stuck
  parse_options (suc fuel) index s p = elim (getopt s) [
    | none ↦ ok p
    | some (f, t) ↦ handle_option f index p >>= λ r.
        parse_options fuel (index + 1) (if r.0 then step_back t else t) r.1
  ]

  unfoldable pub parse_command_line_arguments : ℕ → S → Outcome Parsed
  unfolding parse_options nothing_parsed
  parse_command_line_arguments fuel s = parse_options fuel 0 s nothing_parsed
