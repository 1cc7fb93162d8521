-- ===== src/Client/Options/Handlers.antt =====
-- What each case of parseCommandLineArguments of src/client/src/args.c adds to the requests.
use progetto_sistemi_operati.Base.{
  ℕ, ◌≡◌, refl, List, [], ◌∷◌, Bool, true, false, Option, none, some, ◌==◌, ◌||◌, if◌then◌else◌,
  arith, Outcome, ok, ◌>>=◌, Ends, >>=-Ends, length,
}
use progetto_sistemi_operati.Base.Int.{ℤ, pos, to_int}
use progetto_sistemi_operati.Strings.{String, char_array_split, str_to_int}
use progetto_sistemi_operati.Strings.Tokens.{char_array_split-Ends}
use progetto_sistemi_operati.Client.Options.{
  Found, Parsed, handle_single_parameter_with_extra, handle_single_parameter,
  handle_multiple_parameters, handle_w, is_flag, handle_r, handle_missing, handle_t, handle_f,
  takes_files, handle_option,
}
use progetto_sistemi_operati.Client.Options.Numbered.{
  Adds, Adds-nothing, Adds-single, handle_each-Adds,
}
use progetto_sistemi_operati.Client.Directories.{is_dir_flag}

-- Both branches of an `if`.
pub if-both {ℓ} :
    {A : Type ℓ} (P : A → Type 0) (c : Bool) (x y : A)
    → (c ≡ true → P x)
    → (c ≡ false → P y)
    → P (if c then x else y)
if-both P true x y on off = on refl
if-both P false x y on off = off refl

module _ (i : ℕ) (p : Parsed) where
  abbrev Step : Outcome (Bool × Parsed) → Type 0
  Step o = Ends (λ r. Adds i p r.1) o

  -- A state that goes on.
  on-Step : (o : Outcome Parsed) → Ends (Adds i p) o → Step (o >>= λ q. ok (false, q))
  on-Step o e = >>=-Ends (Adds i p) (λ r. Adds i p r.1) o _ e (λ q a. a)

  unchanged : Adds i p p
  unchanged = Adds-nothing i p p refl

  takes_files-plain : (opt : ℕ) → takes_files opt ≡ true → is_dir_flag opt ≡ false
  takes_files-plain opt e = ground arith

  handle_multiple_parameters-Ends :
      (kind : ℕ) (args : List ℕ)
      → is_dir_flag kind ≡ false
      → Ends (Adds i p) (handle_multiple_parameters kind args i p)
  unfolding handle_multiple_parameters
  handle_multiple_parameters-Ends kind args plain =
      >>=-Ends (λ ts. Unit) (Adds i p) (char_array_split args (length args) (b',' ∷ [])) _
        (char_array_split-Ends (b',' ∷ []) args (length args))
        (λ vs u. handle_each-Adds kind vs i p plain)

  handle_w-Ends : (vs : List String) → Ends (Adds i p) (handle_w vs i p)
  unfolding handle_w
  handle_w-Ends [] = tt
  handle_w-Ends (d ∷ []) = Adds-single b'w' d.content (pos 0) i p
  handle_w-Ends (d ∷ n ∷ []) = read (str_to_int (some n.content))
    where
      read :
          (z : Option ℤ)
          → Ends (Adds i p) (elim z [
            | none ↦ ok p
            | some tmp ↦ ok (handle_single_parameter_with_extra b'w' d.content (to_int tmp) i p)
          ])
      read none = unchanged
      read (some tmp) = Adds-single b'w' d.content (to_int tmp) i p
  handle_w-Ends (d ∷ n ∷ (x ∷ xs)) = unchanged

  handle_r-Adds : (optarg : List ℕ) → Adds i p (handle_r optarg i p).1
  unfolding handle_r
  handle_r-Adds optarg =
      if-both (λ (r : Bool × Parsed). Adds i p r.1) (is_flag optarg) _ _
        (λ e. Adds-single b'R' [] (pos 0) i p) (λ e. read (str_to_int (some optarg)))
    where
      read :
          (z : Option ℤ)
          → (let r : Bool × Parsed = elim z [
            | none ↦ (false, p)
            | some tmp ↦ (false, handle_single_parameter_with_extra b'R' [] (to_int tmp) i p)
          ] in
              Adds i p r.1)
      read none = unchanged
      read (some tmp) = Adds-single b'R' [] (to_int tmp) i p

  handle_missing-Adds : (f : Found) → Adds i p (handle_missing f i p)
  unfolding handle_missing
  handle_missing-Adds f =
      if-both (Adds i p) (f.optopt == b'R') _ _ (λ e. Adds-single f.opt [] (pos 0) i p)
        (λ e. unchanged)

  handle_t-Adds : (optarg : List ℕ) → Adds i p (handle_t optarg p)
  unfolding handle_t
  handle_t-Adds optarg =
      if-both (Adds i p) p.t_found _ _ (λ e. unchanged) (λ e. read (str_to_int (some optarg)))
    where
      read :
          (z : Option ℤ)
          → Adds i p
              (elim z [ none ↦ p | some tmp ↦ record p { t_found = true; t_flag = to_int tmp } ])
      read none = unchanged
      read (some tmp) = unchanged

  handle_f-Adds : (optarg : List ℕ) → Adds i p (handle_f optarg p)
  unfolding handle_f
  handle_f-Adds optarg = kept p.socket_file_name
    where
      kept :
          (name : Option (List ℕ))
          → Adds i p (elim name [ none ↦ record p { socket_file_name = some optarg } | some n ↦ p ])
      kept none = unchanged
      kept (some n) = unchanged

  -- Every case of the `switch`
  pub handle_option-Step : (f : Found) → Step (handle_option f i p)
  unfolding handle_option
  handle_option-Step f =
      if-both Step (f.opt == b':') _ _ (λ e. handle_missing-Adds f)
        λ e.
          if-both Step (f.opt == b'h') _ _ (λ e. unchanged)
            λ e.
              if-both Step (f.opt == b'p') _ _ (λ e. unchanged)
                λ e.
                  if-both Step (f.opt == b'q') _ _ (λ e. unchanged)
                    λ e.
                      if-both Step (f.opt == b'e') _ _ (λ e. unchanged)
                        λ e.
                          if-both Step (f.opt == b't') _ _ (λ e. handle_t-Adds f.optarg)
                            λ e.
                              if-both Step (f.opt == b'f') _ _ (λ e. handle_f-Adds f.optarg)
                                λ e.
                                  if-both Step (takes_files f.opt) _ _
                                    (λ e. on-Step _ (
                                      handle_multiple_parameters-Ends f.opt f.optarg
                                        (takes_files-plain f.opt e)))
                                    λ e.
                                      if-both Step (f.opt == b'w') _ _ (λ e. w_case)
                                        λ e.
                                          if-both Step (f.opt == b'R') _ _
                                            (λ e. handle_r-Adds f.optarg)
                                            λ e.
                                              if-both Step (f.opt == b'd' || f.opt == b'D') _ _
                                                (λ e.
                                                  unfold handle_single_parameter in
                                                  Adds-single f.opt f.optarg (pos 0) i p)
                                                λ e. unchanged
    where
      w_case : Step (
          char_array_split f.optarg (length f.optarg) (b',' ∷ []) >>= λ v_args.
          handle_w v_args i p >>= λ q. ok (false, q))
      w_case =
          >>=-Ends (λ ts. Unit) (λ r. Adds i p r.1)
            (char_array_split f.optarg (length f.optarg) (b',' ∷ [])) _
            (char_array_split-Ends (b',' ∷ []) f.optarg (length f.optarg))
            (λ vs u. on-Step (handle_w vs i p) (handle_w-Ends vs))
