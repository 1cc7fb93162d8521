-- ===== src/Client/Options/Chained.antt =====
-- parseCommandLineArguments of src/client/src/args.c ends, and its requests are in order.
use progetto_sistemi_operati.Base.{
  ℕ, zero, suc, ◌+◌, ◌<◌, ◌≡◌, refl, sym, subst, inr, List, [], ◌∷◌, ◌++◌, Option, none, some,
  if◌then◌else◌, All, arith, ok, ◌>>=◌, Ends, >>=-Ends, Ends-eq, true, ◌∙◌, ap,
}
use progetto_sistemi_operati.Client.Requests.{ClientRequest}
use progetto_sistemi_operati.Client.Options.{
  Found, Parsed, nothing_parsed, handle_option, parse_options, parse_command_line_arguments,
}
use progetto_sistemi_operati.Client.Options.Numbered.{Chain, Adds, Fresh}
use progetto_sistemi_operati.Client.Directories.Marked.{Follows}
use progetto_sistemi_operati.Client.Options.Handlers.{if-both, handle_option-Step}

-- The requests so far, before option `i`.
abbrev Numbered : ℕ → Parsed → Type 0
Numbered i p = Chain p.requests × All (λ q. q.index < i) p.requests

Follows-append :
    (i : ℕ) (r : ClientRequest) (rs ys : List ClientRequest)
    → Follows r rs
    → All (λ q. q.index < i) (r ∷ rs)
    → Fresh i ys
    → Follows r (rs ++ ys)
Follows-append i r [] [] f low fresh = tt
Follows-append i r [] (y ∷ ys) f (less, low) (chain, (e, es)) =
    (inr (omega (arith, less, e)), chain)
Follows-append i r (q ∷ qs) ys (next, f) (less, low) fresh =
    (next, Follows-append i q qs ys f low fresh)

Chain-append :
    (i : ℕ) (rs ys : List ClientRequest)
    → Chain rs
    → All (λ q. q.index < i) rs
    → Fresh i ys
    → Chain (rs ++ ys)
Chain-append i [] ys c low fresh = fresh.0
Chain-append i (r ∷ rs) ys f low fresh = Follows-append i r rs ys f low fresh

below-append :
    (i : ℕ) (rs ys : List ClientRequest)
    → All (λ q. q.index < i) rs
    → All (λ q. q.index ≡ i) ys
    → All (λ q. q.index < i + 1) (rs ++ ys)
below-append i [] [] low at = tt
below-append i [] (y ∷ ys) low (e, at) = (omega (arith, e), below-append i [] ys tt at)
below-append i (r ∷ rs) ys (less, low) at = (omega (arith, less), below-append i rs ys low at)

Numbered-Adds : (i : ℕ) (p q : Parsed) → Numbered i p → Adds i p q → Numbered (i + 1) q
Numbered-Adds i p q (chain, low) (ys, fresh, e) =
    subst (λ rs. Chain rs × All (λ r. r.index < i + 1) rs) (sym e)
      (Chain-append i p.requests ys chain low fresh, below-append i p.requests ys low fresh.1)

module _ {S : Type 0} (getopt : S → Option (Found × S)) (step_back : S → S) (left : S → ℕ) where
  -- The scan goes forward, and has still done so where an option sets it one step back.
  abbrev pub Advances : Type 0
  Advances =
      (s : S) (f : Found) (t : S)
      → getopt s ≡ some (f, t)
      → (left t < left s)
        × ((i : ℕ) (p q : Parsed)
            → handle_option f i p ≡ ok (true, q)
            → left (step_back t) < left s)

  parse_options-Ends :
      Advances
      → (fuel i : ℕ) (s : S) (p : Parsed) → left s < fuel
      → Numbered i p
      → Ends (λ q. Chain q.requests) (parse_options getopt step_back fuel i s p)
  unfolding parse_options
  parse_options-Ends advances zero i s p enough n = absurd (omega arith)
  parse_options-Ends advances (suc fuel) i s p enough n =
      go (getopt s) refl
        (λ t q less n'. parse_options-Ends advances fuel (i + 1) t q (omega (arith, less)) n')
    where
      go :
          (o : Option (Found × S))
          → getopt s ≡ o
          → ((t : S) (q : Parsed)
              → left t < left s
              → Numbered (i + 1) q
              → Ends (λ q. Chain q.requests) (parse_options getopt step_back fuel (i + 1) t q))
          → Ends
              (λ q. Chain q.requests)
              (elim o [
                | none ↦ ok p
                | some (f, t) ↦ handle_option f i p >>= λ r.
                    parse_options getopt step_back fuel (i + 1) (if r.0 then step_back t else t) r.1
              ])
      go none e rest = n.0
      go (some (f, t)) e rest =
          >>=-Ends (λ r. Adds i p r.1 × (handle_option f i p ≡ ok r)) (λ q. Chain q.requests)
            (handle_option f i p) _
            (Ends-eq (λ r. Adds i p r.1) (handle_option f i p) (handle_option-Step i p f))
            (λ r (a, handled).
              rest (if r.0 then step_back t else t) r.1
                (if-both (λ u. left u < left s) r.0 (step_back t) t
                  (λ b. (advances s f t e).1 i p r.1 (handled ∙ ap (λ c. ok (c, r.1)) b))
                  (λ b. (advances s f t e).0))
                (Numbered-Adds i p r.1 n a))

  pub parse_command_line_arguments-Chain :
      Advances
      → (fuel : ℕ) (s : S) → left s < fuel
      → Ends (λ p. Chain p.requests) (parse_command_line_arguments getopt step_back fuel s)
  unfolding parse_command_line_arguments
  parse_command_line_arguments-Chain advances fuel s enough =
      parse_options-Ends advances fuel 0 s nothing_parsed enough (unfold nothing_parsed in (tt, tt))
