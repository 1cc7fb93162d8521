-- ===== src/Client/Directories/Marked.antt =====
-- What a flag -d or -D does to the requests in front of it, in expandRequests of src/client/src/args.c.
use progetto_sistemi_operati.Base.{
  ◌+◌, ◌<◌, ◌≡◌, ◌⊎◌, refl, ap, ap₂, sym, ◌∙◌, inl, inr, ◌&&◌, List, [], ◌∷◌, map, Bool, true,
  false, some, Bool-cases, ◌==◌, if◌then◌else◌, arith,
}
use progetto_sistemi_operati.Client.Requests.{ClientRequest, set_request_directory}
use progetto_sistemi_operati.Client.Directories.{fits, is_dir_flag, set_directories}

-- The requests as the parser makes them: those of one option have one index and one type, and a
-- flag is alone; a later option has a higher index.
abbrev pub Next : ClientRequest → ClientRequest → Type 0
Next p q =
    ((q.index ≡ p.index) × (q.kind ≡ p.kind) × (is_dir_flag p.kind ≡ false)) ⊎ (p.index < q.index)

abbrev pub Follows : ClientRequest → List ClientRequest → Type 0
Follows p [] = Unit
Follows p (q ∷ qs) = Next p q × Follows q qs

-- The same of a list in reverse.
abbrev pub Before : ClientRequest → List ClientRequest → Type 0
Before p [] = Unit
Before p (q ∷ qs) = Next q p × Before q qs

-- What a flag does to a request in front of it.
abbrev pub marked : ClientRequest → ClientRequest → ClientRequest
marked flag r = record r {
  dir = if flag.index == r.index + 1 && fits flag.kind r.kind then some flag.content else r.dir;
}

module _ (flag : ClientRequest) where
  far : (p : ClientRequest) → p.index + 1 < flag.index → marked flag p ≡ p
  far p h =
      let off : (flag.index == p.index + 1) ≡ false = ground arith in
      ap (λ b. record p { dir = if b && fits flag.kind p.kind then some flag.content else p.dir })
        off

  unmarked :
      (p : ClientRequest) (ps : List ClientRequest)
      → Before p ps
      → p.index + 1 < flag.index
      → map (marked flag) (p ∷ ps) ≡ p ∷ ps
  unmarked p [] b h = ap (λ x. x ∷ []) (far p h)
  unmarked p (q ∷ qs) (inl (same, k, l), b) h =
      ap₂ ◌∷◌ (far p h) (unmarked q qs b (omega (arith, same)))
  unmarked p (q ∷ qs) (inr less, b) h = ap₂ ◌∷◌ (far p h) (unmarked q qs b (omega arith))

  near :
      (p : ClientRequest) (fit : Bool)
      → (flag.index == p.index + 1) ≡ true
      → fits flag.kind p.kind ≡ fit
      → marked flag p ≡ (if fit then set_request_directory flag.content p else p)
  unfolding set_request_directory
  near p true e f = rw (e, f) refl
  near p false e f = rw (e, f) refl

  stop_here :
      (p : ClientRequest) (ps : List ClientRequest)
      → p.index + 1 < flag.index
      → set_directories flag (p ∷ ps) ≡ p ∷ ps
  unfolding set_directories
  stop_here p ps h =
      let off : (p.index + 1 == flag.index) ≡ false = ground arith in rw (off, set_directories) refl

  go_here :
      (p : ClientRequest) (ps : List ClientRequest)
      → (p.index + 1 == flag.index) ≡ true
      → set_directories flag (p ∷ ps)
        ≡ set_request_directory flag.content p ∷ set_directories flag ps
  unfolding set_directories
  go_here p ps on = rw (on, set_directories) refl

  -- The step at one request, from what is done to the others.
  step_back :
      (p : ClientRequest) (ps : List ClientRequest)
      → Before p ps
      → p.index < flag.index
      → ((fit : Bool)
          → fits flag.kind p.kind ≡ fit
          → p.index + 1 ≡ flag.index
          → (if fit then set_directories flag ps else ps) ≡ map (marked flag) ps)
      → (if fits flag.kind p.kind then set_directories flag (p ∷ ps) else p ∷ ps)
        ≡ map (marked flag) (p ∷ ps)
  step_back p ps b h tails =
      let choose = λ (c : Bool). if c then set_directories flag (p ∷ ps) else p ∷ ps in
      elim (Bool-cases (p.index + 1 == flag.index)) [
        | inr off ↦
            let less : p.index + 1 < flag.index = ground arith in
            elim (Bool-cases (fits flag.kind p.kind)) [
              | inl fit ↦ ap choose fit ∙ stop_here p ps less ∙ sym (unmarked p ps b less)
              | inr no_fit ↦ ap choose no_fit ∙ sym (unmarked p ps b less)
            ]
        | inl on ↦
            let next : p.index + 1 ≡ flag.index = ground arith in
            let next' : (flag.index == p.index + 1) ≡ true = ground arith in
            elim (Bool-cases (fits flag.kind p.kind)) [
              | inl fit ↦
                  ap choose fit
                  ∙ go_here p ps on
                  ∙ ap₂ ◌∷◌ (sym (near p true next' fit)) (tails true fit next)
              | inr no_fit ↦
                  ap choose no_fit
                  ∙ ap₂ ◌∷◌ (sym (near p false next' no_fit)) (tails false no_fit next)
            ]
      ]

  either : (fit : Bool) (xs : List ClientRequest) → (if fit then xs else xs) ≡ xs
  either true xs = refl
  either false xs = refl

  -- Going back over the requests marks those that the flag is about.
  pub set_directories-marked :
      (p : ClientRequest) (ps : List ClientRequest)
      → Before p ps
      → p.index < flag.index
      → (if fits flag.kind p.kind then set_directories flag (p ∷ ps) else p ∷ ps)
        ≡ map (marked flag) (p ∷ ps)
  set_directories-marked p [] b h =
      step_back p [] b h (λ fit f n. unfold set_directories in either fit [])
  set_directories-marked p (q ∷ qs) (inl (same, k, l), b) h =
      step_back p (q ∷ qs) (inl (same, k, l), b) h
        (λ fit f n.
          ap (λ c. if c then set_directories flag (q ∷ qs) else q ∷ qs)
            (sym f ∙ ap (fits flag.kind) k)
          ∙ set_directories-marked q qs b (omega (arith, same)))
  set_directories-marked p (q ∷ qs) (inr less, b) h =
      step_back p (q ∷ qs) (inr less, b) h
        (λ fit f n.
          let far_off : q.index + 1 < flag.index = omega arith in
          ap (λ xs. if fit then xs else q ∷ qs) (stop_here q qs far_off)
          ∙ either fit (q ∷ qs)
          ∙ sym (unmarked q qs b far_off))

pub Before-map :
    (flag p : ClientRequest) (ps : List ClientRequest)
    → Before p ps
    → Before (marked flag p) (map (marked flag) ps)
Before-map flag p [] b = tt
Before-map flag p (q ∷ qs) (next, b) = (next, Before-map flag q qs b)
