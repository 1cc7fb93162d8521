-- ===== src/Client/Options/Numbered.antt =====
-- How parseCommandLineArguments of src/client/src/args.c numbers the requests.
use progetto_sistemi_operati.Base.{
  ℕ, ◌≡◌, refl, ap, sym, ◌∙◌, inl, List, [], ◌∷◌, ◌++◌, append_assoc, append-nil, false, All,
}
use progetto_sistemi_operati.Base.Int.{ℤ, pos}
use progetto_sistemi_operati.Strings.{String}
use progetto_sistemi_operati.Client.Requests.{ClientRequest, new_request_without_dir}
use progetto_sistemi_operati.Client.Options.{
  Parsed, handle_single_parameter_with_extra, handle_single_parameter, handle_each,
}
use progetto_sistemi_operati.Client.Directories.{is_dir_flag}
use progetto_sistemi_operati.Client.Directories.Marked.{Follows}

abbrev pub Chain : List ClientRequest → Type 0
Chain [] = Unit
Chain (r ∷ rs) = Follows r rs

-- The requests of one option.
abbrev Group : ℕ → ℕ → List ClientRequest → Type 0
Group i kind rs = All (λ q. (q.index ≡ i) × (q.kind ≡ kind)) rs

Group-Follows :
    (i kind : ℕ) (r : ClientRequest) (rs : List ClientRequest)
    → is_dir_flag kind ≡ false
    → Group i kind (r ∷ rs)
    → Follows r rs
Group-Follows i kind r [] plain g = tt
Group-Follows i kind r (q ∷ qs) plain ((ri, rk), ((qi, qk), g)) = (
  inl (qi ∙ sym ri, qk ∙ sym rk, ap is_dir_flag rk ∙ plain),
  Group-Follows i kind q qs plain ((qi, qk), g),
)

-- Requests that an option with index `i` may add.
abbrev pub Fresh : ℕ → List ClientRequest → Type 0
Fresh i rs = Chain rs × All (λ q. q.index ≡ i) rs

abbrev pub Adds : ℕ → Parsed → Parsed → Type 0
Adds i p q = (rs : List ClientRequest) × Fresh i rs × (q.requests ≡ p.requests ++ rs)

pub Adds-nothing : (i : ℕ) (p q : Parsed) → q.requests ≡ p.requests → Adds i p q
Adds-nothing i p q e = ([], (tt, tt), e ∙ sym (append-nil p.requests))

pub Adds-single :
    (kind : ℕ) (arg : List ℕ) (extra : ℤ) (i : ℕ) (p : Parsed)
    → Adds i p (handle_single_parameter_with_extra kind arg extra i p)
unfolding handle_single_parameter_with_extra
Adds-single kind arg extra i p = (
  new_request_without_dir kind arg extra i ∷ [],
  (tt, (unfold new_request_without_dir in refl, tt)),
  refl,
)

handle_each-Group :
    (kind : ℕ) (vs : List String) (i : ℕ) (p : Parsed)
    → (rs : List ClientRequest) × Group i kind rs
      × ((handle_each kind vs i p).requests ≡ p.requests ++ rs)
unfolding handle_each handle_single_parameter handle_single_parameter_with_extra
handle_each-Group kind [] i p = ([], tt, sym (append-nil p.requests))
handle_each-Group kind (v ∷ vs) i p =
    let r = new_request_without_dir kind v.content (pos 0) i in
    let (rs, g, e) = handle_each-Group kind vs i (handle_single_parameter kind v.content i p) in
    (
      r ∷ rs,
      ((unfold new_request_without_dir in refl, unfold new_request_without_dir in refl), g),
      e ∙ append_assoc p.requests (r ∷ []) rs,
    )

Group-Fresh :
    (i kind : ℕ) (rs : List ClientRequest) → is_dir_flag kind ≡ false → Group i kind rs → Fresh i rs
Group-Fresh i kind [] plain g = (tt, tt)
Group-Fresh i kind (r ∷ rs) plain g = (Group-Follows i kind r rs plain g, indices (r ∷ rs) g)
  where
    indices : (qs : List ClientRequest) → Group i kind qs → All (λ q. q.index ≡ i) qs
    indices [] g = tt
    indices (q ∷ qs) (h, g) = (h.0, indices qs g)

pub handle_each-Adds :
    (kind : ℕ) (vs : List String) (i : ℕ) (p : Parsed)
    → is_dir_flag kind ≡ false
    → Adds i p (handle_each kind vs i p)
handle_each-Adds kind vs i p plain =
    let (rs, g, e) = handle_each-Group kind vs i p in (rs, Group-Fresh i kind rs plain g, e)
