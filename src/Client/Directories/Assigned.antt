-- ===== src/Client/Directories/Assigned.antt =====
-- Which directory expandRequests of src/client/src/args.c gives to each request.
use progetto_sistemi_operati.Base.{
  ℕ, ◌+◌, ◌≤◌, ◌<◌, ◌≡◌, refl, ap, ap₂, sym, ◌∙◌, inl, inr, ◌&&◌, List, [], ◌∷◌, ◌++◌, map,
  append-nil, true, false, Option, none, some, Bool-cases, ◌==◌, if◌then◌else◌, arith, ok, ◌>>=◌,
  fault,
}
use progetto_sistemi_operati.Client.Requests.{ClientRequest}
use progetto_sistemi_operati.Client.Directories.{
  fits, is_dir_flag, set_directories, expand_flag, expand_from, expand_requests, rev_onto,
}
use progetto_sistemi_operati.Client.Directories.Marked.{
  Next, Follows, Before, marked, set_directories-marked, Before-map,
}

-- The directory for a request: that of a flag right behind the requests of the same option, if flag
-- and request go together.
unfoldable pub directory_for : ClientRequest → List ClientRequest → Option (List ℕ)
directory_for r [] = none
directory_for r (q ∷ qs) =
    let rest = directory_for r qs in
    let here = if q.index == r.index + 1 && fits q.kind r.kind then some q.content else none in
    if q.index == r.index then rest else here

abbrev pub or_else : Option (List ℕ) → Option (List ℕ) → Option (List ℕ)
or_else none d = d
or_else (some c) d = some c

unfoldable pub directed : List ClientRequest → List ClientRequest
unfolding directory_for
directed [] = []
directed (r ∷ rs) = record r { dir = or_else (directory_for r rs) r.dir } ∷ directed rs

abbrev settled : List ClientRequest → ClientRequest → ClientRequest
settled rs r = record r { dir = or_else (directory_for r rs) r.dir }

plain-fits : (k j : ℕ) → is_dir_flag k ≡ false → fits k j ≡ false
plain-fits k j plain = ground arith

-- Behind a later request there is no flag for an earlier one.
directory_for-later :
    (x r : ClientRequest) (rs : List ClientRequest)
    → Follows r rs
    → x.index < r.index
    → directory_for x rs ≡ none
unfolding directory_for
directory_for-later x r [] f h = refl
directory_for-later x r (q ∷ qs) (inr less, f) h = ground arith
directory_for-later x r (q ∷ qs) (inl (same, kind, plain), f) h =
    let no_fit : fits q.kind x.kind ≡ false =
      ap (λ k. fits k x.kind) kind ∙ plain-fits r.kind x.kind plain in
    ground arith

with_dir :
    (x : ClientRequest) {d e : Option (List ℕ)}
    → d ≡ e
    → record x { dir = d } ≡ record x { dir = e }
with_dir x e = ap (λ d. record x { dir = d }) e

-- A request that is no flag changes nothing for those in front of it.
settled-plain :
    (x r : ClientRequest) (rs : List ClientRequest)
    → Follows r rs
    → x.index ≤ r.index
    → is_dir_flag r.kind ≡ false
    → settled rs x ≡ settled (r ∷ rs) x
unfolding directory_for
settled-plain x r rs f h plain = with_dir x (
    ap (λ d. or_else d x.dir)
      (elim (Bool-cases (r.index == x.index)) [
        | inl same ↦ rw (same, directory_for) refl
        | inr later ↦
            let no_fit = plain-fits r.kind x.kind plain in
            directory_for-later x r rs f (ground arith) ∙ ground arith
      ]))

-- A flag marks those in front of it for good.
settled-flag :
    (x r : ClientRequest) (rs : List ClientRequest)
    → Follows r rs
    → x.index < r.index
    → is_dir_flag r.kind ≡ true
    → settled rs (marked r x) ≡ settled (r ∷ rs) x
unfolding directory_for
settled-flag x r rs f h flag =
    with_dir x (ground (arith, directory_for-later x r rs f h, marked_later rs f))
  where
    marked_later : (qs : List ClientRequest) → Follows r qs → directory_for (marked r x) qs ≡ none
    marked_later qs g = directory_for-later (marked r x) r qs g h

pub rev_onto-rev_onto :
    (xs ys zs : List ClientRequest) → rev_onto (rev_onto xs ys) zs ≡ rev_onto ys (xs ++ zs)
unfolding rev_onto
rev_onto-rev_onto [] ys zs = refl
rev_onto-rev_onto (x ∷ xs) ys zs = rev_onto-rev_onto xs (x ∷ ys) zs

map-settled_nil : (xs : List ClientRequest) → map (settled []) xs ≡ xs
unfolding directory_for
map-settled_nil [] = refl
map-settled_nil (x ∷ xs) = ap (λ r. x ∷ r) (map-settled_nil xs)

module _ (r : ClientRequest) (rs : List ClientRequest) (f : Follows r rs) where
  map-settled_plain :
      (p : ClientRequest) (ps : List ClientRequest)
      → Before p ps
      → p.index ≤ r.index
      → is_dir_flag r.kind ≡ false
      → map (settled rs) (p ∷ ps) ≡ map (settled (r ∷ rs)) (p ∷ ps)
  map-settled_plain p [] b h plain = ap (λ x. x ∷ []) (settled-plain p r rs f h plain)
  map-settled_plain p (q ∷ qs) (inl (same, k, l), b) h plain =
      ap₂ ◌∷◌ (settled-plain p r rs f h plain)
        (map-settled_plain q qs b (omega (arith, same)) plain)
  map-settled_plain p (q ∷ qs) (inr less, b) h plain =
      ap₂ ◌∷◌ (settled-plain p r rs f h plain) (map-settled_plain q qs b (omega arith) plain)

  map-settled_flag :
      (p : ClientRequest) (ps : List ClientRequest)
      → Before p ps
      → p.index < r.index
      → is_dir_flag r.kind ≡ true
      → map (settled rs) (map (marked r) (p ∷ ps)) ≡ map (settled (r ∷ rs)) (p ∷ ps)
  map-settled_flag p [] b h flag = ap (λ x. x ∷ []) (settled-flag p r rs f h flag)
  map-settled_flag p (q ∷ qs) (inl (same, k, l), b) h flag =
      ap₂ ◌∷◌ (settled-flag p r rs f h flag) (map-settled_flag q qs b (omega (arith, same)) flag)
  map-settled_flag p (q ∷ qs) (inr less, b) h flag =
      ap₂ ◌∷◌ (settled-flag p r rs f h flag) (map-settled_flag q qs b (omega arith) flag)

  expand_from-plain :
      (before : List ClientRequest)
      → is_dir_flag r.kind ≡ false
      → expand_from before (r ∷ rs) ≡ expand_from (r ∷ before) rs
  unfolding expand_from
  expand_from-plain before plain = rw (plain, expand_from) refl

  expand_from-flag :
      (p : ClientRequest) (ps : List ClientRequest)
      → Before p ps
      → p.index < r.index
      → is_dir_flag r.kind ≡ true
      → expand_from (p ∷ ps) (r ∷ rs) ≡ expand_from (r ∷ map (marked r) (p ∷ ps)) rs
  unfolding expand_from expand_flag
  expand_from-flag p ps b h flag =
      ap
        (λ c. elim c [
          | true ↦
              expand_from (r ∷ (if fits r.kind p.kind then set_directories r (p ∷ ps) else p ∷ ps))
                rs
          | false ↦ expand_from (r ∷ p ∷ ps) rs
        ])
        flag
      ∙ ap (λ changed. expand_from (r ∷ changed) rs) (set_directories-marked r p ps b h)

expand_from-directed :
    (rs : List ClientRequest) (p : ClientRequest) (ps : List ClientRequest)
    → Before p ps
    → Follows p rs
    → expand_from (p ∷ ps) rs ≡ ok (rev_onto (directed rs) (map (settled rs) (p ∷ ps)))
unfolding directed rev_onto
expand_from-directed [] p ps b f = unfold expand_from in ap ok (sym (map-settled_nil (p ∷ ps)))
expand_from-directed (r ∷ rs) p ps b (next, f) = elim (Bool-cases (is_dir_flag r.kind)) [
  | inr plain ↦
      expand_from-plain r rs f (p ∷ ps) plain
      ∙ expand_from-directed rs r (p ∷ ps) (next, b) f
      ∙ ap (λ xs. ok (rev_onto (directed rs) (settled rs r ∷ xs)))
          (map-settled_plain r rs f p ps b (not_above next) plain)
  | inl flag ↦
      let less = above next flag in
      expand_from-flag r rs f p ps b less flag
      ∙ expand_from-directed rs r (map (marked r) (p ∷ ps)) (inr less, Before-map r p ps b) f
      ∙ ap (λ xs. ok (rev_onto (directed rs) (settled rs r ∷ xs)))
          (map-settled_flag r rs f p ps b less flag)
]
  where
    not_above : Next p r → p.index ≤ r.index
    not_above (inl (same, k, l)) = omega (arith, same)
    not_above (inr less) = omega arith

    above : Next p r → is_dir_flag r.kind ≡ true → p.index < r.index
    above (inl (same, k, l)) flag = cc (sym (ap is_dir_flag k ∙ l) ∙ flag)
    above (inr less) flag = less

-- Of requests as the parser numbers them, expandRequests gives each one the directory of the -d
-- or -D that stands right behind the requests of its option and goes with its type, and changes
-- nothing else; a flag in front of all requests makes it follow a null pointer.
pub expand_requests-directed :
    (r : ClientRequest) (rs : List ClientRequest)
    → Follows r rs
    → expand_requests (r ∷ rs) ≡ (if is_dir_flag r.kind then fault else ok (directed (r ∷ rs)))
unfolding expand_requests rev_onto directed
expand_requests-directed r rs f = elim (Bool-cases (is_dir_flag r.kind)) [
  | inl flag ↦ rw flag (unfold expand_from expand_flag in rw (flag, expand_from) refl)
  | inr plain ↦ rw plain (
      ap (λ o. o >>= λ passed. ok (rev_onto passed []))
        (expand_from-plain r rs f [] plain ∙ expand_from-directed rs r [] tt f)
      ∙ ap ok (
          rev_onto-rev_onto (directed rs) (settled rs r ∷ []) []
          ∙ ap (λ xs. settled rs r ∷ xs) (append-nil (directed rs))))
]
