-- ===== src/Files/Operations/Sampling.antt =====
-- The files that filesystem_get_n_fileEntry, of files.c, picks.
use native.Mathlib.Nat.{mod-eq_of_lt}
use progetto_sistemi_operati.Base.{
  ℕ, zero, suc, ◌+◌, ◌-◌, ◌%◌, ◌≤◌, ◌<◌, ◌≡◌, refl, sym, subst, ap, ◌∙◌, inl, inr, List, [], ◌∷◌,
  map, true, false, Bool, ◌≢◌, ◌^◌, leb, ◌||◌, get_or, set, All, length, length-set, ltb, ◌==◌,
  if◌then◌else◌, Bool-cases, ok, arith,
}
use progetto_sistemi_operati.Base.Ring.{window-get}
use progetto_sistemi_operati.Caching.Config.{Config}
use progetto_sistemi_operati.Caching.State.{Cache, slot}
use progetto_sistemi_operati.Caching.Policy.{is_fifo, handle_usage}
use progetto_sistemi_operati.Caching.Fifo.{handle_usage_fifo}
use progetto_sistemi_operati.Caching.Valid.{IsValid, contents}
use progetto_sistemi_operati.Files.Entry.{FileEntry}
use progetto_sistemi_operati.Files.State.{Server}
use progetto_sistemi_operati.Files.Operations.Open.{
  sample, count_from, chosen, read_chosen, filesystem_get_n_file_entry,
}

All-set : (P : ℕ → Type 0) (es : List ℕ) (j i : ℕ) → All P es → P i → All P (set es j i)
All-set P [] j i all h = tt
All-set P (e ∷ es) zero i (first, all) h = (h, all)
All-set P (e ∷ es) (suc j) i (first, all) h = (first, All-set P es j i all h)

All-map : {P Q : ℕ → Type 0} (es : List ℕ) → ((e : ℕ) → P e → Q e) → All P es → All Q es
All-map [] weaker all = tt
All-map (e ∷ es) weaker (first, all) = (weaker e first, All-map es weaker all)

-- No index comes twice.
abbrev pub Distinct : List ℕ → Type 0
Distinct [] = Unit
Distinct (e ∷ es) = All (λ x. x ≢ e) es × Distinct es

Distinct-set : (es : List ℕ) (j i : ℕ) → Distinct es → All (λ e. e < i) es → Distinct (set es j i)
Distinct-set [] j i d below = tt
Distinct-set (e ∷ es) zero i (new, d) (first, below) =
    (All-map es (λ x less same. omega (arith, less, same)) below, d)
Distinct-set (e ∷ es) (suc j) i (new, d) (first, below) = (
  All-set (λ x. x ≢ e) es j i new (λ same. omega (arith, first, same)),
  Distinct-set es j i d below,
)

-- The indices of a round: each once, and below the round's own.
abbrev Drawn : ℕ → ℕ → List ℕ → Type 0
Drawn size i es = Distinct es × All (λ e. e < i) es × (length es ≡ size)

Drawn-set : (size i j : ℕ) (es : List ℕ) → Drawn size i es → Drawn size (i + 1) (set es j i)
Drawn-set size i j es (d, below, same) = (
  Distinct-set es j i d below,
  All-set (λ e. e < i + 1) es j i (All-map es (λ e less. omega (arith, less)) below) (omega arith),
  length-set es j i ∙ same,
)

sample-Drawn :
    (left i n size bound : ℕ) (rand es : List ℕ)
    → Drawn size i es
    → i + left ≤ bound
    → Drawn size bound (sample left i n rand es)
unfolding sample
sample-Drawn zero i n size bound rand es (d, below, same) h =
    (d, All-map es (λ e less. omega (arith, less, h)) below, same)
sample-Drawn (suc left) i n size bound [] es (d, below, same) h =
    (d, All-map es (λ e less. omega (arith, less, h)) below, same)
sample-Drawn (suc left) i n size bound (r ∷ rand) es drawn h = elim (Bool-cases (ltb (r % i) n)) [
  | inl picked ↦ rw picked (
      sample-Drawn left (i + 1) n size bound rand (set es (r % i) i)
        (Drawn-set size i (r % i) es drawn) (omega arith))
  | inr passed ↦
      let (d, below, same) = drawn in
      rw passed (
        sample-Drawn left (i + 1) n size bound rand es
          (d, All-map es (λ e less. omega (arith, less)) below, same) (omega arith))
]

count_from-Drawn : (i n : ℕ) → All (λ e. i ≤ e) (count_from i n) × Drawn n (i + n) (count_from i n)
unfolding count_from
count_from-Drawn i zero = (tt, (tt, tt, refl))
count_from-Drawn i (suc n) =
    let (from, (d, below, size)) = count_from-Drawn (i + 1) n in
    (
      (omega arith, All-map (count_from (i + 1) n) (λ e le. omega (arith, le)) from),
      (
        (All-map (count_from (i + 1) n) (λ e le same. omega (arith, le, same)) from, d),
        (omega arith, All-map (count_from (i + 1) n) (λ e less. omega (arith, less)) below),
        ap suc size,
      ),
    )

-- How many files are sent for `n`.
abbrev pub wanted : Cache → ℕ → ℕ
wanted c n = if n == 0 || ltb c.count n then c.count else n

wanted-le : (c : Cache) (n : ℕ) → wanted c n ≤ c.count
wanted-le c n = ground arith

chosen-Drawn : (c : Cache) (n : ℕ) (rand : List ℕ) → Drawn (wanted c n) c.count (chosen c n rand)
unfolding chosen
chosen-Drawn c n rand =
    let m = wanted c n in
    let few = wanted-le c n in
    let (from, drawn) = count_from-Drawn 0 m in
    let at_zero : 0 + m ≡ m = omega arith in
    sample-Drawn (c.count - m) m m m c.count rand (count_from 0 m)
      (subst (λ b. Drawn m b (count_from 0 m)) at_zero drawn) (omega (arith, few))

-- All places in order where all files are wanted, and each place at most once where fewer are.
abbrev pub Picked : Bool → ℕ → List ℕ → Type 0
Picked true count es = es ≡ count_from 0 count
Picked false count es = Distinct es

chosen-Picked :
    (c : Cache) (n : ℕ) (rand : List ℕ) → Picked (n == 0 || leb c.count n) c.count (chosen c n rand)
unfolding chosen
chosen-Picked c n rand = elim (Bool-cases (n == 0 || leb c.count n)) [
  | inl all ↦
      let every : wanted c n ≡ c.count = ground arith in
      let none_left : c.count - c.count ≡ 0 = omega arith in rw (all, every, none_left, sample) refl
  | inr few ↦ rw few (chosen-Drawn c n rand).0
]

module _ {cfg : Config} (s : Server) (v : IsValid cfg s.cache) (fifo : is_fifo cfg ≡ true)
    (straight : s.cache.head + s.cache.count ≤ cfg.max_file_count) where
  -- The file at a place of the queue.
  abbrev pub file_at : ℕ → FileEntry
  file_at e = s.heap (get_or (contents s.cache) e 0)

  at_place :
      (e : ℕ)
      → e < s.cache.count
      → slot s.cache.slots ((s.cache.head + e) % cfg.max_file_count) ≡ get_or (contents s.cache) e 0
  at_place e h =
      let short : (s.cache.head + e) % cfg.max_file_count ≡ s.cache.head + e =
        mod-eq_of_lt (omega arith) in
      let long : (s.cache.head + e) % s.cache.cache_size ≡ s.cache.head + e =
        mod-eq_of_lt (omega (arith, v.sized)) in
      ap (slot s.cache.slots) (short ∙ sym long)
      ∙ sym (window-get 0 s.cache.slots s.cache.cache_size s.cache.head s.cache.count e v.head_in h)

  usage-same : (p : ℕ) → handle_usage cfg p s.cache ≡ ok s.cache
  unfolding handle_usage handle_usage_fifo
  usage-same p = rw (fifo, handle_usage) refl

  read_chosen-files :
      (es : List ℕ)
      → All (λ e. e < s.cache.count) es
      → read_chosen cfg s.cache.head es s ≡ ok (map file_at es, s)
  unfolding read_chosen
  read_chosen-files [] all = refl
  read_chosen-files (e ∷ es) (first, all) =
      let rest = read_chosen-files es all in
      rw (usage-same (slot s.cache.slots ((s.cache.head + e) % cfg.max_file_count)), rest)
        (ap (λ p. ok (s.heap p ∷ map file_at es, s)) (at_place e first))

  -- Under FIFO and with a valid ring whose files do not go round the end of the array,
  -- filesystem_get_n_fileEntry with an n that is not negative gives files that stand in the
  -- ring's queue and changes nothing, whatever rand returns: all files in the queue's order for 0
  -- or a number not below the count, and otherwise as many as asked for, no place of the queue
  -- twice.
  pub filesystem_get_n_file_entry-stored :
      (n : ℕ) (rand : List ℕ)
      → n < 2 ^ 31
      → (es : List ℕ) × All (λ e. e < s.cache.count) es
        × Distinct es
        × (length es ≡ (if n == 0 || ltb s.cache.count n then s.cache.count else n))
        × Picked (n == 0 || leb s.cache.count n) s.cache.count es
        × (filesystem_get_n_file_entry cfg n rand s ≡ ok (map file_at es, s))
  unfolding filesystem_get_n_file_entry
  filesystem_get_n_file_entry-stored n rand int =
      let (d, all, size) = chosen-Drawn s.cache n rand in
      let es = chosen s.cache n rand in
      let not_negative : leb (2 ^ 31) n ≡ false = ground arith in
      (es, all, d, size, chosen-Picked s.cache n rand, rw not_negative (read_chosen-files es all))
