-- ===== src/Files/Locks/Creation.antt =====
-- put_fileEntry_ref, of files.c: the insertion into the table, and the lookups after it.
use mathlib.Core.Option
use progetto_sistemi_operati.Base.{
  ℕ, ◌≡◌, ◌≢◌, refl, sym, ap, ◌∙◌, inl, inr, List, [], ◌∷◌, true, false, none, some, str_eq,
  str_eq_refl, str_eq_sound, ◌==◌, Bool-cases, arith,
}
use progetto_sistemi_operati.Files.Entry.{pathname}
use progetto_sistemi_operati.Files.Waiting.{new_hash_entry}
use progetto_sistemi_operati.Files.Waiting.Fifo.{new_hash_entry-IsValid}
use progetto_sistemi_operati.Files.State.{
  Server, update, set_file, find_entry, get_hash_entry_ref, get_file_entry_ref, put_file_entry_ref,
}
use progetto_sistemi_operati.Files.Locks.Lookup.{update-same, update-pathname, find_entry-heap}
use progetto_sistemi_operati.Files.Locks.Abstract.{HasLock}

-- The state in which the file has lost its owner.
abbrev pub disowned : ℕ → Server → Server
disowned p s = set_file p (record (s.heap p) { owner = none }) s

disowned-get_hash_entry_ref :
    (p : ℕ) (s : Server) (path : List ℕ) (index : ℕ)
    → get_hash_entry_ref (disowned p s) path index ≡ get_hash_entry_ref s path index
unfolding get_hash_entry_ref
disowned-get_hash_entry_ref p s path index =
    find_entry-heap s.heap (update s.heap p (record (s.heap p) { owner = none })) path
      (s.table index) (update-pathname s.heap p none)

module _ (p : ℕ) (s : Server) (path : List ℕ) (index : ℕ) (named : pathname (s.heap p) ≡ path) where
  renamed : pathname ((disowned p s).heap p) ≡ path
  renamed = update-pathname s.heap p none p ∙ named

  lookup-disowned :
      get_file_entry_ref (disowned p s) (pathname ((disowned p s).heap p)) index
      ≡ get_file_entry_ref s path index
  unfolding get_file_entry_ref
  lookup-disowned =
      ap (λ q. Option.map (λ h. h.file) (get_hash_entry_ref (disowned p s) q index)) renamed
      ∙ ap (Option.map (λ h. h.file)) (disowned-get_hash_entry_ref p s path index)

  self : (index == index) ≡ true
  self = ground arith

  found :
      find_entry
        (disowned p s).heap
        path
        (update s.table index (new_hash_entry p ∷ s.table index) index)
      ≡ some (new_hash_entry p)
  unfolding find_entry new_hash_entry
  found =
      let here : str_eq (pathname ((disowned p s).heap p)) path ≡ true =
        ap (λ q. str_eq q path) renamed ∙ str_eq_refl path in
      rw self (rw here refl)

  others :
      (other : List ℕ)
      → path ≢ other
      → find_entry
          (disowned p s).heap
          other
          (update s.table index (new_hash_entry p ∷ s.table index) index)
        ≡ find_entry s.heap other (s.table index)
  unfolding find_entry new_hash_entry get_hash_entry_ref
  others other ne = elim (Bool-cases (str_eq (pathname ((disowned p s).heap p)) other)) [
    | inl same ↦ absurd (ne (sym renamed ∙ str_eq_sound _ other same))
    | inr differs ↦ rw self (rw differs (disowned-get_hash_entry_ref p s other index))
  ]

  -- A file whose path is not in its bucket is put there: the table then has for its path an entry
  -- with a free lock and an empty queue, and for every other path of the bucket what it had.
  pub put_file_entry_ref-HasLock :
      get_file_entry_ref s path index ≡ none
      → let (put, t) = put_file_entry_ref p index s in
        (put ≡ true)
        × HasLock t path index (record { owner = none; queue = [] })
        × ((other : List ℕ)
            → path ≢ other
            → get_hash_entry_ref t other index ≡ get_hash_entry_ref s other index)
  unfolding put_file_entry_ref get_hash_entry_ref new_hash_entry
  put_file_entry_ref-HasLock missing =
      rw (put_file_entry_ref, lookup-disowned ∙ missing)
        (
          refl,
          (
            new_hash_entry p,
            found,
            (new_hash_entry-IsValid p).0,
            ap (λ f. record { owner = f.owner; queue = [] })
                (update-same s.heap p (record (s.heap p) { owner = none })),
          ),
          others,
        )

  -- A file whose path is in its bucket already is refused, and the table has for every path what
  -- it had.
  pub put_file_entry_ref-refused :
      (q : ℕ)
      → get_file_entry_ref s path index ≡ some q
      → let (put, t) = put_file_entry_ref p index s in
        (put ≡ false)
        × ((other : List ℕ) (i : ℕ) → get_hash_entry_ref t other i ≡ get_hash_entry_ref s other i)
  unfolding put_file_entry_ref
  put_file_entry_ref-refused q there =
      rw (put_file_entry_ref, lookup-disowned ∙ there)
        (refl, λ other i. disowned-get_hash_entry_ref p s other i)
