-- ===== src/Files/Locks/Lookup.antt =====
-- What the search in a bucket of files.c finds after a write to the entry or to its file.
use progetto_sistemi_operati.Base.{
  ℕ, ◌≡◌, refl, subst, ap, ap₂, ◌∙◌, inl, inr, List, [], ◌∷◌, true, Option, some, str_eq, ◌==◌,
  Bool-cases, if◌then◌else◌, ==_iff, arith,
}
use progetto_sistemi_operati.Files.Entry.{FileEntry, pathname}
use progetto_sistemi_operati.Files.Waiting.{HashEntry}
use progetto_sistemi_operati.Files.State.{update, has_path, find_entry, replace_entry}

pub update-same : (heap : ℕ → FileEntry) (p : ℕ) (f : FileEntry) → update heap p f p ≡ f
update-same heap p f = rw (let e : (p == p) ≡ true = ground arith in e) refl

-- A file keeps its path when only its owner changes.
pub update-pathname :
    (heap : ℕ → FileEntry) (p : ℕ) (o : Option ℕ) (q : ℕ)
    → pathname (update heap p (record (heap p) { owner = o }) q) ≡ pathname (heap q)
unfolding pathname
update-pathname heap p o q = elim (Bool-cases (p == q)) [
  | inl e ↦ let same : p ≡ q = (==_iff p q).0 e in rw e (ap (λ i. pathname (heap i)) same)
  | inr e ↦ rw e refl
]

pub find_entry-heap :
    (heap heap' : ℕ → FileEntry) (path : List ℕ) (hs : List HashEntry)
    → ((p : ℕ) → pathname (heap' p) ≡ pathname (heap p))
    → find_entry heap' path hs ≡ find_entry heap path hs
unfolding find_entry
find_entry-heap heap heap' path [] e = refl
find_entry-heap heap heap' path (h ∷ hs) e =
    ap₂ (λ p rest. if str_eq p path then some h else rest) (e h.file)
      (find_entry-heap heap heap' path hs e)

pub find_entry-has_path :
    (heap : ℕ → FileEntry) (path : List ℕ) (h : HashEntry) (hs : List HashEntry)
    → find_entry heap path hs ≡ some h
    → has_path heap path h ≡ true
unfolding find_entry
find_entry-has_path heap path h [] e = cc
find_entry-has_path heap path h (k ∷ hs) e = elim (Bool-cases (has_path heap path k)) [
  | inl here ↦
      (let e' : some k ≡ some h = rw here at e in
        let same : k ≡ h = cc in subst (λ m. has_path heap path m ≡ true) same here)
  | inr not_here ↦ find_entry-has_path heap path h hs (rw not_here at e)
]

-- A write through the pointer that the search returned is found by the next search.
pub find_entry-replace_entry :
    (heap : ℕ → FileEntry) (path : List ℕ) (h h' : HashEntry) (hs : List HashEntry)
    → find_entry heap path hs ≡ some h
    → h'.file ≡ h.file
    → find_entry heap path (replace_entry heap path h' hs) ≡ some h'
unfolding find_entry replace_entry
find_entry-replace_entry heap path h h' [] e same = cc
find_entry-replace_entry heap path h h' (k ∷ hs) e same = elim (Bool-cases (has_path heap path k)) [
  | inl here ↦ rw here (rw (found e) refl)
  | inr not_here ↦
      rw not_here (rw not_here (find_entry-replace_entry heap path h h' hs (rw not_here at e) same))
]
  where
    found : find_entry heap path (k ∷ hs) ≡ some h → has_path heap path h' ≡ true
    found e =
        ap (λ p. str_eq (pathname (heap p)) path) same ∙ find_entry-has_path heap path h (k ∷ hs) e
