-- ===== src/Files/Entry/Layout.antt =====
-- Where the path and the content of a file are in its buffer (files.c), and what an edit does to them.
use progetto_sistemi_operati.Base.{
  ℕ, suc, append-nil, ◌+◌, ◌≡◌, refl, sym, ap, ap₂, ◌∙◌, ◌≢◌, List, [], ◌∷◌, ◌++◌, append_assoc,
  length, take, drop, replicate, All, take-length-append, drop-length-append, length-append, arith,
  ◌==◌, false,
}
use progetto_sistemi_operati.Files.Entry.{
  FileEntry, c_string, pathname, content, overwrite, empty_file, extend_file, replace_file,
}

-- The buffer holds the path, a NUL behind it, and then the content; anything may stand around them.
pub record Layout (f : FileEntry) (path bytes : List ℕ) : Type 0 where
  pub before : List ℕ
  pub middle : List ℕ
  pub after : List ℕ
  pub filled : f.buf ≡ before ++ path ++ 0 ∷ middle ++ bytes ++ after
  pub path_starts : f.pathname_at ≡ length before
  pub content_starts : f.content_at ≡ length (before ++ path ++ 0 ∷ middle)
  pub content_ends : f.content_length ≡ length bytes
  pub no_nul : All (λ b. b ≢ 0) path

pub c_string-append :
    (path rest : List ℕ) → All (λ b. b ≢ 0) path → c_string (path ++ rest) ≡ path ++ c_string rest
unfolding c_string
c_string-append [] rest no_nul = refl
c_string-append (b ∷ bs) rest (ne, no_nul) =
    rw (let e : (b == 0) ≡ false = ground arith in e)
      (ap (λ r. b ∷ r) (c_string-append bs rest no_nul))

-- The buffer from the path on.
pub Layout-from_path :
    {f : FileEntry} {path bytes : List ℕ} (l : Layout f path bytes)
    → drop f.pathname_at f.buf ≡ path ++ (0 ∷ l.middle ++ (bytes ++ l.after))
Layout-from_path {f} {path} {bytes} l =
    ap₂ (λ i b. drop i b) l.path_starts (l.filled ∙ path_first)
    ∙ drop-length-append l.before (path ++ (0 ∷ l.middle ++ (bytes ++ l.after)))
  where
    path_first :
        l.before ++ path ++ 0 ∷ l.middle ++ bytes ++ l.after
        ≡ l.before ++ (path ++ (0 ∷ l.middle ++ (bytes ++ l.after)))
    path_first =
        append_assoc (l.before ++ path ++ 0 ∷ l.middle) bytes l.after
        ∙ append_assoc (l.before ++ path) (0 ∷ l.middle) (bytes ++ l.after)
        ∙ append_assoc l.before path (0 ∷ l.middle ++ (bytes ++ l.after))

-- The path and the content of the layout are what is read.
pub Layout-read :
    {f : FileEntry} {path bytes : List ℕ}
    → Layout f path bytes
    → (pathname f ≡ path) × (content f ≡ bytes)
unfolding pathname content
Layout-read {f} {path} {bytes} l = (
  ap c_string (Layout-from_path l)
      ∙ c_string-append path (0 ∷ l.middle ++ (bytes ++ l.after)) l.no_nul
      ∙ append-nil path,
  ap₂ (λ n r. take n r) l.content_ends
        (ap₂ (λ i b. drop i b) l.content_starts (l.filled ∙ append_assoc head bytes l.after)
          ∙ drop-length-append head (bytes ++ l.after))
      ∙ take-length-append bytes l.after,
)
  where
    head : List ℕ
    head = l.before ++ path ++ 0 ∷ l.middle

drop-beyond : (xs ys : List ℕ) (n : ℕ) → drop (length xs + n) (xs ++ ys) ≡ drop n ys
drop-beyond [] ys n = ap (λ k. drop k ys) (omega arith)
drop-beyond (x ∷ xs) ys n =
    ap (λ k. drop k (x ∷ xs ++ ys))
      (let e : suc (length xs) + n ≡ suc (length xs + n) = omega arith in e)
    ∙ drop-beyond xs ys n

pub overwrite-append :
    (xs ys bytes : List ℕ)
    → overwrite (xs ++ ys) (length xs) bytes ≡ xs ++ bytes ++ drop (length bytes) ys
unfolding overwrite
overwrite-append xs ys bytes =
    ap₂ (λ front back. front ++ bytes ++ back) (take-length-append xs ys)
      (drop-beyond xs ys (length bytes))

-- Appending keeps the path and puts the bytes behind the content.
pub extend_file-Layout :
    (junk : ℕ) (more : List ℕ) {f : FileEntry} {path bytes : List ℕ}
    → Layout f path bytes
    → Layout (extend_file junk f more) path (bytes ++ more)
unfolding extend_file
extend_file-Layout junk more {f} {path} {bytes} l = record {
  before = l.before;
  middle = l.middle;
  after = drop (length more) (l.after ++ replicate (length more) junk);
  filled =
      ap₂ (λ b i. overwrite (b ++ junk_bytes) i more) l.filled at_end
      ∙ ap (λ b. overwrite b (length (head ++ bytes)) more)
          (append_assoc (head ++ bytes) l.after junk_bytes)
      ∙ overwrite-append (head ++ bytes) (l.after ++ junk_bytes) more
      ∙ ap (λ x. x ++ drop (length more) (l.after ++ junk_bytes)) (append_assoc head bytes more);
  path_starts = l.path_starts;
  content_starts = l.content_starts;
  content_ends = ap (λ n. n + length more) l.content_ends ∙ sym (length-append bytes more);
  no_nul = l.no_nul;
}
  where
    head : List ℕ
    head = l.before ++ path ++ 0 ∷ l.middle

    junk_bytes : List ℕ
    junk_bytes = replicate (length more) junk

    at_end : f.content_at + f.content_length ≡ length (head ++ bytes)
    at_end = ap₂ (λ i n. i + n) l.content_starts l.content_ends ∙ sym (length-append head bytes)

-- A write through `filesystem_writeFile` gives the file the path and the content of the request.
pub replace_file-Layout :
    (f : FileEntry) {g : FileEntry} {path bytes : List ℕ}
    → Layout g path bytes
    → Layout (replace_file f g) path bytes
unfolding replace_file
replace_file-Layout f l = record {
  before = l.before;
  middle = l.middle;
  after = l.after;
  filled = l.filled;
  path_starts = l.path_starts;
  content_starts = l.content_starts;
  content_ends = l.content_ends;
  no_nul = l.no_nul;
}

-- The first append to a file that has just been created leaves the bytes as its content, but also
-- makes them part of its path.
pub extend_file-empty_file :
    (junk : ℕ) (path more : List ℕ)
    → All (λ b. b ≢ 0) path
    → (content (extend_file junk (empty_file path) more) ≡ more)
      × (pathname (extend_file junk (empty_file path) more)
          ≡ path ++ c_string (more ++ drop (length more) (0 ∷ replicate (length more) junk)))
unfolding extend_file empty_file pathname content
extend_file-empty_file junk path more no_nul = (
  ap₂ (λ n b. take n (drop (length path) b))
        (let e : 0 + length more ≡ length more = omega arith in e) (written ∙ assoc)
      ∙ ap (take (length more)) (drop-length-append path (more ++ rest))
      ∙ take-length-append more rest,
  ap c_string (written ∙ assoc) ∙ c_string-append path (more ++ rest) no_nul,
)
  where
    junk_bytes : List ℕ
    junk_bytes = replicate (length more) junk

    rest : List ℕ
    rest = drop (length more) (0 ∷ junk_bytes)

    written : overwrite (path ++ 0 ∷ [] ++ junk_bytes) (length path + 0) more ≡ path ++ more ++ rest
    written =
        ap₂ (λ b i. overwrite b i more) (append_assoc path (0 ∷ []) junk_bytes)
          (let e : length path + 0 ≡ length path = omega arith in e)
        ∙ overwrite-append path (0 ∷ junk_bytes) more

    assoc : path ++ more ++ rest ≡ path ++ (more ++ rest)
    assoc = append_assoc path more rest
