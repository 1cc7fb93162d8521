-- ===== src/Files/Entry.antt =====
-- src/server/include/files.h: a stored file is a buffer that holds its path and its content.
pub mod Layout
use progetto_sistemi_operati.Base.{
  ℕ, ◌+◌, ◌*◌, ◌%◌, ◌^◌, List, [], ◌∷◌, ◌++◌, Option, none, take, drop, length, replicate, ◌==◌,
  if◌then◌else◌,
}

-- The pointers `pathname` and `content` are offsets into `buf`, and `bufLen` is its length. An owner
-- of -1 is `none`.
pub record FileEntry : Type 0 where
  pub buf : List ℕ
  pub content_at : ℕ
  pub pathname_at : ℕ
  pub content_length : ℕ
  pub pathlen : ℕ
  pub owner : Option ℕ

-- The bytes up to the first NUL. A NUL follows every buffer that holds none.
unfoldable pub c_string : List ℕ → List ℕ
c_string [] = []
c_string (b ∷ bs) = let rest = c_string bs in if b == 0 then [] else b ∷ rest

unfoldable pub pathname : FileEntry → List ℕ
unfolding c_string
pathname f = c_string (drop f.pathname_at f.buf)

unfoldable pub content : FileEntry → List ℕ
content f = take f.content_length (drop f.content_at f.buf)

-- `memcpy(buf + at, bytes, length)`, inside the buffer.
unfoldable pub overwrite : List ℕ → ℕ → List ℕ → List ℕ
overwrite buf at bytes = take at buf ++ bytes ++ drop (at + length bytes) buf

-- The file that `filesystem_openFile` creates: the path, its NUL, and no content.
unfoldable pub empty_file : List ℕ → FileEntry
empty_file path = record {
  buf = path ++ 0 ∷ [];
  content_at = length path;
  pathname_at = 0;
  content_length = 0;
  pathlen = length path;
  owner = none;
}

-- What `filesystem_appendToFile` does to the file: `realloc` leaves `junk` in the new bytes.
unfoldable pub extend_file : ℕ → FileEntry → List ℕ → FileEntry
unfolding overwrite
extend_file junk f bytes = record f {
  buf = overwrite (f.buf ++ replicate (length bytes) junk) (f.content_at + f.content_length) bytes;
  content_length = f.content_length + length bytes;
}

-- What `filesystem_writeFile` does to it: the request's buffer takes the place of the old one.
unfoldable pub replace_file : FileEntry → FileEntry → FileEntry
replace_file f g = record f {
  buf = g.buf;
  content_at = g.content_at;
  content_length = g.content_length;
  pathname_at = g.pathname_at;
}

-- `hashtable size`, and djb2 over `unsigned long`.
abbrev pub hashtable_size : ℕ
hashtable_size = 4096

unfoldable pub hash_from : ℕ → List ℕ → ℕ
hash_from h [] = h
hash_from h (c ∷ cs) = hash_from ((h * 2 ^ 5 % 2 ^ 64 + h + c) % 2 ^ 64) cs

unfoldable pub hash : List ℕ → ℕ
unfolding hash_from
hash str = hash_from 5381 str

-- `hash(pathname) % HASHTABLE_SIZE`
unfoldable pub bucket_of : List ℕ → ℕ
unfolding hash
bucket_of path = hash path % hashtable_size
