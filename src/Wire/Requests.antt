-- ===== src/Wire/Requests.antt =====
-- A request on its way: writeMessage of api.c makes the bytes, new_request of request.c reads them.
use progetto_sistemi_operati.Base.{
  ℕ, ◌+◌, ◌-◌, ◌^◌, ◌/◌, ◌%◌, ◌<◌, ◌≡◌, ◌≢◌, refl, sym, ap, ◌∙◌, List, [], ◌∷◌, ◌++◌, append_assoc,
  none, arith, get_or, set, length, length-append, All, Outcome, ok, ◌>>=◌,
}
use progetto_sistemi_operati.Files.Entry.Layout.{Layout}
use progetto_sistemi_operati.Files.Waiting.{Request}
use progetto_sistemi_operati.Wire.Ints.{serialize_int, int_at, int_at-serialize_int}

-- `writeMessage` of api.c: what stands behind the header, and the whole message. The byte behind the
-- path is a space.
unfoldable pub payload : ℕ → List ℕ → List ℕ → ℕ → List ℕ
unfolding serialize_int
payload kind pathname content flags =
    kind ∷ serialize_int (length pathname)
    ++ pathname
    ++ 32 ∷ serialize_int (length content)
    ++ content
    ++ serialize_int flags

unfoldable pub write_message : ℕ → List ℕ → List ℕ → ℕ → List ℕ
unfolding payload serialize_int
write_message kind pathname content flags =
    serialize_int (length (payload kind pathname content flags))
    ++ payload kind pathname content flags

-- `new_request`: the fields are read in place, a NUL is put behind the path and, over the flags,
-- behind the content. A length that points out of the buffer, as a negative one does here, is a fault.
unfoldable pub new_request : List ℕ → ℕ → Outcome Request
unfolding int_at
new_request msg client = int_at msg 1 >>= λ pathlen.
    let buf = set msg (5 + pathlen) 0 in
    int_at buf (6 + pathlen) >>= λ content_length.
    let content_at = 10 + pathlen in
    int_at buf (content_at + content_length) >>= λ flags. ok (record {
      kind = get_or msg 0 0;
      flags = flags;
      client = client;
      file = record {
        buf = set buf (length msg - 4) 0;
        content_at = content_at;
        pathname_at = 5;
        content_length = content_length;
        pathlen = pathlen;
        owner = none;
      };
    })

set-append :
    (xs : List ℕ) (y v : ℕ) (ys : List ℕ) (i : ℕ)
    → i ≡ length xs
    → set (xs ++ y ∷ ys) i v ≡ xs ++ v ∷ ys
set-append [] y v ys i at = ap (λ j. set (y ∷ ys) j v) at
set-append (x ∷ xs) y v ys i at =
    ap (λ j. set (x ∷ xs ++ y ∷ ys) j v) at
    ∙ ap (λ r. x ∷ r) (set-append xs y v ys (length xs) refl)

-- The message cut where its fields are; `v` is the byte behind the path.
module _ (kind : ℕ) (path bytes : List ℕ) (flags : ℕ) where
  start : List ℕ
  unfolding serialize_int
  start = kind ∷ serialize_int (length path)

  until_flags : ℕ → List ℕ
  unfolding serialize_int start
  until_flags v = start ++ path ++ v ∷ serialize_int (length bytes) ++ bytes

  at_path :
      (v : ℕ)
      → until_flags v ++ serialize_int flags
        ≡ start ++ path ++ v ∷ (serialize_int (length bytes) ++ (bytes ++ serialize_int flags))
  unfolding until_flags
  at_path v =
      append_assoc (start ++ path ++ v ∷ serialize_int (length bytes)) bytes (serialize_int flags)
      ∙ append_assoc (start ++ path) (v ∷ serialize_int (length bytes))
          (bytes ++ serialize_int flags)

  length-start_path : length (start ++ path) ≡ 5 + length path
  unfolding start serialize_int
  length-start_path = omega arith

  length-until_flags : (v : ℕ) → length (until_flags v) ≡ 10 + length path + length bytes
  unfolding until_flags
  length-until_flags v =
      let sized = serialize_int (length bytes) in
      omega (
        arith,
        length-append (path ++ v ∷ sized) bytes,
        length-append path (v ∷ sized),
        length-start_path,
      )

  terminated :
      set (until_flags 32 ++ serialize_int flags) (5 + length path) 0
      ≡ until_flags 0 ++ serialize_int flags
  terminated =
      ap (λ m. set m (5 + length path) 0) (at_path 32)
      ∙ set-append (start ++ path) 32 0 _ (5 + length path) (sym length-start_path)
      ∙ sym (at_path 0)

  read_pathlen :
      length path < 2 ^ 31 → int_at (until_flags 32 ++ serialize_int flags) 1 ≡ ok (length path)
  unfolding start
  read_pathlen hp =
      ap (λ m. int_at m 1) (at_path 32)
      ∙ ap (λ m. int_at m 1) (append_assoc start path _)
      ∙ int_at-serialize_int (kind ∷ []) _ (length path) 1 (omega arith) refl

  read_content_length :
      length bytes < 2 ^ 31
      → int_at (until_flags 0 ++ serialize_int flags) (6 + length path) ≡ ok (length bytes)
  read_content_length hb =
      ap (λ m. int_at m (6 + length path))
        (at_path 0 ∙ sym (append_assoc (start ++ path) (0 ∷ []) _))
      ∙ int_at-serialize_int (start ++ path ++ 0 ∷ []) _ (length bytes) (6 + length path)
          (omega arith) (omega (arith, length-append (start ++ path) (0 ∷ []), length-start_path))

  read_flags :
      flags < 2 ^ 32
      → int_at (until_flags 0 ++ serialize_int flags) (10 + length path + length bytes) ≡ ok flags
  unfolding serialize_int
  read_flags hf = int_at-serialize_int (until_flags 0) [] flags _ hf (sym (length-until_flags 0))

  after_flags : List ℕ
  after_flags = 0 ∷ flags / 256 % 256 ∷ flags / 65536 % 256 ∷ flags / 16777216 % 256 ∷ []

  ended :
      set
        (until_flags 0 ++ serialize_int flags)
        (length (until_flags 32 ++ serialize_int flags) - 4)
        0
      ≡ until_flags 0 ++ after_flags
  unfolding serialize_int after_flags
  ended = set-append (until_flags 0) (flags % 256) 0 _ _ (
      omega (
        arith,
        length-append (until_flags 32) (serialize_int flags),
        length-until_flags 32,
        length-until_flags 0,
      ))

-- The parser of the server reads back from a message of the client its kind, flags, path and
-- content, for lengths below 2 ^ 31, flags below 2 ^ 32 and a path without NUL.
pub new_request-payload :
    (kind : ℕ) (path bytes : List ℕ) (flags client : ℕ)
    → length path < 2 ^ 31
    → length bytes < 2 ^ 31
    → flags < 2 ^ 32
    → All (λ b. b ≢ 0) path
    → (r : Request) × (new_request (payload kind path bytes flags) client ≡ ok r)
      × (r.kind ≡ kind)
      × (r.flags ≡ flags)
      × (r.client ≡ client)
      × (r.file.pathlen ≡ length path)
      × Layout r.file path bytes
unfolding new_request payload start until_flags serialize_int
new_request-payload kind path bytes flags client hp hb hf no_nul =
    rw
      (
        read_pathlen kind path bytes flags hp,
        terminated kind path bytes flags,
        read_content_length kind path bytes flags hb,
        read_flags kind path bytes flags hf,
        ended kind path bytes flags,
      )
      (
        _,
        refl,
        refl,
        refl,
        refl,
        refl,
        record {
          before = start kind path bytes flags;
          middle = serialize_int (length bytes);
          after = after_flags kind path bytes flags;
          filled = refl;
          path_starts = refl;
          content_starts = omega (arith, length-append path (0 ∷ serialize_int (length bytes)));
          content_ends = refl;
          no_nul = no_nul;
        },
      )
