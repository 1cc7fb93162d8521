-- ===== src/Files/Operations/Open.antt =====
-- src/server/src/files.c: opening, creating and reading files.
use progetto_sistemi_operati.Base.{
  ℕ, zero, suc, ◌+◌, ◌-◌, ◌%◌, ◌/◌, List, [], ◌∷◌, Bool, true, false, not, ◌&&◌, ◌||◌, Option, none,
  some, set, ltb, leb, ◌^◌, ◌==◌, if◌then◌else◌, Outcome, ok, fault, ◌>>=◌,
}
use progetto_sistemi_operati.Session.{Session, is_file_opened, get_free_file_descriptor}
use progetto_sistemi_operati.Caching.Config.{Config}
use progetto_sistemi_operati.Caching.State.{Cache, slot}
use progetto_sistemi_operati.Caching.Policy.{handle_insertion, handle_usage}
use progetto_sistemi_operati.Files.Entry.{FileEntry, pathname, bucket_of, empty_file}
use progetto_sistemi_operati.Files.Waiting.{Request}
use progetto_sistemi_operati.Files.State.{
  Server, update, length_of, set_session, get_file_entry_ref, put_file_entry_ref,
}
use progetto_sistemi_operati.Files.Locks.{
  Status, done, waiting, failed, lockfile, remove_hash_entry_ref,
}

-- `flags & O_CREATE` and `flags & O_LOCK`
abbrev pub o_create : ℕ → Bool
o_create flags = flags % 2 == 1

abbrev pub o_lock : ℕ → Bool
o_lock flags = flags / 2 % 2 == 1

abbrev pub is_none {ℓ} : {A : Type ℓ} → Option A → Bool
is_none none = true
is_none (some a) = false

-- The descriptor of `filesystem_openFile`: the path's own, or a free one.
unfoldable pub choose_descriptor : Session → List ℕ → Option ℕ
unfolding is_file_opened get_free_file_descriptor
choose_descriptor c path = elim (is_file_opened c path) [
  | some i ↦ some i
  | none ↦ get_free_file_descriptor c
]

-- The file that an insertion expels leaves the table too.
unfoldable pub remove_expelled : Option ℕ → Server → Server
unfolding remove_hash_entry_ref
remove_expelled none s = s
remove_expelled (some q) s =
    remove_hash_entry_ref (pathname (s.heap q)) (bucket_of (pathname (s.heap q))) s

-- The branch of `filesystem_openFile` that creates the file: whether it failed, and what it expelled.
unfoldable pub create_file : Config → List ℕ → Server → Outcome (Bool × Option ℕ × Server)
unfolding put_file_entry_ref empty_file remove_expelled
create_file cfg path s =
    let p = s.fresh in
    let s' = record s { heap = update s.heap p (empty_file path); fresh = p + 1 } in
    let (put, t) = put_file_entry_ref p (bucket_of path) s' in
    let inserted : Outcome (Bool × Option ℕ × Server) =
      handle_insertion cfg (length_of t) p t.cache >>= λ r.
      ok (false, r.1, remove_expelled r.1 (record t { cache = r.0 })) in
    let refused : Outcome (Bool × Option ℕ × Server) = ok (true, none, t) in
    if put then inserted else refused

-- The file is marked as opened in the session; descriptor -1 is out of the arrays.
unfoldable pub mark_opened : Option ℕ → List ℕ → Bool → ℕ → Server → Outcome Server
mark_opened none path writable fd s = fault
mark_opened (some d) path writable fd s =
    let c = s.sessions fd in
    ok (
      set_session fd
        (record c {
          opened_files = set c.opened_files d (some path);
          can_write_on_file =
              if writable then set c.can_write_on_file d true else c.can_write_on_file;
        })
        s)

-- The end of `filesystem_openFile`, for an open that has not failed so far.
unfoldable pub finish_open :
    Config → Option ℕ → List ℕ → ℕ → ℕ → Status → Server → Outcome (Status × Server)
unfolding mark_opened get_file_entry_ref
finish_open cfg descriptor path flags fd result s =
    elim (get_file_entry_ref s path (bucket_of path)) [
      | none ↦ ok (failed, s)
      | some p ↦ handle_usage cfg p s.cache >>= λ cache.
          mark_opened descriptor path (o_create flags && o_lock flags) fd
            (record s { cache = cache })
          >>= λ t. ok (result, t)
    ]

-- The middle of it: take the lock, if that is asked for.
unfoldable pub lock_and_open :
    Config → Option ℕ → Request → List ℕ → ℕ → Bool → Server → Outcome (Status × Server)
unfolding finish_open lockfile
lock_and_open cfg descriptor r path flags true s = ok (failed, s)
lock_and_open cfg descriptor r path flags false s =
    let locked = lockfile r path (bucket_of path) s in
    let go : Outcome (Status × Server) = elim locked.0 [
      | done ↦ finish_open cfg descriptor path flags r.client done locked.1
      | waiting ↦ finish_open cfg descriptor path flags r.client waiting locked.1
      | failed ↦ ok (failed, locked.1)
    ] in
    if o_lock flags then go else (finish_open cfg descriptor path flags r.client done s)

-- `filesystem_openFile` from its descriptor on, given whether the client has opened the path and
-- whether there is no such file. The `&&` of the plain branch is the code's.
unfoldable pub open_at :
    Config
    → Request
    → List ℕ
    → ℕ
    → Option ℕ
    → Bool
    → Bool
    → Server
    → Outcome (Status × Option ℕ × Server)
unfolding create_file lock_and_open
open_at cfg r path flags descriptor opened missing s =
    let failed₀ = opened && o_create flags || is_none descriptor in
    let plain : Outcome (Bool × Option ℕ × Server) = ok (failed₀ && missing, none, s) in
    (if o_create flags && not failed₀ then create_file cfg path s else plain) >>= λ prepared.
    lock_and_open cfg descriptor r path flags prepared.0 prepared.2 >>= λ t.
    ok (t.0, prepared.1, t.1)

-- `filesystem_openFile`: the result, the file expelled, and the state.
unfoldable pub filesystem_open_file :
    Config → Request → List ℕ → ℕ → Server → Outcome (Status × Option ℕ × Server)
unfolding choose_descriptor open_at
filesystem_open_file cfg r path flags s =
    open_at cfg r path flags (choose_descriptor (s.sessions r.client) path)
      (not (is_none (is_file_opened (s.sessions r.client) path)))
      (is_none (get_file_entry_ref s path (bucket_of path))) s

-- `filesystem_get_fileEntry`: a copy of the file, if it exists.
unfoldable pub filesystem_get_file_entry :
    Config → List ℕ → Server → Outcome (Option FileEntry × Server)
unfolding get_file_entry_ref
filesystem_get_file_entry cfg path s = elim (get_file_entry_ref s path (bucket_of path)) [
  | none ↦ ok (none, s)
  | some p ↦
      handle_usage cfg p s.cache >>= λ cache. ok (some (s.heap p), record s { cache = cache })
]

unfoldable pub filesystem_file_exists : List ℕ → Server → Bool
unfolding get_file_entry_ref
filesystem_file_exists path s = not (is_none (get_file_entry_ref s path (bucket_of path)))

-- The reservoir sampling of `filesystem_get_n_fileEntry`: rounds `i` to `count`, with the values of
-- `rand` as a list that lasts long enough.
unfoldable pub sample : ℕ → ℕ → ℕ → List ℕ → List ℕ → List ℕ
sample zero i n rand elements = elements
sample (suc left) i n [] elements = elements
sample (suc left) i n (r ∷ rand) elements =
    sample left (i + 1) n rand (if ltb (r % i) n then set elements (r % i) i else elements)

unfoldable pub count_from : ℕ → ℕ → List ℕ
count_from i zero = []
count_from i (suc n) = i ∷ count_from (i + 1) n

-- The indices into the cache that the sampling gives.
unfoldable pub chosen : Cache → ℕ → List ℕ → List ℕ
unfolding sample count_from
chosen c n rand =
    let m = if n == 0 || ltb c.count n then c.count else n in
    sample (c.count - m) m m rand (count_from 0 m)

-- The copying loop: the slots are those of the ring as it is at each round, the head is the old one,
-- and the index is reduced modulo `configs.maxFileCount`, as the code has it.
unfoldable pub read_chosen : Config → ℕ → List ℕ → Server → Outcome (List FileEntry × Server)
read_chosen cfg head [] s = ok ([], s)
read_chosen cfg head (e ∷ es) s =
    let p = slot s.cache.slots ((head + e) % cfg.max_file_count) in
    handle_usage cfg p s.cache >>= λ cache.
    read_chosen cfg head es (record s { cache = cache }) >>= λ r. ok (s.heap p ∷ r.0, r.1)

-- `n` is the int as its 32 bits: a negative one is the length of an array. (An `n` of 0 counts all.)
unfoldable pub filesystem_get_n_file_entry :
    Config → ℕ → List ℕ → Server → Outcome (List FileEntry × Server)
unfolding chosen read_chosen
filesystem_get_n_file_entry cfg n rand s =
    if leb (2 ^ 31) n then fault else read_chosen cfg s.cache.head (chosen s.cache n rand) s
