-- ===== src/Files/Asked/Opening.antt =====
-- The requests kept by filesystem_openFile of files.c, and what it calls.
use mathlib.Core.Option
use progetto_sistemi_operati.Base.{
  Gives, >>=-Gives, Gives-any, Gives-map, if-both-Gives, ℕ, ◌+◌, ◌<◌, ◌≡◌, ◌≢◌, refl, inl, inr, ◌⊎◌,
  ap, sym, ◌∙◌, List, ◌∷◌, Bool, true, false, Option, none, some, arith, ◌&&◌, ◌||◌, not,
  Bool-cases, Option-cases, Outcome, ok, ◌>>=◌, if◌then◌else◌,
}
use progetto_sistemi_operati.Caching.Config.{Config}
use progetto_sistemi_operati.Caching.Policy.{handle_insertion, handle_usage}
use progetto_sistemi_operati.Files.Entry.{pathname, bucket_of, hashtable_size, empty_file}
use progetto_sistemi_operati.Files.Waiting.{Request, HashEntry, new_hash_entry}
use progetto_sistemi_operati.Files.Waiting.Fifo.{new_hash_entry-IsValid}
use progetto_sistemi_operati.Files.State.{
  Server, update, set_file, length_of, get_hash_entry_ref, get_file_entry_ref, put_file_entry_ref,
}
use progetto_sistemi_operati.Files.Locks.{Status, done, waiting, failed, lockfile}
use progetto_sistemi_operati.Files.Operations.Open.{
  remove_expelled, create_file, mark_opened, finish_open, lock_and_open, open_at,
  filesystem_open_file, is_none, o_create, o_lock,
}
use progetto_sistemi_operati.Files.Asked.{
  asked, in_bucket, AllValid-update, Grows, Keeps, Keeps-refl, Keeps-trans, Grows-Keeps, same-Keeps,
}
use progetto_sistemi_operati.Files.Asked.Locking.{
  more, bucket_of-small, remove_hash_entry_ref-Keeps, lockfile-Grows, lockfile-found,
}
use progetto_sistemi_operati.Threads.Counts.{total-assign}

new_entry-Keeps :
    (p index : ℕ) (s : Server)
    → index < hashtable_size
    → Keeps s (record s { table = update s.table index (new_hash_entry p ∷ s.table index) })
new_entry-Keeps p index s small =
    let (valid, empty) = new_hash_entry-IsValid p in
    record {
      valid = λ v. AllValid-update s.table index _ v (valid, v index);
      bound = λ v c. omega (
        arith,
        total-assign (in_bucket c) hashtable_size s.table index (new_hash_entry p ∷ s.table index)
            small,
        ap (asked c) empty,
      );
    }

put_file_entry_ref-Keeps :
    (p index : ℕ) (s : Server) → index < hashtable_size → Keeps s (put_file_entry_ref p index s).1
unfolding put_file_entry_ref
put_file_entry_ref-Keeps p index s small =
    let s' = set_file p (record (s.heap p) { owner = none }) s in
    let same = same-Keeps s s' refl refl in
    elim (Option-cases (get_file_entry_ref s' (pathname (s'.heap p)) index)) [
      | inl missing ↦
          rw (missing, put_file_entry_ref) (Keeps-trans same (new_entry-Keeps p index s' small))
      | inr (q, there) ↦ rw (there, put_file_entry_ref) same
    ]

remove_expelled-Keeps : (o : Option ℕ) (s : Server) → Keeps s (remove_expelled o s)
unfolding remove_expelled
remove_expelled-Keeps none s = Keeps-refl s
remove_expelled-Keeps (some q) s =
    remove_hash_entry_ref-Keeps _ _ s (bucket_of-small (pathname (s.heap q)))

create_file-Keeps :
    (cfg : Config) (path : List ℕ) (s : Server)
    → Gives (λ (t : Bool × Option ℕ × Server). Keeps s t.2) (create_file cfg path s)
unfolding create_file
create_file-Keeps cfg path s =
    let p = s.fresh in
    let s' = record s { heap = update s.heap p (empty_file path); fresh = p + 1 } in
    let t = put_file_entry_ref p (bucket_of path) s' in
    let put : Keeps s t.1 =
      Keeps-trans (same-Keeps s s' refl refl)
        (put_file_entry_ref-Keeps p (bucket_of path) s' (bucket_of-small path)) in
    elim (Bool-cases t.0) [
      | inl new ↦ rw new (
          >>=-Gives (λ r. Unit) (λ (u : Bool × Option ℕ × Server). Keeps s u.2)
            (handle_insertion cfg (length_of t.1) p t.1.cache) _ (Gives-any _)
            (λ r u. Keeps-trans put (
              Keeps-trans (same-Keeps t.1 (record t.1 { cache = r.0 }) refl refl)
                (remove_expelled-Keeps r.1 _))))
      | inr old ↦ rw old put
    ]

mark_opened-Keeps :
    (d : Option ℕ) (path : List ℕ) (writable : Bool) (fd : ℕ) (s : Server)
    → Gives (Keeps s) (mark_opened d path writable fd s)
unfolding mark_opened
mark_opened-Keeps none path writable fd s = tt
mark_opened-Keeps (some d) path writable fd s = same-Keeps s _ refl refl

module _ (cfg : Config) (d : Option ℕ) (path : List ℕ) (flags : ℕ) where
  -- The result is the one before, or there is no such file.
  abbrev Finished : Status → Server → Status × Server → Type 0
  Finished result s t =
      Keeps s t.1
      × ((t.0 ≡ result) ⊎ ((t.0 ≡ failed) × (get_file_entry_ref s path (bucket_of path) ≡ none)))

  finish_open-Finished :
      (fd : ℕ) (result : Status) (s : Server)
      → Gives (Finished result s) (finish_open cfg d path flags fd result s)
  unfolding finish_open
  finish_open-Finished fd result s =
      elim (Option-cases (get_file_entry_ref s path (bucket_of path))) [
        | inl missing ↦ rw (missing, finish_open) (Keeps-refl s, inr (refl, missing))
        | inr (p, found) ↦
            rw (found, finish_open)
              (>>=-Gives (λ c. Unit) (Finished result s) (handle_usage cfg p s.cache) _
                (Gives-any _)
                (λ cache u.
                  >>=-Gives (Keeps (record s { cache = cache })) (Finished result s)
                    (mark_opened d path (o_create flags && o_lock flags) fd
                      (record s { cache = cache }))
                    (λ t. ok (result, t))
                    (mark_opened-Keeps d path (o_create flags && o_lock flags) fd
                      (record s { cache = cache }))
                    (λ t k. (
                      Keeps-trans (same-Keeps s (record s { cache = cache }) refl refl) k,
                      inl refl,
                    ))))
      ]

  abbrev Opened : Request → Server → Status × Server → Type 0
  Opened r s t = Grows (more t.0 r.client) s t.1

  Finished-failed :
      (r : Request) (s : Server) (t : Status × Server) → Finished failed s t → Opened r s t
  Finished-failed r s (done, t) (k, e) = k
  Finished-failed r s (waiting, t) (k, inl e) = cc
  Finished-failed r s (waiting, t) (k, inr (e, m)) = cc
  Finished-failed r s (failed, t) (k, e) = k

  Finished-done :
      (r : Request) (s : Server) (t : Status × Server) → Finished done s t → Opened r s t
  Finished-done r s (done, t) (k, e) = k
  Finished-done r s (waiting, t) (k, inl e) = cc
  Finished-done r s (waiting, t) (k, inr (e, m)) = cc
  Finished-done r s (failed, t) (k, e) = k

  Finished-waiting :
      (r : Request) (s u : Server)
      → Grows (more waiting r.client) s u
      → get_file_entry_ref u path (bucket_of path) ≢ none
      → (t : Status × Server) → Finished waiting u t
      → Opened r s t
  Finished-waiting r s u g there (waiting, t) (k, e) = Grows-Keeps g k
  Finished-waiting r s u g there (done, t) (k, inl e) = cc
  Finished-waiting r s u g there (done, t) (k, inr (e, m)) = cc
  Finished-waiting r s u g there (failed, t) (k, inl e) = cc
  Finished-waiting r s u g there (failed, t) (k, inr (e, m)) = absurd (there m)

  locked-Opened :
      (r : Request) (s : Server) (l : Status × Server)
      → Grows (more l.0 r.client) s l.1
      → (l.0 ≡ waiting → get_file_entry_ref l.1 path (bucket_of path) ≢ none)
      → Gives (Opened r s) (elim l.0 [
        | done ↦ finish_open cfg d path flags r.client done l.1
        | waiting ↦ finish_open cfg d path flags r.client waiting l.1
        | failed ↦ ok (failed, l.1)
      ])
  locked-Opened r s (done, u) g there =
      Gives-map (Finished done u) (Opened r s) _ (λ t f. Keeps-trans g (Finished-done r u t f))
        (finish_open-Finished r.client done u)
  locked-Opened r s (waiting, u) g there =
      Gives-map (Finished waiting u) (Opened r s) _ (Finished-waiting r s u g (there refl))
        (finish_open-Finished r.client waiting u)
  locked-Opened r s (failed, u) g there = g

  found-file :
      (u : Server)
      → (h : HashEntry) × (get_hash_entry_ref u path (bucket_of path) ≡ some h)
      → get_file_entry_ref u path (bucket_of path) ≢ none
  unfolding get_file_entry_ref
  found-file u (h, found) missing =
      let same : Option.map (λ (k : HashEntry). k.file) (some h) ≡ none =
        sym (ap (Option.map (λ k. k.file)) found) ∙ missing in
      cc

  lock_and_open-Opened :
      (r : Request) (failed_before : Bool) (s : Server)
      → Gives (Opened r s) (lock_and_open cfg d r path flags failed_before s)
  unfolding lock_and_open
  lock_and_open-Opened r true s = Keeps-refl s
  lock_and_open-Opened r false s =
      let b = bucket_of path in
      if-both-Gives (Opened r s) (o_lock flags) _ _
        (locked-Opened r s (lockfile r path b s) (lockfile-Grows r path b s (bucket_of-small path))
          (λ e.
            found-file (lockfile r path b s).1
              (lockfile-found r path b s (bucket_of-small path) e)))
        (Gives-map (Finished done s) (Opened r s) _ (Finished-done r s)
          (finish_open-Finished r.client done s))

open_at-Grows :
    (cfg : Config) (r : Request) (path : List ℕ) (flags : ℕ) (d : Option ℕ) (opened missing : Bool)
    (s : Server)
    → Gives
        (λ (t : Status × Option ℕ × Server). Grows (more t.0 r.client) s t.2)
        (open_at cfg r path flags d opened missing s)
unfolding open_at
open_at-Grows cfg r path flags d opened missing s =
    let failed₀ = opened && o_create flags || is_none d in
    let plain : Outcome (Bool × Option ℕ × Server) = ok (failed₀ && missing, none, s) in
    >>=-Gives (λ (p : Bool × Option ℕ × Server). Keeps s p.2)
      (λ (t : Status × Option ℕ × Server). Grows (more t.0 r.client) s t.2)
      (if o_create flags && not failed₀ then create_file cfg path s else plain)
      (λ p. lock_and_open cfg d r path flags p.0 p.2 >>= λ t. ok (t.0, p.1, t.1))
      (if-both-Gives (λ (p : Bool × Option ℕ × Server). Keeps s p.2) (o_create flags && not failed₀)
        (create_file cfg path s) plain (create_file-Keeps cfg path s) (Keeps-refl s))
      (λ p k.
        >>=-Gives (Opened cfg d path flags r p.2)
          (λ (t : Status × Option ℕ × Server). Grows (more t.0 r.client) s t.2)
          (lock_and_open cfg d r path flags p.0 p.2) (λ t. ok (t.0, p.1, t.1))
          (lock_and_open-Opened cfg d path flags r p.0 p.2) (λ t g. Keeps-trans k g))

pub filesystem_open_file-Grows :
    (cfg : Config) (r : Request) (path : List ℕ) (flags : ℕ) (s : Server)
    → Gives
        (λ (t : Status × Option ℕ × Server). Grows (more t.0 r.client) s t.2)
        (filesystem_open_file cfg r path flags s)
unfolding filesystem_open_file
filesystem_open_file-Grows cfg r path flags s = open_at-Grows cfg r path flags _ _ _ s
