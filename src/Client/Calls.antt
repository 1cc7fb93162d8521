-- ===== src/Client/Calls.antt =====
-- The calls of src/api/include/api.h that the client makes, with the answers of a server.
use progetto_sistemi_operati.Base.{ℕ, List, [], ◌∷◌, ◌++◌, Bool, Option}
use progetto_sistemi_operati.Base.Int.{ℤ}

-- A path, and the flags, the directory or the bytes that go with it; `saves` is `writeResultsToFile`.
pub data Call : Type 0 where
  opens : List ℕ → ℕ → Option (List ℕ) → Call
  writes : List ℕ → Option (List ℕ) → Call
  closes reads locks unlocks removes : List ℕ → Call
  reads_n : ℤ → Option (List ℕ) → Call
  appends : List ℕ → List ℕ → Option (List ℕ) → Call
  saves : List ℕ → List ℕ → List ℕ → Call

-- What the server and the disk do: whether a call succeeds after those before it, and what a read
-- gives; the files of the client's own disk.
pub record Surroundings : Type 0 where
  pub succeeds : List Call → Call → Bool
  pub content_of : List Call → List ℕ → List ℕ
  pub on_disk : List ℕ → Option (List ℕ)

-- A call, and the calls so far.
module _ (w : Surroundings) where
  abbrev pub perform : Call → List Call → Bool × List Call
  perform c past = (w.succeeds past c, past ++ c ∷ [])
