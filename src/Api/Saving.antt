-- ===== src/Api/Saving.antt =====
-- writeResultsToFile of src/common/src/fileutils.c: the files that it writes, as paths with their
-- bytes; whether the disk takes them is left out.
use progetto_sistemi_operati.Base.{
  ℕ, ◌-◌, ◌||◌, List, [], ◌∷◌, ◌++◌, Bool, false, Option, none, some, length, ◌==◌, ltb,
  if◌then◌else◌, Outcome, ok, fault, ◌>>=◌,
}
use progetto_sistemi_operati.Files.Entry.{c_string}

-- A directory name with a slash at its end.
abbrev pub ends_with_slash : List ℕ → Bool
ends_with_slash [] = false
ends_with_slash (c ∷ []) = c == b'/'
ends_with_slash (c ∷ (d ∷ ds)) = ends_with_slash (d ∷ ds)

unfoldable pub with_slash : List ℕ → List ℕ
with_slash dirname = if ends_with_slash dirname then dirname else dirname ++ b'/' ∷ []

-- The dots and slashes in front are dropped.
unfoldable pub strip_front : List ℕ → List ℕ
strip_front [] = []
strip_front (c ∷ cs) = let rest = strip_front cs in if c == b'.' || c == b'/' then rest else c ∷ cs

-- The loop over the pairs of a path and a content. A path that does not fit into the buffer leaves it
-- without a NUL, and a single content is read behind the array.
unfoldable pub save_pairs : ℕ → List ℕ → List (List ℕ) → Outcome (List (List ℕ × List ℕ))
unfolding strip_front c_string
save_pairs path_max dir [] = ok []
save_pairs path_max dir (name ∷ []) = fault
save_pairs path_max dir (name ∷ (bytes ∷ cs)) =
    let inside = strip_front (c_string name) in
    let rest : Outcome (List (List ℕ × List ℕ)) =
      save_pairs path_max dir cs >>= λ saved. ok ((dir ++ inside, bytes) ∷ saved) in
    if ltb (length inside) (path_max - length dir) then rest else fault

unfoldable pub write_results_to_file :
    ℕ → Option (List ℕ) → List (List ℕ) → Outcome (List (List ℕ × List ℕ))
unfolding with_slash save_pairs
write_results_to_file path_max none cs = ok []
write_results_to_file path_max (some dirname) cs = save_pairs path_max (with_slash dirname) cs
