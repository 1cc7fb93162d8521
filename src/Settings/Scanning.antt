-- ===== src/Settings/Scanning.antt =====
-- parseFileArguments of src/server/src/args.c, and the `fscanf` that it uses.
use progetto_sistemi_operati.Base.{
  ℕ, zero, suc, List, [], ◌∷◌, true, false, Option, none, some, ◌==◌, if◌then◌else◌, Outcome, ok,
  stuck,
}
use progetto_sistemi_operati.Strings.{skip_spaces}
use progetto_sistemi_operati.Settings.{Settings, set_option}

-- `%<width>[^<stop>]`: at most `width` bytes up to the byte `stop`, and what follows them.
unfoldable pub scan_until : ℕ → ℕ → List ℕ → List ℕ × List ℕ
scan_until stop zero s = ([], s)
scan_until stop (suc width) [] = ([], [])
scan_until stop (suc width) (c ∷ cs) =
    let (item, rest) = scan_until stop width cs in
    if c == stop then ([], c ∷ cs) else (c ∷ item, rest)

-- Both items and what is left; an empty value leaves what stands behind the `=`.
abbrev pub both_items : List ℕ → List ℕ → List ℕ × List ℕ → Option (List ℕ × List ℕ) × List ℕ
both_items option s ([], rest) = (none, s)
both_items option s (c ∷ cs, rest) = (some (option, c ∷ cs), skip_spaces rest)

unfoldable pub scan_equals : List ℕ → List ℕ → Option (List ℕ × List ℕ) × List ℕ
scan_equals option [] = (none, [])
scan_equals option (c ∷ cs) =
    if c == b'=' then both_items option cs (scan_until 10 127 cs) else (none, c ∷ cs)

-- An empty option matches nothing and leaves everything.
abbrev pub from_option : List ℕ → List ℕ × List ℕ → Option (List ℕ × List ℕ) × List ℕ
from_option s ([], rest) = (none, s)
from_option s (c ∷ cs, rest) = scan_equals (c ∷ cs) rest

-- `fscanf(configFile, "%127[^=]=%127[^\n] ", option, value)`: both items, if it returns 2, and what
-- is left of the file.
unfoldable pub scan_line : List ℕ → Option (List ℕ × List ℕ) × List ℕ
unfolding scan_equals
scan_line s = from_option s (scan_until b'=' 127 s)

-- `fscanf(configFile, "%*[^\n]\n")`
unfoldable pub skip_line : List ℕ → List ℕ
unfolding skip_spaces
skip_line [] = []
skip_line (c ∷ cs) = let rest = skip_line cs in if c == 10 then skip_spaces (c ∷ cs) else rest

abbrev pub apply_option : Option (List ℕ × List ℕ) → Settings → Settings
apply_option none s = s
apply_option (some (option, value)) s = set_option option value s

-- The loop up to the end of the file, on fuel.
unfoldable pub parse_file_arguments : ℕ → List ℕ → Settings → Outcome Settings
parse_file_arguments zero file s = stuck
parse_file_arguments (suc fuel) [] s = ok s
parse_file_arguments (suc fuel) (c ∷ cs) s = elim (c == b'#') [
  | true ↦ parse_file_arguments fuel (skip_line (c ∷ cs)) s
  | false ↦
      let (found, rest) = scan_line (c ∷ cs) in
      parse_file_arguments fuel rest (apply_option found s)
]
