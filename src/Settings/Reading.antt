-- ===== src/Settings/Reading.antt =====
-- What parseFileArguments of src/server/src/args.c makes of a configuration file.
use native.Mathlib.Nat.{zero-add}
use progetto_sistemi_operati.Base.{
  ℕ, zero, suc, ◌+◌, ◌≤◌, ◌<◌, ◌≡◌, refl, ap, ◌∙◌, List, [], ◌∷◌, ◌++◌, false, some, length, All,
  ◌==◌, arith, ok, stuck,
}
use progetto_sistemi_operati.Strings.{is_space, skip_spaces}
use progetto_sistemi_operati.Settings.{Settings, set_option}
use progetto_sistemi_operati.Settings.Scanning.{
  scan_until, both_items, scan_equals, from_option, scan_line, apply_option, parse_file_arguments,
}

-- Lines OPTION=VALUE in front of the rest of a file.
unfoldable pub print_lines : List (List ℕ × List ℕ) → List ℕ → List ℕ
print_lines [] rest = rest
print_lines ((option, value) ∷ ls) rest = option ++ b'=' ∷ (value ++ 10 ∷ print_lines ls rest)

-- One option after the other is set.
unfoldable pub set_options : List (List ℕ × List ℕ) → Settings → Settings
set_options [] s = s
set_options ((option, value) ∷ ls) s = set_options ls (set_option option value s)

-- No byte of a part ends it.
abbrev pub Without : ℕ → List ℕ → Type 0
Without stop = All (λ c. (c == stop) ≡ false)

-- The first byte of an option is no white space and no `#`.
abbrev pub Starts : List ℕ → Type 0
Starts [] = ⊥
Starts (c ∷ cs) = (is_space c ≡ false) × ((c == b'#') ≡ false)

abbrev pub IsLine : List ℕ × List ℕ → Type 0
IsLine (option, value) =
    Starts option
    × Without b'=' option
    × (length option ≤ 127)
    × ((0 < length value) × Without 10 value × (length value ≤ 127))

scan_until-part :
    (stop width : ℕ) (part rest : List ℕ)
    → Without stop part
    → length part ≤ width
    → scan_until stop width (part ++ stop ∷ rest) ≡ (part, stop ∷ rest)
unfolding scan_until
scan_until-part stop zero [] rest h le = refl
scan_until-part stop (suc width) [] rest h le = ground arith
scan_until-part stop zero (c ∷ cs) rest h le = absurd (omega arith)
scan_until-part stop (suc width) (c ∷ cs) rest (ne, h) le =
    rw (ne, scan_until-part stop width cs rest h (omega arith)) refl

-- The rest of a file that does not start with white space.
abbrev pub Visible : List ℕ → Type 0
Visible [] = Unit
Visible (c ∷ cs) = is_space c ≡ false

skip_spaces-lines :
    (ls : List (List ℕ × List ℕ)) (rest : List ℕ)
    → All IsLine ls
    → Visible rest
    → skip_spaces (10 ∷ print_lines ls rest) ≡ print_lines ls rest
unfolding skip_spaces print_lines
skip_spaces-lines [] [] h v = refl
skip_spaces-lines [] (c ∷ cs) h v = rw v refl
skip_spaces-lines (([], value) ∷ ls) rest (line, h) v = elim line.0 [ ]
skip_spaces-lines ((c ∷ cs, value) ∷ ls) rest (line, h) v = rw line.0.0 refl

first_line :
    (c : ℕ) (cs : List ℕ) (fuel : ℕ) (s : Settings)
    → (c == b'#') ≡ false
    → parse_file_arguments (suc fuel) (c ∷ cs) s
      ≡ parse_file_arguments fuel (scan_line (c ∷ cs)).1 (apply_option (scan_line (c ∷ cs)).0 s)
unfolding parse_file_arguments
first_line c cs fuel s ne = rw (ne, parse_file_arguments) refl

scan_line-line :
    (option value : List ℕ) (ls : List (List ℕ × List ℕ)) (rest : List ℕ)
    → IsLine (option, value)
    → All IsLine ls
    → Visible rest
    → scan_line (print_lines ((option, value) ∷ ls) rest)
      ≡ (some (option, value), print_lines ls rest)
unfolding scan_line scan_equals print_lines
scan_line-line [] value ls rest line h vis = elim line.0 [ ]
scan_line-line (o ∷ os) [] ls rest line h vis = elim line.3.0 [ ]
scan_line-line (o ∷ os) (v ∷ vs) ls rest line h vis =
    let tail = v ∷ (vs ++ 10 ∷ print_lines ls rest) in
    let first = scan_until-part b'=' 127 (o ∷ os) tail line.1 line.2 in
    let second = scan_until-part 10 127 (v ∷ vs) (print_lines ls rest) line.3.1 line.3.2 in
    ap (from_option (o ∷ (os ++ b'=' ∷ tail))) first
    ∙ ap (both_items (o ∷ os) tail) second
    ∙ ap (λ r. (some (o ∷ os, v ∷ vs), r)) (skip_spaces-lines ls rest h vis)

-- Each line takes one round.
parse-lines :
    (ls : List (List ℕ × List ℕ)) (rest : List ℕ) (fuel : ℕ) (s : Settings)
    → All IsLine ls
    → Visible rest
    → parse_file_arguments (length ls + fuel) (print_lines ls rest) s
      ≡ parse_file_arguments fuel rest (set_options ls s)
unfolding parse_file_arguments set_options print_lines
parse-lines [] rest fuel s h vis = ap (λ n. parse_file_arguments n rest s) (zero-add fuel)
parse-lines (([], value) ∷ ls) rest fuel s (line, h) vis = elim line.0 [ ]
parse-lines ((o ∷ os, value) ∷ ls) rest fuel s (line, h) vis =
    let more : suc (length ls) + fuel ≡ suc (length ls + fuel) = omega arith in
    let text = o ∷ (os ++ b'=' ∷ (value ++ 10 ∷ print_lines ls rest)) in
    ap (λ n. parse_file_arguments n text s) more
    ∙ first_line o (os ++ b'=' ∷ (value ++ 10 ∷ print_lines ls rest)) (length ls + fuel) s line.0.1
    ∙ ap (λ r. parse_file_arguments (length ls + fuel) r.1 (apply_option r.0 s))
        (scan_line-line (o ∷ os) value ls rest line h vis)
    ∙ parse-lines ls rest fuel (set_option (o ∷ os) value s) h vis

-- parseFileArguments, on a file of lines OPTION=VALUE of at most 127 bytes each, whose options
-- have no = and do not start with white space, # or =, sets the options in order and ends.
pub parse_file_arguments-print_lines :
    (ls : List (List ℕ × List ℕ)) (fuel : ℕ) (s : Settings)
    → All IsLine ls
    → parse_file_arguments (length ls + suc fuel) (print_lines ls []) s ≡ ok (set_options ls s)
parse_file_arguments-print_lines ls fuel s h =
    parse-lines ls [] (suc fuel) s h tt ∙ unfold parse_file_arguments in refl

same_line :
    (fuel : ℕ) (file : List ℕ) (s : Settings) → parse_file_arguments fuel (b'=' ∷ file) s ≡ stuck
unfolding parse_file_arguments scan_line scan_until
same_line zero file s = refl
same_line (suc fuel) file s = same_line fuel file s

-- parseFileArguments never ends if a line that starts with = follows such lines.
pub parse_file_arguments-hangs :
    (ls : List (List ℕ × List ℕ)) (fuel : ℕ) (file : List ℕ) (s : Settings)
    → All IsLine ls
    → parse_file_arguments (length ls + fuel) (print_lines ls (b'=' ∷ file)) s ≡ stuck
parse_file_arguments-hangs ls fuel file s h =
    parse-lines ls (b'=' ∷ file) fuel s h refl ∙ same_line fuel file (set_options ls s)
