-- ===== src/Settings/Tests.antt =====
-- A configuration file of two lines, one that hangs, and the start without a path.
use progetto_sistemi_operati.Base.{
  ℕ, ◌+◌, ◌≡◌, refl, List, [], ◌∷◌, ◌++◌, none, length, All, arith, ok, fault, stuck,
}
use progetto_sistemi_operati.Base.Int.{pos}
use progetto_sistemi_operati.Strings.{long_of, digits_value}
use progetto_sistemi_operati.Settings.{codes, default_settings, set_option}
use progetto_sistemi_operati.Settings.Scanning.{
  scan_until, scan_line, skip_line, parse_file_arguments,
}
use progetto_sistemi_operati.Settings.Reading.{
  IsLine, print_lines, set_options, parse_file_arguments-print_lines, parse_file_arguments-hangs,
}
use progetto_sistemi_operati.Settings.Startup.{adjust, handle_configuration}

abbrev lines : List (List ℕ × List ℕ)
lines = (codes "A", codes "1") ∷ (codes "B", codes "x") ∷ []

lines_fit : All IsLine lines
lines_fit = (
  ((refl, refl), (refl, tt), omega arith, (omega arith, (refl, tt), omega arith)),
  (((refl, refl), (refl, tt), omega arith, (omega arith, (refl, tt), omega arith)), tt),
)

parse_file_arguments-print_lines_example :
    parse_file_arguments (length lines + 5) (print_lines lines []) (default_settings 128)
    ≡ ok (set_options lines (default_settings 128))
parse_file_arguments-print_lines_example =
    parse_file_arguments-print_lines lines 4 (default_settings 128) lines_fit

parse_file_arguments-hangs_example :
    parse_file_arguments
      (length lines + 9)
      (print_lines lines (b'=' ∷ codes "1"))
      (default_settings 128)
    ≡ stuck
parse_file_arguments-hangs_example =
    parse_file_arguments-hangs lines 9 (codes "1") (default_settings 128) lines_fit

-- A comment and an option.
parse_runs :
    parse_file_arguments 9 (codes "# a=b" ++ 10 ∷ codes "MAX_FILES=12") (default_settings 128)
    ≡ ok (record (default_settings 128) { max_file_count = pos 12 })
unfolding parse_file_arguments skip_line scan_line scan_until set_option long_of digits_value
    default_settings
parse_runs = refl

-- Where its own path is not found, the server keeps 128 as the number of bytes.
starts_small :
    handle_configuration 9 4096 128 (λ path. none) none none 0 ≡ ok (default_settings 128, 0)
unfolding handle_configuration
starts_small = refl

-- 2048 MB are no int.
overflows : adjust 128 (record (default_settings 128) { max_memory_size = pos 2048 }) ≡ fault
unfolding adjust
overflows = refl
