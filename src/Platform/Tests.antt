-- ===== src/Platform/Tests.antt =====
-- Runs of the platform's model, and each of its theorems at a concrete input.
use grandpa_bob.Base.{
  ℕ, ◌≡◌, refl, true, false, List, [], ◌∷◌, Option, none, some, All, length, map, ◌++◌,
}
use grandpa_bob.Base.JsMap
use grandpa_bob.Base.Text.{Text, text, split, text_eq, ends_with, at_some_tail, includes}
use grandpa_bob.Base.Text
use grandpa_bob.Platform.Paths.{
  push, up, push_all, normalize_parts, is_absolute, ends_in_sep, normalize, resolve, resolve_back,
  relative, relative_parts, dirname, basename, extname, trimmed, last_index, after_last_sep,
}
use grandpa_bob.Platform.Memory.{chars, file, dir, Nodes}
use grandpa_bob.Platform.Csv.{coerce, parse_records, text_cell, null_cell}
use grandpa_bob.Platform.Csv.Columns.{ParsedCsv, free_name, csv_headers, parse_csv}
use grandpa_bob.Platform.Csv.Columns.Named.{free_name_total, parse_csv-IsDistinct}
use grandpa_bob.Base.Distinct.{IsDistinct}
use grandpa_bob.Platform.Csv.Quoted.{write_rows, parse_records-write_rows}
use grandpa_bob.Platform.Paths.Rooted.{IsRooted, resolve-IsRooted}

relative_goes_up : relative (text "/a/b/") (text "/a/./c/d") ≡ text "../c/d"
unfolding relative relative_parts normalize_parts push_all push up split Text.join is_absolute
    text_eq
relative_goes_up = refl

resolve_starts_again :
    resolve (text "/srv" ∷ text "data/../.." ∷ [] ∷ text "../x/" ∷ []) ≡ text "/x/"
unfolding resolve resolve_back normalize normalize_parts push_all push up split Text.join
    is_absolute ends_in_sep text_eq
resolve_starts_again = refl

names_of_file : dirname (text "/a/b.tar.gz//") ≡ text "/a"
unfolding dirname trimmed last_index text_eq
names_of_file = refl

base_of_file : basename (text "/a/b.tar.gz//") (text ".gz") ≡ text "b.tar"
unfolding basename after_last_sep trimmed last_index text_eq ends_with at_some_tail
base_of_file = refl

ext_of_file : (extname (text "/a.d/.bashrc") ≡ []) × (extname (text "/a/b.tar.gz") ≡ text ".gz")
unfolding extname after_last_sep last_index text_eq
ext_of_file = (refl, refl)

abbrev names : List Text
names = normalize_parts false (split 47 (text "/a/b/../c"))

abbrev others : List Text
others = normalize_parts false (split 47 (text "/a/d"))

resolve-IsRooted_example : IsRooted (resolve (text "/srv" ∷ text "../../etc" ∷ []))
resolve-IsRooted_example = resolve-IsRooted (text "/srv" ∷ text "../../etc" ∷ [])

abbrev no_number : Text → Option Text
no_number t = none

abbrev two_rows : List (Text × List Text)
two_rows = (text "a,b", text "say \"hi\"" ∷ []) ∷ (text "1", [] ∷ []) ∷ []

parse_records-write_rows_example :
    parse_records no_number (text ",") (write_rows 44 two_rows)
    ≡ map (λ r. map (λ f. coerce no_number f true) (r.0 ∷ r.1)) two_rows
parse_records-write_rows_example = parse_records-write_rows no_number 44 two_rows refl refl

abbrev no_decode : List ℕ → Text
no_decode b = []

abbrev one_file : Nodes
one_file = (text "/a", dir 1) ∷ (text "/a/b", file (chars (text "x")) 2) ∷ []

free_name_total_example :
    (name : Text) × (free_name 3 2 (text "a") (text "a") (text "a_2" ∷ text "a" ∷ []) ≡ some name)
    × (includes (text "a_2" ∷ text "a" ∷ []) name ≡ false)
free_name_total_example = free_name_total (text "a") (text "a_2" ∷ text "a" ∷ [])

-- A file whose numbers stay text.
abbrev sheet : ParsedCsv Text
sheet = parse_csv (λ s. s) (λ s. none) (text ",") (text "a,a,,a_2" ++ 10 ∷ text "x,y" ++ 10 ∷ [])

third_name_is_free :
    csv_headers {N = Text}
      (λ s. s)
      (text_cell (text "a") ∷ text_cell (text "a") ∷ null_cell ∷ text_cell (text "a_2") ∷ [])
    ≡ text "a" ∷ text "a_2" ∷ text "col3" ∷ text "a_2_2" ∷ []
unfolding csv_headers text_eq
third_name_is_free = refl

parse_csv-IsDistinct_example :
    IsDistinct sheet.columns × All (λ cells. length cells ≡ length sheet.columns) sheet.records
parse_csv-IsDistinct_example =
    parse_csv-IsDistinct (λ s. s) (λ s. none) (text ",")
      (text "a,a,,a_2" ++ 10 ∷ text "x,y" ++ 10 ∷ [])
