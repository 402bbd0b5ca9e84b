-- ===== src/Platform/Csv/Columns.antt =====
-- web/src/platform/csv.ts: the names of the columns, and a whole file. `show_number` is `String(n)` of
-- a number in a cell.
pub mod Named
use grandpa_bob.Base.{
  ℕ, zero, suc, ◌+◌, Option, none, some, List, [], ◌∷◌, ◌++◌, map, if◌then◌else◌, get_or, length,
}
use grandpa_bob.Base.Text.{Text, text, text_eq, trim, includes}
use grandpa_bob.Base.Decimal.{decimal}
use grandpa_bob.Platform.Csv.{
  Cell, null_cell, number_cell, text_cell, strip_bom, parse_records, fit,
}

unfoldable pub cell_text : {N : Type 0} → (N → Text) → Cell N → Text
cell_text show_number null_cell = []
cell_text show_number (number_cell n) = show_number n
cell_text show_number (text_cell s) = s

-- The name of the `i`-th column before it is made unique.
unfoldable pub base_name : ℕ → Text → Text
unfolding strip_bom trim decimal
base_name i raw =
    let trimmed = trim (strip_bom raw) in
    if text_eq trimmed [] then text "col" ++ decimal (i + 1) else trimmed

unfoldable pub numbered_name : Text → ℕ → Text
unfolding decimal
numbered_name base n = base ++ 95 ∷ decimal n

-- The loop over `n`, as long as there is fuel: `none` if no name was free.
unfoldable pub free_name : ℕ → ℕ → Text → Text → List Text → Option Text
unfolding numbered_name
free_name zero n base name used = none
free_name (suc fuel) n base name used =
    let rest = free_name fuel (n + 1) base (numbered_name base n) used in
    if includes used name then rest else some name

-- One try more than there are names in use is enough.
unfoldable pub unique_name : Text → List Text → Text
unfolding free_name
unique_name base used = get_or (free_name (length used + 1) 2 base base used) base

unfoldable pub names_from : {N : Type 0} → (N → Text) → ℕ → List (Cell N) → List Text → List Text
unfolding unique_name base_name cell_text
names_from show_number i [] used = []
names_from show_number i (cell ∷ cells) used =
    let name = unique_name (base_name i (cell_text show_number cell)) used in
    name ∷ names_from show_number (i + 1) cells (name ∷ used)

unfoldable pub csv_headers : {N : Type 0} → (N → Text) → List (Cell N) → List Text
unfolding names_from
csv_headers show_number first = names_from show_number 0 first []

pub record ParsedCsv (N : Type 0) : Type 0 where
  pub columns : List Text
  pub records : List (List (Cell N))

unfoldable pub with_headers :
    {N : Type 0} → (N → Text) → (Text → Option N) → List (List (Cell N)) → ParsedCsv N
unfolding csv_headers fit
with_headers show_number safe_number [] = record { columns = []; records = [] }
with_headers show_number safe_number (first ∷ rows) =
    let columns = csv_headers show_number first in
    record { columns = columns; records = map (fit safe_number (length columns)) rows }

unfoldable pub parse_csv : {N : Type 0} → (N → Text) → (Text → Option N) → Text → Text → ParsedCsv N
unfolding with_headers parse_records
parse_csv show_number safe_number delimiter body =
    with_headers show_number safe_number (parse_records safe_number delimiter body)
