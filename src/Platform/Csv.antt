-- ===== src/Platform/Csv.antt =====
-- web/src/platform/csv.ts: the parser of delimited files. `Number(raw)`, where it is finite and at
-- most `Number.MAX_SAFE_INTEGER`, is the parameter `safe_number`. The flag `skip` says that the next
-- unit was read together with this one.
pub mod Quoted
pub mod Columns
use grandpa_bob.Base.{
  ℕ, zero, suc, ◌+◌, ◌-◌, Bool, true, false, not, ◌&&◌, ◌||◌, Option, none, some, List, [], ◌∷◌,
  ◌++◌, map, leb, ◌==◌, if◌then◌else◌, length, take,
}
use grandpa_bob.Base.Text.{Text, text_eq}

pub data Cell (N : Type 0) : Type 0 where
  null_cell : Cell N
  number_cell : N → Cell N
  text_cell : Text → Cell N

unfoldable pub is_digit : ℕ → Bool
is_digit c = leb 48 c && leb c 57

-- What is left after the digits at the front.
unfoldable pub after_digits : Text → Text
unfolding is_digit
after_digits [] = []
after_digits (c ∷ s) = let rest = after_digits s in if is_digit c then rest else c ∷ s

unfoldable pub starts_digit : Text → Bool
unfolding is_digit
starts_digit [] = false
starts_digit (c ∷ s) = is_digit c

-- `[+-]?\d+` to the end
unfoldable pub is_exponent : Text → Bool
unfolding starts_digit after_digits
is_exponent [] = false
is_exponent (c ∷ s) =
    if c == 43 || c == 45
    then starts_digit s && text_eq (after_digits s) []
    else starts_digit (c ∷ s) && text_eq (after_digits (c ∷ s)) []

-- `(?:[eE][+-]?\d+)?` to the end
unfoldable pub is_scale : Text → Bool
unfolding is_exponent
is_scale [] = true
is_scale (c ∷ s) = (c == 101 || c == 69) && is_exponent s

-- `(?:\.\d+)?` and what follows
unfoldable pub is_fraction : Text → Bool
unfolding is_scale starts_digit after_digits
is_fraction [] = true
is_fraction (c ∷ s) =
    if c == 46 then starts_digit s && is_scale (after_digits s) else is_scale (c ∷ s)

-- `(?:0|[1-9]\d*)` and what follows
unfoldable pub is_magnitude : Text → Bool
unfolding is_fraction starts_digit after_digits
is_magnitude [] = false
is_magnitude (c ∷ s) =
    if c == 48 then is_fraction s else starts_digit (c ∷ s) && is_fraction (after_digits s)

-- `NUMBER`
unfoldable pub is_number : Text → Bool
unfolding is_magnitude
is_number [] = false
is_number (c ∷ s) = if c == 45 then is_magnitude s else is_magnitude (c ∷ s)

-- The delimiter, where it is a single character.
unfoldable pub separator : Text → ℕ
separator (c ∷ []) = c
separator _ = 44

-- Without byte order marks at the front.
unfoldable pub strip_bom : Text → Text
strip_bom [] = []
strip_bom (c ∷ s) = let rest = strip_bom s in if c == 65279 then rest else c ∷ s

abbrev pub next_is : ℕ → Text → Bool
next_is c [] = false
next_is c (d ∷ s) = d == c

module _ {N : Type 0} (safe_number : Text → Option N) where
  unfoldable pub coerce : Text → Bool → Cell N
  coerce raw quoted =
      if text_eq raw []
      then (if quoted then text_cell [] else null_cell)
      else if is_number raw
      then elim (safe_number raw) [ none ↦ text_cell raw | some n ↦ number_cell n ]
      else text_cell raw

pub record Parser (N : Type 0) : Type 0 where
  pub field : Text
  pub row : List (Cell N)
  pub records : List (List (Cell N))
  pub quoted : Bool
  pub any_quoted : Bool
  pub field_start : Bool
  pub skip : Bool

unfoldable pub is_blank_row : {N : Type 0} → List (Cell N) → Bool
is_blank_row (null_cell ∷ []) = true
is_blank_row _ = false

unfoldable pub start : {N : Type 0} → Parser N
start = record {
  field = [];
  row = [];
  records = [];
  quoted = false;
  any_quoted = false;
  field_start = true;
  skip = false;
}

module _ {N : Type 0} (safe_number : Text → Option N) where
  unfoldable pub end_field : Parser N → Parser N
  end_field st = record st {
    row = st.row ++ coerce safe_number st.field st.any_quoted ∷ [];
    field = [];
    any_quoted = false;
    field_start = true;
  }

  -- A blank line is not a record.
  unfoldable pub end_row : Parser N → Parser N
  unfolding end_field is_blank_row
  end_row st =
      let ended = end_field st in
      if is_blank_row ended.row
      then record ended { row = [] }
      else record ended { row = []; records = ended.records ++ ended.row ∷ [] }

  -- A unit inside quotes, with what follows it.
  unfoldable pub step_quoted : ℕ → Text → Parser N → Parser N
  step_quoted c s st =
      if c == 34
      then (if next_is 34 s
          then record st { field = st.field ++ 34 ∷ []; skip = true }
          else record st { quoted = false })
      else record st { field = st.field ++ c ∷ [] }

  unfoldable pub step_plain : ℕ → ℕ → Text → Parser N → Parser N
  unfolding end_field end_row
  step_plain sep c s st =
      if c == sep
      then end_field st
      else if c == 10 || c == 13
      then end_row (record st { skip = c == 13 && next_is 10 s })
      else record st { field = st.field ++ c ∷ [] }

  unfoldable pub step : ℕ → ℕ → Text → Parser N → Parser N
  unfolding step_quoted step_plain
  step sep c s st =
      if st.skip
      then record st { skip = false }
      else if st.quoted
      then step_quoted c s st
      else if st.field_start && text_eq st.field [] && c == 34
      then record st { quoted = true; any_quoted = true; field_start = false }
      else step_plain sep c s (record st { field_start = false })

  unfoldable pub run : ℕ → Text → Parser N → Parser N
  unfolding step
  run sep [] st = st
  run sep (c ∷ s) st = run sep s (step sep c s st)

  abbrev pub is_cons : List (Cell N) → Bool
  is_cons [] = false
  is_cons (x ∷ xs) = true

  -- A final row when the file does not end with a newline.
  unfoldable pub finish : Parser N → Parser N
  unfolding end_row
  finish st =
      if not (text_eq st.field []) || is_cons st.row || st.any_quoted then end_row st else st

  unfoldable pub parse_records : Text → Text → List (List (Cell N))
  unfolding finish run start strip_bom separator
  parse_records delimiter body = (finish (run (separator delimiter) (strip_bom body) start)).records

  unfoldable pub nulls : ℕ → List (Cell N)
  nulls zero = []
  nulls (suc n) = null_cell ∷ nulls n

  -- Cut, or filled up with nulls.
  unfoldable pub fit : ℕ → List (Cell N) → List (Cell N)
  unfolding nulls
  fit width cells = take width cells ++ nulls (width - length cells)

  -- The rows below the header, as wide as the header.
  unfoldable pub data_rows : List (List (Cell N)) → List (List (Cell N))
  unfolding fit
  data_rows [] = []
  data_rows (header ∷ rows) = map (fit (length header)) rows

-- `text.replaceAll(c, cc)`
unfoldable pub doubled : ℕ → Text → Text
doubled c [] = []
doubled c (a ∷ s) = let rest = doubled c s in if a == c then c ∷ c ∷ rest else a ∷ rest

unfoldable pub quote_ident : Text → Text
unfolding doubled
quote_ident name = 34 ∷ doubled 34 name ++ 34 ∷ []

-- `show_number` is `String(value)` of a number.
unfoldable pub quote_value : {N : Type 0} → (N → Text) → Cell N → Text
unfolding doubled
quote_value show_number null_cell = 78 ∷ 85 ∷ 76 ∷ 76 ∷ []
quote_value show_number (number_cell n) = show_number n
quote_value show_number (text_cell s) = 39 ∷ doubled 39 s ++ 39 ∷ []
