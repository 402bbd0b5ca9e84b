-- ===== src/Platform/Csv/Quoted.antt =====
-- A file whose fields are all quoted, as RFC 4180 writes it, is read back.
use grandpa_bob.Base.{
  ℕ, ◌≡◌, refl, sym, ◌∙◌, ap, subst, true, false, Option, List, [], ◌∷◌, ◌++◌, map, arith, ◌==◌,
  if◌then◌else◌, Bool-cases, Option-cases, inl, inr,
}
use mathlib.Core.List.{append_assoc, append-nil}
use grandpa_bob.Base.Text.{Text, text_eq}
use grandpa_bob.Platform.Csv.{
  Cell, null_cell, text_cell, number_cell, Parser, coerce, next_is, is_number, start, end_field,
  end_row, is_blank_row, step, step_quoted, step_plain, run, finish, strip_bom, separator,
  parse_records,
}

-- A quoted field in front of `rest`, its quotes doubled.
unfoldable pub escape_onto : Text → Text → Text
escape_onto [] rest = rest
escape_onto (x ∷ f) rest =
    let more = escape_onto f rest in if x == 34 then 34 ∷ 34 ∷ more else x ∷ more

unfoldable pub quote_onto : Text → Text → Text
quote_onto f rest = 34 ∷ escape_onto f (34 ∷ rest)

-- A row of one field or more, and rows of such.
unfoldable pub write_row : ℕ → Text → List Text → Text → Text
write_row sep f [] rest = quote_onto f (10 ∷ rest)
write_row sep f (g ∷ gs) rest = quote_onto f (sep ∷ write_row sep g gs rest)

unfoldable pub write_rows : ℕ → List (Text × List Text) → Text
write_rows sep [] = []
write_rows sep ((f, fs) ∷ rows) = write_row sep f fs (write_rows sep rows)

module _ {N : Type 0} (safe_number : Text → Option N) (sep : ℕ) where
  abbrev inside : List (List (Cell N)) → List (Cell N) → Text → Parser N
  inside records row field = record {
    field = field;
    row = row;
    records = records;
    quoted = true;
    any_quoted = true;
    field_start = false;
    skip = false;
  }

  abbrev closed : List (List (Cell N)) → List (Cell N) → Text → Parser N
  closed records row field = record (inside records row field) { quoted = false }

  abbrev between : List (List (Cell N)) → List (Cell N) → Parser N
  between records row = record {
    field = [];
    row = row;
    records = records;
    quoted = false;
    any_quoted = false;
    field_start = true;
    skip = false;
  }

  step_close :
      (s field : Text) (records : List (List (Cell N))) (row : List (Cell N))
      → next_is 34 s ≡ false
      → step safe_number sep 34 s (inside records row field) ≡ closed records row field
  unfolding step step_quoted
  step_close s field records row h = rw h refl

  step_unit :
      (x : ℕ) (s field : Text) (records : List (List (Cell N))) (row : List (Cell N))
      → (x == 34) ≡ false
      → step safe_number sep x s (inside records row field) ≡ inside records row (field ++ x ∷ [])
  unfolding step step_quoted
  step_unit x s field records row h = rw h refl

  run-escape_onto :
      (f s field : Text) (records : List (List (Cell N))) (row : List (Cell N))
      → next_is 34 s ≡ false
      → run safe_number sep (escape_onto f (34 ∷ s)) (inside records row field)
        ≡ run safe_number sep s (closed records row (field ++ f))
  unfolding escape_onto run step step_quoted
  run-escape_onto [] s field records row h =
      ap (run safe_number sep s) (step_close s field records row h)
      ∙ ap (λ t. run safe_number sep s (closed records row t)) (sym (append-nil field))
  run-escape_onto (x ∷ f) s field records row h =
      let rest =
        run-escape_onto f s (field ++ x ∷ []) records row h
        ∙ ap (λ t. run safe_number sep s (closed records row t)) (append_assoc field (x ∷ []) f) in
      elim (Bool-cases (x == 34)) [
        | inl e ↦
            let same : x ≡ 34 = ground arith in
            rw e (
              subst
                (λ y.
                  run safe_number sep (escape_onto f (34 ∷ s))
                    (inside records row (field ++ y ∷ []))
                  ≡ run safe_number sep s (closed records row (field ++ x ∷ f)))
                same rest)
        | inr e ↦ rw e (
            ap (run safe_number sep (escape_onto f (34 ∷ s)))
              (step_unit x (escape_onto f (34 ∷ s)) field records row e)
            ∙ rest)
      ]

  -- A quoted field between two delimiters.
  run-quote_onto :
      (f s : Text) (records : List (List (Cell N))) (row : List (Cell N))
      → next_is 34 s ≡ false
      → run safe_number sep (quote_onto f s) (between records row)
        ≡ run safe_number sep s (closed records row f)
  unfolding quote_onto run step text_eq
  run-quote_onto f s records row h = run-escape_onto f s [] records row h

  abbrev cell : Text → Cell N
  cell f = coerce safe_number f true

  step_delimiter :
      (s f : Text) (records : List (List (Cell N))) (row : List (Cell N))
      → step safe_number sep sep s (closed records row f) ≡ between records (row ++ cell f ∷ [])
  unfolding step step_plain end_field
  step_delimiter s f records row = let e : (sep == sep) ≡ true = ground arith in rw e refl

  blank_last :
      (row : List (Cell N)) (c : Cell N)
      → is_blank_row (c ∷ []) ≡ false
      → is_blank_row (row ++ c ∷ []) ≡ false
  unfolding is_blank_row
  blank_last [] c h = h
  blank_last (null_cell ∷ []) c h = refl
  blank_last (number_cell n ∷ []) c h = refl
  blank_last (text_cell t ∷ []) c h = refl
  blank_last (null_cell ∷ y ∷ r) c h = refl
  blank_last (number_cell n ∷ y ∷ r) c h = refl
  blank_last (text_cell t ∷ y ∷ r) c h = refl

  cell_not_blank : (f : Text) → is_blank_row (cell f ∷ []) ≡ false
  unfolding coerce is_blank_row
  cell_not_blank f = elim (Bool-cases (text_eq f [])) [
    | inl e ↦ rw e refl
    | inr e ↦ elim (Bool-cases (is_number f)) [
      | inl n ↦ elim (Option-cases (safe_number f)) [
        | inl o ↦ rw (e, n, o) refl
        | inr (v, o) ↦ rw (e, n, o) refl
      ]
      | inr n ↦ rw (e, n) refl
    ]
  ]

  step_newline :
      (s f : Text) (records : List (List (Cell N))) (row : List (Cell N))
      → (10 == sep) ≡ false
      → step safe_number sep 10 s (closed records row f)
        ≡ between (records ++ (row ++ cell f ∷ []) ∷ []) []
  unfolding step step_plain end_field end_row is_blank_row
  step_newline s f records row h =
      let e = blank_last row (cell f) (cell_not_blank f) in rw h (rw e refl)

  run-write_row :
      (f : Text) (fs : List Text) (s : Text) (records : List (List (Cell N))) (row : List (Cell N))
      → (10 == sep) ≡ false
      → (sep == 34) ≡ false
      → run safe_number sep (write_row sep f fs s) (between records row)
        ≡ run safe_number sep s (between (records ++ (row ++ map cell (f ∷ fs)) ∷ []) [])
  unfolding write_row run
  run-write_row f [] s records row n q =
      run-quote_onto f (10 ∷ s) records row refl
      ∙ ap (run safe_number sep s) (step_newline s f records row n)
  run-write_row f (g ∷ gs) s records row n q =
      let more = write_row sep g gs s in
      run-quote_onto f (sep ∷ more) records row q
      ∙ ap (run safe_number sep more) (step_delimiter more f records row)
      ∙ run-write_row g gs s records (row ++ cell f ∷ []) n q
      ∙ ap (λ r. run safe_number sep s (between (records ++ r ∷ []) []))
          (append_assoc row (cell f ∷ []) (map cell (g ∷ gs)))

  abbrev cells : Text × List Text → List (Cell N)
  cells r = map cell (r.0 ∷ r.1)

  run-write_rows :
      (rows : List (Text × List Text)) (records : List (List (Cell N)))
      → (10 == sep) ≡ false
      → (sep == 34) ≡ false
      → run safe_number sep (write_rows sep rows) (between records [])
        ≡ between (records ++ map cells rows) []
  unfolding write_rows run
  run-write_rows [] records n q = ap (λ r. between r []) (sym (append-nil records))
  run-write_rows ((f, fs) ∷ rows) records n q =
      run-write_row f fs (write_rows sep rows) records [] n q
      ∙ run-write_rows rows (records ++ cells (f, fs) ∷ []) n q
      ∙ ap (λ r. between r []) (append_assoc records (cells (f, fs) ∷ []) (map cells rows))

starts_quoted :
    (sep : ℕ) (rows : List (Text × List Text))
    → strip_bom (write_rows sep rows) ≡ write_rows sep rows
unfolding strip_bom write_rows write_row quote_onto
starts_quoted sep [] = refl
starts_quoted sep ((f, []) ∷ rows) = refl
starts_quoted sep ((f, g ∷ gs) ∷ rows) = refl

-- For a delimiter of one character that is neither a newline nor a quote, and rows of one field or
-- more: the file in which every field is quoted, its quotes doubled, and every row ends in a newline,
-- whatever commas, quotes and newlines stand in the fields, is read as exactly these rows, each field
-- coerced as a quoted one.
pub parse_records-write_rows :
    {N : Type 0} (safe_number : Text → Option N) (sep : ℕ) (rows : List (Text × List Text))
    → (10 == sep) ≡ false
    → (sep == 34) ≡ false
    → parse_records safe_number (sep ∷ []) (write_rows sep rows)
      ≡ map (λ r. map (λ f. coerce safe_number f true) (r.0 ∷ r.1)) rows
unfolding parse_records separator finish start text_eq
parse_records-write_rows safe_number sep rows n q =
    ap (λ t. (finish safe_number (run safe_number sep t (between safe_number sep [] []))).records)
      (starts_quoted sep rows)
    ∙ ap (λ st. (finish safe_number st).records) (run-write_rows safe_number sep rows [] n q)
