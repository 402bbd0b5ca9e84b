-- ===== src/Platform/Csv/Columns/Named.antt =====
-- The columns of a file have different names, and the search for a free name comes to an end.
use grandpa_bob.Base.{
  ℕ, zero, suc, ◌+◌, ◌-◌, ◌<◌, min, take, All, ◌≡◌, refl, ap, true, false, Option, none, some, List,
  [], ◌∷◌, map, all, arith, length, length-append, Bool-cases, Option-cases, inl, inr, ◌↔◌,
}
use mathlib.Core.List.{append_cancel_left}
use grandpa_bob.Base.Text.{Text, text_eq, text_eq_iff, includes}
use grandpa_bob.Base.Decimal.{decimal}
use grandpa_bob.Base.Decimal.Value.{decimal_inj}
use grandpa_bob.Base.Distinct.{IsDistinct, length-IsDistinct}
use grandpa_bob.Platform.Csv.{Cell, parse_records, nulls, fit}
use grandpa_bob.Platform.Csv.Columns.{
  cell_text, base_name, numbered_name, free_name, unique_name, names_from, csv_headers,
  with_headers, parse_csv,
}

-- The names that the loop tries.
tries : ℕ → ℕ → Text → Text → List Text
tries zero n base name = []
tries (suc fuel) n base name = name ∷ tries fuel (n + 1) base (numbered_name base n)

length-tries : (fuel n : ℕ) (base name : Text) → length (tries fuel n base name) ≡ fuel
unfolding tries
length-tries zero n base name = refl
length-tries (suc fuel) n base name = ap suc (length-tries fuel (n + 1) base (numbered_name base n))

all_tried :
    (fuel n : ℕ) (base name : Text) (used : List Text)
    → free_name fuel n base name used ≡ none
    → all (includes used) (tries fuel n base name) ≡ true
unfolding free_name tries
all_tried zero n base name used h = refl
all_tried (suc fuel) n base name used h =
    ground (arith, all_tried fuel (n + 1) base (numbered_name base n) used)

found_is_free :
    (fuel n : ℕ) (base name : Text) (used : List Text) (m : Text)
    → free_name fuel n base name used ≡ some m
    → includes used m ≡ false
unfolding free_name
found_is_free zero n base name used m h = absurd cc
found_is_free (suc fuel) n base name used m h =
    ground (arith, found_is_free fuel (n + 1) base (numbered_name base n) used m)

longer : (base : Text) (n : ℕ) → length base < length (numbered_name base n)
unfolding numbered_name
longer base n = omega (arith, length-append base (95 ∷ decimal n))

numbered_inj : (base : Text) (m n : ℕ) → numbered_name base m ≡ numbered_name base n → m ≡ n
unfolding numbered_name
numbered_inj base m n e =
    decimal_inj m n (same_tail (append_cancel_left base (95 ∷ decimal m) (95 ∷ decimal n) e))
  where
    same_tail : 95 ∷ decimal m ≡ 95 ∷ decimal n → decimal m ≡ decimal n
    same_tail x = cc

-- A later try is none of the earlier names, nor the name without a number.
tries_lack :
    (fuel n k : ℕ) (base : Text)
    → k < n
    → includes (tries fuel (n + 1) base (numbered_name base n)) (numbered_name base k) ≡ false
unfolding tries
tries_lack zero n k base h = refl
tries_lack (suc fuel) n k base h = ground (
  arith,
  differ (text_eq_iff (numbered_name base n) (numbered_name base k)),
  tries_lack fuel (n + 1) k base (omega (arith, h)),
)
  where
    differ :
        ((text_eq (numbered_name base n) (numbered_name base k) ≡ true)
          ↔ (numbered_name base n ≡ numbered_name base k))
        → text_eq (numbered_name base n) (numbered_name base k) ≡ false
    differ i = elim (Bool-cases (text_eq (numbered_name base n) (numbered_name base k))) [
      | inl x ↦ absurd (omega (arith, h, numbered_inj base n k (i.0 x)))
      | inr x ↦ x
    ]

tries_lack_base :
    (fuel n : ℕ) (base : Text)
    → includes (tries fuel (n + 1) base (numbered_name base n)) base ≡ false
unfolding tries
tries_lack_base zero n base = refl
tries_lack_base (suc fuel) n base = ground (arith, differ, tries_lack_base fuel (n + 1) base)
  where
    differ : text_eq (numbered_name base n) base ≡ false
    differ = elim (Bool-cases (text_eq (numbered_name base n) base)) [
      | inl x ↦
          absurd (
            omega (arith, longer base n, ap length ((text_eq_iff (numbered_name base n) base).0 x)))
      | inr x ↦ x
    ]

later-IsDistinct :
    (fuel n : ℕ) (base : Text) → IsDistinct (tries fuel (n + 1) base (numbered_name base n))
unfolding tries IsDistinct
later-IsDistinct zero n base = tt
later-IsDistinct (suc fuel) n base =
    (tries_lack fuel (n + 1) n base (omega arith), later-IsDistinct fuel (n + 1) base)

tries-IsDistinct : (fuel : ℕ) (base : Text) → IsDistinct (tries fuel 2 base base)
unfolding tries IsDistinct
tries-IsDistinct zero base = tt
tries-IsDistinct (suc fuel) base = (tries_lack_base fuel 2 base, later-IsDistinct fuel 2 base)

-- The search for a column's name ends: with one try more than there are names in use it finds a name,
-- which is not in use.
pub free_name_total :
    (base : Text) (used : List Text)
    → (name : Text) × (free_name (length used + 1) 2 base base used ≡ some name)
      × (includes used name ≡ false)
free_name_total base used = elim (Option-cases (free_name (length used + 1) 2 base base used)) [
  | inl h ↦ absurd (
      omega (
        arith,
        length-tries (length used + 1) 2 base base,
        length-IsDistinct (tries (length used + 1) 2 base base) used
            (tries-IsDistinct (length used + 1) base)
            (all_tried (length used + 1) 2 base base used h),
      ))
  | inr (name, h) ↦ (name, h, found_is_free (length used + 1) 2 base base used name h)
]

unique_name_free : (base : Text) (used : List Text) → includes used (unique_name base used) ≡ false
unfolding unique_name
unique_name_free base used = let r = free_name_total base used in rw r.1 r.2

names_avoid :
    {N : Type 0} (show_number : N → Text) (i : ℕ) (cells : List (Cell N)) (used : List Text)
    (k : Text)
    → includes used k ≡ true
    → includes (names_from show_number i cells used) k ≡ false
unfolding names_from
names_avoid show_number i [] used k h = refl
names_avoid show_number i (cell ∷ cells) used k h = ground (
  arith,
  text_eq_iff name k,
  unique_name_free base used,
  names_avoid show_number (i + 1) cells (name ∷ used) k,
)
  where
    base : Text
    base = base_name i (cell_text show_number cell)

    name : Text
    name = unique_name base used

names_from-IsDistinct :
    {N : Type 0} (show_number : N → Text) (i : ℕ) (cells : List (Cell N)) (used : List Text)
    → IsDistinct (names_from show_number i cells used)
unfolding names_from IsDistinct
names_from-IsDistinct show_number i [] used = tt
names_from-IsDistinct show_number i (cell ∷ cells) used = (
  names_avoid show_number (i + 1) cells (name ∷ used) name (ground (arith, text_eq_iff name name)),
  names_from-IsDistinct show_number (i + 1) cells (name ∷ used),
)
  where
    name : Text
    name = unique_name (base_name i (cell_text show_number cell)) used

length-take : {A : Type 0} (n : ℕ) (xs : List A) → length (take n xs) ≡ min n (length xs)
length-take zero xs = omega arith
length-take (suc n) [] = omega arith
length-take (suc n) (x ∷ xs) = omega (arith, length-take n xs)

length-nulls :
    {N : Type 0} (safe_number : Text → Option N) (n : ℕ) → length (nulls safe_number n) ≡ n
unfolding nulls
length-nulls safe_number zero = refl
length-nulls safe_number (suc n) = ap suc (length-nulls safe_number n)

length-fit :
    {N : Type 0} (safe_number : Text → Option N) (width : ℕ) (cells : List (Cell N))
    → length (fit safe_number width cells) ≡ width
unfolding fit
length-fit safe_number width cells = omega (
  arith,
  length-append (take width cells) (nulls safe_number (width - length cells)),
  length-take width cells,
  length-nulls safe_number (width - length cells),
)

-- Whatever a file holds: its columns have different names, and every record has one cell for each.
pub parse_csv-IsDistinct :
    {N : Type 0} (show_number : N → Text) (safe_number : Text → Option N) (delimiter body : Text)
    → IsDistinct (parse_csv show_number safe_number delimiter body).columns
      × All
          (λ cells.
            length cells ≡ length (parse_csv show_number safe_number delimiter body).columns)
          (parse_csv show_number safe_number delimiter body).records
unfolding parse_csv with_headers csv_headers IsDistinct
parse_csv-IsDistinct {N} show_number safe_number delimiter body =
    by_rows (parse_records safe_number delimiter body)
  where
    fitted :
        (width : ℕ) (rows : List (List (Cell N)))
        → All (λ cells. length cells ≡ width) (map (fit safe_number width) rows)
    fitted width [] = tt
    fitted width (row ∷ rows) = (length-fit safe_number width row, fitted width rows)

    by_rows :
        (rows : List (List (Cell N)))
        → IsDistinct (with_headers show_number safe_number rows).columns
          × All
              (λ cells. length cells ≡ length (with_headers show_number safe_number rows).columns)
              (with_headers show_number safe_number rows).records
    by_rows [] = (tt, tt)
    by_rows (first ∷ rows) = (
      names_from-IsDistinct show_number 0 first [],
      fitted (length (csv_headers show_number first)) rows,
    )
