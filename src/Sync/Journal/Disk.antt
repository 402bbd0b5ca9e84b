-- ===== src/Sync/Journal/Disk.antt =====
-- `Journal.load` and `Journal.persist`. The file is one JSON document on a line for each op.
-- `JSON.stringify` of an op and `JSON.parse` of a line are parameters; the file system is reduced to
-- the text of the journal file, `none` where it cannot be read.
use mathlib.Core.List.{append-nil, append_assoc}
use grandpa_bob.Base.{
  ℕ, ◌≤◌, ◌≡◌, refl, sym, ap, subst, ◌∙◌, Bool, true, false, Option, none, some, List, [], ◌∷◌,
  ◌++◌, map, arith, if◌then◌else◌, All, all, and_true, ◌>>=◌,
}
use grandpa_bob.Base.Text.{Text, text, text_eq, split, join, Lacks, split-join_append, is_blank}
use grandpa_bob.Base.Json.{Json, num, real, str, obj, Fields, end, field, member, string_member}
use grandpa_bob.Base.JsMap
use grandpa_bob.Sync.Journal.{
  OpKind, write, delete, SyncOp, Journal, empty, last_op_in, last_op_for, lamport_for, push,
  absorb_remote,
}
use grandpa_bob.Sync.Journal.Stamps.{
  IsValid, stamp, push-IsValid, absorb_remote-IsValid, le-clock-absorb_remote,
}

-- `op.op !== "write" && op.op !== "delete"`
unfoldable pub kind_of : Text → Option OpKind
kind_of s =
    if text_eq s (text "write")
    then some write
    else if text_eq s (text "delete")
    then some delete
    else none

-- What a line of the file is: skipped, an op, or outside the model: the code also loads an op whose
-- stamp is a number that is no natural one, or whose hash or time is no text, though it writes none.
pub data Line : Type 0 where
  skipped outside : Line
  loaded : SyncOp → Line

with_rest : ℕ → Text → OpKind → Option Json → Option Json → Line
with_rest n p k none (some (str a)) =
    loaded (record { lamport = n; path = p; op = k; hash = none; at = a })
with_rest n p k (some (str h)) (some (str a)) =
    loaded (record { lamport = n; path = p; op = k; hash = some h; at = a })
with_rest n p k _ _ = outside

with_parts : Fields → Option Json → Option Text → Option OpKind → Line
unfolding with_rest
with_parts fs (some (num n)) (some p) (some k) =
    with_rest n p k (member (text "hash") fs) (member (text "at") fs)
with_parts fs (some real) (some p) (some k) = outside
with_parts fs _ _ _ = skipped

-- The guards of one line: a record with a number, a path and one of the two kinds.
unfoldable pub op_of_json : Json → Line
unfolding with_parts
op_of_json (obj fs) =
    with_parts fs (member (text "lamport") fs) (string_member (text "path") fs)
      (string_member (text "op") fs >>= kind_of)
op_of_json _ = skipped

-- `ops.push`, `lamportByPath.set` and the clock; a load schedules no write.
unfoldable pub load_op : SyncOp → Journal → Journal
unfolding push absorb_remote
load_op o j =
    let j' = push o (absorb_remote o.lamport j) in
    record j' { persist_scheduled = j.persist_scheduled }

unfoldable load_parsed : Line → Journal → Option Journal
unfolding load_op
load_parsed skipped j = some j
load_parsed (loaded o) j = some (load_op o j)
load_parsed outside j = none

parse_op : Option Json → Line
unfolding op_of_json
parse_op none = skipped
parse_op (some v) = op_of_json v

abbrev pub is_inside : Line → Bool
is_inside outside = false
is_inside _ = true

module _ (parse : Text → Option Json) where
  line_of : Text → Line
  unfolding parse_op
  line_of line = if is_blank line then skipped else parse_op (parse line)

  load_lines : List Text → Journal → Option Journal
  unfolding load_parsed line_of
  load_lines [] j = some j
  load_lines (line ∷ ls) j = load_parsed (line_of line) j >>= load_lines ls

  -- The loaded journal, and `none` for a file with a line outside the model.
  unfoldable pub load : Option Text → Option Journal
  unfolding load_lines
  load none = some empty
  load (some raw) = load_lines (split 10 raw) empty

  -- Whether no line of the file is outside the model.
  unfoldable pub in_model : Option Text → Bool
  unfolding line_of
  in_model none = true
  in_model (some raw) = all (λ l. is_inside (line_of l)) (split 10 raw)

unfoldable pub persist : (SyncOp → Text) → Journal → Text
persist stringify j = join 10 (map stringify j.ops) ++ 10 ∷ []

load_op-IsValid : (o : SyncOp) (j : Journal) → IsValid j → IsValid (load_op o j)
unfolding load_op lamport_for last_op_for
load_op-IsValid o j v =
    let v' =
      push-IsValid o (absorb_remote o.lamport j) (absorb_remote-IsValid o.lamport j v)
        (le-clock-absorb_remote o.lamport j) in
    record { bounded = v'.bounded; agrees = v'.agrees }

pub empty-IsValid : IsValid empty
unfolding lamport_for last_op_for last_op_in JsMap.get
empty-IsValid = record { bounded = tt; agrees = λ p. refl }

abbrev Loads : Option Journal → Type 0
Loads o = (j : Journal) × (o ≡ some j) × IsValid j

load_lines-IsValid :
    (parse : Text → Option Json) (ls : List Text) (j : Journal)
    → all (λ l. is_inside (line_of parse l)) ls ≡ true
    → IsValid j
    → Loads (load_lines parse ls j)
unfolding load_lines load_parsed
load_lines-IsValid parse [] j a v = (j, refl, v)
load_lines-IsValid parse (l ∷ ls) j a v =
    of (line_of parse l) (and_true _ _ a).0
      (λ j' v'. load_lines-IsValid parse ls j' (and_true _ _ a).1 v')
  where
    of :
        (o : Line)
        → is_inside o ≡ true
        → ((j' : Journal) → IsValid j' → Loads (load_lines parse ls j'))
        → Loads (load_parsed o j >>= load_lines parse ls)
    of skipped i rest = rest j v
    of (loaded o) i rest = rest (load_op o j) (load_op-IsValid o j v)
    of outside i rest = cc

-- Whatever text the journal file holds, torn and foreign lines included, and also where it cannot be
-- read: if no line is an op whose stamp is no natural number or whose hash or time is no text, the file
-- is loaded, and the loaded journal satisfies the invariant.
pub load-IsValid :
    (parse : Text → Option Json) (file : Option Text)
    → in_model parse file ≡ true
    → (j : Journal) × (load parse file ≡ some j) × IsValid j
unfolding load in_model
load-IsValid parse none h = (empty, refl, empty-IsValid)
load-IsValid parse (some raw) h = load_lines-IsValid parse (split 10 raw) empty h empty-IsValid

-- The object that `JSON.stringify` writes for an op: an undefined hash is left out.
abbrev pub hash_field : Option Text → Fields → Fields
hash_field none fs = fs
hash_field (some h) fs = field (text "hash") (str h) fs

abbrev pub kind_text : OpKind → Text
kind_text write = text "write"
kind_text delete = text "delete"

abbrev pub json_of : SyncOp → Json
json_of o = obj (
    field (text "path") (str o.path) (
      field (text "op") (str (kind_text o.op)) (
        hash_field o.hash
          (field (text "lamport") (num o.lamport) (field (text "at") (str o.at) end)))))

op_of_json-json_of : (o : SyncOp) → op_of_json (json_of o) ≡ loaded o
unfolding op_of_json member string_member text_eq kind_of
op_of_json-json_of o = parts o.op o.hash
  where
    parts :
        (k : OpKind) (h : Option Text)
        → op_of_json
            (json_of (record { lamport = o.lamport; path = o.path; op = k; hash = h; at = o.at }))
          ≡ loaded (record { lamport = o.lamport; path = o.path; op = k; hash = h; at = o.at })
    parts write none = refl
    parts write (some h) = refl
    parts delete none = refl
    parts delete (some h) = refl

-- What the codec does for one op: the line is that of its object, without a line break, and parses
-- to the object.
pub record IsReadable (stringify : SyncOp → Text) (parse : Text → Option Json) (o : SyncOp)
    : Type 0 where
  pub parsed : parse (stringify o) ≡ some (json_of o)
  pub one_line : Lacks 10 (stringify o)
  pub shown : is_blank (stringify o) ≡ false

load_ops : List SyncOp → Journal → Journal
load_ops [] j = j
load_ops (o ∷ os) j = load_ops os (load_op o j)

ops-load_op : (o : SyncOp) (j : Journal) → (load_op o j).ops ≡ j.ops ++ o ∷ []
unfolding load_op
ops-load_op o j = ground arith

ops-load_ops : (os : List SyncOp) (j : Journal) → (load_ops os j).ops ≡ j.ops ++ os
unfolding load_ops
ops-load_ops [] j = sym (append-nil j.ops)
ops-load_ops (o ∷ os) j =
    ops-load_ops os (load_op o j)
    ∙ ap (λ l. l ++ os) (ops-load_op o j)
    ∙ append_assoc j.ops (o ∷ []) os

clock-load_ops :
    (os : List SyncOp) (j : Journal) (c : ℕ)
    → All (λ o. o.lamport ≤ c) os
    → j.clock ≤ c
    → (load_ops os j).clock ≤ c
unfolding load_ops load_op
clock-load_ops [] j c b h = h
clock-load_ops (o ∷ os) j c b h = clock-load_ops os (load_op o j) c b.1 (ground arith)

module _ (stringify : SyncOp → Text) (parse : Text → Option Json) where
  line_of-stringify :
      (o : SyncOp) → IsReadable stringify parse o → line_of parse (stringify o) ≡ loaded o
  unfolding line_of
  line_of-stringify o h = rw (h.shown, h.parsed) (op_of_json-json_of o)

  load_lines-map :
      (os : List SyncOp) (rest : List Text) (j : Journal)
      → All (IsReadable stringify parse) os
      → load_lines parse (map stringify os ++ rest) j ≡ load_lines parse rest (load_ops os j)
  unfolding load_lines load_parsed load_ops
  load_lines-map [] rest j h = refl
  load_lines-map (o ∷ os) rest j h =
      ap (λ l. load_parsed l j >>= load_lines parse (map stringify os ++ rest))
        (line_of-stringify o h.0)
      ∙ load_lines-map os rest (load_op o j) h.1

  Lacks-map :
      (os : List SyncOp) → All (IsReadable stringify parse) os → All (Lacks 10) (map stringify os)
  Lacks-map [] h = tt
  Lacks-map (o ∷ os) h = (h.0.one_line, Lacks-map os h.1)

  load-persist_lines :
      (j : Journal)
      → All (IsReadable stringify parse) j.ops
      → load parse (some (persist stringify j)) ≡ some (load_ops j.ops empty)
  unfolding load persist split join is_blank parse_op load_ops
  load-persist_lines j h = go j.ops h
    where
      go :
          (os : List SyncOp)
          → All (IsReadable stringify parse) os
          → load_lines parse (split 10 (join 10 (map stringify os) ++ 10 ∷ [])) empty
            ≡ some (load_ops os empty)
      go [] h = refl
      go (o ∷ os) h =
          ap (λ ls. load_lines parse ls empty)
            (split-join_append 10 (stringify o) (map stringify os) [] (Lacks-map (o ∷ os) h))
          ∙ load_lines-map (o ∷ os) ([] ∷ []) empty h

  load_ops-IsValid : (os : List SyncOp) (j : Journal) → IsValid j → IsValid (load_ops os j)
  unfolding load_ops
  load_ops-IsValid [] j v = v
  load_ops-IsValid (o ∷ os) j v = load_ops-IsValid os (load_op o j) (load_op-IsValid o j v)

  -- A journal that satisfies the invariant, written to disk and loaded again, has its ops and the
  -- stamp of every path, and a clock between its stamps and the old clock.
  pub load-persist :
      (j : Journal)
      → IsValid j
      → All (IsReadable stringify parse) j.ops
      → (again : Journal) × (load parse (some (persist stringify j)) ≡ some again)
        × (again.ops ≡ j.ops)
        × ((p : Text) → lamport_for p again ≡ lamport_for p j)
        × (again.clock ≤ j.clock)
        × All (λ o. o.lamport ≤ again.clock) j.ops
  load-persist j v h =
      let again : Journal = load_ops j.ops empty in
      let w : IsValid again = load_ops-IsValid j.ops empty empty-IsValid in
      let same : again.ops ≡ j.ops = ops-load_ops j.ops empty in
      (
        again,
        load-persist_lines j h,
        same,
        λ p.
            w.agrees p
            ∙ unfold last_op_for in ap (λ os. stamp (last_op_in p os)) same ∙ sym (v.agrees p),
        clock-load_ops j.ops empty j.clock v.bounded (omega arith),
        subst (λ os. All (λ o. o.lamport ≤ again.clock) os) same w.bounded,
      )
