-- ===== src/Base/Json.antt =====
-- The values that `JSON.parse` yields, as far as the program looks into them. A number is a
-- non-negative integer, and `real` stands for any other. The parser itself is a parameter.
use mathlib.Core.Option.{Option, none, some}
use mathlib.Core.Bool.{Bool, true, false}
use grandpa_bob.Base.Tests.{if◌then◌else◌}
use Prim.Native.Nat.{ℕ, ◌+◌}
use mathlib.Core.List.{List, [], ◌∷◌}
use grandpa_bob.Base.Decimal.{decimal}
use grandpa_bob.Base.Text.{Text, text_eq}

mutual
  pub data Json : Type 0 where
    null true_value false_value real : Json
    num : ℕ → Json
    str : Text → Json
    arr : Items → Json
    obj : Fields → Json

  pub data Items : Type 0 where
    nil : Items
    cons : Json → Items → Items

  pub data Fields : Type 0 where
    end : Fields
    field : Text → Json → Fields → Fields

-- `value.key`, where a missing key reads as `none`.
unfoldable pub member : Text → Fields → Option Json
member k end = none
member k (field j v fs) = if text_eq j k then some v else member k fs

-- A field under `typeof … === "number"` and under `typeof … === "string"`.
unfoldable pub number_member : Text → Fields → Option ℕ
unfolding member
number_member k fs = elim (member k fs) [ some (num n) ↦ some n | _ ↦ none ]

unfoldable pub string_member : Text → Fields → Option Text
unfolding member
string_member k fs = elim (member k fs) [ some (str s) ↦ some s | _ ↦ none ]

-- `Object.entries(value)` of an object or an array, and nothing of any other value.
unfoldable pub numbered : ℕ → Items → List (Text × Json)
unfolding decimal
numbered i nil = []
numbered i (cons v vs) = (decimal i, v) ∷ numbered (i + 1) vs

unfoldable pub pairs : Fields → List (Text × Json)
pairs end = []
pairs (field k v fs) = (k, v) ∷ pairs fs

unfoldable pub entries_of : Json → List (Text × Json)
unfolding numbered pairs
entries_of (obj fs) = pairs fs
entries_of (arr vs) = numbered 0 vs
entries_of _ = []

-- The fields of a value under `typeof value === "object" && value !== null`; an array has none that
-- the program reads.
unfoldable pub record_of : Json → Option Fields
record_of (obj fs) = some fs
record_of (arr vs) = some end
record_of _ = none

-- `Array.isArray`
unfoldable pub array_of : Json → Option (List Json)
array_of (arr vs) = some (list vs)
  where
    list : Items → List Json
    list nil = []
    list (cons w ws) = w ∷ list ws
array_of _ = none

-- An object and an array from their parts.
unfoldable pub fields : List (Text × Json) → Fields
fields [] = end
fields ((k, v) ∷ es) = field k v (fields es)

unfoldable pub items : List Json → Items
items [] = nil
items (v ∷ vs) = cons v (items vs)

abbrev pub boolean : Bool → Json
boolean true = true_value
boolean false = false_value
