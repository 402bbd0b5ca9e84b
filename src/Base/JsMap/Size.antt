-- ===== src/Base/JsMap/Size.antt =====
-- The number of entries of a map, over maps that hold each key once.
use mathlib.Core.Path.{◌≡◌, refl}
use mathlib.Core.Bool.{Bool, true, false}
use mathlib.Core.Option.{none}
use mathlib.Core.List.{[], ◌∷◌}
use Prim.Native.Nat.{ℕ, ◌+◌}
use native.Mathlib.Omega.{arith}
use grandpa_bob.Base.Tests.{is_some}
use grandpa_bob.Base.Lists.{length}
use grandpa_bob.Base.Text.{Text, text_eq_iff}
use grandpa_bob.Base.JsMap.{JsMap, get, set, delete, get-set, get-delete}

abbrev pub one_if : Bool → ℕ
one_if true = 1
one_if false = 0

module _ {ℓ} {V : Type ℓ} where
  abbrev pub HasUniqueKeys : JsMap V → Type ℓ
  HasUniqueKeys [] = Unit
  HasUniqueKeys ((k, v) ∷ m) = (get k m ≡ none) × HasUniqueKeys m

  pub set-HasUniqueKeys :
      (k : Text) (v : V) (m : JsMap V) → HasUniqueKeys m → HasUniqueKeys (set k v m)
  unfolding set get
  set-HasUniqueKeys k v [] h = (refl, tt)
  set-HasUniqueKeys k v ((j, w) ∷ m) h =
      ground (arith, get-set k j v m, text_eq_iff j k, text_eq_iff k j, set-HasUniqueKeys k v m h.1)

  pub delete-HasUniqueKeys : (k : Text) (m : JsMap V) → HasUniqueKeys m → HasUniqueKeys (delete k m)
  unfolding delete
  delete-HasUniqueKeys k [] h = tt
  delete-HasUniqueKeys k ((j, w) ∷ m) h =
      ground
        (arith, get-delete k j m, text_eq_iff j k, text_eq_iff k j, delete-HasUniqueKeys k m h.1)

  pub delete_absent : (k : Text) (m : JsMap V) → get k m ≡ none → delete k m ≡ m
  unfolding delete get
  delete_absent k [] h = refl
  delete_absent k ((j, w) ∷ m) h = ground (arith, delete_absent k m)

  pub length-set :
      (k : Text) (v : V) (m : JsMap V)
      → length (set k v m) + one_if (is_some (get k m)) ≡ length m + 1
  unfolding set get
  length-set k v [] = refl
  length-set k v ((j, w) ∷ m) = ground (arith, length-set k v m)

  pub length-delete :
      (k : Text) (m : JsMap V)
      → HasUniqueKeys m
      → length (delete k m) + one_if (is_some (get k m)) ≡ length m
  unfolding delete get
  length-delete k [] h = refl
  length-delete k ((j, w) ∷ m) h =
      ground (arith, length-delete k m h.1, text_eq_iff j k, delete_absent k m)
