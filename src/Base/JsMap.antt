-- ===== src/Base/JsMap.antt =====
-- JavaScript's `Map` and plain objects with string keys: entries in insertion order, one for a key.
-- `set` on a key that is there keeps its place, and a new key goes to the end.
pub mod Size
pub mod Every
use mathlib.Core.Path.{◌≡◌, refl, ap}
use mathlib.Core.Bool.{Bool, true, false}
use mathlib.Core.Option.{Option, none, some}
use mathlib.Core.List.{List, [], ◌∷◌, ◌++◌, map}
use native.Mathlib.Omega.{arith}
use grandpa_bob.Base.Tests.{if◌then◌else◌, is_some}
use grandpa_bob.Base.Text.{Text, text_eq, text_eq_iff}

abbrev pub JsMap {ℓ} : Type ℓ → Type ℓ
JsMap V = List (Text × V)

module _ {ℓ} {V : Type ℓ} where
  unfoldable pub get : Text → JsMap V → Option V
  get k [] = none
  get k ((j, v) ∷ m) = if text_eq j k then some v else get k m

  abbrev pub has : Text → JsMap V → Bool
  has k m = is_some (get k m)

  unfoldable pub set : Text → V → JsMap V → JsMap V
  set k v [] = (k, v) ∷ []
  set k v ((j, w) ∷ m) = if text_eq j k then (j, v) ∷ m else (j, w) ∷ set k v m

  unfoldable pub delete : Text → JsMap V → JsMap V
  delete k [] = []
  delete k ((j, v) ∷ m) = let rest = delete k m in if text_eq j k then rest else (j, v) ∷ rest

  pub get-set :
      (k j : Text) (v : V) (m : JsMap V)
      → get j (set k v m) ≡ (if text_eq k j then some v else get j m)
  unfolding get set
  get-set k j v [] = refl
  get-set k j v ((i, w) ∷ m) =
      ground (arith, text_eq_iff k j, text_eq_iff i k, text_eq_iff i j, get-set k j v m)

  pub get-delete :
      (k j : Text) (m : JsMap V) → get j (delete k m) ≡ (if text_eq k j then none else get j m)
  unfolding get delete
  get-delete k j [] = ground arith
  get-delete k j ((i, w) ∷ m) =
      ground (arith, text_eq_iff k j, text_eq_iff i k, text_eq_iff i j, get-delete k j m)

abbrev pub keys {ℓ} : {V : Type ℓ} → JsMap V → List Text
keys m = map (λ e. e.0) m

pub ruleset map_laws = (get-set, get-delete)

pub delete-set {ℓ} :
    {V : Type ℓ} (k : Text) (v : V) (m : JsMap V) → delete k (set k v m) ≡ delete k m
unfolding set delete
delete-set k v [] = ground (arith, text_eq_iff k k)
delete-set k v ((j, w) ∷ m) = ground (arith, text_eq_iff j k, delete-set k v m)
