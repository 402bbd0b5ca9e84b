-- ===== src/Base/JsMap/Every.antt =====
-- What holds of every entry of a map.
use mathlib.Core.Path.{◌≡◌, refl, sym, subst}
use mathlib.Core.Option.{some}
use mathlib.Core.Logic.{inl, inr}
use mathlib.Core.List.{[], ◌∷◌}
use native.Mathlib.Omega.{arith}
use grandpa_bob.Base.Tests.{Bool-cases}
use grandpa_bob.Base.Text.{Text, text_eq, text_eq_iff, text_eq_refl}
use grandpa_bob.Base.JsMap.{JsMap, get, set, delete}
use grandpa_bob.Base.JsMap.Size.{HasUniqueKeys}

module _ {ℓ κ} {V : Type ℓ} (P : Text → V → Type κ) where
  abbrev pub Every : JsMap V → Type κ
  Every [] = Unit
  Every ((k, v) ∷ m) = P k v × Every m

  pub get-Every : (k : Text) (v : V) (m : JsMap V) → Every m → get k m ≡ some v → P k v
  unfolding get
  get-Every k v [] h g = ground arith
  get-Every k v ((j, w) ∷ m) h g = elim (Bool-cases (text_eq j k)) [
    | inl e ↦
        let same : j ≡ k = ground (arith, text_eq_iff j k) in
        let it : w ≡ v = ground arith in subst (λ u. P k u) it (subst (λ i. P i w) same h.0)
    | inr e ↦ get-Every k v m h.1 (ground arith)
  ]

  pub set-Every : (k : Text) (v : V) (m : JsMap V) → P k v → Every m → Every (set k v m)
  unfolding set
  set-Every k v [] p h = (p, tt)
  set-Every k v ((j, w) ∷ m) p h = elim (Bool-cases (text_eq j k)) [
    | inl e ↦
        let same : j ≡ k = ground (arith, text_eq_iff j k) in
        rw e (subst (λ i. P i v) (sym same) p, h.1)
    | inr e ↦ rw e (h.0, set-Every k v m p h.1)
  ]

  pub delete-Every : (k : Text) (m : JsMap V) → Every m → Every (delete k m)
  unfolding delete
  delete-Every k [] h = tt
  delete-Every k ((j, w) ∷ m) h = elim (Bool-cases (text_eq j k)) [
    | inl e ↦ rw e (delete-Every k m h.1)
    | inr e ↦ rw e (h.0, delete-Every k m h.1)
  ]

  -- What holds of every value that is found holds of every entry, where the keys are unique.
  pub Every-get :
      (m : JsMap V) → HasUniqueKeys m → ((k : Text) (v : V) → get k m ≡ some v → P k v) → Every m
  unfolding get
  Every-get [] u f = tt
  Every-get ((j, w) ∷ m) u f =
      (f j w (rw (text_eq_refl j) refl), Every-get m u.1 (λ k v g. f k v (later k v g)))
    where
      later : (k : Text) (v : V) → get k m ≡ some v → get k ((j, w) ∷ m) ≡ some v
      later k v g = elim (Bool-cases (text_eq j k)) [
        | inl e ↦ absurd (found ((text_eq_iff j k).0 e) g)
        | inr e ↦ rw e g
      ]
        where
          found : j ≡ k → get k m ≡ some v → ⊥
          found e g = cc
