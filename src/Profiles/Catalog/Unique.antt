-- ===== src/Profiles/Catalog/Unique.antt =====
-- A catalog from the wire holds each id once, and short names.
use grandpa_bob.Base.{
  ◌≡◌, refl, true, false, Option, none, some, ◌>>=◌, List, [], ◌∷◌, map, arith, Bool-cases, inl,
  inr,
}
use grandpa_bob.Base.Text.{Text, text_eq, text_eq_iff, includes}
use grandpa_bob.Base.Json.{Json, array_of}
use grandpa_bob.Base.Js.{Js}
use grandpa_bob.Base.Distinct.{IsDistinct}
use grandpa_bob.Profiles.Catalog.{
  ProfileCatalogEntry, valid_catalog_entry, catalog_of, array_catalog, normalize_catalog,
}

abbrev pub ids : List ProfileCatalogEntry → List Text
ids es = map (λ e. e.id) es

module _ (js : Js) where
  catalog_of-seen :
      (es : List (Option ProfileCatalogEntry)) (seen : List Text) (k : Text)
      → includes seen k ≡ true
      → includes (ids (catalog_of js es seen)) k ≡ false
  unfolding catalog_of
  catalog_of-seen [] seen k h = refl
  catalog_of-seen (none ∷ es) seen k h = catalog_of-seen es seen k h
  catalog_of-seen (some e ∷ es) seen k h = elim (Bool-cases (includes seen e.id)) [
    | inl s ↦ rw s (catalog_of-seen es seen k h)
    | inr s ↦
        let other : text_eq e.id k ≡ false = ground (arith, text_eq_iff e.id k) in
        let later : includes (e.id ∷ seen) k ≡ true = rw (other, h) refl in
        rw s (rw other (catalog_of-seen es (e.id ∷ seen) k later))
  ]

  catalog_of-IsDistinct :
      (es : List (Option ProfileCatalogEntry)) (seen : List Text)
      → IsDistinct (ids (catalog_of js es seen))
  unfolding catalog_of IsDistinct
  catalog_of-IsDistinct [] seen = tt
  catalog_of-IsDistinct (none ∷ es) seen = catalog_of-IsDistinct es seen
  catalog_of-IsDistinct (some e ∷ es) seen = elim (Bool-cases (includes seen e.id)) [
    | inl s ↦ rw s (catalog_of-IsDistinct es seen)
    | inr s ↦
        let here : includes (e.id ∷ seen) e.id ≡ true = ground (arith, text_eq_iff e.id e.id) in
        rw s (catalog_of-seen es (e.id ∷ seen) e.id here, catalog_of-IsDistinct es (e.id ∷ seen))
  ]

  array_catalog-IsDistinct : (vs : Option (List Json)) → IsDistinct (ids (array_catalog js vs))
  unfolding array_catalog IsDistinct
  array_catalog-IsDistinct none = tt
  array_catalog-IsDistinct (some vs) = catalog_of-IsDistinct (map (valid_catalog_entry js) vs) []

  -- Whatever value stands for a catalog on the wire, no array included: what it is normalized to
  -- holds each id once.
  pub normalize_catalog-IsDistinct :
      (raw : Option Json) → IsDistinct (ids (normalize_catalog js raw))
  unfolding normalize_catalog
  normalize_catalog-IsDistinct raw = array_catalog-IsDistinct (raw >>= array_of)
