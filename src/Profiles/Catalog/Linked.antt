-- ===== src/Profiles/Catalog/Linked.antt =====
-- Two devices that link profiles of the same name agree on the id.
use grandpa_bob.Base.{
  ℕ, ◌≡◌, refl, sym, ◌∙◌, ap, Bool, true, false, Option, none, some, List, arith, if◌then◌else◌,
  Bool-cases, inl, inr,
}
use grandpa_bob.Base.Text.{Text, text_eq, text_lt, text_eq_iff, text_lt_swap}
use grandpa_bob.Base.Js.{Js}
use grandpa_bob.Base.JsMap.{JsMap}
use grandpa_bob.Profiles.Catalog.{
  ProfileCatalogEntry, AutoLink, earlier, canonical_profile_id, link_to, link_entry, lower_id,
}

prefer_swap :
    (f : Text → Text) (x y : Text)
    → f (if text_lt (f y) (f x) then y else x) ≡ f (if text_lt (f x) (f y) then x else y)
prefer_swap f x y = elim (Bool-cases (text_eq (f x) (f y))) [
  | inl e ↦ ground (arith, text_eq_iff (f x) (f y))
  | inr e ↦ ground (arith, text_lt_swap (f x) (f y) e)
]

module _ (js : Js) where
  -- The two sides compute the same id, up to its case.
  canonical_swap :
      (a b : ProfileCatalogEntry)
      → js.to_lower (canonical_profile_id js a b) ≡ js.to_lower (canonical_profile_id js b a)
  unfolding canonical_profile_id
  canonical_swap a b = by_time (js.parse_date a.created_at) (js.parse_date b.created_at)
    where
      pick : Option Bool → ProfileCatalogEntry → ProfileCatalogEntry → Text
      pick o x y = elim o [
        | some true ↦ x.id
        | some false ↦ y.id
        | none ↦ if text_lt (js.to_lower y.id) (js.to_lower x.id) then y.id else x.id
      ]

      by_time :
          (s t : Option ℕ)
          → js.to_lower (pick (earlier js s t) a b) ≡ js.to_lower (pick (earlier js t s) b a)
      by_time none none = prefer_swap js.to_lower a.id b.id
      by_time none (some t) = prefer_swap js.to_lower a.id b.id
      by_time (some s) none = prefer_swap js.to_lower a.id b.id
      by_time (some s) (some t) = ground (arith, prefer_swap js.to_lower a.id b.id)

  -- The id of a profile after its registry has followed a link.
  unfoldable pub settled : ProfileCatalogEntry → AutoLink → Text
  settled e l = elim l.adopt_local [ none ↦ lower_id js e | some (from, to) ↦ to ]

  settled-link_to : (a b : ProfileCatalogEntry) → settled a (link_to js a b) ≡ (link_to js a b).id
  unfolding settled link_to
  settled-link_to a b =
      let id = js.to_lower (canonical_profile_id js a b) in
      elim (Bool-cases (text_eq (lower_id js a) id)) [
        | inl e ↦ rw e ((text_eq_iff (lower_id js a) id).0 e)
        | inr e ↦ rw e refl
      ]

  link_entry-link_to :
      (byid : JsMap ProfileCatalogEntry) (linked unlinked : List Text) (r l : ProfileCatalogEntry)
      (x : AutoLink)
      → link_entry js byid linked unlinked r (some l) ≡ some x
      → link_to js l r ≡ x
  unfolding link_entry
  link_entry-link_to byid linked unlinked r l x h = ground arith

  -- Where one device links its profile `a` to the other's `b`, and the other links its `b` to `a`,
  -- whatever each has linked or unlinked before: both use the same id, and after each registry has
  -- followed its link both profiles have that id.
  pub link_entry_agree :
      (byid byid' : JsMap ProfileCatalogEntry) (linked unlinked linked' unlinked' : List Text)
      (a b : ProfileCatalogEntry) (x y : AutoLink)
      → link_entry js byid linked unlinked b (some a) ≡ some x
      → link_entry js byid' linked' unlinked' a (some b) ≡ some y
      → (x.id ≡ y.id) × (settled a x ≡ x.id) × (settled b y ≡ x.id)
  unfolding link_to
  link_entry_agree byid byid' linked unlinked linked' unlinked' a b x y hx hy =
      let ex = link_entry-link_to byid linked unlinked b a x hx in
      let ey = link_entry-link_to byid' linked' unlinked' a b y hy in
      let same : x.id ≡ y.id = ap (λ l. l.id) (sym ex) ∙ canonical_swap a b ∙ ap (λ l. l.id) ey in
      (
        same,
        ap (settled a) (sym ex) ∙ settled-link_to a b ∙ ap (λ l. l.id) ex,
        ap (settled b) (sym ey) ∙ settled-link_to b a ∙ ap (λ l. l.id) ey ∙ sym same,
      )
