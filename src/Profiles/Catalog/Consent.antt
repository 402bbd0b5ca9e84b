-- ===== src/Profiles/Catalog/Consent.antt =====
-- The consent that is there is kept, and a new profile starts open where both sides have it.
use grandpa_bob.Base.{
  ◌≡◌, refl, ◌∙◌, ap, Bool, true, false, Option, none, some, List, [], ◌∷◌, map, arith,
  if◌then◌else◌, Bool-cases, Option-cases, inl, inr,
}
use grandpa_bob.Base.Text.{Text, text_eq, text_eq_iff, includes}
use grandpa_bob.Base.Js.{Js}
use grandpa_bob.Base.JsMap
use grandpa_bob.Base.JsMap.{JsMap, get-set}
use grandpa_bob.Profiles.Catalog.{ProfileCatalogEntry, lower_id, default_local_consent}

module _ (js : Js) where
  -- What is there stays; a profile of the catalog gets whether the peer has it; nothing else is set.
  unfoldable pub expected_consent :
      List ProfileCatalogEntry → List Text → Option Bool → Text → Option Bool
  expected_consent catalog remote_ids (some b) k = some b
  expected_consent catalog remote_ids none k =
      if includes (map (lower_id js) catalog) k then some (includes remote_ids k) else none

  skip_known :
      (e : ProfileCatalogEntry) (es : List ProfileCatalogEntry) (remote_ids : List Text)
      (out : JsMap Bool) (k : Text)
      → JsMap.has (lower_id js e) out ≡ true
      → expected_consent es remote_ids (JsMap.get k out) k
        ≡ expected_consent (e ∷ es) remote_ids (JsMap.get k out) k
  unfolding expected_consent
  skip_known e es remote_ids out k h = elim (Option-cases (JsMap.get k out)) [
    | inl g ↦
        let other : text_eq (lower_id js e) k ≡ false =
          ground (arith, text_eq_iff (lower_id js e) k) in
        rw g (rw other refl)
    | inr (b, g) ↦ rw g refl
  ]

  set_new :
      (e : ProfileCatalogEntry) (es : List ProfileCatalogEntry) (remote_ids : List Text)
      (out : JsMap Bool) (k : Text)
      → JsMap.has (lower_id js e) out ≡ false
      → expected_consent es remote_ids
          (JsMap.get k (JsMap.set (lower_id js e) (includes remote_ids (lower_id js e)) out))
          k
        ≡ expected_consent (e ∷ es) remote_ids (JsMap.get k out) k
  unfolding expected_consent
  set_new e es remote_ids out k h = elim (Bool-cases (text_eq (lower_id js e) k)) [
    | inl x ↦
        let same : lower_id js e ≡ k = (text_eq_iff (lower_id js e) k).0 x in
        let absent : JsMap.get k out ≡ none = ground (arith, same) in
        rw get-set (rw (x, absent) (rw x (ap (λ i. some (includes remote_ids i)) same)))
    | inr x ↦ rw get-set (rw x (same_rest (JsMap.get k out) x))
  ]
    where
      same_rest :
          (o : Option Bool)
          → text_eq (lower_id js e) k ≡ false
          → expected_consent es remote_ids o k ≡ expected_consent (e ∷ es) remote_ids o k
      same_rest none x = rw x refl
      same_rest (some b) x = refl

  -- The first consent for a catalog, at every id: a consent that is there stays, a profile of the
  -- catalog without one starts open exactly if the peer has it too, and no other id gets any.
  pub get-default_local_consent :
      (catalog : List ProfileCatalogEntry) (remote_ids : List Text) (out : JsMap Bool) (k : Text)
      → JsMap.get k (default_local_consent js catalog remote_ids out)
        ≡ expected_consent catalog remote_ids (JsMap.get k out) k
  unfolding default_local_consent expected_consent
  get-default_local_consent [] remote_ids out k = ground arith
  get-default_local_consent (e ∷ es) remote_ids out k =
      elim (Bool-cases (JsMap.has (lower_id js e) out)) [
        | inl h ↦
            rw h
              (get-default_local_consent es remote_ids out k ∙ skip_known e es remote_ids out k h)
        | inr h ↦ rw h (
            get-default_local_consent es remote_ids
              (JsMap.set (lower_id js e) (includes remote_ids (lower_id js e)) out) k
            ∙ set_new e es remote_ids out k h)
      ]
