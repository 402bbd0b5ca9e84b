-- ===== src/Profiles/Store/Vetoes.antt =====
-- An update from a peer's catalog opens nothing that one of the two sides has not opened.
use grandpa_bob.Base.{
  ◌≡◌, ◌≢◌, refl, sym, ◌∙◌, ap, subst, Bool, true, false, ◌&&◌, Option, none, some, List, [], ◌∷◌,
  map, arith, get_or, Option-cases, inl, inr,
}
use grandpa_bob.Base.Text.{Text, text_eq_iff, text_eq_refl}
use grandpa_bob.Base.Js.{Js}
use grandpa_bob.Base.JsMap
use grandpa_bob.Base.JsMap.{JsMap, get-set}
use grandpa_bob.Profiles.Catalog.{
  ProfileCatalogEntry, effective_allow, default_local_consent, lower_id,
}
use grandpa_bob.Profiles.Catalog.Consent.{expected_consent, get-default_local_consent}
use grandpa_bob.Profiles.Store.{
  PeerProfileCatalog, PeerSyncStore, PeerInput, updated_peer, upsert_peer, veto_new, local_consent,
  remote_consent, canonical_entry, links_by_id, adopted_entry, adopted_ids,
}

module _ (js : Js) where
  get_or-veto_new :
      (es : List ProfileCatalogEntry) (out : JsMap Bool) (k : Text)
      → get_or (JsMap.get k (veto_new es out)) false ≡ get_or (JsMap.get k out) false
  unfolding veto_new
  get_or-veto_new [] out k = refl
  get_or-veto_new (e ∷ es) out k = elim (Option-cases (JsMap.get e.id out)) [
    | inl h ↦ rw h (
        get_or-veto_new es (JsMap.set e.id false out) k
        ∙ ground (arith, get-set e.id k false out, text_eq_iff e.id k))
    | inr (b, h) ↦ rw h (get_or-veto_new es out k)
  ]

  veto_stays :
      (es : List ProfileCatalogEntry) (ids : List Text) (o : Option Bool) (k : Text)
      → get_or (expected_consent js es ids o k) false ≡ true
      → o ≢ some false
  unfolding expected_consent
  veto_stays es ids none k h e = cc
  veto_stays es ids (some b) k h e = cc

  consented :
      (catalog profiles : List ProfileCatalogEntry) (ids : List Text) (mine theirs : JsMap Bool)
      (k : Text)
      → (get_or (JsMap.get k (default_local_consent js catalog ids mine)) false
          && get_or (JsMap.get k (veto_new profiles theirs)) false)
        ≡ true
      → (JsMap.get k theirs ≡ some true) × (JsMap.get k mine ≢ some false)
  consented catalog profiles ids mine theirs k h = (
    is_allowed (JsMap.get k theirs) (sym (get_or-veto_new profiles theirs k) ∙ (both_true h).1),
    veto_stays catalog ids (JsMap.get k mine) k (
        sym (ap (λ o. get_or o false) (get-default_local_consent js catalog ids mine k))
        ∙ (both_true h).0),
  )
    where
      both_true : {a b : Bool} → (a && b) ≡ true → (a ≡ true) × (b ≡ true)
      both_true h = ground arith

      is_allowed : (o : Option Bool) → get_or o false ≡ true → o ≡ some true
      is_allowed none e = cc
      is_allowed (some b) e = ap some e

  -- The consent of the peer's record after the update.
  opened :
      (old : Option PeerProfileCatalog) (input : PeerInput) (now id : Text)
      → effective_allow js
          (updated_peer js old input now).local_allow
          (updated_peer js old input now).remote_allow
          id
          false
        ≡ true
      → (JsMap.get (js.to_lower id) (remote_consent old) ≡ some true)
        × (JsMap.get (js.to_lower id) (local_consent old) ≢ some false)
  unfolding effective_allow updated_peer
  opened old input now id h =
      consented (map (adopted_entry js (adopted_ids js input.links [])) input.catalog)
        (map (canonical_entry js (links_by_id input.links [])) input.profiles)
        (map (lower_id js) (map (canonical_entry js (links_by_id input.links [])) input.profiles))
        (local_consent old) (remote_consent old) (js.to_lower id) h

  stored :
      (store : PeerSyncStore) (input : PeerInput) (now : Text)
      → JsMap.get input.peer_id (upsert_peer js store input now).peers
        ≡ some (updated_peer js (JsMap.get input.peer_id store.peers) input now)
  unfolding upsert_peer
  stored store input now = rw get-set (rw text_eq_refl refl)

  -- A profile that the two sides sync with a peer, after an update from the peer's catalog, is one
  -- the peer had allowed before, in a message of its own, and that this side had not vetoed.
  pub effective_allow-upsert_peer :
      (store : PeerSyncStore) (input : PeerInput) (now id : Text)
      → effective_allow js
          (local_consent (JsMap.get input.peer_id (upsert_peer js store input now).peers))
          (remote_consent (JsMap.get input.peer_id (upsert_peer js store input now).peers))
          id
          false
        ≡ true
      → (JsMap.get (js.to_lower id) (remote_consent (JsMap.get input.peer_id store.peers))
          ≡ some true)
        × (JsMap.get (js.to_lower id) (local_consent (JsMap.get input.peer_id store.peers))
            ≢ some false)
  effective_allow-upsert_peer store input now id h =
      opened (JsMap.get input.peer_id store.peers) input now id (
        subst (λ o. effective_allow js (local_consent o) (remote_consent o) id false ≡ true)
          (stored store input now) h)
