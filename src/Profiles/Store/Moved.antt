-- ===== src/Profiles/Store/Moved.antt =====
-- The consent of a profile that gets another id.
use grandpa_bob.Base.{
  ◌≡◌, refl, Bool, Option, none, some, [], ◌∷◌, map, arith, if◌then◌else◌, get_or, Bool-cases, inl,
  inr,
}
use mathlib.Core.Option
use grandpa_bob.Base.Text.{Text, text_eq, text_eq_iff}
use grandpa_bob.Base.Js.{Js}
use grandpa_bob.Base.JsMap
use grandpa_bob.Base.JsMap.{JsMap, get-set, get-delete}
use grandpa_bob.Profiles.Store.{
  PeerProfileCatalog, PeerSyncStore, move_consent, remap_consent, remap_peer, remap_peer_consent,
  local_consent, remote_consent,
}

unfoldable or_else : Option Bool → Option Bool → Option Bool
or_else none o = o
or_else (some b) o = some b

-- The consent under `to` wins, that under `from` is gone, and no other changes.
unfoldable pub moved_consent : Text → Text → JsMap Bool → Text → Option Bool
unfolding or_else
moved_consent from to allow k =
    if text_eq from k
    then none
    else if text_eq to k
    then or_else (JsMap.get to allow) (JsMap.get from allow)
    else JsMap.get k allow

or_else-some : (o : Option Bool) (b : Bool) → some (get_or o b) ≡ or_else o (some b)
unfolding or_else
or_else-some none b = refl
or_else-some (some c) b = refl

or_else-none : (o : Option Bool) → or_else o none ≡ o
unfolding or_else
or_else-none none = refl
or_else-none (some c) = refl

get-move_consent :
    (from to : Text) (allow : JsMap Bool) (k : Text) (o : Option Bool)
    → JsMap.get from allow ≡ o
    → JsMap.get k (move_consent from to allow o) ≡ (
        if text_eq from k
        then none
        else if text_eq to k
        then or_else (JsMap.get to allow) o
        else JsMap.get k allow)
unfolding move_consent
get-move_consent from to allow k none h =
    ground (arith, text_eq_iff from k, text_eq_iff to k, or_else-none (JsMap.get to allow))
get-move_consent from to allow k (some b) h =
    rw (get-delete, get-set, or_else-some (JsMap.get to allow) b) refl

get-remap_consent :
    (from to : Text) (allow : JsMap Bool) (k : Text)
    → JsMap.get k (remap_consent from to allow) ≡ moved_consent from to allow k
unfolding remap_consent moved_consent
get-remap_consent from to allow k = get-move_consent from to allow k (JsMap.get from allow) refl

get-map {ℓ} :
    {V : Type ℓ} (f : V → V) (m : JsMap V) (k : Text)
    → JsMap.get k (map (λ e. (e.0, f e.1)) m) ≡ Option.map f (JsMap.get k m)
unfolding JsMap.get
get-map f [] k = refl
get-map f ((j, v) ∷ m) k = elim (Bool-cases (text_eq j k)) [
  | inl h ↦ rw h refl
  | inr h ↦ rw h (get-map f m k)
]

get-local_consent :
    (from to k : Text) (o : Option PeerProfileCatalog)
    → JsMap.get k (local_consent (Option.map (remap_peer from to) o))
      ≡ moved_consent from to (local_consent o) k
unfolding remap_peer moved_consent JsMap.get
get-local_consent from to k none = ground arith
get-local_consent from to k (some p) = get-remap_consent from to p.local_allow k

get-remote_consent :
    (from to k : Text) (o : Option PeerProfileCatalog)
    → JsMap.get k (remote_consent (Option.map (remap_peer from to) o))
      ≡ moved_consent from to (remote_consent o) k
unfolding remap_peer moved_consent JsMap.get
get-remote_consent from to k none = ground arith
get-remote_consent from to k (some p) = get-remap_consent from to p.remote_allow k

module _ (js : Js) where
  -- When a profile of this device gets another id, the consent of both sides with every paired peer,
  -- known or not, follows: at the new id stands what stood there, or else what stood at the old id;
  -- at the old id nothing stands any more; and at no other id anything changes.
  pub consent-remap_peer_consent :
      (store : PeerSyncStore) (from_id to_id peer_id k : Text)
      → (JsMap.get k
            (local_consent (JsMap.get peer_id (remap_peer_consent js store from_id to_id).peers))
          ≡ moved_consent
              (js.to_lower from_id)
              (js.to_lower to_id)
              (local_consent (JsMap.get peer_id store.peers))
              k)
        × (JsMap.get k
              (remote_consent (JsMap.get peer_id (remap_peer_consent js store from_id to_id).peers))
            ≡ moved_consent
                (js.to_lower from_id)
                (js.to_lower to_id)
                (remote_consent (JsMap.get peer_id store.peers))
                k)
  unfolding remap_peer_consent
  consent-remap_peer_consent store from_id to_id peer_id k =
      rw (get-map (remap_peer (js.to_lower from_id) (js.to_lower to_id)) store.peers peer_id) (
        get-local_consent (js.to_lower from_id) (js.to_lower to_id) k
            (JsMap.get peer_id store.peers),
        get-remote_consent (js.to_lower from_id) (js.to_lower to_id) k
            (JsMap.get peer_id store.peers),
      )
