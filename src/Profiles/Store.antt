-- ===== src/Profiles/Store.antt =====
-- web/src/profile-sync-model.ts: what is stored of every paired device, how a catalog that arrives
-- updates it, and the move of the consent when a profile gets another id.
pub mod Vetoes
pub mod Moved
use grandpa_bob.Base.{
  ℕ, ◌==◌, Bool, true, false, not, ◌&&◌, Option, none, some, List, [], ◌∷◌, ◌++◌, map,
  if◌then◌else◌, get_or, ◌>>=◌,
}
use grandpa_bob.Base.Text.{add_member, Text, text, text_eq, includes}
use grandpa_bob.Base.Json.{
  Json, Fields, str, num, true_value, false_value, member, string_member, number_member, record_of,
  array_of, entries_of,
}
use grandpa_bob.Base.Js.{Js}
use grandpa_bob.Base.JsMap
use grandpa_bob.Base.JsMap.{JsMap}
use grandpa_bob.Profiles.Catalog.{
  ProfileCatalogEntry, AutoLink, epoch, is_valid_profile_id, normalize_catalog,
  default_local_consent, lower_id,
}

pub record PeerProfileCatalog : Type 0 where
  pub peer_id : Text
  pub device_name : Text
  pub last_seen : Text
  pub online : Bool
  pub profiles : List ProfileCatalogEntry
  pub local_allow : JsMap Bool
  pub remote_allow : JsMap Bool
  pub linked_names : List Text
  pub unlinked_ids : List Text

-- The version is always 1.
pub record PeerSyncStore : Type 0 where
  pub peers : JsMap PeerProfileCatalog

abbrev pub empty_peer_store : PeerSyncStore
empty_peer_store = record { peers = [] }

-- `new Set(raw.filter(…))`
unfoldable pub strings_into : List Json → List Text → List Text
unfolding add_member
strings_into [] out = out
strings_into (str x ∷ vs) out = strings_into vs (add_member x out)
strings_into (_ ∷ vs) out = strings_into vs out

-- `stringList`, where `none` is undefined.
unfoldable pub string_list : Option Json → List Text
unfolding strings_into
string_list raw = elim (raw >>= array_of) [ none ↦ [] | some vs ↦ strings_into vs [] ]

pub record PeerInput : Type 0 where
  pub peer_id : Text
  pub device_name : Text
  pub profiles : List ProfileCatalogEntry
  pub catalog : List ProfileCatalogEntry
  pub links : List AutoLink

abbrev bool_of : Json → Option Bool
bool_of true_value = some true
bool_of false_value = some false
bool_of _ = none

unfoldable pub versioned_peers : Fields → Option (List (Text × Json))
versioned_peers fs = do
  version ← number_member (text "version") fs
  peers ← member (text "peers") fs
  _ ← record_of peers
  if version == 1 then some (entries_of peers) else none

-- The loop over the links: the names that were considered and the ids that were given up.
unfoldable pub linked_after : List AutoLink → List Text → List Text
unfolding add_member
linked_after [] names = names
linked_after (l ∷ ls) names = linked_after ls (add_member l.name names)

unfoldable pub unlinked_after : List AutoLink → List Text → List Text
unfolding add_member
unlinked_after [] ids = ids
unlinked_after (l ∷ ls) ids =
    unlinked_after ls (elim l.adopt_local [ none ↦ ids | some (from, to) ↦ add_member from ids ])

unfoldable pub links_by_id : List AutoLink → JsMap AutoLink → JsMap AutoLink
links_by_id [] m = m
links_by_id (l ∷ ls) m = links_by_id ls (JsMap.set l.remote_id l m)

-- The peer's consent for a profile that it has not spoken about is a veto.
unfoldable pub veto_new : List ProfileCatalogEntry → JsMap Bool → JsMap Bool
veto_new [] out = out
veto_new (e ∷ es) out = veto_new es (if JsMap.has e.id out then out else JsMap.set e.id false out)

abbrev pub local_consent : Option PeerProfileCatalog → JsMap Bool
local_consent none = []
local_consent (some p) = p.local_allow

abbrev pub remote_consent : Option PeerProfileCatalog → JsMap Bool
remote_consent none = []
remote_consent (some p) = p.remote_allow

unfoldable pub move_consent : Text → Text → JsMap Bool → Option Bool → JsMap Bool
move_consent from to allow none = allow
move_consent from to allow (some b) =
    JsMap.delete from (JsMap.set to (get_or (JsMap.get to allow) b) allow)

-- The consent under `from` moves to `to`, unless there is one already.
unfoldable pub remap_consent : Text → Text → JsMap Bool → JsMap Bool
unfolding move_consent
remap_consent from to allow = move_consent from to allow (JsMap.get from allow)

unfoldable pub remap_peer : Text → Text → PeerProfileCatalog → PeerProfileCatalog
unfolding remap_consent
remap_peer from to peer = record peer {
  local_allow = remap_consent from to peer.local_allow;
  remote_allow = remap_consent from to peer.remote_allow;
}

-- What is sent: this side's vetoes only.
unfoldable pub consent_payload : Option PeerProfileCatalog → JsMap Bool
consent_payload peer = local_consent peer

module _ (js : Js) where
  unfoldable pub put_bool : Text → Option Bool → JsMap Bool → JsMap Bool
  put_bool key none out = out
  put_bool key (some b) out =
      if is_valid_profile_id key then JsMap.set (js.to_lower key) b out else out

  unfoldable pub bool_entries : List (Text × Json) → JsMap Bool → JsMap Bool
  unfolding put_bool
  bool_entries [] out = out
  bool_entries ((key, v) ∷ es) out = bool_entries es (put_bool key (bool_of v) out)

  unfoldable pub bool_map : Option Json → JsMap Bool
  unfolding bool_entries
  bool_map none = []
  bool_map (some raw) = bool_entries (entries_of raw) []

  unfoldable pub parse_peer : Text → Fields → PeerProfileCatalog
  unfolding bool_map string_list
  parse_peer peer_id fs = record {
    peer_id = peer_id;
    device_name = get_or (string_member (text "deviceName") fs) (text "peer");
    last_seen = get_or (string_member (text "lastSeen") fs) epoch;
    online = elim (member (text "online") fs) [ some true_value ↦ true | _ ↦ false ];
    profiles = normalize_catalog js (member (text "profiles") fs);
    local_allow = bool_map (member (text "localAllow") fs);
    remote_allow = bool_map (member (text "remoteAllow") fs);
    linked_names = string_list (member (text "linkedNames") fs);
    unlinked_ids = string_list (member (text "unlinkedIds") fs);
  }

  unfoldable pub parse_peers :
      List (Text × Json) → JsMap PeerProfileCatalog → JsMap PeerProfileCatalog
  unfolding parse_peer
  parse_peers [] out = out
  parse_peers ((peer_id, v) ∷ es) out =
      parse_peers es (elim (record_of v) [
        | none ↦ out
        | some fs ↦ JsMap.set peer_id (parse_peer peer_id fs) out
      ])

  unfoldable pub parse_peer_store : Json → PeerSyncStore
  unfolding parse_peers versioned_peers
  parse_peer_store raw = elim (record_of raw >>= versioned_peers) [
    | none ↦ empty_peer_store
    | some es ↦ record { peers = parse_peers es [] }
  ]

  -- The item in the storage, read by `JSON.parse`: `none` is a missing or empty item, or a throw.
  unfoldable pub load_peer_store : Option Json → PeerSyncStore
  unfolding parse_peer_store
  load_peer_store none = empty_peer_store
  load_peer_store (some raw) = parse_peer_store raw

  -- A remote entry under the id that both sides converge on.
  unfoldable pub canonical_entry : JsMap AutoLink → ProfileCatalogEntry → ProfileCatalogEntry
  canonical_entry links e = elim (JsMap.get (lower_id js e) links) [
    | none ↦ e
    | some l ↦ if text_eq l.id e.id then e else record e { id = l.id }
  ]

  unfoldable pub adopted_ids : List AutoLink → JsMap Text → JsMap Text
  adopted_ids [] m = m
  adopted_ids (l ∷ ls) m =
      adopted_ids ls
        (elim l.adopt_local [ none ↦ m | some (from, to) ↦ JsMap.set (js.to_lower from) to m ])

  unfoldable pub adopted_entry : JsMap Text → ProfileCatalogEntry → ProfileCatalogEntry
  adopted_entry adopt e = elim (JsMap.get (lower_id js e) adopt) [
    | none ↦ e
    | some to ↦ if text_eq to [] then e else record e { id = to }
  ]

  unfoldable pub updated_peer : Option PeerProfileCatalog → PeerInput → Text → PeerProfileCatalog
  unfolding linked_after unlinked_after links_by_id canonical_entry adopted_ids adopted_entry
      veto_new
  updated_peer existing input now =
      let profiles = map (canonical_entry (links_by_id input.links [])) input.profiles in
      let local_catalog = map (adopted_entry (adopted_ids input.links [])) input.catalog in
      record {
        peer_id = input.peer_id;
        device_name = input.device_name;
        last_seen = now;
        online = true;
        profiles = profiles;
        local_allow =
            default_local_consent js local_catalog (map (lower_id js) profiles)
              (local_consent existing);
        remote_allow = veto_new profiles (remote_consent existing);
        linked_names =
            linked_after input.links (elim existing [ none ↦ [] | some p ↦ p.linked_names ]);
        unlinked_ids =
            unlinked_after input.links (elim existing [ none ↦ [] | some p ↦ p.unlinked_ids ]);
      }

  -- `upsertPeer`, where `now` is the time as a text.
  unfoldable pub upsert_peer : PeerSyncStore → PeerInput → Text → PeerSyncStore
  unfolding updated_peer
  upsert_peer store input now = record {
    peers =
        JsMap.set input.peer_id (updated_peer (JsMap.get input.peer_id store.peers) input now)
          store.peers;
  }

  unfoldable pub remap_peer_consent : PeerSyncStore → Text → Text → PeerSyncStore
  unfolding remap_peer
  remap_peer_consent store from_id to_id = record {
    peers = map (λ e. (e.0, remap_peer (js.to_lower from_id) (js.to_lower to_id) e.1)) store.peers;
  }
