-- ===== src/Profiles/Rows.antt =====
-- web/src/profile-sync-model.ts: the rows of the Profiles dialog and the list of paired devices.
pub mod Connected
use grandpa_bob.Base.{
  ℕ, ◌==◌, Bool, true, false, not, ◌&&◌, Option, none, some, List, [], ◌∷◌, ◌++◌, map, any, ltb,
  if◌then◌else◌, get_or, is_some,
}
use grandpa_bob.Base.Text.{Text, text, text_eq, includes}
use grandpa_bob.Base.Js.{Js}
use grandpa_bob.Base.JsMap
use grandpa_bob.Base.JsMap.{JsMap}
use grandpa_bob.Base.Sort.{sort}
use grandpa_bob.Profiles.Catalog.{
  ProfileCatalogEntry, effective_allow, lower_id, normalize_device_name,
}
use grandpa_bob.Profiles.Store.{PeerProfileCatalog, PeerSyncStore}

pub data ProfileKind : Type 0 where
  opfs desktop : ProfileKind

pub record LocalProfileLike : Type 0 where
  pub id : Text
  pub name : Text
  pub created_at : Text
  pub last_used_at : Option Text
  pub kind : Option ProfileKind
  pub folder : Option Text
  pub visible_apps : Option (List Text)
  pub seed : Option (Text × Text)

pub record ProfilePeerRow : Type 0 where
  pub peer_id : Text
  pub device_name : Text
  pub present : Bool
  pub local_allow : Bool
  pub remote_allow : Bool
  pub allowed : Bool

pub record ProfileRow : Type 0 where
  pub id : Text
  pub name : Text
  pub local : Option LocalProfileLike
  pub remote_only : Bool
  pub peers : List ProfilePeerRow

pub record PairedDeviceRow : Type 0 where
  pub peer_id : Text
  pub device_name : Text
  pub online : Bool
  pub last_seen : Text
  pub profiles : List ProfileCatalogEntry

unfoldable pub add_row : ProfilePeerRow → ProfileRow → ProfileRow
add_row p row = record row { peers = row.peers ++ p ∷ [] }

module _ (js : Js) where
  unfoldable pub local_rows : List LocalProfileLike → JsMap ProfileRow → JsMap ProfileRow
  local_rows [] rows = rows
  local_rows (r ∷ rs) rows =
      let id = js.to_lower r.id in
      local_rows rs (
        JsMap.set id
          (record { id = id; name = r.name; local = some r; remote_only = false; peers = [] }) rows)

  unfoldable pub peer_row : PeerProfileCatalog → Text → Bool → ProfilePeerRow
  peer_row peer id present = record {
    peer_id = peer.peer_id;
    device_name = peer.device_name;
    present = present;
    local_allow = get_or (JsMap.get id peer.local_allow) false;
    remote_allow = get_or (JsMap.get id peer.remote_allow) false;
    allowed = effective_allow js peer.local_allow peer.remote_allow id false;
  }

  -- The entries of a peer's catalog.
  unfoldable pub catalog_rows :
      PeerProfileCatalog → List ProfileCatalogEntry → JsMap ProfileRow → JsMap ProfileRow
  unfolding peer_row add_row
  catalog_rows peer [] rows = rows
  catalog_rows peer (e ∷ es) rows =
      let id = lower_id js e in
      let row =
        get_or (JsMap.get id rows)
          (record { id = id; name = e.name; local = none; remote_only = true; peers = [] }) in
      catalog_rows peer es (JsMap.set id (add_row (peer_row peer id true) row) rows)

  -- A local profile that the peer does not have gets a row too.
  unfoldable pub missing_row : PeerProfileCatalog → ProfileRow → ProfileRow
  unfolding peer_row add_row
  missing_row peer row =
      if not (is_some row.local)
      then row
      else if any (λ p. text_eq p.peer_id peer.peer_id) row.peers
      then row
      else add_row (peer_row peer row.id (includes (map (lower_id js) peer.profiles) row.id)) row

  unfoldable pub peer_rows : List PeerProfileCatalog → JsMap ProfileRow → JsMap ProfileRow
  unfolding catalog_rows missing_row
  peer_rows [] rows = rows
  peer_rows (p ∷ ps) rows =
      peer_rows ps (map (λ e. (e.0, missing_row p e.1)) (catalog_rows p p.profiles rows))

  -- Whether the comparison of two rows is above 0.
  unfoldable pub row_after : ProfileRow → ProfileRow → Bool
  row_after a b =
      if a.remote_only && not b.remote_only
      then true
      else if not a.remote_only && b.remote_only
      then false
      else if text_eq a.name (text "default")
      then false
      else if text_eq b.name (text "default")
      then true
      else js.locale_after a.name b.name

  unfoldable pub build_profile_rows :
      List LocalProfileLike → List PeerProfileCatalog → List ProfileRow
  unfolding local_rows peer_rows row_after sort
  build_profile_rows local peers =
      sort row_after (map (λ e. e.1) (peer_rows peers (local_rows local [])))

  abbrev pub seen_at : Text → ℕ
  seen_at iso = get_or (js.parse_date iso) 0

  unfoldable pub device_row : PeerProfileCatalog → PairedDeviceRow
  unfolding sort
  device_row peer =
      let name = normalize_device_name (some peer.device_name) in
      record {
        peer_id = peer.peer_id;
        device_name = if text_eq name [] then text "peer" else name;
        online = peer.online;
        last_seen = peer.last_seen;
        profiles = sort (λ a b. js.locale_after a.name b.name) peer.profiles;
      }

  unfoldable pub device_after : PairedDeviceRow → PairedDeviceRow → Bool
  device_after a b =
      if a.online && not b.online
      then false
      else if not a.online && b.online
      then true
      else if seen_at b.last_seen == seen_at a.last_seen
      then js.locale_after a.device_name b.device_name
      else ltb (seen_at a.last_seen) (seen_at b.last_seen)

  -- The peers of the store as `Object.values` gives them, sorted.
  unfoldable pub paired_devices : PeerSyncStore → List PairedDeviceRow
  unfolding device_row device_after sort
  paired_devices store = sort device_after (map (λ e. device_row e.1) store.peers)
