-- ===== src/Profiles/Catalog.antt =====
-- web/src/profile-sync-model.ts: catalogs of profiles, the one-time link of profiles of the same
-- name, and the consent of both sides. A time is a number of milliseconds since 1970.
pub mod Unique
pub mod Linked
pub mod Consent
use grandpa_bob.Base.{
  ℕ, zero, suc, ◌+◌, Bool, true, false, not, ◌&&◌, ◌||◌, Option, none, some, List, [], ◌∷◌, ◌++◌,
  map, leb, ltb, ◌==◌, if◌then◌else◌, get_or, is_some, ◌>>=◌, length, take, drop, all,
}
use grandpa_bob.Base.Text.{Text, text, text_eq, text_lt, is_space, trim, includes}
use grandpa_bob.Base.Json.{Json, Fields, string_member, record_of, array_of, member}
use grandpa_bob.Base.Js.{Js}
use grandpa_bob.Base.JsMap
use grandpa_bob.Base.JsMap.{JsMap}

pub record ProfileCatalogEntry : Type 0 where
  pub id : Text
  pub name : Text
  pub created_at : Text

unfoldable pub is_hex : ℕ → Bool
is_hex c = leb 48 c && leb c 57 || leb 65 c && leb c 70 || leb 97 c && leb c 102

-- A hyphen at these places, and hexadecimal digits at all others.
unfoldable pub is_uuid_from : ℕ → Text → Bool
unfolding is_hex
is_uuid_from i [] = i == 36
is_uuid_from i (c ∷ s) =
    (if i == 8 || i == 13 || i == 18 || i == 23 then c == 45 else is_hex c)
    && is_uuid_from (i + 1) s

-- `PROFILE_ID_RE`
unfoldable pub is_valid_profile_id : Text → Bool
unfolding is_uuid_from
is_valid_profile_id id = is_uuid_from 0 id

-- `s.replace(/\s+/g, " ")`: `inside` says that the unit before was white space.
unfoldable pub collapse : Bool → Text → Text
collapse inside [] = []
collapse inside (c ∷ s) =
    let spaced = collapse true s in
    let plain = collapse false s in
    if is_space c then (if inside then spaced else 32 ∷ spaced) else c ∷ plain

-- `normalizeDeviceName`, where `none` is what is no string.
unfoldable pub normalize_device_name : Option Text → Text
unfolding collapse
normalize_device_name none = []
normalize_device_name (some raw) = take 80 (collapse false (trim raw))

abbrev pub epoch : Text
epoch = text "1970-01-01T00:00:00.000Z"

pub record AutoLink : Type 0 where
  pub id : Text
  pub adopt_local : Option (Text × Text)
  pub remote_id : Text
  pub name : Text

module _ (js : Js) where
  unfoldable pub valid_date : Option Text → Text
  valid_date none = epoch
  valid_date (some at) = if is_some (js.parse_date at) then at else epoch

  unfoldable pub valid_entry : Text → Text → Option Text → Option ProfileCatalogEntry
  unfolding valid_date
  valid_entry id name at =
      if is_valid_profile_id id && not (text_eq (trim name) [])
      then some
          (record { id = js.to_lower id; name = take 64 (trim name); created_at = valid_date at })
      else none

  unfoldable pub valid_catalog_entry : Json → Option ProfileCatalogEntry
  unfolding valid_entry
  valid_catalog_entry raw = do
    fs ← record_of raw
    id ← string_member (text "id") fs
    name ← string_member (text "name") fs
    valid_entry id name (string_member (text "createdAt") fs)

  -- The loop of `normalizeCatalog`, with the ids seen.
  unfoldable pub catalog_of :
      List (Option ProfileCatalogEntry) → List Text → List ProfileCatalogEntry
  catalog_of [] seen = []
  catalog_of (none ∷ es) seen = catalog_of es seen
  catalog_of (some e ∷ es) seen =
      let skipped = catalog_of es seen in
      let taken = catalog_of es (e.id ∷ seen) in if includes seen e.id then skipped else e ∷ taken

  unfoldable pub array_catalog : Option (List Json) → List ProfileCatalogEntry
  unfolding catalog_of
  array_catalog none = []
  array_catalog (some vs) = catalog_of (map valid_catalog_entry vs) []

  -- `normalizeCatalog`, where `none` is undefined.
  unfoldable pub normalize_catalog : Option Json → List ProfileCatalogEntry
  unfolding array_catalog
  normalize_catalog raw = array_catalog (raw >>= array_of)

  abbrev earlier : Option ℕ → Option ℕ → Option Bool
  earlier (some a) (some b) = if a == b then none else some (ltb a b)
  earlier _ _ = none

  -- The older profile's id, and the smaller id where the times do not decide.
  unfoldable pub canonical_profile_id : ProfileCatalogEntry → ProfileCatalogEntry → Text
  canonical_profile_id local remote =
      elim (earlier (js.parse_date local.created_at) (js.parse_date remote.created_at)) [
        | some true ↦ local.id
        | some false ↦ remote.id
        | none ↦
            if text_lt (js.to_lower remote.id) (js.to_lower local.id) then remote.id else local.id
      ]

  -- `new Map(entries.map((e) => [key(e), e]))`
  unfoldable pub index_by :
      (ProfileCatalogEntry → Text)
      → List ProfileCatalogEntry
      → JsMap ProfileCatalogEntry
      → JsMap ProfileCatalogEntry
  index_by key [] m = m
  index_by key (e ∷ es) m = index_by key es (JsMap.set (key e) e m)

  abbrev pub lower_id : ProfileCatalogEntry → Text
  lower_id e = js.to_lower e.id

  abbrev pub lower_name : ProfileCatalogEntry → Text
  lower_name e = js.to_lower e.name

  unfoldable pub link_to : ProfileCatalogEntry → ProfileCatalogEntry → AutoLink
  unfolding canonical_profile_id
  link_to local remote =
      let id = js.to_lower (canonical_profile_id local remote) in
      record {
        id = id;
        adopt_local = if text_eq (lower_id local) id then none else some (local.id, id);
        remote_id = lower_id remote;
        name = local.name;
      }

  -- What the loop of `autoLinkProfiles` does with a remote entry, given the local one of its name.
  unfoldable pub link_entry :
      JsMap ProfileCatalogEntry
      → List Text
      → List Text
      → ProfileCatalogEntry
      → Option ProfileCatalogEntry
      → Option AutoLink
  unfolding link_to
  link_entry local_by_id linked unlinked remote none = none
  link_entry local_by_id linked unlinked remote (some local) =
      if JsMap.has (lower_id remote) local_by_id
        || includes unlinked (lower_id remote)
        || includes linked (lower_name remote)
        || includes unlinked (lower_id local)
      then none
      else some (link_to local remote)

  unfoldable pub link_entries :
      JsMap ProfileCatalogEntry
      → JsMap ProfileCatalogEntry
      → List Text
      → List Text
      → List ProfileCatalogEntry
      → List AutoLink
  unfolding link_entry
  link_entries local_by_id local_by_name linked unlinked [] = []
  link_entries local_by_id local_by_name linked unlinked (r ∷ rs) =
      let rest = link_entries local_by_id local_by_name linked unlinked rs in
      elim (link_entry local_by_id linked unlinked r (JsMap.get (lower_name r) local_by_name)) [
        | none ↦ rest
        | some l ↦ l ∷ rest
      ]

  unfoldable pub auto_link_profiles :
      List ProfileCatalogEntry → List ProfileCatalogEntry → List Text → List Text → List AutoLink
  unfolding index_by link_entries
  auto_link_profiles local remote linked_names unlinked_ids =
      link_entries (index_by lower_id local []) (index_by lower_name local [])
        (map js.to_lower linked_names) (map js.to_lower unlinked_ids) remote

  -- Both vetoes must be open.
  unfoldable pub effective_allow : JsMap Bool → JsMap Bool → Text → Bool → Bool
  effective_allow local_allow remote_allow profile_id fallback =
      let id = js.to_lower profile_id in
      get_or (JsMap.get id local_allow) fallback && get_or (JsMap.get id remote_allow) fallback

  unfoldable pub default_local_consent :
      List ProfileCatalogEntry → List Text → JsMap Bool → JsMap Bool
  default_local_consent [] remote_ids out = out
  default_local_consent (e ∷ es) remote_ids out =
      let id = lower_id e in
      default_local_consent es remote_ids
        (if JsMap.has id out then out else JsMap.set id (includes remote_ids id) out)

  unfoldable pub same_profile_id : Option Text → Option Text → Bool
  same_profile_id (some a) (some b) =
      not (text_eq a []) && not (text_eq b []) && text_eq (js.to_lower a) (js.to_lower b)
  same_profile_id _ _ = false
