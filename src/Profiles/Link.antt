-- ===== src/Profiles/Link.antt =====
-- web/src/sync/profile-link.ts, `ProfileLink`: one connection of two devices with the gate of the
-- pairing phrase, the catalog, the consent and the profiles' engines. `E` is what the link passes on
-- of a data frame. A callback is recorded as an event and does not call the link before the
-- operation is over; an engine's handler is known by a number.
pub mod Incoming
pub mod Engines
pub mod Run
use grandpa_bob.Base.{
  ℕ, Bool, true, false, not, ◌&&◌, ◌||◌, Option, none, some, List, [], ◌∷◌, ◌++◌, map, filter,
  if◌then◌else◌,
}
use grandpa_bob.Base.Text.{Text, text, text_eq}
use grandpa_bob.Base.Json.{Json, Fields, str, num, arr, obj, fields, items, boolean}
use grandpa_bob.Base.Js.{Js}
use grandpa_bob.Base.JsMap.{JsMap}
use grandpa_bob.Profiles.Catalog.{ProfileCatalogEntry, normalize_catalog, normalize_device_name}

pub record ProfilePreview : Type 0 where
  pub id : Text
  pub files : ℕ
  pub bytes : ℕ
  pub updated_at : Option Text

-- The frames that are sent, the calls of the engines' handlers and of the callbacks.
pub data Event (E : Type 0) : Type 0 where
  control_sent : Fields → Event E
  data_sent : Text → E → Event E
  delivered : ℕ → E → Event E
  engine_closed : ℕ → Event E
  catalog_arrived : List ProfileCatalogEntry → Text → Text → Event E
  consent_arrived : JsMap Bool → Event E
  became_ready : Event E
  phrase_rejected : Text → Event E
  preview_asked : Text → Text → Event E
  preview_settled : Text → Option ProfilePreview → Event E
  control_passed : Fields → Event E
  link_closed : Event E

-- `subscribed` is `unsubscribeControl !== null`, and `timed` is `phraseTimer !== null`. Of a pending
-- preview the name of its request is kept.
pub record ProfileLink (E : Type 0) : Type 0 where
  pub device_id : Text
  pub device_name : Text
  pub default_profile_id : Option Text
  pub require_phrase : Bool
  pub catalog : List ProfileCatalogEntry
  pub consent : JsMap Bool
  pub handlers : JsMap ℕ
  pub close_handlers : JsMap (List ℕ)
  pub closed : Bool
  pub local_phrase : Bool
  pub remote_phrase : Bool
  pub ready : Bool
  pub pending_preview : List Text
  pub buffered : List (Text × E)
  pub timed : Bool
  pub subscribed : Bool
  pub events : List (Event E)

pub record ProfileLinkOptions : Type 0 where
  pub device_id : Text
  pub device_name : Text
  pub default_profile_id : Option Text
  pub require_phrase : Bool
  pub catalog : Json
  pub consent : JsMap Bool

-- The constructor: `has_control` says whether the transport splits control frames from data.
unfoldable pub profile_link : {E : Type 0} → Js → Bool → ProfileLinkOptions → ProfileLink E
profile_link js has_control options = record {
  device_id = options.device_id;
  device_name = options.device_name;
  default_profile_id = options.default_profile_id;
  require_phrase = options.require_phrase;
  catalog = normalize_catalog js (some options.catalog);
  consent = options.consent;
  handlers = [];
  close_handlers = [];
  closed = false;
  local_phrase = false;
  remote_phrase = false;
  ready = false;
  pending_preview = [];
  buffered = [];
  timed = false;
  subscribed = has_control;
  events = [];
}

-- The frames of the phrase, the catalog and the consent.
unfoldable pub phrase_ok : Fields
phrase_ok = fields ((text "op", str (text "phrase-ok")) ∷ [])

unfoldable pub phrase_mismatch : Text → Fields
phrase_mismatch reason =
    fields ((text "op", str (text "phrase-mismatch")) ∷ (text "reason", str reason) ∷ [])

unfoldable pub entry_json : ProfileCatalogEntry → Json
entry_json e = obj (
    fields (
      (text "id", str e.id)
      ∷ (text "name", str e.name)
      ∷ (text "createdAt", str e.created_at)
      ∷ []))

unfoldable pub catalog_frame : {E : Type 0} → ProfileLink E → Fields
unfolding entry_json
catalog_frame l = fields (
    (text "op", str (text "profile-catalog"))
    ∷ (text "deviceId", str l.device_id)
    ∷ (text "deviceName", str l.device_name)
    ∷ (text "profiles", arr (items (map entry_json l.catalog)))
    ∷ [])

unfoldable pub consent_frame : JsMap Bool → Fields
consent_frame consent = fields (
    (text "op", str (text "profile-consent"))
    ∷ (text "profiles", obj (fields (map (λ e. (e.0, boolean e.1)) consent)))
    ∷ [])

module _ {E : Type 0} where
  unfoldable pub emit : List (Event E) → ProfileLink E → ProfileLink E
  emit es l = record l { events = l.events ++ es }

  unfoldable pub send_control : Fields → ProfileLink E → ProfileLink E
  unfolding emit
  send_control control l = if l.closed then l else emit (control_sent control ∷ []) l

  unfoldable pub send_catalog : ProfileLink E → ProfileLink E
  unfolding send_control catalog_frame
  send_catalog l = if l.closed then l else send_control (catalog_frame l) l

  unfoldable pub send_consent : ProfileLink E → ProfileLink E
  unfolding send_control consent_frame
  send_consent l = if l.closed then l else send_control (consent_frame l.consent) l

  unfoldable pub all_callbacks : JsMap (List ℕ) → List (Event E)
  all_callbacks [] = []
  all_callbacks ((profile, cbs) ∷ m) = map engine_closed cbs ++ all_callbacks m

  unfoldable pub close : ProfileLink E → ProfileLink E
  unfolding emit all_callbacks
  close l =
      if l.closed
      then l
      else emit
          (map (λ r. preview_settled r none) l.pending_preview
            ++ all_callbacks l.close_handlers
            ++ link_closed ∷ [])
          (record l {
            closed = true;
            ready = false;
            subscribed = false;
            timed = false;
            pending_preview = [];
            handlers = [];
            buffered = [];
            close_handlers = [];
          })

  unfoldable pub mark_ready : ProfileLink E → ProfileLink E
  unfolding emit send_catalog send_consent
  mark_ready l =
      if l.ready || l.closed
      then l
      else emit (became_ready ∷ [])
          (send_consent (send_catalog (record l { ready = true; timed = false })))

  unfoldable pub start : ProfileLink E → ProfileLink E
  unfolding mark_ready
  start l =
      if l.require_phrase
      then record l { timed = true }
      else mark_ready (record l { local_phrase = true; remote_phrase = true })

  -- The timer of `start` fires, if it is still set.
  unfoldable pub phrase_timeout : ProfileLink E → ProfileLink E
  unfolding emit close
  phrase_timeout l =
      if not l.timed
      then l
      else if l.ready || l.closed
      then record l { timed = false }
      else close (
          emit (phrase_rejected (text "the phrase was not confirmed in time") ∷ [])
            (record l { timed = false }))

  unfoldable pub confirm_phrase : ProfileLink E → ProfileLink E
  unfolding send_control mark_ready
  confirm_phrase l =
      if l.local_phrase
      then l
      else let told = send_control phrase_ok (record l { local_phrase = true }) in
        if told.remote_phrase then mark_ready told else told

  unfoldable pub reject_phrase : Text → ProfileLink E → ProfileLink E
  unfolding send_control emit close
  reject_phrase reason l =
      if l.closed
      then l
      else close (emit (phrase_rejected reason ∷ []) (send_control (phrase_mismatch reason) l))

  unfoldable pub set_catalog : Js → Json → Bool → ProfileLink E → ProfileLink E
  unfolding send_catalog
  set_catalog js catalog sent l =
      let changed = record l { catalog = normalize_catalog js (some catalog) } in
      if sent && changed.ready then send_catalog changed else changed

  unfoldable pub set_consent : JsMap Bool → ProfileLink E → ProfileLink E
  unfolding send_consent
  set_consent consent l =
      let changed = record l { consent = consent } in
      if changed.ready then send_consent changed else changed

  unfoldable pub set_device_name : Text → ProfileLink E → ProfileLink E
  unfolding send_catalog
  set_device_name name l =
      let value = normalize_device_name (some name) in
      if text_eq value [] || text_eq value l.device_name
      then l
      else if l.ready
      then send_catalog (record l { device_name = value })
      else record l { device_name = value }
