-- ===== src/Profiles/Link/Incoming.antt =====
-- web/src/sync/profile-link.ts: `receive`, `receiveControl`, `onControl` and `answerPreview`.
use grandpa_bob.Base.{
  Bool, true, false, not, ◌&&◌, ◌||◌, Option, none, some, List, [], ◌∷◌, ◌++◌, filter, length, ltb,
  take, if◌then◌else◌, get_or, ◌>>=◌, is_some,
}
use grandpa_bob.Base.Text.{Text, text, text_eq, trim, includes}
use grandpa_bob.Base.Json.{
  Json, Fields, null, true_value, false_value, str, num, obj, fields, member, pairs, string_member,
}
use grandpa_bob.Base.Js.{Js, to_text, to_count}
use grandpa_bob.Base.JsMap
use grandpa_bob.Base.JsMap.{JsMap}
use grandpa_bob.Profiles.Catalog.{normalize_catalog}
use grandpa_bob.Profiles.Link.{
  ProfileLink, ProfilePreview, consent_arrived, catalog_arrived, preview_asked, preview_settled,
  control_passed, phrase_rejected, delivered, phrase_ok, emit, send_control, close, mark_ready,
}

-- A frame of the transport: a control frame, or a data frame with its tag.
pub data SyncEnvelope (E : Type 0) : Type 0 where
  control_frame : Fields → SyncEnvelope E
  data_frame : Option Text → E → SyncEnvelope E

-- `String(control.key ?? fallback)`
unfoldable pub text_at : Js → Text → Fields → Text → Text
unfolding to_text
text_at js key fs fallback = elim (member key fs) [
  | none ↦ fallback
  | some null ↦ fallback
  | some v ↦ to_text js v
]

unfoldable pub consent_entries : Js → List (Text × Json) → JsMap Bool → JsMap Bool
consent_entries js [] out = out
consent_entries js ((id, true_value) ∷ es) out =
    consent_entries js es (JsMap.set (js.to_lower id) true out)
consent_entries js ((id, false_value) ∷ es) out =
    consent_entries js es (JsMap.set (js.to_lower id) false out)
consent_entries js (_ ∷ es) out = consent_entries js es out

unfoldable pub consent_of : Js → Option Json → JsMap Bool
unfolding consent_entries
consent_of js (some (obj fs)) = consent_entries js (pairs fs) []
consent_of js _ = []

unfoldable pub peer_name : Option Text → Text
peer_name none = text "peer"
peer_name (some name) = if text_eq (trim name) [] then text "peer" else take 120 (trim name)

-- The answer to a preview's request.
unfoldable pub preview_of : Js → Fields → Option ProfilePreview
unfolding text_at to_count
preview_of js fs = if is_some (string_member (text "error") fs) then none else do
  files ← member (text "files") fs >>= to_count js
  bytes ← member (text "bytes") fs >>= to_count js
  some (record {
    id = text_at js (text "profile") fs [];
    files = files;
    bytes = bytes;
    updated_at = string_member (text "updatedAt") fs;
  })

unfoldable pub preview_result : Option ProfilePreview → List (Text × Json)
preview_result none = (text "error", str (text "not available")) ∷ []
preview_result (some p) =
    (text "files", num p.files)
    ∷ (text "bytes", num p.bytes)
    ∷ elim p.updated_at [ none ↦ [] | some at ↦ (text "updatedAt", str at) ∷ [] ]

module _ {E : Type 0} (js : Js) where
  unfoldable pub on_catalog : Fields → ProfileLink E → ProfileLink E
  unfolding peer_name emit
  on_catalog fs l =
      emit
        (catalog_arrived (normalize_catalog js (member (text "profiles") fs))
            (get_or (string_member (text "deviceId") fs) l.device_id)
            (peer_name (string_member (text "deviceName") fs))
          ∷ [])
        l

  -- `answerPreview` up to the call of `onPreviewRequest`, and from its result on.
  unfoldable pub ask_preview : Fields → ProfileLink E → ProfileLink E
  unfolding text_at emit
  ask_preview fs l =
      let request = text_at js (text "request") fs [] in
      let profile = js.to_lower (text_at js (text "profile") fs []) in
      if text_eq request [] || text_eq profile []
      then l
      else emit (preview_asked request profile ∷ []) l

  unfoldable pub answer_preview :
      Text → Text → Option ProfilePreview → ProfileLink E → ProfileLink E
  unfolding preview_result send_control
  answer_preview request profile preview l =
      if l.closed
      then l
      else send_control
          (fields (
            (text "op", str (text "profile-preview-result"))
            ∷ (text "request", str request)
            ∷ (text "profile", str profile)
            ∷ preview_result preview))
          l

  unfoldable pub settle_preview : Fields → ProfileLink E → ProfileLink E
  unfolding text_at preview_of emit
  settle_preview fs l =
      let request = text_at js (text "request") fs [] in
      if not (includes l.pending_preview request)
      then l
      else emit (preview_settled request (preview_of js fs) ∷ [])
          (record l { pending_preview = filter (λ r. not (text_eq r request)) l.pending_preview })

  unfoldable pub on_phrase_ok : ProfileLink E → ProfileLink E
  unfolding send_control mark_ready
  on_phrase_ok l =
      let heard = record l { remote_phrase = true } in
      let answered =
        if not heard.local_phrase && not heard.require_phrase
        then send_control phrase_ok (record heard { local_phrase = true })
        else heard in
      if answered.local_phrase && answered.remote_phrase then mark_ready answered else answered

  -- The operations behind the gate.
  unfoldable pub on_ready_control : Text → Fields → ProfileLink E → ProfileLink E
  unfolding on_catalog consent_of ask_preview settle_preview emit
  on_ready_control op fs l =
      if text_eq op (text "profile-catalog")
      then on_catalog fs l
      else if text_eq op (text "profile-consent")
      then emit (consent_arrived (consent_of js (member (text "profiles") fs)) ∷ []) l
      else if text_eq op (text "profile-preview")
      then ask_preview fs l
      else if text_eq op (text "profile-preview-result")
      then settle_preview fs l
      else emit (control_passed fs ∷ []) l

  unfoldable pub on_control : Fields → ProfileLink E → ProfileLink E
  unfolding on_ready_control on_phrase_ok text_at emit close
  on_control fs l =
      let op = text_at js (text "op") fs [] in
      if text_eq op (text "phrase-ok")
      then on_phrase_ok l
      else if text_eq op (text "phrase-mismatch")
      then close (
          emit
            (phrase_rejected (text_at js (text "reason") fs (text "the peer rejected the phrase"))
              ∷ [])
            l)
      else if not l.ready
      then l
      else on_ready_control op fs l

  unfoldable pub receive_control : Fields → ProfileLink E → ProfileLink E
  unfolding on_control
  receive_control fs l = if l.closed then l else on_control fs l

  -- A data frame of a profile: to its engine, or to wait for it.
  unfoldable pub receive_data : Text → E → ProfileLink E → ProfileLink E
  unfolding emit
  receive_data profile body l =
      if text_eq profile [] then l else elim (JsMap.get profile l.handlers) [
        | some h ↦ emit (delivered h body ∷ []) l
        | none ↦
            if ltb (length l.buffered) 200
            then record l { buffered = l.buffered ++ (profile, body) ∷ [] }
            else l
      ]

  unfoldable pub receive : SyncEnvelope E → ProfileLink E → ProfileLink E
  unfolding on_control receive_data
  receive (control_frame fs) l = if l.closed then l else on_control fs l
  receive (data_frame profile body) l =
      if l.closed || not l.ready
      then l
      else receive_data (js.to_lower (get_or profile (get_or l.default_profile_id []))) body l
