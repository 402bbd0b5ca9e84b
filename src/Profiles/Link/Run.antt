-- ===== src/Profiles/Link/Run.antt =====
-- The link as a machine: everything that can happen to it, in any order.
pub mod Shut
pub mod Held
pub mod Gate
pub mod Closed
use grandpa_bob.Base.{ℕ, Bool, true, false, Option, none, some, List, [], ◌∷◌, if◌then◌else◌}
use grandpa_bob.Base.Text.{Text}
use grandpa_bob.Base.Json.{Json, Fields}
use grandpa_bob.Base.Js.{Js}
use grandpa_bob.Base.JsMap.{JsMap}
use grandpa_bob.Profiles.Link.{
  ProfileLink, ProfilePreview, start, phrase_timeout, confirm_phrase, reject_phrase, set_catalog,
  set_consent, set_device_name, send_catalog, close,
}
use grandpa_bob.Profiles.Link.Incoming.{
  SyncEnvelope, receive, receive_control, on_control, answer_preview,
}
use grandpa_bob.Profiles.Link.Engines.{
  VirtualPeer, peer_send, peer_on_message, peer_on_closed, peer_close, detach_profile,
  request_preview, preview_timeout,
}

-- Calls of the link's operations and of its virtual peers', frames and the end of the transport, and
-- timers.
pub data Input (E : Type 0) : Type 0 where
  started confirmed timed_out catalog_resent closing : Input E
  rejected : Text → Input E
  catalog_set : Json → Bool → Input E
  consent_set : JsMap Bool → Input E
  name_set : Text → Input E
  received : SyncEnvelope E → Input E
  control_received : Fields → Input E
  control_fed : Fields → Input E
  preview_answered : Text → Text → Option ProfilePreview → Input E
  engine_sent : VirtualPeer → E → Input E
  engine_attached : VirtualPeer → ℕ → Input E
  engine_watched : VirtualPeer → ℕ → Input E
  engine_ended : VirtualPeer → Input E
  detached : Text → Input E
  preview_requested : Bool → Text → Text → Input E
  preview_timed_out : Text → Input E

module _ {E : Type 0} (js : Js) where
  -- `control_received` is a frame of a transport that splits control frames from data.
  unfoldable pub step : Input E → ProfileLink E → ProfileLink E
  unfolding start phrase_timeout confirm_phrase reject_phrase set_catalog set_consent
      set_device_name send_catalog close receive receive_control on_control answer_preview peer_send
      peer_on_message peer_on_closed peer_close detach_profile request_preview preview_timeout
  step started l = start l
  step confirmed l = confirm_phrase l
  step timed_out l = phrase_timeout l
  step catalog_resent l = send_catalog l
  step closing l = close l
  step (rejected reason) l = reject_phrase reason l
  step (catalog_set catalog sent) l = set_catalog js catalog sent l
  step (consent_set consent) l = set_consent consent l
  step (name_set name) l = set_device_name name l
  step (received envelope) l = receive js envelope l
  step (control_received fs) l = if l.subscribed then on_control js fs l else l
  step (control_fed fs) l = receive_control js fs l
  step (preview_answered request profile preview) l = answer_preview js request profile preview l
  step (engine_sent p body) l = peer_send p body l
  step (engine_attached p cb) l = peer_on_message p cb l
  step (engine_watched p cb) l = peer_on_closed p cb l
  step (engine_ended p) l = (peer_close p l).1
  step (detached profile) l = detach_profile js profile l
  step (preview_requested connected request profile) l = request_preview connected request profile l
  step (preview_timed_out request) l = preview_timeout request l

  unfoldable pub run : List (Input E) → ProfileLink E → ProfileLink E
  unfolding step
  run [] l = l
  run (i ∷ is) l = run is (step i l)
