-- ===== src/Profiles/Tests.antt =====
-- Runs of the model of profiles and their link, and each of its theorems at a concrete input.
use grandpa_bob.Base.{ℕ, ◌≡◌, ◌≢◌, refl, Bool, true, false, ◌&&◌, none, some, List, [], ◌∷◌, any}
use grandpa_bob.Base.Text.{text, text_eq}
use grandpa_bob.Base.Json.{arr, nil, fields, member}
use grandpa_bob.Base.Js.{Js}
use grandpa_bob.Base.JsMap
use grandpa_bob.Profiles.Catalog.{
  ProfileCatalogEntry, effective_allow, link_entry, link_to, default_local_consent,
}
use grandpa_bob.Profiles.Catalog.Linked.{settled, link_entry_agree}
use grandpa_bob.Profiles.Store.{
  PeerProfileCatalog, PeerSyncStore, PeerInput, local_consent, remote_consent, upsert_peer,
  remap_peer_consent,
}
use grandpa_bob.Profiles.Store.Vetoes.{effective_allow-upsert_peer}
use grandpa_bob.Profiles.Store.Moved.{moved_consent, consent-remap_peer_consent}
use grandpa_bob.Profiles.Link.{ProfileLinkOptions, Event, data_sent, phrase_ok, profile_link, close}
use grandpa_bob.Profiles.Link.Incoming.{control_frame, data_frame}
use grandpa_bob.Profiles.Link.Engines.{VirtualPeer}
use grandpa_bob.Profiles.Link.Run.{
  Input, confirmed, received, engine_attached, engine_sent, started, catalog_resent, run,
}
use grandpa_bob.Profiles.Link.Run.Shut.{is_guarded}
use grandpa_bob.Profiles.Link.Run.Gate.{is_confirmation, brings_phrase_ok, run-profile_link}
use grandpa_bob.Profiles.Link.Run.Closed.{traffic, run-close}

-- A library that leaves letters alone, and reads every date as the same.
abbrev plain : Js
plain = record {
  to_lower = λ s. s;
  to_upper = λ s. s;
  parse_date = λ s. some 7;
  locale_after = λ a b. false;
  other_text = λ v. [];
  other_count = λ v. none;
  other_stamp = λ v. none;
}

abbrev home_a : ProfileCatalogEntry
home_a = record { id = text "a"; name = text "home"; created_at = text "2026" }

abbrev home_b : ProfileCatalogEntry
home_b = record { id = text "b"; name = text "home"; created_at = text "2026" }

link_entry_agree_example :
    ((link_to plain home_a home_b).id ≡ (link_to plain home_b home_a).id)
    × (settled plain home_a (link_to plain home_a home_b) ≡ (link_to plain home_a home_b).id)
    × (settled plain home_b (link_to plain home_b home_a) ≡ (link_to plain home_a home_b).id)
unfolding link_entry JsMap.get
link_entry_agree_example =
    link_entry_agree plain [] [] [] [] [] [] home_a home_b (link_to plain home_a home_b)
      (link_to plain home_b home_a) refl refl

abbrev desk : PeerProfileCatalog
desk = record {
  peer_id = text "desk";
  device_name = text "Desk";
  last_seen = [];
  online = true;
  profiles = home_a ∷ [];
  local_allow = (text "a", true) ∷ [];
  remote_allow = (text "a", true) ∷ [];
  linked_names = [];
  unlinked_ids = [];
}

abbrev known : PeerSyncStore
known = record { peers = (text "desk", desk) ∷ [] }

abbrev news : PeerInput
news = record {
  peer_id = text "desk";
  device_name = text "Desk";
  profiles = home_a ∷ home_b ∷ [];
  catalog = home_a ∷ home_b ∷ [];
  links = [];
}

effective_allow-upsert_peer_example :
    (JsMap.get (text "a") (remote_consent (JsMap.get (text "desk") known.peers)) ≡ some true)
    × (JsMap.get (text "a") (local_consent (JsMap.get (text "desk") known.peers)) ≢ some false)
unfolding effective_allow upsert_peer JsMap.get JsMap.set text_eq default_local_consent
effective_allow-upsert_peer_example =
    effective_allow-upsert_peer plain known news [] (text "a") refl

-- The new profile is open on this side only.
new_profile_is_closed :
    effective_allow plain
      (local_consent (JsMap.get (text "desk") (upsert_peer plain known news []).peers))
      (remote_consent (JsMap.get (text "desk") (upsert_peer plain known news []).peers))
      (text "b")
      false
    ≡ false
unfolding effective_allow upsert_peer JsMap.get JsMap.set text_eq default_local_consent
new_profile_is_closed = refl

consent-remap_peer_consent_example :
    (JsMap.get (text "c") (
        local_consent
          (JsMap.get (text "desk") (remap_peer_consent plain known (text "a") (text "c")).peers))
      ≡ moved_consent
          (text "a")
          (text "c")
          (local_consent (JsMap.get (text "desk") known.peers))
          (text "c"))
    × (JsMap.get (text "c") (
          remote_consent
            (JsMap.get (text "desk") (remap_peer_consent plain known (text "a") (text "c")).peers))
        ≡ moved_consent
            (text "a")
            (text "c")
            (remote_consent (JsMap.get (text "desk") known.peers))
            (text "c"))
consent-remap_peer_consent_example =
    consent-remap_peer_consent plain known (text "a") (text "c") (text "desk") (text "c")

abbrev options : ProfileLinkOptions
options = record {
  device_id = text "me";
  device_name = text "Me";
  default_profile_id = none;
  require_phrase = true;
  catalog = arr nil;
  consent = [];
}

abbrev engine : VirtualPeer
engine = record { id = text "a"; closed = false }

-- Both confirm, an engine attaches, and a frame for it arrives.
abbrev both_confirm : List (Input ℕ)
both_confirm =
    started
    ∷ confirmed
    ∷ received (control_frame phrase_ok)
    ∷ engine_attached engine 1
    ∷ received (data_frame (some (text "a")) 5)
    ∷ []

run-profile_link_example :
    (any is_confirmation both_confirm && any (brings_phrase_ok plain) both_confirm) ≡ true
unfolding run profile_link is_guarded text_eq member phrase_ok fields JsMap.get JsMap.set
run-profile_link_example = run-profile_link plain false options both_confirm refl refl

abbrev after_close : List (Input ℕ)
after_close =
    confirmed ∷ received (control_frame phrase_ok) ∷ catalog_resent ∷ engine_sent engine 5 ∷ []

run-close_example :
    ((run plain after_close (close (profile_link plain false options))).closed ≡ true)
    × (traffic (run plain after_close (close (profile_link plain false options)))
        ≡ traffic (close (profile_link plain false options)))
unfolding profile_link
run-close_example = run-close plain after_close (profile_link plain false options) refl

unfoldable is_data : Event ℕ → Bool
is_data (data_sent profile body) = true
is_data _ = false

-- A virtual peer sends before anybody has confirmed.
sends_early :
    any is_data
      (run {E = ℕ} plain
        (started ∷ engine_sent engine 5 ∷ [])
        (profile_link plain false options)).events
    ≡ true
unfolding run profile_link is_data
sends_early = refl
