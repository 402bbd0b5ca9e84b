-- ===== src/Profiles/Link/Run/Gate.antt =====
-- The phrase gate of a link, over everything that can happen to it.
use grandpa_bob.Base.{
  ◌≡◌, refl, sym, ◌∙◌, Bool, true, false, ◌&&◌, ◌||◌, List, [], ◌∷◌, any, if_elim, arith,
  if◌then◌else◌, Bool-cases, inl, inr, ◌⊎◌,
}
use grandpa_bob.Base.Json.{Fields}
use grandpa_bob.Base.Js.{Js}
use grandpa_bob.Profiles.Link.{ProfileLink, ProfileLinkOptions, profile_link}
use grandpa_bob.Profiles.Link.Incoming.{
  control_frame, data_frame, on_control, receive, receive_control,
}
use grandpa_bob.Profiles.Link.Run.{
  Input, started, confirmed, timed_out, catalog_resent, closing, rejected, catalog_set, consent_set,
  name_set, received, control_received, control_fed, preview_answered, engine_sent, engine_attached,
  engine_watched, engine_ended, detached, preview_requested, preview_timed_out, step, run,
}
use grandpa_bob.Profiles.Link.Run.Shut.{
  IsShut, is_guarded, close-IsShut, start-IsShut, phrase_timeout-IsShut, reject_phrase-IsShut,
  send_catalog-IsShut, set_catalog-IsShut, set_consent-IsShut, set_device_name-IsShut,
  confirm_phrase-IsShut,
}
use grandpa_bob.Profiles.Link.Run.Held.{
  unequal_tests, is_phrase_ok, on_control-IsShut, receive_control-IsShut, receive_data-IsShut,
  answer_preview-IsShut, peer_send-IsShut, peer_on_message-IsShut, peer_close-IsShut,
  detach_profile-IsShut, request_preview-IsShut, preview_timeout-IsShut, on_control-phrase_ok,
}

-- This side's confirmation, and a frame with the peer's.
unfoldable pub is_confirmation : {E : Type 0} → Input E → Bool
is_confirmation confirmed = true
is_confirmation _ = false

unfoldable pub brings_phrase_ok : {E : Type 0} → Js → Input E → Bool
unfolding is_phrase_ok
brings_phrase_ok js (received (control_frame fs)) = is_phrase_ok js fs
brings_phrase_ok js (control_received fs) = is_phrase_ok js fs
brings_phrase_ok js (control_fed fs) = is_phrase_ok js fs
brings_phrase_ok js _ = false

none_left : (p q : Bool) → (p || q) ≡ false → (p ≡ false) × (q ≡ false)
none_left p q h = ground arith

module _ {E : Type 0} (js : Js) where
  step-IsShut :
      (a b : Bool) (i : Input E) (l : ProfileLink E)
      → is_confirmation i ≡ false
      → brings_phrase_ok js i ≡ false
      → IsShut a b l
      → IsShut a b (step js i l)
  unfolding step is_confirmation brings_phrase_ok
  step-IsShut a b started l c o s = start-IsShut a b l s
  step-IsShut a b confirmed l c o s = absurd cc
  step-IsShut a b timed_out l c o s = phrase_timeout-IsShut a b l s
  step-IsShut a b catalog_resent l c o s = send_catalog-IsShut a b l s
  step-IsShut a b closing l c o s = close-IsShut a b l s
  step-IsShut a b (rejected reason) l c o s = reject_phrase-IsShut a b reason l s
  step-IsShut a b (catalog_set catalog sent) l c o s = set_catalog-IsShut a b js catalog sent l s
  step-IsShut a b (consent_set consent) l c o s = set_consent-IsShut a b consent l s
  step-IsShut a b (name_set name) l c o s = set_device_name-IsShut a b name l s
  step-IsShut a b (received (control_frame fs)) l c o s = receive_control-IsShut a b js fs l o s
  step-IsShut a b (received (data_frame profile body)) l c o s =
      receive_data-IsShut a b js profile body l s
  step-IsShut a b (control_received fs) l c o s =
      if_elim (IsShut a b) l.subscribed (λ _. on_control-IsShut a b js fs l o s) (λ _. s)
  step-IsShut a b (control_fed fs) l c o s = receive_control-IsShut a b js fs l o s
  step-IsShut a b (preview_answered request profile preview) l c o s =
      answer_preview-IsShut a b js request profile preview l s
  step-IsShut a b (engine_sent p body) l c o s = peer_send-IsShut a b p body l s
  step-IsShut a b (engine_attached p cb) l c o s = peer_on_message-IsShut a b p cb l s
  step-IsShut a b (engine_watched p cb) l c o s = s
  step-IsShut a b (engine_ended p) l c o s = peer_close-IsShut a b p l s
  step-IsShut a b (detached profile) l c o s = detach_profile-IsShut a b js profile l s
  step-IsShut a b (preview_requested connected request profile) l c o s =
      request_preview-IsShut a b connected request profile l s
  step-IsShut a b (preview_timed_out request) l c o s = preview_timeout-IsShut a b request l s

  hears_behind :
      (guard b : Bool) (fs : Fields) (l : ProfileLink E)
      → is_phrase_ok js fs ≡ true
      → IsShut false b l
      → (c : Bool) × IsShut false c (if guard then on_control js fs l else l)
  hears_behind true b fs l o s = (true, on_control-phrase_ok b js fs l o s)
  hears_behind false b fs l o s = (b, s)

  hears_unless :
      (guard b : Bool) (fs : Fields) (l : ProfileLink E)
      → is_phrase_ok js fs ≡ true
      → IsShut false b l
      → (c : Bool) × IsShut false c (if guard then l else on_control js fs l)
  hears_unless true b fs l o s = (b, s)
  hears_unless false b fs l o s = (true, on_control-phrase_ok b js fs l o s)

  step_hearing :
      (b : Bool) (i : Input E) (l : ProfileLink E)
      → brings_phrase_ok js i ≡ true
      → IsShut false b l
      → (c : Bool) × IsShut false c (step js i l)
  unfolding step brings_phrase_ok receive receive_control
  step_hearing b (received (control_frame fs)) l o s = hears_unless l.closed b fs l o s
  step_hearing b (control_received fs) l o s = hears_behind l.subscribed b fs l o s
  step_hearing b (control_fed fs) l o s = hears_unless l.closed b fs l o s
  step_hearing b (received (data_frame profile body)) l o s = absurd cc
  step_hearing b i l o s = absurd cc

  step_confirming :
      (a : Bool) (i : Input E) (l : ProfileLink E)
      → is_confirmation i ≡ true
      → IsShut a false l
      → (c : Bool) × IsShut c false (step js i l)
  unfolding step is_confirmation
  step_confirming a confirmed l o s = (true, confirm_phrase-IsShut a l s)
  step_confirming a i l o s = absurd cc

  run_unconfirmed :
      (b : Bool) (is : List (Input E)) (l : ProfileLink E)
      → any is_confirmation is ≡ false
      → IsShut false b l
      → any is_guarded (run js is l).events ≡ false
  unfolding run
  run_unconfirmed b [] l h s = s.3
  run_unconfirmed b (i ∷ is) l h s = elim (Bool-cases (brings_phrase_ok js i)) [
    | inl o ↦
        let r : (c : Bool) × IsShut false c (step js i l) = step_hearing b i l o s in
        run_unconfirmed r.0 is (step js i l) (none_left _ _ h).1 r.1
    | inr o ↦
        run_unconfirmed b is (step js i l) (none_left _ _ h).1
          (step-IsShut false b i l (none_left _ _ h).0 o s)
  ]

  run_unheard :
      (a : Bool) (is : List (Input E)) (l : ProfileLink E)
      → any (brings_phrase_ok js) is ≡ false
      → IsShut a false l
      → any is_guarded (run js is l).events ≡ false
  unfolding run
  run_unheard a [] l h s = s.3
  run_unheard a (i ∷ is) l h s = elim (Bool-cases (is_confirmation i)) [
    | inl c ↦
        let r : (d : Bool) × IsShut d false (step js i l) = step_confirming a i l c s in
        run_unheard r.0 is (step js i l) (none_left _ _ h).1 r.1
    | inr c ↦
        run_unheard a is (step js i l) (none_left _ _ h).1
          (step-IsShut a false i l c (none_left _ _ h).0 s)
  ]

  -- On a link that requires the phrase, whatever happens to it and in whatever order: if an engine
  -- was given data, the host a catalog, a consent, a preview or any other control frame, this side's
  -- consent was sent or the link became ready, then this side has confirmed the phrase and a
  -- confirmation of the peer has come.
  pub run-profile_link :
      (has_control : Bool) (options : ProfileLinkOptions) (inputs : List (Input E))
      → options.require_phrase ≡ true
      → any is_guarded (run js inputs (profile_link js has_control options)).events ≡ true
      → (any is_confirmation inputs && any (brings_phrase_ok js) inputs) ≡ true
  unfolding profile_link
  run-profile_link has_control options inputs r g =
      both (Bool-cases (any is_confirmation inputs)) (Bool-cases (any (brings_phrase_ok js) inputs))
    where
      fresh : ProfileLink E
      fresh = profile_link js has_control options

      shut : IsShut false false fresh
      shut = (r, refl, refl, refl, refl, refl)

      both :
          (any is_confirmation inputs ≡ true) ⊎ (any is_confirmation inputs ≡ false)
          → (any (brings_phrase_ok js) inputs ≡ true) ⊎ (any (brings_phrase_ok js) inputs ≡ false)
          → (any is_confirmation inputs && any (brings_phrase_ok js) inputs) ≡ true
      both (inl c) (inl o) = rw (c, o) refl
      both (inr c) o = absurd (unequal_tests (sym g ∙ run_unconfirmed false inputs fresh c shut))
      both (inl c) (inr o) = absurd (unequal_tests (sym g ∙ run_unheard false inputs fresh o shut))
