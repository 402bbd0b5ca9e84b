-- ===== src/Profiles/Link/Run/Held.antt =====
-- A link before both sides have confirmed the phrase: what arrives, the engines and the previews.
use grandpa_bob.Base.{
  ℕ, ◌≡◌, refl, sym, ◌∙◌, ap, Bool, true, false, not, ◌&&◌, ◌||◌, Option, none, List, [], ◌∷◌, ◌++◌,
  map, any, filter, if_elim, arith, if◌then◌else◌, get_or,
}
use grandpa_bob.Base.Text.{Text, text, text_eq, includes}
use grandpa_bob.Base.Json.{Fields, fields}
use grandpa_bob.Base.Js.{Js}
use grandpa_bob.Base.JsMap
use grandpa_bob.Profiles.Link.{
  ProfileLink, ProfilePreview, phrase_rejected, delivered, engine_closed, preview_settled,
  data_sent, phrase_ok, emit, send_control, close, mark_ready,
}
use grandpa_bob.Profiles.Link.Incoming.{
  data_frame, text_at, on_phrase_ok, on_ready_control, on_control, receive, receive_control,
  answer_preview,
}
use grandpa_bob.Profiles.Link.Engines.{
  VirtualPeer, peer_send, peer_on_message, peer_close, detach_profile, request_preview,
  preview_timeout, waiting_for, waiting_others, end_engine,
}
use grandpa_bob.Profiles.Link.Run.Shut.{
  IsShut, is_guarded, emit-IsShut, close-IsShut, send_control-IsShut, quiet_append, quiet_map,
}

unfoldable pub is_phrase_ok : Js → Fields → Bool
is_phrase_ok js fs = text_eq (text_at js (text "op") fs []) (text "phrase-ok")

pub unequal_tests : true ≡ false → ⊥
unequal_tests e = cc

module _ {E : Type 0} (a b : Bool) where
  pub on_control-IsShut :
      (js : Js) (fs : Fields) (l : ProfileLink E)
      → is_phrase_ok js fs ≡ false
      → IsShut a b l
      → IsShut a b (on_control js fs l)
  unfolding on_control is_phrase_ok is_guarded
  on_control-IsShut js fs l h s =
      if_elim (IsShut a b) (is_phrase_ok js fs) {x = on_phrase_ok js l} {y = other}
        (λ k. absurd (unequal_tests (sym k ∙ h)))
        (λ _.
          if_elim (IsShut a b) _ {x = close refused} {y = behind}
            (λ _. close-IsShut a b refused (emit-IsShut a b _ l refl s))
            (λ _.
              if_elim (IsShut a b) (not l.ready) (λ _. s)
                (λ k. absurd (unequal_tests (sym (ap not s.1) ∙ k)))))
    where
      refused : ProfileLink E
      refused =
          emit
            (phrase_rejected (text_at js (text "reason") fs (text "the peer rejected the phrase"))
              ∷ [])
            l

      behind : ProfileLink E
      behind = if not l.ready then l else on_ready_control js (text_at js (text "op") fs []) fs l

      other : ProfileLink E
      other =
          if text_eq (text_at js (text "op") fs []) (text "phrase-mismatch")
          then close refused
          else behind

  pub receive_control-IsShut :
      (js : Js) (fs : Fields) (l : ProfileLink E)
      → is_phrase_ok js fs ≡ false
      → IsShut a b l
      → IsShut a b (receive_control js fs l)
  unfolding receive_control
  receive_control-IsShut js fs l h s =
      if_elim (IsShut a b) l.closed (λ _. s) (λ _. on_control-IsShut js fs l h s)

  pub receive_data-IsShut :
      (js : Js) (profile : Option Text) (body : E) (l : ProfileLink E)
      → IsShut a b l
      → IsShut a b (receive js (data_frame profile body) l)
  unfolding receive
  receive_data-IsShut js profile body l s =
      if_elim (IsShut a b) (l.closed || not l.ready) (λ _. s)
        (λ k. absurd (unequal_tests (sym (shut s.1) ∙ k)))
    where
      shut : l.ready ≡ false → (l.closed || not l.ready) ≡ true
      shut h = ground arith

  pub answer_preview-IsShut :
      (js : Js) (request profile : Text) (preview : Option ProfilePreview) (l : ProfileLink E)
      → IsShut a b l
      → IsShut a b (answer_preview js request profile preview l)
  unfolding answer_preview is_guarded fields text_eq
  answer_preview-IsShut js request profile preview l s =
      if_elim (IsShut a b) l.closed (λ _. s) (λ _. send_control-IsShut a b _ l refl s)

  pub peer_send-IsShut :
      (p : VirtualPeer) (body : E) (l : ProfileLink E)
      → IsShut a b l
      → IsShut a b (peer_send p body l)
  unfolding peer_send is_guarded
  peer_send-IsShut p body l s =
      if_elim (IsShut a b) (p.closed || l.closed) (λ _. s)
        (λ _. emit-IsShut a b (data_sent p.id body ∷ []) l refl s)

  none_waiting :
      (id : Text) (cb : ℕ) (bs : List (Text × E))
      → bs ≡ []
      → any is_guarded (map (delivered cb) (waiting_for id bs)) ≡ false
  unfolding waiting_for
  none_waiting id cb bs h = rw h refl

  pub peer_on_message-IsShut :
      (p : VirtualPeer) (cb : ℕ) (l : ProfileLink E)
      → IsShut a b l
      → IsShut a b (peer_on_message p cb l)
  unfolding peer_on_message emit waiting_others filter
  peer_on_message-IsShut p cb l s = (
    s.0,
    s.1,
    ap (waiting_others p.id) s.2,
    quiet_append l.events _ s.3 (none_waiting p.id cb l.buffered s.2),
    s.4,
    s.5,
  )

  pub end_engine-IsShut :
      (id : Text) (l : ProfileLink E) → IsShut a b l → IsShut a b (end_engine id l)
  unfolding end_engine emit is_guarded
  end_engine-IsShut id l s = (
    s.0,
    s.1,
    s.2,
    quiet_append l.events _ s.3
        (quiet_map engine_closed (get_or (JsMap.get id l.close_handlers) []) (λ x. refl)),
    s.4,
    s.5,
  )

  pub peer_close-IsShut :
      (p : VirtualPeer) (l : ProfileLink E) → IsShut a b l → IsShut a b (peer_close p l).1
  unfolding peer_close
  peer_close-IsShut p l s =
      if_elim {A = VirtualPeer × ProfileLink E} (λ r. IsShut a b r.1) p.closed {x = (p, l)}
        {y = (record p { closed = true }, end_engine p.id l)} (λ _. s)
        (λ _. end_engine-IsShut p.id l s)

  pub detach_profile-IsShut :
      (js : Js) (profile : Text) (l : ProfileLink E)
      → IsShut a b l
      → IsShut a b (detach_profile js profile l)
  unfolding detach_profile waiting_others filter
  detach_profile-IsShut js profile l s =
      end_engine-IsShut (js.to_lower profile)
        (record l { buffered = waiting_others (js.to_lower profile) l.buffered })
        (s.0, s.1, ap (waiting_others (js.to_lower profile)) s.2, s.3, s.4, s.5)

  pub request_preview-IsShut :
      (connected : Bool) (request profile : Text) (l : ProfileLink E)
      → IsShut a b l
      → IsShut a b (request_preview connected request profile l)
  unfolding request_preview is_guarded fields text_eq
  request_preview-IsShut connected request profile l s =
      if_elim (IsShut a b) (l.closed || not connected)
        (λ _. emit-IsShut a b (preview_settled request none ∷ []) l refl s)
        (λ _.
          send_control-IsShut a b _
            (record l { pending_preview = l.pending_preview ++ request ∷ [] }) refl s)

  pub preview_timeout-IsShut :
      (request : Text) (l : ProfileLink E) → IsShut a b l → IsShut a b (preview_timeout request l)
  unfolding preview_timeout is_guarded
  preview_timeout-IsShut request l s =
      if_elim (IsShut a b) (not (includes l.pending_preview request)) (λ _. s)
        (λ _.
          emit-IsShut a b (preview_settled request none ∷ [])
            (record l { pending_preview = filter (λ r. not (text_eq r request)) l.pending_preview })
            refl s)

phrase_ok-IsShut :
    {E : Type 0} (b : Bool) (js : Js) (l : ProfileLink E)
    → IsShut false b l
    → IsShut false true (on_phrase_ok js l)
unfolding on_phrase_ok
phrase_ok-IsShut {E} b js l s =
    if_elim (IsShut false true) (answered.local_phrase && answered.remote_phrase)
      {x = mark_ready answered} {y = answered}
      (λ k. absurd (unequal_tests (sym k ∙ ap (λ c. c && answered.remote_phrase) silent.4)))
      (λ _. silent)
  where
    heard : ProfileLink E
    heard = record l { remote_phrase = true }

    reply : ProfileLink E
    reply = send_control phrase_ok (record heard { local_phrase = true })

    answered : ProfileLink E
    answered = if not heard.local_phrase && not heard.require_phrase then reply else heard

    required : l.require_phrase ≡ true → (not l.local_phrase && not l.require_phrase) ≡ false
    required h = ground arith

    silent : IsShut false true answered
    silent =
        if_elim (IsShut false true) (not heard.local_phrase && not heard.require_phrase) {x = reply}
          {y = heard} (λ k. absurd (unequal_tests (sym k ∙ required s.0)))
          (λ _. (s.0, s.1, s.2, s.3, s.4, refl))

-- The peer's confirmation alone.
pub on_control-phrase_ok :
    {E : Type 0} (b : Bool) (js : Js) (fs : Fields) (l : ProfileLink E)
    → is_phrase_ok js fs ≡ true
    → IsShut false b l
    → IsShut false true (on_control js fs l)
unfolding on_control is_phrase_ok
on_control-phrase_ok b js fs l h s = rw h (phrase_ok-IsShut b js l s)
