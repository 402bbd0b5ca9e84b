-- ===== src/Profiles/Link/Run/Closed.antt =====
-- A link that is closed: nothing reaches the peer, an engine or the host any more.
use mathlib.Core.Path.{ap₂}
use mathlib.Core.List.{append-nil}
use grandpa_bob.Base.{
  ℕ, ◌≡◌, refl, ◌∙◌, ap, Bool, true, false, not, ◌&&◌, ◌||◌, none, some, List, [], ◌∷◌, ◌++◌, map,
  filter, filter-append, if_elim, not_both, arith, if◌then◌else◌, get_or,
}
use grandpa_bob.Base.Text.{Text, text_eq, includes}
use grandpa_bob.Base.Json.{Json, Fields}
use grandpa_bob.Base.Js.{Js}
use grandpa_bob.Base.JsMap
use grandpa_bob.Profiles.Catalog.{normalize_catalog, normalize_device_name}
use grandpa_bob.Profiles.Link.{
  ProfileLink, Event, delivered, engine_closed, preview_settled, emit, send_control, phrase_ok,
  mark_ready, start, phrase_timeout, confirm_phrase, reject_phrase, set_catalog, set_consent,
  set_device_name, send_catalog, close,
}
use grandpa_bob.Profiles.Link.Incoming.{
  control_frame, data_frame, receive, receive_control, answer_preview,
}
use grandpa_bob.Profiles.Link.Engines.{
  VirtualPeer, peer_send, peer_on_message, peer_close, detach_profile, request_preview,
  preview_timeout, waiting_for, waiting_others, end_engine,
}
use grandpa_bob.Profiles.Link.Run.{
  Input, started, confirmed, timed_out, catalog_resent, closing, rejected, catalog_set, consent_set,
  name_set, received, control_received, control_fed, preview_answered, engine_sent, engine_attached,
  engine_watched, engine_ended, detached, preview_requested, preview_timed_out, step, run,
}

-- Everything but the end of an engine and of a preview that fails.
unfoldable pub is_traffic : {E : Type 0} → Event E → Bool
is_traffic (engine_closed cb) = false
is_traffic (preview_settled request none) = false
is_traffic _ = true

abbrev pub traffic : {E : Type 0} → ProfileLink E → List (Event E)
traffic l = filter is_traffic l.events

-- A closed link with the traffic `es` so far.
abbrev IsOver : {E : Type 0} → List (Event E) → ProfileLink E → Type 0
IsOver es l =
    (l.closed ≡ true)
    × (l.ready ≡ false)
    × (l.subscribed ≡ false)
    × (l.buffered ≡ [])
    × (traffic l ≡ es)

module _ {E : Type 0} (es : List (Event E)) where
  -- The first branch under a test that holds, and the second under one that does not.
  first_branch :
      (b : Bool) (l m : ProfileLink E) → b ≡ true → IsOver es l → IsOver es (if b then l else m)
  first_branch b l m h s =
      if_elim (IsOver es) b {x = l} {y = m} (λ _. s) (λ k. absurd (not_both h k))

  second_branch :
      (b : Bool) (l m : ProfileLink E) → b ≡ false → IsOver es m → IsOver es (if b then l else m)
  second_branch b l m h s =
      if_elim (IsOver es) b {x = l} {y = m} (λ k. absurd (not_both k h)) (λ _. s)

  no_traffic :
      (l : ProfileLink E) (xs : List (Event E))
      → filter is_traffic xs ≡ []
      → traffic l ≡ es
      → filter is_traffic (l.events ++ xs) ≡ es
  no_traffic l xs h t = filter-append is_traffic l.events xs ∙ ap₂ ◌++◌ t h ∙ append-nil es

  mark_ready-IsOver : (l : ProfileLink E) → IsOver es l → IsOver es (mark_ready l)
  unfolding mark_ready
  mark_ready-IsOver l s = first_branch (l.ready || l.closed) l _ (stopped s.0) s
    where
      stopped : l.closed ≡ true → (l.ready || l.closed) ≡ true
      stopped h = ground arith

  send_control-IsOver :
      (fs : Fields) (l : ProfileLink E) → IsOver es l → IsOver es (send_control fs l)
  unfolding send_control
  send_control-IsOver fs l s = first_branch l.closed l _ s.0 s

  confirm_phrase-IsOver : (l : ProfileLink E) → IsOver es l → IsOver es (confirm_phrase l)
  unfolding confirm_phrase
  confirm_phrase-IsOver l s =
      if_elim (IsOver es) l.local_phrase {x = l}
        {y = if told.remote_phrase then mark_ready told else told} (λ _. s)
        (λ _.
          if_elim (IsOver es) told.remote_phrase {x = mark_ready told} {y = told}
            (λ _. mark_ready-IsOver told t) (λ _. t))
    where
      told : ProfileLink E
      told = send_control phrase_ok (record l { local_phrase = true })

      t : IsOver es told
      t = send_control-IsOver phrase_ok (record l { local_phrase = true }) s

  start-IsOver : (l : ProfileLink E) → IsOver es l → IsOver es (start l)
  unfolding start
  start-IsOver l s =
      if_elim (IsOver es) l.require_phrase (λ _. s)
        (λ _. mark_ready-IsOver (record l { local_phrase = true; remote_phrase = true }) s)

  phrase_timeout-IsOver : (l : ProfileLink E) → IsOver es l → IsOver es (phrase_timeout l)
  unfolding phrase_timeout
  phrase_timeout-IsOver l s =
      if_elim (IsOver es) (not l.timed) {x = l} (λ _. s)
        (λ _. first_branch (l.ready || l.closed) (record l { timed = false }) _ (stopped s.0) s)
    where
      stopped : l.closed ≡ true → (l.ready || l.closed) ≡ true
      stopped h = ground arith

  send_catalog-IsOver : (l : ProfileLink E) → IsOver es l → IsOver es (send_catalog l)
  unfolding send_catalog
  send_catalog-IsOver l s = first_branch l.closed l _ s.0 s

  set_catalog-IsOver :
      (js : Js) (catalog : Json) (sent : Bool) (l : ProfileLink E)
      → IsOver es l
      → IsOver es (set_catalog js catalog sent l)
  unfolding set_catalog
  set_catalog-IsOver js catalog sent l s =
      if_elim (IsOver es) (sent && l.ready) {x = send_catalog changed} {y = changed}
        (λ _. send_catalog-IsOver changed s) (λ _. s)
    where
      changed : ProfileLink E
      changed = record l { catalog = normalize_catalog js (some catalog) }

  set_consent-IsOver :
      (consent : JsMap.JsMap Bool) (l : ProfileLink E)
      → IsOver es l
      → IsOver es (set_consent consent l)
  unfolding set_consent
  set_consent-IsOver consent l s = second_branch l.ready _ (record l { consent = consent }) s.1 s

  set_device_name-IsOver :
      (name : Text) (l : ProfileLink E) → IsOver es l → IsOver es (set_device_name name l)
  unfolding set_device_name
  set_device_name-IsOver name l s =
      if_elim (IsOver es)
        (text_eq (normalize_device_name (some name)) []
          || text_eq (normalize_device_name (some name)) l.device_name)
        {x = l} (λ _. s)
        (λ _.
          second_branch l.ready _ (record l { device_name = normalize_device_name (some name) }) s.1
            s)

  peer_send-IsOver :
      (p : VirtualPeer) (body : E) (l : ProfileLink E)
      → IsOver es l
      → IsOver es (peer_send p body l)
  unfolding peer_send
  peer_send-IsOver p body l s = first_branch (p.closed || l.closed) l _ (ground (arith, s.0)) s

  peer_on_message-IsOver :
      (p : VirtualPeer) (cb : ℕ) (l : ProfileLink E)
      → IsOver es l
      → IsOver es (peer_on_message p cb l)
  unfolding peer_on_message emit waiting_others filter
  peer_on_message-IsOver p cb l s = (
    s.0,
    s.1,
    s.2,
    ap (waiting_others p.id) s.3,
    no_traffic l _ (none_waiting l.buffered s.3) s.4,
  )
    where
      none_waiting :
          (bs : List (Text × E))
          → bs ≡ []
          → filter is_traffic (map (delivered cb) (waiting_for p.id bs)) ≡ []
      none_waiting bs h = rw h refl

  ended_quiet : (cbs : List ℕ) → filter is_traffic (map {B = Event E} engine_closed cbs) ≡ []
  unfolding filter is_traffic
  ended_quiet [] = refl
  ended_quiet (cb ∷ cbs) = ended_quiet cbs

  end_engine-IsOver : (id : Text) (l : ProfileLink E) → IsOver es l → IsOver es (end_engine id l)
  unfolding end_engine emit
  end_engine-IsOver id l s = (
    s.0,
    s.1,
    s.2,
    s.3,
    no_traffic l _ (ended_quiet (get_or (JsMap.get id l.close_handlers) [])) s.4,
  )

  peer_close-IsOver :
      (p : VirtualPeer) (l : ProfileLink E) → IsOver es l → IsOver es (peer_close p l).1
  unfolding peer_close
  peer_close-IsOver p l s =
      if_elim {A = VirtualPeer × ProfileLink E} (λ r. IsOver es r.1) p.closed {x = (p, l)}
        {y = (record p { closed = true }, end_engine p.id l)} (λ _. s)
        (λ _. end_engine-IsOver p.id l s)

  settled_quiet :
      (request : Text) (l : ProfileLink E)
      → IsOver es l
      → IsOver es (emit (preview_settled request none ∷ []) l)
  unfolding emit filter is_traffic
  settled_quiet request l s =
      (s.0, s.1, s.2, s.3, no_traffic l (preview_settled request none ∷ []) refl s.4)

  request_preview-IsOver :
      (connected : Bool) (request profile : Text) (l : ProfileLink E)
      → IsOver es l
      → IsOver es (request_preview connected request profile l)
  unfolding request_preview
  request_preview-IsOver connected request profile l s =
      first_branch (l.closed || not connected) (emit (preview_settled request none ∷ []) l) _
        (ground (arith, s.0)) (settled_quiet request l s)

  preview_timeout-IsOver :
      (request : Text) (l : ProfileLink E) → IsOver es l → IsOver es (preview_timeout request l)
  unfolding preview_timeout
  preview_timeout-IsOver request l s =
      if_elim (IsOver es) (not (includes l.pending_preview request)) {x = l} (λ _. s)
        (λ _.
          settled_quiet request
            (record l { pending_preview = filter (λ r. not (text_eq r request)) l.pending_preview })
            s)

  step-IsOver : (js : Js) (i : Input E) (l : ProfileLink E) → IsOver es l → IsOver es (step js i l)
  unfolding step close reject_phrase receive receive_control answer_preview detach_profile
      waiting_others filter
  step-IsOver js started l s = start-IsOver l s
  step-IsOver js confirmed l s = confirm_phrase-IsOver l s
  step-IsOver js timed_out l s = phrase_timeout-IsOver l s
  step-IsOver js catalog_resent l s = send_catalog-IsOver l s
  step-IsOver js closing l s = first_branch l.closed l _ s.0 s
  step-IsOver js (rejected reason) l s = first_branch l.closed l _ s.0 s
  step-IsOver js (catalog_set catalog sent) l s = set_catalog-IsOver js catalog sent l s
  step-IsOver js (consent_set consent) l s = set_consent-IsOver consent l s
  step-IsOver js (name_set name) l s = set_device_name-IsOver name l s
  step-IsOver js (received (control_frame fs)) l s = first_branch l.closed l _ s.0 s
  step-IsOver js (received (data_frame profile body)) l s =
      first_branch (l.closed || not l.ready) l _ (ground (arith, s.0)) s
  step-IsOver js (control_received fs) l s = second_branch l.subscribed _ l s.2 s
  step-IsOver js (control_fed fs) l s = first_branch l.closed l _ s.0 s
  step-IsOver js (preview_answered request profile preview) l s = first_branch l.closed l _ s.0 s
  step-IsOver js (engine_sent p body) l s = peer_send-IsOver p body l s
  step-IsOver js (engine_attached p cb) l s = peer_on_message-IsOver p cb l s
  step-IsOver js (engine_watched p cb) l s = s
  step-IsOver js (engine_ended p) l s = peer_close-IsOver p l s
  step-IsOver js (detached profile) l s =
      end_engine-IsOver (js.to_lower profile)
        (record l { buffered = waiting_others (js.to_lower profile) l.buffered })
        (s.0, s.1, s.2, ap (waiting_others (js.to_lower profile)) s.3, s.4)
  step-IsOver js (preview_requested connected request profile) l s =
      request_preview-IsOver connected request profile l s
  step-IsOver js (preview_timed_out request) l s = preview_timeout-IsOver request l s

  run-IsOver :
      (js : Js) (is : List (Input E)) (l : ProfileLink E) → IsOver es l → IsOver es (run js is l)
  unfolding run
  run-IsOver js [] l s = s
  run-IsOver js (i ∷ is) l s = run-IsOver js is (step js i l) (step-IsOver js i l s)

close-IsOver :
    {E : Type 0} (l : ProfileLink E) → l.closed ≡ false → IsOver (traffic (close l)) (close l)
unfolding close
close-IsOver l h = rw h (refl, refl, refl, refl, refl)

-- After a link is closed, whatever is called, arrives or times out: it stays closed, and no frame is
-- sent, no engine and no callback of the host is called any more but the ends of engines and of
-- previews.
pub run-close :
    {E : Type 0} (js : Js) (inputs : List (Input E)) (l : ProfileLink E)
    → l.closed ≡ false
    → ((run js inputs (close l)).closed ≡ true)
      × (traffic (run js inputs (close l)) ≡ traffic (close l))
run-close js inputs l h =
    let r : IsOver (traffic (close l)) (run js inputs (close l)) =
      run-IsOver (traffic (close l)) js inputs (close l) (close-IsOver l h) in
    (r.0, r.4)
