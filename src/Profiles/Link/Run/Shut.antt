-- ===== src/Profiles/Link/Run/Shut.antt =====
-- A link before both sides have confirmed the phrase: the operations that this side calls.
use grandpa_bob.Base.{
  ℕ, ◌≡◌, refl, sym, ◌∙◌, ap, Bool, true, false, not, ◌&&◌, ◌||◌, none, some, List, [], ◌∷◌, ◌++◌,
  map, any, if_elim, arith, if◌then◌else◌,
}
use mathlib.Core.Path.{ap₂}
use grandpa_bob.Base.Text.{Text, text, text_eq}
use grandpa_bob.Base.Json.{Json, Fields, fields, field, str}
use grandpa_bob.Base.Js.{Js}
use grandpa_bob.Base.JsMap.{JsMap}
use grandpa_bob.Profiles.Catalog.{normalize_device_name}
use grandpa_bob.Profiles.Link.{
  ProfileLink, Event, delivered, consent_arrived, catalog_arrived, became_ready, preview_asked,
  preview_settled, control_passed, control_sent, engine_closed, phrase_rejected, link_closed,
  phrase_ok, phrase_mismatch, catalog_frame, all_callbacks, emit, send_control, send_catalog, close,
  start, phrase_timeout, confirm_phrase, reject_phrase, set_catalog, set_consent, set_device_name,
}

-- What the gate holds back: data for an engine, what a frame brings for the host, this side's
-- consent, and the link's readiness.
unfoldable pub is_guarded : {E : Type 0} → Event E → Bool
is_guarded (delivered h body) = true
is_guarded (catalog_arrived catalog id name) = true
is_guarded (consent_arrived consent) = true
is_guarded became_ready = true
is_guarded (preview_asked request profile) = true
is_guarded (preview_settled request (some p)) = true
is_guarded (control_passed fs) = true
is_guarded (control_sent (field key (str op) fs)) = text_eq op (text "profile-consent")
is_guarded _ = false

pub any-append :
    {E : Type 0} (xs ys : List (Event E))
    → any is_guarded (xs ++ ys) ≡ (any is_guarded xs || any is_guarded ys)
any-append [] ys = refl
any-append (x ∷ xs) ys = ground (arith, any-append xs ys)

-- No guarded event yet, and nothing that could become one; `a` and `b` are the confirmations.
abbrev pub IsShut : {E : Type 0} → Bool → Bool → ProfileLink E → Type 0
IsShut a b l =
    (l.require_phrase ≡ true)
    × (l.ready ≡ false)
    × (l.buffered ≡ [])
    × (any is_guarded l.events ≡ false)
    × (l.local_phrase ≡ a)
    × (l.remote_phrase ≡ b)

pub quiet_map :
    {E A : Type 0} (f : A → Event E) (xs : List A)
    → ((x : A) → is_guarded (f x) ≡ false)
    → any is_guarded (map f xs) ≡ false
quiet_map f [] h = refl
quiet_map f (x ∷ xs) h = ground (arith, h x, quiet_map f xs h)

quiet_callbacks :
    (E : Type 0) (m : JsMap (List ℕ)) → any is_guarded (all_callbacks {E = E} m) ≡ false
unfolding all_callbacks is_guarded
quiet_callbacks E [] = refl
quiet_callbacks E ((k, cbs) ∷ m) =
    any-append {E = E} (map engine_closed cbs) (all_callbacks m)
    ∙ ap₂ ◌||◌ (quiet_map {E = E} engine_closed cbs (λ x. refl)) (quiet_callbacks E m)

pub quiet_append :
    {E : Type 0} (xs ys : List (Event E))
    → any is_guarded xs ≡ false
    → any is_guarded ys ≡ false
    → any is_guarded (xs ++ ys) ≡ false
quiet_append xs ys h k = any-append xs ys ∙ ap₂ ◌||◌ h k

quiet_end :
    (E : Type 0) (rs : List Text) (m : JsMap (List ℕ))
    → any is_guarded
        (map {B = Event E} (λ r. preview_settled r none) rs ++ all_callbacks m ++ link_closed ∷ [])
      ≡ false
unfolding is_guarded
quiet_end E rs m =
    quiet_append {E = E} (map (λ r. preview_settled r none) rs ++ all_callbacks m)
      (link_closed ∷ [])
      (quiet_append (map (λ r. preview_settled r none) rs) (all_callbacks m)
        (quiet_map (λ r. preview_settled r none) rs (λ r. refl)) (quiet_callbacks E m))
      refl

module _ {E : Type 0} (a b : Bool) where
  pub emit-IsShut :
      (es : List (Event E)) (l : ProfileLink E)
      → any is_guarded es ≡ false
      → IsShut a b l
      → IsShut a b (emit es l)
  unfolding emit
  emit-IsShut es l h s = (s.0, s.1, s.2, quiet_append l.events es s.3 h, s.4, s.5)

  pub close-IsShut : (l : ProfileLink E) → IsShut a b l → IsShut a b (close l)
  unfolding close emit
  close-IsShut l s =
      if_elim (IsShut a b) l.closed (λ _. s)
        (λ _. (
          s.0,
          refl,
          refl,
          quiet_append l.events _ s.3 (quiet_end E l.pending_preview l.close_handlers),
          s.4,
          s.5,
        ))

  pub send_control-IsShut :
      (fs : Fields) (l : ProfileLink E)
      → is_guarded {E = E} (control_sent fs) ≡ false
      → IsShut a b l
      → IsShut a b (send_control fs l)
  unfolding send_control
  send_control-IsShut fs l h s =
      if_elim (IsShut a b) l.closed (λ _. s)
        (λ _. emit-IsShut (control_sent fs ∷ []) l (ap (λ c. c || false) h) s)

  pub start-IsShut : (l : ProfileLink E) → IsShut a b l → IsShut a b (start l)
  unfolding start
  start-IsShut l s = if_elim (IsShut a b) l.require_phrase (λ _. s) (λ h. absurd cc)

  pub phrase_timeout-IsShut : (l : ProfileLink E) → IsShut a b l → IsShut a b (phrase_timeout l)
  unfolding phrase_timeout is_guarded
  phrase_timeout-IsShut l s =
      if_elim (IsShut a b) (not l.timed) (λ _. s)
        (λ _.
          if_elim (IsShut a b) (l.ready || l.closed) (λ _. s)
            (λ _. close-IsShut _ (
              emit-IsShut (phrase_rejected (text "the phrase was not confirmed in time") ∷ [])
                (record l { timed = false }) refl s)))

  pub reject_phrase-IsShut :
      (reason : Text) (l : ProfileLink E) → IsShut a b l → IsShut a b (reject_phrase reason l)
  unfolding reject_phrase is_guarded phrase_mismatch fields text_eq
  reject_phrase-IsShut reason l s =
      if_elim (IsShut a b) l.closed (λ _. s)
        (λ _. close-IsShut _ (
          emit-IsShut (phrase_rejected reason ∷ []) (send_control (phrase_mismatch reason) l) refl
            (send_control-IsShut (phrase_mismatch reason) l refl s)))

  pub send_catalog-IsShut : (l : ProfileLink E) → IsShut a b l → IsShut a b (send_catalog l)
  unfolding send_catalog is_guarded catalog_frame fields text_eq
  send_catalog-IsShut l s =
      if_elim (IsShut a b) l.closed (λ _. s) (λ _. send_control-IsShut (catalog_frame l) l refl s)

  pub set_catalog-IsShut :
      (js : Js) (catalog : Json) (sent : Bool) (l : ProfileLink E)
      → IsShut a b l
      → IsShut a b (set_catalog js catalog sent l)
  unfolding set_catalog
  set_catalog-IsShut js catalog sent l s =
      if_elim (IsShut a b) (sent && l.ready) (λ _. send_catalog-IsShut _ s) (λ _. s)

  pub set_consent-IsShut :
      (consent : JsMap Bool) (l : ProfileLink E) → IsShut a b l → IsShut a b (set_consent consent l)
  unfolding set_consent
  set_consent-IsShut consent l s = if_elim (IsShut a b) l.ready (λ h. absurd cc) (λ _. s)

  pub set_device_name-IsShut :
      (name : Text) (l : ProfileLink E) → IsShut a b l → IsShut a b (set_device_name name l)
  unfolding set_device_name
  set_device_name-IsShut name l s =
      if_elim (IsShut a b)
        (text_eq (normalize_device_name (some name)) []
          || text_eq (normalize_device_name (some name)) l.device_name)
        {x = l} {y = renamed} (λ _. s)
        (λ _.
          if_elim (IsShut a b) l.ready {x = send_catalog plain} {y = plain}
            (λ _. send_catalog-IsShut plain s) (λ _. s))
    where
      plain : ProfileLink E
      plain = record l { device_name = normalize_device_name (some name) }

      renamed : ProfileLink E
      renamed = if l.ready then send_catalog plain else plain

-- A confirmation of this side alone.
pub confirm_phrase-IsShut :
    {E : Type 0} (a : Bool) (l : ProfileLink E)
    → IsShut a false l
    → IsShut true false (confirm_phrase l)
unfolding confirm_phrase is_guarded phrase_ok fields text_eq
confirm_phrase-IsShut a l s =
    if_elim (IsShut true false) l.local_phrase (λ h. (s.0, s.1, s.2, s.3, h, s.5))
      (λ _.
        if_elim (IsShut true false) _ (λ h. absurd (unequal_tests (sym h ∙ told.5))) (λ _. told))
  where
    told : IsShut true false (send_control phrase_ok (record l { local_phrase = true }))
    told =
        send_control-IsShut true false phrase_ok (record l { local_phrase = true }) refl
          (s.0, s.1, s.2, s.3, refl, s.5)

    unequal_tests : true ≡ false → ⊥
    unequal_tests e = cc
