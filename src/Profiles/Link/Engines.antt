-- ===== src/Profiles/Link/Engines.antt =====
-- web/src/sync/profile-link.ts: `peerFor`, `detachProfile` and `requestPreview`.
use grandpa_bob.Base.{
  ℕ, Bool, true, false, not, ◌&&◌, ◌||◌, none, List, [], ◌∷◌, ◌++◌, map, filter, if◌then◌else◌,
  get_or,
}
use grandpa_bob.Base.Text.{Text, text, text_eq, includes}
use grandpa_bob.Base.Json.{str, fields}
use grandpa_bob.Base.Js.{Js}
use grandpa_bob.Base.JsMap
use grandpa_bob.Profiles.Link.{
  ProfileLink, data_sent, delivered, engine_closed, preview_settled, emit, send_control,
}

-- What `peerFor` returns: the profile's id and its own `closed`.
pub record VirtualPeer : Type 0 where
  pub id : Text
  pub closed : Bool

unfoldable pub peer_for : Js → Text → VirtualPeer
peer_for js profile_id = record { id = js.to_lower profile_id; closed = false }

module _ {E : Type 0} where
  -- `connected` is what the transport says.
  unfoldable pub peer_connected : Bool → VirtualPeer → ProfileLink E → Bool
  peer_connected connected p l = not p.closed && not l.closed && connected

  unfoldable pub peer_send : VirtualPeer → E → ProfileLink E → ProfileLink E
  unfolding emit
  peer_send p body l = if p.closed || l.closed then l else emit (data_sent p.id body ∷ []) l

  unfoldable pub waiting_for : Text → List (Text × E) → List E
  waiting_for id [] = []
  waiting_for id ((profile, body) ∷ es) =
      let rest = waiting_for id es in if text_eq profile id then body ∷ rest else rest

  unfoldable pub waiting_others : Text → List (Text × E) → List (Text × E)
  waiting_others id es = filter (λ e. not (text_eq e.0 id)) es

  unfoldable pub peer_on_message : VirtualPeer → ℕ → ProfileLink E → ProfileLink E
  unfolding emit waiting_for waiting_others
  peer_on_message p cb l = emit (map (delivered cb) (waiting_for p.id l.buffered)) (record l {
    handlers = JsMap.set p.id cb l.handlers;
    buffered = waiting_others p.id l.buffered;
  })

  unfoldable pub peer_on_closed : VirtualPeer → ℕ → ProfileLink E → ProfileLink E
  peer_on_closed p cb l = record l {
    close_handlers =
        JsMap.set p.id (get_or (JsMap.get p.id l.close_handlers) [] ++ cb ∷ []) l.close_handlers;
  }

  unfoldable pub end_engine : Text → ProfileLink E → ProfileLink E
  unfolding emit
  end_engine id l = emit (map engine_closed (get_or (JsMap.get id l.close_handlers) [])) (record l {
    handlers = JsMap.delete id l.handlers;
    close_handlers = JsMap.delete id l.close_handlers;
  })

  unfoldable pub peer_close : VirtualPeer → ProfileLink E → VirtualPeer × ProfileLink E
  unfolding end_engine
  peer_close p l = if p.closed then (p, l) else (record p { closed = true }, end_engine p.id l)

  unfoldable pub detach_profile : Js → Text → ProfileLink E → ProfileLink E
  unfolding end_engine waiting_others
  detach_profile js profile_id l =
      end_engine (js.to_lower profile_id)
        (record l { buffered = waiting_others (js.to_lower profile_id) l.buffered })

  -- `request` is the fresh name of the request.
  unfoldable pub request_preview : Bool → Text → Text → ProfileLink E → ProfileLink E
  unfolding emit send_control
  request_preview connected request profile_id l =
      if l.closed || not connected
      then emit (preview_settled request none ∷ []) l
      else send_control
          (fields (
            (text "op", str (text "profile-preview"))
            ∷ (text "request", str request)
            ∷ (text "profile", str profile_id)
            ∷ []))
          (record l { pending_preview = l.pending_preview ++ request ∷ [] })

  -- The timer of a request, which its answer and `close` clear.
  unfoldable pub preview_timeout : Text → ProfileLink E → ProfileLink E
  unfolding emit
  preview_timeout request l =
      if not (includes l.pending_preview request)
      then l
      else emit (preview_settled request none ∷ [])
          (record l { pending_preview = filter (λ r. not (text_eq r request)) l.pending_preview })
