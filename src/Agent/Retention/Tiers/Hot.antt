-- ===== src/Agent/Retention/Tiers/Hot.antt =====
-- A session with a recent marker and no tombstone is left alone.
use grandpa_bob.Base.{
  ◌≤◌, ◌≡◌, refl, ◌∙◌, ap, Bool, true, false, not, ◌||◌, ◌&&◌, Option, none, some, List, [], ◌∷◌,
  all, arith, ltb, if◌then◌else◌, if_elim, not_both, ltb→lt, get_or, Bool-cases, inl, inr, and_true,
  ◌>>=◌,
}
use grandpa_bob.Base.Text.{Text, text, text_eq, text_eq_iff}
use grandpa_bob.Base.Json.{string_member}
use grandpa_bob.Base.Js.{Js}
use grandpa_bob.Base.JsMap
use grandpa_bob.Base.JsMap.{JsMap, get-set}
use grandpa_bob.Agent.Retention.Tiers.{
  WebSession, MarkerRow, fresh_session, marker_ts, with_run, with_marker, gather,
}

unfoldable pub is_tombstone_row : MarkerRow → Bool
is_tombstone_row row = text_eq row.kind (text "web_session_delete")

-- Whether a marker is no tombstone of the session `k`.
unfoldable pub spares : Text → MarkerRow → Bool
spares k row = not (text_eq row.run_id k && is_tombstone_row row)

module _ (js : Js) where
  run_ts : (r : Option Text) (s : WebSession) → (with_run r s).last_ts ≡ s.last_ts
  unfolding with_run
  run_ts none s = refl
  run_ts (some r) s =
      if_elim (λ u. u.last_ts ≡ s.last_ts) (text_eq r [] || text_eq r s.key) {x = s} (λ _. refl)
        (λ _. refl)

  run_deleted : (r : Option Text) (s : WebSession) → (with_run r s).deleted ≡ s.deleted
  unfolding with_run
  run_deleted none s = refl
  run_deleted (some r) s =
      if_elim (λ u. u.deleted ≡ s.deleted) (text_eq r [] || text_eq r s.key) {x = s} (λ _. refl)
        (λ _. refl)

  -- A marker makes a session no older, and as new as the marker at least.
  pub newer :
      (row : MarkerRow) (s : WebSession)
      → (s.last_ts ≤ (with_marker js row s).last_ts)
        × (marker_ts js row.content ≤ (with_marker js row s).last_ts)
  unfolding with_marker
  newer row s =
      if_elim IsNewer (text_eq row.kind (text "web_turn_end"))
        {x = with_run (row.content >>= string_member (text "runId")) seen}
        {y = if text_eq row.kind (text "web_session_delete")
          then record seen { deleted = true }
          else seen}
        (λ _.
          with_run_newer (with_run (row.content >>= string_member (text "runId")) seen)
            (run_ts (row.content >>= string_member (text "runId")) seen))
        (λ _.
          if_elim IsNewer (text_eq row.kind (text "web_session_delete"))
            {x = record seen { deleted = true }} {y = seen} (λ _. seen_newer) (λ _. seen_newer))
    where
      IsNewer : WebSession → Type 0
      IsNewer u = (s.last_ts ≤ u.last_ts) × (marker_ts js row.content ≤ u.last_ts)

      seen : WebSession
      seen =
          if ltb s.last_ts (marker_ts js row.content)
          then record s { last_ts = marker_ts js row.content }
          else s

      earlier :
          ltb s.last_ts (marker_ts js row.content) ≡ false → marker_ts js row.content ≤ s.last_ts
      earlier h = ground arith

      seen_newer : IsNewer seen
      seen_newer =
          if_elim IsNewer (ltb s.last_ts (marker_ts js row.content))
            {x = record s { last_ts = marker_ts js row.content }} {y = s}
            (λ h. (omega (arith, ltb→lt s.last_ts (marker_ts js row.content) h), omega arith))
            (λ h. (omega arith, earlier h))

      with_run_newer : (u : WebSession) → u.last_ts ≡ seen.last_ts → IsNewer u
      with_run_newer u e = (omega (arith, e, seen_newer.0), omega (arith, e, seen_newer.1))

  pub undeleted :
      (row : MarkerRow) (s : WebSession)
      → is_tombstone_row row ≡ false
      → s.deleted ≡ false
      → (with_marker js row s).deleted ≡ false
  unfolding with_marker is_tombstone_row
  undeleted row s h d =
      if_elim (λ u. u.deleted ≡ false) (text_eq row.kind (text "web_turn_end"))
        {x = with_run (row.content >>= string_member (text "runId")) seen}
        {y = if text_eq row.kind (text "web_session_delete")
          then record seen { deleted = true }
          else seen}
        (λ _. run_deleted (row.content >>= string_member (text "runId")) seen ∙ seen_deleted)
        (λ _.
          if_elim (λ u. u.deleted ≡ false) (text_eq row.kind (text "web_session_delete"))
            {x = record seen { deleted = true }} {y = seen} (λ k. absurd (not_both k h))
            (λ _. seen_deleted))
    where
      seen : WebSession
      seen =
          if ltb s.last_ts (marker_ts js row.content)
          then record s { last_ts = marker_ts js row.content }
          else s

      seen_deleted : seen.deleted ≡ false
      seen_deleted =
          if_elim (λ u. u.deleted ≡ false) (ltb s.last_ts (marker_ts js row.content))
            {x = record s { last_ts = marker_ts js row.content }} {y = s} (λ _. d) (λ _. d)

  pub spared :
      (k : Text) (row : MarkerRow)
      → text_eq row.run_id k ≡ true
      → spares k row ≡ true
      → is_tombstone_row row ≡ false
  unfolding spares
  spared k row e a = ground arith

  -- What the rest of the markers leaves of a session.
  abbrev pub Later : Text → List MarkerRow → WebSession → Option WebSession → Type 0
  Later k rows s0 none = ⊥
  Later k rows s0 (some s) =
      (s0.last_ts ≤ s.last_ts)
      × (all (spares k) rows ≡ true → s0.deleted ≡ false → s.deleted ≡ false)

  pub gathered :
      (rows : List MarkerRow) (sessions : JsMap WebSession) (k : Text) (s0 : WebSession)
      → JsMap.get k sessions ≡ some s0
      → Later k rows s0 (JsMap.get k (gather js rows sessions))
  unfolding gather
  gathered [] sessions k s0 h = rw h (omega arith, λ _ d. d)
  gathered (row ∷ rows) sessions k s0 h = elim (Bool-cases (text_eq row.run_id k)) [
    | inl e ↦
        let id : row.run_id ≡ k = (text_eq_iff row.run_id k).0 e in
        let same : get_or (JsMap.get row.run_id sessions) (fresh_session row.run_id) ≡ s0 =
          ap (λ j. get_or (JsMap.get j sessions) (fresh_session row.run_id)) id
          ∙ ap (λ o. get_or o (fresh_session row.run_id)) h in
        after (JsMap.get k (gather js rows next)) e (
          gathered rows next k (with_marker js row s0) (
            get-set row.run_id k marked sessions
            ∙ if_yes e
            ∙ ap (λ u. some (with_marker js row u)) same))
    | inr e ↦
        other (JsMap.get k (gather js rows next))
          (gathered rows next k s0 (get-set row.run_id k marked sessions ∙ if_no e ∙ h))
  ]
    where
      marked : WebSession
      marked =
          with_marker js row (get_or (JsMap.get row.run_id sessions) (fresh_session row.run_id))

      next : JsMap WebSession
      next = JsMap.set row.run_id marked sessions

      if_yes :
          text_eq row.run_id k ≡ true
          → (if text_eq row.run_id k then some marked else JsMap.get k sessions) ≡ some marked
      if_yes e = rw e refl

      if_no :
          text_eq row.run_id k ≡ false
          → (if text_eq row.run_id k then some marked else JsMap.get k sessions)
            ≡ JsMap.get k sessions
      if_no e = rw e refl

      after :
          (o : Option WebSession)
          → text_eq row.run_id k ≡ true
          → Later k rows (with_marker js row s0) o
          → Later k (row ∷ rows) s0 o
      after none e l = l
      after (some s) e l = (
        omega (arith, l.0, (newer row s0).0),
        λ a d. l.1 (and_true _ _ a).1 (undeleted row s0 (spared k row e (and_true _ _ a).0) d),
      )

      other : (o : Option WebSession) → Later k rows s0 o → Later k (row ∷ rows) s0 o
      other none l = l
      other (some s) l = (l.0, λ a d. l.1 (and_true _ _ a).1 d)
