-- ===== src/Agent/Retention/Tiers/Kept.antt =====
-- The tier of a session that has a recent marker.
use grandpa_bob.Base.{
  ℕ, ◌*◌, ◌≤◌, ◌<◌, ◌≡◌, refl, sym, ◌∙◌, ap, Bool, true, false, not, ◌||◌, ◌&&◌, Option, none, some,
  List, [], ◌∷◌, any, all, arith, ltb, if◌then◌else◌, get_or, Bool-cases, inl, inr, and_true, ◌+◌,
}
use mathlib.Core.Option
use grandpa_bob.Base.Text.{Text, text_eq, text_eq_iff}
use grandpa_bob.Base.Js.{Js}
use grandpa_bob.Base.JsMap
use grandpa_bob.Base.JsMap.{JsMap, get-set}
use grandpa_bob.Agent.Retention.Tiers.{
  RunLogTiers, WebSession, MarkerRow, untouched, fresh_session, marker_ts, with_marker, gather,
  tier_of, day_ms, with_checkpoint,
}
use grandpa_bob.Agent.Retention.Tiers.Hot.{newer, undeleted, spares, spared, gathered, Later}

-- Whether a marker is one of the session `k`, as new as `limit` at least.
unfoldable pub is_recent : Js → ℕ → Text → MarkerRow → Bool
is_recent js limit k row = text_eq row.run_id k && not (ltb (marker_ts js row.content) limit)

abbrev IsFresh : ℕ → Option WebSession → Type 0
IsFresh limit none = ⊥
IsFresh limit (some s) = (limit ≤ s.last_ts) × (s.deleted ≡ false)

module _ (js : Js) (limit : ℕ) where
  Later-IsFresh :
      (k : Text) (rows : List MarkerRow) (s0 : WebSession) (o : Option WebSession)
      → all (spares k) rows ≡ true
      → limit ≤ s0.last_ts
      → s0.deleted ≡ false
      → Later js k rows s0 o
      → IsFresh limit o
  Later-IsFresh k rows s0 none a h d l = l
  Later-IsFresh k rows s0 (some s) a h d l = (omega (arith, h, l.0), l.1 a d)

  recent_at :
      (k : Text) (row : MarkerRow)
      → is_recent js limit k row ≡ true
      → (text_eq row.run_id k ≡ true) × (limit ≤ marker_ts js row.content)
  unfolding is_recent
  recent_at k row h =
      let both = and_true (text_eq row.run_id k) (not (ltb (marker_ts js row.content) limit)) h in
      (both.0, ground (arith, both.1))

  -- A marker of the session or of another one, taken in by the loop.
  abbrev prior : Text → JsMap WebSession → WebSession
  prior k sessions = get_or (JsMap.get k sessions) (fresh_session k)

  abbrev marked : MarkerRow → JsMap WebSession → WebSession
  marked row sessions = with_marker js row (prior row.run_id sessions)

  abbrev next : MarkerRow → JsMap WebSession → JsMap WebSession
  next row sessions = JsMap.set row.run_id (marked row sessions) sessions

  get-next :
      (row : MarkerRow) (sessions : JsMap WebSession) (k : Text)
      → text_eq row.run_id k ≡ true
      → JsMap.get k (next row sessions) ≡ some (with_marker js row (prior k sessions))
  get-next row sessions k e =
      get-set row.run_id k (marked row sessions) sessions
      ∙ ap (λ b. if b then some (marked row sessions) else JsMap.get k sessions) e
      ∙ ap (λ j. some (with_marker js row (prior j sessions))) ((text_eq_iff row.run_id k).0 e)

  prior-next :
      (row : MarkerRow) (sessions : JsMap WebSession) (k : Text)
      → spares k row ≡ true
      → (prior k sessions).deleted ≡ false
      → (prior k (next row sessions)).deleted ≡ false
  prior-next row sessions k a d = elim (Bool-cases (text_eq row.run_id k)) [
    | inl e ↦
        ap (λ o. (get_or o (fresh_session k)).deleted) (get-next row sessions k e)
        ∙ undeleted js row (prior k sessions) (spared js k row e a) d
    | inr e ↦
        ap (λ o. (get_or o (fresh_session k)).deleted)
          (get-set row.run_id k (marked row sessions) sessions
            ∙ ap (λ b. if b then some (marked row sessions) else JsMap.get k sessions) e)
        ∙ d
  ]

  gather-IsFresh :
      (rows : List MarkerRow) (sessions : JsMap WebSession) (k : Text)
      → (prior k sessions).deleted ≡ false
      → all (spares k) rows ≡ true
      → any (is_recent js limit k) rows ≡ true
      → IsFresh limit (JsMap.get k (gather js rows sessions))
  unfolding gather
  gather-IsFresh [] sessions k d a r = ground arith
  gather-IsFresh (row ∷ rows) sessions k d a r = elim (Bool-cases (is_recent js limit k row)) [
    | inl n ↦
        let at = recent_at k row n in
        Later-IsFresh k rows (with_marker js row (prior k sessions))
          (JsMap.get k (gather js rows (next row sessions))) (and_true _ _ a).1
          (omega (arith, at.1, (newer js row (prior k sessions)).1))
          (undeleted js row (prior k sessions) (spared js k row at.0 (and_true _ _ a).0) d)
          (gathered js rows (next row sessions) k (with_marker js row (prior k sessions))
            (get-next row sessions k at.0))
    | inr n ↦
        gather-IsFresh rows (next row sessions) k (prior-next row sessions k (and_true _ _ a).0 d)
          (and_true _ _ a).1 (sym (ap (λ b. b || any (is_recent js limit k) rows) n) ∙ r)
  ]

  tier_of_lem :
      (tiers : RunLogTiers) (now : ℕ) (s : WebSession)
      → 0 < limit
      → now ≤ limit + tiers.hot_days * day_ms
      → tiers.hot_days ≤ tiers.delete_days
      → limit ≤ s.last_ts
      → s.deleted ≡ false
      → tier_of tiers now s ≡ untouched
  unfolding tier_of
  tier_of_lem tiers now s p n t h d = ground arith

  -- Where the hot days are no more than the days until deletion: a session with a marker that has a
  -- timestamp and is no older than the hot days, and with no tombstone marker, is neither compacted nor
  -- deleted, whatever other markers the log holds and whatever is paused.
  pub tier_of-gather :
      (tiers : RunLogTiers) (now : ℕ) (rows : List MarkerRow) (pending : List Text) (k : Text)
      → 0 < limit
      → now ≤ limit + tiers.hot_days * day_ms
      → tiers.hot_days ≤ tiers.delete_days
      → all (spares k) rows ≡ true
      → any (is_recent js limit k) rows ≡ true
      → Option.map
          (λ s. tier_of tiers now (with_checkpoint pending s))
          (JsMap.get k (gather js rows []))
        ≡ some untouched
  unfolding with_checkpoint JsMap.get fresh_session
  tier_of-gather tiers now rows pending k p n t a r =
      of (JsMap.get k (gather js rows [])) (gather-IsFresh rows [] k refl a r)
    where
      of :
          (o : Option WebSession)
          → IsFresh limit o
          → Option.map (λ s. tier_of tiers now (with_checkpoint pending s)) o ≡ some untouched
      of none f = absurd f
      of (some s) f = ap some (tier_of_lem tiers now (with_checkpoint pending s) p n t f.0 f.1)
