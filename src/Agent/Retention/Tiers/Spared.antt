-- ===== src/Agent/Retention/Tiers/Spared.antt =====
-- The runs of which the tiers leave every row.
use grandpa_bob.Base.{
  ℕ, ◌+◌, ◌*◌, ◌≤◌, ◌<◌, ◌≡◌, refl, sym, ◌∙◌, ap, Bool, true, false, not, ◌||◌, ◌&&◌, Option, none,
  some, List, [], ◌∷◌, ◌++◌, map, filter, any, all, arith, ltb, if◌then◌else◌, if_elim, get_or,
  Bool-cases, not_both, inl, inr, ◌⊎◌, and_true, ◌>>=◌,
}
use mathlib.Core.Option
use grandpa_bob.Base.Text.{Text, text, text_eq, text_eq_iff, includes, includes-append, add_member}
use grandpa_bob.Base.Json.{string_member}
use grandpa_bob.Base.Js.{Js}
use grandpa_bob.Base.JsMap
use grandpa_bob.Base.JsMap.{JsMap}
use grandpa_bob.Base.JsMap.Size.{HasUniqueKeys, set-HasUniqueKeys}
use grandpa_bob.Base.JsMap.Every.{Every, get-Every, set-Every, Every-get}
use grandpa_bob.Agent.Retention.Tiers.{
  RunLogTiers, WebSession, MarkerRow, Tier, untouched, compacted, dropped, fresh_session, marker_ts,
  with_run, with_marker, gather, tier_of, day_ms, with_checkpoint, read_web_sessions,
  session_run_ids, is_tier, in_tier, runs_of, tier_runs,
}
use grandpa_bob.Agent.Retention.Tiers.Hot.{spares}
use grandpa_bob.Agent.Retention.Tiers.Kept.{is_recent, tier_of-gather}

-- Whether a marker is the end of a turn of another session, which names `k` as its run.
abbrev is_text : Text → Option Text → Bool
is_text k none = false
is_text k (some r) = text_eq r k

unfoldable pub takes : Text → MarkerRow → Bool
takes k row =
    text_eq row.kind (text "web_turn_end")
    && is_text k (row.content >>= string_member (text "runId"))
    && not (text_eq row.run_id k)

module _ (js : Js) (k : Text) where
  abbrev Lacking : Text → WebSession → Type 0
  Lacking j s = (s.key ≡ j) × (includes s.run_ids k ≡ false)

  with_run-Lacking :
      (j : Text) (r : Option Text) (s : WebSession)
      → (is_text k r && not (text_eq j k)) ≡ false
      → Lacking j s
      → Lacking j (with_run r s)
  unfolding with_run add_member
  with_run-Lacking j none s h l = l
  with_run-Lacking j (some r) s h l =
      if_elim (Lacking j) (text_eq r [] || text_eq r s.key) {x = s}
        {y = record s { run_ids = add_member r s.run_ids }} (λ _. l) (λ n. (l.0, added (apart n)))
    where
      apart : (text_eq r [] || text_eq r s.key) ≡ false → text_eq r k ≡ false
      apart n = elim (Bool-cases (text_eq r k)) [
        | inl e ↦
            let own : text_eq j k ≡ true = ground (arith, h, e) in
            let same : r ≡ s.key =
              (text_eq_iff r k).0 e ∙ sym ((text_eq_iff j k).0 own) ∙ sym l.0 in
            absurd (not_both ((text_eq_iff r s.key).1 same) (ground (arith, n)))
        | inr e ↦ e
      ]

      added : text_eq r k ≡ false → includes (add_member r s.run_ids) k ≡ false
      added n =
          if_elim (λ ys. includes ys k ≡ false) (includes s.run_ids r) {x = s.run_ids}
            {y = s.run_ids ++ r ∷ []} (λ _. l.1)
            (λ _. includes-append s.run_ids (r ∷ []) k ∙ ground (arith, l.1, n))

  with_marker-Lacking :
      (row : MarkerRow) (s : WebSession)
      → takes k row ≡ false
      → Lacking row.run_id s
      → Lacking row.run_id (with_marker js row s)
  unfolding with_marker takes
  with_marker-Lacking row s h l =
      if_elim (Lacking row.run_id) (text_eq row.kind (text "web_turn_end"))
        {x = with_run (row.content >>= string_member (text "runId")) seen}
        {y = if text_eq row.kind (text "web_session_delete")
          then record seen { deleted = true }
          else seen}
        (λ c.
          with_run-Lacking row.run_id (row.content >>= string_member (text "runId")) seen
            (ground (arith, h, c)) seen_lacks)
        (λ _.
          if_elim (Lacking row.run_id) (text_eq row.kind (text "web_session_delete"))
            {x = record seen { deleted = true }} {y = seen} (λ _. seen_lacks) (λ _. seen_lacks))
    where
      seen : WebSession
      seen =
          if ltb s.last_ts (marker_ts js row.content)
          then record s { last_ts = marker_ts js row.content }
          else s

      seen_lacks : Lacking row.run_id seen
      seen_lacks =
          if_elim (Lacking row.run_id) (ltb s.last_ts (marker_ts js row.content))
            {x = record s { last_ts = marker_ts js row.content }} {y = s} (λ _. l) (λ _. l)

  prior_lacks :
      (j : Text) (m : JsMap WebSession)
      → Every Lacking m
      → Lacking j (get_or (JsMap.get j m) (fresh_session j))
  unfolding fresh_session
  prior_lacks j m e = of (JsMap.get j m) refl
    where
      of : (o : Option WebSession) → JsMap.get j m ≡ o → Lacking j (get_or o (fresh_session j))
      of none g = (refl, refl)
      of (some v) g = get-Every Lacking j v m e g

  gather-Lacking :
      (rows : List MarkerRow) (m : JsMap WebSession)
      → all (λ row. not (takes k row)) rows ≡ true
      → Every Lacking m
      → HasUniqueKeys m
      → Every Lacking (gather js rows m) × HasUniqueKeys (gather js rows m)
  unfolding gather
  gather-Lacking [] m a e u = (e, u)
  gather-Lacking (row ∷ rows) m a e u =
      let s : WebSession = get_or (JsMap.get row.run_id m) (fresh_session row.run_id) in
      let s' : WebSession = with_marker js row s in
      let both = and_true (not (takes k row)) (all (λ row. not (takes k row)) rows) a in
      let kept : takes k row ≡ false = ground (arith, both.0) in
      gather-Lacking rows (JsMap.set row.run_id s' m) both.1
        (set-Every Lacking row.run_id s' m
          (with_marker-Lacking row s kept (prior_lacks row.run_id m e)) e)
        (set-HasUniqueKeys row.run_id s' m u)

module _ (js : Js) (limit : ℕ) (tiers : RunLogTiers) (now : ℕ) (pending : List Text)
    (k : Text) where
  -- A session that is in no tier, or that has nothing to do with `k`.
  abbrev IsApart : Text → WebSession → Type 0
  IsApart j s =
      (includes (session_run_ids (with_checkpoint pending s)) k ≡ false)
      ⊎ (tier_of tiers now (with_checkpoint pending s) ≡ untouched)

  runs-IsApart :
      (t : Tier) (m : JsMap WebSession)
      → is_tier t untouched ≡ false
      → Every IsApart m
      → includes (tier_runs t tiers now (map (λ e. with_checkpoint pending e.1) m)) k ≡ false
  unfolding tier_runs filter
  runs-IsApart t [] h e = refl
  runs-IsApart t ((j, s) ∷ m) h e =
      let s' : WebSession = with_checkpoint pending s in
      let rest = runs-IsApart t m h e.1 in
      if_elim (λ l. includes (runs_of l) k ≡ false) (is_tier t (tier_of tiers now s'))
        {x = s' ∷ in_tier t tiers now (map (λ e. with_checkpoint pending e.1) m)}
        {y = in_tier t tiers now (map (λ e. with_checkpoint pending e.1) m)}
        (λ c. taken s' (in_tier t tiers now (map (λ e. with_checkpoint pending e.1) m)) c e.0 rest)
        (λ _. rest)
    where
      taken :
          (u : WebSession) (us : List WebSession)
          → is_tier t (tier_of tiers now u) ≡ true
          → (includes (session_run_ids u) k ≡ false) ⊎ (tier_of tiers now u ≡ untouched)
          → includes (runs_of us) k ≡ false
          → includes (runs_of (u ∷ us)) k ≡ false
      taken u us c (inl l) r = includes-append (session_run_ids u) (runs_of us) k ∙ rw (l, r) refl
      taken u us c (inr l) r = absurd (not_both (ap (is_tier t) (sym l) ∙ c) h)

  -- Where the hot days are no more than the days until deletion: a session with a marker that has a
  -- timestamp and is no older than the hot days, with no tombstone marker, and that no marker of
  -- another session names as its run, is not among the runs whose rows are compacted or deleted,
  -- whatever other markers the log holds and whatever is paused.
  pub tier_runs-read_web_sessions :
      (rows : List MarkerRow)
      → 0 < limit
      → now ≤ limit + tiers.hot_days * day_ms
      → tiers.hot_days ≤ tiers.delete_days
      → all (spares k) rows ≡ true
      → any (is_recent js limit k) rows ≡ true
      → all (λ row. not (takes k row)) rows ≡ true
      → (includes (tier_runs compacted tiers now (read_web_sessions js rows pending)) k ≡ false)
        × (includes (tier_runs dropped tiers now (read_web_sessions js rows pending)) k ≡ false)
  unfolding read_web_sessions is_tier session_run_ids with_checkpoint
  tier_runs-read_web_sessions rows p n t a r o = (
    runs-IsApart compacted (gather js rows []) refl every,
    runs-IsApart dropped (gather js rows []) refl every,
  )
    where
      lacking : Every (Lacking js k) (gather js rows []) × HasUniqueKeys (gather js rows [])
      lacking = gather-Lacking js k rows [] o tt tt

      own :
          (s : WebSession)
          → JsMap.get k (gather js rows []) ≡ some s
          → tier_of tiers now (with_checkpoint pending s) ≡ untouched
      own s g =
          let found =
            ap (λ q. Option.map (λ s. tier_of tiers now (with_checkpoint pending s)) q) (sym g)
            ∙ tier_of-gather js limit tiers now rows pending k p n t a r in
          ap (λ q. get_or q untouched) found

      of : (j : Text) (s : WebSession) → JsMap.get j (gather js rows []) ≡ some s → IsApart j s
      of j s g = elim (Bool-cases (text_eq j k)) [
        | inl e ↦
            inr
              (own s (ap (λ i. JsMap.get i (gather js rows [])) (sym ((text_eq_iff j k).0 e)) ∙ g))
        | inr e ↦
            let l = get-Every (Lacking js k) j s (gather js rows []) lacking.0 g in
            inl (ap (λ i. text_eq i k || includes s.run_ids k) l.0 ∙ rw (e, l.1) refl)
      ]

      every : Every IsApart (gather js rows [])
      every = Every-get IsApart (gather js rows []) lacking.1 of
