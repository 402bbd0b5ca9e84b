-- ===== src/Agent/Retention/Tiers.antt =====
-- web/src/agent/runlog-retention.ts, the age tiers: the sessions that the markers tell of, and which of
-- them are compacted and which are deleted. A row's content is the object that `parseObject` reads.
pub mod Hot
pub mod Kept
pub mod Spared
use grandpa_bob.Base.{
  ℕ, zero, suc, ◌-◌, ◌*◌, ◌==◌, Bool, true, false, not, ◌&&◌, ◌||◌, Option, none, some, List, [],
  ◌∷◌, ◌++◌, map, filter, any, ltb, if◌then◌else◌, get_or, ◌>>=◌,
}
use grandpa_bob.Base.Text.{Text, text, text_eq, includes, add_member}
use grandpa_bob.Base.Json.{Json, Fields, num, member, string_member}
use grandpa_bob.Base.Js.{Js}
use grandpa_bob.Base.JsMap
use grandpa_bob.Base.JsMap.{JsMap}

pub record RunLogTiers : Type 0 where
  pub hot_days : ℕ
  pub delete_days : ℕ

abbrev pub run_log_tiers : RunLogTiers
run_log_tiers = record { hot_days = 14; delete_days = 90 }

abbrev pub day_ms : ℕ
day_ms = 24 * 60 * 60 * 1000

pub record WebSession : Type 0 where
  pub key : Text
  pub run_ids : List Text
  pub last_ts : ℕ
  pub deleted : Bool
  pub checkpointed : Bool

pub record MarkerRow : Type 0 where
  pub run_id : Text
  pub kind : Text
  pub content : Option Fields

unfoldable pub fresh_session : Text → WebSession
fresh_session key = record {
  key = key;
  run_ids = [];
  last_ts = 0;
  deleted = false;
  checkpointed = false;
}

-- `Number(v)` where it counts as true, cut off at 0, which makes no difference below.
unfoldable pub stamp_of : Js → Json → Option ℕ
stamp_of js (num n) = if n == 0 then none else some n
stamp_of js v = js.other_stamp v

unfoldable pub or_stamp : Option ℕ → Option ℕ → ℕ
or_stamp (some n) other = n
or_stamp none other = get_or other 0

unfoldable pub marker_ts : Js → Option Fields → ℕ
unfolding stamp_of or_stamp
marker_ts js c =
    or_stamp (c >>= member (text "ts") >>= stamp_of js)
      (c >>= member (text "endedAt") >>= stamp_of js)

-- The run of a turn's end, where it is another than the session's own.
unfoldable pub with_run : Option Text → WebSession → WebSession
unfolding add_member
with_run none s = s
with_run (some run_id) s =
    if text_eq run_id [] || text_eq run_id s.key
    then s
    else record s { run_ids = add_member run_id s.run_ids }

unfoldable pub with_marker : Js → MarkerRow → WebSession → WebSession
unfolding marker_ts with_run
with_marker js row s =
    let ts = marker_ts js row.content in
    let seen = if ltb s.last_ts ts then record s { last_ts = ts } else s in
    if text_eq row.kind (text "web_turn_end")
    then with_run (row.content >>= string_member (text "runId")) seen
    else if text_eq row.kind (text "web_session_delete")
    then record seen { deleted = true }
    else seen

-- The loop over the markers, in the order of the log.
unfoldable pub gather : Js → List MarkerRow → JsMap WebSession → JsMap WebSession
unfolding with_marker fresh_session
gather js [] sessions = sessions
gather js (row ∷ rows) sessions =
    let s = get_or (JsMap.get row.run_id sessions) (fresh_session row.run_id) in
    gather js rows (JsMap.set row.run_id (with_marker js row s) sessions)

unfoldable pub with_checkpoint : List Text → WebSession → WebSession
with_checkpoint pending s = record s {
  checkpointed = includes pending s.key || any (includes pending) s.run_ids;
}

unfoldable pub read_web_sessions : Js → List MarkerRow → List Text → List WebSession
unfolding gather with_checkpoint
read_web_sessions js markers pending = map (λ e. with_checkpoint pending e.1) (gather js markers [])

unfoldable pub session_run_ids : WebSession → List Text
session_run_ids s = s.key ∷ s.run_ids

pub data Tier : Type 0 where
  untouched compacted dropped : Tier

-- The age of a session that is newer than the clock is below 0, and counts as 0 here.
unfoldable pub tier_of : RunLogTiers → ℕ → WebSession → Tier
tier_of tiers now s =
    let age = now - s.last_ts in
    if s.last_ts == 0
    then untouched
    else if ltb (tiers.delete_days * day_ms) age
    then dropped
    else if s.checkpointed
    then untouched
    else if s.deleted || ltb (tiers.hot_days * day_ms) age
    then compacted
    else untouched

unfoldable pub is_tier : Tier → Tier → Bool
is_tier compacted compacted = true
is_tier dropped dropped = true
is_tier untouched untouched = true
is_tier _ _ = false

-- The sessions of a tier, which are then compacted or deleted.
unfoldable pub in_tier : Tier → RunLogTiers → ℕ → List WebSession → List WebSession
unfolding tier_of is_tier
in_tier t tiers now sessions = filter (λ s. is_tier t (tier_of tiers now s)) sessions

-- `sessions.flatMap(sessionRunIds)`
unfoldable pub runs_of : List WebSession → List Text
unfolding session_run_ids
runs_of [] = []
runs_of (s ∷ sessions) = session_run_ids s ++ runs_of sessions

-- The runs whose rows are compacted or deleted.
unfoldable pub tier_runs : Tier → RunLogTiers → ℕ → List WebSession → List Text
unfolding in_tier runs_of
tier_runs t tiers now sessions = runs_of (in_tier t tiers now sessions)
