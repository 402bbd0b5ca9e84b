-- ===== src/Agent/Watchdog.antt =====
-- web/src/agent/run-watchdog.ts: the runs in flight and their last activity. `on_stale` is what the
-- host's callback does to the runs when it starts or ends some.
pub mod Report
use grandpa_bob.Base.{
  ℕ, ◌+◌, ◌-◌, ◌*◌, Bool, true, false, not, Option, none, some, List, [], ◌∷◌, ◌++◌, ltb,
  if◌then◌else◌,
}
use grandpa_bob.Base.Text.{Text, text_eq}
use grandpa_bob.Base.JsMap
use grandpa_bob.Base.JsMap.{JsMap}

abbrev pub default_stale_ms : ℕ
default_stale_ms = 15 * 60000

pub record LiveRun : Type 0 where
  pub key : Text
  pub turn_id : Text
  pub last_activity_at : ℕ

abbrev pub Runs : Type 0
Runs = JsMap LiveRun

-- The options: a value that is missing, not finite or not above 0 is the default.
unfoldable pub stale_ms : Option ℕ → ℕ
stale_ms none = default_stale_ms
stale_ms (some n) = if ltb 0 n then n else default_stale_ms

unfoldable pub start : Text → Text → ℕ → Runs → Runs
start key turn_id now runs =
    JsMap.set key (record { key = key; turn_id = turn_id; last_activity_at = now }) runs

unfoldable pub touch : Text → Text → ℕ → Runs → Runs
touch key turn_id now runs = elim (JsMap.get key runs) [
  | none ↦ runs
  | some run ↦
      if text_eq run.turn_id turn_id
      then JsMap.set key (record run { last_activity_at = now }) runs
      else runs
]

unfoldable pub finish : Text → Text → Runs → Runs
finish key turn_id runs = elim (JsMap.get key runs) [
  | none ↦ runs
  | some run ↦ if text_eq run.turn_id turn_id then JsMap.delete key runs else runs
]

unfoldable pub is_stale : ℕ → ℕ → LiveRun → Bool
is_stale limit now run = not (ltb (now - run.last_activity_at) limit)

module _ (on_stale : LiveRun → Runs → Runs) (limit now : ℕ) where
  -- The loop over the snapshot: the runs that are reported, and the runs that are left.
  unfoldable pub check_each : Runs → Runs → List LiveRun × Runs
  unfolding is_stale
  check_each [] runs = ([], runs)
  check_each ((key, run) ∷ snapshot) runs =
      let stale = check_each snapshot (on_stale run (JsMap.delete key runs)) in
      let fresh = check_each snapshot runs in
      if is_stale limit now run then (run ∷ stale.0, stale.1) else fresh

  unfoldable pub check : Runs → List LiveRun × Runs
  unfolding check_each
  check runs = check_each runs runs

unfoldable pub stop : Runs → Runs
stop runs = []
