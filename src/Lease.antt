-- ===== src/Lease.antt =====
-- web/src/host-lease.ts: which tab hosts the agent of a workspace. A tab is known by its holder id.
-- `Beats` is the path over the record in localStorage, `Locks` the path over Web Locks.
pub mod Beats
pub mod Locks
mod Tests
use grandpa_bob.Base.{ℕ, ◌-◌, ◌==◌, Bool, true, false, not, Option, none, some, ltb, if◌then◌else◌}
use grandpa_bob.Base.Text.{Text, text_eq}

pub data LeaseStatus : Type 0 where
  primary secondary free : LeaseStatus

unfoldable pub is_primary : LeaseStatus → Bool
is_primary primary = true
is_primary _ = false

unfoldable pub is_secondary : LeaseStatus → Bool
is_secondary secondary = true
is_secondary _ = false

abbrev pub stale_ms : ℕ
stale_ms = 6000

-- The pause in `heartbeatAcquire`.
abbrev pub verify_ms : ℕ
verify_ms = 150

pub record LeaseRecord : Type 0 where
  pub holder : Text
  pub at : ℕ

-- Of the item that `JSON.parse` reads with a holder and a finite time, `none` for any other.
unfoldable pub parse_record : Option LeaseRecord → ℕ → Option LeaseRecord
parse_record none now = none
parse_record (some r) now =
    if r.at == 0 then none else if ltb stale_ms (now - r.at) then none else some r

-- `record && record.holder !== id`
unfoldable pub is_foreign : Text → Option LeaseRecord → Bool
is_foreign id none = false
is_foreign id (some r) = not (text_eq r.holder id)

-- How far an attempt of a tab over localStorage is: it has read at a time that the lease is free, or
-- has written its record at a time and waits.
pub data Phase : Type 0 where
  idle : Phase
  looked wrote : ℕ → Phase

-- `beating` and `retrying` say whether the timers are set, `settled` whether `whenSettled` is.
pub record Tab : Type 0 where
  pub status : LeaseStatus
  pub stopped : Bool
  pub beating : Bool
  pub retrying : Bool
  pub settled : Bool
  pub phase : Phase

unfoldable pub start_retry : Tab → Tab
start_retry t = if t.stopped then t else record t { retrying = true }

unfoldable pub start_heartbeat : Tab → Tab
start_heartbeat t = if t.stopped then t else record t { beating = true }

-- `notifySettled`
unfoldable pub notify_settled : Tab → Tab
notify_settled t = record t { settled = true; retrying = false }

-- The end of `tryAcquire` with a tab that is primary, and with one that is not.
unfoldable pub attempt_won : Tab → Tab
unfolding notify_settled start_heartbeat
attempt_won t =
    record (start_heartbeat (notify_settled (record t { status = primary; phase = idle }))) {
      settled = true;
    }

unfoldable pub attempt_lost : Tab → Tab
unfolding start_retry
attempt_lost t = record (start_retry (record t { phase = idle })) { settled = true }
