-- ===== src/Lease/Beats.antt =====
-- web/src/host-lease.ts, the path over localStorage: `heartbeatAcquire` in its three parts, between
-- which other tabs run, the beat, and the two ways to give the lease up.
pub mod Timed
pub mod Alone
use grandpa_bob.Base.{ℕ, ◌+◌, Bool, true, false, not, ◌&&◌, ◌||◌, Option, none, some, if◌then◌else◌}
use grandpa_bob.Base.Text.{Text, text_eq}
use grandpa_bob.Lease.{
  LeaseStatus, primary, secondary, free, LeaseRecord, Phase, Tab, idle, looked, wrote, is_primary,
  is_secondary, is_foreign, parse_record, start_retry, attempt_won, attempt_lost,
}

-- All tabs of the workspace: the clock, the item in localStorage and the tab of each holder id.
pub record World : Type 0 where
  pub now : ℕ
  pub stored : Option LeaseRecord
  pub tabs : Text → Tab

unfoldable pub put : Text → Tab → World → World
put id t w = record w { tabs = λ k. if text_eq id k then t else w.tabs k }

-- `tryAcquire` up to the read: nothing where the tab is stopped or primary.
unfoldable pub look : Text → World → World
unfolding put
look id w =
    let t = w.tabs id in
    if t.stopped || is_primary t.status
    then w
    else put id
        (if is_foreign id (parse_record w.stored w.now)
          then attempt_lost (record t { status = secondary })
          else record t { phase = looked w.now })
        w

-- `writeRecord` of an attempt; `writable` is false where the storage refuses it.
unfoldable pub write : Text → Bool → World → World
unfolding put
write id writable w =
    let t = w.tabs id in
    if writable
    then put id (record t { phase = wrote w.now })
        (record w { stored = some (record { holder = id; at = w.now }) })
    else put id (attempt_lost t) w

-- The rest of an attempt, after the pause.
unfoldable pub verify : Text → World → World
unfolding put
verify id w =
    let t = w.tabs id in
    put id
      (if t.stopped
        then attempt_lost t
        else if is_foreign id (parse_record w.stored w.now)
        then attempt_lost (record t { status = secondary })
        else attempt_won t)
      w

-- `heartbeatAcquire` with no other tab in between, where the pause takes `d`.
unfoldable pub go_on : Phase → Text → Bool → ℕ → World → World
unfolding write verify
go_on (looked r) id writable d w =
    if writable then verify id (record (write id true w) { now = w.now + d }) else write id false w
go_on _ id writable d w = w

unfoldable pub attempt : Text → Bool → ℕ → World → World
unfolding look go_on
attempt id writable d w = go_on ((look id w).tabs id).phase id writable d (look id w)

-- The heartbeat's timer fires.
unfoldable pub beat : Text → Bool → World → World
unfolding put
beat id writable w =
    let t = w.tabs id in
    if t.stopped || not (is_primary t.status)
    then put id (record t { beating = false }) w
    else if is_foreign id (parse_record w.stored w.now)
    then put id (start_retry (record t { status = secondary })) w
    else if writable
    then record w { stored = some (record { holder = id; at = w.now }) }
    else w

-- The item after the release mark, which the storage may refuse.
unfoldable pub marked : Text → Bool → Option LeaseRecord → Option LeaseRecord
marked id writable stored = if writable then some (record { holder = id; at = 0 }) else stored

-- `yieldTo`
unfoldable pub yield_to : Text → Bool → World → World
unfolding put marked
yield_to id writable w =
    let t = w.tabs id in
    if not (is_primary t.status)
    then w
    else put id (start_retry (record t { beating = false; status = secondary }))
        (record w { stored = marked id writable w.stored })

-- `release`
unfoldable pub release : Text → Bool → World → World
unfolding put marked
release id writable w =
    let t = w.tabs id in
    put id (record t { stopped = true; retrying = false; beating = false; status = free })
      (record w { stored = if is_primary t.status then marked id writable w.stored else w.stored })

-- The retry's timer fires on a tab that is stopped or primary; on any other it begins an attempt.
unfoldable pub retry : Text → World → World
unfolding put look
retry id w =
    let t = w.tabs id in
    if t.stopped || is_primary t.status then put id (record t { retrying = false }) w else look id w

-- The messages of the other tabs, and what a tab does on one.
pub data LeaseMessage : Type 0 where
  freed yield_requested beaten : LeaseMessage

unfoldable pub on_message : LeaseMessage → Text → Bool → World → World
unfolding look yield_to
on_message freed id writable w = if is_secondary (w.tabs id).status then look id w else w
on_message yield_requested id writable w =
    if is_primary (w.tabs id).status then yield_to id writable w else w
on_message beaten id writable w = w

unfoldable pub advance : ℕ → World → World
advance d w = record w { now = w.now + d }

-- A tab whose page has just been opened, and a world of such tabs with any item in localStorage.
abbrev pub new_tab : Tab
new_tab = record {
  status = free;
  stopped = false;
  beating = false;
  retrying = false;
  settled = false;
  phase = idle;
}

unfoldable pub opened : ℕ → Option LeaseRecord → World
opened now stored = record { now = now; stored = stored; tabs = λ id. new_tab }
