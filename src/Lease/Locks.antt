-- ===== src/Lease/Locks.antt =====
-- web/src/host-lease.ts, the path over Web Locks: `locksAcquire` in its two parts, the request and its
-- answer, and the two ways to give the lease up. The lock manager grants a request with `ifAvailable`
-- exactly if no page holds the lock, and frees the lock of a page that goes away.
pub mod Single
pub mod Stuck
use grandpa_bob.Base.{
  ℕ, zero, suc, ◌+◌, ◌-◌, List, [], ◌∷◌, Bool, true, false, not, ◌||◌, Option, none, some,
  if◌then◌else◌,
}
use grandpa_bob.Base.Text.{Text, text_eq}
use grandpa_bob.Lease.{
  Tab, LeaseStatus, idle, secondary, free, is_primary, start_retry, attempt_won, attempt_lost,
}

-- `holding` is `releaseHold !== null`, and `asked` counts the requests with no answer yet.
pub record LockTab : Type 0 where
  pub tab : Tab
  pub holding : Bool
  pub asked : ℕ

-- The page that holds the lock, and the tab of each holder id.
pub record LockWorld : Type 0 where
  pub lock : Option Text
  pub tabs : Text → LockTab

unfoldable pub put_tab : Text → LockTab → LockWorld → LockWorld
put_tab id t w = record w { tabs = λ k. if text_eq id k then t else w.tabs k }

-- `tryAcquire` up to the request.
unfoldable pub request : Text → LockWorld → LockWorld
unfolding put_tab
request id w =
    let t = w.tabs id in
    if t.tab.stopped || is_primary t.tab.status
    then w
    else put_tab id (record t { asked = t.asked + 1 }) w

unfoldable pub granted : LockTab → LockTab
granted t = record t { tab = attempt_won t.tab; holding = true; asked = t.asked - 1 }

unfoldable pub refused : LockTab → LockTab
refused t = record t {
  tab = attempt_lost (record t.tab { status = secondary });
  asked = t.asked - 1;
}

-- The callback of the request, and the rest of `tryAcquire`, given who holds the lock.
unfoldable pub answer : Option Text → Text → LockWorld → LockWorld
unfolding put_tab granted refused
answer none id w = put_tab id (granted (w.tabs id)) (record w { lock = some id })
answer (some k) id w = put_tab id (refused (w.tabs id)) w

-- `releaseHold?.()`
unfoldable pub freed : LockTab → Option Text → Option Text
freed t lock = if t.holding then none else lock

unfoldable pub yield_lock : Text → LockWorld → LockWorld
unfolding put_tab freed
yield_lock id w =
    let t = w.tabs id in
    if not (is_primary t.tab.status)
    then w
    else put_tab id
        (record t {
          tab = start_retry (record t.tab { beating = false; status = secondary });
          holding = false;
        })
        (record w { lock = freed t w.lock })

unfoldable pub release_lock : Text → LockWorld → LockWorld
unfolding put_tab freed
release_lock id w =
    let t = w.tabs id in
    put_tab id
      (record t {
        tab = record t.tab { stopped = true; retrying = false; beating = false; status = free };
        holding = false;
      })
      (record w { lock = freed t w.lock })

-- Requests and answers, and what else can happen to a tab.
pub data LockInput : Type 0 where
  asks answered yields releases : Text → LockInput

-- An answer comes only to a request.
unfoldable pub answer_asked : ℕ → Text → LockWorld → LockWorld
unfolding answer
answer_asked zero id w = w
answer_asked (suc n) id w = answer w.lock id w

unfoldable pub lock_step : LockInput → LockWorld → LockWorld
unfolding request answer_asked yield_lock release_lock
lock_step (asks id) w = request id w
lock_step (answered id) w = answer_asked (w.tabs id).asked id w
lock_step (yields id) w = yield_lock id w
lock_step (releases id) w = release_lock id w

unfoldable pub lock_run : List LockInput → LockWorld → LockWorld
unfolding lock_step
lock_run [] w = w
lock_run (i ∷ is) w = lock_run is (lock_step i w)

-- The tabs when their pages are opened.
unfoldable pub no_locks : LockWorld
no_locks = record {
  lock = none;
  tabs = λ id. record {
    tab = record {
      status = free;
      stopped = false;
      beating = false;
      retrying = false;
      settled = false;
      phase = idle;
    };
    holding = false;
    asked = 0;
  };
}

unfoldable pub is_release : LockInput → Bool
is_release (releases id) = true
is_release _ = false
