-- ===== src/Lease/Locks/Stuck.antt =====
-- A lock that is held while no tab is primary. Two requests of one tab that are open at once lead
-- there: the second is refused because the tab itself holds the lock, and makes it secondary.
use grandpa_bob.Base.{
  ℕ, zero, suc, ◌+◌, ◌≡◌, false, not, ◌||◌, List, [], ◌∷◌, Option, none, some, any, if_elim, arith,
}
use grandpa_bob.Base.Text.{Text}
use grandpa_bob.Lease.{is_primary}
use grandpa_bob.Lease.Locks.{
  LockTab, LockWorld, LockInput, asks, answered, yields, releases, put_tab, request, refused,
  answer, answer_asked, yield_lock, lock_step, lock_run, is_release,
}
use grandpa_bob.Lease.Locks.Single.{put_tab_elim, lost_secondary}

-- `id` holds the lock, and no tab is primary.
abbrev pub IsStuck : Text → LockWorld → Type 0
IsStuck id w = (w.lock ≡ some id) × ((k : Text) → is_primary (w.tabs k).tab.status ≡ false)

module _ (id : Text) (w : LockWorld) (s : IsStuck id w) where
  put_tab-IsStuck :
      (k : Text) (t : LockTab) → is_primary t.tab.status ≡ false → IsStuck id (put_tab k t w)
  unfolding put_tab
  put_tab-IsStuck k t h =
      (s.0, put_tab_elim (λ j u. is_primary u.tab.status ≡ false) k t w h (λ j d. s.1 j))

  request-IsStuck : (k : Text) → IsStuck id (request k w)
  unfolding request
  request-IsStuck k =
      if_elim (IsStuck id) ((w.tabs k).tab.stopped || is_primary (w.tabs k).tab.status) {x = w}
        (λ _. s)
        (λ _. put_tab-IsStuck k (record (w.tabs k) { asked = (w.tabs k).asked + 1 }) (s.1 k))

  answer-IsStuck : (o : Option Text) (k : Text) → o ≡ some id → IsStuck id (answer o k w)
  unfolding answer refused
  answer-IsStuck none k e = absurd cc
  answer-IsStuck (some j) k e =
      put_tab-IsStuck k (refused (w.tabs k)) (lost_secondary (w.tabs k).tab)

  answer_asked-IsStuck : (n : ℕ) (k : Text) → IsStuck id (answer_asked n k w)
  unfolding answer_asked
  answer_asked-IsStuck zero k = s
  answer_asked-IsStuck (suc n) k = answer-IsStuck w.lock k s.0

  yield_lock-IsStuck : (k : Text) → IsStuck id (yield_lock k w)
  unfolding yield_lock
  yield_lock-IsStuck k =
      if_elim (IsStuck id) (not (is_primary (w.tabs k).tab.status)) {x = w} (λ _. s)
        (λ h. absurd (free_again (s.1 k) h))
    where
      free_again :
          is_primary (w.tabs k).tab.status ≡ false
          → not (is_primary (w.tabs k).tab.status) ≡ false
          → ⊥
      free_again h g = ground arith

  lock_step-IsStuck : (i : LockInput) → is_release i ≡ false → IsStuck id (lock_step i w)
  unfolding lock_step is_release
  lock_step-IsStuck (asks k) h = request-IsStuck k
  lock_step-IsStuck (answered k) h = answer_asked-IsStuck (w.tabs k).asked k
  lock_step-IsStuck (yields k) h = yield_lock-IsStuck k
  lock_step-IsStuck (releases k) h = absurd cc

-- Where a tab holds the lock and no tab is primary, no tab becomes primary by any requests, answers
-- and yields of any tabs, as long as none releases
-- its lease.
pub lock_run-IsStuck :
    (is : List LockInput) (id : Text) (w : LockWorld)
    → any is_release is ≡ false
    → IsStuck id w
    → IsStuck id (lock_run is w)
unfolding lock_run
lock_run-IsStuck [] id w h s = s
lock_run-IsStuck (i ∷ is) id w h s =
    lock_run-IsStuck is id (lock_step i w) (rest h).1 (lock_step-IsStuck id w s i (rest h).0)
  where
    rest :
        (is_release i || any is_release is) ≡ false
        → (is_release i ≡ false) × (any is_release is ≡ false)
    rest e = ground arith
