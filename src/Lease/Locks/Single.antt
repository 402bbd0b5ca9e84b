-- ===== src/Lease/Locks/Single.antt =====
-- Over Web Locks the tab that is primary holds the lock.
use grandpa_bob.Base.{
  ℕ, zero, suc, ◌+◌, ◌≡◌, ◌≢◌, refl, sym, ◌∙◌, subst, true, false, not, ◌||◌, List, [], ◌∷◌, Option,
  none, some, if_elim, not_both, arith,
}
use grandpa_bob.Base.Text.{Text, text_eq, text_eq_iff}
use grandpa_bob.Lease.{Tab, secondary, idle, is_primary, start_retry, attempt_lost}
use grandpa_bob.Lease.Locks.{
  LockTab, LockWorld, LockInput, asks, answered, yields, releases, put_tab, request, granted,
  refused, answer, answer_asked, freed, yield_lock, release_lock, lock_step, lock_run, no_locks,
}

pub lost_secondary :
    (t : Tab) → is_primary (attempt_lost (record t { status = secondary })).status ≡ false
unfolding attempt_lost start_retry is_primary
lost_secondary t =
    if_elim (λ u. is_primary u.status ≡ false) t.stopped
      {x = record t { status = secondary; phase = idle }} (λ _. refl) (λ _. refl)

retry_secondary :
    (t : Tab)
    → is_primary (start_retry (record t { beating = false; status = secondary })).status ≡ false
unfolding start_retry is_primary
retry_secondary t =
    if_elim (λ u. is_primary u.status ≡ false) t.stopped
      {x = record t { beating = false; status = secondary }} (λ _. refl) (λ _. refl)

-- A tab that is primary holds, and a tab holds exactly if it is the lock's.
abbrev HoldsOk : Option Text → Text → LockTab → Type 0
HoldsOk lock id t =
    (is_primary t.tab.status ≡ true → t.holding ≡ true) × (t.holding ≡ true → lock ≡ some id)

abbrev IsOrderly : LockWorld → Type 0
IsOrderly w = (k : Text) → HoldsOk w.lock k (w.tabs k)

pub put_tab_elim :
    (P : Text → LockTab → Type 0) (id : Text) (t : LockTab) (w : LockWorld)
    → P id t
    → ((k : Text) → id ≢ k → P k (w.tabs k))
    → (k : Text) → P k ((put_tab id t w).tabs k)
unfolding put_tab
put_tab_elim P id t w p others k =
    if_elim (P k) (text_eq id k) (λ h. subst (λ j. P j t) ((text_eq_iff id k).0 h) p)
      (λ h. others k (λ e. absurd (differ e h)))
  where
    differ : id ≡ k → text_eq id k ≡ false → ⊥
    differ e h = ground (arith, text_eq_iff id k)

module _ (w : LockWorld) (s : IsOrderly w) where
  -- Nobody else holds the lock that a tab holds, and nobody a lock that is free.
  others_free : (id k : Text) → (w.tabs id).holding ≡ true → id ≢ k → (w.tabs k).holding ≡ true → ⊥
  others_free id k h d g = d (same (sym ((s id).1 h) ∙ (s k).1 g))
    where
      same : some id ≡ some k → id ≡ k
      same e = cc

  given_up :
      (id : Text) (t : LockTab)
      → t.holding ≡ false
      → is_primary t.tab.status ≡ false
      → (k : Text)
      → HoldsOk
          (freed (w.tabs id) w.lock)
          k
          ((put_tab id t (record w { lock = freed (w.tabs id) w.lock })).tabs k)
  unfolding freed
  given_up id t h n =
      put_tab_elim (HoldsOk (freed (w.tabs id) w.lock)) id t
        (record w { lock = freed (w.tabs id) w.lock })
        ((λ p. absurd (not_both p n)), (λ g. absurd (not_both g h)))
        (λ k d. (
          (s k).0,
          (λ g.
              if_elim (λ o. o ≡ some k) (w.tabs id).holding (λ i. absurd (others_free id k i d g))
                (λ _. (s k).1 g)),
        ))

  answer_ok :
      (o : Option Text) (id k : Text)
      → w.lock ≡ o
      → HoldsOk (answer o id w).lock k ((answer o id w).tabs k)
  unfolding answer
  answer_ok none id k e =
      put_tab_elim (HoldsOk (some id)) id (granted (w.tabs id)) (record w { lock = some id })
        ((λ _. refl), (λ _. refl))
        (λ j d. ((s j).0, (λ g. absurd (free_lock j (sym e ∙ (s j).1 g))))) k
    where
      free_lock : (j : Text) → none ≡ some j → ⊥
      free_lock j x = cc
  answer_ok (some j) id k e =
      put_tab_elim (HoldsOk w.lock) id (refused (w.tabs id)) w
        ((λ p. absurd (not_both p (lost_secondary (w.tabs id).tab))), (s id).1) (λ k' d. s k') k

  asked_ok :
      (n : ℕ) (id k : Text) → HoldsOk (answer_asked n id w).lock k ((answer_asked n id w).tabs k)
  unfolding answer_asked
  asked_ok zero id k = s k
  asked_ok (suc n) id k = answer_ok w.lock id k refl

  request_ok : (id : Text) → IsOrderly (request id w)
  unfolding request
  request_ok id =
      if_elim IsOrderly ((w.tabs id).tab.stopped || is_primary (w.tabs id).tab.status) (λ _. s)
        (λ _. put_tab_elim (HoldsOk w.lock) id asking w (s id) (λ k d. s k))
    where
      asking : LockTab
      asking = record (w.tabs id) { asked = (w.tabs id).asked + 1 }

  yield_ok : (id : Text) → IsOrderly (yield_lock id w)
  unfolding yield_lock
  yield_ok id =
      if_elim IsOrderly (not (is_primary (w.tabs id).tab.status)) (λ _. s)
        (λ _. given_up id _ refl (retry_secondary (w.tabs id).tab))

  step_ok : (i : LockInput) → IsOrderly (lock_step i w)
  unfolding lock_step release_lock is_primary
  step_ok (asks id) = request_ok id
  step_ok (answered id) = λ k. asked_ok (w.tabs id).asked id k
  step_ok (yields id) = yield_ok id
  step_ok (releases id) = given_up id _ refl refl

run_ok : (is : List LockInput) (w : LockWorld) → IsOrderly w → IsOrderly (lock_run is w)
unfolding lock_run
run_ok [] w s = s
run_ok (i ∷ is) w s = run_ok is (lock_step i w) (step_ok w s i)

-- Whatever the tabs of a workspace ask, are answered, yield and release over Web Locks, and however
-- many requests of one tab are open: a tab that is primary holds the lock, so that at most one is.
pub lock_run-no_locks :
    (is : List LockInput) (id other : Text)
    → is_primary ((lock_run is no_locks).tabs id).tab.status ≡ true
    → ((lock_run is no_locks).lock ≡ some id)
      × (is_primary ((lock_run is no_locks).tabs other).tab.status ≡ true → id ≡ other)
unfolding no_locks is_primary
lock_run-no_locks is id other p = (held id p, (λ q. same (sym (held id p) ∙ held other q)))
  where
    end : LockWorld
    end = lock_run is no_locks

    orderly : IsOrderly end
    orderly = run_ok is no_locks (λ k. ((λ p. absurd cc), (λ h. absurd cc)))

    held : (k : Text) → is_primary (end.tabs k).tab.status ≡ true → end.lock ≡ some k
    held k q = (orderly k).1 ((orderly k).0 q)

    same : some id ≡ some other → id ≡ other
    same e = cc
