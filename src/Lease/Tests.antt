-- ===== src/Lease/Tests.antt =====
-- Runs of the lease, and each of its theorems at a concrete input.
use grandpa_bob.Base.{
  ℕ, ◌+◌, ◌<◌, ◌≤◌, ap, ◌≡◌, ◌⊎◌, inl, inr, refl, sym, ◌∙◌, Bool, true, false, [], ◌∷◌, Option,
  none, some, arith,
}
use grandpa_bob.Base.Text.{Text, text, text_eq, text_eq_iff}
use grandpa_bob.Lease.{
  LeaseRecord, idle, looked, wrote, is_primary, is_foreign, parse_record, attempt_won, attempt_lost,
  start_retry,
}
use grandpa_bob.Lease.Beats.{World, put, look, write, verify, yield_to, advance, attempt, opened}
use grandpa_bob.Lease.Beats.Alone.{in_force, attempt-in_force}
use grandpa_bob.Lease.Beats.Timed.{
  IsPrimary, Steps, Timely, looking, writing, verifying, passing, done, then_step,
}
use grandpa_bob.Lease.Beats.Timed.Exclusion.{opened-primary_unique}
use grandpa_bob.Lease.Locks.{LockWorld, asks, answered, is_release, lock_run, no_locks, put_tab}
use grandpa_bob.Lease.Locks.Single.{lock_run-no_locks}
use grandpa_bob.Lease.Locks.Stuck.{IsStuck, lock_run-IsStuck}

abbrev a : Text
a = text "a"

abbrev b : Text
b = text "b"

abbrev dead : Option LeaseRecord
dead = some (record { holder = text "z"; at = 100 })

attempt-in_force_example : is_primary ((attempt a true 200 (opened 9000 dead)).tabs a).status ≡ true
unfolding opened is_primary in_force text_eq
attempt-in_force_example = attempt-in_force a 200 (opened 9000 dead) refl

abbrev first : World
first = opened 1 none

abbrev claimed : World
claimed = write a true (look a first)

-- While the first tab waits, nobody reads and only it is active.
phases : (k : Text) → (a ≡ k × ((claimed.tabs k).phase ≡ wrote 1)) ⊎ ((claimed.tabs k).phase ≡ idle)
unfolding write look opened put is_primary parse_record is_foreign
phases k = by_test (text_eq a k) refl
  where
    by_test :
        (c : Bool)
        → text_eq a k ≡ c
        → (a ≡ k × ((claimed.tabs k).phase ≡ wrote 1)) ⊎ ((claimed.tabs k).phase ≡ idle)
    by_test true h = inl ((text_eq_iff a k).0 h, rw h refl)
    by_test false h = inr (rw h refl)

stored_at : (e : LeaseRecord) → claimed.stored ≡ some e → 1 ≡ e.at
unfolding write look opened put is_primary parse_record is_foreign
stored_at e x = ap at_of x
  where
    at_of : Option LeaseRecord → ℕ
    at_of none = 0
    at_of (some r) = r.at

claimed_now : claimed.now ≡ 1
unfolding write look opened put is_primary parse_record is_foreign
claimed_now = refl

claimed-Timely : Timely 150 claimed
claimed-Timely = record {
  prompt = λ k r x. by_phase k r (phases k) x;
  fresh = λ k p e x. in_time e (stored_at e x);
}
  where
    wrote_looked : (r : ℕ) → wrote 1 ≡ looked r → ⊥
    wrote_looked r x = cc

    idle_looked : (r : ℕ) → idle ≡ looked r → ⊥
    idle_looked r x = cc

    by_phase :
        (k : Text) (r : ℕ)
        → (a ≡ k × ((claimed.tabs k).phase ≡ wrote 1)) ⊎ ((claimed.tabs k).phase ≡ idle)
        → (claimed.tabs k).phase ≡ looked r
        → claimed.now + 150 < r + 150
    by_phase k r (inl p) x = absurd (wrote_looked r (sym p.1 ∙ x))
    by_phase k r (inr p) x = absurd (idle_looked r (sym p ∙ x))

    in_time : (e : LeaseRecord) → 1 ≡ e.at → claimed.now + 150 ≤ e.at + 6000
    in_time e h = omega (arith, h, claimed_now)

-- A tab reads, writes, waits and is primary.
one_attempt : Steps first (verify a (advance 150 claimed))
unfolding verify write look opened put is_primary parse_record is_foreign advance text_eq
one_attempt =
    then_step
      (then_step (then_step (then_step done (looking a refl)) (writing a true 1 refl))
        (passing 150 claimed-Timely))
      (verifying a 1 refl (omega arith))

verify-IsPrimary : IsPrimary (verify a (advance 150 claimed)) a
unfolding verify write look opened put is_primary parse_record is_foreign advance text_eq
    attempt_won
verify-IsPrimary = refl

opened-primary_unique_example : a ≡ a
opened-primary_unique_example =
    opened-primary_unique 1 none (verify a (advance 150 claimed)) a a (omega arith) one_attempt
      verify-IsPrimary verify-IsPrimary

lock_run-no_locks_example :
    ((lock_run (asks a ∷ asks b ∷ answered a ∷ answered b ∷ []) no_locks).lock ≡ some a)
    × (is_primary
            ((lock_run (asks a ∷ asks b ∷ answered a ∷ answered b ∷ []) no_locks).tabs b).tab.status
          ≡ true
        → a ≡ b)
unfolding lock_run no_locks is_primary text_eq attempt_won
lock_run-no_locks_example =
    lock_run-no_locks (asks a ∷ asks b ∷ answered a ∷ answered b ∷ []) a b refl

-- One tab asks twice before it is answered: the grant and the refusal.
abbrev twice : LockWorld
twice = lock_run (asks a ∷ asks a ∷ answered a ∷ answered a ∷ []) no_locks

twice-IsStuck : IsStuck a twice
unfolding lock_run no_locks put_tab is_primary text_eq attempt_won attempt_lost start_retry
twice-IsStuck = (refl, λ k. by_test k (text_eq a k) refl)
  where
    by_test : (k : Text) (c : Bool) → text_eq a k ≡ c → is_primary (twice.tabs k).tab.status ≡ false
    by_test k true h = rw h refl
    by_test k false h = rw h refl

lock_run-IsStuck_example :
    IsStuck a (lock_run (asks b ∷ answered b ∷ asks a ∷ answered a ∷ []) twice)
unfolding is_release
lock_run-IsStuck_example =
    lock_run-IsStuck (asks b ∷ answered b ∷ asks a ∷ answered a ∷ []) a twice refl twice-IsStuck

-- A first tab has written, then a second, and becomes primary in time; it yields before the first
-- wakes up. The first takes the release mark for its own record, and a third tab finds a free lease.
abbrev c : Text
c = text "c"

abbrev raced : World
raced = verify b (advance 160 (write b true (write a true (look b (look a (opened 1 none))))))

abbrev woken : World
woken = verify a (yield_to b true raced)

two_primary :
    (is_primary ((attempt c true 150 woken).tabs a).status ≡ true)
    × (is_primary ((attempt c true 150 woken).tabs c).status ≡ true)
unfolding attempt verify write look yield_to advance opened put is_primary parse_record is_foreign
    text_eq attempt_won start_retry
two_primary = (refl, refl)
