-- ===== src/Lease/Beats/Timed/Exclusion.antt =====
-- Two tabs are never primary at once.
use grandpa_bob.Base.{ℕ, ◌<◌, ◌≡◌, Option}
use grandpa_bob.Base.Text.{Text}
use grandpa_bob.Lease.{LeaseRecord, is_primary}
use grandpa_bob.Lease.Beats.{World, opened}
use grandpa_bob.Lease.Beats.Timed.{
  IsPrimary, Step, Steps, looking, retrying, writing, verifying, beating, yielding, releasing,
  passing, done, then_step,
}
use grandpa_bob.Lease.Beats.Timed.Invariant.{IsSound, primary_unique}
use grandpa_bob.Lease.Beats.Timed.Attempt.{look-IsSound, write-IsSound, verify-IsSound}
use grandpa_bob.Lease.Beats.Timed.Holding.{
  beat-IsSound, yield_to-IsSound, release-IsSound, retry-IsSound, advance-IsSound,
}

step-IsSound : {w v : World} → Step w v → IsSound w → IsSound v
step-IsSound {w} (looking id e) s = look-IsSound w s id e
step-IsSound {w} (retrying id e) s = retry-IsSound w s id e
step-IsSound {w} (writing id writable r e) s = write-IsSound w s id writable r e
step-IsSound {w} (verifying id r e late) s = verify-IsSound w s id r e late
step-IsSound {w} (beating id writable) s = beat-IsSound w s id writable
step-IsSound {w} (yielding id writable quiet) s = yield_to-IsSound w s id writable quiet
step-IsSound {w} (releasing id writable quiet) s = release-IsSound w s id writable quiet
step-IsSound {w} (passing d t) s = advance-IsSound d w t s

Steps-IsSound : {w v : World} → Steps w v → IsSound w → IsSound v
Steps-IsSound done s = s
Steps-IsSound (then_step p q) s = step-IsSound q (Steps-IsSound p s)

opened-IsSound : (now : ℕ) (stored : Option LeaseRecord) → 0 < now → IsSound (opened now stored)
unfolding opened is_primary
opened-IsSound now stored h = record {
  started = h;
  tab_ok = λ id. ((λ p. absurd cc), tt);
  none_looks = λ id other r p. absurd cc;
}

-- However the tabs of a workspace interleave their attempts, beats, yields and releases over
-- localStorage: as long as a tab makes one attempt at a time and writes less than 150 ms after it has
-- read, the record of a tab that is primary or waits is never older than 6 s, and nobody gives the
-- lease up while an attempt waits, at most one tab is primary.
pub opened-primary_unique :
    (now : ℕ) (stored : Option LeaseRecord) (w : World) (id other : Text)
    → 0 < now
    → Steps (opened now stored) w
    → IsPrimary w id
    → IsPrimary w other
    → id ≡ other
opened-primary_unique now stored w id other h p =
    primary_unique w (Steps-IsSound p (opened-IsSound now stored h)) id other
