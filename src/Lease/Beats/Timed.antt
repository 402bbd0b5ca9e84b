-- ===== src/Lease/Beats/Timed.antt =====
-- The lease over localStorage as a timed step relation. A tab makes one attempt at a time, writes
-- less than the pause after it has read, and the record of a tab that holds the lease or waits for
-- it never gets stale. The lease is given up while no attempt waits.
pub mod Invariant
pub mod Attempt
pub mod Holding
pub mod Exclusion
use grandpa_bob.Base.{ℕ, ◌+◌, ◌≤◌, ◌<◌, ◌≡◌, ◌≢◌, ◌⊎◌, Bool, true, false, Option, none, some}
use grandpa_bob.Base.Text.{Text}
use grandpa_bob.Lease.{
  LeaseRecord, Phase, Tab, idle, looked, wrote, is_primary, stale_ms, verify_ms,
}
use grandpa_bob.Lease.Beats.{World, look, write, verify, beat, yield_to, release, retry, advance}

abbrev pub IsPrimary : World → Text → Type 0
IsPrimary w id = is_primary (w.tabs id).status ≡ true

abbrev pub IsWaiting : World → Text → Type 0
IsWaiting w id = (s : ℕ) × ((w.tabs id).phase ≡ wrote s)

abbrev pub NoneWaits : World → Type 0
NoneWaits w = (id : Text) (s : ℕ) → (w.tabs id).phase ≢ wrote s

-- Time may pass while no reader lingers and no record that is in use gets stale.
pub record Timely (d : ℕ) (w : World) : Type 0 where
  pub prompt : (id : Text) (r : ℕ) → (w.tabs id).phase ≡ looked r → w.now + d < r + verify_ms
  pub fresh :
      (id : Text)
      → IsPrimary w id ⊎ IsWaiting w id
      → (e : LeaseRecord) → w.stored ≡ some e
      → w.now + d ≤ e.at + stale_ms

pub data Step : World → World → Type 0 where
  looking : {w : World} (id : Text) → (w.tabs id).phase ≡ idle → Step w (look id w)
  retrying : {w : World} (id : Text) → (w.tabs id).phase ≡ idle → Step w (retry id w)
  writing :
      {w : World} (id : Text) (writable : Bool) (r : ℕ)
      → (w.tabs id).phase ≡ looked r
      → Step w (write id writable w)
  verifying :
      {w : World} (id : Text) (s : ℕ)
      → (w.tabs id).phase ≡ wrote s
      → s + verify_ms ≤ w.now
      → Step w (verify id w)
  beating : {w : World} (id : Text) (writable : Bool) → Step w (beat id writable w)
  yielding :
      {w : World} (id : Text) (writable : Bool) → NoneWaits w → Step w (yield_to id writable w)
  releasing :
      {w : World} (id : Text) (writable : Bool) → NoneWaits w → Step w (release id writable w)
  passing : {w : World} (d : ℕ) → Timely d w → Step w (advance d w)

pub data Steps : World → World → Type 0 where
  done : {w : World} → Steps w w
  then_step : {u v w : World} → Steps u v → Step v w → Steps u w
