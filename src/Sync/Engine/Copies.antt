-- ===== src/Sync/Engine/Copies.antt =====
-- The conflict copies of the engine are outside its own sync surface.
use grandpa_bob.Base.{
  ℕ, suc, zero, ◌≡◌, ◌≢◌, refl, Bool, true, ◌||◌, [], ◌∷◌, ◌++◌, arith, take, map, all, ◌==◌,
}
use grandpa_bob.Base.Text.{Text, text, starts_with, at_some_tail-append}
use grandpa_bob.Sync.Hashmap.{
  is_stamp_unit, is_stamp_text, is_conflict_mark, excluded, excluded_of_mark,
}
use grandpa_bob.Sync.Engine.{stamp_of, has_name, conflict_copy_of, dash_unit}

-- Digits, `-`, `T`, `:` and `.`: the first characters of `toISOString()`.
abbrev is_iso_unit : ℕ → Bool
is_iso_unit c = is_stamp_unit c || c == b':' || c == b'.'

-- A time string as `toISOString()` writes it: not empty, and of those characters up to the seconds.
abbrev pub IsIso : Text → Type 0
IsIso at = (all is_iso_unit (take 19 at) ≡ true) × (at ≢ [])

all-stamp :
    (n : ℕ) (at : Text)
    → all is_iso_unit (take n at) ≡ true
    → all is_stamp_unit (take n (map dash_unit at)) ≡ true
unfolding is_stamp_unit
all-stamp zero at h = refl
all-stamp (suc n) [] h = refl
all-stamp (suc n) (c ∷ at) h = ground (arith, all-stamp n at)

is_stamp_text-stamp_of : (at : Text) → IsIso at → is_stamp_text (stamp_of at) ≡ true
unfolding is_stamp_text stamp_of
is_stamp_text-stamp_of [] h = absurd (h.1 refl)
is_stamp_text-stamp_of (c ∷ at) h = all-stamp 19 (c ∷ at) h.0

is_conflict_mark-copy :
    (s : Text) → is_stamp_text s ≡ true → is_conflict_mark (text ".conflict-" ++ s) ≡ true
unfolding is_conflict_mark starts_with
is_conflict_mark-copy s h = h

-- The copy that keeps the loser of a conflict is excluded from every map and from every pull: for a
-- path that ends in a name and a time as `toISOString()` writes it.
pub excluded-conflict_copy_of :
    (path at : Text) → has_name path ≡ true → IsIso at → excluded (conflict_copy_of path at) ≡ true
unfolding conflict_copy_of
excluded-conflict_copy_of path at named iso = rw named (
    excluded_of_mark (path ++ (text ".conflict-" ++ stamp_of at)) (
      at_some_tail-append is_conflict_mark path (text ".conflict-" ++ stamp_of at)
        (is_conflict_mark-copy (stamp_of at) (is_stamp_text-stamp_of at iso))))
