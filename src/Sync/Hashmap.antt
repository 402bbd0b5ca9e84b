-- ===== src/Sync/Hashmap.antt =====
-- web/src/sync/hashmap.ts: which paths never sync, and the map of a workspace.
-- A workspace is the table of its files, each with its content in base64; a directory is there
-- through its files. SHA-256 over the base64 text is the parameter `sha`.
use grandpa_bob.Base.{
  ℕ, ◌-◌, ◌*◌, ◌/◌, Bool, true, false, not, ◌&&◌, ◌||◌, none, [], ◌∷◌, ◌++◌, ltb, leb, ◌==◌,
  if◌then◌else◌, length, drop, all, ◌≡◌, refl, arith,
}
use mathlib.Core.Option
use mathlib.Core.List.{append-nil, append_assoc}
use grandpa_bob.Base.Text.{Text, text, text_eq, text_eq_iff, starts_with, at_some_tail, ends_with}
use grandpa_bob.Base.JsMap
use grandpa_bob.Base.JsMap.{JsMap}

-- `(^|\/)` before a test
after_slash : (Text → Bool) → Text → Bool
after_slash p [] = false
after_slash p (a ∷ s) = a == b'/' && p s || after_slash p s

at_segment : (Text → Bool) → Text → Bool
unfolding after_slash
at_segment p s = p s || after_slash p s

-- `[0-9T-]`
unfoldable pub is_stamp_unit : ℕ → Bool
is_stamp_unit c = (leb b'0' c && leb c b'9') || c == b'T' || c == b'-'

unfoldable pub is_stamp_text : Text → Bool
unfolding is_stamp_unit
is_stamp_text [] = false
is_stamp_text (c ∷ s) = is_stamp_unit c && all is_stamp_unit s

-- `\.conflict-[0-9T-]+$` from here
unfoldable pub is_conflict_mark : Text → Bool
unfolding is_stamp_text starts_with
is_conflict_mark s = starts_with (text ".conflict-") s && is_stamp_text (drop 10 s)

-- The tests of `EXCLUDED`, in the source's order.
unfoldable pub excluded : Text → Bool
unfolding at_segment is_conflict_mark at_some_tail ends_with starts_with
excluded rel =
    starts_with (text ".git/") rel
    || starts_with (text ".gpb-") rel
    || starts_with (text "logs/") rel
    || starts_with (text "assets/inbox/") rel
    || at_segment (starts_with (text ".gpb-sync/")) rel
    || at_segment (text_eq (text ".bob-profile.json")) rel
    || (all (λ c. not (c == b'/')) rel && ltb 3 (length rel) && ends_with (text ".db") rel)
    || ends_with (text ".db-journal") rel
    || ends_with (text ".db-wal") rel
    || ends_with (text ".db-shm") rel
    || at_segment (starts_with (text "node_modules/")) rel
    || at_segment (starts_with (text ".venv/")) rel
    || at_segment (starts_with (text "__pycache__/")) rel
    || at_segment (starts_with (text ".cache/")) rel
    || at_segment (starts_with (text "target/")) rel
    || at_some_tail is_conflict_mark rel

pub record File : Type 0 where
  pub base64 : Text
  pub mtime : ℕ

pub record HashEntry : Type 0 where
  pub hash : Text
  pub bytes : ℕ
  pub mtime : ℕ

-- Decoded byte length of a base64 payload.
unfoldable pub base64_bytes : Text → ℕ
unfolding ends_with
base64_bytes s =
    if ends_with (text "==") s
    then length s * 3 / 4 - 2
    else if ends_with (text "=") s
    then length s * 3 / 4 - 1
    else length s * 3 / 4

-- The walk enters no excluded directory: a path is left out if it is excluded, or a directory on
-- the way to it. `pre` is what has been walked.
hidden_from : Text → Text → Bool
hidden_from pre [] = excluded pre
hidden_from pre (a ∷ s) =
    let rest = hidden_from (pre ++ a ∷ []) s in if a == b'/' then excluded pre || rest else rest

unfoldable pub hidden : Text → Bool
unfolding hidden_from
hidden path = hidden_from [] path

module _ (sha : Text → Text) where
  unfoldable pub entry_of : File → HashEntry
  entry_of f = record { hash = sha f.base64; bytes = base64_bytes f.base64; mtime = f.mtime }

  unfoldable pub build_hashmap : JsMap File → JsMap HashEntry
  unfolding entry_of
  build_hashmap [] = []
  build_hashmap ((p, f) ∷ files) =
      let rest = build_hashmap files in if hidden p then rest else (p, entry_of f) ∷ rest

  pub get-build_hashmap :
      (p : Text) (files : JsMap File)
      → JsMap.get p (build_hashmap files)
        ≡ (if hidden p then none else Option.map entry_of (JsMap.get p files))
  unfolding build_hashmap JsMap.get
  get-build_hashmap p [] = ground arith
  get-build_hashmap p ((q, f) ∷ files) = ground (arith, get-build_hashmap p files, text_eq_iff q p)

hidden_from-excluded : (pre s : Text) → hidden_from pre s ≡ false → excluded (pre ++ s) ≡ false
unfolding hidden_from
hidden_from-excluded pre [] h = rw append-nil h
hidden_from-excluded pre (a ∷ s) h =
    rw (← append_assoc pre (a ∷ []) s) (hidden_from-excluded (pre ++ a ∷ []) s (ground arith))

-- A path that the walk lists is not excluded.
pub excluded_of_listed : (p : Text) → hidden p ≡ false → excluded p ≡ false
unfolding hidden
excluded_of_listed p h = hidden_from-excluded [] p h

or_true : (b : Bool) → (b || true) ≡ true
or_true true = refl
or_true false = refl

-- A path that ends in the mark of a conflict copy is excluded.
pub excluded_of_mark : (p : Text) → at_some_tail is_conflict_mark p ≡ true → excluded p ≡ true
unfolding excluded
excluded_of_mark p h = rw h (or_true _)
