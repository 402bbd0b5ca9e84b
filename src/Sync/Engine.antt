-- ===== src/Sync/Engine.antt =====
-- web/src/sync/engine.ts: one replica's side of a sync round, from the peer's map to the applied
-- files. A replica is its id, its files and its journal; a round's requests are answered by the
-- function `fetch`, so that the answers may come from any peer. `clock i` is the time at which the
-- i-th pulled file is applied.
-- The states for the toolbar and the transfer counters are left out. File operations succeed.
pub mod Winner
pub mod Copies
pub mod Frame
pub mod Pulled
pub mod Stage
pub mod Converge
pub mod Deletes
pub mod Push
pub mod Grows
use mathlib.Core.Option
use grandpa_bob.Base.{
  ℕ, zero, suc, ◌+◌, Bool, true, false, not, ◌&&◌, ◌||◌, Option, none, some, List, [], ◌∷◌, ◌++◌,
  map, ltb, ◌==◌, if◌then◌else◌, get_or, take, filter, is_some,
}
use grandpa_bob.Base.Text.{Text, text, text_eq, text_lt}
use grandpa_bob.Base.JsMap
use grandpa_bob.Base.JsMap.{JsMap, keys}
use grandpa_bob.Sync.Journal.{
  OpKind, write, delete, SyncOp, Journal, last_op_for, lamport_for, deletions, record_op,
  record_remote_op, absorb_remote,
}
use grandpa_bob.Sync.Hashmap.{File, HashEntry, excluded, build_hashmap}

-- The time of an operation: an ISO string, and milliseconds.
pub record Moment : Type 0 where
  pub iso : Text
  pub ms : ℕ

pub record Replica : Type 0 where
  pub id : Text
  pub files : JsMap File
  pub journal : Journal

-- `at.replace(/[:.]/g, "-").slice(0, 19)`
abbrev dash_unit : ℕ → ℕ
dash_unit c = if c == b':' || c == b'.' then b'-' else c

unfoldable pub stamp_of : Text → Text
stamp_of at = take 19 (map dash_unit at)

-- `SEGMENT` matches where the path ends in a name.
unfoldable pub has_name : Text → Bool
has_name [] = false
has_name (a ∷ []) = not (a == b'/')
has_name (a ∷ b ∷ s) = has_name (b ∷ s)

unfoldable pub conflict_copy_of : Text → Text → Text
unfolding has_name
conflict_copy_of path at =
    if has_name path then path ++ (text ".conflict-" ++ stamp_of at) else path

-- An envelope of kind "hashmap".
pub record MapMessage : Type 0 where
  pub from : Text
  pub hashmap : JsMap HashEntry
  pub lamports : JsMap ℕ
  pub deletes : JsMap ℕ

unfoldable pub lamports_of : Journal → List Text → JsMap ℕ
lamports_of j [] = []
lamports_of j (p ∷ ps) = JsMap.set p (lamport_for p j) (lamports_of j ps)

-- The content that a file request brings, with its stamp.
pub record Fetched : Type 0 where
  pub base64 : Text
  pub lamport : ℕ

pub data Side : Type 0 where
  mine theirs : Side

unfoldable pub tie_break : Text → Text → Side
tie_break my_id their_id = if text_lt my_id their_id then mine else theirs

-- `conflictWinner`
unfoldable pub conflict_winner : ℕ → Text → HashEntry → HashEntry → ℕ → Text → Side
unfolding tie_break
conflict_winner my_lamport my_id m t their_lamport their_id =
    if my_lamport == 0 && their_lamport == 0 && ltb 0 m.mtime && ltb 0 t.mtime
    then (if m.mtime == t.mtime
        then tie_break my_id their_id
        else if ltb m.mtime t.mtime
        then theirs
        else mine)
    else if their_lamport == my_lamport
    then tie_break my_id their_id
    else if ltb my_lamport their_lamport
    then theirs
    else mine

unfoldable pub is_tombstone : Option SyncOp → Bool
is_tombstone none = false
is_tombstone (some o) = elim o.op [ delete ↦ true | write ↦ false ]

abbrev pub is_theirs : Side → Bool
is_theirs mine = false
is_theirs theirs = true

-- `myLast?.op === "write" && myLamport > delLamport`
abbrev pub newer_write : Option SyncOp → ℕ → Bool
newer_write none n = false
newer_write (some o) n = elim o.op [ write ↦ ltb n o.lamport | delete ↦ false ]

-- The first loop of `applyDifference`: the peer's tombstones.
pub pulled_deletes : Journal → JsMap HashEntry → JsMap ℕ → List Text
pulled_deletes j my_map [] = []
pulled_deletes j my_map ((p, n) ∷ ds) =
    let rest = pulled_deletes j my_map ds in
    if excluded p || not (JsMap.has p my_map) || newer_write (last_op_for p j) n
    then rest
    else p ∷ rest

-- What the second loop does with a path.
pub data Decision : Type 0 where
  skip pull : Decision
  conflict : Side → Decision

unfoldable pub decide : Replica → Text → Text → Option HashEntry → Option HashEntry → ℕ → Decision
decide r their_id path (some m) (some t) their_lamport =
    if text_eq m.hash t.hash
    then skip
    else conflict (conflict_winner (lamport_for path r.journal) r.id m t their_lamport their_id)
decide r their_id path (some m) none their_lamport = skip
decide r their_id path none (some t) their_lamport =
    if is_tombstone (last_op_for path r.journal) then skip else pull
decide r their_id path none none their_lamport = skip

abbrev pub pulls : Decision → Bool
pulls skip = false
pulls pull = true
pulls (conflict side) = is_theirs side

abbrev is_conflict : Decision → Bool
is_conflict (conflict side) = true
is_conflict _ = false

-- `new Set([...Object.keys(mine), ...Object.keys(theirs)])`
pub union_keys : JsMap HashEntry → JsMap HashEntry → List Text
union_keys m t = keys m ++ filter (λ k. not (JsMap.has k m)) (keys t)

pub decide_path : Replica → JsMap HashEntry → MapMessage → Text → Decision
unfolding decide
decide_path r my_map msg p =
    if excluded p
    then skip
    else decide r msg.from p (JsMap.get p my_map) (JsMap.get p msg.hashmap)
        (get_or (JsMap.get p msg.lamports) 0)

unfoldable pub pull_list : Replica → JsMap HashEntry → MapMessage → List Text
unfolding pulled_deletes decide_path union_keys
pull_list r my_map msg =
    pulled_deletes r.journal my_map msg.deletes
    ++ filter (λ p. pulls (decide_path r my_map msg p)) (union_keys my_map msg.hashmap)

unfoldable pub conflict_list : Replica → JsMap HashEntry → MapMessage → List Text
unfolding decide_path union_keys
conflict_list r my_map msg =
    filter (λ p. is_conflict (decide_path r my_map msg p)) (union_keys my_map msg.hashmap)

-- `answerFile`, and what `receive` makes of its answer: an empty answer for an excluded path, and
-- the empty content for a path that is not there.
unfoldable pub answer_file : Replica → Text → Option Fetched
answer_file r path =
    if excluded path
    then none
    else some (record {
      base64 = elim (JsMap.get path r.files) [ some f ↦ f.base64 | none ↦ [] ];
      lamport = lamport_for path r.journal;
    })

pub absorb_all : JsMap ℕ → Journal → Journal
absorb_all [] j = j
absorb_all ((p, n) ∷ m) j = absorb_all m (absorb_remote n j)

module _ (sha : Text → Text) where
  -- `myMap`
  unfoldable pub my_map : Replica → MapMessage
  unfolding lamports_of
  my_map r =
      let m = build_hashmap sha r.files in
      record {
        from = r.id;
        hashmap = m;
        lamports = lamports_of r.journal (keys m);
        deletes = deletions r.journal;
      }

  -- The local bytes that the peer's content replaces become a file of their own.
  pub keep_copy : Moment → Text → Text → Option File → Replica → Replica
  keep_copy now path base64 none r = r
  keep_copy now path base64 (some f) r =
      let copy = conflict_copy_of path now.iso in
      if text_eq f.base64 base64 then r else record r {
        files = JsMap.set copy (record { base64 = f.base64; mtime = now.ms }) r.files;
        journal = record_op copy write (some (sha f.base64)) now.iso r.journal;
      }

  unfoldable pub apply_remote_write : Moment → Text → Text → ℕ → Replica → Replica
  unfolding keep_copy
  apply_remote_write now path base64 lamport r =
      let r' = keep_copy now path base64 (JsMap.get path r.files) r in
      record r' {
        files = JsMap.set path (record { base64 = base64; mtime = now.ms }) r'.files;
        journal = record_remote_op path write (some (sha base64)) lamport now.iso r'.journal;
      }

  unfoldable pub apply_remote_delete : Moment → Text → ℕ → Replica → Replica
  apply_remote_delete now path lamport r = record r {
    files = JsMap.delete path r.files;
    journal = record_remote_op path delete none lamport now.iso r.journal;
  }

  -- `expected && hashOfBase64(…) !== expected`
  abbrev pub mismatch : Option HashEntry → Text → Bool
  mismatch none base64 = false
  mismatch (some t) base64 = not (text_eq t.hash []) && not (text_eq (sha base64) t.hash)

  -- The body of the pull loop.
  unfoldable pub pull_file : Moment → Text → Option HashEntry → Option Fetched → Replica → Replica
  unfolding apply_remote_write apply_remote_delete
  pull_file now path expected none r = r
  pull_file now path expected (some got) r =
      if text_eq got.base64 []
      then apply_remote_delete now path got.lamport r
      else if mismatch expected got.base64
      then r
      else apply_remote_write now path got.base64 got.lamport r

  unfoldable pub pull_loop :
      (ℕ → Moment) → JsMap HashEntry → (Text → Option Fetched) → ℕ → List Text → Replica → Replica
  pull_loop clock their_map fetch i [] r = r
  pull_loop clock their_map fetch i (p ∷ ps) r =
      pull_loop clock their_map fetch (suc i) ps
        (pull_file (clock i) p (JsMap.get p their_map) (fetch p) r)

  unfoldable pub apply_difference :
      (ℕ → Moment) → (Text → Option Fetched) → MapMessage → Replica → Replica
  unfolding pull_loop
  apply_difference clock fetch msg r =
      pull_loop clock msg.hashmap fetch 0 (pull_list r (my_map r).hashmap msg) r

  -- The "hashmap" branch of `onEnvelope`: our own map is ignored, and the stamps are absorbed first.
  unfoldable pub on_hashmap :
      (ℕ → Moment) → (Text → Option Fetched) → MapMessage → Replica → Replica
  unfolding absorb_all
  on_hashmap clock fetch msg r =
      if text_eq msg.from r.id
      then r
      else apply_difference clock fetch msg
          (record r { journal = absorb_all msg.lamports r.journal })
