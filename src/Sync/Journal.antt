-- ===== src/Sync/Journal.antt =====
-- web/src/sync/journal.ts: the operations journal of one replica. `new Date().toISOString()` is the
-- argument `at`, and a journal keeps whether a write to disk is scheduled (`persistTimer`).
-- Lamport stamps are natural numbers.
pub mod Stamps
pub mod Tombstones
pub mod Disk
pub mod Frame
pub mod Grows
use grandpa_bob.Base.{
  ℕ, ◌+◌, max, Bool, true, false, ◌&&◌, Option, none, some, List, [], ◌∷◌, ◌++◌, ltb, ◌==◌,
  if◌then◌else◌, get_or, length,
}
use grandpa_bob.Base.Text.{Text, text_eq}
use grandpa_bob.Base.JsMap
use grandpa_bob.Base.JsMap.{JsMap}

pub data OpKind : Type 0 where
  write delete : OpKind

pub record SyncOp : Type 0 where
  pub lamport : ℕ
  pub path : Text
  pub op : OpKind
  pub hash : Option Text
  pub at : Text

unfoldable pub kind_eq : OpKind → OpKind → Bool
kind_eq write write = true
kind_eq delete delete = true
kind_eq _ _ = false

unfoldable pub hash_eq : Option Text → Option Text → Bool
hash_eq none none = true
hash_eq (some a) (some b) = text_eq a b
hash_eq _ _ = false

pub record Journal : Type 0 where
  pub ops : List SyncOp
  pub lamport_by_path : JsMap ℕ
  pub clock : ℕ
  pub persist_scheduled : Bool

abbrev pub empty : Journal
empty = record { ops = []; lamport_by_path = []; clock = 0; persist_scheduled = false }

-- The scan from the end of `ops`: the last op that names the path.
unfoldable pub last_op_in : Text → List SyncOp → Option SyncOp
last_op_in p [] = none
last_op_in p (o ∷ os) = elim (last_op_in p os) [
  | some later ↦ some later
  | none ↦ if text_eq o.path p then some o else none
]

unfoldable pub last_op_for : Text → Journal → Option SyncOp
last_op_for p j = last_op_in p j.ops

deletions_step : JsMap ℕ → SyncOp → OpKind → JsMap ℕ
deletions_step out o delete = JsMap.set o.path o.lamport out
deletions_step out o write = JsMap.delete o.path out

deletions_from : JsMap ℕ → List SyncOp → JsMap ℕ
deletions_from out [] = out
deletions_from out (o ∷ os) = deletions_from (deletions_step out o o.op) os

unfoldable pub deletions : Journal → JsMap ℕ
unfolding deletions_from deletions_step
deletions j = deletions_from [] j.ops

unfoldable pub lamport_for : Text → Journal → ℕ
lamport_for p j = get_or (JsMap.get p j.lamport_by_path) 0

pub record Stats : Type 0 where
  pub ops : ℕ
  pub paths : ℕ
  pub tombstones : ℕ
  pub clock : ℕ

last_kinds : JsMap OpKind → List SyncOp → JsMap OpKind
last_kinds out [] = out
last_kinds out (o ∷ os) = last_kinds (JsMap.set o.path o.op out) os

count_deletes : JsMap OpKind → ℕ
count_deletes [] = 0
count_deletes ((p, k) ∷ m) = (if kind_eq k delete then 1 else 0) + count_deletes m

unfoldable pub stats : Journal → Stats
unfolding last_kinds count_deletes kind_eq
stats j = record {
  ops = length j.ops;
  paths = length j.lamport_by_path;
  tombstones = count_deletes (last_kinds [] j.ops);
  clock = j.clock;
}

-- `this.ops.push(full)`, the stamp of its path, and `schedulePersist()`.
unfoldable pub push : SyncOp → Journal → Journal
push full j = record j {
  ops = j.ops ++ full ∷ [];
  lamport_by_path = JsMap.set full.path full.lamport j.lamport_by_path;
  persist_scheduled = true;
}

pub repeats : OpKind → Option Text → Option SyncOp → Bool
unfolding kind_eq hash_eq
repeats op hash none = false
repeats op hash (some last) = kind_eq last.op op && hash_eq last.hash hash

abbrev pub stamped : Text → OpKind → Option Text → ℕ → Text → SyncOp
stamped path op hash lamport at = record {
  lamport = lamport;
  path = path;
  op = op;
  hash = hash;
  at = at;
}

unfoldable pub record_op : Text → OpKind → Option Text → Text → Journal → Journal
unfolding push repeats last_op_for lamport_for
record_op path op hash at j =
    if repeats op hash (last_op_for path j)
    then j
    else let next = max j.clock (lamport_for path j) + 1 in
      push (stamped path op hash next at) (record j { clock = next })

pub repeats_at : OpKind → Option Text → ℕ → Option SyncOp → Bool
unfolding repeats
repeats_at op hash lamport none = false
repeats_at op hash lamport (some last) =
    kind_eq last.op op && hash_eq last.hash hash && last.lamport == lamport

unfoldable pub absorb_remote : ℕ → Journal → Journal
absorb_remote lamport j = if ltb j.clock lamport then record j { clock = lamport } else j

unfoldable pub record_remote_op : Text → OpKind → Option Text → ℕ → Text → Journal → Journal
unfolding push repeats_at absorb_remote last_op_for lamport_for
record_remote_op path op hash lamport at j =
    let j' = absorb_remote lamport j in
    if ltb lamport (lamport_for path j)
    then j'
    else if repeats_at op hash lamport (last_op_for path j)
    then j'
    else push (stamped path op hash lamport at) j'
