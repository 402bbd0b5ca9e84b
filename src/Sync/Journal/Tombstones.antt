-- ===== src/Sync/Journal/Tombstones.antt =====
-- The tombstones that a journal advertises, against its log of ops.
use grandpa_bob.Base.{
  ℕ, ◌+◌, ◌≡◌, refl, Option, none, some, List, [], ◌∷◌, arith, length, is_some, Bool, true, false,
  ◌∙◌, if◌then◌else◌,
}
use grandpa_bob.Base.Text.{Text, text_eq}
use grandpa_bob.Base.JsMap
use grandpa_bob.Base.JsMap.{JsMap, get-set, get-delete}
use grandpa_bob.Base.JsMap.Size.{
  one_if, HasUniqueKeys, set-HasUniqueKeys, delete-HasUniqueKeys, length-set, length-delete,
}
use grandpa_bob.Sync.Journal.{
  OpKind, write, delete, SyncOp, Journal, kind_eq, last_op_in, last_op_for, deletions_step,
  deletions_from, deletions, last_kinds, count_deletes, stats,
}

-- A path is deleted if the last op that names it is a tombstone.
abbrev tombstone_of : OpKind → ℕ → Option ℕ
tombstone_of delete n = some n
tombstone_of write n = none

abbrev pub tombstone : Option SyncOp → Option ℕ
tombstone none = none
tombstone (some o) = tombstone_of o.op o.lamport

abbrev later : Option SyncOp → Option ℕ → Option ℕ
later none d = d
later (some o) d = tombstone (some o)

get-deletions_step :
    (p : Text) (out : JsMap ℕ) (o : SyncOp) (k : OpKind)
    → JsMap.get p (deletions_step out o k)
      ≡ (if text_eq o.path p then tombstone_of k o.lamport else JsMap.get p out)
unfolding deletions_step
get-deletions_step p out o write = get-delete o.path p out
get-deletions_step p out o delete = get-set o.path p o.lamport out

get-deletions_from :
    (p : Text) (out : JsMap ℕ) (os : List SyncOp)
    → JsMap.get p (deletions_from out os) ≡ later (last_op_in p os) (JsMap.get p out)
unfolding deletions_from last_op_in
get-deletions_from p out [] = refl
get-deletions_from p out (o ∷ os) =
    ground
      (arith, get-deletions_from p (deletions_step out o o.op) os, get-deletions_step p out o o.op)

-- The advertised deletions hold a path exactly when its last op is a tombstone, with the stamp of
-- that tombstone.
pub get-deletions :
    (p : Text) (j : Journal) → JsMap.get p (deletions j) ≡ tombstone (last_op_for p j)
unfolding deletions last_op_for JsMap.get
get-deletions p j = get-deletions_from p [] j.ops ∙ later_none (last_op_in p j.ops)
  where
    later_none : (o : Option SyncOp) → later o none ≡ tombstone o
    later_none none = refl
    later_none (some o) = refl

abbrev was_deleted : Option OpKind → Bool
was_deleted (some delete) = true
was_deleted _ = false

count_deletes-set :
    (p : Text) (k : OpKind) (m : JsMap OpKind)
    → count_deletes (JsMap.set p k m) + one_if (was_deleted (JsMap.get p m))
      ≡ count_deletes m + one_if (kind_eq k delete)
unfolding count_deletes JsMap.set JsMap.get kind_eq
count_deletes-set p k [] = ground arith
count_deletes-set p k ((j, w) ∷ m) = ground (arith, count_deletes-set p k m)

-- Both tables say the same of each path, and agree in number.
record SameDeletes (ks : JsMap OpKind) (ds : JsMap ℕ) : Type 0 where
  number : count_deletes ks ≡ length ds
  unique : HasUniqueKeys ds
  each : (p : Text) → is_some (JsMap.get p ds) ≡ was_deleted (JsMap.get p ks)

step-SameDeletes :
    {ks : JsMap OpKind} {ds : JsMap ℕ} (o : SyncOp) (k : OpKind)
    → SameDeletes ks ds
    → SameDeletes (JsMap.set o.path k ks) (deletions_step ds o k)
unfolding deletions_step kind_eq
step-SameDeletes {ks} {ds} o write h = record {
  number = ground (
    arith,
    count_deletes-set o.path write ks,
    length-delete o.path ds h.unique,
    h.number,
    h.each o.path,
  );
  unique = delete-HasUniqueKeys o.path ds h.unique;
  each = λ p. ground (arith, get-set o.path p write ks, get-delete o.path p ds, h.each p);
}
step-SameDeletes {ks} {ds} o delete h = record {
  number = ground (
    arith,
    count_deletes-set o.path delete ks,
    length-set o.path o.lamport ds,
    h.number,
    h.each o.path,
  );
  unique = set-HasUniqueKeys o.path o.lamport ds h.unique;
  each = λ p. ground (arith, get-set o.path p delete ks, get-set o.path p o.lamport ds, h.each p);
}

loops-SameDeletes :
    (os : List SyncOp) {ks : JsMap OpKind} {ds : JsMap ℕ}
    → SameDeletes ks ds
    → SameDeletes (last_kinds ks os) (deletions_from ds os)
unfolding last_kinds deletions_from
loops-SameDeletes [] h = h
loops-SameDeletes (o ∷ os) {ks} {ds} h =
    loops-SameDeletes os {ks = JsMap.set o.path o.op ks} {ds = deletions_step ds o o.op}
      (step-SameDeletes o o.op h)

-- The tombstones that the diagnostics count are as many as the deletions that are advertised.
pub tombstones-stats : (j : Journal) → (stats j).tombstones ≡ length (deletions j)
unfolding stats deletions JsMap.get
tombstones-stats j = (loops-SameDeletes j.ops start).number
  where
    start : SameDeletes [] []
    start = record { number = refl; unique = tt; each = λ p. refl }
