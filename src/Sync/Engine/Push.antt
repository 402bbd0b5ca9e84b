-- ===== src/Sync/Engine/Push.antt =====
-- The "ops" branch of `onEnvelope`: operations that a peer pushes, under last-writer-wins.
use grandpa_bob.Base.{
  ℕ, Bool, false, not, ◌&&◌, Option, none, some, List, [], ◌∷◌, suc, ltb, ◌==◌, if◌then◌else◌,
  get_or,
}
use grandpa_bob.Base.Text.{Text, text_eq, text_lt}
use grandpa_bob.Base.JsMap
use grandpa_bob.Sync.Journal.{
  OpKind, write, delete, SyncOp, last_op_for, lamport_for, record_op, hash_eq,
}
use grandpa_bob.Sync.Hashmap.{excluded}
use grandpa_bob.Sync.Engine.{Moment, Replica, keep_copy, apply_remote_write}

pub record WireOp : Type 0 where
  pub path : Text
  pub op : OpKind
  pub base64 : Option Text
  pub lamport : Option ℕ

-- `last?.op === "write" && last.hash !== hash`
abbrev pub wrote_other : Option SyncOp → Text → Bool
wrote_other none hash = false
wrote_other (some last) hash = elim last.op [
  | write ↦ not (hash_eq last.hash (some hash))
  | delete ↦ false
]

abbrev pub older : Option ℕ → ℕ → Bool
older none n = false
older (some k) n = ltb k n

abbrev pub tied : Option ℕ → ℕ → Bool
tied none n = false
tied (some k) n = k == n && ltb 0 n

module _ (sha : Text → Text) where
  unfoldable pub apply_delete : Moment → Text → Replica → Replica
  apply_delete now path r = record r {
    files = JsMap.delete path r.files;
    journal = record_op path delete none now.iso r.journal;
  }

  -- The same stamp on both sides: the smaller replica id wins the path.
  unfoldable pub tie : Moment → Text → Text → Text → Replica → Replica
  tie now from path base64 r =
      if wrote_other (last_op_for path r.journal) (sha base64) && text_lt from r.id
      then (let r' = keep_copy sha now path base64 (JsMap.get path r.files) r in
          record r' {
            files = JsMap.set path (record { base64 = base64; mtime = now.ms }) r'.files;
            journal = record_op path write (some (sha base64)) now.iso r'.journal;
          })
      else r

  unfoldable pub tied_op : Moment → Text → WireOp → OpKind → Option Text → Replica → Replica
  unfolding tie
  tied_op now from o write (some base64) r = tie now from o.path base64 r
  tied_op now from o _ _ r = r

  unfoldable pub newer_op : Moment → WireOp → OpKind → Option Text → Replica → Replica
  unfolding apply_delete
  newer_op now o delete base64 r = apply_delete now o.path r
  newer_op now o write (some base64) r =
      apply_remote_write sha now o.path base64 (get_or o.lamport 0) r
  newer_op now o write none r = r

  unfoldable pub apply_op : Moment → Text → WireOp → Replica → Replica
  unfolding tied_op newer_op
  apply_op now from o r =
      if excluded o.path
      then r
      else if older o.lamport (lamport_for o.path r.journal)
      then r
      else if tied o.lamport (lamport_for o.path r.journal)
      then tied_op now from o o.op o.base64 r
      else newer_op now o o.op o.base64 r

  unfoldable pub ops_loop : (ℕ → Moment) → ℕ → Text → List WireOp → Replica → Replica
  ops_loop clock i from [] r = r
  ops_loop clock i from (o ∷ os) r = ops_loop clock (suc i) from os (apply_op (clock i) from o r)

  unfoldable pub on_ops : (ℕ → Moment) → Text → List WireOp → Replica → Replica
  unfolding ops_loop
  on_ops clock from os r = if text_eq from r.id then r else ops_loop clock 0 from os r
