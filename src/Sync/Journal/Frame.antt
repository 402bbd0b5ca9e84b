-- ===== src/Sync/Journal/Frame.antt =====
-- Recording an op of one path leaves what the journal knows of the other paths.
use grandpa_bob.Base.{◌∙◌}
use grandpa_bob.Base.{ℕ, ◌≡◌, refl, false, Option, arith, ltb, Bool-cases, inl, inr, max, ◌+◌}
use grandpa_bob.Base.Text.{Text, text_eq}
use grandpa_bob.Base.JsMap.{get-set}
use grandpa_bob.Sync.Journal.{
  OpKind, SyncOp, Journal, last_op_for, lamport_for, record_op, absorb_remote, record_remote_op,
  stamped, push, repeats, repeats_at,
}
use grandpa_bob.Sync.Journal.Stamps.{last_op_in-append}

pub record SameFor (p : Text) (j j' : Journal) : Type 0 where
  pub stamp : lamport_for p j' ≡ lamport_for p j
  pub last : last_op_for p j' ≡ last_op_for p j

pub SameFor-refl : (p : Text) (j : Journal) → SameFor p j j
SameFor-refl p j = record { stamp = refl; last = refl }

pub absorb_remote-SameFor : (p : Text) (n : ℕ) (j : Journal) → SameFor p j (absorb_remote n j)
unfolding absorb_remote lamport_for last_op_for
absorb_remote-SameFor p n j = ground arith

push-SameFor :
    (p : Text) (o : SyncOp) (j : Journal) → text_eq o.path p ≡ false → SameFor p j (push o j)
unfolding push lamport_for last_op_for
push-SameFor p o j h = record {
  stamp = ground (arith, get-set o.path p o.lamport j.lamport_by_path);
  last = ground (arith, last_op_in-append p j.ops o);
}

pub record_op-SameFor :
    (p path : Text) (op : OpKind) (hash : Option Text) (at : Text) (j : Journal)
    → text_eq path p ≡ false
    → SameFor p j (record_op path op hash at j)
unfolding record_op
record_op-SameFor p path op hash at j h = elim (Bool-cases (repeats op hash (last_op_for path j))) [
  | inl e ↦ rw e (SameFor-refl p j)
  | inr e ↦
      let next = max j.clock (lamport_for path j) + 1 in
      let s = push-SameFor p (stamped path op hash next at) (record j { clock = next }) h in
      rw e (record { stamp = s.stamp; last = s.last })
]

pub record_remote_op-SameFor :
    (p path : Text) (op : OpKind) (hash : Option Text) (n : ℕ) (at : Text) (j : Journal)
    → text_eq path p ≡ false
    → SameFor p j (record_remote_op path op hash n at j)
unfolding record_remote_op
record_remote_op-SameFor p path op hash n at j h =
    let a = absorb_remote-SameFor p n j in
    let s = push-SameFor p (stamped path op hash n at) (absorb_remote n j) h in
    elim (Bool-cases (ltb n (lamport_for path j))) [
      | inl e ↦ rw e a
      | inr e ↦ elim (Bool-cases (repeats_at op hash n (last_op_for path j))) [
        | inl d ↦ rw (e, d) a
        | inr d ↦ rw (e, d) (record { stamp = s.stamp ∙ a.stamp; last = s.last ∙ a.last })
      ]
    ]
