-- ===== src/Sync/Journal/Grows.antt =====
-- What every way of recording has in common: the invariant stays, and no stamp goes back.
use grandpa_bob.Base.{ℕ, ◌+◌, ◌≤◌, Option, arith, Bool-cases, inl, inr, max}
use grandpa_bob.Base.Text.{Text, text_eq_iff}
use grandpa_bob.Base.JsMap.{get-set}
use grandpa_bob.Sync.Journal.{
  OpKind, Journal, last_op_for, lamport_for, record_op, absorb_remote, record_remote_op, push,
  repeats,
}
use grandpa_bob.Sync.Journal.Stamps.{
  IsValid, absorb_remote-IsValid, record_op-IsValid, record_remote_op-IsValid,
  lamport_for-record_remote_op,
}

pub record Grows (j j' : Journal) : Type 0 where
  pub valid : IsValid j'
  pub stamps : (p : Text) → lamport_for p j ≤ lamport_for p j'

pub Grows-refl : {j : Journal} → IsValid j → Grows j j
Grows-refl v = record { valid = v; stamps = λ p. omega arith }

pub Grows-trans : {i j k : Journal} → Grows i j → Grows j k → Grows i k
Grows-trans a b = record { valid = b.valid; stamps = λ p. omega (arith, a.stamps p, b.stamps p) }

pub absorb_remote-Grows : (n : ℕ) (j : Journal) → IsValid j → Grows j (absorb_remote n j)
absorb_remote-Grows n j v = record {
  valid = absorb_remote-IsValid n j v;
  stamps = λ p. unfold absorb_remote lamport_for in ground arith;
}

lamport_for-record_op :
    (path : Text) (op : OpKind) (hash : Option Text) (at : Text) (j : Journal) (p : Text)
    → lamport_for p j ≤ lamport_for p (record_op path op hash at j)
unfolding record_op push lamport_for
lamport_for-record_op path op hash at j p =
    elim (Bool-cases (repeats op hash (last_op_for path j))) [
      | inl e ↦ rw e (omega arith)
      | inr e ↦ rw e (
          ground (
            arith,
            get-set path p (max j.clock (lamport_for path j) + 1) j.lamport_by_path,
            text_eq_iff path p,
          ))
    ]

pub record_op-Grows :
    (path : Text) (op : OpKind) (hash : Option Text) (at : Text) (j : Journal)
    → IsValid j
    → Grows j (record_op path op hash at j)
record_op-Grows path op hash at j v = record {
  valid = record_op-IsValid path op hash at j v;
  stamps = lamport_for-record_op path op hash at j;
}

pub record_remote_op-Grows :
    (path : Text) (op : OpKind) (hash : Option Text) (n : ℕ) (at : Text) (j : Journal)
    → IsValid j
    → Grows j (record_remote_op path op hash n at j)
record_remote_op-Grows path op hash n at j v = record {
  valid = record_remote_op-IsValid path op hash n at j v;
  stamps =
      λ p. ground (arith, lamport_for-record_remote_op path op hash n at j p v, text_eq_iff path p);
}
