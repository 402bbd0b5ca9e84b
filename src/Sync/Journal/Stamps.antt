-- ===== src/Sync/Journal/Stamps.antt =====
-- The stamps of the journal: its invariant, and what each way of recording does to it.
use grandpa_bob.Base.{
  ℕ, ◌+◌, ◌≤◌, ◌<◌, max, ◌≡◌, Option, none, some, List, [], ◌∷◌, ◌++◌, arith, All, All-append, ltb,
  if◌then◌else◌, Bool-cases, inl, inr, false,
}
use grandpa_bob.Base.Text.{Text, text_eq, text_eq_iff, text_eq_refl}
use grandpa_bob.Base.JsMap.{get-set}
use grandpa_bob.Sync.Journal.{
  OpKind, SyncOp, Journal, last_op_in, last_op_for, lamport_for, push, repeats, record_op,
  repeats_at, absorb_remote, record_remote_op, stamped,
}

-- The stamp of an op that may be missing.
abbrev pub stamp : Option SyncOp → ℕ
stamp none = 0
stamp (some o) = o.lamport

-- The clock bounds every stamp, and the table of stamps says what the log of ops says.
pub record IsValid (j : Journal) : Type 0 where
  pub bounded : All (λ o. o.lamport ≤ j.clock) j.ops
  pub agrees : (p : Text) → lamport_for p j ≡ stamp (last_op_for p j)

pub last_op_in-append :
    (p : Text) (os : List SyncOp) (o : SyncOp)
    → last_op_in p (os ++ o ∷ []) ≡ (if text_eq o.path p then some o else last_op_in p os)
unfolding last_op_in
last_op_in-append p [] o = ground arith
last_op_in-append p (x ∷ os) o = ground (arith, last_op_in-append p os o)

All-le_mono :
    (m n : ℕ) (os : List SyncOp) → m ≤ n → All (λ o. o.lamport ≤ m) os → All (λ o. o.lamport ≤ n) os
All-le_mono m n [] h b = tt
All-le_mono m n (o ∷ os) h b = (omega arith, All-le_mono m n os h b.1)

pub last_op_in-le :
    (n : ℕ) (p : Text) (os : List SyncOp)
    → All (λ o. o.lamport ≤ n) os
    → stamp (last_op_in p os) ≤ n
unfolding last_op_in
last_op_in-le n p [] h = omega arith
last_op_in-le n p (o ∷ os) h = ground (arith, last_op_in-le n p os h.1)

pub push-IsValid : (o : SyncOp) (j : Journal) → IsValid j → o.lamport ≤ j.clock → IsValid (push o j)
unfolding push lamport_for last_op_for
push-IsValid o j v h = record {
  bounded = All-append (λ x. x.lamport ≤ j.clock) j.ops (o ∷ []) v.bounded (h, tt);
  agrees = λ p. ground (
    arith,
    get-set o.path p o.lamport j.lamport_by_path,
    last_op_in-append p j.ops o,
    v.agrees p,
  );
}

raise-IsValid : (n : ℕ) (j : Journal) → IsValid j → j.clock ≤ n → IsValid (record j { clock = n })
unfolding lamport_for last_op_for
raise-IsValid n j v h = record {
  bounded = All-le_mono j.clock n j.ops h v.bounded;
  agrees = v.agrees;
}

pub absorb_remote-IsValid : (n : ℕ) (j : Journal) → IsValid j → IsValid (absorb_remote n j)
unfolding absorb_remote
absorb_remote-IsValid n j v = elim (Bool-cases (ltb j.clock n)) [
  | inl h ↦ rw h (raise-IsValid n j v (ground arith))
  | inr h ↦ rw h v
]

pub le-clock-absorb_remote : (n : ℕ) (j : Journal) → n ≤ (absorb_remote n j).clock
unfolding absorb_remote
le-clock-absorb_remote n j = ground arith

-- Recording a local mutation keeps the journal's invariant.
pub record_op-IsValid :
    (path : Text) (op : OpKind) (hash : Option Text) (at : Text) (j : Journal)
    → IsValid j
    → IsValid (record_op path op hash at j)
unfolding record_op
record_op-IsValid path op hash at j v =
    let next = max j.clock (lamport_for path j) + 1 in
    elim (Bool-cases (repeats op hash (last_op_for path j))) [
      | inl h ↦ rw h v
      | inr h ↦ rw h (
          push-IsValid (stamped path op hash next at) (record j { clock = next })
            (raise-IsValid next j v (omega arith)) (omega arith))
    ]

-- Recording an applied remote op keeps it too.
pub record_remote_op-IsValid :
    (path : Text) (op : OpKind) (hash : Option Text) (n : ℕ) (at : Text) (j : Journal)
    → IsValid j
    → IsValid (record_remote_op path op hash n at j)
unfolding record_remote_op
record_remote_op-IsValid path op hash n at j v =
    let v' = absorb_remote-IsValid n j v in
    elim (Bool-cases (ltb n (lamport_for path j))) [
      | inl h ↦ rw h v'
      | inr h ↦ elim (Bool-cases (repeats_at op hash n (last_op_for path j))) [
        | inl r ↦ rw (h, r) v'
        | inr r ↦
            rw (h, r)
              (push-IsValid (stamped path op hash n at) (absorb_remote n j) v'
                (le-clock-absorb_remote n j))
      ]
    ]

-- A local mutation that is not a repetition of the last op of its path is recorded as the last op
-- of that path, under a stamp above every stamp of the journal.
pub record_op_newest :
    (path : Text) (op : OpKind) (hash : Option Text) (at : Text) (j : Journal)
    → IsValid j
    → repeats op hash (last_op_for path j) ≡ false
    → (n : ℕ) × (last_op_for path (record_op path op hash at j) ≡ some (stamped path op hash n at))
      × All (λ o. o.lamport < n) j.ops
      × (lamport_for path (record_op path op hash at j) ≡ n)
unfolding record_op push last_op_for lamport_for
record_op_newest path op hash at j v fresh =
    let next = max j.clock (lamport_for path j) + 1 in
    (
      next,
      rw fresh (
          ground (
            arith,
            last_op_in-append path j.ops (stamped path op hash next at),
            text_eq_refl path,
          )),
      lt_all next j.ops v.bounded (omega arith),
      rw fresh (ground (arith, get-set path path next j.lamport_by_path, text_eq_refl path)),
    )
  where
    lt_all :
        {c : ℕ} (n : ℕ) (os : List SyncOp)
        → All (λ o. o.lamport ≤ c) os
        → c < n
        → All (λ o. o.lamport < n) os
    lt_all n [] b h = tt
    lt_all n (o ∷ os) b h = (omega arith, lt_all n os b.1 h)

-- After a remote op its path has the larger of the two stamps, whatever the journal held, and every
-- other path keeps its own.
pub lamport_for-record_remote_op :
    (path : Text) (op : OpKind) (hash : Option Text) (n : ℕ) (at : Text) (j : Journal) (p : Text)
    → IsValid j
    → lamport_for p (record_remote_op path op hash n at j)
      ≡ (if text_eq path p then max n (lamport_for path j) else lamport_for p j)
unfolding record_remote_op push absorb_remote lamport_for repeats_at last_op_for
lamport_for-record_remote_op path op hash n at j p v =
    ground (arith, get-set path p n j.lamport_by_path, text_eq_iff path p, v.agrees path)
