-- ===== src/Sync/Engine/Grows.antt =====
-- Whatever a peer sends, the journal of a replica keeps its invariant and no stamp goes back.
use grandpa_bob.Base.{
  ℕ, suc, Bool, true, false, Option, none, some, List, [], ◌∷◌, if◌then◌else◌, get_or,
}
use grandpa_bob.Base.Text.{Text, text_eq}
use grandpa_bob.Base.JsMap
use grandpa_bob.Base.JsMap.{JsMap}
use grandpa_bob.Sync.Journal.{OpKind, write, delete, Journal, absorb_remote, lamport_for}
use grandpa_bob.Sync.Journal.Stamps.{IsValid}
use grandpa_bob.Sync.Journal.Grows.{
  Grows, Grows-refl, Grows-trans, absorb_remote-Grows, record_op-Grows, record_remote_op-Grows,
}
use grandpa_bob.Sync.Hashmap.{File, HashEntry, excluded}
use grandpa_bob.Sync.Engine.{
  Moment, Replica, Fetched, MapMessage, my_map, pull_list, keep_copy, apply_remote_write,
  apply_remote_delete, pull_file, pull_loop, absorb_all, apply_difference, on_hashmap, mismatch,
  conflict_copy_of,
}
use grandpa_bob.Sync.Engine.Push.{
  WireOp, apply_delete, tie, tied_op, newer_op, apply_op, ops_loop, on_ops, older, tied,
}

-- `b` holds in both branches of a test.
branches {ℓ} :
    {A : Type 0} (P : A → Type ℓ) (b : Bool) (x y : A) → P x → P y → P (if b then x else y)
branches P true x y px py = px
branches P false x y px py = py

module _ (sha : Text → Text) where
  abbrev Step : (Replica → Replica) → Type 0
  Step f = (r : Replica) → IsValid r.journal → Grows r.journal (f r).journal

  abbrev Stays : Replica → Replica → Type 0
  Stays r r' = Grows r.journal r'.journal

  keep_copy-Grows :
      (now : Moment) (q base64 : Text) (f : Option File) → Step (keep_copy sha now q base64 f)
  unfolding keep_copy
  keep_copy-Grows now q base64 none r v = Grows-refl v
  keep_copy-Grows now q base64 (some f) r v =
      branches (Stays r) (text_eq f.base64 base64) r _ (Grows-refl v) (
        record_op-Grows (conflict_copy_of q now.iso) write (some (sha f.base64)) now.iso r.journal
          v)

  apply_remote_write-Grows :
      (now : Moment) (q base64 : Text) (n : ℕ) → Step (apply_remote_write sha now q base64 n)
  unfolding apply_remote_write
  apply_remote_write-Grows now q base64 n r v =
      let g = keep_copy-Grows now q base64 (JsMap.get q r.files) r v in
      Grows-trans g (record_remote_op-Grows q write (some (sha base64)) n now.iso _ g.valid)

  apply_remote_delete-Grows :
      (now : Moment) (q : Text) (n : ℕ) → Step (apply_remote_delete sha now q n)
  unfolding apply_remote_delete
  apply_remote_delete-Grows now q n r v = record_remote_op-Grows q delete none n now.iso r.journal v

  pull_file-Grows :
      (now : Moment) (q : Text) (e : Option HashEntry) (f : Option Fetched)
      → Step (pull_file sha now q e f)
  unfolding pull_file
  pull_file-Grows now q e none r v = Grows-refl v
  pull_file-Grows now q e (some got) r v =
      branches (Stays r) (text_eq got.base64 []) _ _
        (apply_remote_delete-Grows now q got.lamport r v)
        (branches (Stays r) (mismatch sha e got.base64) _ _ (Grows-refl v)
          (apply_remote_write-Grows now q got.base64 got.lamport r v))

  pull_loop-Grows :
      (clock : ℕ → Moment) (m : JsMap HashEntry) (fetch : Text → Option Fetched) (i : ℕ)
      (qs : List Text)
      → Step (pull_loop sha clock m fetch i qs)
  unfolding pull_loop
  pull_loop-Grows clock m fetch i [] r v = Grows-refl v
  pull_loop-Grows clock m fetch i (q ∷ qs) r v =
      let g = pull_file-Grows (clock i) q (JsMap.get q m) (fetch q) r v in
      Grows-trans g (pull_loop-Grows clock m fetch (suc i) qs _ g.valid)

  apply_difference-Grows :
      (clock : ℕ → Moment) (fetch : Text → Option Fetched) (msg : MapMessage)
      → Step (apply_difference sha clock fetch msg)
  unfolding apply_difference
  apply_difference-Grows clock fetch msg r v =
      pull_loop-Grows clock msg.hashmap fetch 0 (pull_list r (my_map sha r).hashmap msg) r v

  apply_delete-Grows : (now : Moment) (q : Text) → Step (apply_delete sha now q)
  unfolding apply_delete
  apply_delete-Grows now q r v = record_op-Grows q delete none now.iso r.journal v

  tie-Grows : (now : Moment) (from q base64 : Text) → Step (tie sha now from q base64)
  unfolding tie
  tie-Grows now from q base64 r v =
      let g = keep_copy-Grows now q base64 (JsMap.get q r.files) r v in
      branches (Stays r) _ _ r
        (Grows-trans g (record_op-Grows q write (some (sha base64)) now.iso _ g.valid))
        (Grows-refl v)

  tied_op-Grows :
      (now : Moment) (from : Text) (o : WireOp) (k : OpKind) (b : Option Text)
      → Step (tied_op sha now from o k b)
  unfolding tied_op
  tied_op-Grows now from o write (some b) r v = tie-Grows now from o.path b r v
  tied_op-Grows now from o write none r v = Grows-refl v
  tied_op-Grows now from o delete b r v = Grows-refl v

  newer_op-Grows :
      (now : Moment) (o : WireOp) (k : OpKind) (b : Option Text) → Step (newer_op sha now o k b)
  unfolding newer_op
  newer_op-Grows now o delete b r v = apply_delete-Grows now o.path r v
  newer_op-Grows now o write (some b) r v =
      apply_remote_write-Grows now o.path b (get_or o.lamport 0) r v
  newer_op-Grows now o write none r v = Grows-refl v

  apply_op-Grows : (now : Moment) (from : Text) (o : WireOp) → Step (apply_op sha now from o)
  unfolding apply_op
  apply_op-Grows now from o r v = branches (Stays r) (excluded o.path) _ _ (Grows-refl v) (
      branches (Stays r) (older o.lamport (lamport_for o.path r.journal)) _ _ (Grows-refl v) (
        branches (Stays r) (tied o.lamport (lamport_for o.path r.journal)) _ _
          (tied_op-Grows now from o o.op o.base64 r v) (newer_op-Grows now o o.op o.base64 r v)))

  ops_loop-Grows :
      (clock : ℕ → Moment) (i : ℕ) (from : Text) (os : List WireOp)
      → Step (ops_loop sha clock i from os)
  unfolding ops_loop
  ops_loop-Grows clock i from [] r v = Grows-refl v
  ops_loop-Grows clock i from (o ∷ os) r v =
      let g = apply_op-Grows (clock i) from o r v in
      Grows-trans g (ops_loop-Grows clock (suc i) from os _ g.valid)

absorb_all-Grows : (m : JsMap ℕ) (j : Journal) → IsValid j → Grows j (absorb_all m j)
unfolding absorb_all
absorb_all-Grows [] j v = Grows-refl v
absorb_all-Grows ((p, n) ∷ m) j v =
    let g = absorb_remote-Grows n j v in
    Grows-trans g (absorb_all-Grows m (absorb_remote n j) g.valid)

-- Whatever map a peer sends and whatever it answers to the requests, a replica with a valid journal
-- has a valid journal after it has applied the difference, and no path's stamp is smaller.
pub on_hashmap-Grows :
    (sha : Text → Text) (clock : ℕ → Moment) (fetch : Text → Option Fetched) (msg : MapMessage)
    (r : Replica)
    → IsValid r.journal
    → Grows r.journal (on_hashmap sha clock fetch msg r).journal
unfolding on_hashmap
on_hashmap-Grows sha clock fetch msg r v =
    let g = absorb_all-Grows msg.lamports r.journal v in
    branches (λ (x : Replica). Grows r.journal x.journal) (text_eq msg.from r.id) r _ (Grows-refl v)
      (Grows-trans g (
        apply_difference-Grows sha clock fetch msg
          (record r { journal = absorb_all msg.lamports r.journal }) g.valid))

-- The same holds after any list of pushed operations.
pub on_ops-Grows :
    (sha : Text → Text) (clock : ℕ → Moment) (from : Text) (os : List WireOp) (r : Replica)
    → IsValid r.journal
    → Grows r.journal (on_ops sha clock from os r).journal
unfolding on_ops
on_ops-Grows sha clock from os r v =
    branches (λ (x : Replica). Grows r.journal x.journal) (text_eq from r.id) r _ (Grows-refl v)
      (ops_loop-Grows sha clock 0 from os r v)
