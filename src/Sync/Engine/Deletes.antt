-- ===== src/Sync/Engine/Deletes.antt =====
-- Deletes on the wire: what a tombstone, an empty answer and an own tombstone do to a path.
use grandpa_bob.Base.{
  ℕ, suc, ltb, ◌≤◌, ◌⊎◌, ◌≡◌, refl, ◌∙◌, ap, true, false, Option, none, some, List, [], ◌∷◌, arith,
  Bool-cases, inl, inr,
}
use grandpa_bob.Base.Text.{Text, text_eq, text_eq_iff, text_eq_refl, includes, includes-append}
use grandpa_bob.Base.JsMap
use grandpa_bob.Base.JsMap.{JsMap, get-delete}
use grandpa_bob.Sync.Journal.{OpKind, write, delete, SyncOp, Journal, last_op_for, lamport_for}
use grandpa_bob.Sync.Journal.Tombstones.{tombstone, get-deletions}
use grandpa_bob.Sync.Hashmap.{File, HashEntry, excluded, hidden, excluded_of_listed}
use grandpa_bob.Sync.Engine.{
  Moment, Replica, MapMessage, Fetched, my_map, on_hashmap, answer_file, apply_remote_delete,
  pull_file, pull_loop, pulled_deletes, pull_list, newer_write, pulls, decide,
}
use grandpa_bob.Sync.Engine.Copies.{IsIso}
use grandpa_bob.Sync.Engine.Frame.{pull_file-SameAt}
use grandpa_bob.Sync.Engine.Pulled.{content, base64_of, deleted}
use grandpa_bob.Sync.Engine.Stage.{
  after-loop, list, ready, ready-SameAt, after_skip, verdict, get-hashmap, includes-list,
}

module _ (sha : Text → Text) (p : Text) (listed : excluded p ≡ false) (n : ℕ) where
  pull_file_gone :
      (now : Moment) (e : Option HashEntry) (r : Replica)
      → content p (pull_file sha now p e (some (record { base64 = []; lamport = n })) r) ≡ none
  unfolding pull_file apply_remote_delete text_eq
  pull_file_gone now e r = rw get-delete (rw (text_eq_refl p))

  pull_loop_stays_gone :
      (clock : ℕ → Moment) (their_map : JsMap HashEntry) (fetch : Text → Option Fetched) (i : ℕ)
      (qs : List Text) (r : Replica)
      → ((k : ℕ) → IsIso (clock k).iso)
      → fetch p ≡ some (record { base64 = []; lamport = n })
      → content p r ≡ none
      → content p (pull_loop sha clock their_map fetch i qs r) ≡ none
  unfolding pull_loop
  pull_loop_stays_gone clock their_map fetch i [] r iso ans h = h
  pull_loop_stays_gone clock their_map fetch i (q ∷ qs) r iso ans h =
      pull_loop_stays_gone clock their_map fetch (suc i) qs
        (pull_file sha (clock i) q (JsMap.get q their_map) (fetch q) r) iso ans
        (elim (Bool-cases (text_eq q p)) [
          | inl e ↦
              rw ((text_eq_iff q p).0 e, ans) (pull_file_gone (clock i) (JsMap.get p their_map) r)
          | inr ne ↦
              ap base64_of
                (pull_file-SameAt sha p listed (clock i) q (JsMap.get q their_map) (fetch q) r
                  (iso i) ne).file
              ∙ h
        ])

  -- A pulled path for which the peer answers the empty content is gone after the loop.
  pub pull_loop_gone :
      (clock : ℕ → Moment) (their_map : JsMap HashEntry) (fetch : Text → Option Fetched) (i : ℕ)
      (qs : List Text) (r : Replica)
      → ((k : ℕ) → IsIso (clock k).iso)
      → fetch p ≡ some (record { base64 = []; lamport = n })
      → includes qs p ≡ true
      → content p (pull_loop sha clock their_map fetch i qs r) ≡ none
  unfolding pull_loop
  pull_loop_gone clock their_map fetch i [] r iso ans h = cc
  pull_loop_gone clock their_map fetch i (q ∷ qs) r iso ans h = elim (Bool-cases (text_eq q p)) [
    | inl e ↦
        pull_loop_stays_gone clock their_map fetch (suc i) qs
          (pull_file sha (clock i) q (JsMap.get q their_map) (fetch q) r) iso ans
          (rw ((text_eq_iff q p).0 e, ans) (pull_file_gone (clock i) (JsMap.get p their_map) r))
    | inr ne ↦
        pull_loop_gone clock their_map fetch (suc i) qs
          (pull_file sha (clock i) q (JsMap.get q their_map) (fetch q) r) iso ans (ground arith)
  ]

-- A listed path is pulled for a tombstone unless the last op here is a newer write.
pulled_delete :
    (p : Text) (n : ℕ) (j : Journal) (m : JsMap HashEntry) (ds : JsMap ℕ)
    → excluded p ≡ false
    → JsMap.has p m ≡ true
    → JsMap.get p ds ≡ some n
    → newer_write (last_op_for p j) n ≡ false
    → includes (pulled_deletes j m ds) p ≡ true
unfolding pulled_deletes JsMap.get
pulled_delete p n j m [] ex here h old = cc
pulled_delete p n j m ((q, k) ∷ ds) ex here h old = elim (Bool-cases (text_eq q p)) [
  | inl e ↦ ground (arith, text_eq_iff q p, text_eq_refl p)
  | inr ne ↦ ground (arith, pulled_delete p n j m ds ex here)
]

in_pull_list :
    (p : Text) (n : ℕ) (r : Replica) (m : JsMap HashEntry) (message : MapMessage)
    → excluded p ≡ false
    → JsMap.has p m ≡ true
    → JsMap.get p message.deletes ≡ some n
    → newer_write (last_op_for p r.journal) n ≡ false
    → includes (pull_list r m message) p ≡ true
unfolding pull_list
in_pull_list p n r m message ex here h old =
    includes-append (pulled_deletes r.journal m message.deletes) _ p
    ∙ rw (pulled_delete p n r.journal m message.deletes ex here h old)

has-hashmap :
    (sha : Text → Text) (p : Text) (listed : hidden p ≡ false) (r : Replica)
    → JsMap.has p r.files ≡ true
    → JsMap.has p (my_map sha r).hashmap ≡ true
has-hashmap sha p listed r h = ground (arith, get-hashmap sha p listed r)

get-my_deletes :
    (sha : Text → Text) (p : Text) (s : Replica)
    → JsMap.get p (my_map sha s).deletes ≡ tombstone (last_op_for p s.journal)
unfolding my_map
get-my_deletes sha p s = get-deletions p s.journal

-- An op that is no write under a stamp above `n`.
unfoldable pub IsNotAbove : ℕ → Option SyncOp → Type 0
IsNotAbove n none = Unit
IsNotAbove n (some o) = (o.op ≡ delete) ⊎ (o.lamport ≤ n)

newer_write-IsNotAbove :
    (n : ℕ) (last : Option SyncOp) → IsNotAbove n last → newer_write last n ≡ false
unfolding IsNotAbove
newer_write-IsNotAbove n none h = refl
newer_write-IsNotAbove n (some o) h = of o.op h
  where
    of :
        (k : OpKind)
        → (k ≡ delete) ⊎ (o.lamport ≤ n)
        → elim k [ write ↦ ltb n o.lamport | delete ↦ false ] ≡ false
    of delete h = refl
    of write (inl e) = cc
    of write (inr l) = ground arith

module _ (sha : Text → Text) (p : Text) (listed : hidden p ≡ false) (clock : ℕ → Moment)
    (iso : (k : ℕ) → IsIso (clock k).iso) (r s : Replica)
    (distinct : text_eq s.id r.id ≡ false) where
  -- A sender without a file at the path, whose last op there is a tombstone under the stamp `n`,
  -- and a receiver that holds a file there and whose last op there, if any, is no write under a stamp
  -- above `n`: the receiver's file is deleted. A tie of the stamps is included, whichever replica has
  -- the smaller id.
  pub tombstone_deletes :
      (n : ℕ)
      → tombstone (last_op_for p s.journal) ≡ some n
      → JsMap.get p s.files ≡ none
      → JsMap.has p r.files ≡ true
      → IsNotAbove n (last_op_for p r.journal)
      → content p (on_hashmap sha clock (answer_file s) (my_map sha s) r) ≡ none
  unfolding answer_file
  tombstone_deletes n dead gone here old =
      let rr = ready sha p listed clock r s distinct in
      rw (after-loop sha p listed clock r s distinct) (
        pull_loop_gone sha p (excluded_of_listed p listed) (lamport_for p s.journal) clock
          (my_map sha s).hashmap (answer_file s) 0 (list sha p listed clock r s distinct) rr iso
          (rw (excluded_of_listed p listed, gone))
          (in_pull_list p n rr (my_map sha rr).hashmap (my_map sha s) (excluded_of_listed p listed)
            (has-hashmap sha p listed rr here) (get-my_deletes sha p s ∙ dead)
            (ap (λ o. newer_write o n) (ready-SameAt sha p listed clock r s distinct).known.last
              ∙ newer_write-IsNotAbove n (last_op_for p r.journal) old)))

  -- A receiver whose own last op at the path is a tombstone, and that holds no file there: it stays
  -- without one, whatever the sender holds there and under whatever stamp.
  pub deleted_stays_deleted :
      deleted p s ≡ false
      → deleted p r ≡ true
      → JsMap.get p r.files ≡ none
      → content p (on_hashmap sha clock (answer_file s) (my_map sha s) r) ≡ none
  deleted_stays_deleted live dead gone =
      ap base64_of (after_skip sha p listed clock r s distinct iso live (unpulled dead gone)).file
      ∙ ap base64_of gone
    where
      unpulled : deleted p r ≡ true → JsMap.get p r.files ≡ none → pulls (verdict sha p r s) ≡ false
      unpulled d g = unfold verdict decide in ground arith

  -- A sender that holds an empty file: a receiver whose verdict pulls the path loses what it held
  -- there, as if the file had been deleted.
  pub empty_file_deletes :
      (f : File)
      → JsMap.get p s.files ≡ some f
      → f.base64 ≡ []
      → deleted p s ≡ false
      → pulls (verdict sha p r s) ≡ true
      → content p (on_hashmap sha clock (answer_file s) (my_map sha s) r) ≡ none
  unfolding answer_file
  empty_file_deletes f held empty live v =
      let rr = ready sha p listed clock r s distinct in
      rw (after-loop sha p listed clock r s distinct) (
        pull_loop_gone sha p (excluded_of_listed p listed) (lamport_for p s.journal) clock
          (my_map sha s).hashmap (answer_file s) 0 (list sha p listed clock r s distinct) rr iso
          (rw (excluded_of_listed p listed, held, empty))
          (includes-list sha p listed clock r s distinct iso live ∙ v))
