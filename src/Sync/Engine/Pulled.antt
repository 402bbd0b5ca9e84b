-- ===== src/Sync/Engine/Pulled.antt =====
-- What the pull loop makes of a path that it pulls.
use grandpa_bob.Base.{
  ℕ, suc, ◌≡◌, ◌∙◌, ap, Bool, true, false, Option, none, some, List, [], ◌∷◌, arith, Bool-cases,
  inl, inr, ltb,
}
use grandpa_bob.Base.Text.{Text, text_eq, text_eq_iff, text_eq_refl, includes}
use grandpa_bob.Base.JsMap
use grandpa_bob.Base.JsMap.{JsMap, get-set}
use grandpa_bob.Sync.Journal.{
  write, last_op_for, lamport_for, record_remote_op, absorb_remote, Journal, stamped, repeats_at,
  push,
}
use grandpa_bob.Sync.Journal.Stamps.{last_op_in-append}
use grandpa_bob.Sync.Journal.Frame.{absorb_remote-SameFor}
use grandpa_bob.Sync.Hashmap.{File, HashEntry, excluded}
use grandpa_bob.Sync.Engine.{
  Moment, Replica, Fetched, has_name, keep_copy, apply_remote_write, pull_file, pull_loop,
  is_tombstone, mismatch,
}
use grandpa_bob.Sync.Engine.Copies.{IsIso}
use grandpa_bob.Sync.Engine.Frame.{keep_copy-SameAt, copy_is_other, pull_file-SameAt}

-- What a replica holds at a path.
abbrev pub base64_of : Option File → Option Text
base64_of none = none
base64_of (some f) = some f.base64

abbrev pub content : Text → Replica → Option Text
content p r = base64_of (JsMap.get p r.files)

abbrev pub deleted : Text → Replica → Bool
deleted p r = is_tombstone (last_op_for p r.journal)

-- The bytes are there, and the path is not deleted.
pub record HasArrived (p base64 : Text) (r : Replica) : Type 0 where
  pub bytes : content p r ≡ some base64
  pub live : deleted p r ≡ false

-- An applied remote write is no tombstone, whatever was recorded before, unless the path was
-- deleted here under a later stamp.
is_tombstone-record_remote_op :
    (p : Text) (hash : Option Text) (n : ℕ) (at : Text) (j : Journal)
    → is_tombstone (last_op_for p j) ≡ false
    → is_tombstone (last_op_for p (record_remote_op p write hash n at j)) ≡ false
unfolding record_remote_op push last_op_for is_tombstone
is_tombstone-record_remote_op p hash n at j h =
    let a = absorb_remote-SameFor p n j in
    let kept : is_tombstone (last_op_for p (absorb_remote n j)) ≡ false =
      ap is_tombstone a.last ∙ h in
    elim (Bool-cases (ltb n (lamport_for p j))) [
      | inl e ↦ rw e kept
      | inr e ↦ elim (Bool-cases (repeats_at write hash n (last_op_for p j))) [
        | inl d ↦ rw (e, d) kept
        | inr d ↦ rw (e, d) (pushed (absorb_remote n j))
      ]
    ]
  where
    pushed :
        (j' : Journal) → is_tombstone (last_op_for p (push (stamped p write hash n at) j')) ≡ false
    pushed j' =
        ground (arith, last_op_in-append p j'.ops (stamped p write hash n at), text_eq_refl p)

module _ (sha : Text → Text) (p : Text) (listed : excluded p ≡ false)
    (named : has_name p ≡ true) where
  apply_remote_write-content :
      (now : Moment) (base64 : Text) (n : ℕ) (r : Replica)
      → IsIso now.iso
      → deleted p r ≡ false
      → (content p (apply_remote_write sha now p base64 n r) ≡ some base64)
        × (deleted p (apply_remote_write sha now p base64 n r) ≡ false)
  unfolding apply_remote_write
  apply_remote_write-content now base64 n r iso live =
      let r' = keep_copy sha now p base64 (JsMap.get p r.files) r in
      let s =
        keep_copy-SameAt sha p listed now p base64 (JsMap.get p r.files) r
          (copy_is_other p p now.iso listed iso named) in
      (
        rw get-set (rw (text_eq_refl p)),
        is_tombstone-record_remote_op p (some (sha base64)) n now.iso r'.journal
            (ap is_tombstone s.known.last ∙ live),
      )

  module _ (base64 : Text) (n : ℕ) (full : text_eq base64 [] ≡ false) where
    pull_file_self :
        (now : Moment) (e : Option HashEntry) (r : Replica)
        → IsIso now.iso
        → mismatch sha e base64 ≡ false
        → deleted p r ≡ false
        → HasArrived p base64
            (pull_file sha now p e (some (record { base64 = base64; lamport = n })) r)
    unfolding pull_file
    pull_file_self now e r iso fits live =
        let (bytes, live') = apply_remote_write-content now base64 n r iso live in
        rw (full, fits) (record { bytes = bytes; live = live' })

    pull_loop_keeps :
        (clock : ℕ → Moment) (their_map : JsMap HashEntry) (fetch : Text → Option Fetched) (i : ℕ)
        (qs : List Text) (r : Replica)
        → ((k : ℕ) → IsIso (clock k).iso)
        → fetch p ≡ some (record { base64 = base64; lamport = n })
        → mismatch sha (JsMap.get p their_map) base64 ≡ false
        → HasArrived p base64 r
        → HasArrived p base64 (pull_loop sha clock their_map fetch i qs r)
    unfolding pull_loop
    pull_loop_keeps clock their_map fetch i [] r iso ans fits h = h
    pull_loop_keeps clock their_map fetch i (q ∷ qs) r iso ans fits h =
        pull_loop_keeps clock their_map fetch (suc i) qs
          (pull_file sha (clock i) q (JsMap.get q their_map) (fetch q) r) iso ans fits
          (elim (Bool-cases (text_eq q p)) [
            | inl e ↦
                rw ((text_eq_iff q p).0 e, ans)
                  (pull_file_self (clock i) (JsMap.get p their_map) r (iso i) fits h.live)
            | inr ne ↦
                let s =
                  pull_file-SameAt sha p listed (clock i) q (JsMap.get q their_map) (fetch q) r
                    (iso i) ne in
                record {
                  bytes = ap base64_of s.file ∙ h.bytes;
                  live = ap is_tombstone s.known.last ∙ h.live;
                }
          ])

    -- A path in the list of pulls has the peer's bytes after the loop.
    pub pull_loop-HasArrived :
        (clock : ℕ → Moment) (their_map : JsMap HashEntry) (fetch : Text → Option Fetched) (i : ℕ)
        (qs : List Text) (r : Replica)
        → ((k : ℕ) → IsIso (clock k).iso)
        → fetch p ≡ some (record { base64 = base64; lamport = n })
        → mismatch sha (JsMap.get p their_map) base64 ≡ false
        → deleted p r ≡ false
        → includes qs p ≡ true
        → HasArrived p base64 (pull_loop sha clock their_map fetch i qs r)
    unfolding pull_loop
    pull_loop-HasArrived clock their_map fetch i [] r iso ans fits live h = cc
    pull_loop-HasArrived clock their_map fetch i (q ∷ qs) r iso ans fits live h =
        elim (Bool-cases (text_eq q p)) [
          | inl e ↦
              pull_loop_keeps clock their_map fetch (suc i) qs
                (pull_file sha (clock i) q (JsMap.get q their_map) (fetch q) r) iso ans fits
                (rw ((text_eq_iff q p).0 e, ans)
                  (pull_file_self (clock i) (JsMap.get p their_map) r (iso i) fits live))
          | inr ne ↦
              let s =
                pull_file-SameAt sha p listed (clock i) q (JsMap.get q their_map) (fetch q) r
                  (iso i) ne in
              pull_loop-HasArrived clock their_map fetch (suc i) qs
                (pull_file sha (clock i) q (JsMap.get q their_map) (fetch q) r) iso ans fits
                (ap is_tombstone s.known.last ∙ live) (ground arith)
        ]
