-- ===== src/Sync/Engine/Frame.antt =====
-- What pulling files leaves alone: every listed path that is not pulled.
use grandpa_bob.Base.{
  ℕ, suc, ◌≡◌, refl, ◌∙◌, true, false, Option, none, some, List, [], ◌∷◌, arith, Bool-cases, inl,
  inr,
}
use grandpa_bob.Base.Text.{Text, text_eq, text_eq_iff, includes}
use grandpa_bob.Base.JsMap
use grandpa_bob.Base.JsMap.{JsMap, get-set, get-delete}
use grandpa_bob.Sync.Journal.{write, delete}
use grandpa_bob.Sync.Journal.Frame.{
  SameFor, SameFor-refl, record_op-SameFor, record_remote_op-SameFor,
}
use grandpa_bob.Sync.Hashmap.{File, HashEntry, excluded}
use grandpa_bob.Sync.Engine.{
  Moment, Replica, Fetched, has_name, conflict_copy_of, keep_copy, apply_remote_write,
  apply_remote_delete, pull_file, pull_loop, mismatch,
}
use grandpa_bob.Sync.Engine.Copies.{IsIso, excluded-conflict_copy_of}

-- Two states of a replica that agree at one path.
pub record SameAt (p : Text) (r r' : Replica) : Type 0 where
  pub file : JsMap.get p r'.files ≡ JsMap.get p r.files
  pub known : SameFor p r.journal r'.journal

pub SameAt-refl : (p : Text) (r : Replica) → SameAt p r r
SameAt-refl p r = record { file = refl; known = SameFor-refl p r.journal }

pub SameAt-trans : {p : Text} {r s t : Replica} → SameAt p r s → SameAt p s t → SameAt p r t
SameAt-trans a b = record {
  file = b.file ∙ a.file;
  known = record { stamp = b.known.stamp ∙ a.known.stamp; last = b.known.last ∙ a.known.last };
}

-- The name of a copy is not that of a path that may sync.
pub copy_is_other :
    (p q at : Text)
    → excluded p ≡ false
    → IsIso at
    → has_name q ≡ true
    → text_eq (conflict_copy_of q at) p ≡ false
copy_is_other p q at listed iso named =
    ground (arith, excluded-conflict_copy_of q at named iso, text_eq_iff (conflict_copy_of q at) p)

copy_is_other_of_ne :
    (p q at : Text)
    → excluded p ≡ false
    → IsIso at
    → text_eq q p ≡ false
    → text_eq (conflict_copy_of q at) p ≡ false
copy_is_other_of_ne p q at listed iso ne = elim (Bool-cases (has_name q)) [
  | inl named ↦ copy_is_other p q at listed iso named
  | inr not_named ↦ unfold conflict_copy_of in rw not_named ne
]

module _ (sha : Text → Text) (p : Text) (listed : excluded p ≡ false) where
  pub keep_copy-SameAt :
      (now : Moment) (q base64 : Text) (f : Option File) (r : Replica)
      → text_eq (conflict_copy_of q now.iso) p ≡ false
      → SameAt p r (keep_copy sha now q base64 f r)
  unfolding keep_copy
  keep_copy-SameAt now q base64 none r ne = SameAt-refl p r
  keep_copy-SameAt now q base64 (some f) r ne =
      let copy = conflict_copy_of q now.iso in
      elim (Bool-cases (text_eq f.base64 base64)) [
        | inl e ↦ rw e (SameAt-refl p r)
        | inr e ↦ rw e (record {
          file = rw get-set (rw ne);
          known = record_op-SameFor p copy write (some (sha f.base64)) now.iso r.journal ne;
        })
      ]

  apply_remote_write-SameAt :
      (now : Moment) (q base64 : Text) (n : ℕ) (r : Replica)
      → IsIso now.iso
      → text_eq q p ≡ false
      → SameAt p r (apply_remote_write sha now q base64 n r)
  unfolding apply_remote_write
  apply_remote_write-SameAt now q base64 n r iso ne =
      let r' = keep_copy sha now q base64 (JsMap.get q r.files) r in
      SameAt-trans {p = p} {r = r} {s = r'}
        (keep_copy-SameAt now q base64 (JsMap.get q r.files) r
          (copy_is_other_of_ne p q now.iso listed iso ne))
        (record {
          file = rw get-set (rw ne);
          known = record_remote_op-SameFor p q write (some (sha base64)) n now.iso r'.journal ne;
        })

  apply_remote_delete-SameAt :
      (now : Moment) (q : Text) (n : ℕ) (r : Replica)
      → text_eq q p ≡ false
      → SameAt p r (apply_remote_delete sha now q n r)
  unfolding apply_remote_delete
  apply_remote_delete-SameAt now q n r ne = record {
    file = rw get-delete (rw ne);
    known = record_remote_op-SameFor p q delete none n now.iso r.journal ne;
  }

  pub pull_file-SameAt :
      (now : Moment) (q : Text) (e : Option HashEntry) (f : Option Fetched) (r : Replica)
      → IsIso now.iso
      → text_eq q p ≡ false
      → SameAt p r (pull_file sha now q e f r)
  unfolding pull_file
  pull_file-SameAt now q e none r iso ne = SameAt-refl p r
  pull_file-SameAt now q e (some got) r iso ne = elim (Bool-cases (text_eq got.base64 [])) [
    | inl empty ↦ rw empty (apply_remote_delete-SameAt now q got.lamport r ne)
    | inr full ↦ elim (Bool-cases (mismatch sha e got.base64)) [
      | inl stale ↦ rw (full, stale) (SameAt-refl p r)
      | inr fresh ↦
          rw (full, fresh) (apply_remote_write-SameAt now q got.base64 got.lamport r iso ne)
    ]
  ]

  -- A path that may sync and that is not in the list of pulls keeps its file, its stamp and its
  -- last op through the whole pull loop, whatever the peer answers.
  pub pull_loop-SameAt :
      (clock : ℕ → Moment) (their_map : JsMap HashEntry) (fetch : Text → Option Fetched) (i : ℕ)
      (qs : List Text) (r : Replica)
      → ((n : ℕ) → IsIso (clock n).iso)
      → includes qs p ≡ false
      → SameAt p r (pull_loop sha clock their_map fetch i qs r)
  unfolding pull_loop
  pull_loop-SameAt clock their_map fetch i [] r iso out = SameAt-refl p r
  pull_loop-SameAt clock their_map fetch i (q ∷ qs) r iso out =
      let r' = pull_file sha (clock i) q (JsMap.get q their_map) (fetch q) r in
      SameAt-trans {p = p} {r = r} {s = r'}
        (pull_file-SameAt (clock i) q (JsMap.get q their_map) (fetch q) r (iso i) (ground arith))
        (pull_loop-SameAt clock their_map fetch (suc i) qs r' iso (ground arith))
