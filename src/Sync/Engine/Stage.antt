-- ===== src/Sync/Engine/Stage.antt =====
-- One replica receives the map of another: what it pulls, and what it holds afterwards.
use mathlib.Core.Option
use grandpa_bob.Base.{
  ℕ, suc, ◌≡◌, refl, ◌∙◌, ap, true, false, not, Option, none, some, List, [], ◌∷◌, arith,
  Bool-cases, Option-cases, inl, inr, if◌then◌else◌, get_or, filter,
}
use grandpa_bob.Base.Text.{
  Text, text_eq, text_eq_iff, text_eq_refl, includes, includes-append, includes-filter,
}
use grandpa_bob.Base.JsMap
use grandpa_bob.Base.JsMap.{JsMap, get-set, keys}
use grandpa_bob.Sync.Journal.{last_op_for, lamport_for, absorb_remote, Journal}
use grandpa_bob.Sync.Journal.Frame.{SameFor, SameFor-refl, absorb_remote-SameFor}
use grandpa_bob.Sync.Journal.Tombstones.{tombstone, get-deletions}
use grandpa_bob.Sync.Hashmap.{
  File, HashEntry, hidden, entry_of, build_hashmap, get-build_hashmap, excluded_of_listed,
}
use grandpa_bob.Sync.Engine.{
  Moment, Replica, Fetched, has_name, MapMessage, my_map, lamports_of, answer_file, absorb_all,
  pull_list, pulled_deletes, union_keys, decide, decide_path, Decision, pulls, is_tombstone,
  mismatch, apply_difference, on_hashmap, pull_loop, keep_copy, pull_file, apply_remote_write,
  apply_remote_delete,
}
use grandpa_bob.Sync.Engine.Copies.{IsIso}
use grandpa_bob.Sync.Engine.Frame.{SameAt, SameAt-trans, pull_loop-SameAt}
use grandpa_bob.Sync.Engine.Pulled.{deleted, HasArrived, pull_loop-HasArrived}

includes-keys {ℓ} : {V : Type ℓ} (p : Text) (m : JsMap V) → includes (keys m) p ≡ JsMap.has p m
unfolding JsMap.get
includes-keys p [] = refl
includes-keys p ((q, v) ∷ m) = ground (arith, includes-keys p m)

get-lamports_of :
    (p : Text) (j : Journal) (ks : List Text)
    → JsMap.get p (lamports_of j ks) ≡ (if includes ks p then some (lamport_for p j) else none)
unfolding lamports_of JsMap.get
get-lamports_of p j [] = refl
get-lamports_of p j (k ∷ ks) = ground (
  arith,
  get-lamports_of p j ks,
  get-set k p (lamport_for k j) (lamports_of j ks),
  text_eq_iff k p,
)

absorb_all-SameFor : (p : Text) (m : JsMap ℕ) (j : Journal) → SameFor p j (absorb_all m j)
unfolding absorb_all
absorb_all-SameFor p [] j = SameFor-refl p j
absorb_all-SameFor p ((q, n) ∷ m) j =
    let a = absorb_remote-SameFor p n j in
    let b = absorb_all-SameFor p m (absorb_remote n j) in
    record { stamp = b.stamp ∙ a.stamp; last = b.last ∙ a.last }

-- A path with no advertised tombstone is not pulled for one.
not_pulled_delete :
    (p : Text) (j : Journal) (m : JsMap HashEntry) (ds : JsMap ℕ)
    → JsMap.get p ds ≡ none
    → includes (pulled_deletes j m ds) p ≡ false
unfolding pulled_deletes JsMap.get
not_pulled_delete p j m [] h = refl
not_pulled_delete p j m ((q, n) ∷ ds) h = ground (arith, not_pulled_delete p j m ds)

tombstone-none :
    (p : Text) (j : Journal)
    → is_tombstone (last_op_for p j) ≡ false
    → tombstone (last_op_for p j) ≡ none
unfolding is_tombstone
tombstone-none p j h = ground arith

-- The list of pulls holds a path without an advertised tombstone exactly if the decision pulls it.
includes-pull_list :
    (p : Text) (r : Replica) (m : JsMap HashEntry) (msg : MapMessage)
    → JsMap.get p msg.deletes ≡ none
    → includes (pull_list r m msg) p ≡ pulls (decide_path r m msg p)
unfolding pull_list union_keys decide_path decide
includes-pull_list p r m msg h = ground (
  arith,
  includes-append (pulled_deletes r.journal m msg.deletes)
      (filter (λ q. pulls (decide_path r m msg q)) (union_keys m msg.hashmap)) p,
  not_pulled_delete p r.journal m msg.deletes h,
  includes-filter (λ q. pulls (decide_path r m msg q)) (union_keys m msg.hashmap) p,
  includes-append (keys m) (filter (λ k. not (JsMap.has k m)) (keys msg.hashmap)) p,
  includes-filter (λ k. not (JsMap.has k m)) (keys msg.hashmap) p,
  includes-keys p m,
  includes-keys p msg.hashmap,
)

decide_same :
    (p their_id : Text) (r r' : Replica) (m t : Option HashEntry) (n : ℕ)
    → r'.id ≡ r.id
    → SameFor p r.journal r'.journal
    → decide r' their_id p m t n ≡ decide r their_id p m t n
unfolding decide
decide_same p their_id r r' none none n i s = refl
decide_same p their_id r r' none (some t) n i s = rw s.last
decide_same p their_id r r' (some m) none n i s = refl
decide_same p their_id r r' (some m) (some t) n i s = rw (s.stamp, i)

decide_absent :
    (r : Replica) (their_id p : Text) (m : Option HashEntry) (n n' : ℕ)
    → decide r their_id p m none n ≡ decide r their_id p m none n'
unfolding decide
decide_absent r their_id p none n n' = refl
decide_absent r their_id p (some m) n n' = refl

-- What a receiver `r` decides for a path from the map of `s`.
unfoldable pub verdict : (Text → Text) → Text → Replica → Replica → Decision
verdict sha p r s =
    decide r s.id p (Option.map (entry_of sha) (JsMap.get p r.files))
      (Option.map (entry_of sha) (JsMap.get p s.files)) (lamport_for p s.journal)

fits_itself : (sha : Text → Text) (f : File) → mismatch sha (some (entry_of sha f)) f.base64 ≡ false
unfolding entry_of
fits_itself sha f = ground (arith, text_eq_refl (sha f.base64))

module _ (sha : Text → Text) (p : Text) (listed : hidden p ≡ false) where
  pub get-hashmap :
      (r : Replica)
      → JsMap.get p (my_map sha r).hashmap ≡ Option.map (entry_of sha) (JsMap.get p r.files)
  unfolding my_map
  get-hashmap r = get-build_hashmap sha p r.files ∙ rw listed

  -- The stamp that a map advertises for a path that it lists.
  get-lamports :
      (s : Replica) (f : File)
      → JsMap.get p s.files ≡ some f
      → get_or (JsMap.get p (my_map sha s).lamports) 0 ≡ lamport_for p s.journal
  unfolding my_map
  get-lamports s f h = ground (
    arith,
    get-lamports_of p s.journal (keys (build_hashmap sha s.files)),
    includes-keys p (build_hashmap sha s.files),
    get-build_hashmap sha p s.files,
  )

  get-deletes : (s : Replica) → deleted p s ≡ false → JsMap.get p (my_map sha s).deletes ≡ none
  unfolding my_map
  get-deletes s live = get-deletions p s.journal ∙ tombstone-none p s.journal live

  stamp_irrelevant :
      (r s : Replica) (m : Option HashEntry)
      → decide r s.id p m
          (Option.map (entry_of sha) (JsMap.get p s.files))
          (get_or (JsMap.get p (my_map sha s).lamports) 0)
        ≡ decide r s.id p m
            (Option.map (entry_of sha) (JsMap.get p s.files))
            (lamport_for p s.journal)
  stamp_irrelevant r s m = elim (Option-cases (JsMap.get p s.files)) [
    | inl h ↦ rw h (decide_absent r s.id p m _ _)
    | inr (f, h) ↦ rw (get-lamports s f h)
  ]

  decide_path-verdict :
      (r s : Replica) (j : Journal)
      → SameFor p r.journal j
      → let r' : Replica = record r { journal = j } in
        decide_path r' (my_map sha r').hashmap (my_map sha s) p ≡ verdict sha p r s
  unfolding decide_path verdict
  decide_path-verdict r s j same =
      let r' : Replica = record r { journal = j } in
      rw (excluded_of_listed p listed, get-hashmap r', get-hashmap s)
        (unfold my_map in decide_same p s.id r r' _ _ _ refl same ∙ stamp_irrelevant r s _)

  module _ (clock : ℕ → Moment) (r s : Replica) (distinct : text_eq s.id r.id ≡ false) where
    abbrev pub after : Replica
    after = on_hashmap sha clock (answer_file s) (my_map sha s) r

    abbrev pub msg : MapMessage
    msg = my_map sha s

    abbrev pub ready : Replica
    ready = record r { journal = absorb_all msg.lamports r.journal }

    abbrev pub list : List Text
    list = pull_list ready (my_map sha ready).hashmap msg

    pub ready-SameAt : SameAt p r ready
    ready-SameAt = record { file = refl; known = absorb_all-SameFor p msg.lamports r.journal }

    pub after-loop : after ≡ pull_loop sha clock msg.hashmap (answer_file s) 0 list ready
    unfolding on_hashmap apply_difference my_map
    after-loop = rw distinct

    module _ (iso : (k : ℕ) → IsIso (clock k).iso) (s_live : deleted p s ≡ false) where
      pub includes-list : includes list p ≡ pulls (verdict sha p r s)
      includes-list =
          includes-pull_list p ready (my_map sha ready).hashmap msg (get-deletes s s_live)
          ∙ ap pulls (
              decide_path-verdict r s (absorb_all msg.lamports r.journal)
                (absorb_all-SameFor p msg.lamports r.journal))

      -- A path that the verdict does not pull stays as it is.
      pub after_skip : pulls (verdict sha p r s) ≡ false → SameAt p r after
      after_skip v = rw after-loop (
          SameAt-trans {p = p} {r = r} {s = ready} ready-SameAt (
            pull_loop-SameAt sha p (excluded_of_listed p listed) clock msg.hashmap (answer_file s) 0
              list ready iso (includes-list ∙ v)))

      -- A path that the verdict pulls has the sender's bytes afterwards.
      pub after_pull :
          (f : File)
          → JsMap.get p s.files ≡ some f
          → text_eq f.base64 [] ≡ false
          → has_name p ≡ true
          → deleted p r ≡ false
          → pulls (verdict sha p r s) ≡ true
          → HasArrived p f.base64 after
      unfolding answer_file
      after_pull f held full named live v = rw after-loop (
          pull_loop-HasArrived sha p (excluded_of_listed p listed) named f.base64
            (lamport_for p s.journal) full clock msg.hashmap (answer_file s) 0 list ready iso
            (rw (excluded_of_listed p listed, held)) (rw (get-hashmap s, held) (fits_itself sha f))
            (ap is_tombstone ready-SameAt.known.last ∙ live) (includes-list ∙ v))

module _ (sha : Text → Text) where
  id-keep_copy :
      (now : Moment) (q base64 : Text) (f : Option File) (r : Replica)
      → (keep_copy sha now q base64 f r).id ≡ r.id
  unfolding keep_copy
  id-keep_copy now q base64 none r = refl
  id-keep_copy now q base64 (some f) r = ground arith

  id-pull_file :
      (now : Moment) (q : Text) (e : Option HashEntry) (f : Option Fetched) (r : Replica)
      → (pull_file sha now q e f r).id ≡ r.id
  unfolding pull_file apply_remote_write apply_remote_delete
  id-pull_file now q e none r = refl
  id-pull_file now q e (some got) r =
      ground (arith, id-keep_copy now q got.base64 (JsMap.get q r.files) r)

  id-pull_loop :
      (clock : ℕ → Moment) (m : JsMap HashEntry) (fetch : Text → Option Fetched) (i : ℕ)
      (qs : List Text) (r : Replica)
      → (pull_loop sha clock m fetch i qs r).id ≡ r.id
  unfolding pull_loop
  id-pull_loop clock m fetch i [] r = refl
  id-pull_loop clock m fetch i (q ∷ qs) r =
      id-pull_loop clock m fetch (suc i) qs (pull_file sha (clock i) q (JsMap.get q m) (fetch q) r)
      ∙ id-pull_file (clock i) q (JsMap.get q m) (fetch q) r

  id-apply_difference :
      (clock : ℕ → Moment) (fetch : Text → Option Fetched) (msg : MapMessage) (r : Replica)
      → (apply_difference sha clock fetch msg r).id ≡ r.id
  unfolding apply_difference
  id-apply_difference clock fetch msg r =
      id-pull_loop clock msg.hashmap fetch 0 (pull_list r (my_map sha r).hashmap msg) r

  pub id-on_hashmap :
      (clock : ℕ → Moment) (fetch : Text → Option Fetched) (msg : MapMessage) (r : Replica)
      → (on_hashmap sha clock fetch msg r).id ≡ r.id
  unfolding on_hashmap
  id-on_hashmap clock fetch msg r = elim (Bool-cases (text_eq msg.from r.id)) [
    | inl e ↦ rw e
    | inr e ↦ rw e (
        id-apply_difference clock fetch msg
          (record r { journal = absorb_all msg.lamports r.journal }))
  ]
