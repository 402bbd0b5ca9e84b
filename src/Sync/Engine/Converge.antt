-- ===== src/Sync/Engine/Converge.antt =====
-- A round between two replicas: one sends its map, the other applies the difference and replies with
-- its own map, and the first applies the difference to that.
use mathlib.Core.Option
use grandpa_bob.Base.{
  ℕ, ◌≡◌, refl, sym, ◌∙◌, ap, subst, ◌⊎◌, inl, inr, Bool, true, false, not, Option, none, some, [],
  arith, Bool-cases, Option-cases, if◌then◌else◌,
}
use grandpa_bob.Base.Text.{Text, text_eq, text_eq_iff, text_eq_comm}
use grandpa_bob.Base.JsMap
use grandpa_bob.Sync.Journal.{lamport_for}
use grandpa_bob.Sync.Hashmap.{File, hidden, entry_of}
use grandpa_bob.Sync.Engine.{
  Moment, Replica, has_name, my_map, answer_file, on_hashmap, decide, pulls, is_tombstone,
}
use grandpa_bob.Sync.Engine.Copies.{IsIso}
use grandpa_bob.Sync.Engine.Winner.{conflict_winner_swap}
use grandpa_bob.Sync.Engine.Frame.{SameAt}
use grandpa_bob.Sync.Engine.Pulled.{content, base64_of, deleted}
use grandpa_bob.Sync.Engine.Stage.{verdict, after_skip, after_pull, id-on_hashmap}

module _ (sha : Text → Text) (clock_a clock_b : ℕ → Moment) where
  -- The receiver `b` of the first map, and then its sender `a`.
  unfoldable pub replied : Replica → Replica → Replica
  replied a b = on_hashmap sha clock_b (answer_file a) (my_map sha a) b

  unfoldable pub completed : Replica → Replica → Replica
  unfolding replied
  completed a b = let b' = replied a b in on_hashmap sha clock_a (answer_file b') (my_map sha b') a

-- What the round asks of the file that a replica may hold at a path: it is not empty.
abbrev pub NotEmpty : Option File → Type 0
NotEmpty none = Unit
NotEmpty (some f) = text_eq f.base64 [] ≡ false

-- The bytes that the round settles on.
abbrev pub settled : (Text → Text) → Text → Replica → Replica → Option Text
settled sha p a b =
    if pulls (verdict sha p b a)
    then content p a
    else if pulls (verdict sha p a b)
    then content p b
    else content p a

verdict_absent :
    (sha : Text → Text) (p : Text) (r s : Replica)
    → JsMap.get p s.files ≡ none
    → pulls (verdict sha p r s) ≡ false
unfolding verdict decide
verdict_absent sha p r s h = ground arith

verdict_missing :
    (sha : Text → Text) (p : Text) (r s : Replica) (f : File)
    → JsMap.get p s.files ≡ some f
    → JsMap.get p r.files ≡ none
    → deleted p r ≡ false
    → pulls (verdict sha p r s) ≡ true
unfolding verdict decide
verdict_missing sha p r s f h k live = ground arith

verdict_same :
    (sha : Text → Text) (p : Text) (r s : Replica)
    → content p s ≡ content p r
    → pulls (verdict sha p r s) ≡ false
unfolding verdict
verdict_same sha p r s e =
    same r s.id p (lamport_for p s.journal) (JsMap.get p r.files) (JsMap.get p s.files) e
  where
    same :
        (r : Replica) (i p : Text) (n : ℕ) (m t : Option File)
        → base64_of t ≡ base64_of m
        → pulls (decide r i p (Option.map (entry_of sha) m) (Option.map (entry_of sha) t) n) ≡ false
    same r i p n none none e = unfold decide in refl
    same r i p n (some f) none e = unfold decide in refl
    same r i p n none (some g) e = cc
    same r i p n (some f) (some g) e =
        unfold decide entry_of in ground (arith, text_eq_iff (sha f.base64) (sha g.base64))

-- Two replicas with different bytes at a path: exactly one of them pulls.
pub verdict_swap :
    (sha : Text → Text) (p : Text) (a b : Replica) (f g : File)
    → text_eq a.id b.id ≡ false
    → JsMap.get p a.files ≡ some f
    → JsMap.get p b.files ≡ some g
    → text_eq (sha f.base64) (sha g.base64) ≡ false
    → pulls (verdict sha p b a) ≡ not (pulls (verdict sha p a b))
unfolding verdict decide entry_of
verdict_swap sha p a b f g distinct hm ht e =
    rw (hm, ht, e, text_eq_comm (sha g.base64) (sha f.base64), e)
      (conflict_winner_swap (lamport_for p a.journal) (lamport_for p b.journal) a.id b.id
        (entry_of sha f) (entry_of sha g) distinct)

swapped : {x y : Bool} → x ≡ not y → x ≡ false → y ≡ false → ⊥
swapped h k l = cc

-- The verdict reads of the sender its id, its file and its stamp.
verdict_sender :
    (sha : Text → Text) (p : Text) (r s s' : Replica)
    → s'.id ≡ s.id
    → SameAt p s s'
    → verdict sha p r s' ≡ verdict sha p r s
unfolding verdict
verdict_sender sha p r s s' i same = rw (i, same.file, same.known.stamp)

-- Where no side pulls and no different bytes share a hash, both hold the same.
neither :
    (sha : Text → Text) (p : Text) (a b : Replica)
    → text_eq a.id b.id ≡ false
    → deleted p a ≡ false
    → deleted p b ≡ false
    → ((f g : File)
        → JsMap.get p a.files ≡ some f
        → JsMap.get p b.files ≡ some g
        → text_eq (sha f.base64) (sha g.base64) ≡ true
        → f.base64 ≡ g.base64)
    → pulls (verdict sha p b a) ≡ false
    → pulls (verdict sha p a b) ≡ false
    → content p a ≡ content p b
neither sha p a b distinct la lb inj va vb =
    cases (JsMap.get p a.files) (JsMap.get p b.files) refl refl
  where
    cases :
        (m t : Option File)
        → JsMap.get p a.files ≡ m
        → JsMap.get p b.files ≡ t
        → base64_of m ≡ base64_of t
    cases none none hm ht = refl
    cases (some f) none hm ht = cc (verdict_missing sha p b a f hm ht lb, va)
    cases none (some g) hm ht = cc (verdict_missing sha p a b g ht hm la, vb)
    cases (some f) (some g) hm ht = elim (Bool-cases (text_eq (sha f.base64) (sha g.base64))) [
      | inl e ↦ ap some (inj f g hm ht e)
      | inr e ↦ absurd (swapped (verdict_swap sha p a b f g distinct hm ht e) va vb)
    ]

module _ (sha : Text → Text) (clock_a clock_b : ℕ → Moment) where
  -- For two replicas with different ids and a path that neither excludes and neither has deleted,
  -- where the bytes of both are not empty and different bytes have different hashes: after the
  -- round both hold the same at that path, and that is what the verdicts settle on.
  pub completed_converges :
      (p : Text) (a b : Replica)
      → ((k : ℕ) → IsIso (clock_a k).iso)
      → ((k : ℕ) → IsIso (clock_b k).iso)
      → hidden p ≡ false
      → has_name p ≡ true
      → text_eq a.id b.id ≡ false
      → deleted p a ≡ false
      → deleted p b ≡ false
      → NotEmpty (JsMap.get p a.files)
      → NotEmpty (JsMap.get p b.files)
      → ((f g : File)
          → JsMap.get p a.files ≡ some f
          → JsMap.get p b.files ≡ some g
          → text_eq (sha f.base64) (sha g.base64) ≡ true
          → f.base64 ≡ g.base64)
      → (content p (completed sha clock_a clock_b a b) ≡ settled sha p a b)
        × (content p (replied sha clock_a clock_b a b) ≡ settled sha p a b)
  unfolding completed
  completed_converges p a b iso_a iso_b listed named distinct la lb na nb inj =
      elim (Bool-cases (pulls (verdict sha p b a))) [
        | inl v ↦ rw v (first_pulls v (Option-cases (JsMap.get p a.files)))
        | inr v ↦ elim (Bool-cases (pulls (verdict sha p a b))) [
          | inl w ↦ rw (v, w) (second_pulls v w (Option-cases (JsMap.get p b.files)))
          | inr w ↦ rw (v, w) (none_pulls v w)
        ]
      ]
    where
      b' : Replica
      b' = replied sha clock_a clock_b a b

      same_id : b'.id ≡ b.id
      same_id = id-on_hashmap sha clock_b (answer_file a) (my_map sha a) b

      distinct' : text_eq b'.id a.id ≡ false
      distinct' = text_eq_comm b'.id a.id ∙ ap (text_eq a.id) same_id ∙ distinct

      first_pulls :
          pulls (verdict sha p b a) ≡ true
          → (JsMap.get p a.files ≡ none) ⊎ ((f : File) × (JsMap.get p a.files ≡ some f))
          → (content p (completed sha clock_a clock_b a b) ≡ content p a)
            × (content p b' ≡ content p a)
      first_pulls v (inl h) = cc (verdict_absent sha p b a h, v)
      first_pulls v (inr (f, h)) =
          let got =
            after_pull sha p listed clock_b b a distinct iso_b la f h (subst NotEmpty h na) named lb
              v in
          let bytes = got.bytes ∙ sym (ap base64_of h) in
          let kept =
            after_skip sha p listed clock_a a b' distinct' iso_a got.live
              (verdict_same sha p a b' bytes) in
          (ap base64_of kept.file, bytes)

      second : pulls (verdict sha p b a) ≡ false → SameAt p b b'
      second v = after_skip sha p listed clock_b b a distinct iso_b la v

      live' : pulls (verdict sha p b a) ≡ false → deleted p b' ≡ false
      live' v = ap is_tombstone (second v).known.last ∙ lb

      second_pulls :
          pulls (verdict sha p b a) ≡ false
          → pulls (verdict sha p a b) ≡ true
          → (JsMap.get p b.files ≡ none) ⊎ ((f : File) × (JsMap.get p b.files ≡ some f))
          → (content p (completed sha clock_a clock_b a b) ≡ content p b)
            × (content p b' ≡ content p b)
      second_pulls v w (inl h) = cc (verdict_absent sha p a b h, w)
      second_pulls v w (inr (g, h)) =
          let got =
            after_pull sha p listed clock_a a b' distinct' iso_a (live' v) g ((second v).file ∙ h)
              (subst NotEmpty h nb) named la
              (ap pulls (verdict_sender sha p a b b' same_id (second v)) ∙ w) in
          (got.bytes ∙ sym (ap base64_of h), ap base64_of (second v).file)

      none_pulls :
          pulls (verdict sha p b a) ≡ false
          → pulls (verdict sha p a b) ≡ false
          → (content p (completed sha clock_a clock_b a b) ≡ content p a)
            × (content p b' ≡ content p a)
      none_pulls v w =
          let kept =
            after_skip sha p listed clock_a a b' distinct' iso_a (live' v)
              (ap pulls (verdict_sender sha p a b b' same_id (second v)) ∙ w) in
          (
            ap base64_of kept.file,
            ap base64_of (second v).file ∙ sym (neither sha p a b distinct la lb inj v w),
          )
