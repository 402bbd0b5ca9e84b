-- ===== src/Bridge/Mailbox/Guesses.antt =====
-- Guessing a pairing code.
use grandpa_bob.Base.{
  ℕ, ◌+◌, ◌≤◌, ◌<◌, ◌≡◌, refl, ap, false, none, some, List, [], ◌∷◌, arith, leb, length, All,
  Bool-cases, inl, inr,
}
use grandpa_bob.Base.Text.{Text, text_eq, text_eq_refl}
use grandpa_bob.Base.JsMap
use grandpa_bob.Base.JsMap.{JsMap, get-set, get-delete}
use grandpa_bob.Bridge.Mailbox.{
  Channel, Mailbox, refused, unknown_channel, normalized, pending_code, miss, max_failed_joins,
  join, join_channel, join_code,
}

-- Attempts on one channel: a time, a code and a profile each.
abbrev Attempt : Type 0
Attempt = ℕ × Text × Text

unfoldable pub join_all : (Text → Text) → Text → List Attempt → Mailbox → Mailbox
join_all hash id [] m = m
join_all hash id ((now, code, profile) ∷ tries) m =
    join_all hash id tries (join hash now id code profile m).1

abbrev pub IsWrong : (Text → Text) → Text → ℕ → Attempt → Type 0
IsWrong hash h expires a = (a.0 ≤ expires) × (text_eq (hash (normalized a.1)) h ≡ false)

join_missing :
    (hash : Text → Text) (now : ℕ) (id code profile : Text) (m : Mailbox)
    → JsMap.get id m ≡ none
    → join hash now id code profile m ≡ (refused unknown_channel, m)
unfolding join join_channel
join_missing hash now id code profile m gone = rw gone refl

join_all_missing :
    (hash : Text → Text) (id : Text) (tries : List Attempt) (m : Mailbox)
    → JsMap.get id m ≡ none
    → join_all hash id tries m ≡ m
unfolding join_all
join_all_missing hash id [] m gone = refl
join_all_missing hash id ((now, code, profile) ∷ tries) m gone =
    rw (join_missing hash now id code profile m gone) (join_all_missing hash id tries m gone)

join_wrong :
    (hash : Text → Text) (id code profile h : Text) (now expires : ℕ) (ch : Channel) (m : Mailbox)
    → JsMap.get id m ≡ some ch
    → ch.closed ≡ false
    → ch.used ≡ false
    → pending_code ch ≡ some (h, expires)
    → now ≤ expires
    → text_eq (hash (normalized code)) h ≡ false
    → (join hash now id code profile m).1 ≡ miss id ch m
unfolding join join_channel join_code
join_wrong hash id code profile h now expires ch m found open_ unused pending early differs =
    rw found (rw (open_, unused, pending, differs) (ground arith))

-- A channel that waits for a code with hash `h`: as many wrong codes in time as bring its count of
-- failures to ten remove it, and every further attempt on it is refused as unknown, the right code
-- included.
pub join_all_locks :
    (hash : Text → Text) (id h : Text) (expires : ℕ) (tries : List Attempt) (ch : Channel)
    (m : Mailbox)
    → JsMap.get id m ≡ some ch
    → ch.id ≡ id
    → ch.closed ≡ false
    → ch.used ≡ false
    → pending_code ch ≡ some (h, expires)
    → ch.failed_joins < max_failed_joins
    → All (IsWrong hash h expires) tries
    → max_failed_joins ≤ ch.failed_joins + length tries
    → (now : ℕ) (code profile : Text)
    → (join hash now id code profile (join_all hash id tries m)).0 ≡ refused unknown_channel
unfolding join_all miss pending_code
join_all_locks hash id h expires [] ch m found own open_ unused pending few wrong enough now code
      profile =
    absurd (omega arith)
join_all_locks hash id h expires ((t, guess, as_profile) ∷ tries) ch m found own open_ unused
      pending few wrong enough now code profile =
    let missed : (join hash t id guess as_profile m).1 ≡ miss id ch m =
      join_wrong hash id guess as_profile h t expires ch m found open_ unused pending wrong.0.0
        wrong.0.1 in
    rw missed (elim (Bool-cases (leb max_failed_joins (ch.failed_joins + 1))) [
      | inl last ↦
          let gone : JsMap.get id (JsMap.delete ch.id m) ≡ none =
            rw get-delete (rw own (rw (text_eq_refl id) refl)) in
          rw last (
            rw (join_all_missing hash id tries (JsMap.delete ch.id m) gone)
              (ap (λ r. r.0) (join_missing hash now id code profile (JsMap.delete ch.id m) gone)))
      | inr more ↦
          let ch' : Channel = record ch { failed_joins = ch.failed_joins + 1 } in
          rw more (
            join_all_locks hash id h expires tries ch' (JsMap.set id ch' m)
              (rw get-set (rw (text_eq_refl id) refl)) own open_ unused pending (ground arith)
              wrong.1 (omega arith) now code profile)
    ])
