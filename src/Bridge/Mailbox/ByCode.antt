-- ===== src/Bridge/Mailbox/ByCode.antt =====
-- Joining by the code alone, against joining with the channel's id.
use grandpa_bob.Base.{
  ℕ, ◌≡◌, refl, sym, ◌∙◌, ap, Bool, true, false, not, ◌&&◌, Option, none, some, [], ◌∷◌, arith, ltb,
  if◌then◌else◌, and_true, ◌⊎◌, Bool-cases, inl, inr,
}
use grandpa_bob.Base.Text.{Text, text_eq, text_eq_refl, text_eq_iff}
use grandpa_bob.Base.JsMap
use grandpa_bob.Base.JsMap.{JsMap}
use grandpa_bob.Base.JsMap.Every.{Every}
use grandpa_bob.Base.JsMap.Size.{HasUniqueKeys}
use grandpa_bob.Bridge.Mailbox.{
  Channel, Mailbox, Outcome, refused, joined, invalid_code, unknown_channel, already_used,
  normalized, pending_code, clashes, spent, join, join_channel, join_code, is_match, takes_code,
  join_by_code,
}

abbrev joins_channel : ℕ → Channel → Channel
joins_channel now ch = record ch { used = true; last_activity = now }

join_code-is_match :
    (hash : Text → Text) (now : ℕ) (code id : Text) (ch : Channel) (w : Option (Text × ℕ))
    (m : Mailbox)
    → is_match hash now code w ≡ true
    → join_code hash now id code [] ch w m ≡ (
      joined (joins_channel now ch) ch.tokens.offerer_token,
      JsMap.set id (joins_channel now ch) m,
    )
unfolding join_code is_match spent clashes text_eq
join_code-is_match hash now code id ch none m takes = ground arith
join_code-is_match hash now code id ch (some (h, expires)) m takes =
    let parts = and_true (not (ltb expires now)) (text_eq (hash (normalized code)) h) takes in
    let early : ltb expires now ≡ false = ground (arith, parts.0) in rw (parts.1, early) refl

past_checks :
    (a b : Bool) (x y z : Outcome × Mailbox)
    → a ≡ false
    → b ≡ false
    → (if a then x else if b then y else z) ≡ z
past_checks a b x y z a≡ b≡ = rw (a≡, b≡) refl

-- A channel that takes the code is joined with it by id, under no profile's name.
join-takes_code :
    (hash : Text → Text) (now : ℕ) (code id : Text) (ch : Channel) (m : Mailbox)
    → JsMap.get id m ≡ some ch
    → takes_code hash now code ch ≡ true
    → join hash now id code [] m ≡ (
      joined (joins_channel now ch) ch.tokens.offerer_token,
      JsMap.set id (joins_channel now ch) m,
    )
unfolding takes_code join join_channel
join-takes_code hash now code id ch m found takes =
    let outer =
      and_true (not ch.closed && not ch.used) (is_match hash now code (pending_code ch)) takes in
    let inner = and_true (not ch.closed) (not ch.used) outer.0 in
    let open_ : ch.closed ≡ false = ground (arith, inner.0) in
    let unused : ch.used ≡ false = ground (arith, inner.1) in
    rw found (
      past_checks ch.closed ch.used (refused unknown_channel, m) (refused already_used, m) _ open_
        unused
      ∙ join_code-is_match hash now code id ch (pending_code ch) m outer.1)

abbrev FindsOne : (Text → Text) → ℕ → Text → Mailbox → Type 0
FindsOne hash now code m =
    (k : Text) × (ch : Channel) × (JsMap.get k m ≡ some ch)
    × (takes_code hash now code ch ≡ true)
    × (join_by_code hash now code m ≡ (
      joined (joins_channel now ch) ch.tokens.offerer_token,
      JsMap.set k (joins_channel now ch) m,
    ))

abbrev pub FindsNone : (Text → Text) → ℕ → Text → Mailbox → Type 0
FindsNone hash now code m =
    (join_by_code hash now code m ≡ (refused invalid_code, m))
    × Every (λ k ch. takes_code hash now code ch ≡ false) m

finds :
    (hash : Text → Text) (now : ℕ) (code : Text) (m : Mailbox)
    → HasUniqueKeys m
    → FindsOne hash now code m ⊎ FindsNone hash now code m
unfolding join_by_code JsMap.get JsMap.set
finds hash now code [] u = inr (refl, tt)
finds hash now code ((k, ch) ∷ m) u = elim (Bool-cases (takes_code hash now code ch)) [
  | inl e ↦ inl (k, ch, rw (text_eq_refl k) refl, e, rw (e, text_eq_refl k) refl)
  | inr e ↦ elim (finds hash now code m u.1) [
    | inl (j, other, found, takes, same) ↦
        let apart : text_eq k j ≡ false = ground (arith, text_eq_iff k j, u.0) in
        inl (j, other, rw apart found, takes, rw (e, apart) (rw same refl))
    | inr (same, none_takes) ↦ inr (rw e (rw same refl), (e, none_takes))
  ]
]

-- In a mailbox whose keys are unique, joining by the code alone either does what joining some
-- channel by its id with that code and no profile does, outcome and mailbox, or is refused with the
-- mailbox unchanged, and then no channel is open, unused and in time with that code.
pub join-join_by_code :
    (hash : Text → Text) (now : ℕ) (code : Text) (m : Mailbox)
    → HasUniqueKeys m
    → ((k : Text) × (ch : Channel) × (JsMap.get k m ≡ some ch)
        × (join hash now k code [] m ≡ join_by_code hash now code m)
        × ((join_by_code hash now code m).0
            ≡ joined (record ch { used = true; last_activity = now }) ch.tokens.offerer_token))
      ⊎ FindsNone hash now code m
join-join_by_code hash now code m u = elim (finds hash now code m u) [
  | inl (k, ch, found, takes, same) ↦ inl (
    k,
    ch,
    found,
    join-takes_code hash now code k ch m found takes ∙ sym same,
    ap (λ r. r.0) same,
  )
  | inr missed ↦ inr missed
]
