-- ===== src/Bridge/Mailbox/Pairing.antt =====
-- The code that the operator is shown lets the browser in, once.
use grandpa_bob.Base.{
  ℕ, zero, suc, ◌+◌, ◌/◌, ◌%◌, ◌≤◌, ◌≡◌, refl, sym, ◌∙◌, ap, true, false, some, [], ◌∷◌, ◌++◌,
  arith, take, drop, filter, filter-append, take-append-drop,
}
use grandpa_bob.Base.Text.{Text, text_eq, text_eq_refl}
use grandpa_bob.Base.JsMap
use grandpa_bob.Base.JsMap.{JsMap, get-set}
use grandpa_bob.Bridge.Mailbox.{
  Tokens, Channel, Mailbox, digits, is_hex_unit, normalized, create, create_pairing, refused,
  joined, already_used, pending_code, clashes, spent, code_ttl_ms, join, join_channel, join_code,
}

is_hex_unit-digit : (d : ℕ) → d ≤ 9 → is_hex_unit (48 + d) ≡ true
unfolding is_hex_unit
is_hex_unit-digit d h = ground arith

filter-digits : (k n : ℕ) → filter is_hex_unit (digits k n) ≡ digits k n
unfolding digits filter
filter-digits zero n = refl
filter-digits (suc k) n =
    filter-append is_hex_unit (digits k (n / 10)) ((48 + n % 10) ∷ [])
    ∙ rw (filter-digits k (n / 10), is_hex_unit-digit (n % 10) (omega arith)) refl

-- The dash of the shown code is dropped again.
normalized-shown :
    (k n i : ℕ) → normalized (take i (digits k n) ++ 45 ∷ drop i (digits k n)) ≡ digits k n
unfolding normalized is_hex_unit filter
normalized-shown k n i =
    let code = digits k n in
    filter-append is_hex_unit (take i code) (45 ∷ drop i code)
    ∙ sym (filter-append is_hex_unit (take i code) (drop i code))
    ∙ ap (filter is_hex_unit) (take-append-drop i code)
    ∙ filter-digits k n

-- Joining a channel that waits for a code, with a text that comes down to that code, in time and
-- under no other profile's name.
join_waiting :
    (hash : Text → Text) (id code profile h : Text) (now expires : ℕ) (ch : Channel) (m : Mailbox)
    → JsMap.get id m ≡ some ch
    → ch.closed ≡ false
    → ch.used ≡ false
    → pending_code ch ≡ some (h, expires)
    → now ≤ expires
    → text_eq (hash (normalized code)) h ≡ true
    → clashes profile ch.profile ≡ false
    → join hash now id code profile m ≡ (
      joined (spent now profile ch) ch.tokens.offerer_token,
      JsMap.set id (spent now profile ch) m,
    )
unfolding join join_channel join_code spent
join_waiting hash id code profile h now expires ch m found open_ unused pending early matches fits =
    rw found (rw (open_, unused, pending) (ground arith))

join_used :
    (hash : Text → Text) (id code profile : Text) (now : ℕ) (ch : Channel) (m : Mailbox)
    → JsMap.get id m ≡ some ch
    → ch.closed ≡ false
    → ch.used ≡ true
    → join hash now id code profile m ≡ (refused already_used, m)
unfolding join join_channel
join_used hash id code profile now ch m found open_ used = rw found (rw (open_, used) refl)

-- For a hash that is never the empty text: in whatever mailbox a pairing is created, a browser that
-- gives the code as it is shown, dash included, before it expires and not under the name of another
-- profile, gets the creator's client token; and every later attempt on that channel is refused as
-- used, whatever its code, its profile and its time.
pub join-create_pairing :
    (hash : Text → Text) (id own profile : Text) (tokens : Tokens) (n now later : ℕ) (m : Mailbox)
    → ((t : Text) → text_eq (hash t) [] ≡ false)
    → later ≤ now + code_ttl_ms
    → clashes profile own ≡ false
    → (ch : Channel) × ((join hash later id
          (create_pairing hash id own tokens n now m).0
          profile
          (create_pairing hash id own tokens n now m).1).0
        ≡ joined ch tokens.offerer_token)
      × ((code' profile' : Text) (t : ℕ)
          → (join hash t id code' profile'
              (join hash later id
                (create_pairing hash id own tokens n now m).0
                profile
                (create_pairing hash id own tokens n now m).1).1).0
            ≡ refused already_used)
unfolding create_pairing create pending_code spent
join-create_pairing hash id own profile tokens n now later m hashed early fits =
    let code = digits 8 (n % 100000000) in
    let shown = take 4 code ++ 45 ∷ drop 4 code in
    let made = create_pairing hash id own tokens n now m in
    let ch : Channel = record (create id own tokens now) {
      code_hash = some (hash code);
      code_expires_at = some (now + code_ttl_ms);
    } in
    let found : JsMap.get id made.1 ≡ some ch = rw get-set (rw (text_eq_refl id) refl) in
    let waits : pending_code ch ≡ some (hash code, now + code_ttl_ms) =
      rw (hashed code) (ground arith) in
    let matches : text_eq (hash (normalized shown)) (hash code) ≡ true =
      rw (normalized-shown 8 (n % 100000000) 4) (text_eq_refl (hash code)) in
    let let_in : join hash later id shown profile made.1 ≡ (
      joined (spent later profile ch) tokens.offerer_token,
      JsMap.set id (spent later profile ch) made.1,
    ) =
      join_waiting hash id shown profile (hash code) later (now + code_ttl_ms) ch made.1 found refl
        refl waits early matches fits in
    let kept : JsMap.get id (join hash later id shown profile made.1).1
        ≡ some (spent later profile ch) =
      rw let_in (rw get-set (rw (text_eq_refl id) refl)) in
    (
      spent later profile ch,
      ap (λ r. r.0) let_in,
      λ code' profile' t.
          ap (λ r. r.0)
            (join_used hash id code' profile' t (spent later profile ch)
              (join hash later id shown profile made.1).1 kept refl refl),
    )
