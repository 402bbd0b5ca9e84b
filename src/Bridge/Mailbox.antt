-- ===== src/Bridge/Mailbox.antt =====
-- src/bridge/mailbox.ts: the pairing mailbox. The map of channels is the state; a channel object that
-- the program changes in place is written back under its id. SHA-256, the random draws and the times
-- are arguments. What listeners and `onJoined` are told is the entry and the channel returned.
pub mod Pairing
pub mod Guesses
pub mod ByCode
pub mod Feed
pub mod Sound
use grandpa_bob.Base.{
  ℕ, zero, suc, ◌+◌, ◌-◌, ◌*◌, ◌/◌, ◌%◌, Bool, true, false, not, ◌&&◌, ◌||◌, Option, none, some,
  List, [], ◌∷◌, ◌++◌, ltb, leb, ◌==◌, if◌then◌else◌, length, take, drop, filter,
}
use grandpa_bob.Base.Text.{Text, text_eq}
use grandpa_bob.Base.Json.{Json}
use grandpa_bob.Base.JsMap
use grandpa_bob.Base.JsMap.{JsMap}

pub data SignalSide : Type 0 where
  offerer answerer : SignalSide

pub record SignalEntry : Type 0 where
  pub seq : ℕ
  pub from : SignalSide
  pub kind : Text
  pub payload : Json
  pub at : Text

pub record Tokens : Type 0 where
  pub offerer_token : Text
  pub answerer_token : Text

pub record Channel : Type 0 where
  pub id : Text
  pub profile : Text
  pub code_hash : Option Text
  pub code_expires_at : Option ℕ
  pub used : Bool
  pub failed_joins : ℕ
  pub created_at : ℕ
  pub last_activity : ℕ
  pub tokens : Tokens
  pub signals : List SignalEntry
  pub next_seq : ℕ
  pub closed : Bool

abbrev pub Mailbox : Type 0
Mailbox = JsMap Channel

abbrev pub code_ttl_ms : ℕ
code_ttl_ms = 10 * 60000

abbrev pub channel_ttl_ms : ℕ
channel_ttl_ms = 30 * 60000

abbrev pub max_signals : ℕ
max_signals = 500

abbrev pub max_failed_joins : ℕ
max_failed_joins = 10

-- The last `k` decimal digits of a number, zeros in front.
unfoldable pub digits : ℕ → ℕ → Text
digits zero n = []
digits (suc k) n = digits k (n / 10) ++ (48 + n % 10) ∷ []

-- `[0-9A-Fa-f]`
unfoldable pub is_hex_unit : ℕ → Bool
is_hex_unit c = leb 48 c && leb c 57 || leb 65 c && leb c 70 || leb 97 c && leb c 102

unfoldable pub normalized : Text → Text
normalized code = filter is_hex_unit code

unfoldable pub create : Text → Text → Tokens → ℕ → Channel
create id profile tokens now = record {
  id = id;
  profile = profile;
  code_hash = none;
  code_expires_at = none;
  used = false;
  failed_joins = 0;
  created_at = now;
  last_activity = now;
  tokens = tokens;
  signals = [];
  next_seq = 1;
  closed = false;
}

unfoldable pub create_reconnect : Text → Text → Tokens → ℕ → Mailbox → Mailbox
unfolding create
create_reconnect id profile tokens now m = JsMap.set id (create id profile tokens now) m

pub data JoinError : Type 0 where
  unknown_channel already_used not_joinable expired mismatch wrong_profile invalid_code : JoinError

pub data Outcome : Type 0 where
  refused : JoinError → Outcome
  joined : Channel → Text → Outcome

-- `channel.codeHash` and `channel.codeExpiresAt`, where both are truthy.
unfoldable pub pending_code : Channel → Option (Text × ℕ)
pending_code ch = elim ch.code_hash [
  | none ↦ none
  | some h ↦ elim ch.code_expires_at [
    | none ↦ none
    | some t ↦ if text_eq h [] || t == 0 then none else some (h, t)
  ]
]

-- A code that does not match: the tenth one removes the channel.
unfoldable pub miss : Text → Channel → Mailbox → Mailbox
miss id ch m =
    let failed = ch.failed_joins + 1 in
    if leb max_failed_joins failed
    then JsMap.delete ch.id m
    else JsMap.set id (record ch { failed_joins = failed }) m

-- `profile && channel.profile && profile !== channel.profile`
unfoldable pub clashes : Text → Text → Bool
clashes profile own = not (text_eq profile []) && not (text_eq own []) && not (text_eq profile own)

unfoldable pub spent : ℕ → Text → Channel → Channel
spent now profile ch = record ch {
  used = true;
  profile = if text_eq profile [] then ch.profile else profile;
  last_activity = now;
}

unfoldable pub pruned : ℕ → Channel → Bool
pruned now ch = ltb (if ch.used then channel_ttl_ms else code_ttl_ms) (now - ch.last_activity)

unfoldable pub prune : ℕ → Mailbox → Mailbox
unfolding pruned
prune now [] = []
prune now ((k, ch) ∷ m) = let rest = prune now m in if pruned now ch then rest else (k, ch) ∷ rest

unfoldable pub side_for : Channel → Text → Option SignalSide
side_for ch token =
    if text_eq token ch.tokens.offerer_token
    then some offerer
    else if text_eq token ch.tokens.answerer_token
    then some answerer
    else none

unfoldable pub next_entry : SignalSide → Text → Json → Text → Channel → SignalEntry
next_entry from kind payload at ch = record {
  seq = ch.next_seq;
  from = from;
  kind = kind;
  payload = payload;
  at = at;
}

-- The entry goes to the end, and the oldest ones leave when there are more than 500.
unfoldable pub append : SignalEntry → ℕ → Channel → Channel
append entry now ch =
    let all = ch.signals ++ entry ∷ [] in
    record ch {
      next_seq = ch.next_seq + 1;
      signals = if ltb max_signals (length all) then drop (length all - max_signals) all else all;
      last_activity = now;
    }

unfoldable pub feed : Channel → ℕ → List SignalEntry
feed ch after = filter (λ e. ltb after e.seq) ch.signals

unfoldable pub close : Channel → Mailbox → Channel × Mailbox
close ch m = (record ch { closed = true }, JsMap.delete ch.id m)

module _ (hash : Text → Text) where
  -- The shown code, and the mailbox with the channel that waits for it. `n` is the random draw.
  unfoldable pub create_pairing : Text → Text → Tokens → ℕ → ℕ → Mailbox → Text × Mailbox
  unfolding create digits
  create_pairing id profile tokens n now m =
      let code = digits 8 (n % 100000000) in
      let ch = create id profile tokens now in
      (
        take 4 code ++ 45 ∷ drop 4 code,
        JsMap.set id
            (record ch { code_hash = some (hash code); code_expires_at = some (now + code_ttl_ms) })
            (JsMap.set id ch m),
      )

  -- The checks of `join` from the code on.
  pub join_code : ℕ → Text → Text → Text → Channel → Option (Text × ℕ) → Mailbox → Outcome × Mailbox
  unfolding normalized miss clashes spent
  join_code now id code profile ch none m = (refused not_joinable, m)
  join_code now id code profile ch (some (h, expires)) m =
      if ltb expires now
      then (refused expired, m)
      else if not (text_eq (hash (normalized code)) h)
      then (refused mismatch, miss id ch m)
      else if clashes profile ch.profile
      then (refused wrong_profile, m)
      else (let ch' = spent now profile ch in
          (joined ch' ch'.tokens.offerer_token, JsMap.set id ch' m))

  pub join_channel : ℕ → Text → Text → Text → Option Channel → Mailbox → Outcome × Mailbox
  unfolding join_code pending_code
  join_channel now id code profile none m = (refused unknown_channel, m)
  join_channel now id code profile (some ch) m =
      if ch.closed
      then (refused unknown_channel, m)
      else if ch.used
      then (refused already_used, m)
      else join_code now id code profile ch (pending_code ch) m

  unfoldable pub join : ℕ → Text → Text → Text → Mailbox → Outcome × Mailbox
  unfolding join_channel
  join now id code profile m = join_channel now id code profile (JsMap.get id m) m

  -- The pending code is the one given, and is not too old.
  unfoldable pub is_match : ℕ → Text → Option (Text × ℕ) → Bool
  unfolding normalized
  is_match now code none = false
  is_match now code (some (h, expires)) =
      not (ltb expires now) && text_eq (hash (normalized code)) h

  unfoldable pub takes_code : ℕ → Text → Channel → Bool
  unfolding is_match pending_code
  takes_code now code ch = not ch.closed && not ch.used && is_match now code (pending_code ch)

  -- `joinByCode`: the first channel that takes the code.
  unfoldable pub join_by_code : ℕ → Text → Mailbox → Outcome × Mailbox
  unfolding takes_code
  join_by_code now code [] = (refused invalid_code, [])
  join_by_code now code ((k, ch) ∷ m) =
      let ch' = record ch { used = true; last_activity = now } in
      let rest = join_by_code now code m in
      if takes_code now code ch
      then (joined ch' ch'.tokens.offerer_token, (k, ch') ∷ m)
      else (rest.0, (k, ch) ∷ rest.1)
