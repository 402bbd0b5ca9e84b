-- ===== src/Bridge/Mailbox/Sound.antt =====
-- What holds of the mailbox after any sequence of operations.
use grandpa_bob.Base.{
  ℕ, ◌+◌, ◌%◌, ◌<◌, ◌≡◌, refl, Bool, true, false, not, Option, none, some, [], ◌∷◌, arith, ltb, leb,
  if◌then◌else◌, Bool-cases, Option-cases, inl, inr,
}
use grandpa_bob.Base.Text.{Text, text_eq}
use grandpa_bob.Base.Json.{Json}
use grandpa_bob.Base.JsMap
use grandpa_bob.Base.JsMap.{JsMap}
use grandpa_bob.Base.JsMap.Every.{Every, set-Every, delete-Every, get-Every}
use grandpa_bob.Bridge.Mailbox.Feed.{IsSeqFrom, IsFeed, append-IsFeed}
use grandpa_bob.Bridge.Mailbox.{
  Outcome, refused, joined, unknown_channel, already_used, expired, mismatch, wrong_profile,
  normalized, Tokens, Channel, Mailbox, SignalSide, max_failed_joins, digits, code_ttl_ms, create,
  create_pairing, create_reconnect, miss, spent, pruned, prune, append, next_entry, close, join,
  join_channel, join_code, join_by_code, takes_code, pending_code, clashes,
}

unfoldable pub IsOpen : Text → Channel → Type 0
IsOpen k ch = (ch.id ≡ k) × (ch.closed ≡ false) × (ch.failed_joins < max_failed_joins) × IsFeed ch

abbrev pub IsSound : Mailbox → Type 0
IsSound m = Every IsOpen m

create-IsOpen : (id own : Text) (tokens : Tokens) (now : ℕ) → IsOpen id (create id own tokens now)
unfolding IsOpen IsFeed IsSeqFrom create
create-IsOpen id own tokens now = (refl, refl, omega arith, (omega arith, omega arith, tt))

miss-IsSound :
    (id : Text) (ch : Channel) (m : Mailbox) → IsOpen id ch → IsSound m → IsSound (miss id ch m)
unfolding miss IsOpen IsFeed
miss-IsSound id ch m o h = elim (Bool-cases (leb max_failed_joins (ch.failed_joins + 1))) [
  | inl last ↦ rw last (delete-Every IsOpen ch.id m h)
  | inr more ↦ rw more (
      set-Every IsOpen id (record ch { failed_joins = ch.failed_joins + 1 }) m
        (o.0, o.1, ground (arith, more), o.3) h)
]

if-IsSound :
    (b : Bool) (x y : Outcome × Mailbox)
    → IsSound x.1
    → IsSound y.1
    → IsSound (if b then x else y).1
if-IsSound true x y hx hy = hx
if-IsSound false x y hx hy = hy

join_code-IsSound :
    (hash : Text → Text) (now : ℕ) (id code profile : Text) (ch : Channel) (w : Option (Text × ℕ))
    (m : Mailbox)
    → IsOpen id ch
    → IsSound m
    → IsSound (join_code hash now id code profile ch w m).1
unfolding join_code spent IsOpen IsFeed
join_code-IsSound hash now id code profile ch none m o h = h
join_code-IsSound hash now id code profile ch (some (x, expires)) m o h =
    let kept : IsOpen id (spent now profile ch) = o in
    if-IsSound (ltb expires now) (refused expired, m) _ h
      (if-IsSound (not (text_eq (hash (normalized code)) x)) (refused mismatch, miss id ch m) _
        (miss-IsSound id ch m o h)
        (if-IsSound (clashes profile ch.profile) (refused wrong_profile, m)
          (
            joined (spent now profile ch) ch.tokens.offerer_token,
            JsMap.set id (spent now profile ch) m,
          )
          h (set-Every IsOpen id (spent now profile ch) m kept h)))

join-IsSound :
    (hash : Text → Text) (now : ℕ) (id code profile : Text) (m : Mailbox)
    → IsSound m
    → IsSound (join hash now id code profile m).1
unfolding join join_channel
join-IsSound hash now id code profile m h = elim (Option-cases (JsMap.get id m)) [
  | inl missing ↦ rw missing h
  | inr (ch, found) ↦ rw found (
      if-IsSound ch.closed (refused unknown_channel, m) _ h
        (if-IsSound ch.used (refused already_used, m) _ h
          (join_code-IsSound hash now id code profile ch (pending_code ch) m
            (get-Every IsOpen id ch m h found) h)))
]

join_by_code-IsSound :
    (hash : Text → Text) (now : ℕ) (code : Text) (m : Mailbox)
    → IsSound m
    → IsSound (join_by_code hash now code m).1
unfolding join_by_code IsOpen IsFeed
join_by_code-IsSound hash now code [] h = tt
join_by_code-IsSound hash now code ((k, ch) ∷ m) h =
    elim (Bool-cases (takes_code hash now code ch)) [
      | inl e ↦ rw e h
      | inr e ↦ rw e (h.0, join_by_code-IsSound hash now code m h.1)
    ]

prune-IsSound : (now : ℕ) (m : Mailbox) → IsSound m → IsSound (prune now m)
unfolding prune
prune-IsSound now [] h = tt
prune-IsSound now ((k, ch) ∷ m) h = elim (Bool-cases (pruned now ch)) [
  | inl e ↦ rw e (prune-IsSound now m h.1)
  | inr e ↦ rw e (h.0, prune-IsSound now m h.1)
]

append-IsOpen :
    (k : Text) (from : SignalSide) (kind : Text) (payload : Json) (at : Text) (now : ℕ)
    (ch : Channel)
    → IsOpen k ch
    → IsOpen k (append (next_entry from kind payload at ch) now ch)
unfolding IsOpen append
append-IsOpen k from kind payload at now ch o =
    (o.0, o.1, o.2, append-IsFeed from kind payload at now ch o.3)

-- One operation of the mailbox. A signal is appended to a channel that is looked up, and a channel
-- that is looked up is closed.
pub data Step (hash : Text → Text) : Mailbox → Mailbox → Type 0 where
  pairs :
      {m : Mailbox} (id own : Text) (tokens : Tokens) (n now : ℕ)
      → Step hash m (create_pairing hash id own tokens n now m).1
  reconnects :
      {m : Mailbox} (id own : Text) (tokens : Tokens) (now : ℕ)
      → Step hash m (create_reconnect id own tokens now m)
  joins :
      {m : Mailbox} (now : ℕ) (id code profile : Text)
      → Step hash m (join hash now id code profile m).1
  joins_by_code :
      {m : Mailbox} (now : ℕ) (code : Text) → Step hash m (join_by_code hash now code m).1
  posts :
      {m : Mailbox} (id kind at : Text) (from : SignalSide) (payload : Json) (now : ℕ)
      (ch : Channel)
      → JsMap.get id m ≡ some ch
      → Step hash m (JsMap.set id (append (next_entry from kind payload at ch) now ch) m)
  closes : {m : Mailbox} (ch : Channel) → Step hash m (close ch m).1
  prunes : {m : Mailbox} (now : ℕ) → Step hash m (prune now m)

pub data Reachable (hash : Text → Text) : Mailbox → Type 0 where
  begins : Reachable hash []
  continues : {m m' : Mailbox} → Reachable hash m → Step hash m m' → Reachable hash m'

create_pairing-IsSound :
    (hash : Text → Text) (id own : Text) (tokens : Tokens) (n now : ℕ) (m : Mailbox)
    → IsSound m
    → IsSound (create_pairing hash id own tokens n now m).1
unfolding create_pairing IsOpen IsFeed create IsSeqFrom
create_pairing-IsSound hash id own tokens n now m h =
    let waits : Channel = record (create id own tokens now) {
      code_hash = some (hash (digits 8 (n % 100000000)));
      code_expires_at = some (now + code_ttl_ms);
    } in
    let o : IsOpen id waits = create-IsOpen id own tokens now in
    set-Every IsOpen id waits (JsMap.set id (create id own tokens now) m) o
      (set-Every IsOpen id (create id own tokens now) m (create-IsOpen id own tokens now) h)

Step-IsSound : (hash : Text → Text) (m m' : Mailbox) → Step hash m m' → IsSound m → IsSound m'
unfolding create_reconnect close
Step-IsSound hash m _ (pairs id own tokens n now) h =
    create_pairing-IsSound hash id own tokens n now m h
Step-IsSound hash m _ (reconnects id own tokens now) h =
    set-Every IsOpen id (create id own tokens now) m (create-IsOpen id own tokens now) h
Step-IsSound hash m _ (joins now id code profile) h = join-IsSound hash now id code profile m h
Step-IsSound hash m _ (joins_by_code now code) h = join_by_code-IsSound hash now code m h
Step-IsSound hash m _ (posts id kind at from payload now ch found) h =
    set-Every IsOpen id (append (next_entry from kind payload at ch) now ch) m
      (append-IsOpen id from kind payload at now ch (get-Every IsOpen id ch m h found)) h
Step-IsSound hash m _ (closes ch) h = delete-Every IsOpen ch.id m h
Step-IsSound hash m _ (prunes now) h = prune-IsSound now m h

-- After any sequence of operations on an empty mailbox, every channel stands under its own id, is
-- not closed, has fewer than ten failed joins, and keeps at most its last 500 signals, numbered
-- without a gap up to the number before the next one.
pub Reachable-IsSound : (hash : Text → Text) (m : Mailbox) → Reachable hash m → IsSound m
Reachable-IsSound hash _ begins = tt
Reachable-IsSound hash _ (continues {m} {m'} r s) =
    Step-IsSound hash m m' s (Reachable-IsSound hash m r)
