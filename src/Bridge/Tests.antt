-- ===== src/Bridge/Tests.antt =====
-- Runs of the bridge's model, and each of its theorems at a concrete input.
use grandpa_bob.Base.{filter, ℕ, ◌≡◌, ◌⊎◌, ◌++◌, refl, true, some, List, [], ◌∷◌, arith}
use grandpa_bob.Base.Text.{Text, text, text_eq}
use grandpa_bob.Base.Json.{null}
use grandpa_bob.Base.JsMap
use grandpa_bob.Base.JsMap.{JsMap}
use grandpa_bob.Bridge.Mailbox.{
  Tokens, Channel, Mailbox, offerer, answerer, digits, is_hex_unit, normalized, create,
  create_pairing, refused, joined, already_used, unknown_channel, clashes, join, join_by_code, feed,
  pending_code,
}
use grandpa_bob.Bridge.Mailbox.Pairing.{join-create_pairing}
use grandpa_bob.Bridge.Mailbox.Feed.{IsFeed, IsSeqFrom, Draft, post_all, entries, feed-post_all}
use grandpa_bob.Bridge.Mailbox.Sound.{begins, continues, pairs, joins, IsSound, Reachable-IsSound}
use grandpa_bob.Bridge.Mailbox.ByCode.{FindsNone, join-join_by_code}
use grandpa_bob.Bridge.Mailbox.Guesses.{join_all, join_all_locks}

abbrev marked : Text → Text
marked s = 35 ∷ s

abbrev both : Tokens
both = record { offerer_token = text "o"; answerer_token = text "a" }

abbrev sc : Text
sc = text "sc_1"

abbrev shown_code : Text
shown_code = text "0000-0042"

unfoldable pair_run : Text × Mailbox
pair_run = create_pairing marked sc (text "desk") both 42 1000 []

shown_is_padded : pair_run.0 ≡ shown_code
unfolding pair_run create_pairing digits
shown_is_padded = refl

abbrev waiting : Channel
waiting = record (create sc (text "desk") both 1000) {
  code_hash = some (marked (text "00000042"));
  code_expires_at = some 601000;
}

abbrev waits : Mailbox
waits = (sc, waiting) ∷ []

join-create_pairing_example :
    (ch : Channel) × ((join marked 2000 sc
        (create_pairing marked sc (text "desk") both 42 1000 []).0
        (text "desk")
        (create_pairing marked sc (text "desk") both 42 1000 []).1).0
      ≡ joined ch (text "o"))
    × ((code' profile' : Text) (t : ℕ)
        → (join marked t sc code' profile'
            (join marked 2000 sc
              (create_pairing marked sc (text "desk") both 42 1000 []).0
              (text "desk")
              (create_pairing marked sc (text "desk") both 42 1000 []).1).1).0
          ≡ refused already_used)
unfolding text_eq clashes
join-create_pairing_example =
    join-create_pairing marked sc (text "desk") (text "desk") both 42 1000 2000 [] (λ t. refl)
      (omega arith) refl

Reachable-IsSound_example : IsSound (join marked 2000 sc shown_code [] pair_run.1).1
unfolding pair_run
Reachable-IsSound_example =
    Reachable-IsSound marked (join marked 2000 sc shown_code [] pair_run.1).1 (
      continues (continues begins (pairs sc (text "desk") both 42 1000))
        (joins 2000 sc shown_code []))

waiting-IsFeed : IsFeed waiting
unfolding IsFeed IsSeqFrom create
waiting-IsFeed = (omega arith, omega arith, tt)

abbrev offers : List Draft
offers =
    record { side = offerer; kind = text "offer"; payload = null; at = []; now = 3000 }
    ∷ record { side = answerer; kind = text "answer"; payload = null; at = []; now = 3001 }
    ∷ []

feed-post_all_example : feed (post_all offers waiting) 0 ≡ feed waiting 0 ++ entries offers waiting
unfolding create
feed-post_all_example = feed-post_all offers 0 waiting waiting-IsFeed (omega arith) (omega arith)

join-join_by_code_example :
    ((k : Text) × (ch : Channel) × (JsMap.get k waits ≡ some ch)
      × (join marked 2000 k shown_code [] waits ≡ join_by_code marked 2000 shown_code waits)
      × ((join_by_code marked 2000 shown_code waits).0
          ≡ joined (record ch { used = true; last_activity = 2000 }) ch.tokens.offerer_token))
    ⊎ FindsNone marked 2000 shown_code waits
unfolding JsMap.get
join-join_by_code_example = join-join_by_code marked 2000 shown_code waits (refl, tt)

abbrev nearly_locked : Channel
nearly_locked = record waiting { failed_joins = 9 }

join_all_locks_example :
    (join marked 2000 sc shown_code []
      (join_all marked sc ((1500, text "1", []) ∷ []) ((sc, nearly_locked) ∷ []))).0
    ≡ refused unknown_channel
unfolding create pending_code text_eq JsMap.get normalized is_hex_unit filter
join_all_locks_example =
    join_all_locks marked sc (marked (text "00000042")) 601000 ((1500, text "1", []) ∷ [])
      nearly_locked ((sc, nearly_locked) ∷ []) refl refl refl refl refl (omega arith)
      ((omega arith, refl), tt) (omega arith) 2000 shown_code []
