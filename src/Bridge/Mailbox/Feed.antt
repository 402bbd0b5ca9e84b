-- ===== src/Bridge/Mailbox/Feed.antt =====
-- The signal feed of a channel: numbers without a gap, and what a reader with a cursor gets.
use grandpa_bob.Base.{
  ℕ, zero, suc, ◌+◌, ◌-◌, ◌≤◌, ◌<◌, ◌≡◌, refl, sym, ◌∙◌, ap, subst, Bool, true, false, List, [],
  ◌∷◌, ◌++◌, arith, ltb, ltb→lt, length, drop, filter, filter-append, Bool-cases, inl, inr,
  length-append, length-drop,
}
use mathlib.Core.List.{append_assoc, append-nil}
use grandpa_bob.Base.Text.{Text}
use grandpa_bob.Base.Json.{Json}
use grandpa_bob.Bridge.Mailbox.{
  Channel, SignalEntry, SignalSide, max_signals, append, next_entry, feed,
}

-- Consecutive numbers from the first one on.
unfoldable pub IsSeqFrom : ℕ → List SignalEntry → Type 0
IsSeqFrom n [] = Unit
IsSeqFrom n (e ∷ es) = (e.seq ≡ n) × IsSeqFrom (n + 1) es

-- The signals that are kept are the last ones, at most 500 of them, numbered without a gap.
unfoldable pub IsFeed : Channel → Type 0
IsFeed ch =
    (length ch.signals < ch.next_seq)
    × (length ch.signals ≤ max_signals)
    × IsSeqFrom (ch.next_seq - length ch.signals) ch.signals

IsSeqFrom-append :
    (n : ℕ) (es : List SignalEntry) (e : SignalEntry)
    → IsSeqFrom n es
    → e.seq ≡ n + length es
    → IsSeqFrom n (es ++ e ∷ [])
unfolding IsSeqFrom
IsSeqFrom-append n [] e h k = (omega arith, tt)
IsSeqFrom-append n (x ∷ es) e h k = (h.0, IsSeqFrom-append (n + 1) es e h.1 (omega arith))

IsSeqFrom-drop : (k n : ℕ) (es : List SignalEntry) → IsSeqFrom n es → IsSeqFrom (n + k) (drop k es)
unfolding IsSeqFrom
IsSeqFrom-drop zero n es h = subst (λ i. IsSeqFrom i es) (omega arith) h
IsSeqFrom-drop (suc k) n [] h = tt
IsSeqFrom-drop (suc k) n (x ∷ es) h =
    subst (λ i. IsSeqFrom i (drop k es)) (omega arith) (IsSeqFrom-drop k (n + 1) es h.1)

-- Appending a signal that carries the channel's next number keeps the feed in order.
pub append-IsFeed :
    (from : SignalSide) (kind : Text) (payload : Json) (at : Text) (now : ℕ) (ch : Channel)
    → IsFeed ch
    → IsFeed (append (next_entry from kind payload at ch) now ch)
unfolding IsFeed append next_entry
append-IsFeed from kind payload at now ch h =
    let entry = next_entry from kind payload at ch in
    let whole = ch.signals ++ entry ∷ [] in
    let by = length whole - max_signals in
    let first = ch.next_seq - length ch.signals in
    let count : length whole ≡ length ch.signals + 1 = length-append ch.signals (entry ∷ []) in
    let in_order : IsSeqFrom first whole =
      IsSeqFrom-append first ch.signals entry h.2 (omega (arith, h.0)) in
    elim (Bool-cases (ltb max_signals (length whole))) [
      | inl over ↦
          let many : max_signals < length whole = ltb→lt max_signals (length whole) over in
          rw over (
            omega (arith, count, many, h.0, h.1, length-drop by whole),
            omega (arith, count, many, h.0, h.1, length-drop by whole),
            subst (λ i. IsSeqFrom i (drop by whole))
                (omega (arith, count, many, h.0, h.1, length-drop by whole))
                (IsSeqFrom-drop by first whole in_order),
          )
      | inr fits ↦
          let few : length whole ≤ max_signals = ground arith in
          rw fits (
            omega (arith, count, h.0),
            few,
            subst (λ i. IsSeqFrom i whole) (omega (arith, count, h.0)) in_order,
          )
    ]

-- Entries up to the cursor may go without a trace in what is read after it.
filter-drop :
    (after k n : ℕ) (es : List SignalEntry)
    → IsSeqFrom n es
    → n + k ≤ after + 1
    → filter (λ (e : SignalEntry). ltb after e.seq) (drop k es)
      ≡ filter (λ (e : SignalEntry). ltb after e.seq) es
unfolding IsSeqFrom filter
filter-drop after zero n es h k≤ = refl
filter-drop after (suc k) n [] h k≤ = refl
filter-drop after (suc k) n (x ∷ es) h k≤ =
    let seen : ltb after x.seq ≡ false = ground (arith, h.0) in
    filter-drop after k (n + 1) es h.1 (omega arith) ∙ rw seen refl

-- A new entry is read after all that was unread, if the reader is less than 500 entries behind.
feed-append :
    (from : SignalSide) (kind : Text) (payload : Json) (at : Text) (now after : ℕ) (ch : Channel)
    → IsFeed ch
    → after < ch.next_seq
    → ch.next_seq ≤ after + max_signals
    → feed (append (next_entry from kind payload at ch) now ch) after
      ≡ feed ch after ++ next_entry from kind payload at ch ∷ []
unfolding feed append filter IsFeed next_entry
feed-append from kind payload at now after ch h unread near =
    let entry = next_entry from kind payload at ch in
    let whole = ch.signals ++ entry ∷ [] in
    let by = length whole - max_signals in
    let first = ch.next_seq - length ch.signals in
    let late : SignalEntry → Bool = λ e. ltb after e.seq in
    let new : ltb after ch.next_seq ≡ true = ground arith in
    let count : length whole ≡ length ch.signals + 1 = length-append ch.signals (entry ∷ []) in
    let all_read : filter late whole ≡ feed ch after ++ entry ∷ [] =
      filter-append late ch.signals (entry ∷ []) ∙ rw new refl in
    elim (Bool-cases (ltb max_signals (length whole))) [
      | inl over ↦
          let many : max_signals < length whole = ltb→lt max_signals (length whole) over in
          rw over (
            filter-drop after by first whole
              (IsSeqFrom-append first ch.signals entry h.2 (omega (arith, h.0)))
              (omega (arith, count, h.0, h.1))
            ∙ all_read)
      | inr fits ↦ rw fits all_read
    ]

-- What a peer posts, before it has its number.
pub record Draft : Type 0 where
  pub side : SignalSide
  pub kind : Text
  pub payload : Json
  pub at : Text
  pub now : ℕ

abbrev entry_of : Draft → Channel → SignalEntry
entry_of d ch = next_entry d.side d.kind d.payload d.at ch

abbrev after_post : Draft → Channel → Channel
after_post d ch = append (entry_of d ch) d.now ch

unfoldable pub post_all : List Draft → Channel → Channel
post_all [] ch = ch
post_all (d ∷ ds) ch = post_all ds (after_post d ch)

-- The entries of the posts, numbered from the next number of the channel.
unfoldable pub entries : List Draft → Channel → List SignalEntry
entries [] ch = []
entries (d ∷ ds) ch = entry_of d ch ∷ entries ds (after_post d ch)

-- For a channel whose feed is in order and a reader whose cursor is before the next number: after
-- any posts that leave it at most 500 entries behind, the reader gets what it had not read, then
-- exactly the posts in their order. Nothing is lost or repeated.
pub feed-post_all :
    (ds : List Draft) (after : ℕ) (ch : Channel)
    → IsFeed ch
    → after < ch.next_seq
    → ch.next_seq + length ds ≤ after + 1 + max_signals
    → feed (post_all ds ch) after ≡ feed ch after ++ entries ds ch
unfolding post_all entries append
feed-post_all [] after ch h unread near = sym (append-nil (feed ch after))
feed-post_all (d ∷ ds) after ch h unread near =
    feed-post_all ds after (after_post d ch) (append-IsFeed d.side d.kind d.payload d.at d.now ch h)
      (omega arith) (omega arith)
    ∙ ap (λ r. r ++ entries ds (after_post d ch))
        (feed-append d.side d.kind d.payload d.at d.now after ch h unread (omega arith))
    ∙ append_assoc (feed ch after) (entry_of d ch ∷ []) (entries ds (after_post d ch))
