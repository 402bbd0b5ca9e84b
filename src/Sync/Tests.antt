-- ===== src/Sync/Tests.antt =====
-- Runs of the sync model, and each of its theorems at a concrete input.
use grandpa_bob.Base.{
  inr, ◌++◌, ℕ, ◌≡◌, ◌≤◌, ◌<◌, refl, true, false, not, Option, none, some, List, [], ◌∷◌, arith,
  All, filter, if◌then◌else◌,
}
use grandpa_bob.Base.Text.{split, Text, text, text_eq, text_lt, text_eq_iff, is_blank, trim}
use grandpa_bob.Base.Json.{member, string_member, Json}
use grandpa_bob.Base.JsMap
use grandpa_bob.Base.Js.{Js}
use grandpa_bob.Sync.Phrase.{fingerprints, seed_of, phrase_of, pairing_phrase, pairing_phrase_comm}
use grandpa_bob.Sync.Chunking.{Receiver, on_frames, send, deliver}
use grandpa_bob.Sync.Chunking.Delivery.{on_frames-send}
use grandpa_bob.Sync.Control.{Envelope, control, engine, control_peer, on_messages, attach_engine}
use grandpa_bob.Sync.Control.Order.{engine_part, on_messages-attach_engine}
use grandpa_bob.Sync.Journal.{
  write, delete, SyncOp, Journal, empty, record_op, record_remote_op, last_op_for, last_op_in,
  lamport_for, deletions, stamped,
}
use grandpa_bob.Sync.Journal.Stamps.{IsValid, record_op_newest, record_op-IsValid}
use grandpa_bob.Sync.Journal.Tombstones.{tombstone, get-deletions}
use grandpa_bob.Sync.Journal.Disk.{
  kind_of, op_of_json, empty-IsValid, in_model, load, persist, json_of, IsReadable, load-IsValid,
  load-persist,
}
use grandpa_bob.Sync.Journal.Grows.{Grows}
use grandpa_bob.Sync.Hashmap.{excluded, hidden, is_stamp_unit, build_hashmap}
use grandpa_bob.Sync.Engine.{
  Moment, Replica, is_theirs, conflict_winner, conflict_copy_of, my_map, answer_file, on_hashmap,
  decide, has_name, stamp_of, pull_list, is_tombstone, apply_difference, pull_file,
}
use grandpa_bob.Sync.Engine.Winner.{conflict_winner_swap}
use grandpa_bob.Sync.Engine.Copies.{IsIso, excluded-conflict_copy_of}
use grandpa_bob.Sync.Engine.Pulled.{content}
use grandpa_bob.Sync.Engine.Stage.{verdict}
use grandpa_bob.Sync.Engine.Converge.{replied, completed, settled, completed_converges}
use grandpa_bob.Sync.Engine.Deletes.{
  IsNotAbove, tombstone_deletes, deleted_stays_deleted, empty_file_deletes,
}
use grandpa_bob.Sync.Engine.Push.{WireOp, on_ops}
use grandpa_bob.Sync.Engine.Grows.{on_hashmap-Grows, on_ops-Grows}

abbrev sha : Text → Text
sha s = 35 ∷ s

abbrev noon : Text
noon = text "2026-10-01T12:00:00.000Z"

abbrev clock : ℕ → Moment
clock i = record { iso = noon; ms = 1000 }

noon-IsIso : IsIso noon
unfolding is_stamp_unit
noon-IsIso = (refl, λ e. cc)

abbrev note : Text
note = text "n.md"

abbrev held : Text → Text → ℕ → Journal → Replica
held id base64 mtime j = record {
  id = id;
  files = (note, record { base64 = base64; mtime = mtime }) ∷ [];
  journal = j;
}

abbrev desk : Replica
desk = held (text "desk") (text "QQ==") 5 empty

abbrev phone : Replica
phone = held (text "phone") (text "Qg==") 9 empty

sha-injective : (x y : Text) → text_eq (sha x) (sha y) ≡ true → x ≡ y
sha-injective x y e = cc ((text_eq_iff (sha x) (sha y)).0 e)

model : Unit {0}
unfolding completed replied on_hashmap answer_file my_map record_op record_remote_op last_op_for
    lamport_for deletions build_hashmap hidden excluded text_eq text_lt JsMap.get JsMap.set
    JsMap.delete pull_list decide verdict conflict_winner conflict_copy_of stamp_of has_name
    is_tombstone last_op_in apply_difference filter pull_file
model = tt

-- No replica has journaled the file: the newer file wins on both sides.
newer_file_wins :
    (content note (completed sha clock clock desk phone) ≡ some (text "Qg=="))
    × (content note (replied sha clock clock desk phone) ≡ some (text "Qg=="))
unfolding model
newer_file_wins = (refl, refl)

completed_converges_example :
    (content note (completed sha clock clock desk phone) ≡ settled sha note desk phone)
    × (content note (replied sha clock clock desk phone) ≡ settled sha note desk phone)
unfolding model
completed_converges_example =
    completed_converges sha clock clock note desk phone (λ k. noon-IsIso) (λ k. noon-IsIso) refl
      refl refl refl refl refl refl (λ f g hm ht e. sha-injective f.base64 g.base64 e)

conflict_winner_swap_example :
    is_theirs (
      conflict_winner 3
        (text "b")
        (record { hash = []; bytes = 1; mtime = 2 })
        (record { hash = text "x"; bytes = 4; mtime = 7 })
        3
        (text "a"))
    ≡ not (
        is_theirs (
          conflict_winner 3
            (text "a")
            (record { hash = text "x"; bytes = 4; mtime = 7 })
            (record { hash = []; bytes = 1; mtime = 2 })
            3
            (text "b")))
unfolding text_eq
conflict_winner_swap_example =
    conflict_winner_swap 3 3 (text "a") (text "b")
      (record { hash = text "x"; bytes = 4; mtime = 7 })
      (record { hash = []; bytes = 1; mtime = 2 }) refl

excluded-conflict_copy_of_example : excluded (conflict_copy_of note noon) ≡ true
unfolding has_name
excluded-conflict_copy_of_example = excluded-conflict_copy_of note noon refl noon-IsIso

-- One local write, and one local delete after it.
abbrev wrote : Journal
wrote = record_op note write (some (text "h1")) noon empty

abbrev removed : Journal
removed = record_op note delete none noon wrote

wrote-IsValid : IsValid wrote
wrote-IsValid = record_op-IsValid note write (some (text "h1")) noon empty empty-IsValid

-- A desk that deleted the file, and a phone that still has it.
abbrev desk_without : Replica
desk_without = record { id = text "desk"; files = []; journal = removed }

-- A pad with the smaller id, whose write has the stamp of the desk's delete.
abbrev pad_tied : Replica
pad_tied =
    held (text "apad") (text "Qg==") 9 (record_remote_op note write (some (text "h2")) 2 noon empty)

tombstone_deletes_example :
    content note
      (on_hashmap sha clock (answer_file desk_without) (my_map sha desk_without) pad_tied)
    ≡ none
unfolding model IsNotAbove
tombstone_deletes_example =
    tombstone_deletes sha note refl clock (λ k. noon-IsIso) pad_tied desk_without refl 2 refl refl
      refl (inr (omega arith))

-- The phone writes the file anew, under a stamp above that of the desk's delete.
abbrev phone_later : Replica
phone_later =
    held (text "phone") (text "Qg==") 9
      (record_remote_op note write (some (text "h2")) 7 noon empty)

deleted_stays_deleted_example :
    content note
      (on_hashmap sha clock (answer_file phone_later) (my_map sha phone_later) desk_without)
    ≡ none
unfolding model
deleted_stays_deleted_example =
    deleted_stays_deleted sha note refl clock (λ k. noon-IsIso) desk_without phone_later refl refl
      refl refl

-- The phone's file is now empty, and newer than the desk's.
abbrev phone_empty : Replica
phone_empty = held (text "phone") [] 9 empty

empty_file_deletes_example :
    content note (on_hashmap sha clock (answer_file phone_empty) (my_map sha phone_empty) desk)
    ≡ none
unfolding model
empty_file_deletes_example =
    empty_file_deletes sha note refl clock (λ k. noon-IsIso) desk phone_empty refl
      (record { base64 = []; mtime = 9 }) refl refl refl refl

on_hashmap-Grows_example :
    Grows wrote
      (on_hashmap sha clock
        (answer_file phone)
        (my_map sha phone)
        (held (text "desk") (text "QQ==") 5 wrote)).journal
on_hashmap-Grows_example =
    on_hashmap-Grows sha clock (answer_file phone) (my_map sha phone)
      (held (text "desk") (text "QQ==") 5 wrote) wrote-IsValid

abbrev pushed : List WireOp
pushed =
    record { path = note; op = write; base64 = some (text "Qg=="); lamport = some 4 }
    ∷ record { path = note; op = delete; base64 = none; lamport = some 1 }
    ∷ []

on_ops-Grows_example :
    Grows wrote
      (on_ops sha clock (text "phone") pushed (held (text "desk") (text "QQ==") 5 wrote)).journal
on_ops-Grows_example =
    on_ops-Grows sha clock (text "phone") pushed (held (text "desk") (text "QQ==") 5 wrote)
      wrote-IsValid

record_op_newest_example :
    (n : ℕ) × (last_op_for note (record_op note delete none noon wrote)
      ≡ some (stamped note delete none n noon))
    × All (λ (o : SyncOp). o.lamport < n) wrote.ops
    × (lamport_for note (record_op note delete none noon wrote) ≡ n)
unfolding model
record_op_newest_example = record_op_newest note delete none noon wrote wrote-IsValid refl

get-deletions_example : JsMap.get note (deletions removed) ≡ tombstone (last_op_for note removed)
get-deletions_example = get-deletions note removed

-- A codec that writes every op as one line and reads that line as the op of `wrote`.
abbrev the_op : SyncOp
the_op = stamped note write (some (text "h1")) 1 noon

abbrev print_line : SyncOp → Text
print_line o = text "{op}"

abbrev read_line : Text → Option Json
read_line line = if text_eq line (text "{op}") then some (json_of the_op) else none

the_op-IsReadable : IsReadable print_line read_line the_op
unfolding text_eq is_blank
the_op-IsReadable = record {
  parsed = refl;
  one_line = (omega arith, (omega arith, (omega arith, (omega arith, tt))));
  shown = refl;
}

-- The line of the op, and a torn one.
abbrev torn_file : Option Text
torn_file = some (text "{op}" ++ 10 ∷ text "{torn")

load-IsValid_example : (j : Journal) × (load read_line torn_file ≡ some j) × IsValid j
unfolding in_model is_blank split text_eq op_of_json member string_member kind_of
load-IsValid_example = load-IsValid read_line torn_file refl

load-persist_example :
    (again : Journal) × (load read_line (some (persist print_line wrote)) ≡ some again)
    × (again.ops ≡ wrote.ops)
    × ((p : Text) → lamport_for p again ≡ lamport_for p wrote)
    × (again.clock ≤ wrote.clock)
    × All (λ (o : SyncOp). o.lamport ≤ again.clock) wrote.ops
unfolding model
load-persist_example = load-persist print_line read_line wrote wrote-IsValid (the_op-IsReadable, tt)

-- Envelopes that are texts, frames of at most two characters.
abbrev joined : Receiver Text
joined = record { attached = true; pending = []; transfers = []; delivered = [] }

abbrev same_text : Text → Text
same_text s = s

on_frames-send_example :
    on_frames some (send 2 same_text (text "t1") (text "hello")) joined
    ≡ deliver (text "hello") joined
unfolding text_eq JsMap.get
on_frames-send_example =
    on_frames-send same_text some 2 (text "t1") (text "hello") joined (omega arith) refl refl refl

abbrev before_attach : List (Envelope Text ℕ)
before_attach = control 1 ∷ engine (text "map") ∷ []

abbrev after_attach : List (Envelope Text ℕ)
after_attach = engine (text "ops") ∷ control 2 ∷ []

on_messages-attach_engine_example :
    (on_messages after_attach
      (attach_engine (on_messages before_attach (control_peer (text "link"))))).delivered
    ≡ text "map" ∷ text "ops" ∷ []
unfolding engine_part
on_messages-attach_engine_example =
    on_messages-attach_engine (text "link") before_attach after_attach

-- A library whose upper case leaves letters alone.
abbrev plain : Js
plain = record {
  to_lower = λ s. s;
  to_upper = λ s. s;
  parse_date = λ s. none;
  locale_after = λ a b. false;
  other_text = λ v. [];
  other_count = λ v. none;
  other_stamp = λ v. none;
}

abbrev offer_sdp : Text
offer_sdp =
    text "v=0" ++ 13 ∷ 10 ∷ text "a=fingerprint: CC " ++ 13 ∷ 10 ∷ text "a=fingerprint:AA:BB"

abbrev answer_sdp : Text
answer_sdp = text "a=fingerprint:AA:BB"

seed_shown :
    seed_of (fingerprints plain offer_sdp) (fingerprints plain answer_sdp) ≡ text "AA:BB|CC"
unfolding seed_of fingerprints filter text_eq text_lt trim
seed_shown = refl

phrase_shown : phrase_of (text "AA:BB|CC") ≡ text "cedar-igloo-delta-igloo-igloo-basil"
unfolding phrase_of
phrase_shown = refl

pairing_phrase_comm_example :
    pairing_phrase plain offer_sdp answer_sdp ≡ pairing_phrase plain answer_sdp offer_sdp
pairing_phrase_comm_example = pairing_phrase_comm plain offer_sdp answer_sdp
