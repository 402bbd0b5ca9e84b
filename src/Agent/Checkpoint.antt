-- ===== src/Agent/Checkpoint.antt =====
-- web/src/agent/stopped-checkpoint.ts: the checkpoint of a stopped turn. The logger is an interface
-- with the program's operations on a store `L`.
use grandpa_bob.Base.{
  ℕ, ◌≡◌, refl, Bool, true, false, ◌&&◌, Option, none, some, List, [], ◌∷◌, ◌++◌, leb, ◌==◌, max,
  if◌then◌else◌, get_or, Bool-cases, inl, inr, arith,
}
use grandpa_bob.Base.Text.{Text, text, text_eq}
use grandpa_bob.Base.Json.{Json, Fields, obj, arr, str, nil, end, field, string_member}

pub record StopCheckpointEvent : Type 0 where
  pub run_id : Option Text
  pub definition_id : Option Text
  pub branch_path : Option Text
  pub iteration : Option ℕ
  pub scope_id : Option ℕ
  pub kind : Text
  pub content : Fields
  pub seq : Option ℕ

pub record CheckpointRow : Type 0 where
  pub id : Text
  pub run_id : Text
  pub seq : ℕ
  pub resume_positions : Json

pub record StoppedCheckpointLogger (L : Type 0) : Type 0 where
  pub get_checkpoint : Text → L → Option CheckpointRow
  pub get_events : Text → L → List StopCheckpointEvent
  pub log : StopCheckpointEvent → L → ℕ × L
  pub save_checkpoint : Text → Text → ℕ → Json → L → L
  pub delete_checkpoint : Text → L → L

abbrev at_seq : ℕ → Option ℕ → Bool
at_seq n none = false
at_seq n (some m) = m == n

unfoldable pub find_pause : ℕ → List StopCheckpointEvent → Option StopCheckpointEvent
find_pause n [] = none
find_pause n (ev ∷ evs) =
    let later = find_pause n evs in
    if at_seq n ev.seq && text_eq ev.kind (text "human") then some ev else later

unfoldable pub last_seq : List StopCheckpointEvent → ℕ → ℕ
last_seq [] n = n
last_seq (ev ∷ evs) n = last_seq evs (max n (get_or ev.seq 0))

-- The synthetic pause: the old slot, without its context and its buttons.
unfoldable pub frozen_pause : CheckpointRow → StopCheckpointEvent → StopCheckpointEvent
frozen_pause cp pause = record {
  run_id = some cp.run_id;
  definition_id = some (get_or pause.definition_id (text "web"));
  branch_path = pause.branch_path;
  iteration = some (get_or pause.iteration 0);
  scope_id = pause.scope_id;
  kind = text "human";
  content =
      field (text "child")
        (str (get_or (string_member (text "child") pause.content) (text "main_input")))
        (field (text "context") (obj end) (field (text "buttons") (arr nil) end));
  seq = none;
}

-- `show` is the decimal form of a number.
module _ {L : Type 0} (show : ℕ → Text) (logger : StoppedCheckpointLogger L) where
  unfoldable pub frozen_id : CheckpointRow → ℕ → Text
  frozen_id cp seq = cp.run_id ++ 58 ∷ show seq ++ text ":stopped"

  unfoldable pub freeze_at :
      CheckpointRow → Option StopCheckpointEvent → List StopCheckpointEvent → L → Option Text × L
  unfolding last_seq frozen_pause frozen_id
  freeze_at cp none events l = (none, l)
  freeze_at cp (some pause) events l =
      let logged = logger.log (frozen_pause cp pause) l in
      let frozen = frozen_id cp logged.0 in
      if leb (last_seq events 0) cp.seq then (none, l) else (
        some frozen,
        logger.delete_checkpoint cp.id
            (logger.save_checkpoint frozen cp.run_id logged.0 cp.resume_positions logged.1),
      )

  freeze_row : Option CheckpointRow → L → Option Text × L
  unfolding freeze_at find_pause
  freeze_row none l = (none, l)
  freeze_row (some cp) l =
      let events = logger.get_events cp.run_id l in freeze_at cp (find_pause cp.seq events) events l

  unfoldable pub freeze_stopped_checkpoint : Option Text → L → Option Text × L
  unfolding freeze_row
  freeze_stopped_checkpoint none l = (none, l)
  freeze_stopped_checkpoint (some id) l =
      if text_eq id [] then (none, l) else freeze_row (logger.get_checkpoint id l) l

  freeze_at-kept :
      (cp : CheckpointRow) (p : Option StopCheckpointEvent) (events : List StopCheckpointEvent)
      (l : L)
      → (freeze_at cp p events l).0 ≡ none
      → (freeze_at cp p events l).1 ≡ l
  unfolding freeze_at
  freeze_at-kept cp none events l h = refl
  freeze_at-kept cp (some pause) events l h = elim (Bool-cases (leb (last_seq events 0) cp.seq)) [
    | inl e ↦ rw e refl
    | inr e ↦ ground arith
  ]

  freeze_row-kept :
      (row : Option CheckpointRow) (l : L) → (freeze_row row l).0 ≡ none → (freeze_row row l).1 ≡ l
  unfolding freeze_row
  freeze_row-kept none l h = refl
  freeze_row-kept (some cp) l h =
      let events = logger.get_events cp.run_id l in
      freeze_at-kept cp (find_pause cp.seq events) events l h

  either_kept :
      (b : Bool) (l : L) (y : Option Text × L)
      → (y.0 ≡ none → y.1 ≡ l)
      → (if b then (none, l) else y).0 ≡ none
      → (if b then (none, l) else y).1 ≡ l
  either_kept true l y k h = refl
  either_kept false l y k h = k h

  -- Where no checkpoint is frozen, whatever the reason, nothing is logged, saved or deleted: the old
  -- checkpoint stays.
  pub freeze_stopped_checkpoint_kept :
      (id : Option Text) (l : L)
      → (freeze_stopped_checkpoint id l).0 ≡ none
      → (freeze_stopped_checkpoint id l).1 ≡ l
  unfolding freeze_stopped_checkpoint
  freeze_stopped_checkpoint_kept none l h = refl
  freeze_stopped_checkpoint_kept (some id) l h =
      either_kept (text_eq id []) l (freeze_row (logger.get_checkpoint id l) l)
        (freeze_row-kept (logger.get_checkpoint id l) l) h
