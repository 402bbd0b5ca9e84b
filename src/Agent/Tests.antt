-- ===== src/Agent/Tests.antt =====
-- Runs of the agent host's model, and each of its theorems at a concrete input.
use grandpa_bob.Base.{
  List, inl, ℕ, zero, suc, ◌≡◌, ◌≤◌, ◌<◌, ◌+◌, ◌*◌, refl, true, false, none, some, [], ◌∷◌, arith,
  Bool,
}
use grandpa_bob.Base.Text.{Text, text, text_eq, includes, starts_with, at_some_tail}
use grandpa_bob.Base.JsMap
use grandpa_bob.Agent.Watchdog.{Runs, check}
use grandpa_bob.Agent.Watchdog.Report.{leave, overdue, active, check-check}
use grandpa_bob.Agent.Retention.{RunLogPolicy, RunRow, trim_runs}
use grandpa_bob.Agent.Retention.Kept.{trim_runs_keeps}
use grandpa_bob.Agent.Checkpoint.{StoppedCheckpointLogger}
use grandpa_bob.Agent.Scope.{AppLink, ScopedTree, tree, nil}
use grandpa_bob.Base.Json
use grandpa_bob.Base.Json.{Fields, num, str, field, end}
use grandpa_bob.Base.Js.{Js}
use grandpa_bob.Agent.Retention.Tiers.{
  compacted, dropped, tier_runs, read_web_sessions, MarkerRow, marker_ts, run_log_tiers, day_ms,
}
use grandpa_bob.Agent.Retention.Tiers.Hot.{spares, is_tombstone_row}
use grandpa_bob.Agent.Retention.Tiers.Kept.{is_recent}
use grandpa_bob.Agent.Retention.Tiers.Spared.{takes, tier_runs-read_web_sessions}
use grandpa_bob.Agent.Retry.{
  ModelError, Thrown, failure, Attempt, returned, failed, value, retry_model_call,
  is_retryable_model_error, is_stop, mentions, lower_unit, retryable_status, embedded_status,
  embedded_here, after_word, three_digits, is_word_unit,
}
use grandpa_bob.Agent.Retry.Attempts.{delays, retry_model_call-calls, retry_model_call-returned}

abbrev two_runs : Runs
two_runs =
    (text "a", record { key = text "a"; turn_id = text "t1"; last_activity_at = 10 })
    ∷ (text "b", record { key = text "b"; turn_id = text "t2"; last_activity_at = 90 })
    ∷ []

check-check_example :
    (check leave 50 100 two_runs ≡ (overdue 50 100 two_runs, active 50 100 two_runs))
    × ((check leave 50 100 (check leave 50 100 two_runs).1).0 ≡ [])
unfolding JsMap.get text_eq
check-check_example = check-check 50 100 two_runs (refl, (refl, tt))

abbrev overloaded : ModelError
overloaded = record {
  stopped = false;
  name = [];
  code = [];
  status = some 529;
  message = text "shed";
}

-- The first call fails, and the second returns.
abbrev second_works : ℕ → Attempt ℕ
second_works zero = failed (failure overloaded)
second_works (suc i) = returned 7

abbrev never : ℕ → Bool
never i = false

status_in_message : embedded_status true (text "xHTTP 404, HTTP 503") ≡ some 503
unfolding embedded_status embedded_here after_word three_digits is_word_unit starts_with
status_in_message = refl

retry_model_call-calls_example : (retry_model_call second_works never never 750 (some 3)).calls ≤ 3
retry_model_call-calls_example = retry_model_call-calls second_works never never 750 (some 3)

overloaded_is_retryable : is_retryable_model_error (failure overloaded) ≡ true
unfolding is_retryable_model_error is_stop mentions lower_unit retryable_status text_eq starts_with
    at_some_tail
overloaded_is_retryable = refl

retry_model_call-returned_example :
    retry_model_call second_works never never 750 none
    ≡ record { outcome = value 7; calls = 1 + 1; sleeps = delays 750 1 0 }
retry_model_call-returned_example =
    retry_model_call-returned second_works never never 750 (λ j. (refl, refl)) none 1 7
      (omega arith) first_fails refl
  where
    first_fails :
        (j : ℕ)
        → j < 1
        → (e : Thrown) × (second_works j ≡ failed e) × (is_retryable_model_error e ≡ true)
    first_fails zero h = (failure overloaded, refl, overloaded_is_retryable)
    first_fails (suc j) h = absurd (omega arith)

-- Room for one run of the three, and the oldest one is paused.
abbrev tight : RunLogPolicy
tight = record { max_bytes = 10; keep_runs = 1; keep_sessions = 1 }

abbrev three_runs : List RunRow
three_runs =
    record { run_id = text "c"; bytes = 20 }
    ∷ record { run_id = text "b"; bytes = 20 }
    ∷ record { run_id = text "a"; bytes = 20 }
    ∷ []

trim_runs_keeps_example : includes (trim_runs tight (text "a" ∷ []) three_runs) (text "a") ≡ false
unfolding text_eq
trim_runs_keeps_example = trim_runs_keeps tight (text "a" ∷ []) three_runs (text "a") (inl refl)

abbrev three_numbers : List ℕ
three_numbers = 1 ∷ 2 ∷ 3 ∷ []

-- A store that counts its rows and has no checkpoint.
abbrev counting : StoppedCheckpointLogger ℕ
counting = record {
  get_checkpoint = λ id n. none;
  get_events = λ id n. [];
  log = λ ev n. (n, n + 1);
  save_checkpoint = λ id run seq positions n. n;
  delete_checkpoint = λ id n. n;
}

abbrev print_seq : ℕ → Text
print_seq n = (48 + n) ∷ []

abbrev two_apps : List AppLink
two_apps =
    record { name = text "mail"; parent = none }
    ∷ record { name = text "mail-rules"; parent = some (text "mail") }
    ∷ []

abbrev trunk : ScopedTree
trunk =
    tree (some (text "trunk"))
      (some (
        record {
          unconditional = true;
          value = some (text "mail" ∷ text "mail-rules" ∷ []);
          position = none;
        }
        ∷ []))
      nil

abbrev plain : Js
plain = record {
  to_lower = λ s. s;
  to_upper = λ s. s;
  parse_date = λ s. none;
  locale_after = λ a b. false;
  other_text = λ v. [];
  other_count = λ v. none;
  other_stamp = λ v. none;
}

-- The end of a turn on day 100, after another session's tombstone.
abbrev markers : List MarkerRow
markers =
    record { run_id = text "s2"; kind = text "web_session_delete"; content = none }
    ∷ record {
      run_id = text "s1";
      kind = text "web_turn_end";
      content =
          some
            (field (text "runId") (str (text "r7")) (field (text "ts") (num (100 * day_ms)) end));
    }
    ∷ []

tier_runs-read_web_sessions_example :
    (includes
        (tier_runs compacted run_log_tiers (110 * day_ms) (read_web_sessions plain markers []))
        (text "s1")
      ≡ false)
    × (includes
          (tier_runs dropped run_log_tiers (110 * day_ms) (read_web_sessions plain markers []))
          (text "s1")
        ≡ false)
unfolding is_recent spares is_tombstone_row takes marker_ts text_eq Json.member Json.string_member
tier_runs-read_web_sessions_example =
    tier_runs-read_web_sessions plain (100 * day_ms) run_log_tiers (110 * day_ms) [] (text "s1")
      markers (omega arith) (omega arith) (omega arith) refl refl refl
