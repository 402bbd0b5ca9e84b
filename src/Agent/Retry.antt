-- ===== src/Agent/Retry.antt =====
-- web/src/agent/model-retry.ts: which failures of a model call are worth another attempt, and the
-- loop that makes it. A status is a positive integer; a regular expression without repetition is a
-- search for its words, with letters compared in lower case where it has the flag `i`.
pub mod Attempts
use Prim.Native.Nat.{◌^◌}
use grandpa_bob.Base.{
  ℕ, zero, suc, ◌+◌, ◌-◌, ◌*◌, Bool, true, false, not, ◌&&◌, ◌||◌, Option, none, some, List, [],
  ◌∷◌, map, max, leb, ltb, ◌==◌, if◌then◌else◌, any, get_or, drop, length, is_some,
}
use grandpa_bob.Base.Text.{Text, text, text_eq, starts_with, at_some_tail}

-- What a call throws: the fields that the code reads of an object, or some other value.
pub record ModelError : Type 0 where
  pub stopped : Bool
  pub name : Text
  pub code : Text
  pub status : Option ℕ
  pub message : Text

pub data Thrown : Type 0 where
  other : Thrown
  failure : ModelError → Thrown

unfoldable pub retryable_status : ℕ → Bool
retryable_status s = s == 408 || s == 409 || s == 425 || s == 429 || leb 500 s && leb s 599

unfoldable pub is_stop : ModelError → Bool
is_stop e =
    e.stopped
    || text_eq e.name (text "AbortError")
    || text_eq e.name (text "AgentStoppedError")
    || text_eq e.code (text "ABORT_ERR")

unfoldable pub lower_unit : ℕ → ℕ
lower_unit c = if leb 65 c && leb c 90 then c + 32 else c

unfoldable pub mentions : List Text → Text → Bool
unfolding lower_unit
mentions words s = any (λ w. at_some_tail (starts_with w) (map lower_unit s)) words

abbrev pub quota_words : List Text
quota_words =
    text "quota"
    ∷ text "billing"
    ∷ text "insufficient credit"
    ∷ text "insufficient funds"
    ∷ text "out of credit"
    ∷ text "credit balance"
    ∷ []

abbrev pub network_words : List Text
network_words =
    text "timed out"
    ∷ text "stalled"
    ∷ text "fetch failed"
    ∷ text "failed to fetch"
    ∷ text "networkerror"
    ∷ text "load failed"
    ∷ text "econnreset"
    ∷ text "econnrefused"
    ∷ text "ehostunreach"
    ∷ text "etimedout"
    ∷ text "eai_again"
    ∷ text "enotfound"
    ∷ text "socket hang up"
    ∷ text "other side closed"
    ∷ text "und_err"
    ∷ text "truncated body"
    ∷ text "content-length"
    ∷ []

abbrev is_digit : ℕ → Bool
is_digit c = leb 48 c && leb c 57

-- `\w`
unfoldable pub is_word_unit : ℕ → Bool
is_word_unit c = leb 48 c && leb c 57 || leb 65 c && leb c 90 || leb 97 c && leb c 122 || c == 95

abbrev ends_word : Text → Bool
ends_word [] = true
ends_word (c ∷ s) = not (is_word_unit c)

-- `\d{3}` at the front, and what must follow it.
unfoldable pub three_digits : (Text → Bool) → Text → Option ℕ
three_digits follows (a ∷ b ∷ c ∷ s) =
    if is_digit a && is_digit b && is_digit c && follows s
    then some ((a - 48) * 100 + (b - 48) * 10 + (c - 48))
    else none
three_digits follows _ = none

abbrev closes : Text → Bool
closes [] = false
closes (c ∷ s) = c == 41

unfoldable pub after_word : Text → (Text → Bool) → Text → Option ℕ
unfolding three_digits is_word_unit
after_word word follows s =
    if starts_with word s then three_digits follows (drop (length word) s) else none

-- One place of the search: `fresh` says that the unit before it is not part of a word.
unfoldable pub embedded_here : Bool → Text → Option ℕ
unfolding after_word is_word_unit
embedded_here fresh s =
    let llm = after_word (text "LLM request failed (") closes s in
    let ollama = after_word (text "Ollama request failed (") closes s in
    if is_some llm
    then llm
    else if is_some ollama
    then ollama
    else if fresh
    then after_word (text "HTTP ") ends_word s
    else none

unfoldable pub embedded_status : Bool → Text → Option ℕ
unfolding embedded_here is_word_unit
embedded_status fresh [] = none
embedded_status fresh (c ∷ s) =
    let later = embedded_status (not (is_word_unit c)) s in
    let here = embedded_here fresh (c ∷ s) in if is_some here then here else later

unfoldable pub is_retryable_message : Option ℕ → Text → Bool
unfolding mentions retryable_status
is_retryable_message (some s) message = retryable_status s
is_retryable_message none message = mentions network_words message

-- From the code on, where no status is given.
unfoldable pub is_retryable_kind : ModelError → Bool
unfolding is_retryable_message embedded_status
is_retryable_kind e =
    if text_eq e.code (text "llm_timeout") || text_eq e.code (text "llm_bad_body")
    then true
    else if text_eq e.name (text "LlmTimeoutError")
        || text_eq e.name (text "LlmBodyError")
        || text_eq e.name (text "TimeoutError")
    then true
    else if text_eq e.name (text "TypeError")
    then true
    else is_retryable_message (embedded_status true e.message) e.message

unfoldable pub is_retryable_model_error : Thrown → Bool
unfolding is_stop mentions retryable_status is_retryable_kind
is_retryable_model_error other = false
is_retryable_model_error (failure e) =
    if is_stop e
    then false
    else if mentions quota_words e.message
    then false
    else elim e.status [ some s ↦ retryable_status s | none ↦ is_retryable_kind e ]

pub data Attempt (T : Type 0) : Type 0 where
  returned : T → Attempt T
  failed : Thrown → Attempt T

pub data Outcome (T : Type 0) : Type 0 where
  value : T → Outcome T
  thrown : Thrown → Outcome T
  agent_stopped : Outcome T

pub record Run (T : Type 0) : Type 0 where
  pub outcome : Outcome T
  pub calls : ℕ
  pub sleeps : List ℕ

-- The retries that the options allow, and the first delay.
abbrev pub retries : Option ℕ → ℕ
retries attempts = max 1 (get_or attempts 2) - 1

-- `call i` is what the call of attempt `i` does, counted from 0; `before i` and `after i` say whether
-- the turn has been stopped when attempt `i` starts and when its call has failed.
module _ {T : Type 0} (call : ℕ → Attempt T) (before after : ℕ → Bool) (base : ℕ) where
  abbrev pub stopped_run : ℕ → Run T
  stopped_run calls = record { outcome = agent_stopped; calls = calls; sleeps = [] }

  abbrev pub thrown_run : Thrown → Run T
  thrown_run e = record { outcome = thrown e; calls = 1; sleeps = [] }

  -- After a failed call, where `again` is the run that follows the delay, if one is left.
  unfoldable pub on_failure : ℕ → Thrown → Option (Run T) → Run T
  on_failure i e none = if after i then stopped_run 1 else thrown_run e
  on_failure i e (some again) =
      if after i
      then stopped_run 1
      else if is_retryable_model_error e
      then record again { calls = again.calls + 1; sleeps = base * 2 ^ i ∷ again.sleeps }
      else thrown_run e

  unfoldable pub after_call : ℕ → Option (Run T) → Attempt T → Run T
  unfolding on_failure
  after_call i again (returned v) = record { outcome = value v; calls = 1; sleeps = [] }
  after_call i again (failed e) = on_failure i e again

  unfoldable pub attempt : ℕ → Option (Run T) → Run T
  unfolding after_call
  attempt i again = if before i then stopped_run 0 else after_call i again (call i)

  unfoldable pub retry_from : ℕ → ℕ → Run T
  unfolding attempt
  retry_from zero i = attempt i none
  retry_from (suc left) i = attempt i (some (retry_from left (i + 1)))

  unfoldable pub retry_model_call : Option ℕ → Run T
  unfolding retry_from
  retry_model_call attempts = retry_from (retries attempts) 0
