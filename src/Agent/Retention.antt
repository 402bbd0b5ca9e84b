-- ===== src/Agent/Retention.antt =====
-- web/src/agent/runlog-retention.ts: the trim of the run log by size. The database is an interface:
-- the module's SQL statements, each with what it returns.
pub mod Kept
pub mod Tiers
use grandpa_bob.Base.{
  ℕ, zero, suc, ◌+◌, ◌-◌, ◌*◌, Bool, true, false, not, ◌&&◌, ◌||◌, Option, none, some, List, [],
  ◌∷◌, ◌++◌, map, filter, length, take, drop, ltb, leb, ◌==◌, if◌then◌else◌,
}
use grandpa_bob.Base.Text.{Text, text_eq, includes}

pub record RunLogPolicy : Type 0 where
  pub max_bytes : ℕ
  pub keep_runs : ℕ
  pub keep_sessions : ℕ

abbrev pub run_log_policy : RunLogPolicy
run_log_policy = record { max_bytes = 64 * 1024 * 1024; keep_runs = 10; keep_sessions = 20 }

pub record RunLogTrim : Type 0 where
  pub before_bytes : ℕ
  pub after_bytes : ℕ
  pub runs : ℕ
  pub sessions : ℕ
  pub rows : ℕ

pub record RunRow : Type 0 where
  pub run_id : Text
  pub bytes : ℕ

-- The runs that are kept, with what they weigh.
pub record Keeping : Type 0 where
  pub keep : List Text
  pub kept_bytes : ℕ

abbrev pub chunk_size : ℕ
chunk_size = 100

-- `chunks`, on fuel for the number of batches.
unfoldable pub chunks_from {ℓ} : {A : Type ℓ} → ℕ → ℕ → List A → List (List A)
chunks_from zero size items = []
chunks_from (suc fuel) size [] = []
chunks_from (suc fuel) size (x ∷ xs) =
    take size (x ∷ xs) ∷ chunks_from fuel size (drop size (x ∷ xs))

unfoldable pub chunks {ℓ} : {A : Type ℓ} → List A → ℕ → List (List A)
unfolding chunks_from
chunks items size = chunks_from (length items) size items

module _ (policy : RunLogPolicy) (pending : List Text) where
  unfoldable pub keeps : RunRow → Keeping → Bool
  keeps row k =
      ltb (length k.keep) policy.keep_runs
      || includes pending row.run_id
      || leb (k.kept_bytes + row.bytes) policy.max_bytes

  unfoldable pub keep_run : RunRow → Keeping → Keeping
  unfolding keeps
  keep_run row k =
      if keeps row k
      then record { keep = k.keep ++ row.run_id ∷ []; kept_bytes = k.kept_bytes + row.bytes }
      else k

  -- The loop over the runs, the newest first.
  unfoldable pub keep_all : List RunRow → Keeping → Keeping
  unfolding keep_run
  keep_all [] k = k
  keep_all (row ∷ rows) k = keep_all rows (keep_run row k)

  unfoldable pub trim_runs : List RunRow → List Text
  unfolding keep_all
  trim_runs runs =
      let kept = keep_all runs (record { keep = []; kept_bytes = 0 }) in
      filter (λ id. not (includes kept.keep id)) (map (λ r. r.run_id) runs)

-- The statements on a database `D`: the sizes, the lists, one batch of a delete (of marker rows only,
-- or of all), and the compaction.
pub record RunLogDb (D : Type 0) : Type 0 where
  pub run_log_bytes : D → ℕ
  pub checkpoint_runs : D → List Text
  pub engine_runs : D → List RunRow
  pub session_runs : D → List Text
  pub delete_batch : Bool → List Text → D → ℕ × D
  pub compact : D → D

module _ {D : Type 0} (db : RunLogDb D) where
  unfoldable pub delete_batches : Bool → List (List Text) → D → ℕ × D
  delete_batches marker_only [] d = (0, d)
  delete_batches marker_only (b ∷ bs) d =
      let first = db.delete_batch marker_only b d in
      let rest = delete_batches marker_only bs first.1 in (first.0 + rest.0, rest.1)

  unfoldable pub delete_runs : List Text → Bool → D → ℕ × D
  unfolding delete_batches chunks
  delete_runs run_ids marker_only d = delete_batches marker_only (chunks run_ids chunk_size) d

  -- The fallback on the sessions: how many are deleted, the rows, and the database.
  unfoldable pub trim_sessions : RunLogPolicy → ℕ → ℕ → D → ℕ × ℕ × D
  unfolding delete_runs
  trim_sessions policy after_bytes rows d =
      let old = drop policy.keep_sessions (db.session_runs d) in
      let deleted = delete_runs old true d in
      if ltb policy.max_bytes after_bytes && ltb 0 (length old)
      then (length old, rows + deleted.0, db.compact deleted.1)
      else (0, rows, d)

  unfoldable pub trim_run_log : RunLogPolicy → D → Option RunLogTrim × D
  unfolding trim_runs trim_sessions delete_runs
  trim_run_log policy d =
      let before_bytes = db.run_log_bytes d in
      let old = trim_runs policy (db.checkpoint_runs d) (db.engine_runs d) in
      let deleted = delete_runs old false d in
      let d1 = if ltb 0 deleted.0 then db.compact deleted.1 else deleted.1 in
      let bytes1 = if ltb 0 deleted.0 then db.run_log_bytes d1 else before_bytes in
      let last = trim_sessions policy bytes1 deleted.0 d1 in
      let bytes2 = if ltb 0 last.0 then db.run_log_bytes last.2 else bytes1 in
      if before_bytes == 0 || leb before_bytes policy.max_bytes
      then (none, d)
      else if last.1 == 0
      then (none, last.2)
      else (
        some (record {
          before_bytes = before_bytes;
          after_bytes = bytes2;
          runs = length old;
          sessions = last.0;
          rows = last.1;
        }),
        last.2,
      )
