-- ===== src/Agent/Retention/Kept.antt =====
-- Which runs the trim may delete.
use grandpa_bob.Base.{
  ℕ, zero, suc, ◌+◌, ◌≤◌, ◌<◌, ◌≡◌, refl, ◌∙◌, ap, true, false, not, List, [], ◌∷◌, ◌++◌, map,
  arith, length, take, drop, ltb, Bool-cases, ◌⊎◌, inl, inr, length-append, take-append-drop,
  length-drop,
}
use grandpa_bob.Base.Text.{Text, text_eq, text_eq_iff, includes, includes-append, includes-filter}
use grandpa_bob.Agent.Retention.{
  RunLogPolicy, RunRow, Keeping, keeps, keep_run, keep_all, trim_runs, chunks_from, chunks,
}

module _ (policy : RunLogPolicy) (pending : List Text) where
  keep_run-includes :
      (row : RunRow) (k : Keeping) (id : Text)
      → includes k.keep id ≡ true
      → includes (keep_run policy pending row k).keep id ≡ true
  unfolding keep_run
  keep_run-includes row k id h = elim (Bool-cases (keeps policy pending row k)) [
    | inl e ↦ rw e (rw (includes-append, h) refl)
    | inr e ↦ rw e h
  ]

  keep_all-includes :
      (rows : List RunRow) (k : Keeping) (id : Text)
      → includes k.keep id ≡ true
      → includes (keep_all policy pending rows k).keep id ≡ true
  unfolding keep_all
  keep_all-includes [] k id h = h
  keep_all-includes (row ∷ rows) k id h =
      keep_all-includes rows (keep_run policy pending row k) id (keep_run-includes row k id h)

  kept_now :
      (row : RunRow) (k : Keeping) (id : Text)
      → keeps policy pending row k ≡ true
      → text_eq row.run_id id ≡ true
      → includes (keep_run policy pending row k).keep id ≡ true
  unfolding keep_run
  kept_now row k id e same = rw e (rw (includes-append, same) (ground arith))

  -- A run that would be kept at its turn, whatever was kept before it, is kept.
  forced_kept :
      (rows : List RunRow) (k : Keeping) (id : Text)
      → ((row : RunRow) (k' : Keeping)
          → text_eq row.run_id id ≡ true
          → keeps policy pending row k' ≡ true)
      → includes (map (λ (r : RunRow). r.run_id) rows) id ≡ true
      → includes (keep_all policy pending rows k).keep id ≡ true
  unfolding keep_all
  forced_kept [] k id forced h = ground arith
  forced_kept (row ∷ rows) k id forced h = elim (Bool-cases (text_eq row.run_id id)) [
    | inl e ↦
        keep_all-includes rows (keep_run policy pending row k) id
          (kept_now row k id (forced row k e) e)
    | inr e ↦ forced_kept rows (keep_run policy pending row k) id forced (ground arith)
  ]

  pending_keeps :
      (id : Text)
      → includes pending id ≡ true
      → (row : RunRow) (k : Keeping) → text_eq row.run_id id ≡ true
      → keeps policy pending row k ≡ true
  unfolding keeps
  pending_keeps id p row k e =
      let same : row.run_id ≡ id = ground (arith, text_eq_iff row.run_id id) in
      rw (same, p) (ground arith)

  room_keeps :
      (row : RunRow) (k : Keeping)
      → length k.keep < policy.keep_runs
      → keeps policy pending row k ≡ true
  unfolding keeps
  room_keeps row k h =
      let e : ltb (length k.keep) policy.keep_runs ≡ true = ground arith in rw e refl

  newest_kept :
      (n : ℕ) (rows : List RunRow) (k : Keeping) (id : Text)
      → length k.keep + n ≤ policy.keep_runs
      → includes (map (λ (r : RunRow). r.run_id) (take n rows)) id ≡ true
      → includes (keep_all policy pending rows k).keep id ≡ true
  unfolding keep_all keep_run
  newest_kept zero rows k id room h = ground arith
  newest_kept (suc n) [] k id room h = ground arith
  newest_kept (suc n) (row ∷ rows) k id room h =
      let now : keeps policy pending row k ≡ true = room_keeps row k (omega arith) in
      let k' : Keeping = record {
        keep = k.keep ++ row.run_id ∷ [];
        kept_bytes = k.kept_bytes + row.bytes;
      } in
      let room' : length k'.keep + n ≤ policy.keep_runs =
        omega (arith, length-append k.keep (row.run_id ∷ [])) in
      let step : keep_run policy pending row k ≡ k' = rw now refl in
      ap (λ q. includes (keep_all policy pending rows q).keep id) step
      ∙ (elim (Bool-cases (text_eq row.run_id id)) [
        | inl e ↦ keep_all-includes rows k' id (rw (includes-append, e) (ground arith))
        | inr e ↦ newest_kept n rows k' id room' (ground arith)
      ])

  not_trimmed :
      (runs : List RunRow) (id : Text)
      → (includes (map (λ (r : RunRow). r.run_id) runs) id ≡ true
          → includes (keep_all policy pending runs (record { keep = []; kept_bytes = 0 })).keep id
            ≡ true)
      → includes (trim_runs policy pending runs) id ≡ false
  unfolding trim_runs
  not_trimmed runs id kept =
      includes-filter
        (λ i.
          not
            (includes (keep_all policy pending runs (record { keep = []; kept_bytes = 0 })).keep i))
        (map (λ (r : RunRow). r.run_id) runs) id
      ∙ (elim (Bool-cases (includes (map (λ (r : RunRow). r.run_id) runs) id)) [
        | inl e ↦ rw (e, kept e) refl
        | inr e ↦ rw e refl
      ])

  -- Whatever the sizes: a run with a pending checkpoint is never trimmed, and of the runs, the newest
  -- first, none of the first `keep_runs` is.
  pub trim_runs_keeps :
      (runs : List RunRow) (id : Text)
      → (includes pending id ≡ true)
        ⊎ (includes (map (λ (r : RunRow). r.run_id) (take policy.keep_runs runs)) id ≡ true)
      → includes (trim_runs policy pending runs) id ≡ false
  trim_runs_keeps runs id (inl p) =
      not_trimmed runs id
        (forced_kept runs (record { keep = []; kept_bytes = 0 }) id (pending_keeps id p))
  trim_runs_keeps runs id (inr n) = not_trimmed runs id (λ _.
      newest_kept policy.keep_runs runs (record { keep = []; kept_bytes = 0 }) id (omega arith) n)

pub concat : {A : Type 0} → List (List A) → List A
concat [] = []
concat (b ∷ bs) = b ++ concat bs

chunks_from-concat :
    {A : Type 0} (fuel size : ℕ) (items : List A)
    → length items ≤ fuel
    → concat (chunks_from fuel (suc size) items) ≡ items
unfolding chunks_from concat
chunks_from-concat zero size [] h = refl
chunks_from-concat zero size (x ∷ xs) h = absurd (omega arith)
chunks_from-concat (suc fuel) size [] h = refl
chunks_from-concat (suc fuel) size (x ∷ xs) h =
    ap (λ r. x ∷ take size xs ++ r)
      (chunks_from-concat fuel size (drop size xs) (omega (arith, length-drop size xs)))
    ∙ ap (λ r. x ∷ r) (take-append-drop size xs)

-- Batches of one item or more, put together, are the items in their order: no run id is left out or
-- deleted twice.
pub concat-chunks :
    {A : Type 0} (size : ℕ) (items : List A) → concat (chunks items (suc size)) ≡ items
unfolding chunks
concat-chunks size items = chunks_from-concat (length items) size items (omega arith)
