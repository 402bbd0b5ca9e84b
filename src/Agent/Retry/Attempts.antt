-- ===== src/Agent/Retry/Attempts.antt =====
-- How often a model call is made, and what its last attempt gives.
use Prim.Native.Nat.{◌^◌}
use grandpa_bob.Base.{
  ℕ, zero, suc, ◌+◌, ◌*◌, ◌≤◌, ◌<◌, ◌≡◌, refl, sym, ◌∙◌, ap, Bool, true, false, Option, none, some,
  List, [], ◌∷◌, arith, max, Bool-cases, inl, inr, get_or,
}
use grandpa_bob.Agent.Retry.{
  Thrown, Attempt, returned, failed, value, Run, retries, is_retryable_model_error, on_failure,
  after_call, attempt, retry_from, retry_model_call,
}

-- The delays of `k` retries from attempt `i` on.
unfoldable pub delays : ℕ → ℕ → ℕ → List ℕ
delays base zero i = []
delays base (suc k) i = base * 2 ^ i ∷ delays base k (i + 1)

module _ {T : Type 0} (call : ℕ → Attempt T) (before after : ℕ → Bool) (base : ℕ) where
  on_failure-calls :
      (i left : ℕ) (e : Thrown) (again : Run T)
      → again.calls ≤ left
      → (on_failure call before after base i e (some again)).calls ≤ left + 1
  unfolding on_failure
  on_failure-calls i left e again h = elim (Bool-cases (after i)) [
    | inl a ↦ rw a (omega arith)
    | inr a ↦ elim (Bool-cases (is_retryable_model_error e)) [
      | inl r ↦ rw (a, r) (omega arith)
      | inr r ↦ rw (a, r) (omega arith)
    ]
  ]

  last_failure-calls : (i : ℕ) (e : Thrown) → (on_failure call before after base i e none).calls ≤ 1
  unfolding on_failure
  last_failure-calls i e = elim (Bool-cases (after i)) [
    | inl a ↦ rw a (omega arith)
    | inr a ↦ rw a (omega arith)
  ]

  attempt-calls :
      (i n : ℕ) (again : Option (Run T))
      → 1 ≤ n
      → ((e : Thrown) → (on_failure call before after base i e again).calls ≤ n)
      → (attempt call before after base i again).calls ≤ n
  unfolding attempt after_call
  attempt-calls i n again pos h = elim (Bool-cases (before i)) [
    | inl b ↦ rw b (omega arith)
    | inr b ↦ rw b (by_call (call i))
  ]
    where
      by_call : (a : Attempt T) → (after_call call before after base i again a).calls ≤ n
      by_call (returned v) = pos
      by_call (failed e) = h e

  retry_from-calls : (left i : ℕ) → (retry_from call before after base left i).calls ≤ left + 1
  unfolding retry_from
  retry_from-calls zero i = attempt-calls i 1 none (omega arith) (last_failure-calls i)
  retry_from-calls (suc left) i =
      let again = retry_from call before after base left (i + 1) in
      attempt-calls i (suc left + 1) (some again) (omega arith)
        (λ e. omega (arith, on_failure-calls i (left + 1) e again (retry_from-calls left (i + 1))))

  -- However the calls end and whenever the turn is stopped, the model is called at most as often as
  -- the option says, at most twice without it, and at most once where the option is 0.
  pub retry_model_call-calls :
      (attempts : Option ℕ)
      → (retry_model_call call before after base attempts).calls ≤ max 1 (get_or attempts 2)
  unfolding retry_model_call
  retry_model_call-calls attempts = omega (arith, retry_from-calls (retries attempts) 0)

  module _ (runs_on : (j : ℕ) → (before j ≡ false) × (after j ≡ false)) where
    attempt-again :
        (i : ℕ) (e : Thrown) (again : Run T)
        → call i ≡ failed e
        → is_retryable_model_error e ≡ true
        → attempt call before after base i (some again)
          ≡ record again { calls = again.calls + 1; sleeps = base * 2 ^ i ∷ again.sleeps }
    unfolding attempt after_call on_failure
    attempt-again i e again c r = rw ((runs_on i).0, c) (rw ((runs_on i).1, r) refl)

    attempt-returned :
        (i : ℕ) (v : T) (again : Option (Run T))
        → call i ≡ returned v
        → attempt call before after base i again
          ≡ record { outcome = value v; calls = 1; sleeps = [] }
    unfolding attempt after_call
    attempt-returned i v again c = rw ((runs_on i).0, c) refl

    retry_from-returned :
        (left k i : ℕ) (v : T)
        → k ≤ left
        → ((j : ℕ)
            → i ≤ j
            → j < i + k
            → (e : Thrown) × (call j ≡ failed e) × (is_retryable_model_error e ≡ true))
        → call (i + k) ≡ returned v
        → retry_from call before after base left i
          ≡ record { outcome = value v; calls = k + 1; sleeps = delays base k i }
    unfolding retry_from delays
    retry_from-returned zero zero i v k≤ fails c =
        let here : i + 0 ≡ i = omega arith in attempt-returned i v none (ap call (sym here) ∙ c)
    retry_from-returned zero (suc k) i v k≤ fails c = absurd (omega arith)
    retry_from-returned (suc left) zero i v k≤ fails c =
        let here : i + 0 ≡ i = omega arith in
        attempt-returned i v (some (retry_from call before after base left (i + 1)))
          (ap call (sym here) ∙ c)
    retry_from-returned (suc left) (suc k) i v k≤ fails c =
        let first = fails i (omega arith) (omega arith) in
        let there : i + 1 + k ≡ i + suc k = omega arith in
        let rest =
          retry_from-returned left k (i + 1) v (omega arith)
            (λ j lo hi. fails j (omega arith) (omega arith)) (ap call there ∙ c) in
        let run_of : ℕ → Run T = λ n. record {
          outcome = value v;
          calls = n;
          sleeps = base * 2 ^ i ∷ delays base k (i + 1);
        } in
        let again_of : Run T → Run T =
          λ r. record r { calls = r.calls + 1; sleeps = base * 2 ^ i ∷ r.sleeps } in
        let one_more : k + 1 + 1 ≡ suc k + 1 = omega arith in
        attempt-again i first.0 (retry_from call before after base left (i + 1)) first.1 first.2
        ∙ ap again_of rest
        ∙ ap run_of one_more

    -- For a turn that is not stopped: where the calls before the `k`-th one, counted from 0, fail
    -- with retryable errors, that one returns, and `k` retries are allowed, its value is the result,
    -- after `k + 1` calls and delays that double from the first one.
    pub retry_model_call-returned :
        (attempts : Option ℕ) (k : ℕ) (v : T)
        → k ≤ retries attempts
        → ((j : ℕ)
            → j < k
            → (e : Thrown) × (call j ≡ failed e) × (is_retryable_model_error e ≡ true))
        → call k ≡ returned v
        → retry_model_call call before after base attempts
          ≡ record { outcome = value v; calls = k + 1; sleeps = delays base k 0 }
    unfolding retry_model_call
    retry_model_call-returned attempts k v k≤ fails c =
        let here : k ≡ 0 + k = omega arith in
        retry_from-returned (retries attempts) k 0 v k≤ (λ j lo hi. fails j (omega arith))
          (ap call (sym here) ∙ c)
