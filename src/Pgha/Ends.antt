-- ===== src/Pgha/Ends.antt =====
-- The loop of Retry (pkg/pgha/retry.go): that it ends, and what its result says.
use neo_bank.Prelude.{
  ℕ, zero, suc, ◌+◌, ◌-◌, ◌*◌, ◌≤◌, ◌<◌, ◌≡◌, refl, ◌⊎◌, inl, inr, Bool, true, false, Option, none,
  some, arith, ltb, leb, if◌then◌else◌,
}
use neo_bank.Pgha.Errors.{GoError}
use neo_bank.Pgha.Retry.{
  retry_budget, Attempt, RetryResult, succeeded, interrupted, refused, gave_up, is_retryable,
  after_error, after_attempt, next_delay, retry_from, retry,
}

module _ (attempts : ℕ → Attempt) where
  -- The attempt that a result comes from.
  abbrev pub Explains : RetryResult → Type 0
  Explains succeeded = (k : ℕ) × ((attempts k).error ≡ none)
  Explains interrupted =
      (k : ℕ) × (((attempts k).caller_done ≡ true) ⊎ ((attempts k).done_waiting ≡ true))
  Explains (refused e) =
      (k : ℕ) × ((attempts k).error ≡ some e) × (is_retryable (attempts k) e ≡ false)
  Explains (gave_up e) =
      (k : ℕ) × ((attempts k).error ≡ some e) × (is_retryable (attempts k) e ≡ true)

  abbrev Ends : Option RetryResult → Type 0
  Ends o = (r : RetryResult) × (o ≡ some r) × Explains r

  after_attempt-Ends :
      (k now : ℕ) (rest : Option RetryResult)
      → (now < retry_budget → Ends rest)
      → Ends (after_attempt (attempts k) (attempts k).error now rest)
  after_attempt-Ends k now rest h = by_error (attempts k).error refl
    where
      by_tests :
          (e : GoError) (retryable done late waiting : Bool)
          → (attempts k).error ≡ some e
          → is_retryable (attempts k) e ≡ retryable
          → (attempts k).caller_done ≡ done
          → leb retry_budget now ≡ late
          → (attempts k).done_waiting ≡ waiting
          → Ends (after_error (attempts k) e (is_retryable (attempts k) e) now rest)
      by_tests e false done late waiting p q d l w = rw q (refused e, refl, (k, p, q))
      by_tests e true true late waiting p q d l w = rw (q, d) (interrupted, refl, (k, inl d))
      by_tests e true false true waiting p q d l w = rw (q, d, l) (gave_up e, refl, (k, p, q))
      by_tests e true false false true p q d l w = rw (q, d, l, w) (interrupted, refl, (k, inr w))
      by_tests e true false false false p q d l w = rw (q, d, l, w) (h (ground arith))

      by_error :
          (o : Option GoError)
          → (attempts k).error ≡ o
          → Ends (after_attempt (attempts k) o now rest)
      by_error none p = (succeeded, refl, (k, p))
      by_error (some e) p = by_tests e _ _ _ _ p refl refl refl refl

  -- Past the budget no further attempt is made.
  past_budget :
      (fuel k now delay : ℕ)
      → retry_budget ≤ now
      → Ends (retry_from (suc fuel) attempts k now delay)
  unfolding retry_from
  past_budget fuel k now delay le =
      after_attempt-Ends k (now + (attempts k).took) _ λ lt. absurd (omega arith)

  -- One round: the next one starts a full delay later, or past the budget.
  round :
      (fuel k now delay : ℕ)
      → ((now' : ℕ)
          → now + delay ≤ now'
          → Ends (retry_from (suc fuel) attempts (suc k) now' (next_delay delay)))
      → Ends (retry_from (suc (suc fuel)) attempts k now delay)
  unfolding retry_from
  round fuel k now delay next =
      after_attempt-Ends k (now + (attempts k).took) _
        λ lt. by_cut lt (ltb (retry_budget - (now + (attempts k).took)) delay) refl
    where
      after : ℕ
      after = now + (attempts k).took

      by_cut :
          after < retry_budget
          → (b : Bool) → ltb (retry_budget - after) delay ≡ b
          → let wait = if b then retry_budget - after else delay in
            Ends (
              retry_from
                (suc fuel)
                attempts
                (suc k)
                (after + wait + (attempts k).overslept)
                (next_delay wait))
      by_cut lt true e = past_budget fuel (suc k) _ _ (omega arith)
      by_cut lt false e = next _ (omega arith)

  -- Once the delay is 5 seconds.
  steady :
      (fuel k now : ℕ)
      → retry_budget ≤ now + 5_000 * fuel
      → Ends (retry_from (suc fuel) attempts k now 5_000)
  steady zero k now le = past_budget 0 k now 5_000 (omega arith)
  steady (suc fuel) k now le =
      round fuel k now 5_000 λ now' h. steady fuel (suc k) now' (omega arith)

  -- Retry ends after at most 29 attempts, whatever the attempts meet. If it reports success, an
  -- attempt succeeded; if it returns an error at once, that error is not one that a retry can cure;
  -- if it gives up, the error is one that it can; otherwise the caller's context was done.
  pub retry_ends : (r : RetryResult) × (retry attempts ≡ some r) × Explains r
  unfolding retry
  retry_ends = round 27 0 0 250 λ a le1. round 26 1 a 500 λ b le2.
      round 25 2 b 1_000
        λ c le3. round 24 3 c 2_000 λ d le4. round 23 4 d 4_000 λ e le5. steady 23 5 e (omega arith)
