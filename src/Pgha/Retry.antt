-- ===== src/Pgha/Retry.antt =====
-- Retry of pkg/pgha/retry.go, in milliseconds since its call. What each attempt meets is an argument;
-- time.After waits for its delay or longer. Log lines are left out.
use neo_bank.Prelude.{
  ℕ, zero, suc, ◌+◌, ◌-◌, ◌*◌, Bool, true, false, not, ◌&&◌, ◌||◌, Option, none, some, ltb, leb,
  if◌then◌else◌,
}
use neo_bank.Pgha.Errors.{GoError, is_unavailable}

abbrev pub retry_budget : ℕ
retry_budget = 120_000

abbrev pub retry_base_delay : ℕ
retry_base_delay = 250

abbrev pub retry_max_delay : ℕ
retry_max_delay = 5_000

pub record Attempt : Type 0 where
  -- the error of fn, none for nil
  pub error : Option GoError
  -- attemptCtx.Err() != nil, ctx.Err() != nil
  pub attempt_expired : Bool
  pub caller_done : Bool
  pub took : ℕ
  -- ctx is done before the delay is over, and how much longer the delay takes
  pub done_waiting : Bool
  pub overslept : ℕ

pub data RetryResult : Type 0 where
  succeeded interrupted : RetryResult
  refused gave_up : GoError → RetryResult

unfoldable pub is_retryable : Attempt → GoError → Bool
is_retryable a e = (a.attempt_expired && not a.caller_done) || (e.standby || is_unavailable e)

-- After a failed attempt at this time: stop, or go on with `rest`.
abbrev pub after_error : Attempt → GoError → Bool → ℕ → Option RetryResult → Option RetryResult
after_error a e false now rest = some (refused e)
after_error a e true now rest =
    if a.caller_done
    then some interrupted
    else if leb retry_budget now
    then some (gave_up e)
    else if a.done_waiting
    then some interrupted
    else rest

abbrev pub after_attempt : Attempt → Option GoError → ℕ → Option RetryResult → Option RetryResult
after_attempt a none now rest = some succeeded
after_attempt a (some e) now rest = after_error a e (is_retryable a e) now rest

-- if delay > remaining { delay = remaining }
abbrev pub cut_delay : ℕ → ℕ → ℕ
cut_delay now delay = if ltb (retry_budget - now) delay then retry_budget - now else delay

abbrev pub next_delay : ℕ → ℕ
next_delay delay = if ltb retry_max_delay (delay * 2) then retry_max_delay else delay * 2

-- The loop from attempt k on; none where the fuel is used up.
unfoldable pub retry_from : ℕ → (ℕ → Attempt) → ℕ → ℕ → ℕ → Option RetryResult
retry_from zero attempts k now delay = none
retry_from (suc fuel) attempts k now delay =
    let a = attempts k in
    let after = now + a.took in
    let wait = cut_delay after delay in
    let rest = retry_from fuel attempts (suc k) (after + wait + a.overslept) (next_delay wait) in
    after_attempt a a.error after rest

-- 5 delays that grow, at most 23 of 5 seconds, and the attempt at which the budget is spent.
abbrev pub attempts_bound : ℕ
attempts_bound = 29

unfoldable pub retry : (ℕ → Attempt) → Option RetryResult
retry attempts = retry_from attempts_bound attempts 0 0 retry_base_delay
