-- ===== src/Pgha/Tests.antt =====
-- A failover that is over at the third attempt, and an error that stays.
use Prim.Native.String.{String}
use neo_bank.Prelude.{ℕ, ◌≡◌, refl, false, Option, none, some, ltb, if◌then◌else◌}
use neo_bank.Pgha.Errors.{GoError, is_unavailable}
use neo_bank.Pgha.Retry.{
  Attempt, RetryResult, succeeded, refused, gave_up, is_retryable, retry_from, retry,
}
use neo_bank.Pgha.Ends.{Explains, retry_ends}

abbrev with_state : String → GoError
with_state state = record {
  connect_error = false;
  context_error = false;
  end_of_file = false;
  net_error = false;
  sql_state = some state;
  safe_to_retry = false;
  contains = λ fragment. false;
  standby = false;
}

abbrev attempt : Option GoError → Attempt
attempt e = record {
  error = e;
  attempt_expired = false;
  caller_done = false;
  took = 100;
  done_waiting = false;
  overslept = 0;
}

abbrev failover : ℕ → Attempt
failover k = if ltb k 2 then attempt (some (with_state "57P03")) else attempt none

recovers : retry failover ≡ some succeeded
unfolding retry retry_from is_retryable is_unavailable
recovers = refl

syntax_error :
    retry (λ k. attempt (some (with_state "42601"))) ≡ some (refused (with_state "42601"))
unfolding retry retry_from is_retryable is_unavailable
syntax_error = refl

stays_down : retry (λ k. attempt (some (with_state "57P03"))) ≡ some (gave_up (with_state "57P03"))
unfolding retry retry_from is_retryable is_unavailable
stays_down = refl

retry_ends_example : (r : RetryResult) × (retry failover ≡ some r) × Explains failover r
retry_ends_example = retry_ends failover
