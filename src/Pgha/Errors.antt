-- ===== src/Pgha/Errors.antt =====
-- IsUnavailable of pkg/pgha/errors.go. What errors.As, errors.Is, pgconn.SafeToRetry and
-- strings.Contains say of an error is a record.
use Prim.Native.String.{String}
use text.Mathlib.Text.{◌==◌}
use mathlib.Core.Bool.{Bool, true, false}
use mathlib.Core.List.{List, [], ◌∷◌}
use mathlib.Core.Option.{Option, none, some}
use neo_bank.Prelude.{if◌then◌else◌, exists}

pub record GoError : Type 0 where
  -- *pgconn.ConnectError
  pub connect_error : Bool
  -- context.DeadlineExceeded or context.Canceled
  pub context_error : Bool
  -- io.EOF or io.ErrUnexpectedEOF
  pub end_of_file : Bool
  -- net.Error or *net.OpError
  pub net_error : Bool
  -- the Code of a *pgconn.PgError
  pub sql_state : Option String
  pub safe_to_retry : Bool
  pub contains : String → Bool
  -- errStandby
  pub standby : Bool

abbrev pub unavailable_sql_states : List String
unavailable_sql_states =
    "08000" ∷ "08001" ∷ "08003" ∷ "08004" ∷ "08006" ∷ "08007" ∷ "57P01" ∷ "57P02" ∷ "57P03"
    ∷ "25006" ∷ "40001" ∷ "40P01" ∷ []

abbrev pub fragments : List String
fragments =
    "conn closed" ∷ "closed pool" ∷ "unexpected EOF" ∷ "server closed the connection unexpectedly"
    ∷ "failed to connect to" ∷ "the database system is shutting down"
    ∷ "the database system is starting up" ∷ "in a read-only transaction" ∷ []

-- From the test for a PgError on.
abbrev pub by_state : GoError → Option String → Bool
by_state e (some state) = exists (λ s. s == state) unavailable_sql_states
by_state e none = if e.safe_to_retry then true else exists e.contains fragments

unfoldable pub is_unavailable : GoError → Bool
is_unavailable e =
    if e.connect_error
    then true
    else if e.context_error
    then false
    else if e.end_of_file
    then true
    else if e.net_error
    then true
    else by_state e e.sql_state
