-- ===== src/Accounts/Resolve.antt =====
-- services/accounts-svc/grpc_server.go and rate_limit.go: how the other services look accounts up.
use neo_bank.Prelude.{
  ℕ, Bool, true, false, not, ◌&&◌, List, ◌∷◌, Option, none, some, ltb, ◌+◌, ◌==◌, if◌then◌else◌,
  select, count, take, drop, length, map,
}
use neo_bank.Prelude.Db.{Result, ok, err, Conn, stmt, write, transaction}
use neo_bank.Prelude.Rpc.{
  Reply, reply, status, invalid_argument, not_found, failed_precondition, resource_exhausted,
  internal,
}
use neo_bank.Iban.Text.{Text, normalize}
use neo_bank.Iban.Code.{Checked, passed, refused, validate, country_ie, ie_length}
use neo_bank.Accounts.State.{
  AccountStatus, Account, AccountsDb, ResolveAttempt, same_text, get_account_by_user_id,
  get_account_by_id, get_accounts_by_ids, get_account_by_iban,
}

-- user_id = $1 AND attempted_at > now() - window
abbrev pub is_recent_attempt : ℕ → ℕ → ℕ → ResolveAttempt → Bool
is_recent_attempt user now window a = (a.user_id == user) && ltb now (a.attempted_at + window)

abbrev pub recent_attempts : ℕ → ℕ → ℕ → AccountsDb → ℕ
recent_attempts user now window db =
    count (is_recent_attempt user now window) db.iban_resolve_attempts

abbrev with_attempt : ℕ → ℕ → AccountsDb → AccountsDb
with_attempt user now db = record db {
  iban_resolve_attempts = record { user_id = user; attempted_at = now } ∷ db.iban_resolve_attempts;
}

-- The INSERT that selects from the count: true where it inserted.
unfoldable pub record_resolve_attempt : Conn → ℕ → ℕ → ℕ → ℕ → AccountsDb → Result Bool × AccountsDb
record_resolve_attempt c now user limit window db = transaction c db (
    stmt c 0 (
      ok (
        if ltb (recent_attempts user now window db) limit
        then write true (with_attempt user now db)
        else write false db)))

unfoldable pub delete_stale_resolve_attempts : Conn → ℕ → ℕ → AccountsDb → Result ℕ × AccountsDb
delete_stale_resolve_attempts c now retention db = transaction c db (
    stmt c 0 (
      ok (
        write (count stale db.iban_resolve_attempts) (record db {
          iban_resolve_attempts = select (λ a. not (stale a)) db.iban_resolve_attempts;
        }))))
  where
    stale : ResolveAttempt → Bool
    stale a = ltb (a.attempted_at + retention) now

-- accountsServer: its bank code and its rate limit; and what one call meets.
pub record Server : Type 0 where
  pub bank_code : Text
  pub resolve_rate_limit : ℕ
  pub resolve_rate_window : ℕ
  pub limit_conn : Conn
  pub conn : Conn
  pub now : ℕ

abbrev pub is_own_bank : Server → Text → Bool
is_own_bank s n =
    (length n == ie_length)
    && (same_text (take 2 n) country_ie && same_text (take 4 (drop 4 n)) s.bank_code)

abbrev pub found_account : Result (Option Account) → Reply (ℕ × AccountStatus)
found_account (err e) = status internal
found_account (ok none) = status not_found
found_account (ok (some a)) = reply (a.id, a.account_status)

abbrev look_up_iban : Server → Text → AccountsDb → Reply (ℕ × AccountStatus)
look_up_iban s n db =
    if is_own_bank s n
    then found_account (get_account_by_iban s.conn 0 n db)
    else status failed_precondition

abbrev after_limit :
    Server → Text → Result Bool × AccountsDb → Reply (ℕ × AccountStatus) × AccountsDb
after_limit s n (err e, db) = (status internal, db)
after_limit s n (ok false, db) = (status resource_exhausted, db)
after_limit s n (ok true, db) = (look_up_iban s n db, db)

abbrev resolve_for : Server → Text → Option ℕ → AccountsDb → Reply (ℕ × AccountStatus) × AccountsDb
resolve_for s n none db = (status invalid_argument, db)
resolve_for s n (some user) db =
    after_limit s n
      (record_resolve_attempt s.limit_conn s.now user s.resolve_rate_limit s.resolve_rate_window db)

abbrev resolve_checked :
    Server
    → Text
    → Option ℕ
    → AccountsDb
    → Checked (Unit {0})
    → Reply (ℕ × AccountStatus) × AccountsDb
resolve_checked s n user db (refused e) = (status invalid_argument, db)
resolve_checked s n user db (passed valid) = resolve_for s n user db

-- An empty user_id is none.
unfoldable pub resolve_account_by_iban :
    Server → Text → Option ℕ → AccountsDb → Reply (ℕ × AccountStatus) × AccountsDb
resolve_account_by_iban s iban user db =
    resolve_checked s (normalize iban) user db (validate (normalize iban))

unfoldable pub serve_get_account_by_id : Server → Option ℕ → AccountsDb → Reply (ℕ × AccountStatus)
serve_get_account_by_id s id db = found_account (get_account_by_id s.conn 0 id db)

unfoldable pub serve_get_account_by_user_id : Server → ℕ → AccountsDb → Reply (ℕ × AccountStatus)
serve_get_account_by_user_id s user db = found_account (get_account_by_user_id s.conn user db)

abbrev summaries : Result (List Account) → Reply (List (ℕ × Text))
summaries (err e) = status internal
summaries (ok accounts) = reply (map (λ a. (a.id, a.iban)) accounts)

unfoldable pub resolve_accounts_by_ids : Server → List ℕ → AccountsDb → Reply (List (ℕ × Text))
resolve_accounts_by_ids s ids db = summaries (get_accounts_by_ids s.conn ids db)
