-- ===== src/Accounts/Status.antt =====
-- updateAccountStatus of services/accounts-svc/accounts.go and updateAccountStatusHandler's check.
use neo_bank.Prelude.{ℕ, Bool, true, false, Option, none, some, if◌then◌else◌, find, update}
use neo_bank.Prelude.Db.{
  Result, ok, ◌>>=◌, ◌>>◌, Conn, stmt, begin, Work, roll_back, write, transaction,
}
use neo_bank.Transfers.Mark.{returned}
use neo_bank.Accounts.State.{AccountStatus, Account, AccountsDb, has_account_id}

pub data AccountStatusOutcome : Type 0 where
  status_update_ok : Account → AccountStatusOutcome
  status_update_not_found status_update_invalid_transition : AccountStatusOutcome

abbrev pub is_closed : AccountStatus → Bool
is_closed AccountStatus.closed = true
is_closed _ = false

abbrev pub set_status : AccountStatus → ℕ → Account → Account
set_status s now a = record a { account_status = s; updated_at = now }

abbrev pub updated : AccountStatus → ℕ → ℕ → AccountsDb → AccountsDb
updated s now id db = record db {
  accounts = update (has_account_id id) (set_status s now) db.accounts;
}

-- After SELECT status ... FOR UPDATE.
abbrev pub change_status :
    Conn
    → AccountStatus
    → ℕ
    → ℕ
    → AccountsDb
    → Option Account
    → Result (Work AccountsDb AccountStatusOutcome)
change_status c s now id db none = ok (roll_back status_update_not_found)
change_status c s now id db (some a) =
    if is_closed a.account_status then ok (roll_back status_update_invalid_transition) else (do
      row ← stmt c 2 (returned (find (has_account_id id) (updated s now id db).accounts))
      ok (write (status_update_ok row) (updated s now id db)))

abbrev pub change_found :
    Conn → AccountStatus → ℕ → Option ℕ → AccountsDb → Result (Work AccountsDb AccountStatusOutcome)
change_found c s now none db = ok (roll_back status_update_not_found)
change_found c s now (some id) db = do
  found ← stmt c 1 (ok (find (has_account_id id) db.accounts))
  change_status c s now id db found

unfoldable pub update_account_status :
    Conn → ℕ → Option ℕ → AccountStatus → AccountsDb → Result AccountStatusOutcome × AccountsDb
update_account_status c now id s db = transaction c db (do begin c; change_found c s now id db)
