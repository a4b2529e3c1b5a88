-- ===== src/Accounts/Activate.antt =====
-- handleUserActivated of services/accounts-svc/kafka.go: the account of an activated user and its
-- ledger account, which ledger-svc opens over gRPC.
use neo_bank.Prelude.{ℕ, Bool, true, false, ◌∷◌, Option, none, some, if◌then◌else◌, exists, ◌==◌}
use neo_bank.Prelude.Db.{Result, ok, err, remote_call, Conn, stmt, write, transaction}
use neo_bank.Prelude.Rpc.{Reply, reply, status, Network, remote}
use neo_bank.Ledger.State.{LedgerDb}
use neo_bank.Ledger.Server.{serve_create_ledger_account}
use neo_bank.Iban.Text.{Text}
use neo_bank.Accounts.State.{AccountsDb}
use neo_bank.Accounts.Create.{AccountCreateOutcome, Attempt, create_account_for_user}

-- The databases of the two services.
pub record Books : Type 0 where
  pub service : AccountsDb
  pub ledger : LedgerDb

pub record UserActivated : Type 0 where
  pub event_id : Option ℕ
  pub user_id : ℕ

-- What handling one event meets, in the order in which it is met.
pub record Handling : Type 0 where
  pub check_conn : Conn
  pub attempts : ℕ → Attempt
  pub bank_code : Text
  pub network : Network
  pub ledger_conn : Conn
  pub ledger_id : ℕ
  pub ledger_now : ℕ
  pub mark_conn : Conn

unfoldable pub is_event_processed : Conn → ℕ → AccountsDb → Result Bool
is_event_processed c event db = stmt c 0 (ok (exists (λ e. e == event) db.processed_events))

abbrev pub with_processed : ℕ → AccountsDb → AccountsDb
with_processed event db =
    if exists (λ e. e == event) db.processed_events
    then db
    else record db { processed_events = event ∷ db.processed_events }

-- INSERT ... ON CONFLICT (event_id) DO NOTHING
unfoldable pub mark_event_processed : Conn → ℕ → AccountsDb → Result (Unit {0}) × AccountsDb
mark_event_processed c event db =
    transaction c db (stmt c 0 (ok (write tt (with_processed event db))))

abbrev pub ledger_answer : Reply (ℕ × ℕ) → Result (Unit {0})
ledger_answer (reply account) = ok tt
ledger_answer (status code) = err remote_call

unfoldable pub create_ledger_account_for_account :
    Handling → ℕ → LedgerDb → Result (Unit {0}) × LedgerDb
create_ledger_account_for_account h account l =
    let (answer, l') =
      remote h.network (serve_create_ledger_account h.ledger_conn h.ledger_id h.ledger_now account)
        l in
    (ledger_answer answer, l')

-- The last step, for an event with an id.
abbrev pub then_mark :
    Handling → Option ℕ → AccountsDb → Result (Unit {0}) × LedgerDb → Result (Unit {0}) × Books
then_mark h event db (err e, l) = (err e, record { service = db; ledger = l })
then_mark h none db (ok done, l) = (ok done, record { service = db; ledger = l })
then_mark h (some event) db (ok done, l) =
    let (out, db') = mark_event_processed h.mark_conn event db in
    (out, record { service = db'; ledger = l })

abbrev pub then_ledger :
    Handling
    → Option ℕ
    → LedgerDb
    → Result (AccountCreateOutcome × ℕ) × AccountsDb
    → Result (Unit {0}) × Books
then_ledger h event l (err e, db) = (err e, record { service = db; ledger = l })
then_ledger h event l (ok (outcome, account), db) =
    then_mark h event db (create_ledger_account_for_account h account l)

abbrev pub provision : Handling → Option ℕ → ℕ → Books → Result (Unit {0}) × Books
provision h event user b =
    then_ledger h event b.ledger (create_account_for_user h.attempts user h.bank_code b.service)

abbrev pub handle_unless : Handling → ℕ → ℕ → Books → Result Bool → Result (Unit {0}) × Books
handle_unless h event user b (err e) = (err e, b)
handle_unless h event user b (ok true) = (ok tt, b)
handle_unless h event user b (ok false) = provision h (some event) user b

abbrev pub handle_event : Handling → Option ℕ → ℕ → Books → Result (Unit {0}) × Books
handle_event h none user b = provision h none user b
handle_event h (some event) user b =
    handle_unless h event user b (is_event_processed h.check_conn event b.service)

unfoldable pub handle_user_activated : Handling → UserActivated → Books → Result (Unit {0}) × Books
handle_user_activated h e b = handle_event h e.event_id e.user_id b
