-- ===== src/Accounts/Sound.antt =====
-- What handleUserActivated (services/accounts-svc/kafka.go) keeps of the table of accounts.
use neo_bank.Prelude.{ℕ, Bool, true, false, ◌∷◌, Option, none, some, exists, ◌==◌, if◌then◌else◌}
use neo_bank.Prelude.Db.{
  Result, ok, err, connection, Conn, write, transaction, commit, CommitFate, committed, rolled_back,
  ack_lost,
}
use neo_bank.Ledger.State.{LedgerDb}
use neo_bank.Accounts.State.{AccountsDb}
use neo_bank.Accounts.Create.{AccountCreateOutcome}
use neo_bank.Accounts.Activate.{
  Books, Handling, UserActivated, with_processed, mark_event_processed,
  create_ledger_account_for_account, then_mark, then_ledger, provision, handle_unless, handle_event,
  handle_user_activated,
}
use neo_bank.Accounts.Opened.{IsSound, Opens, create_account_for_user-Opens}

with_processed-IsSound :
    (event : ℕ) (db : AccountsDb) → IsSound db → IsSound (with_processed event db)
with_processed-IsSound event db s = by_test (exists (λ e. e == event) db.processed_events)
  where
    by_test :
        (b : Bool)
        → IsSound (if b then db else record db { processed_events = event ∷ db.processed_events })
    by_test true = s
    by_test false = s

mark_event_processed-IsSound :
    (c : Conn) (event : ℕ) (db : AccountsDb)
    → IsSound db
    → IsSound (mark_event_processed c event db).1
unfolding mark_event_processed
mark_event_processed-IsSound c event db s = by_statement (c.fails 0)
  where
    by_fate : (f : CommitFate) → IsSound (commit {A = Unit {0}} f db (with_processed event db) tt).1
    by_fate committed = with_processed-IsSound event db s
    by_fate rolled_back = s
    by_fate ack_lost = with_processed-IsSound event db s

    by_statement :
        (b : Bool)
        → IsSound
            (transaction {A = Unit {0}} c db
              (if b then err connection else ok (write tt (with_processed event db)))).1
    by_statement true = s
    by_statement false = by_fate c.commit_fate

then_mark-IsSound :
    (h : Handling) (event : Option ℕ) (db : AccountsDb) (out : Result (Unit {0}) × LedgerDb)
    → IsSound db
    → IsSound (then_mark h event db out).1.service
then_mark-IsSound h event db (err e, l) s = s
then_mark-IsSound h none db (ok done, l) s = s
then_mark-IsSound h (some event) db (ok done, l) s =
    mark_event_processed-IsSound h.mark_conn event db s

then_ledger-IsSound :
    (h : Handling) (event : Option ℕ) (user : ℕ) (l : LedgerDb)
    (made : Result (AccountCreateOutcome × ℕ) × AccountsDb)
    → Opens user made
    → IsSound (then_ledger h event l made).1.service
then_ledger-IsSound h event user l (err e, db) o = o.0
then_ledger-IsSound h event user l (ok (outcome, account), db) o =
    then_mark-IsSound h event db (create_ledger_account_for_account h account l) o.0

provision-IsSound :
    (h : Handling) (event : Option ℕ) (user : ℕ) (b : Books)
    → IsSound b.service
    → IsSound (provision h event user b).1.service
provision-IsSound h event user b s =
    then_ledger-IsSound h event user b.ledger _
      (create_account_for_user-Opens h.attempts user h.bank_code b.service s)

handle_unless-IsSound :
    (h : Handling) (event user : ℕ) (b : Books) (r : Result Bool)
    → IsSound b.service
    → IsSound (handle_unless h event user b r).1.service
handle_unless-IsSound h event user b (err e) s = s
handle_unless-IsSound h event user b (ok true) s = s
handle_unless-IsSound h event user b (ok false) s = provision-IsSound h (some event) user b s

-- Handling an activated user, with or without an event id and whatever fails, keeps the accounts
-- sound: where before it every IBAN was valid and no two accounts had the same user or the same
-- account number, so it is afterwards.
pub handle_user_activated-IsSound :
    (h : Handling) (e : UserActivated) (b : Books)
    → IsSound b.service
    → IsSound (handle_user_activated h e b).1.service
unfolding handle_user_activated
handle_user_activated-IsSound h e b s = by_event e.event_id
  where
    by_event : (o : Option ℕ) → IsSound (handle_event h o e.user_id b).1.service
    by_event none = provision-IsSound h none e.user_id b s
    by_event (some event) = handle_unless-IsSound h event e.user_id b _ s
