-- ===== src/Accounts/Tests.antt =====
-- A user's first account, and a closed one.
use neo_bank.Prelude.{ℕ, ◌≡◌, refl, [], ◌∷◌, some, arith, find}
use neo_bank.Prelude.Db.{good, ok}
use neo_bank.Prelude.Rpc.{delivered}
use neo_bank.Ledger.State.{LedgerDb}
use neo_bank.Ledger.Reads.{create_ledger_account}
use neo_bank.Ledger.Server.{serve_create_ledger_account}
use neo_bank.Iban.Text.{
  is_digit, is_letter, upper, two_digits, letters_to_digits, number_from, mod97_remainder,
}
use neo_bank.Iban.Code.{generate_bban, generate}
use neo_bank.Iban.Tests.{text}
use neo_bank.Accounts.State.{AccountStatus, active, Account, AccountsDb, has_account_id}
use neo_bank.Accounts.Create.{
  Attempt, digits, attempt_account, try_create_account, create_from, create_account_for_user,
}
use neo_bank.Accounts.Status.{status_update_invalid_transition, update_account_status}
use neo_bank.Accounts.Activate.{
  Books, Handling, is_event_processed, mark_event_processed, create_ledger_account_for_account,
  handle_user_activated,
}
use neo_bank.Accounts.Opened.{IsSound}
use neo_bank.Accounts.Sound.{handle_user_activated-IsSound}
use neo_bank.Accounts.Provisioned.{IsHandled, handle_user_activated-IsHandled}
use neo_bank.Accounts.Closed.{Holds, update_account_status-Holds}

abbrev no_accounts : AccountsDb
no_accounts = record {
  accounts = [];
  processed_events = [];
  outbox = [];
  iban_resolve_attempts = [];
}

abbrev empty_ledger : LedgerDb
empty_ledger = record { ledger_accounts = []; entries = []; account_balances = [] }

abbrev attempts : ℕ → Attempt
attempts k = record {
  random = some 4_234_567_890;
  conn = good;
  id = 11;
  draw = record { serial = 1; event_id = 70; now = 5 };
}

abbrev handling : Handling
handling = record {
  check_conn = good;
  attempts = attempts;
  bank_code = text "ZZZZ";
  network = delivered;
  ledger_conn = good;
  ledger_id = 21;
  ledger_now = 6;
  mark_conn = good;
}

abbrev customer : Account
customer = record {
  id = 11;
  user_id = 1;
  account_number = text "NB4234567890";
  iban = text "IE34ZZZZ00004234567890";
  account_status = active;
  created_at = 5;
  updated_at = 5;
}

abbrev empty_books : Books
empty_books = record { service = no_accounts; ledger = empty_ledger }

abbrev opened : Books
opened = (handle_user_activated handling (record { event_id = some 99; user_id = 1 }) empty_books).1

opens :
    (handle_user_activated handling (record { event_id = some 99; user_id = 1 }) empty_books).0
    ≡ ok tt
unfolding handle_user_activated is_event_processed create_account_for_user create_from
    attempt_account try_create_account digits generate generate_bban mod97_remainder
    letters_to_digits number_from two_digits upper is_digit is_letter
    create_ledger_account_for_account serve_create_ledger_account create_ledger_account
    mark_event_processed
opens = refl

opens_account : find (has_account_id 11) opened.service.accounts ≡ some customer
unfolding handle_user_activated is_event_processed create_account_for_user create_from
    attempt_account try_create_account digits generate generate_bban mod97_remainder
    letters_to_digits number_from two_digits upper is_digit is_letter
    create_ledger_account_for_account serve_create_ledger_account create_ledger_account
    mark_event_processed
opens_account = refl

no_accounts-IsSound : IsSound no_accounts
no_accounts-IsSound = (tt, (λ user. omega arith), (λ number. omega arith))

handle_user_activated-IsHandled_example :
    IsHandled 99 1 empty_books
      (handle_user_activated handling (record { event_id = some 99; user_id = 1 }) empty_books)
handle_user_activated-IsHandled_example =
    handle_user_activated-IsHandled handling 99 1 empty_books no_accounts-IsSound

handle_user_activated-IsSound_example :
    IsSound
      (handle_user_activated handling
        (record { event_id = some 99; user_id = 1 })
        empty_books).1.service
handle_user_activated-IsSound_example =
    handle_user_activated-IsSound handling (record { event_id = some 99; user_id = 1 }) empty_books
      no_accounts-IsSound

abbrev shut : Account
shut = record customer { account_status = AccountStatus.closed }

abbrev shut_accounts : AccountsDb
shut_accounts = record no_accounts { accounts = shut ∷ [] }

stays_closed :
    (update_account_status good 9 (some 11) active shut_accounts).0
    ≡ ok status_update_invalid_transition
unfolding update_account_status
stays_closed = refl

update_account_status-Holds_example :
    Holds 11 shut (update_account_status good 9 (some 11) active shut_accounts).1
update_account_status-Holds_example =
    update_account_status-Holds 11 shut shut_accounts refl refl good 9 (some 11) active
