-- ===== src/Accounts/Create.antt =====
-- createAccountForUser, tryCreateAccount, generateAccountNumber and ibanPartsFromAccountNumber of
-- services/accounts-svc/accounts.go. The random number of an attempt is an argument, none where the
-- source of randomness fails.
use neo_bank.Prelude.{
  ℕ, zero, suc, ◌+◌, ◌/◌, ◌%◌, [], ◌∷◌, ◌++◌, Option, none, some, if◌then◌else◌, find, exists, take,
  drop,
}
use neo_bank.Prelude.Db.{
  Result, ok, err, malformed, unique_violation, ◌>>◌, Conn, stmt, begin, Work, roll_back, write,
  transaction,
}
use neo_bank.Outbox.State.{Draw, insert_event}
use neo_bank.Iban.Text.{Text}
use neo_bank.Iban.Code.{Checked, passed, refused, generate}
use neo_bank.Accounts.State.{
  active, Account, AccountsDb, account_created, has_user, has_number, has_iban,
}

pub data AccountCreateOutcome : Type 0 where
  account_created_now account_already_exists : AccountCreateOutcome

-- The last k decimal digits of n, as %0*d prints them.
unfoldable pub digits : ℕ → ℕ → Text
digits zero n = []
digits (suc k) n = digits k (n / 10) ++ ((b'0' + n % 10) ∷ [])

abbrev pub account_number_of : ℕ → Text
account_number_of n = b'N' ∷ b'B' ∷ digits 10 n

abbrev pub iban_parts_from_account_number : Text → Text × Text
iban_parts_from_account_number number =
    let ds = drop 2 number in (b'0' ∷ b'0' ∷ b'0' ∷ b'0' ∷ take 2 ds, take 8 (drop 2 ds))

-- What one attempt meets: its random number, its connection, the id of the new row, the draws of
-- the event.
pub record Attempt : Type 0 where
  pub random : Option ℕ
  pub conn : Conn
  pub id : ℕ
  pub draw : Draw

-- The account number was taken, so that the loop goes on; or the attempt is done.
pub data Tried : Type 0 where
  number_taken : Tried
  done : AccountCreateOutcome → ℕ → Tried

abbrev pub new_account : Attempt → ℕ → Text → Text → Account
new_account a user number iban = record {
  id = a.id;
  user_id = user;
  account_number = number;
  iban = iban;
  account_status = active;
  created_at = a.draw.now;
  updated_at = a.draw.now;
}

abbrev pub with_account : Attempt → ℕ → Text → Text → AccountsDb → AccountsDb
with_account a user number iban db = record db {
  accounts = new_account a user number iban ∷ db.accounts;
  outbox = insert_event a.draw (account_created user a.id number) user db.outbox;
}

-- INSERT ... ON CONFLICT (user_id) DO NOTHING, the other unique constraints, and the event.
abbrev pub insert_account :
    Attempt → ℕ → Text → Text → AccountsDb → Option Account → Result (Work AccountsDb Tried)
insert_account a user number iban db (some found) =
    stmt a.conn 2 (ok tt) >> ok (write (done account_already_exists found.id) db)
insert_account a user number iban db none =
    if exists (has_number number) db.accounts
    then ok (roll_back number_taken)
    else if exists (has_iban iban) db.accounts
    then err unique_violation
    else (stmt a.conn 2 (ok tt)
        >> ok (write (done account_created_now a.id) (with_account a user number iban db)))

unfoldable pub try_create_account :
    Attempt → ℕ → Text → Text → AccountsDb → Result Tried × AccountsDb
try_create_account a user number iban db = transaction a.conn db (do
  begin a.conn
  stmt a.conn 1 (ok tt)
  insert_account a user number iban db (find (has_user user) db.accounts))

abbrev pub with_iban : Attempt → ℕ → Text → AccountsDb → Checked Text → Result Tried × AccountsDb
with_iban a user number db (refused e) = (err malformed, db)
with_iban a user number db (passed iban) = try_create_account a user number iban db

abbrev pub with_number : Attempt → ℕ → Text → AccountsDb → Option ℕ → Result Tried × AccountsDb
with_number a user bank_code db none = (err malformed, db)
with_number a user bank_code db (some n) =
    let (sort_code, number) = iban_parts_from_account_number (account_number_of n) in
    with_iban a user (account_number_of n) db (generate bank_code sort_code number)

-- One round of the loop.
unfoldable pub attempt_account : Attempt → ℕ → Text → AccountsDb → Result Tried × AccountsDb
attempt_account a user bank_code db = with_number a user bank_code db a.random

abbrev pub after_attempt :
    Result Tried × AccountsDb
    → Result (AccountCreateOutcome × ℕ) × AccountsDb
    → Result (AccountCreateOutcome × ℕ) × AccountsDb
after_attempt (err e, db) rest = (err e, db)
after_attempt (ok (done outcome id), db) rest = (ok (outcome, id), db)
after_attempt (ok number_taken, db) rest = rest

-- `left` rounds, of 10, are left; a round that goes on has changed nothing.
unfoldable pub create_from :
    ℕ → (ℕ → Attempt) → ℕ → Text → AccountsDb → Result (AccountCreateOutcome × ℕ) × AccountsDb
create_from zero attempts user bank_code db = (err unique_violation, db)
create_from (suc left) attempts user bank_code db =
    let tried = attempt_account (attempts left) user bank_code db in
    let rest = create_from left attempts user bank_code tried.1 in after_attempt tried rest

unfoldable pub create_account_for_user :
    (ℕ → Attempt) → ℕ → Text → AccountsDb → Result (AccountCreateOutcome × ℕ) × AccountsDb
create_account_for_user attempts user bank_code db = create_from 10 attempts user bank_code db
