-- ===== src/Accounts/State.antt =====
-- The tables of services/accounts-svc (its migrations) and their reads in accounts.go. UUIDs are
-- numbers; an id that is no UUID is none. Rows inserted later stand first.
use neo_bank.Prelude.{
  ℕ, Bool, true, false, ◌&&◌, List, [], ◌∷◌, Option, none, some, ◌==◌, find, exists, select,
}
use neo_bank.Prelude.Db.{Result, ok, Conn, stmt}
use neo_bank.Outbox.State.{OutboxRow}
use neo_bank.Iban.Text.{Text}

pub data AccountStatus : Type 0 where
  active frozen closed : AccountStatus

pub record Account : Type 0 where
  pub id : ℕ
  pub user_id : ℕ
  pub account_number : Text
  pub iban : Text
  pub account_status : AccountStatus
  pub created_at : ℕ
  pub updated_at : ℕ

-- events/v1: user, account, account number.
pub data AccountsEvent : Type 0 where
  account_created : ℕ → ℕ → Text → AccountsEvent

pub record ResolveAttempt : Type 0 where
  pub user_id : ℕ
  pub attempted_at : ℕ

pub record AccountsDb : Type 0 where
  pub accounts : List Account
  pub processed_events : List ℕ
  pub outbox : List (OutboxRow AccountsEvent)
  pub iban_resolve_attempts : List ResolveAttempt

abbrev pub same_text : Text → Text → Bool
same_text [] [] = true
same_text (a ∷ s) (b ∷ t) = (a == b) && same_text s t
same_text _ _ = false

abbrev pub has_user : ℕ → Account → Bool
has_user user a = a.user_id == user

abbrev pub has_account_id : ℕ → Account → Bool
has_account_id id a = a.id == id

abbrev pub has_number : Text → Account → Bool
has_number number a = same_text a.account_number number

abbrev pub has_iban : Text → Account → Bool
has_iban iban a = same_text a.iban iban

unfoldable pub get_account_by_user_id : Conn → ℕ → AccountsDb → Result (Option Account)
get_account_by_user_id c user db = stmt c 0 (ok (find (has_user user) db.accounts))

abbrev find_by_id : Option ℕ → AccountsDb → Option Account
find_by_id none db = none
find_by_id (some id) db = find (has_account_id id) db.accounts

-- 22P02, the error of an id that is no UUID, is a miss like ErrNoRows.
unfoldable pub get_account_by_id : Conn → ℕ → Option ℕ → AccountsDb → Result (Option Account)
get_account_by_id c k id db = stmt c k (ok (find_by_id id db))

abbrev pub is_one_of : List ℕ → Account → Bool
is_one_of ids a = exists (λ id. a.id == id) ids

abbrev listed : Conn → List ℕ → AccountsDb → Result (List Account)
listed c [] db = ok []
listed c (id ∷ ids) db = stmt c 0 (ok (select (is_one_of (id ∷ ids)) db.accounts))

unfoldable pub get_accounts_by_ids : Conn → List ℕ → AccountsDb → Result (List Account)
get_accounts_by_ids c ids db = listed c ids db

unfoldable pub get_account_by_iban : Conn → ℕ → Text → AccountsDb → Result (Option Account)
get_account_by_iban c k iban db = stmt c k (ok (find (has_iban iban) db.accounts))
