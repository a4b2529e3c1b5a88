-- ===== src/Accounts/Provisioned.antt =====
-- handleUserActivated (services/accounts-svc/kafka.go) over both services.
use neo_bank.Prelude.{
  ℕ, ◌≡◌, refl, ◌⊎◌, inl, inr, Bool, true, false, List, [], ◌∷◌, Option, none, some, arith, ◌==◌,
  if◌then◌else◌, exists, Bool-cases,
}
use neo_bank.Prelude.Db.{
  Result, ok, err, connection, Conn, write, transaction, commit, CommitFate, committed, rolled_back,
  ack_lost, OnOk,
}
use neo_bank.Prelude.Rpc.{Network, delivered, request_lost, reply_lost, remote}
use neo_bank.Ledger.State.{LedgerAccount, LedgerDb, ledger_account_id}
use neo_bank.Ledger.Reads.{find_account, upsert_account, create_ledger_account}
use neo_bank.Ledger.Server.{result_status, serve_create_ledger_account}
use neo_bank.Accounts.State.{AccountsDb}
use neo_bank.Accounts.Create.{AccountCreateOutcome, create_account_for_user}
use neo_bank.Accounts.Activate.{
  Books, Handling, is_event_processed, with_processed, mark_event_processed, ledger_answer,
  create_ledger_account_for_account, then_mark, then_ledger, provision, handle_unless,
  handle_user_activated,
}
use neo_bank.Accounts.Opened.{IsSound, HasAccount, Opens, create_account_for_user-Opens}

-- ledger-svc has an account for this account id.
abbrev pub HasLedger : ℕ → LedgerDb → Type 0
HasLedger account l = (id : ℕ) × (ledger_account_id account l.ledger_accounts ≡ some id)

abbrev pub is_processed : ℕ → AccountsDb → Bool
is_processed event db = exists (λ e. e == event) db.processed_events

found-HasLedger :
    (account : ℕ) (rows : List LedgerAccount) (r : LedgerAccount)
    → find_account account rows ≡ some r
    → (id : ℕ) × (ledger_account_id account rows ≡ some id)
found-HasLedger account [] r e = cc
found-HasLedger account (x ∷ rows) r e = elim (Bool-cases (x.account_id == account)) [
  | inl t ↦ (x.id, rw t refl)
  | inr f ↦ let (id, h) = found-HasLedger account rows r (rw f at e) in (id, rw f h)
]

upsert-HasLedger :
    (c : Conn) (new_id now account : ℕ) (l : LedgerDb) (found : Option LedgerAccount)
    → find_account account l.ledger_accounts ≡ found
    → let (out, l') = transaction c l (ok (upsert_account new_id now account l found)) in
      OnOk (λ made. HasLedger account l') out
upsert-HasLedger c new_id now account l none e = by_fate c.commit_fate
  where
    made : LedgerDb
    made = record l {
      ledger_accounts =
          record { id = new_id; account_id = account; created_at = now } ∷ l.ledger_accounts;
    }

    by_fate :
        (f : CommitFate)
        → let (out, l') = commit {A = ℕ × ℕ} f l made (account, now) in
          OnOk (λ m. HasLedger account l') out
    by_fate committed = (new_id, ground arith)
    by_fate rolled_back = tt
    by_fate ack_lost = tt
upsert-HasLedger c new_id now account l (some r) e = by_fate c.commit_fate
  where
    by_fate :
        (f : CommitFate)
        → let (out, l') = commit {A = ℕ × ℕ} f l l (r.account_id, r.created_at) in
          OnOk (λ m. HasLedger account l') out
    by_fate committed = found-HasLedger account l.ledger_accounts r e
    by_fate rolled_back = tt
    by_fate ack_lost = tt

create_ledger_account-HasLedger :
    (c : Conn) (new_id now account : ℕ) (l : LedgerDb)
    → let (out, l') = create_ledger_account c new_id now account l in
      OnOk (λ made. HasLedger account l') out
unfolding create_ledger_account
create_ledger_account-HasLedger c new_id now account l =
    elim (c.fails 0)
      as (λ b.
        let (out, l') = transaction c l (
          if b
          then err connection
          else ok (upsert_account new_id now account l (find_account account l.ledger_accounts))) in
        OnOk (λ made. HasLedger account l') out) [
          | true ↦ tt
          | false ↦ upsert-HasLedger c new_id now account l _ refl
        ]

answered-HasLedger :
    (h : Handling) (account : ℕ) (l : LedgerDb)
    → let (out, l') = create_ledger_account_for_account h account l in
      OnOk (λ done. HasLedger account l') out
unfolding create_ledger_account_for_account serve_create_ledger_account
answered-HasLedger h account l = by_network h.network
  where
    by_result :
        (out : Result (ℕ × ℕ)) (l' : LedgerDb)
        → OnOk (λ made. HasLedger account l') out
        → OnOk (λ done. HasLedger account l') (ledger_answer (result_status out))
    by_result (ok made) l' k = k
    by_result (err e) l' k = tt

    by_network :
        (n : Network)
        → let (answer, l') =
            remote n
              (serve_create_ledger_account h.ledger_conn h.ledger_id h.ledger_now account)
              l in
          OnOk (λ done. HasLedger account l') (ledger_answer answer)
    by_network delivered =
        by_result _ (create_ledger_account h.ledger_conn h.ledger_id h.ledger_now account l).1
          (create_ledger_account-HasLedger h.ledger_conn h.ledger_id h.ledger_now account l)
    by_network (request_lost t) = tt
    by_network (reply_lost t) = tt

-- The user has an account, with a ledger account, and the event is recorded.
abbrev pub IsProvisioned : ℕ → ℕ → Books → Type 0
IsProvisioned event user b =
    (account : ℕ) × HasAccount user b.service account
    × HasLedger account b.ledger
    × (is_processed event b.service ≡ true)

with_processed-HasAccount :
    (event user account : ℕ) (db : AccountsDb)
    → HasAccount user db account
    → HasAccount user (with_processed event db) account
      × (is_processed event (with_processed event db) ≡ true)
with_processed-HasAccount event user account db h =
    elim (Bool-cases (exists (λ e. e == event) db.processed_events)) [
      | inl e ↦ rw e (h, e)
      | inr e ↦ rw e (h, ground arith)
    ]

mark-Provisioned :
    (c : Conn) (event user account : ℕ) (db : AccountsDb) (l : LedgerDb)
    → HasAccount user db account
    → HasLedger account l
    → let (out, db') = mark_event_processed c event db in
      OnOk (λ done. IsProvisioned event user (record { service = db'; ledger = l })) out
unfolding mark_event_processed
mark-Provisioned c event user account db l a k =
    elim (c.fails 0)
      as (λ b.
        let (out, db') =
          transaction c db
            (if b then err connection else ok (write tt (with_processed event db))) in
        OnOk (λ done. IsProvisioned event user (record { service = db'; ledger = l })) out) [
          | true ↦ tt
          | false ↦ by_fate c.commit_fate
        ]
  where
    by_fate :
        (f : CommitFate)
        → let (out, db') = commit {A = Unit {0}} f db (with_processed event db) tt in
          OnOk (λ done. IsProvisioned event user (record { service = db'; ledger = l })) out
    by_fate committed =
        let (a', p) = with_processed-HasAccount event user account db a in (account, a', k, p)
    by_fate rolled_back = tt
    by_fate ack_lost = tt

-- A step that succeeds leaves the event handled.
abbrev Provisions : ℕ → ℕ → Result (Unit {0}) × Books → Type 0
Provisions event user (out, b) = OnOk (λ done. IsProvisioned event user b) out

then_mark-Provisions :
    (h : Handling) (event user account : ℕ) (db : AccountsDb) (out : Result (Unit {0}) × LedgerDb)
    → HasAccount user db account
    → OnOk (λ done. HasLedger account out.1) out.0
    → Provisions event user (then_mark h (some event) db out)
then_mark-Provisions h event user account db (err e, l) a k = tt
then_mark-Provisions h event user account db (ok done, l) a k =
    mark-Provisioned h.mark_conn event user account db l a k

then_ledger-Provisions :
    (h : Handling) (event user : ℕ) (l : LedgerDb)
    (made : Result (AccountCreateOutcome × ℕ) × AccountsDb)
    → Opens user made
    → Provisions event user (then_ledger h (some event) l made)
then_ledger-Provisions h event user l (err e, db) o = tt
then_ledger-Provisions h event user l (ok (outcome, account), db) o =
    then_mark-Provisions h event user account db _ o.1 (answered-HasLedger h account l)

-- Handled now, or handled before and then nothing has changed.
abbrev pub IsHandled : ℕ → ℕ → Books → Result (Unit {0}) × Books → Type 0
IsHandled event user b (out, b') =
    OnOk (λ done. IsProvisioned event user b' ⊎ ((is_processed event b.service ≡ true) × (b' ≡ b)))
      out

Provisions-IsHandled :
    (event user : ℕ) (b : Books) (out : Result (Unit {0}) × Books)
    → Provisions event user out
    → IsHandled event user b out
Provisions-IsHandled event user b (err e, b') p = tt
Provisions-IsHandled event user b (ok done, b') p = inl p

-- Let every account have a valid IBAN, and each user and each account number at most one account. If
-- handleUserActivated then returns no error for an event with an id, the user has an account,
-- ledger-svc has a ledger account for it, and the event is recorded as processed; or the event was
-- recorded before and nothing has changed. This holds whatever fails, the calls and the COMMITs
-- among it.
pub handle_user_activated-IsHandled :
    (h : Handling) (event user : ℕ) (b : Books)
    → IsSound b.service
    → IsHandled event user b
        (handle_user_activated h (record { event_id = some event; user_id = user }) b)
unfolding handle_user_activated is_event_processed
handle_user_activated-IsHandled h event user b s =
    by_check (h.check_conn.fails 0) (is_processed event b.service) refl
  where
    by_check :
        (fails known : Bool)
        → is_processed event b.service ≡ known
        → IsHandled event user b
            (handle_unless h event user b (if fails then err connection else ok known))
    by_check true known e = tt
    by_check false true e = inr (e, refl)
    by_check false false e = Provisions-IsHandled event user b (provision h (some event) user b) (
        then_ledger-Provisions h event user b.ledger
          (create_account_for_user h.attempts user h.bank_code b.service)
          (create_account_for_user-Opens h.attempts user h.bank_code b.service s))
