-- ===== src/Transfers/Admits.antt =====
-- createTransfer (transfer.go): the checks before the INSERT.
use neo_bank.Prelude.{ℕ, ◌≡◌, ◌≢◌, refl, Bool, true, false, ◌==◌, if◌then◌else◌, arith}
use neo_bank.Prelude.Int.{pos, ◌≤ℤ◌, leb_ℤ}
use neo_bank.Prelude.Db.{ok, OnOk}
use neo_bank.Prelude.Rpc.{Reply, reply, status}
use neo_bank.Transfers.State.{Transfer}
use neo_bank.Transfers.Create.{
  AccountStatus, active, frozen, closed, AccountsClient, create_transfer_self_transfer,
  create_transfer_recipient_closed, create_transfer_invalid_amount, is_closed, TransferRequest,
  Check, refused, accepted, check_request, check_recipient, check_sender, resolve_refusal, refusal,
}

-- The request's recipient resolves to another account than the sender's, which is not closed; the
-- sender's is active; the amount is positive.
pub record Admits (accounts : AccountsClient) (r : TransferRequest) (recipient : ℕ) : Type 0 where
  pub recipient_status : AccountStatus
  pub positive : pos 1 ≤ℤ r.amount
  pub resolves :
      accounts.resolve_account_by_iban r.recipient_iban r.user_id
      ≡ reply (recipient, recipient_status)
  pub other : recipient ≢ r.sender_account_id
  pub recipient_open : recipient_status ≢ closed
  pub sender_active : accounts.get_account_by_id r.sender_account_id ≡ reply active

-- A stored transfer is the one that the request asks for.
pub record Matches (accounts : AccountsClient) (r : TransferRequest) (t : Transfer) : Type 0 where
  pub same_sender : t.sender_account_id ≡ r.sender_account_id
  pub same_amount : t.amount ≡ r.amount
  pub recipient_status : AccountStatus
  pub resolves :
      accounts.resolve_account_by_iban r.recipient_iban r.user_id
      ≡ reply (t.recipient_account_id, recipient_status)

module _ (accounts : AccountsClient) (r : TransferRequest) where
  abbrev pub IsAdmitted : Check → Type 0
  IsAdmitted (refused o) = Unit {0}
  IsAdmitted (accepted recipient) = Admits accounts r recipient

  pub check_request-IsAdmitted : OnOk IsAdmitted (check_request accounts r)
  unfolding check_request
  check_request-IsAdmitted =
      by_amount (leb_ℤ r.amount (pos 0))
        (accounts.resolve_account_by_iban r.recipient_iban r.user_id) refl refl
    where
      by_code : (code : _) → OnOk IsAdmitted (refusal (resolve_refusal code))
      by_code code = ground arith

      by_sender :
          (recipient : ℕ) (s : AccountStatus) (q : Reply AccountStatus)
          → pos 1 ≤ℤ r.amount
          → accounts.resolve_account_by_iban r.recipient_iban r.user_id ≡ reply (recipient, s)
          → recipient ≢ r.sender_account_id
          → s ≢ closed
          → accounts.get_account_by_id r.sender_account_id ≡ q
          → OnOk IsAdmitted (check_sender recipient q)
      by_sender recipient s (status code) p e n o a = tt
      by_sender recipient s (reply active) p e n o a = record {
        recipient_status = s;
        positive = p;
        resolves = e;
        other = n;
        recipient_open = o;
        sender_active = a;
      }
      by_sender recipient s (reply frozen) p e n o a = tt
      by_sender recipient s (reply closed) p e n o a = tt

      by_status :
          (recipient : ℕ) (s : AccountStatus) (self : Bool)
          → pos 1 ≤ℤ r.amount
          → accounts.resolve_account_by_iban r.recipient_iban r.user_id ≡ reply (recipient, s)
          → (recipient == r.sender_account_id) ≡ self
          → OnOk IsAdmitted (
              if self
              then ok (refused create_transfer_self_transfer)
              else if is_closed s
              then ok (refused create_transfer_recipient_closed)
              else check_sender recipient (accounts.get_account_by_id r.sender_account_id))
      by_status recipient s true p e n = tt
      by_status recipient closed false p e n = tt
      by_status recipient active false p e n =
          by_sender recipient active _ p e (λ q. ground arith) (λ q. cc) refl
      by_status recipient frozen false p e n =
          by_sender recipient frozen _ p e (λ q. ground arith) (λ q. cc) refl

      by_amount :
          (b : Bool) (q : Reply (ℕ × AccountStatus))
          → leb_ℤ r.amount (pos 0) ≡ b
          → accounts.resolve_account_by_iban r.recipient_iban r.user_id ≡ q
          → OnOk IsAdmitted (
              if b
              then ok (refused create_transfer_invalid_amount)
              else check_recipient accounts r q)
      by_amount true q e f = tt
      by_amount false (status code) e f = by_code code
      by_amount false (reply (recipient, s)) e f =
          by_status recipient s (recipient == r.sender_account_id) (ground arith) f refl
