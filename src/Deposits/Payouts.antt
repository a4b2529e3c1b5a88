-- ===== src/Deposits/Payouts.antt =====
-- createWithdrawal (withdrawal.go): its outcome, the ledger and the withdrawals table.
use neo_bank.Prelude.{
  ℕ, ◌≡◌, refl, ◌⊎◌, inl, inr, Bool, true, false, ◌∷◌, Option, none, some, String, arith,
  if◌then◌else◌,
}
use neo_bank.Prelude.Int.{ℤ, pos, ◌≤ℤ◌}
use neo_bank.Prelude.Db.{
  Result, ok, err, connection, write, transaction, commit, CommitFate, committed, rolled_back,
  ack_lost,
}
use neo_bank.Prelude.Rpc.{
  Reply, reply, status, TransportCode, transport, Network, delivered, request_lost, reply_lost,
  remote,
}
use neo_bank.Ledger.State.{LedgerDb}
use neo_bank.Ledger.Post.{TransferOutcome, execute_transfer, genesis_account_id}
use neo_bank.Ledger.Server.{transfer_status, serve_execute_transfer}
use neo_bank.Ledger.Execute.{
  Posts, Executed, invalid, no_sender, no_recipient, insufficient, failed, posted, unacknowledged,
  execute_transfer-Executed, Executed-change,
}
use neo_bank.Transfers.State.{Withdrawal, WithdrawalStatus, payout_simulated, TransfersDb}
use neo_bank.Transfers.Create.{AccountStatus, active, frozen, closed, AccountsClient}
use neo_bank.Transfers.Settle.{Bank}
use neo_bank.Deposits.Create.{is_out_of_bounds}
use neo_bank.Deposits.Withdraw.{
  Payout, CreateWithdrawalOutcome, create_withdrawal_payout_simulated,
  create_withdrawal_invalid_amount, create_withdrawal_account_not_active,
  create_withdrawal_insufficient_funds, CreatedWithdrawal, new_withdrawal, insert_withdrawal,
  recorded, after_debit, after_account, create_withdrawal,
}

module _ (x : Payout) (accounts : AccountsClient) (account : ℕ) (amount : ℤ) (b : Bank) where
  abbrev PostsPayout : LedgerDb → Type 0
  PostsPayout l =
      Posts x.execution.ids x.execution.now account genesis_account_id amount none b.ledger l

  -- The bounds, and the account is active.
  abbrev IsAllowed : Type 0
  IsAllowed =
      (pos 50 ≤ℤ amount)
      × (amount ≤ℤ pos 1000000)
      × (accounts.get_account_by_id account ≡ reply active)

  -- What each result says of the returned withdrawal and of the tables afterwards.
  abbrev pub SaysOf : Result CreatedWithdrawal × Bank → Type 0
  SaysOf (ok (some w, create_withdrawal_payout_simulated), b') =
      IsAllowed
      × PostsPayout b'.ledger
      × (w
          ≡ new_withdrawal x account amount payout_simulated (some x.execution.ids.transaction)
              none)
      × (b'.service.withdrawals ≡ w ∷ b.service.withdrawals)
  SaysOf (ok (some w, create_withdrawal_insufficient_funds), b') =
      IsAllowed
      × (b'.ledger ≡ b.ledger)
      × (w
          ≡ new_withdrawal x account amount WithdrawalStatus.failed none
              (some "insufficient_funds"))
      × (b'.service.withdrawals ≡ w ∷ b.service.withdrawals)
  SaysOf (ok (some w, create_withdrawal_invalid_amount), b') = ⊥
  SaysOf (ok (some w, create_withdrawal_account_not_active), b') = ⊥
  SaysOf (ok (none, create_withdrawal_payout_simulated), b') = ⊥
  SaysOf (ok (none, create_withdrawal_insufficient_funds), b') = ⊥
  SaysOf (ok (none, create_withdrawal_invalid_amount), b') =
      (b' ≡ b) × (is_out_of_bounds amount ≡ true)
  SaysOf (ok (none, create_withdrawal_account_not_active), b') = b' ≡ b
  SaysOf (err e, b') = (b'.ledger ≡ b.ledger) ⊎ (IsAllowed × PostsPayout b'.ledger)

  abbrev with_row : Withdrawal → TransfersDb
  with_row w = record b.service { withdrawals = w ∷ b.service.withdrawals }

  recorded-Says :
      (o : CreateWithdrawalOutcome) (l : LedgerDb) (s : WithdrawalStatus) (t : Option ℕ)
      (reason : Option String)
      → let w = new_withdrawal x account amount s t reason in
        SaysOf (
          ok (some w, o),
          record {
            ledger = l;
            service = record b.service { withdrawals = w ∷ b.service.withdrawals };
          },
        )
        → (l ≡ b.ledger) ⊎ (IsAllowed × PostsPayout l)
        → SaysOf (recorded o l (insert_withdrawal x account amount s t reason b.service))
  unfolding insert_withdrawal
  recorded-Says o l s t reason h p = by_failure (x.conn.fails 0)
    where
      by_fate :
          (f : CommitFate)
          → SaysOf (
              recorded o l (
                commit f b.service
                  (with_row (new_withdrawal x account amount s t reason))
                  (new_withdrawal x account amount s t reason)))
      by_fate committed = h
      by_fate rolled_back = p
      by_fate ack_lost = p

      by_failure :
          (f : Bool)
          → SaysOf (
              recorded o l (
                transaction x.conn b.service (
                  if f
                  then err connection
                  else ok (
                      write
                        (new_withdrawal x account amount s t reason)
                        (with_row (new_withdrawal x account amount s t reason))))))
      by_failure true = p
      by_failure false = by_fate x.conn.commit_fate

  module _ (allowed : IsAllowed) where
    Executed-Says :
        (f : CommitFate) {r : Result (Option ℕ × TransferOutcome) × LedgerDb}
        → Executed x.execution.ids x.execution.now account genesis_account_id amount none b.ledger f
            r
        → SaysOf (after_debit x account amount b.service (transfer_status r.0, r.1))
    Executed-Says f (invalid h) = inl refl
    Executed-Says f (no_sender h) = inl refl
    Executed-Says f (no_recipient h) = inl refl
    Executed-Says f (insufficient l h k) =
        recorded-Says create_withdrawal_insufficient_funds b.ledger WithdrawalStatus.failed none
          (some "insufficient_funds") (allowed, refl, refl, refl) (inl refl)
    Executed-Says f (failed e) = inl refl
    Executed-Says f (posted l p) =
        recorded-Says create_withdrawal_payout_simulated l payout_simulated
          (some x.execution.ids.transaction) none (allowed, p, refl, refl) (inr (allowed, p))
    Executed-Says f (unacknowledged l p e) = inr (allowed, p)

    abbrev executed :
        Executed x.execution.ids x.execution.now account genesis_account_id amount none b.ledger
          x.execution.conn.commit_fate
          (execute_transfer x.execution.conn x.execution.ids x.execution.now account
            genesis_account_id amount none b.ledger)
    executed =
        execute_transfer-Executed x.execution.ids x.execution.now account genesis_account_id amount
          none b.ledger x.execution.conn

    cut-Says :
        (t : TransportCode) (l : LedgerDb)
        → (l ≡ b.ledger) ⊎ PostsPayout l
        → SaysOf (after_debit x account amount b.service (status (transport t), l))
    cut-Says TransportCode.unavailable l (inl e) = inl e
    cut-Says TransportCode.unavailable l (inr p) = inr (allowed, p)
    cut-Says TransportCode.deadline_exceeded l (inl e) = inl e
    cut-Says TransportCode.deadline_exceeded l (inr p) = inr (allowed, p)
    cut-Says TransportCode.unknown l (inl e) = inl e
    cut-Says TransportCode.unknown l (inr p) = inr (allowed, p)
    cut-Says TransportCode.too_large l (inl e) = inl e
    cut-Says TransportCode.too_large l (inr p) = inr (allowed, p)
    cut-Says TransportCode.broken_stream l (inl e) = inl e
    cut-Says TransportCode.broken_stream l (inr p) = inr (allowed, p)
    cut-Says TransportCode.refused l (inl e) = inl e
    cut-Says TransportCode.refused l (inr p) = inr (allowed, p)

    debit-Says :
        (n : Network)
        → SaysOf (
            after_debit x account amount b.service (
              remote n
                (serve_execute_transfer x.execution account genesis_account_id amount none)
                b.ledger))
    unfolding serve_execute_transfer
    debit-Says delivered = Executed-Says x.execution.conn.commit_fate executed
    debit-Says (request_lost t) = cut-Says t b.ledger (inl refl)
    debit-Says (reply_lost t) = cut-Says t _ (
        Executed-change x.execution.ids x.execution.now account genesis_account_id amount none
          b.ledger x.execution.conn.commit_fate executed)

  -- A withdrawal reported as paid out: the amount is within the bounds, the account is active, the
  -- ledger moved exactly the amount from it to the genesis account, within its balance, and the
  -- recorded row names that transaction. One reported as short of funds: the ledger is as it was
  -- and the row is failed. One refused before the ledger is called: nothing changed. If the call
  -- ends in an error, the ledger is as it was or holds that one posting.
  pub create_withdrawal_truth : SaysOf (create_withdrawal x accounts account amount b)
  unfolding create_withdrawal
  create_withdrawal_truth = by_bounds (is_out_of_bounds amount) refl
    where
      by_status :
          (q : Reply AccountStatus)
          → is_out_of_bounds amount ≡ false
          → accounts.get_account_by_id account ≡ q
          → SaysOf (after_account x account amount b q)
      by_status (status code) e f = inl refl
      by_status (reply frozen) e f = refl
      by_status (reply closed) e f = refl
      by_status (reply active) e f = debit-Says (low, high, f) x.network
        where
          low : pos 50 ≤ℤ amount
          low = ground arith

          high : amount ≤ℤ pos 1000000
          high = ground arith

      by_bounds :
          (o : Bool)
          → is_out_of_bounds amount ≡ o
          → SaysOf (
              if o
              then (ok (none, create_withdrawal_invalid_amount), b)
              else after_account x account amount b (accounts.get_account_by_id account))
      by_bounds true e = (refl, e)
      by_bounds false e = by_status (accounts.get_account_by_id account) e refl
