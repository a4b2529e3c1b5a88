-- ===== src/Deposits/Tests.antt =====
-- Deposits of the first customer of a small ledger: one credited, one charged but not yet credited.
use neo_bank.Prelude.{ℕ, ◌≡◌, refl, inl, inr, [], ◌∷◌, none, some, ◌+◌}
use neo_bank.Prelude.Int.{pos, neg, ◌+ℤ◌}
use neo_bank.Prelude.Db.{good, ok}
use neo_bank.Prelude.Rpc.{reply, delivered, reply_lost, TransportCode}
use neo_bank.Ledger.State.{transaction_of_reference, to_bigint, add_to_balance, apply_balance_delta}
use neo_bank.Ledger.Post.{
  lock_order, lock_both, post_unchecked_transfer, existing_transaction, post_unless, post_after,
  post_pair, reverse_deposit,
}
use neo_bank.Ledger.Server.{serve_reverse_deposit}
use neo_bank.Ledger.Tests.{books, ids, lossy}
use neo_bank.Outbox.State.{Draw}
use neo_bank.Transfers.State.{Deposit, DepositStatus}
use neo_bank.Transfers.Settle.{Bank}
use neo_bank.Transfers.Tests.{accounts, no_rows_yet}
use neo_bank.Deposits.Rows.{get_deposit_by_stripe_payment_intent_id}
use neo_bank.Deposits.Credit.{Crediting, Polling, Pass, reconcile_deposits_once, intent_canceled}
use neo_bank.Deposits.Webhook.{
  StripeEvent, charge_refunded, Delivery, process_stripe_event, process_charge_refunded_event,
  record_processed_event, record_processed_event_and_update_deposit,
}
use neo_bank.Deposits.Withdraw.{Payout, create_withdrawal}
use neo_bank.Deposits.Backed.{IsBacked}
use neo_bank.Deposits.Kept.{reconcile_deposits_once-IsBacked}
use neo_bank.Deposits.Delivered.{process_stripe_event-IsBacked}
use neo_bank.Deposits.Once.{process_stripe_event_again}
use neo_bank.Deposits.Payouts.{SaysOf, create_withdrawal_truth}

-- The ledger holds its transaction 20 under the id 7.
abbrev credited_row : Deposit
credited_row = record {
  id = 7;
  account_id = 2;
  amount = pos 100;
  status = DepositStatus.credited;
  stripe_payment_intent_id = some 80;
  ledger_transaction_id = some 20;
  failure_reason = none;
  created_at = 2;
  updated_at = 3;
}

abbrev charged_row : Deposit
charged_row = record {
  id = 9;
  account_id = 2;
  amount = pos 60;
  status = DepositStatus.succeeded;
  stripe_payment_intent_id = some 81;
  ledger_transaction_id = none;
  failure_reason = none;
  created_at = 4;
  updated_at = 5;
}

abbrev bank : Bank
bank = record {
  ledger = books;
  service = record no_rows_yet { deposits = charged_row ∷ credited_row ∷ [] };
}

backed : IsBacked bank
unfolding transaction_of_reference
backed = (inl refl, (inr (20, refl, refl), tt))

abbrev draw : Draw
draw = record { serial = 1; event_id = 60; now = 9 }

-- The ledger commits, and loses the acknowledgement.
abbrev crediting : Deposit → Crediting
crediting d = record {
  network = delivered;
  execution = record { conn = lossy; ids = ids; now = 6 };
  conn = good;
  draw = draw;
}

abbrev polling : Deposit → Polling
polling d = record { answer = reply intent_canceled; conn = good; now = 9 }

abbrev pass : Pass
pass = record {
  now = 9;
  succeeded_conn = good;
  pending_conn = good;
  orphaned_conn = good;
  crediting = crediting;
  polling = polling;
  failing = λ d. good;
}

reconcile_deposits_once-IsBacked_example : IsBacked (reconcile_deposits_once pass 2 bank)
reconcile_deposits_once-IsBacked_example = reconcile_deposits_once-IsBacked pass 2 bank backed

abbrev reference_of : ℕ → ℕ
reference_of id = id + 1000

abbrev refund : StripeEvent
refund = record { id = 90; payload = charge_refunded (some 80) }

abbrev delivery : Delivery
delivery = record {
  lookup_conn = good;
  network = delivered;
  execution = record { conn = good; ids = ids; now = 6 };
  conn = good;
  now = 9;
}

process_stripe_event-IsBacked_example :
    IsBacked (process_stripe_event reference_of delivery refund bank).1
process_stripe_event-IsBacked_example =
    process_stripe_event-IsBacked reference_of delivery refund bank backed

refunded : (process_stripe_event reference_of delivery refund bank).0 ≡ ok tt
unfolding process_stripe_event process_charge_refunded_event get_deposit_by_stripe_payment_intent_id
    record_processed_event_and_update_deposit record_processed_event serve_reverse_deposit
    reverse_deposit post_unchecked_transfer existing_transaction transaction_of_reference
    post_unless lock_order lock_both post_after post_pair apply_balance_delta add_to_balance
    to_bigint neg ◌+ℤ◌
refunded = refl

abbrev late : Delivery
late = record {
  lookup_conn = good;
  network = reply_lost TransportCode.unavailable;
  execution = record { conn = good; ids = ids; now = 7 };
  conn = good;
  now = 10;
}

process_stripe_event_again_example :
    let after = (process_stripe_event reference_of delivery refund bank).1 in
    (process_stripe_event reference_of late refund after).1.service ≡ after.service
process_stripe_event_again_example =
    process_stripe_event_again reference_of delivery late refund bank refunded

abbrev payout : Payout
payout = record {
  network = delivered;
  execution = record { conn = good; ids = ids; now = 6 };
  id = 95;
  now = 9;
  conn = good;
}

create_withdrawal_truth_example :
    SaysOf payout accounts 2 (pos 70) bank (create_withdrawal payout accounts 2 (pos 70) bank)
create_withdrawal_truth_example = create_withdrawal_truth payout accounts 2 (pos 70) bank
