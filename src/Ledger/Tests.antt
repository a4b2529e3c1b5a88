-- ===== src/Ledger/Tests.antt =====
-- A small ledger: the genesis account, and two customers of whom the first was credited 100.
use neo_bank.Prelude.{ℕ, ◌≡◌, ◌≢◌, refl, ◌⊎◌, false, [], ◌∷◌, Option, none, some, arith}
use neo_bank.Prelude.Int.{pos, negsuc, neg, ◌+ℤ◌, ◌≤ℤ◌}
use neo_bank.Prelude.Db.{Conn, good, ack_lost, ok}
use neo_bank.Ledger.State.{
  LedgerDb, Ids, ledger_account_id, sum_entries, cached_balance, transaction_of_reference,
  to_bigint, add_to_balance, apply_balance_delta, set_balance,
}
use neo_bank.Ledger.Post.{
  lock_order, lock_both, execute_transfer, execute_after, execute_locked, post_pair, debit_entry,
  credit_entry, post_unchecked_transfer, existing_transaction, post_unless, post_after, deposit,
  reverse_deposit, transfer_ok, transfer_insufficient_funds, deposit_ok,
}
use neo_bank.Ledger.Reads.{answer, rebuild_balance, get_transaction_by_reference}
use neo_bank.Ledger.Unchecked.{PostsUnchecked, known}
use neo_bank.Ledger.Execute.{Posts}
use neo_bank.Ledger.Invariant.{
  total, IsCached, execute_transfer-safe, execute_transfer-IsCached,
  post_unchecked_transfer-balanced,
}
use neo_bank.Ledger.Effects.{Transferred, execute_transfer_moves, execute_transfer_atomic}
use neo_bank.Ledger.Replay.{Attempt, deliveries, deliveries_post_once, reverse_deposit_restores}
use neo_bank.Ledger.Rebuild.{rebuild_balance_repairs, get_transaction_by_reference_truth}

abbrev pub books : LedgerDb
books = record {
  ledger_accounts =
      record { id = 11; account_id = 1; created_at = 0 }
      ∷ record { id = 12; account_id = 2; created_at = 1 }
      ∷ record { id = 13; account_id = 3; created_at = 2 }
      ∷ [];
  entries =
      record {
        id = 21;
        transaction_id = 20;
        ledger_account_id = 12;
        amount = pos 100;
        reference = some 7;
        created_at = 3;
      }
      ∷ record {
        id = 22;
        transaction_id = 20;
        ledger_account_id = 11;
        amount = negsuc 99;
        reference = some 7;
        created_at = 3;
      }
      ∷ [];
  account_balances =
      record { ledger_account_id = 11; balance = negsuc 99 }
      ∷ record { ledger_account_id = 12; balance = pos 100 }
      ∷ [];
}

abbrev pub ids : Ids
ids = record { transaction = 30; debit = 31; credit = 32 }

abbrev other_ids : Ids
other_ids = record { transaction = 40; debit = 41; credit = 42 }

-- A connection on which the COMMIT takes effect and its acknowledgement is lost.
abbrev pub lossy : Conn
lossy = record { fails = λ _. false; commit_fate = ack_lost }

books-IsCached : IsCached books
unfolding cached_balance sum_entries ◌+ℤ◌
books-IsCached l = ground arith

-- Runs.
overdraft :
    (execute_transfer good ids 5 2 3 (pos 101) (some 8) books).0
    ≡ ok (none, transfer_insufficient_funds)
unfolding execute_transfer execute_after execute_locked lock_order lock_both sum_entries to_bigint
    ◌+ℤ◌
overdraft = refl

moved : (execute_transfer good ids 5 2 3 (pos 40) (some 8) books).0 ≡ ok (some 30, transfer_ok)
unfolding execute_transfer execute_after execute_locked lock_order lock_both sum_entries to_bigint
    post_pair apply_balance_delta add_to_balance neg ◌+ℤ◌
moved = refl

lost_but_moved :
    sum_entries 13 (execute_transfer lossy ids 5 2 3 (pos 40) (some 8) books).1.entries ≡ pos 40
unfolding execute_transfer execute_after execute_locked lock_order lock_both sum_entries to_bigint
    post_pair apply_balance_delta add_to_balance neg ◌+ℤ◌ debit_entry credit_entry
lost_but_moved = refl

positive : pos 0 ≤ℤ sum_entries 12 books.entries
unfolding sum_entries ◌+ℤ◌
positive = ground arith

-- Witnesses.
execute_transfer-safe_example :
    let after = (execute_transfer lossy ids 5 2 3 (pos 40) (some 8) books).1 in
    (total after.entries ≡ total books.entries) × (pos 0 ≤ℤ sum_entries 12 after.entries)
execute_transfer-safe_example =
    execute_transfer-safe lossy ids 5 2 3 (pos 40) (some 8) books 12 positive

execute_transfer-IsCached_example :
    IsCached (execute_transfer good ids 5 2 3 (pos 40) (some 8) books).1
execute_transfer-IsCached_example =
    execute_transfer-IsCached good ids 5 2 3 (pos 40) (some 8) books books-IsCached

balanced : total books.entries ≡ pos 0
unfolding ◌+ℤ◌
balanced = refl

post_unchecked_transfer-balanced_example :
    let after = (post_unchecked_transfer good ids 5 2 1 (pos 150) (some 8) books).1 in
    (total after.entries ≡ pos 0) × IsCached after
post_unchecked_transfer-balanced_example =
    post_unchecked_transfer-balanced good ids 5 2 1 (pos 150) (some 8) books balanced books-IsCached

execute_transfer_moves_example :
    (◌≡◌ {A = Option ℕ} (some 30) (some ids.transaction))
    × ((l : ℕ) × (l' : ℕ) × (ledger_account_id 2 books.ledger_accounts ≡ some l)
        × (ledger_account_id 3 books.ledger_accounts ≡ some l')
        × (pos 1 ≤ℤ pos 40)
        × (pos 40 ≤ℤ sum_entries l books.entries)
        × ((l ≡ l')
            ⊎ Transferred l l'
                (pos 40)
                books
                (execute_transfer good ids 5 2 3 (pos 40) (some 8) books).1))
execute_transfer_moves_example = execute_transfer_moves ids 5 2 3 (pos 40) (some 8) books good moved

short : (execute_transfer good ids 5 2 3 (pos 101) (some 8) books).0 ≢ ok (some 30, transfer_ok)
short e = cc (overdraft, e)

acknowledged : good.commit_fate ≢ ack_lost
acknowledged e = cc

execute_transfer_atomic_example :
    (execute_transfer good ids 5 2 3 (pos 101) (some 8) books).1 ≡ books
execute_transfer_atomic_example =
    execute_transfer_atomic ids 5 2 3 (pos 101) (some 8) books good acknowledged short

unknown_reference : known (some 8) books ≡ none
unfolding transaction_of_reference
unknown_reference = refl

abbrev attempt : Attempt
attempt = record { conn = lossy; ids = ids; now = 5 }

abbrev retry : Attempt
retry = record { conn = good; ids = other_ids; now = 6 }

deliveries_post_once_example :
    (deliveries 1 3 (pos 40) 8 (attempt ∷ retry ∷ []) books ≡ books)
    ⊎ ((a : Attempt) × PostsUnchecked a.ids a.now 1 3
          (pos 40)
          (some 8)
          books
          (deliveries 1 3 (pos 40) 8 (attempt ∷ retry ∷ []) books))
deliveries_post_once_example =
    deliveries_post_once 1 3 (pos 40) 8 (attempt ∷ retry ∷ []) books unknown_reference

deposited :
    (post_unchecked_transfer good other_ids 6 1 3 (pos 40) (some 8) books).0
    ≡ ok (some 40, deposit_ok)
unfolding post_unchecked_transfer existing_transaction transaction_of_reference post_unless
    lock_order lock_both post_after post_pair apply_balance_delta add_to_balance to_bigint neg ◌+ℤ◌
deposited = refl

reversed_reference : known (some 9) (deposit good ids 5 3 (pos 40) (some 8) books).1 ≡ none
unfolding deposit post_unchecked_transfer existing_transaction transaction_of_reference post_unless
    lock_order lock_both post_after post_pair apply_balance_delta add_to_balance to_bigint neg ◌+ℤ◌
    debit_entry credit_entry
reversed_reference = refl

abbrev first : Attempt
first = record { conn = good; ids = ids; now = 5 }

first_ok : (deposit good ids 5 3 (pos 40) (some 8) books).0 ≡ ok (some 30, deposit_ok)
unfolding deposit post_unchecked_transfer existing_transaction transaction_of_reference post_unless
    lock_order lock_both post_after post_pair apply_balance_delta add_to_balance to_bigint neg ◌+ℤ◌
first_ok = refl

second_ok :
    (reverse_deposit good other_ids 6 3
      (pos 40)
      (some 9)
      (deposit good ids 5 3 (pos 40) (some 8) books).1).0
    ≡ ok (some 40, deposit_ok)
unfolding deposit reverse_deposit post_unchecked_transfer existing_transaction
    transaction_of_reference post_unless lock_order lock_both post_after post_pair
    apply_balance_delta add_to_balance to_bigint neg ◌+ℤ◌ debit_entry credit_entry
second_ok = refl

reverse_deposit_restores_example :
    sum_entries 13
      (reverse_deposit good other_ids 6 3
        (pos 40)
        (some 9)
        (deposit good ids 5 3 (pos 40) (some 8) books).1).1.entries
    ≡ sum_entries 13 books.entries
reverse_deposit_restores_example =
    reverse_deposit_restores first retry 3 (pos 40) 8 9 books unknown_reference reversed_reference
      first_ok second_ok 13

-- The second customer's cache has drifted.
abbrev drifted : LedgerDb
drifted = record books { account_balances = [] }

rebuilt_ok : (rebuild_balance good 2 drifted).0 ≡ ok (answer (pos 100))
unfolding rebuild_balance sum_entries to_bigint set_balance ◌+ℤ◌
rebuilt_ok = refl

rebuild_balance_repairs_example :
    let after = (rebuild_balance good 2 drifted).1 in
    (pos 100 ≡ sum_entries 12 books.entries)
    × (cached_balance 12 after.account_balances ≡ sum_entries 12 books.entries)
    × ((j : ℕ) → (j ≡ 12) ⊎ (cached_balance j after.account_balances ≡ cached_balance j []))
    × (after.entries ≡ books.entries)
rebuild_balance_repairs_example = rebuild_balance_repairs good 2 12 drifted refl rebuilt_ok

get_transaction_by_reference_truth_example :
    let after = (execute_transfer lossy ids 5 2 3 (pos 40) (some 8) books).1 in
    ((get_transaction_by_reference good 8 after ≡ ok none) × (after ≡ books))
    ⊎ ((get_transaction_by_reference good 8 after ≡ ok (some 30))
        × Posts ids 5 2 3 (pos 40) (some 8) books after)
get_transaction_by_reference_truth_example =
    get_transaction_by_reference_truth lossy ids 5 2 3 (pos 40) 8 books unknown_reference
