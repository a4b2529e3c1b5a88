-- ===== src/Transfers/Resolved.antt =====
-- reconcileTransfer (reconcile.go) after executeTransfer (ledger.go): the row and the ledger.
use neo_bank.Prelude.{
  ℕ, ◌≡◌, ◌≢◌, refl, ◌⊎◌, inl, inr, ◌==◌, Bool-cases, none, some, String, arith, update, count,
}
use neo_bank.Prelude.Db.{Conn, good}
use neo_bank.Prelude.Rpc.{delivered}
use neo_bank.Ledger.State.{LedgerDb, Ids, transaction_of_reference}
use neo_bank.Ledger.Post.{execute_transfer}
use neo_bank.Ledger.Execute.{Posts}
use neo_bank.Ledger.Server.{serve_get_transaction_by_reference}
use neo_bank.Ledger.Rebuild.{get_transaction_by_reference_truth}
use neo_bank.Outbox.State.{Draw}
use neo_bank.Transfers.State.{Transfer, TransfersDb}
use neo_bank.Transfers.Mark.{
  complete, fail, is_pending_id, mark_if_pending, mark_transfer_completed_if_pending,
  mark_transfer_failed_if_pending,
}
use neo_bank.Transfers.Reconcile.{Resolution, reconcile_transfer}

-- A resolution whose call arrives and whose connections do not fail.
abbrev pub smooth : Draw → Resolution
smooth d = record { network = delivered; query_conn = good; conn = good; draw = d }

module _ (d : Draw) (t : Transfer) (db : TransfersDb) where
  completed_smooth :
      (l : ℕ)
      → count (is_pending_id t.id) db.transfers ≢ 0
      → (mark_transfer_completed_if_pending good d t (some l) db).1.transfers
        ≡ update (is_pending_id t.id) (complete d.now l) db.transfers
  unfolding mark_transfer_completed_if_pending mark_if_pending
  completed_smooth l n = elim (Bool-cases (count (is_pending_id t.id) db.transfers == 0)) [
    | inl e ↦ absurd (n (ground arith))
    | inr e ↦ rw e refl
  ]

  failed_smooth :
      (reason : String)
      → count (is_pending_id t.id) db.transfers ≢ 0
      → (mark_transfer_failed_if_pending good d t reason db).1.transfers
        ≡ update (is_pending_id t.id) (fail d.now reason) db.transfers
  unfolding mark_transfer_failed_if_pending mark_if_pending
  failed_smooth reason n = elim (Bool-cases (count (is_pending_id t.id) db.transfers == 0)) [
    | inl e ↦ absurd (n (ground arith))
    | inr e ↦ rw e refl
  ]

  -- However the ledger's execution of a transfer ended, acknowledged or not, a reconciliation that
  -- meets no failure marks the pending row completed under the posted transaction if the ledger
  -- posted the transfer, and failed with timeout_unresolved if the ledger is as it was.
  pub reconcile_transfer_truth :
      (c : Conn) (ids : Ids) (now : ℕ) (l : LedgerDb)
      → transaction_of_reference t.id l.entries ≡ none
      → count (is_pending_id t.id) db.transfers ≢ 0
      → let l' =
          (execute_transfer c ids now t.sender_account_id t.recipient_account_id t.amount
            (some t.id)
            l).1 in
        let rows = (reconcile_transfer (smooth d) t l' db).transfers in
        ((l' ≡ l)
          × (rows ≡ update (is_pending_id t.id) (fail d.now "timeout_unresolved") db.transfers))
        ⊎ (Posts ids now t.sender_account_id t.recipient_account_id t.amount (some t.id) l l'
            × (rows ≡ update (is_pending_id t.id) (complete d.now ids.transaction) db.transfers))
  unfolding reconcile_transfer serve_get_transaction_by_reference
  reconcile_transfer_truth c ids now l k n =
      elim (get_transaction_by_reference_truth c ids now t.sender_account_id t.recipient_account_id
        t.amount t.id l k) [
          | inl (e, same) ↦ inl (same, rw e (failed_smooth "timeout_unresolved" n))
          | inr (e, p) ↦ inr (p, rw e (completed_smooth ids.transaction n))
        ]
