-- ===== src/Transfers/Returned.antt =====
-- The rows that the writers of transfer.go return.
use neo_bank.Prelude.{
  ℕ, ◌≡◌, refl, inl, inr, ◌==◌, Bool-cases, ◌∙◌, sym, Option, none, some, String, arith, List, [],
  ◌∷◌, find, update,
}
use neo_bank.Prelude.Db.{
  Result, ok, err, OnOk, OnOk-bind, OnOk-step, Conn, Work, roll_back, write, begin, transaction,
  CommitFate, committed, rolled_back, ack_lost, commit,
}
use neo_bank.Outbox.State.{Draw}
use neo_bank.Transfers.State.{Transfer, TransferStatus, TransfersDb, has_id}
use neo_bank.Transfers.Mark.{
  mark, mark_transfer_completed, mark_transfer_failed, uuid_text, returned,
}

find-update :
    (id : ℕ) (change : Transfer → Transfer) (Q : Transfer → Type 0)
    → ((t : Transfer) → has_id id (change t) ≡ has_id id t)
    → ((t : Transfer) → t.id ≡ id → Q (change t))
    → (ts : List Transfer) → OnOk Q (returned (find (has_id id) (update (has_id id) change ts)))
find-update id change Q same h [] = tt
find-update id change Q same h (t ∷ ts) = elim (Bool-cases (t.id == id)) [
  | inl e ↦ rw (e, same t ∙ e) (h t (ground arith))
  | inr e ↦ rw (e, e) (find-update id change Q same h ts)
]

-- The value that a transaction returns when it succeeds.
abbrev OnValue : {S A : Type 0} → (A → Type 0) → Work S A → Type 0
OnValue Q (roll_back a) = Q a
OnValue Q (write a s) = Q a

transaction-OnOk :
    {S A : Type 0} (Q : A → Type 0) (c : Conn) (s : S) (w : Result (Work S A))
    → OnOk (OnValue Q) w
    → OnOk Q (transaction c s w).0
transaction-OnOk Q c s (err e) h = tt
transaction-OnOk Q c s (ok (roll_back a)) h = h
transaction-OnOk Q c s (ok (write a s')) h = by_fate c.commit_fate
  where
    by_fate : (f : CommitFate) → OnOk Q (commit f s s' a).0
    by_fate committed = h
    by_fate rolled_back = tt
    by_fate ack_lost = tt

-- The row of a completed, or of a failed, transfer.
abbrev pub IsCompletedAs : ℕ → Option ℕ → Transfer → Type 0
IsCompletedAs id l t =
    (t.id ≡ id) × (t.status ≡ TransferStatus.completed) × (t.ledger_transaction_id ≡ l)

abbrev pub IsFailedAs : ℕ → String → Transfer → Type 0
IsFailedAs id reason t =
    (t.id ≡ id) × (t.status ≡ TransferStatus.failed) × (t.failure_reason ≡ some reason)

uuid_text-some : (l : Option ℕ) (n : ℕ) → uuid_text l ≡ ok n → l ≡ some n
uuid_text-some none n e = cc
uuid_text-some (some m) n e = cc

module _ (c : Conn) (d : Draw) (id : ℕ) (db : TransfersDb) where
  mark-OnValue :
      (change : Transfer → Transfer) (event : Transfer → _) (Q : Transfer → Type 0)
      → ((t : Transfer) → has_id id (change t) ≡ has_id id t)
      → ((t : Transfer) → t.id ≡ id → Q (change t))
      → OnOk (OnValue Q) (mark c d id change event db)
  unfolding mark
  mark-OnValue change event Q same h = OnOk-step (OnValue Q) c 1 _ _ λ u e.
      OnOk-step (OnValue Q) c 2 (ok tt) _ λ _ _.
        OnOk-step (OnValue Q) c 3 (ok tt) _
          λ _ _. rw e at (find-update id change Q same h db.transfers)

  pub mark_transfer_completed-IsCompletedAs :
      (l : Option ℕ) → OnOk (IsCompletedAs id l) (mark_transfer_completed c d id l db).0
  unfolding mark_transfer_completed
  mark_transfer_completed-IsCompletedAs l = transaction-OnOk (IsCompletedAs id l) c db _ (
      OnOk-bind (OnValue (IsCompletedAs id l)) (begin c) _ λ _ _.
        OnOk-bind (OnValue (IsCompletedAs id l)) (uuid_text l) _ λ n e.
          mark-OnValue _ _ (IsCompletedAs id l) (λ t. refl)
            (λ t f. (f, refl, sym (uuid_text-some l n e))))

  pub mark_transfer_failed-IsFailedAs :
      (reason : String) → OnOk (IsFailedAs id reason) (mark_transfer_failed c d id reason db).0
  unfolding mark_transfer_failed
  mark_transfer_failed-IsFailedAs reason = transaction-OnOk (IsFailedAs id reason) c db _ (
      OnOk-bind (OnValue (IsFailedAs id reason)) (begin c) _
        λ _ _. mark-OnValue _ _ (IsFailedAs id reason) (λ t. refl) (λ t e. (e, refl, refl)))
